-- ===== src/Client.antt =====
-- packages/client/lib/client: the parts of one client.
pub mod Queue
pub mod Cache
pub mod PubSub
pub mod Parser
pub mod LinkedList
pub mod Pool

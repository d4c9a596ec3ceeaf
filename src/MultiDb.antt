-- ===== src/MultiDb.antt =====
-- packages/client/lib/multi-db: the parts that decide when a member is faulty and which one is next.
pub mod Circuit
pub mod Detector
pub mod Probe
pub mod Failover

-- ===== src/Utils.antt =====
-- packages/client/lib/utils: the pure helpers.
pub mod Slot

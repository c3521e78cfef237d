-- ===== src/Common.antt =====
-- The common module, common/.
pub mod LinkedList

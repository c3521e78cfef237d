-- ===== src/Index.antt =====
-- The index, index/: its helpers, its databases, and the run that adds a formula.
pub mod Util
pub mod Db
pub mod Formula
pub mod Run
pub mod Rising
pub mod Invariant
mod Tests

-- ===== src/Search.antt =====
-- The search module, search/.
pub mod DirMerge
pub mod MinHeap
pub mod PosMerge
pub mod Query
pub mod Rank
pub mod Score

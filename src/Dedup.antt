-- ===== src/Dedup.antt =====
-- Deduplication: python/jude/curate_dist.py, python/jude/incremental_dedup.py and what they run
-- on workers.
pub mod UnionFind
pub mod FuzzyEdges
pub mod Shuffle
pub mod Fuzzy
pub mod Exact
pub mod Image
pub mod Propagation
pub mod Substring

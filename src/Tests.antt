-- ===== src/Tests.antt =====
-- Runs of the modelled code at small inputs, and the theorems at them.
pub mod Dedup
pub mod Dispatch
pub mod Packing
pub mod Worker
pub mod Shuffles
pub mod Components
pub mod Observe
pub mod Catalog
pub mod Texts
pub mod Cardinality

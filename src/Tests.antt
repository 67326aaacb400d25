-- ===== src/Tests.antt =====
-- A small index, and the theorems applied to it.
pub mod Sample
pub mod Search
pub mod Parts
pub mod Build
pub mod Index
pub mod Json
pub mod Body

-- ===== src/Ivf/Exact.antt =====
-- What the phases of the search have seen, and that the repair makes the five places exact.
-- For the vector code over blocks, which is what an amd64 server with a current index runs.
pub mod Phases
pub mod Repaired
pub mod Answer
pub mod Shape
pub mod Total

-- ===== src/Ivf.antt =====
-- apps/api/internal/fraud/ivf_search.go: the search over an inverted file of clusters.
pub mod State
pub mod Kernel
pub mod Scan
pub mod Centroids
pub mod Rules
pub mod Search
pub mod Exact

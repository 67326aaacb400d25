-- ===== src/Build/Materialize.antt =====
-- `materializeIVF` in ivf_build.go. Its arrays are written from front to back, every entry once;
-- here the lists grow by what a cluster writes.
pub mod Entries
pub mod Sizes
pub mod Located
pub mod Values
pub mod Widths
use heindall.Prelude.{
  ℕ, zero, suc, ◌+◌, ◌-◌, ◌*◌, ◌%◌, ◌^◌, Bool, List, [], ◌∷◌, ◌++◌, map, get_or, length,
}
use heindall.Prelude.Int.{ℤ}
use heindall.Quantized.{IvfMetadata, at, dimensions}
use heindall.Build.{
  blocks_for_rows, build_ivf_blocks, compute_cluster_stats, sort_cluster_by_centroid_distance,
}
use heindall.Build.Split.{IvfBuildRange, window}

pub record IvfBuildOptions : Type 0 where
  pub clusters : ℤ
  pub nprobe : ℤ
  pub ambiguous_nprobe : ℤ
  pub repair : Bool

-- The `n` entries from coordinate `d` on.
abbrev pub fill : (ℕ → ℤ) → ℕ → ℕ → List ℤ
fill g zero d = []
fill g (suc n) d = g d ∷ fill g n (d + 1)

-- The copies of the vectors of the ids.
abbrev pub gather : List ℤ → List ℕ → List ℤ
gather vectors [] = []
gather vectors (id ∷ ids) =
    fill (λ d. at vectors (id * dimensions + d)) dimensions 0 ++ gather vectors ids

-- The arrays behind the clusters written so far; the offset tables without their first entry.
pub record Materialized : Type 0 where
  pub vectors : List ℤ
  pub labels : List ℕ
  pub centroids : List ℤ
  pub list_offsets : List ℕ
  pub block_offsets : List ℕ
  pub bbox_min : List ℤ
  pub bbox_max : List ℤ
  pub orig_ids : List ℕ

abbrev pub nothing_written : Materialized
nothing_written = record {
  vectors = [];
  labels = [];
  centroids = [];
  list_offsets = [];
  block_offsets = [];
  bbox_min = [];
  bbox_max = [];
  orig_ids = [];
}

-- The rows of a cluster, in their order.
unfoldable pub cluster_ids : List ℤ → List ℕ → List ℕ
unfolding sort_cluster_by_centroid_distance
cluster_ids vectors rows =
    sort_cluster_by_centroid_distance vectors rows
      (fill (λ d. (compute_cluster_stats vectors rows d).0) dimensions 0)

-- The loop over the ranges that are left.
unfoldable pub materialize_from :
    List ℤ → List ℕ → List ℕ → List IvfBuildRange → ℕ → ℕ → Materialized
unfolding cluster_ids compute_cluster_stats
materialize_from vectors labels ids [] row block = nothing_written
materialize_from vectors labels ids (r ∷ rs) row block =
    let rows = window ids r in
    let stats = compute_cluster_stats vectors rows in
    let own = cluster_ids vectors rows in
    let row' = row + length own in
    let block' = block + blocks_for_rows (length own) in
    let rest = materialize_from vectors labels ids rs row' block' in
    record {
      vectors = gather vectors own ++ rest.vectors;
      labels = map (λ id. get_or labels id 0) own ++ rest.labels;
      centroids = fill (λ d. (stats d).0) dimensions 0 ++ rest.centroids;
      list_offsets = (row' % 2 ^ 32) ∷ rest.list_offsets;
      block_offsets = (block' % 2 ^ 32) ∷ rest.block_offsets;
      bbox_min = fill (λ d. (stats d).1) dimensions 0 ++ rest.bbox_min;
      bbox_max = fill (λ d. (stats d).2) dimensions 0 ++ rest.bbox_max;
      orig_ids = own ++ rest.orig_ids;
    }

-- Vectors, labels, blocks and the rest of the index.
unfoldable pub materialize_ivf :
    List ℤ
    → List ℕ
    → List ℕ
    → List IvfBuildRange
    → IvfBuildOptions
    → List ℤ × List ℕ × List ℤ × IvfMetadata
unfolding materialize_from build_ivf_blocks
materialize_ivf vectors labels ids ranges opts =
    let m = materialize_from vectors labels ids ranges 0 0 in
    let lists = 0 ∷ m.list_offsets in
    let blocks = 0 ∷ m.block_offsets in
    (
      m.vectors,
      m.labels,
      build_ivf_blocks m.vectors lists blocks,
      record {
        clusters = length ranges;
        centroids = m.centroids;
        centroid_blocks = [];
        list_offsets = lists;
        block_offsets = blocks;
        bbox_min = m.bbox_min;
        bbox_max = m.bbox_max;
        orig_ids = m.orig_ids;
        nprobe = opts.nprobe;
        ambiguous_nprobe = opts.ambiguous_nprobe;
        repair = opts.repair;
      },
    )

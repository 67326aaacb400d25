-- ===== src/Build/Centroids.antt =====
-- The index that `NewIVFQuantizedIndex` returns.
use heindall.Prelude.{
  ℕ, ◌+◌, ◌*◌, ◌≤◌, ◌<◌, ◌≡◌, refl, true, ◌==◌, List, [], ltb, leb, length, Bool-cases, inl, inr,
  arith,
}
use heindall.Prelude.Int.{ℤ}
use heindall.Quantized.{
  QuantizedIndex, IvfMetadata, has_ivf, normalize_ivf_defaults, default_probes, with_probes,
  dimensions,
}
use heindall.Quantized.Defaults.{HasProbes, normalize-HasProbes}
use heindall.Build.{new_ivf_quantized_index, build_centroid_blocks}
use heindall.Build.Blocks.{build_centroid_blocks-at}
use heindall.Ivf.Centroids.Result.{CentroidsLaidOut}

normalize-CentroidsLaidOut :
    (idx : QuantizedIndex) → CentroidsLaidOut idx → CentroidsLaidOut (normalize_ivf_defaults idx)
unfolding normalize_ivf_defaults
normalize-CentroidsLaidOut idx laid = elim (Bool-cases (has_ivf idx)) [
  | inl e ↦ rw e laid
  | inr e ↦ rw e laid
]

abbrev pub with_blocks : List ℤ → List ℕ → IvfMetadata → QuantizedIndex
with_blocks vectors labels ivf = record {
  vectors = vectors;
  blocks = [];
  labels = labels;
  ivf = record ivf { centroid_blocks = build_centroid_blocks ivf.centroids ivf.clusters };
}

has :
    (vectors : List ℤ) (labels : List ℕ) (ivf : IvfMetadata)
    → 0 < ivf.clusters
    → ivf.clusters * dimensions ≤ length ivf.centroids
    → length ivf.list_offsets ≡ ivf.clusters + 1
    → has_ivf (with_blocks vectors labels ivf) ≡ true
unfolding has_ivf
has vectors labels ivf a b c = ground arith

has-params :
    (idx : QuantizedIndex)
    → has_ivf idx ≡ true
    → normalize_ivf_defaults idx
      ≡ with_probes idx (default_probes idx.ivf.clusters idx.ivf.nprobe idx.ivf.ambiguous_nprobe)
unfolding normalize_ivf_defaults
has-params idx h = rw h refl

-- The index but for its search parameters.
pub new_ivf_quantized_index-with_probes :
    (vectors : List ℤ) (labels : List ℕ) (ivf : IvfMetadata)
    → 0 < ivf.clusters
    → ivf.clusters * dimensions ≤ length ivf.centroids
    → length ivf.list_offsets ≡ ivf.clusters + 1
    → length ivf.centroid_blocks ≡ 0
    → new_ivf_quantized_index vectors labels ivf
      ≡ with_probes
          (with_blocks vectors labels ivf)
          (default_probes ivf.clusters ivf.nprobe ivf.ambiguous_nprobe)
unfolding new_ivf_quantized_index
new_ivf_quantized_index-with_probes vectors labels ivf some_cluster long tables empty =
    let a : ltb 0 ivf.clusters ≡ true = ground arith in
    let b : leb (ivf.clusters * dimensions) (length ivf.centroids) ≡ true = ground arith in
    let c : (length ivf.centroid_blocks == 0) ≡ true = ground arith in
    rw (a, b, c)
      (has-params (with_blocks vectors labels ivf)
        (has vectors labels ivf some_cluster long tables))

-- Given cluster and row tables of the right lengths and no centroid blocks, the index that
-- `NewIVFQuantizedIndex` returns has the transposed centroids that the vector code reads, and
-- search parameters in range.
pub new_ivf_quantized_index-ready :
    (vectors : List ℤ) (labels : List ℕ) (ivf : IvfMetadata)
    → 0 < ivf.clusters
    → ivf.clusters * dimensions ≤ length ivf.centroids
    → length ivf.list_offsets ≡ ivf.clusters + 1
    → length ivf.centroid_blocks ≡ 0
    → CentroidsLaidOut (new_ivf_quantized_index vectors labels ivf)
      × HasProbes (new_ivf_quantized_index vectors labels ivf)
unfolding new_ivf_quantized_index
new_ivf_quantized_index-ready vectors labels ivf some_cluster long tables empty =
    let a : ltb 0 ivf.clusters ≡ true = ground arith in
    let b : leb (ivf.clusters * dimensions) (length ivf.centroids) ≡ true = ground arith in
    let c : (length ivf.centroid_blocks == 0) ≡ true = ground arith in
    rw (a, b, c)
      (
        normalize-CentroidsLaidOut (with_blocks vectors labels ivf)
            (build_centroid_blocks-at ivf.centroids ivf.clusters),
        normalize-HasProbes (with_blocks vectors labels ivf)
            (has vectors labels ivf some_cluster long tables),
      )

-- ===== src/Ivf/Centroids/Result.antt =====
-- `topIVFCentroids` returns the nearest clusters, with or without vector code.
use heindall.Prelude.{
  ℕ, ◌+◌, ◌-◌, ◌*◌, ◌/◌, ◌%◌, ◌≤◌, ◌<◌, ◌≡◌, ap, ◌∙◌, true, false, List, arith, ltb, Bool-cases,
  inl, inr, length, some, min,
}
use heindall.Prelude.Int.{ℤ, pos, leb_ℤ, pos_part}
use heindall.Quantized.{QuantizedIndex, at, dimensions, ivf_block_size, ivf_block_stride, has_ivf}
use heindall.Build.{blocks_for_rows}
use heindall.Ivf.State.{max_ivf_probe}
use heindall.Ivf.Kernel.{
  IsQuantized, quantized_block8_distances_avx2, quantized8_distances_row_major_avx2,
  lane_distance_exact,
}
use heindall.Ivf.Centroids.{
  TopState, start_top, clamp_probes, block_distances, row_major_distances, eights_then_rest,
  top_ivf_centroids_scalar, top_ivf_centroids_avx2,
}
use heindall.Ivf.Centroids.Top.{Keeps, start_top-Keeps}
use heindall.Ivf.Centroids.Loops.{
  AllQuantized, AllInt16, centroid_distance, distance_cong, scalar_loop-Keeps, eights_loop-Keeps,
}

-- The number of probes that `nprobe` asks for.
abbrev pub wanted : QuantizedIndex → ℤ → ℕ
wanted idx nprobe = min (min (pos_part nprobe) idx.ivf.clusters) max_ivf_probe

-- The first places hold the first `wanted` clusters by distance, the earlier among equals.
abbrev pub IsTop : QuantizedIndex → List ℤ → ℤ → TopState → Type 0
IsTop idx query nprobe t =
    Keeps (centroid_distance idx query) (wanted idx nprobe) idx.ivf.clusters t

has_ivf_facts :
    (idx : QuantizedIndex)
    → has_ivf idx ≡ true
    → (0 < idx.ivf.clusters) × (idx.ivf.clusters * dimensions ≤ length idx.ivf.centroids)
unfolding has_ivf
has_ivf_facts idx h = ground arith

clamp_probes-wanted :
    (idx : QuantizedIndex) (nprobe : ℤ)
    → leb_ℤ nprobe (pos 0) ≡ false
    → clamp_probes idx nprobe ≡ some (wanted idx nprobe)
unfolding clamp_probes
clamp_probes-wanted idx nprobe h = ground arith

-- The transposed copy of the centroids that the vector code reads.
abbrev pub CentroidsLaidOut : QuantizedIndex → Type 0
CentroidsLaidOut idx =
    (c d : ℕ)
    → c < idx.ivf.clusters
    → d < dimensions
    → at idx.ivf.centroid_blocks
        (c / ivf_block_size * ivf_block_stride + (d * ivf_block_size + c % ivf_block_size))
      ≡ at idx.ivf.centroids (c * dimensions + d)

module _ (idx : QuantizedIndex) (query : List ℤ) (nprobe : ℤ) (has : has_ivf idx ≡ true)
    (asked : leb_ℤ nprobe (pos 0) ≡ false) where
  abbrev np : ℕ
  np = wanted idx nprobe

  np_pos : 0 < np
  np_pos = let (some_cluster, _) = has_ivf_facts idx has in ground arith

  -- For a positive number of probes and `int16` data: the scalar version returns, and its
  -- first places hold the first clusters in the stable order by distance, as many as are
  -- wanted; the early exit of the distance loses nothing.
  pub top_ivf_centroids_scalar-IsTop :
      AllInt16 query
      → AllInt16 idx.ivf.centroids
      → (t : TopState) × (top_ivf_centroids_scalar idx query nprobe ≡ some t)
        × IsTop idx query nprobe t
  unfolding top_ivf_centroids_scalar
  top_ivf_centroids_scalar-IsTop hq hc =
      let rows = (has_ivf_facts idx has).1 in
      let whole : 0 + idx.ivf.clusters ≡ idx.ivf.clusters = omega arith in
      let (t, e, k) =
        scalar_loop-Keeps idx query np np_pos rows hq hc idx.ivf.clusters 0 (start_top np)
          (omega arith) (start_top-Keeps _ np) in
      (t, rw (clamp_probes-wanted idx nprobe asked, top_ivf_centroids_scalar) e, rw whole at k)

  module _ (hq : AllQuantized query) (hc : AllQuantized idx.ivf.centroids) where
    narrow : (xs : List ℤ) → AllQuantized xs → AllInt16 xs
    narrow xs h i = (let b = h i in omega arith)

    -- The vector code on groups of eight whose distances are right.
    eights_then_rest-IsTop :
        (d : ℕ → ℕ → ℤ)
        → ((k l : ℕ)
            → l < 8
            → k * 8 + l < idx.ivf.clusters
            → d (k * 8) l ≡ centroid_distance idx query (k * 8 + l))
        → (t : TopState) × (eights_then_rest idx query d np ≡ some t) × IsTop idx query nprobe t
    unfolding eights_then_rest
    eights_then_rest-IsTop d same =
        let rows = (has_ivf_facts idx has).1 in
        let q16 = narrow query hq in
        let c16 = narrow idx.ivf.centroids hc in
        let (c, t, e, le, k) =
          eights_loop-Keeps idx query np np_pos rows q16 c16 d same idx.ivf.clusters 0 0
            (start_top np) (omega arith) (omega arith) (start_top-Keeps _ np) in
        let (t', e', k') =
          scalar_loop-Keeps idx query np np_pos rows q16 c16 (idx.ivf.clusters - c) c t
            (omega arith) k in
        let whole : c + (idx.ivf.clusters - c) ≡ idx.ivf.clusters = omega arith in
        (t', rw e e', rw whole at k')

    row_major_same :
        (k l : ℕ)
        → l < 8
        → k * 8 + l < idx.ivf.clusters
        → row_major_distances idx query (k * 8) l ≡ centroid_distance idx query (k * 8 + l)
    unfolding row_major_distances quantized8_distances_row_major_avx2 centroid_distance
    row_major_same k l h lt =
        lane_distance_exact (at query) _ hq (λ d. hc _)
        ∙ ap pos (distance_cong (at query) _ _ λ d b. ap (at idx.ivf.centroids) (omega arith))

    block_same :
        (laid : CentroidsLaidOut idx)
        → ((i : ℕ) → IsQuantized (at idx.ivf.centroid_blocks i))
        → (k l : ℕ) → l < 8
        → k * 8 + l < idx.ivf.clusters
        → block_distances idx query (k * 8) l ≡ centroid_distance idx query (k * 8 + l)
    unfolding block_distances quantized_block8_distances_avx2 centroid_distance
    block_same laid hb k l h lt =
        lane_distance_exact (at query) _ hq (λ d. hb _)
        ∙ ap pos (
            distance_cong (at query) _ _
              λ d b. ap (at idx.ivf.centroid_blocks) (omega arith) ∙ laid (k * 8 + l) d lt b)

    -- For a positive number of probes and quantised data: the vector version returns, and its
    -- first places hold the first clusters in the stable order by distance, as many as are
    -- wanted. Only when there are enough transposed centroids for the code to read them need they
    -- be quantised and agree with the centroids; with fewer, or none, nothing is asked of them.
    pub top_ivf_centroids_avx2-IsTop :
        (ltb (length idx.ivf.centroid_blocks) (blocks_for_rows idx.ivf.clusters * ivf_block_stride)
            ≡ false
          → CentroidsLaidOut idx × AllQuantized idx.ivf.centroid_blocks)
        → (t : TopState) × (top_ivf_centroids_avx2 idx query nprobe ≡ some t)
          × IsTop idx query nprobe t
    unfolding top_ivf_centroids_avx2
    top_ivf_centroids_avx2-IsTop transposed =
        elim (Bool-cases (
          ltb (length idx.ivf.centroid_blocks)
            (blocks_for_rows idx.ivf.clusters * ivf_block_stride))) [
              | inl short ↦
                  let (t, e, k) =
                    eights_then_rest-IsTop (row_major_distances idx query) row_major_same in
                  (t, rw (clamp_probes-wanted idx nprobe asked, short, top_ivf_centroids_avx2) e, k)
              | inr long ↦
                  let (laid, hb) = transposed long in
                  let (t, e, k) =
                    eights_then_rest-IsTop (block_distances idx query) (block_same laid hb) in
                  (t, rw (clamp_probes-wanted idx nprobe asked, long, top_ivf_centroids_avx2) e, k)
            ]

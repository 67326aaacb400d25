-- ===== src/Ivf/Centroids.antt =====
-- The nearest centroids: `topIVFCentroids`, its scalar and vector versions, and `insertCentroid`.
-- `bestDist` and the ids are written together, so they are one array of records.
pub mod Sift
pub mod Top
pub mod Loops
pub mod Result
pub mod Ids
use heindall.Prelude.{
  ℕ, zero, suc, ◌+◌, ◌-◌, ◌*◌, ◌/◌, ◌%◌, ◌^◌, Bool, true, false, Option, none, some, List, [], ◌∷◌,
  ◌++◌, ltb, leb, if◌then◌else◌, get_or, length, set, slice, replicate, ◌>>=◌, map, min,
}
use heindall.Prelude.Int.{ℤ, pos, pos_part, ltb_ℤ, leb_ℤ}
use heindall.Quantized.{
  QuantizedIndex, dimensions, ivf_block_size, ivf_block_stride, at, quantized_distance,
}
use heindall.Build.{blocks_for_rows}
use heindall.Ivf.State.{copy_down, max_int64_value, max_ivf_probe}
use heindall.Ivf.Kernel.{quantized_block8_distances_avx2, quantized8_distances_row_major_avx2}

pub record Probe : Type 0 where
  pub dist : ℤ
  pub id : ℕ

abbrev pub no_probe : Probe
no_probe = record { dist = pos 0; id = 0 }

abbrev pub probe_at : List Probe → ℕ → Probe
probe_at xs i = get_or xs i no_probe

-- `for i > 0 && dist < bestDist[i-1]`, from `i`, then the write.
unfoldable pub sift : Probe → ℕ → List Probe → List Probe
unfolding copy_down
sift x zero xs = set xs 0 x
sift x (suc i) xs = elim (ltb_ℤ x.dist (probe_at xs i).dist) [
  | true ↦ sift x i (copy_down xs (suc i))
  | false ↦ set xs (suc i) x
]

abbrev pub probe_of : ℕ → ℤ → Probe
probe_of cluster dist = record { dist = dist; id = cluster % 2 ^ 32 }

unfoldable pub insert_centroid : ℕ → ℤ → List Probe → ℕ → List Probe
unfolding sift
insert_centroid cluster dist best last = sift (probe_of cluster dist) last best

-- The local variables of the loops.
pub record TopState : Type 0 where
  pub count : ℕ
  pub best : List Probe

-- The body of every loop, once the distance is known; `nprobe` is positive.
unfoldable pub take_centroid : ℕ → ℕ → ℤ → TopState → TopState
unfolding insert_centroid
take_centroid nprobe cluster d t =
    if ltb t.count nprobe
    then record { count = t.count + 1; best = insert_centroid cluster d t.best t.count }
    else if ltb_ℤ d (probe_at t.best (nprobe - 1)).dist
    then record t { best = insert_centroid cluster d t.best (nprobe - 1) }
    else t

-- `for ; c < Clusters; c++`, with the clusters that are left.
unfoldable pub scalar_loop : QuantizedIndex → List ℤ → ℕ → ℕ → ℕ → TopState → Option TopState
unfolding take_centroid slice quantized_distance
scalar_loop idx query nprobe zero c t = some t
scalar_loop idx query nprobe (suc n) c t = do
  ref ← slice idx.ivf.centroids (c * dimensions) (c * dimensions + dimensions)
  let d = quantized_distance query ref (probe_at t.best (nprobe - 1)).dist
  scalar_loop idx query nprobe n (c + 1) (take_centroid nprobe c d t)

-- The clamped number of probes: none for `nprobe <= 0`.
unfoldable pub clamp_probes : QuantizedIndex → ℤ → Option ℕ
clamp_probes idx nprobe =
    if leb_ℤ nprobe (pos 0)
    then none
    else let a =
        if ltb idx.ivf.clusters (pos_part nprobe) then idx.ivf.clusters else pos_part nprobe in
      some (if ltb max_ivf_probe a then max_ivf_probe else a)

-- `bestDist` starts at the largest value for the wanted probes, and at 0 behind them.
unfoldable pub start_top : ℕ → TopState
start_top nprobe = record {
  count = 0;
  best =
      replicate nprobe (record { dist = max_int64_value; id = 0 })
      ++ replicate (max_ivf_probe - nprobe) no_probe;
}

unfoldable pub top_ivf_centroids_scalar : QuantizedIndex → List ℤ → ℤ → Option TopState
unfolding scalar_loop clamp_probes start_top
top_ivf_centroids_scalar idx query nprobe = elim (clamp_probes idx nprobe) [
  | none ↦ some (record { count = 0; best = replicate max_ivf_probe no_probe })
  | some n ↦ scalar_loop idx query n idx.ivf.clusters 0 (start_top n)
]

-- The loop over the eight lanes of a block.
unfoldable pub lane_loop : ℕ → (ℕ → ℤ) → ℕ → ℕ → ℕ → TopState → TopState
unfolding take_centroid
lane_loop nprobe dist c zero lane t = t
lane_loop nprobe dist c (suc n) lane t =
    lane_loop nprobe dist c n (lane + 1) (take_centroid nprobe (c + lane) (dist lane) t)

-- `for ; c+8 <= Clusters; c += 8`, with fuel; returns the cluster reached.
unfoldable pub eights_loop : QuantizedIndex → (ℕ → ℕ → ℤ) → ℕ → ℕ → ℕ → TopState → ℕ × TopState
unfolding lane_loop
eights_loop idx dist nprobe zero c t = (c, t)
eights_loop idx dist nprobe (suc fuel) c t = elim (leb (c + ivf_block_size) idx.ivf.clusters) [
  | true ↦
      eights_loop idx dist nprobe fuel (c + ivf_block_size)
        (lane_loop nprobe (dist c) c ivf_block_size 0 t)
  | false ↦ (c, t)
]

-- The eight distances from cluster `c` on: from the blocks, or from the rows of `Centroids`.
unfoldable pub block_distances : QuantizedIndex → List ℤ → ℕ → ℕ → ℤ
unfolding quantized_block8_distances_avx2
block_distances idx query c lane =
    quantized_block8_distances_avx2 (at query)
      (λ i. at idx.ivf.centroid_blocks (c / ivf_block_size * ivf_block_stride + i)) lane

unfoldable pub row_major_distances : QuantizedIndex → List ℤ → ℕ → ℕ → ℤ
unfolding quantized8_distances_row_major_avx2
row_major_distances idx query c lane =
    quantized8_distances_row_major_avx2 (at query) (λ i. at idx.ivf.centroids (c * dimensions + i))
      lane

unfoldable pub eights_then_rest : QuantizedIndex → List ℤ → (ℕ → ℕ → ℤ) → ℕ → Option TopState
unfolding eights_loop scalar_loop start_top
eights_then_rest idx query dist n =
    let (c, t) = eights_loop idx dist n idx.ivf.clusters 0 (start_top n) in
    scalar_loop idx query n (idx.ivf.clusters - c) c t

unfoldable pub top_ivf_centroids_row_major_avx2 : QuantizedIndex → List ℤ → ℕ → Option TopState
unfolding eights_then_rest row_major_distances
top_ivf_centroids_row_major_avx2 idx query n =
    eights_then_rest idx query (row_major_distances idx query) n

unfoldable pub top_ivf_centroids_avx2 : QuantizedIndex → List ℤ → ℤ → Option TopState
unfolding top_ivf_centroids_row_major_avx2 eights_then_rest block_distances clamp_probes
    blocks_for_rows
top_ivf_centroids_avx2 idx query nprobe = elim (clamp_probes idx nprobe) [
  | none ↦ some (record { count = 0; best = replicate max_ivf_probe no_probe })
  | some n ↦
      if ltb (length idx.ivf.centroid_blocks) (blocks_for_rows idx.ivf.clusters * ivf_block_stride)
      then top_ivf_centroids_row_major_avx2 idx query n
      else eights_then_rest idx query (block_distances idx query) n
]

unfoldable pub top_ivf_centroids : Bool → QuantizedIndex → List ℤ → ℤ → Option TopState
unfolding top_ivf_centroids_avx2 top_ivf_centroids_scalar
top_ivf_centroids use_avx2 idx query nprobe =
    if use_avx2
    then top_ivf_centroids_avx2 idx query nprobe
    else top_ivf_centroids_scalar idx query nprobe

-- ===== src/Build.antt =====
-- apps/api/internal/fraud/ivf_build.go: the block layout of rows and centroids. Every slice here
-- is long enough for its indices, so a write is `set`.
pub mod Blocks
pub mod Rows
pub mod Centroids
pub mod Numbers
pub mod Stats
pub mod Split
pub mod Materialize
pub mod Index
use heindall.Prelude.{
  ℕ, zero, suc, ◌+◌, ◌-◌, ◌*◌, ◌/◌, ◌%◌, ◌^◌, ◌==◌, Bool, true, false, ◌&&◌, ltb, leb, List, [],
  ◌∷◌, map, bit_and, if◌then◌else◌, set, replicate, get_or, length,
}
use heindall.Prelude.Int.{ℤ, pos, negsuc, pos_part, neg_part, ◌+ℤ◌, ◌-ℤ◌, ltb_ℤ, leb_ℤ, wrap64}
use heindall.Sort.{sort_slice}
use heindall.Quantized.{
  QuantizedIndex, IvfMetadata, normalize_ivf_defaults, at, dimensions, ivf_block_size,
  ivf_block_stride, sq_diff,
}

-- `rows` is never negative at a call.
unfoldable pub blocks_for_rows : ℕ → ℕ
blocks_for_rows rows = if rows == 0 then 0 else (rows + ivf_block_size - 1) / ivf_block_size

-- `for d := 0; d < Dimensions; d++` of both builders, with the dimensions that are left.
unfoldable pub write_lane : (ℕ → ℤ) → ℕ → ℕ → ℕ → ℕ → List ℤ → List ℤ
write_lane vector block lane zero d blocks = blocks
write_lane vector block lane (suc n) d blocks =
    write_lane vector block lane n (d + 1)
      (set blocks (block * ivf_block_stride + d * ivf_block_size + lane) (vector d))

-- The loop over the rows of a cluster, with the rows that are left.
unfoldable pub write_rows : List ℤ → ℕ → ℕ → ℕ → ℕ → List ℤ → List ℤ
unfolding write_lane
write_rows vectors row_start block_start zero row blocks = blocks
write_rows vectors row_start block_start (suc n) row blocks =
    let rel = row - row_start in
    write_rows vectors row_start block_start n (row + 1) (
      write_lane (λ d. at vectors (row * dimensions + d)) (block_start + rel / ivf_block_size)
        (rel % ivf_block_size) dimensions 0 blocks)

abbrev pub offset : List ℕ → ℕ → ℕ
offset offsets c = get_or offsets c 0

-- The loop over the clusters, with the clusters that are left.
unfoldable pub write_clusters : List ℤ → List ℕ → List ℕ → ℕ → ℕ → List ℤ → List ℤ
unfolding write_rows
write_clusters vectors list_offsets block_offsets zero c blocks = blocks
write_clusters vectors list_offsets block_offsets (suc n) c blocks =
    let row_start = offset list_offsets c in
    let row_end = offset list_offsets (c + 1) in
    write_clusters vectors list_offsets block_offsets n (c + 1)
      (write_rows vectors row_start (offset block_offsets c) (row_end - row_start) row_start blocks)

-- The offset lists are not empty.
unfoldable pub build_ivf_blocks : List ℤ → List ℕ → List ℕ → List ℤ
unfolding write_clusters
build_ivf_blocks vectors list_offsets block_offsets =
    let block_count = offset block_offsets (length block_offsets - 1) in
    write_clusters vectors list_offsets block_offsets (length list_offsets - 1) 0
      (replicate (block_count * ivf_block_stride) (pos 0))

unfoldable pub write_centroids : List ℤ → ℕ → ℕ → List ℤ → List ℤ
unfolding write_lane
write_centroids centroids zero c blocks = blocks
write_centroids centroids (suc n) c blocks = write_centroids centroids n (c + 1) (
    write_lane (λ d. at centroids (c * dimensions + d)) (c / ivf_block_size) (c % ivf_block_size)
      dimensions 0 blocks)

unfoldable pub build_centroid_blocks : List ℤ → ℕ → List ℤ
unfolding write_centroids blocks_for_rows
build_centroid_blocks centroids clusters =
    write_centroids centroids clusters 0
      (replicate (blocks_for_rows clusters * ivf_block_stride) (pos 0))

-- `NewIVFQuantizedIndex`; the blocks are set by its callers.
unfoldable pub new_ivf_quantized_index : List ℤ → List ℕ → IvfMetadata → QuantizedIndex
unfolding build_centroid_blocks
new_ivf_quantized_index vectors labels ivf =
    let has_centroids =
      ltb 0 ivf.clusters
      && leb (ivf.clusters * dimensions) (length ivf.centroids)
      && (length ivf.centroid_blocks == 0) in
    let laid =
      if has_centroids
      then record ivf { centroid_blocks = build_centroid_blocks ivf.centroids ivf.clusters }
      else ivf in
    normalize_ivf_defaults (record { vectors = vectors; blocks = []; labels = labels; ivf = laid })

-- Go's `/`, which rounds to 0, for a positive divisor.
unfoldable pub trunc_div : ℤ → ℕ → ℤ
trunc_div (pos a) n = pos (a / n)
trunc_div (negsuc a) n = pos 0 -ℤ pos (suc a / n)

-- The conversion to `int16`.
unfoldable pub wrap16 : ℤ → ℤ
wrap16 a =
    let w = (pos_part a % 2 ^ 16 + (2 ^ 16 - neg_part a % 2 ^ 16)) % 2 ^ 16 in
    if ltb w (2 ^ 15) then pos w else negsuc (2 ^ 16 - w - 1)

unfoldable pub round_div_int64_to_int16 : ℤ → ℤ → ℤ
unfolding trunc_div wrap16
round_div_int64_to_int16 sum count =
    let n = pos_part count in
    if leb_ℤ count (pos 0)
    then pos 0
    else if leb_ℤ (pos 0) sum
    then wrap16 (trunc_div (wrap64 (sum +ℤ pos (n / 2))) n)
    else wrap16 (trunc_div (wrap64 (sum -ℤ pos (n / 2))) n)

-- `for p <= v/2 { p *= 2 }`, with fuel.
unfoldable pub double_until : ℕ → ℕ → ℕ → ℕ
double_until zero v p = p
double_until (suc fuel) v p =
    let rest = double_until fuel v (p * 2) in if leb p (v / 2) then rest else p

-- `v` is below 2 ^ 63.
unfoldable pub highest_power_of_two_le : ℤ → ℕ
unfolding double_until
highest_power_of_two_le v = if leb_ℤ v (pos 0) then 0 else double_until 63 (pos_part v) 1

-- One coordinate of the three arrays of `computeClusterStats`.
pub record Stat : Type 0 where
  pub low : ℤ
  pub high : ℤ
  pub total : ℤ

-- The body of the loop for coordinate `d`.
unfoldable pub add_to_stat : ℤ → Stat → Stat
add_to_stat v s = record {
  low = if ltb_ℤ v s.low then v else s.low;
  high = if ltb_ℤ s.high v then v else s.high;
  total = wrap64 (s.total +ℤ v);
}

-- The rows `ids[r.start:r.end]`. The two loops of the code are exchanged: the rounds of
-- different coordinates touch different entries.
unfoldable pub stat_of : List ℤ → ℕ → List ℕ → Stat → Stat
unfolding add_to_stat
stat_of vectors d [] s = s
stat_of vectors d (id ∷ ids) s =
    stat_of vectors d ids (add_to_stat (at vectors (id * dimensions + d)) s)

abbrev pub empty_stat : Stat
empty_stat = record { low = pos 32767; high = negsuc 32767; total = pos 0 }

-- The bounds of the box and the centroid, in coordinate `d`.
unfoldable pub compute_cluster_stats : List ℤ → List ℕ → ℕ → ℤ × ℤ × ℤ
unfolding stat_of round_div_int64_to_int16
compute_cluster_stats vectors ids d =
    let s = stat_of vectors d ids empty_stat in
    (round_div_int64_to_int16 s.total (pos (length ids)), s.low, s.high)

-- `for d := 0; d < Dimensions; d++`, with the dimensions that are left.
unfoldable pub distance_from : (ℕ → ℤ) → (ℕ → ℤ) → ℕ → ℕ → ℕ → ℕ
distance_from vector centroid zero d sum = sum
distance_from vector centroid (suc n) d sum =
    distance_from vector centroid n (d + 1) (sum + sq_diff (vector d) (centroid d))

unfoldable pub vector_to_centroid_distance : List ℤ → ℕ → List ℤ → ℕ
unfolding distance_from
vector_to_centroid_distance vectors id centroid =
    distance_from (λ d. at vectors (id * dimensions + d)) (at centroid) dimensions 0 0

-- `v & (v - 1) == 0` for positive `v`.
unfoldable pub is_power_of_two : ℤ → Bool
is_power_of_two v = ltb_ℤ (pos 0) v && (bit_and (pos_part v) (pos_part v - 1) == 0)

pub record IvfIdDistance : Type 0 where
  pub id : ℕ
  pub dist : ℕ

-- The comparison of the sort.
abbrev pub is_nearer : IvfIdDistance → IvfIdDistance → Bool
is_nearer a b = if a.dist == b.dist then ltb a.id b.id else ltb a.dist b.dist

unfoldable pub sort_cluster_by_centroid_distance : List ℤ → List ℕ → List ℤ → List ℕ
unfolding vector_to_centroid_distance
sort_cluster_by_centroid_distance vectors ids centroid =
    let item : ℕ → IvfIdDistance =
      λ id. record { id = id; dist = vector_to_centroid_distance vectors id centroid } in
    map (λ (i : IvfIdDistance). i.id) (sort_slice is_nearer (map item ids))

-- ===== src/Build/Materialize/Values.antt =====
-- What the builder writes is quantised, given quantised vectors.
use heindall.Prelude.{
  ℕ, zero, suc, ◌+◌, ◌-◌, ◌*◌, ◌/◌, ◌%◌, ◌^◌, ◌≤◌, ◌<◌, ◌≡◌, refl, List, [], ◌∷◌, ◌++◌, set,
  replicate, length, length-take, length-drop, drop, arith,
}
use heindall.Prelude.Int.{ℤ, pos, ◌+ℤ◌, wrap64, pos_part, neg_part}
use heindall.Quantized.{at, dimensions, ivf_block_size, ivf_block_stride}
use heindall.Ivf.Kernel.{IsQuantized}
use heindall.Ivf.Centroids.Loops.{AllQuantized}
use heindall.Build.{
  blocks_for_rows, Stat, add_to_stat, stat_of, empty_stat, compute_cluster_stats,
  round_div_int64_to_int16, write_lane, write_rows, write_clusters, build_ivf_blocks,
  write_centroids, build_centroid_blocks, offset,
}
use heindall.Build.Numbers.{round_div_int64_to_int16-IsQuantized}
use heindall.Build.Split.{IvfBuildRange, window}
use heindall.Build.Materialize.Entries.{at-cons, at-append, at-fill_all}
use heindall.Build.Materialize.{fill, gather, materialize_from}

zero-IsQuantized : IsQuantized (pos 0)
zero-IsQuantized = record { above = omega arith; below = omega arith }

pub nil-AllQuantized : AllQuantized []
nil-AllQuantized i = zero-IsQuantized

cons-AllQuantized : (x : ℤ) (xs : List ℤ) → IsQuantized x → AllQuantized xs → AllQuantized (x ∷ xs)
cons-AllQuantized x xs h k = at-cons IsQuantized x xs h k

pub append-AllQuantized :
    (xs ys : List ℤ) → AllQuantized xs → AllQuantized ys → AllQuantized (xs ++ ys)
append-AllQuantized xs ys h k = at-append IsQuantized xs ys h k

fill-AllQuantized :
    (g : ℕ → ℤ) (n d : ℕ) → ((d : ℕ) → IsQuantized (g d)) → AllQuantized (fill g n d)
fill-AllQuantized g n d h = at-fill_all IsQuantized zero-IsQuantized g n d h

pub gather-AllQuantized :
    (vs : List ℤ) (ids : List ℕ) → AllQuantized vs → AllQuantized (gather vs ids)
gather-AllQuantized vs [] h = nil-AllQuantized
gather-AllQuantized vs (id ∷ ids) h =
    append-AllQuantized (fill (λ d. at vs (id * dimensions + d)) dimensions 0) (gather vs ids)
      (fill-AllQuantized (λ d. at vs (id * dimensions + d)) dimensions 0
        (λ d. h (id * dimensions + d)))
      (gather-AllQuantized vs ids h)

set-AllQuantized :
    (xs : List ℤ) (i : ℕ) (v : ℤ) → AllQuantized xs → IsQuantized v → AllQuantized (set xs i v)
set-AllQuantized [] i v h k = h
set-AllQuantized (x ∷ xs) zero v h k = cons-AllQuantized v xs k (λ i. h (suc i))
set-AllQuantized (x ∷ xs) (suc i) v h k =
    cons-AllQuantized x (set xs i v) (h 0) (set-AllQuantized xs i v (λ i. h (suc i)) k)

replicate-AllQuantized : (n : ℕ) → AllQuantized (replicate n (pos 0))
replicate-AllQuantized zero = nil-AllQuantized
replicate-AllQuantized (suc n) =
    cons-AllQuantized (pos 0) (replicate n (pos 0)) zero-IsQuantized (replicate-AllQuantized n)

write_lane-AllQuantized :
    (v : ℕ → ℤ) (b l n d : ℕ) (xs : List ℤ)
    → ((d : ℕ) → IsQuantized (v d))
    → AllQuantized xs
    → AllQuantized (write_lane v b l n d xs)
unfolding write_lane
write_lane-AllQuantized v b l zero d xs h k = k
write_lane-AllQuantized v b l (suc n) d xs h k =
    write_lane-AllQuantized v b l n (d + 1) _ h
      (set-AllQuantized xs (b * ivf_block_stride + d * ivf_block_size + l) (v d) k (h d))

write_rows-AllQuantized :
    (vs : List ℤ) (rs bs n row : ℕ) (xs : List ℤ)
    → AllQuantized vs
    → AllQuantized xs
    → AllQuantized (write_rows vs rs bs n row xs)
unfolding write_rows
write_rows-AllQuantized vs rs bs zero row xs h k = k
write_rows-AllQuantized vs rs bs (suc n) row xs h k =
    write_rows-AllQuantized vs rs bs n (row + 1) _ h (
      write_lane-AllQuantized (λ d. at vs (row * dimensions + d)) (bs + (row - rs) / 8)
        ((row - rs) % 8) dimensions 0 xs (λ d. h (row * dimensions + d)) k)

write_clusters-AllQuantized :
    (vs : List ℤ) (lo bo : List ℕ) (n c : ℕ) (xs : List ℤ)
    → AllQuantized vs
    → AllQuantized xs
    → AllQuantized (write_clusters vs lo bo n c xs)
unfolding write_clusters
write_clusters-AllQuantized vs lo bo zero c xs h k = k
write_clusters-AllQuantized vs lo bo (suc n) c xs h k =
    write_clusters-AllQuantized vs lo bo n (c + 1) _ h (
      write_rows-AllQuantized vs (offset lo c) (offset bo c) (offset lo (c + 1) - offset lo c)
        (offset lo c) xs h k)

pub build_ivf_blocks-AllQuantized :
    (vs : List ℤ) (lo bo : List ℕ) → AllQuantized vs → AllQuantized (build_ivf_blocks vs lo bo)
unfolding build_ivf_blocks
build_ivf_blocks-AllQuantized vs lo bo h =
    write_clusters-AllQuantized vs lo bo (length lo - 1) 0
      (replicate (offset bo (length bo - 1) * ivf_block_stride) (pos 0)) h
      (replicate-AllQuantized (offset bo (length bo - 1) * ivf_block_stride))

write_centroids-AllQuantized :
    (cs : List ℤ) (n c : ℕ) (xs : List ℤ)
    → AllQuantized cs
    → AllQuantized xs
    → AllQuantized (write_centroids cs n c xs)
unfolding write_centroids
write_centroids-AllQuantized cs zero c xs h k = k
write_centroids-AllQuantized cs (suc n) c xs h k = write_centroids-AllQuantized cs n (c + 1) _ h (
    write_lane-AllQuantized (λ d. at cs (c * dimensions + d)) (c / 8) (c % 8) dimensions 0 xs
      (λ d. h (c * dimensions + d)) k)

pub build_centroid_blocks-AllQuantized :
    (cs : List ℤ) (n : ℕ) → AllQuantized cs → AllQuantized (build_centroid_blocks cs n)
unfolding build_centroid_blocks
build_centroid_blocks-AllQuantized cs n h =
    write_centroids-AllQuantized cs n 0 (replicate (blocks_for_rows n * ivf_block_stride) (pos 0)) h
      (replicate-AllQuantized (blocks_for_rows n * ivf_block_stride))

-- The sum of the rows of a cluster stays in range, so it does not wrap.
small_sum :
    (a v : ℤ) (k : ℕ)
    → k < 2 ^ 32
    → pos_part a ≤ 10000 * k
    → neg_part a ≤ 10000 * k
    → IsQuantized v
    → (pos_part (wrap64 (a +ℤ v)) ≤ 10000 * suc k) × (neg_part (wrap64 (a +ℤ v)) ≤ 10000 * suc k)
unfolding wrap64 ◌+ℤ◌
small_sum a v k few up down h = ground arith

stat_of-total :
    (vs : List ℤ) (d : ℕ) (ids : List ℕ) (s : Stat) (k : ℕ)
    → AllQuantized vs
    → k + length ids < 2 ^ 32
    → pos_part s.total ≤ 10000 * k
    → neg_part s.total ≤ 10000 * k
    → (pos_part (stat_of vs d ids s).total ≤ 10000 * (k + length ids))
      × (neg_part (stat_of vs d ids s).total ≤ 10000 * (k + length ids))
unfolding stat_of
stat_of-total vs d [] s k h few up down = (omega arith, omega arith)
stat_of-total vs d (i ∷ ids) s k h few up down =
    let sum = small_sum s.total (at vs (i * dimensions + d)) k (omega arith) up down (h _) in
    let rest =
      stat_of-total vs d ids (add_to_stat (at vs (i * dimensions + d)) s) (suc k) h (omega arith)
        sum.0 sum.1 in
    (omega (arith, rest.0), omega (arith, rest.1))

round_none : (s : ℤ) → round_div_int64_to_int16 s (pos 0) ≡ pos 0
unfolding round_div_int64_to_int16
round_none s = refl

pub compute_cluster_stats-IsQuantized :
    (vs : List ℤ) (ids : List ℕ) (d : ℕ)
    → AllQuantized vs
    → length ids < 2 ^ 32
    → IsQuantized (compute_cluster_stats vs ids d).0
unfolding compute_cluster_stats
compute_cluster_stats-IsQuantized vs [] d h few =
    rw (round_none (stat_of vs d [] empty_stat).total) zero-IsQuantized
compute_cluster_stats-IsQuantized vs (i ∷ ids) d h few =
    let sum =
      stat_of-total vs d (i ∷ ids) empty_stat 0 h (omega arith) (omega arith) (omega arith) in
    round_div_int64_to_int16-IsQuantized (stat_of vs d (i ∷ ids) empty_stat).total
      (length (i ∷ ids)) (omega arith) few (omega (arith, sum.0)) (omega (arith, sum.1))

pub materialize_from-AllQuantized :
    (vs : List ℤ) (labels ids : List ℕ) (rs : List IvfBuildRange) (row block : ℕ)
    → AllQuantized vs
    → length ids < 2 ^ 32
    → AllQuantized (materialize_from vs labels ids rs row block).centroids
unfolding materialize_from
materialize_from-AllQuantized vs labels ids [] row block h few = nil-AllQuantized
materialize_from-AllQuantized vs labels ids (r ∷ rs) row block h few =
    append-AllQuantized (fill (λ d. (compute_cluster_stats vs (window ids r) d).0) dimensions 0) _
      (fill-AllQuantized _ dimensions 0 (λ d.
        compute_cluster_stats-IsQuantized vs (window ids r) d h
          (omega (arith, window_small ids r))))
      (materialize_from-AllQuantized vs labels ids rs _ _ h few)
  where
    window_small : (ids : List ℕ) (r : IvfBuildRange) → length (window ids r) ≤ length ids
    window_small ids r =
        omega (arith, length-take (r.end - r.start) (drop r.start ids), length-drop r.start ids)

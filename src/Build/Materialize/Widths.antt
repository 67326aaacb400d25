-- ===== src/Build/Materialize/Widths.antt =====
-- What the builder writes fits the integers of the index file.
use heindall.Prelude.{
  ℕ, zero, suc, ◌+◌, ◌*◌, ◌^◌, ◌<◌, if◌then◌else◌, Bool-cases, inl, inr, List, [], ◌∷◌, get_or,
  length, arith,
}
use heindall.Prelude.Int.{ℤ, pos, ltb_ℤ}
use heindall.Quantized.{at, dimensions}
use heindall.Quantized.Distance.{IsInt16}
use heindall.Ivf.Centroids.Loops.{AllQuantized, AllInt16}
use heindall.Build.{blocks_for_rows, Stat, add_to_stat, stat_of, empty_stat, compute_cluster_stats}
use heindall.Build.Split.{IvfBuildRange, window}
use heindall.Build.Materialize.{fill, cluster_ids, materialize_from}
use heindall.Build.Materialize.Entries.{at-append, at-fill_all}

pub AllQuantized-AllInt16 : (xs : List ℤ) → AllQuantized xs → AllInt16 xs
AllQuantized-AllInt16 xs h i =
    let q = h i in record { below = omega (arith, q.below); above = omega (arith, q.above) }

record Fits (s : Stat) : Type 0 where
  low : IsInt16 s.low
  high : IsInt16 s.high

choose : (a b : ℤ) → IsInt16 a → IsInt16 b → (t : ℤ × ℤ) → IsInt16 (if ltb_ℤ t.0 t.1 then a else b)
choose a b h k t = elim (Bool-cases (ltb_ℤ t.0 t.1)) [ inl e ↦ rw e h | inr e ↦ rw e k ]

stat_of-Fits :
    (vs : List ℤ) (d : ℕ) (ids : List ℕ) (s : Stat)
    → AllQuantized vs
    → Fits s
    → Fits (stat_of vs d ids s)
unfolding stat_of add_to_stat
stat_of-Fits vs d [] s q f = f
stat_of-Fits vs d (id ∷ ids) s q f =
    let v = at vs (id * dimensions + d) in
    let fits = AllQuantized-AllInt16 vs q (id * dimensions + d) in
    stat_of-Fits vs d ids (add_to_stat v s) q (record {
      low = choose v s.low fits f.low (v, s.low);
      high = choose v s.high fits f.high (s.high, v);
    })

empty-Fits : Fits empty_stat
empty-Fits = record {
  low = record { below = omega arith; above = omega arith };
  high = record { below = omega arith; above = omega arith };
}

compute_cluster_stats-IsInt16 :
    (vs : List ℤ) (ids : List ℕ) (d : ℕ)
    → AllQuantized vs
    → IsInt16 (compute_cluster_stats vs ids d).1 × IsInt16 (compute_cluster_stats vs ids d).2
unfolding compute_cluster_stats
compute_cluster_stats-IsInt16 vs ids d q =
    let f = stat_of-Fits vs d ids empty_stat q empty-Fits in (f.low, f.high)

none-IsInt16 : IsInt16 (pos 0)
none-IsInt16 = record { below = omega arith; above = omega arith }

pub materialize_from-AllInt16 :
    (vs : List ℤ) (labels ids : List ℕ) (rs : List IvfBuildRange) (row block : ℕ)
    → AllQuantized vs
    → AllInt16 (materialize_from vs labels ids rs row block).bbox_min
      × AllInt16 (materialize_from vs labels ids rs row block).bbox_max
unfolding materialize_from
materialize_from-AllInt16 vs labels ids [] row block q = (λ i. none-IsInt16, λ i. none-IsInt16)
materialize_from-AllInt16 vs labels ids (r ∷ rs) row block q =
    let rows = window ids r in
    let own = cluster_ids vs rows in
    let stats = compute_cluster_stats vs rows in
    let (low, high) =
      materialize_from-AllInt16 vs labels ids rs (row + length own)
        (block + blocks_for_rows (length own)) q in
    (
      at-append IsInt16 (fill (λ d. (stats d).1) dimensions 0) _
          (at-fill_all IsInt16 none-IsInt16 (λ d. (stats d).1) dimensions 0
            (λ d. (compute_cluster_stats-IsInt16 vs rows d q).0))
          low,
      at-append IsInt16 (fill (λ d. (stats d).2) dimensions 0) _
          (at-fill_all IsInt16 none-IsInt16 (λ d. (stats d).2) dimensions 0
            (λ d. (compute_cluster_stats-IsInt16 vs rows d q).1))
          high,
    )

-- The offsets are converted to `uint32`.
pub materialize_from-narrow :
    (vs : List ℤ) (labels ids : List ℕ) (rs : List IvfBuildRange) (row block i : ℕ)
    → (get_or (materialize_from vs labels ids rs row block).list_offsets i 0 < 2 ^ 32)
      × (get_or (materialize_from vs labels ids rs row block).block_offsets i 0 < 2 ^ 32)
unfolding materialize_from
materialize_from-narrow vs labels ids [] row block i = (omega arith, omega arith)
materialize_from-narrow vs labels ids (r ∷ rs) row block zero = (omega arith, omega arith)
materialize_from-narrow vs labels ids (r ∷ rs) row block (suc i) =
    materialize_from-narrow vs labels ids rs _ _ i

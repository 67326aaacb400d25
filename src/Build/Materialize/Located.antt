-- ===== src/Build/Materialize/Located.antt =====
-- Where `materializeIVF` puts a row, and what the box of its cluster holds.
use mathlib.Core.Path.{subst}
use heindall.Prelude.{
  ℕ, zero, suc, ◌+◌, ◌-◌, ◌*◌, ◌%◌, ◌^◌, ◌≤◌, ◌<◌, ◌≡◌, refl, sym, ◌∙◌, ap, inl, inr, Bool-cases,
  ◌==◌, List, [], ◌∷◌, ◌++◌, get_or, length, length-append, arith,
}
use heindall.Prelude.Int.{ℤ, pos, ◌≤ℤ◌}
use heindall.Quantized.{at, dimensions}
use heindall.Sort.Counts.{count_of, count_of-get_or}
use heindall.Build.{blocks_for_rows, compute_cluster_stats, offset}
use heindall.Build.Blocks.{blocks_for_rows-ceil}
use heindall.Build.Stats.{OneOf, compute_cluster_stats-box}
use heindall.Build.Split.{IvfBuildRange, window}
use heindall.Build.Materialize.{Materialized, fill, gather, cluster_ids, materialize_from}
use heindall.Build.Materialize.Sizes.{
  Consecutive, Consecutive-le, length-fill, length-cluster_ids, length-window, count_of-cluster_ids,
}

pub get_or-append_left :
    {A : Type 0} (xs ys : List A) (i : ℕ) (a : A)
    → i < length xs
    → get_or (xs ++ ys) i a ≡ get_or xs i a
get_or-append_left [] ys i a h = absurd (omega arith)
get_or-append_left (x ∷ xs) ys zero a h = refl
get_or-append_left (x ∷ xs) ys (suc i) a h = get_or-append_left xs ys i a (omega arith)

pub get_or-append_right :
    {A : Type 0} (xs ys : List A) (i : ℕ) (a : A)
    → get_or (xs ++ ys) (length xs + i) a ≡ get_or ys i a
get_or-append_right [] ys i a = let same : 0 + i ≡ i = omega arith in rw same
get_or-append_right (x ∷ xs) ys i a =
    let same : suc (length xs) + i ≡ suc (length xs + i) = omega arith in
    rw same (get_or-append_right xs ys i a)

pub at-fill : (g : ℕ → ℤ) (n d i : ℕ) → i < n → at (fill g n d) i ≡ g (d + i)
at-fill g zero d i h = absurd (omega arith)
at-fill g (suc n) d zero h = ap g (omega arith)
at-fill g (suc n) d (suc i) h = at-fill g n (d + 1) i (omega arith) ∙ ap g (omega arith)

-- Entry `c * 14 + d` of rows of 14 entries, one behind the other.
pub at-first_row :
    (g : ℕ → ℤ) (rest : List ℤ) (d : ℕ)
    → d < dimensions
    → at (fill g dimensions 0 ++ rest) (0 * dimensions + d) ≡ g d
at-first_row g rest d h =
    let here : 0 * dimensions + d ≡ d = omega arith in
    rw here (
      get_or-append_left (fill g dimensions 0) rest d (pos 0)
        (omega (arith, length-fill g dimensions 0))
      ∙ at-fill g dimensions 0 d h
      ∙ ap g (omega arith))

pub at-next_row :
    (g : ℕ → ℤ) (rest : List ℤ) (c d : ℕ)
    → at (fill g dimensions 0 ++ rest) (suc c * dimensions + d) ≡ at rest (c * dimensions + d)
at-next_row g rest c d =
    let there : suc c * dimensions + d ≡ length (fill g dimensions 0) + (c * dimensions + d) =
      omega (arith, length-fill g dimensions 0) in
    rw there (get_or-append_right (fill g dimensions 0) rest (c * dimensions + d) (pos 0))

pub at-gather :
    (vs : List ℤ) (ids : List ℕ) (i d : ℕ)
    → i < length ids
    → d < dimensions
    → at (gather vs ids) (i * dimensions + d) ≡ at vs (get_or ids i 0 * dimensions + d)
at-gather vs [] i d h hd = absurd (omega arith)
at-gather vs (x ∷ ids) zero d h hd =
    at-first_row (λ d. at vs (x * dimensions + d)) (gather vs ids) d hd
at-gather vs (x ∷ ids) (suc i) d h hd =
    at-next_row (λ d. at vs (x * dimensions + d)) (gather vs ids) i d
    ∙ at-gather vs ids i d (omega arith) hd

pub OneOf-count : (x : ℕ) (xs : List ℕ) → 1 ≤ count_of x xs → OneOf x xs
OneOf-count x [] h = absurd (omega arith)
OneOf-count x (y ∷ xs) h = elim (Bool-cases (x == y)) [
  | inl e ↦ inl (ground arith)
  | inr e ↦ inr (OneOf-count x xs (ground arith))
]

-- The offset table grows by the rows of each cluster.
pub record Grows (rs : List IvfBuildRange) (row s e : ℕ) (block : ℕ) (m : Materialized)
    : Type 0 where
  pub last : offset (row ∷ m.list_offsets) (length rs) ≡ row + (e - s)
  pub rises :
      (c : ℕ)
      → c < length rs
      → offset (row ∷ m.list_offsets) c ≤ offset (row ∷ m.list_offsets) (c + 1)
  pub spans :
      (c : ℕ)
      → c < length rs
      → offset (block ∷ m.block_offsets) (c + 1)
        ≡ offset (block ∷ m.block_offsets) c
          + blocks_for_rows
              (offset (row ∷ m.list_offsets) (c + 1) - offset (row ∷ m.list_offsets) c)

shift : (c : ℕ) → suc c + 1 ≡ suc (c + 1)
shift c = omega arith

pub materialize_from-Grows :
    (vs : List ℤ) (labels ids : List ℕ) (rs : List IvfBuildRange) (row block s e : ℕ)
    → Consecutive rs s e
    → e ≤ length ids
    → block ≤ row
    → row + (e - s) < 2 ^ 32
    → Grows rs row s e block (materialize_from vs labels ids rs row block)
unfolding materialize_from
materialize_from-Grows vs labels ids [] row block s e c h fit small = record {
  last = omega arith;
  rises = λ c lt. absurd (omega arith);
  spans = λ c lt. absurd (omega arith);
}
materialize_from-Grows vs labels ids (r ∷ rs) row block s e (a, b, c) h fit small =
    let le = Consecutive-le rs r.end e c in
    let own = cluster_ids vs (window ids r) in
    let size : length own ≡ r.end - s = omega (
      arith,
      length-cluster_ids vs (window ids r),
      length-window ids r (omega arith) (omega arith),
    ) in
    let few : blocks_for_rows (length own) ≤ length own =
      omega (arith, blocks_for_rows-ceil (length own)) in
    let rest =
      materialize_from-Grows vs labels ids rs (row + length own)
        (block + blocks_for_rows (length own)) r.end e c h (omega arith) (omega arith) in
    let narrow : (row + length own) % 2 ^ 32 ≡ row + length own = omega arith in
    let narrow_block : (block + blocks_for_rows (length own)) % 2 ^ 32
        ≡ block + blocks_for_rows (length own) =
      omega arith in
    let own_rows : row + length own - row ≡ length own = omega arith in
    rw (narrow, narrow_block)
      (record {
        last = omega (arith, rest.last);
        rises = λ c lt. rises (row + length own) row _ rest.rises (omega arith) c lt;
        spans = λ c lt.
            spans (row + length own) row _ (block + blocks_for_rows (length own)) block _ rest.spans
              (ap (λ n. block + blocks_for_rows n) (sym own_rows)) c lt;
      })
  where
    rises :
        (next row : ℕ) (ls : List ℕ) {n : ℕ}
        → ((c : ℕ) → c < n → offset (next ∷ ls) c ≤ offset (next ∷ ls) (c + 1))
        → row ≤ next
        → (c : ℕ) → c < suc n
        → offset (row ∷ next ∷ ls) c ≤ offset (row ∷ next ∷ ls) (c + 1)
    rises next row ls f h zero lt = h
    rises next row ls f h (suc c) lt = rw (shift c) (f c (omega arith))

    spans :
        (next row : ℕ) (ls : List ℕ) (next_block block : ℕ) (bs : List ℕ) {n : ℕ}
        → ((c : ℕ)
            → c < n
            → offset (next_block ∷ bs) (c + 1)
              ≡ offset (next_block ∷ bs) c
                + blocks_for_rows (offset (next ∷ ls) (c + 1) - offset (next ∷ ls) c))
        → next_block ≡ block + blocks_for_rows (next - row)
        → (c : ℕ) → c < suc n
        → offset (block ∷ next_block ∷ bs) (c + 1)
          ≡ offset (block ∷ next_block ∷ bs) c
            + blocks_for_rows (offset (row ∷ next ∷ ls) (c + 1) - offset (row ∷ next ∷ ls) c)
    spans next row ls next_block block bs f h zero lt = h
    spans next row ls next_block block bs f h (suc c) lt = rw (shift c) (f c (omega arith))

-- Row `i` of the index, of cluster `c`: it is there, and it is in the box of the cluster.
pub record Boxed (vs : List ℤ) (row c i : ℕ) (m : Materialized) : Type 0 where
  pub from : row ≤ i
  pub there : i - row < length m.orig_ids
  pub low :
      (d : ℕ)
      → d < dimensions
      → at m.bbox_min (c * dimensions + d) ≤ℤ at vs (get_or m.orig_ids (i - row) 0 * dimensions + d)
  pub high :
      (d : ℕ)
      → d < dimensions
      → at vs (get_or m.orig_ids (i - row) 0 * dimensions + d) ≤ℤ at m.bbox_max (c * dimensions + d)

own_box :
    (vs : List ℤ) (rows : List ℕ) (k d : ℕ)
    → k < length (cluster_ids vs rows)
    → ((compute_cluster_stats vs rows d).1
        ≤ℤ at vs (get_or (cluster_ids vs rows) k 0 * dimensions + d))
      × (at vs (get_or (cluster_ids vs rows) k 0 * dimensions + d)
          ≤ℤ (compute_cluster_stats vs rows d).2)
own_box vs rows k d h =
    let id = get_or (cluster_ids vs rows) k 0 in
    compute_cluster_stats-box vs rows id d (
      OneOf-count id rows
        (omega (arith, count_of-get_or (cluster_ids vs rows) k h, count_of-cluster_ids vs rows id)))

pub materialize_from-Boxed :
    (vs : List ℤ) (labels ids : List ℕ) (rs : List IvfBuildRange) (row block s e c i : ℕ)
    → Consecutive rs s e
    → e ≤ length ids
    → row + (e - s) < 2 ^ 32
    → c < length rs
    → offset (row ∷ (materialize_from vs labels ids rs row block).list_offsets) c ≤ i
    → i < offset (row ∷ (materialize_from vs labels ids rs row block).list_offsets) (c + 1)
    → Boxed vs row c i (materialize_from vs labels ids rs row block)
unfolding materialize_from
materialize_from-Boxed vs labels ids [] row block s e c i con h small lt lo hi =
    absurd (omega arith)
materialize_from-Boxed vs labels ids (r ∷ rs) row block s e zero i (a, b, con) h small lt lo hi =
    let rows = window ids r in
    let own = cluster_ids vs rows in
    let stats = compute_cluster_stats vs rows in
    let m =
      materialize_from vs labels ids rs (row + length own) (block + blocks_for_rows (length own)) in
    let inside : i - row < length own = omega arith in
    let here = get_or-append_left own m.orig_ids (i - row) 0 inside in
    record {
      from = lo;
      there = omega (arith, length-append own m.orig_ids);
      low = λ d hd.
          rw (here, at-first_row (λ d. (stats d).1) m.bbox_min d hd)
            (own_box vs rows (i - row) d inside).0;
      high = λ d hd.
          rw (here, at-first_row (λ d. (stats d).2) m.bbox_max d hd)
            (own_box vs rows (i - row) d inside).1;
    }
materialize_from-Boxed vs labels ids (r ∷ rs) row block s e (suc c) i (a, b, con) h small lt lo hi =
    let rows = window ids r in
    let own = cluster_ids vs rows in
    let stats = compute_cluster_stats vs rows in
    let le = Consecutive-le rs r.end e con in
    let m =
      materialize_from vs labels ids rs (row + length own) (block + blocks_for_rows (length own)) in
    let size : length own ≡ r.end - s =
      omega (arith, length-cluster_ids vs rows, length-window ids r (omega arith) (omega arith)) in
    let narrow : (row + length own) % 2 ^ 32 ≡ row + length own = omega arith in
    let lo' = subst (λ n. offset (n ∷ m.list_offsets) c ≤ i) narrow lo in
    let hi' : i < offset ((row + length own) ∷ m.list_offsets) (c + 1) =
      subst (λ n. i < offset (n ∷ m.list_offsets) (c + 1)) narrow
        (subst (λ j. i < offset (row ∷ ((row + length own) % 2 ^ 32) ∷ m.list_offsets) j) (shift c)
          hi) in
    let rest =
      materialize_from-Boxed vs labels ids rs (row + length own)
        (block + blocks_for_rows (length own)) r.end e c i con h (omega arith) (omega arith) lo'
        hi' in
    let from = rest.from in
    let place : i - row ≡ length own + (i - (row + length own)) = omega arith in
    let there = get_or-append_right own m.orig_ids (i - (row + length own)) 0 in
    record {
      from = omega arith;
      there = omega (arith, length-append own m.orig_ids, rest.there);
      low =
          λ d hd. rw (place, there, at-next_row (λ d. (stats d).1) m.bbox_min c d) (rest.low d hd);
      high =
          λ d hd. rw (place, there, at-next_row (λ d. (stats d).2) m.bbox_max c d) (rest.high d hd);
    }

-- ===== src/Build/Split/Orders.antt =====
-- `balancedSplit` only reorders the ids.
use heindall.Prelude.{
  ℕ, zero, suc, ◌+◌, ◌-◌, ◌/◌, ◌≡◌, refl, ◌∙◌, ap, inl, inr, Bool, Bool-cases, List, [], ◌∷◌, ◌++◌,
  map, ◌==◌, length, length-append, length-take, length-drop, take, drop, arith,
}
use heindall.Float.{Float}
use heindall.Prelude.Int.{ℤ}
use heindall.Sort.{sort_slice}
use heindall.Sort.Counts.{
  count_of, count_of-append, count_of-take, count_of-sort_slice, length-sort_slice,
}
use heindall.Build.Split.{
  SplitState, balanced_split, sort_window, max_variance_dimension, window, is_before,
}

map_same : (xs : List ℕ) → map (λ x. x) xs ≡ xs
map_same [] = refl
map_same (x ∷ xs) = ap (◌∷◌ x) (map_same xs)

pub count_of-sorted :
    (x : ℕ) (less : ℕ → ℕ → Bool) (xs : List ℕ) → count_of x (sort_slice less xs) ≡ count_of x xs
count_of-sorted x less xs =
    let same = count_of-sort_slice less (λ y. y) x xs in
    rw (map_same (sort_slice less xs), map_same xs) at same

count_of-sort_window :
    (vectors : List ℤ) (dim start end x : ℕ) (ids : List ℕ)
    → count_of x (sort_window vectors dim start end ids) ≡ count_of x ids
unfolding sort_window
count_of-sort_window vectors dim start end x ids =
    let rest = drop start ids in
    let middle = sort_slice (is_before vectors dim) (take (end - start) rest) in
    omega (
      arith,
      count_of-append x (take start ids) (middle ++ drop (end - start) rest),
      count_of-append x middle (drop (end - start) rest),
      count_of-sorted x (is_before vectors dim) (take (end - start) rest),
      count_of-take x (end - start) rest,
      count_of-take x start ids,
    )

length-sort_window :
    (vectors : List ℤ) (dim start end : ℕ) (ids : List ℕ)
    → length (sort_window vectors dim start end ids) ≡ length ids
unfolding sort_window
length-sort_window vectors dim start end ids =
    let rest = drop start ids in
    let middle = sort_slice (is_before vectors dim) (take (end - start) rest) in
    omega (
      arith,
      length-append (take start ids) (middle ++ drop (end - start) rest),
      length-append middle (drop (end - start) rest),
      length-sort_slice (is_before vectors dim) (λ y. y) (take (end - start) rest),
      length-take (end - start) rest,
      length-drop (end - start) rest,
      length-take start ids,
      length-drop start ids,
    )

-- The same ids, in some order.
pub record Reorders (s t : SplitState) : Type 0 where
  pub counts : (x : ℕ) → count_of x t.ids ≡ count_of x s.ids
  pub size : length t.ids ≡ length s.ids

pub balanced_split-Reorders :
    (f : Float) (vectors : List ℤ) (fuel start end base count : ℕ) (s : SplitState)
    → Reorders s (balanced_split f vectors fuel start end base count s)
unfolding balanced_split
balanced_split-Reorders f vectors zero start end base count s = record {
  counts = λ x. refl;
  size = refl;
}
balanced_split-Reorders f vectors (suc fuel) start end base count s =
    elim (Bool-cases (count == 1)) [
      | inl e ↦ rw (e, balanced_split) (record { counts = λ x. refl; size = refl })
      | inr e ↦
          let dim =
            max_variance_dimension f vectors (window s.ids (record { start = start; end = end })) in
          let sorted = record s { ids = sort_window vectors dim start end s.ids } in
          let mid = start + (end - start) / 2 in
          let left = balanced_split f vectors fuel start mid base (count / 2) sorted in
          let a = balanced_split-Reorders f vectors fuel start mid base (count / 2) sorted in
          let b =
            balanced_split-Reorders f vectors fuel mid end (base + count / 2) (count / 2) left in
          rw (e, balanced_split)
            (record {
              counts =
                  λ x. b.counts x ∙ a.counts x ∙ count_of-sort_window vectors dim start end x s.ids;
              size = b.size ∙ a.size ∙ length-sort_window vectors dim start end s.ids;
            })
    ]

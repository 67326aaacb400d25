-- ===== src/Sort/Counts.antt =====
-- How often a number stands in a list, and that sorting keeps it.
use heindall.Prelude.{
  ℕ, zero, suc, ◌+◌, ◌≤◌, ◌<◌, ◌≡◌, refl, ◌∙◌, ap, inl, inr, Bool, Bool-cases, List, [], ◌∷◌, ◌++◌,
  map, if◌then◌else◌, ◌==◌, length, get_or, take, drop, arith,
}
use heindall.Sort.{insert_by, sort_slice}

abbrev pub count_of : ℕ → List ℕ → ℕ
count_of x [] = 0
count_of x (y ∷ ys) = (if x == y then 1 else 0) + count_of x ys

pub count_of-append :
    (x : ℕ) (xs ys : List ℕ) → count_of x (xs ++ ys) ≡ count_of x xs + count_of x ys
count_of-append x [] ys = omega arith
count_of-append x (y ∷ xs) ys = omega (arith, count_of-append x xs ys)

pub count_of-take :
    (x n : ℕ) (xs : List ℕ) → count_of x (take n xs) + count_of x (drop n xs) ≡ count_of x xs
count_of-take x zero xs = omega arith
count_of-take x (suc n) [] = omega arith
count_of-take x (suc n) (y ∷ xs) = omega (arith, count_of-take x n xs)

pub count_of-get_or : (xs : List ℕ) (i : ℕ) → i < length xs → 1 ≤ count_of (get_or xs i 0) xs
count_of-get_or [] i h = absurd (omega arith)
count_of-get_or (x ∷ xs) zero h = ground arith
count_of-get_or (x ∷ xs) (suc i) h = omega (arith, count_of-get_or xs i (omega arith))

-- Two places with the same number count it twice.
pub twice :
    (xs : List ℕ) (i j : ℕ)
    → i < j
    → j < length xs
    → get_or xs i 0 ≡ get_or xs j 0
    → 2 ≤ count_of (get_or xs j 0) xs
twice [] i j lt h e = absurd (omega arith)
twice (x ∷ xs) i zero lt h e = absurd (omega arith)
twice (x ∷ xs) zero (suc j) lt h e = (let one = count_of-get_or xs j (omega arith) in ground arith)
twice (x ∷ xs) (suc i) (suc j) lt h e = omega (arith, twice xs i j (omega arith) (omega arith) e)

module _ {ℓ} {A : Type ℓ} (less : A → A → Bool) (key : A → ℕ) where
  count_of-insert_by :
      (x : ℕ) (a : A) (bs : List A)
      → count_of x (map key (insert_by less a bs)) ≡ count_of x (map key (a ∷ bs))
  unfolding insert_by
  count_of-insert_by x a [] = refl
  count_of-insert_by x a (c ∷ bs) = elim (Bool-cases (less a c)) [
    | inl e ↦ rw e
    | inr e ↦ rw e (omega (arith, count_of-insert_by x a bs))
  ]

  pub count_of-sort_slice :
      (x : ℕ) (bs : List A) → count_of x (map key (sort_slice less bs)) ≡ count_of x (map key bs)
  unfolding sort_slice
  count_of-sort_slice x [] = refl
  count_of-sort_slice x (a ∷ bs) =
      count_of-insert_by x a (sort_slice less bs)
      ∙ (let ih = count_of-sort_slice x bs in omega (arith, ih))

  length-insert_by : (a : A) (bs : List A) → length (insert_by less a bs) ≡ suc (length bs)
  unfolding insert_by
  length-insert_by a [] = refl
  length-insert_by a (c ∷ bs) = elim (Bool-cases (less a c)) [
    | inl e ↦ rw e
    | inr e ↦ rw e (ap suc (length-insert_by a bs))
  ]

  pub length-sort_slice : (bs : List A) → length (sort_slice less bs) ≡ length bs
  unfolding sort_slice
  length-sort_slice [] = refl
  length-sort_slice (a ∷ bs) =
      length-insert_by a (sort_slice less bs) ∙ ap suc (length-sort_slice bs)

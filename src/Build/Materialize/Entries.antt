-- ===== src/Build/Materialize/Entries.antt =====
-- Properties of all entries of an array, under the ways the builder makes arrays.
use heindall.Prelude.{ℕ, zero, suc, ◌+◌, List, [], ◌∷◌, ◌++◌}
use heindall.Prelude.Int.{ℤ, pos}
use heindall.Quantized.{at}
use heindall.Build.Materialize.{fill}

module _ (P : ℤ → Type 0) where
  pub at-cons : (x : ℤ) (xs : List ℤ) → P x → ((i : ℕ) → P (at xs i)) → (i : ℕ) → P (at (x ∷ xs) i)
  at-cons x xs h k zero = h
  at-cons x xs h k (suc i) = k i

  pub at-append :
      (xs ys : List ℤ)
      → ((i : ℕ) → P (at xs i))
      → ((i : ℕ) → P (at ys i))
      → (i : ℕ) → P (at (xs ++ ys) i)
  at-append [] ys h k = k
  at-append (x ∷ xs) ys h k = at-cons x (xs ++ ys) (h 0) (at-append xs ys (λ i. h (suc i)) k)

  pub at-fill_all :
      P (pos 0) → (g : ℕ → ℤ) (n d : ℕ) → ((d : ℕ) → P (g d)) → (i : ℕ) → P (at (fill g n d) i)
  at-fill_all none g zero d h i = none
  at-fill_all none g (suc n) d h i =
      at-cons (g d) (fill g n (d + 1)) (h d) (at-fill_all none g n (d + 1) h) i

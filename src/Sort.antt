-- ===== src/Sort.antt =====
-- `sort.Slice` of Go's library, by insertion. Which sort runs makes no difference here: every
-- comparison of the program orders any two different elements.
pub mod Counts
use heindall.Prelude.{Bool, List, [], ◌∷◌, if◌then◌else◌}

unfoldable pub insert_by {ℓ} : {A : Type ℓ} → (A → A → Bool) → A → List A → List A
insert_by less x [] = x ∷ []
insert_by less x (y ∷ ys) = if less x y then x ∷ y ∷ ys else y ∷ insert_by less x ys

unfoldable pub sort_slice {ℓ} : {A : Type ℓ} → (A → A → Bool) → List A → List A
unfolding insert_by
sort_slice less [] = []
sort_slice less (x ∷ xs) = insert_by less x (sort_slice less xs)

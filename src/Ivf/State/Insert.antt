-- ===== src/Ivf/State/Insert.antt =====
-- `insert` is bounded insertion into a sorted list.
use heindall.Prelude.{suc, ◌≡◌, refl, List, [], ◌∷◌, arith, if◌then◌else◌, take, length}
use heindall.Ivf.State.{Best, precedes, insert_from}

-- Insertion before the first entry that `x` precedes.
abbrev pub place : Best → List Best → List Best
place x [] = x ∷ []
place x (y ∷ ys) = if precedes x y then x ∷ y ∷ ys else y ∷ place x ys

insert_from-five :
    (x a b c d e : Best)
    → insert_from 5 0 x (a ∷ b ∷ c ∷ d ∷ e ∷ []) ≡ take 5 (place x (a ∷ b ∷ c ∷ d ∷ e ∷ []))
unfolding insert_from
insert_from-five x a b c d e = ground arith

-- On five places, the shifting loop of `insert` is sorted insertion by distance and id that
-- drops the sixth entry.
pub insert_from-place :
    (x : Best) (xs : List Best) → length xs ≡ 5 → insert_from 5 0 x xs ≡ take 5 (place x xs)
insert_from-place x (a ∷ b ∷ c ∷ d ∷ e ∷ []) h = insert_from-five x a b c d e
insert_from-place x xs h = absurd (omega arith)

pub length-place : (x : Best) (xs : List Best) → length (place x xs) ≡ suc (length xs)
length-place x [] = refl
length-place x (y ∷ ys) = ground (arith, length-place x ys)

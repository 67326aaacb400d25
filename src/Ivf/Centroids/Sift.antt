-- ===== src/Ivf/Centroids/Sift.antt =====
-- `insertCentroid` is stable insertion by distance.
use mathlib.Core.Path.{subst}
use mathlib.Core.List.{append_assoc}
use heindall.Prelude.{
  ℕ, zero, suc, ◌-◌, ◌≡◌, refl, ap, true, false, List, [], ◌∷◌, ◌++◌, arith, Bool-cases, inl, inr,
  if◌then◌else◌, get_elem?, length, set, some,
}
use heindall.Prelude.Int.{ltb_ℤ, ◌≤ℤ◌}
use heindall.Ivf.State.{copy_down}
use heindall.Ivf.Centroids.{Probe, probe_at, sift}

-- Behind every entry that is no farther.
unfoldable pub rank : Probe → List Probe → List Probe
rank x [] = x ∷ []
rank x (y ∷ ys) = if ltb_ℤ x.dist y.dist then x ∷ y ∷ ys else y ∷ rank x ys

abbrev pub AtMost : Probe → List Probe → Type 0
AtMost x [] = Unit
AtMost x (y ∷ ys) = (y.dist ≤ℤ x.dist) × AtMost x ys

abbrev pub AtLeast : Probe → List Probe → Type 0
AtLeast x [] = Unit
AtLeast x (y ∷ ys) = (x.dist ≤ℤ y.dist) × AtLeast x ys

-- The distances do not fall.
abbrev pub Sorted : List Probe → Type 0
Sorted [] = Unit
Sorted (x ∷ xs) = AtLeast x xs × Sorted xs

AtLeast-trans : (x y : Probe) (xs : List Probe) → x.dist ≤ℤ y.dist → AtLeast y xs → AtLeast x xs
AtLeast-trans x y [] h a = tt
AtLeast-trans x y (z ∷ zs) h (p, a) = (omega arith, AtLeast-trans x y zs h a)

AtLeast-rank :
    (x y : Probe) (xs : List Probe) → x.dist ≤ℤ y.dist → AtLeast x xs → AtLeast x (rank y xs)
unfolding rank
AtLeast-rank x y [] h a = (h, tt)
AtLeast-rank x y (z ∷ zs) h (p, a) = elim (Bool-cases (ltb_ℤ y.dist z.dist)) [
  | inl e ↦ rw e (h, (p, a))
  | inr e ↦ rw e (p, AtLeast-rank x y zs h a)
]

pub rank-Sorted : (x : Probe) (xs : List Probe) → Sorted xs → Sorted (rank x xs)
unfolding rank
rank-Sorted x [] s = (tt, tt)
rank-Sorted x (y ∷ ys) (a, s) = elim (Bool-cases (ltb_ℤ x.dist y.dist)) [
  | inl e ↦
      let le : x.dist ≤ℤ y.dist = ground arith in rw e ((le, AtLeast-trans x y ys le a), (a, s))
  | inr e ↦
      let le : y.dist ≤ℤ x.dist = ground arith in
      rw e (AtLeast-rank y x ys le a, rank-Sorted x ys s)
]

-- Behind everything that is no farther.
pub rank_last : (x : Probe) (xs : List Probe) → AtMost x xs → rank x xs ≡ xs ++ x ∷ []
unfolding rank
rank_last x [] a = refl
rank_last x (y ∷ ys) (p, a) =
    let e : ltb_ℤ x.dist y.dist ≡ false = ground arith in rw (e, rank_last x ys a)

pub rank-snoc :
    (x y : Probe) (xs : List Probe)
    → ltb_ℤ x.dist y.dist ≡ true
    → rank x (xs ++ y ∷ []) ≡ rank x xs ++ y ∷ []
unfolding rank
rank-snoc x y [] h = rw h
rank-snoc x y (z ∷ zs) h = ground (arith, rank-snoc x y zs h)

pub AtMost-snoc :
    (x y : Probe) (xs : List Probe)
    → Sorted (xs ++ y ∷ [])
    → y.dist ≤ℤ x.dist
    → AtMost x (xs ++ y ∷ [])
AtMost-snoc x y [] s h = (h, tt)
AtMost-snoc x y (z ∷ zs) (a, s) h = (omega (arith, last_of y z zs a), AtMost-snoc x y zs s h)
  where
    last_of : (y z : Probe) (zs : List Probe) → AtLeast z (zs ++ y ∷ []) → z.dist ≤ℤ y.dist
    last_of y z [] (p, _) = p
    last_of y z (w ∷ ws) (_, a) = last_of y z ws a

pub Sorted-init : (y : Probe) (xs : List Probe) → Sorted (xs ++ y ∷ []) → Sorted xs
Sorted-init y [] s = tt
Sorted-init y (x ∷ xs) (a, s) = (AtLeast-init x xs a, Sorted-init y xs s)
  where
    AtLeast-init : (x : Probe) (xs : List Probe) → AtLeast x (xs ++ y ∷ []) → AtLeast x xs
    AtLeast-init x [] a = tt
    AtLeast-init x (z ∷ zs) (p, a) = (p, AtLeast-init x zs a)

pub unsnoc :
    (i : ℕ) (xs : List Probe)
    → length xs ≡ suc i
    → (ys : List Probe) × (y : Probe) × (xs ≡ ys ++ y ∷ []) × (length ys ≡ i)
unsnoc i [] h = absurd (omega arith)
unsnoc zero (x ∷ []) h = ([], x, refl, refl)
unsnoc zero (x ∷ y ∷ ys) h = absurd (omega arith)
unsnoc (suc i) (x ∷ xs) h =
    let (ys, y, e, l) = unsnoc i xs (omega arith) in (x ∷ ys, y, ap (◌∷◌ x) e, ap suc l)

pub probe_at-length :
    (xs : List Probe) (y : Probe) (zs : List Probe) → probe_at (xs ++ y ∷ zs) (length xs) ≡ y
probe_at-length [] y zs = refl
probe_at-length (x ∷ xs) y zs = probe_at-length xs y zs

set-length :
    (xs : List Probe) (v y : Probe) (zs : List Probe)
    → set (xs ++ y ∷ zs) (length xs) v ≡ xs ++ v ∷ zs
set-length [] v y zs = refl
set-length (x ∷ xs) v y zs = ap (◌∷◌ x) (set-length xs v y zs)

set_behind :
    (xs : List Probe) (v y z : Probe) (zs : List Probe)
    → set (xs ++ y ∷ z ∷ zs) (suc (length xs)) v ≡ xs ++ y ∷ v ∷ zs
set_behind [] v y z zs = refl
set_behind (x ∷ xs) v y z zs = ap (◌∷◌ x) (set_behind xs v y z zs)

get_elem?-length :
    (xs : List Probe) (y : Probe) (zs : List Probe) → get_elem? (xs ++ y ∷ zs) (length xs) ≡ some y
get_elem?-length [] y zs = refl
get_elem?-length (x ∷ xs) y zs = get_elem?-length xs y zs

copy_down_lem :
    (xs : List Probe) (y z : Probe) (zs : List Probe)
    → copy_down (xs ++ y ∷ z ∷ zs) (suc (length xs)) ≡ xs ++ y ∷ y ∷ zs
unfolding copy_down
copy_down_lem xs y z zs =
    let before : suc (length xs) - 1 ≡ length xs = omega arith in
    rw (before, get_elem?-length xs y (z ∷ zs), copy_down) (set_behind xs y y z zs)

-- One round of the loop.
sift_step :
    (x y z : Probe) (ys zs : List Probe)
    → Sorted (ys ++ y ∷ [])
    → sift x (length ys) (ys ++ y ∷ y ∷ zs) ≡ rank x ys ++ y ∷ zs
    → sift x (suc (length ys)) (ys ++ y ∷ z ∷ zs) ≡ rank x (ys ++ y ∷ []) ++ zs
unfolding sift
sift_step x y z ys zs s ih = elim (Bool-cases (ltb_ℤ x.dist y.dist)) [
  | inl e ↦
      rw
        (
          probe_at-length ys y (z ∷ zs),
          e,
          sift,
          copy_down_lem ys y z zs,
          rank-snoc x y ys e,
          append_assoc,
        )
        ih
  | inr e ↦
      let le : y.dist ≤ℤ x.dist = ground arith in
      rw (
        probe_at-length ys y (z ∷ zs),
        e,
        sift,
        set_behind ys x y z zs,
        rank_last x (ys ++ y ∷ []) (AtMost-snoc x y ys s le),
        append_assoc,
        append_assoc,
      )
]

-- From the end of a sorted prefix, the loop of `insertCentroid` places the entry behind all
-- that are no farther, and drops the entry behind the prefix.
pub sift-rank :
    (i : ℕ) (x z : Probe) (xs zs : List Probe)
    → length xs ≡ i
    → Sorted xs
    → sift x i (xs ++ z ∷ zs) ≡ rank x xs ++ zs
sift-rank zero x z [] zs l s = unfold rank sift in refl
sift-rank zero x z (y ∷ ys) zs l s = absurd (omega arith)
sift-rank (suc i) x z xs zs l s =
    let (ys, y, e, k) = unsnoc i xs l in
    let s' = subst Sorted e s in
    rw e (
      subst (λ j. sift x (suc j) ((ys ++ y ∷ []) ++ z ∷ zs) ≡ rank x (ys ++ y ∷ []) ++ zs) k
        (rw append_assoc
          (sift_step x y z ys zs s' (rw k (sift-rank i x y ys (y ∷ zs) k (Sorted-init y ys s'))))))

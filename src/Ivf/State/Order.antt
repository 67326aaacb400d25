-- ===== src/Ivf/State/Order.antt =====
-- The order on (distance, original id), and the lists that are sorted by it.
use heindall.Prelude.{
  ◌≡◌, refl, ◌⊎◌, inl, inr, true, false, List, [], ◌∷◌, arith, if◌then◌else◌, Bool-cases,
}
use heindall.Prelude.Int.{ltb_ℤ}
use heindall.Ivf.State.{Best, precedes, unset, max_int64_value}
use heindall.Ivf.State.Insert.{place}

infix 50 ◌∈◌
abbrev pub ◌∈◌ : Best → List Best → Type 0
x ∈ [] = ⊥
x ∈ (y ∷ ys) = (x ≡ y) ⊎ (x ∈ ys)

abbrev pub SameKey : Best → Best → Type 0
SameKey x y = (x.dist ≡ y.dist) × (x.id ≡ y.id)

-- A row that was really found: its distance is below the sentinel's.
abbrev pub IsFound : Best → Type 0
IsFound x = ltb_ℤ x.dist max_int64_value ≡ true

pub precedes_trans :
    (x y z : Best) → precedes x y ≡ true → precedes y z ≡ true → precedes x z ≡ true
unfolding precedes
precedes_trans x y z h k = ground arith

pub precedes_asym : (x y : Best) → precedes x y ≡ true → precedes y x ≡ false
unfolding precedes
precedes_asym x y h = ground arith

pub precedes_total : (x y : Best) → precedes x y ≡ false → ¬ SameKey x y → precedes y x ≡ true
unfolding precedes
precedes_total x y h k = ground arith

pub precedes-unset : (x : Best) → IsFound x → precedes x unset ≡ true
unfolding precedes
precedes-unset x h = ground arith

pub not-IsFound-unset : ¬ IsFound unset
not-IsFound-unset = λ h. cc

-- `y` may stand behind `x`: empty places stand behind everything.
abbrev pub Before : Best → Best → Type 0
Before x y = (precedes x y ≡ true) ⊎ (y ≡ unset)

abbrev pub All : (Best → Type 0) → List Best → Type 0
All P [] = Unit
All P (x ∷ xs) = P x × All P xs

-- Strictly sorted, so no row stands twice.
abbrev pub Ranked : List Best → Type 0
Ranked [] = Unit
Ranked (x ∷ xs) = All (Before x) xs × Ranked xs

pub All-get : (P : Best → Type 0) (xs : List Best) (y : Best) → All P xs → y ∈ xs → P y
All-get P [] y ps m = elim m [ ]
All-get P (x ∷ xs) y (p, ps) (inl e) = rw e p
All-get P (x ∷ xs) y (p, ps) (inr m) = All-get P xs y ps m

pub All-intro : (P : Best → Type 0) (xs : List Best) → ((y : Best) → y ∈ xs → P y) → All P xs
All-intro P [] h = tt
All-intro P (x ∷ xs) h = (h x (inl refl), All-intro P xs (λ y m. h y (inr m)))

pub mem-place : (x : Best) (xs : List Best) (y : Best) → y ∈ place x xs → (y ≡ x) ⊎ (y ∈ xs)
mem-place x [] y m = m
mem-place x (z ∷ zs) y m =
    (elim (precedes x z)
        as (λ b. y ∈ (if b then x ∷ z ∷ zs else z ∷ place x zs) → (y ≡ x) ⊎ (y ∈ (z ∷ zs))) [
          | true ↦ λ k. k
          | false ↦ elim [
            | inl e ↦ inr (inl e)
            | inr k ↦ elim (mem-place x zs y k) [ inl e ↦ inl e | inr i ↦ inr (inr i) ]
          ]
        ])
      m

pub place-mem : (x : Best) (xs : List Best) (y : Best) → (y ≡ x) ⊎ (y ∈ xs) → y ∈ place x xs
place-mem x [] y m = m
place-mem x (z ∷ zs) y m =
    (elim (precedes x z)
        as (λ b. (y ≡ x) ⊎ (y ∈ (z ∷ zs)) → y ∈ (if b then x ∷ z ∷ zs else z ∷ place x zs)) [
          | true ↦ λ k. k
          | false ↦ elim [
            | inl e ↦ inr (place-mem x zs y (inl e))
            | inr (inl e) ↦ inl e
            | inr (inr k) ↦ inr (place-mem x zs y (inr k))
          ]
        ])
      m

Before-trans :
    (x y : Best) → precedes x y ≡ true → (zs : List Best) → All (Before y) zs → All (Before x) zs
Before-trans x y h [] ps = tt
Before-trans x y h (z ∷ zs) (inl p, ps) = (inl (precedes_trans x y z h p), Before-trans x y h zs ps)
Before-trans x y h (z ∷ zs) (inr p, ps) = (inr p, Before-trans x y h zs ps)

All-place : (P : Best → Type 0) (x : Best) (xs : List Best) → P x → All P xs → All P (place x xs)
All-place P x [] p ps = (p, tt)
All-place P x (z ∷ zs) p (q, qs) =
    elim (precedes x z) as (λ b. All P (if b then x ∷ z ∷ zs else z ∷ place x zs)) [
      | true ↦ (p, (q, qs))
      | false ↦ (q, All-place P x zs p qs)
    ]

-- Placing a new key keeps a list sorted.
pub place-Ranked :
    (x : Best) (xs : List Best) → All (λ y. ¬ SameKey x y) xs → Ranked xs → Ranked (place x xs)
place-Ranked x [] f r = (tt, tt)
place-Ranked x (z ∷ zs) (f, fs) (b, r) = elim (Bool-cases (precedes x z)) [
  | inl e ↦ rw e ((inl e, Before-trans x z e zs b), (b, r))
  | inr e ↦
      rw e (All-place (Before z) x zs (inl (precedes_total x z e f)) b, place-Ranked x zs fs r)
]

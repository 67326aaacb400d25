-- ===== src/Ivf/State/Nearest.antt =====
-- What the search state means: its five places hold the nearest of the rows offered so far.
use heindall.Prelude.{
  ℕ, zero, suc, ◌≡◌, ◌∙◌, ◌⊎◌, inl, inr, Bool, true, false, List, [], ◌∷◌, arith, take, Bool-cases,
  length, ap, length-take,
}
use mathlib.Core.Path.{subst}
use heindall.Prelude.Int.{ℤ, ltb_ℤ, ◌≤ℤ◌}
use heindall.Ivf.State.{Best, precedes, unset, max_int64_value, fifth}
use heindall.Ivf.State.Insert.{place, length-place}
use heindall.Ivf.State.Order.{
  ◌∈◌, SameKey, IsFound, Before, All, Ranked, All-get, All-intro, mem-place, place-mem,
  place-Ranked, precedes_trans, precedes_asym, precedes-unset, not-IsFound-unset,
}

-- For the rows of which `R` holds: the places are strictly sorted, hold such rows or nothing, and
-- no row that is left out precedes one that is held.
pub record IsNearest (R : Best → Type 0) (xs : List Best) : Type 0 where
  pub size : length xs ≡ 5
  pub ranked : Ranked xs
  pub sound : (y : Best) → y ∈ xs → R y ⊎ (y ≡ unset)
  pub complete : (r : Best) → R r → (r ∈ xs) ⊎ All (λ y. precedes r y ≡ false) xs
  pub found : (r : Best) → R r → IsFound r

mem-take : (n : ℕ) (xs : List Best) (y : Best) → y ∈ take n xs → y ∈ xs
mem-take zero xs y m = elim m [ ]
mem-take (suc n) [] y m = elim m [ ]
mem-take (suc n) (x ∷ xs) y (inl e) = inl e
mem-take (suc n) (x ∷ xs) y (inr m) = inr (mem-take n xs y m)

All-take : (P : Best → Type 0) (n : ℕ) (xs : List Best) → All P xs → All P (take n xs)
All-take P n xs ps = All-intro P (take n xs) (λ y m. All-get P xs y ps (mem-take n xs y m))

take-Ranked : (n : ℕ) (xs : List Best) → Ranked xs → Ranked (take n xs)
take-Ranked zero xs r = tt
take-Ranked (suc n) [] r = tt
take-Ranked (suc n) (x ∷ xs) (b, r) = (All-take (Before x) n xs b, take-Ranked n xs r)

-- An entry behind the cut stands behind everything before it.
kept_or_behind :
    (n : ℕ) (xs : List Best) (z : Best)
    → Ranked xs
    → z ∈ xs
    → (z ∈ take n xs) ⊎ All (λ y. Before y z) (take n xs)
kept_or_behind zero xs z r m = inr tt
kept_or_behind (suc n) [] z r m = elim m [ ]
kept_or_behind (suc n) (x ∷ xs) z (b, r) (inl e) = inl (inl e)
kept_or_behind (suc n) (x ∷ xs) z (b, r) (inr m) = elim (kept_or_behind n xs z r m) [
  | inl k ↦ inl (inr k)
  | inr k ↦ inr (All-get (Before x) xs z b m, k)
]

-- Everything before the fifth place stands before it.
Before-fifth :
    (xs : List Best) (y : Best)
    → length xs ≡ 5
    → Ranked xs
    → y ∈ xs
    → (y ≡ fifth xs) ⊎ Before y (fifth xs)
Before-fifth (a ∷ b ∷ c ∷ d ∷ e ∷ []) y s r m = ground arith
Before-fifth xs y s r m = absurd (omega arith)

fifth-mem : (xs : List Best) → length xs ≡ 5 → fifth xs ∈ xs
fifth-mem (a ∷ b ∷ c ∷ d ∷ e ∷ []) s = ground arith
fifth-mem xs s = absurd (omega arith)

contra : {b : Bool} → (b ≡ true → ⊥) → b ≡ false
contra {b} h = elim (Bool-cases b) [ inl e ↦ absurd (h e) | inr e ↦ e ]

abbrev pub With : (Best → Type 0) → Best → Best → Type 0
With R x y = R y ⊎ (y ≡ x)

module _ (R : Best → Type 0) (xs : List Best) (near : IsNearest R xs) (x : Best)
    (real : IsFound x) where
  -- A row that does not precede the fifth place precedes none.
  pub behind-All : precedes x (fifth xs) ≡ false → All (λ y. precedes x y ≡ false) xs
  behind-All h = All-intro _ xs λ y m. contra λ t.
      elim (Before-fifth xs y near.size near.ranked m) [
        | inl e ↦ cc
        | inr (inl p) ↦ let q = precedes_trans x y (fifth xs) t p in cc
        | inr (inr e) ↦ let q = precedes-unset x real in cc
      ]

  -- Skipping it keeps the meaning.
  pub skip-IsNearest : precedes x (fifth xs) ≡ false → IsNearest (With R x) xs
  skip-IsNearest h = record {
    size = near.size;
    ranked = near.ranked;
    sound = λ y m. elim (near.sound y m) [ inl r ↦ inl (inl r) | inr e ↦ inr e ];
    complete = λ r. elim [ inl k ↦ near.complete r k | inr e ↦ inr (rw e (behind-All h)) ];
    found = λ r. elim [ inl k ↦ near.found r k | inr e ↦ rw e real ];
  }

  module _ (fresh : (y : Best) → R y → ¬ SameKey x y) where
    fresh_in : All (λ y. ¬ SameKey x y) xs
    fresh_in = All-intro _ xs λ y m. elim (near.sound y m) [
      | inl r ↦ fresh y r
      | inr e ↦ λ same.
          let at_max =
            subst (λ (d : ℤ). ltb_ℤ d max_int64_value ≡ true) (same.0 ∙ ap (λ (b : Best). b.dist) e)
              real in
          cc
    ]

    placed-Ranked : Ranked (place x xs)
    placed-Ranked = place-Ranked x xs fresh_in near.ranked

    -- A row that was left out before stays behind everything that is held now.
    still_behind :
        (r : Best)
        → precedes x (fifth xs) ≡ true
        → All (λ y. precedes r y ≡ false) xs
        → All (λ y. precedes r y ≡ false) (take 5 (place x xs))
    still_behind r p ps = All-intro _ _ λ y m. elim (mem-place x xs y (mem-take 5 _ y m)) [
      | inl e ↦ contra λ t.
          let at_fifth = All-get _ xs (fifth xs) ps (fifth-mem xs near.size) in
          let q = precedes_trans r x (fifth xs) (rw (← e) t) p in cc
      | inr k ↦ All-get _ xs y ps k
    ]

    -- A row of the longer list is held, or stands behind everything that is.
    split_at_cut :
        (r : Best)
        → IsFound r
        → r ∈ place x xs
        → (r ∈ take 5 (place x xs)) ⊎ All (λ y. precedes r y ≡ false) (take 5 (place x xs))
    split_at_cut r fr m = elim (kept_or_behind 5 (place x xs) r placed-Ranked m) [
      | inl k ↦ inl k
      | inr ps ↦ inr (
          All-intro _ _ λ y k. elim (All-get _ _ y ps k) [
            | inl p ↦ precedes_asym y r p
            | inr e ↦ absurd (not-IsFound-unset (subst IsFound e fr))
          ])
    ]

    -- Inserting it keeps the meaning.
    pub insert-IsNearest : precedes x (fifth xs) ≡ true → IsNearest (With R x) (take 5 (place x xs))
    insert-IsNearest p = record {
      size = omega (arith, length-take 5 (place x xs), length-place x xs, near.size);
      ranked = take-Ranked 5 (place x xs) placed-Ranked;
      sound = λ y m. elim (mem-place x xs y (mem-take 5 _ y m)) [
        | inl e ↦ inl (inr e)
        | inr k ↦ elim (near.sound y k) [ inl r ↦ inl (inl r) | inr e ↦ inr e ]
      ];
      complete = λ r. elim [
        | inl k ↦ elim (near.complete r k) [
          | inl m ↦ split_at_cut r (near.found r k) (place-mem x xs r (inr m))
          | inr ps ↦ inr (still_behind r p ps)
        ]
        | inr e ↦ split_at_cut r (rw e real) (place-mem x xs r (inl e))
      ];
      found = λ r. elim [ inl k ↦ near.found r k | inr e ↦ rw e real ];
    }

precedes-le : (x y : Best) → precedes x y ≡ true → x.dist ≤ℤ y.dist
unfolding precedes
precedes-le x y h = ground arith

pub placed_closer :
    (R : Best → Type 0) (xs : List Best)
    → IsNearest R xs
    → (x : Best) → precedes x (fifth xs) ≡ true
    → (fifth (take 5 (place x xs))).dist ≤ℤ (fifth xs).dist
placed_closer R xs near x p =
    let new = take 5 (place x xs) in
    let size : length new ≡ 5 =
      omega (arith, length-take 5 (place x xs), length-place x xs, near.size) in
    elim (mem-place x xs (fifth new) (mem-take 5 (place x xs) (fifth new) (fifth-mem new size))) [
      | inl e ↦ rw e (precedes-le x (fifth xs) p)
      | inr m ↦ elim (Before-fifth xs (fifth new) near.size near.ranked m) [
        | inl e ↦ rw e (omega arith)
        | inr (inl q) ↦ precedes-le (fifth new) (fifth xs) q
        | inr (inr e) ↦ elim (near.sound (fifth new) m) [
          | inl r ↦ let f = near.found (fifth new) r in rw e (ground arith)
          | inr u ↦ rw (e, u) (omega arith)
        ]
      ]
    ]

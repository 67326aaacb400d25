-- ===== src/Ivf/Scan/Meaning.antt =====
-- What a visit does to the search state: it adds its rows to those the state is nearest of.
use mathlib.Core.Path.{subst}
use heindall.Prelude.{
  ℕ, zero, suc, ◌+◌, ◌≤◌, ◌<◌, ◌≡◌, refl, ◌∙◌, ◌⊎◌, inl, inr, not, List, arith, Bool-cases, ◌==◌,
}
use heindall.Prelude.Int.{ℤ, ◌≤ℤ◌}
use heindall.Quantized.{QuantizedIndex}
use heindall.Ivf.State.{Best, SearchState, insert, fifth, precedes}
use heindall.Ivf.State.Insert.{insert_from-place}
use heindall.Ivf.State.Order.{IsFound, SameKey}
use heindall.Ivf.State.Nearest.{IsNearest, With, insert-IsNearest, skip-IsNearest, placed_closer}
use heindall.Ivf.Scan.{offer, rejects, block_row}
use heindall.Ivf.Scan.Blocks.{visit}

rejects-precedes :
    (s : SearchState) (x : Best) → rejects s x.dist x.id ≡ not (precedes x (fifth s.best))
unfolding rejects precedes
rejects-precedes s x = ground arith

-- Offering a row with a distance below the largest `int64` that was not seen before, with the
-- rejection test of the scans, keeps the five places the nearest, strictly sorted, of the rows
-- seen, now with this one.
pub offer-IsNearest :
    (R : Best → Type 0) (s : SearchState) (x : Best)
    → IsNearest R s.best
    → IsFound x
    → ((y : Best) → R y → ¬ SameKey x y)
    → IsNearest (With R x) (offer x s).best
unfolding offer insert
offer-IsNearest R s x near real fresh = elim (Bool-cases (precedes x (fifth s.best))) [
  | inl e ↦
      rw (rejects-precedes, e, insert_from-place x s.best near.size)
        (insert-IsNearest R s.best near x real fresh e)
  | inr e ↦ rw (rejects-precedes, e) (skip-IsNearest R s.best near x real e)
]

-- The fifth place only comes nearer.
offer_closer :
    (R : Best → Type 0) (s : SearchState) (x : Best)
    → IsNearest R s.best
    → IsFound x
    → (fifth (offer x s).best).dist ≤ℤ (fifth s.best).dist
unfolding offer insert
offer_closer R s x near real = elim (Bool-cases (precedes x (fifth s.best))) [
  | inl e ↦
      rw (rejects-precedes, e, insert_from-place x s.best near.size)
        (placed_closer R s.best near x e)
  | inr e ↦ rw (rejects-precedes, e) (omega arith)
]

pub IsNearest-map :
    (R S : Best → Type 0) (xs : List Best)
    → ((x : Best) → R x → S x)
    → ((x : Best) → S x → R x)
    → IsNearest R xs
    → IsNearest S xs
IsNearest-map R S xs f g near = record {
  size = near.size;
  ranked = near.ranked;
  sound = λ y m. elim (near.sound y m) [ inl r ↦ inl (f y r) | inr e ↦ inr e ];
  complete = λ r h. near.complete r (g r h);
  found = λ r h. near.found r (g r h);
}

offer-probe_mask : (s : SearchState) (x : Best) → (offer x s).probe_mask ≡ s.probe_mask
unfolding offer insert
offer-probe_mask s x = ground arith

module _ (idx : QuantizedIndex) (row_end : ℕ) (dist : ℕ → ℤ) where
  abbrev pub row : ℕ → Best
  row j = block_row idx row_end j (dist j)

  abbrev pub AddRows : (Best → Type 0) → ℕ → ℕ → Best → Type 0
  AddRows R i n x = R x ⊎ ((j : ℕ) × (i ≤ j) × (j < i + n) × (x ≡ row j))

  pub visit-probe_mask :
      (n i : ℕ) (s : SearchState) → (visit idx row_end (λ _. dist) n i s).probe_mask ≡ s.probe_mask
  unfolding visit
  visit-probe_mask zero i s = refl
  visit-probe_mask (suc n) i s = visit-probe_mask n (i + 1) _ ∙ offer-probe_mask s (row i)

  pub visit-IsNearest :
      (n i : ℕ) (R : Best → Type 0) (s : SearchState)
      → IsNearest R s.best
      → ((j : ℕ) → i ≤ j → j < i + n → IsFound (row j))
      → ((j : ℕ) → i ≤ j → j < i + n → (y : Best) → R y → ¬ SameKey (row j) y)
      → ((j k : ℕ) → i ≤ j → j < k → k < i + n → ¬ SameKey (row k) (row j))
      → IsNearest (AddRows R i n) (visit idx row_end (λ _. dist) n i s).best
        × ((fifth (visit idx row_end (λ _. dist) n i s).best).dist ≤ℤ (fifth s.best).dist)
  unfolding visit
  visit-IsNearest zero i R s near found fresh apart = (
    IsNearest-map R _ s.best (λ x r. inl r)
        (λ x. elim [ inl r ↦ r | inr (j, lo, hi, e) ↦ absurd (omega arith) ]) near,
    omega arith,
  )
  visit-IsNearest (suc n) i R s near found fresh apart =
      let now =
        offer-IsNearest R s (row i) near (found i (omega arith) (omega arith))
          (fresh i (omega arith) (omega arith)) in
      let later =
        visit-IsNearest n (i + 1) (With R (row i)) _ now
          (λ j lo hi. found j (omega arith) (omega arith))
          (λ j lo hi y. elim [
            | inl r ↦ fresh j (omega arith) (omega arith) y r
            | inr e ↦ λ same.
                apart i j (omega arith) (omega arith) (omega arith) (subst (SameKey (row j)) e same)
          ])
          (λ j k lo lt hi. apart j k (omega arith) (omega arith) (omega arith)) in
      (
        IsNearest-map _ _ _
            (λ x. elim [
              | inl (inl r) ↦ inl r
              | inl (inr e) ↦ inr (i, omega arith, omega arith, e)
              | inr (j, lo, hi, e) ↦ inr (j, omega arith, omega arith, e)
            ])
            (λ x. elim [
              | inl r ↦ inl (inl r)
              | inr (j, lo, hi, e) ↦ elim (Bool-cases (i == j)) [
                | inl h ↦
                    let same : j ≡ i = ground arith in inl (inr (subst (λ k. x ≡ row k) same e))
                | inr h ↦ inr (j, ground arith, omega arith, e)
              ]
            ])
            later.0,
        omega (arith, later.1, offer_closer R s (row i) near (found i (omega arith) (omega arith))),
      )

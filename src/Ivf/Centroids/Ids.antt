-- ===== src/Ivf/Centroids/Ids.antt =====
-- The ids that `topIVFCentroids` returns are different clusters.
use heindall.Prelude.{
  ℕ, zero, suc, ◌^◌, ◌≤◌, ◌<◌, ◌≡◌, ◌≢◌, sym, List, [], ◌∷◌, arith, Bool-cases, inl, inr, take,
}
use heindall.Prelude.Int.{ℤ, ltb_ℤ}
use heindall.Ivf.Centroids.{Probe, TopState}
use heindall.Ivf.Centroids.Sift.{rank}
use heindall.Ivf.Centroids.Top.{ranked, Keeps, take_prefix, length-kept}

abbrev pub All : (Probe → Type 0) → List Probe → Type 0
All P [] = Unit
All P (p ∷ ps) = P p × All P ps

abbrev pub Distinct : List Probe → Type 0
Distinct [] = Unit
Distinct (p ∷ ps) = All (λ r. r.id ≢ p.id) ps × Distinct ps

pub All-map :
    (P Q : Probe → Type 0) → ((p : Probe) → P p → Q p) → (ps : List Probe) → All P ps → All Q ps
All-map P Q f [] a = tt
All-map P Q f (p ∷ ps) (h, a) = (f p h, All-map P Q f ps a)

All-rank : (P : Probe → Type 0) (x : Probe) (ps : List Probe) → P x → All P ps → All P (rank x ps)
unfolding rank
All-rank P x [] h a = (h, tt)
All-rank P x (p ∷ ps) h (q, a) = elim (Bool-cases (ltb_ℤ x.dist p.dist)) [
  | inl e ↦ rw e (h, (q, a))
  | inr e ↦ rw e (q, All-rank P x ps h a)
]

Distinct-rank :
    (x : Probe) (ps : List Probe) → All (λ r. r.id ≢ x.id) ps → Distinct ps → Distinct (rank x ps)
unfolding rank
Distinct-rank x [] f d = (tt, tt)
Distinct-rank x (p ∷ ps) (n, f) (h, d) = elim (Bool-cases (ltb_ℤ x.dist p.dist)) [
  | inl e ↦ rw e ((n, f), (h, d))
  | inr e ↦ rw e (All-rank (λ r. r.id ≢ p.id) x ps (λ q. n (sym q)) h, Distinct-rank x ps f d)
]

All-take : (P : Probe → Type 0) (n : ℕ) (ps : List Probe) → All P ps → All P (take n ps)
All-take P zero ps a = tt
All-take P (suc n) [] a = tt
All-take P (suc n) (p ∷ ps) (h, a) = (h, All-take P n ps a)

Distinct-take : (n : ℕ) (ps : List Probe) → Distinct ps → Distinct (take n ps)
Distinct-take zero ps d = tt
Distinct-take (suc n) [] d = tt
Distinct-take (suc n) (p ∷ ps) (h, d) = (All-take (λ r. r.id ≢ p.id) n ps h, Distinct-take n ps d)

ranked-below : (dist : ℕ → ℤ) (n : ℕ) → n ≤ 2 ^ 32 → All (λ p. p.id < n) (ranked dist n)
unfolding ranked
ranked-below dist zero h = tt
ranked-below dist (suc n) h =
    All-rank (λ p. p.id < suc n) _ _ (omega arith)
      (All-map _ _ (λ p b. omega arith) _ (ranked-below dist n (omega arith)))

ranked-Distinct : (dist : ℕ → ℤ) (n : ℕ) → n ≤ 2 ^ 32 → Distinct (ranked dist n)
unfolding ranked
ranked-Distinct dist zero h = tt
ranked-Distinct dist (suc n) h =
    Distinct-rank _ _ (All-map _ _ (λ p b. omega arith) _ (ranked-below dist n (omega arith)))
      (ranked-Distinct dist n (omega arith))

-- The places that the callers read are different clusters of the index.
pub Keeps-ids :
    (dist : ℕ → ℤ) (np c : ℕ) (t : TopState)
    → Keeps dist np c t
    → c ≤ 2 ^ 32
    → All (λ p. p.id < c) (take t.count t.best) × Distinct (take t.count t.best)
Keeps-ids dist np c t keeps h =
    let kept = take np (ranked dist c) in
    let listed : take t.count t.best ≡ kept =
      rw keeps.best
        (take_prefix t.count kept _ (omega (arith, keeps.count, length-kept dist np c))) in
    (
      rw listed (All-take _ np _ (ranked-below dist c h)),
      rw listed (Distinct-take np _ (ranked-Distinct dist c h)),
    )

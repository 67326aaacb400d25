-- ===== src/Build/Split/Ranges.antt =====
-- The ranges of `balancedSplit` follow one another from `start` to `end`.
use mathlib.Core.Path.{subst}
use heindall.Prelude.{
  ℕ, zero, suc, ◌+◌, ◌-◌, ◌/◌, ◌^◌, ◌≤◌, ◌<◌, ◌≡◌, ◌≢◌, refl, sym, ◌∙◌, ap, ◌⊎◌, inl, inr, false,
  List, [], ◌∷◌, ◌==◌, set, get_or, length, length-set, arith,
}
use native.Mathlib.Nat.{one-le-pow, pow-suc}
use heindall.Float.{Float}
use heindall.Prelude.Int.{ℤ}
use heindall.Build.Split.{
  IvfBuildRange, SplitState, balanced_split, sort_window, max_variance_dimension, window,
}

abbrev pub range_at : List IvfBuildRange → ℕ → IvfBuildRange
range_at rs i = get_or rs i (record { start = 0; end = 0 })

-- The `n` ranges from `base` on lead from `s` to `e`.
abbrev pub Leads : List IvfBuildRange → ℕ → ℕ → ℕ → ℕ → Type 0
Leads rs base zero s e = s ≡ e
Leads rs base (suc n) s e =
    ((range_at rs base).start ≡ s)
    × (s ≤ (range_at rs base).end)
    × Leads rs (base + 1) n (range_at rs base).end e

range_at-set_same :
    (rs : List IvfBuildRange) (i : ℕ) (r : IvfBuildRange)
    → i < length rs
    → range_at (set rs i r) i ≡ r
range_at-set_same [] i r h = absurd (omega arith)
range_at-set_same (x ∷ rs) zero r h = refl
range_at-set_same (x ∷ rs) (suc i) r h = range_at-set_same rs i r (omega arith)

range_at-set_other :
    (rs : List IvfBuildRange) (i j : ℕ) (r : IvfBuildRange)
    → i ≢ j
    → range_at (set rs i r) j ≡ range_at rs j
range_at-set_other [] i j r h = refl
range_at-set_other (x ∷ rs) zero zero r h = absurd (h refl)
range_at-set_other (x ∷ rs) zero (suc j) r h = refl
range_at-set_other (x ∷ rs) (suc i) zero r h = refl
range_at-set_other (x ∷ rs) (suc i) (suc j) r h = range_at-set_other rs i j r (λ e. h (ap suc e))

Leads-cong :
    (rs ts : List IvfBuildRange) (base n s e : ℕ)
    → ((i : ℕ) → base ≤ i → i < base + n → range_at ts i ≡ range_at rs i)
    → Leads rs base n s e
    → Leads ts base n s e
Leads-cong rs ts base zero s e same l = l
Leads-cong rs ts base (suc n) s e same (a, b, l) =
    let here = same base (omega arith) (omega arith) in
    rw here
      (a, b, Leads-cong rs ts (base + 1) n _ e (λ i lo hi. same i (omega arith) (omega arith)) l)

Leads-append :
    (rs : List IvfBuildRange) (base n k s m e : ℕ)
    → Leads rs base n s m
    → Leads rs (base + n) k m e
    → Leads rs base (n + k) s e
Leads-append rs base zero k s m e l r =
    let here : base + 0 ≡ base = omega arith in
    let count : 0 + k ≡ k = omega arith in rw (count, l) (subst (λ b. Leads rs b k m e) here r)
Leads-append rs base (suc n) k s m e (a, b, l) r =
    let there : base + suc n ≡ base + 1 + n = omega arith in
    let count : suc n + k ≡ suc (n + k) = omega arith in
    subst (λ c. Leads rs base c s e) (sym count)
      (a, b, Leads-append rs (base + 1) n k _ m e l (subst (λ b. Leads rs b k m e) there r))

-- What a call leaves: it writes its own ranges only, and they lead from `start` to `end`.
pub record Divides (base n start end : ℕ) (s t : SplitState) : Type 0 where
  pub size : length t.ranges ≡ length s.ranges
  pub other : (i : ℕ) → (i < base) ⊎ (base + n ≤ i) → range_at t.ranges i ≡ range_at s.ranges i
  pub leads : Leads t.ranges base n start end

leaf-Divides :
    (base start end : ℕ) (s : SplitState)
    → start ≤ end
    → base + 1 ≤ length s.ranges
    → Divides base 1 start end s
        (record s { ranges = set s.ranges base (record { start = start; end = end }) })
leaf-Divides base start end s le long = record {
  size = length-set s.ranges base _;
  other = λ i apart.
      range_at-set_other s.ranges base i _
        (λ e. elim apart [ inl a ↦ omega arith | inr a ↦ omega arith ]);
  leads =
      rw (range_at-set_same s.ranges base (record { start = start; end = end }) (omega arith))
        (refl, le, refl);
}

both-Divides :
    (base half start mid end : ℕ) (s t u : SplitState)
    → Divides base half start mid s t
    → Divides (base + half) half mid end t u
    → Divides base (half + half) start end s u
both-Divides base half start mid end s t u a b = record {
  size = b.size ∙ a.size;
  other = λ i apart.
      b.other i (elim apart [ inl lt ↦ inl (omega arith) | inr ge ↦ inr (omega arith) ])
      ∙ a.other i (elim apart [ inl lt ↦ inl lt | inr ge ↦ inr (omega arith) ]);
  leads =
      Leads-append u.ranges base half half start mid end
        (Leads-cong t.ranges u.ranges base half start mid (λ i lo hi. b.other i (inl hi)) a.leads)
        b.leads;
}

recast :
    {base start end n m : ℕ} {r s t : SplitState}
    → n ≡ m
    → Divides base n start end r t
    → r.ranges ≡ s.ranges
    → Divides base m start end s t
recast {base = base} {start = start} {end = end} {s = s} {t = t} e d same =
    subst (λ j. Divides base j start end s t) e
      (record {
        size = d.size ∙ ap length same;
        other = λ i apart. d.other i apart ∙ ap (λ rs. range_at rs i) same;
        leads = d.leads;
      })

halves :
    (k : ℕ) → (2 ^ suc k / 2 ≡ 2 ^ k) × (2 ^ k + 2 ^ k ≡ 2 ^ suc k) × ((2 ^ suc k == 1) ≡ false)
halves k =
    let two = pow-suc 2 k in let one = one-le-pow k 2 in (omega arith, omega arith, ground arith)

-- For 2 ^ k clusters, more than k rounds of fuel, and a table with room for the clusters from
-- `clusterBase` on, `balancedSplit` writes the entries of its own clusters and no others, and
-- these ranges follow one another from `start` to `end` without a gap.
pub balanced_split-Divides :
    (f : Float) (vectors : List ℤ) (fuel k start end base : ℕ) (s : SplitState)
    → k < fuel
    → start ≤ end
    → base + 2 ^ k ≤ length s.ranges
    → Divides base (2 ^ k) start end s (balanced_split f vectors fuel start end base (2 ^ k) s)
unfolding balanced_split
balanced_split-Divides f vectors zero k start end base s lt le long = absurd (omega arith)
balanced_split-Divides f vectors (suc fuel) zero start end base s lt le long =
    leaf-Divides base start end s le long
balanced_split-Divides f vectors (suc fuel) (suc k) start end base s lt le long =
    let (half, sum, more) = halves k in
    let mid = start + (end - start) / 2 in
    let dim =
      max_variance_dimension f vectors (window s.ids (record { start = start; end = end })) in
    let sorted = record s { ids = sort_window vectors dim start end s.ids } in
    let left =
      balanced_split-Divides f vectors fuel k start mid base sorted (omega arith) (omega arith)
        (omega arith) in
    let right =
      balanced_split-Divides f vectors fuel k mid end (base + 2 ^ k)
        (balanced_split f vectors fuel start mid base (2 ^ k) sorted) (omega arith) (omega arith)
        (omega (arith, left.size)) in
    let whole = both-Divides base (2 ^ k) start mid end _ _ _ left right in
    rw (more, half, balanced_split) (recast sum whole refl)

-- ===== src/Ivf/Exact/Phases.antt =====
-- Probing and expanding: the state holds the nearest rows of exactly the marked clusters.
use mathlib.Core.Path.{subst}
use heindall.Prelude.{
  ℕ, zero, suc, ◌<◌, ◌≡◌, ◌≢◌, refl, ◌∙◌, inl, inr, true, some, List, [], ◌∷◌, arith, Bool-cases,
  if◌then◌else◌, ◌==◌, Option-cases, get_elem?, replicate, ◌/◌, ◌%◌, ◌^◌, bit_and, not, ◌>>=◌,
}
use heindall.Prelude.Int.{ℤ, ◌≤ℤ◌}
use heindall.Quantized.{QuantizedIndex}
use heindall.Prelude.Bits.{zero-bit_and}
use heindall.Ivf.State.{Best, SearchState, new_ivf_search_state, has_probe, add_probe, fifth, unset}
use heindall.Ivf.State.Mask.{
  HasMask, has_probe-add_probe, add_probe-best, add_probe-HasMask, add_probe-total, has_probe-total,
}
use heindall.Ivf.State.Order.{◌∈◌}
use heindall.Ivf.State.Nearest.{IsNearest}
use heindall.Ivf.Scan.{scan_ivf_list}
use heindall.Ivf.Scan.Meaning.{IsNearest-map}
use heindall.Ivf.Scan.Layout.{IsLoaded}
use heindall.Ivf.Scan.Cluster.{RowOf, scan_ivf_list-Scanned}
use heindall.Ivf.Centroids.{Probe}
use heindall.Ivf.Centroids.Ids.{All, Distinct}
use heindall.Ivf.Search.{scan_probes, expand_probes}

abbrev pub Probed : SearchState → ℕ → Type 0
Probed s c = has_probe s c ≡ some true

-- The places hold the nearest rows of the marked clusters.
pub record Inv (idx : QuantizedIndex) (query : List ℤ) (s : SearchState) : Type 0 where
  pub near : IsNearest (RowOf idx query (Probed s)) s.best
  pub mask : HasMask s

pub RowOf-map :
    (idx : QuantizedIndex) (query : List ℤ) (P Q : ℕ → Type 0)
    → ((c : ℕ) → c < idx.ivf.clusters → P c → Q c)
    → (x : Best) → RowOf idx query P x
    → RowOf idx query Q x
RowOf-map idx query P Q f x r = record {
  cluster = r.cluster;
  row = r.row;
  chosen = f r.cluster r.inside r.chosen;
  inside = r.inside;
  from = r.from;
  to = r.to;
  is = r.is;
}

has_probe-mask :
    (s t : SearchState) (c : ℕ) → t.probe_mask ≡ s.probe_mask → has_probe t c ≡ has_probe s c
unfolding has_probe
has_probe-mask s t c e = rw e

All-both :
    (P Q R : Probe → Type 0)
    → ((p : Probe) → P p → Q p → R p)
    → (ps : List Probe) → All P ps
    → All Q ps
    → All R ps
All-both P Q R f [] a b = tt
All-both P Q R f (p ∷ ps) (h, a) (k, b) = (f p h k, All-both P Q R f ps a b)

-- What a marked and scanned cluster changes.
pub record Step (idx : QuantizedIndex) (query : List ℤ) (s : SearchState) (c : ℕ) (t : SearchState)
    : Type 0 where
  pub inv : Inv idx query t
  pub marks : (j : ℕ) → has_probe t j ≡ (if c == j then some true else has_probe s j)
  pub closer : (fifth t.best).dist ≤ℤ (fifth s.best).dist

module _ (idx : QuantizedIndex) (query : List ℤ) (ok : IsLoaded idx) where
  pub mark_and_scan :
      (s : SearchState) (c : ℕ)
      → Inv idx query s
      → c < idx.ivf.clusters
      → ¬ Probed s c
      → (s1 : SearchState) × (s2 : SearchState) × (add_probe s c ≡ some s1)
        × (scan_ivf_list true idx query c s1 ≡ some s2)
        × Step idx query s c s2
  mark_and_scan s c inv h new =
      let (s1, added) = add_probe-total s c inv.mask (omega (arith, ok.few)) in
      let near1 : IsNearest (RowOf idx query (Probed s)) s1.best =
        rw (add_probe-best s s1 c added) inv.near in
      let (s2, scanned, r) = scan_ivf_list-Scanned idx query ok (Probed s) c h new s1 near1 in
      let marks = λ (j : ℕ). has_probe-mask s1 s2 j r.mask ∙ has_probe-add_probe s s1 c j added in
      (
        s1,
        s2,
        added,
        scanned,
        record {
          inv = record {
            near =
                IsNearest-map _ _ _
                  (RowOf-map idx query _ _ (λ j b. elim [
                    | inl p ↦ let m = marks j in ground arith
                    | inr e ↦ let m = marks j in ground arith
                  ]))
                  (RowOf-map idx query _ _ (λ j b p. elim (Bool-cases (c == j)) [
                    | inl e ↦ inr (ground arith)
                    | inr e ↦ inl (let m = marks j in ground arith)
                  ]))
                  r.near;
            mask = rw r.mask (add_probe-HasMask s s1 c inv.mask added);
          };
          marks = marks;
          closer =
              (let same = add_probe-best s s1 c added in
                subst (λ b. (fifth s2.best).dist ≤ℤ (fifth b).dist) same r.closer);
        },
      )

  -- With vector code on a loaded index: marking and scanning different clusters of the index,
  -- none of them marked before, returns, and keeps the state the nearest rows of just the
  -- marked clusters.
  pub scan_probes-Inv :
      (ps : List Probe) (s : SearchState)
      → Inv idx query s
      → All (λ p. p.id < idx.ivf.clusters) ps
      → All (λ p. ¬ Probed s p.id) ps
      → Distinct ps
      → (t : SearchState) × (scan_probes true idx query ps s ≡ some t) × Inv idx query t
  unfolding scan_probes
  scan_probes-Inv [] s inv below new d = (s, refl, inv)
  scan_probes-Inv (p ∷ ps) s inv (b, below) (n, new) (f, d) =
      let (s1, s2, added, scanned, step) = mark_and_scan s p.id inv b n in
      let new' =
        All-both (λ r. r.id ≢ p.id) (λ r. ¬ Probed s r.id) (λ r. ¬ Probed s2 r.id)
          (λ r ne old now. old (let m = step.marks r.id in ground arith)) ps f new in
      let (t, done, inv') = scan_probes-Inv ps s2 step.inv below new' d in
      (t, rw (added, scanned) done, inv')

  -- With vector code on a loaded index: for any clusters of the index the loop of
  -- `expandIVFProbes`, which skips the marked ones, returns and keeps the state the nearest
  -- rows of just the marked clusters; the fifth distance does not grow.
  pub expand_probes-Inv :
      (ps : List Probe) (s : SearchState)
      → Inv idx query s
      → All (λ p. p.id < idx.ivf.clusters) ps
      → (t : SearchState) × (expand_probes true idx query ps s ≡ some t)
        × Inv idx query t
        × ((fifth t.best).dist ≤ℤ (fifth s.best).dist)
  unfolding expand_probes
  expand_probes-Inv [] s inv below = (s, refl, inv, omega arith)
  expand_probes-Inv (p ∷ ps) s inv (b, below) =
      let (seen, e) = has_probe-total s p.id inv.mask (omega (arith, ok.few)) in
      elim (Bool-cases seen) [
        | inl yes_seen ↦
            let (t, done, inv', near) = expand_probes-Inv ps s inv below in
            (t, rw (e, yes_seen) done, inv', near)
        | inr not_seen ↦
            let (s1, s2, added, scanned, step) = mark_and_scan s p.id inv b (λ h. cc) in
            let (t, done, inv', near) = expand_probes-Inv ps s2 step.inv below in
            (t, rw (e, not_seen, added, scanned) done, inv', omega (arith, near, step.closer))
      ]

replicate-zero : (n i w : ℕ) → get_elem? (replicate n 0) i ≡ some w → w ≡ 0
replicate-zero zero i w h = cc
replicate-zero (suc n) zero w h = cc
replicate-zero (suc n) (suc i) w h = replicate-zero n i w h

clean :
    (xs : List ℕ) (i b : ℕ)
    → ((w : ℕ) → get_elem? xs i ≡ some w → w ≡ 0)
    → ¬ ((get_elem? xs i >>= λ w. some (not (bit_and w b == 0))) ≡ some true)
clean xs i b z = elim (Option-cases (get_elem? xs i)) [
  | inl e ↦ rw e λ h. cc
  | inr (w, e) ↦ rw (e, z w e, zero-bit_and b) λ h. cc
]

pub nothing-Probed : (c : ℕ) → ¬ Probed new_ivf_search_state c
unfolding has_probe new_ivf_search_state
nothing-Probed c = clean (replicate 128 0) (c / 64) (2 ^ (c % 64)) (replicate-zero 128 (c / 64))

only_unset : (y : Best) → y ∈ new_ivf_search_state.best → y ≡ unset
unfolding new_ivf_search_state
only_unset y m = ground arith

-- The new state has seen no row.
pub new-Inv : (idx : QuantizedIndex) (query : List ℤ) → Inv idx query new_ivf_search_state
unfolding new_ivf_search_state
new-Inv idx query = record {
  near = record {
    size = refl;
    ranked = ground arith;
    sound = λ y m. inr (only_unset y m);
    complete = λ r h. absurd (nothing-Probed h.cluster h.chosen);
    found = λ r h. absurd (nothing-Probed h.cluster h.chosen);
  };
  mask = refl;
}

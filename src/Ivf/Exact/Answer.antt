-- ===== src/Ivf/Exact/Answer.antt =====
-- The answer of `searchIVF` after the repair of an ambiguous count.
use mathlib.Core.Path.{subst, sym}
use mathlib.Core.Option.{some-injective}
use heindall.Prelude.{◌<◌, ◌≡◌, ◌∙◌, inl, inr, true, false, some, List, arith, Bool-cases, take}
use heindall.Prelude.Int.{ℤ, pos, ltb_ℤ, leb_ℤ, ◌≤ℤ◌, ◌==ℤ◌}
use heindall.Quantized.{QuantizedIndex, has_ivf, has_ivf_blocks}
use heindall.Quantized.Defaults.{HasProbes}
use heindall.Ivf.State.{SearchState, new_ivf_search_state, count_frauds, fifth, max_int64_value}
use heindall.Ivf.State.Order.{IsFound}
use heindall.Ivf.State.Nearest.{IsNearest}
use heindall.Ivf.Scan.Layout.{IsLoaded}
use heindall.Ivf.Centroids.{TopState, top_ivf_centroids}
use heindall.Ivf.Centroids.Loops.{AllQuantized}
use heindall.Ivf.Centroids.Result.{CentroidsLaidOut, top_ivf_centroids_avx2-IsTop}
use heindall.Ivf.Centroids.Ids.{All, All-map, Distinct, Keeps-ids}
use heindall.Ivf.Rules.{is_ivf_ambiguous_fraud_count, needs_approval_repair, needs_denial_repair}
use heindall.Ivf.Search.{
  search_ivf_probes, expand_ivf_probes, repair_ivf, refine_ivf, conclude_ivf, search_ivf,
}
use heindall.Ivf.Exact.Phases.{Inv, new-Inv, nothing-Probed, scan_probes-Inv, expand_probes-Inv}
use heindall.Ivf.Exact.Repaired.{IsBoxed, AnyRow, repair_ivf-exact}

-- An index as `BuildIVFIndex` makes it and the loaders accept it.
pub record IsSearchable (idx : QuantizedIndex) : Type 0 where
  pub loaded : IsLoaded idx
  pub boxed : IsBoxed idx
  pub laid : CentroidsLaidOut idx
  pub centroids : AllQuantized idx.ivf.centroids
  pub centroid_blocks : AllQuantized idx.ivf.centroid_blocks
  pub blocks : AllQuantized idx.blocks
  pub probes : HasProbes idx

pub has_ivf_of_blocks : (idx : QuantizedIndex) → has_ivf_blocks idx ≡ true → has_ivf idx ≡ true
unfolding has_ivf_blocks has_ivf
has_ivf_of_blocks idx h = ground arith

module _ (idx : QuantizedIndex) (query : List ℤ) (ok : IsSearchable idx)
    (hq : AllQuantized query) where
  -- The probes of either number are found, different, and clusters of the index.
  pub centroids_found :
      (n : ℤ)
      → leb_ℤ n (pos 0) ≡ false
      → (t : TopState) × (top_ivf_centroids true idx query n ≡ some t)
        × All (λ p. p.id < idx.ivf.clusters) (take t.count t.best)
        × Distinct (take t.count t.best)
  unfolding top_ivf_centroids
  centroids_found n h =
      let (t, e, top) =
        top_ivf_centroids_avx2-IsTop idx query n (has_ivf_of_blocks idx ok.loaded.blocks) h hq
          ok.centroids (λ _. (ok.laid, ok.centroid_blocks)) in
      let ids = Keeps-ids _ _ _ t top (let few = ok.loaded.few in omega arith) in
      (t, e, ids.0, ids.1)

  -- The first phase returns, and its state is nearest among the rows of the probed clusters.
  pub search_ivf_probes-Inv :
      (s : SearchState) × (search_ivf_probes true idx query idx.ivf.nprobe false ≡ some s)
      × Inv idx query s
  unfolding search_ivf_probes
  search_ivf_probes-Inv =
      let (t, e, below, distinct) =
        centroids_found idx.ivf.nprobe (let p = ok.probes.positive in ground arith) in
      let (s, done, inv) =
        scan_probes-Inv idx query ok.loaded (take t.count t.best) new_ivf_search_state
          (new-Inv idx query) below (All-map _ _ (λ p b. nothing-Probed p.id) _ below) distinct in
      (s, rw (e, done), inv)

  expand-Inv :
      (n : ℤ) (s : SearchState)
      → leb_ℤ n (pos 0) ≡ false
      → Inv idx query s
      → (t : SearchState) × (expand_ivf_probes true idx query n s ≡ some t)
        × Inv idx query t
        × ((fifth t.best).dist ≤ℤ (fifth s.best).dist)
  unfolding expand_ivf_probes
  expand-Inv n s h inv =
      let (t, e, below, distinct) = centroids_found n h in
      let (s', done, inv', near) =
        expand_probes-Inv idx query ok.loaded (take t.count t.best) s inv below in
      (s', rw e done, inv', near)

  refine_expanded :
      (s s1 t : SearchState)
      → is_ivf_ambiguous_fraud_count query (count_frauds s) ≡ true
      → ltb_ℤ idx.ivf.nprobe idx.ivf.ambiguous_nprobe ≡ true
      → expand_ivf_probes true idx query idx.ivf.ambiguous_nprobe s ≡ some s1
      → idx.ivf.repair ≡ true
      → repair_ivf true idx query s1 ≡ some t
      → refine_ivf true idx query s ≡ some t
  unfolding refine_ivf
  refine_expanded s s1 t ambiguous more e repairs done = rw (ambiguous, more, e, done, repairs)

  refine_repaired :
      (s t : SearchState)
      → is_ivf_ambiguous_fraud_count query (count_frauds s) ≡ true
      → ltb_ℤ idx.ivf.nprobe idx.ivf.ambiguous_nprobe ≡ false
      → idx.ivf.repair ≡ true
      → repair_ivf true idx query s ≡ some t
      → refine_ivf true idx query s ≡ some t
  unfolding refine_ivf
  refine_repaired s t ambiguous same repairs done = rw (ambiguous, same, done, repairs)

  still_full : (b c : ℤ) → b ≤ℤ c → ltb_ℤ c max_int64_value ≡ true → (b ==ℤ max_int64_value) ≡ false
  still_full b c h f = ground arith

  module _ (repairs : idx.ivf.repair ≡ true) (s : SearchState) (inv : Inv idx query s)
      (full : IsFound (fifth s.best))
      (ambiguous : is_ivf_ambiguous_fraud_count query (count_frauds s) ≡ true) where
    refine-exact :
        (t : SearchState) × (refine_ivf true idx query s ≡ some t)
        × IsNearest (AnyRow idx query) t.best
    refine-exact = elim (Bool-cases (ltb_ℤ idx.ivf.nprobe idx.ivf.ambiguous_nprobe)) [
      | inl more ↦
          let (s1, e, inv1, near) =
            expand-Inv idx.ivf.ambiguous_nprobe s (let p = ok.probes.positive in ground arith)
              inv in
          let (t, done, exact) =
            repair_ivf-exact idx query ok.loaded s1 inv1 ok.boxed hq ok.blocks (ground arith) in
          (t, refine_expanded s s1 t ambiguous more e repairs done, exact)
      | inr same ↦
          let (t, done, exact) =
            repair_ivf-exact idx query ok.loaded s inv ok.boxed hq ok.blocks (ground arith) in
          (t, refine_repaired s t ambiguous same repairs done, exact)
    ]

answered :
    (idx : QuantizedIndex) (query : List ℤ) (s t : SearchState)
    → search_ivf_probes true idx query idx.ivf.nprobe false ≡ some s
    → refine_ivf true idx query s ≡ some t
    → needs_approval_repair query ≡ false
    → needs_denial_repair query ≡ false
    → search_ivf true idx query ≡ some (count_frauds t)
unfolding search_ivf conclude_ivf
answered idx query s t first refined no_approval no_denial =
    rw (first, refined, no_approval, no_denial) (ground arith)

-- On a well-formed index with the blocks, boxes and centroids in place (`IsSearchable`), with
-- vector code, repair on and a quantised query: when the first phase fills the five places
-- with an ambiguous count and the query is none of the special cases of `needsApprovalRepair`
-- and `needsDenialRepair`, `searchIVF` returns, and its answer is the count of frauds among
-- the five nearest rows of the whole index.
pub search_ivf-exact :
    (idx : QuantizedIndex) (query : List ℤ) (s : SearchState)
    → IsSearchable idx
    → AllQuantized query
    → idx.ivf.repair ≡ true
    → search_ivf_probes true idx query idx.ivf.nprobe false ≡ some s
    → IsFound (fifth s.best)
    → is_ivf_ambiguous_fraud_count query (count_frauds s) ≡ true
    → needs_approval_repair query ≡ false
    → needs_denial_repair query ≡ false
    → (t : SearchState) × IsNearest (AnyRow idx query) t.best
      × (search_ivf true idx query ≡ some (count_frauds t))
search_ivf-exact idx query s ok hq repairs first full ambiguous no_approval no_denial =
    let (s', first', inv') = search_ivf_probes-Inv idx query ok hq in
    let same : s' ≡ s = some-injective _ _ (sym first' ∙ first) in
    let inv : Inv idx query s = subst (Inv idx query) same inv' in
    let (t, refined, exact) = refine-exact idx query ok hq repairs s inv full ambiguous in
    (t, exact, answered idx query s t first refined no_approval no_denial)

-- ===== src/Ivf/Search.antt =====
-- The phases of a search: `searchIVFProbes`, `expandIVFProbes`, `repairIVF` and `searchIVF`.
pub mod Bbox
use heindall.Prelude.{
  ℕ, zero, suc, ◌+◌, ◌-◌, ◌*◌, ◌%◌, ◌^◌, Bool, true, false, not, ◌&&◌, ◌||◌, Option, none, some,
  List, [], ◌∷◌, ltb, leb, ◌==◌, if◌then◌else◌, length, take, ◌>>=◌,
}
use heindall.Prelude.Int.{ℤ, pos, ltb_ℤ, leb_ℤ, ◌==ℤ◌}
use heindall.Quantized.{QuantizedIndex, dimensions, at, sq_diff, has_ivf}
use heindall.Ivf.State.{
  SearchState, new_ivf_search_state, count_frauds, has_probe, add_probe, fifth, max_int64_value,
  max_ivf_probe,
}
use heindall.Ivf.Scan.{scan_ivf_list}
use heindall.Ivf.Centroids.{Probe, top_ivf_centroids}
use heindall.Ivf.Rules.{
  is_ivf_ambiguous_fraud_count, needs_approval_repair, needs_known_late_denial_repair,
  needs_denial_repair,
}

-- How far a coordinate lies outside its interval, squared.
unfoldable pub gap : ℤ → ℤ → ℤ → ℕ
gap q min_v max_v =
    if ltb_ℤ q min_v then sq_diff min_v q else if ltb_ℤ max_v q then sq_diff q max_v else 0

-- `for d := 0; d < Dimensions; d++`, with the dimensions that are left; `if sum > cutoff return`.
unfoldable pub bbox_until : (ℕ → ℤ) → (ℕ → ℤ) → (ℕ → ℤ) → ℤ → ℕ → ℕ → ℕ → ℕ
unfolding gap
bbox_until query low high cutoff zero d sum = sum
bbox_until query low high cutoff (suc n) d sum =
    let total = sum + gap (query d) (low d) (high d) in
    let rest = bbox_until query low high cutoff n (d + 1) total in
    if ltb_ℤ cutoff (pos total) then total else rest

-- The boxes are long enough: `repairIVF` has tested it.
unfoldable pub ivf_bbox_distance : QuantizedIndex → List ℤ → ℕ → ℤ → ℤ
unfolding bbox_until
ivf_bbox_distance idx query cluster cutoff = pos (
    bbox_until (at query) (λ d. at idx.ivf.bbox_min (cluster * dimensions + d))
      (λ d. at idx.ivf.bbox_max (cluster * dimensions + d)) cutoff dimensions 0 0)

-- The cluster numbers in the first `probeCount` places of `probeIDs`, in order: each is marked
-- and scanned.
unfoldable pub scan_probes :
    Bool → QuantizedIndex → List ℤ → List Probe → SearchState → Option SearchState
scan_probes use_avx2 idx query [] s = some s
scan_probes use_avx2 idx query (p ∷ ps) s = do
  s1 ← add_probe s p.id
  s2 ← scan_ivf_list use_avx2 idx query p.id s1
  scan_probes use_avx2 idx query ps s2

-- The same for clusters that are not marked yet; `continue` for the others.
unfoldable pub expand_probes :
    Bool → QuantizedIndex → List ℤ → List Probe → SearchState → Option SearchState
expand_probes use_avx2 idx query [] s = some s
expand_probes use_avx2 idx query (p ∷ ps) s = do
  seen ← has_probe s p.id
  let scan = do s1 ← add_probe s p.id; scan_ivf_list use_avx2 idx query p.id s1
  s2 ← if seen then some s else scan
  expand_probes use_avx2 idx query ps s2

unfoldable pub expand_ivf_probes :
    Bool → QuantizedIndex → List ℤ → ℤ → SearchState → Option SearchState
unfolding expand_probes
expand_ivf_probes use_avx2 idx query nprobe s = do
  t ← top_ivf_centroids use_avx2 idx query nprobe
  expand_probes use_avx2 idx query (take t.count t.best) s

-- `for c := 0; c < Clusters; c++`, with the clusters that are left.
unfoldable pub repair_loop :
    Bool → QuantizedIndex → List ℤ → ℤ → ℕ → ℕ → SearchState → Option SearchState
unfolding ivf_bbox_distance
repair_loop use_avx2 idx query cutoff zero c s = some s
repair_loop use_avx2 idx query cutoff (suc n) c s = do
  seen ← has_probe s (c % 2 ^ 32)
  let near = leb_ℤ (ivf_bbox_distance idx query c cutoff) cutoff
  s2 ← (if seen then some s else if near then scan_ivf_list use_avx2 idx query c s else some s)
  repair_loop use_avx2 idx query cutoff n (c + 1) s2

unfoldable pub repair_ivf : Bool → QuantizedIndex → List ℤ → SearchState → Option SearchState
unfolding repair_loop
repair_ivf use_avx2 idx query s =
    let cutoff = (fifth s.best).dist in
    let loop = repair_loop use_avx2 idx query cutoff idx.ivf.clusters 0 s in
    if ltb (length idx.ivf.bbox_min) (idx.ivf.clusters * dimensions)
      || ltb (length idx.ivf.bbox_max) (idx.ivf.clusters * dimensions)
    then some s
    else if cutoff ==ℤ max_int64_value
    then some s
    else loop

-- The state; the count that Go returns beside it is `count_frauds` of it.
unfoldable pub search_ivf_probes : Bool → QuantizedIndex → List ℤ → ℤ → Bool → Option SearchState
search_ivf_probes use_avx2 idx query nprobe repair = do
  t ← top_ivf_centroids use_avx2 idx query nprobe
  s ← scan_probes use_avx2 idx query (take t.count t.best) new_ivf_search_state
  if repair then repair_ivf use_avx2 idx query s else some s

-- The first `if` of `searchIVF`: expansion and repair of an ambiguous count.
unfoldable pub refine_ivf : Bool → QuantizedIndex → List ℤ → SearchState → Option SearchState
refine_ivf use_avx2 idx query s =
    let expand = do
      s1 ← expand_ivf_probes use_avx2 idx query idx.ivf.ambiguous_nprobe s
      if idx.ivf.repair then repair_ivf use_avx2 idx query s1 else some s1
    in let repair = repair_ivf use_avx2 idx query s in
      let ambiguous = is_ivf_ambiguous_fraud_count query (count_frauds s) in
      if ambiguous && ltb_ℤ idx.ivf.nprobe idx.ivf.ambiguous_nprobe
      then expand
      else if idx.ivf.repair && ambiguous
      then repair
      else some s

-- The two `if` behind it, on the refined state.
unfoldable pub conclude_ivf : Bool → QuantizedIndex → List ℤ → SearchState → Option ℕ
conclude_ivf use_avx2 idx query s =
    let frauds = count_frauds s in
    let approval = do
      s1 ← expand_ivf_probes use_avx2 idx query (pos max_ivf_probe) s
      some (
          if ltb (count_frauds s1) 3 && needs_known_late_denial_repair query
          then 3
          else count_frauds s1)
    in let denial = do
      s1 ← expand_ivf_probes use_avx2 idx query (pos max_ivf_probe) s
      some (count_frauds s1)
      in if idx.ivf.repair && ltb frauds 3 && needs_approval_repair query
        then approval
        else if idx.ivf.repair && leb 3 frauds && needs_denial_repair query
        then denial
        else some frauds

unfoldable pub search_ivf : Bool → QuantizedIndex → List ℤ → Option ℕ
search_ivf use_avx2 idx query = do
  s ← search_ivf_probes use_avx2 idx query idx.ivf.nprobe false
  s' ← refine_ivf use_avx2 idx query s
  conclude_ivf use_avx2 idx query s'

unfoldable pub search5_quantized : Bool → QuantizedIndex → List ℤ → Option ℕ
search5_quantized use_avx2 idx query =
    if not (has_ivf idx) then some 0 else search_ivf use_avx2 idx query

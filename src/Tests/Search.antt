-- ===== src/Tests/Search.antt =====
-- The search on the small index: its first phase sees the first cluster only, and the repair
-- finds the row of the second.
use mathlib.Core.Path.{subst, sym}
use mathlib.Core.Option.{some-injective}
use heindall.Prelude.{
  ◌*◌, ◌∙◌, ltb, length, true, false, some, ◌≡◌, refl, ◌∷◌, [], replicate, arith,
}
use heindall.Prelude.Int.{pos, ◌≤ℤ◌, square, ◌-ℤ◌, ◌+ℤ◌}
use heindall.Build.{blocks_for_rows}
use heindall.Quantized.{QuantizedIndex, ivf_block_stride, has_ivf, add_until, sq_diff}
use heindall.Ivf.State.{
  SearchState, fifth, add_probe, count_frauds, new_ivf_search_state, insert, precedes,
}
use heindall.Ivf.Kernel.{lane_distance}
use heindall.Ivf.State.Nearest.{IsNearest}
use heindall.Ivf.Scan.{
  scan_ivf_list, Span, cluster_span, reads_inside, scan_ivf_blocks_avx2, scan_ivf_blocks_unsafe,
  block8, lane_unsafe,
}
use heindall.Ivf.Scan.Blocks.{visit_all, scan_ivf_blocks_avx2-visit, scan_ivf_blocks_unsafe-visit}
use heindall.Ivf.Scan.Cluster.{Scanned, scan_ivf_list-Scanned}
use heindall.Ivf.Centroids.{
  Probe, TopState, top_ivf_centroids, top_ivf_centroids_scalar, top_ivf_centroids_avx2,
}
use heindall.Ivf.Centroids.Result.{
  IsTop, top_ivf_centroids_scalar-IsTop, top_ivf_centroids_avx2-IsTop,
}
use heindall.Ivf.Rules.{is_ivf_ambiguous_fraud_count, needs_approval_repair, needs_denial_repair}
use heindall.Ivf.Search.{scan_probes, expand_probes, repair_ivf, search_ivf, search_ivf_probes}
use heindall.Ivf.Exact.Phases.{
  Probed, Inv, new-Inv, nothing-Probed, scan_probes-Inv, expand_probes-Inv,
}
use heindall.Ivf.Exact.Repaired.{AnyRow, repair_ivf-exact}
use heindall.Ivf.Exact.Answer.{search_ivf_probes-Inv, search_ivf-exact}
use heindall.Tests.Sample.{
  sample_index, sample_query, sample_query-AllQuantized, sample_index-IsLoaded,
  sample_index-IsSearchable, sample_index-CentroidsLaidOut, AllQuantized-AllInt16,
}

abbrev first_state : SearchState
first_state = record {
  best =
      record { dist = pos 100; fraud = true; id = 3 }
      ∷ record { dist = pos 400; fraud = true; id = 1 }
      ∷ record { dist = pos 900; fraud = false; id = 4 }
      ∷ record { dist = pos 1600; fraud = false; id = 0 }
      ∷ record { dist = pos 2500; fraud = false; id = 5 }
      ∷ [];
  probes = replicate 128 0;
  probe_mask = 1 ∷ replicate 127 0;
  probe_count = 1;
}

first_phase :
    search_ivf_probes true sample_index sample_query sample_index.ivf.nprobe false
    ≡ some first_state
unfolding search_ivf_probes top_ivf_centroids scan_probes add_until sq_diff square ◌-ℤ◌ add_probe
    new_ivf_search_state scan_ivf_list lane_distance ◌+ℤ◌ insert precedes
first_phase = refl

first_count : is_ivf_ambiguous_fraud_count sample_query (count_frauds first_state) ≡ true
unfolding is_ivf_ambiguous_fraud_count count_frauds
first_count = refl

no_approval_rule : needs_approval_repair sample_query ≡ false
unfolding needs_approval_repair
no_approval_rule = refl

no_denial_rule : needs_denial_repair sample_query ≡ false
unfolding needs_denial_repair
no_denial_rule = refl

search_ivf-exact_example :
    (t : SearchState) × IsNearest (AnyRow sample_index sample_query) t.best
    × (search_ivf true sample_index sample_query ≡ some (count_frauds t))
search_ivf-exact_example =
    search_ivf-exact sample_index sample_query first_state sample_index-IsSearchable
      sample_query-AllQuantized refl first_phase refl first_count no_approval_rule no_denial_rule

abbrev probe_0 : Probe
probe_0 = record { dist = pos 0; id = 0 }

scan_probes-Inv_example :
    (t : SearchState) × (scan_probes true sample_index sample_query
        (probe_0 ∷ [])
        new_ivf_search_state
      ≡ some t)
    × Inv sample_index sample_query t
scan_probes-Inv_example =
    scan_probes-Inv sample_index sample_query sample_index-IsLoaded (probe_0 ∷ [])
      new_ivf_search_state (new-Inv sample_index sample_query) (omega arith, tt)
      (nothing-Probed 0, tt) (tt, tt)

expand_probes-Inv_example :
    (t : SearchState) × (expand_probes true sample_index sample_query
        (probe_0 ∷ probe_0 ∷ [])
        new_ivf_search_state
      ≡ some t)
    × Inv sample_index sample_query t
    × ((fifth t.best).dist ≤ℤ (fifth new_ivf_search_state.best).dist)
expand_probes-Inv_example =
    expand_probes-Inv sample_index sample_query sample_index-IsLoaded (probe_0 ∷ probe_0 ∷ [])
      new_ivf_search_state (new-Inv sample_index sample_query) (omega arith, (omega arith, tt))

first_state-Inv : Inv sample_index sample_query first_state
first_state-Inv =
    let (s, e, inv) =
      search_ivf_probes-Inv sample_index sample_query sample_index-IsSearchable
        sample_query-AllQuantized in
    subst (Inv sample_index sample_query) (some-injective _ _ (sym e ∙ first_phase)) inv

repair_ivf-exact_example :
    (t : SearchState) × (repair_ivf true sample_index sample_query first_state ≡ some t)
    × IsNearest (AnyRow sample_index sample_query) t.best
repair_ivf-exact_example =
    repair_ivf-exact sample_index sample_query sample_index-IsLoaded first_state first_state-Inv
      sample_index-IsSearchable.boxed sample_query-AllQuantized sample_index-IsSearchable.blocks
      refl

scan_ivf_list-Scanned_example :
    (t : SearchState) × (scan_ivf_list true sample_index sample_query 0 new_ivf_search_state
      ≡ some t)
    × Scanned sample_index sample_query (Probed new_ivf_search_state) 0 new_ivf_search_state t
scan_ivf_list-Scanned_example =
    scan_ivf_list-Scanned sample_index sample_query sample_index-IsLoaded
      (Probed new_ivf_search_state) 0 (omega arith) (nothing-Probed 0) new_ivf_search_state
      (new-Inv sample_index sample_query).near

abbrev first_span : Span
first_span = record { row_start = 0; row_end = 5; block_start = 0; block_end = 1 }

first_span-found : cluster_span sample_index 0 ≡ some first_span
unfolding cluster_span
first_span-found = refl

first_span-inside : reads_inside sample_index first_span ≡ true
unfolding reads_inside
first_span-inside = refl

scan_ivf_blocks_avx2-visit_example :
    scan_ivf_blocks_avx2 sample_index sample_query 0 new_ivf_search_state
    ≡ some
        (visit_all sample_index first_span (block8 sample_index sample_query) new_ivf_search_state)
scan_ivf_blocks_avx2-visit_example =
    scan_ivf_blocks_avx2-visit sample_index sample_query 0 new_ivf_search_state first_span
      first_span-found first_span-inside (omega arith)

scan_ivf_blocks_unsafe-visit_example :
    scan_ivf_blocks_unsafe sample_index sample_query 0 new_ivf_search_state
    ≡ some (
        visit_all sample_index first_span
          (lane_unsafe sample_index sample_query)
          new_ivf_search_state)
scan_ivf_blocks_unsafe-visit_example =
    scan_ivf_blocks_unsafe-visit sample_index sample_query 0 new_ivf_search_state first_span
      first_span-found first_span-inside (omega arith)

sample_index-has_ivf : has_ivf sample_index ≡ true
unfolding has_ivf
sample_index-has_ivf = refl

top_ivf_centroids_avx2-IsTop_example :
    (t : TopState) × (top_ivf_centroids_avx2 sample_index sample_query (pos 2) ≡ some t)
    × IsTop sample_index sample_query (pos 2) t
top_ivf_centroids_avx2-IsTop_example =
    top_ivf_centroids_avx2-IsTop sample_index sample_query (pos 2) sample_index-has_ivf refl
      sample_query-AllQuantized sample_index-IsSearchable.centroids
      (λ _. (sample_index-CentroidsLaidOut, sample_index-IsSearchable.centroid_blocks))

-- Without transposed centroids the vector code takes them row by row.
abbrev row_major_index : QuantizedIndex
row_major_index = record sample_index { ivf = record sample_index.ivf { centroid_blocks = [] } }

row_major_index-has_ivf : has_ivf row_major_index ≡ true
unfolding has_ivf
row_major_index-has_ivf = refl

row_major_index-no_blocks :
    ltb
      (length row_major_index.ivf.centroid_blocks)
      (blocks_for_rows row_major_index.ivf.clusters * ivf_block_stride)
    ≡ true
unfolding blocks_for_rows
row_major_index-no_blocks = refl

row_major_index-IsTop :
    (t : TopState) × (top_ivf_centroids_avx2 row_major_index sample_query (pos 2) ≡ some t)
    × IsTop row_major_index sample_query (pos 2) t
row_major_index-IsTop =
    top_ivf_centroids_avx2-IsTop row_major_index sample_query (pos 2) row_major_index-has_ivf refl
      sample_query-AllQuantized sample_index-IsSearchable.centroids
      (λ long. absurd (let none = row_major_index-no_blocks in cc))

top_ivf_centroids_scalar-IsTop_example :
    (t : TopState) × (top_ivf_centroids_scalar sample_index sample_query (pos 2) ≡ some t)
    × IsTop sample_index sample_query (pos 2) t
top_ivf_centroids_scalar-IsTop_example =
    top_ivf_centroids_scalar-IsTop sample_index sample_query (pos 2) sample_index-has_ivf refl
      (AllQuantized-AllInt16 sample_query sample_query-AllQuantized)
      (AllQuantized-AllInt16 sample_index.ivf.centroids sample_index-IsSearchable.centroids)

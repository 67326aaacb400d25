-- ===== src/Tests/Parts.antt =====
-- The parts of the search on small data.
use heindall.Prelude.{
  List, none, some, true, false, ℕ, ◌≡◌, refl, ◌<◌, ◌^◌, ◌∷◌, ◌++◌, [], replicate, set, arith, take,
  if◌then◌else◌, ◌==◌,
}
use heindall.Prelude.Int.{ℤ, pos, negsuc, ◌≤ℤ◌}
use heindall.Quantized.{at, quantized_distance, set_ivf_search, has_ivf}
use heindall.Quantized.Distance.{
  squared_distance, IsCut, quantized_distance-IsCut, quantized_distance_bound,
}
use heindall.Quantized.Defaults.{HasProbes, set_ivf_search-HasProbes}
use heindall.Ivf.State.{
  Best, SearchState, precedes, insert_from, has_probe, add_probe, new_ivf_search_state, unset,
}
use heindall.Ivf.State.Insert.{place, insert_from-place}
use heindall.Ivf.State.Mask.{has_probe-add_probe, probe_out_of_range}
use heindall.Ivf.State.Nearest.{IsNearest, With}
use heindall.Ivf.Kernel.{lane_distance, lane_distance_exact}
use heindall.Ivf.Scan.{offer}
use heindall.Ivf.Scan.Meaning.{offer-IsNearest}
use heindall.Ivf.Scan.Cluster.{RowOf}
use heindall.Ivf.Centroids.{Probe, sift}
use heindall.Ivf.Centroids.Sift.{rank, sift-rank}
use heindall.Ivf.Search.{ivf_bbox_distance}
use heindall.Ivf.Search.Bbox.{ivf_bbox_distance-le}
use heindall.Ivf.Exact.Repaired.{row_vector}
use heindall.Ivf.Centroids.Loops.{AllQuantized}
use heindall.Ivf.Exact.Phases.{Probed, new-Inv, nothing-Probed}
use heindall.Tests.Sample.{
  sample_index, sample_query, sample_query-AllQuantized, sample_index-IsSearchable,
  all_quantized-AllQuantized, zeros, AllQuantized-AllInt16,
}

abbrev near_row : Best
near_row = record { dist = pos 7; fraud = true; id = 9 }

offer-IsNearest_example :
    IsNearest
      (With (RowOf sample_index sample_query (Probed new_ivf_search_state)) near_row)
      (offer near_row new_ivf_search_state).best
offer-IsNearest_example =
    offer-IsNearest (RowOf sample_index sample_query (Probed new_ivf_search_state))
      new_ivf_search_state near_row (new-Inv sample_index sample_query).near refl
      (λ y r. absurd (nothing-Probed r.cluster r.chosen))

abbrev five_rows : List Best
five_rows =
    record { dist = pos 3; fraud = true; id = 3 }
    ∷ record { dist = pos 7; fraud = true; id = 1 }
    ∷ record { dist = pos 7; fraud = false; id = 10 }
    ∷ unset
    ∷ unset
    ∷ []

insert_from-place_example : insert_from 5 0 near_row five_rows ≡ take 5 (place near_row five_rows)
insert_from-place_example = insert_from-place near_row five_rows refl

-- A tie goes to the smaller id.
insert_value : insert_from 5 0 near_row five_rows ≡ (
    record { dist = pos 3; fraud = true; id = 3 }
    ∷ record { dist = pos 7; fraud = true; id = 1 }
    ∷ near_row
    ∷ record { dist = pos 7; fraud = false; id = 10 }
    ∷ unset
    ∷ [])
unfolding insert_from precedes
insert_value = refl

abbrev marked : SearchState
marked = record {
  best = unset ∷ unset ∷ unset ∷ unset ∷ unset ∷ [];
  probes = set (replicate 128 0) 0 70;
  probe_mask = set (replicate 128 0) 1 64;
  probe_count = 1;
}

add_probe-marked : add_probe new_ivf_search_state 70 ≡ some marked
unfolding add_probe new_ivf_search_state
add_probe-marked = refl

has_probe-add_probe_example :
    has_probe marked 70 ≡ (if 70 == 70 then some true else has_probe new_ivf_search_state 70)
has_probe-add_probe_example = has_probe-add_probe new_ivf_search_state marked 70 70 add_probe-marked

probe_out_of_range_example : (add_probe marked 8192 ≡ none) × (has_probe marked 8192 ≡ none)
probe_out_of_range_example = probe_out_of_range marked 8192 refl (omega arith)

sample_has_ivf : has_ivf sample_index ≡ true
unfolding has_ivf
sample_has_ivf = refl

set_ivf_search-HasProbes_example : HasProbes (set_ivf_search sample_index (pos 50) (negsuc 3) true)
set_ivf_search-HasProbes_example =
    set_ivf_search-HasProbes sample_index (pos 50) (negsuc 3) true sample_has_ivf

abbrev other_row : List ℤ
other_row = pos 10000 ∷ negsuc 9999 ∷ zeros 12

other_row-AllQuantized : AllQuantized other_row
other_row-AllQuantized = all_quantized-AllQuantized other_row refl

lane_distance_exact_example :
    lane_distance (at sample_query) (at other_row)
    ≡ pos (squared_distance (at sample_query) (at other_row))
lane_distance_exact_example =
    lane_distance_exact (at sample_query) (at other_row) sample_query-AllQuantized
      other_row-AllQuantized

quantized_distance-IsCut_example :
    (n : ℕ) × (quantized_distance sample_query other_row (pos 1000) ≡ pos n)
    × IsCut (pos 1000) (squared_distance (at sample_query) (at other_row)) n
quantized_distance-IsCut_example = quantized_distance-IsCut sample_query other_row (pos 1000)

quantized_distance_bound_example :
    (n : ℕ) × (quantized_distance sample_query other_row (pos 1000) ≡ pos n) × (n < 2 ^ 36)
quantized_distance_bound_example =
    quantized_distance_bound sample_query other_row (pos 1000)
      (AllQuantized-AllInt16 sample_query sample_query-AllQuantized)
      (AllQuantized-AllInt16 other_row other_row-AllQuantized)

abbrev probe : ℕ → ℕ → Probe
probe d i = record { dist = pos d; id = i }

sift-rank_example :
    sift (probe 4 9) 2 (probe 1 0 ∷ probe 6 1 ∷ probe 8 2 ∷ [])
    ≡ rank (probe 4 9) (probe 1 0 ∷ probe 6 1 ∷ []) ++ []
sift-rank_example =
    sift-rank 2 (probe 4 9) (probe 8 2) (probe 1 0 ∷ probe 6 1 ∷ []) [] refl
      ((omega arith, tt), (tt, tt))

ivf_bbox_distance-le_example :
    ivf_bbox_distance sample_index sample_query 1 (pos 2500)
    ≤ℤ pos (squared_distance (at sample_query) (row_vector sample_index 1 5))
ivf_bbox_distance-le_example =
    ivf_bbox_distance-le sample_index sample_query 1 (pos 2500) (row_vector sample_index 1 5)
      (λ d h.
        sample_index-IsSearchable.boxed.boxed 1 5 d (omega arith) (omega arith) (omega arith) h)

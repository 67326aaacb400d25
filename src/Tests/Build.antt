-- ===== src/Tests/Build.antt =====
-- Building, loading and the calendar on small data.
use heindall.Prelude.{
  List, none, some, ℕ, ◌≡◌, refl, ◌+◌, ◌*◌, ◌≤◌, ◌<◌, ◌^◌, ◌∷◌, ◌++◌, [], replicate, arith, inl,
  inr,
}
use heindall.Prelude.Int.{ℤ, pos, negsuc, pos_part, neg_part, ◌≤ℤ◌, ◌+ℤ◌, ◌-ℤ◌, ◌*ℤ◌}
use heindall.Quantized.{at, dimensions, IvfMetadata}
use heindall.Quantized.Defaults.{HasProbes}
use heindall.Quantized.Distance.{squared_distance}
use heindall.Build.{
  vector_to_centroid_distance, build_ivf_blocks, build_centroid_blocks, new_ivf_quantized_index,
  compute_cluster_stats, round_div_int64_to_int16, highest_power_of_two_le, blocks_for_rows,
}
use heindall.Build.Blocks.{place_of, build_centroid_blocks-at}
use heindall.Build.Rows.{slot, build_ivf_blocks-at}
use heindall.Build.Centroids.{new_ivf_quantized_index-ready}
use heindall.Build.Stats.{compute_cluster_stats-box, vector_to_centroid_distance-squared}
use heindall.Build.Numbers.{
  IsRounded, round_div_int64_to_int16-IsRounded, highest_power_of_two_le_lem,
}
use heindall.Ivf.Kernel.{IsQuantized}
use heindall.Ivf.Centroids.Result.{CentroidsLaidOut}
use heindall.Load.{check_block_table, validate_ivf_offsets, check_lists, check_blocks}
use heindall.Load.Offsets.{IsTable, validate_ivf_offsets_iff}
use heindall.Load.Loaded.{IsTable-HasRoom}
use heindall.Calendar.{days_from_civil}
use heindall.Calendar.Days.{first_of_next, month_length, days_from_civil-next}
use heindall.Tests.Sample.{sample_index, zeros}

sample_offsets :
    validate_ivf_offsets 6 sample_index.ivf.clusters sample_index.ivf.list_offsets
      (some sample_index.ivf.block_offsets)
    ≡ none
unfolding validate_ivf_offsets check_lists check_blocks check_block_table blocks_for_rows
sample_offsets = refl

validate_ivf_offsets_iff_example :
    (validate_ivf_offsets 6 2 (0 ∷ 5 ∷ 6 ∷ []) (some (0 ∷ 1 ∷ 2 ∷ [])) ≡ none
      → IsTable 6 2 (0 ∷ 5 ∷ 6 ∷ []) (0 ∷ 1 ∷ 2 ∷ []))
    × (IsTable 6 2 (0 ∷ 5 ∷ 6 ∷ []) (0 ∷ 1 ∷ 2 ∷ [])
        → validate_ivf_offsets 6 2 (0 ∷ 5 ∷ 6 ∷ []) (some (0 ∷ 1 ∷ 2 ∷ [])) ≡ none)
validate_ivf_offsets_iff_example = validate_ivf_offsets_iff 6 2 (0 ∷ 5 ∷ 6 ∷ []) (0 ∷ 1 ∷ 2 ∷ [])

abbrev vectors_6 : List ℤ
vectors_6 = replicate 70 (pos 3) ++ pos 25 ∷ zeros 13

build_ivf_blocks-at_example :
    at (build_ivf_blocks vectors_6 (0 ∷ 5 ∷ 6 ∷ []) (0 ∷ 1 ∷ 2 ∷ [])) (place_of (slot 5 1 5) 0)
    ≡ at vectors_6 (5 * dimensions + 0)
build_ivf_blocks-at_example =
    build_ivf_blocks-at vectors_6 (0 ∷ 5 ∷ 6 ∷ []) (0 ∷ 1 ∷ 2 ∷ []) 2
      (IsTable-HasRoom 6 2 (0 ∷ 5 ∷ 6 ∷ []) (0 ∷ 1 ∷ 2 ∷ [])
        ((validate_ivf_offsets_iff 6 2 (0 ∷ 5 ∷ 6 ∷ []) (0 ∷ 1 ∷ 2 ∷ [])).0 sample_offsets))
      1 5 0 refl refl (omega arith) (omega arith) (omega arith) (omega arith)

build_centroid_blocks-at_example :
    at (build_centroid_blocks vectors_6 6) (place_of 5 0) ≡ at vectors_6 (5 * dimensions + 0)
build_centroid_blocks-at_example =
    build_centroid_blocks-at vectors_6 6 5 0 (omega arith) (omega arith)

abbrev bare_metadata : IvfMetadata
bare_metadata = record sample_index.ivf { centroid_blocks = [] }

new_ivf_quantized_index-ready_example :
    CentroidsLaidOut (new_ivf_quantized_index vectors_6 [] bare_metadata)
    × HasProbes (new_ivf_quantized_index vectors_6 [] bare_metadata)
new_ivf_quantized_index-ready_example =
    new_ivf_quantized_index-ready vectors_6 [] bare_metadata (omega arith) (omega arith) refl refl

compute_cluster_stats-box_example :
    ((compute_cluster_stats vectors_6 (4 ∷ 5 ∷ []) 0).1 ≤ℤ at vectors_6 (5 * dimensions + 0))
    × (at vectors_6 (5 * dimensions + 0) ≤ℤ (compute_cluster_stats vectors_6 (4 ∷ 5 ∷ []) 0).2)
compute_cluster_stats-box_example =
    compute_cluster_stats-box vectors_6 (4 ∷ 5 ∷ []) 5 0 (inr (inl refl))

round_div_int64_to_int16-IsRounded_example :
    IsQuantized (round_div_int64_to_int16 (negsuc 6) (pos 2))
    × IsRounded 0 2 (pos_part (round_div_int64_to_int16 (negsuc 6) (pos 2)))
    × IsRounded 7 2 (neg_part (round_div_int64_to_int16 (negsuc 6) (pos 2)))
round_div_int64_to_int16-IsRounded_example =
    round_div_int64_to_int16-IsRounded (negsuc 6) 2 (omega arith) (omega arith) (omega arith)
      (omega arith)

highest_power_of_two_le_lem_example :
    (j : ℕ) × (highest_power_of_two_le (pos 6) ≡ 2 ^ j) × (2 ^ j ≤ 6) × (6 < 2 ^ (j + 1))
highest_power_of_two_le_lem_example = highest_power_of_two_le_lem 6 (omega arith) (omega arith)

days_from_civil-next_example :
    (days_from_civil (pos 2024) (pos 2) (pos (28 + 1))
      ≡ days_from_civil (pos 2024) (pos 2) (pos 28) +ℤ pos 1)
    × (first_of_next 2024 2
        ≡ days_from_civil (pos 2024) (pos 2) (pos (month_length 2024 2)) +ℤ pos 1)
days_from_civil-next_example =
    days_from_civil-next 2024 2 28 (omega arith) (omega arith) (omega arith) (omega arith)

-- The numbers start on 1 January 1970.
days_from_civil_epoch : days_from_civil (pos 1970) (pos 1) (pos 1) ≡ pos 0
unfolding days_from_civil ◌+ℤ◌ ◌-ℤ◌ ◌*ℤ◌
days_from_civil_epoch = refl

vector_to_centroid_distance-squared_example :
    vector_to_centroid_distance vectors_6 5 (zeros 14)
    ≡ squared_distance (λ d. at vectors_6 (5 * dimensions + d)) (at (zeros 14))
vector_to_centroid_distance-squared_example =
    vector_to_centroid_distance-squared vectors_6 5 (zeros 14)

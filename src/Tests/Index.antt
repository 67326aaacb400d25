-- ===== src/Tests/Index.antt =====
-- A fixed-point arithmetic, and an index built with it.
use heindall.Prelude.{
  ℕ, ◌+◌, ◌*◌, ◌^◌, ◌≤◌, ◌<◌, ◌≡◌, ◌⊎◌, ◌↔◌, refl, inl, inr, true, false, List, [], ◌∷◌, length,
  arith, some, replicate, ◌++◌,
}
use heindall.Prelude.Int.{ℤ, pos, negsuc, ◌+ℤ◌, ◌-ℤ◌, ◌*ℤ◌, ltb_ℤ, leb_ℤ, pos_part, ◌≤ℤ◌}
use heindall.Float.{Float}
use heindall.Quantized.{QuantizedIndex}
use heindall.Quantize.{scaled, label_fraud}
use heindall.Quantize.Range.{Rounds}
use heindall.Ivf.Kernel.{IsQuantized}
use heindall.Ivf.Exact.Answer.{IsSearchable}
use heindall.Build.{trunc_div, is_power_of_two}
use heindall.Build.Materialize.{IvfBuildOptions}
use heindall.Build.Split.{SplitState, balanced_split}
use heindall.Build.Split.Ranges.{Divides, balanced_split-Divides}
use heindall.Build.Index.Writable.{
  write_ivf_binary_index, build-write-load, built-IsWritable, built_labels,
}
use heindall.File.Bytes.{LoadError}
use heindall.File.{write_ivf_quantized_index}
use heindall.File.Heap.{load_binary_index_heap}
use heindall.File.Headers.{IsWritable}
use heindall.File.Written.{load_binary_index_heap-write_ivf_quantized_index}
use heindall.File.Mmap.{load_binary_index}
use heindall.File.Mmap.Agreement.{value}
use heindall.File.Mmap.Loaded.{load_binary_index-load_binary_index_heap, written-counts}
use heindall.Build.Index.{
  Reference, build_clusters, build_ivf_index, chosen_clusters, empty_dataset, bad_clusters,
}
use heindall.Build.Index.Errors.{build_ivf_index_errors}
use heindall.Build.Index.Searchable.{build_ivf_index-IsSearchable}

-- Multiples of 1 / 10000.
abbrev pub fixed : Float
fixed = record {
  Carrier = ℤ;
  of_int = λ n. n *ℤ pos 10000;
  decimal = λ n k. trunc_div (n *ℤ pos 10000) (10 ^ k);
  add = ◌+ℤ◌;
  sub = ◌-ℤ◌;
  mul = λ a b. trunc_div (a *ℤ b) 10000;
  quo = λ a b. trunc_div (a *ℤ pos 10000) (pos_part b);
  neg = λ a. pos 0 -ℤ a;
  lt = ltb_ℤ;
  le = leb_ℤ;
  to_int16 = λ a. trunc_div a 10000;
}

fixed_product : (n : ℕ) → trunc_div (pos n *ℤ pos 100000000) 10000 ≡ pos (n * 10000)
unfolding trunc_div ◌*ℤ◌
fixed_product n = ground arith

fixed-fits :
    (v : ℤ) → ltb_ℤ v (pos 0) ≡ false → ltb_ℤ (pos 10000) v ≡ false → IsQuantized (scaled fixed v)
unfolding trunc_div ◌*ℤ◌ ◌+ℤ◌
fixed-fits (pos n) lo hi =
    rw (fixed_product n) (record { above = ground arith; below = ground arith })
fixed-fits (negsuc n) lo hi = absurd (ground arith)

pub fixed-Rounds : Rounds fixed
unfolding trunc_div ◌*ℤ◌
fixed-Rounds = record { irreflexive = λ v. ground arith; ordered = refl; fits = fixed-fits }

abbrev sample_references : List (Reference fixed)
sample_references =
    record { vector = λ d. pos (d * 100); label = label_fraud }
    ∷ record { vector = λ d. pos (d * 200 + 7); label = [] }
    ∷ record { vector = λ d. negsuc 9999; label = label_fraud }
    ∷ []

abbrev two_clusters : IvfBuildOptions
two_clusters = record { clusters = pos 2; nprobe = pos 1; ambiguous_nprobe = pos 2; repair = true }

two-is_power_of_two : is_power_of_two (chosen_clusters (pos 2) 3) ≡ true
unfolding is_power_of_two chosen_clusters
two-is_power_of_two = refl

two_chosen : pos_part (chosen_clusters (pos 2) 3) ≤ 8192
unfolding chosen_clusters
two_chosen = omega arith

build_ivf_index-IsSearchable_example :
    (idx : QuantizedIndex) × (build_ivf_index fixed fixed sample_references two_clusters ≡ inr idx)
    × IsSearchable idx
build_ivf_index-IsSearchable_example =
    build_ivf_index-IsSearchable fixed fixed sample_references two_clusters fixed-Rounds
      (omega arith) (omega arith) two-is_power_of_two two_chosen

abbrev three_clusters : IvfBuildOptions
three_clusters = record two_clusters { clusters = pos 3 }

build_ivf_index_errors_example :
    ((build_ivf_index fixed fixed sample_references three_clusters ≡ inl empty_dataset)
      ↔ (length sample_references ≡ 0))
    × ((build_ivf_index fixed fixed sample_references three_clusters ≡ inl bad_clusters) ↔ (
        (0 < length sample_references)
        × (pos 1 ≤ℤ three_clusters.clusters)
        × (three_clusters.clusters ≤ℤ pos (length sample_references))
        × ¬ ((k : ℕ) × (three_clusters.clusters ≡ pos (2 ^ k)))))
build_ivf_index_errors_example =
    build_ivf_index_errors fixed fixed sample_references three_clusters (omega arith)

build-write-load_example :
    (idx : QuantizedIndex) × (file : List ℕ) × (build_ivf_index fixed fixed sample_references
        two_clusters
      ≡ inr idx)
    × (write_ivf_binary_index fixed fixed sample_references two_clusters ≡ inr file)
    × (load_binary_index file ≡ some (inr (record idx { vectors = [] })))
    × IsSearchable (record idx { vectors = [] })
build-write-load_example =
    build-write-load fixed fixed sample_references two_clusters fixed-Rounds (omega arith)
      (omega arith) two-is_power_of_two two_chosen

abbrev sample_build : QuantizedIndex
sample_build = build_clusters fixed fixed sample_references two_clusters 2

sample_build-IsWritable : IsWritable sample_build
sample_build-IsWritable =
    built-IsWritable fixed fixed sample_references two_clusters 1 fixed-Rounds (omega arith)
      (omega arith)

load_binary_index_heap-write_ivf_quantized_index_example :
    load_binary_index_heap (write_ivf_quantized_index sample_build).1
    ≡ inr (record sample_build { vectors = [] })
load_binary_index_heap-write_ivf_quantized_index_example =
    load_binary_index_heap-write_ivf_quantized_index sample_build sample_build-IsWritable

sample_build_rows : 0 < length sample_build.labels
sample_build_rows = omega (
  arith,
  built_labels fixed fixed sample_references two_clusters 1 fixed-Rounds (omega arith)
      (omega arith),
)

load_binary_index-load_binary_index_heap_example :
    (r : LoadError ⊎ QuantizedIndex) × (load_binary_index (write_ivf_quantized_index sample_build).1
      ≡ some r)
    × (value r ≡ value (load_binary_index_heap (write_ivf_quantized_index sample_build).1))
load_binary_index-load_binary_index_heap_example =
    load_binary_index-load_binary_index_heap (write_ivf_quantized_index sample_build).1
      (written-counts sample_build sample_build-IsWritable sample_build_rows)

abbrev two_empty_ranges : SplitState
two_empty_ranges = record {
  ids = 0 ∷ 1 ∷ 2 ∷ [];
  ranges = record { start = 0; end = 0 } ∷ record { start = 0; end = 0 } ∷ [];
}

abbrev sample_vectors : List ℤ
sample_vectors = replicate 28 (pos 3) ++ replicate 14 (pos 25)

balanced_split-Divides_example :
    Divides 0 2 0 3 two_empty_ranges
      (balanced_split fixed sample_vectors 2 0 3 0 2 two_empty_ranges)
balanced_split-Divides_example =
    balanced_split-Divides fixed sample_vectors 2 1 0 3 0 two_empty_ranges (omega arith)
      (omega arith) (omega arith)

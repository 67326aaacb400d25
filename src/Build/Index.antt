-- ===== src/Build/Index.antt =====
-- `BuildIVFIndex` in ivf_build.go.
pub mod Errors
pub mod Powers
pub mod Searchable
pub mod Tables
pub mod Writable
use heindall.Prelude.{
  ℕ, zero, suc, ◌+◌, ◌*◌, ◌%◌, ◌^◌, ◌==◌, ◌⊎◌, inl, inr, Bool, true, false, not, ◌||◌, List, [],
  ◌∷◌, ◌++◌, map, if◌then◌else◌, length, replicate,
}
use heindall.Prelude.Int.{ℤ, pos, pos_part, ltb_ℤ, leb_ℤ}
use heindall.Quantized.{QuantizedIndex, dimensions}
use heindall.Float.{Float}
use heindall.Quantize.{quantize_vector, label_byte}
use heindall.Build.{highest_power_of_two_le, is_power_of_two, new_ivf_quantized_index}
use heindall.Build.Split.{IvfBuildRange, SplitState, balanced_split}
use heindall.Build.Materialize.{IvfBuildOptions, materialize_ivf}

-- A reference vector and the bytes of its label.
pub record Reference (f : Float) : Type 0 where
  pub vector : ℕ → f.Carrier
  pub label : List ℕ

pub data BuildError : Type 0 where
  empty_dataset : BuildError
  bad_clusters : BuildError

-- `clusters`, after its two corrections.
unfoldable pub chosen_clusters : ℤ → ℕ → ℤ
unfolding highest_power_of_two_le
chosen_clusters clusters count =
    let wanted = if leb_ℤ clusters (pos 0) then pos 8192 else clusters in
    if ltb_ℤ (pos count) wanted then pos (highest_power_of_two_le (pos count)) else wanted

-- The loop over the references: vectors, labels and ids, from id `i` on.
unfoldable pub vectors_of : (f : Float) → List (Reference f) → List ℤ
unfolding quantize_vector
vectors_of f [] = []
vectors_of f (r ∷ rs) = quantize_vector f r.vector ++ vectors_of f rs

unfoldable pub ids_from : ℕ → ℕ → List ℕ
ids_from zero i = []
ids_from (suc n) i = (i % 2 ^ 32) ∷ ids_from n (i + 1)

-- The part behind the checks; `float64` picks the dimensions, the references are `float32`.
-- A cluster count of 2 ^ k is halved k times, so its own value is fuel enough.
unfoldable pub build_clusters :
    (f64 f32 : Float) → List (Reference f32) → IvfBuildOptions → ℕ → QuantizedIndex
unfolding vectors_of ids_from balanced_split materialize_ivf new_ivf_quantized_index label_byte
build_clusters f64 f32 refs opts clusters =
    let vectors = vectors_of f32 refs in
    let labels = map (λ (r : Reference f32). label_byte r.label) refs in
    let start : SplitState = record {
      ids = ids_from (length refs) 0;
      ranges = replicate clusters (record { start = 0; end = 0 });
    } in
    let s = balanced_split f64 vectors clusters 0 (length refs) 0 clusters start in
    let (ordered, ordered_labels, blocks, ivf) =
      materialize_ivf vectors labels s.ids s.ranges opts in
    record (new_ivf_quantized_index ordered ordered_labels ivf) { blocks = blocks }

unfoldable pub build_ivf_index :
    (f64 f32 : Float) → List (Reference f32) → IvfBuildOptions → BuildError ⊎ QuantizedIndex
unfolding chosen_clusters
build_ivf_index f64 f32 refs opts =
    let clusters = chosen_clusters opts.clusters (length refs) in
    if length refs == 0
    then inl empty_dataset
    else if leb_ℤ clusters (pos 0) || not (is_power_of_two clusters)
    then inl bad_clusters
    else inr (build_clusters f64 f32 refs opts (pos_part clusters))

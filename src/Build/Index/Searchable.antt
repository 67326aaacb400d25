-- ===== src/Build/Index/Searchable.antt =====
-- What `BuildIVFIndex` returns is an index that the search answers from.
use mathlib.Core.Path.{subst}
use heindall.Prelude.{
  ℕ, zero, suc, ◌+◌, ◌*◌, ◌%◌, ◌^◌, ◌≤◌, ◌<◌, ◌≡◌, refl, sym, ◌∙◌, ap, inl, inr, true, false, ◌==◌,
  Bool-cases, List, [], ◌∷◌, map, length, length-replicate, replicate, arith,
}
use native.Mathlib.Nat.{one-le-pow}
use heindall.Prelude.Int.{ℤ, pos, negsuc, pos_part, leb_ℤ}
use heindall.Quantized.{QuantizedIndex, dimensions, default_probes, IvfMetadata}
use heindall.Quantized.Defaults.{HasProbes}
use heindall.Float.{Float}
use heindall.Quantize.{quantize_vector, label_byte}
use heindall.Quantize.Range.{Rounds, quantize_from-AllQuantized}
use heindall.Sort.Counts.{count_of}
use heindall.Ivf.Centroids.Loops.{AllQuantized}
use heindall.Ivf.Exact.Answer.{IsSearchable}
use heindall.Build.{is_power_of_two, build_ivf_blocks}
use heindall.Build.Centroids.{new_ivf_quantized_index-with_probes, new_ivf_quantized_index-ready}
use heindall.Build.Split.{IvfBuildRange, SplitState, balanced_split}
use heindall.Build.Split.Ranges.{range_at, Leads, Divides, balanced_split-Divides}
use heindall.Build.Split.Orders.{Reorders, balanced_split-Reorders}
use heindall.Build.Materialize.{IvfBuildOptions, materialize_ivf, materialize_from}
use heindall.Build.Materialize.Sizes.{Consecutive, Keeps, materialize_from-Keeps}
use heindall.Build.Materialize.Values.{append-AllQuantized, nil-AllQuantized}
use heindall.Build.Index.{
  Reference, chosen_clusters, vectors_of, ids_from, build_clusters, build_ivf_index,
}
use heindall.Build.Index.Powers.{is_power_of_two-pow, below_power}
use heindall.Build.Index.Tables.{finished, finished-IsSearchable}

pub vectors_of-AllQuantized :
    (f : Float) → Rounds f → (refs : List (Reference f)) → AllQuantized (vectors_of f refs)
unfolding vectors_of quantize_vector
vectors_of-AllQuantized f r [] = nil-AllQuantized
vectors_of-AllQuantized f r (x ∷ refs) =
    append-AllQuantized (quantize_vector f x.vector) (vectors_of f refs)
      (quantize_from-AllQuantized f r x.vector dimensions 0) (vectors_of-AllQuantized f r refs)

length-ids_from : (n i : ℕ) → length (ids_from n i) ≡ n
unfolding ids_from
length-ids_from zero i = refl
length-ids_from (suc n) i = ap suc (length-ids_from n (i + 1))

-- The ids are different, and none is below the first.
count_of-ids_from :
    (x n i : ℕ)
    → i + n ≤ 2 ^ 32
    → (count_of x (ids_from n i) ≤ 1) × (x < i → count_of x (ids_from n i) ≡ 0)
unfolding ids_from
count_of-ids_from x zero i h = (omega arith, λ lt. refl)
count_of-ids_from x (suc n) i h =
    let (one, none) = count_of-ids_from x n (i + 1) (omega arith) in
    let narrow : i % 2 ^ 32 ≡ i = omega arith in
    rw narrow (elim (Bool-cases (x == i)) [
      | inl e ↦ (let later = none (ground arith) in ground arith, λ lt. absurd (ground arith))
      | inr e ↦ (ground arith, λ lt. (let later = none (omega arith) in ground arith))
    ])

Leads-tail :
    (x : IvfBuildRange) (rs : List IvfBuildRange) (base n s e : ℕ)
    → Leads (x ∷ rs) (suc base) n s e
    → Leads rs base n s e
Leads-tail x rs base zero s e l = l
Leads-tail x rs base (suc n) s e (a, b, l) =
    let next : suc base + 1 ≡ suc (base + 1) = omega arith in
    (
      a,
      b,
      Leads-tail x rs (base + 1) n (range_at rs base).end e
          (subst (λ j. Leads (x ∷ rs) j n (range_at rs base).end e) next l),
    )

Leads-Consecutive :
    (rs : List IvfBuildRange) (s e : ℕ) → Leads rs 0 (length rs) s e → Consecutive rs s e
Leads-Consecutive [] s e l = l
Leads-Consecutive (x ∷ rs) s e (a, b, l) =
    (a, b, Leads-Consecutive rs x.end e (Leads-tail x rs 0 (length rs) x.end e l))

abbrev first_state : ℕ → ℕ → SplitState
first_state n clusters = record {
  ids = ids_from n 0;
  ranges = replicate clusters (record { start = 0; end = 0 });
}

module _ (f64 f32 : Float) (refs : List (Reference f32)) (opts : IvfBuildOptions) (k : ℕ) where
  abbrev pub vs : List ℤ
  vs = vectors_of f32 refs

  abbrev pub labels : List ℕ
  labels = map (λ (r : Reference f32). label_byte r.label) refs

  abbrev pub split : SplitState
  split =
      balanced_split f64 vs (2 ^ k) 0 (length refs) 0 (2 ^ k) (first_state (length refs) (2 ^ k))

  abbrev pub ivf : IvfMetadata
  ivf =
      let m = materialize_from vs labels split.ids split.ranges 0 0 in
      record {
        clusters = length split.ranges;
        centroids = m.centroids;
        centroid_blocks = [];
        list_offsets = 0 ∷ m.list_offsets;
        block_offsets = 0 ∷ m.block_offsets;
        bbox_min = m.bbox_min;
        bbox_max = m.bbox_max;
        orig_ids = m.orig_ids;
        nprobe = opts.nprobe;
        ambiguous_nprobe = opts.ambiguous_nprobe;
        repair = opts.repair;
      }

  abbrev pub probes : ℤ × ℤ
  probes = default_probes (length split.ranges) opts.nprobe opts.ambiguous_nprobe

  abbrev pub result : QuantizedIndex
  result = finished vs labels split.ids split.ranges opts probes

  module _ (r : Rounds f32) (few : 2 ^ k ≤ 8192) (small : length refs < 2 ^ 32) where
    size : length (replicate {A = IvfBuildRange} (2 ^ k) (record { start = 0; end = 0 })) ≡ 2 ^ k
    size = length-replicate (2 ^ k) (record { start = 0; end = 0 })

    divides : Divides 0 (2 ^ k) 0 (length refs) (first_state (length refs) (2 ^ k)) split
    divides =
        balanced_split-Divides f64 vs (2 ^ k) k 0 (length refs) 0
          (first_state (length refs) (2 ^ k)) (below_power k) (omega arith) (omega (arith, size))

    pub reorders : Reorders (first_state (length refs) (2 ^ k)) split
    reorders =
        balanced_split-Reorders f64 vs (2 ^ k) 0 (length refs) 0 (2 ^ k)
          (first_state (length refs) (2 ^ k))

    pub ranges : length split.ranges ≡ 2 ^ k
    ranges = divides.size ∙ size

    pub ids : length split.ids ≡ length refs
    ids = reorders.size ∙ length-ids_from (length refs) 0

    pub consecutive : Consecutive split.ranges 0 (length split.ids)
    consecutive = subst (Consecutive split.ranges 0) (sym ids) (
        Leads-Consecutive split.ranges 0 (length refs)
          (subst (λ n. Leads split.ranges 0 n 0 (length refs)) (sym ranges) divides.leads))

    pub once : (x : ℕ) → count_of x split.ids ≤ 1
    once x =
        let (one, none) = count_of-ids_from x (length refs) 0 (omega arith) in
        omega (arith, reorders.counts x)

    pub some_cluster : 0 < length split.ranges
    some_cluster = omega (arith, ranges, one-le-pow k 2)

    keeps :
        Keeps vs split.ids
          (length split.ranges)
          0
          (length split.ids)
          (materialize_from vs labels split.ids split.ranges 0 0)
    keeps =
        materialize_from-Keeps vs labels split.ids split.ranges 0 0 0 (length split.ids) consecutive
          (omega arith)

    long : length split.ranges * dimensions ≤ length ivf.centroids
    long = omega (arith, keeps.centroids)

    tables : length ivf.list_offsets ≡ length split.ranges + 1
    tables = omega (arith, keeps.lists)

    pub built_is : build_clusters f64 f32 refs opts (2 ^ k) ≡ result
    unfolding build_clusters materialize_ivf
    built_is =
        let m = materialize_from vs labels split.ids split.ranges 0 0 in
        ap
          (λ (i : QuantizedIndex). record i {
            blocks = build_ivf_blocks m.vectors (0 ∷ m.list_offsets) (0 ∷ m.block_offsets);
          })
          (new_ivf_quantized_index-with_probes m.vectors m.labels ivf some_cluster long tables refl)

    pub result-HasProbes : HasProbes result
    result-HasProbes =
        let m = materialize_from vs labels split.ids split.ranges 0 0 in
        let h =
          subst HasProbes
            (new_ivf_quantized_index-with_probes m.vectors m.labels ivf some_cluster long tables
              refl)
            (new_ivf_quantized_index-ready m.vectors m.labels ivf some_cluster long tables
              refl).1 in
        record { positive = h.positive; ordered = h.ordered; bounded = h.bounded }

    pub result-IsSearchable : IsSearchable result
    result-IsSearchable =
        finished-IsSearchable vs labels split.ids split.ranges opts probes consecutive
          (omega (arith, ids)) once some_cluster (omega (arith, ranges))
          (vectors_of-AllQuantized f32 r refs) result-HasProbes

    pub built-IsSearchable : IsSearchable (build_clusters f64 f32 refs opts (2 ^ k))
    built-IsSearchable = subst IsSearchable (sym built_is) result-IsSearchable

positive : (z : ℤ) → is_power_of_two z ≡ true → (leb_ℤ z (pos 0) ≡ false) × (z ≡ pos (pos_part z))
unfolding is_power_of_two
positive (pos n) h = (ground arith, refl)
positive (negsuc n) h = absurd (ground arith)

-- The cluster count is a power of two, and the checks let it through.
pub build_ivf_index-is :
    (f64 f32 : Float) (refs : List (Reference f32)) (opts : IvfBuildOptions)
    → 0 < length refs
    → is_power_of_two (chosen_clusters opts.clusters (length refs)) ≡ true
    → (k : ℕ) × (pos_part (chosen_clusters opts.clusters (length refs)) ≡ 2 ^ k)
      × (build_ivf_index f64 f32 refs opts ≡ inr (build_clusters f64 f32 refs opts (2 ^ k)))
unfolding build_ivf_index
build_ivf_index-is f64 f32 refs opts many power =
    let clusters = chosen_clusters opts.clusters (length refs) in
    let (up, is) = positive clusters power in
    let (k, is_pow) =
      is_power_of_two-pow (pos_part clusters) (subst (λ z. is_power_of_two z ≡ true) is power) in
    let some_row : (length refs == 0) ≡ false = ground arith in
    (
      k,
      is_pow,
      rw (some_row, up, power) (ap (λ n. inr (build_clusters f64 f32 refs opts n)) is_pow),
    )

-- For a `float32` that rounds as `Rounds` says, `BuildIVFIndex` succeeds on between 1 and
-- 2 ^ 32 - 1 references when the number of clusters, after its corrections, is a power of two of at
-- most 8192. The index satisfies all that the search relies on (`IsSearchable`): offsets, boxes,
-- transposed centroids, values and search parameters.
pub build_ivf_index-IsSearchable :
    (f64 f32 : Float) (refs : List (Reference f32)) (opts : IvfBuildOptions)
    → Rounds f32
    → 0 < length refs
    → length refs < 2 ^ 32
    → is_power_of_two (chosen_clusters opts.clusters (length refs)) ≡ true
    → pos_part (chosen_clusters opts.clusters (length refs)) ≤ 8192
    → (idx : QuantizedIndex) × (build_ivf_index f64 f32 refs opts ≡ inr idx) × IsSearchable idx
build_ivf_index-IsSearchable f64 f32 refs opts r many small power few =
    let (k, is_pow, built) = build_ivf_index-is f64 f32 refs opts many power in
    (
      build_clusters f64 f32 refs opts (2 ^ k),
      built,
      built-IsSearchable f64 f32 refs opts k r (omega arith) small,
    )

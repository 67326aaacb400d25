-- ===== src/Build/Index/Writable.antt =====
-- What `BuildIVFIndex` returns fits the index file, so `WriteIVFBinaryIndex` and
-- `LoadBinaryIndex` hand it on.
use mathlib.Core.Path.{subst}
use heindall.Prelude.{
  ℕ, zero, suc, ◌+◌, ◌-◌, ◌*◌, ◌%◌, ◌^◌, ◌≤◌, ◌<◌, ◌≡◌, refl, sym, ◌∙◌, ap, true, ltb, ◌⊎◌, inl,
  inr, Bool-cases, ◌==◌, ==_iff, List, [], ◌∷◌, some, drop, get_or, length, arith,
}
use heindall.Prelude.Int.{ℤ, pos_part}
use heindall.Quantized.{QuantizedIndex, has_ivf, has_ivf_blocks, ivf_block_stride}
use heindall.Quantized.Defaults.{HasProbes}
use heindall.Float.{Float}
use heindall.Quantize.Range.{Rounds}
use heindall.Sort.Counts.{count_of, count_of-take, count_of-get_or}
use heindall.Ivf.Centroids.Loops.{AllQuantized}
use heindall.Ivf.Exact.Answer.{IsSearchable}
use heindall.Load.Offsets.{IsTable, validate_ivf_offsets_iff}
use heindall.Build.{is_power_of_two, offset}
use heindall.Build.Blocks.{length-build_centroid_blocks}
use heindall.Build.Rows.{length-build_ivf_blocks}
use heindall.Build.Split.{IvfBuildRange}
use heindall.Build.Materialize.{IvfBuildOptions}
use heindall.Build.Materialize.Sizes.{Consecutive}
use heindall.Build.Materialize.Values.{
  build_ivf_blocks-AllQuantized, build_centroid_blocks-AllQuantized,
}
use heindall.Build.Materialize.Widths.{
  AllQuantized-AllInt16, materialize_from-AllInt16, materialize_from-narrow,
}
use heindall.Build.Index.{
  Reference, BuildError, chosen_clusters, ids_from, build_clusters, build_ivf_index,
}
use heindall.Build.Index.Searchable.{
  vs, labels, split, probes, consecutive, once, ids, ranges, some_cluster, reorders, built_is,
  result-HasProbes, built-IsSearchable, vectors_of-AllQuantized, build_ivf_index-is,
}
use heindall.Build.Index.Tables.{m, finished, keeps, grows, rows_quantized, centroids_quantized}
use heindall.File.Bytes.{AllUint32, byte}
use heindall.File.{write_ivf_quantized_index}
use heindall.File.Mmap.{load_binary_index}
use heindall.File.Mmap.Loaded.{load_binary_index-written}
use heindall.File.Headers.{IsWritable, AllUint32-cons}

pub ids_from-narrow : (x n i : ℕ) → 1 ≤ count_of x (ids_from n i) → x < 2 ^ 32
unfolding ids_from
ids_from-narrow x zero i h = absurd (omega arith)
ids_from-narrow x (suc n) i h = elim (Bool-cases (x == i % 2 ^ 32)) [
  | inl e ↦ (let same = (==_iff x (i % 2 ^ 32)).0 e in omega arith)
  | inr e ↦ ids_from-narrow x n (i + 1) (ground arith)
]

byte_end : (xs : List ℕ) (i : ℕ) → length xs ≤ i → byte xs i ≡ 0
byte_end [] i h = refl
byte_end (x ∷ xs) zero h = absurd (omega arith)
byte_end (x ∷ xs) (suc i) h = byte_end xs i (omega arith)

module _ (vs : List ℤ) (labels ids : List ℕ) (rs : List IvfBuildRange) (opts : IvfBuildOptions)
    (probes : ℤ × ℤ) (con : Consecutive rs 0 (length ids)) (small : length ids < 2 ^ 32)
    (once : (x : ℕ) → count_of x ids ≤ 1) (many : 0 < length rs) (few : length rs ≤ 8192)
    (quantized : AllQuantized vs) (narrow : (x : ℕ) → 1 ≤ count_of x ids → x < 2 ^ 32)
    (ready : HasProbes (finished vs labels ids rs opts probes)) where
  abbrev written : QuantizedIndex
  written = finished vs labels ids rs opts probes

  table :
      IsTable (length written.labels) (length rs) written.ivf.list_offsets written.ivf.block_offsets
  table =
      let k = keeps vs labels ids rs opts probes con small once many few quantized in
      let g = grows vs labels ids rs opts probes con small once many few quantized in
      record {
        few = few;
        lists_long = omega (arith, k.lists);
        blocks_long = omega (arith, k.blocks);
        lists_from = refl;
        lists_to = omega (arith, g.last, k.labels);
        blocks_from = refl;
        rises = g.rises;
        spans = g.spans;
      }

  ids_fit : AllUint32 written.ivf.orig_ids
  ids_fit i =
      let k = keeps vs labels ids rs opts probes con small once many few quantized in
      let orig = (m vs labels ids rs opts probes).orig_ids in
      elim (Bool-cases (ltb i (length orig))) [
        | inl e ↦ narrow (get_or orig i 0) (
            omega (
              arith,
              k.counts (get_or orig i 0),
              count_of-get_or orig i (ground arith),
              count_of-take (get_or orig i 0) (length ids - 0) (drop 0 ids),
            ))
        | inr e ↦ omega (arith, byte_end orig i (ground arith))
      ]

  pub finished-IsWritable : IsWritable written
  finished-IsWritable =
      let k = keeps vs labels ids rs opts probes con small once many few quantized in
      let centroids =
        centroids_quantized vs labels ids rs opts probes con small once many few quantized in
      let rows = rows_quantized vs labels ids rs opts probes con small once many few quantized in
      let boxes = materialize_from-AllInt16 vs labels ids rs 0 0 quantized in
      let t = table in
      let last : length written.ivf.block_offsets - 1 ≡ length rs = omega (arith, t.blocks_long) in
      record {
        rows = omega (arith, k.labels);
        some_cluster = many;
        few = few;
        centroids = k.centroids;
        centroids_fit = AllQuantized-AllInt16 written.ivf.centroids centroids;
        centroid_blocks = length-build_centroid_blocks written.ivf.centroids (length rs);
        centroid_blocks_fit =
            AllQuantized-AllInt16 written.ivf.centroid_blocks
              (build_centroid_blocks-AllQuantized written.ivf.centroids (length rs) centroids);
        lists = t.lists_long;
        lists_fit =
            AllUint32-cons 0 (m vs labels ids rs opts probes).list_offsets (omega arith)
              (λ i. (materialize_from-narrow vs labels ids rs 0 0 i).0);
        block_table = t.blocks_long;
        block_table_fit =
            AllUint32-cons 0 (m vs labels ids rs opts probes).block_offsets (omega arith)
              (λ i. (materialize_from-narrow vs labels ids rs 0 0 i).1);
        low = k.low;
        low_fit = boxes.0;
        high = k.high;
        high_fit = boxes.1;
        ids = omega (arith, k.rows, k.labels);
        ids_fit = ids_fit;
        blocks =
            length-build_ivf_blocks written.vectors written.ivf.list_offsets
              written.ivf.block_offsets
            ∙ ap (λ n. offset written.ivf.block_offsets n * ivf_block_stride) last;
        blocks_fit = AllQuantized-AllInt16 written.blocks (
            build_ivf_blocks-AllQuantized written.vectors written.ivf.list_offsets
              written.ivf.block_offsets rows);
        offsets =
            (validate_ivf_offsets_iff (length written.labels) (length rs) written.ivf.list_offsets
                written.ivf.block_offsets).1
              t;
        probes = ready;
      }

  pub labels_length : length written.labels ≡ length ids
  labels_length =
      omega (arith, (keeps vs labels ids rs opts probes con small once many few quantized).labels)

pub built_labels :
    (f64 f32 : Float) (refs : List (Reference f32)) (opts : IvfBuildOptions) (k : ℕ)
    → Rounds f32
    → 2 ^ k ≤ 8192
    → length refs < 2 ^ 32
    → length (build_clusters f64 f32 refs opts (2 ^ k)).labels ≡ length refs
built_labels f64 f32 refs opts k r few small =
    let sp = split f64 f32 refs opts k in
    ap (λ (i : QuantizedIndex). length i.labels) (built_is f64 f32 refs opts k r few small)
    ∙ labels_length (vs f64 f32 refs opts k) (labels f64 f32 refs opts k) sp.ids sp.ranges opts
        (probes f64 f32 refs opts k) (consecutive f64 f32 refs opts k r few small)
        (omega (arith, ids f64 f32 refs opts k r few small)) (once f64 f32 refs opts k r few small)
        (some_cluster f64 f32 refs opts k r few small)
        (omega (arith, ranges f64 f32 refs opts k r few small)) (vectors_of-AllQuantized f32 r refs)
        (λ x h.
          ids_from-narrow x (length refs) 0
            (omega (arith, (reorders f64 f32 refs opts k r few small).counts x)))
        (result-HasProbes f64 f32 refs opts k r few small)
    ∙ ids f64 f32 refs opts k r few small

pub built-IsWritable :
    (f64 f32 : Float) (refs : List (Reference f32)) (opts : IvfBuildOptions) (k : ℕ)
    → Rounds f32
    → 2 ^ k ≤ 8192
    → length refs < 2 ^ 32
    → IsWritable (build_clusters f64 f32 refs opts (2 ^ k))
built-IsWritable f64 f32 refs opts k r few small =
    let sp = split f64 f32 refs opts k in
    subst IsWritable (sym (built_is f64 f32 refs opts k r few small)) (
      finished-IsWritable (vs f64 f32 refs opts k) (labels f64 f32 refs opts k) sp.ids sp.ranges
        opts (probes f64 f32 refs opts k) (consecutive f64 f32 refs opts k r few small)
        (omega (arith, ids f64 f32 refs opts k r few small)) (once f64 f32 refs opts k r few small)
        (some_cluster f64 f32 refs opts k r few small)
        (omega (arith, ranges f64 f32 refs opts k r few small)) (vectors_of-AllQuantized f32 r refs)
        (λ x h.
          ids_from-narrow x (length refs) 0
            (omega (arith, (reorders f64 f32 refs opts k r few small).counts x)))
        (result-HasProbes f64 f32 refs opts k r few small))

-- The search does not read the vectors.
without_vectors :
    (idx : QuantizedIndex) → IsSearchable idx → IsSearchable (record idx { vectors = [] })
unfolding has_ivf_blocks has_ivf
without_vectors idx ok =
    let l = ok.loaded in
    let b = ok.boxed in
    let p = ok.probes in
    record {
      loaded = record {
        blocks = l.blocks;
        few = l.few;
        covers = l.covers;
        ordered = l.ordered;
        stored = l.stored;
        labels = l.labels;
        ids = l.ids;
        distinct = l.distinct;
      };
      boxed = record { low_long = b.low_long; high_long = b.high_long; boxed = b.boxed };
      laid = ok.laid;
      centroids = ok.centroids;
      centroid_blocks = ok.centroid_blocks;
      blocks = ok.blocks;
      probes = record { positive = p.positive; ordered = p.ordered; bounded = p.bounded };
    }

-- `WriteIVFBinaryIndex`; the file of a build that succeeds.
unfoldable pub file_of_build : BuildError ⊎ QuantizedIndex → BuildError ⊎ List ℕ
unfolding write_ivf_quantized_index
file_of_build (inl e) = inl e
file_of_build (inr idx) = inr (write_ivf_quantized_index idx).1

unfoldable pub write_ivf_binary_index :
    (f64 f32 : Float) → List (Reference f32) → IvfBuildOptions → BuildError ⊎ List ℕ
unfolding build_ivf_index file_of_build
write_ivf_binary_index f64 f32 refs opts = file_of_build (build_ivf_index f64 f32 refs opts)

-- From references to the search, over the file: for a `float32` that rounds as `Rounds` says,
-- between 1 and 2 ^ 32 - 1 references and a number of clusters that is, after its corrections, a
-- power of two of at most 8192, `WriteIVFBinaryIndex` writes a file, `LoadBinaryIndex` on Linux
-- loads it, and what it loads is the index that `BuildIVFIndex` returns, without its vectors, and
-- satisfies all that the search relies on (`IsSearchable`).
pub build-write-load :
    (f64 f32 : Float) (refs : List (Reference f32)) (opts : IvfBuildOptions)
    → Rounds f32
    → 0 < length refs
    → length refs < 2 ^ 32
    → is_power_of_two (chosen_clusters opts.clusters (length refs)) ≡ true
    → pos_part (chosen_clusters opts.clusters (length refs)) ≤ 8192
    → (idx : QuantizedIndex) × (file : List ℕ) × (build_ivf_index f64 f32 refs opts ≡ inr idx)
      × (write_ivf_binary_index f64 f32 refs opts ≡ inr file)
      × (load_binary_index file ≡ some (inr (record idx { vectors = [] })))
      × IsSearchable (record idx { vectors = [] })
unfolding write_ivf_binary_index file_of_build
build-write-load f64 f32 refs opts r many small power few =
    let (k, is_pow, built) = build_ivf_index-is f64 f32 refs opts many power in
    let idx = build_clusters f64 f32 refs opts (2 ^ k) in
    (
      idx,
      (write_ivf_quantized_index idx).1,
      built,
      ap file_of_build built,
      load_binary_index-written idx (built-IsWritable f64 f32 refs opts k r (omega arith) small)
          (omega (arith, built_labels f64 f32 refs opts k r (omega arith) small)),
      without_vectors idx (built-IsSearchable f64 f32 refs opts k r (omega arith) small),
    )

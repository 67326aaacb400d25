-- ===== src/Build/Index/Tables.antt =====
-- The arrays that `materializeIVF` hands to `NewIVFQuantizedIndex`, when the ranges lead through
-- all ids.
use mathlib.Core.Path.{subst}
use heindall.Prelude.{
  ℕ, ◌+◌, ◌-◌, ◌*◌, ◌/◌, ◌%◌, ◌^◌, ◌≤◌, ◌<◌, ◌≡◌, sym, ◌∙◌, ap, true, List, ◌∷◌, get_or, length,
  drop, arith,
}
use heindall.Prelude.Int.{ℤ, ◌≤ℤ◌}
use heindall.Quantized.{at, dimensions, ivf_block_stride, QuantizedIndex, has_ivf, has_ivf_blocks}
use heindall.Quantized.Defaults.{HasProbes}
use heindall.Sort.Counts.{count_of, count_of-take, twice}
use heindall.Ivf.Centroids.Loops.{AllQuantized}
use heindall.Ivf.Scan.Layout.{IsLoaded}
use heindall.Ivf.Exact.Repaired.{IsBoxed, row_vector}
use heindall.Ivf.Exact.Answer.{IsSearchable}
use heindall.Build.{build_ivf_blocks, build_centroid_blocks, offset}
use heindall.Build.Blocks.{blocks_for_rows-ceil, build_centroid_blocks-at, place_of}
use heindall.Build.Rows.{
  HasRoom, slot, block_offsets_rise, build_ivf_blocks-at, length-build_ivf_blocks,
}
use heindall.Build.Split.{IvfBuildRange}
use heindall.Build.Materialize.{IvfBuildOptions, Materialized, materialize_from}
use heindall.Build.Materialize.Sizes.{Consecutive, Keeps, materialize_from-Keeps}
use heindall.Build.Materialize.Located.{
  Grows, materialize_from-Grows, materialize_from-Boxed, at-gather,
}
use heindall.Build.Materialize.Values.{
  gather-AllQuantized, build_ivf_blocks-AllQuantized, build_centroid_blocks-AllQuantized,
  materialize_from-AllQuantized,
}

module _ (vs : List ℤ) (labels ids : List ℕ) (rs : List IvfBuildRange) (opts : IvfBuildOptions)
    (probes : ℤ × ℤ) where
  abbrev pub m : Materialized
  m = materialize_from vs labels ids rs 0 0

  abbrev pub lists : List ℕ
  lists = 0 ∷ m.list_offsets

  abbrev pub blocks : List ℕ
  blocks = 0 ∷ m.block_offsets

  abbrev pub finished : QuantizedIndex
  finished = record {
    vectors = m.vectors;
    blocks = build_ivf_blocks m.vectors lists blocks;
    labels = m.labels;
    ivf = record {
      clusters = length rs;
      centroids = m.centroids;
      centroid_blocks = build_centroid_blocks m.centroids (length rs);
      list_offsets = lists;
      block_offsets = blocks;
      bbox_min = m.bbox_min;
      bbox_max = m.bbox_max;
      orig_ids = m.orig_ids;
      nprobe = probes.0;
      ambiguous_nprobe = probes.1;
      repair = opts.repair;
    };
  }

  module _ (con : Consecutive rs 0 (length ids)) (small : length ids < 2 ^ 32)
      (once : (x : ℕ) → count_of x ids ≤ 1) (many : 0 < length rs) (few : length rs ≤ 8192)
      (quantized : AllQuantized vs) where
    pub keeps : Keeps vs ids (length rs) 0 (length ids) m
    keeps = materialize_from-Keeps vs labels ids rs 0 0 0 (length ids) con (omega arith)

    pub grows : Grows rs 0 0 (length ids) 0 m
    grows =
        materialize_from-Grows vs labels ids rs 0 0 0 (length ids) con (omega arith) (omega arith)
          (omega arith)

    pub room : HasRoom lists blocks (length rs)
    room c lt =
        omega
          (arith, grows.spans c lt, blocks_for_rows-ceil (offset lists (c + 1) - offset lists c))

    last_entry : length blocks - 1 ≡ length rs
    last_entry = omega (arith, keeps.blocks)

    all_stored :
        length (build_ivf_blocks m.vectors lists blocks)
        ≡ offset blocks (length rs) * ivf_block_stride
    all_stored =
        subst
          (λ n.
            length (build_ivf_blocks m.vectors lists blocks) ≡ offset blocks n * ivf_block_stride)
          last_entry (length-build_ivf_blocks m.vectors lists blocks)

    pub has_blocks : has_ivf_blocks finished ≡ true
    unfolding has_ivf_blocks has_ivf
    has_blocks =
        let long = all_stored in
        let k = keeps.lists in let b = keeps.blocks in let c = keeps.centroids in ground arith

    pub orig_once : (x : ℕ) → count_of x m.orig_ids ≤ 1
    orig_once x =
        omega (arith, keeps.counts x, count_of-take x (length ids - 0) (drop 0 ids), once x)

    block_last : (c : ℕ) → c < length rs → offset blocks (c + 1) ≤ offset blocks (length rs)
    block_last c lt =
        let e : c + 1 + (length rs - (c + 1)) ≡ length rs = omega arith in
        subst (λ k. offset blocks (c + 1) ≤ offset blocks k) e
          (block_offsets_rise m.vectors lists blocks (length rs) room (length rs - (c + 1)) (c + 1)
            (omega arith))

    finished-IsLoaded : IsLoaded finished
    finished-IsLoaded = record {
      blocks = has_blocks;
      few = few;
      covers = λ c lt. omega (arith, room c lt, grows.rises c lt);
      ordered = grows.rises;
      stored = λ c lt. omega (arith, all_stored, block_last c lt);
      labels = omega (arith, grows.last, keeps.labels);
      ids = omega (arith, grows.last, keeps.rows);
      distinct = λ i j lt le same.
          (let two = twice m.orig_ids i j lt (omega (arith, grows.last, keeps.rows)) same in
            absurd (omega (arith, orig_once (get_or m.orig_ids j 0))));
    }

    row_vector-orig :
        (c r d : ℕ)
        → c < length rs
        → offset lists c ≤ r
        → r < offset lists (c + 1)
        → d < dimensions
        → r < length m.orig_ids
        → row_vector finished c r d ≡ at vs (get_or m.orig_ids r 0 * dimensions + d)
    row_vector-orig c r d lt lo hi hd there =
        let place : (offset blocks c + (r - offset lists c) / 8) * ivf_block_stride
              + (d * 8 + (r - offset lists c) % 8)
            ≡ place_of (slot (offset lists c) (offset blocks c) r) d =
          omega arith in
        ap (at (build_ivf_blocks m.vectors lists blocks)) place
        ∙ build_ivf_blocks-at m.vectors lists blocks (length rs) room c r d
            (omega (arith, keeps.lists)) (omega (arith, keeps.blocks)) lt lo hi hd
        ∙ ap (λ v. at v (r * dimensions + d)) keeps.vectors
        ∙ at-gather vs m.orig_ids r d there hd

    finished-IsBoxed : IsBoxed finished
    finished-IsBoxed = record {
      low_long = omega (arith, keeps.low);
      high_long = omega (arith, keeps.high);
      boxed = λ c r d lt lo hi hd.
          (let b =
              materialize_from-Boxed vs labels ids rs 0 0 0 (length ids) c r con (omega arith)
                (omega arith) lt lo hi in
            let place : r - 0 ≡ r = omega arith in
            let there = subst (λ i. i < length m.orig_ids) place b.there in
            let is = row_vector-orig c r d lt lo hi hd there in
            rw is (
              subst
                  (λ i.
                    at m.bbox_min (c * dimensions + d)
                    ≤ℤ at vs (get_or m.orig_ids i 0 * dimensions + d))
                  place (b.low d hd),
              subst
                  (λ i.
                    at vs (get_or m.orig_ids i 0 * dimensions + d)
                    ≤ℤ at m.bbox_max (c * dimensions + d))
                  place (b.high d hd),
            ));
    }

    pub rows_quantized : AllQuantized m.vectors
    rows_quantized =
        subst AllQuantized (sym keeps.vectors) (gather-AllQuantized vs m.orig_ids quantized)

    pub centroids_quantized : AllQuantized m.centroids
    centroids_quantized = materialize_from-AllQuantized vs labels ids rs 0 0 quantized small

    pub finished-IsSearchable : HasProbes finished → IsSearchable finished
    finished-IsSearchable probes = record {
      loaded = finished-IsLoaded;
      boxed = finished-IsBoxed;
      laid = λ c d lt hd. build_centroid_blocks-at m.centroids (length rs) c d lt hd;
      centroids = centroids_quantized;
      centroid_blocks =
          build_centroid_blocks-AllQuantized m.centroids (length rs) centroids_quantized;
      blocks = build_ivf_blocks-AllQuantized m.vectors lists blocks rows_quantized;
      probes = probes;
    }

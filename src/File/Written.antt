-- ===== src/File/Written.antt =====
-- What `writeIVFQuantizedIndex` writes, `loadBinaryIndexHeap` reads.
use heindall.Prelude.{
  ℕ, ◌+◌, ◌-◌, ◌*◌, ◌%◌, ◌<◌, ◌≡◌, refl, sym, ap, ◌∙◌, ◌==◌, bit_and, Bool, true, false, Bool-cases,
  if◌then◌else◌, ltb, leb, ◌&&◌, List, [], ◌∷◌, ◌++◌, some, inl, inr, length, arith,
}
use heindall.Prelude.Int.{ℤ, pos, leb_ℤ, ltb_ℤ, ◌≤ℤ◌}
use heindall.Quantized.{
  QuantizedIndex, IvfMetadata, dimensions, ivf_block_stride, has_ivf, normalize_ivf_defaults,
  default_probes,
}
use heindall.Quantized.Defaults.{HasProbes}
use heindall.Build.Blocks.{blocks_for_rows-ceil}
use heindall.Build.{blocks_for_rows, new_ivf_quantized_index, offset}
use heindall.Load.{validate_ivf_offsets}
use heindall.File.Bytes.{
  bad_cluster_count, raise, take_bytes, read_int16s, read_uint32s, int16s_bytes, uint32s_bytes,
  bind-inr, take_bytes-append, read_int16s-bytes, read_uint32s-bytes,
}
use heindall.File.{
  BinaryHeader, read_binary_header, read_ivf_header, header_bytes, ivf_header_bytes,
  complete_centroid_blocks, file_bytes, write_ivf_quantized_index,
}
use heindall.File.Heap.{
  metadata_of, index_of, raise_offsets, read_centroid_blocks, read_block_offsets, read_pad,
  read_rows, read_behind_tables, read_tables, load_ivf_binary_index_heap, loaded,
  load_binary_index_heap,
}
use heindall.File.Headers.{
  IsWritable, plain, flag_bit, ivf_header_of, read_binary_header-bytes, read_ivf_header-bytes,
}

-- Parameters in range stay.
default_probes_same :
    (clusters : ℕ) (n a : ℤ)
    → pos 1 ≤ℤ n
    → n ≤ℤ a
    → a ≤ℤ pos clusters
    → default_probes clusters n a ≡ (n, a)
unfolding default_probes
default_probes_same clusters n a h k l =
    let e1 : leb_ℤ n (pos 0) ≡ false = ground arith in
    let e2 : leb_ℤ a (pos 0) ≡ false = ground arith in
    let e3 : ltb_ℤ (pos clusters) n ≡ false = ground arith in
    let e4 : ltb_ℤ a n ≡ false = ground arith in
    let e5 : ltb_ℤ (pos clusters) a ≡ false = ground arith in rw (e1, e2, e3, e4, e5) refl

normalize-same : (idx : QuantizedIndex) → HasProbes idx → normalize_ivf_defaults idx ≡ idx
unfolding normalize_ivf_defaults
normalize-same idx p = elim (Bool-cases (has_ivf idx)) [
  | inl e ↦
      rw
        (
          e,
          default_probes_same idx.ivf.clusters idx.ivf.nprobe idx.ivf.ambiguous_nprobe p.positive
              p.ordered p.bounded,
        )
        refl
  | inr e ↦ rw e refl
]

-- Centroid blocks that are there stay.
index_of-same :
    (labels : List ℕ) (blocks : List ℤ) (ivf : IvfMetadata)
    → 0 < length ivf.centroid_blocks
    → HasProbes (record { vectors = []; blocks = []; labels = labels; ivf = ivf })
    → index_of [] labels blocks ivf
      ≡ record { vectors = []; blocks = blocks; labels = labels; ivf = ivf }
unfolding index_of new_ivf_quantized_index
index_of-same labels blocks ivf there p =
    let has : (ltb 0 ivf.clusters
          && leb (ivf.clusters * dimensions) (length ivf.centroids)
          && (length ivf.centroid_blocks == 0))
        ≡ false =
      ground arith in
    rw (has, normalize-same (record { vectors = []; blocks = []; labels = labels; ivf = ivf }) p)
      refl

-- An odd number of labels has a byte behind it.
abbrev pad_of : ℕ → List ℕ
pad_of count = if count % 2 == 0 then [] else 0 ∷ []

read_pad-bytes :
    (count : ℕ) (rest : List ℕ) → read_pad count (pad_of count ++ rest) ≡ inr (pad_of count, rest)
read_pad-bytes count rest = elim (Bool-cases (count % 2 == 0)) [
  | inl e ↦ rw e refl
  | inr e ↦ rw e (take_bytes-append (0 ∷ []) rest 1 refl)
]

whole : (bytes : List ℕ) → bytes ++ [] ≡ bytes
whole [] = refl
whole (b ∷ bytes) = ap (◌∷◌ b) (whole bytes)

module _ (idx : QuantizedIndex) (w : IsWritable idx) where
  abbrev count : ℕ
  count = length idx.labels

  abbrev header : BinaryHeader
  header = record { version = 4; count = count }

  rows_bytes : List ℕ
  rows_bytes = idx.labels ++ (pad_of count ++ int16s_bytes idx.blocks)

  read_rows-bytes :
      read_rows 4 count (offset idx.ivf.block_offsets idx.ivf.clusters) rows_bytes
      ≡ inr (([], idx.labels, idx.blocks), [])
  unfolding read_rows rows_bytes
  read_rows-bytes =
      bind-inr (take_bytes count) _ (idx.labels ++ (pad_of count ++ int16s_bytes idx.blocks))
        (pad_of count ++ int16s_bytes idx.blocks) idx.labels
        (take_bytes-append idx.labels (pad_of count ++ int16s_bytes idx.blocks) count refl)
      ∙ bind-inr (read_pad count) _ (pad_of count ++ int16s_bytes idx.blocks)
          (int16s_bytes idx.blocks) (pad_of count) (read_pad-bytes count (int16s_bytes idx.blocks))
      ∙ bind-inr (read_int16s (offset idx.ivf.block_offsets idx.ivf.clusters * ivf_block_stride)) _
          (int16s_bytes idx.blocks) [] idx.blocks
          (rw (← whole (int16s_bytes idx.blocks))
            (read_int16s-bytes idx.blocks [] _ w.blocks_fit w.blocks))

  abbrev kept : IvfMetadata
  kept =
      metadata_of (ivf_header_of idx) idx.ivf.centroids idx.ivf.centroid_blocks idx.ivf.list_offsets
        (some idx.ivf.block_offsets) idx.ivf.bbox_min idx.ivf.bbox_max idx.ivf.orig_ids

  kept_same : kept ≡ idx.ivf
  kept_same =
      let p = w.probes in
      let o = p.ordered in
      let one = p.positive in
      let (none_n, is_n) = plain idx.ivf.nprobe (omega arith) in
      let (none_a, is_a) = plain idx.ivf.ambiguous_nprobe (omega arith) in
      rw (← is_n, ← is_a, flag_same idx.ivf.repair) refl
    where
      flag_same : (b : Bool) → (bit_and (flag_bit b) 1 == 1) ≡ b
      flag_same true = refl
      flag_same false = refl

  -- The index as it is read back.
  abbrev reread : QuantizedIndex
  reread = record idx { vectors = [] }

  index_of-kept : index_of [] idx.labels idx.blocks kept ≡ reread
  index_of-kept =
      let b = w.centroid_blocks in
      let c = w.some_cluster in
      let there : 0 < length idx.ivf.centroid_blocks =
        omega (arith, blocks_for_rows-ceil idx.ivf.clusters) in
      let p = w.probes in
      rw kept_same (
        index_of-same idx.labels idx.blocks idx.ivf there
          (record { positive = p.positive; ordered = p.ordered; bounded = p.bounded }))

  behind_bytes : List ℕ
  behind_bytes =
      int16s_bytes idx.ivf.bbox_min
      ++ (int16s_bytes idx.ivf.bbox_max ++ (uint32s_bytes idx.ivf.orig_ids ++ rows_bytes))

  last_block : length idx.ivf.block_offsets - 1 ≡ idx.ivf.clusters
  last_block = omega (arith, w.block_table)

  read_behind_tables-bytes :
      read_behind_tables header
        (ivf_header_of idx)
        idx.ivf.centroids
        idx.ivf.centroid_blocks
        idx.ivf.list_offsets
        (some idx.ivf.block_offsets)
        behind_bytes
      ≡ inr (reread, [])
  unfolding read_behind_tables behind_bytes
  read_behind_tables-bytes =
      let n = idx.ivf.clusters * dimensions in
      let low = int16s_bytes idx.ivf.bbox_min in
      let high = int16s_bytes idx.ivf.bbox_max in
      let ids = uint32s_bytes idx.ivf.orig_ids in
      bind-inr (read_int16s n) _ (low ++ (high ++ (ids ++ rows_bytes)))
        (high ++ (ids ++ rows_bytes)) idx.ivf.bbox_min
        (read_int16s-bytes idx.ivf.bbox_min (high ++ (ids ++ rows_bytes)) n w.low_fit w.low)
      ∙ bind-inr (read_int16s n) _ (high ++ (ids ++ rows_bytes)) (ids ++ rows_bytes)
          idx.ivf.bbox_max
          (read_int16s-bytes idx.ivf.bbox_max (ids ++ rows_bytes) n w.high_fit w.high)
      ∙ bind-inr (read_uint32s count) _ (ids ++ rows_bytes) rows_bytes idx.ivf.orig_ids
          (read_uint32s-bytes idx.ivf.orig_ids rows_bytes count w.ids_fit w.ids)
      ∙ bind-inr
          (read_rows 4 count (offset idx.ivf.block_offsets (length idx.ivf.block_offsets - 1))) _
          rows_bytes [] ([], idx.labels, idx.blocks) (rw last_block read_rows-bytes)
      ∙ ap (λ i. inr (i, [])) index_of-kept

  table_bytes : List ℕ
  table_bytes =
      int16s_bytes idx.ivf.centroids
      ++ (int16s_bytes idx.ivf.centroid_blocks
          ++ (uint32s_bytes idx.ivf.list_offsets
              ++ (uint32s_bytes idx.ivf.block_offsets ++ behind_bytes)))

  read_tables-bytes : read_tables header (ivf_header_of idx) table_bytes ≡ inr (reread, [])
  unfolding read_tables table_bytes
  read_tables-bytes =
      let clusters = idx.ivf.clusters in
      let lists = uint32s_bytes idx.ivf.list_offsets in
      let table = uint32s_bytes idx.ivf.block_offsets in
      let behind_lists = table ++ behind_bytes in
      let transposed = int16s_bytes idx.ivf.centroid_blocks in
      bind-inr (read_int16s (clusters * dimensions)) _
        (int16s_bytes idx.ivf.centroids ++ (transposed ++ (lists ++ behind_lists)))
        (transposed ++ (lists ++ behind_lists)) idx.ivf.centroids
        (read_int16s-bytes idx.ivf.centroids (transposed ++ (lists ++ behind_lists))
          (clusters * dimensions) w.centroids_fit w.centroids)
      ∙ bind-inr (read_centroid_blocks 4 clusters) _ (transposed ++ (lists ++ behind_lists))
          (lists ++ behind_lists) idx.ivf.centroid_blocks
          (read_int16s-bytes idx.ivf.centroid_blocks (lists ++ behind_lists)
            (blocks_for_rows clusters * ivf_block_stride) w.centroid_blocks_fit w.centroid_blocks)
      ∙ bind-inr (read_uint32s (clusters + 1)) _ (lists ++ behind_lists) behind_lists
          idx.ivf.list_offsets
          (read_uint32s-bytes idx.ivf.list_offsets behind_lists (clusters + 1) w.lists_fit w.lists)
      ∙ bind-inr (read_block_offsets 4 clusters) _ behind_lists behind_bytes
          (some idx.ivf.block_offsets)
          (bind-inr (read_uint32s (clusters + 1)) _ behind_lists behind_bytes idx.ivf.block_offsets
            (read_uint32s-bytes idx.ivf.block_offsets behind_bytes (clusters + 1) w.block_table_fit
              w.block_table))
      ∙ bind-inr
          (raise_offsets
            (validate_ivf_offsets count clusters idx.ivf.list_offsets (some idx.ivf.block_offsets)))
          _ behind_bytes behind_bytes true (rw w.offsets refl)
      ∙ read_behind_tables-bytes

  load_bytes :
      load_binary_index_heap (header_bytes count ++ (ivf_header_bytes idx ++ table_bytes))
      ≡ inr reread
  unfolding load_binary_index_heap load_ivf_binary_index_heap
  load_bytes =
      let positive = w.some_cluster in
      let has : (idx.ivf.clusters == 0) ≡ false = ground arith in
      ap loaded {y = inr (reread, [])} (
        bind-inr read_binary_header load_ivf_binary_index_heap
          (header_bytes count ++ (ivf_header_bytes idx ++ table_bytes))
          (ivf_header_bytes idx ++ table_bytes) header
          (read_binary_header-bytes count (ivf_header_bytes idx ++ table_bytes) w.rows)
        ∙ bind-inr read_ivf_header
            (λ ih. if ih.clusters == 0 then raise bad_cluster_count else read_tables header ih)
            (ivf_header_bytes idx ++ table_bytes) table_bytes (ivf_header_of idx)
            (read_ivf_header-bytes idx table_bytes w.few w.probes)
        ∙ ap
            (λ (b : Bool).
              (if b
                  then raise {A = QuantizedIndex} bad_cluster_count
                  else read_tables header (ivf_header_of idx))
                table_bytes)
            has
        ∙ read_tables-bytes)

  complete-same :
      (len : ℕ) → length idx.ivf.centroid_blocks ≡ len → complete_centroid_blocks idx len ≡ idx
  unfolding complete_centroid_blocks
  complete-same len e =
      let full : (ltb 0 idx.ivf.clusters
            && (leb (idx.ivf.clusters * dimensions) (length idx.ivf.centroids)
                && ltb (length idx.ivf.centroid_blocks) len))
          ≡ false =
        ground arith in
      rw full refl

  file_bytes-same :
      (len : ℕ)
      → length idx.ivf.centroid_blocks ≡ len
      → file_bytes idx len ≡ header_bytes count ++ (ivf_header_bytes idx ++ table_bytes)
  unfolding file_bytes table_bytes behind_bytes rows_bytes
  file_bytes-same len e =
      let uncut : ltb len (length idx.ivf.centroid_blocks) ≡ false = ground arith in rw uncut refl

  write-bytes :
      write_ivf_quantized_index idx
      ≡ (idx, header_bytes count ++ (ivf_header_bytes idx ++ table_bytes))
  unfolding write_ivf_quantized_index
  write-bytes =
      let some_cluster = w.some_cluster in
      let has : ltb 0 idx.ivf.clusters ≡ true = ground arith in
      let len =
        if ltb 0 idx.ivf.clusters then blocks_for_rows idx.ivf.clusters * ivf_block_stride else 0 in
      let e : length idx.ivf.centroid_blocks ≡ len =
        w.centroid_blocks
        ∙ ap (λ (b : Bool). if b then blocks_for_rows idx.ivf.clusters * ivf_block_stride else 0)
            (sym has) in
      ap (λ i. (i, file_bytes i len)) (complete-same len e)
      ∙ ap (λ f. (idx, f)) (file_bytes-same len e)

-- For an index whose arrays have the lengths of the format and whose values fit it (`IsWritable`),
-- `loadBinaryIndexHeap` reads back from the file that `writeIVFQuantizedIndex` writes the same
-- index, without the vectors, which the format leaves out.
pub load_binary_index_heap-write_ivf_quantized_index :
    (idx : QuantizedIndex)
    → IsWritable idx
    → load_binary_index_heap (write_ivf_quantized_index idx).1 ≡ inr (record idx { vectors = [] })
load_binary_index_heap-write_ivf_quantized_index idx w =
    ap (λ r. load_binary_index_heap r.1) (write-bytes idx w) ∙ load_bytes idx w

pub read_binary_header-written :
    (idx : QuantizedIndex)
    → IsWritable idx
    → (rest : List ℕ) × (read_binary_header (write_ivf_quantized_index idx).1
        ≡ inr (record { version = 4; count = length idx.labels }, rest))
read_binary_header-written idx w = (
  ivf_header_bytes idx ++ table_bytes idx w,
  ap (λ r. read_binary_header r.1) (write-bytes idx w)
      ∙ read_binary_header-bytes (length idx.labels) (ivf_header_bytes idx ++ table_bytes idx w)
          w.rows,
)

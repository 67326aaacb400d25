-- ===== src/File/Heap.antt =====
-- `loadBinaryIndexHeap` and `loadIVFBinaryIndexHeap` in binary_index.go.
use heindall.Prelude.{
  ℕ, ◌+◌, ◌-◌, ◌*◌, ◌%◌, ◌==◌, bit_and, Bool, true, if◌then◌else◌, ltb, List, [], Option, none,
  some, ◌⊎◌, inl, inr, length,
}
use heindall.Prelude.Int.{ℤ, pos}
use heindall.Quantized.{QuantizedIndex, IvfMetadata, dimensions, ivf_block_stride}
use heindall.Build.{blocks_for_rows, new_ivf_quantized_index, offset}
use heindall.Load.{OffsetError, validate_ivf_offsets}
use heindall.File.Bytes.{
  LoadError, bad_cluster_count, bad_offsets, Reader, ◌>>=◌, ◌>>◌, return, raise, take_bytes,
  read_int16s, read_uint32s,
}
use heindall.File.{BinaryHeader, IvfBinaryHeader, read_binary_header, read_ivf_header}

-- `blockOffsets`; `nil` is empty.
abbrev pub table_of : Option (List ℕ) → List ℕ
table_of none = []
table_of (some table) = table

-- The number of the last entry.
abbrev pub block_count : Option (List ℕ) → ℕ
block_count blocks = offset (table_of blocks) (length (table_of blocks) - 1)

-- `IVFMetadata{...}`; `NProbe` and `AmbiguousNProbe` are not negative.
abbrev pub metadata_of :
    IvfBinaryHeader
    → List ℤ
    → List ℤ
    → List ℕ
    → Option (List ℕ)
    → List ℤ
    → List ℤ
    → List ℕ
    → IvfMetadata
metadata_of ih centroids centroid_blocks lists blocks low high ids = record {
  clusters = ih.clusters;
  centroids = centroids;
  centroid_blocks = centroid_blocks;
  list_offsets = lists;
  block_offsets = table_of blocks;
  bbox_min = low;
  bbox_max = high;
  orig_ids = ids;
  nprobe = pos ih.nprobe;
  ambiguous_nprobe = pos ih.ambiguous_nprobe;
  repair = bit_and ih.flags 1 == 1;
}

-- `idx := NewIVFQuantizedIndex(vectors, labels, ...)` and `idx.Blocks = blocks`.
unfoldable pub index_of : List ℤ → List ℕ → List ℤ → IvfMetadata → QuantizedIndex
unfolding new_ivf_quantized_index
index_of vectors labels blocks ivf = record (new_ivf_quantized_index vectors labels ivf) {
  blocks = blocks;
}

abbrev pub raise_offsets : Option OffsetError → Reader Bool
raise_offsets none = return true
raise_offsets (some e) = raise (bad_offsets e)

abbrev pub read_centroid_blocks : ℕ → ℕ → Reader (List ℤ)
read_centroid_blocks version clusters =
    if ltb version 4 then return [] else read_int16s (blocks_for_rows clusters * ivf_block_stride)

abbrev pub read_block_offsets : ℕ → ℕ → Reader (Option (List ℕ))
read_block_offsets version clusters =
    if ltb version 3
    then return none
    else do table ← read_uint32s (clusters + 1); return (some table)

-- The byte behind an odd number of labels.
abbrev pub read_pad : ℕ → Reader (List ℕ)
read_pad count = if count % 2 == 0 then return [] else take_bytes 1

-- Vectors, labels and blocks, in the order of the version.
unfoldable pub read_rows : ℕ → ℕ → ℕ → Reader (List ℤ × List ℕ × List ℤ)
unfolding take_bytes read_int16s
read_rows version count block_count =
    if ltb version 3
    then (do
      vectors ← read_int16s (count * dimensions)
      labels ← take_bytes count
      return (vectors, labels, []))
    else (do
      labels ← take_bytes count
      read_pad count
      blocks ← read_int16s (block_count * ivf_block_stride)
      return ([], labels, blocks))

-- The part behind the check of the offsets.
unfoldable pub read_behind_tables :
    BinaryHeader
    → IvfBinaryHeader
    → List ℤ
    → List ℤ
    → List ℕ
    → Option (List ℕ)
    → Reader QuantizedIndex
unfolding read_int16s read_uint32s read_rows index_of
read_behind_tables header ih centroids centroid_blocks lists blocks = do
  low ← read_int16s (ih.clusters * dimensions)
  high ← read_int16s (ih.clusters * dimensions)
  ids ← read_uint32s header.count
  (vectors, labels, rows) ← read_rows header.version header.count (block_count blocks)
  return (
      index_of vectors labels rows
        (metadata_of ih centroids centroid_blocks lists blocks low high ids))

-- The part behind the cluster count.
unfoldable pub read_tables : BinaryHeader → IvfBinaryHeader → Reader QuantizedIndex
unfolding read_int16s read_uint32s validate_ivf_offsets read_behind_tables
read_tables header ih = do
  centroids ← read_int16s (ih.clusters * dimensions)
  centroid_blocks ← read_centroid_blocks header.version ih.clusters
  lists ← read_uint32s (ih.clusters + 1)
  blocks ← read_block_offsets header.version ih.clusters
  raise_offsets (validate_ivf_offsets header.count ih.clusters lists blocks)
  read_behind_tables header ih centroids centroid_blocks lists blocks

unfoldable pub load_ivf_binary_index_heap : BinaryHeader → Reader QuantizedIndex
unfolding read_ivf_header read_tables
load_ivf_binary_index_heap header = do
  ih ← read_ivf_header
  if ih.clusters == 0 then raise bad_cluster_count else read_tables header ih

-- What is left of the file is not looked at.
abbrev pub loaded : {A : Type 0} → LoadError ⊎ (A × List ℕ) → LoadError ⊎ A
loaded (inl e) = inl e
loaded (inr (a, rest)) = inr a

unfoldable pub load_binary_index_heap : List ℕ → LoadError ⊎ QuantizedIndex
unfolding read_binary_header load_ivf_binary_index_heap
load_binary_index_heap file =
    loaded ((do header ← read_binary_header; load_ivf_binary_index_heap header) file)

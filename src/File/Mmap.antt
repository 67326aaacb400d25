-- ===== src/File/Mmap.antt =====
-- `loadBinaryIndex` and `loadIVFBinaryIndexMmap` in binary_index_linux.go. The outer `none` is a
-- panic, or a slice that leaves the mapping. The advice to the kernel and the unmapping of a file
-- that is refused are left out.
pub mod Reads
pub mod Rows
pub mod Slices
pub mod Agreement
pub mod Behind
pub mod Both
pub mod Loaded
use heindall.Prelude.{
  ℕ, ◌+◌, ◌-◌, ◌*◌, ◌%◌, ◌==◌, Bool, true, false, ◌&&◌, not, if◌then◌else◌, ltb, leb, List, [], ◌∷◌,
  Option, none, some, ◌⊎◌, inl, inr, length, take, drop, ◌>>=◌,
}
use heindall.Prelude.Int.{ℤ, pos}
use heindall.Quantized.{QuantizedIndex, dimensions, ivf_block_stride}
use heindall.Build.{blocks_for_rows, offset}
use heindall.Load.{OffsetError, validate_ivf_offsets}
use heindall.File.Bytes.{LoadError, truncated, bad_cluster_count, bad_offsets, int16s, uint32s}
use heindall.File.{BinaryHeader, IvfBinaryHeader, read_binary_header}
use heindall.File.Heap.{metadata_of, index_of, block_count}

abbrev pub Mapped : Type 0 → Type 0
Mapped A = Option (LoadError ⊎ A)

-- `unsafe.Slice((*int16)(unsafe.Pointer(&data[pos])), n)`
abbrev pub slice_int16 : List ℕ → ℕ → ℕ → Option (List ℤ)
slice_int16 bytes at n =
    if ltb at (length bytes) && leb (at + n * 2) (length bytes)
    then some (int16s n (drop at bytes))
    else none

abbrev pub slice_uint32 : List ℕ → ℕ → ℕ → Option (List ℕ)
slice_uint32 bytes at n =
    if ltb at (length bytes) && leb (at + n * 4) (length bytes)
    then some (uint32s n (drop at bytes))
    else none

-- `data[pos : pos+n]`
abbrev pub slice_bytes : List ℕ → ℕ → ℕ → Option (List ℕ)
slice_bytes bytes at n = if leb (at + n) (length bytes) then some (take n (drop at bytes)) else none

-- The sizes that depend on the version.
abbrev pub centroid_block_bytes : ℕ → ℕ → ℕ
centroid_block_bytes version clusters =
    if ltb version 4 then 0 else blocks_for_rows clusters * ivf_block_stride * 2

abbrev pub block_offset_bytes : ℕ → ℕ → ℕ
block_offset_bytes version clusters = if ltb version 3 then 0 else (clusters + 1) * 4

abbrev pub label_padding : ℕ → ℕ → ℕ
label_padding version count = if not (ltb version 3) && not (count % 2 == 0) then 1 else 0

abbrev pub vector_bytes : ℕ → ℕ → ℕ
vector_bytes version count = if version == 2 then count * dimensions * 2 else 0

-- The bytes from `pos` on that the first check asks for.
abbrev pub needed_bytes : BinaryHeader → IvfBinaryHeader → ℕ
needed_bytes header ih =
    let clusters = ih.clusters in
    clusters * dimensions * 2
    + centroid_block_bytes header.version clusters
    + (clusters + 1) * 4
    + block_offset_bytes header.version clusters
    + clusters * dimensions * 2
    + clusters * dimensions * 2
    + header.count * 4
    + vector_bytes header.version header.count
    + header.count
    + label_padding header.version header.count

abbrev pub slice_centroid_blocks : List ℕ → ℕ → ℕ → ℕ → Option (List ℤ)
slice_centroid_blocks bytes at version clusters =
    if ltb version 4
    then some []
    else slice_int16 bytes at (blocks_for_rows clusters * ivf_block_stride)

abbrev pub slice_block_offsets : List ℕ → ℕ → ℕ → ℕ → Option (Option (List ℕ))
slice_block_offsets bytes at version clusters =
    if ltb version 3
    then some none
    else (do table ← slice_uint32 bytes at (clusters + 1); some (some table))

abbrev pub slice_vectors : List ℕ → ℕ → ℕ → ℕ → Option (List ℤ)
slice_vectors bytes at version count =
    if version == 2 then slice_int16 bytes at (count * dimensions) else some []

-- The blocks, behind the second check of the length.
abbrev pub map_blocks : List ℕ → ℕ → ℕ → ℕ → Mapped (List ℤ)
map_blocks bytes at version count =
    if ltb version 3
    then some (inr [])
    else if ltb (length bytes) (at + count * ivf_block_stride * 2)
    then some (inl truncated)
    else (do blocks ← slice_int16 bytes at (count * ivf_block_stride); some (inr blocks))

abbrev pub map_value : {A B : Type 0} → (A → B) → LoadError ⊎ A → LoadError ⊎ B
map_value f (inl e) = inl e
map_value f (inr a) = inr (f a)

-- The part behind the check of the offsets, from `at` on.
unfoldable pub map_behind_tables :
    List ℕ
    → BinaryHeader
    → IvfBinaryHeader
    → ℕ
    → List ℤ
    → List ℤ
    → List ℕ
    → Option (List ℕ)
    → Mapped QuantizedIndex
unfolding index_of
map_behind_tables bytes header ih at centroids transposed lists blocks = do
  low ← slice_int16 bytes at (ih.clusters * dimensions)
  let at_high = at + ih.clusters * dimensions * 2
  high ← slice_int16 bytes at_high (ih.clusters * dimensions)
  let at_ids = at_high + ih.clusters * dimensions * 2
  ids ← slice_uint32 bytes at_ids header.count
  let at_vectors = at_ids + header.count * 4
  vectors ← slice_vectors bytes at_vectors header.version header.count
  let at_labels = at_vectors + vector_bytes header.version header.count
  labels ← slice_bytes bytes at_labels header.count
  let at_blocks = at_labels + header.count + label_padding header.version header.count
  rows ← map_blocks bytes at_blocks header.version (block_count blocks)
  some (
      map_value
        (λ r.
          index_of vectors labels r (metadata_of ih centroids transposed lists blocks low high ids))
        rows)

-- The part behind the first check of the length, from `at` on.
unfoldable pub map_tables : List ℕ → BinaryHeader → IvfBinaryHeader → ℕ → Mapped QuantizedIndex
unfolding map_behind_tables validate_ivf_offsets
map_tables bytes header ih at = do
  centroids ← slice_int16 bytes at (ih.clusters * dimensions)
  let at_transposed = at + ih.clusters * dimensions * 2
  transposed ← slice_centroid_blocks bytes at_transposed header.version ih.clusters
  let at_lists = at_transposed + centroid_block_bytes header.version ih.clusters
  lists ← slice_uint32 bytes at_lists (ih.clusters + 1)
  let at_blocks = at_lists + (ih.clusters + 1) * 4
  blocks ← slice_block_offsets bytes at_blocks header.version ih.clusters
  let at_behind = at_blocks + block_offset_bytes header.version ih.clusters
  elim (validate_ivf_offsets header.count ih.clusters lists blocks) [
    | some e ↦ some (inl (bad_offsets e))
    | none ↦ map_behind_tables bytes header ih at_behind centroids transposed lists blocks
  ]

-- The second header stands behind the 24 bytes of the first.
abbrev pub ivf_header_at : List ℕ → IvfBinaryHeader
ivf_header_at bytes =
    let fields = uint32s 4 (drop 24 bytes) in
    record {
      clusters = offset fields 0;
      nprobe = offset fields 1;
      ambiguous_nprobe = offset fields 2;
      flags = offset fields 3;
    }

unfoldable pub load_ivf_binary_index_mmap : List ℕ → BinaryHeader → Mapped QuantizedIndex
unfolding map_tables
load_ivf_binary_index_mmap bytes header =
    let ih = ivf_header_at bytes in
    if ltb (length bytes) 40
    then some (inl truncated)
    else if ih.clusters == 0
    then some (inl bad_cluster_count)
    else if ltb (length bytes) (40 + needed_bytes header ih)
    then some (inl truncated)
    else map_tables bytes header ih 40

-- `loadBinaryIndex` reads the header from the file, and the rest from its mapping.
unfoldable pub map_from : List ℕ → LoadError ⊎ (BinaryHeader × List ℕ) → Mapped QuantizedIndex
unfolding load_ivf_binary_index_mmap
map_from file (inl e) = some (inl e)
map_from file (inr (header, rest)) = load_ivf_binary_index_mmap file header

unfoldable pub load_binary_index : List ℕ → Mapped QuantizedIndex
unfolding read_binary_header map_from
load_binary_index file = map_from file (read_binary_header file)

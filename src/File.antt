-- ===== src/File.antt =====
-- apps/api/internal/fraud/binary_index.go: the index file. A file is the list of its bytes, and
-- errors of the operating system are left out; `encoding/binary` is in File/Bytes.
pub mod Bytes
pub mod Heap
pub mod Headers
pub mod Written
pub mod Mmap
use heindall.Prelude.{
  ℕ, ◌+◌, ◌-◌, ◌*◌, ◌%◌, ◌^◌, ◌==◌, bit_and, Bool, true, false, not, ◌&&◌, ◌||◌, if◌then◌else◌, ltb,
  leb, List, [], ◌∷◌, ◌++◌, Option, none, some, ◌⊎◌, inl, inr, length, take,
}
use heindall.Prelude.Int.{ℤ, pos, neg_part, pos_part}
use heindall.Quantized.{QuantizedIndex, dimensions, quant_scale, ivf_block_stride}
use heindall.Quantize.{same_bytes}
use heindall.Build.{blocks_for_rows, build_centroid_blocks, new_ivf_quantized_index, offset}
use heindall.Load.{OffsetError, validate_ivf_offsets}
use heindall.File.Bytes.{
  LoadError, unsupported_format, unsupported_version, bad_cluster_count, bad_offsets, Reader, ◌>>=◌,
  ◌>>◌, return, raise, take_bytes, read_int16s, read_uint32s, int16s_bytes, uint32_bytes,
  uint32s_bytes,
}

-- "HNDX2026"
abbrev pub binary_magic : List ℕ
binary_magic = 72 ∷ 78 ∷ 68 ∷ 88 ∷ 50 ∷ 48 ∷ 50 ∷ 54 ∷ []

abbrev pub current_binary_index_version : ℕ
current_binary_index_version = 4

-- The fields behind the checks of `readBinaryHeader`.
pub record BinaryHeader : Type 0 where
  pub version : ℕ
  pub count : ℕ

pub record IvfBinaryHeader : Type 0 where
  pub clusters : ℕ
  pub nprobe : ℕ
  pub ambiguous_nprobe : ℕ
  pub flags : ℕ

-- The conversion of an `int` to `uint32`.
abbrev pub to_uint32 : ℤ → ℕ
to_uint32 z = (pos_part z % 2 ^ 32 + (2 ^ 32 - neg_part z % 2 ^ 32)) % 2 ^ 32

abbrev pub header_bytes : ℕ → List ℕ
header_bytes count =
    binary_magic
    ++ uint32s_bytes
        (current_binary_index_version ∷ dimensions ∷ quant_scale ∷ (count % 2 ^ 32) ∷ [])

abbrev pub ivf_header_bytes : QuantizedIndex → List ℕ
ivf_header_bytes idx = uint32s_bytes (
    (idx.ivf.clusters % 2 ^ 32)
    ∷ to_uint32 idx.ivf.nprobe
    ∷ to_uint32 idx.ivf.ambiguous_nprobe
    ∷ (if idx.ivf.repair then 1 else 0)
    ∷ [])

-- The first part of `writeIVFQuantizedIndex`: it may set the transposed centroids of the index.
unfoldable pub complete_centroid_blocks : QuantizedIndex → ℕ → QuantizedIndex
unfolding build_centroid_blocks
complete_centroid_blocks idx block_len =
    if ltb 0 idx.ivf.clusters
      && (leb (idx.ivf.clusters * dimensions) (length idx.ivf.centroids)
          && ltb (length idx.ivf.centroid_blocks) block_len)
    then record idx {
      ivf = record (idx.ivf) {
        centroid_blocks = build_centroid_blocks idx.ivf.centroids idx.ivf.clusters;
      };
    }
    else idx

-- The file, for the number of transposed centroids.
unfoldable pub file_bytes : QuantizedIndex → ℕ → List ℕ
file_bytes idx block_len =
    let transposed = idx.ivf.centroid_blocks in
    let cut = if ltb block_len (length transposed) then take block_len transposed else transposed in
    let pad : List ℕ = if length idx.labels % 2 == 0 then [] else 0 ∷ [] in
    header_bytes (length idx.labels)
    ++ (ivf_header_bytes idx
        ++ (int16s_bytes idx.ivf.centroids
            ++ (int16s_bytes cut
                ++ (uint32s_bytes idx.ivf.list_offsets
                    ++ (uint32s_bytes idx.ivf.block_offsets
                        ++ (int16s_bytes idx.ivf.bbox_min
                            ++ (int16s_bytes idx.ivf.bbox_max
                                ++ (uint32s_bytes idx.ivf.orig_ids
                                    ++ (idx.labels ++ (pad ++ int16s_bytes idx.blocks))))))))))

-- `writeIVFQuantizedIndex`: the index that it leaves, and the file.
unfoldable pub write_ivf_quantized_index : QuantizedIndex → QuantizedIndex × List ℕ
unfolding complete_centroid_blocks file_bytes
write_ivf_quantized_index given =
    let block_len =
      if ltb 0 given.ivf.clusters
      then blocks_for_rows given.ivf.clusters * ivf_block_stride
      else 0 in
    let idx = complete_centroid_blocks given block_len in (idx, file_bytes idx block_len)

-- `readBinaryHeader`
unfoldable pub read_binary_header : Reader BinaryHeader
unfolding take_bytes read_uint32s
read_binary_header = do
  magic ← take_bytes 8
  fields ← read_uint32s 4
  if not (same_bytes magic binary_magic)
        || (not (offset fields 1 == dimensions) || not (offset fields 2 == quant_scale))
      then raise unsupported_format
      else if not (offset fields 0 == 2)
          && (not (offset fields 0 == 3) && not (offset fields 0 == 4))
      then raise unsupported_version
      else return (record { version = offset fields 0; count = offset fields 3 })

unfoldable pub read_ivf_header : Reader IvfBinaryHeader
unfolding read_uint32s
read_ivf_header = do
  fields ← read_uint32s 4
  return (record {
    clusters = offset fields 0;
    nprobe = offset fields 1;
    ambiguous_nprobe = offset fields 2;
    flags = offset fields 3;
  })

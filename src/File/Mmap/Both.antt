-- ===== src/File/Mmap/Both.antt =====
-- The two loaders agree on a file.
use mathlib.Core.Path.{subst}
use heindall.Prelude.{
  ℕ, ◌+◌, ◌-◌, ◌*◌, ◌≤◌, ◌<◌, ◌≡◌, refl, sym, ◌∙◌, false, Bool-cases, ltb, List, Option, none, some,
  ◌⊎◌, inl, inr, length, drop, arith,
}
use heindall.Prelude.Int.{ℤ}
use heindall.Quantized.{QuantizedIndex, dimensions, ivf_block_stride}
use heindall.Build.{blocks_for_rows, offset}
use heindall.Load.{OffsetError, validate_ivf_offsets}
use heindall.File.Bytes.{LoadError, bad_offsets, ◌>>◌, read_int16s, read_uint32s, int16s, uint32s}
use heindall.File.{BinaryHeader, IvfBinaryHeader}
use heindall.File.Heap.{
  block_count, raise_offsets, read_centroid_blocks, read_block_offsets, read_behind_tables,
  read_tables,
}
use heindall.File.Mmap.{
  Mapped, slice_int16, slice_uint32, slice_centroid_blocks, slice_block_offsets,
  centroid_block_bytes, block_offset_bytes, needed_bytes, map_behind_tables, map_tables,
}
use heindall.File.Mmap.Rows.{IsKnown}
use heindall.File.Mmap.Slices.{slice_int16-within, slice_uint32-within, bind-some}
use heindall.Load.Offsets.{validate_ivf_offsets_iff}
use heindall.File.Mmap.Agreement.{Agrees, Agrees-cong, both_fail}
use heindall.File.Mmap.Behind.{table_has_blocks, behind-Fails, behind-Agrees}
use heindall.File.Mmap.Reads.{
  Fails, read_int16s-Reads, read_uint32s-Reads, read_centroid_blocks-Reads,
  read_block_offsets-Reads, centroid_blocks_from, block_offsets_from, bind-Fails, bind-within,
}

slice_centroid_blocks-within :
    (file : List ℕ) (at version clusters : ℕ)
    → at < length file
    → at + centroid_block_bytes version clusters ≤ length file
    → slice_centroid_blocks file at version clusters
      ≡ some (centroid_blocks_from file version clusters at)
slice_centroid_blocks-within file at version clusters lt h = elim (Bool-cases (ltb version 4)) [
  | inl e ↦ rw e refl
  | inr e ↦
      (let h' : at + blocks_for_rows clusters * ivf_block_stride * 2 ≤ length file = rw e at h in
        rw e (slice_int16-within file at (blocks_for_rows clusters * ivf_block_stride) lt h'))
]

slice_block_offsets-within :
    (file : List ℕ) (at version clusters : ℕ)
    → at < length file
    → at + block_offset_bytes version clusters ≤ length file
    → slice_block_offsets file at version clusters
      ≡ some (block_offsets_from file version clusters at)
slice_block_offsets-within file at version clusters lt h = elim (Bool-cases (ltb version 3)) [
  | inl e ↦ rw e refl
  | inr e ↦
      (let h' : at + (clusters + 1) * 4 ≤ length file = rw e at h in
        rw e (
          bind-some (slice_uint32 file at (clusters + 1)) (λ table. some (some table))
            (uint32s (clusters + 1) (drop at file))
            (slice_uint32-within file at (clusters + 1) lt h')))
]

checked_has_blocks :
    (count clusters : ℕ) (lists table : List ℕ) (blocks : Option (List ℕ))
    → blocks ≡ some table
    → validate_ivf_offsets count clusters lists blocks ≡ none
    → 0 < count
    → 0 < block_count blocks
checked_has_blocks count clusters lists table blocks is ok many =
    let t =
      (validate_ivf_offsets_iff count clusters lists table).0
        (subst (λ b. validate_ivf_offsets count clusters lists b ≡ none) is ok) in
    let last : length table - 1 ≡ clusters = omega (arith, t.blocks_long) in
    subst (λ b. 0 < block_count b) (sym is)
      (subst (λ i. 0 < offset table i) (sym last)
        (table_has_blocks count clusters lists table t many))

module _ (file : List ℕ) (header : BinaryHeader) (ih : IvfBinaryHeader)
    (known : IsKnown header.version) (many : 0 < header.count) (some_cluster : 0 < ih.clusters)
    (at : ℕ) (le : at ≤ length file) where
  abbrev n : ℕ
  n = ih.clusters * dimensions

  abbrev version : ℕ
  version = header.version

  abbrev at_transposed : ℕ
  at_transposed = at + n * 2

  abbrev at_lists : ℕ
  at_lists = at_transposed + centroid_block_bytes version ih.clusters

  abbrev at_blocks : ℕ
  at_blocks = at_lists + (ih.clusters + 1) * 4

  abbrev at_behind : ℕ
  at_behind = at_blocks + block_offset_bytes version ih.clusters

  abbrev centroids : List ℤ
  centroids = int16s n (drop at file)

  abbrev transposed : List ℤ
  transposed = centroid_blocks_from file version ih.clusters at_transposed

  abbrev lists : List ℕ
  lists = uint32s (ih.clusters + 1) (drop at_lists file)

  abbrev blocks : Option (List ℕ)
  blocks = block_offsets_from file version ih.clusters at_blocks

  abbrev checked : Option OffsetError
  checked = validate_ivf_offsets header.count ih.clusters lists blocks

  there : checked ≡ none → ltb version 3 ≡ false → 0 < block_count blocks
  there ok late =
      checked_has_blocks header.count ih.clusters lists
        (uint32s (ih.clusters + 1) (drop at_blocks file)) blocks (rw late refl) ok many

  behind_checked-Fails :
      (v : Option OffsetError)
      → at_behind ≤ length file
      → length file < at + needed_bytes header ih
      → Fails (
          (raise_offsets v >> read_behind_tables header ih centroids transposed lists blocks)
            (drop at_behind file))
  behind_checked-Fails none le short =
      behind-Fails file header ih known many some_cluster centroids transposed lists blocks
        at_behind le (omega arith)
  behind_checked-Fails (some e) le short = (bad_offsets e, refl)

  pub tables-Fails :
      length file < at + needed_bytes header ih → Fails (read_tables header ih (drop at file))
  unfolding read_tables
  tables-Fails short =
      bind-Fails file (read_int16s n) (n * 2) (λ at. int16s n (drop at file)) _ at
        (read_int16s-Reads file n) le
        (λ h1.
          bind-Fails file (read_centroid_blocks version ih.clusters)
            (centroid_block_bytes version ih.clusters)
            (centroid_blocks_from file version ih.clusters) _ at_transposed
            (read_centroid_blocks-Reads file version ih.clusters) h1
            (λ h2.
              bind-Fails file (read_uint32s (ih.clusters + 1)) ((ih.clusters + 1) * 4)
                (λ at. uint32s (ih.clusters + 1) (drop at file)) _ at_lists
                (read_uint32s-Reads file (ih.clusters + 1)) h2
                (λ h3.
                  bind-Fails file (read_block_offsets version ih.clusters)
                    (block_offset_bytes version ih.clusters)
                    (block_offsets_from file version ih.clusters) _ at_blocks
                    (read_block_offsets-Reads file version ih.clusters) h3
                    (λ h4. behind_checked-Fails checked h4 short))))

  module _ (h : at + needed_bytes header ih ≤ length file) where
    abbrev map_checked : Option OffsetError → Mapped QuantizedIndex
    map_checked v = elim v [
      | some e ↦ some (inl (bad_offsets e))
      | none ↦ map_behind_tables file header ih at_behind centroids transposed lists blocks
    ]

    abbrev heap_checked : Option OffsetError → LoadError ⊎ (QuantizedIndex × List ℕ)
    heap_checked v =
        (raise_offsets v >> read_behind_tables header ih centroids transposed lists blocks)
          (drop at_behind file)

    heap_tables : read_tables header ih (drop at file) ≡ heap_checked checked
    unfolding read_tables
    heap_tables =
        bind-within file (read_int16s n) (n * 2) (λ at. int16s n (drop at file)) _ at
          (read_int16s-Reads file n) (omega arith)
        ∙ bind-within file (read_centroid_blocks version ih.clusters)
            (centroid_block_bytes version ih.clusters)
            (centroid_blocks_from file version ih.clusters) _ at_transposed
            (read_centroid_blocks-Reads file version ih.clusters) (omega arith)
        ∙ bind-within file (read_uint32s (ih.clusters + 1)) ((ih.clusters + 1) * 4)
            (λ at. uint32s (ih.clusters + 1) (drop at file)) _ at_lists
            (read_uint32s-Reads file (ih.clusters + 1)) (omega arith)
        ∙ bind-within file (read_block_offsets version ih.clusters)
            (block_offset_bytes version ih.clusters) (block_offsets_from file version ih.clusters) _
            at_blocks (read_block_offsets-Reads file version ih.clusters) (omega arith)

    map_tables_is : map_tables file header ih at ≡ map_checked checked
    unfolding map_tables
    map_tables_is =
        bind-some (slice_int16 file at n) _ centroids
          (slice_int16-within file at n (omega arith) (omega arith))
        ∙ bind-some (slice_centroid_blocks file at_transposed version ih.clusters) _ transposed (
            slice_centroid_blocks-within file at_transposed version ih.clusters (omega arith)
              (omega arith))
        ∙ bind-some (slice_uint32 file at_lists (ih.clusters + 1)) _ lists
            (slice_uint32-within file at_lists (ih.clusters + 1) (omega arith) (omega arith))
        ∙ bind-some (slice_block_offsets file at_blocks version ih.clusters) _ blocks (
            slice_block_offsets-within file at_blocks version ih.clusters (omega arith)
              (omega arith))

    checked-Agrees :
        (v : Option OffsetError) → checked ≡ v → Agrees (map_checked v) (heap_checked v)
    checked-Agrees none ok =
        behind-Agrees file header ih known many some_cluster centroids transposed lists blocks
          at_behind (omega arith) (there ok)
    checked-Agrees (some e) ok =
        both_fail (bad_offsets e) (heap_checked (some e)) (bad_offsets e, refl)

    pub tables-Agrees : Agrees (map_tables file header ih at) (read_tables header ih (drop at file))
    tables-Agrees =
        Agrees-cong (map_tables file header ih at) (map_checked checked)
          (read_tables header ih (drop at file)) (heap_checked checked) map_tables_is heap_tables
          (checked-Agrees checked refl)

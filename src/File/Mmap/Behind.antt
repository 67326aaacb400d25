-- ===== src/File/Mmap/Behind.antt =====
-- The two loaders agree on the parts behind the headers.
use mathlib.Core.Path.{subst}
use heindall.Prelude.{
  ℕ, zero, suc, ◌+◌, ◌-◌, ◌*◌, ◌≤◌, ◌<◌, ◌≡◌, refl, sym, ◌∙◌, false, ltb, List, Option, inl, inr,
  length, drop, arith,
}
use heindall.Prelude.Int.{ℤ}
use heindall.Quantized.{QuantizedIndex, dimensions}
use heindall.Build.{offset}
use heindall.File.Bytes.{read_int16s, read_uint32s, int16s, uint32s}
use heindall.File.{BinaryHeader, IvfBinaryHeader}
use heindall.File.Heap.{block_count, metadata_of, index_of, read_rows, read_behind_tables}
use heindall.File.Mmap.{slice_int16, slice_uint32, vector_bytes, map_behind_tables}
use heindall.File.Mmap.Rows.{read_rows-Fails_old, read_rows-Fails, row_bytes, IsKnown, heap_rows}
use heindall.File.Mmap.Slices.{slice_int16-within, slice_uint32-within, bind-some, map_rows}
use heindall.Load.Offsets.{IsTable}
use heindall.Build.Blocks.{blocks_for_rows-ceil}
use heindall.File.Mmap.Agreement.{Agrees, Agrees-cong, rows-old-Agrees, rows-new-Agrees}
use heindall.File.Mmap.Reads.{
  Fails, read_int16s-Reads, read_uint32s-Reads, bind-Fails, bind-within, bind-inl,
}

-- A checked table of an index with rows has blocks.
pub table_has_blocks :
    (count clusters : ℕ) (lists blocks : List ℕ)
    → IsTable count clusters lists blocks
    → 0 < count
    → 0 < offset blocks clusters
table_has_blocks count clusters lists blocks t many =
    omega (arith, t.lists_to, enough clusters (omega arith))
  where
    enough : (c : ℕ) → c ≤ clusters → offset lists c ≤ offset blocks c * 8
    enough zero h = omega (arith, t.lists_from)
    enough (suc c) h =
        let next : suc c ≡ c + 1 = omega arith in
        rw next (
          omega (
            arith,
            enough c (omega arith),
            t.rises c (omega arith),
            t.spans c (omega arith),
            blocks_for_rows-ceil (offset lists (c + 1) - offset lists c),
          ))

rows-Agrees :
    (file : List ℕ) (version count blocks at : ℕ) (f : List ℤ → List ℕ → List ℤ → QuantizedIndex)
    → IsKnown version
    → 0 < count
    → (ltb version 3 ≡ false → 0 < blocks)
    → at + row_bytes version count ≤ length file
    → Agrees
        (map_rows file version count blocks at f)
        (heap_rows version count blocks f (drop at file))
rows-Agrees file version count blocks at f (inl two) many there h =
    subst
      (λ v. Agrees (map_rows file v count blocks at f) (heap_rows v count blocks f (drop at file)))
      (sym two)
      (rows-old-Agrees file count blocks at f many
        (subst (λ v. at + row_bytes v count ≤ length file) two h))
rows-Agrees file version count blocks at f (inr (late, new)) many there h =
    rows-new-Agrees file count blocks at version f late new many (there late) (omega arith)

rows-Fails :
    (file : List ℕ) (version count blocks at : ℕ)
    → IsKnown version
    → at ≤ length file
    → length file < at + row_bytes version count
    → Fails (read_rows version count blocks (drop at file))
rows-Fails file version count blocks at (inl two) le short =
    subst (λ v. Fails (read_rows v count blocks (drop at file))) (sym two)
      (read_rows-Fails_old file count blocks at le
        (subst (λ v. length file < at + row_bytes v count) two short))
rows-Fails file version count blocks at (inr (late, new)) le short =
    read_rows-Fails file count blocks at le version late new
      (let none_old : vector_bytes version count ≡ 0 = rw (new, vector_bytes) refl in omega arith)

module _ (file : List ℕ) (header : BinaryHeader) (ih : IvfBinaryHeader)
    (known : IsKnown header.version) (many : 0 < header.count)
    (some_cluster : 0 < ih.clusters) where
  abbrev n : ℕ
  n = ih.clusters * dimensions

  abbrev count : ℕ
  count = header.count

  abbrev words : ℕ → ℕ → List ℤ
  words n at = int16s n (drop at file)

  abbrev longs : ℕ → ℕ → List ℕ
  longs n at = uint32s n (drop at file)

  module _ (c t : List ℤ) (l : List ℕ) (b : Option (List ℕ)) (at : ℕ) where
    abbrev at_high : ℕ
    at_high = at + n * 2

    abbrev at_ids : ℕ
    at_ids = at_high + n * 2

    abbrev at_rows : ℕ
    at_rows = at_ids + count * 4

    pub behind-Fails :
        at ≤ length file
        → length file < at + n * 2 + n * 2 + count * 4 + row_bytes header.version count
        → Fails (read_behind_tables header ih c t l b (drop at file))
    unfolding read_behind_tables
    behind-Fails le short =
        bind-Fails file (read_int16s n) (n * 2) (words n) _ at (read_int16s-Reads file n) le (λ h1.
          bind-Fails file (read_int16s n) (n * 2) (words n) _ at_high (read_int16s-Reads file n) h1
            (λ h2.
              bind-Fails file (read_uint32s count) (count * 4) (longs count) _ at_ids
                (read_uint32s-Reads file count) h2
                (λ h3.
                  bind-inl file (read_rows header.version count (block_count b)) _
                    (drop at_rows file)
                    (rows-Fails file header.version count (block_count b) at_rows known h3 short))))

    abbrev made : List ℤ → List ℕ → List ℤ → QuantizedIndex
    made vectors labels rows =
        index_of vectors labels rows
          (metadata_of ih c t l b (words n at) (words n at_high) (longs count at_ids))

    module _
        (h : at + n * 2 + n * 2 + count * 4 + row_bytes header.version count ≤ length file) where
      heap_behind :
          read_behind_tables header ih c t l b (drop at file)
          ≡ heap_rows header.version count (block_count b) made (drop at_rows file)
      unfolding read_behind_tables
      heap_behind =
          bind-within file (read_int16s n) (n * 2) (words n) _ at (read_int16s-Reads file n)
            (omega arith)
          ∙ bind-within file (read_int16s n) (n * 2) (words n) _ at_high (read_int16s-Reads file n)
              (omega arith)
          ∙ bind-within file (read_uint32s count) (count * 4) (longs count) _ at_ids
              (read_uint32s-Reads file count) (omega arith)

      map_behind :
          map_behind_tables file header ih at c t l b
          ≡ map_rows file header.version count (block_count b) at_rows made
      unfolding map_behind_tables
      map_behind =
          bind-some (slice_int16 file at n) _ (words n at)
            (slice_int16-within file at n (omega arith) (omega arith))
          ∙ bind-some (slice_int16 file at_high n) _ (words n at_high)
              (slice_int16-within file at_high n (omega arith) (omega arith))
          ∙ bind-some (slice_uint32 file at_ids count) _ (longs count at_ids)
              (slice_uint32-within file at_ids count (omega arith) (omega arith))

      pub behind-Agrees :
          (ltb header.version 3 ≡ false → 0 < block_count b)
          → Agrees
              (map_behind_tables file header ih at c t l b)
              (read_behind_tables header ih c t l b (drop at file))
      behind-Agrees there =
          Agrees-cong (map_behind_tables file header ih at c t l b)
            (map_rows file header.version count (block_count b) at_rows made)
            (read_behind_tables header ih c t l b (drop at file))
            (heap_rows header.version count (block_count b) made (drop at_rows file)) map_behind
            heap_behind
            (rows-Agrees file header.version count (block_count b) at_rows made known many there h)

-- ===== src/File/Mmap/Rows.antt =====
-- The rows of a file, in both loaders.
use mathlib.Core.Path.{subst}
use heindall.Prelude.{
  ℕ, ◌+◌, ◌*◌, ◌%◌, ◌==◌, ◌≤◌, ◌<◌, ◌≡◌, refl, sym, ◌∙◌, false, Bool-cases, if◌then◌else◌, ltb,
  List, [], ◌⊎◌, inl, inr, length, take, drop, arith,
}
use heindall.Prelude.Int.{ℤ}
use heindall.Quantized.{QuantizedIndex, dimensions, ivf_block_stride}
use heindall.File.Bytes.{Reader, ◌>>=◌, ◌>>◌, return, take_bytes, read_int16s, int16s}
use heindall.File.Heap.{read_pad, read_rows}
use heindall.File.Mmap.{label_padding, vector_bytes}
use heindall.File.Mmap.Reads.{
  Fails, Reads, take_bytes-Reads, read_int16s-Reads, bind-Fails, bind-within, return-Reads,
}

-- The byte behind an odd number of labels, from version 3 on.
read_pad-Reads :
    (file : List ℕ) (version count : ℕ)
    → ltb version 3 ≡ false
    → Reads file
        (read_pad count)
        (label_padding version count)
        (λ at. if count % 2 == 0 then [] else take 1 (drop at file))
read_pad-Reads file version count late = elim (Bool-cases (count % 2 == 0)) [
  | inl e ↦ rw (late, e) (return-Reads file [])
  | inr e ↦ rw (late, e) (take_bytes-Reads file 1)
]

-- What the rows take before the blocks.
abbrev pub row_bytes : ℕ → ℕ → ℕ
row_bytes version count = vector_bytes version count + count + label_padding version count

-- The versions that `readBinaryHeader` lets through.
abbrev pub IsKnown : ℕ → Type 0
IsKnown version = (version ≡ 2) ⊎ ((ltb version 3 ≡ false) × ((version == 2) ≡ false))

module _ (file : List ℕ) (count blocks at : ℕ) (le : at ≤ length file) where
  abbrev pub at_labels : ℕ
  at_labels = at + count * dimensions * 2

  pub read_rows-Fails_old :
      length file < at + row_bytes 2 count → Fails (read_rows 2 count blocks (drop at file))
  unfolding read_rows
  read_rows-Fails_old short =
      bind-Fails file (read_int16s (count * dimensions)) (count * dimensions * 2)
        (λ at. int16s (count * dimensions) (drop at file)) _ at
        (read_int16s-Reads file (count * dimensions)) le
        (λ h.
          bind-Fails file (take_bytes count) count (λ at. take count (drop at file)) _ at_labels
            (take_bytes-Reads file count) h (λ h. absurd (omega arith)))

  pub read_rows-old :
      at + row_bytes 2 count ≤ length file
      → read_rows 2 count blocks (drop at file)
        ≡ inr (
          (int16s (count * dimensions) (drop at file), take count (drop at_labels file), []),
          drop (at_labels + count) file,
        )
  unfolding read_rows
  read_rows-old h =
      bind-within file (read_int16s (count * dimensions)) (count * dimensions * 2)
        (λ at. int16s (count * dimensions) (drop at file)) _ at
        (read_int16s-Reads file (count * dimensions)) (omega arith)
      ∙ bind-within file (take_bytes count) count (λ at. take count (drop at file)) _ at_labels
          (take_bytes-Reads file count) (omega arith)

  module _ (version : ℕ) (late : ltb version 3 ≡ false) (new : (version == 2) ≡ false) where
    abbrev pub pad : ℕ
    pad = label_padding version count

    abbrev pad_from : ℕ → List ℕ
    pad_from at = if count % 2 == 0 then [] else take 1 (drop at file)

    abbrev pub at_blocks : ℕ
    at_blocks = at + count + pad

    -- The reader of a late version.
    abbrev late_rows : Reader (List ℤ × List ℕ × List ℤ)
    late_rows = do
      labels ← take_bytes count
      read_pad count
      rows ← read_int16s (blocks * ivf_block_stride)
      return ([], labels, rows)

    read_rows-late : read_rows version count blocks (drop at file) ≡ late_rows (drop at file)
    unfolding read_rows
    read_rows-late = rw late refl

    late_rows-Fails :
        length file < at + count + pad + blocks * ivf_block_stride * 2
        → Fails (late_rows (drop at file))
    late_rows-Fails short =
        bind-Fails file (take_bytes count) count (λ at. take count (drop at file)) _ at
          (take_bytes-Reads file count) le
          (λ h.
            bind-Fails file (read_pad count) pad pad_from _ (at + count)
              (read_pad-Reads file version count late) h
              (λ h.
                bind-Fails file (read_int16s (blocks * ivf_block_stride))
                  (blocks * ivf_block_stride * 2)
                  (λ at. int16s (blocks * ivf_block_stride) (drop at file)) _ at_blocks
                  (read_int16s-Reads file (blocks * ivf_block_stride)) h
                  (λ h. absurd (omega arith))))

    pub read_rows-Fails :
        length file < at + count + pad + blocks * ivf_block_stride * 2
        → Fails (read_rows version count blocks (drop at file))
    read_rows-Fails short = subst Fails (sym read_rows-late) (late_rows-Fails short)

    pub read_rows-new :
        at + count + pad + blocks * ivf_block_stride * 2 ≤ length file
        → read_rows version count blocks (drop at file)
          ≡ inr (
            (
              [],
              take count (drop at file),
              int16s (blocks * ivf_block_stride) (drop at_blocks file),
            ),
            drop (at_blocks + blocks * ivf_block_stride * 2) file,
          )
    read_rows-new h =
        read_rows-late
        ∙ bind-within file (take_bytes count) count (λ at. take count (drop at file)) _ at
            (take_bytes-Reads file count) (omega arith)
        ∙ bind-within file (read_pad count) pad pad_from _ (at + count)
            (read_pad-Reads file version count late) (omega arith)
        ∙ bind-within file (read_int16s (blocks * ivf_block_stride)) (blocks * ivf_block_stride * 2)
            (λ at. int16s (blocks * ivf_block_stride) (drop at file)) _ at_blocks
            (read_int16s-Reads file (blocks * ivf_block_stride)) (omega arith)

-- The end of the heap loader.
abbrev pub heap_rows :
    ℕ → ℕ → ℕ → (List ℤ → List ℕ → List ℤ → QuantizedIndex) → Reader QuantizedIndex
heap_rows version count blocks f = do
  (vectors, labels, rows) ← read_rows version count blocks
  return (f vectors labels rows)

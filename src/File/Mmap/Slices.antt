-- ===== src/File/Mmap/Slices.antt =====
-- The slices of the mapping loader, where they stay in the mapping.
use heindall.Prelude.{
  ℕ, ◌+◌, ◌*◌, ◌==◌, ◌≤◌, ◌<◌, ◌≡◌, refl, ◌∙◌, true, false, ◌&&◌, ltb, leb, List, [], Option, some,
  inl, inr, length, take, drop, arith, ◌>>=◌,
}
use heindall.Prelude.Int.{ℤ}
use heindall.Quantized.{QuantizedIndex, dimensions, ivf_block_stride}
use heindall.File.Bytes.{truncated, int16s, uint32s}
use heindall.File.Mmap.{
  Mapped, slice_int16, slice_uint32, slice_bytes, slice_vectors, label_padding, vector_bytes,
  map_blocks, map_value,
}

pub slice_int16-within :
    (file : List ℕ) (at n : ℕ)
    → at < length file
    → at + n * 2 ≤ length file
    → slice_int16 file at n ≡ some (int16s n (drop at file))
slice_int16-within file at n lt le =
    let e : (ltb at (length file) && leb (at + n * 2) (length file)) ≡ true = ground arith in
    rw e refl

pub slice_uint32-within :
    (file : List ℕ) (at n : ℕ)
    → at < length file
    → at + n * 4 ≤ length file
    → slice_uint32 file at n ≡ some (uint32s n (drop at file))
slice_uint32-within file at n lt le =
    let e : (ltb at (length file) && leb (at + n * 4) (length file)) ≡ true = ground arith in
    rw e refl

pub slice_bytes-within :
    (file : List ℕ) (at n : ℕ)
    → at + n ≤ length file
    → slice_bytes file at n ≡ some (take n (drop at file))
slice_bytes-within file at n le =
    let e : leb (at + n) (length file) ≡ true = ground arith in rw e refl

pub bind-some :
    {A B : Type 0} (x : Option A) (f : A → Option B) (a : A) → x ≡ some a → (x >>= f) ≡ f a
bind-some x f a e = rw (e, ◌>>=◌) refl

map_blocks-short :
    (file : List ℕ) (at version count : ℕ)
    → ltb version 3 ≡ false
    → length file < at + count * ivf_block_stride * 2
    → map_blocks file at version count ≡ some (inl truncated)
map_blocks-short file at version count late short =
    let e : ltb (length file) (at + count * ivf_block_stride * 2) ≡ true = ground arith in
    rw (late, e) refl

map_blocks-within :
    (file : List ℕ) (at version count : ℕ)
    → ltb version 3 ≡ false
    → 0 < count
    → at + count * ivf_block_stride * 2 ≤ length file
    → map_blocks file at version count
      ≡ some (inr (int16s (count * ivf_block_stride) (drop at file)))
map_blocks-within file at version count late there h =
    let e : ltb (length file) (at + count * ivf_block_stride * 2) ≡ false = ground arith in
    let rows = int16s (count * ivf_block_stride) (drop at file) in
    rw (late, e)
      (bind-some (slice_int16 file at (count * ivf_block_stride)) _ rows
        (slice_int16-within file at (count * ivf_block_stride) (omega arith) (omega arith)))

-- The end of the mapping loader, behind the ids.
abbrev pub map_rows :
    List ℕ → ℕ → ℕ → ℕ → ℕ → (List ℤ → List ℕ → List ℤ → QuantizedIndex) → Mapped QuantizedIndex
map_rows file version count blocks at f = do
  vectors ← slice_vectors file at version count
  labels ← slice_bytes file (at + vector_bytes version count) count
  rows ←
      map_blocks file (at + vector_bytes version count + count + label_padding version count)
        version blocks
  some (map_value (λ r. f vectors labels r) rows)

module _ (file : List ℕ) (count blocks at : ℕ) (f : List ℤ → List ℕ → List ℤ → QuantizedIndex)
    (many : 0 < count) where
  pub map_rows-old :
      at + count * dimensions * 2 + count ≤ length file
      → map_rows file 2 count blocks at f
        ≡ some (
            inr (
              f
                (int16s (count * dimensions) (drop at file))
                (take count (drop (at + count * dimensions * 2) file))
                []))
  map_rows-old h =
      bind-some (slice_int16 file at (count * dimensions)) _
        (int16s (count * dimensions) (drop at file))
        (slice_int16-within file at (count * dimensions) (omega arith) (omega arith))
      ∙ bind-some (slice_bytes file (at + count * dimensions * 2) count) _
          (take count (drop (at + count * dimensions * 2) file))
          (slice_bytes-within file (at + count * dimensions * 2) count h)

  module _ (version : ℕ) (late : ltb version 3 ≡ false) (new : (version == 2) ≡ false) where
    abbrev at_blocks : ℕ
    at_blocks = at + count + label_padding version count

    -- Without vectors, the labels follow the ids.
    to_blocks :
        at + count ≤ length file
        → map_rows file version count blocks at f ≡ (
            map_blocks file at_blocks version blocks
            >>= (λ rows. some (map_value (λ r. f [] (take count (drop at file)) r) rows)))
    to_blocks h =
        let same : at + 0 ≡ at = omega arith in
        rw (new, same)
          (bind-some (slice_bytes file at count) _ (take count (drop at file))
            (slice_bytes-within file at count h))

    pub map_rows-short :
        at + count ≤ length file
        → length file < at_blocks + blocks * ivf_block_stride * 2
        → map_rows file version count blocks at f ≡ some (inl truncated)
    map_rows-short h short =
        to_blocks h
        ∙ bind-some (map_blocks file at_blocks version blocks) _ (inl truncated)
            (map_blocks-short file at_blocks version blocks late short)

    pub map_rows-new :
        0 < blocks
        → at_blocks + blocks * ivf_block_stride * 2 ≤ length file
        → map_rows file version count blocks at f
          ≡ some (
              inr (
                f []
                  (take count (drop at file))
                  (int16s (blocks * ivf_block_stride) (drop at_blocks file))))
    map_rows-new there h =
        to_blocks (omega arith)
        ∙ bind-some (map_blocks file at_blocks version blocks) _
            (inr (int16s (blocks * ivf_block_stride) (drop at_blocks file)))
            (map_blocks-within file at_blocks version blocks late there h)

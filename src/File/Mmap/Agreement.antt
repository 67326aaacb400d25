-- ===== src/File/Mmap/Agreement.antt =====
-- The mapping loader and the heap loader on the same file.
use heindall.Prelude.{
  ℕ, ◌+◌, ◌*◌, ◌==◌, ◌≤◌, ◌<◌, ◌≡◌, refl, sym, ap, false, Bool-cases, ltb, leb, List, [], Option,
  none, some, ◌⊎◌, inl, inr, length, take, drop, arith,
}
use heindall.Prelude.Int.{ℤ}
use heindall.Quantized.{QuantizedIndex, dimensions, ivf_block_stride}
use heindall.File.Bytes.{LoadError, truncated, return, int16s, bind-inr}
use heindall.File.Heap.{read_rows, loaded}
use heindall.File.Mmap.{Mapped, label_padding}
use heindall.File.Mmap.Rows.{read_rows-old, read_rows-Fails, read_rows-new, row_bytes, heap_rows}
use heindall.File.Mmap.Slices.{map_rows, map_rows-old, map_rows-short, map_rows-new}
use heindall.File.Mmap.Reads.{Fails, bind-inl}

-- The index, if there is one.
abbrev pub value : {A : Type 0} → LoadError ⊎ A → Option A
value (inl e) = none
value (inr a) = some a

-- The mapping loader returns, and it returns an index when the heap loader does, the same one.
pub record Agrees {A : Type 0} (mapped : Mapped A) (heap : LoadError ⊎ (A × List ℕ)) : Type 0 where
  pub returned : LoadError ⊎ A
  pub returns : mapped ≡ some returned
  pub agree : value returned ≡ value (loaded heap)

pub both_fail :
    {A : Type 0} (e : LoadError) (heap : LoadError ⊎ (A × List ℕ))
    → Fails heap
    → Agrees (some (inl e)) heap
both_fail e heap (err, f) = record {
  returned = inl e;
  returns = refl;
  agree = ap (λ h. value (loaded h)) (sym f);
}

pub Agrees-cong :
    {A : Type 0} (x x' : Mapped A) (y y' : LoadError ⊎ (A × List ℕ))
    → x ≡ x'
    → y ≡ y'
    → Agrees x' y'
    → Agrees x y
Agrees-cong x x' y y' p q a = rw (p, q) a

pub rows-old-Agrees :
    (file : List ℕ) (count blocks at : ℕ) (f : List ℤ → List ℕ → List ℤ → QuantizedIndex)
    → 0 < count
    → at + row_bytes 2 count ≤ length file
    → Agrees (map_rows file 2 count blocks at f) (heap_rows 2 count blocks f (drop at file))
rows-old-Agrees file count blocks at f many h = record {
  returned = inr (
      f (int16s (count * dimensions) (drop at file))
        (take count (drop (at + count * dimensions * 2) file)) []);
  returns = map_rows-old file count blocks at f many (omega arith);
  agree = sym (
      ap (λ r. value (loaded r))
        (bind-inr (read_rows 2 count blocks) _ (drop at file) _ _
          (read_rows-old file count blocks at (omega arith) h)));
}

pub rows-new-Agrees :
    (file : List ℕ) (count blocks at version : ℕ) (f : List ℤ → List ℕ → List ℤ → QuantizedIndex)
    → ltb version 3 ≡ false
    → (version == 2) ≡ false
    → 0 < count
    → 0 < blocks
    → at + count ≤ length file
    → Agrees
        (map_rows file version count blocks at f)
        (heap_rows version count blocks f (drop at file))
rows-new-Agrees file count blocks at version f late new many there h =
    let end = at + count + label_padding version count + blocks * ivf_block_stride * 2 in
    elim (Bool-cases (leb end (length file))) [
      | inl e ↦ record {
        returned = inr (
            f [] (take count (drop at file)) (
              int16s (blocks * ivf_block_stride)
                (drop (at + count + label_padding version count) file)));
        returns = map_rows-new file count blocks at f many version late new there (ground arith);
        agree = sym (
            ap (λ r. value (loaded r))
              (bind-inr (read_rows version count blocks) _ (drop at file) _ _ (
                read_rows-new file count blocks at (omega arith) version late new (ground arith))));
      }
      | inr e ↦
          Agrees-cong (map_rows file version count blocks at f) (some (inl truncated))
            (heap_rows version count blocks f (drop at file))
            (heap_rows version count blocks f (drop at file))
            (map_rows-short file count blocks at f many version late new h (ground arith)) refl
            (both_fail truncated (heap_rows version count blocks f (drop at file)) (
              bind-inl file (read_rows version count blocks) (λ t. return (f t.0 t.1 t.2))
                (drop at file)
                (read_rows-Fails file count blocks at (omega arith) version late new
                  (ground arith))))
    ]

-- ===== src/File/Mmap/Reads.antt =====
-- The reads of the heap loader, from a position of the file.
use heindall.Prelude.{
  ℕ, zero, suc, ◌+◌, ◌*◌, ◌≤◌, ◌<◌, ◌≡◌, refl, sym, ap, ◌∙◌, true, false, Bool-cases, if◌then◌else◌,
  ltb, leb, List, [], ◌∷◌, Option, none, some, ◌⊎◌, inl, inr, length, length-drop, take, drop,
  arith,
}
use heindall.Prelude.Int.{ℤ}
use heindall.Quantized.{ivf_block_stride}
use heindall.Build.{blocks_for_rows}
use heindall.File.Bytes.{
  LoadError, truncated, Reader, ◌>>=◌, return, take_bytes, read_int16s, read_uint32s, int16s,
  uint32s, bind-inr, of_uint16,
}
use heindall.File.Heap.{read_centroid_blocks, read_block_offsets}
use heindall.File.Mmap.{centroid_block_bytes, block_offset_bytes}

drop_nil : (n : ℕ) → drop {A = ℕ} n [] ≡ []
drop_nil zero = refl
drop_nil (suc n) = refl

drop-drop : (a b : ℕ) (xs : List ℕ) → drop b (drop a xs) ≡ drop (a + b) xs
drop-drop zero b xs = ap (λ n. drop n xs) (omega arith)
drop-drop (suc a) b [] = drop_nil b ∙ sym (drop_nil (suc a + b))
drop-drop (suc a) b (x ∷ xs) =
    let same : suc a + b ≡ suc (a + b) = omega arith in rw same (drop-drop a b xs)

take_nil : (n : ℕ) → take {A = ℕ} n [] ≡ []
take_nil zero = refl
take_nil (suc n) = refl

int16s-take : (n k : ℕ) (bs : List ℕ) → n * 2 ≤ k → int16s n (take k bs) ≡ int16s n bs
int16s-take zero k bs h = refl
int16s-take (suc n) zero bs h = absurd (omega arith)
int16s-take (suc n) (suc zero) bs h = absurd (omega arith)
int16s-take (suc n) (suc (suc k)) [] h = refl
int16s-take (suc n) (suc (suc k)) (a ∷ []) h = refl
int16s-take (suc n) (suc (suc k)) (a ∷ b ∷ bs) h =
    ap (◌∷◌ (of_uint16 (a + b * 256))) (int16s-take n k bs (omega arith))

uint32s-take : (n k : ℕ) (bs : List ℕ) → n * 4 ≤ k → uint32s n (take k bs) ≡ uint32s n bs
uint32s-take zero k bs h = refl
uint32s-take (suc n) zero bs h = absurd (omega arith)
uint32s-take (suc n) (suc zero) bs h = absurd (omega arith)
uint32s-take (suc n) (suc (suc zero)) bs h = absurd (omega arith)
uint32s-take (suc n) (suc (suc (suc zero))) bs h = absurd (omega arith)
uint32s-take (suc n) (suc (suc (suc (suc k)))) [] h = refl
uint32s-take (suc n) (suc (suc (suc (suc k)))) (a ∷ []) h = refl
uint32s-take (suc n) (suc (suc (suc (suc k)))) (a ∷ b ∷ []) h = refl
uint32s-take (suc n) (suc (suc (suc (suc k)))) (a ∷ b ∷ c ∷ []) h = refl
uint32s-take (suc n) (suc (suc (suc (suc k)))) (a ∷ b ∷ c ∷ d ∷ bs) h =
    ap (◌∷◌ (a + b * 256 + c * 65536 + d * 16777216)) (uint32s-take n k bs (omega arith))

-- No value.
abbrev pub Fails : {A : Type 0} → LoadError ⊎ (A × List ℕ) → Type 0
Fails y = (e : LoadError) × (y ≡ inl e)

module _ (file : List ℕ) where
  -- From every position in the file, `m` reads `n` bytes, of which it makes `g`.
  pub record Reads {A : Type 0} (m : Reader A) (n : ℕ) (g : ℕ → A) : Type 0 where
    pub within : (at : ℕ) → at + n ≤ length file → m (drop at file) ≡ inr (g at, drop (at + n) file)
    pub beyond : (at : ℕ) → at ≤ length file → length file < at + n → Fails (m (drop at file))

  pub take_bytes-Reads : (n : ℕ) → Reads (take_bytes n) n (λ at. take n (drop at file))
  unfolding take_bytes
  take_bytes-Reads n = record {
    within = λ at h.
        (let long : leb n (length (drop at file)) ≡ true =
            (let l = length-drop at file in ground arith) in
          rw (long, drop-drop at n file) refl);
    beyond = λ at le h.
        (let short : leb n (length (drop at file)) ≡ false =
            (let l = length-drop at file in ground arith) in
          rw short (truncated, refl));
  }

  pub bind-inl :
      {A B : Type 0} (m : Reader A) (f : A → Reader B) (bs : List ℕ)
      → Fails (m bs)
      → Fails ((m >>= f) bs)
  bind-inl m f bs (e, h) = (e, rw (h, ◌>>=◌) refl)

  -- A read and a pure step behind it.
  pub then-Reads :
      {A B : Type 0} (m : Reader A) (n : ℕ) (g : ℕ → A) (f : A → B)
      → Reads m n g
      → Reads (m >>= (λ a. return (f a))) n (λ at. f (g at))
  then-Reads m n g f r = record {
    within = λ at h.
        bind-inr m (λ a. return (f a)) (drop at file) (drop (at + n) file) (g at) (r.within at h);
    beyond = λ at le h. bind-inl m (λ a. return (f a)) (drop at file) (r.beyond at le h);
  }

  pub read_int16s-Reads : (n : ℕ) → Reads (read_int16s n) (n * 2) (λ at. int16s n (drop at file))
  unfolding read_int16s
  read_int16s-Reads n =
      let r =
        then-Reads (take_bytes (n * 2)) (n * 2) (λ at. take (n * 2) (drop at file)) (int16s n)
          (take_bytes-Reads (n * 2)) in
      record {
        within = λ at h.
            r.within at h
            ∙ ap (λ v. inr (v, drop (at + n * 2) file))
                (int16s-take n (n * 2) (drop at file) (omega arith));
        beyond = r.beyond;
      }

  pub read_uint32s-Reads : (n : ℕ) → Reads (read_uint32s n) (n * 4) (λ at. uint32s n (drop at file))
  unfolding read_uint32s
  read_uint32s-Reads n =
      let r =
        then-Reads (take_bytes (n * 4)) (n * 4) (λ at. take (n * 4) (drop at file)) (uint32s n)
          (take_bytes-Reads (n * 4)) in
      record {
        within = λ at h.
            r.within at h
            ∙ ap (λ v. inr (v, drop (at + n * 4) file))
                (uint32s-take n (n * 4) (drop at file) (omega arith));
        beyond = r.beyond;
      }

  pub return-Reads : {A : Type 0} (a : A) → Reads (return a) 0 (λ at. a)
  return-Reads a = record {
    within = λ at h. (let same : at + 0 ≡ at = omega arith in rw same refl);
    beyond = λ at le h. absurd (omega arith);
  }

  abbrev pub centroid_blocks_from : ℕ → ℕ → ℕ → List ℤ
  centroid_blocks_from version clusters at =
      if ltb version 4
      then []
      else int16s (blocks_for_rows clusters * ivf_block_stride) (drop at file)

  pub read_centroid_blocks-Reads :
      (version clusters : ℕ)
      → Reads
          (read_centroid_blocks version clusters)
          (centroid_block_bytes version clusters)
          (centroid_blocks_from version clusters)
  read_centroid_blocks-Reads version clusters = elim (Bool-cases (ltb version 4)) [
    | inl e ↦ rw (e, centroid_blocks_from) (return-Reads [])
    | inr e ↦
        rw (e, centroid_blocks_from)
          (read_int16s-Reads (blocks_for_rows clusters * ivf_block_stride))
  ]

  abbrev pub block_offsets_from : ℕ → ℕ → ℕ → Option (List ℕ)
  block_offsets_from version clusters at =
      if ltb version 3 then none else some (uint32s (clusters + 1) (drop at file))

  pub read_block_offsets-Reads :
      (version clusters : ℕ)
      → Reads
          (read_block_offsets version clusters)
          (block_offset_bytes version clusters)
          (block_offsets_from version clusters)
  read_block_offsets-Reads version clusters = elim (Bool-cases (ltb version 3)) [
    | inl e ↦ rw (e, block_offsets_from) (return-Reads none)
    | inr e ↦
        rw (e, block_offsets_from)
          (then-Reads (read_uint32s (clusters + 1)) ((clusters + 1) * 4)
            (λ at. uint32s (clusters + 1) (drop at file)) some (read_uint32s-Reads (clusters + 1)))
  ]

  -- When a read fails, or what is behind it does, the whole fails.
  pub bind-Fails :
      {A B : Type 0} (m : Reader A) (n : ℕ) (g : ℕ → A) (f : A → Reader B) (at : ℕ)
      → Reads m n g
      → at ≤ length file
      → (at + n ≤ length file → Fails (f (g at) (drop (at + n) file)))
      → Fails ((m >>= f) (drop at file))
  bind-Fails m n g f at r le behind = elim (Bool-cases (leb (at + n) (length file))) [
    | inl e ↦
        (let h : at + n ≤ length file = ground arith in
          let (err, fails) = behind h in
          (err, bind-inr m f (drop at file) (drop (at + n) file) (g at) (r.within at h) ∙ fails))
    | inr e ↦ bind-inl m f (drop at file) (r.beyond at le (ground arith))
  ]

  pub bind-within :
      {A B : Type 0} (m : Reader A) (n : ℕ) (g : ℕ → A) (f : A → Reader B) (at : ℕ)
      → Reads m n g
      → at + n ≤ length file
      → (m >>= f) (drop at file) ≡ f (g at) (drop (at + n) file)
  bind-within m n g f at r h =
      bind-inr m f (drop at file) (drop (at + n) file) (g at) (r.within at h)

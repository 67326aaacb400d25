-- ===== src/File/Bytes.antt =====
-- `encoding/binary` of Go's library, little-endian, and reads from a file that is open.
use heindall.Prelude.{
  ℕ, zero, suc, ◌+◌, ◌-◌, ◌*◌, ◌/◌, ◌%◌, ◌^◌, ◌<◌, ◌≡◌, refl, ap, ◌∙◌, if◌then◌else◌, ltb, leb,
  List, [], ◌∷◌, ◌++◌, ◌⊎◌, inl, inr, true, false, get_or, length, length-append, take, drop, arith,
}
use heindall.Prelude.Int.{ℤ, pos, negsuc}
use heindall.Quantized.Distance.{IsInt16}
use heindall.Ivf.Centroids.Loops.{AllInt16}
use heindall.Load.{OffsetError}

pub data LoadError : Type 0 where
  truncated : LoadError
  unsupported_format : LoadError
  unsupported_version : LoadError
  bad_cluster_count : LoadError
  bad_offsets : OffsetError → LoadError

-- From the bytes that are left, an error or a value and the bytes left then.
abbrev pub Reader : Type 0 → Type 0
Reader A = List ℕ → LoadError ⊎ (A × List ℕ)

infixl 5 ◌>>=◌ ◌>>◌
abbrev pub ◌>>=◌ : {A B : Type 0} → Reader A → (A → Reader B) → Reader B
◌>>=◌ m f bs = elim (m bs) [ inl e ↦ inl e | inr (a, rest) ↦ f a rest ]

abbrev pub ◌>>◌ : {A B : Type 0} → Reader A → Reader B → Reader B
m >> k = m >>= (λ _. k)

abbrev pub return : {A : Type 0} → A → Reader A
return a bs = inr (a, bs)

abbrev pub raise : {A : Type 0} → LoadError → Reader A
raise e bs = inl e

-- `io.ReadFull`
unfoldable pub take_bytes : ℕ → Reader (List ℕ)
take_bytes n bs = if leb n (length bs) then inr (take n bs, drop n bs) else inl truncated

abbrev pub uint16_bytes : ℕ → List ℕ
uint16_bytes u = (u % 256) ∷ (u / 256 % 256) ∷ []

abbrev pub uint32_bytes : ℕ → List ℕ
uint32_bytes u = (u % 256) ∷ (u / 256 % 256) ∷ (u / 65536 % 256) ∷ (u / 16777216 % 256) ∷ []

-- The conversion of an `int16` to `uint16` and back.
abbrev pub to_uint16 : ℤ → ℕ
to_uint16 (pos n) = n % 65536
to_uint16 (negsuc n) = 65535 - n % 65536

abbrev pub of_uint16 : ℕ → ℤ
of_uint16 u = if ltb u 32768 then pos u else negsuc (65535 - u)

abbrev pub int16s_bytes : List ℤ → List ℕ
int16s_bytes [] = []
int16s_bytes (z ∷ zs) = uint16_bytes (to_uint16 z) ++ int16s_bytes zs

abbrev pub uint32s_bytes : List ℕ → List ℕ
uint32s_bytes [] = []
uint32s_bytes (u ∷ us) = uint32_bytes u ++ uint32s_bytes us

abbrev pub byte : List ℕ → ℕ → ℕ
byte bs i = get_or bs i 0

-- The `n` numbers in the first bytes.
abbrev pub int16s : ℕ → List ℕ → List ℤ
int16s zero bs = []
int16s (suc n) bs = of_uint16 (byte bs 0 + byte bs 1 * 256) ∷ int16s n (drop 2 bs)

abbrev pub uint32s : ℕ → List ℕ → List ℕ
uint32s zero bs = []
uint32s (suc n) bs =
    (byte bs 0 + byte bs 1 * 256 + byte bs 2 * 65536 + byte bs 3 * 16777216) ∷ uint32s n (drop 4 bs)

unfoldable pub read_int16s : ℕ → Reader (List ℤ)
unfolding take_bytes
read_int16s n = do bs ← take_bytes (n * 2); return (int16s n bs)

unfoldable pub read_uint32s : ℕ → Reader (List ℕ)
unfolding take_bytes
read_uint32s n = do bs ← take_bytes (n * 4); return (uint32s n bs)

abbrev pub AllUint32 : List ℕ → Type 0
AllUint32 us = (i : ℕ) → byte us i < 2 ^ 32

pub bind-inr :
    {A B : Type 0} (m : Reader A) (f : A → Reader B) (bs rest : List ℕ) (a : A)
    → m bs ≡ inr (a, rest)
    → (m >>= f) bs ≡ f a rest
bind-inr m f bs rest a h = rw (h, ◌>>=◌) refl

take-append : (xs ys : List ℕ) (n : ℕ) → length xs ≡ n → take n (xs ++ ys) ≡ xs
take-append [] ys zero h = refl
take-append [] ys (suc n) h = absurd (omega arith)
take-append (x ∷ xs) ys zero h = absurd (omega arith)
take-append (x ∷ xs) ys (suc n) h = ap (◌∷◌ x) (take-append xs ys n (omega arith))

drop-append : (xs ys : List ℕ) (n : ℕ) → length xs ≡ n → drop n (xs ++ ys) ≡ ys
drop-append [] ys zero h = refl
drop-append [] ys (suc n) h = absurd (omega arith)
drop-append (x ∷ xs) ys zero h = absurd (omega arith)
drop-append (x ∷ xs) ys (suc n) h = drop-append xs ys n (omega arith)

pub take_bytes-append :
    (xs ys : List ℕ) (n : ℕ) → length xs ≡ n → take_bytes n (xs ++ ys) ≡ inr (xs, ys)
unfolding take_bytes
take_bytes-append xs ys n h =
    let long : leb n (length (xs ++ ys)) ≡ true = (let l = length-append xs ys in ground arith) in
    rw (long, take-append xs ys n h, drop-append xs ys n h) refl

pub length-int16s_bytes : (zs : List ℤ) → length (int16s_bytes zs) ≡ length zs * 2
length-int16s_bytes [] = omega arith
length-int16s_bytes (z ∷ zs) = omega (arith, length-int16s_bytes zs)

pub length-uint32s_bytes : (us : List ℕ) → length (uint32s_bytes us) ≡ length us * 4
length-uint32s_bytes [] = omega arith
length-uint32s_bytes (u ∷ us) = omega (arith, length-uint32s_bytes us)

int16_round :
    (z : ℤ) → IsInt16 z → of_uint16 (to_uint16 z % 256 + to_uint16 z / 256 % 256 * 256) ≡ z
int16_round (pos n) h =
    let e : n % 65536 % 256 + n % 65536 / 256 % 256 * 256 ≡ n = omega (arith, h.below) in
    let small : ltb n 32768 ≡ true = (let k = h.below in ground arith) in rw (e, small) refl
int16_round (negsuc n) h =
    let e : (65535 - n % 65536) % 256 + (65535 - n % 65536) / 256 % 256 * 256 ≡ 65535 - n =
      omega (arith, h.above) in
    let large : ltb (65535 - n) 32768 ≡ false = (let k = h.above in ground arith) in
    let back : 65535 - (65535 - n) ≡ n = omega (arith, h.above) in rw (e, large, back) refl

int16s_round : (zs : List ℤ) → AllInt16 zs → int16s (length zs) (int16s_bytes zs) ≡ zs
int16s_round [] h = refl
int16s_round (z ∷ zs) h = rw (int16_round z (h 0), int16s_round zs (λ i. h (suc i))) refl

uint32_round :
    (u : ℕ)
    → u < 2 ^ 32
    → u % 256 + u / 256 % 256 * 256 + u / 65536 % 256 * 65536 + u / 16777216 % 256 * 16777216 ≡ u
uint32_round u h = omega arith

uint32s_round : (us : List ℕ) → AllUint32 us → uint32s (length us) (uint32s_bytes us) ≡ us
uint32s_round [] h = refl
uint32s_round (u ∷ us) h = rw (uint32_round u (h 0), uint32s_round us (λ i. h (suc i))) refl

-- What is written is read back, and the rest of the file is left.
pub read_int16s-bytes :
    (zs : List ℤ) (rest : List ℕ) (n : ℕ)
    → AllInt16 zs
    → length zs ≡ n
    → read_int16s n (int16s_bytes zs ++ rest) ≡ inr (zs, rest)
unfolding read_int16s
read_int16s-bytes zs rest n h e = rw (← e) (
    bind-inr (take_bytes (length zs * 2)) (λ bs. return (int16s (length zs) bs))
      (int16s_bytes zs ++ rest) rest (int16s_bytes zs)
      (take_bytes-append (int16s_bytes zs) rest (length zs * 2) (length-int16s_bytes zs))
    ∙ ap (λ t. inr (t, rest)) (int16s_round zs h))

pub read_uint32s-bytes :
    (us rest : List ℕ) (n : ℕ)
    → AllUint32 us
    → length us ≡ n
    → read_uint32s n (uint32s_bytes us ++ rest) ≡ inr (us, rest)
unfolding read_uint32s
read_uint32s-bytes us rest n h e = rw (← e) (
    bind-inr (take_bytes (length us * 4)) (λ bs. return (uint32s (length us) bs))
      (uint32s_bytes us ++ rest) rest (uint32s_bytes us)
      (take_bytes-append (uint32s_bytes us) rest (length us * 4) (length-uint32s_bytes us))
    ∙ ap (λ t. inr (t, rest)) (uint32s_round us h))

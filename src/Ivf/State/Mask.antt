-- ===== src/Ivf/State/Mask.antt =====
-- The probe mask is a set of cluster numbers below 8192.
use native.Mathlib.Nat.{one-le-pow}
use heindall.Prelude.{
  ℕ, zero, suc, ◌/◌, ◌%◌, ◌^◌, ◌≤◌, ◌<◌, ◌≡◌, refl, ◌∙◌, inl, inr, Bool, true, not, ◌>>=◌, arith,
  bit_and, bit_or, ◌==◌, get_elem?, set, length, length-set, some, none, Option-cases,
  if◌then◌else◌, List, [], ◌∷◌, Bool-cases,
}
use heindall.Prelude.Bits.{bit, bit_and_pow, bit-bit_or_pow}
use heindall.Ivf.State.{SearchState, has_probe, add_probe, word_of, bit_of}

bit-le : (k w : ℕ) → bit w k ≤ 1
bit-le zero w = omega arith
bit-le (suc k) w = bit-le k (w / 2)

-- The code's test of a bit.
test_bit : (k w : ℕ) → not (bit_and w (2 ^ k) == 0) ≡ (bit w k == 1)
test_bit k w = elim (Bool-cases (bit w k == 1)) [
  | inl e ↦
      let one : bit w k ≡ 1 = ground arith in rw (bit_and_pow, one) (ground (arith, one-le-pow k 2))
  | inr e ↦
      let none_set : bit w k ≡ 0 = ground (arith, bit-le k w) in
      rw (bit_and_pow, none_set) (ground arith)
]

get_elem?-set :
    (xs : List ℕ) (i j v w : ℕ)
    → get_elem? xs i ≡ some w
    → get_elem? (set xs i v) j ≡ (if i == j then some v else get_elem? xs j)
get_elem?-set [] i j v w h = cc
get_elem?-set (x ∷ xs) zero zero v w h = refl
get_elem?-set (x ∷ xs) zero (suc j) v w h = ground arith
get_elem?-set (x ∷ xs) (suc i) zero v w h = ground arith
get_elem?-set (x ∷ xs) (suc i) (suc j) v w h = ground (arith, get_elem?-set xs i j v w h)

mask_lem :
    (xs : List ℕ) (c j w : ℕ)
    → get_elem? xs (word_of c) ≡ some w
    → (get_elem? (set xs (word_of c) (bit_or w (bit_of c))) (word_of j) >>= λ v.
        some (not (bit_and v (bit_of j) == 0)))
      ≡ (if c == j
          then some true
          else get_elem? xs (word_of j) >>= λ v. some (not (bit_and v (bit_of j) == 0)))
mask_lem xs c j w h = elim (Bool-cases (word_of c == word_of j)) [
  | inl e ↦
      let same : word_of c ≡ word_of j = ground arith in
      let h' : get_elem? xs (word_of j) ≡ some w = rw (← same) h in
      rw
        (
          get_elem?-set xs (word_of c) (word_of j) (bit_or w (bit_of c)) w h,
          e,
          h',
          test_bit (j % 64),
          test_bit (j % 64),
          bit-bit_or_pow (c % 64) (j % 64) w,
        )
        (ground arith)
  | inr e ↦
      rw (get_elem?-set xs (word_of c) (word_of j) (bit_or w (bit_of c)) w h, e) (ground arith)
]

-- What a successful `addProbe` does: it marks one word, and leaves the best rows alone.
pub record Marks (s t : SearchState) (c : ℕ) : Type 0 where
  pub word : ℕ
  pub found : get_elem? s.probe_mask (word_of c) ≡ some word
  pub mask : t.probe_mask ≡ set s.probe_mask (word_of c) (bit_or word (bit_of c))
  pub best : t.best ≡ s.best

add_probe-Marks : (s t : SearchState) (c : ℕ) → add_probe s c ≡ some t → Marks s t c
unfolding add_probe
add_probe-Marks s t c h = elim (Option-cases (get_elem? s.probe_mask (word_of c))) [
  | inl e ↦ absurd (ground arith)
  | inr (w, e) ↦ record { word = w; found = e; mask = ground arith; best = ground arith }
]

-- After an `addProbe(c)` that does not panic, exactly `c` and the clusters of before are
-- members.
pub has_probe-add_probe :
    (s t : SearchState) (c j : ℕ)
    → add_probe s c ≡ some t
    → has_probe t j ≡ (if c == j then some true else has_probe s j)
unfolding has_probe
has_probe-add_probe s t c j h =
    let m = add_probe-Marks s t c h in rw (m.mask) (mask_lem s.probe_mask c j m.word m.found)

pub add_probe-best : (s t : SearchState) (c : ℕ) → add_probe s c ≡ some t → t.best ≡ s.best
add_probe-best s t c h = (add_probe-Marks s t c h).best

-- The mask keeps its 128 words.
abbrev pub HasMask : SearchState → Type 0
HasMask s = length s.probe_mask ≡ 128

pub add_probe-HasMask : (s t : SearchState) (c : ℕ) → HasMask s → add_probe s c ≡ some t → HasMask t
add_probe-HasMask s t c k h =
    let m = add_probe-Marks s t c h in rw m.mask (length-set s.probe_mask _ _ ∙ k)

get_elem?-in_range : (xs : List ℕ) (i : ℕ) → i < length xs → (w : ℕ) × (get_elem? xs i ≡ some w)
get_elem?-in_range [] i h = absurd (omega arith)
get_elem?-in_range (x ∷ xs) zero h = (x, refl)
get_elem?-in_range (x ∷ xs) (suc i) h = get_elem?-in_range xs i (omega arith)

get_elem?-out_of_range : (xs : List ℕ) (i : ℕ) → length xs ≤ i → get_elem? xs i ≡ none
get_elem?-out_of_range [] i h = refl
get_elem?-out_of_range (x ∷ xs) zero h = absurd (omega arith)
get_elem?-out_of_range (x ∷ xs) (suc i) h = get_elem?-out_of_range xs i (omega arith)

-- Below 8192 neither operation panics.
pub add_probe-total :
    (s : SearchState) (c : ℕ) → HasMask s → c < 8192 → (t : SearchState) × (add_probe s c ≡ some t)
unfolding add_probe
add_probe-total s c k h =
    let (w, e) = get_elem?-in_range s.probe_mask (word_of c) (omega arith) in rw e (_, refl)

pub has_probe-total :
    (s : SearchState) (c : ℕ) → HasMask s → c < 8192 → (b : Bool) × (has_probe s c ≡ some b)
unfolding has_probe
has_probe-total s c k h =
    let (w, e) = get_elem?-in_range s.probe_mask (word_of c) (omega arith) in rw e (_, refl)

-- On a mask of 128 words, `addProbe` and `hasProbe` panic from cluster 8192 on.
pub probe_out_of_range :
    (s : SearchState) (c : ℕ)
    → HasMask s
    → 8192 ≤ c
    → (add_probe s c ≡ none) × (has_probe s c ≡ none)
unfolding add_probe has_probe
probe_out_of_range s c k h =
    let e = get_elem?-out_of_range s.probe_mask (word_of c) (omega arith) in (rw e, rw e)

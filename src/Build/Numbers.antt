-- ===== src/Build/Numbers.antt =====
-- The rounding division and the powers of two of the builder.
use mathlib.Core.Path.{subst}
use native.Mathlib.Nat.{pow-suc, div-lt_iff_lt-mul, div-mul-le_self, lt-div-mul-add}
use heindall.Prelude.{
  ℕ, zero, suc, ◌+◌, ◌*◌, ◌/◌, ◌^◌, ◌≤◌, ◌<◌, ◌≡◌, inl, inr, true, false, Bool-cases, leb, arith,
}
use heindall.Prelude.Int.{ℤ, pos, negsuc, pos_part, neg_part, leb_ℤ, ◌+ℤ◌, ◌-ℤ◌, wrap64}
use heindall.Ivf.Kernel.{IsQuantized}
use heindall.Build.{double_until, highest_power_of_two_le, wrap16, round_div_int64_to_int16}

pow_twice : (k : ℕ) → 2 ^ (k + 1) ≡ 2 ^ k * 2
pow_twice k = let next : k + 1 ≡ suc k = omega arith in rw next (omega (arith, pow-suc 2 k))

double_until-lem :
    (fuel v k : ℕ)
    → 2 ^ k ≤ v
    → v < 2 ^ (k + fuel)
    → (j : ℕ) × (double_until fuel v (2 ^ k) ≡ 2 ^ j) × (2 ^ j ≤ v) × (v < 2 ^ (j + 1))
unfolding double_until
double_until-lem zero v k lo hi =
    let hi' : v < 2 ^ k = subst (λ j. v < 2 ^ j) (let same : k + 0 ≡ k = omega arith in same) hi in
    absurd (omega arith)
double_until-lem (suc fuel) v k lo hi = elim (Bool-cases (leb (2 ^ k) (v / 2))) [
  | inl e ↦
      let twice = pow_twice k in
      let hi' =
        subst (λ j. v < 2 ^ j) (let same : k + suc fuel ≡ k + 1 + fuel = omega arith in same) hi in
      let (j, is, a, b) = double_until-lem fuel v (k + 1) (ground (arith, twice)) hi' in
      (j, rw (e, ← twice) is, a, b)
  | inr e ↦ (k, rw e, lo, ground (arith, pow_twice k))
]

-- For a positive `int`, `highestPowerOfTwoLE` returns the power of two `p` with p ≤ v < 2 p.
pub highest_power_of_two_le_lem :
    (v : ℕ)
    → 0 < v
    → v < 2 ^ 63
    → (j : ℕ) × (highest_power_of_two_le (pos v) ≡ 2 ^ j) × (2 ^ j ≤ v) × (v < 2 ^ (j + 1))
unfolding highest_power_of_two_le
highest_power_of_two_le_lem v h lt =
    let some_v : leb_ℤ (pos v) (pos 0) ≡ false = ground arith in
    rw some_v (double_until-lem 63 v 0 (omega arith) (omega arith))

pos_add : (a b : ℕ) → pos a +ℤ pos b ≡ pos (a + b)
unfolding ◌+ℤ◌
pos_add a b = ground arith

neg_add : (a b : ℕ) → negsuc a -ℤ pos b ≡ negsuc (a + b)
unfolding ◌-ℤ◌
neg_add a b = ground arith

opposite_small : (q : ℕ) → q ≤ 10000 → IsQuantized (pos 0 -ℤ pos q)
unfolding ◌-ℤ◌
opposite_small q h = record { above = ground arith; below = ground arith }

quotient_small : (x n : ℕ) → 0 < n → x < 10001 * n → x / n ≤ 10000
quotient_small x n h lt =
    let q = (div-lt_iff_lt-mul {k = n} {x = x} {y = 10001} h).1 lt in omega arith

wrap64_small : (a : ℤ) → pos_part a < 2 ^ 62 → neg_part a < 2 ^ 62 → wrap64 a ≡ a
unfolding wrap64
wrap64_small (pos n) h k = ground arith
wrap64_small (negsuc n) h k = ground arith

-- The conversion keeps a quantised value.
wrap16_same : (a : ℤ) → IsQuantized a → wrap16 a ≡ a
unfolding wrap16
wrap16_same a h = ground arith

-- `q` is `n / count`, rounded to the nearest, halves up: `2 n + count` is at least `2 q count`
-- and below `2 (q + 1) count`.
abbrev pub IsRounded : ℕ → ℕ → ℕ → Type 0
IsRounded n count q =
    (2 * (q * count) ≤ 2 * n + count) × (2 * n + count < 2 * (q * count) + 2 * count)

halves :
    (n count m : ℕ)
    → m ≤ n + count / 2
    → n + count / 2 < m + count
    → (2 * m ≤ 2 * n + count) × (2 * n + count < 2 * m + 2 * count)
halves n count m lo hi = (omega arith, omega arith)

rounded : (n count : ℕ) → 0 < count → IsRounded n count ((n + count / 2) / count)
rounded n count h =
    halves n count ((n + count / 2) / count * count) (div-mul-le_self (n + count / 2) count)
      (lt-div-mul-add {a = n + count / 2} h)

opposite_parts : (q : ℕ) → (pos_part (pos 0 -ℤ pos q) ≡ 0) × (neg_part (pos 0 -ℤ pos q) ≡ q)
unfolding ◌-ℤ◌
opposite_parts q = (ground arith, ground arith)

-- The centroid of a cluster of quantised rows is the rounded mean: for a positive count below
-- 2 ^ 32 and a sum of at most 10000 for each row, up or down, the result of
-- `roundDivInt64ToInt16` is quantised, and its positive and negative parts are those of the sum,
-- divided by the count and rounded to the nearest, halves away from zero.
pub round_div_int64_to_int16-IsRounded :
    (sum : ℤ) (count : ℕ)
    → 0 < count
    → count < 2 ^ 32
    → pos_part sum ≤ 10000 * count
    → neg_part sum ≤ 10000 * count
    → IsQuantized (round_div_int64_to_int16 sum (pos count))
      × IsRounded (pos_part sum) count (pos_part (round_div_int64_to_int16 sum (pos count)))
      × IsRounded (neg_part sum) count (neg_part (round_div_int64_to_int16 sum (pos count)))
unfolding round_div_int64_to_int16
round_div_int64_to_int16-IsRounded (pos s) count h small up down =
    let sum : pos s +ℤ pos (count / 2) ≡ pos (s + count / 2) = pos_add s (count / 2) in
    let some_rows : leb_ℤ (pos count) (pos 0) ≡ false = ground arith in
    let q = quotient_small (s + count / 2) count h (omega arith) in
    let not_below : leb_ℤ (pos 0) (pos s) ≡ true = ground arith in
    let quantized : IsQuantized (pos ((s + count / 2) / count)) = record {
      above = omega arith;
      below = omega (arith, q);
    } in
    rw
      (
        some_rows,
        not_below,
        sum,
        wrap64_small (pos (s + count / 2)) (omega arith) (omega arith),
        wrap16_same (pos ((s + count / 2) / count)) quantized,
      )
      (quantized, rounded s count h, (omega arith, omega arith))
round_div_int64_to_int16-IsRounded (negsuc s) count h small up down =
    let sum : negsuc s -ℤ pos (count / 2) ≡ negsuc (s + count / 2) = neg_add s (count / 2) in
    let some_rows : leb_ℤ (pos count) (pos 0) ≡ false = ground arith in
    let q = quotient_small (suc (s + count / 2)) count h (omega arith) in
    let is_below : leb_ℤ (pos 0) (negsuc s) ≡ false = ground arith in
    let quantized = opposite_small (suc (s + count / 2) / count) q in
    let (none_above, below) = opposite_parts (suc (s + count / 2) / count) in
    rw
      (
        some_rows,
        is_below,
        sum,
        wrap64_small (negsuc (s + count / 2)) (omega arith) (omega arith),
        wrap16_same (pos 0 -ℤ pos (suc (s + count / 2) / count)) quantized,
        none_above,
        below,
      )
      (
        quantized,
        (omega arith, omega arith),
        (let shift : suc s + count / 2 ≡ suc (s + count / 2) = omega arith in
            subst (λ x. IsRounded (suc s) count (x / count)) shift (rounded (suc s) count h)),
      )

-- The part of it that a search needs.
pub round_div_int64_to_int16-IsQuantized :
    (sum : ℤ) (count : ℕ)
    → 0 < count
    → count < 2 ^ 32
    → pos_part sum ≤ 10000 * count
    → neg_part sum ≤ 10000 * count
    → IsQuantized (round_div_int64_to_int16 sum (pos count))
round_div_int64_to_int16-IsQuantized sum count h small up down =
    (round_div_int64_to_int16-IsRounded sum count h small up down).0

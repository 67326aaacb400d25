-- ===== src/Build/Index/Powers.antt =====
-- `isPowerOfTwo` holds of the powers of two, and of nothing else.
use mathlib.Core.Path.{subst}
use native.Mathlib.Nat.{pow-suc, one-le-pow}
use heindall.Prelude.{
  ℕ, zero, suc, ◌+◌, ◌-◌, ◌*◌, ◌/◌, ◌%◌, ◌^◌, ◌≤◌, ◌<◌, ◌≡◌, refl, min, inl, inr, true, Bool-cases,
  ◌==◌, ==_iff, bit_and, arith,
}
use heindall.Prelude.Int.{pos}
use heindall.Prelude.Bits.{bit_and_halves}
use heindall.Build.{is_power_of_two}

bit_and_self : (n a : ℕ) → a ≤ n → bit_and a a ≡ a
bit_and_self zero a h = let z : a ≡ 0 = omega arith in rw z refl
bit_and_self (suc n) a h = elim (Bool-cases (a == 0)) [
  | inl e ↦ let z : a ≡ 0 = (==_iff a 0).0 e in rw z refl
  | inr e ↦ omega (arith, bit_and_halves a a, bit_and_self n (a / 2) (ground arith))
]

power_of_two : (n v : ℕ) → v ≤ n → 0 < v → bit_and v (v - 1) ≡ 0 → (k : ℕ) × (v ≡ 2 ^ k)
power_of_two zero v h p z = absurd (omega arith)
power_of_two (suc n) v h p z = elim (Bool-cases (v == 1)) [
  | inl e ↦ (0, (==_iff v 1).0 e)
  | inr e ↦ elim (Bool-cases (v % 2 == 0)) [
    | inl even ↦
        let half : (v - 1) / 2 ≡ v / 2 - 1 = ground arith in
        let halves = bit_and_halves v (v - 1) in
        let z' : bit_and (v / 2) (v / 2 - 1) ≡ 0 =
          subst (λ w. bit_and (v / 2) w ≡ 0) half (omega arith) in
        let (k, is) = power_of_two n (v / 2) (ground arith) (ground arith) z' in
        (suc k, ground (arith, is, pow-suc 2 k))
    | inr odd ↦
        let half : (v - 1) / 2 ≡ v / 2 = ground arith in
        let halves : bit_and v (v - 1) ≡ bit_and (v / 2) (v / 2) * 2 + min (v % 2) ((v - 1) % 2) =
          subst (λ w. bit_and v (v - 1) ≡ bit_and (v / 2) w * 2 + min (v % 2) ((v - 1) % 2)) half
            (bit_and_halves v (v - 1)) in
        absurd (ground (arith, halves, bit_and_self (v / 2) (v / 2) (omega arith)))
  ]
]

pub is_power_of_two-pow : (v : ℕ) → is_power_of_two (pos v) ≡ true → (k : ℕ) × (v ≡ 2 ^ k)
unfolding is_power_of_two
is_power_of_two-pow v h = power_of_two v v (omega arith) (ground arith) (ground arith)

power_bits : (k : ℕ) → bit_and (2 ^ k) (2 ^ k - 1) ≡ 0
power_bits zero = refl
power_bits (suc k) =
    let next = pow-suc 2 k in
    let one = one-le-pow k 2 in
    let whole : 2 ^ suc k / 2 ≡ 2 ^ k = omega (arith, next) in
    let half : (2 ^ suc k - 1) / 2 ≡ 2 ^ k - 1 = omega (arith, next, one) in
    let halves : bit_and (2 ^ suc k) (2 ^ suc k - 1)
        ≡ bit_and (2 ^ k) (2 ^ k - 1) * 2 + min (2 ^ suc k % 2) ((2 ^ suc k - 1) % 2) =
      rw (whole, half) at (bit_and_halves (2 ^ suc k) (2 ^ suc k - 1)) in
    omega (arith, halves, power_bits k, next)

pub pow-is_power_of_two : (k : ℕ) → is_power_of_two (pos (2 ^ k)) ≡ true
unfolding is_power_of_two
pow-is_power_of_two k = ground (arith, one-le-pow k 2, power_bits k)

pub below_power : (k : ℕ) → k < 2 ^ k
below_power zero = omega arith
below_power (suc k) = omega (arith, below_power k, pow-suc 2 k, one-le-pow k 2)

-- ===== src/Quantize/Range.antt =====
-- Quantised coordinates are in range.
use heindall.Prelude.{
  ℕ, zero, suc, ◌+◌, ◌≡◌, refl, false, Bool-cases, inl, inr, if◌then◌else◌, length, ap, arith,
}
use heindall.Float.{Float}
use heindall.Ivf.Kernel.{IsQuantized}
use heindall.Ivf.Centroids.Loops.{AllQuantized}
use heindall.Quantize.{minus_one_of, zero_of, one_of, scaled, quantize_float64, quantize_from}

-- What the program relies on: `<` is irreflexive, 1 is not below 0, and for a value that is
-- neither below 0 nor above 1 the product with 10000, rounded, fits. NaN is such a value: there
-- amd64 converts to 0x80000000, the low 16 bits of which are 0.
pub record Rounds (f : Float) : Type 0 where
  pub irreflexive : (v : f.Carrier) → f.lt v v ≡ false
  pub ordered : f.lt (one_of f) (zero_of f) ≡ false
  pub fits :
      (v : f.Carrier)
      → f.lt v (zero_of f) ≡ false
      → f.lt (one_of f) v ≡ false
      → IsQuantized (scaled f v)

clamped :
    (f : Float) (r : Rounds f) (a : f.Carrier)
    → f.lt a (zero_of f) ≡ false
    → IsQuantized (scaled f (if f.lt (one_of f) a then one_of f else a))
clamped f r a low = elim (Bool-cases (f.lt (one_of f) a)) [
  | inl above ↦ rw above (r.fits (one_of f) r.ordered (r.irreflexive (one_of f)))
  | inr within ↦ rw within (r.fits a low within)
]

-- With a floating-point type that rounds as `Rounds` says, every value that `quantizeFloat64`
-- returns is between -10000 and 10000, whatever is quantised.
pub quantize_float64-IsQuantized :
    (f : Float) → Rounds f → (value : f.Carrier) → IsQuantized (quantize_float64 f value)
unfolding quantize_float64
quantize_float64-IsQuantized f r value = elim (Bool-cases (f.le value (minus_one_of f))) [
  | inl e ↦ rw e (record { above = omega arith; below = omega arith })
  | inr e ↦ elim (Bool-cases (f.lt value (zero_of f))) [
    | inl below ↦ rw (e, below) (clamped f r (zero_of f) (r.irreflexive (zero_of f)))
    | inr low ↦ rw (e, low) (clamped f r value low)
  ]
]

pub quantize_from-AllQuantized :
    (f : Float)
    → Rounds f
    → (vector : ℕ → f.Carrier) (n d : ℕ) → AllQuantized (quantize_from f vector n d)
unfolding quantize_from
quantize_from-AllQuantized f r vector zero d i = record { above = omega arith; below = omega arith }
quantize_from-AllQuantized f r vector (suc n) d zero = quantize_float64-IsQuantized f r (vector d)
quantize_from-AllQuantized f r vector (suc n) d (suc i) =
    quantize_from-AllQuantized f r vector n (d + 1) i

pub length-quantize_from :
    (f : Float) (vector : ℕ → f.Carrier) (n d : ℕ) → length (quantize_from f vector n d) ≡ n
unfolding quantize_from
length-quantize_from f vector zero d = refl
length-quantize_from f vector (suc n) d = ap suc (length-quantize_from f vector n (d + 1))

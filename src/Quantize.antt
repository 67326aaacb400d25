-- ===== src/Quantize.antt =====
-- apps/api/internal/fraud/quantized.go and vectorize_json.go: from a floating-point coordinate to
-- `int16`, and from a label to a byte. An array of `Dimensions` entries is a function of the index.
pub mod Range
use heindall.Prelude.{
  ℕ, zero, suc, ◌+◌, Bool, if◌then◌else◌, ◌==◌, ◌&&◌, false, true, List, [], ◌∷◌,
}
use heindall.Prelude.Int.{ℤ, pos, negsuc}
use heindall.Quantized.{dimensions, quant_scale}
use heindall.Float.{Float}

abbrev pub zero_of : (f : Float) → f.Carrier
zero_of f = f.decimal (pos 0) 0

abbrev pub one_of : (f : Float) → f.Carrier
one_of f = f.decimal (pos 1) 0

abbrev pub minus_one_of : (f : Float) → f.Carrier
minus_one_of f = f.decimal (negsuc 0) 0

-- `value*QuantScale + 0.5`, converted.
abbrev pub scaled : (f : Float) → f.Carrier → ℤ
scaled f v = f.to_int16 (f.add (f.mul v (f.of_int (pos quant_scale))) (f.decimal (pos 5) 1))

-- `quantizeFloat64`; at `float32` it is the body of the loop of `QuantizeVector`.
unfoldable pub quantize_float64 : (f : Float) → f.Carrier → ℤ
quantize_float64 f value =
    let a = if f.lt value (zero_of f) then zero_of f else value in
    let b = if f.lt (one_of f) a then one_of f else a in
    if f.le value (minus_one_of f) then negsuc 9999 else scaled f b

-- The `n` entries from `d` on.
unfoldable pub quantize_from : (f : Float) → (ℕ → f.Carrier) → ℕ → ℕ → List ℤ
unfolding quantize_float64
quantize_from f vector zero d = []
quantize_from f vector (suc n) d = quantize_float64 f (vector d) ∷ quantize_from f vector n (d + 1)

unfoldable pub quantize_vector : (f : Float) → (ℕ → f.Carrier) → List ℤ
unfolding quantize_from
quantize_vector f vector = quantize_from f vector dimensions 0

-- The bytes of `"fraud"`.
abbrev pub label_fraud : List ℕ
label_fraud = 102 ∷ 114 ∷ 97 ∷ 117 ∷ 100 ∷ []

abbrev pub same_bytes : List ℕ → List ℕ → Bool
same_bytes [] [] = true
same_bytes [] (y ∷ ys) = false
same_bytes (x ∷ xs) [] = false
same_bytes (x ∷ xs) (y ∷ ys) = (x == y) && same_bytes xs ys

unfoldable pub label_byte : List ℕ → ℕ
label_byte label = if same_bytes label label_fraud then 1 else 0

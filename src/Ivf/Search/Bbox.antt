-- ===== src/Ivf/Search/Bbox.antt =====
-- The distance to a cluster's box is no more than the distance to any row in the box.
use native.Mathlib.Nat.{mul-le-mul}
use heindall.Prelude.{ℕ, zero, suc, ◌+◌, ◌*◌, ◌≤◌, ◌<◌, ◌≡◌, List, arith, Bool-cases, inl, inr}
use heindall.Prelude.Int.{ℤ, pos, negsuc, pos_part, neg_part, ltb_ℤ, ◌≤ℤ◌, ◌-ℤ◌, square}
use heindall.Quantized.{at, sq_diff, dimensions, QuantizedIndex}
use heindall.Quantized.Distance.{squared_distance}
use heindall.Ivf.Search.{gap, bbox_until, ivf_bbox_distance}

square-size : (a : ℤ) → square a ≡ (pos_part a + neg_part a) * (pos_part a + neg_part a)
unfolding square
square-size (pos n) = omega arith
square-size (negsuc n) = omega arith

square_mono : (a b : ℤ) → pos_part a + neg_part a ≤ pos_part b + neg_part b → square a ≤ square b
square_mono a b h = rw (square-size a, square-size b) (mul-le-mul h h)

diff_below :
    (q a v : ℤ)
    → q ≤ℤ a
    → a ≤ℤ v
    → pos_part (a -ℤ q) + neg_part (a -ℤ q) ≤ pos_part (q -ℤ v) + neg_part (q -ℤ v)
unfolding ◌-ℤ◌
diff_below q a v h k = ground arith

diff_above :
    (q b v : ℤ)
    → v ≤ℤ b
    → b ≤ℤ q
    → pos_part (q -ℤ b) + neg_part (q -ℤ b) ≤ pos_part (q -ℤ v) + neg_part (q -ℤ v)
unfolding ◌-ℤ◌
diff_above q b v h k = ground arith

gap-le : (q low high v : ℤ) → low ≤ℤ v → v ≤ℤ high → gap q low high ≤ sq_diff q v
unfolding gap sq_diff
gap-le q low high v h k = elim (Bool-cases (ltb_ℤ q low)) [
  | inl e ↦ rw e (square_mono _ _ (diff_below q low v (ground arith) h))
  | inr e ↦ elim (Bool-cases (ltb_ℤ high q)) [
    | inl f ↦ rw (e, f) (square_mono _ _ (diff_above q high v k (ground arith)))
    | inr f ↦ rw (e, f) (omega arith)
  ]
]

-- The sum over the dimensions from `d` on, in their order.
abbrev run_over : (ℕ → ℤ) → (ℕ → ℤ) → ℕ → ℕ → ℕ
run_over q v zero d = 0
run_over q v (suc n) d = sq_diff (q d) (v d) + run_over q v n (d + 1)

bbox_until-le :
    (q low high v : ℕ → ℤ) (cutoff : ℤ) (n d sum : ℕ)
    → ((i : ℕ) → i < d + n → (low i ≤ℤ v i) × (v i ≤ℤ high i))
    → bbox_until q low high cutoff n d sum ≤ sum + run_over q v n d
unfolding bbox_until
bbox_until-le q low high v cutoff zero d sum h = omega arith
bbox_until-le q low high v cutoff (suc n) d sum h =
    let (a, b) = h d (omega arith) in
    ground (
      arith,
      gap-le (q d) (low d) (high d) (v d) a b,
      bbox_until-le q low high v cutoff n (d + 1) (sum + gap (q d) (low d) (high d))
          (λ i lt. h i (omega arith)),
    )

run_over-squared : (q v : ℕ → ℤ) → run_over q v dimensions 0 ≡ squared_distance q v
unfolding squared_distance
run_over-squared q v = omega arith

-- A vector inside the box of a cluster is at least as far as `ivfBBoxDistance` says, whatever
-- the cutoff.
pub ivf_bbox_distance-le :
    (idx : QuantizedIndex) (query : List ℤ) (c : ℕ) (cutoff : ℤ) (v : ℕ → ℤ)
    → ((d : ℕ)
        → d < dimensions
        → (at idx.ivf.bbox_min (c * dimensions + d) ≤ℤ v d)
          × (v d ≤ℤ at idx.ivf.bbox_max (c * dimensions + d)))
    → ivf_bbox_distance idx query c cutoff ≤ℤ pos (squared_distance (at query) v)
unfolding ivf_bbox_distance
ivf_bbox_distance-le idx query c cutoff v h = omega (
  arith,
  bbox_until-le (at query) (λ d. at idx.ivf.bbox_min (c * dimensions + d))
      (λ d. at idx.ivf.bbox_max (c * dimensions + d)) v cutoff dimensions 0 0
      (λ i lt. h i (omega arith)),
  run_over-squared (at query) v,
)

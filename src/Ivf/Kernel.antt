-- ===== src/Ivf/Kernel.antt =====
-- ivf_search_avx2_amd64.s: eight distances at a time. Each step subtracts sign-extended `int16`
-- in 32-bit lanes (which cannot wrap), keeps the low 32 bits of the square, and adds them
-- sign-extended to 64-bit sums.
use heindall.Prelude.{ℕ, ◌+◌, ◌*◌, ◌/◌, ◌%◌, ◌^◌, ◌≤◌, ◌<◌, ◌≡◌, List, [], ◌∷◌, arith, ap, ◌∙◌}
use heindall.Prelude.Int.{ℤ, pos, ◌+ℤ◌, ◌-ℤ◌, square, signed32, pos_part, neg_part}
use heindall.Quantized.{dimensions, ivf_block_size, ivf_block_stride, distance_order, sq_diff}
use heindall.Quantized.Distance.{sum_over, squared_distance}

-- `VPSUBD; VPMULLD; VPMOVSXDQ`
unfoldable pub lane_term : ℤ → ℤ → ℤ
lane_term q b = signed32 (square (q -ℤ b) % 2 ^ 32)

-- The steps in the order of the macro calls.
unfoldable pub lane_sum : (ℕ → ℤ) → (ℕ → ℤ) → List ℕ → ℤ → ℤ
unfolding lane_term
lane_sum query ref [] sum = sum
lane_sum query ref (d ∷ ds) sum = lane_sum query ref ds (sum +ℤ lane_term (query d) (ref d))

unfoldable pub lane_distance : (ℕ → ℤ) → (ℕ → ℤ) → ℤ
unfolding lane_sum
lane_distance query ref = lane_sum query ref distance_order (pos 0)

-- Entry `lane` of the output; `block` is read from its first element on.
unfoldable pub quantized_block8_distances_avx2 : (ℕ → ℤ) → (ℕ → ℤ) → ℕ → ℤ
quantized_block8_distances_avx2 query block lane =
    lane_distance query (λ d. block (d * ivf_block_size + lane))

-- Four blocks one behind the other.
unfoldable pub quantized_block32_distances_avx2 : (ℕ → ℤ) → (ℕ → ℤ) → ℕ → ℤ
unfolding quantized_block8_distances_avx2
quantized_block32_distances_avx2 query block lane =
    quantized_block8_distances_avx2 query
      (λ i. block (lane / ivf_block_size * ivf_block_stride + i)) (lane % ivf_block_size)

-- Eight rows of `dimensions` entries.
unfoldable pub quantized8_distances_row_major_avx2 : (ℕ → ℤ) → (ℕ → ℤ) → ℕ → ℤ
quantized8_distances_row_major_avx2 query vectors lane =
    lane_distance query (λ d. vectors (lane * dimensions + d))

-- What `QuantizeVector` and `quantizeFloat64` produce.
pub record IsQuantized (a : ℤ) : Type 0 where
  pub above : neg_part a ≤ 10000
  pub below : pos_part a ≤ 10000

square_small : (a : ℤ) → pos_part a ≤ 20000 → neg_part a ≤ 20000 → square a < 2 ^ 31
unfolding square
square_small (pos n) h g = grind arith
square_small (ℤ.negsuc n) h g = grind arith

diff_small :
    (q b : ℤ)
    → IsQuantized q
    → IsQuantized b
    → (pos_part (q -ℤ b) ≤ 20000) × (neg_part (q -ℤ b) ≤ 20000)
unfolding ◌-ℤ◌
diff_small q b hq hb = ground arith

-- In that range the 32-bit square is the true one.
lane_term_exact : (q b : ℤ) → IsQuantized q → IsQuantized b → lane_term q b ≡ pos (sq_diff q b)
unfolding lane_term sq_diff
lane_term_exact q b hq hb =
    let small = square_small (q -ℤ b) (diff_small q b hq hb).0 (diff_small q b hq hb).1 in
    ground (arith, small)

pos_add : (a b : ℕ) → pos a +ℤ pos b ≡ pos (a + b)
unfolding ◌+ℤ◌
pos_add a b = ground arith

lane_sum_exact :
    (q r : ℕ → ℤ) (ds : List ℕ) (s : ℕ)
    → ((d : ℕ) → IsQuantized (q d))
    → ((d : ℕ) → IsQuantized (r d))
    → lane_sum q r ds (pos s) ≡ pos (s + sum_over q r ds)
unfolding lane_sum
lane_sum_exact q r [] s hq hr = ap pos (omega arith)
lane_sum_exact q r (d ∷ ds) s hq hr =
    rw (lane_term_exact (q d) (r d) (hq d) (hr d), pos_add)
      (rw (lane_sum_exact q r ds (s + sq_diff (q d) (r d)) hq hr) (ap pos (omega arith)))

-- On quantised data every lane of the vector code holds the plain squared distance.
pub lane_distance_exact :
    (q r : ℕ → ℤ)
    → ((d : ℕ) → IsQuantized (q d))
    → ((d : ℕ) → IsQuantized (r d))
    → lane_distance q r ≡ pos (squared_distance q r)
unfolding lane_distance squared_distance
lane_distance_exact q r hq hr = lane_sum_exact q r distance_order 0 hq hr ∙ ap pos (omega arith)

-- A lane of four blocks is a lane of one of them.
pub block32_lane :
    (query block : ℕ → ℤ) (k lane : ℕ)
    → lane < 8
    → quantized_block32_distances_avx2 query block (k * 8 + lane)
      ≡ quantized_block8_distances_avx2 query (λ i. block (k * ivf_block_stride + i)) lane
unfolding quantized_block32_distances_avx2
block32_lane query block k lane h =
    let low : (k * 8 + lane) / 8 ≡ k = omega arith in
    let high : (k * 8 + lane) % 8 ≡ lane = omega arith in rw (low, high)

-- ===== src/Quantized/Distance.antt =====
-- The distance with early exit against the plain squared distance.
use heindall.Prelude.{ℕ, ◌+◌, ◌*◌, ◌^◌, ◌≤◌, ◌<◌, ◌≡◌, refl, true, List, [], ◌∷◌, arith}
use heindall.Prelude.Int.{ℤ, pos, negsuc, ◌-ℤ◌, pos_part, neg_part, leb_ℤ, ltb_ℤ, square}
use heindall.Quantized.{at, sq_diff, distance_order, add_until, quantized_distance}

-- The sum over the listed dimensions, with no exit.
abbrev pub sum_over : (ℕ → ℤ) → (ℕ → ℤ) → List ℕ → ℕ
sum_over query ref [] = 0
sum_over query ref (d ∷ ds) = sq_diff (query d) (ref d) + sum_over query ref ds

-- The squared distance that the search is about.
unfoldable pub squared_distance : (ℕ → ℤ) → (ℕ → ℤ) → ℕ
squared_distance query ref = sum_over query ref distance_order

-- The exit never changes a result below the cutoff, and never reports more than the true value.
pub record IsCut (cutoff : ℤ) (total result : ℕ) : Type 0 where
  pub at_most : result ≤ total
  pub exact : ltb_ℤ (pos total) cutoff ≡ true → result ≡ total
  pub cut : leb_ℤ cutoff (pos total) ≡ true → leb_ℤ cutoff (pos result) ≡ true

add_until-IsCut :
    (q r : ℕ → ℤ) (cutoff : ℤ) (ds : List ℕ) (sum : ℕ)
    → IsCut cutoff (sum + sum_over q r ds) (add_until q r cutoff ds sum)
unfolding add_until
add_until-IsCut q r cutoff [] sum = ground arith
add_until-IsCut q r cutoff (d ∷ ds) sum =
    ground (arith, add_until-IsCut q r cutoff ds (sum + sq_diff (q d) (r d)))

-- For every query, row and cutoff: a distance below the cutoff is reported exactly, one at or
-- above the cutoff is reported as at least the cutoff, and none is reported above its true value.
pub quantized_distance-IsCut :
    (query ref : List ℤ) (cutoff : ℤ)
    → (n : ℕ) × (quantized_distance query ref cutoff ≡ pos n)
      × IsCut cutoff (squared_distance (at query) (at ref)) n
unfolding quantized_distance squared_distance
quantized_distance-IsCut query ref cutoff = (
  add_until (at query) (at ref) cutoff distance_order 0,
  refl,
  ground (arith, add_until-IsCut (at query) (at ref) cutoff distance_order 0),
)

-- An `int16`.
pub record IsInt16 (a : ℤ) : Type 0 where
  pub below : pos_part a ≤ 32767
  pub above : neg_part a ≤ 32768

square_bound : (a : ℤ) (n : ℕ) → pos_part a ≤ n → neg_part a ≤ n → square a ≤ n * n
unfolding square
square_bound (pos k) n h g = grind arith
square_bound (negsuc k) n h g = grind arith

sq_diff_bound : (a b : ℤ) → IsInt16 a → IsInt16 b → sq_diff a b ≤ 65535 * 65535
unfolding sq_diff
sq_diff_bound a b ha hb =
    square_bound (a -ℤ b) 65535 (part_bound a b ha hb).0 (part_bound a b ha hb).1
  where
    part_bound :
        (a b : ℤ)
        → IsInt16 a
        → IsInt16 b
        → (pos_part (a -ℤ b) ≤ 65535) × (neg_part (a -ℤ b) ≤ 65535)
    part_bound a b ha hb = unfold ◌-ℤ◌ in ground arith

-- On `int16` data the distance stays below 2 ^ 36, so the `int64` sums never overflow.
pub squared_distance_bound :
    (q r : ℕ → ℤ)
    → ((d : ℕ) → IsInt16 (q d))
    → ((d : ℕ) → IsInt16 (r d))
    → squared_distance q r < 2 ^ 36
unfolding squared_distance
squared_distance_bound q r hq hr =
    let b = λ (d : ℕ). sq_diff_bound (q d) (r d) (hq d) (hr d) in
    omega (arith, b 0, b 1, b 2, b 3, b 4, b 5, b 6, b 7, b 8, b 9, b 10, b 11, b 12, b 13)

-- For a query and a row of `int16`, `quantizedDistance` with any cutoff stays below 2 ^ 36, so its
-- `int64` sum cannot overflow.
pub quantized_distance_bound :
    (query ref : List ℤ) (cutoff : ℤ)
    → ((d : ℕ) → IsInt16 (at query d))
    → ((d : ℕ) → IsInt16 (at ref d))
    → (n : ℕ) × (quantized_distance query ref cutoff ≡ pos n) × (n < 2 ^ 36)
quantized_distance_bound query ref cutoff hq hr =
    let (n, e, cut) = quantized_distance-IsCut query ref cutoff in
    (n, e, omega (arith, cut.at_most, squared_distance_bound (at query) (at ref) hq hr))

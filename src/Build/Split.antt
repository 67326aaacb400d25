-- ===== src/Build/Split.antt =====
-- `balancedSplit` and `maxVarianceDimension` in ivf_build.go. The slices that are sorted and
-- written in place are the two lists of `SplitState`.
pub mod Ranges
pub mod Orders
use heindall.Prelude.{
  ℕ, zero, suc, ◌+◌, ◌-◌, ◌*◌, ◌/◌, ◌==◌, Bool, true, false, if◌then◌else◌, ltb, List, [], ◌∷◌,
  ◌++◌, set, take, drop, length,
}
use heindall.Prelude.Int.{ℤ, pos, negsuc, ◌+ℤ◌, ◌*ℤ◌, ltb_ℤ, ◌==ℤ◌, wrap64}
use heindall.Quantized.{at, dimensions}
use heindall.Float.{Float}
use heindall.Sort.{sort_slice}

pub record IvfBuildRange : Type 0 where
  pub start : ℕ
  pub end : ℕ

pub record SplitState : Type 0 where
  pub ids : List ℕ
  pub ranges : List IvfBuildRange

-- `ids[r.start:r.end]`
abbrev pub window : List ℕ → IvfBuildRange → List ℕ
window ids r = take (r.end - r.start) (drop r.start ids)

-- `sums[d]` and `sumSquares[d]`, over the rows that are left; the loop over `d` is outside.
unfoldable pub moments : List ℤ → ℕ → List ℕ → ℤ → ℤ → ℤ × ℤ
moments vectors d [] sum squares = (sum, squares)
moments vectors d (id ∷ ids) sum squares =
    let v = at vectors (id * dimensions + d) in
    moments vectors d ids (wrap64 (sum +ℤ v)) (wrap64 (squares +ℤ v *ℤ v))

unfoldable pub variance : (f : Float) → List ℤ → List ℕ → ℕ → f.Carrier
unfolding moments
variance f vectors rows d =
    let (sum, squares) = moments vectors d rows (pos 0) (pos 0) in
    let count = f.of_int (pos (length rows)) in
    let mean = f.quo (f.of_int sum) count in
    f.sub (f.quo (f.of_int squares) count) (f.mul mean mean)

-- The loop that picks the dimension, with the dimensions that are left.
unfoldable pub widest : (f : Float) → List ℤ → List ℕ → ℕ → ℕ → ℕ → f.Carrier → ℕ
unfolding variance
widest f vectors rows zero d best_dim best_variance = best_dim
widest f vectors rows (suc n) d best_dim best_variance =
    let v = variance f vectors rows d in
    let wider = f.lt best_variance v in
    widest f vectors rows n (d + 1) (if wider then d else best_dim)
      (if wider then v else best_variance)

unfoldable pub max_variance_dimension : Float → List ℤ → List ℕ → ℕ
unfolding widest
max_variance_dimension f vectors rows =
    widest f vectors rows dimensions 0 0 (f.decimal (negsuc 0) 0)

-- The comparison of the sort: by coordinate `dim`, then by id.
abbrev pub is_before : List ℤ → ℕ → ℕ → ℕ → Bool
is_before vectors dim left right =
    let lv = at vectors (left * dimensions + dim) in
    let rv = at vectors (right * dimensions + dim) in
    if lv ==ℤ rv then ltb left right else ltb_ℤ lv rv

-- `sort.Slice(window, ...)` for the part of `ids` from `start` to `end`.
unfoldable pub sort_window : List ℤ → ℕ → ℕ → ℕ → List ℕ → List ℕ
sort_window vectors dim start end ids =
    take start ids
    ++ (sort_slice (is_before vectors dim) (take (end - start) (drop start ids))
        ++ drop (end - start) (drop start ids))

-- With fuel for the depth of the recursion; `clusterCount` is halved in every call.
unfoldable pub balanced_split : Float → List ℤ → ℕ → ℕ → ℕ → ℕ → ℕ → SplitState → SplitState
unfolding max_variance_dimension sort_window
balanced_split f vectors zero start end base count s = s
balanced_split f vectors (suc fuel) start end base count s = elim (count == 1) [
  | true ↦ record s { ranges = set s.ranges base (record { start = start; end = end }) }
  | false ↦
      let dim =
        max_variance_dimension f vectors (window s.ids (record { start = start; end = end })) in
      let sorted = record s { ids = sort_window vectors dim start end s.ids } in
      let mid = start + (end - start) / 2 in
      let half = count / 2 in
      balanced_split f vectors fuel mid end (base + half) half
        (balanced_split f vectors fuel start mid base half sorted)
]

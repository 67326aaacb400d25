-- ===== src/Build/Index/Errors.antt =====
-- The errors of `BuildIVFIndex`.
use heindall.Prelude.{
  ℕ, ◌^◌, ◌<◌, ◌≡◌, ◌↔◌, refl, ap, inl, inr, ◌⊎◌, true, false, not, ◌||◌, ◌==◌, Bool-cases, List,
  length, arith,
}
use heindall.Prelude.Int.{ℤ, pos, negsuc, leb_ℤ, ltb_ℤ, ◌≤ℤ◌}
use heindall.Quantized.{QuantizedIndex}
use heindall.Float.{Float}
use heindall.Build.{is_power_of_two, highest_power_of_two_le}
use heindall.Build.Numbers.{highest_power_of_two_le_lem}
use heindall.Build.Materialize.{IvfBuildOptions}
use heindall.Build.Index.{
  Reference, BuildError, empty_dataset, bad_clusters, chosen_clusters, build_ivf_index,
}
use heindall.Build.Index.Powers.{is_power_of_two-pow, pow-is_power_of_two}

guard : (z : ℤ) → (leb_ℤ z (pos 0) || not (is_power_of_two z)) ≡ not (is_power_of_two z)
unfolding is_power_of_two
guard z = ground arith

-- Results of different kinds have different codes.
code_of : BuildError ⊎ QuantizedIndex → ℕ
code_of (inl empty_dataset) = 0
code_of (inl bad_clusters) = 1
code_of (inr idx) = 2

-- A default or corrected number of clusters is a power of two.
corrected :
    (clusters : ℤ) (n : ℕ)
    → 0 < n
    → n < 2 ^ 63
    → (clusters ≤ℤ pos 0) ⊎ (ltb_ℤ (pos n) clusters ≡ true)
    → is_power_of_two (chosen_clusters clusters n) ≡ true
unfolding chosen_clusters
corrected clusters n h small why =
    let (j, is, _, _) = highest_power_of_two_le_lem n h small in
    let cut : is_power_of_two (pos (highest_power_of_two_le (pos n))) ≡ true =
      rw is (pow-is_power_of_two j) in
    elim (Bool-cases (leb_ℤ clusters (pos 0))) [
      | inl none ↦ elim (Bool-cases (ltb_ℤ (pos n) (pos 8192))) [
        | inl few ↦ rw (none, few) cut
        | inr many ↦ rw (none, many) (pow-is_power_of_two 13)
      ]
      | inr some ↦ let many : ltb_ℤ (pos n) clusters ≡ true = ground arith in rw (some, many) cut
    ]

-- A number of clusters that the rows allow is taken.
taken :
    (clusters : ℤ) (n : ℕ)
    → leb_ℤ clusters (pos 0) ≡ false
    → ltb_ℤ (pos n) clusters ≡ false
    → chosen_clusters clusters n ≡ clusters
unfolding chosen_clusters
taken clusters n some few = rw (some, few)

abbrev IsPower : ℤ → Type 0
IsPower z = (k : ℕ) × (z ≡ pos (2 ^ k))

is_power_of_two_iff : (z : ℤ) → leb_ℤ z (pos 0) ≡ false → (is_power_of_two z ≡ false) ↔ ¬ IsPower z
is_power_of_two_iff (pos v) h = (
  λ bad (k, e). (let good = pow-is_power_of_two k in absurd (cc)),
  λ none. elim (Bool-cases (is_power_of_two (pos v))) [
    | inl good ↦ let (k, e) = is_power_of_two-pow v good in absurd (none (k, ap pos e))
    | inr e ↦ e
  ],
)
is_power_of_two_iff (negsuc v) h = absurd (ground arith)

-- Only a number of clusters from one to the number of rows can fail.
chosen_clusters_bad :
    (clusters : ℤ) (n : ℕ)
    → 0 < n
    → n < 2 ^ 63
    → (is_power_of_two (chosen_clusters clusters n) ≡ false)
      ↔ ((pos 1 ≤ℤ clusters) × (clusters ≤ℤ pos n) × ¬ IsPower clusters)
chosen_clusters_bad clusters n h small = elim (Bool-cases (leb_ℤ clusters (pos 0))) [
  | inl none ↦ (
    λ bad. absurd (let good = corrected clusters n h small (inl (ground arith)) in cc),
    λ (one, _, _). absurd (ground arith),
  )
  | inr some ↦ elim (Bool-cases (ltb_ℤ (pos n) clusters)) [
    | inl many ↦ (
      λ bad. absurd (let good = corrected clusters n h small (inr many) in cc),
      λ (_, le, _). absurd (ground arith),
    )
    | inr few ↦
        let (out, back) = is_power_of_two_iff clusters some in
        rw (taken clusters n some few)
          (λ bad. (ground arith, ground arith, out bad), λ (_, _, other). back other)
  ]
]

-- `BuildIVFIndex` of fewer than 2 ^ 63 references fails in two cases: without references, and,
-- with references, when the number of clusters asked for is at least one, at most the number of
-- references, and not a power of two. A number that is not positive or too large is replaced and
-- does not fail.
pub build_ivf_index_errors :
    (f64 f32 : Float) (refs : List (Reference f32)) (opts : IvfBuildOptions)
    → length refs < 2 ^ 63
    → ((build_ivf_index f64 f32 refs opts ≡ inl empty_dataset) ↔ (length refs ≡ 0))
      × ((build_ivf_index f64 f32 refs opts ≡ inl bad_clusters) ↔ (
          (0 < length refs)
          × (pos 1 ≤ℤ opts.clusters)
          × (opts.clusters ≤ℤ pos (length refs))
          × ¬ ((k : ℕ) × (opts.clusters ≡ pos (2 ^ k)))))
unfolding build_ivf_index code_of
build_ivf_index_errors f64 f32 refs opts small = elim (Bool-cases (length refs == 0)) [
  | inl none ↦ rw none (
    (λ e. ground arith, λ z. refl),
    (λ e. absurd (omega (arith, ap code_of e)), λ (p, _, _, _). absurd (ground arith)),
  )
  | inr some_row ↦
      let rows : 0 < length refs = ground arith in
      let (out, back) = chosen_clusters_bad opts.clusters (length refs) rows small in
      rw (some_row, guard (chosen_clusters opts.clusters (length refs)))
        (elim (Bool-cases (is_power_of_two (chosen_clusters opts.clusters (length refs)))) [
          | inl power ↦ rw power (
            (λ e. absurd (omega (arith, ap code_of e)), λ z. absurd (ground arith)),
            (
              λ e. absurd (omega (arith, ap code_of e)),
              λ (_, q1, q2, q3). absurd (let bad = back (q1, q2, q3) in cc),
            ),
          )
          | inr power ↦ rw power (
            (λ e. absurd (omega (arith, ap code_of e)), λ z. absurd (ground arith)),
            (λ e. (let (one, most, other) = out power in (rows, one, most, other)), λ h. refl),
          )
        ])
]

-- ===== src/Calendar/Days.antt =====
-- `daysFromCivil` counts the days of the proleptic Gregorian calendar.
use mathlib.Core.Path.{subst}
use heindall.Prelude.{
  ℕ, ◌+◌, ◌-◌, ◌*◌, ◌/◌, ◌%◌, ◌==◌, ◌≤◌, ◌≡◌, refl, inl, inr, Bool, true, false, not, ◌&&◌, ◌||◌,
  Bool-cases, if◌then◌else◌, ltb, leb, arith,
}
use heindall.Prelude.Int.{ℤ, pos, ◌+ℤ◌, ◌-ℤ◌, ◌*ℤ◌, ltb_ℤ, leb_ℤ}
use heindall.Calendar.{days_from_civil, div_floor, quot}

add_pos : (a b : ℕ) → pos a +ℤ pos b ≡ pos (a + b)
unfolding ◌+ℤ◌
add_pos a b = ground arith

sub_pos : (a b : ℕ) → b ≤ a → pos a -ℤ pos b ≡ pos (a - b)
unfolding ◌-ℤ◌
sub_pos a b h = ground arith

mul_pos : (a b : ℕ) → pos a *ℤ pos b ≡ pos (a * b)
unfolding ◌*ℤ◌
mul_pos a b = ground arith

div_floor_pos : (a n : ℕ) → div_floor (pos a) n ≡ pos (a / n)
unfolding div_floor
div_floor_pos a n = ground arith

-- The year that starts in March, and its months from 0.
abbrev march_year : ℕ → ℕ → ℕ
march_year y m = if leb m 2 then y - 1 else y

abbrev march_month : ℕ → ℕ
march_month m = if ltb 2 m then m - 3 else m + 9

-- The same sums on natural numbers.
abbrev count_days : ℕ → ℕ → ℕ → ℕ
count_days y mp d =
    y / 400 * 146097 + (y % 400 * 365 + y % 400 / 4 - y % 400 / 100 + ((153 * mp + 2) / 5 + d - 1))

year_part :
    (y m : ℕ)
    → 1 ≤ y
    → (if leb_ℤ (pos m) (pos 2) then pos y -ℤ pos 1 else pos y) ≡ pos (march_year y m)
year_part y m h = elim (Bool-cases (leb m 2)) [
  | inl e ↦ let e' : leb_ℤ (pos m) (pos 2) ≡ true = ground arith in rw (e, e') (sub_pos y 1 h)
  | inr e ↦ let e' : leb_ℤ (pos m) (pos 2) ≡ false = ground arith in rw (e, e')
]

month_part :
    (m : ℕ)
    → (if ltb_ℤ (pos 2) (pos m) then pos m -ℤ pos 3 else pos m +ℤ pos 9) ≡ pos (march_month m)
month_part m = elim (Bool-cases (ltb 2 m)) [
  | inl e ↦
      let e' : ltb_ℤ (pos 2) (pos m) ≡ true = ground arith in
      rw (e, e') (sub_pos m 3 (ground arith))
  | inr e ↦ let e' : ltb_ℤ (pos 2) (pos m) ≡ false = ground arith in rw (e, e') (add_pos m 9)
]

days_of_parts :
    (y mp d : ℕ)
    → 1 ≤ d
    → pos (y / 400) *ℤ pos 146097
        +ℤ ((pos y -ℤ pos (y / 400) *ℤ pos 400) *ℤ pos 365
            +ℤ quot (pos y -ℤ pos (y / 400) *ℤ pos 400) 4
            -ℤ quot (pos y -ℤ pos (y / 400) *ℤ pos 400) 100
            +ℤ (quot (pos 153 *ℤ pos mp +ℤ pos 2) 5 +ℤ pos d -ℤ pos 1))
      ≡ pos (count_days y mp d)
unfolding quot
days_of_parts y mp d h =
    let rest : y - y / 400 * 400 ≡ y % 400 = omega arith in
    rw
      (
        mul_pos (y / 400) 400,
        sub_pos y (y / 400 * 400) (omega arith),
        rest,
        mul_pos (y % 400) 365,
        mul_pos 153 mp,
        add_pos (153 * mp) 2,
        add_pos ((153 * mp + 2) / 5) d,
        sub_pos ((153 * mp + 2) / 5 + d) 1 (omega arith),
        add_pos (y % 400 * 365) (y % 400 / 4),
        sub_pos (y % 400 * 365 + y % 400 / 4) (y % 400 / 100) (omega arith),
        mul_pos (y / 400) 146097,
      )
      (rw
        (
          add_pos (y % 400 * 365 + y % 400 / 4 - y % 400 / 100) ((153 * mp + 2) / 5 + d - 1),
          add_pos (y / 400 * 146097)
              (y % 400 * 365 + y % 400 / 4 - y % 400 / 100 + ((153 * mp + 2) / 5 + d - 1)),
        )
        refl)

abbrev civil_days : ℕ → ℕ → ℕ → ℕ
civil_days y m d = count_days (march_year y m) (march_month m) d

days_from_civil-civil_days :
    (y m d : ℕ)
    → 1 ≤ y
    → 1 ≤ d
    → days_from_civil (pos y) (pos m) (pos d) ≡ pos (civil_days y m d) -ℤ pos 719468
unfolding days_from_civil
days_from_civil-civil_days y m d h k =
    rw
      (
        year_part y m h,
        month_part m,
        div_floor_pos (march_year y m) 400,
        days_of_parts (march_year y m) (march_month m) d k,
      )
      refl

-- The Gregorian rule.
abbrev pub is_leap : ℕ → Bool
is_leap y = (y % 4 == 0) && (not (y % 100 == 0) || (y % 400 == 0))

abbrev pub month_length : ℕ → ℕ → ℕ
month_length y m =
    if m == 2
    then if is_leap y then 29 else 28
    else if (m == 4) || (m == 6) || (m == 9) || (m == 11)
    then 30
    else 31

count_february : (y : ℕ) → count_days (y + 1) 0 1 ≡ count_days y 11 (month_length (y + 1) 2) + 1
count_february y = ground arith

next_month :
    (y m : ℕ)
    → 1 ≤ y
    → 1 ≤ m
    → m ≤ 11
    → (m == 2) ≡ false
    → civil_days y (m + 1) 1 ≡ civil_days y m (month_length y m) + 1
next_month y m h a b c = ground arith

next_year : (y : ℕ) → 1 ≤ y → civil_days (y + 1) 1 1 ≡ civil_days y 12 31 + 1
next_year y h = ground arith

next_count :
    (y m : ℕ)
    → 1 ≤ y
    → 1 ≤ m
    → m ≤ 11
    → civil_days y (m + 1) 1 ≡ civil_days y m (month_length y m) + 1
next_count y m h a b = elim (Bool-cases (m == 2)) [
  | inl e ↦
      let is : m ≡ 2 = ground arith in
      let up : y - 1 + 1 ≡ y = omega arith in
      rw is (
        subst (λ k. count_days k 0 1 ≡ count_days (y - 1) 11 (month_length k 2) + 1) up
          (count_february (y - 1)))
  | inr e ↦ next_month y m h a b e
]

one_more : (a b : ℕ) → a ≡ b + 1 → pos a -ℤ pos 719468 ≡ pos b -ℤ pos 719468 +ℤ pos 1
unfolding ◌+ℤ◌ ◌-ℤ◌
one_more a b e = ground arith

-- The first day of the month behind month `m` of year `y`.
abbrev pub first_of_next : ℕ → ℕ → ℤ
first_of_next y m =
    if m == 12
    then days_from_civil (pos (y + 1)) (pos 1) (pos 1)
    else days_from_civil (pos y) (pos (m + 1)) (pos 1)

-- From year 1 on, `daysFromCivil` gives the next day of a month the next number, and gives the
-- first day of a month the number behind the last day of the month before, with the Gregorian
-- lengths of the months.
pub days_from_civil-next :
    (y m d : ℕ)
    → 1 ≤ y
    → 1 ≤ m
    → m ≤ 12
    → 1 ≤ d
    → (days_from_civil (pos y) (pos m) (pos (d + 1))
        ≡ days_from_civil (pos y) (pos m) (pos d) +ℤ pos 1)
      × (first_of_next y m ≡ days_from_civil (pos y) (pos m) (pos (month_length y m)) +ℤ pos 1)
days_from_civil-next y m d hy hm mh hd =
    let last : 1 ≤ month_length y m = ground arith in
    (
      rw
          (
            days_from_civil-civil_days y m (d + 1) hy (omega arith),
            days_from_civil-civil_days y m d hy hd,
          )
          (one_more (civil_days y m (d + 1)) (civil_days y m d) (omega arith)),
      elim (Bool-cases (m == 12)) [
        | inl e ↦
            let is : m ≡ 12 = ground arith in
            rw
              (
                is,
                days_from_civil-civil_days (y + 1) 1 1 (omega arith) (omega arith),
                days_from_civil-civil_days y 12 31 hy (omega arith),
              )
              (one_more (civil_days (y + 1) 1 1) (civil_days y 12 31) (next_year y hy))
        | inr e ↦
            rw
              (
                e,
                days_from_civil-civil_days y (m + 1) 1 hy (omega arith),
                days_from_civil-civil_days y m (month_length y m) hy last,
              )
              (one_more (civil_days y (m + 1) 1) (civil_days y m (month_length y m))
                (next_count y m hy hm (ground arith)))
      ],
    )

-- ===== src/Calendar.antt =====
-- apps/api/internal/fraud/vectorize_json.go: the times of a JSON timestamp. A timestamp is the
-- list of the bytes of the buffer from its first one on, since Go checks the bounds of a slice
-- against the capacity; an index or a bound behind the end panics, which is `none`.
pub mod Days
use heindall.Prelude.{
  ℕ, zero, suc, ◌+◌, ◌-◌, ◌*◌, ◌/◌, ◌%◌, ◌==◌, Bool, true, false, not, ◌&&◌, List, Option, none,
  some, ◌>>=◌, if◌then◌else◌, get_elem?, slice, ltb, leb,
}
use heindall.Prelude.Int.{ℤ, pos, negsuc, pos_part, neg_part, ◌+ℤ◌, ◌-ℤ◌, ◌*ℤ◌, ltb_ℤ, leb_ℤ, ◌==ℤ◌}

-- `int(b - '0')` for a byte, with the wrap-around of `uint8`.
unfoldable pub digit : ℕ → ℕ
digit b = (b + 256 - 48) % 256

unfoldable pub parse2 : List ℕ → Option ℕ
unfolding digit
parse2 text = do a ← get_elem? text 0; b ← get_elem? text 1; some (digit a * 10 + digit b)

unfoldable pub parse4 : List ℕ → Option ℕ
unfolding parse2
parse4 text = do
  first ← slice text 0 2
  second ← slice text 2 4
  high ← parse2 first
  low ← parse2 second
  some (high * 100 + low)

-- Go's `/` and `%` by a positive number, rounding to 0.
unfoldable pub quot : ℤ → ℕ → ℤ
quot (pos a) n = pos (a / n)
quot (negsuc a) n = pos 0 -ℤ pos (suc a / n)

unfoldable pub rem : ℤ → ℕ → ℤ
rem (pos a) n = pos (a % n)
rem (negsuc a) n = pos 0 -ℤ pos (suc a % n)

-- For a positive `b`, the only one that is passed.
unfoldable pub div_floor : ℤ → ℕ → ℤ
unfolding quot rem
div_floor a b =
    let q = quot a b in
    let r = rem a b in if not (r ==ℤ pos 0) && ltb_ℤ r (pos 0) then q -ℤ pos 1 else q

-- The numbers are small: at most four digits each.
unfoldable pub days_from_civil : ℤ → ℤ → ℤ → ℤ
unfolding div_floor quot
days_from_civil year m d =
    let y = if leb_ℤ m (pos 2) then year -ℤ pos 1 else year in
    let era = div_floor y 400 in
    let yoe = y -ℤ era *ℤ pos 400 in
    let mp = if ltb_ℤ (pos 2) m then m -ℤ pos 3 else m +ℤ pos 9 in
    let doy = quot (pos 153 *ℤ mp +ℤ pos 2) 5 +ℤ d -ℤ pos 1 in
    let doe = yoe *ℤ pos 365 +ℤ quot yoe 4 -ℤ quot yoe 100 +ℤ doy in
    era *ℤ pos 146097 +ℤ doe -ℤ pos 719468

-- Year, month and day.
unfoldable pub civil_of : List ℕ → Option (ℕ × ℕ × ℕ)
unfolding parse4 parse2
civil_of ts = do
  ys ← slice ts 0 4
  y ← parse4 ys
  ms ← slice ts 5 7
  m ← parse2 ms
  ds ← slice ts 8 10
  d ← parse2 ds
  some (y, m, d)

unfoldable pub weekday_monday0 : List ℕ → Option ℤ
unfolding civil_of days_from_civil rem
weekday_monday0 ts = do
  (y, m, d) ← civil_of ts
  some (rem (days_from_civil (pos y) (pos m) (pos d) +ℤ pos 3) 7)

unfoldable pub epoch_minutes : List ℕ → Option ℤ
unfolding civil_of days_from_civil parse2
epoch_minutes ts = do
  (y, m, d) ← civil_of ts
  hs ← slice ts 11 13
  hh ← parse2 hs
  ns ← slice ts 14 16
  mm ← parse2 ns
  some (days_from_civil (pos y) (pos m) (pos d) *ℤ pos 1440 +ℤ pos (hh * 60 + mm))

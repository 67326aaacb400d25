-- ===== src/Vectorize/Numbers.antt =====
-- Numbers in vectorize_json.go: `numberAfter`, `parseFloatBytes` and the risk of a category.
use heindall.Prelude.{
  ℕ, ◌+◌, ◌-◌, ◌*◌, ◌==◌, Bool, true, false, not, ◌&&◌, ◌||◌, List, [], ◌∷◌, Option, none, some,
  if◌then◌else◌, leb, length, drop, slice, get_or,
}
use heindall.Prelude.Int.{pos}
use heindall.Float.{Float}
use heindall.Quantize.{zero_of}
use heindall.JsonScan.{count_while, is_prefix_byte, find_key}

abbrev pub Scan : Type 0 → Type 0
Scan A = Option (Option A)

infixl 5 ◌>>=◌
abbrev pub ◌>>=◌ : {A B : Type 0} → Scan A → (A → Scan B) → Scan B
none >>= f = none
some none >>= f = some none
some (some a) >>= f = f a

abbrev pub found : {A : Type 0} → A → Scan A
found a = some (some a)

-- What can panic, and nothing else.
abbrev pub lift : {A : Type 0} → Option A → Scan A
lift none = none
lift (some a) = some (some a)

abbrev pub is_digit : ℕ → Bool
is_digit b = leb 48 b && leb b 57

abbrev pub is_number_byte : ℕ → Bool
is_number_byte b = is_digit b || ((b == 46) || (b == 45))

-- What is left, the value, and `seenDigit`.
pub record Parsed (f : Float) : Type 0 where
  pub rest : List ℕ
  pub value : f.Carrier
  pub seen : Bool

-- The loop before the point.
unfoldable pub parse_whole : (f : Float) → List ℕ → f.Carrier → Bool → Parsed f
parse_whole f [] value seen = record { rest = []; value = value; seen = seen }
parse_whole f (b ∷ bs) value seen =
    let more =
      parse_whole f bs (f.add (f.mul value (f.of_int (pos 10))) (f.of_int (pos (b - 48)))) true in
    if is_digit b then more else record { rest = b ∷ bs; value = value; seen = seen }

-- The loop behind the point.
unfoldable pub parse_fraction : (f : Float) → List ℕ → f.Carrier → f.Carrier → Bool → Parsed f
parse_fraction f [] value factor seen = record { rest = []; value = value; seen = seen }
parse_fraction f (b ∷ bs) value factor seen =
    let more =
      parse_fraction f bs (f.add value (f.mul (f.of_int (pos (b - 48))) factor))
        (f.mul factor (f.decimal (pos 1) 1)) true in
    if is_digit b then more else record { rest = b ∷ bs; value = value; seen = seen }

unfoldable pub parse_point : (f : Float) → List ℕ → f.Carrier → Bool → Parsed f
unfolding parse_fraction
parse_point f [] value seen = record { rest = []; value = value; seen = seen }
parse_point f (b ∷ bs) value seen =
    if b == 46
    then parse_fraction f bs value (f.decimal (pos 1) 1) seen
    else record { rest = b ∷ bs; value = value; seen = seen }

-- The part behind the sign.
unfoldable pub parse_unsigned : (f : Float) → List ℕ → Option f.Carrier
unfolding parse_whole parse_point
parse_unsigned f bs =
    let whole = parse_whole f bs (zero_of f) false in
    let all = parse_point f whole.rest whole.value whole.seen in
    if not all.seen || not (length all.rest == 0) then none else some all.value

unfoldable pub parse_float_bytes : (f : Float) → List ℕ → Option f.Carrier
unfolding parse_unsigned
parse_float_bytes f [] = none
parse_float_bytes f (b ∷ bs) =
    if b == 45
    then elim (parse_unsigned f bs) [ none ↦ none | some v ↦ some (f.neg v) ]
    else parse_unsigned f (b ∷ bs)

unfoldable pub number_from : (f : Float) → List ℕ → ℕ → Scan f.Carrier
unfolding count_while parse_float_bytes
number_from f text key_end =
    let pos = key_end + count_while is_prefix_byte (drop key_end text) in
    let end = pos + count_while is_number_byte (drop pos text) in
    if end == pos
    then some none
    else elim (slice text pos end) [ none ↦ none | some part ↦ some (parse_float_bytes f part) ]

unfoldable pub number_after :
    (f : Float) → (List ℕ → List ℕ → Option ℕ) → List ℕ → List ℕ → ℕ → Scan f.Carrier
unfolding find_key number_from
number_after f index text key start = find_key index text key start >>= number_from f text

-- Four bytes in a word, the first one in front.
abbrev pub word : ℕ → ℕ → ℕ → ℕ → ℕ
word a b c d = a * 16777216 + b * 65536 + c * 256 + d

-- The cases of the switch, in hundredths.
abbrev pub known_risk : ℕ → Option ℕ
known_risk code =
    if code == word 53 52 49 49
    then some 15
    else if code == word 53 56 49 50
    then some 30
    else if code == word 53 57 49 50
    then some 20
    else if code == word 53 57 52 52
    then some 45
    else if code == word 55 56 48 49
    then some 80
    else if code == word 55 56 48 50
    then some 75
    else if code == word 55 57 57 53
    then some 85
    else if code == word 52 53 49 49
    then some 35
    else if code == word 53 51 49 49
    then some 25
    else if code == word 53 57 57 57
    then some 50
    else none

unfoldable pub mcc_risk_value_bytes_known : (f : Float) → List ℕ → Option f.Carrier
mcc_risk_value_bytes_known f mcc =
    let code = word (get_or mcc 0 0) (get_or mcc 1 0) (get_or mcc 2 0) (get_or mcc 3 0) in
    if not (length mcc == 4)
    then none
    else elim (known_risk code) [ none ↦ none | some r ↦ some (f.decimal (pos r) 2) ]

unfoldable pub mcc_risk_value_bytes_fast : (f : Float) → List ℕ → f.Carrier
unfolding mcc_risk_value_bytes_known
mcc_risk_value_bytes_fast f mcc = elim (mcc_risk_value_bytes_known f mcc) [
  | none ↦ f.decimal (pos 5) 1
  | some v ↦ v
]

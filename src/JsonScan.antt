-- ===== src/JsonScan.antt =====
-- apps/api/internal/fraud/vectorize_json.go: the scanners for strings and flags behind a key, on
-- a list of bytes. A panic is the outer `none`; the second result `false` is the inner `none`.
-- `bytes.Index` (`none` for -1) and `bytes.HasPrefix` are parameters.
pub mod Total
pub mod Merchant
use heindall.Prelude.Int.{ℤ, pos}
use heindall.Quantized.{quant_scale}
use heindall.Prelude.{
  ℕ, zero, suc, ◌+◌, ◌-◌, ◌==◌, Bool, true, false, not, ◌&&◌, ◌||◌, List, [], ◌∷◌, Option, none,
  some, ◌>>=◌, if◌then◌else◌, length, drop, slice, ltb, leb,
}

-- How far `for pos < len(data) && test(data[pos]) { pos++ }` runs on the rest of the data.
unfoldable pub count_while : (ℕ → Bool) → List ℕ → ℕ
count_while test [] = 0
count_while test (b ∷ bs) = let rest = count_while test bs in if test b then suc rest else 0

-- `data[pos] != '"'`
abbrev pub is_no_quote : ℕ → Bool
is_no_quote b = not (b == 34)

-- `data[pos] == ':' || data[pos] <= ' '`
abbrev pub is_prefix_byte : ℕ → Bool
is_prefix_byte b = (b == 58) || leb b 32

unfoldable pub skip_value_prefix : List ℕ → List ℕ
skip_value_prefix [] = []
skip_value_prefix (b ∷ bs) =
    let rest = skip_value_prefix bs in if is_prefix_byte b then rest else b ∷ bs

-- `"true"` and `"false"`.
abbrev pub true_bytes : List ℕ
true_bytes = 116 ∷ 114 ∷ 117 ∷ 101 ∷ []

abbrev pub false_bytes : List ℕ
false_bytes = 102 ∷ 97 ∷ 108 ∷ 115 ∷ 101 ∷ []

-- The end of the key in the data; the slice `data[start:]` comes first.
unfoldable pub find_key : (List ℕ → List ℕ → Option ℕ) → List ℕ → List ℕ → ℕ → Option (Option ℕ)
find_key index text key start = do
  rest ← slice text start (length text)
  some (elim (index rest key) [ none ↦ none | some i ↦ some (start + i + length key) ])

unfoldable pub string_from : List ℕ → ℕ → Option (Option (List ℕ))
unfolding count_while
string_from text key_end =
    let pos = key_end + count_while is_no_quote (drop key_end text) + 1 in
    let end = pos + count_while is_no_quote (drop pos text) in
    let found = slice text pos end >>= λ s. some (some s) in
    if ltb (length text) end || ltb end pos then some none else found

unfoldable pub string_after :
    (List ℕ → List ℕ → Option ℕ) → List ℕ → List ℕ → ℕ → Option (Option (List ℕ))
unfolding find_key string_from
string_after index text key start = do
  found ← find_key index text key start
  elim found [ none ↦ some none | some key_end ↦ string_from text key_end ]

abbrev pub flag_of : (List ℕ → List ℕ → Bool) → List ℕ → Option Bool
flag_of has_prefix rest =
    if has_prefix rest true_bytes
    then some true
    else if has_prefix rest false_bytes
    then some false
    else none

unfoldable pub bool_from : (List ℕ → List ℕ → Bool) → List ℕ → ℕ → Option (Option Bool)
unfolding count_while
bool_from has_prefix text key_end =
    let pos = key_end + count_while is_prefix_byte (drop key_end text) in
    do rest ← slice text pos (length text); some (flag_of has_prefix rest)

unfoldable pub bool_after :
    (List ℕ → List ℕ → Option ℕ)
    → (List ℕ → List ℕ → Bool)
    → List ℕ
    → List ℕ
    → ℕ
    → Option (Option Bool)
unfolding find_key bool_from
bool_after index has_prefix text key start = do
  found ← find_key index text key start
  elim found [ none ↦ some none | some key_end ↦ bool_from has_prefix text key_end ]

unfoldable pub quantize_bool : Bool → ℤ
quantize_bool value = if value then pos quant_scale else pos 0

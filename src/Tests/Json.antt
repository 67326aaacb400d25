-- ===== src/Tests/Json.antt =====
-- The scanners with a plain search for `bytes.Index`.
use heindall.Prelude.{
  ℕ, suc, ◌≤◌, ◌≡◌, ◌≢◌, ◌↔◌, ◌==◌, ◌&&◌, refl, ◌⊎◌, inl, inr, Bool, true, false, List, [], ◌∷◌,
  Option, none, some, ◌>>=◌, if◌then◌else◌, slice, length, arith, Bool-cases, Option-cases,
}
use heindall.JsonScan.{is_no_quote, string_after, bool_after}
use heindall.JsonScan.Merchant.{find_merchant, is_quoted, FindsEmpty, find_merchant-panics}
use heindall.JsonScan.Total.{IsIndex, AllBytes, string_after-total, bool_after-total}

abbrev pub starts : List ℕ → List ℕ → Bool
starts s [] = true
starts [] (k ∷ key) = false
starts (b ∷ s) (k ∷ key) = (b == k) && starts s key

abbrev pub search : List ℕ → List ℕ → Option ℕ
search [] key = if starts [] key then some 0 else none
search (b ∷ s) key = if starts (b ∷ s) key then some 0 else search s key >>= λ i. some (suc i)

starts-le : (s key : List ℕ) → starts s key ≡ true → length key ≤ length s
starts-le s [] h = omega arith
starts-le [] (k ∷ key) h = cc
starts-le (b ∷ s) (k ∷ key) h = (let rest = starts-le s key (ground arith) in omega arith)

search-IsIndex : IsIndex search
search-IsIndex [] key i h = elim (Bool-cases (starts [] key)) [
  | inl e ↦ let le = starts-le [] key e in ground arith
  | inr e ↦ ground arith
]
search-IsIndex (b ∷ s) key i h = elim (Bool-cases (starts (b ∷ s) key)) [
  | inl e ↦ let le = starts-le (b ∷ s) key e in ground arith
  | inr e ↦ elim (Option-cases (search s key)) [
    | inl f ↦ ground arith
    | inr (j, f) ↦ let le = search-IsIndex s key j f in ground arith
  ]
]

-- `"a":"bc"` and its key.
abbrev text : List ℕ
text = 34 ∷ 97 ∷ 34 ∷ 58 ∷ 34 ∷ 98 ∷ 99 ∷ 34 ∷ []

abbrev key_a : List ℕ
key_a = 34 ∷ 97 ∷ 34 ∷ []

string_after-total_example :
    (string_after search text key_a 0 ≡ some none)
    ⊎ ((s : List ℕ) × (string_after search text key_a 0 ≡ some (some s)) × AllBytes is_no_quote s)
string_after-total_example = string_after-total search text key_a 0 search-IsIndex (omega arith)

string_after_value : string_after search text key_a 0 ≡ some (some (98 ∷ 99 ∷ []))
unfolding string_after slice
string_after_value = refl

bool_after-total_example : (b : Option Bool) × (bool_after search starts text key_a 0 ≡ some b)
bool_after-total_example = bool_after-total search starts text key_a 0 search-IsIndex (omega arith)

search-FindsEmpty : FindsEmpty search
search-FindsEmpty [] = refl
search-FindsEmpty (b ∷ s) = refl

-- A section with one name, and an id that is empty.
find_merchant-panics_example :
    (find_merchant search key_a [] 5 0 ≢ some none)
    × ((find_merchant search key_a [] 5 0 ≡ none)
        ↔ ((◌≡◌ {A = List ℕ} [] []) × ((pos : ℕ) → is_quoted key_a pos 0 ≡ false)))
find_merchant-panics_example = find_merchant-panics search key_a [] search-IsIndex search-FindsEmpty

find_merchant_panic : find_merchant search key_a [] 5 0 ≡ none
unfolding find_merchant slice
find_merchant_panic = refl

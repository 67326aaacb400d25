-- ===== src/JsonScan/Total.antt =====
-- The scanners do not panic, and a string ends at its quote.
use heindall.Prelude.{
  ℕ, ◌+◌, ◌-◌, ◌≤◌, ◌≡◌, ◌⊎◌, inl, inr, Bool, true, ◌&&◌, ◌||◌, List, [], ◌∷◌, Option, none, some,
  length, take, drop, slice, ltb, leb, arith, Bool-cases, Option-cases, length-take, length-drop,
}
use heindall.JsonScan.{
  flag_of, count_while, is_no_quote, is_prefix_byte, find_key, string_from, string_after, bool_from,
  bool_after,
}

-- The test holds of every byte.
abbrev pub AllBytes : (ℕ → Bool) → List ℕ → Type 0
AllBytes test [] = Unit {0}
AllBytes test (b ∷ bs) = (test b ≡ true) × AllBytes test bs

count_while-le : (test : ℕ → Bool) (bs : List ℕ) → count_while test bs ≤ length bs
unfolding count_while
count_while-le test [] = omega arith
count_while-le test (b ∷ bs) = ground (arith, count_while-le test bs)

take-AllBytes : (test : ℕ → Bool) (bs : List ℕ) → AllBytes test (take (count_while test bs) bs)
unfolding count_while
take-AllBytes test [] = tt
take-AllBytes test (b ∷ bs) = elim (Bool-cases (test b)) [
  | inl e ↦ rw e (e, take-AllBytes test bs)
  | inr e ↦ rw e tt
]

-- What `bytes.Index` promises.
abbrev pub IsIndex : (List ℕ → List ℕ → Option ℕ) → Type 0
IsIndex index = (s key : List ℕ) (i : ℕ) → index s key ≡ some i → i + length key ≤ length s

find_key-total :
    (index : List ℕ → List ℕ → Option ℕ) (text key : List ℕ) (start : ℕ)
    → IsIndex index
    → start ≤ length text
    → (find_key index text key start ≡ some none)
      ⊎ ((k : ℕ) × (find_key index text key start ≡ some (some k)) × (k ≤ length text))
unfolding find_key slice
find_key-total index text key start spec h =
    let a : leb start (length text) && leb (length text) (length text) ≡ true = ground arith in
    elim (Option-cases (index (take (length text - start) (drop start text)) key)) [
      | inl e ↦ inl (rw (a, e))
      | inr (i, e) ↦
          let fits = spec (take (length text - start) (drop start text)) key i e in
          inr (
            start + i + length key,
            rw (a, e),
            omega (
              arith,
              fits,
              length-take (length text - start) (drop start text),
              length-drop start text,
            ),
          )
    ]

string_from-total :
    (text : List ℕ) (key_end : ℕ)
    → (string_from text key_end ≡ some none)
      ⊎ ((s : List ℕ) × (string_from text key_end ≡ some (some s)) × AllBytes is_no_quote s)
unfolding string_from slice
string_from-total text key_end =
    let pos = key_end + count_while is_no_quote (drop key_end text) + 1 in
    let end = pos + count_while is_no_quote (drop pos text) in
    elim (Bool-cases (ltb (length text) end || ltb end pos)) [
      | inl e ↦ inl (rw e)
      | inr e ↦
          let inside : leb pos end && leb end (length text) ≡ true = ground arith in
          let size : end - pos ≡ count_while is_no_quote (drop pos text) = omega arith in
          inr (
            take (end - pos) (drop pos text),
            rw (e, inside),
            rw size (take-AllBytes is_no_quote (drop pos text)),
          )
    ]

-- From a start inside the data, `stringAfter` does not panic, and the string that it finds holds
-- no quote.
pub string_after-total :
    (index : List ℕ → List ℕ → Option ℕ) (text key : List ℕ) (start : ℕ)
    → IsIndex index
    → start ≤ length text
    → (string_after index text key start ≡ some none)
      ⊎ ((s : List ℕ) × (string_after index text key start ≡ some (some s))
          × AllBytes is_no_quote s)
unfolding string_after
string_after-total index text key start spec h = elim (find_key-total index text key start spec h) [
  | inl e ↦ inl (rw e)
  | inr (k, e, _) ↦ elim (string_from-total text k) [
    | inl f ↦ inl (rw (e, f))
    | inr (s, f, a) ↦ inr (s, rw (e, f), a)
  ]
]

bool_from-total :
    (has_prefix : List ℕ → List ℕ → Bool) (text : List ℕ) (key_end : ℕ)
    → key_end ≤ length text
    → (b : Option Bool) × (bool_from has_prefix text key_end ≡ some b)
unfolding bool_from slice
bool_from-total has_prefix text key_end h =
    let pos = key_end + count_while is_prefix_byte (drop key_end text) in
    let inside : leb pos (length text) && leb (length text) (length text) ≡ true =
      ground (arith, count_while-le is_prefix_byte (drop key_end text), length-drop key_end text) in
    (flag_of has_prefix (take (length text - pos) (drop pos text)), rw inside)

-- From a start inside the data, `boolAfter` does not panic.
pub bool_after-total :
    (index : List ℕ → List ℕ → Option ℕ) (has_prefix : List ℕ → List ℕ → Bool) (text key : List ℕ)
    (start : ℕ)
    → IsIndex index
    → start ≤ length text
    → (b : Option Bool) × (bool_after index has_prefix text key start ≡ some b)
unfolding bool_after
bool_after-total index has_prefix text key start spec h =
    elim (find_key-total index text key start spec h) [
      | inl e ↦ (none, rw e)
      | inr (k, e, le) ↦ let (b, f) = bool_from-total has_prefix text k le in (b, rw (e, f))
    ]

-- ===== src/JsonScan/Merchant.antt =====
-- `knownMerchantJSON` in vectorize_json.go.
use mathlib.Core.Path.{subst}
use heindall.Prelude.{
  ℕ, zero, suc, ◌+◌, ◌-◌, ◌==◌, ◌≤◌, ◌<◌, ◌≡◌, ◌≢◌, ◌↔◌, refl, sym, ap, ◌∙◌, inl, inr, Bool, true,
  false, ◌&&◌, ◌||◌, Bool-cases, Option-cases, List, [], ◌∷◌, Option, none, some, ◌>>=◌,
  if◌then◌else◌, length, length-drop, length-take, drop, take, slice, ltb, leb, get_or, arith,
}
use heindall.JsonScan.Total.{IsIndex}

-- `bytes.IndexByte`
unfoldable pub index_byte : List ℕ → ℕ → Option ℕ
index_byte [] b = none
index_byte (x ∷ xs) b =
    let rest = index_byte xs b in if x == b then some 0 else (do i ← rest; some (suc i))

-- The bytes before and behind the match are quotes.
abbrev pub is_quoted : List ℕ → ℕ → ℕ → Bool
is_quoted section pos size =
    ltb 0 pos
    && (get_or section (pos - 1) 0 == 34)
    && (ltb (pos + size) (length section) && (get_or section (pos + size) 0 == 34))

-- The loop, with fuel: the outer `none` is a panic, the inner one stands for the fuel's end.
unfoldable pub find_merchant :
    (List ℕ → List ℕ → Option ℕ) → List ℕ → List ℕ → ℕ → ℕ → Option (Option Bool)
find_merchant index section id zero start = some none
find_merchant index section id (suc fuel) start = do
  rest ← slice section start (length section)
  elim (index rest id) [
    | none ↦ some (some false)
    | some i ↦ elim (is_quoted section (start + i) (length id)) [
      | true ↦ some (some true)
      | false ↦ find_merchant index section id fuel (start + i + 1)
    ]
  ]

-- `"known_merchants"`
abbrev pub known_merchants_key : List ℕ
known_merchants_key =
    34 ∷ 107 ∷ 110 ∷ 111 ∷ 119 ∷ 110 ∷ 95 ∷ 109 ∷ 101 ∷ 114 ∷ 99 ∷ 104 ∷ 97 ∷ 110 ∷ 116 ∷ 115 ∷ 34
    ∷ []

-- From the array's key to its bracket, and the search in it.
unfoldable pub search_section :
    (List ℕ → List ℕ → Option ℕ) → List ℕ → List ℕ → ℕ → ℕ → Option (Option Bool)
unfolding index_byte find_merchant
search_section index text id section_start end = do
  behind ← slice text section_start end
  elim (index_byte behind 93) [
    | none ↦ some (some false)
    | some n ↦ do
      section ← slice text section_start (section_start + n)
      find_merchant index section id (length section + 2) 0
  ]

-- A start or end of -1 is returned on before the call.
unfoldable pub known_merchant_json :
    (List ℕ → List ℕ → Option ℕ) → List ℕ → List ℕ → ℕ → ℕ → Option (Option Bool)
unfolding search_section
known_merchant_json index text id start given =
    let end = if leb given start || ltb (length text) given then length text else given in
    if leb (length text) start then some (some false) else (do
      part ← slice text start end
      elim (index part known_merchants_key) [
        | none ↦ some (some false)
        | some i ↦ search_section index text id (start + i) end
      ])

-- What `bytes.Index` promises for an empty pattern.
abbrev pub FindsEmpty : (List ℕ → List ℕ → Option ℕ) → Type 0
FindsEmpty index = (s : List ℕ) → index s [] ≡ some 0

rest_of :
    (section : List ℕ) (start : ℕ)
    → start ≤ length section
    → slice section start (length section)
      ≡ some (take (length section - start) (drop start section))
unfolding slice
rest_of section start h =
    let inside : (leb start (length section) && leb (length section) (length section)) ≡ true =
      ground arith in
    rw inside refl

-- A name that is not empty is found or not found, within the fuel.
find_merchant-total :
    (index : List ℕ → List ℕ → Option ℕ) (section id : List ℕ) (fuel start : ℕ)
    → IsIndex index
    → 0 < length id
    → start ≤ length section
    → length section < start + fuel
    → (b : Bool) × (find_merchant index section id fuel start ≡ some (some b))
unfolding find_merchant
find_merchant-total index section id zero start spec some_id le enough = absurd (omega arith)
find_merchant-total index section id (suc fuel) start spec some_id le enough =
    let rest = take (length section - start) (drop start section) in
    let size : length rest ≡ length section - start = omega (
      arith,
      length-take (length section - start) (drop start section),
      length-drop start section,
    ) in
    elim (Option-cases (index rest id)) [
      | inl e ↦ (false, rw (rest_of section start le, e) refl)
      | inr (i, e) ↦ elim (Bool-cases (is_quoted section (start + i) (length id))) [
        | inl q ↦ (true, rw (rest_of section start le, e, q) refl)
        | inr q ↦
            (let fits = spec rest id i e in
              let (b, f) =
                find_merchant-total index section id fuel (start + i + 1) spec some_id (omega arith)
                  (omega arith) in
              (b, rw (rest_of section start le, e, q) f))
      ]
    ]

-- One round with an empty name.
empty_round :
    (index : List ℕ → List ℕ → Option ℕ) (section : List ℕ) (fuel start : ℕ)
    → FindsEmpty index
    → start ≤ length section
    → find_merchant index section [] (suc fuel) start ≡ (
        if is_quoted section (start + 0) 0
        then some (some true)
        else find_merchant index section [] fuel (start + 0 + 1))
unfolding find_merchant
empty_round index section fuel start spec le =
    let rest = take (length section - start) (drop start section) in
    elim (Bool-cases (is_quoted section (start + 0) 0)) [
      | inl q ↦ rw (rest_of section start le, spec rest, q) refl
      | inr q ↦ rw (rest_of section start le, spec rest, q) refl
    ]

empty_behind :
    (index : List ℕ → List ℕ → Option ℕ) (section : List ℕ) (fuel start : ℕ)
    → length section < start
    → find_merchant index section [] (suc fuel) start ≡ none
unfolding find_merchant slice
empty_behind index section fuel start h =
    let outside : (leb start (length section) && leb (length section) (length section)) ≡ false =
      ground arith in
    rw outside refl

empty_panics :
    (index : List ℕ → List ℕ → Option ℕ) (section : List ℕ) (fuel start : ℕ)
    → FindsEmpty index
    → length section + 1 < start + fuel
    → start ≤ length section + 1
    → ((pos : ℕ) → is_quoted section pos 0 ≡ false)
    → find_merchant index section [] fuel start ≡ none
empty_panics index section zero start spec enough le apart = absurd (omega arith)
empty_panics index section (suc fuel) start spec enough le apart =
    elim (Bool-cases (leb start (length section))) [
      | inl e ↦
          empty_round index section fuel start spec (ground arith)
          ∙ rw (apart (start + 0)) (
              empty_panics index section fuel (start + 0 + 1) spec (omega arith) (ground arith)
                apart)
      | inr e ↦ empty_behind index section fuel start (ground arith)
    ]

empty_ends :
    (index : List ℕ → List ℕ → Option ℕ) (section : List ℕ) (fuel start : ℕ)
    → FindsEmpty index
    → length section + 1 < start + fuel
    → start ≤ length section + 1
    → find_merchant index section [] fuel start ≢ some none
empty_ends index section zero start spec enough le h = absurd (omega arith)
empty_ends index section (suc fuel) start spec enough le h =
    elim (Bool-cases (leb start (length section))) [
      | inr e ↦ absurd (cc (sym (empty_behind index section fuel start (ground arith)) ∙ h))
      | inl e ↦
          (let round = sym (empty_round index section fuel start spec (ground arith)) ∙ h in
            elim (Bool-cases (is_quoted section (start + 0) 0)) [
              | inl q ↦ absurd (
                  cc (
                    ap
                      (λ (b : Bool).
                        if b
                        then some (some true)
                        else find_merchant index section [] fuel (start + 0 + 1))
                      (sym q)
                    ∙ round))
              | inr q ↦
                  empty_ends index section fuel (start + 0 + 1) spec (omega arith) (ground arith) (
                    ap
                      (λ (b : Bool).
                        if b
                        then some (some true)
                        else find_merchant index section [] fuel (start + 0 + 1))
                      (sym q)
                    ∙ round)
            ])
    ]

if_true :
    (b : Bool) (x : Option (Option Bool))
    → (if b then some (some true) else x) ≡ none
    → (b ≡ false) × (x ≡ none)
if_true true x h = absurd (cc h)
if_true false x h = (refl, h)

not_quoted_behind :
    (section : List ℕ) (pos : ℕ) → length section ≤ pos → is_quoted section pos 0 ≡ false
not_quoted_behind section pos h = ground arith

panic_apart :
    (index : List ℕ → List ℕ → Option ℕ) (section : List ℕ) (fuel start pos : ℕ)
    → FindsEmpty index
    → find_merchant index section [] fuel start ≡ none
    → start ≤ pos
    → pos < length section
    → is_quoted section pos 0 ≡ false
unfolding find_merchant
panic_apart index section zero start pos spec panics le lt = absurd (cc panics)
panic_apart index section (suc fuel) start pos spec panics le lt =
    let (unquoted, behind) =
      if_true (is_quoted section (start + 0) 0)
        (find_merchant index section [] fuel (start + 0 + 1))
        (sym (empty_round index section fuel start spec (omega arith)) ∙ panics) in
    elim (Bool-cases (pos == start)) [
      | inl e ↦
          (let same : start + 0 ≡ pos = ground arith in
            subst (λ i. is_quoted section i 0 ≡ false) same unquoted)
      | inr e ↦ panic_apart index section fuel (start + 0 + 1) pos spec behind (ground arith) lt
    ]

empty_is : (id : List ℕ) → length id ≡ 0 → id ≡ []
empty_is [] h = refl
empty_is (x ∷ id) h = absurd (omega arith)

-- For a `bytes.Index` that finds the empty pattern at once and nothing outside the data: the loop of
-- `knownMerchantJSON` ends within its fuel, and it panics exactly when the merchant's id is empty
-- and no two quotes stand side by side in the section that it searches.
pub find_merchant-panics :
    (index : List ℕ → List ℕ → Option ℕ) (section id : List ℕ)
    → IsIndex index
    → FindsEmpty index
    → (find_merchant index section id (length section + 2) 0 ≢ some none)
      × ((find_merchant index section id (length section + 2) 0 ≡ none)
          ↔ ((id ≡ []) × ((pos : ℕ) → is_quoted section pos 0 ≡ false)))
find_merchant-panics index section id spec empty = elim (Bool-cases (length id == 0)) [
  | inl e ↦ rw (empty_is id (ground arith)) (
    empty_ends index section (length section + 2) 0 empty (omega arith) (omega arith),
    (
      λ h. (
        refl,
        λ pos. elim (Bool-cases (ltb pos (length section))) [
          | inl lt ↦
              panic_apart index section (length section + 2) 0 pos empty h (omega arith)
                (ground arith)
          | inr ge ↦ not_quoted_behind section pos (ground arith)
        ],
      ),
      λ (z, q).
          empty_panics index section (length section + 2) 0 empty (omega arith) (omega arith) q,
    ),
  )
  | inr e ↦
      (let (b, is) =
          find_merchant-total index section id (length section + 2) 0 spec (ground arith)
            (omega arith) (omega arith) in
        rw is (
          λ h. absurd (cc h),
          (λ h. absurd (cc h), λ (z, q). absurd (ground (arith, ap length z))),
        ))
]

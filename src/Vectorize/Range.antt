-- ===== src/Vectorize/Range.antt =====
-- Every vector of `VectorizeJSONQuantized` is one that the search takes.
use heindall.Prelude.{
  ℕ, ◌+◌, ◌≡◌, refl, Bool, true, false, List, [], ◌∷◌, Option, none, some, if◌then◌else◌, length,
  slice, arith, not,
}
use heindall.Prelude.Int.{ℤ, negsuc}
use heindall.Quantized.{dimensions}
use heindall.Float.{Float}
use heindall.Quantize.{quantize_float64}
use heindall.Quantize.Range.{Rounds, quantize_float64-IsQuantized}
use heindall.Ivf.Kernel.{IsQuantized}
use heindall.Ivf.Centroids.Loops.{AllQuantized}
use heindall.Build.Materialize.Entries.{at-cons}
use heindall.Build.Materialize.Values.{nil-AllQuantized}
use heindall.JsonScan.{quantize_bool, string_after, skip_value_prefix}
use heindall.Calendar.{epoch_minutes}
use heindall.Vectorize.Numbers.{Scan, ◌>>=◌, found, lift, number_after}
use heindall.Vectorize.{
  Normalization, Fields, long_enough, read_fields, last_from, last_entries, read_times, entries,
  vectorize_json_quantized,
}
use heindall.Vectorize.Keys.{key_last_transaction, key_timestamp, key_km_from_current, null_bytes}

-- What holds of the value, if there is one.
abbrev pub Holds : {A : Type 0} → (A → Type 0) → Scan A → Type 0
Holds P none = Unit {0}
Holds P (some none) = Unit {0}
Holds P (some (some a)) = P a

bind-Holds :
    {A B : Type 0} (P : B → Type 0) (m : Scan A) (g : A → Scan B)
    → ((a : A) → Holds P (g a))
    → Holds P (m >>= g)
bind-Holds P none g h = tt
bind-Holds P (some none) g h = tt
bind-Holds P (some (some a)) g h = h a

then-Holds :
    {A B : Type 0} (Q : A → Type 0) (P : B → Type 0) (m : Scan A) (g : A → Scan B)
    → Holds Q m
    → ((a : A) → Q a → Holds P (g a))
    → Holds P (m >>= g)
then-Holds Q P none g q h = tt
then-Holds Q P (some none) g q h = tt
then-Holds Q P (some (some a)) g q h = h a q

abbrev Both : ℤ × ℤ → Type 0
Both p = IsQuantized p.0 × IsQuantized p.1

missing-Both : Both (negsuc 9999, negsuc 9999)
missing-Both = (
  record { above = omega arith; below = omega arith },
  record { above = omega arith; below = omega arith },
)

quantize_bool-IsQuantized : (b : Bool) → IsQuantized (quantize_bool b)
unfolding quantize_bool
quantize_bool-IsQuantized true = record { above = omega arith; below = omega arith }
quantize_bool-IsQuantized false = record { above = omega arith; below = omega arith }

-- Of every entry, as a tuple.
abbrev Each : List ℤ → Type 0
Each [] = Unit {0}
Each (x ∷ xs) = IsQuantized x × Each xs

Each-AllQuantized : (xs : List ℤ) → Each xs → AllQuantized xs
Each-AllQuantized [] h = nil-AllQuantized
Each-AllQuantized (x ∷ xs) (h, k) = at-cons IsQuantized x xs h (Each-AllQuantized xs k)

if-Holds :
    {A : Type 0} (P : A → Type 0) (b : Bool) (x y : Scan A)
    → Holds P x
    → Holds P y
    → Holds P (if b then x else y)
if-Holds P true x y h k = h
if-Holds P false x y h k = k

entries-AllQuantized :
    (f : Float)
    → Rounds f
    → (norm : Normalization f) (fs : Fields f) (times : ℕ × ℤ × Bool) (last : ℤ × ℤ) → Both last
    → AllQuantized (entries f norm fs times last)
      × (length (entries f norm fs times last) ≡ dimensions)
unfolding entries
entries-AllQuantized f r norm fs (hour, weekday, known) (minutes, km) (a, b) =
    let q : (v : f.Carrier) → IsQuantized (quantize_float64 f v) =
      quantize_float64-IsQuantized f r in
    let t = quantize_bool-IsQuantized in
    (
      Each-AllQuantized (entries f norm fs (hour, weekday, known) (minutes, km)) (
        q _,
        (
          q _,
          (
            q _,
            (
              q _,
              (
                q _,
                (
                  a,
                  (
                    b,
                    (
                      q _,
                      (
                        q _,
                        (t fs.is_online, (t fs.card_present, (t (not known), (q _, (q _, tt))))),
                      ),
                    ),
                  ),
                ),
              ),
            ),
          ),
        ),
      ),
      refl,
    )

module _ (f : Float) (index : List ℕ → List ℕ → Option ℕ) (has_prefix : List ℕ → List ℕ → Bool)
    (text : List ℕ) where
  last_from-Both :
      Rounds f
      → (norm : Normalization f) (requested_at : List ℕ) (last : Option ℕ)
      → Holds Both (last_from f index has_prefix text norm requested_at last)
  unfolding last_from
  last_from-Both r norm requested_at none = missing-Both
  last_from-Both r norm requested_at (some p) =
      bind-Holds Both (lift (slice text (p + length key_last_transaction) (length text))) _ (λ rest.
        if-Holds Both (has_prefix (skip_value_prefix rest) null_bytes)
          (found (negsuc 9999, negsuc 9999)) _ missing-Both
          (bind-Holds Both (string_after index text key_timestamp p >>= long_enough) _ (λ timestamp.
            bind-Holds Both (number_after f index text key_km_from_current p) _ (λ km.
              bind-Holds Both (lift (epoch_minutes requested_at)) _ (λ now.
                bind-Holds Both (lift (epoch_minutes timestamp)) _ (λ before.
                  (quantize_float64-IsQuantized f r _, quantize_float64-IsQuantized f r _)))))))

  vectorize-Holds :
      Rounds f
      → (norm : Normalization f)
      → Holds
          (λ v. AllQuantized v × (length v ≡ dimensions))
          (vectorize_json_quantized f index has_prefix text norm)
  unfolding vectorize_json_quantized last_entries
  vectorize-Holds r norm = bind-Holds _ (read_fields f index has_prefix text) _ (λ fs.
      bind-Holds _ (read_times f index has_prefix text fs) _ (λ times.
        then-Holds Both _ (last_entries f index has_prefix text norm fs.requested_at) _
          (last_from-Both r norm fs.requested_at (index text key_last_transaction))
          (λ last both. entries-AllQuantized f r norm fs times last both)))

-- A vector that the search takes.
abbrev pub IsQuery : List ℤ → Type 0
IsQuery v = AllQuantized v × (length v ≡ dimensions)

-- With a `float64` that rounds as `Rounds` says: whatever the body, the functions of Go's library
-- and the normalization are, when `VectorizeJSONQuantized` accepts the body (`Holds`), the vector
-- that it returns has 14 entries, all of them in the quantised range.
pub vectorize_json_quantized-IsQuery :
    (f : Float) (index : List ℕ → List ℕ → Option ℕ) (has_prefix : List ℕ → List ℕ → Bool)
    (text : List ℕ) (norm : Normalization f)
    → Rounds f
    → Holds IsQuery (vectorize_json_quantized f index has_prefix text norm)
vectorize_json_quantized-IsQuery f index has_prefix text norm r =
    vectorize-Holds f index has_prefix text r norm

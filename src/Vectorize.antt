-- ===== src/Vectorize.antt =====
-- `VectorizeJSONQuantized` in vectorize_json.go. A panic is the outer `none`; the second result
-- `false` is the inner `none`, and the vector that goes with it is dropped, as the caller does.
pub mod Numbers
pub mod Keys
pub mod Range
use heindall.Prelude.{
  ℕ, ◌+◌, ◌-◌, ◌*◌, ◌==◌, Bool, true, false, not, ◌&&◌, List, [], ◌∷◌, Option, none, some,
  if◌then◌else◌, ltb, length, slice,
}
use heindall.Prelude.Int.{ℤ, pos, negsuc, ◌-ℤ◌}
use heindall.Float.{Float}
use heindall.Quantize.{zero_of, one_of, quantize_float64}
use heindall.Calendar.{parse2, weekday_monday0, epoch_minutes}
use heindall.JsonScan.{string_after, bool_after, quantize_bool, skip_value_prefix}
use heindall.JsonScan.Merchant.{known_merchant_json}
use heindall.Vectorize.Keys.{
  key_amount, key_installments, key_requested_at, key_customer, key_merchant, key_terminal,
  key_avg_amount, key_tx_count_24h, key_id, key_mcc, key_is_online, key_card_present,
  key_km_from_home, key_last_transaction, key_timestamp, key_km_from_current, null_bytes,
}
use heindall.Vectorize.Numbers.{Scan, ◌>>=◌, found, lift, number_after, mcc_risk_value_bytes_fast}

-- `Normalization`
pub record Normalization (f : Float) : Type 0 where
  pub max_amount : f.Carrier
  pub max_installments : f.Carrier
  pub amount_vs_avg_ratio : f.Carrier
  pub max_minutes : f.Carrier
  pub max_km : f.Carrier
  pub max_tx_count_24h : f.Carrier
  pub max_merchant_avg_amount : f.Carrier

abbrev pub div : (f : Float) → f.Carrier → f.Carrier → f.Carrier
div f n d = if f.le d (zero_of f) then one_of f else f.quo n d

abbrev pub clamp : (f : Float) → f.Carrier → f.Carrier
clamp f v = if f.lt v (zero_of f) then zero_of f else if f.lt (one_of f) v then one_of f else v

-- What is read before the vector is filled.
pub record Fields (f : Float) : Type 0 where
  pub amount : f.Carrier
  pub installments : f.Carrier
  pub requested_at : List ℕ
  pub customer_pos : ℕ
  pub merchant_pos : ℕ
  pub customer_avg : f.Carrier
  pub tx_count : f.Carrier
  pub merchant_id : List ℕ
  pub mcc : List ℕ
  pub merchant_avg : f.Carrier
  pub is_online : Bool
  pub card_present : Bool
  pub km_from_home : f.Carrier

-- A string of at least 20 bytes.
abbrev pub long_enough : List ℕ → Scan (List ℕ)
long_enough s = if ltb (length s) 20 then some none else found s

-- `quantizeFloat64(clamp(div(n, d)))`
abbrev pub ratio : (f : Float) → f.Carrier → f.Carrier → ℤ
ratio f n d = quantize_float64 f (clamp f (div f n d))

unfoldable pub entries : (f : Float) → Normalization f → Fields f → ℕ × ℤ × Bool → ℤ × ℤ → List ℤ
unfolding quantize_float64 quantize_bool mcc_risk_value_bytes_fast
entries f norm fs (hour, weekday, known) (minutes, km) =
    ratio f fs.amount norm.max_amount
    ∷ ratio f fs.installments norm.max_installments
    ∷ ratio f (div f fs.amount fs.customer_avg) norm.amount_vs_avg_ratio
    ∷ quantize_float64 f (f.quo (f.of_int (pos hour)) (f.decimal (pos 23) 0))
    ∷ quantize_float64 f (f.quo (f.of_int weekday) (f.decimal (pos 6) 0))
    ∷ minutes
    ∷ km
    ∷ ratio f fs.km_from_home norm.max_km
    ∷ ratio f fs.tx_count norm.max_tx_count_24h
    ∷ quantize_bool fs.is_online
    ∷ quantize_bool fs.card_present
    ∷ quantize_bool (not known)
    ∷ quantize_float64 f (mcc_risk_value_bytes_fast f fs.mcc)
    ∷ ratio f fs.merchant_avg norm.max_merchant_avg_amount
    ∷ []

module _ (f : Float) (index : List ℕ → List ℕ → Option ℕ) (has_prefix : List ℕ → List ℕ → Bool)
    (text : List ℕ) where
  unfoldable pub read_fields : Scan (Fields f)
  unfolding number_after string_after bool_after
  read_fields = do
    amount ← number_after f index text key_amount 0
    installments ← number_after f index text key_installments 0
    requested_at ← string_after index text key_requested_at 0 >>= long_enough
    customer_pos ← some (index text key_customer)
    merchant_pos ← some (index text key_merchant)
    terminal_pos ← some (index text key_terminal)
    customer_avg ← number_after f index text key_avg_amount customer_pos
    tx_count ← number_after f index text key_tx_count_24h customer_pos
    merchant_id ← string_after index text key_id merchant_pos
    mcc ← string_after index text key_mcc merchant_pos
    merchant_avg ← number_after f index text key_avg_amount merchant_pos
    is_online ← bool_after index has_prefix text key_is_online terminal_pos
    card_present ← bool_after index has_prefix text key_card_present terminal_pos
    km_from_home ← number_after f index text key_km_from_home terminal_pos
    found (record {
      amount = amount;
      installments = installments;
      requested_at = requested_at;
      customer_pos = customer_pos;
      merchant_pos = merchant_pos;
      customer_avg = customer_avg;
      tx_count = tx_count;
      merchant_id = merchant_id;
      mcc = mcc;
      merchant_avg = merchant_avg;
      is_online = is_online;
      card_present = card_present;
      km_from_home = km_from_home;
    })

  -- Entries 5 and 6, from the place of the last transaction.
  unfoldable pub last_from : Normalization f → List ℕ → Option ℕ → Scan (ℤ × ℤ)
  unfolding quantize_float64 string_after number_after epoch_minutes skip_value_prefix
  last_from norm requested_at none = found (negsuc 9999, negsuc 9999)
  last_from norm requested_at (some last_pos) = do
    rest ← lift (slice text (last_pos + length key_last_transaction) (length text))
    if has_prefix (skip_value_prefix rest) null_bytes then found (negsuc 9999, negsuc 9999) else (do
      timestamp ← string_after index text key_timestamp last_pos >>= long_enough
      km ← number_after f index text key_km_from_current last_pos
      now ← lift (epoch_minutes requested_at)
      before ← lift (epoch_minutes timestamp)
      found (ratio f (f.of_int (now -ℤ before)) norm.max_minutes, ratio f km norm.max_km))

  unfoldable pub last_entries : Normalization f → List ℕ → Scan (ℤ × ℤ)
  unfolding last_from
  last_entries norm requested_at = last_from norm requested_at (index text key_last_transaction)

  -- The hour, the weekday and whether the merchant is known; the fuel of the search does not end.
  unfoldable pub read_times : Fields f → Scan (ℕ × ℤ × Bool)
  unfolding parse2 weekday_monday0 known_merchant_json
  read_times fs = do
    hours ← lift (slice fs.requested_at 11 13)
    hour ← lift (parse2 hours)
    weekday ← lift (weekday_monday0 fs.requested_at)
    known ← known_merchant_json index text fs.merchant_id fs.customer_pos fs.merchant_pos
    found (hour, weekday, known)

  unfoldable pub vectorize_json_quantized : Normalization f → Scan (List ℤ)
  unfolding read_fields read_times last_entries entries
  vectorize_json_quantized norm = do
    fs ← read_fields
    times ← read_times fs
    last ← last_entries norm fs.requested_at
    found (entries f norm fs times last)

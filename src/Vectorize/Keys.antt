-- ===== src/Vectorize/Keys.antt =====
-- The keys that vectorize_json.go looks for, with their quotes, as bytes.
use heindall.Prelude.{ℕ, List, [], ◌∷◌}

abbrev pub key_amount : List ℕ
key_amount = 34 ∷ 97 ∷ 109 ∷ 111 ∷ 117 ∷ 110 ∷ 116 ∷ 34 ∷ []

abbrev pub key_installments : List ℕ
key_installments =
    34 ∷ 105 ∷ 110 ∷ 115 ∷ 116 ∷ 97 ∷ 108 ∷ 108 ∷ 109 ∷ 101 ∷ 110 ∷ 116 ∷ 115 ∷ 34 ∷ []

abbrev pub key_requested_at : List ℕ
key_requested_at =
    34 ∷ 114 ∷ 101 ∷ 113 ∷ 117 ∷ 101 ∷ 115 ∷ 116 ∷ 101 ∷ 100 ∷ 95 ∷ 97 ∷ 116 ∷ 34 ∷ []

abbrev pub key_customer : List ℕ
key_customer = 34 ∷ 99 ∷ 117 ∷ 115 ∷ 116 ∷ 111 ∷ 109 ∷ 101 ∷ 114 ∷ 34 ∷ []

abbrev pub key_merchant : List ℕ
key_merchant = 34 ∷ 109 ∷ 101 ∷ 114 ∷ 99 ∷ 104 ∷ 97 ∷ 110 ∷ 116 ∷ 34 ∷ []

abbrev pub key_terminal : List ℕ
key_terminal = 34 ∷ 116 ∷ 101 ∷ 114 ∷ 109 ∷ 105 ∷ 110 ∷ 97 ∷ 108 ∷ 34 ∷ []

abbrev pub key_avg_amount : List ℕ
key_avg_amount = 34 ∷ 97 ∷ 118 ∷ 103 ∷ 95 ∷ 97 ∷ 109 ∷ 111 ∷ 117 ∷ 110 ∷ 116 ∷ 34 ∷ []

abbrev pub key_tx_count_24h : List ℕ
key_tx_count_24h = 34 ∷ 116 ∷ 120 ∷ 95 ∷ 99 ∷ 111 ∷ 117 ∷ 110 ∷ 116 ∷ 95 ∷ 50 ∷ 52 ∷ 104 ∷ 34 ∷ []

abbrev pub key_id : List ℕ
key_id = 34 ∷ 105 ∷ 100 ∷ 34 ∷ []

abbrev pub key_mcc : List ℕ
key_mcc = 34 ∷ 109 ∷ 99 ∷ 99 ∷ 34 ∷ []

abbrev pub key_is_online : List ℕ
key_is_online = 34 ∷ 105 ∷ 115 ∷ 95 ∷ 111 ∷ 110 ∷ 108 ∷ 105 ∷ 110 ∷ 101 ∷ 34 ∷ []

abbrev pub key_card_present : List ℕ
key_card_present = 34 ∷ 99 ∷ 97 ∷ 114 ∷ 100 ∷ 95 ∷ 112 ∷ 114 ∷ 101 ∷ 115 ∷ 101 ∷ 110 ∷ 116 ∷ 34 ∷ []

abbrev pub key_km_from_home : List ℕ
key_km_from_home =
    34 ∷ 107 ∷ 109 ∷ 95 ∷ 102 ∷ 114 ∷ 111 ∷ 109 ∷ 95 ∷ 104 ∷ 111 ∷ 109 ∷ 101 ∷ 34 ∷ []

abbrev pub key_last_transaction : List ℕ
key_last_transaction =
    34 ∷ 108 ∷ 97 ∷ 115 ∷ 116 ∷ 95 ∷ 116 ∷ 114 ∷ 97 ∷ 110 ∷ 115 ∷ 97 ∷ 99 ∷ 116 ∷ 105 ∷ 111 ∷ 110
    ∷ 34 ∷ []

abbrev pub key_timestamp : List ℕ
key_timestamp = 34 ∷ 116 ∷ 105 ∷ 109 ∷ 101 ∷ 115 ∷ 116 ∷ 97 ∷ 109 ∷ 112 ∷ 34 ∷ []

abbrev pub key_km_from_current : List ℕ
key_km_from_current =
    34 ∷ 107 ∷ 109 ∷ 95 ∷ 102 ∷ 114 ∷ 111 ∷ 109 ∷ 95 ∷ 99 ∷ 117 ∷ 114 ∷ 114 ∷ 101 ∷ 110 ∷ 116 ∷ 34
    ∷ []

abbrev pub null_bytes : List ℕ
null_bytes = 110 ∷ 117 ∷ 108 ∷ 108 ∷ []

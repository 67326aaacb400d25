-- ===== src/Tests/Body.antt =====
-- A request body through the vectorizer, with the fixed-point arithmetic of Tests/Index.
use heindall.Prelude.{ℕ, List, [], ◌∷◌}
use heindall.Prelude.Int.{pos}
use heindall.Vectorize.{Normalization, vectorize_json_quantized}
use heindall.Vectorize.Range.{Holds, IsQuery, vectorize_json_quantized-IsQuery}
use heindall.Tests.Index.{fixed, fixed-Rounds}
use heindall.Tests.Json.{search, starts}

abbrev body : List ℕ
body =
    123 ∷ 34 ∷ 97 ∷ 109 ∷ 111 ∷ 117 ∷ 110 ∷ 116 ∷ 34 ∷ 58 ∷ 49 ∷ 48 ∷ 48 ∷ 44 ∷ 34 ∷ 105 ∷ 110 ∷ 115
    ∷ 116 ∷ 97 ∷ 108 ∷ 108 ∷ 109 ∷ 101 ∷ 110 ∷ 116 ∷ 115 ∷ 34 ∷ 58 ∷ 50 ∷ 44 ∷ 34 ∷ 114 ∷ 101 ∷ 113
    ∷ 117 ∷ 101 ∷ 115 ∷ 116 ∷ 101 ∷ 100 ∷ 95 ∷ 97 ∷ 116 ∷ 34 ∷ 58 ∷ 34 ∷ 50 ∷ 48 ∷ 50 ∷ 54 ∷ 45 ∷ 48
    ∷ 51 ∷ 45 ∷ 49 ∷ 49 ∷ 84 ∷ 49 ∷ 56 ∷ 58 ∷ 52 ∷ 53 ∷ 58 ∷ 53 ∷ 51 ∷ 90 ∷ 34 ∷ 44 ∷ 34 ∷ 99 ∷ 117
    ∷ 115 ∷ 116 ∷ 111 ∷ 109 ∷ 101 ∷ 114 ∷ 34 ∷ 58 ∷ 123 ∷ 34 ∷ 97 ∷ 118 ∷ 103 ∷ 95 ∷ 97 ∷ 109 ∷ 111
    ∷ 117 ∷ 110 ∷ 116 ∷ 34 ∷ 58 ∷ 53 ∷ 48 ∷ 46 ∷ 53 ∷ 44 ∷ 34 ∷ 116 ∷ 120 ∷ 95 ∷ 99 ∷ 111 ∷ 117
    ∷ 110 ∷ 116 ∷ 95 ∷ 50 ∷ 52 ∷ 104 ∷ 34 ∷ 58 ∷ 51 ∷ 44 ∷ 34 ∷ 107 ∷ 110 ∷ 111 ∷ 119 ∷ 110 ∷ 95
    ∷ 109 ∷ 101 ∷ 114 ∷ 99 ∷ 104 ∷ 97 ∷ 110 ∷ 116 ∷ 115 ∷ 34 ∷ 58 ∷ 91 ∷ 34 ∷ 77 ∷ 49 ∷ 34 ∷ 93
    ∷ 125 ∷ 44 ∷ 34 ∷ 109 ∷ 101 ∷ 114 ∷ 99 ∷ 104 ∷ 97 ∷ 110 ∷ 116 ∷ 34 ∷ 58 ∷ 123 ∷ 34 ∷ 105 ∷ 100
    ∷ 34 ∷ 58 ∷ 34 ∷ 77 ∷ 49 ∷ 34 ∷ 44 ∷ 34 ∷ 109 ∷ 99 ∷ 99 ∷ 34 ∷ 58 ∷ 34 ∷ 53 ∷ 52 ∷ 49 ∷ 49 ∷ 34
    ∷ 44 ∷ 34 ∷ 97 ∷ 118 ∷ 103 ∷ 95 ∷ 97 ∷ 109 ∷ 111 ∷ 117 ∷ 110 ∷ 116 ∷ 34 ∷ 58 ∷ 54 ∷ 48 ∷ 125
    ∷ 44 ∷ 34 ∷ 116 ∷ 101 ∷ 114 ∷ 109 ∷ 105 ∷ 110 ∷ 97 ∷ 108 ∷ 34 ∷ 58 ∷ 123 ∷ 34 ∷ 105 ∷ 115 ∷ 95
    ∷ 111 ∷ 110 ∷ 108 ∷ 105 ∷ 110 ∷ 101 ∷ 34 ∷ 58 ∷ 102 ∷ 97 ∷ 108 ∷ 115 ∷ 101 ∷ 44 ∷ 34 ∷ 99 ∷ 97
    ∷ 114 ∷ 100 ∷ 95 ∷ 112 ∷ 114 ∷ 101 ∷ 115 ∷ 101 ∷ 110 ∷ 116 ∷ 34 ∷ 58 ∷ 116 ∷ 114 ∷ 117 ∷ 101
    ∷ 44 ∷ 34 ∷ 107 ∷ 109 ∷ 95 ∷ 102 ∷ 114 ∷ 111 ∷ 109 ∷ 95 ∷ 104 ∷ 111 ∷ 109 ∷ 101 ∷ 34 ∷ 58 ∷ 50
    ∷ 57 ∷ 125 ∷ 44 ∷ 34 ∷ 108 ∷ 97 ∷ 115 ∷ 116 ∷ 95 ∷ 116 ∷ 114 ∷ 97 ∷ 110 ∷ 115 ∷ 97 ∷ 99 ∷ 116
    ∷ 105 ∷ 111 ∷ 110 ∷ 34 ∷ 58 ∷ 110 ∷ 117 ∷ 108 ∷ 108 ∷ 125 ∷ []

abbrev norm : Normalization fixed
norm = record {
  max_amount = pos 100000000;
  max_installments = pos 120000;
  amount_vs_avg_ratio = pos 100000;
  max_minutes = pos 14400000;
  max_km = pos 10000000;
  max_tx_count_24h = pos 200000;
  max_merchant_avg_amount = pos 100000000;
}

vectorize_json_quantized-IsQuery_example :
    Holds IsQuery (vectorize_json_quantized fixed search starts body norm)
vectorize_json_quantized-IsQuery_example =
    vectorize_json_quantized-IsQuery fixed search starts body norm fixed-Rounds

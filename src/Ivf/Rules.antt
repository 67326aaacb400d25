-- ===== src/Ivf/Rules.antt =====
-- The tests on a query and a fraud count that send `searchIVF` into its extra rounds.
use heindall.Prelude.{ℕ, Bool, true, false, not, ◌&&◌, ◌||◌, List, ltb, ◌==◌, if◌then◌else◌}
use heindall.Prelude.Int.{ℤ, pos, negsuc, ltb_ℤ, leb_ℤ, ◌==ℤ◌}
use heindall.Quantized.{at, quant_scale}

-- `-QuantScale`
abbrev pub absent : ℤ
absent = negsuc 9999

abbrev pub scale : ℤ
scale = pos quant_scale

-- `lo <= q && q <= hi`
abbrev within : ℕ → ℕ → ℤ → Bool
within lo hi q = leb_ℤ (pos lo) q && leb_ℤ q (pos hi)

unfoldable pub is_ivf_ambiguous_fraud_count : List ℤ → ℕ → Bool
is_ivf_ambiguous_fraud_count query frauds =
    if ltb 1 frauds && ltb frauds 5 then true else (frauds == 1) && (at query 9 ==ℤ pos 0)

unfoldable pub needs_known_boundary_approval_repair : List ℤ → Bool
needs_known_boundary_approval_repair query =
    if not (at query 5 ==ℤ absent) || not (at query 6 ==ℤ absent)
    then false
    else if (at query 9 ==ℤ scale)
        && (at query 10 ==ℤ pos 0)
        && within 800 900 (at query 7)
        && within 1000 2000 (at query 2)
        && (at query 12 ==ℤ pos 2000)
    then true
    else (at query 9 ==ℤ pos 0)
      && (at query 10 ==ℤ scale)
      && within 3500 4000 (at query 7)
      && (at query 2 ==ℤ scale)
      && (at query 12 ==ℤ pos 8000)
      && leb_ℤ (at query 8) (pos 4000)

unfoldable pub needs_approval_repair : List ℤ → Bool
unfolding needs_known_boundary_approval_repair
needs_approval_repair query =
    if needs_known_boundary_approval_repair query
    then true
    else if ltb_ℤ (at query 9) scale || not (at query 10 ==ℤ pos 0)
    then false
    else if ltb_ℤ (at query 2) (pos 5000)
    then false
    else if ltb_ℤ (at query 7) (pos 3000) || ltb_ℤ (pos 3600) (at query 7)
    then false
    else (at query 12 ==ℤ pos 3000) || leb_ℤ (pos 8500) (at query 12)

unfoldable pub needs_known_late_denial_repair : List ℤ → Bool
needs_known_late_denial_repair query =
    (at query 9 ==ℤ scale)
    && (at query 10 ==ℤ pos 0)
    && (at query 11 ==ℤ pos 0)
    && (at query 12 ==ℤ pos 3000)
    && (at query 2 ==ℤ scale)
    && within 250 350 (at query 5)
    && within 300 450 (at query 6)
    && within 3300 3500 (at query 7)
    && (at query 8 ==ℤ pos 2000)
    && within 1400 1550 (at query 0)

unfoldable pub needs_denial_repair : List ℤ → Bool
needs_denial_repair query =
    (at query 5 ==ℤ absent)
    && (at query 6 ==ℤ absent)
    && (at query 9 ==ℤ pos 0)
    && (at query 10 ==ℤ scale)
    && leb_ℤ (at query 7) (pos 1000)
    && within 5000 10000 (at query 2)
    && (at query 12 ==ℤ pos 2500)

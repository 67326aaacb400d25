-- ===== src/Tests/Sample.antt =====
-- An index of two clusters and six rows. The first cluster has five rows, the second one row
-- that is nearer to the query than the last of them although its centroid is far away.
use heindall.Prelude.{
  ℕ, zero, suc, ◌+◌, ◌*◌, ◌/◌, ◌%◌, ◌≤◌, ◌<◌, ◌≡◌, ◌≢◌, refl, Bool, true, ◌&&◌, ◌||◌, List, [], ◌∷◌,
  ◌++◌, arith, not, replicate, get_or, leb, ◌==◌, Bool-cases, inl, inr,
}
use heindall.Prelude.Int.{ℤ, pos, leb_ℤ, ◌≤ℤ◌, pos_part, neg_part, ◌==ℤ◌}
use heindall.Quantized.{
  QuantizedIndex, at, dimensions, has_ivf_blocks, ivf_block_size, ivf_block_stride,
}
use heindall.Ivf.Scan.Layout.{IsLoaded, list_offset}
use heindall.Ivf.Centroids.Loops.{AllQuantized, AllInt16}
use heindall.Ivf.Centroids.Result.{CentroidsLaidOut}
use heindall.Ivf.Exact.Repaired.{IsBoxed, row_vector}
use heindall.Ivf.Exact.Answer.{IsSearchable}

abbrev pub zeros : ℕ → List ℤ
zeros n = replicate n (pos 0)

abbrev pub sample_query : List ℤ
sample_query = zeros 14

-- The eight lanes of the first dimension; the other dimensions are zero.
abbrev first_block : List ℤ
first_block = pos 10 ∷ pos 20 ∷ pos 30 ∷ pos 40 ∷ pos 50 ∷ pos 0 ∷ pos 0 ∷ pos 0 ∷ zeros 104

abbrev second_block : List ℤ
second_block = pos 25 ∷ zeros 111

abbrev pub sample_index : QuantizedIndex
sample_index = record {
  vectors = [];
  blocks = first_block ++ second_block;
  labels = 1 ∷ 1 ∷ 0 ∷ 0 ∷ 0 ∷ 1 ∷ [];
  ivf = record {
    clusters = 2;
    centroids = zeros 14 ++ pos 9000 ∷ zeros 13;
    centroid_blocks = pos 0 ∷ pos 9000 ∷ zeros 110;
    list_offsets = 0 ∷ 5 ∷ 6 ∷ [];
    block_offsets = 0 ∷ 1 ∷ 2 ∷ [];
    bbox_min = pos 10 ∷ zeros 13 ++ pos 25 ∷ zeros 13;
    bbox_max = pos 50 ∷ zeros 13 ++ pos 25 ∷ zeros 13;
    orig_ids = 3 ∷ 1 ∷ 4 ∷ 0 ∷ 5 ∷ 2 ∷ [];
    nprobe = pos 1;
    ambiguous_nprobe = pos 2;
    repair = true;
  };
}

-- Does the test hold below `n`?
abbrev all_below : ℕ → (ℕ → Bool) → Bool
all_below zero p = true
all_below (suc n) p = p n && all_below n p

all_below-get : (n : ℕ) (p : ℕ → Bool) (i : ℕ) → all_below n p ≡ true → i < n → p i ≡ true
all_below-get zero p i h lt = absurd (omega arith)
all_below-get (suc n) p i h lt = elim (Bool-cases (i == n)) [
  | inl e ↦ let same : i ≡ n = ground arith in rw same (ground arith)
  | inr e ↦ all_below-get n p i (ground arith) (ground arith)
]

abbrev is_quantized : ℤ → Bool
is_quantized a = leb (neg_part a) 10000 && leb (pos_part a) 10000

abbrev all_quantized : List ℤ → Bool
all_quantized [] = true
all_quantized (x ∷ xs) = is_quantized x && all_quantized xs

pub all_quantized-AllQuantized : (xs : List ℤ) → all_quantized xs ≡ true → AllQuantized xs
all_quantized-AllQuantized [] h i = record { above = omega arith; below = omega arith }
all_quantized-AllQuantized (x ∷ xs) h zero = record { above = ground arith; below = ground arith }
all_quantized-AllQuantized (x ∷ xs) h (suc i) = all_quantized-AllQuantized xs (ground arith) i

pub sample_query-AllQuantized : AllQuantized sample_query
sample_query-AllQuantized = all_quantized-AllQuantized sample_query refl

two_cases : (P : ℕ → Type 0) → P 0 → P 1 → (c : ℕ) → c < 2 → P c
two_cases P a b zero h = a
two_cases P a b (suc zero) h = b
two_cases P a b (suc (suc c)) h = absurd (omega arith)

pub sample_index-IsLoaded : IsLoaded sample_index
unfolding has_ivf_blocks
sample_index-IsLoaded = record {
  blocks = refl;
  few = omega arith;
  covers = two_cases _ (omega arith) (omega arith);
  ordered = two_cases _ (omega arith) (omega arith);
  stored = two_cases _ (omega arith) (omega arith);
  labels = omega arith;
  ids = omega arith;
  distinct = λ i j lt h e. ids_differ i j lt h e;
}
  where
    ids_differ :
        (i j : ℕ)
        → i < j
        → j < 6
        → get_or sample_index.ivf.orig_ids i 0 ≢ get_or sample_index.ivf.orig_ids j 0
    ids_differ i j lt h e =
        let p =
          all_below-get 6
            (λ b. all_below 6 (λ a.
              leb b a
              || not
                  (get_or sample_index.ivf.orig_ids a 0 == get_or sample_index.ivf.orig_ids b 0)))
            j refl h in
        let q =
          all_below-get 6
            (λ a.
              leb j a
              || not (get_or sample_index.ivf.orig_ids a 0 == get_or sample_index.ivf.orig_ids j 0))
            i p (omega arith) in
        ground arith

-- The box of either cluster holds its rows, by looking at all of them.
abbrev box_holds : ℕ → ℕ → ℕ → Bool
box_holds c r d =
    leb_ℤ (at sample_index.ivf.bbox_min (c * dimensions + d)) (row_vector sample_index c r d)
    && leb_ℤ (row_vector sample_index c r d) (at sample_index.ivf.bbox_max (c * dimensions + d))

box_checked :
    (c r d : ℕ)
    → c < 2
    → list_offset sample_index c ≤ r
    → r < list_offset sample_index (c + 1)
    → d < dimensions
    → box_holds c r d ≡ true
box_checked zero r d hc lo hi hd =
    all_below-get 14 (box_holds 0 r) d
      (all_below-get 5 (λ r. all_below 14 (box_holds 0 r)) r refl hi) hd
box_checked (suc zero) r d hc lo hi hd =
    let row : r ≡ 5 = omega arith in rw row (all_below-get 14 (box_holds 1 5) d refl hd)
box_checked (suc (suc c)) r d hc lo hi hd = absurd (omega arith)

both : (a b c : ℤ) → leb_ℤ a b && leb_ℤ b c ≡ true → (a ≤ℤ b) × (b ≤ℤ c)
both a b c h = ground arith

sample_index-IsBoxed : IsBoxed sample_index
sample_index-IsBoxed = record {
  low_long = omega arith;
  high_long = omega arith;
  boxed = λ c r d hc lo hi hd.
      both (at sample_index.ivf.bbox_min (c * dimensions + d)) (row_vector sample_index c r d)
        (at sample_index.ivf.bbox_max (c * dimensions + d)) (box_checked c r d hc lo hi hd);
}

==ℤ_eq : (a b : ℤ) → (a ==ℤ b) ≡ true → a ≡ b
==ℤ_eq a b h = ground arith

abbrev is_laid : ℕ → ℕ → Bool
is_laid c d =
    at sample_index.ivf.centroid_blocks
      (c / ivf_block_size * ivf_block_stride + (d * ivf_block_size + c % ivf_block_size))
    ==ℤ at sample_index.ivf.centroids (c * dimensions + d)

pub sample_index-CentroidsLaidOut : CentroidsLaidOut sample_index
sample_index-CentroidsLaidOut c d hc hd =
    ==ℤ_eq _ _ (
      all_below-get 14 (is_laid c) d (all_below-get 2 (λ c. all_below 14 (is_laid c)) c refl hc) hd)

pub sample_index-IsSearchable : IsSearchable sample_index
sample_index-IsSearchable = record {
  loaded = sample_index-IsLoaded;
  boxed = sample_index-IsBoxed;
  laid = sample_index-CentroidsLaidOut;
  centroids = all_quantized-AllQuantized sample_index.ivf.centroids refl;
  centroid_blocks = all_quantized-AllQuantized sample_index.ivf.centroid_blocks refl;
  blocks = all_quantized-AllQuantized sample_index.blocks refl;
  probes = record { positive = omega arith; ordered = omega arith; bounded = omega arith };
}

pub AllQuantized-AllInt16 : (xs : List ℤ) → AllQuantized xs → AllInt16 xs
AllQuantized-AllInt16 xs h i = (let b = h i in omega arith)

-- ===== src/Ivf/Scan/Layout.antt =====
-- The index that a loader accepts: what the offsets and ids satisfy, and the rows as data.
use mathlib.Core.Path.{subst}
use heindall.Prelude.{
  ℕ, zero, suc, ◌+◌, ◌-◌, ◌*◌, ◌^◌, ◌≤◌, ◌<◌, ◌≡◌, ◌≢◌, refl, sym, ◌∙◌, inl, inr, true, some, List,
  [], ◌∷◌, arith, ltb, Bool-cases, get_or, get_elem?, length,
}
use heindall.Prelude.Int.{ℤ, pos, ◌+ℤ◌, pos_part}
use heindall.Quantized.{QuantizedIndex, has_ivf_blocks, ivf_block_stride, distance_order}
use heindall.Ivf.State.{Best}
use heindall.Ivf.State.Order.{IsFound, SameKey}
use heindall.Ivf.Kernel.{lane_term, lane_sum, lane_distance, quantized_block8_distances_avx2}
use heindall.Ivf.Scan.{block_row, row_id, Span, cluster_span, reads_inside, block8}
use heindall.Ivf.Scan.Blocks.{Covers, row_dist}
use heindall.Ivf.Scan.Meaning.{row}

abbrev pub list_offset : QuantizedIndex → ℕ → ℕ
list_offset idx c = get_or idx.ivf.list_offsets c 0

abbrev pub block_offset : QuantizedIndex → ℕ → ℕ
block_offset idx c = get_or idx.ivf.block_offsets c 0

abbrev pub span_of : QuantizedIndex → ℕ → Span
span_of idx c = record {
  row_start = list_offset idx c;
  row_end = list_offset idx (c + 1);
  block_start = block_offset idx c;
  block_end = block_offset idx (c + 1);
}

-- What the loaders check, and that the ids name the rows.
pub record IsLoaded (idx : QuantizedIndex) : Type 0 where
  pub blocks : has_ivf_blocks idx ≡ true
  pub few : idx.ivf.clusters ≤ 8192
  pub covers : (c : ℕ) → c < idx.ivf.clusters → Covers (span_of idx c)
  pub ordered : (c : ℕ) → c < idx.ivf.clusters → list_offset idx c ≤ list_offset idx (c + 1)
  pub stored :
      (c : ℕ)
      → c < idx.ivf.clusters
      → block_offset idx (c + 1) * ivf_block_stride ≤ length idx.blocks
  pub labels : list_offset idx idx.ivf.clusters ≤ length idx.labels
  pub ids : list_offset idx idx.ivf.clusters ≤ length idx.ivf.orig_ids
  pub distinct :
      (i j : ℕ)
      → i < j
      → j < list_offset idx idx.ivf.clusters
      → get_or idx.ivf.orig_ids i 0 ≢ get_or idx.ivf.orig_ids j 0

get_elem?-get_or : (xs : List ℕ) (i : ℕ) → i < length xs → get_elem? xs i ≡ some (get_or xs i 0)
get_elem?-get_or [] i h = absurd (omega arith)
get_elem?-get_or (x ∷ xs) zero h = refl
get_elem?-get_or (x ∷ xs) (suc i) h = get_elem?-get_or xs i (omega arith)

table_lengths :
    (idx : QuantizedIndex)
    → has_ivf_blocks idx ≡ true
    → (length idx.ivf.list_offsets ≡ idx.ivf.clusters + 1)
      × (length idx.ivf.block_offsets ≡ idx.ivf.clusters + 1)
unfolding has_ivf_blocks
table_lengths idx h = ground arith

-- The offset tables have an entry behind the last cluster, so no cluster's reads panic.
pub cluster_span-span_of :
    (idx : QuantizedIndex) (c : ℕ)
    → has_ivf_blocks idx ≡ true
    → c < idx.ivf.clusters
    → cluster_span idx c ≡ some (span_of idx c)
unfolding cluster_span
cluster_span-span_of idx c h lt =
    let (lists, blocks) = table_lengths idx h in
    rw (
      get_elem?-get_or idx.ivf.list_offsets c (omega arith),
      get_elem?-get_or idx.ivf.list_offsets (c + 1) (omega arith),
      get_elem?-get_or idx.ivf.block_offsets c (omega arith),
      get_elem?-get_or idx.ivf.block_offsets (c + 1) (omega arith),
    )

module _ (idx : QuantizedIndex) (ok : IsLoaded idx) where
  -- Offsets of later clusters are larger.
  offsets_ordered :
      (k c : ℕ) → c + k ≤ idx.ivf.clusters → list_offset idx c ≤ list_offset idx (c + k)
  offsets_ordered zero c h = let e : c + 0 ≡ c = omega arith in rw e (omega arith)
  offsets_ordered (suc k) c h =
      let e : c + suc k ≡ c + k + 1 = omega arith in
      rw e (omega (arith, offsets_ordered k c (omega arith), ok.ordered (c + k) (omega arith)))

  pub clusters_apart :
      (c d : ℕ) → c < d → d ≤ idx.ivf.clusters → list_offset idx (c + 1) ≤ list_offset idx d
  clusters_apart c d lt h =
      let e : c + 1 + (d - (c + 1)) ≡ d = omega arith in
      rw e at (offsets_ordered (d - (c + 1)) (c + 1) (omega arith))

-- The distance and the entry of a row of cluster `c`, as the vector code computes them.
abbrev pub row_distance : QuantizedIndex → List ℤ → ℕ → ℕ → ℤ
row_distance idx query c r = row_dist (span_of idx c) (block8 idx query) (pos 0) r

abbrev pub entry : QuantizedIndex → List ℤ → ℕ → ℕ → Best
entry idx query c r = row idx (list_offset idx (c + 1)) (row_distance idx query c) r

term_bound : (a b : ℤ) → pos_part (lane_term a b) ≤ 2 ^ 31
unfolding lane_term
term_bound a b = ground arith

sum_bound :
    (q r : ℕ → ℤ) (ds : List ℕ) (s : ℤ)
    → pos_part (lane_sum q r ds s) ≤ pos_part s + length ds * 2 ^ 31
unfolding lane_sum
sum_bound q r [] s = omega arith
sum_bound q r (d ∷ ds) s = omega (
  arith,
  sum_bound q r ds (s +ℤ lane_term (q d) (r d)),
  +ℤ_bound s (lane_term (q d) (r d)),
  term_bound (q d) (r d),
)
  where
    +ℤ_bound : (a b : ℤ) → pos_part (a +ℤ b) ≤ pos_part a + pos_part b
    +ℤ_bound a b = unfold ◌+ℤ◌ in ground arith

distance_bound : (q r : ℕ → ℤ) → pos_part (lane_distance q r) ≤ 14 * 2 ^ 31
unfolding lane_distance
distance_bound q r = omega (arith, sum_bound q r distance_order (pos 0))

row_distance_bound :
    (idx : QuantizedIndex) (query : List ℤ) (c r : ℕ)
    → pos_part (row_distance idx query c r) ≤ 14 * 2 ^ 31
unfolding quantized_block8_distances_avx2
row_distance_bound idx query c r = distance_bound _ _

-- The distance of every row is below the sentinel, whatever the blocks hold.
pub entry-IsFound :
    (idx : QuantizedIndex) (query : List ℤ) (c r : ℕ) → IsFound (entry idx query c r)
unfolding block_row
entry-IsFound idx query c r = ground (arith, row_distance_bound idx query c r)

row_id-ids :
    (idx : QuantizedIndex) (row_end i : ℕ)
    → row_end ≤ length idx.ivf.orig_ids
    → row_id idx row_end i ≡ get_or idx.ivf.orig_ids i 0
unfolding row_id
row_id-ids idx row_end i h = ground arith

module _ (idx : QuantizedIndex) (ok : IsLoaded idx) where
  pub below_last :
      (c : ℕ) → c < idx.ivf.clusters → list_offset idx (c + 1) ≤ list_offset idx idx.ivf.clusters
  below_last c h =
      let e : c + 1 + (idx.ivf.clusters - (c + 1)) ≡ idx.ivf.clusters = omega arith in
      subst (λ k. list_offset idx (c + 1) ≤ list_offset idx k) e
        (offsets_ordered idx ok (idx.ivf.clusters - (c + 1)) (c + 1) (omega arith))

  -- No scan reads behind the end of the blocks or the labels.
  pub span_of-inside : (c : ℕ) → c < idx.ivf.clusters → reads_inside idx (span_of idx c) ≡ true
  unfolding reads_inside
  span_of-inside c h =
      let stored = ok.stored c h in
      let last = below_last c h in let labels = ok.labels in ground arith

  -- The id of an entry is the stored id of its row.
  entry_id :
      (query : List ℤ) (c i : ℕ)
      → c < idx.ivf.clusters
      → (entry idx query c i).id ≡ get_or idx.ivf.orig_ids i 0
  unfolding block_row
  entry_id query c i h =
      row_id-ids idx (list_offset idx (c + 1)) i (omega (arith, ok.ids, below_last c h))

  -- Different rows have different ids.
  pub entries_apart :
      (query : List ℤ) (c d i j : ℕ)
      → c < idx.ivf.clusters
      → d < idx.ivf.clusters
      → i < list_offset idx (c + 1)
      → j < list_offset idx (d + 1)
      → i ≢ j
      → ¬ SameKey (entry idx query c i) (entry idx query d j)
  entries_apart query c d i j hc hd hi hj ne (_, same) =
      let ids = sym (entry_id query c i hc) ∙ same ∙ entry_id query d j hd in
      elim (Bool-cases (ltb i j)) [
        | inl lt ↦ ok.distinct i j (ground arith) (omega (arith, below_last d hd)) ids
        | inr ge ↦ ok.distinct j i (ground arith) (omega (arith, below_last c hc)) (sym ids)
      ]

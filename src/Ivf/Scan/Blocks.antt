-- ===== src/Ivf/Scan/Blocks.antt =====
-- Both block scans visit the rows of the cluster one by one, in order.
use heindall.Prelude.{
  ℕ, ◌⊎◌, zero, suc, ◌+◌, ◌-◌, ◌*◌, ◌/◌, ◌%◌, ◌≤◌, ◌<◌, ◌≡◌, refl, sym, ap, ◌∙◌, true, some, List,
  arith, ltb, leb, Bool-cases, inl, inr, min,
}
use mathlib.Core.Path.{fun_ext, subst}
use heindall.Prelude.Int.{ℤ}
use heindall.Quantized.{QuantizedIndex, ivf_block_size, ivf_block_stride, at}
use heindall.Ivf.State.{SearchState, fifth}
use heindall.Ivf.Kernel.{
  quantized_block8_distances_avx2, quantized_block32_distances_avx2, block32_lane,
}
use heindall.Ivf.Scan.{
  offer, block_row, scan_lanes, Span, row_base, block_ptr, scan_quads, scan_singles, block8,
  lane_unsafe, is_empty, cluster_span, reads_inside, scan_ivf_blocks_avx2, scan_ivf_blocks_unsafe,
}

-- Rows `row` to `row + n`, offered in order; `dist` may look at the current fifth distance.
unfoldable pub visit : QuantizedIndex → ℕ → (ℤ → ℕ → ℤ) → ℕ → ℕ → SearchState → SearchState
visit idx row_end dist zero row s = s
visit idx row_end dist (suc n) row s =
    visit idx row_end dist n (row + 1)
      (offer (block_row idx row_end row (dist (fifth s.best).dist row)) s)

-- The distance of a row, from its block and lane.
abbrev pub row_dist : Span → (ℕ → ℤ → ℕ → ℤ) → ℤ → ℕ → ℤ
row_dist sp dist cutoff row =
    dist (sp.block_start + (row - sp.row_start) / ivf_block_size) cutoff
      ((row - sp.row_start) % ivf_block_size)

module _ (idx : QuantizedIndex) (row_end : ℕ) where
  -- A visit in two parts; where the second starts does not matter if it is empty.
  visit_split :
      (dist : ℤ → ℕ → ℤ) (n m k row j : ℕ) (s : SearchState)
      → k ≡ n + m
      → (m ≡ 0) ⊎ (j ≡ row + n)
      → visit idx row_end dist k row s ≡ visit idx row_end dist m j (visit idx row_end dist n row s)
  unfolding visit
  visit_split dist zero m k row j s e (inl f) = let k0 : k ≡ 0 = omega arith in rw (k0, f)
  visit_split dist zero m k row j s e (inr f) =
      let km : k ≡ m = omega arith in let jr : j ≡ row = omega arith in rw (km, jr)
  visit_split dist (suc n) m k row j s e f =
      let ks : k ≡ suc (n + m) = omega arith in
      rw ks (visit_split dist n m (n + m) (row + 1) j _ refl (omega arith))

  scan_lanes-visit :
      (dist : ℤ → ℕ → ℤ) (lanes : ℤ → ℕ → ℤ) (base n lane : ℕ) (s : SearchState)
      → ((c : ℤ) (i : ℕ) → lane ≤ i → i < lane + n → lanes c i ≡ dist c (base + i))
      → scan_lanes idx row_end base lanes n lane s ≡ visit idx row_end dist n (base + lane) s
  unfolding scan_lanes visit
  scan_lanes-visit dist lanes base zero lane s h = refl
  scan_lanes-visit dist lanes base (suc n) lane s h =
      let next : base + (lane + 1) ≡ base + lane + 1 = omega arith in
      rw (h (fifth s.best).dist lane (omega arith) (omega arith), ← next)
        (scan_lanes-visit dist lanes base n (lane + 1) _
          (λ c i p q. h c i (omega arith) (omega arith)))

-- The blocks of the span have a lane for each of its rows.
abbrev pub Covers : Span → Type 0
Covers sp = sp.row_end ≤ row_base sp sp.block_end

module _ (idx : QuantizedIndex) (sp : Span) (dist : ℕ → ℤ → ℕ → ℤ) (covers : Covers sp) where
  abbrev rest : ℕ → SearchState → SearchState
  rest block =
      visit idx sp.row_end (row_dist sp dist) (sp.row_end - row_base sp block) (row_base sp block)

  lane_row :
      (block i : ℕ) (c : ℤ)
      → sp.block_start ≤ block
      → i < ivf_block_size
      → dist block c i ≡ row_dist sp dist c (row_base sp block + i)
  lane_row block i c h lt =
      let high : sp.block_start + (row_base sp block + i - sp.row_start) / 8 ≡ block =
        omega arith in
      let low : (row_base sp block + i - sp.row_start) % 8 ≡ i = omega arith in rw (high, low)

  scan_singles-rest :
      (fuel block : ℕ) (s : SearchState)
      → sp.block_start ≤ block
      → sp.block_end ≤ block + fuel
      → scan_singles idx dist sp fuel block s ≡ rest block s
  unfolding scan_singles
  scan_singles-rest zero block s h f =
      let none_left : sp.row_end - row_base sp block ≡ 0 = omega arith in
      rw none_left (unfold visit in refl)
  scan_singles-rest (suc fuel) block s h f = elim (Bool-cases (ltb block sp.block_end)) [
    | inl e ↦
        let base = row_base sp block in
        let n = min ivf_block_size (sp.row_end - base) in
        let lanes =
          scan_lanes-visit idx sp.row_end (row_dist sp dist) (dist block) base n 0 s
            (λ c i p q. lane_row block i c h (omega arith)) in
        let from : base + 0 ≡ base = omega arith in
        rw (e, scan_singles, lanes, from)
          (scan_singles-rest fuel (block + 1) _ (omega arith) (omega arith)
            ∙ sym (
                visit_split idx sp.row_end (row_dist sp dist) n
                  (sp.row_end - row_base sp (block + 1)) (sp.row_end - base) base
                  (row_base sp (block + 1)) s (omega arith) (omega arith)))
    | inr e ↦
        let none_left : sp.row_end - row_base sp block ≡ 0 = ground arith in
        rw (e, scan_singles, none_left) (unfold visit in refl)
  ]

block32-block8 :
    (idx : QuantizedIndex) (query : List ℤ) (block i : ℕ) (c : ℤ)
    → quantized_block32_distances_avx2 (at query) (block_ptr idx block) i
      ≡ block8 idx query (block + i / 8) c (i % 8)
block32-block8 idx query block i c =
    let whole : i / 8 * 8 + i % 8 ≡ i = omega arith in
    let move : (λ j. block_ptr idx block (i / 8 * ivf_block_stride + j))
        ≡ block_ptr idx (block + i / 8) =
      fun_ext λ j. ap (at idx.blocks) (omega arith) in
    subst
      (λ k.
        quantized_block32_distances_avx2 (at query) (block_ptr idx block) k
        ≡ block8 idx query (block + i / 8) c (i % 8))
      whole
      (block32_lane (at query) (block_ptr idx block) (i / 8) (i % 8) (omega arith)
        ∙ ap (λ p. quantized_block8_distances_avx2 (at query) p (i % 8)) move)

module _ (idx : QuantizedIndex) (sp : Span) (query : List ℤ) (covers : Covers sp) (g : ℕ) where
  abbrev singles : ℕ × SearchState → SearchState
  singles (block, s) = scan_singles idx (block8 idx query) sp g block s

  quads_then_singles :
      (fuel block : ℕ) (s : SearchState)
      → sp.block_start ≤ block
      → sp.block_end ≤ sp.block_start + g
      → singles (scan_quads idx query sp fuel block s)
        ≡ rest idx sp (block8 idx query) covers block s
  unfolding scan_quads
  quads_then_singles zero block s h f =
      scan_singles-rest idx sp (block8 idx query) covers g block s h (omega arith)
  quads_then_singles (suc fuel) block s h f = elim (Bool-cases (leb (block + 4) sp.block_end)) [
    | inl e ↦
        let base = row_base sp block in
        let n = min 32 (sp.row_end - base) in
        let lanes =
          scan_lanes-visit idx sp.row_end (row_dist sp (block8 idx query))
            (λ _ lane. quantized_block32_distances_avx2 (at query) (block_ptr idx block) lane) base
            n 0 s
            (λ c i p q.
              block32-block8 idx query block i c
              ∙ lane_row idx sp (block8 idx query) covers (block + i / 8) (i % 8) c (omega arith)
                  (omega arith)
              ∙ ap (row_dist sp (block8 idx query) c) (omega arith)) in
        let from : base + 0 ≡ base = omega arith in
        rw (e, scan_quads, lanes, from)
          (quads_then_singles fuel (block + 4) _ (omega arith) f
            ∙ sym (
                visit_split idx sp.row_end (row_dist sp (block8 idx query)) n
                  (sp.row_end - row_base sp (block + 4)) (sp.row_end - base) base
                  (row_base sp (block + 4)) s (omega arith) (omega arith)))
    | inr e ↦
        rw (e, scan_quads)
          (scan_singles-rest idx sp (block8 idx query) covers g block s h (omega arith))
  ]

-- Every row of the span, in order, with distances by `dist`.
abbrev pub visit_all : QuantizedIndex → Span → (ℕ → ℤ → ℕ → ℤ) → SearchState → SearchState
visit_all idx sp dist =
    visit idx sp.row_end (row_dist sp dist) (sp.row_end - sp.row_start) sp.row_start

rest-all :
    (idx : QuantizedIndex) (sp : Span) (dist : ℕ → ℤ → ℕ → ℤ) (covers : Covers sp) (s : SearchState)
    → rest idx sp dist covers sp.block_start s ≡ visit_all idx sp dist s
rest-all idx sp dist covers s =
    let from : row_base sp sp.block_start ≡ sp.row_start = omega arith in rw from

empty_span :
    (idx : QuantizedIndex) (sp : Span) (dist : ℕ → ℤ → ℕ → ℤ) (s : SearchState)
    → Covers sp
    → is_empty sp ≡ true
    → visit_all idx sp dist s ≡ s
unfolding visit
empty_span idx sp dist s covers h =
    let none_left : sp.row_end - sp.row_start ≡ 0 = ground arith in rw none_left

-- On a cluster whose offsets can be read, whose blocks and labels are all there and whose blocks
-- have a lane for each row, the vector scan returns, and offers every row of the cluster once, in order, with the distance of its
-- lane: the four-block loop, the one-block loop and the short last block leave nothing out and
-- repeat nothing.
pub scan_ivf_blocks_avx2-visit :
    (idx : QuantizedIndex) (query : List ℤ) (cluster : ℕ) (s : SearchState) (sp : Span)
    → cluster_span idx cluster ≡ some sp
    → reads_inside idx sp ≡ true
    → Covers sp
    → scan_ivf_blocks_avx2 idx query cluster s ≡ some (visit_all idx sp (block8 idx query) s)
unfolding scan_ivf_blocks_avx2
scan_ivf_blocks_avx2-visit idx query cluster s sp e inside covers =
    elim (Bool-cases (is_empty sp)) [
      | inl h ↦ rw (e, h, empty_span idx sp (block8 idx query) s covers h)
      | inr h ↦
          rw (e, h, inside)
            (ap some (
              quads_then_singles idx sp query covers (sp.block_end - sp.block_start)
                (sp.block_end - sp.block_start) sp.block_start s (omega arith) (omega arith)
              ∙ rest-all idx sp (block8 idx query) covers s))
    ]

-- On a cluster whose offsets can be read, whose blocks and labels are all there and whose blocks
-- have a lane for each row, the scalar scan returns, and offers every row of the cluster once, in order, with its early-exit
-- distance.
pub scan_ivf_blocks_unsafe-visit :
    (idx : QuantizedIndex) (query : List ℤ) (cluster : ℕ) (s : SearchState) (sp : Span)
    → cluster_span idx cluster ≡ some sp
    → reads_inside idx sp ≡ true
    → Covers sp
    → scan_ivf_blocks_unsafe idx query cluster s ≡ some (visit_all idx sp (lane_unsafe idx query) s)
unfolding scan_ivf_blocks_unsafe
scan_ivf_blocks_unsafe-visit idx query cluster s sp e inside covers =
    elim (Bool-cases (is_empty sp)) [
      | inl h ↦ rw (e, h, empty_span idx sp (lane_unsafe idx query) s covers h)
      | inr h ↦
          rw (e, h, inside)
            (ap some (
              scan_singles-rest idx sp (lane_unsafe idx query) covers
                (sp.block_end - sp.block_start) sp.block_start s (omega arith) (omega arith)
              ∙ rest-all idx sp (lane_unsafe idx query) covers s))
    ]

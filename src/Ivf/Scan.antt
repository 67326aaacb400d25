-- ===== src/Ivf/Scan.antt =====
-- The scans of one cluster: `scanIVFList`, its two versions over blocks, and the row version.
-- The tables of offsets are slices (an index out of range panics: `none`). The block versions read
-- blocks, labels and ids through unsafe pointers; what stands behind their ends is undefined in
-- Go, so a scan that could read there is `none` too (`reads_inside`). `state.bestDist[4]` is the
-- distance of `fifth`.
pub mod Blocks
pub mod Meaning
pub mod Layout
pub mod Cluster
use heindall.Prelude.{
  ℕ, zero, suc, ◌+◌, ◌-◌, ◌*◌, ◌%◌, ◌^◌, min, Bool, true, false, ◌&&◌, ◌||◌, Option, none, some,
  List, [], ◌∷◌, ltb, leb, ◌==◌, if◌then◌else◌, get_elem?, get_or, length, slice, ◌>>=◌,
}
use heindall.Prelude.Int.{ℤ, pos, ltb_ℤ, leb_ℤ, ◌==ℤ◌}
use heindall.Quantized.{
  QuantizedIndex, dimensions, ivf_block_size, ivf_block_stride, at, distance_order, add_until,
  quantized_distance, has_ivf_blocks,
}
use heindall.Ivf.State.{Best, SearchState, insert, fifth}
use heindall.Ivf.Kernel.{quantized_block8_distances_avx2, quantized_block32_distances_avx2}

-- `d > state.bestDist[4] || (d == state.bestDist[4] && origID >= state.bestID[4])`
unfoldable pub rejects : SearchState → ℤ → ℕ → Bool
rejects s d id =
    ltb_ℤ (fifth s.best).dist d || ((d ==ℤ (fifth s.best).dist) && leb (fifth s.best).id id)

unfoldable pub offer : Best → SearchState → SearchState
unfolding rejects
offer x s = if rejects s x.dist x.id then s else insert x s

-- `origIDs` is nil when there are fewer than `rowEnd` ids; then the row is its own id.
unfoldable pub row_id : QuantizedIndex → ℕ → ℕ → ℕ
row_id idx row_end row =
    if leb row_end (length idx.ivf.orig_ids) then get_or idx.ivf.orig_ids row 0 else row % 2 ^ 32

-- Its label is there wherever `reads_inside` holds.
unfoldable pub block_row : QuantizedIndex → ℕ → ℕ → ℤ → Best
unfolding row_id
block_row idx row_end row d = record {
  dist = d;
  fraud = get_or idx.labels row 0 == 1;
  id = row_id idx row_end row;
}

-- The loop over `lane`: `dist` gives a lane's distance under the current `bestDist[4]`.
unfoldable pub scan_lanes : QuantizedIndex → ℕ → ℕ → (ℤ → ℕ → ℤ) → ℕ → ℕ → SearchState → SearchState
unfolding block_row offer
scan_lanes idx row_end row_base dist zero lane s = s
scan_lanes idx row_end row_base dist (suc n) lane s =
    scan_lanes idx row_end row_base dist n (lane + 1)
      (offer (block_row idx row_end (row_base + lane) (dist (fifth s.best).dist lane)) s)

-- What the four reads at the top of both block scans return.
pub record Span : Type 0 where
  pub row_start : ℕ
  pub row_end : ℕ
  pub block_start : ℕ
  pub block_end : ℕ

unfoldable pub cluster_span : QuantizedIndex → ℕ → Option Span
cluster_span idx cluster = do
  row_start ← get_elem? idx.ivf.list_offsets cluster
  row_end ← get_elem? idx.ivf.list_offsets (cluster + 1)
  block_start ← get_elem? idx.ivf.block_offsets cluster
  block_end ← get_elem? idx.ivf.block_offsets (cluster + 1)
  some (record {
    row_start = row_start;
    row_end = row_end;
    block_start = block_start;
    block_end = block_end;
  })

abbrev pub row_base : Span → ℕ → ℕ
row_base sp block = sp.row_start + (block - sp.block_start) * ivf_block_size

-- Reads of a block's coordinates; inside the blocks wherever `reads_inside` holds.
abbrev pub block_ptr : QuantizedIndex → ℕ → ℕ → ℤ
block_ptr idx block i = at idx.blocks (block * ivf_block_stride + i)

-- `for ; block+4 <= blockEnd; block += 4`, with fuel; returns the block reached.
unfoldable pub scan_quads : QuantizedIndex → List ℤ → Span → ℕ → ℕ → SearchState → ℕ × SearchState
unfolding scan_lanes quantized_block32_distances_avx2
scan_quads idx query sp zero block s = (block, s)
scan_quads idx query sp (suc fuel) block s = elim (leb (block + 4) sp.block_end) [
  | true ↦
      let base = row_base sp block in
      scan_quads idx query sp fuel (block + 4) (
        scan_lanes idx sp.row_end base
          (λ _ lane. quantized_block32_distances_avx2 (at query) (block_ptr idx block) lane)
          (min (ivf_block_size * 4) (sp.row_end - base)) 0 s)
  | false ↦ (block, s)
]

-- `for ; block < blockEnd; block++`, with fuel; `dist` is one block's distance of a lane.
unfoldable pub scan_singles :
    QuantizedIndex → (ℕ → ℤ → ℕ → ℤ) → Span → ℕ → ℕ → SearchState → SearchState
unfolding scan_lanes
scan_singles idx dist sp zero block s = s
scan_singles idx dist sp (suc fuel) block s = elim (ltb block sp.block_end) [
  | true ↦
      let base = row_base sp block in
      scan_singles idx dist sp fuel (block + 1)
        (scan_lanes idx sp.row_end base (dist block) (min ivf_block_size (sp.row_end - base)) 0 s)
  | false ↦ s
]

abbrev pub is_empty : Span → Bool
is_empty sp = leb sp.row_end sp.row_start || leb sp.block_end sp.block_start

-- The unsafe reads of a scan stay inside: the blocks are all there, and so is a label for every
-- row of the cluster (the code reads only those of rows that it takes). Ids need no test: they
-- are read only when there is one for every row.
unfoldable pub reads_inside : QuantizedIndex → Span → Bool
reads_inside idx sp =
    leb (sp.block_end * ivf_block_stride) (length idx.blocks) && leb sp.row_end (length idx.labels)

-- The distances of one block by the vector code.
abbrev pub block8 : QuantizedIndex → List ℤ → ℕ → ℤ → ℕ → ℤ
block8 idx query block cutoff lane =
    quantized_block8_distances_avx2 (at query) (block_ptr idx block) lane

unfoldable pub scan_span_avx2 : QuantizedIndex → List ℤ → Span → SearchState → SearchState
unfolding scan_quads scan_singles quantized_block8_distances_avx2
scan_span_avx2 idx query sp s =
    let fuel = sp.block_end - sp.block_start in
    let (block, s') = scan_quads idx query sp fuel sp.block_start s in
    scan_singles idx (block8 idx query) sp fuel block s'

unfoldable pub scan_ivf_blocks_avx2 : QuantizedIndex → List ℤ → ℕ → SearchState → Option SearchState
unfolding scan_span_avx2 cluster_span reads_inside
scan_ivf_blocks_avx2 idx query cluster s = do
  sp ← cluster_span idx cluster
  if is_empty sp
      then some s
      else if reads_inside idx sp
      then some (scan_span_avx2 idx query sp s)
      else none

-- `quantizedBlockLaneDistanceUnsafe`: the exits of `quantizedDistance`, over one lane of a block.
unfoldable pub quantized_block_lane_distance_unsafe : List ℤ → (ℕ → ℤ) → ℕ → ℤ → ℤ
unfolding add_until
quantized_block_lane_distance_unsafe query block lane cutoff =
    pos (add_until (at query) (λ d. block (d * ivf_block_size + lane)) cutoff distance_order 0)

abbrev pub lane_unsafe : QuantizedIndex → List ℤ → ℕ → ℤ → ℕ → ℤ
lane_unsafe idx query block cutoff lane =
    quantized_block_lane_distance_unsafe query (block_ptr idx block) lane cutoff

unfoldable pub scan_ivf_blocks_unsafe :
    QuantizedIndex → List ℤ → ℕ → SearchState → Option SearchState
unfolding scan_singles cluster_span reads_inside quantized_block_lane_distance_unsafe
scan_ivf_blocks_unsafe idx query cluster s = do
  sp ← cluster_span idx cluster
  if is_empty sp
      then some s
      else if reads_inside idx sp
      then some (
          scan_singles idx (lane_unsafe idx query) sp (sp.block_end - sp.block_start) sp.block_start
            s)
      else none

-- One row of an index that has no blocks; the label is read only for a row that is taken.
unfoldable pub offer_ivf : QuantizedIndex → List ℤ → ℕ → SearchState → Option SearchState
unfolding slice quantized_distance rejects
offer_ivf idx query row s = do
  ref ← slice idx.vectors (row * dimensions) (row * dimensions + dimensions)
  let d = quantized_distance query ref (fifth s.best).dist
  let id = if ltb row (length idx.ivf.orig_ids) then get_or idx.ivf.orig_ids row 0 else row
  let take_it = do
    label ← get_elem? idx.labels row
    some (insert (record { dist = d; fraud = label == 1; id = id }) s)
  if rejects s d id then some s else take_it

-- `for row := start; row < end; row++`, with `end - start` rounds.
unfoldable pub scan_rows : QuantizedIndex → List ℤ → ℕ → ℕ → SearchState → Option SearchState
unfolding offer_ivf
scan_rows idx query zero row s = some s
scan_rows idx query (suc n) row s = do
  s' ← offer_ivf idx query row s
  scan_rows idx query n (row + 1) s'

-- `use_avx2` is `useIVFAVX2`, what the processor supports.
unfoldable pub scan_ivf_list : Bool → QuantizedIndex → List ℤ → ℕ → SearchState → Option SearchState
unfolding has_ivf_blocks scan_ivf_blocks_avx2 scan_ivf_blocks_unsafe scan_rows
scan_ivf_list use_avx2 idx query cluster s =
    let rows = do
      start ← get_elem? idx.ivf.list_offsets cluster
      end ← get_elem? idx.ivf.list_offsets (cluster + 1)
      scan_rows idx query (end - start) start s
    in if has_ivf_blocks idx
      then (if use_avx2
          then scan_ivf_blocks_avx2 idx query cluster s
          else scan_ivf_blocks_unsafe idx query cluster s)
      else rows

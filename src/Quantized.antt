-- ===== src/Quantized.antt =====
-- apps/api/internal/fraud/quantized.go: the quantised index, its search parameters and the
-- distance with early exit. `int` fields that count entries are never negative and are native
-- numbers; `NProbe` and `AmbiguousNProbe` come from flags and are signed.
pub mod Distance
pub mod Defaults
use heindall.Prelude.{
  ℕ, suc, ◌+◌, ◌*◌, ◌≡◌, Bool, true, false, ◌&&◌, not, List, [], ◌∷◌, ltb, leb, ◌==◌, if◌then◌else◌,
  length, get_or,
}
use heindall.Prelude.Int.{ℤ, pos, negsuc, ◌-ℤ◌, ◌*ℤ◌, ltb_ℤ, leb_ℤ, square, wrap64}

abbrev pub dimensions : ℕ
dimensions = 14

abbrev pub quant_scale : ℕ
quant_scale = 10000

abbrev pub ivf_block_size : ℕ
ivf_block_size = 8

abbrev pub ivf_block_stride : ℕ
ivf_block_stride = dimensions * ivf_block_size

-- The entry of an array; every index below is in range of it.
abbrev pub at : List ℤ → ℕ → ℤ
at v i = get_or v i (pos 0)

pub record IvfMetadata : Type 0 where
  pub clusters : ℕ
  pub centroids : List ℤ
  pub centroid_blocks : List ℤ
  pub list_offsets : List ℕ
  pub block_offsets : List ℕ
  pub bbox_min : List ℤ
  pub bbox_max : List ℤ
  pub orig_ids : List ℕ
  pub nprobe : ℤ
  pub ambiguous_nprobe : ℤ
  pub repair : Bool

pub record QuantizedIndex : Type 0 where
  pub vectors : List ℤ
  pub blocks : List ℤ
  pub labels : List ℕ
  pub ivf : IvfMetadata

unfoldable pub has_ivf : QuantizedIndex → Bool
has_ivf idx =
    ltb 0 idx.ivf.clusters
    && (length idx.ivf.list_offsets == idx.ivf.clusters + 1)
    && leb (idx.ivf.clusters * dimensions) (length idx.ivf.centroids)

-- `&&` reads the last block offset only when there are `clusters + 1` of them.
unfoldable pub has_ivf_blocks : QuantizedIndex → Bool
unfolding has_ivf
has_ivf_blocks idx =
    has_ivf idx
    && (length idx.ivf.block_offsets == idx.ivf.clusters + 1)
    && leb (get_or idx.ivf.block_offsets idx.ivf.clusters 0 * ivf_block_stride) (length idx.blocks)

-- The two fields that `normalizeIVFDefaults` writes, in the order of its assignments.
unfoldable pub default_probes : ℕ → ℤ → ℤ → ℤ × ℤ
default_probes clusters nprobe ambiguous =
    let n1 = if leb_ℤ nprobe (pos 0) then pos 8 else nprobe in
    let a1 = if leb_ℤ ambiguous (pos 0) then wrap64 (n1 *ℤ pos 5) else ambiguous in
    let n2 = if ltb_ℤ (pos clusters) n1 then pos clusters else n1 in
    let a2 = if ltb_ℤ a1 n2 then n2 else a1 in
    let a3 = if ltb_ℤ (pos clusters) a2 then pos clusters else a2 in (n2, a3)

abbrev pub with_probes : QuantizedIndex → ℤ × ℤ → QuantizedIndex
with_probes idx (nprobe, ambiguous) = record idx {
  ivf = record (idx.ivf) { nprobe = nprobe; ambiguous_nprobe = ambiguous };
}

unfoldable pub normalize_ivf_defaults : QuantizedIndex → QuantizedIndex
normalize_ivf_defaults idx =
    if not (has_ivf idx)
    then idx
    else with_probes idx (default_probes idx.ivf.clusters idx.ivf.nprobe idx.ivf.ambiguous_nprobe)

unfoldable pub set_ivf_search : QuantizedIndex → ℤ → ℤ → Bool → QuantizedIndex
set_ivf_search idx nprobe ambiguous_nprobe repair =
    if not (has_ivf idx)
    then idx
    else let n = if ltb_ℤ (pos 0) nprobe then nprobe else idx.ivf.nprobe in
      let a =
        if ltb_ℤ (pos 0) ambiguous_nprobe then ambiguous_nprobe else idx.ivf.ambiguous_nprobe in
      normalize_ivf_defaults (record idx {
        ivf = record (idx.ivf) { nprobe = n; ambiguous_nprobe = a; repair = repair };
      })

-- `d * d` for the difference of two `int16`, in `int64`, where it cannot overflow.
unfoldable pub sq_diff : ℤ → ℤ → ℕ
sq_diff a b = square (a -ℤ b)

-- The dimensions in the order in which the unrolled code adds them.
abbrev pub distance_order : List ℕ
distance_order = 5 ∷ 6 ∷ 2 ∷ 0 ∷ 7 ∷ 8 ∷ 12 ∷ 1 ∷ 3 ∷ 4 ∷ 9 ∷ 10 ∷ 11 ∷ 13 ∷ []

-- `sum += d * d; if sum >= cutoff { return sum }`, for the dimensions that are left.
unfoldable pub add_until : (ℕ → ℤ) → (ℕ → ℤ) → ℤ → List ℕ → ℕ → ℕ
add_until query ref cutoff [] sum = sum
add_until query ref cutoff (d ∷ ds) sum =
    let total = sum + sq_diff (query d) (ref d) in
    let rest = add_until query ref cutoff ds total in
    if leb_ℤ cutoff (pos total) then total else rest

-- Both arguments have `dimensions` entries: every caller slices `ref` to that length.
unfoldable pub quantized_distance : List ℤ → List ℤ → ℤ → ℤ
quantized_distance query ref cutoff = pos (add_until (at query) (at ref) cutoff distance_order 0)

-- ===== src/Load.antt =====
-- apps/api/internal/fraud/binary_index.go: the check of the offset tables of a loaded index.
pub mod Offsets
pub mod Loaded
use heindall.Prelude.{
  ℕ, zero, suc, ◌+◌, ◌-◌, ◌*◌, ◌==◌, Bool, true, false, not, ◌||◌, List, Option, none, some,
  if◌then◌else◌, ltb, length,
}
use heindall.Build.{blocks_for_rows, offset}

-- The errors of `validateIVFOffsets`.
pub data OffsetError : Type 0 where
  unsupported_clusters : ℕ → OffsetError
  bad_list_offsets : OffsetError
  bad_list_bounds : OffsetError
  non_monotonic_lists : OffsetError
  bad_block_offsets : OffsetError
  non_monotonic_blocks : OffsetError
  bad_block_span : OffsetError

-- The first loop, with the rounds that are left; `none` is the error `nil`.
unfoldable pub check_lists : List ℕ → ℕ → ℕ → Option OffsetError
check_lists lists zero i = none
check_lists lists (suc n) i =
    let rest = check_lists lists n (i + 1) in
    if ltb (offset lists (i + 1)) (offset lists i) then some non_monotonic_lists else rest

-- The second loop. Its `uint32` differences are taken where they are not negative.
unfoldable pub check_blocks : List ℕ → List ℕ → ℕ → ℕ → Option OffsetError
check_blocks lists blocks zero i = none
check_blocks lists blocks (suc n) i =
    let rest = check_blocks lists blocks n (i + 1) in
    let rows = offset lists (i + 1) - offset lists i in
    if ltb (offset blocks (i + 1)) (offset blocks i)
    then some non_monotonic_blocks
    else if not (offset blocks (i + 1) - offset blocks i == blocks_for_rows rows)
    then some bad_block_span
    else rest

-- The part of the check behind `blockOffsets == nil`.
unfoldable pub check_block_table : ℕ → List ℕ → List ℕ → Option OffsetError
unfolding check_blocks
check_block_table clusters lists blocks =
    if not (length blocks == clusters + 1) || not (offset blocks 0 == 0)
    then some bad_block_offsets
    else check_blocks lists blocks clusters 0

-- `return` of the first error.
abbrev pub first_error : Option OffsetError → Option OffsetError → Option OffsetError
first_error none b = b
first_error (some e) b = some e

-- An absent block table is `none`.
unfoldable pub validate_ivf_offsets : ℕ → ℕ → List ℕ → Option (List ℕ) → Option OffsetError
validate_ivf_offsets count clusters lists blocks =
    let lists_checked = check_lists lists clusters 0 in
    let blocks_checked : Option OffsetError = elim blocks [
      | none ↦ none
      | some table ↦ check_block_table clusters lists table
    ] in
    if ltb (128 * 64) clusters
    then some (unsupported_clusters clusters)
    else if not (length lists == clusters + 1)
    then some bad_list_offsets
    else if not (offset lists 0 == 0) || not (offset lists clusters == count)
    then some bad_list_bounds
    else first_error lists_checked blocks_checked

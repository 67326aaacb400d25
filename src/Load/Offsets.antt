-- ===== src/Load/Offsets.antt =====
-- Which offset tables `validateIVFOffsets` accepts.
use heindall.Prelude.{
  ℕ, zero, suc, ◌+◌, ◌-◌, ◌*◌, ◌==◌, ◌≤◌, ◌<◌, ◌≡◌, refl, true, false, List, Option, none, some,
  ltb, length, arith, Bool-cases, inl, inr, ==_iff,
}
use heindall.Build.{blocks_for_rows, offset}
use heindall.Load.{
  OffsetError, first_error, check_lists, check_blocks, check_block_table, validate_ivf_offsets,
}

-- The tables of an index with `count` rows and a block table.
pub record IsTable (count clusters : ℕ) (lists blocks : List ℕ) : Type 0 where
  pub few : clusters ≤ 8192
  pub lists_long : length lists ≡ clusters + 1
  pub blocks_long : length blocks ≡ clusters + 1
  pub lists_from : offset lists 0 ≡ 0
  pub lists_to : offset lists clusters ≡ count
  pub blocks_from : offset blocks 0 ≡ 0
  pub rises : (c : ℕ) → c < clusters → offset lists c ≤ offset lists (c + 1)
  pub spans :
      (c : ℕ)
      → c < clusters
      → offset blocks (c + 1)
        ≡ offset blocks c + blocks_for_rows (offset lists (c + 1) - offset lists c)

-- Both directions for the loops, from cluster `i` on.
abbrev Rises : List ℕ → ℕ → ℕ → Type 0
Rises lists n i = (c : ℕ) → i ≤ c → c < i + n → offset lists c ≤ offset lists (c + 1)

abbrev Spans : List ℕ → List ℕ → ℕ → ℕ → Type 0
Spans lists blocks n i =
    (c : ℕ)
    → i ≤ c
    → c < i + n
    → offset blocks (c + 1)
      ≡ offset blocks c + blocks_for_rows (offset lists (c + 1) - offset lists c)

later : (n i c : ℕ) → i ≤ c → c < i + suc n → (c == i) ≡ false → (i + 1 ≤ c) × (c < i + 1 + n)
later n i c h k e = ground arith

check_lists-Rises : (lists : List ℕ) (n i : ℕ) → check_lists lists n i ≡ none → Rises lists n i
unfolding check_lists
check_lists-Rises lists zero i h c lo hi = absurd (omega arith)
check_lists-Rises lists (suc n) i h c lo hi =
    elim (Bool-cases (ltb (offset lists (i + 1)) (offset lists i))) [
      | inl bad ↦ absurd (cc)
      | inr good ↦ elim (Bool-cases (c == i)) [
        | inl e ↦ let is : c ≡ i = (==_iff c i).0 e in rw is (ground arith)
        | inr e ↦
            let (a, b) = later n i c lo hi e in
            check_lists-Rises lists n (i + 1)
              (let rest : check_lists lists n (i + 1) ≡ none = ground arith in rest) c a b
      ]
    ]

Rises-check_lists : (lists : List ℕ) (n i : ℕ) → Rises lists n i → check_lists lists n i ≡ none
unfolding check_lists
Rises-check_lists lists zero i h = refl
Rises-check_lists lists (suc n) i h =
    let rest = Rises-check_lists lists n (i + 1) (λ c lo hi. h c (omega arith) (omega arith)) in
    let here = h i (omega arith) (omega arith) in ground arith

spans_rise :
    (rows next here : ℕ)
    → (next - here == blocks_for_rows rows) ≡ true
    → ltb next here ≡ false
    → next ≡ here + blocks_for_rows rows
spans_rise rows next here e f = ground arith

check_blocks-Spans :
    (lists blocks : List ℕ) (n i : ℕ)
    → check_blocks lists blocks n i ≡ none
    → Spans lists blocks n i
unfolding check_blocks
check_blocks-Spans lists blocks zero i h c lo hi = absurd (omega arith)
check_blocks-Spans lists blocks (suc n) i h c lo hi =
    let rows = offset lists (i + 1) - offset lists i in
    let up : ltb (offset blocks (i + 1)) (offset blocks i) ≡ false = ground arith in
    let fits : (offset blocks (i + 1) - offset blocks i == blocks_for_rows rows) ≡ true =
      ground arith in
    let rest : check_blocks lists blocks n (i + 1) ≡ none = ground arith in
    elim (Bool-cases (c == i)) [
      | inl e ↦
          let is : c ≡ i = (==_iff c i).0 e in
          rw is (spans_rise rows (offset blocks (i + 1)) (offset blocks i) fits up)
      | inr e ↦
          let (a, b) = later n i c lo hi e in check_blocks-Spans lists blocks n (i + 1) rest c a b
    ]

Spans-check_blocks :
    (lists blocks : List ℕ) (n i : ℕ)
    → Spans lists blocks n i
    → check_blocks lists blocks n i ≡ none
unfolding check_blocks
Spans-check_blocks lists blocks zero i h = refl
Spans-check_blocks lists blocks (suc n) i h =
    let rest =
      Spans-check_blocks lists blocks n (i + 1) (λ c lo hi. h c (omega arith) (omega arith)) in
    let here = h i (omega arith) (omega arith) in ground arith

first_error-none : (a b : Option OffsetError) → first_error a b ≡ none → (a ≡ none) × (b ≡ none)
first_error-none none b h = (refl, h)
first_error-none (some e) b h = absurd (cc)

-- `validateIVFOffsets` accepts tables with block offsets exactly when there are at most 8192
-- clusters, both tables have one entry more than that, start at 0, the rows end at `count`, the
-- list offsets do not fall, and every cluster has just the blocks that its rows need.
pub validate_ivf_offsets_iff :
    (count clusters : ℕ) (lists blocks : List ℕ)
    → (validate_ivf_offsets count clusters lists (some blocks) ≡ none
        → IsTable count clusters lists blocks)
      × (IsTable count clusters lists blocks
          → validate_ivf_offsets count clusters lists (some blocks) ≡ none)
unfolding validate_ivf_offsets check_block_table
validate_ivf_offsets_iff count clusters lists blocks = (accepted, accepts)
  where
    accepted :
        validate_ivf_offsets count clusters lists (some blocks) ≡ none
        → IsTable count clusters lists blocks
    accepted h =
        let few : ltb (128 * 64) clusters ≡ false = ground arith in
        let long : (length lists == clusters + 1) ≡ true = ground arith in
        let from : (offset lists 0 == 0) ≡ true = ground arith in
        let to : (offset lists clusters == count) ≡ true = ground arith in
        let (a, b) =
          first_error-none (check_lists lists clusters 0) (check_block_table clusters lists blocks)
            (ground arith) in
        let blong : (length blocks == clusters + 1) ≡ true = ground arith in
        let bfrom : (offset blocks 0 == 0) ≡ true = ground arith in
        let b' : check_blocks lists blocks clusters 0 ≡ none = ground arith in
        record {
          few = ground arith;
          lists_long = (==_iff _ _).0 long;
          blocks_long = (==_iff _ _).0 blong;
          lists_from = (==_iff _ _).0 from;
          lists_to = (==_iff _ _).0 to;
          blocks_from = (==_iff _ _).0 bfrom;
          rises = λ c hc. check_lists-Rises lists clusters 0 a c (omega arith) (omega arith);
          spans =
              λ c hc. check_blocks-Spans lists blocks clusters 0 b' c (omega arith) (omega arith);
        }

    accepts :
        IsTable count clusters lists blocks
        → validate_ivf_offsets count clusters lists (some blocks) ≡ none
    accepts t =
        let a = Rises-check_lists lists clusters 0 (λ c lo hi. t.rises c (omega arith)) in
        let b = Spans-check_blocks lists blocks clusters 0 (λ c lo hi. t.spans c (omega arith)) in
        let few : ltb (128 * 64) clusters ≡ false = (let f = t.few in ground arith) in
        let long : (length lists == clusters + 1) ≡ true = (==_iff _ _).1 t.lists_long in
        let from : (offset lists 0 == 0) ≡ true = (==_iff _ _).1 t.lists_from in
        let to : (offset lists clusters == count) ≡ true = (==_iff _ _).1 t.lists_to in
        let blong : (length blocks == clusters + 1) ≡ true = (==_iff _ _).1 t.blocks_long in
        let bfrom : (offset blocks 0 == 0) ≡ true = (==_iff _ _).1 t.blocks_from in
        rw (few, long, from, to, a, blong, bfrom, b) refl

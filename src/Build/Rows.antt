-- ===== src/Build/Rows.antt =====
-- `buildIVFBlocks` puts every row where the scans read it.
use mathlib.Core.Path.{subst}
use heindall.Prelude.{
  ℕ, zero, suc, ◌+◌, ◌-◌, ◌*◌, ◌/◌, ◌%◌, ◌≤◌, ◌<◌, ◌≡◌, refl, ◌∙◌, ap, ◌⊎◌, inl, inr, ◌==◌, List,
  length, arith, Bool-cases, length-replicate, ==_iff,
}
use heindall.Prelude.Int.{ℤ, pos}
use heindall.Quantized.{at, dimensions, ivf_block_size, ivf_block_stride}
use heindall.Build.{write_lane, write_rows, write_clusters, offset, build_ivf_blocks}
use heindall.Build.Blocks.{
  place_of, write_slot, row_of, length-write_lane, write_slot-other, write_slot-same,
}

-- The slot of a row counts the lanes from the first block.
abbrev pub slot : ℕ → ℕ → ℕ → ℕ
slot row_start block_start row = block_start * ivf_block_size + (row - row_start)

length-write_rows :
    (vs : List ℤ) (rs bs n row : ℕ) (xs : List ℤ)
    → length (write_rows vs rs bs n row xs) ≡ length xs
unfolding write_rows
length-write_rows vs rs bs zero row xs = refl
length-write_rows vs rs bs (suc n) row xs =
    length-write_rows vs rs bs n (row + 1) _
    ∙ length-write_lane (row_of vs row) (bs + (row - rs) / 8) ((row - rs) % 8) dimensions 0 xs

write_row-slot :
    (v : ℕ → ℤ) (rs bs row : ℕ) (xs : List ℤ)
    → write_lane v (bs + (row - rs) / 8) ((row - rs) % 8) dimensions 0 xs
      ≡ write_slot v (slot rs bs row) dimensions 0 xs
write_row-slot v rs bs row xs =
    let high : bs + (row - rs) / 8 ≡ slot rs bs row / 8 = omega arith in
    let low : (row - rs) % 8 ≡ slot rs bs row % 8 = omega arith in rw (high, low)

write_rows-other :
    (vs : List ℤ) (rs bs n row k e : ℕ) (xs : List ℤ)
    → rs ≤ row
    → (k < slot rs bs row) ⊎ (slot rs bs (row + n) ≤ k)
    → e < dimensions
    → at (write_rows vs rs bs n row xs) (place_of k e) ≡ at xs (place_of k e)
unfolding write_rows
write_rows-other vs rs bs zero row k e xs h apart he = refl
write_rows-other vs rs bs (suc n) row k e xs h apart he =
    write_rows-other vs rs bs n (row + 1) k e _ (omega arith) (omega arith) he
    ∙ ap (λ b. at b (place_of k e)) (write_row-slot (row_of vs row) rs bs row xs)
    ∙ write_slot-other (row_of vs row) (slot rs bs row) k e dimensions 0 xs (omega arith) he
        (inl (omega arith))

write_rows-at :
    (vs : List ℤ) (rs bs n row r e : ℕ) (xs : List ℤ)
    → rs ≤ row
    → row ≤ r
    → r < row + n
    → e < dimensions
    → place_of (slot rs bs r) e < length xs
    → at (write_rows vs rs bs n row xs) (place_of (slot rs bs r) e) ≡ row_of vs r e
unfolding write_rows
write_rows-at vs rs bs zero row r e xs h lo hi he long = absurd (omega arith)
write_rows-at vs rs bs (suc n) row r e xs h lo hi he long = elim (Bool-cases (r == row)) [
  | inl same ↦
      let is : r ≡ row = (==_iff r row).0 same in
      rw is (
        write_rows-other vs rs bs n (row + 1) (slot rs bs row) e _ (omega arith) (inl (omega arith))
          he
        ∙ ap (λ b. at b (place_of (slot rs bs row) e)) (write_row-slot (row_of vs row) rs bs row xs)
        ∙ write_slot-same (row_of vs row) (slot rs bs row) e dimensions 0 xs (omega arith)
            (omega arith) (omega arith)
            (subst (λ i. place_of (slot rs bs i) e < length xs) is long))
  | inr other ↦
      write_rows-at vs rs bs n (row + 1) r e _ (omega arith) (ground arith) (omega arith) he (
        omega (
          arith,
          length-write_lane (row_of vs row) (bs + (row - rs) / 8) ((row - rs) % 8) dimensions 0 xs,
          long,
        ))
]

length-write_clusters :
    (vs : List ℤ) (lo bo : List ℕ) (n c : ℕ) (xs : List ℤ)
    → length (write_clusters vs lo bo n c xs) ≡ length xs
unfolding write_clusters
length-write_clusters vs lo bo zero c xs = refl
length-write_clusters vs lo bo (suc n) c xs =
    length-write_clusters vs lo bo n (c + 1) _
    ∙ length-write_rows vs (offset lo c) (offset bo c) (offset lo (c + 1) - offset lo c)
        (offset lo c) xs

pub length-build_ivf_blocks :
    (vs : List ℤ) (lo bo : List ℕ)
    → length (build_ivf_blocks vs lo bo) ≡ offset bo (length bo - 1) * ivf_block_stride
unfolding build_ivf_blocks
length-build_ivf_blocks vs lo bo =
    length-write_clusters vs lo bo (length lo - 1) 0 _
    ∙ length-replicate (offset bo (length bo - 1) * ivf_block_stride) (pos 0)

-- The lanes of the blocks of a cluster are enough for its rows.
abbrev pub HasRoom : List ℕ → List ℕ → ℕ → Type 0
HasRoom lo bo clusters =
    (c : ℕ)
    → c < clusters
    → offset bo c * ivf_block_size + (offset lo (c + 1) - offset lo c)
      ≤ offset bo (c + 1) * ivf_block_size

module _ (vs : List ℤ) (lo bo : List ℕ) (clusters : ℕ) (room : HasRoom lo bo clusters) where
  pub block_offsets_rise : (n c : ℕ) → c + n ≤ clusters → offset bo c ≤ offset bo (c + n)
  block_offsets_rise zero c h = let same : c + 0 ≡ c = omega arith in rw same (omega arith)
  block_offsets_rise (suc n) c h =
      let next : c + suc n ≡ c + 1 + n = omega arith in
      rw next (omega (arith, block_offsets_rise n (c + 1) (omega arith), room c (omega arith)))

  write_clusters-before :
      (n c k e : ℕ) (xs : List ℤ)
      → c + n ≤ clusters
      → k < offset bo c * ivf_block_size
      → e < dimensions
      → at (write_clusters vs lo bo n c xs) (place_of k e) ≡ at xs (place_of k e)
  unfolding write_clusters
  write_clusters-before zero c k e xs h low he = refl
  write_clusters-before (suc n) c k e xs h low he =
      write_clusters-before n (c + 1) k e _ (omega arith) (omega (arith, room c (omega arith))) he
      ∙ write_rows-other vs (offset lo c) (offset bo c) (offset lo (c + 1) - offset lo c)
          (offset lo c) k e xs (omega arith) (inl (omega arith)) he

  write_clusters-at :
      (n c j r e : ℕ) (xs : List ℤ)
      → c + n ≤ clusters
      → c ≤ j
      → j < c + n
      → offset lo j ≤ r
      → r < offset lo (j + 1)
      → e < dimensions
      → place_of (slot (offset lo j) (offset bo j) r) e < length xs
      → at (write_clusters vs lo bo n c xs) (place_of (slot (offset lo j) (offset bo j) r) e)
        ≡ row_of vs r e
  unfolding write_clusters
  write_clusters-at zero c j r e xs h cj jc lr rl he long = absurd (omega arith)
  write_clusters-at (suc n) c j r e xs h cj jc lr rl he long = elim (Bool-cases (j == c)) [
    | inl same ↦
        let is : j ≡ c = (==_iff j c).0 same in
        let lr' = subst (λ i. offset lo i ≤ r) is lr in
        let rl' = subst (λ i. r < offset lo (i + 1)) is rl in
        rw is (
          write_clusters-before n (c + 1) (slot (offset lo c) (offset bo c) r) e _ (omega arith)
            (omega (arith, room c (omega arith))) he
          ∙ write_rows-at vs (offset lo c) (offset bo c) (offset lo (c + 1) - offset lo c)
              (offset lo c) r e xs (omega arith) lr' (omega arith) he
              (subst (λ i. place_of (slot (offset lo i) (offset bo i) r) e < length xs) is long))
    | inr other ↦
        write_clusters-at n (c + 1) j r e _ (omega arith) (ground arith) (omega arith) lr rl he (
          omega (
            arith,
            long,
            length-write_rows vs (offset lo c) (offset bo c) (offset lo (c + 1) - offset lo c)
                (offset lo c) xs,
          ))
  ]

  -- For offset lists of `clusters + 1` entries whose blocks have room for the rows,
  -- `buildIVFBlocks` puts coordinate `d` of row `r` of cluster `c` into the block and lane where
  -- the scans read it.
  pub build_ivf_blocks-at :
      (c r d : ℕ)
      → length lo ≡ clusters + 1
      → length bo ≡ clusters + 1
      → c < clusters
      → offset lo c ≤ r
      → r < offset lo (c + 1)
      → d < dimensions
      → at (build_ivf_blocks vs lo bo) (place_of (slot (offset lo c) (offset bo c) r) d)
        ≡ at vs (r * dimensions + d)
  unfolding build_ivf_blocks
  build_ivf_blocks-at c r d ll lb h lr rl hd =
      let last_list : length lo - 1 ≡ clusters = omega arith in
      let last_block : length bo - 1 ≡ clusters = omega arith in
      let below : c + 1 + (clusters - (c + 1)) ≡ clusters = omega arith in
      let rise =
        subst (λ i. offset bo (c + 1) ≤ offset bo i) below
          (block_offsets_rise (clusters - (c + 1)) (c + 1) (omega arith)) in
      rw (last_list, last_block)
        (write_clusters-at clusters 0 c r d _ (omega arith) (omega arith) (omega arith) lr rl hd (
          omega (
            arith,
            rise,
            room c h,
            length-replicate (offset bo clusters * ivf_block_stride) (pos 0),
          )))

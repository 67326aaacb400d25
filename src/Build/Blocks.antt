-- ===== src/Build/Blocks.antt =====
-- What the builders write stands where the scans read it.
use heindall.Prelude.{
  ℕ, zero, suc, ◌+◌, ◌*◌, ◌/◌, ◌%◌, ◌≤◌, ◌<◌, ◌≡◌, ◌≢◌, refl, ◌∙◌, sym, ap, ◌⊎◌, inl, inr, ◌==◌,
  List, [], ◌∷◌, set, length, arith, Bool-cases, length-set, length-replicate, ==_iff,
}
use mathlib.Core.Path.{subst}
use heindall.Prelude.Int.{ℤ, pos}
use heindall.Quantized.{at, dimensions, ivf_block_size, ivf_block_stride}
use heindall.Build.{write_lane, write_centroids, build_centroid_blocks, blocks_for_rows}

at-set_same : (xs : List ℤ) (i : ℕ) (v : ℤ) → i < length xs → at (set xs i v) i ≡ v
at-set_same [] i v h = absurd (omega arith)
at-set_same (x ∷ xs) zero v h = refl
at-set_same (x ∷ xs) (suc i) v h = at-set_same xs i v (omega arith)

at-set_other : (xs : List ℤ) (i j : ℕ) (v : ℤ) → i ≢ j → at (set xs i v) j ≡ at xs j
at-set_other [] i j v h = refl
at-set_other (x ∷ xs) zero zero v h = absurd (h refl)
at-set_other (x ∷ xs) zero (suc j) v h = refl
at-set_other (x ∷ xs) (suc i) zero v h = refl
at-set_other (x ∷ xs) (suc i) (suc j) v h = at-set_other xs i j v (λ e. h (ap suc e))

-- The place of dimension `d` of the row in lane `k % 8` of block `k / 8`.
abbrev pub place_of : ℕ → ℕ → ℕ
place_of k d = k / ivf_block_size * ivf_block_stride + (d * ivf_block_size + k % ivf_block_size)

place_slot : (k j d e : ℕ) → place_of k d ≡ place_of j e → d < dimensions → e < dimensions → k ≡ j
place_slot k j d e h hd he =
    let low : k % 8 ≡ j % 8 = omega arith in let high : k / 8 ≡ j / 8 = omega arith in omega arith

place_dimension :
    (k j d e : ℕ) → place_of k d ≡ place_of j e → d < dimensions → e < dimensions → d ≡ e
place_dimension k j d e h hd he =
    let same = place_slot k j d e h hd he in
    let h' = subst (λ i. place_of i d ≡ place_of j e) same h in omega arith

-- Writing one lane, by its number among all lanes.
abbrev pub write_slot : (ℕ → ℤ) → ℕ → ℕ → ℕ → List ℤ → List ℤ
write_slot v k = write_lane v (k / ivf_block_size) (k % ivf_block_size)

pub length-write_lane :
    (v : ℕ → ℤ) (b l n d : ℕ) (xs : List ℤ) → length (write_lane v b l n d xs) ≡ length xs
unfolding write_lane
length-write_lane v b l zero d xs = refl
length-write_lane v b l (suc n) d xs = length-write_lane v b l n (d + 1) _ ∙ length-set _ _ _

pub write_slot-other :
    (v : ℕ → ℤ) (k j e n d : ℕ) (xs : List ℤ)
    → d + n ≤ dimensions
    → e < dimensions
    → (j ≢ k) ⊎ (e < d)
    → at (write_slot v k n d xs) (place_of j e) ≡ at xs (place_of j e)
unfolding write_lane
write_slot-other v k j e zero d xs h he apart = refl
write_slot-other v k j e (suc n) d xs h he apart =
    write_slot-other v k j e n (d + 1) _ (omega arith) he (omega arith)
    ∙ at-set_other xs _ (place_of j e) (v d) (λ same.
      let eq : place_of k d ≡ place_of j e = omega arith in
      let slot = place_slot k j d e eq (omega arith) he in
      let dim = place_dimension k j d e eq (omega arith) he in
      elim apart [ inl ne ↦ ne (sym slot) | inr lt ↦ absurd (omega arith) ])

pub write_slot-same :
    (v : ℕ → ℤ) (k e n d : ℕ) (xs : List ℤ)
    → d + n ≤ dimensions
    → d ≤ e
    → e < d + n
    → place_of k e < length xs
    → at (write_slot v k n d xs) (place_of k e) ≡ v e
unfolding write_lane
write_slot-same v k e zero d xs h lo hi long = absurd (omega arith)
write_slot-same v k e (suc n) d xs h lo hi long =
    let here : k / 8 * ivf_block_stride + d * 8 + k % 8 ≡ place_of k d = omega arith in
    elim (Bool-cases (e == d)) [
      | inl same ↦
          let is : e ≡ d = (==_iff e d).0 same in
          rw (here, is)
            (write_slot-other v k k d n (d + 1) _ (omega arith) (omega arith) (inr (omega arith))
              ∙ at-set_same xs (place_of k d) (v d) (subst (λ i. place_of k i < length xs) is long))
      | inr other ↦
          write_slot-same v k e n (d + 1) _ (omega arith) (ground arith) (omega arith)
            (omega (arith, length-set xs (k / 8 * ivf_block_stride + d * 8 + k % 8) (v d), long))
    ]

abbrev pub row_of : List ℤ → ℕ → ℕ → ℤ
row_of vs r d = at vs (r * dimensions + d)

-- The loop over the centroids.
length-write_centroids :
    (cs : List ℤ) (n c : ℕ) (xs : List ℤ) → length (write_centroids cs n c xs) ≡ length xs
unfolding write_centroids
length-write_centroids cs zero c xs = refl
length-write_centroids cs (suc n) c xs =
    length-write_centroids cs n (c + 1) _
    ∙ length-write_lane (row_of cs c) (c / 8) (c % 8) dimensions 0 xs

write_centroids-before :
    (cs : List ℤ) (n c k e : ℕ) (xs : List ℤ)
    → k < c
    → e < dimensions
    → at (write_centroids cs n c xs) (place_of k e) ≡ at xs (place_of k e)
unfolding write_centroids
write_centroids-before cs zero c k e xs h he = refl
write_centroids-before cs (suc n) c k e xs h he =
    write_centroids-before cs n (c + 1) k e _ (omega arith) he
    ∙ write_slot-other (row_of cs c) c k e dimensions 0 xs (omega arith) he (inl (omega arith))

write_centroids-at :
    (cs : List ℤ) (n c k e : ℕ) (xs : List ℤ)
    → c ≤ k
    → k < c + n
    → e < dimensions
    → place_of k e < length xs
    → at (write_centroids cs n c xs) (place_of k e) ≡ at cs (k * dimensions + e)
unfolding write_centroids
write_centroids-at cs zero c k e xs lo hi he long = absurd (omega arith)
write_centroids-at cs (suc n) c k e xs lo hi he long = elim (Bool-cases (k == c)) [
  | inl same ↦
      let is : k ≡ c = (==_iff k c).0 same in
      rw is (
        write_centroids-before cs n (c + 1) c e _ (omega arith) he
        ∙ write_slot-same (row_of cs c) c e dimensions 0 xs (omega arith) (omega arith) he
            (subst (λ i. place_of i e < length xs) is long))
  | inr other ↦
      write_centroids-at cs n (c + 1) k e _ (ground arith) (omega arith) he
        (omega (arith, length-write_lane (row_of cs c) (c / 8) (c % 8) dimensions 0 xs, long))
]

pub blocks_for_rows-ceil : (rows : ℕ) → blocks_for_rows rows ≡ (rows + 7) / 8
unfolding blocks_for_rows
blocks_for_rows-ceil rows = ground arith

pub length-build_centroid_blocks :
    (centroids : List ℤ) (clusters : ℕ)
    → length (build_centroid_blocks centroids clusters)
      ≡ blocks_for_rows clusters * ivf_block_stride
unfolding build_centroid_blocks
length-build_centroid_blocks centroids clusters =
    length-write_centroids centroids clusters 0 _
    ∙ length-replicate (blocks_for_rows clusters * ivf_block_stride) (pos 0)

-- `buildCentroidBlocks` puts coordinate `d` of centroid `c` where the vector code reads it.
pub build_centroid_blocks-at :
    (centroids : List ℤ) (clusters c d : ℕ)
    → c < clusters
    → d < dimensions
    → at (build_centroid_blocks centroids clusters) (place_of c d)
      ≡ at centroids (c * dimensions + d)
unfolding build_centroid_blocks
build_centroid_blocks-at centroids clusters c d h hd =
    let blocks : blocks_for_rows clusters ≡ (clusters + 7) / 8 = blocks_for_rows-ceil clusters in
    write_centroids-at centroids clusters 0 c d _ (omega arith) (omega arith) hd (
      omega (arith, length-replicate (blocks_for_rows clusters * ivf_block_stride) (pos 0), blocks))

-- ===== src/Ivf/Exact/Repaired.antt =====
-- `repairIVF` scans every cluster whose box could hold a nearer row, so nothing is missed.
use mathlib.Core.Path.{subst}
use heindall.Prelude.{
  ℕ, zero, suc, ◌+◌, ◌-◌, ◌*◌, ◌/◌, ◌%◌, ◌^◌, ◌≤◌, ◌<◌, ◌≡◌, refl, sym, ap, ◌∙◌, ◌⊎◌, inl, inr,
  Bool, true, false, some, List, arith, ltb, Bool-cases, if◌then◌else◌, ◌==◌, length, ==_iff,
}
use heindall.Prelude.Int.{ℤ, pos, leb_ℤ, ◌≤ℤ◌, ◌==ℤ◌}
use heindall.Quantized.{QuantizedIndex, at, dimensions, ivf_block_size}
use heindall.Quantized.Distance.{squared_distance}
use heindall.Ivf.State.{Best, SearchState, has_probe, fifth, precedes, max_int64_value}
use heindall.Ivf.State.Mask.{has_probe-total}
use heindall.Ivf.State.Order
use heindall.Ivf.State.Order.{◌∈◌}
use heindall.Ivf.State.Nearest.{IsNearest, behind-All}
use heindall.Ivf.Kernel.{quantized_block8_distances_avx2, lane_distance_exact}
use heindall.Ivf.Scan.{scan_ivf_list, block_ptr, block_row}
use heindall.Ivf.Scan.Meaning.{IsNearest-map}
use heindall.Ivf.Scan.Layout.{
  IsLoaded, list_offset, block_offset, row_distance, entry, entry-IsFound,
}
use heindall.Ivf.Scan.Cluster.{RowOf, scan_ivf_list-Scanned}
use heindall.Ivf.Centroids.Loops.{AllQuantized}
use heindall.Ivf.Search.{ivf_bbox_distance, repair_loop, repair_ivf}
use heindall.Ivf.Search.Bbox.{ivf_bbox_distance-le}
use heindall.Ivf.Exact.Phases.{Probed, Inv, RowOf-map}

-- Coordinate `d` of row `r` of cluster `c`, from its block.
abbrev pub row_vector : QuantizedIndex → ℕ → ℕ → ℕ → ℤ
row_vector idx c r d =
    block_ptr idx (block_offset idx c + (r - list_offset idx c) / ivf_block_size)
      (d * ivf_block_size + (r - list_offset idx c) % ivf_block_size)

-- The boxes are there, and hold the rows of their clusters.
pub record IsBoxed (idx : QuantizedIndex) : Type 0 where
  pub low_long : idx.ivf.clusters * dimensions ≤ length idx.ivf.bbox_min
  pub high_long : idx.ivf.clusters * dimensions ≤ length idx.ivf.bbox_max
  pub boxed :
      (c r d : ℕ)
      → c < idx.ivf.clusters
      → list_offset idx c ≤ r
      → r < list_offset idx (c + 1)
      → d < dimensions
      → (at idx.ivf.bbox_min (c * dimensions + d) ≤ℤ row_vector idx c r d)
        × (row_vector idx c r d ≤ℤ at idx.ivf.bbox_max (c * dimensions + d))

row_distance_exact :
    (idx : QuantizedIndex) (query : List ℤ) (c r : ℕ)
    → AllQuantized query
    → AllQuantized idx.blocks
    → row_distance idx query c r ≡ pos (squared_distance (at query) (row_vector idx c r))
unfolding quantized_block8_distances_avx2
row_distance_exact idx query c r hq hb =
    lane_distance_exact (at query) (row_vector idx c r) hq (λ d. hb _)

earlier : (d c : ℕ) → d < c + 1 → (d == c) ≡ false → d < c
earlier d c lt h = ground arith

-- Every row of the index.
abbrev pub AnyRow : QuantizedIndex → List ℤ → Best → Type 0
AnyRow idx query = RowOf idx query (λ c. Unit {0})

module _ (idx : QuantizedIndex) (query : List ℤ) (ok : IsLoaded idx) (s0 : SearchState)
    (start : Inv idx query s0) where
  abbrev cutoff : ℤ
  cutoff = (fifth s0.best).dist

  abbrev is_close : ℕ → Bool
  is_close d = leb_ℤ (ivf_bbox_distance idx query d cutoff) cutoff

  -- The clusters seen before the loop reaches `c`.
  abbrev Seen : ℕ → ℕ → Type 0
  Seen c d = Probed s0 d ⊎ ((d < c) × (is_close d ≡ true))

  pub record LoopInv (c : ℕ) (s : SearchState) : Type 0 where
    pub near : IsNearest (RowOf idx query (Seen c)) s.best
    pub mask : s.probe_mask ≡ s0.probe_mask
    pub closer : (fifth s.best).dist ≤ℤ cutoff

  same_probe :
      (s : SearchState) (c : ℕ) → s.probe_mask ≡ s0.probe_mask → has_probe s c ≡ has_probe s0 c
  unfolding has_probe
  same_probe s c e = rw e

  -- A cluster that is passed over adds nothing to what is seen.
  pass :
      (c : ℕ) (s : SearchState)
      → LoopInv c s
      → (Probed s0 c) ⊎ (is_close c ≡ false)
      → LoopInv (c + 1) s
  pass c s i why = record {
    near =
        IsNearest-map _ _ _
          (RowOf-map idx query _ _
            λ d b. elim [ inl p ↦ inl p | inr (lt, e) ↦ inr (omega arith, e) ])
          (RowOf-map idx query _ _ λ d b. elim [
            | inl p ↦ inl p
            | inr (lt, e) ↦ elim (Bool-cases (d == c)) [
              | inl h ↦
                  let same : d ≡ c = (==_iff d c).0 h in
                  elim why [
                    | inl p ↦ inl (subst (Probed s0) (sym same) p)
                    | inr far ↦ let e' = subst (λ k. is_close k ≡ true) same e in absurd (cc)
                  ]
              | inr h ↦ inr (earlier d c lt h, e)
            ]
          ])
          i.near;
    mask = i.mask;
    closer = i.closer;
  }

  -- One round of the loop.
  repair_round :
      (n c : ℕ) (s s2 : SearchState) (seen : Bool)
      → c < 8192
      → has_probe s c ≡ some seen
      → (if seen then some s else if is_close c then scan_ivf_list true idx query c s else some s)
        ≡ some s2
      → repair_loop true idx query cutoff (suc n) c s
        ≡ repair_loop true idx query cutoff n (c + 1) s2
  unfolding repair_loop
  repair_round n c s s2 seen h read e =
      let narrow : c % 2 ^ 32 ≡ c = omega arith in rw (narrow, read, e)

  repair_loop-LoopInv :
      (n c : ℕ) (s : SearchState)
      → c + n ≡ idx.ivf.clusters
      → LoopInv c s
      → (t : SearchState) × (repair_loop true idx query cutoff n c s ≡ some t)
        × LoopInv idx.ivf.clusters t
  unfolding repair_loop
  repair_loop-LoopInv zero c s e i =
      let end : c ≡ idx.ivf.clusters = omega arith in (s, refl, subst (λ k. LoopInv k s) end i)
  repair_loop-LoopInv (suc n) c s e i =
      let inside : c < idx.ivf.clusters = omega arith in
      let small : c < 8192 = omega (arith, ok.few) in
      let (seen, found) = has_probe-total s0 c start.mask small in
      let read : has_probe s c ≡ some seen = same_probe s c i.mask ∙ found in
      elim (Bool-cases seen) [
        | inl h ↦
            let (t, done, j) =
              repair_loop-LoopInv n (c + 1) s (omega arith)
                (pass c s i (inl (found ∙ ap some h))) in
            (t, repair_round n c s s seen small read (rw h) ∙ done, j)
        | inr h ↦ elim (Bool-cases (is_close c)) [
          | inl near ↦
              let new : ¬ Seen c c = elim [ inl p ↦ cc | inr (lt, _) ↦ absurd (omega arith) ] in
              let (s2, scanned, r) =
                scan_ivf_list-Scanned idx query ok (Seen c) c inside new s i.near in
              let next : LoopInv (c + 1) s2 = record {
                near =
                    IsNearest-map _ _ _
                      (RowOf-map idx query _ _ λ d b. elim [
                        | inl (inl p) ↦ inl p
                        | inl (inr (lt, q)) ↦ inr (omega arith, q)
                        | inr same ↦
                            inr (omega arith, subst (λ k. is_close k ≡ true) (sym same) near)
                      ])
                      (RowOf-map idx query _ _ λ d b. elim [
                        | inl p ↦ inl (inl p)
                        | inr (lt, q) ↦ elim (Bool-cases (d == c)) [
                          | inl k ↦ inr ((==_iff d c).0 k)
                          | inr k ↦ inl (inr (earlier d c lt k, q))
                        ]
                      ])
                      r.near;
                mask = r.mask ∙ i.mask;
                closer = omega (arith, r.closer, i.closer);
              } in
              let (t, done, j) = repair_loop-LoopInv n (c + 1) s2 (omega arith) next in
              (t, repair_round n c s s2 seen small read (rw (h, near) scanned) ∙ done, j)
          | inr far ↦
              let (t, done, j) =
                repair_loop-LoopInv n (c + 1) s (omega arith) (pass c s i (inr far)) in
              (t, repair_round n c s s seen small read (rw (h, far)) ∙ done, j)
        ]
      ]

  module _ (box : IsBoxed idx) (hq : AllQuantized query) (hb : AllQuantized idx.blocks) where
    -- A row of a cluster whose box is too far is too far.
    far_row :
        (x : Best) (t : SearchState)
        → (r : AnyRow idx query x) → is_close r.cluster ≡ false
        → LoopInv idx.ivf.clusters t
        → precedes x (fifth t.best) ≡ false
    unfolding precedes
    far_row x t r far i =
        let bound =
          ivf_bbox_distance-le idx query r.cluster cutoff (row_vector idx r.cluster r.row)
            (λ d h. box.boxed r.cluster r.row d r.inside r.from r.to h) in
        let dist : x.dist ≡ pos (squared_distance (at query) (row_vector idx r.cluster r.row)) =
          ap (λ (b : Best). b.dist) r.is ∙ entry_distance r.cluster r.row in
        ground (arith, bound, dist, i.closer)
      where
        entry_distance :
            (c j : ℕ)
            → (entry idx query c j).dist ≡ pos (squared_distance (at query) (row_vector idx c j))
        entry_distance c j = unfold block_row in row_distance_exact idx query c j hq hb

    -- With vector code, on a loaded index whose boxes hold the rows of their clusters, all
    -- data quantised: from a state that holds the nearest rows of the marked clusters, and
    -- five of them, `repairIVF` returns, and the five places then hold the nearest of all rows
    -- of the index.
    pub repair_ivf-exact :
        (cutoff ==ℤ max_int64_value) ≡ false
        → (t : SearchState) × (repair_ivf true idx query s0 ≡ some t)
          × IsNearest (AnyRow idx query) t.best
    unfolding repair_ivf
    repair_ivf-exact full =
        let first : LoopInv 0 s0 = record {
          near =
              IsNearest-map _ _ _ (RowOf-map idx query _ _ λ d b p. inl p)
                (RowOf-map idx query _ _
                  λ d b. elim [ inl p ↦ p | inr (lt, e) ↦ absurd (omega arith) ])
                start.near;
          mask = refl;
          closer = omega arith;
        } in
        let (t, done, i) = repair_loop-LoopInv idx.ivf.clusters 0 s0 (omega arith) first in
        let low : ltb (length idx.ivf.bbox_min) (idx.ivf.clusters * dimensions) ≡ false =
          (let l = box.low_long in ground arith) in
        let high : ltb (length idx.ivf.bbox_max) (idx.ivf.clusters * dimensions) ≡ false =
          (let l = box.high_long in ground arith) in
        (
          t,
          rw (low, high, full) done,
          record {
            size = i.near.size;
            ranked = i.near.ranked;
            sound = λ y m. elim (i.near.sound y m) [
              | inl r ↦ inl (RowOf-map idx query _ _ (λ c b p. tt) y r)
              | inr e ↦ inr e
            ];
            complete = λ x r. complete t i x r;
            found = λ x r. rw r.is (entry-IsFound idx query r.cluster r.row);
          },
        )
      where
        complete :
            (t : SearchState)
            → LoopInv idx.ivf.clusters t
            → (x : Best) → AnyRow idx query x
            → (x ∈ t.best) ⊎ Order.All (λ y. precedes x y ≡ false) t.best
        complete t i x r =
            let (seen, found) =
              has_probe-total s0 r.cluster start.mask (omega (arith, ok.few, r.inside)) in
            let as_seen = λ (p : Seen idx.ivf.clusters r.cluster). i.near.complete x (record {
              cluster = r.cluster;
              row = r.row;
              chosen = p;
              inside = r.inside;
              from = r.from;
              to = r.to;
              is = r.is;
            }) in
            elim (Bool-cases seen) [
              | inl h ↦ as_seen (inl (found ∙ ap some h))
              | inr h ↦ elim (Bool-cases (is_close r.cluster)) [
                | inl near ↦ as_seen (inr (r.inside, near))
                | inr far ↦ inr (
                    behind-All _ t.best i.near x (rw r.is (entry-IsFound idx query r.cluster r.row))
                      (far_row x t r far i))
              ]
            ]

-- ===== src/Ivf/Scan/Cluster.antt =====
-- Scanning a cluster adds exactly its rows to those that the search state is nearest of.
use mathlib.Core.Path.{subst}
use heindall.Prelude.{
  ℕ, ◌+◌, ◌-◌, ◌≤◌, ◌<◌, ◌≡◌, refl, ◌⊎◌, inl, inr, true, some, List, arith, ltb, Bool-cases,
}
use heindall.Prelude.Int.{ℤ, ◌≤ℤ◌}
use heindall.Quantized.{QuantizedIndex}
use heindall.Ivf.State.{Best, SearchState, fifth}
use heindall.Ivf.State.Order.{SameKey}
use heindall.Ivf.State.Nearest.{IsNearest}
use heindall.Ivf.Scan.{scan_ivf_list, block8}
use heindall.Ivf.Scan.Blocks.{visit_all, scan_ivf_blocks_avx2-visit}
use heindall.Ivf.Scan.Meaning.{AddRows, IsNearest-map, visit-IsNearest, visit-probe_mask}
use heindall.Ivf.Scan.Layout.{
  IsLoaded, span_of, list_offset, row_distance, entry, entry-IsFound, entries_apart, clusters_apart,
  cluster_span-span_of, span_of-inside,
}

-- `x` is a row of the clusters of which `P` holds.
pub record RowOf (idx : QuantizedIndex) (query : List ℤ) (P : ℕ → Type 0) (x : Best) : Type 0 where
  pub cluster : ℕ
  pub row : ℕ
  pub chosen : P cluster
  pub inside : cluster < idx.ivf.clusters
  pub from : list_offset idx cluster ≤ row
  pub to : row < list_offset idx (cluster + 1)
  pub is : x ≡ entry idx query cluster row

-- With one more cluster.
abbrev pub Also : (ℕ → Type 0) → ℕ → ℕ → Type 0
Also P c d = P d ⊎ (d ≡ c)

-- The scan returned `s'`: it saw the rows of cluster `c`, and left the probes alone.
pub record Scanned (idx : QuantizedIndex) (query : List ℤ) (P : ℕ → Type 0) (c : ℕ)
    (s s' : SearchState) : Type 0 where
  pub near : IsNearest (RowOf idx query (Also P c)) s'.best
  pub mask : s'.probe_mask ≡ s.probe_mask
  pub closer : (fifth s'.best).dist ≤ℤ (fifth s.best).dist

module _ (idx : QuantizedIndex) (query : List ℤ) (ok : IsLoaded idx) where
  -- A row belongs to one cluster only.
  one_cluster :
      (c d i : ℕ)
      → c < idx.ivf.clusters
      → d < idx.ivf.clusters
      → list_offset idx c ≤ i
      → i < list_offset idx (c + 1)
      → list_offset idx d ≤ i
      → i < list_offset idx (d + 1)
      → c ≡ d
  one_cluster c d i hc hd ci ic di id = elim (Bool-cases (ltb c d)) [
    | inl lt ↦ absurd (omega (arith, clusters_apart idx ok c d (ground arith) (omega arith)))
    | inr ge ↦ elim (Bool-cases (ltb d c)) [
      | inl lt ↦ absurd (omega (arith, clusters_apart idx ok d c (ground arith) (omega arith)))
      | inr ge' ↦ ground arith
    ]
  ]

  module _ (P : ℕ → Type 0) (c : ℕ) (hc : c < idx.ivf.clusters) (new : ¬ P c) where
    abbrev lo : ℕ
    lo = list_offset idx c

    abbrev n : ℕ
    n = list_offset idx (c + 1) - list_offset idx c

    visited-IsNearest :
        (s : SearchState)
        → IsNearest (RowOf idx query P) s.best
        → IsNearest
            (AddRows idx
              (list_offset idx (c + 1))
              (row_distance idx query c)
              (RowOf idx query P)
              lo
              n)
            (visit_all idx (span_of idx c) (block8 idx query) s).best
          × ((fifth (visit_all idx (span_of idx c) (block8 idx query) s).best).dist
              ≤ℤ (fifth s.best).dist)
    visited-IsNearest s near =
        visit-IsNearest idx (list_offset idx (c + 1)) (row_distance idx query c) n lo
          (RowOf idx query P) s near (λ j a b. entry-IsFound idx query c j)
          (λ j a b y r same.
            entries_apart idx ok query c r.cluster j r.row hc r.inside (omega arith) r.to
              (λ e. new (
                subst P
                  (one_cluster r.cluster c j r.inside hc (rw e r.from) (rw e r.to) a (omega arith))
                  r.chosen))
              (subst (SameKey (entry idx query c j)) r.is same))
          (λ j k a lt b.
            entries_apart idx ok query c c k j hc hc (omega arith) (omega arith) (omega arith))

    -- With vector code on a loaded index: scanning a cluster of the index that was not scanned
    -- before returns, and the five places then hold the nearest rows, strictly sorted, of the
    -- clusters scanned so far and this one; the probes are left alone, and the fifth distance
    -- does not grow.
    pub scan_ivf_list-Scanned :
        (s : SearchState)
        → IsNearest (RowOf idx query P) s.best
        → (s' : SearchState) × (scan_ivf_list true idx query c s ≡ some s')
          × Scanned idx query P c s s'
    unfolding scan_ivf_list
    scan_ivf_list-Scanned s near = (
      visit_all idx (span_of idx c) (block8 idx query) s,
      rw ok.blocks (
          scan_ivf_blocks_avx2-visit idx query c s (span_of idx c)
            (cluster_span-span_of idx c ok.blocks hc) (span_of-inside idx ok c hc)
            (ok.covers c hc)),
      record {
        near = IsNearest-map _ _ _ out back (visited-IsNearest s near).0;
        closer = (visited-IsNearest s near).1;
        mask = visit-probe_mask idx (list_offset idx (c + 1)) (row_distance idx query c) n lo s;
      },
    )
      where
        out :
            (x : Best)
            → AddRows idx
                (list_offset idx (c + 1))
                (row_distance idx query c)
                (RowOf idx query P)
                lo
                n
                x
            → RowOf idx query (Also P c) x
        out x = elim [
          | inl r ↦ record {
            cluster = r.cluster;
            row = r.row;
            chosen = inl r.chosen;
            inside = r.inside;
            from = r.from;
            to = r.to;
            is = r.is;
          }
          | inr (j, a, b, e) ↦ record {
            cluster = c;
            row = j;
            chosen = inr refl;
            inside = hc;
            from = a;
            to = omega arith;
            is = e;
          }
        ]

        back :
            (x : Best)
            → RowOf idx query (Also P c) x
            → AddRows idx
                (list_offset idx (c + 1))
                (row_distance idx query c)
                (RowOf idx query P)
                lo
                n
                x
        back x r = elim r.chosen [
          | inl p ↦ inl (record {
            cluster = r.cluster;
            row = r.row;
            chosen = p;
            inside = r.inside;
            from = r.from;
            to = r.to;
            is = r.is;
          })
          | inr e ↦ inr (
            r.row,
            subst (λ k. list_offset idx k ≤ r.row) e r.from,
            (let to = subst (λ k. r.row < list_offset idx (k + 1)) e r.to in
                let from = subst (λ k. list_offset idx k ≤ r.row) e r.from in omega arith),
            subst (λ k. x ≡ entry idx query k r.row) e r.is,
          )
        ]

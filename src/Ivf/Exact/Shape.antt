-- ===== src/Ivf/Exact/Shape.antt =====
-- The loops of a search with vector code on a loaded index return, and keep the shape of a state.
use heindall.Prelude.{
  ℕ, zero, suc, ◌+◌, ◌-◌, ◌*◌, ◌≤◌, ◌<◌, ◌≡◌, refl, inl, inr, Bool, true, false, ◌||◌, some, List,
  [], ◌∷◌, arith, ltb, Bool-cases, if◌then◌else◌, length, length-take, ◌%◌, ◌^◌,
}
use heindall.Prelude.Int.{ℤ, leb_ℤ, ◌==ℤ◌}
use heindall.Quantized.{QuantizedIndex, dimensions}
use heindall.Ivf.State.{
  Best, SearchState, add_probe, has_probe, insert, count_from, count_frauds, max_int64_value, fifth,
}
use heindall.Ivf.State.Insert.{place, insert_from-place, length-place}
use heindall.Ivf.State.Mask.{
  HasMask, add_probe-best, add_probe-HasMask, add_probe-total, has_probe-total,
}
use heindall.Ivf.Scan.{offer, rejects, scan_ivf_list, block8}
use heindall.Ivf.Scan.Blocks.{visit, visit_all, scan_ivf_blocks_avx2-visit}
use heindall.Ivf.Scan.Layout.{
  IsLoaded, list_offset, row_distance, span_of, cluster_span-span_of, span_of-inside,
}
use heindall.Ivf.Scan.Meaning.{visit-probe_mask}
use heindall.Ivf.Centroids.{Probe}
use heindall.Ivf.Centroids.Ids.{All}
use heindall.Ivf.Search.{scan_probes, expand_probes, repair_loop, repair_ivf, ivf_bbox_distance}

-- The shape of a state: 128 words of mask and five places.
pub record HasShape (s : SearchState) : Type 0 where
  pub mask : HasMask s
  pub five : length s.best ≡ 5

offer-five : (x : Best) (s : SearchState) → length s.best ≡ 5 → length (offer x s).best ≡ 5
unfolding offer insert
offer-five x s h = elim (Bool-cases (rejects s x.dist x.id)) [
  | inl e ↦ rw e h
  | inr e ↦
      rw (e, insert_from-place x s.best h)
        (omega (arith, length-take 5 (place x s.best), length-place x s.best))
]

visit-five :
    (idx : QuantizedIndex) (row_end : ℕ) (dist : ℤ → ℕ → ℤ) (n row : ℕ) (s : SearchState)
    → length s.best ≡ 5
    → length (visit idx row_end dist n row s).best ≡ 5
unfolding visit
visit-five idx row_end dist zero row s h = h
visit-five idx row_end dist (suc n) row s h =
    visit-five idx row_end dist n (row + 1) _ (offer-five _ s h)

count_from-le : (xs : List Best) (n : ℕ) → count_from xs n ≤ n + length xs
unfolding count_from
count_from-le [] n = omega arith
count_from-le (x ∷ xs) n =
    (let a = count_from-le xs (n + 1) in let b = count_from-le xs n in ground arith)

pub count_frauds-le : (s : SearchState) → HasShape s → count_frauds s ≤ 5
unfolding count_frauds
count_frauds-le s h = omega (arith, count_from-le s.best 0, h.five)

module _ (idx : QuantizedIndex) (query : List ℤ) (ok : IsLoaded idx) where
  scan_ivf_list-total :
      (c : ℕ) (s : SearchState)
      → c < idx.ivf.clusters
      → HasShape s
      → (t : SearchState) × (scan_ivf_list true idx query c s ≡ some t) × HasShape t
  unfolding scan_ivf_list
  scan_ivf_list-total c s hc h = (
    visit_all idx (span_of idx c) (block8 idx query) s,
    rw ok.blocks (
        scan_ivf_blocks_avx2-visit idx query c s (span_of idx c)
          (cluster_span-span_of idx c ok.blocks hc) (span_of-inside idx ok c hc) (ok.covers c hc)),
    record {
      mask =
          rw
            (visit-probe_mask idx (list_offset idx (c + 1)) (row_distance idx query c)
              (list_offset idx (c + 1) - list_offset idx c) (list_offset idx c) s)
            h.mask;
      five =
          visit-five idx (list_offset idx (c + 1)) (λ _. row_distance idx query c)
            (list_offset idx (c + 1) - list_offset idx c) (list_offset idx c) s h.five;
    },
  )

  mark_and_scan-total :
      (c : ℕ) (s : SearchState)
      → c < idx.ivf.clusters
      → HasShape s
      → (s1 : SearchState) × (t : SearchState) × (add_probe s c ≡ some s1)
        × (scan_ivf_list true idx query c s1 ≡ some t)
        × HasShape t
  mark_and_scan-total c s hc h =
      let (s1, e) = add_probe-total s c h.mask (omega (arith, ok.few)) in
      let shape : HasShape s1 = record {
        mask = add_probe-HasMask s s1 c h.mask e;
        five = rw (add_probe-best s s1 c e) h.five;
      } in
      let (t, f, k) = scan_ivf_list-total c s1 hc shape in (s1, t, e, f, k)

  pub scan_probes-total :
      (ps : List Probe) (s : SearchState)
      → All (λ p. p.id < idx.ivf.clusters) ps
      → HasShape s
      → (t : SearchState) × (scan_probes true idx query ps s ≡ some t) × HasShape t
  unfolding scan_probes
  scan_probes-total [] s below h = (s, refl, h)
  scan_probes-total (p ∷ ps) s (b, below) h =
      let (s1, s2, e, f, k) = mark_and_scan-total p.id s b h in
      let (t, done, k') = scan_probes-total ps s2 below k in (t, rw (e, f) done, k')

  pub expand_probes-total :
      (ps : List Probe) (s : SearchState)
      → All (λ p. p.id < idx.ivf.clusters) ps
      → HasShape s
      → (t : SearchState) × (expand_probes true idx query ps s ≡ some t) × HasShape t
  unfolding expand_probes
  expand_probes-total [] s below h = (s, refl, h)
  expand_probes-total (p ∷ ps) s (b, below) h =
      let (seen, e) = has_probe-total s p.id h.mask (omega (arith, ok.few)) in
      elim (Bool-cases seen) [
        | inl yes_seen ↦
            let (t, done, k) = expand_probes-total ps s below h in (t, rw (e, yes_seen) done, k)
        | inr not_seen ↦
            let (s1, s2, a, f, k) = mark_and_scan-total p.id s b h in
            let (t, done, k') = expand_probes-total ps s2 below k in
            (t, rw (e, not_seen, a, f) done, k')
      ]

  one_round :
      (cutoff : ℤ) (n c : ℕ) (s s2 t : SearchState) (seen : Bool)
      → c < 8192
      → has_probe s c ≡ some seen
      → (if seen
          then some s
          else if leb_ℤ (ivf_bbox_distance idx query c cutoff) cutoff
          then scan_ivf_list true idx query c s
          else some s)
        ≡ some s2
      → repair_loop true idx query cutoff n (c + 1) s2 ≡ some t
      → repair_loop true idx query cutoff (suc n) c s ≡ some t
  unfolding repair_loop
  one_round cutoff n c s s2 t seen h read e done =
      let narrow : c % 2 ^ 32 ≡ c = omega arith in rw (narrow, read, e) done

  visited :
      (cutoff : ℤ) (c : ℕ) (s : SearchState) (seen : Bool)
      → c < idx.ivf.clusters
      → HasShape s
      → (t : SearchState) × ((if seen
            then some s
            else if leb_ℤ (ivf_bbox_distance idx query c cutoff) cutoff
            then scan_ivf_list true idx query c s
            else some s)
          ≡ some t)
        × HasShape t
  visited cutoff c s true hc h = (s, refl, h)
  visited cutoff c s false hc h =
      elim (Bool-cases (leb_ℤ (ivf_bbox_distance idx query c cutoff) cutoff)) [
        | inl near ↦ let (t, e, k) = scan_ivf_list-total c s hc h in (t, rw near e, k)
        | inr far ↦ (s, rw far, h)
      ]

  repair_loop-total :
      (cutoff : ℤ) (n c : ℕ) (s : SearchState)
      → c + n ≤ idx.ivf.clusters
      → HasShape s
      → (t : SearchState) × (repair_loop true idx query cutoff n c s ≡ some t) × HasShape t
  unfolding repair_loop
  repair_loop-total cutoff zero c s fits h = (s, refl, h)
  repair_loop-total cutoff (suc n) c s fits h =
      let small : c < 8192 = omega (arith, ok.few) in
      let (seen, e) = has_probe-total s c h.mask small in
      let (s2, f, k) = visited cutoff c s seen (omega arith) h in
      let (t, done, k') = repair_loop-total cutoff n (c + 1) s2 (omega arith) k in
      (t, one_round cutoff n c s s2 t seen small e f done, k')

  pub repair_ivf-total :
      (s : SearchState)
      → HasShape s
      → (t : SearchState) × (repair_ivf true idx query s ≡ some t) × HasShape t
  unfolding repair_ivf
  repair_ivf-total s h =
      elim (Bool-cases (
        ltb (length idx.ivf.bbox_min) (idx.ivf.clusters * dimensions)
        || ltb (length idx.ivf.bbox_max) (idx.ivf.clusters * dimensions))) [
          | inl short ↦ (s, rw short, h)
          | inr long ↦ elim (Bool-cases ((fifth s.best).dist ==ℤ max_int64_value)) [
            | inl open_place ↦ (s, rw (long, open_place), h)
            | inr full ↦
                let (t, done, k) =
                  repair_loop-total (fifth s.best).dist idx.ivf.clusters 0 s (omega arith) h in
                (t, rw (long, full) done, k)
          ]
        ]

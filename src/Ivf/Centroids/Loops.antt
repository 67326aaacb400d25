-- ===== src/Ivf/Centroids/Loops.antt =====
-- The loops of the scalar and of the vector version end with the same nearest centroids.
use heindall.Prelude.{
  ℕ, zero, suc, ◌+◌, ◌-◌, ◌*◌, ◌^◌, ◌≤◌, ◌<◌, ◌≡◌, refl, ◌∙◌, true, false, List, [], ◌∷◌, ◌++◌,
  arith, ltb, leb, Bool-cases, inl, inr, length, take, drop, some, replicate, slice,
}
use heindall.Prelude.Int.{ℤ, pos, ltb_ℤ}
use heindall.Quantized.{QuantizedIndex, at, dimensions, quantized_distance}
use heindall.Quantized.Distance.{
  squared_distance, IsCut, IsInt16, quantized_distance-IsCut, squared_distance_bound,
}
use heindall.Ivf.Kernel.{IsQuantized}
use heindall.Ivf.Centroids.{
  Probe, probe_at, TopState, take_centroid, scalar_loop, lane_loop, eights_loop,
}
use heindall.Ivf.Centroids.Top.{ranked, Keeps, take_centroid-Keeps, farthest, length-kept}

abbrev pub AllQuantized : List ℤ → Type 0
AllQuantized xs = (i : ℕ) → IsQuantized (at xs i)

abbrev pub AllInt16 : List ℤ → Type 0
AllInt16 xs = (i : ℕ) → IsInt16 (at xs i)

-- The true distance of centroid `c`.
unfoldable pub centroid_distance : QuantizedIndex → List ℤ → ℕ → ℤ
centroid_distance idx query c =
    pos (squared_distance (at query) (λ d. at idx.ivf.centroids (c * dimensions + d)))

-- A distance that was cut off at the last place has the effect of the true one.
late_distance :
    (np c n total : ℕ) (t : TopState)
    → IsCut (probe_at t.best (np - 1)).dist total n
    → (t.count < np → ltb_ℤ (pos total) (probe_at t.best (np - 1)).dist ≡ true)
    → take_centroid np c (pos n) t ≡ take_centroid np c (pos total) t
unfolding take_centroid
late_distance np c n total t cut room =
    elim (Bool-cases (ltb_ℤ (pos total) (probe_at t.best (np - 1)).dist)) [
      | inl e ↦ let same = cut.exact e in rw same
      | inr e ↦
          let full : ltb t.count np ≡ false = ground (arith, room) in
          let late : ltb_ℤ (pos n) (probe_at t.best (np - 1)).dist ≡ false =
            ground (arith, cut.cut) in
          rw (full, e, late)
    ]

probe_at-skip : (xs ys : List Probe) (k : ℕ) → probe_at (xs ++ ys) (length xs + k) ≡ probe_at ys k
probe_at-skip [] ys k = let e : 0 + k ≡ k = omega arith in rw e
probe_at-skip (x ∷ xs) ys k =
    let e : suc (length xs) + k ≡ suc (length xs + k) = omega arith in rw e (probe_at-skip xs ys k)

probe_at-replicate :
    (n k : ℕ) (a : Probe) (ys : List Probe) → k < n → probe_at (replicate n a ++ ys) k ≡ a
probe_at-replicate zero k a ys h = absurd (omega arith)
probe_at-replicate (suc n) zero a ys h = refl
probe_at-replicate (suc n) (suc k) a ys h = probe_at-replicate n k a ys (omega arith)

-- While there is room the last place holds the largest value, so nothing is cut off.
last_open :
    (dist : ℕ → ℤ) (np c : ℕ) (t : TopState)
    → Keeps dist np c t
    → t.count < np
    → probe_at t.best (np - 1) ≡ farthest
last_open dist np c t keeps h =
    let kept = take np (ranked dist c) in
    let k = np - (t.count + 1) in
    let more : np - t.count ≡ suc k = omega arith in
    let index : length kept + k ≡ np - 1 = omega (arith, keeps.count, length-kept dist np c) in
    rw (keeps.best, ← index, probe_at-skip kept _ k, more)
      (probe_at-replicate (suc k) k farthest _ (omega arith))

at-take : (n d : ℕ) (xs : List ℤ) → d < n → at (take n xs) d ≡ at xs d
at-take zero d xs h = absurd (omega arith)
at-take (suc n) d [] h = refl
at-take (suc n) zero (x ∷ xs) h = refl
at-take (suc n) (suc d) (x ∷ xs) h = at-take n d xs (omega arith)

at-drop : (s d : ℕ) (xs : List ℤ) → at (drop s xs) d ≡ at xs (s + d)
at-drop zero d xs = let e : 0 + d ≡ d = omega arith in rw e
at-drop (suc s) d [] = refl
at-drop (suc s) d (x ∷ xs) = let e : suc s + d ≡ suc (s + d) = omega arith in rw e (at-drop s d xs)

slice_in_range :
    (xs : List ℤ) (s n : ℕ) → s + n ≤ length xs → slice xs s (s + n) ≡ some (take n (drop s xs))
unfolding slice
slice_in_range xs s n h = let e : s + n - s ≡ n = omega arith in rw e (ground arith)

pub distance_cong :
    (q r r' : ℕ → ℤ)
    → ((d : ℕ) → d < dimensions → r d ≡ r' d)
    → squared_distance q r ≡ squared_distance q r'
unfolding squared_distance
distance_cong q r r' h = cc (
  h 0 (omega arith),
  h 1 (omega arith),
  h 2 (omega arith),
  h 3 (omega arith),
  h 4 (omega arith),
  h 5 (omega arith),
  h 6 (omega arith),
  h 7 (omega arith),
  h 8 (omega arith),
  h 9 (omega arith),
  h 10 (omega arith),
  h 11 (omega arith),
  h 12 (omega arith),
  h 13 (omega arith),
)

module _ (idx : QuantizedIndex) (query : List ℤ) where
  abbrev dist : ℕ → ℤ
  dist = centroid_distance idx query

  -- The distance of a sliced row is the distance of the centroid.
  sliced :
      (c : ℕ)
      → squared_distance (at query) (at (take dimensions (drop (c * dimensions) idx.ivf.centroids)))
        ≡ squared_distance (at query) (λ d. at idx.ivf.centroids (c * dimensions + d))
  sliced c =
      distance_cong _ _ _
        λ d h. at-take dimensions d _ h ∙ at-drop (c * dimensions) d idx.ivf.centroids

  module _ (np : ℕ) (positive : 0 < np)
      (rows : idx.ivf.clusters * dimensions ≤ length idx.ivf.centroids) (hq : AllInt16 query)
      (hc : AllInt16 idx.ivf.centroids) where
    scalar_round :
        (c : ℕ) (t : TopState)
        → c < idx.ivf.clusters
        → Keeps dist np c t
        → (ref : List ℤ) × (slice idx.ivf.centroids (c * dimensions) (c * dimensions + dimensions)
            ≡ some ref)
          × Keeps dist np
              (suc c)
              (take_centroid np c (quantized_distance query ref (probe_at t.best (np - 1)).dist) t)
    unfolding centroid_distance
    scalar_round c t h keeps =
        let ref = take dimensions (drop (c * dimensions) idx.ivf.centroids) in
        let last = probe_at t.best (np - 1) in
        let (n, e, cut) = quantized_distance-IsCut query ref last.dist in
        let small : squared_distance (at query) (at ref) < 2 ^ 36 = rw (sliced c) (
          squared_distance_bound (at query) (λ d. at idx.ivf.centroids (c * dimensions + d)) hq
            (λ d. hc (c * dimensions + d))) in
        let open_last : t.count < np
            → ltb_ℤ (pos (squared_distance (at query) (at ref))) last.dist ≡ true =
          λ room. rw (last_open dist np c t keeps room) (ground arith) in
        (
          ref,
          slice_in_range idx.ivf.centroids (c * dimensions) dimensions (omega arith),
          rw (e, late_distance np c n _ t cut open_last, sliced c)
              (take_centroid-Keeps dist np c positive t keeps),
        )

    pub scalar_loop-Keeps :
        (n c : ℕ) (t : TopState)
        → c + n ≤ idx.ivf.clusters
        → Keeps dist np c t
        → (t' : TopState) × (scalar_loop idx query np n c t ≡ some t') × Keeps dist np (c + n) t'
    unfolding scalar_loop
    scalar_loop-Keeps zero c t h keeps = (t, refl, (let e : c + 0 ≡ c = omega arith in rw e keeps))
    scalar_loop-Keeps (suc n) c t h keeps =
        let (ref, e, next) = scalar_round c t (omega arith) keeps in
        let one : c + 1 ≡ suc c = omega arith in
        let (t', done, k) =
          scalar_loop-Keeps n (c + 1)
            (take_centroid np c (quantized_distance query ref (probe_at t.best (np - 1)).dist) t)
            (omega arith) (rw one next) in
        let end : c + suc n ≡ c + 1 + n = omega arith in (t', rw e done, rw end k)

    lane_loop-Keeps :
        (d : ℕ → ℤ) (n c lane : ℕ) (t : TopState)
        → ((l : ℕ) → lane ≤ l → l < lane + n → d l ≡ dist (c + l))
        → Keeps dist np (c + lane) t
        → Keeps dist np (c + (lane + n)) (lane_loop np d c n lane t)
    unfolding lane_loop
    lane_loop-Keeps d zero c lane t same keeps = let e : lane + 0 ≡ lane = omega arith in rw e keeps
    lane_loop-Keeps d (suc n) c lane t same keeps =
        let one : c + (lane + 1) ≡ suc (c + lane) = omega arith in
        let end : lane + suc n ≡ lane + 1 + n = omega arith in
        let next : Keeps dist np (c + (lane + 1)) (take_centroid np (c + lane) (d lane) t) =
          rw (one, same lane (omega arith) (omega arith))
            (take_centroid-Keeps dist np (c + lane) positive t keeps) in
        rw end
          (lane_loop-Keeps d n c (lane + 1) _ (λ l a b. same l (omega arith) (omega arith)) next)

    module _ (d : ℕ → ℕ → ℤ)
        (same : (k l : ℕ)
          → l < 8
          → k * 8 + l < idx.ivf.clusters
          → d (k * 8) l ≡ dist (k * 8 + l)) where
      pub eights_loop-Keeps :
          (fuel k c : ℕ) (t : TopState)
          → c ≡ k * 8
          → c ≤ idx.ivf.clusters
          → Keeps dist np c t
          → (c' : ℕ) × (t' : TopState) × (eights_loop idx d np fuel c t ≡ (c', t'))
            × (c' ≤ idx.ivf.clusters)
            × Keeps dist np c' t'
      unfolding eights_loop
      eights_loop-Keeps zero k c t e h keeps = (c, t, refl, h, keeps)
      eights_loop-Keeps (suc fuel) k c t e h keeps =
          elim (Bool-cases (leb (c + 8) idx.ivf.clusters)) [
            | inl more ↦
                let room : c + 8 ≤ idx.ivf.clusters = ground arith in
                let zero_lane : c + 0 ≡ c = omega arith in
                let lanes : Keeps dist np (c + 8) (lane_loop np (d c) c 8 0 t) =
                  lane_loop-Keeps (d c) 8 c 0 t (λ l a b. rw e (same k l b (omega arith)))
                    (rw zero_lane keeps) in
                let (c', t', done, le, k') =
                  eights_loop-Keeps fuel (k + 1) (c + 8) (lane_loop np (d c) c 8 0 t) (omega arith)
                    room lanes in
                (c', t', rw (more, eights_loop) done, le, k')
            | inr stop ↦ (c, t, rw (stop, eights_loop), h, keeps)
          ]

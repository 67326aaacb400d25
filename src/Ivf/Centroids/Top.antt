-- ===== src/Ivf/Centroids/Top.antt =====
-- What the loops over the centroids keep: the first `nprobe` of all clusters by distance.
use mathlib.Core.Path.{subst}
use mathlib.Core.List.{append_assoc}
use heindall.Prelude.{
  ℕ, zero, suc, ◌+◌, ◌-◌, ◌≤◌, ◌<◌, ◌≡◌, refl, sym, ap, ◌∙◌, true, false, List, [], ◌∷◌, ◌++◌,
  arith, ltb, Bool-cases, inl, inr, length, take, replicate, length-take, min,
}
use heindall.Prelude.Int.{ℤ, ltb_ℤ, ◌≤ℤ◌}
use heindall.Ivf.State.{max_int64_value, max_ivf_probe}
use heindall.Ivf.Centroids.{
  Probe, probe_of, probe_at, no_probe, sift, insert_centroid, TopState, take_centroid, start_top,
}
use heindall.Ivf.Centroids.Sift.{
  AtLeast, AtMost, rank, rank-Sorted, rank_last, rank-snoc, Sorted, sift-rank, AtMost-snoc, unsnoc,
  probe_at-length, Sorted-init,
}

-- All clusters below `n`, by distance, the earlier first among equals.
unfoldable pub ranked : (ℕ → ℤ) → ℕ → List Probe
ranked dist zero = []
ranked dist (suc n) = rank (probe_of n (dist n)) (ranked dist n)

length-rank : (x : Probe) (xs : List Probe) → length (rank x xs) ≡ suc (length xs)
unfolding rank
length-rank x [] = refl
length-rank x (y ∷ ys) = ground (arith, length-rank x ys)

pub length-ranked : (dist : ℕ → ℤ) (n : ℕ) → length (ranked dist n) ≡ n
unfolding ranked
length-ranked dist zero = refl
length-ranked dist (suc n) = length-rank _ _ ∙ ap suc (length-ranked dist n)

pub ranked-Sorted : (dist : ℕ → ℤ) (n : ℕ) → Sorted (ranked dist n)
unfolding ranked
ranked-Sorted dist zero = tt
ranked-Sorted dist (suc n) = rank-Sorted _ _ (ranked-Sorted dist n)

take_all : (n : ℕ) (xs : List Probe) → length xs ≤ n → take n xs ≡ xs
take_all zero [] h = refl
take_all zero (x ∷ xs) h = absurd (omega arith)
take_all (suc n) [] h = refl
take_all (suc n) (x ∷ xs) h = ap (◌∷◌ x) (take_all n xs (omega arith))

pub take_prefix : (n : ℕ) (xs ys : List Probe) → length xs ≡ n → take n (xs ++ ys) ≡ xs
take_prefix zero [] ys h = refl
take_prefix zero (x ∷ xs) ys h = absurd (omega arith)
take_prefix (suc n) [] ys h = absurd (omega arith)
take_prefix (suc n) (x ∷ xs) ys h = ap (◌∷◌ x) (take_prefix n xs ys (omega arith))

take_cons_take : (n : ℕ) (y : Probe) (ys : List Probe) → take n (y ∷ take n ys) ≡ take n (y ∷ ys)
take_cons_take zero y ys = refl
take_cons_take (suc n) y [] = refl
take_cons_take (suc n) y (z ∷ zs) = ap (◌∷◌ y) (take_cons_take n z zs)

take-rank : (n : ℕ) (x : Probe) (xs : List Probe) → take n (rank x (take n xs)) ≡ take n (rank x xs)
unfolding rank
take-rank zero x xs = refl
take-rank (suc n) x [] = refl
take-rank (suc n) x (y ∷ ys) = elim (Bool-cases (ltb_ℤ x.dist y.dist)) [
  | inl e ↦ rw e (ap (◌∷◌ x) (take_cons_take n y ys))
  | inr e ↦ rw e (ap (◌∷◌ y) (take-rank n x ys))
]

AtLeast-take : (n : ℕ) (x : Probe) (xs : List Probe) → AtLeast x xs → AtLeast x (take n xs)
AtLeast-take zero x xs a = tt
AtLeast-take (suc n) x [] a = tt
AtLeast-take (suc n) x (y ∷ ys) (p, a) = (p, AtLeast-take n x ys a)

take-Sorted : (n : ℕ) (xs : List Probe) → Sorted xs → Sorted (take n xs)
take-Sorted zero xs s = tt
take-Sorted (suc n) [] s = tt
take-Sorted (suc n) (x ∷ xs) (a, s) = (AtLeast-take n x xs a, take-Sorted n xs s)

abbrev pub farthest : Probe
farthest = record { dist = max_int64_value; id = 0 }

-- The array: the entries kept so far, then the places not yet filled, then the unused rest.
abbrev pub layout : ℕ → ℕ → List Probe → List Probe
layout np count kept =
    kept ++ (replicate (np - count) farthest ++ replicate (max_ivf_probe - np) no_probe)

pub record Keeps (dist : ℕ → ℤ) (np c : ℕ) (t : TopState) : Type 0 where
  pub count : t.count ≡ min c np
  pub best : t.best ≡ layout np t.count (take np (ranked dist c))

-- Placing in full places: the last one is dropped.
place_full :
    (m : ℕ) (x : Probe) (kept junk : List Probe)
    → length kept ≡ suc m
    → Sorted kept
    → ltb_ℤ x.dist (probe_at (kept ++ junk) m).dist ≡ true
    → sift x m (kept ++ junk) ≡ take (suc m) (rank x kept) ++ junk
place_full m x kept junk l s h =
    let (ys, y, e, k) = unsnoc m kept l in
    let shape : kept ++ junk ≡ ys ++ y ∷ junk = rw (e, append_assoc) in
    let last : probe_at (kept ++ junk) m ≡ y = rw (shape, ← k) (probe_at-length ys y junk) in
    let below : ltb_ℤ x.dist y.dist ≡ true = rw last at h in
    rw (
      shape,
      sift-rank m x y ys junk k (Sorted-init y ys (subst Sorted e s)),
      e,
      rank-snoc x y ys below,
      take_prefix (suc m) (rank x ys) (y ∷ []) (length-rank x ys ∙ ap suc k),
    )

-- What is not below the last place changes nothing.
skip_full :
    (m : ℕ) (x : Probe) (kept junk : List Probe)
    → length kept ≡ suc m
    → Sorted kept
    → ltb_ℤ x.dist (probe_at (kept ++ junk) m).dist ≡ false
    → take (suc m) (rank x kept) ≡ kept
skip_full m x kept junk l s h =
    let (ys, y, e, k) = unsnoc m kept l in
    let shape : kept ++ junk ≡ ys ++ y ∷ junk = rw (e, append_assoc) in
    let last : probe_at (kept ++ junk) m ≡ y = rw (shape, ← k) (probe_at-length ys y junk) in
    let le : y.dist ≤ℤ x.dist = (let h' = rw last at h in ground arith) in
    let behind = AtMost-snoc x y ys (subst Sorted e s) le in
    rw (rank_last x kept (subst (AtMost x) (sym e) behind)) (take_prefix (suc m) kept (x ∷ []) l)

module _ (dist : ℕ → ℤ) (np c : ℕ) (positive : 0 < np) (t : TopState)
    (keeps : Keeps dist np c t) where
  abbrev x : Probe
  x = probe_of c (dist c)

  abbrev kept : List Probe
  kept = take np (ranked dist c)

  abbrev unused : List Probe
  unused = replicate (max_ivf_probe - np) no_probe

  next_kept : take np (ranked dist (suc c)) ≡ take np (rank x kept)
  unfolding ranked
  next_kept = sym (take-rank np x (ranked dist c))

  -- There is room for one more.
  fill : t.count < np → Keeps dist np (suc c) (take_centroid np c (dist c) t)
  unfolding take_centroid insert_centroid
  fill h =
      let room : ltb t.count np ≡ true = ground arith in
      let few : length (ranked dist c) ≤ np = omega (arith, length-ranked dist c, keeps.count) in
      let len : length kept ≡ t.count =
        omega (arith, keeps.count, length-take np (ranked dist c), length-ranked dist c) in
      let k = np - (t.count + 1) in
      let more : np - t.count ≡ suc k = omega arith in
      let placed : sift x t.count t.best ≡ rank x kept ++ (replicate k farthest ++ unused) =
        rw (keeps.best, more)
          (sift-rank t.count x farthest kept (replicate k farthest ++ unused) len
            (take-Sorted np _ (ranked-Sorted dist c))) in
      let all : take np (ranked dist (suc c)) ≡ rank x kept =
        next_kept ∙ take_all np (rank x kept) (omega (arith, length-rank x kept)) in
      rw room (record { count = omega (arith, keeps.count); best = rw (all) placed })

  -- The places are full.
  replace : np ≤ t.count → Keeps dist np (suc c) (take_centroid np c (dist c) t)
  unfolding take_centroid insert_centroid
  replace h =
      let full : ltb t.count np ≡ false = ground arith in
      let is : t.count ≡ np = omega (arith, keeps.count) in
      let none_left : np - t.count ≡ 0 = omega arith in
      let m = np - 1 in
      let pred : np ≡ suc m = omega arith in
      let len : length kept ≡ suc m =
        omega (arith, keeps.count, length-take np (ranked dist c), length-ranked dist c) in
      let sorted = take-Sorted np (ranked dist c) (ranked-Sorted dist c) in
      let shape : t.best ≡ kept ++ unused = keeps.best ∙ (rw none_left) in
      elim (Bool-cases (ltb_ℤ (dist c) (probe_at t.best m).dist)) [
        | inl e ↦
            let new : sift x m t.best ≡ take np (ranked dist (suc c)) ++ unused =
              rw (shape, next_kept)
                (subst (λ n. sift x m (kept ++ unused) ≡ take n (rank x kept) ++ unused) (sym pred)
                  (place_full m x kept unused len sorted
                    (subst (λ l. ltb_ℤ (dist c) (probe_at l m).dist ≡ true) shape e))) in
            rw (full, e) (record { count = omega (arith, keeps.count); best = rw none_left new })
        | inr e ↦
            let same : take np (ranked dist (suc c)) ≡ kept =
              next_kept
              ∙ subst (λ n. take n (rank x kept) ≡ kept) (sym pred)
                  (skip_full m x kept unused len sorted
                    (subst (λ l. ltb_ℤ (dist c) (probe_at l m).dist ≡ false) shape e)) in
            rw (full, e) (record { count = omega (arith, keeps.count); best = rw same keeps.best })
      ]

  -- One round of any of the loops.
  pub take_centroid-Keeps : Keeps dist np (suc c) (take_centroid np c (dist c) t)
  take_centroid-Keeps = elim (Bool-cases (ltb t.count np)) [
    | inl e ↦ fill (ground arith)
    | inr e ↦ replace (ground arith)
  ]

pub length-kept : (dist : ℕ → ℤ) (np c : ℕ) → length (take np (ranked dist c)) ≡ min np c
length-kept dist np c = omega (arith, length-take np (ranked dist c), length-ranked dist c)

pub start_top-Keeps : (dist : ℕ → ℤ) (np : ℕ) → Keeps dist np 0 (start_top np)
unfolding start_top ranked
start_top-Keeps dist np =
    let whole : np - 0 ≡ np = omega arith in
    let empty : take np [] ≡ [] = take_all np [] (omega arith) in
    record { count = omega arith; best = rw (empty, whole) }

-- ===== src/Build/Stats.antt =====
-- The boxes and distances of the builder.
use heindall.Prelude.{ℕ, ◌+◌, ◌*◌, ◌≡◌, ◌⊎◌, inl, inr, List, [], ◌∷◌, arith}
use heindall.Prelude.Int.{ℤ, ◌≤ℤ◌}
use heindall.Quantized.{at, dimensions}
use heindall.Quantized.Distance.{squared_distance}
use heindall.Build.{
  Stat, add_to_stat, stat_of, empty_stat, compute_cluster_stats, vector_to_centroid_distance,
}

-- `id` is one of the rows.
abbrev pub OneOf : ℕ → List ℕ → Type 0
OneOf id [] = ⊥
OneOf id (i ∷ ids) = (id ≡ i) ⊎ OneOf id ids

stat_of-wider :
    (vs : List ℤ) (d : ℕ) (ids : List ℕ) (s : Stat)
    → ((stat_of vs d ids s).low ≤ℤ s.low) × (s.high ≤ℤ (stat_of vs d ids s).high)
unfolding stat_of
stat_of-wider vs d [] s = (omega arith, omega arith)
stat_of-wider vs d (i ∷ ids) s =
    let w = stat_of-wider vs d ids (add_to_stat (at vs (i * dimensions + d)) s) in ground arith

stat_of-holds :
    (vs : List ℤ) (d id : ℕ) (ids : List ℕ) (s : Stat)
    → OneOf id ids
    → ((stat_of vs d ids s).low ≤ℤ at vs (id * dimensions + d))
      × (at vs (id * dimensions + d) ≤ℤ (stat_of vs d ids s).high)
unfolding stat_of
stat_of-holds vs d id [] s m = absurd m
stat_of-holds vs d id (i ∷ ids) s (inl e) =
    let w = stat_of-wider vs d ids (add_to_stat (at vs (i * dimensions + d)) s) in
    rw e (ground arith)
stat_of-holds vs d id (i ∷ ids) s (inr m) = stat_of-holds vs d id ids _ m

-- The box that `computeClusterStats` computes for a cluster holds every row of the cluster.
pub compute_cluster_stats-box :
    (vectors : List ℤ) (ids : List ℕ) (id d : ℕ)
    → OneOf id ids
    → ((compute_cluster_stats vectors ids d).1 ≤ℤ at vectors (id * dimensions + d))
      × (at vectors (id * dimensions + d) ≤ℤ (compute_cluster_stats vectors ids d).2)
unfolding compute_cluster_stats
compute_cluster_stats-box vectors ids id d m = stat_of-holds vectors d id ids empty_stat m

-- `vectorToCentroidDistance` is the squared distance that the search computes in another order.
pub vector_to_centroid_distance-squared :
    (vectors : List ℤ) (id : ℕ) (centroid : List ℤ)
    → vector_to_centroid_distance vectors id centroid
      ≡ squared_distance (λ d. at vectors (id * dimensions + d)) (at centroid)
unfolding vector_to_centroid_distance squared_distance
vector_to_centroid_distance-squared vectors id centroid = omega arith

-- ===== src/Quantized/Defaults.antt =====
-- The search parameters after `normalizeIVFDefaults` and `SetIVFSearch`.
use heindall.Prelude.{ℕ, ◌<◌, ◌≡◌, refl, ◌∙◌, Bool, true, arith}
use heindall.Prelude.Int.{ℤ, pos, ◌≤ℤ◌}
use heindall.Quantized.{
  QuantizedIndex, has_ivf, default_probes, normalize_ivf_defaults, set_ivf_search,
}

-- 1 ≤ NProbe ≤ AmbiguousNProbe ≤ Clusters.
pub record HasProbes (idx : QuantizedIndex) : Type 0 where
  pub positive : pos 1 ≤ℤ idx.ivf.nprobe
  pub ordered : idx.ivf.nprobe ≤ℤ idx.ivf.ambiguous_nprobe
  pub bounded : idx.ivf.ambiguous_nprobe ≤ℤ pos idx.ivf.clusters

default_probes_bounds :
    (clusters : ℕ) (n a : ℤ)
    → 0 < clusters
    → (pos 1 ≤ℤ (default_probes clusters n a).0)
      × ((default_probes clusters n a).0 ≤ℤ (default_probes clusters n a).1)
      × ((default_probes clusters n a).1 ≤ℤ pos clusters)
unfolding default_probes
default_probes_bounds clusters n a h = ground arith

has_ivf-pos : (idx : QuantizedIndex) → has_ivf idx ≡ true → 0 < idx.ivf.clusters
unfolding has_ivf
has_ivf-pos idx h = ground arith

-- The search parameters play no part in `hasIVF`.
has_ivf-params :
    (idx : QuantizedIndex) (n a : ℤ) (repair : Bool)
    → has_ivf (record idx {
      ivf = record (idx.ivf) { nprobe = n; ambiguous_nprobe = a; repair = repair };
    })
      ≡ has_ivf idx
unfolding has_ivf
has_ivf-params idx n a repair = refl

-- `normalizeIVFDefaults` brings the parameters of an index with clusters into range.
pub normalize-HasProbes :
    (idx : QuantizedIndex) → has_ivf idx ≡ true → HasProbes (normalize_ivf_defaults idx)
unfolding normalize_ivf_defaults
normalize-HasProbes idx h =
    let b =
      default_probes_bounds idx.ivf.clusters idx.ivf.nprobe idx.ivf.ambiguous_nprobe
        (has_ivf-pos idx h) in
    rw h (record { positive = b.0; ordered = b.1; bounded = b.2 })

-- Whatever flags are given, an index that has clusters comes out of `SetIVFSearch` with
-- 1 ≤ NProbe ≤ AmbiguousNProbe ≤ Clusters.
pub set_ivf_search-HasProbes :
    (idx : QuantizedIndex) (nprobe ambiguous : ℤ) (repair : Bool)
    → has_ivf idx ≡ true
    → HasProbes (set_ivf_search idx nprobe ambiguous repair)
unfolding set_ivf_search
set_ivf_search-HasProbes idx nprobe ambiguous repair h =
    rw h (normalize-HasProbes _ (has_ivf-params idx _ _ repair ∙ h))

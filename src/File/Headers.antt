-- ===== src/File/Headers.antt =====
-- The two headers of an index file, written and read, and the indexes that fit a file.
use heindall.Prelude.{
  ℕ, zero, suc, ◌+◌, ◌*◌, ◌%◌, ◌^◌, ◌≤◌, ◌<◌, ◌≡◌, refl, ap, ◌∙◌, Bool, if◌then◌else◌, List, [],
  ◌∷◌, ◌++◌, none, some, inr, length, arith,
}
use heindall.Prelude.Int.{ℤ, pos, negsuc, pos_part, neg_part, ◌≤ℤ◌}
use heindall.Quantized.{QuantizedIndex, dimensions, ivf_block_stride}
use heindall.Quantized.Defaults.{HasProbes}
use heindall.Ivf.Centroids.Loops.{AllInt16}
use heindall.Build.{blocks_for_rows, offset}
use heindall.Load.{validate_ivf_offsets}
use heindall.File.Bytes.{
  take_bytes, read_uint32s, uint32s_bytes, AllUint32, bind-inr, take_bytes-append,
  read_uint32s-bytes,
}
use heindall.File.{
  IvfBinaryHeader, read_binary_header, read_ivf_header, header_bytes, ivf_header_bytes,
  binary_magic, to_uint32,
}

-- An index whose arrays have the lengths of the format and whose values fit it.
pub record IsWritable (idx : QuantizedIndex) : Type 0 where
  pub rows : length idx.labels < 2 ^ 32
  pub some_cluster : 0 < idx.ivf.clusters
  pub few : idx.ivf.clusters ≤ 8192
  pub centroids : length idx.ivf.centroids ≡ idx.ivf.clusters * dimensions
  pub centroids_fit : AllInt16 idx.ivf.centroids
  pub centroid_blocks :
      length idx.ivf.centroid_blocks ≡ blocks_for_rows idx.ivf.clusters * ivf_block_stride
  pub centroid_blocks_fit : AllInt16 idx.ivf.centroid_blocks
  pub lists : length idx.ivf.list_offsets ≡ idx.ivf.clusters + 1
  pub lists_fit : AllUint32 idx.ivf.list_offsets
  pub block_table : length idx.ivf.block_offsets ≡ idx.ivf.clusters + 1
  pub block_table_fit : AllUint32 idx.ivf.block_offsets
  pub low : length idx.ivf.bbox_min ≡ idx.ivf.clusters * dimensions
  pub low_fit : AllInt16 idx.ivf.bbox_min
  pub high : length idx.ivf.bbox_max ≡ idx.ivf.clusters * dimensions
  pub high_fit : AllInt16 idx.ivf.bbox_max
  pub ids : length idx.ivf.orig_ids ≡ length idx.labels
  pub ids_fit : AllUint32 idx.ivf.orig_ids
  pub blocks : length idx.blocks ≡ offset idx.ivf.block_offsets idx.ivf.clusters * ivf_block_stride
  pub blocks_fit : AllInt16 idx.blocks
  pub offsets :
      validate_ivf_offsets
        (length idx.labels)
        idx.ivf.clusters
        idx.ivf.list_offsets
        (some idx.ivf.block_offsets)
      ≡ none
  pub probes : HasProbes idx

pub AllUint32-cons : (u : ℕ) (us : List ℕ) → u < 2 ^ 32 → AllUint32 us → AllUint32 (u ∷ us)
AllUint32-cons u us h k zero = h
AllUint32-cons u us h k (suc i) = k i

AllUint32-nil : AllUint32 []
AllUint32-nil i = omega arith

pub AllUint32-four :
    (a b c d : ℕ)
    → a < 2 ^ 32
    → b < 2 ^ 32
    → c < 2 ^ 32
    → d < 2 ^ 32
    → AllUint32 (a ∷ b ∷ c ∷ d ∷ [])
AllUint32-four a b c d ha hb hc hd = AllUint32-cons a (b ∷ c ∷ d ∷ []) ha (
    AllUint32-cons b (c ∷ d ∷ []) hb
      (AllUint32-cons c (d ∷ []) hc (AllUint32-cons d [] hd AllUint32-nil)))

pub read_binary_header-bytes :
    (n : ℕ) (rest : List ℕ)
    → n < 2 ^ 32
    → read_binary_header (header_bytes n ++ rest) ≡ inr (record { version = 4; count = n }, rest)
unfolding read_binary_header
read_binary_header-bytes n rest h =
    let fields : List ℕ = 4 ∷ 14 ∷ 10000 ∷ (n % 2 ^ 32) ∷ [] in
    let same : n % 2 ^ 32 ≡ n = omega arith in
    bind-inr (take_bytes 8) _ (header_bytes n ++ rest) (uint32s_bytes fields ++ rest) binary_magic
      (take_bytes-append binary_magic (uint32s_bytes fields ++ rest) 8 refl)
    ∙ bind-inr (read_uint32s 4) _ (uint32s_bytes fields ++ rest) rest fields (
        read_uint32s-bytes fields rest 4
          (AllUint32-four 4 14 10000 (n % 2 ^ 32) (omega arith) (omega arith) (omega arith)
            (omega arith))
          refl)
    ∙ ap (λ c. inr (record { version = 4; count = c }, rest)) same

abbrev pub flag_bit : Bool → ℕ
flag_bit repair = if repair then 1 else 0

-- The fields of the second header.
abbrev pub ivf_header_of : QuantizedIndex → IvfBinaryHeader
ivf_header_of idx = record {
  clusters = idx.ivf.clusters;
  nprobe = pos_part idx.ivf.nprobe;
  ambiguous_nprobe = pos_part idx.ivf.ambiguous_nprobe;
  flags = flag_bit idx.ivf.repair;
}

pub plain : (z : ℤ) → pos 0 ≤ℤ z → (neg_part z ≡ 0) × (z ≡ pos (pos_part z))
plain (pos n) h = (refl, refl)
plain (negsuc n) h = absurd (omega arith)

pub to_uint32-pos : (z : ℤ) → pos 0 ≤ℤ z → pos_part z < 2 ^ 32 → to_uint32 z ≡ pos_part z
to_uint32-pos z h k = let (no_part, is) = plain z h in omega arith

pub read_ivf_header-bytes :
    (idx : QuantizedIndex) (rest : List ℕ)
    → idx.ivf.clusters ≤ 8192
    → HasProbes idx
    → read_ivf_header (ivf_header_bytes idx ++ rest) ≡ inr (ivf_header_of idx, rest)
unfolding read_ivf_header
read_ivf_header-bytes idx rest few probes =
    let p = probes.positive in
    let o = probes.ordered in
    let b = probes.bounded in
    let (none_n, is_n) = plain idx.ivf.nprobe (omega arith) in
    let (none_a, is_a) = plain idx.ivf.ambiguous_nprobe (omega arith) in
    let clusters : idx.ivf.clusters % 2 ^ 32 ≡ idx.ivf.clusters = omega arith in
    let n = to_uint32-pos idx.ivf.nprobe (omega arith) (omega arith) in
    let a = to_uint32-pos idx.ivf.ambiguous_nprobe (omega arith) (omega arith) in
    let fields : List ℕ =
      idx.ivf.clusters
      ∷ pos_part idx.ivf.nprobe
      ∷ pos_part idx.ivf.ambiguous_nprobe
      ∷ flag_bit idx.ivf.repair
      ∷ [] in
    let fits =
      AllUint32-four _ _ _ (flag_bit idx.ivf.repair) (omega arith) (omega arith) (omega arith)
        (ground arith) in
    rw (clusters, n, a)
      (bind-inr (read_uint32s 4) _ (uint32s_bytes fields ++ rest) rest fields
        (read_uint32s-bytes fields rest 4 fits refl))

-- ===== src/Ivf/State.antt =====
-- `ivfSearchState`: the five best rows so far, and the clusters that were probed. The three arrays
-- `bestDist`, `bestFraud` and `bestID` are written together, so they are one array of records.
pub mod Insert
pub mod Mask
pub mod Order
pub mod Nearest
use heindall.Prelude.{
  ℕ, zero, suc, ◌+◌, ◌-◌, ◌/◌, ◌%◌, ◌*◌, ◌^◌, Bool, true, false, not, ◌&&◌, ◌||◌, Option, none,
  some, List, [], ◌∷◌, ltb, ◌==◌, if◌then◌else◌, get_elem?, get_or, set, replicate, bit_and, bit_or,
  ◌>>=◌,
}
use heindall.Prelude.Int.{ℤ, pos, ltb_ℤ, ◌==ℤ◌}

abbrev pub max_int64_value : ℤ
max_int64_value = pos (2 ^ 63 - 1)

abbrev pub max_uint32_value : ℕ
max_uint32_value = 2 ^ 32 - 1

abbrev pub max_ivf_probe : ℕ
max_ivf_probe = 128

pub record Best : Type 0 where
  pub dist : ℤ
  pub fraud : Bool
  pub id : ℕ

-- `d < bestDist[i] || (d == bestDist[i] && origID < bestID[i])`
unfoldable pub precedes : Best → Best → Bool
precedes x y = ltb_ℤ x.dist y.dist || ((x.dist ==ℤ y.dist) && ltb x.id y.id)

-- `xs[j] = xs[j-1]`
unfoldable pub copy_down {ℓ} : {A : Type ℓ} → List A → ℕ → List A
copy_down xs j = elim (get_elem? xs (j - 1)) [ none ↦ xs | some x ↦ set xs j x ]

-- `for j := last; j > i; j--`, with `last - i` rounds.
unfoldable pub shift {ℓ} : {A : Type ℓ} → ℕ → ℕ → List A → List A
unfolding copy_down
shift zero j xs = xs
shift (suc n) j xs = shift n (j - 1) (copy_down xs j)

abbrev pub unset : Best
unset = record { dist = max_int64_value; fraud = false; id = max_uint32_value }

pub record SearchState : Type 0 where
  pub best : List Best
  pub probes : List ℕ
  pub probe_mask : List ℕ
  pub probe_count : ℕ

unfoldable pub new_ivf_search_state : SearchState
new_ivf_search_state = record {
  best = unset ∷ unset ∷ unset ∷ unset ∷ unset ∷ [];
  probes = replicate max_ivf_probe 0;
  probe_mask = replicate 128 0;
  probe_count = 0;
}

-- The loop over `i`, with the rounds that are left.
unfoldable pub insert_from : ℕ → ℕ → Best → List Best → List Best
unfolding shift
insert_from zero i x xs = xs
insert_from (suc n) i x xs = elim (precedes x (get_or xs i unset)) [
  | true ↦ set (shift (4 - i) 4 xs) i x
  | false ↦ insert_from n (i + 1) x xs
]

unfoldable pub insert : Best → SearchState → SearchState
unfolding insert_from
insert x s = record s { best = insert_from 5 0 x s.best }

-- `bestDist[4]` and `bestID[4]`.
abbrev pub fifth : List Best → Best
fifth xs = get_or xs 4 unset

unfoldable pub counts : Best → Bool
counts x = not (x.dist ==ℤ max_int64_value) && x.fraud

unfoldable pub count_from : List Best → ℕ → ℕ
unfolding counts
count_from [] frauds = frauds
count_from (x ∷ xs) frauds = count_from xs (if counts x then frauds + 1 else frauds)

unfoldable pub count_frauds : SearchState → ℕ
unfolding count_from
count_frauds s = count_from s.best 0

-- `cluster >> 6` and `uint64(1) << (cluster & 63)`.
abbrev pub word_of : ℕ → ℕ
word_of cluster = cluster / 64

abbrev pub bit_of : ℕ → ℕ
bit_of cluster = 2 ^ (cluster % 64)

-- `none`: the mask has 128 words, and Go panics behind them.
unfoldable pub has_probe : SearchState → ℕ → Option Bool
has_probe s cluster = do
  word ← get_elem? s.probe_mask (word_of cluster)
  some (not (bit_and word (bit_of cluster) == 0))

unfoldable pub add_probe : SearchState → ℕ → Option SearchState
add_probe s cluster = do
  word ← get_elem? s.probe_mask (word_of cluster)
  let mask = set s.probe_mask (word_of cluster) (bit_or word (bit_of cluster))
  some (
      if ltb s.probe_count max_ivf_probe
      then record s {
        probes = set s.probes s.probe_count cluster;
        probe_mask = mask;
        probe_count = s.probe_count + 1;
      }
      else record s { probe_mask = mask })

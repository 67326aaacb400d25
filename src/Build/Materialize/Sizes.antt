-- ===== src/Build/Materialize/Sizes.antt =====
-- The lengths and the offset tables that `materializeIVF` writes, and that it keeps the ids.
use heindall.Prelude.{
  ℕ, zero, suc, ◌+◌, ◌-◌, ◌*◌, ◌≤◌, ◌≡◌, refl, sym, ◌∙◌, ap, List, [], ◌∷◌, ◌++◌, map, get_or,
  length, length-append, length-map, length-take, length-drop, take, drop, arith,
}
use heindall.Prelude.Int.{ℤ}
use heindall.Sort.{sort_slice}
use heindall.Quantized.{at, dimensions}
use heindall.Sort.Counts.{count_of, count_of-append, count_of-sort_slice, length-sort_slice}
use heindall.Build.{
  blocks_for_rows, vector_to_centroid_distance, IvfIdDistance, is_nearer, compute_cluster_stats,
}
use heindall.Build.Split.{IvfBuildRange, window}
use heindall.Build.Materialize.{Materialized, fill, gather, cluster_ids, materialize_from}

pub length-fill : (g : ℕ → ℤ) (n d : ℕ) → length (fill g n d) ≡ n
length-fill g zero d = refl
length-fill g (suc n) d = ap suc (length-fill g n (d + 1))

pub length-gather : (vs : List ℤ) (ids : List ℕ) → length (gather vs ids) ≡ length ids * dimensions
length-gather vs [] = omega arith
length-gather vs (id ∷ ids) = omega (
  arith,
  length-append (fill (λ d. at vs (id * dimensions + d)) dimensions 0) (gather vs ids),
  length-gather vs ids,
)

map_ids :
    (dist : ℕ → ℕ) (xs : List ℕ)
    → map (λ (i : IvfIdDistance). i.id) (map (λ id. record { id = id; dist = dist id }) xs) ≡ xs
map_ids dist [] = refl
map_ids dist (x ∷ xs) = ap (◌∷◌ x) (map_ids dist xs)

pub count_of-cluster_ids :
    (vs : List ℤ) (rows : List ℕ) (x : ℕ) → count_of x (cluster_ids vs rows) ≡ count_of x rows
unfolding cluster_ids
count_of-cluster_ids vs rows x =
    let centroid = fill (λ d. (compute_cluster_stats vs rows d).0) dimensions 0 in
    let dist : ℕ → ℕ = λ id. vector_to_centroid_distance vs id centroid in
    count_of-sort_slice is_nearer (λ i. i.id) x
      (map (λ id. record { id = id; dist = dist id }) rows)
    ∙ ap (count_of x) (map_ids dist rows)

pub length-cluster_ids : (vs : List ℤ) (rows : List ℕ) → length (cluster_ids vs rows) ≡ length rows
unfolding cluster_ids
length-cluster_ids vs rows =
    let centroid = fill (λ d. (compute_cluster_stats vs rows d).0) dimensions 0 in
    let items : List IvfIdDistance =
      map (λ id. record { id = id; dist = vector_to_centroid_distance vs id centroid }) rows in
    omega (
      arith,
      length-map (sort_slice is_nearer items) (λ (i : IvfIdDistance). i.id),
      length-sort_slice is_nearer (λ i. i.id) items,
      length-map {B = IvfIdDistance} rows
          (λ id. record { id = id; dist = vector_to_centroid_distance vs id centroid }),
    )

-- The ranges, as a list, lead from `s` to `e`.
abbrev pub Consecutive : List IvfBuildRange → ℕ → ℕ → Type 0
Consecutive [] s e = s ≡ e
Consecutive (r ∷ rs) s e = (r.start ≡ s) × (s ≤ r.end) × Consecutive rs r.end e

pub Consecutive-le : (rs : List IvfBuildRange) (s e : ℕ) → Consecutive rs s e → s ≤ e
Consecutive-le [] s e c = omega arith
Consecutive-le (r ∷ rs) s e (a, b, c) = omega (arith, Consecutive-le rs r.end e c)

drop-drop : (a s : ℕ) (xs : List ℕ) → drop a (drop s xs) ≡ drop (s + a) xs
drop-drop a zero xs = let same : 0 + a ≡ a = omega arith in rw same
drop-drop a (suc s) [] = let same : suc s + a ≡ suc (s + a) = omega arith in rw same (drop_nil a)
  where
    drop_nil : (a : ℕ) → drop {A = ℕ} a [] ≡ []
    drop_nil zero = refl
    drop_nil (suc a) = refl
drop-drop a (suc s) (x ∷ xs) =
    let same : suc s + a ≡ suc (s + a) = omega arith in rw same (drop-drop a s xs)

count_of-take_add :
    (x a b : ℕ) (xs : List ℕ)
    → count_of x (take (a + b) xs) ≡ count_of x (take a xs) + count_of x (take b (drop a xs))
count_of-take_add x zero b xs = let same : 0 + b ≡ b = omega arith in rw same (omega arith)
count_of-take_add x (suc a) b [] =
    let same : suc a + b ≡ suc (a + b) = omega arith in rw same (empty b)
  where
    empty : (b : ℕ) → 0 ≡ 0 + count_of x (take b [])
    empty zero = omega arith
    empty (suc b) = omega arith
count_of-take_add x (suc a) b (y ∷ xs) =
    let same : suc a + b ≡ suc (a + b) = omega arith in
    rw same (omega (arith, count_of-take_add x a b xs))

-- The ids from place `s` to place `e`.
abbrev pub span_ids : List ℕ → ℕ → ℕ → List ℕ
span_ids ids s e = take (e - s) (drop s ids)

count_of-span_ids :
    (x s m e : ℕ) (ids : List ℕ)
    → s ≤ m
    → m ≤ e
    → count_of x (span_ids ids s e) ≡ count_of x (span_ids ids s m) + count_of x (span_ids ids m e)
count_of-span_ids x s m e ids h k =
    let whole : e - s ≡ (m - s) + (e - m) = omega arith in
    let there : s + (m - s) ≡ m = omega arith in
    rw (whole, count_of-take_add x (m - s) (e - m) (drop s ids), drop-drop (m - s) s ids, there)

pub length-window :
    (ids : List ℕ) (r : IvfBuildRange)
    → r.start ≤ r.end
    → r.end ≤ length ids
    → length (window ids r) ≡ r.end - r.start
length-window ids r h k =
    omega (arith, length-take (r.end - r.start) (drop r.start ids), length-drop r.start ids)

-- What is written has the ids of the ranges, and the vectors of these ids.
pub record Keeps (vs : List ℤ) (ids : List ℕ) (n s e : ℕ) (m : Materialized) : Type 0 where
  pub counts : (x : ℕ) → count_of x m.orig_ids ≡ count_of x (span_ids ids s e)
  pub rows : length m.orig_ids ≡ e - s
  pub labels : length m.labels ≡ e - s
  pub vectors : m.vectors ≡ gather vs m.orig_ids
  pub lists : length m.list_offsets ≡ n
  pub blocks : length m.block_offsets ≡ n
  pub centroids : length m.centroids ≡ n * dimensions
  pub low : length m.bbox_min ≡ n * dimensions
  pub high : length m.bbox_max ≡ n * dimensions

gather-append : (vs : List ℤ) (xs ys : List ℕ) → gather vs (xs ++ ys) ≡ gather vs xs ++ gather vs ys
gather-append vs [] ys = refl
gather-append vs (x ∷ xs) ys =
    ap (λ t. fill (λ d. at vs (x * dimensions + d)) dimensions 0 ++ t) (gather-append vs xs ys)

empty_span : (s : ℕ) (ids : List ℕ) → span_ids ids s s ≡ []
empty_span s ids = let none_left : s - s ≡ 0 = omega arith in rw none_left

pub materialize_from-Keeps :
    (vs : List ℤ) (labels ids : List ℕ) (rs : List IvfBuildRange) (row block s e : ℕ)
    → Consecutive rs s e
    → e ≤ length ids
    → Keeps vs ids (length rs) s e (materialize_from vs labels ids rs row block)
unfolding materialize_from
materialize_from-Keeps vs labels ids [] row block s e c h = rw (← c) (record {
  counts = λ x. rw (empty_span s ids);
  rows = omega arith;
  labels = omega arith;
  vectors = refl;
  lists = refl;
  blocks = refl;
  centroids = omega arith;
  low = omega arith;
  high = omega arith;
})
materialize_from-Keeps vs labels ids (r ∷ rs) row block s e (a, b, c) h =
    let le = Consecutive-le rs r.end e c in
    let rows = window ids r in
    let own = cluster_ids vs rows in
    let rest =
      materialize_from-Keeps vs labels ids rs (row + length own)
        (block + blocks_for_rows (length own)) r.end e c h in
    let m =
      materialize_from vs labels ids rs (row + length own) (block + blocks_for_rows (length own)) in
    let stats = compute_cluster_stats vs rows in
    let size : length own ≡ r.end - s =
      omega (arith, length-cluster_ids vs rows, length-window ids r (omega arith) (omega arith)) in
    record {
      counts = λ x.
          (let here : count_of x rows ≡ count_of x (span_ids ids s r.end) =
              ap (λ t. count_of x (span_ids ids t r.end)) a in
            omega (
              arith,
              count_of-append x own m.orig_ids,
              count_of-cluster_ids vs rows x,
              here,
              rest.counts x,
              count_of-span_ids x s r.end e ids b le,
            ));
      rows = omega (arith, length-append own m.orig_ids, size, rest.rows);
      labels = omega (
        arith,
        length-append (map (λ id. get_or labels id 0) own) m.labels,
        length-map own (λ id. get_or labels id 0),
        size,
        rest.labels,
      );
      vectors = ap (λ t. gather vs own ++ t) rest.vectors ∙ sym (gather-append vs own m.orig_ids);
      lists = ap suc rest.lists;
      blocks = ap suc rest.blocks;
      centroids = omega (
        arith,
        length-append (fill (λ d. (stats d).0) dimensions 0) m.centroids,
        length-fill (λ d. (stats d).0) dimensions 0,
        rest.centroids,
      );
      low = omega (
        arith,
        length-append (fill (λ d. (stats d).1) dimensions 0) m.bbox_min,
        length-fill (λ d. (stats d).1) dimensions 0,
        rest.low,
      );
      high = omega (
        arith,
        length-append (fill (λ d. (stats d).2) dimensions 0) m.bbox_max,
        length-fill (λ d. (stats d).2) dimensions 0,
        rest.high,
      );
    }

-- ===== src/File/Mmap/Loaded.antt =====
-- `loadBinaryIndex` on Linux and `loadBinaryIndexHeap` return the same index.
use mathlib.Core.Path.{subst}
use heindall.Prelude.{
  ℕ, ◌+◌, ◌==◌, ==_iff, ◌≤◌, ◌<◌, ◌≡◌, refl, sym, ap, ◌∙◌, Bool, true, false, not, ◌&&◌, ◌||◌,
  Bool-cases, if◌then◌else◌, ltb, leb, List, [], some, ◌⊎◌, inl, inr, length, take, drop, arith,
}
use heindall.Quantized.{QuantizedIndex, dimensions, quant_scale}
use heindall.Build.{offset}
use heindall.File.Bytes.{
  LoadError, truncated, bad_cluster_count, unsupported_format, unsupported_version, ◌>>=◌, return,
  raise, take_bytes, read_uint32s, uint32s, bind-inr,
}
use heindall.File.{BinaryHeader, IvfBinaryHeader, binary_magic, read_binary_header, read_ivf_header}
use heindall.File.Heap.{read_tables, loaded, load_ivf_binary_index_heap, load_binary_index_heap}
use heindall.File.Mmap.{
  Mapped, needed_bytes, map_tables, ivf_header_at, load_ivf_binary_index_mmap, map_from,
  load_binary_index,
}
use heindall.File.Mmap.Rows.{IsKnown}
use heindall.Quantize.{same_bytes}
use heindall.File.Mmap.Agreement.{Agrees, Agrees-cong, both_fail, value}
use mathlib.Core.Option.{some-injective}
use heindall.File.{write_ivf_quantized_index}
use heindall.File.Headers.{IsWritable}
use heindall.File.Written.{
  read_binary_header-written, load_binary_index_heap-write_ivf_quantized_index,
}
use heindall.File.Mmap.Both.{tables-Fails, tables-Agrees}
use heindall.File.Mmap.Reads.{
  then-Reads, Fails, Reads, take_bytes-Reads, read_uint32s-Reads, bind-Fails, bind-within,
}

-- `readBinaryHeader` fails, or it has read 24 bytes and a version that is known.
record Header (file : List ℕ) : Type 0 where
  header : BinaryHeader
  is : read_binary_header file ≡ inr (header, drop 24 file)
  long : 24 ≤ length file
  known : IsKnown header.version

accept :
    (file magic fields : List ℕ) (f v : Bool)
    → (f ≡ (
        not (same_bytes magic binary_magic)
        || (not (offset fields 1 == dimensions) || not (offset fields 2 == quant_scale))))
    → (v ≡ (
        not (offset fields 0 == 2) && (not (offset fields 0 == 3) && not (offset fields 0 == 4))))
    → 24 ≤ length file
    → read_binary_header file
      ≡ (if f
            then raise unsupported_format
            else if v
            then raise unsupported_version
            else return (record { version = offset fields 0; count = offset fields 3 }))
          (drop 24 file)
    → Fails (read_binary_header file) ⊎ Header file
accept file magic fields true v _ _ long e = inl (unsupported_format, e)
accept file magic fields false true _ _ long e = inl (unsupported_version, e)
accept file magic fields false false f v long e = inr (record {
  header = record { version = offset fields 0; count = offset fields 3 };
  is = e;
  long = long;
  known = elim (Bool-cases (offset fields 0 == 2)) [
    | inl two ↦ inl ((==_iff (offset fields 0) 2).0 two)
    | inr other ↦ inr (ground arith, other)
  ];
})

read_binary_header_cases : (file : List ℕ) → Fails (read_binary_header file) ⊎ Header file
unfolding read_binary_header
read_binary_header_cases file = elim (Bool-cases (leb 24 (length file))) [
  | inr short ↦ inl (
      bind-Fails file (take_bytes 8) 8 (λ at. take 8 (drop at file)) _ 0 (take_bytes-Reads file 8)
        (omega arith)
        (λ h.
          bind-Fails file (read_uint32s 4) 16 (λ at. uint32s 4 (drop at file)) _ 8
            (read_uint32s-Reads file 4) h (λ h. absurd (ground arith))))
  | inl long ↦
      (let le : 24 ≤ length file = ground arith in
        accept file (take 8 file) (uint32s 4 (drop 8 file)) _ _ refl refl le (
          bind-within file (take_bytes 8) 8 (λ at. take 8 (drop at file)) _ 0
            (take_bytes-Reads file 8) (omega arith)
          ∙ bind-within file (read_uint32s 4) 16 (λ at. uint32s 4 (drop at file)) _ 8
              (read_uint32s-Reads file 4) le))
]

-- The second header, and what is behind it.
read_ivf_header-Reads :
    (file : List ℕ)
    → Reads file read_ivf_header 16 (λ at. record {
      clusters = offset (uint32s 4 (drop at file)) 0;
      nprobe = offset (uint32s 4 (drop at file)) 1;
      ambiguous_nprobe = offset (uint32s 4 (drop at file)) 2;
      flags = offset (uint32s 4 (drop at file)) 3;
    })
unfolding read_ivf_header
read_ivf_header-Reads file =
    then-Reads file (read_uint32s 4) 16 (λ at. uint32s 4 (drop at file)) _
      (read_uint32s-Reads file 4)

module _ (file : List ℕ) (header : BinaryHeader) (known : IsKnown header.version)
    (many : 0 < header.count) (long : 24 ≤ length file) where
  abbrev ih : IvfBinaryHeader
  ih = ivf_header_at file

  abbrev heap : LoadError ⊎ (QuantizedIndex × List ℕ)
  heap = load_ivf_binary_index_heap header (drop 24 file)

  abbrev branches : Bool → Bool → Bool → Mapped QuantizedIndex
  branches short empty cut =
      if short
      then some (inl truncated)
      else if empty
      then some (inl bad_cluster_count)
      else if cut
      then some (inl truncated)
      else map_tables file header ih 40

  -- The four ways through the mapping loader.
  map_is :
      (a b c : Bool)
      → ltb (length file) 40 ≡ a
      → (ih.clusters == 0) ≡ b
      → ltb (length file) (40 + needed_bytes header ih) ≡ c
      → load_ivf_binary_index_mmap file header ≡ branches a b c
  unfolding load_ivf_binary_index_mmap
  map_is a b c p q r =
      ap (λ x. branches x (ih.clusters == 0) (ltb (length file) (40 + needed_bytes header ih))) p
      ∙ ap (λ x. branches a x (ltb (length file) (40 + needed_bytes header ih))) q
      ∙ ap (λ x. branches a b x) r

  heap_long :
      40 ≤ length file
      → heap
        ≡ (if ih.clusters == 0
              then raise {A = QuantizedIndex} bad_cluster_count
              else read_tables header ih)
            (drop 40 file)
  unfolding load_ivf_binary_index_heap
  heap_long h = bind-within file read_ivf_header 16 _ _ 24 (read_ivf_header-Reads file) h

  heap_short : length file < 40 → Fails heap
  unfolding load_ivf_binary_index_heap
  heap_short h =
      bind-Fails file read_ivf_header 16 _ _ 24 (read_ivf_header-Reads file) long
        (λ h'. absurd (omega arith))

  heap_branch :
      (b : Bool)
      → (ih.clusters == 0) ≡ b
      → 40 ≤ length file
      → heap
        ≡ (if b then raise {A = QuantizedIndex} bad_cluster_count else read_tables header ih)
            (drop 40 file)
  heap_branch b e h =
      heap_long h
      ∙ ap
          (λ (b : Bool).
            (if b then raise {A = QuantizedIndex} bad_cluster_count else read_tables header ih)
              (drop 40 file))
          e

  headers-Agree : Agrees (load_ivf_binary_index_mmap file header) heap
  headers-Agree = elim (Bool-cases (ltb (length file) 40)) [
    | inl a ↦
        subst (λ x. Agrees x heap) (sym (map_is true _ _ a refl refl))
          (both_fail truncated heap (heap_short (ground arith)))
    | inr a ↦ elim (Bool-cases (ih.clusters == 0)) [
      | inl b ↦
          subst (λ x. Agrees x heap) (sym (map_is false true _ a b refl))
            (both_fail bad_cluster_count heap
              (bad_cluster_count, heap_branch true b (ground arith)))
      | inr b ↦
          (let le : 40 ≤ length file = ground arith in
            let some_cluster : 0 < ih.clusters = ground arith in
            let is = heap_branch false b le in
            elim (Bool-cases (ltb (length file) (40 + needed_bytes header ih))) [
              | inl c ↦
                  (let (e, fails) =
                      tables-Fails file header ih known many some_cluster 40 le (ground arith) in
                    subst (λ x. Agrees x heap) (sym (map_is false false true a b c))
                      (both_fail truncated heap (e, is ∙ fails)))
              | inr c ↦
                  Agrees-cong (load_ivf_binary_index_mmap file header)
                    (map_tables file header ih 40) heap (read_tables header ih (drop 40 file))
                    (map_is false false false a b c) is
                    (tables-Agrees file header ih known many some_cluster 40 le (ground arith))
            ])
    ]
  ]

mapped_is :
    (file : List ℕ) (h : Header file)
    → load_binary_index file ≡ load_ivf_binary_index_mmap file h.header
unfolding load_binary_index map_from
mapped_is file h = ap (map_from file) h.is

heap_is :
    (file : List ℕ) (h : Header file)
    → load_binary_index_heap file ≡ loaded (load_ivf_binary_index_heap h.header (drop 24 file))
unfolding load_binary_index_heap
heap_is file h =
    ap loaded
      (bind-inr read_binary_header load_ivf_binary_index_heap file (drop 24 file) h.header h.is)

mapped_fails :
    (file : List ℕ) (e : LoadError)
    → read_binary_header file ≡ inl e
    → load_binary_index file ≡ some (inl e)
unfolding load_binary_index map_from
mapped_fails file e f = ap (map_from file) f

heap_fails :
    (file : List ℕ) (e : LoadError)
    → read_binary_header file ≡ inl e
    → load_binary_index_heap file ≡ inl e
unfolding load_binary_index_heap
heap_fails file e f = rw (f, ◌>>=◌) refl

-- For every file, of any version and also truncated or with wrong tables, whose header does not
-- count 0 rows: `loadBinaryIndex` on Linux neither panics nor takes a slice that leaves the
-- mapping, and it returns an index when `loadBinaryIndexHeap` does, the same one.
pub load_binary_index-load_binary_index_heap :
    (file : List ℕ)
    → ((header : BinaryHeader) (rest : List ℕ)
        → read_binary_header file ≡ inr (header, rest)
        → 0 < header.count)
    → (r : LoadError ⊎ QuantizedIndex) × (load_binary_index file ≡ some r)
      × (value r ≡ value (load_binary_index_heap file))
load_binary_index-load_binary_index_heap file many = elim (read_binary_header_cases file) [
  | inl (e, fails) ↦ (inl e, mapped_fails file e fails, ap value (sym (heap_fails file e fails)))
  | inr h ↦
      (let a = headers-Agree file h.header h.known (many h.header (drop 24 file) h.is) h.long in
        (a.returned, mapped_is file h ∙ a.returns, a.agree ∙ ap value (sym (heap_is file h))))
]

value-inr : {A : Type 0} (r : LoadError ⊎ A) (a : A) → value r ≡ some a → r ≡ inr a
value-inr (inl e) a h = absurd (cc h)
value-inr (inr b) a h = ap inr (some-injective b a h)

header_of : LoadError ⊎ (BinaryHeader × List ℕ) → ℕ
header_of (inl e) = 0
header_of (inr (h, rest)) = h.count

-- A file that was written counts its rows.
pub written-counts :
    (idx : QuantizedIndex)
    → IsWritable idx
    → 0 < length idx.labels
    → (header : BinaryHeader) (rest : List ℕ)
    → read_binary_header (write_ivf_quantized_index idx).1 ≡ inr (header, rest)
    → 0 < header.count
unfolding header_of
written-counts idx w many header other e =
    let (rest, is) = read_binary_header-written idx w in omega (arith, ap header_of (sym is ∙ e))

-- The round trip of the heap loader, for the mapping loader.
pub load_binary_index-written :
    (idx : QuantizedIndex)
    → IsWritable idx
    → 0 < length idx.labels
    → load_binary_index (write_ivf_quantized_index idx).1 ≡ some (inr (record idx { vectors = [] }))
load_binary_index-written idx w many =
    let file = (write_ivf_quantized_index idx).1 in
    let (r, mapped, agree) =
      load_binary_index-load_binary_index_heap file (written-counts idx w many) in
    mapped
    ∙ ap some (
        value-inr r (record idx { vectors = [] })
          (agree ∙ ap value (load_binary_index_heap-write_ivf_quantized_index idx w)))

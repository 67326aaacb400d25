-- ===== src/Lib.antt =====
-- Heindall's fraud API: a transaction becomes a vector of 14 coordinates, quantised to `int16`,
-- and the share of frauds among the five nearest reference vectors decides. The development
-- models the index search in apps/api/internal/fraud, the building of the index, the file that
-- keeps it with both of its loaders, and the reading of a JSON body into a quantised vector.
--
-- The parts, and how they meet:
--   Quantized.antt: quantized.go. `QuantizedIndex`, `IvfMetadata` are the structs; `has_ivf`,
--     `has_ivf_blocks`, `normalize_ivf_defaults`, `set_ivf_search` are the methods;
--     `quantized_distance` is `quantizedDistance`, with its exits.
--   Ivf/State.antt: `ivfSearchState` in ivf_search.go. The three arrays of the five best rows are
--     a list of `Best`; `insert`, `count_frauds`, `has_probe`, `add_probe` are the methods.
--   Ivf/Kernel.antt: ivf_search_avx2_amd64.s. A routine is the distance of each of its lanes.
--   Ivf/Scan.antt: `scanIVFList`, `scanIVFBlocksAVX2`, `scanIVFBlocksUnsafe`, `offerIVF`.
--   Ivf/Centroids.antt: `topIVFCentroids` in its versions, and `insertCentroid`.
--   Ivf/Rules.antt: `isIVFAmbiguousFraudCount` and the `needs...Repair` tests.
--   Ivf/Search.antt: `searchIVF`, `searchIVFProbes`, `expandIVFProbes`, `repairIVF`,
--     `ivfBBoxDistance`, and `Search5Quantized` of quantized.go. `useIVFAVX2` is the first
--     argument of the functions that read it.
--   Ivf/Exact.antt: no code; the meaning of a search from its phases to its answer.
--   Build.antt: ivf_build.go: block layouts, boxes, rounding, and the order of the rows of a
--     cluster; `NewIVFQuantizedIndex` of quantized.go.
--   Build/Split.antt, Build/Materialize.antt, Build/Index.antt: `balancedSplit`,
--     `maxVarianceDimension`, `materializeIVF` and `BuildIVFIndex`. `SplitState` is the two slices
--     that the recursion writes; `Materialized` is the arrays that the loop over the clusters fills.
--   Quantize.antt: `QuantizeVector`, `quantizeFloat64` and `LabelByte`. Float.antt is the interface
--     of the floating-point types, Sort.antt the sort of Go's library.
--   Load.antt: `validateIVFOffsets` in binary_index.go.
--   File.antt: the index file of binary_index.go as a list of bytes. `write_ivf_quantized_index` is
--     the writer, File/Heap.antt `loadBinaryIndexHeap`, File/Mmap.antt the loader of
--     binary_index_linux.go, File/Bytes.antt `encoding/binary`. `write_ivf_binary_index` in
--     Build/Index/Writable.antt is `WriteIVFBinaryIndex`.
--   Vectorize.antt: `VectorizeJSONQuantized` in vectorize_json.go, with `numberAfter`,
--     `parseFloatBytes` and the risk of a category in Vectorize/Numbers.antt; JsonScan.antt has the
--     other scanners, JsonScan/Merchant.antt `knownMerchantJSON`, Calendar.antt the dates.
--   Prelude.antt: shared notation, lists, integers, bits. Tests.antt: a small index and the
--     theorems applied to it.
--
-- A search marks and scans the clusters that `top_ivf_centroids` names, a scan offers the rows of
-- a cluster to the state, and the state keeps the five nearest, ties by id. `IsNearest` says so of
-- the five places and a predicate on rows; every phase carries it from its clusters to more of
-- them. `IsLoaded` (the tables, and that blocks, labels and ids are all there), `IsBoxed` and
-- `CentroidsLaidOut` say what the search relies on in an index.
--
-- A Go panic (an index or a slice bound out of range) is `none`, and so is a scan of a cluster
-- whose unsafe reads could leave the blocks or the labels (`reads_inside`; a label is asked for
-- every row of the cluster, although the code reads it only for a row that it takes). Entries of
-- arrays whose range is settled are read with a default. Loops are recursion on the rounds that are
-- left. Where a round can move by more than one, the fuel is the number of blocks, of clusters, or
-- 63 doublings, and the theorems show that the loop ends within it. `int` values that count entries
-- are natural numbers; `int64` sums of squares stay far below 2 ^ 63, which is proved; 32-bit and
-- 16-bit wrap-around is written out. `bytes.Index` and `bytes.HasPrefix` are parameters.
--
-- `float32` and `float64` are two values of the record `Float`; what a theorem needs of one is the
-- hypothesis `Rounds`: `<` is irreflexive, 1 is not below 0, and a value between 0 and 1 (or NaN),
-- scaled and rounded, fits the quantised range. `sort.Slice` is an insertion sort; the comparisons
-- order any two different elements, so every sort gives the same list. `balancedSplit` halves the
-- number of clusters in each call and has that number as its fuel, which is more than the depth.
--
-- The search for a merchant has as its fuel the length of the section and two more.
--
-- Not modelled: `Vectorize` and `VectorizeJSON`, which fill `float32`, the exact searcher, errors
-- of the operating system, advice to the kernel about a mapping, the reader of compressed
-- references, the HTTP router, the configuration, the commands, deployment.
pub mod Build
pub mod Calendar
pub mod File
pub mod Float
pub mod Ivf
pub mod JsonScan
pub mod Load
pub mod Prelude
pub mod Quantize
pub mod Quantized
pub mod Sort
pub mod Tests
pub mod Vectorize

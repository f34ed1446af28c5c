-- ===== src/Lib.antt =====
-- jude: the distributed core of a multimodal data engine
--
-- The Python package python/jude drives Ray workers over partitions of a table. This library
-- models its pure core, as functions on lists, and proves what makes it correct.
--
-- Parts, and where they are modelled:
--   Prelude     shared names: lists on native numbers, tests, `do`, equality, dictionaries.
--   Graph       the specification of clusterings: connection by edges, least vertices.
--   Dedup       fuzzy deduplication. UnionFind is `_UnionFind` of python/jude/curate_dist.py
--               with the driver's loops over it; FuzzyEdges is the reducer
--               `curate_fuzzy_edges_bucket` of python/jude/runners/_ray_shim.py; Shuffle has
--               `_det_hash` and the buckets; Fuzzy is `dist_fuzzy_dedup` with its producer
--               `curate_minhash_edges`; Exact is the exact dedup of python/jude/curate.py,
--               python/jude/curate_dist.py and python/jude/incremental_dedup.py; Image is
--               `dist_image_dedup` with its producer and reducer; Propagation is label propagation,
--               python/jude/dist_cc.py; Substring is `substring_dedup` of python/jude/curate.py with its
--               distributed form. Their children hold the proofs.
--   Dispatch    `run_bounded` and `run_bounded_admission` of python/jude/runners/_ray_shim.py.
--   Packing     row ranges and shards of python/jude/training_format.py, `rechunk` of
--               python/jude/execution/_common.py, and `tokenize`, `pack_sequences` and
--               `write_shuffled_shards` of python/jude/tokenize.py.
--   Mixing      `dist_global_shuffle` of python/jude/curate_dist.py with its scatter and gather.
--   Worker      the worker process of python/jude/execution/_worker.py: the frames between driver
--               and worker, and its loop.
--   Texts       string methods of Python on lists of characters.
--   Lines       the line filters of python/jude/curate.py.
--   Observe     the query handles and context managers of python/jude/observe.py, with the audit
--               log that they write.
--   Catalog     the registry of python/jude/catalog.py: registration, discovery, lookup.
--   Cardinality `HyperLogLog` of python/jude/profile.py and the loop of `profile` that feeds it.
--   Tests       runs at small inputs.
--
-- How they interact: the producer routes the rows of each partition into buckets, the reducer
-- of a bucket emits edges between near-duplicates, and the union-find of the driver turns the
-- edges of all buckets into labels; with `cc_workers`, label propagation does that on shards. The dispatch loops run the tasks of the drivers.
-- User functions run in worker processes, which are fed by frames.
--
-- Parameters: the MinHash signatures, band keys and their similarity, the content, token and
-- perceptual hashes and the resource manager (Rust core), the tokenizer, numpy's generators,
-- and Ray: a reference is a value, `ray.get` a function of it, and `ray.wait` picks any
-- reference that it is given. A table is the list of its rows. White space, line breaks
-- and `str.lower` are arguments too, and the file system is what `os.path` and `os.listdir` answer,
-- where the latter may raise.
--
-- Fuel and bounds: `_UnionFind.find` runs on the size of its array, as each step to a parent
-- goes to a smaller index; `run_bounded` and `run_bounded_admission` run on one round for each
-- task and one more, as each round finishes one; a read of `n` bytes runs on `n` rounds, as
-- each returns a byte at least; the worker's loop runs on one round for each byte. The loop of
-- `HyperLogLog.add` runs 64 rounds, as a bit that is set is at the top by then. Label
-- propagation runs `max_rounds` rounds, as in the code. `_det_hash` keeps its 64-bit
-- wrap-around.
--
-- Not modelled: I/O, the SQL engine and the Rust core, orchestration of Ray actors, decoders
-- and model calls, the metrics summary and server, and search.
pub mod Prelude
pub mod Graph
pub mod Dedup
pub mod Dispatch
pub mod Packing
pub mod Mixing
pub mod Worker
pub mod Observe
pub mod Cardinality
pub mod Catalog
pub mod Texts
pub mod Lines
pub mod Tests

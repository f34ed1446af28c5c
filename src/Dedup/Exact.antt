-- ===== src/Dedup/Exact.antt =====
-- Exact deduplication: `exact_dedup` of python/jude/curate.py, its distributed form
-- (`dist_exact_dedup` of python/jude/curate_dist.py with `curate_hash_bucketize` and
-- `curate_exact_dedup_bucket` of python/jude/runners/_ray_shim.py), and the persistent index of
-- python/jude/incremental_dedup.py. A row is any type; its content hash, which the Rust core
-- computes, is an argument: the digits of a hexadecimal number, or none for a missing text.
pub mod First
pub mod Shuffled
pub mod Index
use jude.Prelude.{
  ℕ, zero, suc, ◌>>=◌, ◌+◌, ◌*◌, ◌%◌, Bool, true, false, Option, none, some, List, [], ◌∷◌, ◌++◌,
  length, map, take, concat, if◌then◌else◌, leb, contains, Eq, nat_eq, list_eq,
}
use jude.Dedup.Shuffle.{push, no_rows, gather}

-- The digits of the hexadecimal content hash.
abbrev pub Hash : Type 0
Hash = List ℕ

-- int(digits, 16), after the digits that `acc` stands for
unfoldable pub hex_value : ℕ → List ℕ → ℕ
hex_value acc [] = acc
hex_value acc (digit ∷ digits) = hex_value (acc * 16 + digit) digits

-- `(int(h[:8], 16) % num_buckets) if h else (i % num_buckets)`
unfoldable pub bucket_of : ℕ → ℕ → Option Hash → ℕ
unfolding hex_value
bucket_of num_buckets i none = i % num_buckets
bucket_of num_buckets i (some []) = i % num_buckets
bucket_of num_buckets i (some (d ∷ ds)) = hex_value 0 (take 8 (d ∷ ds)) % num_buckets

module _ {A : Type 0} where
  -- The row with the hash column, if it is kept.
  unfoldable pub with_column : Bool → A × Hash → A × Option Hash
  with_column keep_hash (row, h) = (row, if keep_hash then some h else none)

  -- The loop that keeps the first row of each hash, and the hashes it has seen.
  unfoldable pub keep_new : List Hash → List (A × Option Hash) → List (A × Hash)
  keep_new seen [] = []
  keep_new seen ((row, none) ∷ rows) = keep_new seen rows
  keep_new seen ((row, some h) ∷ rows) =
      let skipped = keep_new seen rows in
      let kept = keep_new (h ∷ seen) rows in if contains h seen then skipped else (row, h) ∷ kept

  -- `for i, h in enumerate(hashes)`, from `i` on.
  unfoldable pub bucketize :
      ℕ → ℕ → List (A × Option Hash) → List (List (A × Option Hash)) → List (List (A × Option Hash))
  unfolding bucket_of
  bucketize num_buckets i [] buckets = buckets
  bucketize num_buckets i ((row, h) ∷ rows) buckets =
      bucketize num_buckets (suc i) rows (push (bucket_of num_buckets i h) (row, h) buckets)

  unfoldable pub curate_exact_dedup_bucket : List (A × Option Hash) → Bool → List (A × Option Hash)
  unfolding with_column keep_new
  curate_exact_dedup_bucket merged keep_hash = map (with_column keep_hash) (keep_new [] merged)

  -- The reducers of the buckets `bkt`, `bkt + 1` and so on, joined.
  unfoldable pub reduce_buckets :
      ℕ → ℕ → List (List (List (A × Option Hash))) → Bool → List (A × Option Hash)
  unfolding curate_exact_dedup_bucket
  reduce_buckets bkt zero refs keep_hash = []
  reduce_buckets bkt (suc count) refs keep_hash =
      curate_exact_dedup_bucket (gather bkt refs) keep_hash
      ++ reduce_buckets (suc bkt) count refs keep_hash

  module _ (content_hash : A → Option Hash) where
    -- The rows with their hashes, `content_hash_batch`.
    abbrev pub hashed_rows : List A → List (A × Option Hash)
    hashed_rows rows = map (λ row. (row, content_hash row)) rows

    unfoldable pub exact_dedup : List A → Bool → List (A × Option Hash)
    unfolding with_column keep_new
    exact_dedup table keep_hash = map (with_column keep_hash) (keep_new [] (hashed_rows table))

    unfoldable pub curate_hash_bucketize : List A → ℕ → List (List (A × Option Hash))
    unfolding bucketize no_rows
    curate_hash_bucketize table num_buckets =
        bucketize num_buckets 0 (hashed_rows table) (no_rows num_buckets)

    unfoldable pub dist_exact_dedup : List (List A) → ℕ → Bool → List (A × Option Hash)
    unfolding curate_hash_bucketize reduce_buckets
    dist_exact_dedup parts b keep_hash =
        reduce_buckets 0 b (map (λ part. curate_hash_bucketize part b) parts) keep_hash

-- The hashes in memory, and whether there is a path to save them to.
pub record HashIndex : Type 0 where
  pub has_path : Bool
  pub seen : List Hash

-- The dataset at the path: none if it cannot be read.
abbrev pub Dataset : Type 0
Dataset = Option (List Hash)

unfoldable pub load : Dataset → HashIndex → HashIndex
load none idx = record idx { seen = [] }
load (some hashes) idx = record idx { seen = hashes }

-- sorted(self._seen), by the order of the strings
unfoldable pub hash_le : Hash → Hash → Bool
hash_le [] ys = true
hash_le (x ∷ xs) [] = false
hash_le (x ∷ xs) (y ∷ ys) =
    let rest = hash_le xs ys in if leb x y then if leb y x then rest else true else false

unfoldable pub insert_sorted : Hash → List Hash → List Hash
unfolding hash_le
insert_sorted h [] = h ∷ []
insert_sorted h (k ∷ hs) =
    let rest = insert_sorted h hs in if hash_le h k then h ∷ k ∷ hs else k ∷ rest

unfoldable pub sorted : List Hash → List Hash
unfolding insert_sorted
sorted [] = []
sorted (h ∷ hs) = insert_sorted h (sorted hs)

-- The dataset after the call; `none` is the ValueError of an index without a path.
unfoldable pub save : HashIndex → Option Dataset
unfolding sorted
save idx = if idx.has_path then some (some (sorted idx.seen)) else none

module _ {A : Type 0} where
  -- What `add` has seen at the end: the hashes of the kept rows.
  unfoldable pub seen_after : List Hash → List (A × Hash) → List Hash
  seen_after seen [] = seen
  seen_after seen ((row, h) ∷ kept) = seen_after (h ∷ seen) kept

  module _ (content_hash : A → Option Hash) where
    -- `HashIndex.add`: the rows whose hash is new, and the index after them.
    unfoldable pub add_table : HashIndex → List A → Bool → HashIndex × List (A × Option Hash)
    unfolding keep_new seen_after with_column
    add_table idx table keep_hash =
        let kept = keep_new idx.seen (hashed_rows content_hash table) in
        (record idx { seen = seen_after idx.seen kept }, map (with_column keep_hash) kept)

    -- `h is not None and h in self._seen`
    unfoldable pub is_seen : List Hash → Option Hash → Bool
    is_seen seen none = false
    is_seen seen (some h) = contains h seen

    -- `HashIndex.contains`
    unfoldable pub contains_rows : HashIndex → List A → List Bool
    unfolding is_seen
    contains_rows idx table = map (λ row. is_seen idx.seen (content_hash row)) table

    -- The novel rows, and the dataset after the call.
    unfoldable pub incremental_dedup : List A → Dataset → Option (List (A × Option Hash) × Dataset)
    unfolding load add_table save
    incremental_dedup new_table stored =
        let (idx, novel) =
          add_table (load stored (record { has_path = true; seen = [] })) new_table false in
        do stored' ← save idx; some (novel, stored')

-- ===== src/Mixing.antt =====
-- The global shuffle: `dist_global_shuffle` of python/jude/curate_dist.py with
-- `curate_shuffle_scatter` and `curate_shuffle_gather` of python/jude/runners/_ray_shim.py. numpy's
-- generators are arguments: `integers` is `default_rng(seed).integers(0, high, size)`, and
-- `permutation` is `default_rng(seed).permutation(n)`, each by its seed. `none` stands for an
-- index outside a table.
pub mod Kept
use Prim.Native.Nat.{bit_xor}
use jude.Prelude.{
  ℕ, zero, suc, ◌+◌, ◌*◌, ◌^◌, Option, none, some, List, [], ◌∷◌, ◌++◌, length, map, if◌then◌else◌,
  ◌==◌, ◌>>=◌,
}
use jude.Dedup.Shuffle.{gather}
use jude.Packing.{take_rows}

-- The rows whose number in `assign` is `b`: `t.take(np.nonzero(assign == b)[0])`.
unfoldable pub rows_of {ℓ} : {A : Type ℓ} → ℕ → List ℕ → List A → List A
rows_of b [] rows = []
rows_of b (n ∷ assign) [] = []
rows_of b (n ∷ assign) (row ∷ rows) =
    let rest = rows_of b assign rows in if n == b then row ∷ rest else rest

-- `for b in range(num_buckets)`, for `count` buckets from `b` on.
unfoldable pub scatter_from {ℓ} : {A : Type ℓ} → ℕ → ℕ → List ℕ → List A → List (List A)
unfolding rows_of
scatter_from b zero assign rows = []
scatter_from b (suc count) assign rows =
    rows_of b assign rows ∷ scatter_from (suc b) count assign rows

module _ (integers : ℕ → ℕ → ℕ → List ℕ) (permutation : ℕ → ℕ → List ℕ) {A : Type 0} where
  unfoldable pub curate_shuffle_scatter : List A → ℕ → ℕ → ℕ → List (List A)
  unfolding scatter_from
  curate_shuffle_scatter table num_buckets seed part_id =
      scatter_from 0 num_buckets
        (integers (bit_xor (seed * 2 ^ 20) part_id) num_buckets (length table)) table

  unfoldable pub curate_shuffle_gather : List A → ℕ → ℕ → Option (List A)
  unfolding take_rows
  curate_shuffle_gather [] seed bucket_id = some []
  curate_shuffle_gather (row ∷ rows) seed bucket_id =
      take_rows (row ∷ rows)
        (permutation (bit_xor (seed * 2 ^ 20) (bucket_id + 0x9E3779B9)) (length (row ∷ rows)))

  -- `refs`, for the parts from number `i` on.
  unfoldable pub scatter_parts : ℕ → ℕ → ℕ → List (List A) → List (List (List A))
  unfolding curate_shuffle_scatter
  scatter_parts i b seed [] = []
  scatter_parts i b seed (part ∷ parts) =
      curate_shuffle_scatter part b seed i ∷ scatter_parts (suc i) b seed parts

  -- The reducers of `count` buckets from `bkt` on, joined.
  unfoldable pub gather_buckets : ℕ → ℕ → ℕ → List (List (List A)) → Option (List A)
  unfolding curate_shuffle_gather
  gather_buckets bkt zero seed refs = some []
  gather_buckets bkt (suc count) seed refs = do
    rows ← curate_shuffle_gather (gather bkt refs) seed bkt
    rest ← gather_buckets (suc bkt) count seed refs
    some (rows ++ rest)

  unfoldable pub dist_global_shuffle : List (List A) → ℕ → ℕ → Option (List A)
  unfolding scatter_parts gather_buckets
  dist_global_shuffle parts b seed = gather_buckets 0 b seed (scatter_parts 0 b seed parts)

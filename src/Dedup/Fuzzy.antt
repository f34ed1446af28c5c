-- ===== src/Dedup/Fuzzy.antt =====
-- `dist_fuzzy_dedup` of python/jude/curate_dist.py with its producer `curate_minhash_edges` of
-- python/jude/runners/_ray_shim.py. A text is any type; the MinHash signature and the LSH band keys
-- of a text, which the Rust core computes, are arguments, and so is the partition of the table.
-- A band key is the list of its UTF-8 bytes.
pub mod Producer
pub mod Shuffled
pub mod Edges
pub mod Clusters
pub mod Workers
use jude.Prelude.{
  ℕ, zero, suc, ◌+◌, ◌-◌, ◌/◌, ◌%◌, Bool, true, false, Option, none, some, List, [], ◌∷◌, ◌++◌,
  length, map, concat, get_elem?, get_or, if◌then◌else◌, ◌==◌, ltb, Eq, nat_eq, list_eq, pair_eq,
  contains, ◌>>=◌, lookup, get_default,
}
use jude.Graph.{Edge}
use jude.Dedup.UnionFind.{representatives, range_from}
use jude.Dedup.Propagation.{connected_components}
use jude.Dedup.Shuffle.{det_hash, push, no_rows, gather}
use jude.Dedup.FuzzyEdges.{Row, curate_fuzzy_edges_bucket}

-- The UTF-8 bytes of a band key.
abbrev pub Key : Type 0
Key = List ℕ

unfoldable pub decimal : ℕ → ℕ → List ℕ
decimal zero n = []
decimal (suc fuel) n =
    let rest = decimal fuel (n / 10) in
    if ltb n 10 then (48 + n) ∷ [] else rest ++ (48 + n % 10) ∷ []

-- f"_row{rid}"
unfoldable pub row_key : ℕ → Key
unfolding decimal
row_key rid = b'_' ∷ b'r' ∷ b'o' ∷ b'w' ∷ decimal (suc rid) rid

-- `keys if keys else [f"_row{rid}"]`
unfoldable pub keys_or_own : ℕ → List Key → List Key
unfolding row_key
keys_or_own rid [] = row_key rid ∷ []
keys_or_own rid (key ∷ keys) = key ∷ keys

module _ {Sig : Type 0} where
  -- `for key in ks`, with `seen_bkt`.
  unfoldable pub route_keys :
      ℕ
      → ℕ
      → Sig
      → List Key
      → List (ℕ × Key)
      → List (List (Row Key Sig))
      → List (List (Row Key Sig))
  route_keys num_buckets rid sig [] seen_bkt buckets = buckets
  route_keys num_buckets rid sig (key ∷ keys) seen_bkt buckets =
      let bkt = det_hash key % num_buckets in
      let skipped = route_keys num_buckets rid sig keys seen_bkt buckets in
      let routed =
        route_keys num_buckets rid sig keys ((bkt, key) ∷ seen_bkt)
          (push bkt (record { rid = rid; key = key; sig = sig }) buckets) in
      if contains (bkt, key) seen_bkt then skipped else routed

module _ {Text Sig : Type 0} (signature : Text → Sig) (band_keys : Sig → List Key) where
  -- `for i, keys in enumerate(band_keys)`, from the row `rid` on.
  unfoldable pub route_rows :
      ℕ → ℕ → List Text → List (List (Row Key Sig)) → List (List (Row Key Sig))
  unfolding route_keys
  route_rows num_buckets rid [] buckets = buckets
  route_rows num_buckets rid (text ∷ texts) buckets =
      let sig = signature text in
      route_rows num_buckets (suc rid) texts
        (route_keys num_buckets rid sig (keys_or_own rid (band_keys sig)) [] buckets)

  unfoldable pub curate_minhash_edges : List Text → ℕ → ℕ → List (List (Row Key Sig))
  unfolding route_rows no_rows
  curate_minhash_edges texts num_buckets row_offset =
      route_rows num_buckets row_offset texts (no_rows num_buckets)

  -- `refs`, with the offsets that the loop over `parts` adds up.
  unfoldable pub produce : ℕ → ℕ → List (List Text) → List (List (List (Row Key Sig)))
  unfolding curate_minhash_edges
  produce num_buckets offset [] = []
  produce num_buckets offset (part ∷ parts) =
      curate_minhash_edges part num_buckets offset
      ∷ produce num_buckets (offset + length part) parts

module _ {Sig : Type 0} ⦃sig_eq : Eq Sig⦄ (similar : Sig → Sig → Bool) where
  -- `edge_refs`: the edges of the buckets `bkt`, `bkt + 1` and so on.
  unfoldable pub bucket_edges : ℕ → ℕ → List (List (List (Row Key Sig))) → List (List Edge)
  unfolding gather curate_fuzzy_edges_bucket
  bucket_edges bkt zero refs = []
  bucket_edges bkt (suc count) refs =
      curate_fuzzy_edges_bucket similar (gather bkt refs) ∷ bucket_edges (suc bkt) count refs

-- What the call returns: every row with its cluster (`keep_cluster`), or the rows that are kept.
pub data Output (Text : Type 0) : Type 0 where
  annotated : List (Text × ℕ) → Output Text
  kept : List Text → Output Text

-- `[i for i in range(n) if reps[i] == i]`, from `i` on, and the rows that `take` finds there.
unfoldable pub representative_rows {ℓ} : {A : Type ℓ} → ℕ → List A → List ℕ → List A
representative_rows i [] reps = []
representative_rows i (row ∷ rows) [] = []
representative_rows i (row ∷ rows) (rep ∷ reps) =
    let rest = representative_rows (suc i) rows reps in if rep == i then row ∷ rest else rest

-- `table.append_column("dup_cluster", reps)`
unfoldable pub append_column {ℓ} : {A : Type ℓ} → List A → List ℕ → List (A × ℕ)
append_column [] reps = []
append_column (row ∷ rows) [] = []
append_column (row ∷ rows) (rep ∷ reps) = (row, rep) ∷ append_column rows reps

module _ {Text Sig : Type 0} ⦃sig_eq : Eq Sig⦄ (signature : Text → Sig) (band_keys : Sig → List Key)
    (similar : Sig → Sig → Bool) where
  -- `reps`, the representative of every row of the table.
  unfoldable pub dist_fuzzy_reps : ℕ → List (List Text) → Option (List ℕ)
  unfolding produce bucket_edges representatives
  dist_fuzzy_reps b parts =
      representatives (length (concat parts))
        (concat (bucket_edges similar 0 b (produce signature band_keys b 0 parts)))

  -- `label = connected_components(edge_refs, num_workers=cc_workers)`, with its default of 100
  -- rounds, and `[label.get(i, i) for i in range(n)]`.
  unfoldable pub dist_fuzzy_cc_reps : ℕ → ℕ → List (List Text) → Option (List ℕ)
  unfolding produce bucket_edges connected_components
  dist_fuzzy_cc_reps cc_workers b parts = do
    label ←
        connected_components cc_workers 100
          (map some (bucket_edges similar 0 b (produce signature band_keys b 0 parts)))
    some (map (λ i. get_default (lookup i label) i) (range_from 0 (length (concat parts))))

  -- `cc_workers` is 0 where the caller gives none.
  unfoldable pub dist_fuzzy_dedup : ℕ → ℕ → Bool → List (List Text) → Option (Output Text)
  unfolding dist_fuzzy_reps dist_fuzzy_cc_reps representative_rows append_column
  dist_fuzzy_dedup b cc_workers keep_cluster parts = do
    reps ←
        if ltb 0 cc_workers then dist_fuzzy_cc_reps cc_workers b parts else dist_fuzzy_reps b parts
    some (
        if keep_cluster
        then annotated (append_column (concat parts) reps)
        else kept (representative_rows 0 (concat parts) reps))

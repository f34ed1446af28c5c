-- ===== src/Packing.antt =====
-- How rows and tokens are cut into pieces: `_shard_row_ranges` and `write_sharded_parquet` of
-- python/jude/training_format.py, `rechunk` of python/jude/execution/_common.py, and `tokenize`,
-- `pack_sequences` and `write_shuffled_shards` of python/jude/tokenize.py. A table is the list of
-- its rows. The tokenizer and numpy's permutation are arguments. `none` stands for the ValueError
-- of a `range` with step 0.
pub mod Slices
pub mod Sequences
pub mod Shuffled
use jude.Prelude.{
  ℕ, zero, suc, ◌+◌, ◌-◌, ◌*◌, ◌/◌, Bool, true, false, Option, none, some, List, [], ◌∷◌, ◌++◌,
  length, map, take, drop, get_elem?, replicate, min, max, if◌then◌else◌, ltb, leb, ◌==◌, ◌>>=◌, ℤ,
  pos, negsuc,
}

-- list(range(start, stop, step)), for a positive step; a round for each number below `stop` is
-- enough.
unfoldable pub range_step : ℕ → ℕ → ℕ → ℕ → List ℕ
range_step zero start stop step = []
range_step (suc fuel) start stop step =
    let rest = range_step fuel (start + step) stop step in
    if ltb start stop then start ∷ rest else []

-- table.slice(start, count), and xs[start : start + count]
abbrev pub slice {ℓ} : {A : Type ℓ} → ℕ → ℕ → List A → List A
slice start count rows = take count (drop start rows)

unfoldable pub shard_row_ranges : ℕ → ℕ → List (ℕ × ℕ)
unfolding range_step
shard_row_ranges n rows_per_shard =
    let rps = max 1 rows_per_shard in map (λ s. (s, min rps (n - s))) (range_step n 0 n rps)

-- The rows of each shard.
unfoldable pub write_sharded_parquet {ℓ} : {A : Type ℓ} → List A → ℕ → List (List A)
unfolding shard_row_ranges
write_sharded_parquet table rows_per_shard =
    map (λ r. slice r.0 r.1 table) (shard_row_ranges (length table) rows_per_shard)

-- `out or [table]`
abbrev pub or_whole {ℓ} : {A : Type ℓ} → List (List A) → List A → List (List A)
or_whole [] table = table ∷ []
or_whole (part ∷ parts) table = part ∷ parts

unfoldable pub rechunk {ℓ} : {A : Type ℓ} → List A → Option ℕ → List (List A)
unfolding range_step
rechunk table none = table ∷ []
rechunk table (some batch_size) =
    let n = length table in
    if batch_size == 0
    then table ∷ []
    else or_whole
        (map (λ start. slice start (min batch_size (n - start)) table)
          (range_step n 0 n batch_size))
        table

module _ {Token : Type 0} where
  unfoldable pub eos_or : Option Token → Option Token → Option Token
  eos_or none default_eos = default_eos
  eos_or (some e) default_eos = some e

  unfoldable pub add_eos_to : Bool → Option Token → List Token → List Token
  add_eos_to true (some e) ids = ids ++ e ∷ []
  add_eos_to true none ids = ids
  add_eos_to false eos ids = ids

-- `t or ""`, for a missing text
abbrev pub text_or : {Text : Type 0} → Text → Option Text → Text
text_or empty none = empty
text_or empty (some t) = t

module _ {Text Token : Type 0} where
  -- The new columns `input_ids` and `n_tokens`.
  unfoldable pub tokenize :
      (Text → List Token)
      → Text
      → Option Token
      → Bool
      → Option Token
      → List (Option Text)
      → List (List Token × ℕ)
  unfolding eos_or add_eos_to
  tokenize enc empty default_eos add_eos eos_id [] = []
  tokenize enc empty default_eos add_eos eos_id (t ∷ texts) =
      let ids = add_eos_to add_eos (eos_or eos_id default_eos) (enc (text_or empty t)) in
      (ids, length ids) ∷ tokenize enc empty default_eos add_eos eos_id texts

-- A packed sequence: its `input_ids` and its `doc_ids`.
pub record Packed (Token : Type 0) : Type 0 where
  pub input_ids : List Token
  pub doc_ids : List ℤ

module _ {Token : Type 0} where
  -- `all_tok` and `all_doc`, from the document `di` on.
  unfoldable pub all_tok : List (Option (List Token)) → List Token
  all_tok [] = []
  all_tok (none ∷ docs) = all_tok docs
  all_tok (some ids ∷ docs) = ids ++ all_tok docs

  unfoldable pub all_doc : ℕ → List (Option (List Token)) → List ℤ
  all_doc di [] = []
  all_doc di (none ∷ docs) = all_doc (suc di) docs
  all_doc di (some ids ∷ docs) = replicate (length ids) (pos di) ++ all_doc (suc di) docs

  -- The loop over `range(0, n, seq_len)`, with `break` at a short window that is dropped.
  unfoldable pub windows : ℕ → Bool → Token → List Token → List ℤ → List ℕ → List (Packed Token)
  windows seq_len drop_remainder pad_id toks docs [] = []
  windows seq_len drop_remainder pad_id toks docs (i ∷ starts) =
      let chunk = slice i seq_len toks in
      let dchunk = slice i seq_len docs in
      let rest = windows seq_len drop_remainder pad_id toks docs starts in
      if ltb (length chunk) seq_len
      then if drop_remainder
        then []
        else record {
          input_ids = chunk ++ replicate (seq_len - length chunk) pad_id;
          doc_ids = dchunk ++ replicate (seq_len - length dchunk) (negsuc 0);
        }
          ∷ rest
      else record { input_ids = chunk; doc_ids = dchunk } ∷ rest

  unfoldable pub pack_sequences :
      List (Option (List Token)) → ℕ → Bool → Token → Option (List (Packed Token))
  unfolding range_step all_tok all_doc windows
  pack_sequences table seq_len drop_remainder pad_id =
      let toks = all_tok table in
      let n = length toks in
      if seq_len == 0
      then none
      else some
          (windows seq_len drop_remainder pad_id toks (all_doc 0 table) (range_step n 0 n seq_len))

-- table.take(indices); `none` for an index outside the table
unfoldable pub take_rows {ℓ} : {A : Type ℓ} → List A → List ℕ → Option (List A)
take_rows table [] = some []
take_rows table (i ∷ indices) = do
  row ← get_elem? table i
  rows ← take_rows table indices
  some (row ∷ rows)

-- The loop over `range(ns)` from `s` on, with `break` where no row is left.
unfoldable pub shards_from {ℓ} : {A : Type ℓ} → ℕ → ℕ → ℕ → List A → List (List A)
shards_from s zero per shuffled = []
shards_from s (suc count) per shuffled =
    let n = length shuffled in
    let lo = s * per in
    let rest = shards_from (suc s) count per shuffled in
    if leb n lo then [] else slice lo (min per (n - lo)) shuffled ∷ rest

unfoldable pub write_shuffled_shards {ℓ} :
    {A : Type ℓ} → (ℕ → List ℕ) → List A → ℕ → Option (List (List A))
unfolding take_rows shards_from
write_shuffled_shards permutation table n_shards = do
  shuffled ← take_rows table (permutation (length table))
  let ns = max 1 n_shards in some (shards_from 0 ns ((length table + ns - 1) / ns) shuffled)

-- ===== src/Packing/Slices.antt =====
-- The pieces of a table that is cut at the multiples of a step: `write_sharded_parquet` of
-- python/jude/training_format.py and `rechunk` of python/jude/execution/_common.py.
use jude.Prelude.{
  ℕ, zero, suc, ◌+◌, ◌-◌, ◌*◌, ◌≤◌, ◌<◌, ◌≡◌, sym, ap, ap₂, ◌∙◌, Option, none, some, List, [], ◌∷◌,
  ◌++◌, length, map, take, drop, concat, get_elem?, min, max, if◌then◌else◌, if-elim, Bool-cases,
  inl, inr, ltb→lt, ltb, ◌==◌, arith, subst, get_elem?_of_map, map-map, append-nil, take-min,
  drop-drop, drop-all, take-append-drop, length-take, length-drop,
}
use jude.Packing.{range_step, slice, shard_row_ranges, write_sharded_parquet, or_whole, rechunk}

-- The numbers of a range.
pub get_elem?-range_step :
    (fuel start stop step i : ℕ) {s : ℕ}
    → get_elem? (range_step fuel start stop step) i ≡ some s
    → (s ≡ start + i * step) × (s < stop)
unfolding range_step
get_elem?-range_step zero start stop step i h = cc
get_elem?-range_step (suc fuel) start stop step i {s} h = elim (Bool-cases (ltb start stop)) [
  | inl t ↦
      found i (range_step fuel (start + step) stop step)
        (subst
          (λ b.
            get_elem? (if b then start ∷ range_step fuel (start + step) stop step else []) i
            ≡ some s)
          t h)
        (λ j g. get_elem?-range_step fuel (start + step) stop step j g) (ltb→lt start stop t)
  | inr f ↦ cc (
      subst
        (λ b.
          get_elem? (if b then start ∷ range_step fuel (start + step) stop step else []) i ≡ some s)
        f h)
]
  where
    found :
        (j : ℕ) (rest : List ℕ)
        → get_elem? {A = ℕ} (start ∷ rest) j ≡ some s
        → ((k : ℕ) → get_elem? rest k ≡ some s → (s ≡ start + step + k * step) × (s < stop))
        → start < stop
        → (s ≡ start + j * step) × (s < stop)
    found zero rest g ih l = let q : start ≡ s = ground arith in (omega arith, omega arith)
    found (suc j) rest g ih l = let (e, b) = ih j g in (grind arith, b)

module _ {ℓ} {A : Type ℓ} where
  -- A slice that stops at the end of the list.
  pub slice-min :
      (start step : ℕ) (xs : List A)
      → slice start (min step (length xs - start)) xs ≡ slice start step xs
  slice-min start step xs =
      subst (λ v. take (min step v) (drop start xs) ≡ take step (drop start xs))
        (length-drop start xs) (take-min step (drop start xs))

  -- A slice, and what follows it.
  pub slice-append-drop :
      (start step : ℕ) (xs : List A) → slice start step xs ++ drop (start + step) xs ≡ drop start xs
  slice-append-drop start step xs =
      ap (λ v. slice start step xs ++ v) (sym (drop-drop start step xs))
      ∙ take-append-drop step (drop start xs)

  -- The slices at the numbers of a range, joined.
  pub concat-slices :
      (step : ℕ)
      → 0 < step
      → (xs : List A) (fuel start : ℕ) → length xs ≤ start + fuel
      → concat (
          map (λ s. slice s (min step (length xs - s)) xs) (range_step fuel start (length xs) step))
        ≡ drop start xs
  unfolding range_step
  concat-slices step h xs zero start l = sym (drop-all start xs (omega arith))
  concat-slices step h xs (suc fuel) start l =
      if-elim (λ ss. concat (map (λ s. slice s (min step (length xs - s)) xs) ss) ≡ drop start xs)
        (ltb start (length xs))
        (λ t.
          let rest = concat-slices step h xs fuel (start + step) (omega arith) in
          ap₂ (λ l r. l ++ r) (slice-min start step xs) rest ∙ slice-append-drop start step xs)
        (λ t. sym (drop-all start xs (ground arith)))

  -- Each slice has the length of the step, but for what is left at the end.
  length-slices :
      (step fuel : ℕ) (xs : List A) (i : ℕ) {part : List A}
      → 0 < step
      → get_elem?
          (map (λ s. slice s (min step (length xs - s)) xs) (range_step fuel 0 (length xs) step))
          i
        ≡ some part
      → (length part ≡ min step (length xs - i * step)) × (0 < length part)
  length-slices step fuel xs i {part} h g =
      let (s, at, e) =
        get_elem?_of_map (λ s. slice s (min step (length xs - s)) xs)
          (range_step fuel 0 (length xs) step) i g in
      let (q, l) = get_elem?-range_step fuel 0 (length xs) step i at in
      let n : length part ≡ min (min step (length xs - s)) (length (drop s xs)) =
        subst (λ v. length v ≡ min (min step (length xs - s)) (length (drop s xs))) e
          (length-take (min step (length xs - s)) (drop s xs)) in
      let m = length-drop s xs in
      let r : length part ≡ min step (length xs - s) = omega arith in
      (subst (λ v. length part ≡ min step (length xs - v)) (q ∙ omega arith) r, omega arith)

write_sharded_parquet-slices {ℓ} :
    {A : Type ℓ} (table : List A) (rows_per_shard : ℕ)
    → (let rps = max 1 rows_per_shard in
        write_sharded_parquet table rows_per_shard
        ≡ map
            (λ s. slice s (min rps (length table - s)) table)
            (range_step (length table) 0 (length table) rps))
unfolding write_sharded_parquet shard_row_ranges
write_sharded_parquet-slices table rows_per_shard =
    let rps = max 1 rows_per_shard in
    let n = length table in
    map-map (λ (r : ℕ × ℕ). slice r.0 r.1 table) (λ s. (s, min rps (n - s))) (range_step n 0 n rps)

-- The shards of `write_sharded_parquet`, joined, are the table.
pub write_sharded_parquet-concat {ℓ} :
    {A : Type ℓ} (table : List A) (rows_per_shard : ℕ)
    → concat (write_sharded_parquet table rows_per_shard) ≡ table
write_sharded_parquet-concat table rows_per_shard =
    ap concat (write_sharded_parquet-slices table rows_per_shard)
    ∙ concat-slices (max 1 rows_per_shard) (omega arith) table (length table) 0 (omega arith)

-- A shard of `write_sharded_parquet` has `rows_per_shard` rows (at least 1), or what the shards
-- before it have left, and is not empty.
pub write_sharded_parquet-length {ℓ} :
    {A : Type ℓ} (table : List A) (rows_per_shard i : ℕ) (shard : List A)
    → get_elem? (write_sharded_parquet table rows_per_shard) i ≡ some shard
    → (length shard ≡ min (max 1 rows_per_shard) (length table - i * max 1 rows_per_shard))
      × (0 < length shard)
write_sharded_parquet-length table rows_per_shard i shard g =
    length-slices (max 1 rows_per_shard) (length table) table i (omega arith) (
      subst (λ v. get_elem? v i ≡ some shard) (write_sharded_parquet-slices table rows_per_shard) g)

-- The batches of `rechunk`, joined, are the table.
pub rechunk-concat {ℓ} :
    {A : Type ℓ} (table : List A) (batch_size : Option ℕ)
    → concat (rechunk table batch_size) ≡ table
unfolding rechunk or_whole
rechunk-concat {A = A} table none = append-nil table
rechunk-concat {A = A} table (some batch_size) =
    if-elim (λ v. concat v ≡ table) (batch_size == 0) (λ t. append-nil table)
      (λ t.
        concat-or_whole
          (map (λ start. slice start (min batch_size (length table - start)) table)
            (range_step (length table) 0 (length table) batch_size))
          (concat-slices batch_size (ground arith) table (length table) 0 (omega arith)))
  where
    concat-or_whole :
        (parts : List (List A)) → concat parts ≡ table → concat (or_whole parts table) ≡ table
    concat-or_whole [] h = append-nil table
    concat-or_whole (part ∷ parts) h = h

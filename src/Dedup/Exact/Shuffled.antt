-- ===== src/Dedup/Exact/Shuffled.antt =====
-- The distributed exact dedup against the single-node one.
use jude.Prelude.{
  ℕ, zero, suc, ◌+◌, ◌%◌, ◌≡◌, ◌≢◌, ◌≤◌, ◌<◌, refl, sym, ap, ap₂, ◌∙◌, Bool, true, false, Option,
  none, some, List, [], ◌∷◌, ◌++◌, length, map, take, concat, arith, subst, subst₂, All,
  if◌then◌else◌, ◌==◌, get_or, filter, filter-append, cut, cut-Perm, map-Perm, append-nil,
  append_assoc, mod-lt, map-append,
}
use mathlib.Core.List.{Permᴰ}
use jude.Dedup.Shuffle.{push, no_rows, gather, length-push, length-no_rows, get_or-push}
use jude.Dedup.Exact.{
  Hash, hex_value, bucket_of, with_column, keep_new, bucketize, curate_exact_dedup_bucket,
  reduce_buckets, hashed_rows, exact_dedup, curate_hash_bucketize, dist_exact_dedup,
}
use jude.Dedup.Exact.First.{hashed, hashed-append, keep_hashed, keep_new-hashed, keep_hashed-filter}

-- The bucket of a hash, for which the row's index does not matter.
abbrev hash_bucket : ℕ → Hash → ℕ
hash_bucket b h = hex_value 0 (take 8 h) % b

-- No row has the empty hash.
abbrev NonEmpty : {A : Type 0} → List (A × Option Hash) → Type 0
NonEmpty rows = All (λ r. r.1 ≢ some []) rows

bucket_of-some : (b i : ℕ) (h : Hash) → some h ≢ some [] → bucket_of b i (some h) ≡ hash_bucket b h
unfolding bucket_of
bucket_of-some b i [] n = absurd (n refl)
bucket_of-some b i (d ∷ ds) n = refl

bucket_of-lt : (b i : ℕ) (h : Option Hash) → 0 < b → bucket_of b i h < b
unfolding bucket_of
bucket_of-lt b i none pos = mod-lt i pos
bucket_of-lt b i (some []) pos = mod-lt i pos
bucket_of-lt b i (some (d ∷ ds)) pos = mod-lt (hex_value 0 (take 8 (d ∷ ds))) pos

module _ {A : Type 0} where
  hashed-if_none :
      (row : A) (t : Bool) (xs : List (A × Option Hash))
      → hashed (if t then xs ++ (row, none) ∷ [] else xs) ≡ hashed xs
  hashed-if_none row true xs = hashed-append xs ((row, none) ∷ []) ∙ append-nil (hashed xs)
  hashed-if_none row false xs = refl

  hashed-if_some :
      (row : A) (h : Hash) (t : Bool) (xs : List (A × Option Hash)) (ys : List (A × Hash))
      → hashed (if t then xs ++ (row, some h) ∷ [] else xs) ++ ys
        ≡ hashed xs ++ (if t then (row, h) ∷ ys else ys)
  hashed-if_some row h true xs ys =
      ap (λ v. v ++ ys) (hashed-append xs ((row, some h) ∷ []))
      ∙ append_assoc (hashed xs) ((row, h) ∷ []) ys
  hashed-if_some row h false xs ys = refl

module _ {A : Type 0} (b : ℕ) (pos : 0 < b) where
  -- The rows whose hashes belong to the bucket.
  abbrev of_bucket : ℕ → List (A × Hash) → List (A × Hash)
  of_bucket j rows = filter (λ r. hash_bucket b r.1 == j) rows

  hashed-bucketize :
      (rows : List (A × Option Hash)) (i j : ℕ) (bs : List (List (A × Option Hash)))
      → length bs ≡ b
      → NonEmpty rows
      → hashed (get_or (bucketize b i rows bs) j [])
        ≡ hashed (get_or bs j []) ++ of_bucket j (hashed rows)
  unfolding bucketize
  hashed-bucketize [] i j bs l n = sym (append-nil (hashed (get_or bs j [])))
  hashed-bucketize ((row, none) ∷ rows) i j bs l n =
      let bkt = bucket_of b i none in
      let at =
        get_or-push bkt (row, none) bs j
          (subst (λ v. bkt < v) (sym l) (bucket_of-lt b i none pos)) in
      let rest =
        hashed-bucketize rows (suc i) j (push bkt (row, none) bs)
          (length-push bkt (row, none) bs ∙ l) n.1 in
      rest
      ∙ ap (λ v. v ++ of_bucket j (hashed rows))
          (ap hashed at ∙ hashed-if_none row (bkt == j) (get_or bs j []))
  hashed-bucketize ((row, some h) ∷ rows) i j bs l n =
      let bkt = bucket_of b i (some h) in
      let at =
        get_or-push bkt (row, some h) bs j
          (subst (λ v. bkt < v) (sym l) (bucket_of-lt b i (some h) pos)) in
      let rest =
        hashed-bucketize rows (suc i) j (push bkt (row, some h) bs)
          (length-push bkt (row, some h) bs ∙ l) n.1 in
      let same = bucket_of-some b i h n.0 in
      let others = of_bucket j (hashed rows) in
      rest
      ∙ ap (λ v. hashed v ++ others) at
      ∙ hashed-if_some row h (bkt == j) (get_or bs j []) others
      ∙ ap (λ k. hashed (get_or bs j []) ++ (if k == j then (row, h) ∷ others else others)) same

  hashed-no_rows : (n j : ℕ) → hashed {A = A} (get_or (no_rows n) j []) ≡ []
  unfolding no_rows
  hashed-no_rows zero j = refl
  hashed-no_rows (suc n) zero = refl
  hashed-no_rows (suc n) (suc j) = hashed-no_rows n j

  module _ (content_hash : A → Option Hash) (full : (row : A) → content_hash row ≢ some []) where
    hashed_rows-NonEmpty : (rows : List A) → NonEmpty (hashed_rows content_hash rows)
    hashed_rows-NonEmpty [] = tt
    hashed_rows-NonEmpty (row ∷ rows) = (full row, hashed_rows-NonEmpty rows)

    -- A reducer gathers the rows of the whole table whose hashes belong to its bucket, in order.
    hashed-gather :
        (j : ℕ) (parts : List (List A))
        → hashed (gather j (map (λ part. curate_hash_bucketize content_hash part b) parts))
          ≡ of_bucket j (hashed (hashed_rows content_hash (concat parts)))
    unfolding gather curate_hash_bucketize
    hashed-gather j [] = refl
    hashed-gather j (part ∷ parts) =
        let rows = hashed_rows content_hash part in
        let more = hashed_rows content_hash (concat parts) in
        let one : hashed (get_or (bucketize b 0 rows (no_rows b)) j [])
            ≡ of_bucket j (hashed rows) =
          hashed-bucketize rows 0 j (no_rows b) (length-no_rows (A × Option Hash) b)
            (hashed_rows-NonEmpty part)
          ∙ ap (λ v. v ++ of_bucket j (hashed rows)) (hashed-no_rows b j) in
        hashed-append (get_or (bucketize b 0 rows (no_rows b)) j []) _
        ∙ ap₂ (λ u v. u ++ v) one (hashed-gather j parts)
        ∙ sym (filter-append (λ (r : A × Hash). hash_bucket b r.1 == j) (hashed rows) (hashed more))
        ∙ ap (of_bucket j) (
            sym (
              ap hashed (map-append (λ row. (row, content_hash row)) part (concat parts))
              ∙ hashed-append rows more))

    reduce_buckets-cut :
        (keep_hash : Bool) (parts : List (List A)) (count j : ℕ)
        → reduce_buckets j count
            (map (λ part. curate_hash_bucketize content_hash part b) parts)
            keep_hash
          ≡ map (with_column keep_hash) (
              cut
                (λ (r : A × Hash). hash_bucket b r.1)
                j
                count
                (keep_hashed [] (hashed (hashed_rows content_hash (concat parts)))))
    unfolding reduce_buckets curate_exact_dedup_bucket
    reduce_buckets-cut keep_hash parts zero j = refl
    reduce_buckets-cut keep_hash parts (suc count) j =
        let all = hashed (hashed_rows content_hash (concat parts)) in
        let merged = gather j (map (λ part. curate_hash_bucketize content_hash part b) parts) in
        let kept : keep_new [] merged ≡ of_bucket j (keep_hashed [] all) =
          keep_new-hashed [] merged
          ∙ ap (keep_hashed []) (hashed-gather j parts)
          ∙ keep_hashed-filter (λ h. hash_bucket b h == j) all [] in
        ap₂ (λ u v. map (with_column keep_hash) u ++ v) kept
          (reduce_buckets-cut keep_hash parts count (suc j))
        ∙ sym (map-append (with_column keep_hash) (of_bucket j (keep_hashed [] all)) _)

    All-buckets :
        (rows : List (A × Hash))
        → All (λ r. (0 ≤ hash_bucket b r.1) × (hash_bucket b r.1 < 0 + b)) rows
    All-buckets [] = tt
    All-buckets ((row, h) ∷ rows) =
        ((omega arith, omega (arith, mod-lt (hex_value 0 (take 8 h)) pos)), All-buckets rows)

    -- With a positive number of buckets and no empty content hash, the distributed exact dedup of
    -- the parts of a table keeps the rows that the single-node one keeps of the table, with the same
    -- hash column, in another order.
    pub dist_exact_dedup-Perm :
        (parts : List (List A)) (keep_hash : Bool)
        → Permᴰ
            (dist_exact_dedup content_hash parts b keep_hash)
            (exact_dedup content_hash (concat parts) keep_hash)
    unfolding dist_exact_dedup exact_dedup
    dist_exact_dedup-Perm parts keep_hash =
        let all = hashed_rows content_hash (concat parts) in
        let kept = keep_hashed [] (hashed all) in
        subst₂ (λ u v. Permᴰ u (map (with_column keep_hash) v))
          (sym (reduce_buckets-cut keep_hash parts b 0)) (sym (keep_new-hashed [] all))
          (map-Perm (with_column keep_hash)
            (cut-Perm (λ (r : A × Hash). hash_bucket b r.1) 0 b kept (All-buckets kept)))

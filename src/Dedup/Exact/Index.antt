-- ===== src/Dedup/Exact/Index.antt =====
-- The index of python/jude/incremental_dedup.py, for dumps that are added one after another with
-- a save and a load in between.
use jude.Prelude.{
  ◌≡◌, refl, sym, ap, ap₂, ◌∙◌, Bool, true, false, inl, inr, Option, none, some, List, [], ◌∷◌,
  ◌++◌, map, arith, subst, if-elim, Bool-cases, contains, ◌=?◌, nat_eq, list_eq, =?_of_eq,
  map-append,
}
use jude.Dedup.Exact.{
  Hash, with_column, keep_new, hashed_rows, HashIndex, Dataset, load, hash_le, insert_sorted,
  sorted, save, seen_after, add_table, incremental_dedup,
}

-- The lists have the same hashes.
abbrev Same : List Hash → List Hash → Type 0
Same s t = (k : Hash) → contains k s ≡ contains k t

Same-cons : (s t : List Hash) (h : Hash) → Same s t → Same (h ∷ s) (h ∷ t)
Same-cons s t h a k = elim (Bool-cases (k =? h)) [ inl e ↦ rw e refl | inr n ↦ rw n (a k) ]

-- Neighbours may be swapped.
Same-swap : (s : List Hash) (h j : Hash) → Same (h ∷ j ∷ s) (j ∷ h ∷ s)
Same-swap s h j k = elim (Bool-cases (k =? h)) [
  | inl e ↦ elim (Bool-cases (k =? j)) [ inl d ↦ rw (e, d) refl | inr m ↦ rw (e, m) refl ]
  | inr n ↦ rw n refl
]

Same-insert_sorted : (h : Hash) (hs : List Hash) → Same (insert_sorted h hs) (h ∷ hs)
unfolding insert_sorted
Same-insert_sorted h [] k = refl
Same-insert_sorted h (j ∷ hs) k =
    if-elim (λ v. contains k v ≡ contains k (h ∷ j ∷ hs)) (hash_le h j) (λ t. refl)
      (λ t.
        Same-cons (insert_sorted h hs) (h ∷ hs) j (Same-insert_sorted h hs) k ∙ Same-swap hs j h k)

Same-sorted : (hs : List Hash) → Same (sorted hs) hs
unfolding sorted
Same-sorted [] k = refl
Same-sorted (h ∷ hs) k =
    Same-insert_sorted h (sorted hs) k ∙ Same-cons (sorted hs) hs h (Same-sorted hs) k

module _ {A : Type 0} where
  keep_new-Same :
      (s t : List Hash) (rows : List (A × Option Hash))
      → Same s t
      → keep_new s rows ≡ keep_new t rows
  unfolding keep_new
  keep_new-Same s t [] a = refl
  keep_new-Same s t ((row, none) ∷ rows) a = keep_new-Same s t rows a
  keep_new-Same s t ((row, some h) ∷ rows) a =
      let same = a h in
      elim (Bool-cases (contains h t)) [
        | inl c ↦ rw (same, c) (keep_new-Same s t rows a)
        | inr c ↦
            rw (same, c)
              (ap (λ v. (row, h) ∷ v) (keep_new-Same (h ∷ s) (h ∷ t) rows (Same-cons s t h a)))
      ]

  keep_new-append :
      (s : List Hash) (xs ys : List (A × Option Hash))
      → keep_new s (xs ++ ys) ≡ keep_new s xs ++ keep_new (seen_after s (keep_new s xs)) ys
  unfolding keep_new seen_after
  keep_new-append s [] ys = refl
  keep_new-append s ((row, none) ∷ xs) ys = keep_new-append s xs ys
  keep_new-append s ((row, some h) ∷ xs) ys = elim (Bool-cases (contains h s)) [
    | inl c ↦ rw c (keep_new-append s xs ys)
    | inr c ↦ rw c (ap (λ v. (row, h) ∷ v) (keep_new-append (h ∷ s) xs ys))
  ]

  seen_after-old :
      (s : List Hash) (kept : List (A × Hash)) (k : Hash)
      → contains k s ≡ true
      → contains k (seen_after s kept) ≡ true
  unfolding seen_after
  seen_after-old s [] k c = c
  seen_after-old s ((row, h) ∷ kept) k c = seen_after-old (h ∷ s) kept k (ground arith)

  -- What has been seen is not kept again.
  keep_new-again :
      (s t : List Hash) (rows : List (A × Option Hash))
      → ((k : Hash) → contains k (seen_after s (keep_new s rows)) ≡ true → contains k t ≡ true)
      → keep_new t rows ≡ []
  unfolding keep_new seen_after
  keep_new-again s t [] a = refl
  keep_new-again s t ((row, none) ∷ rows) a = keep_new-again s t rows a
  keep_new-again s t ((row, some h) ∷ rows) a = elim (Bool-cases (contains h s)) [
    | inl c ↦
        let a' = rw c at a in
        rw (a' h (seen_after-old s (keep_new s rows) h c)) (keep_new-again s t rows a')
    | inr c ↦
        let a' = rw c at a in
        let top : contains h (h ∷ s) ≡ true = rw (=?_of_eq {a = h} {b = h} refl) refl in
        rw (a' h (seen_after-old (h ∷ s) (keep_new (h ∷ s) rows) h top))
          (keep_new-again (h ∷ s) t rows a')
  ]

  module _ (content_hash : A → Option Hash) where
    -- Adding a table to an index twice keeps no row the second time.
    pub add_table-again :
        (idx : HashIndex) (table : List A) (keep_hash keep_again : Bool)
        → (add_table content_hash (add_table content_hash idx table keep_hash).0 table keep_again).1
          ≡ []
    unfolding add_table
    add_table-again idx table keep_hash keep_again =
        ap (map (with_column keep_again))
          (keep_new-again idx.seen _ (hashed_rows content_hash table) (λ k c. c))

    -- The hashes of a dataset.
    abbrev held : Dataset → List Hash
    held none = []
    held (some hashes) = hashes

    -- A run, spelled out.
    novel_rows : List A → Dataset → List (A × Hash)
    novel_rows table stored = keep_new (held stored) (hashed_rows content_hash table)

    incremental_dedup_lem :
        (table : List A) (stored : Dataset)
        → incremental_dedup content_hash table stored
          ≡ some (
            map (with_column false) (novel_rows table stored),
            some (sorted (seen_after (held stored) (novel_rows table stored))),
          )
    unfolding incremental_dedup save load add_table novel_rows
    incremental_dedup_lem table none = refl
    incremental_dedup_lem table (some hashes) = refl

    -- Two dumps that are deduplicated in two runs against one dataset give the novel rows of one run
    -- on both.
    pub incremental_dedup-append :
        (old new : List A) (stored stored₁ stored₂ : Dataset)
        (novel₁ novel₂ : List (A × Option Hash))
        → incremental_dedup content_hash old stored ≡ some (novel₁, stored₁)
        → incremental_dedup content_hash new stored₁ ≡ some (novel₂, stored₂)
        → (stored₃ : Dataset) × (incremental_dedup content_hash (old ++ new) stored
            ≡ some (novel₁ ++ novel₂, stored₃))
    unfolding novel_rows
    incremental_dedup-append old new stored stored₁ stored₂ novel₁ novel₂ first second =
        let kept = novel_rows old stored in
        let seen = seen_after (held stored) kept in
        let whole = incremental_dedup_lem (old ++ new) stored in
        let one : novel₁ ≡ map (with_column false) kept =
          cc (first, incremental_dedup_lem old stored) in
        let saved : stored₁ ≡ some (sorted seen) = cc (first, incremental_dedup_lem old stored) in
        let two : novel₂ ≡ map (with_column false) (novel_rows new (some (sorted seen))) = cc (
          subst (λ v. incremental_dedup content_hash new v ≡ some (novel₂, stored₂)) saved second,
          incremental_dedup_lem new (some (sorted seen)),
        ) in
        let joined : novel_rows (old ++ new) stored ≡ kept ++ novel_rows new (some (sorted seen)) =
          ap (keep_new (held stored)) (map-append (λ row. (row, content_hash row)) old new)
          ∙ keep_new-append (held stored) (hashed_rows content_hash old)
              (hashed_rows content_hash new)
          ∙ ap (λ v. kept ++ v)
              (keep_new-Same seen (sorted seen) (hashed_rows content_hash new)
                (λ k. sym (Same-sorted seen k))) in
        (
          some (sorted (seen_after (held stored) (novel_rows (old ++ new) stored))),
          whole
              ∙ ap
                  (λ v.
                    some (
                      v,
                      some (sorted (seen_after (held stored) (novel_rows (old ++ new) stored))),
                    ))
                  (ap (map (with_column false)) joined
                    ∙ map-append (with_column false) kept (novel_rows new (some (sorted seen)))
                    ∙ sym (ap₂ (λ u v. u ++ v) one two)),
        )

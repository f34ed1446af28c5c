-- ===== src/Mixing/Kept.antt =====
-- The rows that the global shuffle of python/jude/curate_dist.py returns.
use Prim.Native.Nat.{bit_xor}
use jude.Prelude.{
  zip, ℕ, zero, suc, ◌+◌, ◌*◌, ◌^◌, ◌≡◌, ◌≤◌, ◌<◌, refl, sym, ap, ap₂, ◌∙◌, inl, inr, some, List,
  [], ◌∷◌, ◌++◌, length, map, concat, get_or, arith, subst, All, All-append, Bool-cases, ◌==◌,
  filter, filter-append, map-append, cut, cut-Perm, map-Perm,
}
use mathlib.Core.List.{Permᴰ}
use mathlib.Core.List.Permᴰ
use jude.Dedup.UnionFind.{range_from}
use jude.Dedup.Shuffle.{gather}
use jude.Packing.Shuffled.{take_rows-range, take_rows-Perm}
use jude.Mixing.{
  rows_of, scatter_from, curate_shuffle_scatter, curate_shuffle_gather, scatter_parts,
  gather_buckets, dist_global_shuffle,
}

module _ {A : Type 0} where
  -- The rows with their numbers, and the rows of a number among them.
  abbrev rows_at : ℕ → List (ℕ × A) → List A
  rows_at b tagged = map (λ t. t.1) (filter (λ t. t.0 == b) tagged)

  rows_of-zip :
      (b : ℕ) (assign : List ℕ) (rows : List A)
      → rows_of b assign rows ≡ rows_at b (zip assign rows)
  unfolding rows_of
  rows_of-zip b [] rows = refl
  rows_of-zip b (n ∷ assign) [] = refl
  rows_of-zip b (n ∷ assign) (row ∷ rows) = elim (Bool-cases (n == b)) [
    | inl y ↦ rw y (ap (λ v. row ∷ v) (rows_of-zip b assign rows))
    | inr m ↦ rw m (rows_of-zip b assign rows)
  ]

  get_or-scatter_from :
      (b count j : ℕ) (assign : List ℕ) (rows : List A)
      → j < count
      → get_or (scatter_from b count assign rows) j [] ≡ rows_at (b + j) (zip assign rows)
  unfolding scatter_from
  get_or-scatter_from b zero j assign rows h = absurd (omega arith)
  get_or-scatter_from b (suc count) zero assign rows h =
      rows_of-zip b assign rows ∙ ap (λ v. rows_at v (zip assign rows)) (omega arith)
  get_or-scatter_from b (suc count) (suc j) assign rows h =
      get_or-scatter_from (suc b) count j assign rows (omega arith)
      ∙ ap (λ v. rows_at v (zip assign rows)) (omega arith)

  zip-rows :
      (assign : List ℕ) (rows : List A)
      → length assign ≡ length rows
      → map (λ t. t.1) (zip assign rows) ≡ rows
  zip-rows [] [] h = refl
  zip-rows [] (row ∷ rows) h = absurd (omega arith)
  zip-rows (n ∷ assign) [] h = absurd (omega arith)
  zip-rows (n ∷ assign) (row ∷ rows) h = ap (λ v. row ∷ v) (zip-rows assign rows (omega arith))

  zip-All :
      (b : ℕ) (assign : List ℕ) (rows : List A)
      → All (λ n. n < b) assign
      → All (λ t. (0 ≤ t.0) × (t.0 < 0 + b)) (zip assign rows)
  zip-All b [] rows h = tt
  zip-All b (n ∷ assign) [] h = tt
  zip-All b (n ∷ assign) (row ∷ rows) h =
      ((omega arith, omega (arith, h.0)), zip-All b assign rows h.1)

-- Every permutation of numpy is one of the indices.
abbrev pub Fair : (ℕ → ℕ → List ℕ) → Type 0
Fair permutation = (s n : ℕ) → Permᴰ (permutation s n) (range_from 0 n)

-- Every number that numpy draws is below the bound, and there are as many as asked for.
abbrev pub Bounded : (ℕ → ℕ → ℕ → List ℕ) → Type 0
Bounded integers =
    (s high size : ℕ)
    → 0 < high
    → (length (integers s high size) ≡ size) × All (λ n. n < high) (integers s high size)

module _ (integers : ℕ → ℕ → ℕ → List ℕ) (permutation : ℕ → ℕ → List ℕ) {A : Type 0} where
  abbrev assigned : ℕ → ℕ → ℕ → List A → List (ℕ × A)
  assigned i b seed part = zip (integers (bit_xor (seed * 2 ^ 20) i) b (length part)) part

  -- All rows with the buckets that they are sent to.
  abbrev all_assigned : ℕ → ℕ → ℕ → List (List A) → List (ℕ × A)
  all_assigned i b seed [] = []
  all_assigned i b seed (part ∷ parts) = assigned i b seed part ++ all_assigned (suc i) b seed parts

  gather-scatter_parts :
      (b seed bkt i : ℕ) (parts : List (List A))
      → bkt < b
      → gather bkt (scatter_parts integers permutation i b seed parts)
        ≡ rows_at bkt (all_assigned i b seed parts)
  unfolding gather scatter_parts curate_shuffle_scatter
  gather-scatter_parts b seed bkt i [] h = refl
  gather-scatter_parts b seed bkt i (part ∷ parts) h =
      let here = assigned i b seed part in
      let rest = all_assigned (suc i) b seed parts in
      let q : 0 + bkt ≡ bkt = omega arith in
      let one =
        get_or-scatter_from 0 b bkt (integers (bit_xor (seed * 2 ^ 20) i) b (length part)) part h
        ∙ ap (λ v. rows_at v here) q in
      ap₂ (λ u v. u ++ v) one (gather-scatter_parts b seed bkt (suc i) parts h)
      ∙ sym (
          ap (map (λ (t : ℕ × A). t.1)) (filter-append (λ (t : ℕ × A). t.0 == bkt) here rest)
          ∙ map-append (λ (t : ℕ × A). t.1) (filter (λ (t : ℕ × A). t.0 == bkt) here)
              (filter (λ (t : ℕ × A). t.0 == bkt) rest))

  curate_shuffle_gather-Perm :
      Fair permutation
      → (rows : List A) (seed bkt : ℕ)
      → (out : List A) × (curate_shuffle_gather integers permutation rows seed bkt ≡ some out)
        × Permᴰ out rows
  unfolding curate_shuffle_gather
  curate_shuffle_gather-Perm fair [] seed bkt = ([], refl, Permᴰ.nil)
  curate_shuffle_gather-Perm fair (row ∷ rows) seed bkt =
      take_rows-Perm (row ∷ rows)
        (fair (bit_xor (seed * 2 ^ 20) (bkt + 0x9E3779B9)) (length (row ∷ rows)))
        (take_rows-range [] (row ∷ rows))

  gather_buckets-Perm :
      Fair permutation
      → (b seed : ℕ) (parts : List (List A)) (count bkt : ℕ) → bkt + count ≤ b
      → (rows : List A) × (gather_buckets integers permutation bkt count seed
            (scatter_parts integers permutation 0 b seed parts)
          ≡ some rows)
        × Permᴰ rows
            (map (λ t. t.1) (cut (λ (t : ℕ × A). t.0) bkt count (all_assigned 0 b seed parts)))
  unfolding gather_buckets
  gather_buckets-Perm fair b seed parts zero bkt h = ([], refl, Permᴰ.nil)
  gather_buckets-Perm fair b seed parts (suc count) bkt h =
      let all = all_assigned 0 b seed parts in
      let merged = gather bkt (scatter_parts integers permutation 0 b seed parts) in
      let (one, run, p) = curate_shuffle_gather-Perm fair merged seed bkt in
      let (rest, run', q) = gather_buckets-Perm fair b seed parts count (suc bkt) (omega arith) in
      let p' = subst (λ v. Permᴰ one v) (gather-scatter_parts b seed bkt 0 parts (omega arith)) p in
      let others = cut (λ (t : ℕ × A). t.0) (suc bkt) count all in
      (
        one ++ rest,
        rw (run, run') refl,
        subst (λ v. Permᴰ (one ++ rest) v)
            (sym (map-append (λ (t : ℕ × A). t.1) (filter (λ (t : ℕ × A). t.0 == bkt) all) others))
            (Permᴰ.trans (Permᴰ.append_right rest p') (Permᴰ.append_left (rows_at bkt all) q)),
      )

  all_assigned-rows :
      Bounded integers
      → (i b seed : ℕ) (parts : List (List A)) → 0 < b
      → map (λ t. t.1) (all_assigned i b seed parts) ≡ concat parts
  all_assigned-rows bounded i b seed [] pos = refl
  all_assigned-rows bounded i b seed (part ∷ parts) pos =
      map-append (λ (t : ℕ × A). t.1) (assigned i b seed part) (all_assigned (suc i) b seed parts)
      ∙ ap₂ (λ u v. u ++ v)
          (zip-rows (integers (bit_xor (seed * 2 ^ 20) i) b (length part)) part
            (bounded (bit_xor (seed * 2 ^ 20) i) b (length part) pos).0)
          (all_assigned-rows bounded (suc i) b seed parts pos)

  all_assigned-All :
      Bounded integers
      → (i b seed : ℕ) (parts : List (List A)) → 0 < b
      → All (λ t. (0 ≤ t.0) × (t.0 < 0 + b)) (all_assigned i b seed parts)
  all_assigned-All bounded i b seed [] pos = tt
  all_assigned-All bounded i b seed (part ∷ parts) pos =
      All-append (λ t. (0 ≤ t.0) × (t.0 < 0 + b)) (assigned i b seed part)
        (all_assigned (suc i) b seed parts)
        (zip-All b (integers (bit_xor (seed * 2 ^ 20) i) b (length part)) part
          (bounded (bit_xor (seed * 2 ^ 20) i) b (length part) pos).1)
        (all_assigned-All bounded (suc i) b seed parts pos)

  -- When numpy's integers are below a positive bound and as many as asked for, and its permutations
  -- are permutations of the indices, the global shuffle with a positive number of buckets returns
  -- the rows of the parts in another order.
  pub dist_global_shuffle-Perm :
      Bounded integers
      → Fair permutation
      → (parts : List (List A)) (b seed : ℕ) → 0 < b
      → (rows : List A) × (dist_global_shuffle integers permutation parts b seed ≡ some rows)
        × Permᴰ rows (concat parts)
  unfolding dist_global_shuffle
  dist_global_shuffle-Perm bounded fair parts b seed pos =
      let (rows, run, p) = gather_buckets-Perm fair b seed parts b 0 (omega arith) in
      let all = all_assigned 0 b seed parts in
      (
        rows,
        run,
        subst (λ v. Permᴰ rows v) (all_assigned-rows bounded 0 b seed parts pos)
            (Permᴰ.trans p (
              map-Perm (λ (t : ℕ × A). t.1)
                (cut-Perm (λ (t : ℕ × A). t.0) 0 b all
                  (all_assigned-All bounded 0 b seed parts pos)))),
      )

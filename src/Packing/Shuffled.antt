-- ===== src/Packing/Shuffled.antt =====
-- The rows of the shards of `write_shuffled_shards` of python/jude/tokenize.py.
use jude.Prelude.{
  ℕ, zero, suc, ◌+◌, ◌-◌, ◌*◌, ◌/◌, ◌≤◌, ◌<◌, ◌≡◌, refl, sym, ap, ap₂, subst₂, length-append, ◌∙◌,
  some, List, [], ◌∷◌, ◌++◌, length, drop, concat, get_elem?, max, if-elim, leb, arith, subst,
  drop-all, >>=-eq-some, get_elem?-append_right, append_assoc, mod-lt,
}
use native.Mathlib.Nat.{div-add-mod', zero-mul}
use mathlib.Core.List.{Permᴰ}
use mathlib.Core.List.Permᴰ
use jude.Dedup.UnionFind.{range_from}
use jude.Packing.{take_rows, shards_from, write_shuffled_shards}
use jude.Packing.Slices.{slice-min, slice-append-drop}

module _ {ℓ} {A : Type ℓ} where
  concat-shards_from :
      (per : ℕ) (xs : List A) (count s : ℕ)
      → length xs ≤ (s + count) * per
      → concat (shards_from s count per xs) ≡ drop (s * per) xs
  unfolding shards_from
  concat-shards_from per xs zero s h = sym (drop-all (s * per) xs (grind arith))
  concat-shards_from per xs (suc count) s h =
      if-elim (λ v. concat v ≡ drop (s * per) xs) (leb (length xs) (s * per))
        (λ t. sym (drop-all (s * per) xs (ground arith)))
        (λ t.
          let next : suc s * per ≡ s * per + per = grind arith in
          let rest = concat-shards_from per xs count (suc s) (grind arith) in
          ap₂ (λ l r. l ++ r) (slice-min (s * per) per xs)
            (subst (λ v. concat (shards_from (suc s) count per xs) ≡ drop v xs) next rest)
          ∙ slice-append-drop (s * per) per xs)

  length-shards_from :
      (per : ℕ) (xs : List A) (count s : ℕ) → length (shards_from s count per xs) ≤ count
  unfolding shards_from
  length-shards_from per xs zero s = omega arith
  length-shards_from per xs (suc count) s =
      if-elim (λ (v : List (List A)). length v ≤ suc count) (leb (length xs) (s * per))
        (λ t. omega arith) (λ t. omega (arith, length-shards_from per xs count (suc s)))

  -- The rows at the indices of the whole table are the table.
  pub take_rows-range :
      (pre xs : List A) → take_rows (pre ++ xs) (range_from (length pre) (length xs)) ≡ some xs
  unfolding take_rows range_from
  take_rows-range pre [] = refl
  take_rows-range pre (x ∷ xs) =
      let rest = take_rows-range (pre ++ x ∷ []) xs in
      let shifted : take_rows (pre ++ x ∷ xs) (range_from (suc (length pre)) (length xs))
          ≡ some xs =
        subst₂ (λ l n. take_rows l (range_from n (length xs)) ≡ some xs)
          (append_assoc pre (x ∷ []) xs) (omega (arith, length-append pre (x ∷ []))) rest in
      let row : get_elem? (pre ++ x ∷ xs) (length pre) ≡ some x =
        subst (λ v. get_elem? (pre ++ x ∷ xs) v ≡ some x) (omega arith)
          (get_elem?-append_right pre (x ∷ xs) 0) in
      rw (row, shifted) refl

  take_rows-cons :
      (table : List A) (i : ℕ) (is : List ℕ) {row : A} {rows : List A}
      → get_elem? table i ≡ some row
      → take_rows table is ≡ some rows
      → take_rows table (i ∷ is) ≡ some (row ∷ rows)
  unfolding take_rows
  take_rows-cons table i is g h = rw (g, h) refl

  -- The rows at indices in another order are the rows in another order.
  pub take_rows-Perm :
      (table : List A) {is js : List ℕ} {rows : List A}
      → Permᴰ js is
      → take_rows table is ≡ some rows
      → (rows' : List A) × (take_rows table js ≡ some rows') × Permᴰ rows' rows
  unfolding take_rows
  take_rows-Perm table {rows = rows} Permᴰ.nil h = (rows, h, Permᴰ.refl rows)
  take_rows-Perm table {rows = rows} (Permᴰ.cons {a = j} {b = i} {l₁ = js} {l₂ = is} e d) h =
      let (row, at, h') = >>=-eq-some (get_elem? table i) _ h in
      let (rest, more, q) = >>=-eq-some (take_rows table is) _ h' in
      let (rest', more', d') = take_rows-Perm table d more in
      (
        row ∷ rest',
        take_rows-cons table j js (subst (λ v. get_elem? table v ≡ some row) (sym e) at) more',
        subst (λ v. Permᴰ (row ∷ rest') v) (ground arith) (Permᴰ.cons refl d'),
      )
  take_rows-Perm table (Permᴰ.swap {a = a} {b = b} {a' = c} {b' = d} {l = l} e₁ e₂) h =
      let (x, ax, h') = >>=-eq-some (get_elem? table c) _ h in
      let (ys, tail, h'') = >>=-eq-some (take_rows table (d ∷ l)) _ h' in
      let (y, ay, tail') = >>=-eq-some (get_elem? table d) _ tail in
      let (rest, more, last) = >>=-eq-some (take_rows table l) _ tail' in
      (
        y ∷ x ∷ rest,
        take_rows-cons table a (b ∷ l) (subst (λ v. get_elem? table v ≡ some y) (sym e₁) ay)
            (take_rows-cons table b l (subst (λ v. get_elem? table v ≡ some x) (sym (e₂)) ax) more),
        subst (λ v. Permᴰ (y ∷ x ∷ rest) v) (ground arith) (Permᴰ.swap refl refl),
      )
  take_rows-Perm table (Permᴰ.trans d₁ d₂) h =
      let (mid, run, p) = take_rows-Perm table d₂ h in
      let (rows', run', q) = take_rows-Perm table d₁ run in (rows', run', Permᴰ.trans q p)

length-Perm {ℓ} : {A : Type ℓ} {xs ys : List A} → Permᴰ xs ys → length xs ≡ length ys
length-Perm Permᴰ.nil = refl
length-Perm (Permᴰ.cons e d) = ap suc (length-Perm d)
length-Perm (Permᴰ.swap e₁ e₂) = refl
length-Perm (Permᴰ.trans d₁ d₂) = length-Perm d₁ ∙ length-Perm d₂

-- `(n + ns - 1) // ns` rows in each of `ns` shards are enough for `n` rows.
ceil-mul : (n ns : ℕ) → 0 < ns → n ≤ ns * ((n + ns - 1) / ns)
ceil-mul n ns h =
    let q = div-add-mod' (n + ns - 1) ns in let l = mod-lt (n + ns - 1) h in grind arith

-- When numpy's permutation is one of the rows' indices, `write_shuffled_shards` returns, and its
-- shards, joined, are the table in another order; there are no more than `n_shards` (at least 1).
pub write_shuffled_shards_Perm {ℓ} :
    {A : Type ℓ} (permutation : ℕ → List ℕ) (table : List A) (n_shards : ℕ)
    → Permᴰ (permutation (length table)) (range_from 0 (length table))
    → (shards : List (List A)) × (write_shuffled_shards permutation table n_shards ≡ some shards)
      × Permᴰ (concat shards) table
      × (length shards ≤ max 1 n_shards)
unfolding write_shuffled_shards
write_shuffled_shards_Perm permutation table n_shards d =
    let (shuffled, run, p) = take_rows-Perm table d (take_rows-range [] table) in
    let ns = max 1 n_shards in
    let per = (length table + ns - 1) / ns in
    let same = length-Perm p in
    let enough : length shuffled ≤ (0 + ns) * per =
      grind (arith, ceil-mul (length table) ns (omega arith), same) in
    let whole : concat (shards_from 0 ns per shuffled) ≡ shuffled =
      concat-shards_from per shuffled ns 0 enough ∙ ap (λ k. drop k shuffled) (zero-mul per) in
    (
      shards_from 0 ns per shuffled,
      rw run refl,
      subst (λ v. Permᴰ v table) (sym whole) p,
      length-shards_from per shuffled ns 0,
    )

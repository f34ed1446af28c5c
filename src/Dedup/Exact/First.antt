-- ===== src/Dedup/Exact/First.antt =====
-- The loop that keeps the first row of each hash, by the hashes that it has seen and by the
-- hashes whose rows are dropped.
use jude.Prelude.{
  ◌≡◌, refl, sym, ap, ◌∙◌, Bool, true, false, inl, inr, Option, none, some, List, [], ◌∷◌, ◌++◌,
  if◌then◌else◌, Bool-cases, contains, ◌=?◌, nat_eq, list_eq, =?_of_ne, filter,
}
use jude.Dedup.Exact.{Hash, keep_new}

module _ (f : Hash → Bool) where
  -- The lists have the same hashes among those that pass.
  abbrev Agree : List Hash → List Hash → Type 0
  Agree s t = (k : Hash) → f k ≡ true → contains k s ≡ contains k t

  Agree-cons : (s t : List Hash) (h : Hash) → Agree s t → Agree (h ∷ s) (h ∷ t)
  Agree-cons s t h a k y = elim (Bool-cases (k =? h)) [ inl e ↦ rw e refl | inr n ↦ rw n (a k y) ]

  -- A hash that does not pass does not matter.
  Agree-skip : (s : List Hash) (h : Hash) → f h ≡ false → Agree (h ∷ s) s
  Agree-skip s h n k y =
      let apart : (k =? h) ≡ false = =?_of_ne (λ (e : k ≡ h). cc) in rw apart refl

  Agree-sym : (s t : List Hash) → Agree s t → Agree t s
  Agree-sym s t a k y = sym (a k y)

  Agree-trans : (s t u : List Hash) → Agree s t → Agree t u → Agree s u
  Agree-trans s t u a b k y = a k y ∙ b k y

module _ {A : Type 0} where
  -- The rows that have a hash.
  abbrev pub hashed : List (A × Option Hash) → List (A × Hash)
  hashed [] = []
  hashed ((row, none) ∷ rows) = hashed rows
  hashed ((row, some h) ∷ rows) = (row, h) ∷ hashed rows

  pub hashed-append : (xs ys : List (A × Option Hash)) → hashed (xs ++ ys) ≡ hashed xs ++ hashed ys
  hashed-append [] ys = refl
  hashed-append ((row, none) ∷ xs) ys = hashed-append xs ys
  hashed-append ((row, some h) ∷ xs) ys = ap (λ v. (row, h) ∷ v) (hashed-append xs ys)

  -- The loop on rows that all have a hash.
  abbrev pub keep_hashed : List Hash → List (A × Hash) → List (A × Hash)
  keep_hashed seen [] = []
  keep_hashed seen ((row, h) ∷ rows) =
      let skipped = keep_hashed seen rows in
      let kept = keep_hashed (h ∷ seen) rows in if contains h seen then skipped else (row, h) ∷ kept

  pub keep_new-hashed :
      (seen : List Hash) (rows : List (A × Option Hash))
      → keep_new seen rows ≡ keep_hashed seen (hashed rows)
  unfolding keep_new
  keep_new-hashed seen [] = refl
  keep_new-hashed seen ((row, none) ∷ rows) = keep_new-hashed seen rows
  keep_new-hashed seen ((row, some h) ∷ rows) = elim (Bool-cases (contains h seen)) [
    | inl y ↦ rw y (keep_new-hashed seen rows)
    | inr n ↦ rw n (ap (λ v. (row, h) ∷ v) (keep_new-hashed (h ∷ seen) rows))
  ]

  module _ (f : Hash → Bool) where
    filter-keep_hashed-Agree :
        (rows : List (A × Hash)) (s t : List Hash)
        → Agree f s t
        → filter (λ r. f r.1) (keep_hashed s rows) ≡ filter (λ r. f r.1) (keep_hashed t rows)
    filter-keep_hashed-Agree [] s t a = refl
    filter-keep_hashed-Agree ((row, h) ∷ rows) s t a = elim (Bool-cases (f h)) [
      | inl y ↦
          let same = a h y in
          elim (Bool-cases (contains h t)) [
            | inl c ↦ rw (same, c) (filter-keep_hashed-Agree rows s t a)
            | inr c ↦
                rw (same, c, y)
                  (ap (λ v. (row, h) ∷ v)
                    (filter-keep_hashed-Agree rows (h ∷ s) (h ∷ t) (Agree-cons f s t h a)))
          ]
      | inr n ↦
          let drop_one = λ (u : List Hash).
            filter-drop u n (filter-keep_hashed-Agree rows (h ∷ u) u (Agree-skip f u h n)) in
          drop_one s ∙ filter-keep_hashed-Agree rows s t a ∙ sym (drop_one t)
    ]
      where
        filter-drop :
            (u : List Hash)
            → f h ≡ false
            → filter (λ r. f r.1) (keep_hashed (h ∷ u) rows)
              ≡ filter (λ r. f r.1) (keep_hashed u rows)
            → filter (λ r. f r.1) (keep_hashed u ((row, h) ∷ rows))
              ≡ filter (λ r. f r.1) (keep_hashed u rows)
        filter-drop u n e = elim (Bool-cases (contains h u)) [
          | inl c ↦ rw c refl
          | inr c ↦ rw (c, n) e
        ]

    -- The loop on the rows whose hashes pass keeps those of the kept rows that pass.
    pub keep_hashed-filter :
        (rows : List (A × Hash)) (seen : List Hash)
        → keep_hashed seen (filter (λ r. f r.1) rows) ≡ filter (λ r. f r.1) (keep_hashed seen rows)
    keep_hashed-filter [] seen = refl
    keep_hashed-filter ((row, h) ∷ rows) seen = elim (Bool-cases (f h)) [
      | inl y ↦ elim (Bool-cases (contains h seen)) [
        | inl c ↦ rw (y, c) (keep_hashed-filter rows seen)
        | inr c ↦ rw (y, c, y) (ap (λ v. (row, h) ∷ v) (keep_hashed-filter rows (h ∷ seen)))
      ]
      | inr n ↦ elim (Bool-cases (contains h seen)) [
        | inl c ↦ rw (n, c) (keep_hashed-filter rows seen)
        | inr c ↦
            rw (n, c, n)
              (keep_hashed-filter rows seen
                ∙ sym (filter-keep_hashed-Agree rows (h ∷ seen) seen (Agree-skip f seen h n)))
      ]
    ]

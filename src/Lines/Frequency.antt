-- ===== src/Lines/Frequency.antt =====
-- The document frequency of a line, and what `corpus_line_dedup` keeps.
use jude.Prelude.{
  ℕ, ◌+◌, ◌≡◌, ◌≢◌, refl, sym, ap, ap₂, ◌∙◌, Bool, true, false, not, ◌&&◌, ◌||◌, Option, none, some,
  List, [], ◌∷◌, map, arith, if◌then◌else◌, ltb, leb, Dict, lookup, insert, lookup-insert,
  get_default, contains, list_eq, nat_eq, ◌=?◌, filter, Bool-cases, inl, inr, eq_of_=?, =?_of_eq,
  =?_of_ne, subst,
}
use jude.Texts.{Text, Alphabet, splitlines, join}
use jude.Lines.{
  newline, line_key, count_lines, document_frequency, rare_lines, drop_lines, corpus_line_dedup,
}

module _ (abc : Alphabet) (normalize : Bool) where
  abbrev keys_of : List Text → List Text
  keys_of lines = map (line_key abc normalize) lines

  -- How many of the texts have a line with the key.
  abbrev pub documents_with : Text → List (Option Text) → ℕ
  documents_with k [] = 0
  documents_with k (none ∷ texts) = documents_with k texts
  documents_with k (some txt ∷ texts) =
      (if contains k (keys_of (splitlines abc txt)) then 1 else 0) + documents_with k texts

  abbrev count_of : Text → Dict Text ℕ → ℕ
  count_of k d = get_default (lookup k d) 0

  count_of-insert :
      (j k : Text) (v : ℕ) (d : Dict Text ℕ)
      → count_of k (insert j v d) ≡ (if j =? k then v else count_of k d)
  count_of-insert j k v d = elim (Bool-cases (j =? k)) [
    | inl y ↦ rw (lookup-insert j k v d, y) refl
    | inr n ↦ rw (lookup-insert j k v d, n) refl
  ]

  unseen : (a b : Bool) → (not a && not b) ≡ true → b ≡ false
  unseen true b e = cc
  unseen false true e = cc
  unseen false false e = refl

  abbrev tally : Bool → Bool → ℕ
  tally old there = if old then 0 else (if there then 1 else 0)

  -- What the lines of one text add to the count of `k`.
  abbrev gain : Text → List Text → List Text → ℕ
  gain k seen lines = tally (contains k seen) (contains k (keys_of lines))

  symmetric : (j k : Text) → (k =? j) ≡ (j =? k)
  symmetric j k = elim (Bool-cases (k =? j)) [
    | inl y ↦ y ∙ sym (=?_of_eq (sym (eq_of_=? {b = j} y)))
    | inr n ↦
        n ∙ sym (=?_of_ne {a = j} {b = k} (λ e. absurd (cc (n, =?_of_eq {a = k} {b = j} (sym e)))))
  ]

  -- A key that is new to the text.
  fresh-gain :
      (j k : Text) (seen keys : List Text) (d : Dict Text ℕ)
      → contains j seen ≡ false
      → count_of k (insert j (count_of j d + 1) d) + tally (contains k (j ∷ seen)) (contains k keys)
        ≡ count_of k d + tally (contains k seen) (contains k (j ∷ keys))
  fresh-gain j k seen keys d new = elim (Bool-cases (k =? j)) [
    | inl y ↦
        let q : k ≡ j = eq_of_=? y in
        let s : contains k seen ≡ false = subst (λ v. contains v seen ≡ false) (sym q) new in
        rw (count_of-insert j k (count_of j d + 1) d, sym (symmetric j k), y, s)
          (omega (arith, ap (λ v. count_of v d) q))
    | inr n ↦ rw (count_of-insert j k (count_of j d + 1) d, sym (symmetric j k), n) refl
  ]

  -- A key that is empty or that the text had before.
  stale-gain :
      (j k : Text) (seen keys : List Text)
      → k ≢ []
      → (not (j =? []) && not (contains j seen)) ≡ false
      → tally (contains k seen) (contains k keys) ≡ tally (contains k seen) (contains k (j ∷ keys))
  stale-gain j k seen keys ne old = elim (Bool-cases (k =? j)) [
    | inl y ↦
        let q : k ≡ j = eq_of_=? y in
        let full : (j =? []) ≡ false = =?_of_ne (λ e. ne (q ∙ e)) in
        let s : contains j seen ≡ true = known (contains j seen) (rw full at old) in
        rw (subst (λ v. contains v seen ≡ true) (sym q) s) refl
    | inr n ↦ rw n refl
  ]
    where
      known : (b : Bool) → (true && not b) ≡ false → b ≡ true
      known true e = refl
      known false e = cc

  count_lines-gain :
      (k : Text)
      → k ≢ []
      → (lines seen : List Text) (d : Dict Text ℕ)
      → count_of k (count_lines abc normalize lines seen d) ≡ count_of k d + gain k seen lines
  unfolding count_lines
  count_lines-gain k ne [] seen d = ground arith
  count_lines-gain k ne (line ∷ lines) seen d =
      let j = line_key abc normalize line in
      let fresh = not (j =? []) && not (contains j seen) in
      elim (Bool-cases fresh) [
        | inl y ↦ rw y (
            count_lines-gain k ne lines (j ∷ seen) (insert j (count_of j d + 1) d)
            ∙ fresh-gain j k seen (keys_of lines) d (unseen (j =? []) (contains j seen) y))
        | inr n ↦ rw n (
            count_lines-gain k ne lines seen d
            ∙ ap (λ v. count_of k d + v) (stale-gain j k seen (keys_of lines) ne n))
      ]

  document_frequency-counts :
      (k : Text)
      → k ≢ []
      → (texts : List (Option Text)) (d : Dict Text ℕ)
      → count_of k (document_frequency abc normalize texts d)
        ≡ count_of k d + documents_with k texts
  unfolding document_frequency
  document_frequency-counts k ne [] d = omega arith
  document_frequency-counts k ne (none ∷ texts) d = document_frequency-counts k ne texts d
  document_frequency-counts k ne (some txt ∷ texts) d = omega (
    arith,
    document_frequency-counts k ne texts (count_lines abc normalize (splitlines abc txt) [] d),
    count_lines-gain k ne (splitlines abc txt) [] d,
  )

  -- A line that is kept: its key is empty or is in fewer than `min_docs` of the texts.
  abbrev pub is_rare : ℕ → List (Option Text) → Text → Bool
  is_rare min_docs texts ln =
      (line_key abc normalize ln =? [])
      || ltb (documents_with (line_key abc normalize ln) texts) min_docs

  -- One text of the result.
  abbrev pub cleaned : ℕ → List (Option Text) → Option Text → Option Text
  cleaned min_docs texts none = none
  cleaned min_docs texts (some []) = some []
  cleaned min_docs texts (some (c ∷ txt)) =
      some (join newline (filter (is_rare min_docs texts) (splitlines abc (c ∷ txt))))

  module _ (min_docs : ℕ) (texts : List (Option Text)) where
    abbrev freq : Dict Text ℕ
    freq = document_frequency abc normalize texts []

    rare :
        (ln : Text)
        → (not (line_key abc normalize ln =? [])
            && leb min_docs (count_of (line_key abc normalize ln) freq))
          ≡ not (is_rare min_docs texts ln)
    unfolding lookup
    rare ln = elim (Bool-cases (line_key abc normalize ln =? [])) [
      | inl y ↦ rw y refl
      | inr n ↦
          let ne = λ (e : line_key abc normalize ln ≡ []). absurd (cc (n, =?_of_eq e)) in
          let c = document_frequency-counts (line_key abc normalize ln) ne texts [] in
          rw n (
            crossed min_docs (count_of (line_key abc normalize ln) freq)
              (documents_with (line_key abc normalize ln) texts) c)
    ]
      where
        crossed : (m f d : ℕ) → f ≡ 0 + d → (true && leb m f) ≡ not (false || ltb d m)
        crossed m f d e = ground arith

    rare_lines-filter :
        (lines : List Text)
        → rare_lines abc normalize min_docs freq lines ≡ filter (is_rare min_docs texts) lines
    unfolding rare_lines
    rare_lines-filter [] = refl
    rare_lines-filter (ln ∷ lines) =
        rw (rare ln, rare_lines-filter lines) (flip_if (is_rare min_docs texts ln) _ _)
      where
        flip_if :
            {A : Type 0} (b : Bool) (x y : A) → (if not b then x else y) ≡ (if b then y else x)
        flip_if true x y = refl
        flip_if false x y = refl

    drop_lines-cleaned :
        (rest : List (Option Text))
        → drop_lines abc normalize min_docs freq rest ≡ map (cleaned min_docs texts) rest
    unfolding drop_lines
    drop_lines-cleaned [] = refl
    drop_lines-cleaned (none ∷ rest) = ap (λ v. none ∷ v) (drop_lines-cleaned rest)
    drop_lines-cleaned (some [] ∷ rest) = ap (λ v. some [] ∷ v) (drop_lines-cleaned rest)
    drop_lines-cleaned (some (c ∷ txt) ∷ rest) =
        ap₂ (λ u v. some (join newline u) ∷ v) (rare_lines-filter (splitlines abc (c ∷ txt)))
          (drop_lines-cleaned rest)

  -- Each text of the result is the text with those of its lines that have an empty key, or a key
  -- that fewer than `min_docs` of the texts have; a null and an empty text stay as they are.
  pub corpus_line_dedup-cleaned :
      (min_docs : ℕ) (texts : List (Option Text))
      → corpus_line_dedup abc normalize min_docs texts ≡ map (cleaned min_docs texts) texts
  unfolding corpus_line_dedup
  corpus_line_dedup-cleaned min_docs texts = drop_lines-cleaned min_docs texts texts

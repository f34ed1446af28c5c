-- ===== src/Dedup/FuzzyEdges/Distinct.antt =====
-- How many members the loop of the fuzzy reducer lists: one for each distinct signature.
use jude.Prelude.{
  suc, ◌≤◌, ◌≡◌, inl, inr, refl, sym, ◌∙◌, true, false, Option, none, some, List, [], ◌∷◌, length,
  ◌==◌, if◌then◌else◌, Bool-cases, Eq, ◌=?◌, lookup, Memᴰ, arith, subst, lookup-insert,
  length-append, =?_of_eq, contains, Memᴰ_of_contains, add, Memᴰ-add, if-true, if-false,
}
use jude.Graph.{Edge}
use jude.Dedup.FuzzyEdges.{Member, Collapse, fresh, add_edge, edge_Eq, collapse_one, collapse}

-- The distinct signatures of the members, after those in `seen`.
abbrev pub signatures :
    {Key Sig : Type 0} → ⦃sig_eq : Eq Sig⦄ → List Sig → List (Member Key Sig) → List Sig
signatures seen [] = seen
signatures seen (m ∷ ms) = signatures (add m.1.sig seen) ms

module _ {Sig : Type 0} ⦃sig_eq : Eq Sig⦄ where
  length-add : (t : Sig) (seen : List Sig) → length seen ≤ length (add t seen)
  length-add t seen = elim (Bool-cases (contains t seen)) [
    | inl y ↦ rw y (omega arith)
    | inr n ↦ rw n (omega (arith, length-append seen (t ∷ [])))
  ]

  length-add_new :
      (t : Sig) (seen : List Sig) → ¬ Memᴰ t seen → length (add t seen) ≡ suc (length seen)
  length-add_new t seen new = elim (Bool-cases (contains t seen)) [
    | inl y ↦ absurd (new (Memᴰ_of_contains t seen y))
    | inr n ↦ rw n (omega (arith, length-append seen (t ∷ [])))
  ]

module _ {Key Sig : Type 0} ⦃key_eq : Eq Key⦄ ⦃sig_eq : Eq Sig⦄ where
  -- The signatures that were met all have a leader, and there are as many as were listed.
  pub record Tracks (seen : List Sig) (s : Collapse Key Sig) : Type 0 where
    pub led : (t : Sig) → lookup t s.leaders ≡ none → ¬ Memᴰ t seen
    pub counted : length s.uniq ≤ length seen

  collapse_one-Tracks :
      (m : Member Key Sig) (o : Option (Member Key Sig)) (seen : List Sig) (s : Collapse Key Sig)
      → lookup m.1.sig s.leaders ≡ o
      → Tracks seen s
      → Tracks (add m.1.sig seen) (collapse_one m o s)
  unfolding collapse_one
  collapse_one-Tracks (i, row) none seen s found tracks = record {
    led = λ t h m. elim (Bool-cases (row.sig =? t)) [
      | inl y ↦ cc (lookup-insert row.sig t (i, row) s.leaders ∙ if-true _ y, h)
      | inr n ↦ elim (Memᴰ-add {a = row.sig} {xs = seen} m) [
        | inl e ↦ cc (=?_of_eq (sym e), n)
        | inr old ↦
            tracks.led t (sym (lookup-insert row.sig t (i, row) s.leaders ∙ if-false _ n) ∙ h) old
      ]
    ];
    counted = omega (
      arith,
      tracks.counted,
      length-append s.uniq ((i, row) ∷ []),
      length-add_new row.sig seen (tracks.led row.sig found),
    );
  }
  collapse_one-Tracks (i, row) (some (j, leader)) seen s found tracks =
      elim (leader.rid == row.rid)
        as (λ b.
          Tracks (add row.sig seen)
            (if b then s else record s { edges = add_edge leader.rid row.rid s.edges })) [
              | true ↦ record { led = led; counted = counted }
              | false ↦ record { led = led; counted = counted }
            ]
    where
      led : (t : Sig) → lookup t s.leaders ≡ none → ¬ Memᴰ t (add row.sig seen)
      led t h m = elim (Memᴰ-add {a = row.sig} {xs = seen} m) [
        | inl e ↦ cc (subst (λ v. lookup v s.leaders ≡ none) e h, found)
        | inr old ↦ tracks.led t h old
      ]

      counted : length s.uniq ≤ length (add row.sig seen)
      counted = omega (arith, tracks.counted, length-add row.sig seen)

  -- The loop lists at most one member for each distinct signature.
  pub length-collapse :
      (ms : List (Member Key Sig)) (seen : List Sig) (s : Collapse Key Sig)
      → Tracks seen s
      → length (collapse ms s).uniq ≤ length (signatures seen ms)
  unfolding collapse
  length-collapse [] seen s tracks = tracks.counted
  length-collapse (m ∷ ms) seen s tracks =
      length-collapse ms _ _ (collapse_one-Tracks m (lookup m.1.sig s.leaders) seen s refl tracks)

  pub fresh-Tracks : (edges : List Edge) → Tracks [] (fresh edges)
  fresh-Tracks edges = record { led = λ t h m. elim m [ ]; counted = omega arith }

-- ===== src/Dedup/FuzzyEdges/Recall.antt =====
-- Which rows of a bucket the edges of the fuzzy reducer connect.
use jude.Prelude.{
  ℕ, suc, ◌≤◌, ◌≡◌, inl, inr, refl, sym, ◌∙◌, Bool, true, false, Option, none, some, List, [], ◌∷◌,
  ◌++◌, length, ltb, ◌==◌, if◌then◌else◌, Bool-cases, Eq, ◌=?◌, Dict, lookup, append_to, Memᴰ,
  Memᴰ-append_left, Memᴰ-append_right, Memᴰ-single, Memᴰ-add_self, arith, subst, ap, lookup-insert,
  eq_of_=?, lookup-nil, InGroup, first, later, InGroup-append_to_self, InGroup-append_to_old,
  IsDistinct, append_to-IsDistinct,
}
use jude.Graph.{Edge, Connected, same, flip, join, Connected-mono, Connected-min-max}
use jude.Dedup.FuzzyEdges.{
  Row, Member, Collapse, fresh, add_edge, edge_Eq, hot_cap, group_rows, collapse_one, collapse,
  verify, link_group, link_groups, curate_fuzzy_edges_bucket,
}
use jude.Dedup.FuzzyEdges.Distinct.{signatures, length-collapse, fresh-Tracks}
use jude.Dedup.FuzzyEdges.Complete.{
  link_pairs-links, link_groups-Extends, link_pairs-Extends, collapse_one-Extends,
}

-- No band of the grouped rows is hot: each has at most `hot_cap` distinct signatures.
abbrev pub AllCold :
    {Key Sig : Type 0} → ⦃sig_eq : Eq Sig⦄ → Dict Key (List (Member Key Sig)) → Type 0
AllCold [] = Unit
AllCold ((key, ms) ∷ d) = (length (signatures [] ms) ≤ hot_cap) × AllCold d

module _ {Key Sig : Type 0} ⦃key_eq : Eq Key⦄ ⦃sig_eq : Eq Sig⦄ where
  -- The leaders are listed, under their own signatures.
  abbrev LedOk : Collapse Key Sig → Type 0
  LedOk s =
      (t : Sig) (u : Member Key Sig) → lookup t s.leaders ≡ some u → Memᴰ u s.uniq × (u.1.sig ≡ t)

  -- Some listed member has the signature of the row, and is connected to it.
  abbrev Covered : Collapse Key Sig → Row Key Sig → Type 0
  Covered s row =
      (u : Member Key Sig) × Memᴰ u s.uniq × (u.1.sig ≡ row.sig) × Connected s.edges row.rid u.1.rid

  collapse_one-LedOk :
      (m : Member Key Sig) (o : Option (Member Key Sig)) (s : Collapse Key Sig)
      → LedOk s
      → LedOk (collapse_one m o s)
  unfolding collapse_one
  collapse_one-LedOk (i, row) none s ok t u e = elim (Bool-cases (row.sig =? t)) [
    | inl y ↦
        let q : ◌≡◌ {A = Member Key Sig} (i, row) u =
          ground (arith, lookup-insert row.sig t (i, row) s.leaders) in
        subst (λ v. Memᴰ v (s.uniq ++ (i, row) ∷ []) × (v.1.sig ≡ t)) q
          (Memᴰ-append_right s.uniq (Memᴰ.head refl), eq_of_=? y)
    | inr n ↦
        let (k, h) = ok t u (ground (arith, lookup-insert row.sig t (i, row) s.leaders)) in
        (Memᴰ-append_left ((i, row) ∷ []) k, h)
  ]
  collapse_one-LedOk (i, row) (some (j, leader)) s ok t u e =
      elim (leader.rid == row.rid)
          as (λ b.
            LedOk (if b then s else record s { edges = add_edge leader.rid row.rid s.edges })) [
              | true ↦ ok
              | false ↦ ok
            ]
        t u e

  uniq_grows :
      (m : Member Key Sig) (o : Option (Member Key Sig)) (s : Collapse Key Sig) (u : Member Key Sig)
      → Memᴰ u s.uniq
      → Memᴰ u (collapse_one m o s).uniq
  unfolding collapse_one
  uniq_grows (i, row) none s u k = Memᴰ-append_left ((i, row) ∷ []) k
  uniq_grows (i, row) (some (j, leader)) s u k = elim (Bool-cases (leader.rid == row.rid)) [
    | inl y ↦ rw y k
    | inr n ↦ rw n k
  ]

  Covered-collapse_one :
      (m : Member Key Sig) (o : Option (Member Key Sig)) (s : Collapse Key Sig) (row : Row Key Sig)
      → Covered s row
      → Covered (collapse_one m o s) row
  Covered-collapse_one m o s row (u, k, e, c) =
      (u, uniq_grows m o s u k, e, Connected-mono (collapse_one-Extends m o s) c)

  Covered-self :
      (m : Member Key Sig) (o : Option (Member Key Sig)) (s : Collapse Key Sig)
      → lookup m.1.sig s.leaders ≡ o
      → LedOk s
      → Covered (collapse_one m o s) m.1
  unfolding collapse_one
  Covered-self (i, row) none s found ok =
      ((i, row), Memᴰ-append_right s.uniq (Memᴰ.head refl), refl, same refl)
  Covered-self (i, row) (some (j, leader)) s found ok =
      let (k, h) = ok row.sig (j, leader) found in
      elim (Bool-cases (leader.rid == row.rid)) [
        | inl y ↦ rw y ((j, leader), k, h, same (ground arith))
        | inr n ↦ rw n (
          (j, leader),
          k,
          h,
          flip (Connected-min-max leader.rid row.rid (Memᴰ-add_self _ s.edges)),
        )
      ]

  Covered-collapse :
      (ms : List (Member Key Sig)) (s : Collapse Key Sig) (row : Row Key Sig)
      → Covered s row
      → Covered (collapse ms s) row
  unfolding collapse
  Covered-collapse [] s row c = c
  Covered-collapse (m ∷ ms) s row c =
      Covered-collapse ms _ row (Covered-collapse_one m (lookup m.1.sig s.leaders) s row c)

  -- After the loop every member is covered.
  collapse-covers :
      (ms : List (Member Key Sig)) (s : Collapse Key Sig) (m : Member Key Sig)
      → LedOk s
      → Memᴰ m ms
      → Covered (collapse ms s) m.1
  unfolding collapse
  collapse-covers [] s m ok k = elim k [ ]
  collapse-covers (n ∷ ms) s m ok (Memᴰ.head e) = Covered-collapse ms _ m.1 (
      subst (λ (v : Member Key Sig). Covered (collapse_one n (lookup n.1.sig s.leaders) s) v.1)
        (sym e) (Covered-self n (lookup n.1.sig s.leaders) s refl ok))
  collapse-covers (n ∷ ms) s m ok (Memᴰ.tail k) =
      collapse-covers ms _ m (collapse_one-LedOk n (lookup n.1.sig s.leaders) s ok) k

module _ {Key Sig : Type 0} ⦃key_eq : Eq Key⦄ ⦃sig_eq : Eq Sig⦄ (similar : Sig → Sig → Bool)
    (sym_similar : (s t : Sig) → similar s t ≡ similar t s) where
  single_rid :
      (m o : Member Key Sig) (ms : List (Member Key Sig))
      → ltb (length ms) 2 ≡ true
      → Memᴰ m ms
      → Memᴰ o ms
      → m ≡ o
  single_rid m o [] h k l = elim k [ ]
  single_rid m o (n ∷ []) h k l = Memᴰ-single k ∙ sym (Memᴰ-single l)
  single_rid m o (n ∷ n' ∷ ms) h k l = absurd (ground arith)

  -- The two members that cover the rows are listed, so their similar pair is verified.
  verify-links :
      (s : Collapse Key Sig) (l r : Row Key Sig)
      → length s.uniq ≤ hot_cap
      → Covered s l
      → Covered s r
      → similar l.sig r.sig ≡ true
      → Connected (verify similar s.uniq s.edges) l.rid r.rid
  unfolding verify
  verify-links s l r cold (u, ku, eu, cu) (v, kv, ev, cv) h =
      let n : ltb hot_cap (length s.uniq) ≡ false = ground arith in
      let more = link_pairs-Extends similar s.uniq s.edges in
      let near : similar u.1.sig v.1.sig ≡ true = rw (eu, ev) h in
      rw n (
        join (Connected-mono more cu) (
          join (link_pairs-links similar sym_similar u v s.uniq s.edges ku kv near)
            (flip (Connected-mono more cv))))

  link_group-links :
      (ms : List (Member Key Sig)) (edges : List Edge) (m o : Member Key Sig)
      → length (signatures [] ms) ≤ hot_cap
      → Memᴰ m ms
      → Memᴰ o ms
      → similar m.1.sig o.1.sig ≡ true
      → Connected (link_group similar ms edges) m.1.rid o.1.rid
  unfolding link_group
  link_group-links ms edges m o cold k l h = elim (Bool-cases (ltb (length ms) 2)) [
    | inl y ↦ same (ap (λ (v : Member Key Sig). v.1.rid) (single_rid m o ms y k l))
    | inr n ↦
        let started : LedOk (fresh edges) = λ t u e. cc (lookup-nil {V = Member Key Sig} t) in
        let small : length (collapse ms (fresh edges)).uniq ≤ hot_cap =
          omega (arith, length-collapse ms [] (fresh edges) (fresh-Tracks edges)) in
        rw n (
          verify-links (collapse ms (fresh edges)) m.1 o.1 small
            (collapse-covers ms (fresh edges) m started k)
            (collapse-covers ms (fresh edges) o started l) h)
  ]

  link_groups-links :
      (d : Dict Key (List (Member Key Sig))) (edges : List Edge) (key : Key) (m o : Member Key Sig)
      → IsDistinct d
      → AllCold d
      → InGroup key m d
      → InGroup key o d
      → similar m.1.sig o.1.sig ≡ true
      → Connected (link_groups similar d edges) m.1.rid o.1.rid
  unfolding link_groups
  link_groups-links [] edges key m o apart cold k l h = elim k [ ]
  link_groups-links ((j, ms) ∷ d) edges key m o apart cold (first e k) (first e' l) h =
      Connected-mono (link_groups-Extends similar d _) (link_group-links ms edges m o cold.0 k l h)
  link_groups-links ((j, ms) ∷ d) edges key m o apart cold (first e k) (later l) h =
      absurd (apart.0 o (subst (λ v. InGroup v o d) (sym e) l))
  link_groups-links ((j, ms) ∷ d) edges key m o apart cold (later k) (first e l) h =
      absurd (apart.0 m (subst (λ v. InGroup v m d) (sym e) k))
  link_groups-links ((j, ms) ∷ d) edges key m o apart cold (later k) (later l) h =
      link_groups-links d _ key m o apart.1 cold.1 k l h

module _ {Key Sig : Type 0} ⦃key_eq : Eq Key⦄ ⦃sig_eq : Eq Sig⦄ where
  pub group_rows-IsDistinct :
      (i : ℕ) (rows : List (Row Key Sig)) (d : Dict Key (List (Member Key Sig)))
      → IsDistinct d
      → IsDistinct (group_rows i rows d)
  unfolding group_rows
  group_rows-IsDistinct i [] d h = h
  group_rows-IsDistinct i (row ∷ rows) d h =
      group_rows-IsDistinct (suc i) rows _ (append_to-IsDistinct row.key (i, row) d h)

  group_rows-old :
      (i : ℕ) (rows : List (Row Key Sig)) (d : Dict Key (List (Member Key Sig))) (key : Key)
      (m : Member Key Sig)
      → InGroup key m d
      → InGroup key m (group_rows i rows d)
  unfolding group_rows
  group_rows-old i [] d key m k = k
  group_rows-old i (row ∷ rows) d key m k =
      group_rows-old (suc i) rows _ key m (InGroup-append_to_old row.key (i, row) d k)

  -- Every row is in the group of its key.
  pub group_rows-groups :
      (i : ℕ) (rows : List (Row Key Sig)) (d : Dict Key (List (Member Key Sig))) (row : Row Key Sig)
      → Memᴰ row rows
      → (j : ℕ) × InGroup row.key (j, row) (group_rows i rows d)
  unfolding group_rows
  group_rows-groups i [] d row k = elim k [ ]
  group_rows-groups i (r ∷ rows) d row (Memᴰ.head e) = (
    i,
    group_rows-old (suc i) rows _ row.key (i, row)
        (subst (λ v. InGroup v.key (i, v) (append_to r.key (i, r) d)) (sym e)
          (InGroup-append_to_self r.key (i, r) d)),
  )
  group_rows-groups i (r ∷ rows) d row (Memᴰ.tail k) = group_rows-groups (suc i) rows _ row k

module _ {Key Sig : Type 0} ⦃key_eq : Eq Key⦄ ⦃sig_eq : Eq Sig⦄ (similar : Sig → Sig → Bool)
    (sym_similar : (s t : Sig) → similar s t ≡ similar t s) where
  -- With a symmetric `similar` and no hot band in the bucket, that is none with more than 2000
  -- distinct signatures, two rows with the same band key and
  -- similar signatures are connected by the edges that the reducer emits.
  pub curate_fuzzy_edges_bucket-links :
      (rows : List (Row Key Sig)) (l r : Row Key Sig)
      → AllCold (group_rows 0 rows [])
      → Memᴰ l rows
      → Memᴰ r rows
      → l.key ≡ r.key
      → similar l.sig r.sig ≡ true
      → Connected (curate_fuzzy_edges_bucket similar rows) l.rid r.rid
  unfolding curate_fuzzy_edges_bucket
  curate_fuzzy_edges_bucket-links rows l r cold kl kr e h =
      let (i, gl) = group_rows-groups 0 rows [] l kl in
      let (j, gr) = group_rows-groups 0 rows [] r kr in
      link_groups-links similar sym_similar (group_rows 0 rows []) [] l.key (i, l) (j, r)
        (group_rows-IsDistinct 0 rows [] tt) cold gl
        (subst (λ v. InGroup v (j, r) (group_rows 0 rows [])) (sym e) gr) h

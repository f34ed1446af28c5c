-- ===== src/Dedup/FuzzyEdges/Sound.antt =====
-- Which rows of a bucket an edge of the fuzzy reducer joins.
use jude.Prelude.{
  ℕ, suc, ◌≡◌, ◌⊎◌, inl, inr, refl, sym, Bool, true, Option, none, some, List, [], ◌∷◌, length,
  take, ltb, min, max, ◌==◌, Bool-cases, Eq, ◌=?◌, Dict, lookup, Memᴰ, Memᴰ-append, Memᴰ-single,
  Memᴰ-add, arith, subst, lookup-insert, lookup-nil, Memᴰ-take, eq_of_=?, InGroup, first, later,
  InGroup-append_to,
}
use jude.Graph.{Edge}
use jude.Dedup.FuzzyEdges.{
  Row, Member, Collapse, fresh, add_edge, edge_Eq, hot_cap, rep_count, group_rows, collapse_one,
  collapse, link_to_rep, link_to_reps, link_pairs_of, link_pairs, verify, link_group, link_groups,
  curate_fuzzy_edges_bucket,
}

-- The signatures are equal, or similar.
abbrev pub Near : {Sig : Type 0} → (Sig → Sig → Bool) → Sig → Sig → Type 0
Near similar s t = (s ≡ t) ⊎ (similar s t ≡ true)

-- Two rows of the list justify the edge.
pub record Justified {Key Sig : Type 0} (similar : Sig → Sig → Bool) (rows : List (Row Key Sig))
    (e : Edge) : Type 0 where
  pub left : Row Key Sig
  pub right : Row Key Sig
  pub left_in : Memᴰ left rows
  pub right_in : Memᴰ right rows
  pub band : left.key ≡ right.key
  pub near : Near similar left.sig right.sig
  pub ends : e ≡ (min left.rid right.rid, max left.rid right.rid)

module _ {Key Sig : Type 0} ⦃key_eq : Eq Key⦄ ⦃sig_eq : Eq Sig⦄ (similar : Sig → Sig → Bool) where
  -- All edges of the list are justified.
  abbrev pub AllJustified : List (Row Key Sig) → List Edge → Type 0
  AllJustified rows edges = (e : Edge) → Memᴰ e edges → Justified similar rows e

  module _ (rows : List (Row Key Sig)) (key : Key) where
    -- The members are rows with the band key.
    abbrev pub Members : List (Member Key Sig) → Type 0
    Members ms = (m : Member Key Sig) → Memᴰ m ms → Memᴰ m.1 rows × (m.1.key ≡ key)

    add_edge-Justified :
        (l r : Row Key Sig) (edges : List Edge)
        → Memᴰ l rows × (l.key ≡ key)
        → Memᴰ r rows × (r.key ≡ key)
        → Near similar l.sig r.sig
        → AllJustified rows edges
        → AllJustified rows (add_edge l.rid r.rid edges)
    add_edge-Justified l r edges hl hr near all e m = elim (Memᴰ-add m) [
      | inl new ↦ record {
        left = l;
        right = r;
        left_in = hl.0;
        right_in = hr.0;
        band = cc (hl.1, hr.1);
        near = near;
        ends = new;
      }
      | inr old ↦ all e old
    ]

    link_to_rep-Justified :
        (m : Member Key Sig) (reps : List (Member Key Sig)) (edges : List Edge)
        → Memᴰ m.1 rows × (m.1.key ≡ key)
        → Members reps
        → AllJustified rows edges
        → AllJustified rows (link_to_rep similar m reps edges)
    unfolding link_to_rep
    link_to_rep-Justified (i, row) [] edges hm hr all = all
    link_to_rep-Justified (i, row) ((j, rep) ∷ reps) edges hm hr all =
        let rest = link_to_rep-Justified (i, row) reps edges hm (λ n k. hr n (Memᴰ.tail k)) all in
        elim (Bool-cases (i == j)) [
          | inl y ↦ rw y rest
          | inr n ↦ elim (Bool-cases (similar row.sig rep.sig)) [
            | inl y' ↦
                rw (n, y')
                  (add_edge-Justified row rep edges hm (hr (j, rep) (Memᴰ.head refl)) (inr y') all)
            | inr n' ↦ rw (n, n') rest
          ]
        ]

    link_to_reps-Justified :
        (reps ms : List (Member Key Sig)) (edges : List Edge)
        → Members reps
        → Members ms
        → AllJustified rows edges
        → AllJustified rows (link_to_reps similar reps ms edges)
    unfolding link_to_reps
    link_to_reps-Justified reps [] edges hr hm all = all
    link_to_reps-Justified reps (m ∷ ms) edges hr hm all =
        link_to_reps-Justified reps ms _ hr (λ n k. hm n (Memᴰ.tail k))
          (link_to_rep-Justified m reps edges (hm m (Memᴰ.head refl)) hr all)

    link_pairs_of-Justified :
        (m : Member Key Sig) (ms : List (Member Key Sig)) (edges : List Edge)
        → Memᴰ m.1 rows × (m.1.key ≡ key)
        → Members ms
        → AllJustified rows edges
        → AllJustified rows (link_pairs_of similar m ms edges)
    unfolding link_pairs_of
    link_pairs_of-Justified (i, row) [] edges hm hs all = all
    link_pairs_of-Justified (i, row) ((j, other) ∷ ms) edges hm hs all =
        link_pairs_of-Justified (i, row) ms _ hm (λ n k. hs n (Memᴰ.tail k))
          (elim (Bool-cases (similar row.sig other.sig)) [
            | inl y ↦
                rw y (
                  add_edge-Justified row other edges hm (hs (j, other) (Memᴰ.head refl)) (inr y)
                    all)
            | inr n ↦ rw n all
          ])

    pub link_pairs-Justified :
        (ms : List (Member Key Sig)) (edges : List Edge)
        → Members ms
        → AllJustified rows edges
        → AllJustified rows (link_pairs similar ms edges)
    unfolding link_pairs
    link_pairs-Justified [] edges hm all = all
    link_pairs-Justified (m ∷ ms) edges hm all =
        link_pairs-Justified ms _ (λ n k. hm n (Memᴰ.tail k))
          (link_pairs_of-Justified m ms edges (hm m (Memᴰ.head refl)) (λ n k. hm n (Memᴰ.tail k))
            all)

    record CollapseOk (s : Collapse Key Sig) : Type 0 where
      led :
          (t : Sig) (m : Member Key Sig)
          → lookup t s.leaders ≡ some m
          → (Memᴰ m.1 rows × (m.1.key ≡ key)) × (m.1.sig ≡ t)
      listed : Members s.uniq
      justified : AllJustified rows s.edges

    collapse_one-CollapseOk :
        (m : Member Key Sig) (o : Option (Member Key Sig)) (s : Collapse Key Sig)
        → lookup m.1.sig s.leaders ≡ o
        → Memᴰ m.1 rows × (m.1.key ≡ key)
        → CollapseOk s
        → CollapseOk (collapse_one m o s)
    unfolding collapse_one
    collapse_one-CollapseOk (i, row) none s found hm ok = record {
      led = λ t m e. elim (Bool-cases (row.sig =? t)) [
        | inl y ↦
            let q : ◌≡◌ {A = Member Key Sig} (i, row) m =
              ground (arith, lookup-insert row.sig t (i, row) s.leaders) in
            subst (λ v. (Memᴰ v.1 rows × (v.1.key ≡ key)) × (v.1.sig ≡ t)) q (hm, eq_of_=? y)
        | inr n ↦ ok.led t m (ground (arith, lookup-insert row.sig t (i, row) s.leaders))
      ];
      listed = λ m k. elim (Memᴰ-append s.uniq k) [
        | inl old ↦ ok.listed m old
        | inr new ↦ subst (λ v. Memᴰ v.1 rows × (v.1.key ≡ key)) (sym (Memᴰ-single new)) hm
      ];
      justified = ok.justified;
    }
    collapse_one-CollapseOk (i, row) (some (j, leader)) s found hm ok =
        elim (Bool-cases (leader.rid == row.rid)) [
          | inl y ↦ rw y ok
          | inr n ↦ rw n (record {
            led = ok.led;
            listed = ok.listed;
            justified =
                let h = ok.led row.sig (j, leader) found in
                add_edge-Justified leader row s.edges h.0 hm (inl h.1) ok.justified;
          })
        ]

    collapse-CollapseOk :
        (ms : List (Member Key Sig)) (s : Collapse Key Sig)
        → Members ms
        → CollapseOk s
        → CollapseOk (collapse ms s)
    unfolding collapse
    collapse-CollapseOk [] s hm ok = ok
    collapse-CollapseOk (m ∷ ms) s hm ok =
        collapse-CollapseOk ms _ (λ n k. hm n (Memᴰ.tail k))
          (collapse_one-CollapseOk m (lookup m.1.sig s.leaders) s refl (hm m (Memᴰ.head refl)) ok)

    verify-Justified :
        (uniq : List (Member Key Sig)) (edges : List Edge)
        → Members uniq
        → AllJustified rows edges
        → AllJustified rows (verify similar uniq edges)
    unfolding verify
    verify-Justified uniq edges hm all = elim (Bool-cases (ltb hot_cap (length uniq))) [
      | inl y ↦ rw y (
          link_to_reps-Justified (take rep_count uniq) uniq edges
            (λ m k. hm m (Memᴰ-take rep_count uniq k)) hm all)
      | inr n ↦ rw n (link_pairs-Justified uniq edges hm all)
    ]

    link_group-Justified :
        (ms : List (Member Key Sig)) (edges : List Edge)
        → Members ms
        → AllJustified rows edges
        → AllJustified rows (link_group similar ms edges)
    unfolding link_group
    link_group-Justified ms edges hm all = elim (Bool-cases (ltb (length ms) 2)) [
      | inl y ↦ rw y all
      | inr n ↦
          let start : CollapseOk (fresh edges) = record {
            led = λ t m e. cc (lookup-nil {V = Member Key Sig} t);
            listed = λ m k. elim k [ ];
            justified = all;
          } in
          let ok = collapse-CollapseOk ms _ hm start in
          rw n (verify-Justified _ _ ok.listed ok.justified)
    ]

  module _ (rows : List (Row Key Sig)) where
    -- Each group holds rows with the key of the group.
    abbrev pub Grouped : Dict Key (List (Member Key Sig)) → Type 0
    Grouped d = (key : Key) (m : Member Key Sig) → InGroup key m d → Memᴰ m.1 rows × (m.1.key ≡ key)

    pub group_rows-Grouped :
        (i : ℕ) (more : List (Row Key Sig)) (d : Dict Key (List (Member Key Sig)))
        → ((row : Row Key Sig) → Memᴰ row more → Memᴰ row rows)
        → Grouped d
        → Grouped (group_rows i more d)
    unfolding group_rows
    group_rows-Grouped i [] d sub g = g
    group_rows-Grouped i (row ∷ more) d sub g =
        group_rows-Grouped (suc i) more _ (λ r k. sub r (Memᴰ.tail k))
          λ key m k. elim (InGroup-append_to row.key (i, row) d k) [
            | inl new ↦
                subst (λ v. Memᴰ v.1 rows × (v.1.key ≡ key)) (sym new.1)
                  (sub row (Memᴰ.head refl), new.0)
            | inr old ↦ g key m old
          ]

    link_groups-Justified :
        (d : Dict Key (List (Member Key Sig))) (edges : List Edge)
        → Grouped d
        → AllJustified rows edges
        → AllJustified rows (link_groups similar d edges)
    unfolding link_groups
    link_groups-Justified [] edges g all = all
    link_groups-Justified ((key, ms) ∷ d) edges g all =
        link_groups-Justified d _ (λ k m n. g k m (later n))
          (link_group-Justified rows key ms edges (λ m k. g key m (first refl k)) all)

    -- Every edge that the reducer emits is the ordered pair of the row ids of two rows of the bucket
    -- that have the same band key, and equal or similar signatures.
    pub curate_fuzzy_edges_bucket-Justified :
        (e : Edge) → Memᴰ e (curate_fuzzy_edges_bucket similar rows) → Justified similar rows e
    unfolding curate_fuzzy_edges_bucket
    curate_fuzzy_edges_bucket-Justified =
        link_groups-Justified (group_rows 0 rows []) []
          (group_rows-Grouped 0 rows [] (λ r k. k) (λ key m k. absurd (elim k [ ])))
          (λ e m. absurd (elim m [ ]))

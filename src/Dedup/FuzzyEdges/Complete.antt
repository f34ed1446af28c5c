-- ===== src/Dedup/FuzzyEdges/Complete.antt =====
-- The edges that the loops of the fuzzy reducer keep and add.
use jude.Prelude.{
  ◌≡◌, inl, inr, sym, ◌∙◌, Bool, true, false, Option, none, some, List, [], ◌∷◌, length, ltb, min,
  max, ◌==◌, if◌then◌else◌, Bool-cases, Eq, Dict, lookup, Memᴰ, Memᴰ-add_self, Memᴰ-add_old, subst,
  ap,
}
use jude.Graph.{Edge, Connected, same, flip, Connected-mono, Connected-min-max}
use jude.Dedup.FuzzyEdges.{
  Member, Collapse, fresh, add_edge, edge_Eq, hot_cap, collapse_one, collapse, link_pairs_of,
  link_pairs, link_to_rep, link_to_reps, verify, link_group, link_groups,
}

-- The second list has the edges of the first.
abbrev pub Extends : List Edge → List Edge → Type 0
Extends xs ys = (e : Edge) → Memᴰ e xs → Memᴰ e ys

Extends-if :
    (b : Bool) (f g : List Edge) {xs : List Edge}
    → Extends xs f
    → Extends xs g
    → Extends xs (if b then f else g)
Extends-if true f g hf hg = hf
Extends-if false f g hf hg = hg

module _ {Key Sig : Type 0} ⦃key_eq : Eq Key⦄ ⦃sig_eq : Eq Sig⦄ where
  pub collapse_one-Extends :
      (m : Member Key Sig) (o : Option (Member Key Sig)) (s : Collapse Key Sig)
      → Extends s.edges (collapse_one m o s).edges
  unfolding collapse_one
  collapse_one-Extends (i, row) none s e k = k
  collapse_one-Extends (i, row) (some (j, leader)) s e k =
      elim (Bool-cases (leader.rid == row.rid)) [ inl y ↦ rw y k | inr n ↦ rw n (Memᴰ-add_old _ k) ]

  pub collapse-Extends :
      (ms : List (Member Key Sig)) (s : Collapse Key Sig) → Extends s.edges (collapse ms s).edges
  unfolding collapse
  collapse-Extends [] s e k = k
  collapse-Extends (m ∷ ms) s e k =
      collapse-Extends ms _ e (collapse_one-Extends m (lookup m.1.sig s.leaders) s e k)

module _ {Key Sig : Type 0} ⦃key_eq : Eq Key⦄ ⦃sig_eq : Eq Sig⦄ (similar : Sig → Sig → Bool) where
  pub link_to_rep-Extends :
      (m : Member Key Sig) (reps : List (Member Key Sig)) (edges : List Edge)
      → Extends edges (link_to_rep similar m reps edges)
  unfolding link_to_rep
  link_to_rep-Extends m [] edges = λ e k. k
  link_to_rep-Extends (i, row) ((j, rep) ∷ reps) edges =
      let rest = link_to_rep-Extends (i, row) reps edges in
      Extends-if (i == j) _ _ rest
        (Extends-if (similar row.sig rep.sig) _ _ (λ e k. Memᴰ-add_old _ k) rest)

  pub link_to_reps-Extends :
      (reps ms : List (Member Key Sig)) (edges : List Edge)
      → Extends edges (link_to_reps similar reps ms edges)
  unfolding link_to_reps
  link_to_reps-Extends reps [] edges e k = k
  link_to_reps-Extends reps (m ∷ ms) edges e k =
      link_to_reps-Extends reps ms _ e (link_to_rep-Extends m reps edges e k)

  pub link_pairs_of-Extends :
      (m : Member Key Sig) (ms : List (Member Key Sig)) (edges : List Edge)
      → Extends edges (link_pairs_of similar m ms edges)
  unfolding link_pairs_of
  link_pairs_of-Extends m [] edges e k = k
  link_pairs_of-Extends (i, row) ((j, other) ∷ ms) edges e k =
      link_pairs_of-Extends (i, row) ms _ e
        (Extends-if (similar row.sig other.sig) _ _ (λ e k. Memᴰ-add_old _ k) (λ e k. k) e k)

  pub link_pairs-Extends :
      (ms : List (Member Key Sig)) (edges : List Edge) → Extends edges (link_pairs similar ms edges)
  unfolding link_pairs
  link_pairs-Extends [] edges e k = k
  link_pairs-Extends (m ∷ ms) edges e k =
      link_pairs-Extends ms _ e (link_pairs_of-Extends m ms edges e k)

  pub verify-Extends :
      (uniq : List (Member Key Sig)) (edges : List Edge) → Extends edges (verify similar uniq edges)
  unfolding verify
  verify-Extends uniq edges =
      Extends-if (ltb hot_cap (length uniq)) _ _ (link_to_reps-Extends _ uniq edges)
        (link_pairs-Extends uniq edges)

  pub link_group-Extends :
      (ms : List (Member Key Sig)) (edges : List Edge) → Extends edges (link_group similar ms edges)
  unfolding link_group
  link_group-Extends ms edges =
      Extends-if (ltb (length ms) 2) _ _ (λ e k. k)
        (λ e k.
          verify-Extends (collapse ms (fresh edges)).uniq (collapse ms (fresh edges)).edges e
            (collapse-Extends ms (fresh edges) e k))

  pub link_groups-Extends :
      (d : Dict Key (List (Member Key Sig))) (edges : List Edge)
      → Extends edges (link_groups similar d edges)
  unfolding link_groups
  link_groups-Extends [] edges e k = k
  link_groups-Extends ((key, ms) ∷ d) edges e k =
      link_groups-Extends d _ e (link_group-Extends ms edges e k)

  -- What `link_pairs` promises of two of its members.
  pub link_pairs_of-links :
      (m o : Member Key Sig) (ms : List (Member Key Sig)) (edges : List Edge)
      → Memᴰ o ms
      → similar m.1.sig o.1.sig ≡ true
      → Connected (link_pairs_of similar m ms edges) m.1.rid o.1.rid
  unfolding link_pairs_of
  link_pairs_of-links m o [] edges k h = elim k [ ]
  link_pairs_of-links (i, row) o ((j, other) ∷ ms) edges (Memᴰ.head e) h =
      let q : o.1 ≡ other = ap (λ (v : Member Key Sig). v.1) e in
      Connected-min-max row.rid o.1.rid (
        link_pairs_of-Extends (i, row) ms _ (min row.rid o.1.rid, max row.rid o.1.rid)
          (subst
            (λ v.
              similar row.sig v.sig ≡ true
              → Memᴰ (min row.rid v.rid, max row.rid v.rid)
                  (if similar row.sig other.sig then add_edge row.rid other.rid edges else edges))
            (sym q) (λ y. rw y (Memᴰ-add_self _ edges)) h))
  link_pairs_of-links (i, row) o ((j, other) ∷ ms) edges (Memᴰ.tail k) h =
      link_pairs_of-links (i, row) o ms _ k h

  module _ (sym_similar : (s t : Sig) → similar s t ≡ similar t s) where
    pub link_pairs-links :
        (m o : Member Key Sig) (ms : List (Member Key Sig)) (edges : List Edge)
        → Memᴰ m ms
        → Memᴰ o ms
        → similar m.1.sig o.1.sig ≡ true
        → Connected (link_pairs similar ms edges) m.1.rid o.1.rid
    unfolding link_pairs
    link_pairs-links m o [] edges k l h = elim k [ ]
    link_pairs-links m o (n ∷ ms) edges (Memᴰ.head e) (Memᴰ.head e') h =
        same (ap (λ (v : Member Key Sig). v.1.rid) (e ∙ sym e'))
    link_pairs-links m o (n ∷ ms) edges (Memᴰ.head e) (Memᴰ.tail l) h =
        Connected-mono (link_pairs-Extends ms _) (
          subst
            (λ (v : Member Key Sig). Connected (link_pairs_of similar n ms edges) v.1.rid o.1.rid)
            (sym e)
            (link_pairs_of-links n o ms edges l
              (subst (λ (v : Member Key Sig). similar v.1.sig o.1.sig ≡ true) e h)))
    link_pairs-links m o (n ∷ ms) edges (Memᴰ.tail k) (Memᴰ.head e) h = flip (
        Connected-mono (link_pairs-Extends ms _) (
          subst
            (λ (v : Member Key Sig). Connected (link_pairs_of similar n ms edges) v.1.rid m.1.rid)
            (sym e)
            (link_pairs_of-links n m ms edges k (
              subst (λ (v : Member Key Sig). similar v.1.sig m.1.sig ≡ true) e
                (sym_similar o.1.sig m.1.sig ∙ h)))))
    link_pairs-links m o (n ∷ ms) edges (Memᴰ.tail k) (Memᴰ.tail l) h =
        link_pairs-links m o ms _ k l h

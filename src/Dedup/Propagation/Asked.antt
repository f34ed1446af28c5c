-- ===== src/Dedup/Propagation/Asked.antt =====
-- `with_refd`: the sets of rids that the driver asks the shards for, and the shards it starts with.
use jude.Prelude.{
  ℕ, ◌≡◌, ◌<◌, refl, sym, inl, inr, Option, some, none, List, [], ◌∷◌, ◌++◌, Memᴰ, length,
  get_elem?, subst, ap, ◌∙◌, length-map, get_elem?_of_map, Option-cases, ap₂, Memᴰ_to_get,
}
use jude.Graph.{Edge}
use jude.Dedup.Propagation.{
  CcShard, endpoints, referenced_rids, new_shards, distribute, with_refd, shards_of,
}
use jude.Dedup.Propagation.Snapshot.{endpoints-both}
use jude.Dedup.Propagation.Synchronous.{Ready, Asks, edges_of}
use jude.Dedup.Propagation.Dealt.{
  all_edges, shard_edges, Dealt, distribute-Dealt, distribute-edges, distribute-edges_new,
  new_shards-Dealt, new_shards-edges,
}

-- What the call of `referenced_rids` keeps, and what it returns the first time.
referenced_rids-keeps :
    (s : CcShard)
    → ((referenced_rids s).0.sid ≡ s.sid)
      × ((referenced_rids s).0.w ≡ s.w)
      × ((referenced_rids s).0.label ≡ s.label)
      × ((referenced_rids s).0.edges ≡ s.edges)
unfolding referenced_rids
referenced_rids-keeps s = elim (Option-cases s.refd) [
  | inl e ↦ rw e (refl, refl, refl, refl)
  | inr (rids, e) ↦ rw e (refl, refl, refl, refl)
]

referenced_rids-Fresh : (s : CcShard) → s.refd ≡ none → (referenced_rids s).1 ≡ endpoints s.edges []
unfolding referenced_rids
referenced_rids-Fresh s e = rw e refl

pub edges_of-with_refd : (ss : List CcShard) → edges_of (with_refd ss) ≡ shard_edges ss
unfolding with_refd
edges_of-with_refd [] = refl
edges_of-with_refd (s ∷ ss) =
    let (sid, width, label, edges) = referenced_rids-keeps s in
    ap₂ (λ u v. u ++ v) edges (edges_of-with_refd ss)

-- The sets of the shards that the driver asks for.
module _ (w : ℕ) (ss : List CcShard) (d : Dealt w ss) where
  source :
      (x : CcShard × List ℕ) (j : ℕ)
      → get_elem? (with_refd ss) j ≡ some x
      → (s : CcShard) × (get_elem? ss j ≡ some s) × (referenced_rids s ≡ x)
  unfolding with_refd
  source x j g = get_elem?_of_map referenced_rids ss j g

  pub with_refd-label : (x : CcShard × List ℕ) → Memᴰ x (with_refd ss) → x.0.label ≡ []
  with_refd-label x m =
      let (j, g) = Memᴰ_to_get m in
      let (s, at, e) = source x j g in
      let (sid, width, label, edges) = referenced_rids-keeps s in
      sym (ap (λ (v : CcShard × List ℕ). v.0.label) e) ∙ label ∙ (d.fresh j at).no_labels

  asks : (x : CcShard × List ℕ) → Memᴰ x (with_refd ss) → Asks x
  asks x m a b i =
      let (j, g) = Memᴰ_to_get m in
      let (s, at, e) = source x j g in
      let (sid, width, label, edges) = referenced_rids-keeps s in
      let p : x.0.edges ≡ s.edges = sym (ap (λ (v : CcShard × List ℕ). v.0.edges) e) ∙ edges in
      let q : x.1 ≡ endpoints s.edges [] =
        sym (ap (λ (v : CcShard × List ℕ). v.1) e)
        ∙ referenced_rids-Fresh s (d.fresh j at).no_rids in
      let (at_a, at_b) = endpoints-both s.edges [] (subst (Memᴰ (a, b)) p i) in
      (subst (Memᴰ a) (sym q) at_a, subst (Memᴰ b) (sym q) at_b)

  owns :
      (j : ℕ) (s : CcShard)
      → get_elem? (shards_of (with_refd ss)) j ≡ some s
      → (s.sid ≡ j) × (s.w ≡ w)
  owns j s g =
      let (x, at_x, e) = get_elem?_of_map (λ (x : CcShard × List ℕ). x.0) (with_refd ss) j g in
      let (t, at, e') = source x j at_x in
      let (sid, width, label, edges) = referenced_rids-keeps t in
      let q : (referenced_rids t).0 ≡ s = ap (λ (v : CcShard × List ℕ). v.0) e' ∙ e in
      let (sid', width') = d.sharded.own j at in
      (sym (ap (λ v. v.sid) q) ∙ sid ∙ sid', sym (ap (λ v. v.w) q) ∙ width ∙ width')

  length-with_refd : length (with_refd ss) ≡ length ss
  unfolding with_refd
  length-with_refd = length-map ss referenced_rids

  pub with_refd-Ready : Ready w (with_refd ss)
  with_refd-Ready = record {
    sharded = record {
      size = length-map (with_refd ss) _ ∙ length-with_refd ∙ d.sharded.size;
      own = λ j g. owns j _ g;
    };
    asks = asks;
  }

-- The shards that `connected_components` starts with.
abbrev pub dealt : ℕ → List (Option (List Edge)) → List CcShard
dealt w refs = distribute w 0 refs (new_shards 0 w w)

module _ (w : ℕ) (pos : 0 < w) (refs : List (Option (List Edge))) where
  pub dealt-is : Dealt w (dealt w refs)
  dealt-is = distribute-Dealt w pos 0 refs (new_shards 0 w w) (new_shards-Dealt w)

  pub dealt-edges :
      (e : Edge) → Memᴰ e (edges_of (with_refd (dealt w refs))) → Memᴰ e (all_edges refs)
  dealt-edges e m =
      elim (distribute-edges w 0 refs (new_shards 0 w w) e
        (subst (Memᴰ e) (edges_of-with_refd (dealt w refs)) m)) [
          | inl l ↦ absurd (elim (subst (Memᴰ e) (new_shards-edges 0 w w) l) [ ])
          | inr r ↦ r
        ]

  pub edges-dealt :
      (e : Edge) → Memᴰ e (all_edges refs) → Memᴰ e (edges_of (with_refd (dealt w refs)))
  edges-dealt e m =
      subst (Memᴰ e) (sym (edges_of-with_refd (dealt w refs)))
        (distribute-edges_new w pos 0 refs (new_shards 0 w w) e (new_shards-Dealt w) m)

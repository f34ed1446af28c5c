-- ===== src/Dedup/Propagation/Dealt.antt =====
-- The shards that the driver starts with: `distribute` and `with_refd`.
use jude.Prelude.{
  ℕ, zero, suc, ◌+◌, ◌%◌, ◌≡◌, ◌<◌, refl, sym, ◌⊎◌, inl, inr, Option, some, none, List, [], ◌∷◌,
  ◌++◌, arith, Memᴰ, length, get_elem?, get_or, set, subst, ap, ◌∙◌, length-set, mod-lt, ℕ_discrete,
  Memᴰ-append, Memᴰ-append_left, Memᴰ-append_right, get_elem?-set_self, get_elem?-set_ne,
  get_elem?_of_lt,
}
use jude.Graph.{Edge}
use jude.Dedup.Propagation.{CcShard, new_shard, extend_edges, add_edges, new_shards, distribute}
use jude.Dedup.Propagation.Snapshot.{Sharded}

-- The edges of the tables that are there.
abbrev pub all_edges : List (Option (List Edge)) → List Edge
all_edges [] = []
all_edges (none ∷ tables) = all_edges tables
all_edges (some t ∷ tables) = t ++ all_edges tables

abbrev pub shard_edges : List CcShard → List Edge
shard_edges [] = []
shard_edges (s ∷ ss) = s.edges ++ shard_edges ss

all_edges-head :
    (ref : Option (List Edge)) (refs : List (Option (List Edge))) (e : Edge)
    → Memᴰ e (all_edges (ref ∷ []))
    → Memᴰ e (all_edges (ref ∷ refs))
all_edges-head none refs e m = elim m [ ]
all_edges-head (some t) refs e m = elim (Memᴰ-append t m) [
  | inl l ↦ Memᴰ-append_left _ l
  | inr r ↦ elim r [ ]
]

all_edges-tail :
    (ref : Option (List Edge)) (refs : List (Option (List Edge))) (e : Edge)
    → Memᴰ e (all_edges refs)
    → Memᴰ e (all_edges (ref ∷ refs))
all_edges-tail none refs e m = m
all_edges-tail (some t) refs e m = Memᴰ-append_right t m

all_edges-split :
    (ref : Option (List Edge)) (refs : List (Option (List Edge))) (e : Edge)
    → Memᴰ e (all_edges (ref ∷ refs))
    → Memᴰ e (all_edges (ref ∷ [])) ⊎ Memᴰ e (all_edges refs)
all_edges-split none refs e m = inr m
all_edges-split (some t) refs e m = elim (Memᴰ-append t m) [
  | inl l ↦ inl (Memᴰ-append_left [] l)
  | inr r ↦ inr r
]

get_or-get :
    {A : Type 0} (xs : List A) (k : ℕ) (d : A) {x : A} → get_elem? xs k ≡ some x → get_or xs k d ≡ x
get_or-get [] k d g = cc
get_or-get (y ∷ xs) zero d g = cc
get_or-get (y ∷ xs) (suc k) d g = get_or-get xs k d g

-- A shard that has not started.
pub record Fresh (s : CcShard) : Type 0 where
  pub no_labels : s.label ≡ []
  pub no_rids : s.refd ≡ none

pub record Dealt (w : ℕ) (shards : List CcShard) : Type 0 where
  pub sharded : Sharded w shards
  pub fresh : (j : ℕ) {s : CcShard} → get_elem? shards j ≡ some s → Fresh s

new_shards-get :
    (o n w j : ℕ) {s : CcShard} → get_elem? (new_shards o n w) j ≡ some s → s ≡ new_shard (o + j) w
unfolding new_shards
new_shards-get o zero w j g = cc
new_shards-get o (suc n) w zero {s} g =
    let z : o ≡ o + 0 = omega arith in subst (λ v. s ≡ new_shard v w) z cc
new_shards-get o (suc n) w (suc j) {s} g =
    let z : suc o + j ≡ o + suc j = omega arith in
    subst (λ v. s ≡ new_shard v w) z (new_shards-get (suc o) n w j g)

new_shards-length : (o n w : ℕ) → length (new_shards o n w) ≡ n
unfolding new_shards
new_shards-length o zero w = refl
new_shards-length o (suc n) w = ap suc (new_shards-length (suc o) n w)

pub new_shards-edges : (o n w : ℕ) → shard_edges (new_shards o n w) ≡ []
unfolding new_shards
new_shards-edges o zero w = refl
new_shards-edges o (suc n) w = new_shards-edges (suc o) n w

pub new_shards-Dealt : (w : ℕ) → Dealt w (new_shards 0 w w)
new_shards-Dealt w = record {
  sharded = record {
    size = new_shards-length 0 w w;
    own = λ j g.
        let e = new_shards-get 0 w w j g in (ap (λ v. v.sid) e ∙ omega arith, ap (λ v. v.w) e);
  };
  fresh = λ j g.
      let e = new_shards-get 0 w w j g in
      record { no_labels = ap (λ v. v.label) e; no_rids = ap (λ v. v.refd) e };
}

-- One reference goes to one shard.
deal-edges :
    (ref : Option (List Edge)) (ss : List CcShard) (k : ℕ) (d : CcShard) (e : Edge)
    → Memᴰ e (shard_edges (set ss k (add_edges (ref ∷ []) (get_or ss k d))))
    → Memᴰ e (shard_edges ss) ⊎ Memᴰ e (all_edges (ref ∷ []))
unfolding add_edges extend_edges
deal-edges ref [] k d e m = inl m
deal-edges none (s ∷ ss) zero d e m = inl m
deal-edges (some t) (s ∷ ss) zero d e m = elim (Memᴰ-append (s.edges ++ t) m) [
  | inr r ↦ inl (Memᴰ-append_right s.edges r)
  | inl l ↦ elim (Memᴰ-append s.edges l) [
    | inl h ↦ inl (Memᴰ-append_left _ h)
    | inr n ↦ inr (Memᴰ-append_left [] n)
  ]
]
deal-edges ref (s ∷ ss) (suc k) d e m = elim (Memᴰ-append s.edges m) [
  | inl l ↦ inl (Memᴰ-append_left _ l)
  | inr r ↦ elim (deal-edges ref ss k d e r) [
    | inl h ↦ inl (Memᴰ-append_right s.edges h)
    | inr n ↦ inr n
  ]
]

deal-edges_old :
    (ref : Option (List Edge)) (ss : List CcShard) (k : ℕ) (d : CcShard) (e : Edge)
    → Memᴰ e (shard_edges ss)
    → Memᴰ e (shard_edges (set ss k (add_edges (ref ∷ []) (get_or ss k d))))
unfolding add_edges extend_edges
deal-edges_old ref [] k d e m = m
deal-edges_old none (s ∷ ss) zero d e m = m
deal-edges_old (some t) (s ∷ ss) zero d e m = elim (Memᴰ-append s.edges m) [
  | inl l ↦ Memᴰ-append_left _ (Memᴰ-append_left t l)
  | inr r ↦ Memᴰ-append_right (s.edges ++ t) r
]
deal-edges_old ref (s ∷ ss) (suc k) d e m = elim (Memᴰ-append s.edges m) [
  | inl l ↦ Memᴰ-append_left _ l
  | inr r ↦ Memᴰ-append_right s.edges (deal-edges_old ref ss k d e r)
]

deal-edges_new :
    (ref : Option (List Edge)) (ss : List CcShard) (k : ℕ) (d : CcShard) (e : Edge)
    → k < length ss
    → Memᴰ e (all_edges (ref ∷ []))
    → Memᴰ e (shard_edges (set ss k (add_edges (ref ∷ []) (get_or ss k d))))
unfolding add_edges extend_edges
deal-edges_new ref [] k d e h m = elim h [ ]
deal-edges_new none (s ∷ ss) zero d e h m = elim m [ ]
deal-edges_new (some t) (s ∷ ss) zero d e h m = elim (Memᴰ-append t m) [
  | inl l ↦ Memᴰ-append_left _ (Memᴰ-append_right s.edges l)
  | inr r ↦ elim r [ ]
]
deal-edges_new ref (s ∷ ss) (suc k) d e h m =
    Memᴰ-append_right s.edges (deal-edges_new ref ss k d e (omega arith) m)

-- What stands at a place after one reference has been dealt.
deal_slot :
    (w k : ℕ) (ref : Option (List Edge)) (ss : List CcShard) (j : ℕ) (t : CcShard)
    → k < w
    → Dealt w ss
    → get_elem? (set ss k (add_edges (ref ∷ []) (get_or ss k (new_shard k w)))) j ≡ some t
    → (t.sid ≡ j) × (t.w ≡ w) × Fresh t
unfolding add_edges
deal_slot w k ref ss j t h d g = elim (ℕ_discrete k j) [
  | no n ↦
      let g' = sym (get_elem?-set_ne ss _ n) ∙ g in
      let (sid, width) = d.sharded.own j g' in (sid, width, d.fresh j g')
  | yes e ↦
      let (s, at) = get_elem?_of_lt ss k (omega (arith, h, d.sharded.size)) in
      let old : get_or ss k (new_shard k w) ≡ s = get_or-get ss k _ at in
      let new = add_edges (ref ∷ []) (get_or ss k (new_shard k w)) in
      let here = get_elem?-set_self ss k new (omega (arith, h, d.sharded.size)) in
      let g' = subst (λ v. get_elem? (set ss k new) v ≡ some t) (sym e) g in
      let q : t ≡ new = cc in
      let (sid, width) = d.sharded.own k at in
      let fresh = d.fresh k at in
      (
        ap (λ v. v.sid) q ∙ ap (λ v. v.sid) old ∙ sid ∙ e,
        ap (λ v. v.w) q ∙ ap (λ v. v.w) old ∙ width,
        record {
          no_labels = ap (λ v. v.label) q ∙ ap (λ v. v.label) old ∙ fresh.no_labels;
          no_rids = ap (λ v. v.refd) q;
        },
      )
]

deal_ref-Dealt :
    (w k : ℕ) (ref : Option (List Edge)) (ss : List CcShard)
    → k < w
    → Dealt w ss
    → Dealt w (set ss k (add_edges (ref ∷ []) (get_or ss k (new_shard k w))))
deal_ref-Dealt w k ref ss h d = record {
  sharded = record {
    size = length-set ss k _ ∙ d.sharded.size;
    own = λ j g. let (sid, width, fresh) = deal_slot w k ref ss j _ h d g in (sid, width);
  };
  fresh = λ j g. (deal_slot w k ref ss j _ h d g).2;
}

pub distribute-Dealt :
    (w : ℕ)
    → 0 < w
    → (i : ℕ) (refs : List (Option (List Edge))) (ss : List CcShard) → Dealt w ss
    → Dealt w (distribute w i refs ss)
unfolding distribute
distribute-Dealt w pos i [] ss d = d
distribute-Dealt w pos i (ref ∷ refs) ss d =
    distribute-Dealt w pos (suc i) refs _ (deal_ref-Dealt w (i % w) ref ss (mod-lt i pos) d)

-- The shards hold the edges of the tables, and no others.
pub distribute-edges :
    (w i : ℕ) (refs : List (Option (List Edge))) (ss : List CcShard) (e : Edge)
    → Memᴰ e (shard_edges (distribute w i refs ss))
    → Memᴰ e (shard_edges ss) ⊎ Memᴰ e (all_edges refs)
unfolding distribute
distribute-edges w i [] ss e m = inl m
distribute-edges w i (ref ∷ refs) ss e m = elim (distribute-edges w (suc i) refs _ e m) [
  | inr r ↦ inr (all_edges-tail ref refs e r)
  | inl l ↦ elim (deal-edges ref ss (i % w) (new_shard (i % w) w) e l) [
    | inl h ↦ inl h
    | inr n ↦ inr (all_edges-head ref refs e n)
  ]
]

distribute-edges_old :
    (w i : ℕ) (refs : List (Option (List Edge))) (ss : List CcShard) (e : Edge)
    → Memᴰ e (shard_edges ss)
    → Memᴰ e (shard_edges (distribute w i refs ss))
unfolding distribute
distribute-edges_old w i [] ss e m = m
distribute-edges_old w i (ref ∷ refs) ss e m =
    distribute-edges_old w (suc i) refs _ e (deal-edges_old ref ss (i % w) _ e m)

pub distribute-edges_new :
    (w : ℕ)
    → 0 < w
    → (i : ℕ) (refs : List (Option (List Edge))) (ss : List CcShard) (e : Edge) → Dealt w ss
    → Memᴰ e (all_edges refs)
    → Memᴰ e (shard_edges (distribute w i refs ss))
unfolding distribute
distribute-edges_new w pos i [] ss e d m = elim m [ ]
distribute-edges_new w pos i (ref ∷ refs) ss e d m = elim (all_edges-split ref refs e m) [
  | inl l ↦
      distribute-edges_old w (suc i) refs _ e
        (deal-edges_new ref ss (i % w) _ e (omega (arith, mod-lt i pos, d.sharded.size)) l)
  | inr r ↦
      distribute-edges_new w pos (suc i) refs _ e (deal_ref-Dealt w (i % w) ref ss (mod-lt i pos) d)
        r
]

-- ===== src/Dedup/Propagation/Rounds.antt =====
-- The sharded round against the synchronous one.
use jude.Prelude.{
  ℕ, zero, suc, ◌%◌, ◌≡◌, ◌≤◌, ◌<◌, refl, sym, inl, inr, some, List, [], min, arith, get_or,
  get_elem?, replicate, Memᴰ, Dict, subst, subst₂, ap, ◌∙◌, mod-lt, get_elem?_of_lt, get_elem?-lt,
  get_elem?_of_map, length-replicate, Memᴰ_to_get, length-map, InGroup,
}
use jude.Dedup.Propagation.{
  CcShard, shards_of, label_of, apply, apply_all, propagate, route_groups, take_mins,
}
use jude.Dedup.Propagation.Snapshot.{label_at, get_elem?-map}
use jude.Dedup.Propagation.Proposals.{Proposal}
use jude.Dedup.Propagation.Routing.{For, route_groups-For, route_groups-For_new}
use jude.Dedup.Propagation.Applied.{at, Applied, take_mins-Applied}
use jude.Dedup.Propagation.Synchronous.{
  Round, Ready, Asks, edges_of, Grouped, message_groups-Grouped, after, apply_all-Took,
  apply_all-length, apply_all-edges, apply_all-Memᴰ,
}

no_messages : (w o : ℕ) {p : ℕ × ℕ} → ¬ For o p (replicate w [])
no_messages zero o m = elim m [ ]
no_messages (suc w) zero m = elim m [ ]
no_messages (suc w) (suc o) m = no_messages w o m

label_at-here :
    (w : ℕ) (shards : List CcShard) (r : ℕ) {s : CcShard}
    → get_elem? shards (r % w) ≡ some s
    → label_at w shards r ≡ at s.label r
unfolding label_at label_of
label_at-here w shards r g = rw (g, label_at) refl

module _ (w : ℕ) (pos : 0 < w) (xs : List (CcShard × List ℕ)) (ready : Ready w xs) where
  abbrev old : ℕ → ℕ
  old = label_at w (shards_of xs)

  asked : (x : CcShard × List ℕ) → Memᴰ x xs → (x.0.w ≡ w) × Asks x
  asked x m =
      let (j, g) = Memᴰ_to_get m in
      (
        (ready.sharded.own j (get_elem?-map (λ (x : CcShard × List ℕ). x.0) xs j g)).1,
        ready.asks x m,
      )

  module _ (groups : List (Dict ℕ (List (ℕ × ℕ))))
      (grouped : Grouped w pos (shards_of xs) ready.sharded (edges_of xs) groups) where
    abbrev per : List (List (ℕ × ℕ))
    per = route_groups groups (replicate w [])

    abbrev out : List (CcShard × List ℕ) × ℕ
    out = apply_all 0 per xs

    -- What the round does to the label of `r`.
    record Local (r : ℕ) : Type 0 where
      before : Dict ℕ ℕ
      now : Dict ℕ ℕ
      count : ℕ
      was : old r ≡ at before r
      is : label_at w (shards_of out.0) r ≡ at now r
      applied : Applied w (r % w) (get_or per (r % w) []) before now 0 count
      counted : out.1 ≡ 0 → count ≡ 0

    local : (r : ℕ) → Local r
    unfolding apply
    local r =
        let (x, g) = get_elem?_of_lt xs (r % w) (
          omega (
            arith,
            mod-lt r pos,
            ready.sharded.size,
            length-map xs (λ (x : CcShard × List ℕ). x.0),
          )) in
        let here = get_elem?-map (λ (x : CcShard × List ℕ). x.0) xs (r % w) g in
        let (sid, width) = ready.sharded.own (r % w) here in
        let took = apply_all-Took 0 per xs (r % w) (r % w) {x = x} (omega arith) g in
        record {
          before = x.0.label;
          now = (take_mins x.0.w x.0.sid (get_or per (r % w) []) (x.0.label, 0)).0;
          count = (take_mins x.0.w x.0.sid (get_or per (r % w) []) (x.0.label, 0)).1;
          was = label_at-here w _ r here;
          is =
              label_at-here w _ r
                (get_elem?-map (λ (x : CcShard × List ℕ). x.0) _ (r % w) took.there);
          applied =
              subst₂
                (λ u v.
                  Applied u v (get_or per (r % w) []) x.0.label
                    (take_mins x.0.w x.0.sid (get_or per (r % w) []) (x.0.label, 0)).0 0
                    (take_mins x.0.w x.0.sid (get_or per (r % w) []) (x.0.label, 0)).1)
                width sid (take_mins-Applied x.0.w x.0.sid (get_or per (r % w) []) x.0.label 0);
          counted = took.quiet;
        }

    abbrev empty : List (ℕ × ℕ)
    empty = []

    -- A message that the owner of `r` has.
    reached :
        (r : ℕ) {p : ℕ × ℕ}
        → (group : Dict ℕ (List (ℕ × ℕ))) → Memᴰ group groups
        → InGroup (r % w) p group
        → For (r % w) p per
    reached r group m i =
        route_groups-For_new (r % w) groups (replicate w [])
          (omega (arith, mod-lt r pos, length-replicate w empty)) m i

    offered : (r m : ℕ) → For (r % w) (r, m) per → Proposal old (edges_of xs) r m
    offered r m i = elim (route_groups-For (r % w) groups (replicate w []) i) [
      | inl none_yet ↦ absurd (no_messages w (r % w) none_yet)
      | inr (group, at_group, j) ↦ grouped.only group (r % w) r m at_group j
    ]

    spreads :
        (a b : ℕ)
        → Memᴰ (a, b) (edges_of xs)
        → (label_at w (shards_of out.0) a ≤ min (old a) (old b))
          × (label_at w (shards_of out.0) b ≤ min (old a) (old b))
    spreads a b m =
        let (group, at_group, to_a, to_b) = grouped.sent a b m in
        let la = local a in
        let lb = local b in
        (
          subst (λ v. v ≤ min (old a) (old b)) (sym la.is)
              (la.applied.heard a _ refl (reached a group at_group to_a)),
          subst (λ v. v ≤ min (old a) (old b)) (sym lb.is)
              (lb.applied.heard b _ refl (reached b group at_group to_b)),
        )

    round : Round (edges_of xs) old (label_at w (shards_of out.0)) out.1
    round = record {
      below = λ r. let l = local r in omega (arith, l.was, l.is, l.applied.below r);
      spread = spreads;
      sourced = λ r.
          let l = local r in
          elim (l.applied.sourced r) [
            | inl e ↦ inl (l.is ∙ e ∙ sym l.was)
            | inr m ↦ inr (subst (λ v. Proposal old (edges_of xs) r v) (sym l.is) (offered r _ m))
          ];
      quiet = λ e r. let l = local r in l.is ∙ l.applied.quiet (l.counted e) r ∙ sym l.was;
    }

    owns : (j : ℕ) (s : CcShard) → get_elem? (shards_of out.0) j ≡ some s → (s.sid ≡ j) × (s.w ≡ w)
    unfolding apply
    owns j s g =
        let (y, at_y, e) = get_elem?_of_map (λ (x : CcShard × List ℕ). x.0) out.0 j g in
        let (x, at_x) =
          get_elem?_of_lt xs j
            (omega (arith, get_elem?-lt out.0 j at_y, apply_all-length 0 per xs)) in
        let took = apply_all-Took 0 per xs j j {x = x} (omega arith) at_x in
        let q : y ≡ after (get_or per j []) x = cc in
        let (sid, width) =
          ready.sharded.own j (get_elem?-map (λ (x : CcShard × List ℕ). x.0) xs j at_x) in
        (
          sym (ap (λ v. v.sid) e) ∙ ap (λ (v : CcShard × List ℕ). v.0.sid) q ∙ sid,
          sym (ap (λ v. v.w) e) ∙ ap (λ (v : CcShard × List ℕ). v.0.w) q ∙ width,
        )

    again : Ready w out.0
    again = record {
      sharded = record {
        size =
            length-map out.0 _
            ∙ apply_all-length 0 per xs
            ∙ sym (length-map xs _)
            ∙ ready.sharded.size;
        own = λ j g. owns j _ g;
      };
      asks = λ x m a b i.
          let (y, n, edges, need, sid, width) = apply_all-Memᴰ 0 per xs m in
          let (at_a, at_b) = ready.asks y n a b (subst (Memᴰ (a, b)) edges i) in
          (subst (Memᴰ a) (sym need) at_a, subst (Memᴰ b) (sym need) at_b);
    }

  -- With at least one shard, a round on shards that own their residues and ask for the ends of their
  -- edges returns such shards again, with the same edges, and is one synchronous round on the labels.
  pub propagate-Round :
      (out : List (CcShard × List ℕ) × ℕ) × (propagate w xs ≡ some out)
      × Ready w out.0
      × (edges_of out.0 ≡ edges_of xs)
      × Round (edges_of xs) (label_at w (shards_of xs)) (label_at w (shards_of out.0)) out.1
  unfolding propagate
  propagate-Round =
      let (groups, ran, grouped) =
        message_groups-Grouped w pos (shards_of xs) ready.sharded xs asked in
      (
        out groups grouped,
        rw ran refl,
        again groups grouped,
        apply_all-edges 0 (per groups grouped) xs,
        round groups grouped,
      )

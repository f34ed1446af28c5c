-- ===== src/Dedup/Propagation/Components.antt =====
-- The result of `connected_components`.
use jude.Prelude.{
  ℕ, ◌≡◌, ◌≤◌, ◌<◌, refl, sym, ◌∙◌, inl, inr, Option, some, List, [], max, arith, Memᴰ, subst, ap,
  Dict, lookup, nat_eq, get_default, All, All-of_mem, Option-cases, get_elem?, get_elem?_of_map,
  Memᴰ_of_get, lookup-nil, ◌%◌,
}
use jude.Graph.{Edge, Connected, same, IsLeast}
use jude.Dedup.Propagation.{
  CcShard, shards_of, with_refd, propagate_rounds, connected_components, label_of,
}
use jude.Dedup.Propagation.Snapshot.{label_at}
use jude.Dedup.Propagation.Synchronous.{edges_of}
use jude.Dedup.Propagation.Converged.{
  Within, stop, ahead, back, Covers, Settled, propagate_rounds-Settled, Steady-IsLeast,
  Within-Connected,
}
use jude.Dedup.Propagation.Dealt.{all_edges}
use jude.Dedup.Propagation.Asked.{
  dealt, dealt-is, dealt-edges, edges-dealt, with_refd-Ready, with_refd-label,
}
use jude.Dedup.Propagation.Labels.{ShardTidy, Distinct, propagate_rounds-Tidy, merged, merged-label}

Within-mono :
    {xs ys : List Edge} {t x y : ℕ}
    → ((e : Edge) → Memᴰ e xs → Memᴰ e ys)
    → Within xs t x y
    → Within ys t x y
Within-mono sub (stop e) = stop e
Within-mono sub (ahead m p) = ahead (sub _ m) (Within-mono sub p)
Within-mono sub (back m p) = back (sub _ m) (Within-mono sub p)

empty-Tidy : (x : CcShard × List ℕ) → x.0.label ≡ [] → ShardTidy x
empty-Tidy x e = record {
  distinct = subst Distinct (sym e) tt;
  mine = λ r v q. absurd (cc (subst (λ d. lookup r d ≡ some v) e q, lookup-nil {V = ℕ} r));
  small = λ r v q. absurd (cc (subst (λ d. lookup r d ≡ some v) e q, lookup-nil {V = ℕ} r));
}

-- What the label `m` of `r` is after some rounds: a vertex within that many edges, and no vertex
-- within that many edges is below it.
pub record IsNearest (edges : List Edge) (rounds r m : ℕ) : Type 0 where
  pub near : Within edges rounds r m
  pub nearest : (y : ℕ) → Within edges rounds r y → m ≤ y

module _ (num_workers max_rounds : ℕ) (refs : List (Option (List Edge))) where
  abbrev w : ℕ
  w = max 1 num_workers

  pos : 0 < w
  pos = omega arith

  abbrev start : List (CcShard × List ℕ)
  start = with_refd (dealt w refs)

  start-label : (r : ℕ) → label_at w (shards_of start) r ≡ r
  unfolding label_at label_of
  start-label r = elim (Option-cases (get_elem? (shards_of start) (r % w))) [
    | inl e ↦ rw (e, label_at) refl
    | inr (s, e) ↦
        let (x, at, q) = get_elem?_of_map (λ (x : CcShard × List ℕ). x.0) start (r % w) e in
        let empty : s.label ≡ [] =
          sym (ap (λ v. v.label) q)
          ∙ with_refd-label w (dealt w refs) (dealt-is w pos refs) x
              (Memᴰ_of_get start (r % w) at) in
        rw (e, label_at)
          (subst (λ d. get_default (lookup r d) r ≡ r) (sym empty) (rw (lookup-nil {V = ℕ} r) refl))
  ]

  run :
      (out : List (CcShard × List ℕ)) × (propagate_rounds max_rounds w start ≡ some out)
      × Settled w (edges_of start) max_rounds out
      × All ShardTidy out
  run =
      let (out, ran, settled) =
        propagate_rounds-Settled w pos (edges_of start) max_rounds 0 start
          (with_refd-Ready w (dealt w refs) (dealt-is w pos refs)) refl
          (record {
            linked = λ r. same (sym (start-label r));
            lower = λ r. omega (arith, start-label r);
          })
          (λ r. stop (sym (start-label r))) at_once in
      (
        out,
        ran,
        subst (λ v. Settled w (edges_of start) v out) (omega arith) settled,
        propagate_rounds-Tidy max_rounds w start out ran (
            All-of_mem start
              (λ x m. empty-Tidy x (with_refd-label w (dealt w refs) (dealt-is w pos refs) x m))),
      )
    where
      at_once : Covers (edges_of start) 0 (label_at w (shards_of start))
      at_once x y (stop e) = omega (arith, e, start-label x)

  lowest :
      (out : List (CcShard × List ℕ))
      → Settled w (edges_of start) max_rounds out
      → (r y : ℕ) → Within (all_edges refs) max_rounds r y
      → label_at w (shards_of out) r ≤ y
  lowest out s r y p =
      let q = Within-mono (edges-dealt w pos refs) p in
      elim s.spread [
        | inr covers ↦ covers r y q
        | inl steady ↦
            (Steady-IsLeast (edges_of start) _ s.sound steady r).least y (Within-Connected q)
      ]

  -- The call returns a dictionary. The label of a rid, which is the rid itself where the dictionary
  -- has none, is the least of the vertices within `max_rounds` edges of it.
  pub connected_components-IsNearest :
      (label : Dict ℕ ℕ) × (connected_components num_workers max_rounds refs ≡ some label)
      × ((r : ℕ) → IsNearest (all_edges refs) max_rounds r (get_default (lookup r label) r))
  unfolding connected_components
  connected_components-IsNearest =
      let (out, ran, settled, tidy) = run in
      let label = merged w pos out settled.ready.sharded tidy in
      let is = merged-label w pos out settled.ready.sharded tidy in
      (
        label,
        rw ran refl,
        (λ r. record {
          near =
              subst (Within (all_edges refs) max_rounds r) (sym (is r))
                (Within-mono (dealt-edges w pos refs) (settled.reaches r));
          nearest = λ y p. subst (λ v. v ≤ y) (sym (is r)) (lowest out settled r y p);
        }),
      )

  -- When any two connected vertices are within `max_rounds` edges of each other, the labels are the
  -- least vertices of the components.
  pub connected_components-IsLeast :
      ((x y : ℕ) → Connected (all_edges refs) x y → Within (all_edges refs) max_rounds x y)
      → (label : Dict ℕ ℕ) → connected_components num_workers max_rounds refs ≡ some label
      → (r : ℕ) → IsLeast (all_edges refs) r (get_default (lookup r label) r)
  connected_components-IsLeast close label ran r =
      let (label', ran', nearest) = connected_components-IsNearest in
      let q : label' ≡ label = cc in
      subst (λ (d : Dict ℕ ℕ). IsLeast (all_edges refs) r (get_default (lookup r d) r)) q
        (record {
          linked = Within-Connected (nearest r).near;
          least = λ y c. (nearest r).nearest y (close r y c);
        })

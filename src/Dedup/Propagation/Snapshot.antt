-- ===== src/Dedup/Propagation/Snapshot.antt =====
-- The labels that the shards hold together, and the snapshot of one shard, which `snapshot_for`
-- collects from all of them.
use jude.Prelude.{
  ℕ, zero, suc, ◌%◌, ◌≡◌, ◌<◌, refl, sym, inl, inr, true, none, some, List, [], ◌∷◌, map, arith,
  length, get_elem?, get_elem?_of_lt, Memᴰ, ◌==◌, Bool-cases, Dict, lookup, insert, nat_eq, subst,
  mod-lt, add, ap, ◌∙◌, get_elem?_of_map, Memᴰ-add_self, Memᴰ-add_old,
}
use jude.Graph.{Edge}
use jude.Dedup.Propagation.{
  CcShard, label_of, collect_labels, labels_for, merge_labels, snapshot_for, endpoints,
}
use jude.Dedup.Propagation.Agreement.{
  Agrees, Has, lookup-Agrees, insert-Agrees, insert-Has, insert-Has_self, update-Agrees,
  update-Has_old, update-Has,
}

-- The shard at each place owns the residue of that place.
pub record Sharded (w : ℕ) (shards : List CcShard) : Type 0 where
  pub size : length shards ≡ w
  pub own : (j : ℕ) {s : CcShard} → get_elem? shards j ≡ some s → (s.sid ≡ j) × (s.w ≡ w)

-- The label of `r`, which its owner holds.
unfoldable pub label_at : ℕ → List CcShard → ℕ → ℕ
unfolding label_of
label_at w shards r = elim (get_elem? shards (r % w)) [ none ↦ r | some s ↦ label_of s r ]

-- The labels of one shard.
module _ (f : ℕ → ℕ) (s : CcShard) (mine : (r : ℕ) → r % s.w ≡ s.sid → label_of s r ≡ f r) where
  collect_labels-Agrees :
      (rids : List ℕ) (d : Dict ℕ ℕ) → Agrees f d → Agrees f (collect_labels s rids d)
  unfolding collect_labels
  collect_labels-Agrees [] d h = h
  collect_labels-Agrees (r ∷ rids) d h = elim (Bool-cases (r % s.w == s.sid)) [
    | inl y ↦ rw y (collect_labels-Agrees rids _ (insert-Agrees f r _ d (mine r (ground arith)) h))
    | inr n ↦ rw n (collect_labels-Agrees rids d h)
  ]

  pub labels_for-Agrees : (rids : List ℕ) → Agrees f (labels_for rids s)
  unfolding labels_for
  labels_for-Agrees rids = collect_labels-Agrees rids [] tt

collect_labels-Has_old :
    {r : ℕ} (s : CcShard) (rids : List ℕ) (d : Dict ℕ ℕ) → Has r d → Has r (collect_labels s rids d)
unfolding collect_labels
collect_labels-Has_old s [] d h = h
collect_labels-Has_old s (k ∷ rids) d h = elim (Bool-cases (k % s.w == s.sid)) [
  | inl y ↦ rw y (collect_labels-Has_old s rids _ (insert-Has k _ d h))
  | inr n ↦ rw n (collect_labels-Has_old s rids d h)
]

collect_labels-Has :
    {r : ℕ} (s : CcShard) (rids : List ℕ) (d : Dict ℕ ℕ)
    → r % s.w ≡ s.sid
    → Memᴰ r rids
    → Has r (collect_labels s rids d)
unfolding collect_labels
collect_labels-Has s [] d o m = elim m [ ]
collect_labels-Has {r} s (k ∷ rids) d o (Memᴰ.head e) =
    let y : (k % s.w == s.sid) ≡ true = ground arith in
    rw y (
      collect_labels-Has_old s rids _ (
        subst (λ x. Has x (insert k (label_of s k) d)) (sym e)
          (insert-Has_self k (label_of s k) d)))
collect_labels-Has s (k ∷ rids) d o (Memᴰ.tail m) = collect_labels-Has s rids _ o m

labels_for-Has :
    {r : ℕ} (s : CcShard) (rids : List ℕ)
    → r % s.w ≡ s.sid
    → Memᴰ r rids
    → Has r (labels_for rids s)
unfolding labels_for
labels_for-Has s rids o m = collect_labels-Has s rids [] o m

-- The union of the parts.
merge-Has_old :
    {r : ℕ} (parts : List (Dict ℕ ℕ)) (snap : Dict ℕ ℕ)
    → Has r snap
    → Has r (merge_labels parts snap)
unfolding merge_labels
merge-Has_old [] snap h = h
merge-Has_old (p ∷ parts) snap h = merge-Has_old parts _ (update-Has_old snap p h)

pub merge-Has :
    {r : ℕ} {p : Dict ℕ ℕ} (parts : List (Dict ℕ ℕ)) (snap : Dict ℕ ℕ) (j : ℕ)
    → get_elem? parts j ≡ some p
    → Has r p
    → Has r (merge_labels parts snap)
unfolding merge_labels
merge-Has [] snap j g h = cc
merge-Has {r} {p = q} (p ∷ parts) snap zero g h =
    let same : q ≡ p = cc in merge-Has_old parts _ (update-Has snap p (subst (Has r) same h))
merge-Has (p ∷ parts) snap (suc j) g h = merge-Has parts _ j g h

pub merge-Agrees :
    (f : ℕ → ℕ) (parts : List (Dict ℕ ℕ)) (snap : Dict ℕ ℕ)
    → ((j : ℕ) (p : Dict ℕ ℕ) → get_elem? parts j ≡ some p → Agrees f p)
    → Agrees f snap
    → Agrees f (merge_labels parts snap)
unfolding merge_labels
merge-Agrees f [] snap h hs = hs
merge-Agrees f (p ∷ parts) snap h hs =
    merge-Agrees f parts _ (λ j q g. h (suc j) q g) (update-Agrees f snap p hs (h 0 p refl))

-- The parts that the shards return.
pub get_elem?-map :
    {A : Type 0} {B : Type 0} (f : A → B) (xs : List A) (j : ℕ) {x : A}
    → get_elem? xs j ≡ some x
    → get_elem? (map f xs) j ≡ some (f x)
get_elem?-map f [] j g = cc
get_elem?-map f (x ∷ xs) zero g = cc
get_elem?-map f (x ∷ xs) (suc j) g = get_elem?-map f xs j g

module _ (w : ℕ) (pos : 0 < w) (shards : List CcShard) (sharded : Sharded w shards) where
  pub owner : (r : ℕ) → (s : CcShard) × (get_elem? shards (r % w) ≡ some s)
  owner r = get_elem?_of_lt shards (r % w) (omega (arith, mod-lt r pos, sharded.size))

  -- A shard holds the labels of its residue.
  pub label_at-own :
      (j : ℕ) {s : CcShard} (r : ℕ)
      → get_elem? shards j ≡ some s
      → r % s.w ≡ s.sid
      → label_of s r ≡ label_at w shards r
  unfolding label_at label_of
  label_at-own j {s} r g o =
      let (sid, width) = sharded.own j g in
      let at : r % w ≡ j = sym (ap (λ v. r % v) width) ∙ o ∙ sid in rw (at, g, label_at) refl

  -- The snapshot holds the present label of every rid that was asked for.
  pub snapshot_for-lookup :
      (need : List ℕ) (r : ℕ)
      → Memᴰ r need
      → lookup r (snapshot_for shards need) ≡ some (label_at w shards r)
  unfolding snapshot_for
  snapshot_for-lookup [] r m = elim m [ ]
  snapshot_for-lookup (k ∷ need) r m =
      let (s, g) = owner r in
      let (sid, width) = sharded.own (r % w) g in
      let mine : r % s.w ≡ s.sid = ap (λ v. r % v) width ∙ sym sid in
      let parts = map (labels_for (k ∷ need)) shards in
      let has =
        merge-Has parts [] (r % w) (get_elem?-map (labels_for (k ∷ need)) shards (r % w) g)
          (labels_for-Has s (k ∷ need) mine m) in
      let agrees = merge-Agrees (label_at w shards) parts [] (λ j p e. part j p e) tt in
      has.found ∙ ap some (lookup-Agrees (label_at w shards) r {v = has.value} _ agrees has.found)
    where
      part :
          (j : ℕ) (p : Dict ℕ ℕ)
          → get_elem? (map (labels_for (k ∷ need)) shards) j ≡ some p
          → Agrees (label_at w shards) p
      part j p e =
          let (s, g, q) = get_elem?_of_map (labels_for (k ∷ need)) shards j e in
          subst (Agrees (label_at w shards)) q
            (labels_for-Agrees (label_at w shards) s (λ i o. label_at-own j i g o) (k ∷ need))

-- The set of a shard has both ends of each of its edges.
pub endpoints-old :
    (edges : List Edge) (rids : List ℕ) {r : ℕ} → Memᴰ r rids → Memᴰ r (endpoints edges rids)
unfolding endpoints
endpoints-old [] rids m = m
endpoints-old ((a, b) ∷ edges) rids m = endpoints-old edges _ (Memᴰ-add_old b (Memᴰ-add_old a m))

pub endpoints-both :
    (edges : List Edge) (rids : List ℕ) {a b : ℕ}
    → Memᴰ (a, b) edges
    → Memᴰ a (endpoints edges rids) × Memᴰ b (endpoints edges rids)
unfolding endpoints
endpoints-both [] rids m = elim m [ ]
endpoints-both ((c, d) ∷ edges) rids {a} {b} (Memᴰ.head e) =
    let p : a ≡ c = ap (λ (v : Edge). v.0) e in
    let q : b ≡ d = ap (λ (v : Edge). v.1) e in
    (
      endpoints-old edges _
          (Memᴰ-add_old d (subst (λ v. Memᴰ v (add c rids)) (sym p) (Memᴰ-add_self c rids))),
      endpoints-old edges _
          (subst (λ v. Memᴰ v (add d (add c rids))) (sym q) (Memᴰ-add_self d (add c rids))),
    )
endpoints-both ((c, d) ∷ edges) rids (Memᴰ.tail m) = endpoints-both edges _ m

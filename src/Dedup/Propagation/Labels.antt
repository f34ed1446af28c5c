-- ===== src/Dedup/Propagation/Labels.antt =====
-- The dictionary that `connected_components` returns: what each shard keeps of its own.
use jude.Prelude.{
  ℕ, zero, suc, ◌%◌, ◌≡◌, ◌≤◌, ◌<◌, refl, sym, inl, inr, false, some, none, List, [], ◌∷◌, arith,
  subst, ap, ◌∙◌, Dict, lookup, insert, lookup-insert, nat_eq, get_default, get_or, All, All-get,
  eq_of_=?, get_elem?, get_elem?_of_map, Memᴰ_of_get, ==_refl, >>=-eq-some, replicate, ltb, ◌&&◌,
  ◌==◌, if◌then◌else◌, ◌=?◌, Bool-cases, Option-cases, map,
}
use jude.Dedup.Propagation.{
  CcShard, label_of, take_min, take_mins, apply, apply_all, propagate, propagate_rounds, shards_of,
  merge_labels, message_groups, route_groups,
}
use jude.Dedup.Propagation.Agreement.{Agrees, lookup-Agrees}
use jude.Dedup.Propagation.Snapshot.{
  Sharded, label_at, merge-Agrees, merge-Has, label_at-own, owner, get_elem?-map,
}

-- No key stands twice.
abbrev pub Distinct : Dict ℕ ℕ → Type 0
Distinct [] = Unit
Distinct ((k, v) ∷ d) = (lookup k d ≡ none) × Distinct d

flip_test : (j k : ℕ) → (j =? k) ≡ false → (k =? j) ≡ false
flip_test j k n = ground arith

insert-Distinct : (k v : ℕ) (d : Dict ℕ ℕ) → Distinct d → Distinct (insert k v d)
unfolding insert lookup
insert-Distinct k v [] h = (refl, tt)
insert-Distinct k v ((j, u) ∷ d) h = elim (Bool-cases (j =? k)) [
  | inl y ↦ rw y h
  | inr n ↦ rw n (rw (lookup-insert k j v d, flip_test j k n) h.0, insert-Distinct k v d h.1)
]

-- A label map: the keys belong to the shard, and every label is below its key.
pub record Tidy (w sid : ℕ) (label : Dict ℕ ℕ) : Type 0 where
  pub distinct : Distinct label
  pub mine : (r v : ℕ) → lookup r label ≡ some v → r % w ≡ sid
  pub small : (r v : ℕ) → lookup r label ≡ some v → v < r

Tidy-le :
    {w sid : ℕ} {label : Dict ℕ ℕ} (r : ℕ) → Tidy w sid label → get_default (lookup r label) r ≤ r
Tidy-le {label = label} r t = elim (Option-cases (lookup r label)) [
  | inl e ↦ rw e (omega arith)
  | inr (v, e) ↦ rw e (omega (arith, t.small r v e))
]

insert-Tidy :
    (w sid r m : ℕ) (label : Dict ℕ ℕ)
    → Tidy w sid label
    → r % w ≡ sid
    → m < r
    → Tidy w sid (insert r m label)
insert-Tidy w sid r m label t o less = record {
  distinct = insert-Distinct r m label t.distinct;
  mine = λ k v e. elim (Bool-cases (r =? k)) [
    | inl y ↦ let q : r ≡ k = eq_of_=? y in subst (λ u. u % w ≡ sid) q o
    | inr n ↦ t.mine k v (rw (lookup-insert r k m label, n) at e)
  ];
  small = λ k v e. elim (Bool-cases (r =? k)) [
    | inl y ↦
        let q : r ≡ k = eq_of_=? y in
        let s : some m ≡ some v = rw (lookup-insert r k m label, y) at e in
        let mv : m ≡ v = cc in omega (arith, less, q, mv)
    | inr n ↦ t.small k v (rw (lookup-insert r k m label, n) at e)
  ];
}

take_min-Tidy :
    (w sid : ℕ) (p : ℕ × ℕ) (label : Dict ℕ ℕ) (c : ℕ)
    → Tidy w sid label
    → Tidy w sid (take_min w sid p (label, c)).0
unfolding take_min
take_min-Tidy w sid (r, m) label c t =
    elim (Bool-cases ((r % w == sid) && ltb m (get_default (lookup r label) r))) [
      | inr n ↦ rw n t
      | inl y ↦ rw y (insert-Tidy w sid r m label t (ground arith) (ground (arith, Tidy-le r t)))
    ]

take_mins-Tidy :
    (w sid : ℕ) (ms : List (ℕ × ℕ)) (label : Dict ℕ ℕ) (c : ℕ)
    → Tidy w sid label
    → Tidy w sid (take_mins w sid ms (label, c)).0
unfolding take_mins
take_mins-Tidy w sid [] label c t = t
take_mins-Tidy w sid (p ∷ ms) label c t =
    take_mins-Tidy w sid ms _ _ (take_min-Tidy w sid p label c t)

abbrev pub ShardTidy : CcShard × List ℕ → Type 0
ShardTidy x = Tidy x.0.w x.0.sid x.0.label

apply_all-Tidy :
    (o : ℕ) (per : List (List (ℕ × ℕ))) (xs : List (CcShard × List ℕ))
    → All ShardTidy xs
    → All ShardTidy (apply_all o per xs).0
unfolding apply_all apply
apply_all-Tidy o per [] h = tt
apply_all-Tidy o per (x ∷ xs) h = (
  take_mins-Tidy x.0.w x.0.sid (get_or per o []) x.0.label 0 h.0,
  apply_all-Tidy (suc o) per xs h.1,
)

propagate-Tidy :
    (w : ℕ) (xs : List (CcShard × List ℕ)) (ys : List (CcShard × List ℕ)) (c : ℕ)
    → propagate w xs ≡ some (ys, c)
    → All ShardTidy xs
    → All ShardTidy ys
unfolding propagate
propagate-Tidy w xs ys c e h =
    let (groups, ran, done) = >>=-eq-some (message_groups (shards_of xs) xs) _ e in
    let q : apply_all 0 (route_groups groups (replicate w [])) xs ≡ (ys, c) = cc in
    subst (All ShardTidy) (ap (λ (v : List (CcShard × List ℕ) × ℕ). v.0) q)
      (apply_all-Tidy 0 (route_groups groups (replicate w [])) xs h)

pub propagate_rounds-Tidy :
    (rounds w : ℕ) (xs ys : List (CcShard × List ℕ))
    → propagate_rounds rounds w xs ≡ some ys
    → All ShardTidy xs
    → All ShardTidy ys
unfolding propagate_rounds
propagate_rounds-Tidy zero w xs ys e h = let q : xs ≡ ys = cc in subst (All ShardTidy) q h
propagate_rounds-Tidy (suc rounds) w xs ys e h =
    let (step, ran, done) = >>=-eq-some (propagate w xs) _ e in
    next (λ zs q g. propagate_rounds-Tidy rounds w zs ys q g) step.0 step.1 done
      (propagate-Tidy w xs step.0 step.1 ran h)
  where
    next :
        ((zs : List (CcShard × List ℕ))
          → propagate_rounds rounds w zs ≡ some ys
          → All ShardTidy zs
          → All ShardTidy ys)
        → (zs : List (CcShard × List ℕ)) (c : ℕ)
        → elim c [ zero ↦ some zs | suc _ ↦ propagate_rounds rounds w zs ] ≡ some ys
        → All ShardTidy zs
        → All ShardTidy ys
    next further zs zero q g = let p : zs ≡ ys = cc in subst (All ShardTidy) p g
    next further zs (suc c) q g = further zs q g

-- The entries of a label map are its lookups.
Distinct-Agrees :
    (f : ℕ → ℕ) (d : Dict ℕ ℕ)
    → Distinct d
    → ((r v : ℕ) → lookup r d ≡ some v → v ≡ f r)
    → Agrees f d
unfolding lookup
Distinct-Agrees f [] h e = tt
Distinct-Agrees f ((k, v) ∷ d) h e =
    (e k v (rw (==_refl k) refl), Distinct-Agrees f d h.1 (λ r u g. e r u (below r u g)))
  where
    below : (r u : ℕ) → lookup r d ≡ some u → (if k =? r then some v else lookup r d) ≡ some u
    below r u g = elim (Bool-cases (k =? r)) [
      | inr n ↦ rw n g
      | inl y ↦
          let q : k ≡ r = eq_of_=? y in
          let z : lookup r d ≡ none = subst (λ j. lookup j d ≡ none) q h.0 in absurd cc
    ]

-- The dictionary of all label maps has the labels that the shards hold.
module _ (w : ℕ) (pos : 0 < w) (xs : List (CcShard × List ℕ)) (sharded : Sharded w (shards_of xs))
    (tidy : All ShardTidy xs) where
  abbrev pub merged : Dict ℕ ℕ
  merged = merge_labels (map (λ s. s.label) (shards_of xs)) []

  part : (j : ℕ) (s : CcShard) → get_elem? (shards_of xs) j ≡ some s → Tidy s.w s.sid s.label
  part j s g =
      let (x, at, e) = get_elem?_of_map (λ (x : CcShard × List ℕ). x.0) xs j g in
      subst (λ (v : CcShard). Tidy v.w v.sid v.label) e
        (All-get ShardTidy xs tidy (Memᴰ_of_get xs j at))

  parts-Agrees :
      (j : ℕ) (p : Dict ℕ ℕ)
      → get_elem? (map (λ s. s.label) (shards_of xs)) j ≡ some p
      → Agrees (label_at w (shards_of xs)) p
  unfolding label_of
  parts-Agrees j p g =
      let (s, at, e) = get_elem?_of_map (λ (s : CcShard). s.label) (shards_of xs) j g in
      let t = part j s at in
      subst (Agrees (label_at w (shards_of xs))) e (
        Distinct-Agrees (label_at w (shards_of xs)) s.label t.distinct
          (λ r v q. rw q at (label_at-own w pos (shards_of xs) sharded j r at (t.mine r v q))))

  pub merged-lookup : (r v : ℕ) → lookup r merged ≡ some v → v ≡ label_at w (shards_of xs) r
  merged-lookup r v e =
      lookup-Agrees (label_at w (shards_of xs)) r {v = v} merged
        (merge-Agrees (label_at w (shards_of xs)) _ [] parts-Agrees tt) e

  pub merged-label : (r : ℕ) → get_default (lookup r merged) r ≡ label_at w (shards_of xs) r
  unfolding label_of
  merged-label r = elim (Option-cases (lookup r merged)) [
    | inr (v, e) ↦ rw e (merged-lookup r v e)
    | inl e ↦
        let (s, g) = owner w pos (shards_of xs) sharded r in
        let (sid, width) = sharded.own (r % w) g in
        let own =
          label_at-own w pos (shards_of xs) sharded (r % w) r g (ap (λ v. r % v) width ∙ sym sid) in
        elim (Option-cases (lookup r s.label)) [
          | inl q ↦ rw e (rw q at own)
          | inr (v, q) ↦
              let has =
                merge-Has (map (λ s. s.label) (shards_of xs)) [] (r % w)
                  (get_elem?-map (λ (s : CcShard). s.label) (shards_of xs) (r % w) g)
                  (record { value = v; found = q }) in
              absurd (cc (has.found, e))
        ]
  ]

-- ===== src/Dedup/Propagation/Synchronous.antt =====
-- One round of label propagation as a step on the labels of all rids, which the sharded round
-- implements.
use jude.Prelude.{
  ℕ, zero, suc, ◌+◌, ◌%◌, ◌≡◌, ◌≤◌, ◌<◌, refl, ◌⊎◌, inl, inr, some, List, [], ◌∷◌, min, ◌++◌, arith,
  length, get_or, get_elem?, Memᴰ, ◌>>=◌, Dict, lookup, nat_eq, subst, ap, InGroup, Memᴰ-append,
  Memᴰ-append_left, Memᴰ-append_right, Memᴰ-cons,
}
use jude.Graph.{Edge}
use jude.Dedup.Propagation.{
  CcShard, shards_of, compute_messages, snapshot_for, message_groups, apply, apply_all, propose,
}
use jude.Dedup.Propagation.Snapshot.{Sharded, label_at, snapshot_for-lookup}
use jude.Dedup.Propagation.Proposals.{Proposal, Proposed, propose-Proposed}

-- A synchronous round on the labels `f`: every edge offers the lesser label of its ends to both.
pub record Round (edges : List Edge) (f g : ℕ → ℕ) (changed : ℕ) : Type 0 where
  pub below : (r : ℕ) → g r ≤ f r
  pub spread : (a b : ℕ) → Memᴰ (a, b) edges → (g a ≤ min (f a) (f b)) × (g b ≤ min (f a) (f b))
  pub sourced : (r : ℕ) → (g r ≡ f r) ⊎ Proposal f edges r (g r)
  pub quiet : changed ≡ 0 → (r : ℕ) → g r ≡ f r

-- The edges of all shards.
abbrev pub edges_of : List (CcShard × List ℕ) → List Edge
edges_of [] = []
edges_of (x ∷ xs) = x.0.edges ++ edges_of xs

-- Each shard asks for the labels of both ends of its edges.
abbrev pub Asks : CcShard × List ℕ → Type 0
Asks x = (a b : ℕ) → Memᴰ (a, b) x.0.edges → Memᴰ a x.1 × Memᴰ b x.1

pub record Ready (w : ℕ) (xs : List (CcShard × List ℕ)) : Type 0 where
  pub sharded : Sharded w (shards_of xs)
  pub asks : (x : CcShard × List ℕ) → Memᴰ x xs → Asks x

module _ (w : ℕ) (pos : 0 < w) (shards : List CcShard) (sharded : Sharded w shards) where
  abbrev f : ℕ → ℕ
  f = label_at w shards

  pub record Grouped (edges : List Edge) (groups : List (Dict ℕ (List (ℕ × ℕ)))) : Type 0 where
    pub sent :
        (a b : ℕ)
        → Memᴰ (a, b) edges
        → (group : Dict ℕ (List (ℕ × ℕ))) × Memᴰ group groups
          × InGroup (a % w) (a, min (f a) (f b)) group
          × InGroup (b % w) (b, min (f a) (f b)) group
    pub only :
        (group : Dict ℕ (List (ℕ × ℕ))) (o r m : ℕ)
        → Memᴰ group groups
        → InGroup o (r, m) group
        → Proposal f edges r m

  widen :
      {r m : ℕ} (es fs : List Edge)
      → ((e : Edge) → Memᴰ e es → Memᴰ e fs)
      → Proposal f es r m
      → Proposal f fs r m
  widen es fs sub p = record {
    left = p.left;
    right = p.right;
    is_edge = sub _ p.is_edge;
    is_end = p.is_end;
    is_min = p.is_min;
  }

  cons-Grouped :
      (snapshot : Dict ℕ ℕ) (es fs : List Edge) (group : Dict ℕ (List (ℕ × ℕ)))
      (groups : List (Dict ℕ (List (ℕ × ℕ))))
      → Proposed w f snapshot es [] group
      → Grouped fs groups
      → Grouped (es ++ fs) (group ∷ groups)
  cons-Grouped snapshot es fs group groups here rest = record {
    sent = λ a b m. elim (Memᴰ-append es m) [
      | inl l ↦ (group, Memᴰ.head refl, (here.sent a b l).0, (here.sent a b l).1)
      | inr r ↦ let (g, at, to_a, to_b) = rest.sent a b r in (g, Memᴰ.tail at, to_a, to_b)
    ];
    only = λ g o r m at i. elim (Memᴰ-cons at) [
      | inl e ↦ elim (here.only o r m (subst (InGroup o (r, m)) e i)) [
        | inl old ↦ absurd (elim old [ ])
        | inr p ↦ widen es (es ++ fs) (λ x y. Memᴰ-append_left fs y) p
      ]
      | inr t ↦ widen fs (es ++ fs) (λ x y. Memᴰ-append_right es y) (rest.only g o r m t i)
    ];
  }

  pub message_groups-Grouped :
      (xs : List (CcShard × List ℕ))
      → ((x : CcShard × List ℕ) → Memᴰ x xs → (x.0.w ≡ w) × Asks x)
      → (groups : List (Dict ℕ (List (ℕ × ℕ)))) × (message_groups shards xs ≡ some groups)
        × Grouped (edges_of xs) groups
  unfolding message_groups compute_messages
  message_groups-Grouped [] h =
      ([], refl, record { sent = λ a b m. elim m [ ]; only = λ g o r m at i. elim at [ ] })
  message_groups-Grouped ((s, need) ∷ xs) h =
      let (width, asks) = h (s, need) (Memᴰ.head refl) in
      let knows : (a : ℕ) → Memᴰ a need → lookup a (snapshot_for shards need) ≡ some (f a) =
        λ a at. snapshot_for-lookup w pos shards sharded need a at in
      let (group, ran, sends) =
        propose-Proposed s.w f (snapshot_for shards need) s.edges []
          (λ a b m. (knows a (asks a b m).0, knows b (asks a b m).1)) in
      let (groups, more, rest) = message_groups-Grouped xs (λ x m. h x (Memᴰ.tail m)) in
      (
        group ∷ groups,
        step s.w s.edges (snapshot_for shards need) group groups ran more,
        cons-Grouped (snapshot_for shards need) s.edges (edges_of xs) group groups
            (subst (λ v. Proposed v f (snapshot_for shards need) s.edges [] group) width sends)
            rest,
      )
    where
      step :
          (v : ℕ) (es : List Edge) (snap : Dict ℕ ℕ) (group : Dict ℕ (List (ℕ × ℕ)))
          (groups : List (Dict ℕ (List (ℕ × ℕ))))
          → propose v snap es [] ≡ some group
          → message_groups shards xs ≡ some groups
          → (do g ← propose v snap es []; gs ← message_groups shards xs; some (g ∷ gs))
            ≡ some (group ∷ groups)
      step v es snap group groups ran more = rw (ran, more) refl

-- What the shards are after the round.
abbrev pub after : List (ℕ × ℕ) → CcShard × List ℕ → CcShard × List ℕ
after msgs x = ((apply msgs x.0).0, x.1)

-- The shard `x` at the place `j` has taken its messages `msgs`.
pub record Took (msgs : List (ℕ × ℕ)) (x : CcShard × List ℕ) (j : ℕ) (out : List (CcShard × List ℕ))
    (changed : ℕ) : Type 0 where
  pub there : get_elem? out j ≡ some (after msgs x)
  pub quiet : changed ≡ 0 → (apply msgs x.0).1 ≡ 0

pub apply_all-Took :
    (o : ℕ) (per : List (List (ℕ × ℕ))) (xs : List (CcShard × List ℕ)) (j k : ℕ)
    {x : CcShard × List ℕ}
    → o + j ≡ k
    → get_elem? xs j ≡ some x
    → Took (get_or per k []) x j (apply_all o per xs).0 (apply_all o per xs).1
unfolding apply_all
apply_all-Took o per [] j k e g = cc
apply_all-Took o per (y ∷ xs) zero k {x} e g =
    let p : y ≡ x = cc in
    let q : o ≡ k = omega (arith, e) in
    subst
      (λ v. Took (get_or per v []) x 0 (apply_all o per (y ∷ xs)).0 (apply_all o per (y ∷ xs)).1) q
      (subst
        (λ v. Took (get_or per o []) v 0 (apply_all o per (y ∷ xs)).0 (apply_all o per (y ∷ xs)).1)
        p (record { there = refl; quiet = λ n. omega (arith, n) }))
apply_all-Took o per (y ∷ xs) (suc j) k {x} e g =
    let below = apply_all-Took (suc o) per xs j k {x = x} (omega (arith, e)) g in
    record { there = below.there; quiet = λ n. below.quiet (omega (arith, n)) }

pub apply_all-length :
    (o : ℕ) (per : List (List (ℕ × ℕ))) (xs : List (CcShard × List ℕ))
    → length (apply_all o per xs).0 ≡ length xs
unfolding apply_all
apply_all-length o per [] = refl
apply_all-length o per (y ∷ xs) = ap suc (apply_all-length (suc o) per xs)

pub apply_all-edges :
    (o : ℕ) (per : List (List (ℕ × ℕ))) (xs : List (CcShard × List ℕ))
    → edges_of (apply_all o per xs).0 ≡ edges_of xs
unfolding apply_all apply
apply_all-edges o per [] = refl
apply_all-edges o per (y ∷ xs) = ap (λ v. y.0.edges ++ v) (apply_all-edges (suc o) per xs)

pub apply_all-Memᴰ :
    (o : ℕ) (per : List (List (ℕ × ℕ))) (xs : List (CcShard × List ℕ)) {z : CcShard × List ℕ}
    → Memᴰ z (apply_all o per xs).0
    → (x : CcShard × List ℕ) × Memᴰ x xs
      × (z.0.edges ≡ x.0.edges)
      × (z.1 ≡ x.1)
      × (z.0.sid ≡ x.0.sid)
      × (z.0.w ≡ x.0.w)
unfolding apply_all apply
apply_all-Memᴰ o per [] m = absurd (elim m [ ])
apply_all-Memᴰ o per (y ∷ xs) (Memᴰ.head e) = (
  y,
  Memᴰ.head refl,
  ap (λ (v : CcShard × List ℕ). v.0.edges) e,
  ap (λ (v : CcShard × List ℕ). v.1) e,
  ap (λ (v : CcShard × List ℕ). v.0.sid) e,
  ap (λ (v : CcShard × List ℕ). v.0.w) e,
)
apply_all-Memᴰ o per (y ∷ xs) (Memᴰ.tail m) =
    let (x, at, p, q, r, t) = apply_all-Memᴰ (suc o) per xs m in (x, Memᴰ.tail at, p, q, r, t)

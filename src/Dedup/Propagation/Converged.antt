-- ===== src/Dedup/Propagation/Converged.antt =====
-- What the labels are after some rounds: `Within edges t x y` is a path of at most `t` edges.
use jude.Prelude.{
  ℕ, zero, suc, ◌+◌, ◌≡◌, ◌≤◌, ◌<◌, refl, sym, ◌⊎◌, inl, inr, some, List, arith, Memᴰ, ◌>>=◌, subst,
  ◌∙◌, dec_le,
}
use jude.Graph.{Edge, Connected, same, edge, flip, join, IsLeast, Connected-ind}
use jude.Dedup.Propagation.{CcShard, shards_of, propagate, propagate_rounds}
use jude.Dedup.Propagation.Snapshot.{label_at}
use jude.Dedup.Propagation.Proposals.{Proposal}
use jude.Dedup.Propagation.Synchronous.{Round, Ready, edges_of}
use jude.Dedup.Propagation.Rounds.{propagate-Round}

pub data Within (edges : List Edge) : ℕ → ℕ → ℕ → Type 0 where
  stop : {t x y : ℕ} → x ≡ y → Within edges t x y
  ahead : {t x y z : ℕ} → Memᴰ (x, y) edges → Within edges t y z → Within edges (suc t) x z
  back : {t x y z : ℕ} → Memᴰ (y, x) edges → Within edges t y z → Within edges (suc t) x z

pub Within-le : {edges : List Edge} {s t x y : ℕ} → s ≤ t → Within edges s x y → Within edges t x y
Within-le h (stop e) = stop e
Within-le {t = zero} h (ahead m p) = absurd (omega (arith, h))
Within-le {t = suc t} h (ahead m p) = ahead m (Within-le (omega (arith, h)) p)
Within-le {t = zero} h (back m p) = absurd (omega (arith, h))
Within-le {t = suc t} h (back m p) = back m (Within-le (omega (arith, h)) p)

pub Within-Connected : {edges : List Edge} {t x y : ℕ} → Within edges t x y → Connected edges x y
Within-Connected (stop e) = same e
Within-Connected (ahead m p) = join (edge m) (Within-Connected p)
Within-Connected (back m p) = join (flip (edge m)) (Within-Connected p)

-- Every label is a vertex within `t` edges.
abbrev pub Reaches : List Edge → ℕ → (ℕ → ℕ) → Type 0
Reaches edges t f = (r : ℕ) → Within edges t r (f r)

-- Labels that are connected to their rid and not above it.
pub record Sound (edges : List Edge) (f : ℕ → ℕ) : Type 0 where
  pub linked : (r : ℕ) → Connected edges r (f r)
  pub lower : (r : ℕ) → f r ≤ r

-- The labels of the vertices within `t` edges have arrived.
abbrev pub Covers : List Edge → ℕ → (ℕ → ℕ) → Type 0
Covers edges t f = (x y : ℕ) → Within edges t x y → f x ≤ y

abbrev pub Steady : List Edge → (ℕ → ℕ) → Type 0
Steady edges f = (a b : ℕ) → Memᴰ (a, b) edges → f a ≡ f b

module _ (edges : List Edge) (f g : ℕ → ℕ) (changed : ℕ) (round : Round edges f g changed) where
  offered : (r : ℕ) {m : ℕ} → Sound edges f → Proposal f edges r m → Connected edges r m
  offered r {m} s p =
      let across : Connected edges r p.left = elim p.is_end [
        | inl e ↦ same e
        | inr e ↦ join (same e) (flip (edge p.is_edge))
      ] in
      elim (dec_le (f p.left) (f p.right)) [
        | yes h ↦ join across (join (s.linked p.left) (same (omega (arith, p.is_min))))
        | no h ↦
            join across
              (join (edge p.is_edge) (join (s.linked p.right) (same (omega (arith, p.is_min)))))
      ]

  pub Round-Sound : Sound edges f → Sound edges g
  Round-Sound s = record {
    linked = λ r. elim (round.sourced r) [
      | inl e ↦ join (s.linked r) (same (sym e))
      | inr p ↦ offered r s p
    ];
    lower = λ r. omega (arith, s.lower r, round.below r);
  }

  pub Round-Covers : (t : ℕ) → Sound edges f → Covers edges t f → Covers edges (suc t) g
  Round-Covers t s c x y (stop e) = omega (arith, e, s.lower x, round.below x)
  Round-Covers t s c x y (ahead {y = v} m p) = omega (arith, (round.spread x v m).0, c v y p)
  Round-Covers t s c x y (back {y = v} m p) = omega (arith, (round.spread v x m).1, c v y p)

  near : (t r : ℕ) {m : ℕ} → Reaches edges t f → Proposal f edges r m → Within edges (suc t) r m
  near t r {m} h p = elim (dec_le (f p.left) (f p.right)) [
    | yes l ↦
        let e : f p.left ≡ m = omega (arith, p.is_min) in
        let q = subst (Within edges t p.left) e (h p.left) in
        elim p.is_end [
          | inl a ↦ subst (λ v. Within edges (suc t) v m) (sym a) (Within-le (omega arith) q)
          | inr a ↦ subst (λ v. Within edges (suc t) v m) (sym a) (back p.is_edge q)
        ]
    | no l ↦
        let e : f p.right ≡ m = omega (arith, p.is_min) in
        let q = subst (Within edges t p.right) e (h p.right) in
        elim p.is_end [
          | inl a ↦ subst (λ v. Within edges (suc t) v m) (sym a) (ahead p.is_edge q)
          | inr a ↦ subst (λ v. Within edges (suc t) v m) (sym a) (Within-le (omega arith) q)
        ]
  ]

  pub Round-Reaches : (t : ℕ) → Reaches edges t f → Reaches edges (suc t) g
  Round-Reaches t h r = elim (round.sourced r) [
    | inl e ↦ subst (Within edges (suc t) r) (sym e) (Within-le (omega arith) (h r))
    | inr p ↦ near t r h p
  ]

  pub Round-Steady : changed ≡ 0 → Steady edges g
  Round-Steady e a b m =
      omega
        (arith, (round.spread a b m).0, (round.spread a b m).1, round.quiet e a, round.quiet e b)

-- Steady labels are the least vertices of their components.
pub Steady-IsLeast :
    (edges : List Edge) (f : ℕ → ℕ)
    → Sound edges f
    → Steady edges f
    → (r : ℕ) → IsLeast edges r (f r)
Steady-IsLeast edges f s h r = record {
  linked = s.linked r;
  least = λ y c. omega (arith, Connected-ind f h c, s.lower y);
}

-- What the rounds leave.
pub record Settled (w : ℕ) (edges : List Edge) (t : ℕ) (xs : List (CcShard × List ℕ)) : Type 0 where
  pub ready : Ready w xs
  pub same_edges : edges_of xs ≡ edges
  pub sound : Sound edges (label_at w (shards_of xs))
  pub reaches : Reaches edges t (label_at w (shards_of xs))
  pub spread : Steady edges (label_at w (shards_of xs)) ⊎ Covers edges t (label_at w (shards_of xs))

module _ (w : ℕ) (pos : 0 < w) (edges : List Edge) where
  pub propagate_rounds-Settled :
      (rounds t : ℕ) (xs : List (CcShard × List ℕ))
      → Ready w xs
      → edges_of xs ≡ edges
      → Sound edges (label_at w (shards_of xs))
      → Reaches edges t (label_at w (shards_of xs))
      → Covers edges t (label_at w (shards_of xs))
      → (out : List (CcShard × List ℕ)) × (propagate_rounds rounds w xs ≡ some out)
        × Settled w edges (t + rounds) out
  unfolding propagate_rounds
  propagate_rounds-Settled zero t xs ready same_edges sound reaches covers = (
    xs,
    refl,
    record {
      ready = ready;
      same_edges = same_edges;
      sound = sound;
      reaches = λ r. Within-le (omega arith) (reaches r);
      spread = inr (subst (λ v. Covers edges v (label_at w (shards_of xs))) (omega arith) covers);
    },
  )
  propagate_rounds-Settled (suc rounds) t xs ready same_edges sound reaches covers =
      let (out, ran, again, kept, round) = propagate-Round w pos xs ready in
      next (λ ys a k s n c. propagate_rounds-Settled rounds (suc t) ys a k s n c) out.0 out.1 ran
        again (kept ∙ same_edges)
        (subst (λ v. Round v (label_at w (shards_of xs)) (label_at w (shards_of out.0)) out.1)
          same_edges round)
    where
      next :
          ((zs : List (CcShard × List ℕ))
            → Ready w zs
            → edges_of zs ≡ edges
            → Sound edges (label_at w (shards_of zs))
            → Reaches edges (suc t) (label_at w (shards_of zs))
            → Covers edges (suc t) (label_at w (shards_of zs))
            → (out : List (CcShard × List ℕ)) × (propagate_rounds rounds w zs ≡ some out)
              × Settled w edges (suc t + rounds) out)
          → (ys : List (CcShard × List ℕ)) (c : ℕ) → propagate w xs ≡ some (ys, c)
          → Ready w ys
          → edges_of ys ≡ edges
          → Round edges (label_at w (shards_of xs)) (label_at w (shards_of ys)) c
          → (out : List (CcShard × List ℕ)) × ((do
            (xs', changed) ← propagate w xs
            elim changed [ zero ↦ some xs' | suc _ ↦ propagate_rounds rounds w xs' ])
              ≡ some out)
            × Settled w edges (t + suc rounds) out
      next later ys zero ran again kept round = (
        ys,
        rw ran refl,
        record {
          ready = again;
          same_edges = kept;
          sound = Round-Sound edges _ _ zero round sound;
          reaches = λ r. Within-le (omega arith) (Round-Reaches edges _ _ zero round t reaches r);
          spread = inl (Round-Steady edges _ _ zero round refl);
        },
      )
      next later ys (suc c) ran again kept round =
          let (out, more, settled) =
            later ys again kept (Round-Sound edges _ _ (suc c) round sound)
              (Round-Reaches edges _ _ (suc c) round t reaches)
              (Round-Covers edges _ _ (suc c) round t sound covers) in
          (out, rw ran more, subst (λ v. Settled w edges v out) (omega arith) settled)

-- ===== src/Dedup/Propagation/Proposals.antt =====
-- The messages of one round: what `compute_messages` puts into the groups and where the driver's
-- routing takes it.
use jude.Prelude.{
  ℕ, ◌%◌, ◌≡◌, refl, sym, ◌⊎◌, inl, inr, some, List, [], ◌∷◌, min, arith, Memᴰ, Dict, lookup,
  append_to, nat_eq, subst, ap, ◌∙◌, InGroup, InGroup-append_to, InGroup-append_to_self,
  InGroup-append_to_old,
}
use jude.Graph.{Edge}
use jude.Dedup.Propagation.{lesser, propose}

pub lesser-min : (a b : ℕ) → lesser a b ≡ min a b
unfolding lesser
lesser-min a b = ground arith

-- The message to `r` that an edge at `r` gives rise to.
pub record Proposal (f : ℕ → ℕ) (edges : List Edge) (r m : ℕ) : Type 0 where
  pub left : ℕ
  pub right : ℕ
  pub is_edge : Memᴰ (left, right) edges
  pub is_end : (r ≡ left) ⊎ (r ≡ right)
  pub is_min : m ≡ min (f left) (f right)

module _ (w : ℕ) (f : ℕ → ℕ) (snapshot : Dict ℕ ℕ) where
  abbrev Knows : List Edge → Type 0
  Knows edges =
      (a b : ℕ)
      → Memᴰ (a, b) edges
      → (lookup a snapshot ≡ some (f a)) × (lookup b snapshot ≡ some (f b))

  -- What the groups hold beside the ones that were there.
  pub record Proposed (edges : List Edge) (old new : Dict ℕ (List (ℕ × ℕ))) : Type 0 where
    pub kept : (o : ℕ) (p : ℕ × ℕ) → InGroup o p old → InGroup o p new
    pub sent :
        (a b : ℕ)
        → Memᴰ (a, b) edges
        → InGroup (a % w) (a, min (f a) (f b)) new × InGroup (b % w) (b, min (f a) (f b)) new
    pub only : (o r m : ℕ) → InGroup o (r, m) new → InGroup o (r, m) old ⊎ Proposal f edges r m

  pub propose-Proposed :
      (edges : List Edge) (old : Dict ℕ (List (ℕ × ℕ)))
      → Knows edges
      → (new : Dict ℕ (List (ℕ × ℕ))) × (propose w snapshot edges old ≡ some new)
        × Proposed edges old new
  unfolding propose
  propose-Proposed [] old k =
      (old, refl, record { kept = λ o p m. m; sent = λ a b m. elim m [ ]; only = λ o r m i. inl i })
  propose-Proposed ((a, b) ∷ edges) old k =
      let (la, lb) = k a b (Memᴰ.head refl) in
      let one = append_to (a % w) (a, lesser (f a) (f b)) old in
      let two = append_to (b % w) (b, lesser (f a) (f b)) one in
      let (new, ran, rest) = propose-Proposed edges two (λ c d m. k c d (Memᴰ.tail m)) in
      (
        new,
        rw (la, lb) ran,
        record {
          kept = λ o p m.
              rest.kept o p
                (InGroup-append_to_old (b % w) _ one (InGroup-append_to_old (a % w) _ old m));
          sent = λ c d m.
              sends a b new rest.sent
                (rest.kept _ _
                  (InGroup-append_to_old (b % w) _ one (InGroup-append_to_self (a % w) _ old)))
                (rest.kept _ _ (InGroup-append_to_self (b % w) _ one)) c d m;
          only = λ o r m i. elim (rest.only o r m i) [
            | inr further ↦ inr (grow further)
            | inl i ↦ elim (InGroup-append_to (b % w) _ one i) [
              | inl at_b ↦ inr (
                  here a b r m (inr (ap (λ (v : ℕ × ℕ). v.0) at_b.1))
                    (ap (λ (v : ℕ × ℕ). v.1) at_b.1))
              | inr i ↦ elim (InGroup-append_to (a % w) _ old i) [
                | inl at_a ↦ inr (
                    here a b r m (inl (ap (λ (v : ℕ × ℕ). v.0) at_a.1))
                      (ap (λ (v : ℕ × ℕ). v.1) at_a.1))
                | inr i ↦ inl i
              ]
            ]
          ];
        },
      )
    where
      here :
          (a b r m : ℕ)
          → (r ≡ a) ⊎ (r ≡ b)
          → m ≡ lesser (f a) (f b)
          → Proposal f ((a, b) ∷ edges) r m
      here a b r m e q = record {
        left = a;
        right = b;
        is_edge = Memᴰ.head refl;
        is_end = e;
        is_min = q ∙ lesser-min (f a) (f b);
      }

      grow : {r m : ℕ} → Proposal f edges r m → Proposal f ((a, b) ∷ edges) r m
      grow p = record {
        left = p.left;
        right = p.right;
        is_edge = Memᴰ.tail p.is_edge;
        is_end = p.is_end;
        is_min = p.is_min;
      }

      sends :
          (a b : ℕ) (new : Dict ℕ (List (ℕ × ℕ)))
          → ((c d : ℕ)
              → Memᴰ (c, d) edges
              → InGroup (c % w) (c, min (f c) (f d)) new × InGroup (d % w) (d, min (f c) (f d)) new)
          → InGroup (a % w) (a, lesser (f a) (f b)) new
          → InGroup (b % w) (b, lesser (f a) (f b)) new
          → (c d : ℕ) → Memᴰ (c, d) ((a, b) ∷ edges)
          → InGroup (c % w) (c, min (f c) (f d)) new × InGroup (d % w) (d, min (f c) (f d)) new
      sends a b new below at_a at_b c d (Memᴰ.head e) =
          subst
            (λ (v : Edge).
              InGroup (v.0 % w) (v.0, min (f v.0) (f v.1)) new
              × InGroup (v.1 % w) (v.1, min (f v.0) (f v.1)) new)
            (sym e)
            (subst (λ v. InGroup (a % w) (a, v) new × InGroup (b % w) (b, v) new)
              (lesser-min (f a) (f b)) (at_a, at_b))
      sends a b new below at_a at_b c d (Memᴰ.tail m) = below c d m

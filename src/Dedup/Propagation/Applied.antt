-- ===== src/Dedup/Propagation/Applied.antt =====
-- What `apply` does to the labels of one shard.
use jude.Prelude.{
  ℕ, ◌+◌, ◌%◌, ◌≡◌, ◌≤◌, ◌<◌, refl, sym, ◌⊎◌, inl, inr, List, [], ◌∷◌, arith, Memᴰ, ltb, ◌&&◌, ◌==◌,
  if◌then◌else◌, Bool-cases, Dict, lookup, insert, lookup-insert, nat_eq, get_default, ◌=?◌,
  eq_of_=?, ==_refl, Memᴰ-single, Memᴰ-cons, subst, ap, ◌∙◌,
}
use jude.Dedup.Propagation.{take_min, take_mins}

abbrev pub at : Dict ℕ ℕ → ℕ → ℕ
at label r = get_default (lookup r label) r

module _ (w sid : ℕ) where
  -- The labels after the messages `ms`.
  pub record Applied (ms : List (ℕ × ℕ)) (old new : Dict ℕ ℕ) (before after : ℕ) : Type 0 where
    pub below : (r : ℕ) → at new r ≤ at old r
    pub heard : (r m : ℕ) → r % w ≡ sid → Memᴰ (r, m) ms → at new r ≤ m
    pub sourced : (r : ℕ) → (at new r ≡ at old r) ⊎ Memᴰ (r, at new r) ms
    pub counts : before ≤ after
    pub quiet : after ≡ before → (r : ℕ) → at new r ≡ at old r

  at-insert : (k j v : ℕ) (d : Dict ℕ ℕ) → at (insert k v d) j ≡ (if k =? j then v else at d j)
  at-insert k j v d = ground (arith, lookup-insert k j v d)

  at-insert_self : (r m : ℕ) (d : Dict ℕ ℕ) → at (insert r m d) r ≡ m
  at-insert_self r m d = rw (at-insert r r m d, ==_refl r) refl

  -- A smaller proposal to a rid of the shard.
  lowered :
      (r m : ℕ) (old : Dict ℕ ℕ) (c : ℕ)
      → m < at old r
      → Applied ((r, m) ∷ []) old (insert r m old) c (c + 1)
  lowered r m old c less = record {
    below = λ j. elim (Bool-cases (r =? j)) [
      | inl y ↦
          let q : r ≡ j = eq_of_=? y in
          rw (at-insert r j m old, y) (subst (λ v. m ≤ at old v) q (omega (arith, less)))
      | inr n ↦ rw (at-insert r j m old, n) (omega arith)
    ];
    heard = λ j k o i.
        let e : (j, k) ≡ (r, m) = Memᴰ-single i in
        subst (λ (p : ℕ × ℕ). at (insert r m old) p.0 ≤ p.1) (sym e)
          (omega (arith, at-insert_self r m old));
    sourced = λ j. elim (Bool-cases (r =? j)) [
      | inl y ↦
          let q : r ≡ j = eq_of_=? y in
          inr (
            subst (λ v. Memᴰ {A = ℕ × ℕ} (v, at (insert r m old) v) ((r, m) ∷ [])) q
              (rw (at-insert_self r m old) (Memᴰ.head refl)))
      | inr n ↦ inl (rw (at-insert r j m old, n) refl)
    ];
    counts = omega arith;
    quiet = λ e. absurd (omega (arith, e));
  }

  unchanged :
      (r m : ℕ) (old : Dict ℕ ℕ) (c : ℕ)
      → (r % w ≡ sid → at old r ≤ m)
      → Applied ((r, m) ∷ []) old old c c
  unchanged r m old c high = record {
    below = λ j. omega arith;
    heard = λ j k o i.
        let e : (j, k) ≡ (r, m) = Memᴰ-single i in
        let ej : j ≡ r = ap (λ (p : ℕ × ℕ). p.0) e in
        subst (λ (p : ℕ × ℕ). at old p.0 ≤ p.1) (sym e) (high (sym (ap (λ v. v % w) ej) ∙ o));
    sourced = λ j. inl refl;
    counts = omega arith;
    quiet = λ e j. refl;
  }

  take_min-Applied :
      (p : ℕ × ℕ) (old : Dict ℕ ℕ) (c : ℕ)
      → Applied (p ∷ []) old (take_min w sid p (old, c)).0 c (take_min w sid p (old, c)).1
  unfolding take_min
  take_min-Applied (r, m) old c =
      elim (Bool-cases ((r % w == sid) && ltb m (get_default (lookup r old) r))) [
        | inl y ↦ rw y (lowered r m old c (ground arith))
        | inr n ↦ rw n (unchanged r m old c (λ o. ground arith))
      ]

  both :
      {p : ℕ × ℕ} {ms : List (ℕ × ℕ)} {old mid new : Dict ℕ ℕ} {a b c : ℕ}
      → Applied (p ∷ []) old mid a b
      → Applied ms mid new b c
      → Applied (p ∷ ms) old new a c
  both {p} {ms} {old} {mid} {new} {a} {b} {c} f g = record {
    below = λ r. omega (arith, f.below r, g.below r);
    heard = λ r m o i. elim (Memᴰ-cons i) [
      | inl e ↦ omega (arith, f.heard r m o (Memᴰ.head e), g.below r)
      | inr t ↦ g.heard r m o t
    ];
    sourced = λ r. elim (g.sourced r) [
      | inr t ↦ inr (Memᴰ.tail t)
      | inl e ↦ elim (f.sourced r) [
        | inl e' ↦ inl (e ∙ e')
        | inr i ↦
            inr (Memᴰ.head (Memᴰ-single (subst (λ v. Memᴰ {A = ℕ × ℕ} (r, v) (p ∷ [])) (sym e) i)))
      ]
    ];
    counts = omega (arith, f.counts, g.counts);
    quiet = λ e r.
        g.quiet (omega (arith, f.counts, g.counts)) r
        ∙ f.quiet (omega (arith, f.counts, g.counts)) r;
  }

  pub take_mins-Applied :
      (ms : List (ℕ × ℕ)) (old : Dict ℕ ℕ) (c : ℕ)
      → Applied ms old (take_mins w sid ms (old, c)).0 c (take_mins w sid ms (old, c)).1
  unfolding take_mins
  take_mins-Applied [] old c = record {
    below = λ r. omega arith;
    heard = λ r m o i. elim i [ ];
    sourced = λ r. inl refl;
    counts = omega arith;
    quiet = λ e r. refl;
  }
  take_mins-Applied (p ∷ ms) old c = both (take_min-Applied p old c) (take_mins-Applied ms _ _)

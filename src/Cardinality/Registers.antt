-- ===== src/Cardinality/Registers.antt =====
-- What the registers hold: for each, the largest rank of the items that it counts.
use native.Mathlib.Nat.{div-lt_iff_lt-mul, pow-succ', one-le-pow}
use jude.Prelude.{
  ℕ, zero, suc, ◌+◌, ◌-◌, ◌*◌, ◌/◌, ◌%◌, ◌^◌, ◌≡◌, ◌≤◌, ◌<◌, ◌↔◌, ◌⊎◌, inl, inr, refl, sym, ap, ap₂,
  ◌∙◌, subst, true, false, not, ◌&&◌, Bool-cases, some, List, [], ◌∷◌, ltb, ◌==◌, get_elem?, set,
  replicate, length, Memᴰ, arith, length-set, get_elem?-set_self, get_elem?-set_ne, get_elem?_of_lt,
  length-replicate, ℕ_discrete, lt→ltb, ltb→lt,
}
use jude.Cardinality.{top, rank_of, new_registers, raise_to, add_item, add_items}

-- The loop ends once the bit is at the top.
rank_of-some :
    (k fuel rest rank : ℕ)
    → 0 < rest
    → top ≤ rest * 2 ^ k
    → k < fuel
    → (r : ℕ) × (rank_of fuel rest rank ≡ some r) × (rank ≤ r) × (r ≤ rank + k)
unfolding rank_of
rank_of-some k zero rest rank pos high l = absurd (omega (arith, l))
rank_of-some zero (suc fuel) rest rank pos high l =
    let q : (not (rest == 0) && (rest / top == 0)) ≡ false = ground arith in
    (rank, rw q refl, omega arith, omega arith)
rank_of-some (suc k) (suc fuel) rest rank pos high l =
    elim (Bool-cases (not (rest == 0) && (rest / top == 0))) [
      | inl y ↦
          let e : rest * 2 ^ suc k ≡ rest * 2 * 2 ^ k = rw (pow-succ' 2 k) (grind arith) in
          let (r, same, low, up) =
            rank_of-some k fuel (rest * 2) (suc rank) (omega arith) (omega (arith, high, e))
              (omega (arith, l)) in
          (r, rw y same, omega (arith, low), omega (arith, up))
      | inr n ↦ (rank, rw n refl, omega arith, omega arith)
    ]

rank_of_rest : (rest : ℕ) → (r : ℕ) × (rank_of 64 rest 1 ≡ some r) × (r < 256)
unfolding rank_of
rank_of_rest zero = (1, refl, omega arith)
rank_of_rest (suc rest) =
    let (r, same, low, up) =
      rank_of-some 63 64 (suc rest) 1 (omega arith) (omega arith) (omega arith) in
    (r, same, omega (arith, up))

-- Two lists of one length with the same elements.
same_elements :
    (xs ys : List ℕ)
    → length xs ≡ length ys
    → ((i v w : ℕ) → get_elem? xs i ≡ some v → get_elem? ys i ≡ some w → v ≡ w)
    → xs ≡ ys
same_elements [] [] l h = refl
same_elements [] (y ∷ ys) l h = absurd (omega (arith, l))
same_elements (x ∷ xs) [] l h = absurd (omega (arith, l))
same_elements (x ∷ xs) (y ∷ ys) l h =
    ap₂ (λ u us. u ∷ us) (h 0 x y refl refl)
      (same_elements xs ys (omega (arith, l)) (λ i. h (suc i)))

get_elem?-replicate : (n i v : ℕ) → get_elem? (replicate n 0) i ≡ some v → v ≡ 0
get_elem?-replicate zero i v h = cc
get_elem?-replicate (suc n) zero v h = cc
get_elem?-replicate (suc n) (suc i) v h = get_elem?-replicate n i v h

module _ {A : Type 0} (digest : A → ℕ) (p : ℕ)
    (bytes : (a : A) → digest a < 2 ^ p * 2 ^ (64 - p)) where
  unfoldable rank : A → ℕ
  rank a = (rank_of_rest (digest a * 2 ^ p % 2 ^ 64)).0

  unfoldable index : A → ℕ
  index a = digest a / 2 ^ (64 - p)

  index_lt : (a : A) → index a < 2 ^ p
  unfolding index
  index_lt a = (div-lt_iff_lt-mul (one-le-pow (64 - p) 2 (omega arith))).1 (bytes a)

  -- The registers count the items of `S`.
  record Counts (registers : List ℕ) (S : A → Type 0) : Type 0 where
    sized : length registers ≡ 2 ^ p
    above : (a : A) (v : ℕ) → S a → get_elem? registers (index a) ≡ some v → rank a ≤ v
    reached :
        (i v : ℕ)
        → get_elem? registers i ≡ some v
        → (v ≡ 0) ⊎ ((a : A) × S a × (index a ≡ i) × (rank a ≡ v))

  -- They are determined by it.
  below :
      {xs ys : List ℕ} {S : A → Type 0}
      → Counts xs S
      → Counts ys S
      → (i v w : ℕ) → get_elem? xs i ≡ some v
      → get_elem? ys i ≡ some w
      → v ≤ w
  below {ys = ys} c d i v w g h = elim (c.reached i v g) [
    | inl z ↦ omega (arith, z)
    | inr (a, s, at, r) ↦
        let l = d.above a w s (subst (λ j. get_elem? ys j ≡ some w) (sym at) h) in
        omega (arith, l, r)
  ]

  Counts-unique : {xs ys : List ℕ} {S : A → Type 0} → Counts xs S → Counts ys S → xs ≡ ys
  Counts-unique {xs} {ys} c d = same_elements xs ys (c.sized ∙ sym d.sized) (λ i v w g h.
      let l = below c d i v w g h in let l' = below d c i w v h g in omega (arith, l, l'))

  Counts-new : Counts (new_registers p) (λ a. ⊥)
  unfolding new_registers
  Counts-new = record {
    sized = length-replicate (2 ^ p) 0;
    above = λ a v s g. absurd s;
    reached = λ i v g. inl (get_elem?-replicate (2 ^ p) i v g);
  }

  Counts-iff : {xs : List ℕ} {S T : A → Type 0} → ((a : A) → S a ↔ T a) → Counts xs S → Counts xs T
  Counts-iff iff c = record {
    sized = c.sized;
    above = λ a v t g. c.above a v ((iff a).1 t) g;
    reached = λ i v g. elim (c.reached i v g) [
      | inl z ↦ inl z
      | inr (a, s, at, r) ↦ inr (a, (iff a).0 s, at, r)
    ];
  }

  -- The register of a new item is raised, where its rank is larger.
  module _ {xs : List ℕ} {S : A → Type 0} (a : A) (old : ℕ) (c : Counts xs S)
      (g : get_elem? xs (index a) ≡ some old) where
    same_at :
        (ys : List ℕ) {b : A} {v : ℕ}
        → b ≡ a
        → get_elem? ys (index b) ≡ some v
        → get_elem? ys (index a) ≡ some v
    same_at ys {v = v} e h = subst (λ z. get_elem? ys (index z) ≡ some v) e h

    Counts-kept : rank a ≤ old → Counts xs (λ b. (b ≡ a) ⊎ S b)
    Counts-kept l = record {
      sized = c.sized;
      above = λ b v s h. elim s [
        | inl e ↦
            let h' = same_at xs e h in
            let q : old ≡ v = cc in let r : rank b ≡ rank a = ap rank e in omega (arith, q, r, l)
        | inr t ↦ c.above b v t h
      ];
      reached = λ i v h. elim (c.reached i v h) [
        | inl z ↦ inl z
        | inr (b, s, at, r) ↦ inr (b, inr s, at, r)
      ];
    }

    raised : get_elem? (set xs (index a) (rank a)) (index a) ≡ some (rank a)
    raised =
        get_elem?-set_self xs (index a) (rank a)
          (subst (λ n. index a < n) (sym c.sized) (index_lt a))

    raised-above :
        old < rank a
        → (b : A) (v : ℕ) → (b ≡ a) ⊎ S b
        → get_elem? (set xs (index a) (rank a)) (index b) ≡ some v
        → rank b ≤ v
    raised-above l b v (inl e) h =
        let h' = same_at (set xs (index a) (rank a)) e h in
        let now = raised in
        let q : rank a ≡ v = cc in let r : rank b ≡ rank a = ap rank e in omega (arith, q, r)
    raised-above l b v (inr t) h = elim (ℕ_discrete (index a) (index b)) [
      | yes q ↦
          let h' = subst (λ j. get_elem? (set xs (index a) (rank a)) j ≡ some v) (sym q) h in
          let now = raised in
          let e : rank a ≡ v = cc in
          let u = c.above b old t (subst (λ j. get_elem? xs j ≡ some old) q g) in
          omega (arith, e, u, l)
      | no n ↦ c.above b v t (sym (get_elem?-set_ne xs (rank a) n) ∙ h)
    ]

    raised-reached :
        (i v : ℕ)
        → get_elem? (set xs (index a) (rank a)) i ≡ some v
        → (v ≡ 0) ⊎ ((b : A) × ((b ≡ a) ⊎ S b) × (index b ≡ i) × (rank b ≡ v))
    raised-reached i v h = elim (ℕ_discrete (index a) i) [
      | yes q ↦
          let h' = subst (λ j. get_elem? (set xs (index a) (rank a)) j ≡ some v) (sym q) h in
          let now = raised in inr (a, inl refl, q, cc)
      | no n ↦ elim (c.reached i v (sym (get_elem?-set_ne xs (rank a) n) ∙ h)) [
        | inl z ↦ inl z
        | inr (b, s, at, r) ↦ inr (b, inr s, at, r)
      ]
    ]

    Counts-raised : old < rank a → Counts (set xs (index a) (rank a)) (λ b. (b ≡ a) ⊎ S b)
    Counts-raised l = record {
      sized = length-set xs (index a) (rank a) ∙ c.sized;
      above = raised-above l;
      reached = raised-reached;
    }

  add_item-raise : (xs : List ℕ) (a : A) → add_item digest p xs a ≡ raise_to xs (index a) (rank a)
  unfolding add_item rank index
  add_item-raise xs a = rw (rank_of_rest (digest a * 2 ^ p % 2 ^ 64)).1 refl

  rank_lt : (a : A) → rank a < 256
  unfolding rank
  rank_lt a = (rank_of_rest (digest a * 2 ^ p % 2 ^ 64)).2

  opened :
      (xs : List ℕ) (a : A) (old : ℕ)
      → get_elem? xs (index a) ≡ some old
      → ltb old (rank a) ≡ true
      → raise_to xs (index a) (rank a) ≡ some (set xs (index a) (rank a))
  unfolding raise_to
  opened xs a old g y = rw g (rw y (rw (lt→ltb (rank a) 256 (rank_lt a)) refl))

  shut :
      (xs : List ℕ) (a : A) (old : ℕ)
      → get_elem? xs (index a) ≡ some old
      → ltb old (rank a) ≡ false
      → raise_to xs (index a) (rank a) ≡ some xs
  unfolding raise_to
  shut xs a old g n = rw g (rw n refl)

  add_item-Counts :
      {xs : List ℕ} {S : A → Type 0} (a : A)
      → Counts xs S
      → (ys : List ℕ) × (add_item digest p xs a ≡ some ys) × Counts ys (λ b. (b ≡ a) ⊎ S b)
  add_item-Counts {xs} a c =
      let (old, g) =
        get_elem?_of_lt xs (index a) (subst (λ n. index a < n) (sym c.sized) (index_lt a)) in
      elim (Bool-cases (ltb old (rank a))) [
        | inl y ↦ (
          set xs (index a) (rank a),
          add_item-raise xs a ∙ opened xs a old g y,
          Counts-raised a old c g (ltb→lt old (rank a) y),
        )
        | inr n ↦
            (xs, add_item-raise xs a ∙ shut xs a old g n, Counts-kept a old c g (ground arith))
      ]

  add_items-Counts :
      (items : List A) {xs : List ℕ} {S : A → Type 0}
      → Counts xs S
      → (ys : List ℕ) × (add_items digest p xs items ≡ some ys)
        × Counts ys (λ b. Memᴰ b items ⊎ S b)
  unfolding add_items
  add_items-Counts [] {xs} c =
      (xs, refl, Counts-iff (λ a. (inr, λ s. elim s [ inl m ↦ elim m [ ] | inr t ↦ t ])) c)
  add_items-Counts (a ∷ items) {xs} {S} c =
      let (ys, e, d) = add_item-Counts a c in
      let (zs, f, d') = add_items-Counts items d in
      (zs, rw e f, Counts-iff (λ b. (to b, from b)) d')
    where
      to : (b : A) → Memᴰ b items ⊎ ((b ≡ a) ⊎ S b) → Memᴰ b (a ∷ items) ⊎ S b
      to b (inl m) = inl (Memᴰ.tail m)
      to b (inr (inl e)) = inl (Memᴰ.head e)
      to b (inr (inr s)) = inr s

      from : (b : A) → Memᴰ b (a ∷ items) ⊎ S b → Memᴰ b items ⊎ ((b ≡ a) ⊎ S b)
      from b (inl (Memᴰ.head e)) = inr (inl e)
      from b (inl (Memᴰ.tail m)) = inl m
      from b (inr s) = inr (inr s)

pow-split : (p k : ℕ) → 2 ^ p * 2 ^ k ≡ 2 ^ (p + k)
pow-split zero k =
    let e : 2 ^ 0 * 2 ^ k ≡ 2 ^ k = omega arith in
    let q : k ≡ 0 + k = omega arith in e ∙ ap (λ n. 2 ^ n) q
pow-split (suc p) k =
    let e = pow-split p k in let q = pow-succ' 2 p in let r = pow-succ' 2 (p + k) in grind arith

-- Where a digest has 64 bits and `p` is at most 64, counting never raises, and the registers, and
-- with them every estimate, depend on which items there are, and neither on their order nor on how
-- often each comes.
pub add_items-members :
    {A : Type 0} (digest : A → ℕ) (p : ℕ) (xs ys : List A)
    → p ≤ 64
    → ((a : A) → digest a < 2 ^ 64)
    → ((a : A) → Memᴰ a xs ↔ Memᴰ a ys)
    → (registers : List ℕ) × (add_items digest p (new_registers p) xs ≡ some registers)
      × (add_items digest p (new_registers p) ys ≡ some registers)
add_items-members {A} digest p xs ys l bytes same =
    let (us, e, c) = add_items-Counts digest p within xs (Counts-new digest p within) in
    let (vs, f, d) = add_items-Counts digest p within ys (Counts-new digest p within) in
    let q = Counts-unique digest p within c (Counts-iff digest p within back d) in
    (us, e, f ∙ ap some (sym q))
  where
    within : (a : A) → digest a < 2 ^ p * 2 ^ (64 - p)
    within a =
        let e = pow-split p (64 - p) in
        let q : p + (64 - p) ≡ 64 = omega (arith, l) in
        subst (λ n. digest a < n) (sym (e ∙ ap (λ n. 2 ^ n) q)) (bytes a)

    back : (a : A) → (Memᴰ a ys ⊎ ⊥) ↔ (Memᴰ a xs ⊎ ⊥)
    back a = (
      (λ s. elim s [ inl m ↦ inl ((same a).1 m) | inr n ↦ inr n ]),
      (λ s. elim s [ inl m ↦ inl ((same a).0 m) | inr n ↦ inr n ]),
    )

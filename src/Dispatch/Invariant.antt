-- ===== src/Dispatch/Invariant.antt =====
-- The invariant of the pool: every task that has started is in flight or has its result.
use jude.Prelude.{
  ℕ, ◌+◌, ◌≤◌, ◌<◌, ◌≡◌, refl, sym, ap, ◌∙◌, ◌⊎◌, inl, inr, false, none, some, List, [], ◌∷◌,
  length, get_elem?, set, Eq, ◌=?◌, =?_of_eq, eq_of_=?, Bool-cases, Dict, lookup, remove,
  lookup-insert, lookup-remove, Memᴰ, arith, subst, subst₂, =?_of_ne, length-remove, length-set,
  length-replicate, get_elem?-set_self, get_elem?-set_ne, get_elem?_of_lt, ℕ_discrete,
}
use jude.Dispatch.{Pool, keys, idle, submit, finish}

-- No reference is returned twice.
abbrev pub Fresh : {Ref : Type 0} → List Ref → Type 0
Fresh {Ref} fns = (i j : ℕ) (r : Ref) → get_elem? fns i ≡ some r → get_elem? fns j ≡ some r → i ≡ j

module _ {Ref : Type 0} ⦃ref_eq : Eq Ref⦄ where
  pub lookup_of_key : (r : Ref) (d : Dict Ref ℕ) → Memᴰ r (keys d) → (i : ℕ) × (lookup r d ≡ some i)
  unfolding lookup
  lookup_of_key r [] m = elim m [ ]
  lookup_of_key r ((j, w) ∷ d) (Memᴰ.head e) = (w, rw (=?_of_eq (sym e)))
  lookup_of_key r ((j, w) ∷ d) (Memᴰ.tail m) =
      let (i, h) = lookup_of_key r d m in
      elim (Bool-cases (j =? r)) [ inl y ↦ (w, rw y) | inr n ↦ (i, rw n h) ]

module _ {Ref A : Type 0} ⦃ref_eq : Eq Ref⦄ where
  module _ (fetch : Ref → A) (fns : List Ref) where
    pub record Inv (p : Pool Ref A) : Type 0 where
      pub started : p.next_idx ≤ length fns
      pub sized : length p.results ≡ length fns
      pub flying :
          (r : Ref) (i : ℕ)
          → lookup r p.inflight ≡ some i
          → (get_elem? fns i ≡ some r) × (i < p.next_idx)
      pub settled :
          (i : ℕ) (r : Ref)
          → get_elem? fns i ≡ some r
          → i < p.next_idx
          → (lookup r p.inflight ≡ some i) ⊎ (get_elem? p.results i ≡ some (some (fetch r)))

    pub idle-Inv : Inv (idle fns)
    unfolding idle lookup
    idle-Inv = record {
      started = omega arith;
      sized = length-replicate (length fns) none;
      flying = λ r i h. cc;
      settled = λ i r g h. absurd (omega arith);
    }

    module _ (fresh : Fresh fns) where
      pub submit-Inv : (p : Pool Ref A) → p.next_idx < length fns → Inv p → Inv (submit fns p)
      unfolding submit
      submit-Inv p l inv =
          let (ref, g) = get_elem?_of_lt fns p.next_idx l in
          let put = λ (r : Ref). lookup-insert ref r p.next_idx p.inflight in
          rw (g, submit)
            (record {
              started = omega arith;
              sized = inv.sized;
              flying = λ r i h. elim (Bool-cases (ref =? r)) [
                | inl y ↦
                    let q : p.next_idx ≡ i = ground (arith, put r) in
                    (subst₂ (λ v w. get_elem? fns v ≡ some w) q (eq_of_=? y) g, omega arith)
                | inr n ↦ let (at, lt) = inv.flying r i (ground (arith, put r)) in (at, omega arith)
              ];
              settled = λ i r h lt. elim (ℕ_discrete i p.next_idx) [
                | yes q ↦
                    let same : ref ≡ r = cc in
                    inl (rw (put r) (rw (=?_of_eq same) (ap some (sym q))))
                | no n ↦ elim (inv.settled i r h (omega arith)) [
                  | inl f ↦
                      let apart : (ref =? r) ≡ false = =?_of_ne (λ e. n (
                        fresh i p.next_idx r h
                          (subst (λ v. get_elem? fns p.next_idx ≡ some v) e g))) in
                      inl (rw (put r) (rw apart f))
                  | inr d ↦ inr d
                ]
              ];
            })

      -- A finished task leaves its result, and the others as they were.
      pub finish-Inv :
          (ref : Ref) (p : Pool Ref A)
          → Memᴰ ref (keys p.inflight)
          → Inv p
          → (p' : Pool Ref A) × (finish fetch ref p ≡ some p')
            × Inv p'
            × (p'.next_idx ≡ p.next_idx)
            × (length p'.inflight < length p.inflight)
      unfolding finish
      finish-Inv ref p m inv =
          let (idx, h) = lookup_of_key ref p.inflight m in
          let (at, lt) = inv.flying ref idx h in
          let took = λ (r : Ref). lookup-remove ref r p.inflight in
          (
            record p {
              inflight = remove ref p.inflight;
              results = set p.results idx (some (fetch ref));
              round = p.round + 1;
            },
            rw (h, finish),
            record {
              started = inv.started;
              sized = omega (arith, inv.sized, length-set p.results idx (some (fetch ref)));
              flying = λ r i f. elim (Bool-cases (ref =? r)) [
                | inl y ↦ cc (took r)
                | inr n ↦ inv.flying r i (ground (arith, took r))
              ];
              settled = λ i r g l. elim (ℕ_discrete i idx) [
                | yes q ↦
                    let same : r ≡ ref = cc in
                    inr (
                      rw (q, same)
                        (get_elem?-set_self p.results idx (some (fetch ref))
                          (omega (arith, inv.sized, inv.started))))
                | no n ↦ elim (inv.settled i r g l) [
                  | inl f ↦
                      let apart : (ref =? r) ≡ false =
                        =?_of_ne (λ e.
                          n (fresh i idx r g (subst (λ v. get_elem? fns idx ≡ some v) e at))) in
                      inl (rw (took r) (rw apart f))
                  | inr d ↦ inr (get_elem?-set_ne p.results (some (fetch ref)) (λ e. n (sym e)) ∙ d)
                ]
              ];
            },
            refl,
            length-remove ref p.inflight h,
          )

-- ===== src/Dedup/Propagation/Agreement.antt =====
-- Dictionaries whose entries are the values of a function, and the union of two of them.
use jude.Prelude.{
  ℕ, ◌≡◌, refl, inl, inr, some, [], ◌∷◌, arith, Bool-cases, Dict, lookup, insert, lookup-insert,
  nat_eq, ◌=?◌, subst, eq_of_=?, ==_refl,
}
use jude.Dedup.Propagation.{update}

-- Every entry of the dictionary is the value of `f`.
abbrev pub Agrees : (ℕ → ℕ) → Dict ℕ ℕ → Type 0
Agrees f [] = Unit
Agrees f ((k, v) ∷ d) = (v ≡ f k) × Agrees f d

pub record Has (r : ℕ) (d : Dict ℕ ℕ) : Type 0 where
  pub value : ℕ
  pub found : lookup r d ≡ some value

pub lookup-Agrees :
    (f : ℕ → ℕ) (r : ℕ) {v : ℕ} (d : Dict ℕ ℕ) → Agrees f d → lookup r d ≡ some v → v ≡ f r
unfolding lookup
lookup-Agrees f r [] h e = cc
lookup-Agrees f r {v} ((k, u) ∷ d) h e = ground (arith, lookup-Agrees f r {v = v} d h.1)

pub insert-Agrees :
    (f : ℕ → ℕ) (k v : ℕ) (d : Dict ℕ ℕ) → v ≡ f k → Agrees f d → Agrees f (insert k v d)
unfolding insert
insert-Agrees f k v [] e h = (e, tt)
insert-Agrees f k v ((j, u) ∷ d) e h = elim (Bool-cases (j =? k)) [
  | inl y ↦ let q : j ≡ k = eq_of_=? y in rw y (cc, h.1)
  | inr n ↦ rw n (h.0, insert-Agrees f k v d e h.1)
]

pub insert-Has : {r : ℕ} (k v : ℕ) (d : Dict ℕ ℕ) → Has r d → Has r (insert k v d)
insert-Has {r} k v d h = elim (Bool-cases (k =? r)) [
  | inl y ↦ record { value = v; found = rw (lookup-insert k r v d, y) refl }
  | inr n ↦ record { value = h.value; found = rw (lookup-insert k r v d, n) h.found }
]

pub insert-Has_self : (k v : ℕ) (d : Dict ℕ ℕ) → Has k (insert k v d)
insert-Has_self k v d = record { value = v; found = rw (lookup-insert k k v d, ==_refl k) refl }

-- What `update` adds.
pub update-Agrees : (f : ℕ → ℕ) (d e : Dict ℕ ℕ) → Agrees f d → Agrees f e → Agrees f (update d e)
unfolding update
update-Agrees f d [] hd he = hd
update-Agrees f d ((k, v) ∷ e) hd he =
    update-Agrees f (insert k v d) e (insert-Agrees f k v d he.0 hd) he.1

pub update-Has_old : {r : ℕ} (d e : Dict ℕ ℕ) → Has r d → Has r (update d e)
unfolding update
update-Has_old d [] h = h
update-Has_old d ((k, v) ∷ e) h = update-Has_old (insert k v d) e (insert-Has k v d h)

pub update-Has : {r : ℕ} (d e : Dict ℕ ℕ) → Has r e → Has r (update d e)
unfolding update lookup
update-Has d [] h = cc (h.found)
update-Has {r} d ((k, v) ∷ e) h = elim (Bool-cases (k =? r)) [
  | inl y ↦
      update-Has_old (insert k v d) e
        (subst (λ x. Has x (insert k v d)) (eq_of_=? y) (insert-Has_self k v d))
  | inr n ↦
      let g : lookup r e ≡ some h.value = rw n at h.found in
      update-Has (insert k v d) e (record { value = h.value; found = g })
]

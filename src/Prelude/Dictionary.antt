-- ===== src/Prelude/Dictionary.antt =====
-- Python's `dict`, as its entries in insertion order, and `set`, as its elements in that order.
use mathlib.Core.Path.{◌≡◌, refl, sym, ◌∙◌}
use mathlib.Core.Logic.{◌⊎◌, inl, inr}
use mathlib.Core.Bool.{true, false}
use mathlib.Core.Option.{Option, none, some}
use mathlib.Core.List.{List, [], ◌∷◌, ◌++◌, Memᴰ}
use native.Mathlib.Omega.{arith}
use jude.Prelude.Tests.{if◌then◌else◌, Bool-cases}
use Prim.Native.Nat.{◌+◌, ◌≤◌, ◌<◌}
use jude.Prelude.Lists.{length, Memᴰ-append_left, Memᴰ-append_right, Memᴰ-append, Memᴰ-single}
use jude.Prelude.Equality.{Eq, ◌=?◌, contains, =?_of_eq, eq_of_=?, Memᴰ_of_contains}

abbrev pub Dict {ℓ κ} : Type ℓ → Type κ → Type (ℓ ⊔ κ)
Dict K V = List (K × V)

module _ {ℓ κ} {K : Type ℓ} {V : Type κ} ⦃e : Eq K⦄ where
  -- d.get(k)
  unfoldable pub lookup : K → Dict K V → Option V
  lookup k [] = none
  lookup k ((j, v) ∷ d) = if j =? k then some v else lookup k d

  -- d[k] = v
  unfoldable pub insert : K → V → Dict K V → Dict K V
  insert k v [] = (k, v) ∷ []
  insert k v ((j, w) ∷ d) = if j =? k then (j, v) ∷ d else (j, w) ∷ insert k v d

  -- d.pop(k, None)
  unfoldable pub remove : K → Dict K V → Dict K V
  remove k [] = []
  remove k ((j, w) ∷ d) = let rest = remove k d in if j =? k then rest else (j, w) ∷ rest

  pub lookup-nil : (k : K) → lookup k [] ≡ none
  unfolding lookup
  lookup-nil k = refl

  pub lookup-insert :
      (k j : K) (v : V) (d : Dict K V)
      → lookup j (insert k v d) ≡ (if k =? j then some v else lookup j d)
  unfolding lookup insert
  lookup-insert k j v [] = refl
  lookup-insert k j v ((i, w) ∷ d) =
      ground (arith, e.beq_iff k j, e.beq_iff i k, e.beq_iff i j, lookup-insert k j v d)

  pub lookup-remove :
      (k j : K) (d : Dict K V) → lookup j (remove k d) ≡ (if k =? j then none else lookup j d)
  unfolding lookup remove
  lookup-remove k j [] = ground arith
  lookup-remove k j ((i, w) ∷ d) =
      ground (arith, e.beq_iff k j, e.beq_iff i k, e.beq_iff i j, lookup-remove k j d)

-- d.get(k, default)
abbrev pub get_default {ℓ} : {A : Type ℓ} → Option A → A → A
get_default none a = a
get_default (some b) a = b

module _ {ℓ} {A : Type ℓ} ⦃e : Eq A⦄ where
  -- s.add(a)
  abbrev pub add : A → List A → List A
  add a xs = if contains a xs then xs else xs ++ a ∷ []

  pub Memᴰ-add : {b a : A} {xs : List A} → Memᴰ b (add a xs) → (b ≡ a) ⊎ Memᴰ b xs
  Memᴰ-add {b} {a} {xs} m =
      elim (contains a xs) as (λ c. Memᴰ b (if c then xs else xs ++ a ∷ []) → (b ≡ a) ⊎ Memᴰ b xs) [
        | true ↦ λ old. inr old
        | false ↦ λ new. elim (Memᴰ-append xs new) [
          | inl old ↦ inr old
          | inr last ↦ inl (Memᴰ-single last)
        ]
      ]
        m

  pub Memᴰ-add_self : (a : A) (xs : List A) → Memᴰ a (add a xs)
  Memᴰ-add_self a xs =
      elim (contains a xs) as (λ c. contains a xs ≡ c → Memᴰ a (if c then xs else xs ++ a ∷ [])) [
        | true ↦ λ h. Memᴰ_of_contains a xs h
        | false ↦ λ h. Memᴰ-append_right xs (Memᴰ.head refl)
      ]
        refl

  pub Memᴰ-add_old : {b : A} (a : A) {xs : List A} → Memᴰ b xs → Memᴰ b (add a xs)
  Memᴰ-add_old {b} a {xs} m =
      elim (contains a xs) as (λ c. Memᴰ b (if c then xs else xs ++ a ∷ [])) [
        | true ↦ m
        | false ↦ Memᴰ-append_left (a ∷ []) m
      ]

-- `d.setdefault(key, []).append(value)`, and the grouping loops that consist of it.
module _ {ℓ κ} {K : Type ℓ} {V : Type κ} ⦃e : Eq K⦄ where
  unfoldable pub append_to : K → V → Dict K (List V) → Dict K (List V)
  append_to k v [] = (k, v ∷ []) ∷ []
  append_to k v ((j, vs) ∷ d) = if j =? k then (j, vs ++ v ∷ []) ∷ d else (j, vs) ∷ append_to k v d

-- `v` is in the group of the key `k`.
pub data InGroup {ℓ κ} {K : Type ℓ} {V : Type κ} (k : K) (v : V)
    : Dict K (List V) → Type (ℓ ⊔ κ) where
  first :
      {j : K} {vs : List V} {d : Dict K (List V)} → j ≡ k → Memᴰ v vs → InGroup k v ((j, vs) ∷ d)
  later : {p : K × List V} {d : Dict K (List V)} → InGroup k v d → InGroup k v (p ∷ d)

module _ {ℓ κ} {K : Type ℓ} {V : Type κ} ⦃e : Eq K⦄ where
  pub InGroup-append_to_self : (k : K) (v : V) (d : Dict K (List V)) → InGroup k v (append_to k v d)
  unfolding append_to
  InGroup-append_to_self k v [] = first refl (Memᴰ.head refl)
  InGroup-append_to_self k v ((j, vs) ∷ d) = elim (Bool-cases (j =? k)) [
    | inl y ↦ rw y (first (eq_of_=? y) (Memᴰ-append_right vs (Memᴰ.head refl)))
    | inr n ↦ rw n (later (InGroup-append_to_self k v d))
  ]

  pub InGroup-append_to_old :
      {k' : K} {v' : V} (k : K) (v : V) (d : Dict K (List V))
      → InGroup k' v' d
      → InGroup k' v' (append_to k v d)
  unfolding append_to
  InGroup-append_to_old k v [] m = elim m [ ]
  InGroup-append_to_old k v ((j, vs) ∷ d) (first p n) = elim (Bool-cases (j =? k)) [
    | inl y ↦ rw y (first p (Memᴰ-append_left (v ∷ []) n))
    | inr n' ↦ rw n' (first p n)
  ]
  InGroup-append_to_old k v ((j, vs) ∷ d) (later m) = elim (Bool-cases (j =? k)) [
    | inl y ↦ rw y (later m)
    | inr n' ↦ rw n' (later (InGroup-append_to_old k v d m))
  ]

  pub InGroup-append_to :
      {k' : K} {v' : V} (k : K) (v : V) (d : Dict K (List V))
      → InGroup k' v' (append_to k v d)
      → ((k ≡ k') × (v' ≡ v)) ⊎ InGroup k' v' d
  unfolding append_to
  InGroup-append_to k v [] (first p m) = inl (p, Memᴰ-single m)
  InGroup-append_to k v [] (later m) = elim m [ ]
  InGroup-append_to {k' = k'} {v' = v'} k v ((j, vs) ∷ d) m =
      elim (j =? k)
          as (λ c.
            (j =? k) ≡ c
            → InGroup k' v' (if c then (j, vs ++ v ∷ []) ∷ d else (j, vs) ∷ append_to k v d)
            → ((k ≡ k') × (v' ≡ v)) ⊎ InGroup k' v' ((j, vs) ∷ d)) [
              | true ↦ λ y m. grown y m
              | false ↦ λ n m. kept (λ o. InGroup-append_to k v d o) m
            ]
        refl m
    where
      grown :
          (j =? k) ≡ true
          → InGroup k' v' ((j, vs ++ v ∷ []) ∷ d)
          → ((k ≡ k') × (v' ≡ v)) ⊎ InGroup k' v' ((j, vs) ∷ d)
      grown y (first p n) = elim (Memᴰ-append vs n) [
        | inl old ↦ inr (first p old)
        | inr new ↦ inl (sym (eq_of_=? y) ∙ p, Memᴰ-single new)
      ]
      grown y (later n) = inr (later n)

      kept :
          (InGroup k' v' (append_to k v d) → ((k ≡ k') × (v' ≡ v)) ⊎ InGroup k' v' d)
          → InGroup k' v' ((j, vs) ∷ append_to k v d)
          → ((k ≡ k') × (v' ≡ v)) ⊎ InGroup k' v' ((j, vs) ∷ d)
      kept below (first p n) = inr (first p n)
      kept below (later n) = elim (below n) [ inl new ↦ inl new | inr old ↦ inr (later old) ]

-- No key stands twice.
abbrev pub IsDistinct {ℓ κ} : {K : Type ℓ} {V : Type κ} → Dict K (List V) → Type (ℓ ⊔ κ)
IsDistinct [] = Unit
IsDistinct {V = V} ((k, vs) ∷ d) = ((v : V) → ¬ InGroup k v d) × IsDistinct d

module _ {ℓ κ} {K : Type ℓ} {V : Type κ} ⦃e : Eq K⦄ where
  pub append_to-IsDistinct :
      (k : K) (v : V) (d : Dict K (List V)) → IsDistinct d → IsDistinct (append_to k v d)
  unfolding append_to
  append_to-IsDistinct k v [] h = ((λ w m. elim m [ ]), tt)
  append_to-IsDistinct k v ((j, vs) ∷ d) h = elim (Bool-cases (j =? k)) [
    | inl y ↦ rw y (h.0, h.1)
    | inr n ↦ rw n (
      (λ w m. elim (InGroup-append_to k v d m) [
        | inl new ↦ cc (=?_of_eq (sym new.0))
        | inr old ↦ h.0 w old
      ]),
      append_to-IsDistinct k v d h.1,
    )
  ]

-- How many entries a change leaves.
module _ {ℓ κ} {K : Type ℓ} {V : Type κ} ⦃e : Eq K⦄ where
  pub length-insert : (k : K) (v : V) (d : Dict K V) → length (insert k v d) ≤ length d + 1
  unfolding insert
  length-insert k v [] = omega arith
  length-insert k v ((j, w) ∷ d) = ground (arith, length-insert k v d)

  pub insert-pos : (k : K) (v : V) (d : Dict K V) → 0 < length (insert k v d)
  unfolding insert
  insert-pos k v [] = omega arith
  insert-pos k v ((j, w) ∷ d) = ground arith

  pub length-remove_le : (k : K) (d : Dict K V) → length (remove k d) ≤ length d
  unfolding remove
  length-remove_le k [] = omega arith
  length-remove_le k ((j, w) ∷ d) = ground (arith, length-remove_le k d)

  pub length-remove :
      (k : K) (d : Dict K V) {v : V} → lookup k d ≡ some v → length (remove k d) < length d
  unfolding remove lookup
  length-remove k [] h = cc
  length-remove k ((j, w) ∷ d) {v} h = elim (Bool-cases (j =? k)) [
    | inl y ↦ rw y (omega (arith, length-remove_le k d))
    | inr n ↦ rw n (omega (arith, length-remove k d {v = v} (ground arith)))
  ]

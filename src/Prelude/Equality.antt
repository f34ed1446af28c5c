-- ===== src/Prelude/Equality.antt =====
-- Equality tests, as an interface.
use Prim.Native.Nat.{ℕ}
use mathlib.Core.Path.{◌≡◌, refl, subst}
use mathlib.Core.Logic.{◌↔◌, ◌≢◌, inl, inr}
use mathlib.Core.Bool.{Bool, true, false}
use mathlib.Core.List.{List, [], ◌∷◌, Memᴰ}
use native.Mathlib.Omega.{arith}
use jude.Prelude.Tests.{◌==◌ as nat_beq, ==_iff, if◌then◌else◌, Bool-cases}

pub record Eq {ℓ} (A : Type ℓ) : Type ℓ where
  pub beq : A → A → Bool
  pub beq_iff : (a b : A) → (beq a b ≡ true) ↔ (a ≡ b)

infix 50 ◌=?◌
abbrev pub ◌=?◌ {ℓ} : {A : Type ℓ} ⦃e : Eq A⦄ → A → A → Bool
◌=?◌ ⦃e⦄ = e.beq

instance abbrev pub nat_eq : Eq ℕ
nat_eq = record { beq = nat_beq; beq_iff = ==_iff }

module _ {ℓ} {A : Type ℓ} ⦃e : Eq A⦄ where
  pub =?_of_eq : {a b : A} → a ≡ b → (a =? b) ≡ true
  =?_of_eq {a} {b} p = (e.beq_iff a b).1 p

  pub eq_of_=? : {a b : A} → (a =? b) ≡ true → a ≡ b
  eq_of_=? {a} {b} p = (e.beq_iff a b).0 p

  pub =?_of_ne : {a b : A} → a ≢ b → (a =? b) ≡ false
  =?_of_ne {a} {b} n = elim (Bool-cases (a =? b)) [ inl y ↦ absurd (n (eq_of_=? y)) | inr f ↦ f ]

  -- `a in xs`
  abbrev pub contains : A → List A → Bool
  contains a [] = false
  contains a (x ∷ xs) = if a =? x then true else contains a xs

  pub Memᴰ_of_contains : (a : A) (xs : List A) → contains a xs ≡ true → Memᴰ a xs
  Memᴰ_of_contains a [] h = cc
  Memᴰ_of_contains a (x ∷ xs) h = elim (Bool-cases (a =? x)) [
    | inl y ↦ Memᴰ.head (eq_of_=? y)
    | inr f ↦ Memᴰ.tail (Memᴰ_of_contains a xs (ground arith))
  ]

  pub contains_of_Memᴰ : {a : A} {xs : List A} → Memᴰ a xs → contains a xs ≡ true
  contains_of_Memᴰ (Memᴰ.head p) = ground (arith, =?_of_eq p)
  contains_of_Memᴰ (Memᴰ.tail m) = ground (arith, contains_of_Memᴰ m)

  -- A tuple's equality is that of its parts, in order.
  abbrev pub list_beq : List A → List A → Bool
  list_beq [] [] = true
  list_beq [] (y ∷ ys) = false
  list_beq (x ∷ xs) [] = false
  list_beq (x ∷ xs) (y ∷ ys) = if x =? y then list_beq xs ys else false

  list_beq_eq : (xs ys : List A) → list_beq xs ys ≡ true → xs ≡ ys
  list_beq_eq [] [] h = refl
  list_beq_eq [] (y ∷ ys) h = cc
  list_beq_eq (x ∷ xs) [] h = cc
  list_beq_eq (x ∷ xs) (y ∷ ys) h = ground (arith, list_beq_eq xs ys, (e.beq_iff x y).0)

  list_beq_refl : (xs : List A) → list_beq xs xs ≡ true
  list_beq_refl [] = refl
  list_beq_refl (x ∷ xs) = ground (arith, list_beq_refl xs, (e.beq_iff x x).1 refl)

  pub list_beq_iff : (xs ys : List A) → (list_beq xs ys ≡ true) ↔ (xs ≡ ys)
  list_beq_iff xs ys =
      (list_beq_eq xs ys, λ p. subst (λ v. list_beq xs v ≡ true) p (list_beq_refl xs))

instance abbrev pub list_eq {ℓ} : {A : Type ℓ} ⦃e : Eq A⦄ → Eq (List A)
list_eq = record { beq = list_beq; beq_iff = list_beq_iff }

-- Pairs are compared by their parts, in order.
module _ {ℓ κ} {A : Type ℓ} {B : Type κ} ⦃a_eq : Eq A⦄ ⦃b_eq : Eq B⦄ where
  abbrev pub pair_beq : A × B → A × B → Bool
  pair_beq (a, b) (c, d) = if a =? c then b =? d else false

  pub pair_beq_iff : (p q : A × B) → (pair_beq p q ≡ true) ↔ (p ≡ q)
  pair_beq_iff (a, b) (c, d) = ground (arith, a_eq.beq_iff a c, b_eq.beq_iff b d)

instance abbrev pub pair_eq {ℓ κ} : {A : Type ℓ} {B : Type κ} ⦃a : Eq A⦄ ⦃b : Eq B⦄ → Eq (A × B)
pair_eq = record { beq = pair_beq; beq_iff = pair_beq_iff }

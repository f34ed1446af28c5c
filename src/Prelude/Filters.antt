-- ===== src/Prelude/Filters.antt =====
-- Filtered lists, and lists cut up by a number that each element has.
use Prim.Native.Nat.{ℕ, zero, suc, ◌+◌, ◌≤◌, ◌<◌}
use mathlib.Core.Path.{◌≡◌, refl, ap, ap₂, subst}
use mathlib.Core.Bool.{Bool, false, not}
use mathlib.Core.Logic.{inl, inr}
use mathlib.Core.List.{List, [], ◌∷◌, ◌++◌, map, Permᴰ}
use mathlib.Core.List.Permᴰ
use native.Mathlib.Omega.{arith}
use jude.Prelude.Tests.{if◌then◌else◌, Bool-cases, ◌==◌}
use jude.Prelude.Lists.{All}

module _ {ℓ} {A : Type ℓ} where
  abbrev pub filter : (A → Bool) → List A → List A
  filter p [] = []
  filter p (x ∷ xs) = if p x then x ∷ filter p xs else filter p xs

  pub filter-append :
      (p : A → Bool) (xs ys : List A) → filter p (xs ++ ys) ≡ filter p xs ++ filter p ys
  filter-append p [] ys = refl
  filter-append p (x ∷ xs) ys = elim (Bool-cases (p x)) [
    | inl y ↦ rw y (ap (λ v. x ∷ v) (filter-append p xs ys))
    | inr n ↦ rw n (filter-append p xs ys)
  ]

  -- A list is what passes and what does not.
  pub filter-not-Perm :
      (p : A → Bool) (xs : List A) → Permᴰ (filter p xs ++ filter (λ x. not (p x)) xs) xs
  filter-not-Perm p [] = Permᴰ.nil
  filter-not-Perm p (x ∷ xs) = elim (Bool-cases (p x)) [
    | inl y ↦ rw y (Permᴰ.cons refl (filter-not-Perm p xs))
    | inr n ↦ rw n (
        Permᴰ.trans (Permᴰ.middle x (filter p xs) (filter (λ v. not (p v)) xs))
          (Permᴰ.cons refl (filter-not-Perm p xs)))
  ]

  module _ (f : A → ℕ) where
    -- The elements with the number `j`, then those with the next, `count` numbers in all.
    abbrev pub cut : ℕ → ℕ → List A → List A
    cut j zero xs = []
    cut j (suc count) xs = filter (λ x. f x == j) xs ++ cut (suc j) count xs

    filter-filter-ne :
        (i j : ℕ) (xs : List A)
        → i < j
        → filter (λ x. f x == j) (filter (λ x. not (f x == i)) xs) ≡ filter (λ x. f x == j) xs
    filter-filter-ne i j [] h = refl
    filter-filter-ne i j (x ∷ xs) h = elim (Bool-cases (f x == i)) [
      | inl y ↦ let n : (f x == j) ≡ false = ground arith in rw (y, n) (filter-filter-ne i j xs h)
      | inr m ↦ rw m (ap (λ v. if f x == j then x ∷ v else v) (filter-filter-ne i j xs h))
    ]

    cut-filter-ne :
        (i j count : ℕ) (xs : List A)
        → i < j
        → cut j count (filter (λ x. not (f x == i)) xs) ≡ cut j count xs
    cut-filter-ne i j zero xs h = refl
    cut-filter-ne i j (suc count) xs h =
        ap₂ (λ u v. u ++ v) (filter-filter-ne i j xs h)
          (cut-filter-ne i (suc j) count xs (omega arith))

    above :
        (i count : ℕ) (xs : List A)
        → All (λ x. (i ≤ f x) × (f x < i + suc count)) xs
        → All (λ x. (suc i ≤ f x) × (f x < suc i + count)) (filter (λ x. not (f x == i)) xs)
    above i count [] h = tt
    above i count (x ∷ xs) h = elim (Bool-cases (f x == i)) [
      | inl y ↦ rw y (above i count xs h.1)
      | inr n ↦ rw n ((ground arith, ground arith), above i count xs h.1)
    ]

    -- The pieces are the list in another order.
    pub cut-Perm :
        (j count : ℕ) (xs : List A)
        → All (λ x. (j ≤ f x) × (f x < j + count)) xs
        → Permᴰ (cut j count xs) xs
    cut-Perm j zero [] h = Permᴰ.nil
    cut-Perm j zero (x ∷ xs) h = absurd (omega (arith, h.0.0, h.0.1))
    cut-Perm j (suc count) xs h =
        let rest = cut-Perm (suc j) count (filter (λ x. not (f x == j)) xs) (above j count xs h) in
        let same = cut-filter-ne j (suc j) count xs (omega arith) in
        Permᴰ.trans
          (Permᴰ.append_left (filter (λ x. f x == j) xs)
            (subst (λ v. Permᴰ v (filter (λ x. not (f x == j)) xs)) same rest))
          (filter-not-Perm (λ x. f x == j) xs)

pub map-Perm {ℓ κ} :
    {A : Type ℓ} {B : Type κ} {xs ys : List A} (f : A → B)
    → Permᴰ xs ys
    → Permᴰ (map f xs) (map f ys)
map-Perm f Permᴰ.nil = Permᴰ.nil
map-Perm f (Permᴰ.cons e d) = Permᴰ.cons (ap f e) (map-Perm f d)
map-Perm f (Permᴰ.swap e₁ e₂) = Permᴰ.swap (ap f e₁) (ap f e₂)
map-Perm f (Permᴰ.trans d₁ d₂) = Permᴰ.trans (map-Perm f d₁) (map-Perm f d₂)

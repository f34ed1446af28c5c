-- ===== src/Prelude/Zips.antt =====
-- Two lists side by side.
use Prim.Native.Nat.{ℕ, zero, suc}
use mathlib.Core.Path.{◌≡◌, refl, ap}
use mathlib.Core.List.{List, [], ◌∷◌, ◌++◌, map}
use native.Mathlib.Omega.{arith}
use jude.Prelude.Lists.{length, take, drop, replicate}

module _ {A B : Type 0} where
  abbrev pub zip : List A → List B → List (A × B)
  zip [] ys = []
  zip (x ∷ xs) [] = []
  zip (x ∷ xs) (y ∷ ys) = (x, y) ∷ zip xs ys

  pub zip-take :
      (n : ℕ) (xs : List A) (ys : List B) → zip (take n xs) (take n ys) ≡ take n (zip xs ys)
  zip-take zero xs ys = refl
  zip-take (suc n) [] ys = refl
  zip-take (suc n) (x ∷ xs) [] = refl
  zip-take (suc n) (x ∷ xs) (y ∷ ys) = ap (λ v. (x, y) ∷ v) (zip-take n xs ys)

  pub zip-drop :
      (n : ℕ) (xs : List A) (ys : List B)
      → length xs ≡ length ys
      → zip (drop n xs) (drop n ys) ≡ drop n (zip xs ys)
  zip-drop zero xs ys h = refl
  zip-drop (suc n) [] ys h = refl
  zip-drop (suc n) (x ∷ xs) [] h = absurd (omega arith)
  zip-drop (suc n) (x ∷ xs) (y ∷ ys) h = zip-drop n xs ys (omega arith)

  pub zip-append :
      (xs xs' : List A) (ys ys' : List B)
      → length xs ≡ length ys
      → zip (xs ++ xs') (ys ++ ys') ≡ zip xs ys ++ zip xs' ys'
  zip-append [] xs' [] ys' h = refl
  zip-append [] xs' (y ∷ ys) ys' h = absurd (omega arith)
  zip-append (x ∷ xs) xs' [] ys' h = absurd (omega arith)
  zip-append (x ∷ xs) xs' (y ∷ ys) ys' h =
      ap (λ v. (x, y) ∷ v) (zip-append xs xs' ys ys' (omega arith))

  pub zip-replicate :
      (n : ℕ) (a : A) (b : B) → zip (replicate n a) (replicate n b) ≡ replicate n (a, b)
  zip-replicate zero a b = refl
  zip-replicate (suc n) a b = ap (λ v. (a, b) ∷ v) (zip-replicate n a b)

  pub zip-map : (xs : List A) (b : B) → zip xs (replicate (length xs) b) ≡ map (λ a. (a, b)) xs
  zip-map [] b = refl
  zip-map (x ∷ xs) b = ap (λ v. (x, b) ∷ v) (zip-map xs b)

  pub length-zip :
      (xs : List A) (ys : List B) → length xs ≡ length ys → length (zip xs ys) ≡ length xs
  length-zip [] ys h = refl
  length-zip (x ∷ xs) [] h = absurd (omega arith)
  length-zip (x ∷ xs) (y ∷ ys) h = ap suc (length-zip xs ys (omega arith))

-- ===== src/Dedup/Substring/Windows.antt =====
-- The rolling hash of `window_hashes` against the hash of each window by itself.
use native.Mathlib.Nat.{
  mod-add-mod, add-mod-mod, mod-mod, add-mul-mod_self_right, div-add-mod', add-mod_right, pow-suc,
}
use jude.Prelude.{
  ℕ, zero, suc, ◌+◌, ◌-◌, ◌*◌, ◌/◌, ◌%◌, ◌^◌, ◌≡◌, ◌≤◌, ◌<◌, refl, sym, ap, ◌∙◌, List, [], ◌∷◌,
  ◌++◌, map, arith, length, take, drop, lt→ltb, Bool-cases, inl, inr, mod-lt, subst, length-map,
  ltb, if◌then◌else◌, ap₂, if-true, if-false, length-take,
}
use jude.Texts.{Text, Alphabet}
use jude.Dedup.Substring.{mod_61, poly_b, roll_in, roll, roll_on, window_hashes}

-- The polynomial that the hash reduces.
abbrev pub value : ℕ → List ℕ → ℕ
value acc [] = acc
value acc (t ∷ th) = value (acc * poly_b + t) th

module _ (m : ℕ) (pos : 0 < m) where
  mod-cancel : (a b z : ℕ) → (a + z) % m ≡ (b + z) % m → a % m ≡ b % m
  mod-cancel a b z e = sym (back a) ∙ ap (λ v. (v + (m - z % m)) % m) e ∙ back b
    where
      back : (a : ℕ) → ((a + z) % m + (m - z % m)) % m ≡ a % m
      back a =
          let q : z / m * m + z % m ≡ z = div-add-mod' z m in
          let l = mod-lt z pos in
          let s : a + z + (m - z % m) ≡ a + (z / m + 1) * m = grind arith in
          mod-add-mod (a + z) m (m - z % m)
          ∙ ap (λ v. v % m) s
          ∙ add-mul-mod_self_right a (z / m + 1) m

  mul-mod : (x p : ℕ) → x * (p % m) % m ≡ x * p % m
  mul-mod x p =
      let q : p / m * m + p % m ≡ p = div-add-mod' p m in
      let s : x * p ≡ x * (p % m) + x * (p / m) * m = grind arith in
      sym (ap (λ v. v % m) s ∙ add-mul-mod_self_right (x * (p % m)) (x * (p / m)) m)

  -- The oldest term leaves the hash.
  leaves : (x p v : ℕ) → ((x * p + v) % m + (m - x * (p % m) % m)) % m ≡ v % m
  leaves x p v =
      let c = x * (p % m) % m in
      let l : c < m = mod-lt (x * (p % m)) pos in
      let d = (x * p + v) % m + (m - c) in
      mod-cancel d v (x * p) (
        sym (add-mod-mod d (x * p) m)
        ∙ ap (λ u. (d + u) % m) (sym (mul-mod x p))
        ∙ ap (λ u. u % m) (omega (arith, l))
        ∙ add-mod_right ((x * p + v) % m) m
        ∙ mod-mod (x * p + v) m
        ∙ ap (λ u. u % m) (omega arith))

abbrev pub modulus : ℕ
modulus = mod_61

modulus-pos : 0 < modulus
modulus-pos = omega arith

-- The next hash depends on the one before only by its remainder.
step-mod : (u y : ℕ) → ((u % mod_61) * poly_b + y) % mod_61 ≡ (u * poly_b + y) % mod_61
step-mod u y =
    let e = mul-mod mod_61 modulus-pos poly_b u in
    sym (mod-add-mod (u % mod_61 * poly_b) mod_61 y)
    ∙ ap (λ v. (v + y) % mod_61)
        (ap (λ v. v % mod_61) (grind arith) ∙ e ∙ ap (λ v. v % mod_61) (grind arith))
    ∙ mod-add-mod (u * poly_b) mod_61 y

roll_in-value : (a : ℕ) (th : List ℕ) → roll_in (a % mod_61) th ≡ value a th % mod_61
unfolding roll_in
roll_in-value a [] = refl
roll_in-value a (t ∷ th) = ap (λ v. roll_in v th) (step-mod a t) ∙ roll_in-value (a * poly_b + t) th

regroup : (a b t p v : ℕ) → (a * b + t) * p + v ≡ a * (p * b) + ((0 * b + t) * p + v)
regroup a b t p v = grind arith

value_acc : (a : ℕ) (th : List ℕ) → value a th ≡ a * poly_b ^ length th + value 0 th
value_acc a [] = omega arith
value_acc a (t ∷ th) =
    let e = value_acc (a * poly_b + t) th in
    let f = value_acc (0 * poly_b + t) th in
    e
    ∙ ap (λ v. (a * poly_b + t) * poly_b ^ length th + v) refl
    ∙ regroup a poly_b t (poly_b ^ length th) (value 0 th)
    ∙ ap₂ (λ u v. a * u + v) (sym (pow-suc poly_b (length th))) (sym f)

value_snoc : (a : ℕ) (th : List ℕ) (y : ℕ) → value a (th ++ y ∷ []) ≡ value a th * poly_b + y
value_snoc a [] y = refl
value_snoc a (t ∷ th) y = value_snoc (a * poly_b + t) th y

-- One step of the window.
roll-value :
    (x y : ℕ) (l : List ℕ)
    → roll (poly_b ^ length l % mod_61) (value 0 (x ∷ l) % mod_61) x y
      ≡ value 0 (l ++ y ∷ []) % mod_61
unfolding roll
roll-value x y l =
    let p = poly_b ^ length l in
    let v = value 0 l in
    let e : value 0 (x ∷ l) ≡ x * p + v =
      value_acc (0 * poly_b + x) l ∙ ap (λ u. u * p + v) (omega arith) in
    let gone = leaves mod_61 modulus-pos x p v in
    ap (λ u. ((u % mod_61 + (mod_61 - x * (p % mod_61) % mod_61)) * poly_b + y) % mod_61) e
    ∙ sym (step-mod ((x * p + v) % mod_61 + (mod_61 - x * (p % mod_61) % mod_61)) y)
    ∙ ap (λ u. (u * poly_b + y) % mod_61) gone
    ∙ step-mod v y
    ∙ ap (λ u. u % mod_61) (sym (value_snoc 0 l y))

-- The windows of `k` numbers.
abbrev pub slices : ℕ → List ℕ → List (List ℕ)
slices k [] = []
slices k (t ∷ th) =
    let rest = slices k th in if ltb (length (t ∷ th)) k then [] else take k (t ∷ th) ∷ rest

slices_short : (k : ℕ) (th : List ℕ) → length th < k → slices k th ≡ []
slices_short k [] h = refl
slices_short k (t ∷ th) h = if-true _ (lt→ltb _ _ h)

slices_long :
    (k t : ℕ) (th : List ℕ)
    → k ≤ length (t ∷ th)
    → slices k (t ∷ th) ≡ take k (t ∷ th) ∷ slices k th
slices_long k t th h = if-false {t = ltb (length (t ∷ th)) k} [] (ground (arith, h))

take_next :
    (n : ℕ) (l : List ℕ) {y : ℕ} {ys : List ℕ}
    → drop n l ≡ y ∷ ys
    → (take (suc n) l ≡ take n l ++ y ∷ []) × (drop (suc n) l ≡ ys) × (n < length l)
take_next zero [] e = absurd cc
take_next zero (x ∷ l) {y} {ys} e =
    let p : x ≡ y = cc in let q : l ≡ ys = cc in (ap (λ v. v ∷ []) p, q, omega arith)
take_next (suc n) [] e = absurd cc
take_next (suc n) (x ∷ l) e =
    let (a, b, c) = take_next n l e in (ap (λ v. x ∷ v) a, b, omega (arith, c))

drop_none_left : (n : ℕ) (l : List ℕ) → drop n l ≡ [] → length l ≤ n
drop_none_left zero [] e = omega arith
drop_none_left zero (x ∷ l) e = absurd cc
drop_none_left (suc n) [] e = omega arith
drop_none_left (suc n) (x ∷ l) e = omega (arith, drop_none_left n l e)

hash_is : (th : List ℕ) → roll_in 0 th ≡ value 0 th % mod_61
hash_is th = roll_in-value 0 th

roll_on-slices :
    (n : ℕ) (olds news : List ℕ)
    → drop (suc n) olds ≡ news
    → suc n ≤ length olds
    → roll_on (poly_b ^ n % mod_61) (value 0 (take (suc n) olds) % mod_61) olds news
      ≡ map (roll_in 0) (slices (suc n) olds)
unfolding roll_on
roll_on-slices n [] news e h = absurd (omega (arith, h))
roll_on-slices n (x ∷ l) [] e h =
    let s = slices_short (suc n) l (omega (arith, drop_none_left n l e)) in
    rw (slices_long (suc n) x l h, s) (ap (λ v. v ∷ []) (sym (hash_is (x ∷ take n l))))
roll_on-slices n (x ∷ l) (y ∷ ys) e h =
    let (next, rest, room) = take_next n l e in
    let bk = poly_b ^ n % mod_61 in
    let size : length (take n l) ≡ n = omega (arith, length-take n l, room) in
    let rolled =
      subst
        (λ v.
          roll (poly_b ^ v % mod_61) (value 0 (x ∷ take n l) % mod_61) x y
          ≡ value 0 (take n l ++ y ∷ []) % mod_61)
        size (roll-value x y (take n l))
      ∙ ap (λ v. value 0 v % mod_61) (sym next) in
    rw (slices_long (suc n) x l h) (
      ap₂ (λ u v. u ∷ v) (sym (hash_is (x ∷ take n l)))
        (ap (λ v. roll_on bk v l ys) rolled ∙ roll_on-slices n l ys rest room))

-- The hash of every window is the hash of its own tokens: rolling it along changes nothing.
pub window_hashes-slices :
    (abc : Alphabet) (token_hash : Text → ℕ) (k : ℕ)
    → 0 < k
    → (tokens : List Text)
    → window_hashes abc token_hash k tokens ≡ map (roll_in 0) (slices k (map token_hash tokens))
unfolding window_hashes
window_hashes-slices abc token_hash zero p tokens = absurd (omega (arith, p))
window_hashes-slices abc token_hash (suc n) p tokens =
    let th = map token_hash tokens in
    let size : length th ≡ length tokens = length-map tokens token_hash in
    elim (Bool-cases (ltb (length tokens) (suc n))) [
      | inl y ↦
          if-true _ y ∙ ap (map (roll_in 0)) (sym (slices_short (suc n) th (ground (arith, size))))
      | inr m ↦
          if-false _ m
          ∙ ap
              (λ v.
                roll_on (poly_b ^ v % mod_61) (roll_in 0 (take (suc n) th)) th (drop (suc n) th))
              (omega arith)
          ∙ ap (λ v. roll_on (poly_b ^ n % mod_61) v th (drop (suc n) th))
              (hash_is (take (suc n) th))
          ∙ roll_on-slices n th (drop (suc n) th) refl (ground (arith, m, size))
    ]

-- ===== src/Dedup/UnionFind/Root.antt =====
-- The tree that an array of parents stands for, and what one write does to it.
use jude.Prelude.{
  ℕ, ◌≤◌, ◌<◌, ◌≡◌, ◌≢◌, sym, some, List, length, get_elem?, set, get_elem?-set_self,
  get_elem?-set_ne, get_elem?-lt, arith, subst, ◌==◌, if◌then◌else◌, ℕ_discrete,
}

-- `x` leads to the root `r`.
pub data Root (parent : List ℕ) : ℕ → ℕ → Type 0 where
  here : {x r : ℕ} → get_elem? parent x ≡ some r → x ≡ r → Root parent x r
  step : {x y r : ℕ} → get_elem? parent x ≡ some y → y ≢ x → Root parent y r → Root parent x r

pub Root-self : {p : List ℕ} {x r : ℕ} → Root p x r → get_elem? p r ≡ some r
Root-self (here g e) = cc
Root-self (step g n t) = Root-self t

pub Root-lt : {p : List ℕ} {x r : ℕ} → Root p x r → r < length p
Root-lt {p} {x} {r} t = get_elem?-lt p r (Root-self t)

pub Root-unique : {p : List ℕ} {x r s : ℕ} → Root p x r → Root p x s → r ≡ s
Root-unique (here g e) (here g' e') = cc
Root-unique (here g e) (step g' n t) = absurd (n (ground (arith)))
Root-unique (step g n t) (here g' e) = absurd (n (ground (arith)))
Root-unique {p} {s = s} (step {y = y} g n t) (step {y = z} g' n' t') =
    Root-unique t (subst (λ v. Root p v s) (ground arith) t')

-- Every parent is an index of the array, and at most the index that it stands at.
pub record IsForest (parent : List ℕ) : Type 0 where
  pub down : (x : ℕ) {y : ℕ} → get_elem? parent x ≡ some y → y ≤ x

pub Root-le : {p : List ℕ} {x r : ℕ} → IsForest p → Root p x r → r ≤ x
Root-le f (here g e) = omega arith
Root-le {x} f (step g n t) = omega (arith, f.down x g, Root-le f t)

-- One write: what is read afterwards.
pub get_elem?-set :
    (p : List ℕ) (i v j : ℕ)
    → i < length p
    → get_elem? (set p i v) j ≡ (if i == j then some v else get_elem? p j)
get_elem?-set p i v j h = elim (ℕ_discrete i j) [
  | yes e ↦ ground (arith, get_elem?-set_self p i v h)
  | no n ↦ ground (arith, get_elem?-set_ne p {i = i} {j = j} v n)
]

pub set-IsForest : {p : List ℕ} (i v : ℕ) → IsForest p → i < length p → v ≤ i → IsForest (set p i v)
set-IsForest {p} i v f h l = record {
  down = λ x {y} g. ground (arith, get_elem?-set p i v x h, f.down x {y = y});
}

pub Root-index : {p : List ℕ} {x r : ℕ} → Root p x r → x < length p
Root-index {p} {x} (here g e) = get_elem?-lt p x g
Root-index {p} {x} (step g n t) = get_elem?-lt p x g

-- Pointing a vertex at its own root changes no root.
pub Root-compress : {p : List ℕ} {x r y s : ℕ} → Root p x r → Root p y s → Root (set p x r) y s
Root-compress {p} {x} {r} {y} {s} t (here g e) =
    here (ground (arith, get_elem?-set p x r y (Root-index t), to_self)) e
  where
    to_self : x ≡ y → r ≡ s
    to_self q = Root-unique t (subst (λ v. Root p v s) (sym q) (here g e))
Root-compress {p} {x} {r} {y} {s} t (step {y = z} g n u) = elim (ℕ_discrete x y) [
  | no ne ↦ step (ground (arith, get_elem?-set p x r y (Root-index t))) n (Root-compress t u)
  | yes q ↦
      let same : r ≡ s = Root-unique t (subst (λ v. Root p v s) (sym q) (step g n u)) in
      let apart : r ≢ y = λ e. n (ground (arith, Root-self t)) in
      step {y = r} (ground (arith, get_elem?-set p x r y (Root-index t))) apart
        (here (ground (arith, get_elem?-set p x r r (Root-index t), Root-self t)) same)
]

-- Pointing the root `hi` at the root `lo` sends the tree of `hi` to `lo`, and no other tree.
pub Root-link :
    {p : List ℕ} {hi lo y s : ℕ}
    → hi ≢ lo
    → get_elem? p hi ≡ some hi
    → get_elem? p lo ≡ some lo
    → Root p y s
    → Root (set p hi lo) y (if s == hi then lo else s)
Root-link {p} {hi} {lo} {y} {s} apart top bottom (here g e) = elim (ℕ_discrete y hi) [
  | no ne ↦ here (ground (arith, get_elem?-set p hi lo y (get_elem?-lt p hi top))) (ground arith)
  | yes q ↦
      step {y = lo} (ground (arith, get_elem?-set p hi lo y (get_elem?-lt p hi top))) (ground arith)
        (here (ground (arith, get_elem?-set p hi lo lo (get_elem?-lt p hi top))) (ground arith))
]
Root-link {p} {hi} {lo} {y} {s} apart top bottom (step {y = z} g n u) =
    step (ground (arith, get_elem?-set p hi lo y (get_elem?-lt p hi top))) n
      (Root-link apart top bottom u)

-- A vertex whose parent is not its root is no root, and its parent has the same root.
pub Root-up :
    {p : List ℕ} {x r up : ℕ}
    → Root p x r
    → get_elem? p x ≡ some up
    → up ≢ r
    → (up ≢ x) × Root p up r
Root-up {p} {x} {r} {up} (here g e) h n = absurd (n (ground arith))
Root-up {p} {x} {r} {up} (step {y = y} g m t) h n =
    let q : y ≡ up = cc in (ground arith, subst (λ v. Root p v r) q t)

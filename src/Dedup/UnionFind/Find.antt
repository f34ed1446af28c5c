-- ===== src/Dedup/UnionFind/Find.antt =====
-- The two loops of `find`, and `union`: what they return, and what they do to the trees.
use jude.Prelude.{
  ℕ, zero, suc, ◌≤◌, ◌<◌, ◌≡◌, refl, some, List, length, get_elem?, set, length-set, get_elem?-lt,
  get_elem?_of_lt, arith, subst, ◌==◌, ltb, if◌then◌else◌, ℕ_discrete, Bool-cases, inl, inr, min,
  max,
}
use jude.Dedup.UnionFind.{UnionFind, find_root, compress, find, link, union}
use jude.Dedup.UnionFind.Root.{
  Root, here, step, Root-self, Root-unique, Root-le, Root-index, Root-compress, Root-link, IsForest,
  set-IsForest, Root-up,
}

-- With fuel above the index, the first loop ends at the root.
pub find_root-Root :
    (fuel : ℕ) (p : List ℕ) (x : ℕ)
    → IsForest p
    → x < length p
    → x < fuel
    → (r : ℕ) × (find_root fuel p x ≡ some r) × Root p x r
unfolding find_root
find_root-Root zero p x f h l = absurd (omega arith)
find_root-Root (suc fuel) p x f h l =
    let (up, g) = get_elem?_of_lt p x h in
    elim (ℕ_discrete up x) [
      | yes e ↦ (x, ground arith, here (ground arith) refl)
      | no ne ↦
          let below : up ≤ x = f.down x g in
          let (r, runs, t) = find_root-Root fuel p up f (omega arith) (omega arith) in
          (r, ground arith, step g ne t)
    ]

-- `q` has the trees of `p`.
pub record SameTrees (p q : List ℕ) : Type 0 where
  pub sizes : length q ≡ length p
  pub forest : IsForest q
  pub keeps : {y s : ℕ} → Root p y s → Root q y s

pub SameTrees-trans : {p q r : List ℕ} → SameTrees p q → SameTrees q r → SameTrees p r
SameTrees-trans a b = record {
  sizes = omega (arith, a.sizes, b.sizes);
  forest = b.forest;
  keeps = λ {y} {s} t. b.keeps (a.keeps t);
}

-- With fuel above the index, path compression ends, and keeps the trees.
pub compress-SameTrees :
    (fuel : ℕ) (p : List ℕ) (x r : ℕ)
    → IsForest p
    → Root p x r
    → x < fuel
    → (q : List ℕ) × (compress fuel r p x ≡ some q) × SameTrees p q
unfolding compress
compress-SameTrees zero p x r f t l = absurd (omega arith)
compress-SameTrees (suc fuel) p x r f t l =
    let (up, g) = get_elem?_of_lt p x (Root-index t) in
    elim (ℕ_discrete up r) [
      | yes e ↦ (p, ground arith, record { sizes = refl; forest = f; keeps = λ {y} {s} u. u })
      | no ne ↦
          let (apart, t') = Root-up t g ne in
          let below : up ≤ x = f.down x g in
          let more : SameTrees p (set p x r) = record {
            sizes = length-set p x r;
            forest = set-IsForest x r f (Root-index t) (Root-le f t);
            keeps = λ {y} {s} u. Root-compress t u;
          } in
          let (q, runs, keep) =
            compress-SameTrees fuel (set p x r) up r more.forest (more.keeps t') (omega arith) in
          (q, ground arith, SameTrees-trans more keep)
    ]

-- The branch of `union` after its two calls of `find`, on the trees.
abbrev pub merged : ℕ → ℕ → ℕ → ℕ
merged ra rb s = if s == max ra rb then min ra rb else s

-- `find` returns the root of its argument, and keeps the trees.
pub find-Root :
    (uf : UnionFind) (x : ℕ)
    → IsForest uf.parent
    → x < length uf.parent
    → (after : UnionFind) × (r : ℕ) × (find uf x ≡ some (after, r))
      × Root uf.parent x r
      × SameTrees uf.parent after.parent
unfolding find
find-Root uf x f h =
    let (r, climbs, t) = find_root-Root (length uf.parent) uf.parent x f h h in
    let (q, ends, keep) = compress-SameTrees (length uf.parent) uf.parent x r f t h in
    (record { parent = q }, r, ground arith, t, keep)

-- Each vertex has a root.
pub Root-total : (p : List ℕ) (x : ℕ) → IsForest p → x < length p → (r : ℕ) × Root p x r
Root-total p x f h = let (r, _, t) = find_root-Root (length p) p x f h h in (r, t)

pub Root-back : {p q : List ℕ} {x r : ℕ} → IsForest p → SameTrees p q → Root q x r → Root p x r
Root-back {p} {q} {x} {r} f same t =
    let (s, u) = Root-total p x f (omega (arith, Root-index t, same.sizes)) in
    subst (λ v. Root p x v) (Root-unique (same.keeps u) t) u

-- `q` has the trees of `p`, with those of the roots `ra` and `rb` joined under the smaller root.
pub record Joins (p : List ℕ) (ra rb : ℕ) (q : List ℕ) : Type 0 where
  pub sizes : length q ≡ length p
  pub forest : IsForest q
  pub merges : {y s : ℕ} → Root p y s → Root q y (merged ra rb s)

set-Joins :
    (p : List ℕ) (ra rb hi lo : ℕ)
    → IsForest p
    → get_elem? p hi ≡ some hi
    → get_elem? p lo ≡ some lo
    → lo < hi
    → ((s : ℕ) → (if s == hi then lo else s) ≡ merged ra rb s)
    → Joins p ra rb (set p hi lo)
set-Joins p ra rb hi lo f top bottom l names = record {
  sizes = length-set p hi lo;
  forest = set-IsForest hi lo f (get_elem?-lt p hi top) (omega arith);
  merges = λ {y} {s} t.
      subst (λ v. Root (set p hi lo) y v) (names s) (Root-link (omega arith) top bottom t);
}

link-Joins :
    (ra rb : ℕ) (uf : UnionFind)
    → IsForest uf.parent
    → get_elem? uf.parent ra ≡ some ra
    → get_elem? uf.parent rb ≡ some rb
    → Joins uf.parent ra rb (link ra rb uf).parent
unfolding link
link-Joins ra rb uf f top_a top_b = elim (ℕ_discrete ra rb) [
  | yes e ↦ subst (Joins uf.parent ra rb) (ground arith) (record {
    sizes = refl;
    forest = f;
    merges = λ {y} {s} t. subst (λ v. Root uf.parent y v) (ground arith) t;
  })
  | no ne ↦ elim (Bool-cases (ltb ra rb)) [
    | inl below ↦
        subst (Joins uf.parent ra rb) (ground arith)
          (set-Joins uf.parent ra rb rb ra f top_b top_a (ground arith) (λ s. ground arith))
    | inr above ↦
        subst (Joins uf.parent ra rb) (ground arith)
          (set-Joins uf.parent ra rb ra rb f top_a top_b (ground arith) (λ s. ground arith))
  ]
]

-- `union` returns, and joins the trees of its two arguments under the smaller of their roots.
pub union-Root :
    (uf : UnionFind) (a b : ℕ)
    → IsForest uf.parent
    → a < length uf.parent
    → b < length uf.parent
    → (after : UnionFind) × (ra : ℕ) × (rb : ℕ) × (union a b uf ≡ some after)
      × Root uf.parent a ra
      × Root uf.parent b rb
      × Joins uf.parent ra rb after.parent
unfolding union
union-Root uf a b f ha hb =
    let (uf1, ra, finds_a, ta, same_a) = find-Root uf a f ha in
    let (uf2, rb, finds_b, tb, same_b) =
      find-Root uf1 b same_a.forest (omega (arith, same_a.sizes)) in
    let same = SameTrees-trans same_a same_b in
    let joins =
      link-Joins ra rb uf2 same.forest (Root-self (same.keeps ta)) (Root-self (same_b.keeps tb)) in
    (
      link ra rb uf2,
      ra,
      rb,
      rw (finds_a, finds_b),
      ta,
      Root-back f same_a tb,
      record {
        sizes = omega (arith, joins.sizes, same.sizes);
        forest = joins.forest;
        merges = λ {y} {s} t. joins.merges (same.keeps t);
      },
    )

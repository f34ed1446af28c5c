-- ===== src/Dedup/UnionFind/Component.antt =====
-- The forest against its specification, the components of the graph of its edges.
use jude.Prelude.{
  ℕ, zero, suc, ◌+◌, ◌≤◌, ◌<◌, ◌≡◌, refl, sym, some, List, [], ◌∷◌, ◌++◌, length, get_elem?, arith,
  subst, ℕ_discrete, Memᴰ, append_assoc, append-nil, inl, inr, ap, Memᴰ-append, Memᴰ-append_right,
  max, subst₂, Memᴰ-single, get_elem?-lt,
}
use jude.Graph.{Edge, Connected, same, edge, flip, join, IsLeast, Connected-append_left}
use jude.Dedup.UnionFind.{UnionFind, range_from, init, union, union_all, find_all, representatives}
use jude.Dedup.UnionFind.Root.{Root, here, step, Root-unique, Root-le, Root-index, IsForest}
use jude.Dedup.UnionFind.Find.{
  merged, Joins, find-Root, union-Root, Root-total, SameTrees, SameTrees-trans, Root-back,
}

-- The forest holds the components of the edges, over the vertices below `n`.
pub record Holds (n : ℕ) (edges : List Edge) (p : List ℕ) : Type 0 where
  pub sizes : length p ≡ n
  pub forest : IsForest p
  pub sound : {x r : ℕ} → Root p x r → Connected edges x r
  pub complete : {x y r : ℕ} → Memᴰ (x, y) edges → Root p x r → Root p y r

abbrev pub InRange : ℕ → List Edge → Type 0
InRange n [] = Unit
InRange n ((a, b) ∷ edges) = (a < n) × (b < n) × InRange n edges

Connected-merged :
    {edges : List Edge} (ra rb s : ℕ) → Connected edges ra rb → Connected edges s (merged ra rb s)
Connected-merged ra rb s c = elim (ℕ_discrete s (max ra rb)) [
  | no ne ↦ same (ground arith)
  | yes e ↦ elim (ℕ_discrete s ra) [
    | yes e' ↦ elim (ℕ_discrete ra rb) [
      | yes e'' ↦ same (ground arith)
      | no ne ↦ join (same e') (join c (same (ground arith)))
    ]
    | no ne ↦ join (same (ground arith)) (join (flip c) (same (ground arith)))
  ]
]

module _ {n : ℕ} {edges : List Edge} {p q : List ℕ} {a b ra rb : ℕ} (h : Holds n edges p)
    (ta : Root p a ra) (tb : Root p b rb) (joins : Joins p ra rb q) where
  -- A tree of `q` comes from a tree of `p`.
  origin : {x r : ℕ} → Root q x r → (s : ℕ) × Root p x s × (r ≡ merged ra rb s)
  origin {x} {r} t =
      let (s, u) = Root-total p x h.forest (omega (arith, Root-index t, joins.sizes)) in
      (s, u, Root-unique t (joins.merges u))

  Joins-sound : {x r : ℕ} → Root q x r → Connected (edges ++ (a, b) ∷ []) x r
  Joins-sound {x} {r} t =
      let (s, u, e) = origin t in
      let old = λ (y z : ℕ) (v : Root p y z). Connected-append_left ((a, b) ∷ []) (h.sound v) in
      let new : Connected (edges ++ (a, b) ∷ []) a b =
        edge (Memᴰ-append_right edges (Memᴰ.head refl)) in
      join (old x s u) (
        join (Connected-merged ra rb s (join (flip (old a ra ta)) (join new (old b rb tb))))
          (same (sym e)))

  Joins-complete : {x y r : ℕ} → Memᴰ (x, y) (edges ++ (a, b) ∷ []) → Root q x r → Root q y r
  Joins-complete {x} {y} {r} m t = elim (Memᴰ-append edges m) [
    | inl old ↦
        let (s, u, e) = origin t in
        subst (λ v. Root q y v) (sym e) (joins.merges (h.complete old u))
    | inr new ↦ joined (Memᴰ-single new)
  ]
    where
      joined : ◌≡◌ {A = Edge} (x, y) (a, b) → Root q y r
      joined e =
          let ex : x ≡ a = ap (λ (v : Edge). v.0) e in
          let ey : y ≡ b = ap (λ (v : Edge). v.1) e in
          let at_min : r ≡ merged ra rb ra =
            Root-unique t (subst (λ v. Root q v (merged ra rb ra)) (sym ex) (joins.merges ta)) in
          subst₂ (λ v w. Root q v w) (sym ey) (ground arith) (joins.merges tb)

  Joins-Holds : Holds n (edges ++ (a, b) ∷ []) q
  Joins-Holds = record {
    sizes = omega (arith, h.sizes, joins.sizes);
    forest = joins.forest;
    sound = λ {x} {r} t. Joins-sound t;
    complete = λ {x} {y} {r} m t. Joins-complete m t;
  }

-- One more edge.
union-Holds :
    (n : ℕ) (edges : List Edge) (uf : UnionFind) (a b : ℕ)
    → Holds n edges uf.parent
    → a < n
    → b < n
    → (after : UnionFind) × (union a b uf ≡ some after)
      × Holds n (edges ++ (a, b) ∷ []) after.parent
union-Holds n edges uf a b h la lb =
    let (after, ra, rb, runs, ta, tb, joins) =
      union-Root uf a b h.forest (omega (arith, h.sizes)) (omega (arith, h.sizes)) in
    (after, runs, Joins-Holds h ta tb joins)

union_all-Holds :
    (n : ℕ) (edges more : List Edge) (uf : UnionFind)
    → Holds n edges uf.parent
    → InRange n more
    → (after : UnionFind) × (union_all more uf ≡ some after) × Holds n (edges ++ more) after.parent
unfolding union_all
union_all-Holds n edges [] uf h l = (uf, refl, rw append-nil h)
union_all-Holds n edges ((a, b) ∷ more) uf h l =
    let (mid, runs, h') = union-Holds n edges uf a b h l.0 l.1 in
    let (after, runs', h'') = union_all-Holds n (edges ++ (a, b) ∷ []) more mid h' l.2 in
    (after, rw runs runs', rw append_assoc at h'')

pub get_elem?-range_from :
    (start n x : ℕ) → x < n → get_elem? (range_from start n) x ≡ some (start + x)
unfolding range_from
get_elem?-range_from start zero x l = absurd (omega arith)
get_elem?-range_from start (suc n) zero l = ground arith
get_elem?-range_from start (suc n) (suc x) l = ground (arith, get_elem?-range_from (suc start) n x)

pub length-range_from : (start n : ℕ) → length (range_from start n) ≡ n
unfolding range_from
length-range_from start zero = refl
length-range_from start (suc n) = ap suc (length-range_from (suc start) n)

-- At the start each vertex is its own root.
init-Holds : (n : ℕ) → Holds n [] (init n).parent
unfolding init
init-Holds n = record {
  sizes = length-range_from 0 n;
  forest = record { down = λ x {y} g. ground (arith, own x g) };
  sound = λ {x} {r} t. alone t;
  complete = λ {x} {y} {r} m t. elim m [ ];
}
  where
    own : (x : ℕ) {y : ℕ} → get_elem? (range_from 0 n) x ≡ some y → y ≡ x
    own x {y} g = ground (
      arith,
      get_elem?-range_from 0 n x,
      get_elem?-lt (range_from 0 n) x g,
      length-range_from 0 n,
    )

    alone : {x r : ℕ} → Root (range_from 0 n) x r → Connected [] x r
    alone (here g e) = same e
    alone {x} (step {y = y} g ne t) = absurd (ne (own x g))

InRange-mem : {n : ℕ} (edges : List Edge) {x y : ℕ} → InRange n edges → Memᴰ (x, y) edges → x < n
InRange-mem [] l m = elim m [ ]
InRange-mem ((a, b) ∷ edges) l (Memᴰ.head e) =
    let q = ap (λ (v : Edge). v.0) e in omega (arith, q, l.0)
InRange-mem ((a, b) ∷ edges) l (Memᴰ.tail m) = InRange-mem edges l.2 m

module _ {n : ℕ} {edges : List Edge} {p : List ℕ} (h : Holds n edges p) (l : InRange n edges) where
  one-Root :
      {x y r : ℕ} → Connected edges x y → (Root p x r → Root p y r) × (Root p y r → Root p x r)
  one-Root {r = r} (same e) =
      (λ t. subst (λ v. Root p v r) e t, λ t. subst (λ v. Root p v r) (sym e) t)
  one-Root {x} {y} {r} (edge m) = (
    h.complete m,
    λ t.
        let (s, u) = Root-total p x h.forest (omega (arith, h.sizes, InRange-mem edges l m)) in
        subst (λ v. Root p x v) (Root-unique (h.complete m u) t) u,
  )
  one-Root (flip c) = let both = one-Root c in (both.1, both.0)
  one-Root (join c d) =
      let both = one-Root c in
      let more = one-Root d in (λ t. more.0 (both.0 t), λ t. both.1 (more.1 t))

  Root-IsLeast : {x r : ℕ} → Root p x r → IsLeast edges x r
  Root-IsLeast t = record { linked = h.sound t; least = λ y c. Root-le h.forest ((one-Root c).0 t) }

-- The list holds the roots of `start`, `start + 1` and so on.
abbrev AreRoots : List ℕ → ℕ → List ℕ → Type 0
AreRoots p start [] = Unit
AreRoots p start (r ∷ reps) = Root p start r × AreRoots p (suc start) reps

find_all-AreRoots :
    (start n : ℕ) (p : List ℕ) (uf : UnionFind)
    → IsForest p
    → SameTrees p uf.parent
    → start + n ≤ length p
    → (after : UnionFind) × (reps : List ℕ) × (find_all start n uf ≡ some (after, reps))
      × (length reps ≡ n)
      × AreRoots p start reps
unfolding find_all
find_all-AreRoots start zero p uf f keep l = (uf, [], refl, refl, tt)
find_all-AreRoots start (suc n) p uf f keep l =
    let (mid, r, runs, t, keep') = find-Root uf start keep.forest (omega (arith, keep.sizes)) in
    let (after, reps, runs', size, roots) =
      find_all-AreRoots (suc start) n p mid f (SameTrees-trans keep keep') (omega arith) in
    (after, r ∷ reps, rw (runs, runs'), ap suc size, (Root-back f keep t, roots))

AreRoots-get :
    {p : List ℕ} (start : ℕ) (reps : List ℕ) (i : ℕ) {r : ℕ}
    → AreRoots p start reps
    → get_elem? reps i ≡ some r
    → Root p (start + i) r
AreRoots-get start [] i roots g = cc
AreRoots-get {p} start (r' ∷ reps) zero {r} roots g =
    subst₂ (λ v w. Root p v w) (omega arith) (ground arith) roots.0
AreRoots-get {p} start (r' ∷ reps) (suc i) {r} roots g =
    subst (λ v. Root p v r) (omega arith) (AreRoots-get (suc start) reps i roots.1 g)

pub representatives_runs :
    (n : ℕ) (edges : List Edge)
    → InRange n edges
    → (reps : List ℕ) × (representatives n edges ≡ some reps)
      × (length reps ≡ n)
      × ((i r : ℕ) → get_elem? reps i ≡ some r → IsLeast edges i r)
unfolding representatives
representatives_runs n edges l =
    let (uf, runs, h) = union_all-Holds n [] edges (init n) (init-Holds n) l in
    let self : SameTrees uf.parent uf.parent = record {
      sizes = refl;
      forest = h.forest;
      keeps = λ {y} {s} t. t;
    } in
    let (after, reps, runs', size, roots) =
      find_all-AreRoots 0 n uf.parent uf h.forest self (omega (arith, h.sizes)) in
    (
      reps,
      rw (runs, runs'),
      size,
      λ i r g.
          Root-IsLeast h l
            (subst (λ v. Root uf.parent v r) (omega arith) (AreRoots-get 0 reps i roots g)),
    )

-- Edges between indices below `n` are clustered: the loops end, with a label for each index.
pub representatives_total :
    (n : ℕ) (edges : List Edge)
    → InRange n edges
    → (reps : List ℕ) × (representatives n edges ≡ some reps) × (length reps ≡ n)
representatives_total n edges l =
    let (reps, runs, size, least) = representatives_runs n edges l in (reps, runs, size)

-- When the edges are between indices below `n`, the label of an index is the smallest index of its
-- connected component.
pub representatives-IsLeast :
    (n : ℕ) (edges : List Edge)
    → InRange n edges
    → (reps : List ℕ) → representatives n edges ≡ some reps
    → (i r : ℕ) → get_elem? reps i ≡ some r
    → IsLeast edges i r
representatives-IsLeast n edges l reps ran i r g =
    let (reps', runs, size, least) = representatives_runs n edges l in
    let q : reps ≡ reps' = cc in least i r (subst (λ v. get_elem? v i ≡ some r) q g)

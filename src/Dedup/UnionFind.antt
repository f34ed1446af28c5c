-- ===== src/Dedup/UnionFind.antt =====
-- `_UnionFind` of python/jude/curate_dist.py: a disjoint-set forest in an array, with path
-- compression and union by the smaller index. `none` stands for an exception (an index outside
-- the array) and for a loop that runs out of fuel; the fuel is the size of the array.
mod Root
mod Find
pub mod Component
use jude.Prelude.{
  ℕ, zero, suc, ◌+◌, Option, none, some, List, [], ◌∷◌, length, get_elem?, set, ltb, ◌==◌,
  if◌then◌else◌, ◌>>=◌, true, false,
}
use jude.Graph.{Edge}

pub record UnionFind : Type 0 where
  pub parent : List ℕ

-- list(range(start, start + n))
unfoldable pub range_from : ℕ → ℕ → List ℕ
range_from start zero = []
range_from start (suc n) = start ∷ range_from (suc start) n

unfoldable pub init : ℕ → UnionFind
unfolding range_from
init n = record { parent = range_from 0 n }

-- `while self.parent[root] != root: root = self.parent[root]`
unfoldable pub find_root : ℕ → List ℕ → ℕ → Option ℕ
find_root zero parent root = none
find_root (suc fuel) parent root = elim (get_elem? parent root) [
  | none ↦ none
  | some up ↦ elim (up == root) [ true ↦ some root | false ↦ find_root fuel parent up ]
]

-- `while self.parent[x] != root: self.parent[x], x = root, self.parent[x]`
unfoldable pub compress : ℕ → ℕ → List ℕ → ℕ → Option (List ℕ)
compress zero root parent x = none
compress (suc fuel) root parent x = elim (get_elem? parent x) [
  | none ↦ none
  | some up ↦ elim (up == root) [
    | true ↦ some parent
    | false ↦ compress fuel root (set parent x root) up
  ]
]

unfoldable pub find : UnionFind → ℕ → Option (UnionFind × ℕ)
unfolding find_root compress
find uf x = do
  root ← find_root (length uf.parent) uf.parent x
  parent ← compress (length uf.parent) root uf.parent x
  some (record { parent = parent }, root)

-- The branch of `union` after its two calls of `find`.
unfoldable pub link : ℕ → ℕ → UnionFind → UnionFind
link ra rb uf =
    if ra == rb
    then uf
    else if ltb ra rb
    then record { parent = set uf.parent rb ra }
    else record { parent = set uf.parent ra rb }

unfoldable pub union : ℕ → ℕ → UnionFind → Option UnionFind
unfolding find link
union a b uf = do (uf', ra) ← find uf a; (uf'', rb) ← find uf' b; some (link ra rb uf'')

-- `for a, b in zip(aa, bb): uf.union(a, b)`
unfoldable pub union_all : List Edge → UnionFind → Option UnionFind
unfolding union
union_all [] uf = some uf
union_all ((a, b) ∷ edges) uf = do uf' ← union a b uf; union_all edges uf'

-- `[uf.find(i) for i in range(start, start + n)]`
unfoldable pub find_all : ℕ → ℕ → UnionFind → Option (UnionFind × List ℕ)
unfolding find
find_all start zero uf = some (uf, [])
find_all start (suc n) uf = do
  (uf', rep) ← find uf start
  (uf'', reps) ← find_all (suc start) n uf'
  some (uf'', rep ∷ reps)

-- The driver's part of `dist_fuzzy_dedup` and `dist_image_dedup`: the edges of one bucket after
-- another, and then `reps = [uf.find(i) for i in range(n)]`.
unfoldable pub representatives : ℕ → List Edge → Option (List ℕ)
unfolding union_all find_all init
representatives n edges = do uf ← union_all edges (init n); (_, reps) ← find_all 0 n uf; some reps

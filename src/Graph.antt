-- ===== src/Graph.antt =====
-- Undirected graphs as lists of edges: the specification that the clusterings of near-duplicate
-- rows are held to.
use jude.Prelude.{arith, min, max, dec_le, ℕ, ◌≤◌, ◌≡◌, List, ◌++◌, Memᴰ, Memᴰ-append_left}

abbrev pub Edge : Type 0
Edge = ℕ × ℕ

-- Two vertices are connected by the edges.
pub data Connected (edges : List Edge) : ℕ → ℕ → Type 0 where
  same : {x y : ℕ} → x ≡ y → Connected edges x y
  edge : {x y : ℕ} → Memᴰ (x, y) edges → Connected edges x y
  flip : {x y : ℕ} → Connected edges x y → Connected edges y x
  join : {x y z : ℕ} → Connected edges x y → Connected edges y z → Connected edges x z

-- `r` is the smallest vertex that is connected to `x`.
pub record IsLeast (edges : List Edge) (x r : ℕ) : Type 0 where
  pub linked : Connected edges x r
  pub least : (y : ℕ) → Connected edges x y → r ≤ y

-- More edges connect no less.
pub Connected-mono :
    {xs ys : List Edge} {x y : ℕ}
    → ((e : Edge) → Memᴰ e xs → Memᴰ e ys)
    → Connected xs x y
    → Connected ys x y
Connected-mono sub (same e) = same e
Connected-mono sub (edge m) = edge (sub _ m)
Connected-mono sub (flip c) = flip (Connected-mono sub c)
Connected-mono sub (join c d) = join (Connected-mono sub c) (Connected-mono sub d)

pub Connected-append_left :
    {xs : List Edge} (ys : List Edge) {x y : ℕ} → Connected xs x y → Connected (xs ++ ys) x y
Connected-append_left ys = Connected-mono (λ e m. Memᴰ-append_left ys m)

-- What respects every edge respects connection.
pub Connected-ind {ℓ} :
    {A : Type ℓ} {edges : List Edge} {x y : ℕ} (f : ℕ → A)
    → ((a b : ℕ) → Memᴰ (a, b) edges → f a ≡ f b)
    → Connected edges x y
    → f x ≡ f y
Connected-ind f h (same e) = cc
Connected-ind f h (edge m) = h _ _ m
Connected-ind f h (flip c) = cc (Connected-ind f h c)
Connected-ind f h (join c d) = cc (Connected-ind f h c, Connected-ind f h d)

pub Connected-min-max :
    {edges : List Edge} (a b : ℕ) → Memᴰ (min a b, max a b) edges → Connected edges a b
Connected-min-max a b m = elim (dec_le a b) [
  | yes h ↦ join (same (omega arith)) (join (edge m) (same (omega arith)))
  | no n ↦ join (same (omega arith)) (join (flip (edge m)) (same (omega arith)))
]

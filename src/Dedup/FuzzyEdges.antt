-- ===== src/Dedup/FuzzyEdges.antt =====
-- `curate_fuzzy_edges_bucket` of python/jude/runners/_ray_shim.py: the reducer of the distributed
-- fuzzy dedup. It groups the rows of a bucket by band key, collapses equal signatures, verifies the
-- candidate pairs, and emits the edges between near-duplicates. Signatures and band keys are
-- arguments, and so is `similar`, the test `signature_similarity(s, t) >= threshold`, whose two
-- sides come from the Rust core.
pub mod Sound
pub mod Complete
pub mod Distinct
pub mod Recall
use jude.Prelude.{
  ℕ, zero, suc, ◌≡◌, ◌↔◌, ◌++◌, arith, Bool, true, false, Option, none, some, List, [], ◌∷◌, length,
  take, ltb, leb, min, max, ◌==◌, if◌then◌else◌, Eq, ◌=?◌, Dict, lookup, insert, append_to, add,
}
use jude.Graph.{Edge}

-- A row of the shuffle: (_rid, _bandkey, _sig).
pub record Row (Key Sig : Type 0) : Type 0 where
  pub rid : ℕ
  pub key : Key
  pub sig : Sig

-- A row with its index in the bucket, as `enumerate` gives it.
abbrev pub Member : Type 0 → Type 0 → Type 0
Member Key Sig = ℕ × Row Key Sig

unfoldable pub edge_eq : Edge → Edge → Bool
edge_eq (a, b) (c, d) = if a == c then b == d else false

pub edge_eq_iff : (e f : Edge) → (edge_eq e f ≡ true) ↔ (e ≡ f)
unfolding edge_eq
edge_eq_iff (a, b) (c, d) = ground arith

instance abbrev pub edge_Eq : Eq Edge
edge_Eq = record { beq = edge_eq; beq_iff = edge_eq_iff }

-- `edges.add((min(a, b), max(a, b)))`
abbrev pub add_edge : ℕ → ℕ → List Edge → List Edge
add_edge a b edges = add (min a b, max a b) edges

abbrev pub hot_cap : ℕ
hot_cap = 2000

abbrev pub rep_count : ℕ
rep_count = 64

-- The variables of the loop that collapses equal signatures.
pub record Collapse (Key Sig : Type 0) : Type 0 where
  pub leaders : Dict Sig (Member Key Sig)
  pub uniq : List (Member Key Sig)
  pub edges : List Edge

module _ {Key Sig : Type 0} ⦃key_eq : Eq Key⦄ ⦃sig_eq : Eq Sig⦄ where
  -- `for i, key in enumerate(keys): by_key.setdefault(key, []).append(i)`
  unfoldable pub group_rows :
      ℕ → List (Row Key Sig) → Dict Key (List (Member Key Sig)) → Dict Key (List (Member Key Sig))
  group_rows i [] by_key = by_key
  group_rows i (row ∷ rows) by_key = group_rows (suc i) rows (append_to row.key (i, row) by_key)

  abbrev pub fresh : List Edge → Collapse Key Sig
  fresh edges = record { leaders = []; uniq = []; edges = edges }

  -- The body of `for idx in members`, after `sk in leaders` has been looked up.
  unfoldable pub collapse_one :
      Member Key Sig → Option (Member Key Sig) → Collapse Key Sig → Collapse Key Sig
  collapse_one (i, row) none s = record s {
    leaders = insert row.sig (i, row) s.leaders;
    uniq = s.uniq ++ (i, row) ∷ [];
  }
  collapse_one (i, row) (some (j, leader)) s =
      if leader.rid == row.rid then s else record s { edges = add_edge leader.rid row.rid s.edges }

  unfoldable pub collapse : List (Member Key Sig) → Collapse Key Sig → Collapse Key Sig
  unfolding collapse_one
  collapse [] s = s
  collapse (m ∷ members) s = collapse members (collapse_one m (lookup m.1.sig s.leaders) s)

module _ {Key Sig : Type 0} ⦃key_eq : Eq Key⦄ ⦃sig_eq : Eq Sig⦄ (similar : Sig → Sig → Bool) where
  -- `for r in reps`: the first similar representative ends the loop.
  unfoldable pub link_to_rep : Member Key Sig → List (Member Key Sig) → List Edge → List Edge
  link_to_rep (i, row) [] edges = edges
  link_to_rep (i, row) ((j, rep) ∷ reps) edges =
      let rest = link_to_rep (i, row) reps edges in
      if i == j
      then rest
      else if similar row.sig rep.sig
      then add_edge row.rid rep.rid edges
      else rest

  unfoldable pub link_to_reps :
      List (Member Key Sig) → List (Member Key Sig) → List Edge → List Edge
  unfolding link_to_rep
  link_to_reps reps [] edges = edges
  link_to_reps reps (m ∷ members) edges = link_to_reps reps members (link_to_rep m reps edges)

  -- `for y in range(x + 1, m)`
  unfoldable pub link_pairs_of : Member Key Sig → List (Member Key Sig) → List Edge → List Edge
  link_pairs_of (i, row) [] edges = edges
  link_pairs_of (i, row) ((j, other) ∷ rest) edges =
      link_pairs_of (i, row) rest
        (if similar row.sig other.sig then add_edge row.rid other.rid edges else edges)

  -- `for x in range(m)`
  unfoldable pub link_pairs : List (Member Key Sig) → List Edge → List Edge
  unfolding link_pairs_of
  link_pairs [] edges = edges
  link_pairs (m ∷ members) edges = link_pairs members (link_pairs_of m members edges)

  unfoldable pub verify : List (Member Key Sig) → List Edge → List Edge
  unfolding link_to_reps link_pairs
  verify uniq edges =
      if ltb hot_cap (length uniq)
      then link_to_reps (take rep_count uniq) uniq edges
      else link_pairs uniq edges

  -- The body of `for members in by_key.values()`.
  unfoldable pub link_group : List (Member Key Sig) → List Edge → List Edge
  unfolding collapse verify
  link_group members edges =
      if ltb (length members) 2
      then edges
      else let s = collapse members (fresh edges) in verify s.uniq s.edges

  unfoldable pub link_groups : Dict Key (List (Member Key Sig)) → List Edge → List Edge
  unfolding link_group
  link_groups [] edges = edges
  link_groups ((key, members) ∷ groups) edges = link_groups groups (link_group members edges)

  unfoldable pub curate_fuzzy_edges_bucket : List (Row Key Sig) → List Edge
  unfolding group_rows link_groups
  curate_fuzzy_edges_bucket rows = link_groups (group_rows 0 rows []) []

-- ===== src/Tests/Components.antt =====
-- Label propagation on a star of three rows, dealt to two workers, and on a path that is cut off.
use jude.Prelude.{
  ℕ, ◌≡◌, refl, sym, ◌∙◌, ◌⊎◌, inl, inr, Option, some, none, List, [], ◌∷◌, arith, Memᴰ,
  Memᴰ-single, ap₂, suc, subst, Dict, lookup, insert, append_to, nat_eq, get_default, ap,
}
use jude.Graph.{Edge, Connected, same, edge, flip, join, IsLeast}
use jude.Dedup.Shuffle.{push, det_hash}
use jude.Dedup.Propagation.{CcShard, shards_of, with_refd, propagate, connected_components}
use jude.Dedup.Propagation.Snapshot.{label_at}
use jude.Dedup.Propagation.Synchronous.{Round, Ready, edges_of}
use jude.Dedup.Propagation.Rounds.{propagate-Round}
use jude.Dedup.Propagation.Converged.{Within, stop, ahead, back}
use jude.Dedup.Propagation.Asked.{dealt, dealt-is, with_refd-Ready}
use jude.Dedup.Propagation.Components.{
  IsNearest, connected_components-IsNearest, connected_components-IsLeast,
}
use jude.Dedup.Fuzzy.{dist_fuzzy_reps, dist_fuzzy_cc_reps, keys_or_own}
use jude.Dedup.Fuzzy.Workers.{the_edges, dist_fuzzy_cc_reps-dist_fuzzy_reps}
use jude.Tests.Dedup.{own, last_digit, equal, parts}

abbrev star : List (Option (List Edge))
star = some ((4, 5) ∷ []) ∷ none ∷ some ((2, 4) ∷ []) ∷ []

abbrev star_edges : List Edge
star_edges = (4, 5) ∷ (2, 4) ∷ []

star_labels : connected_components 2 100 star ≡ some ((4, 2) ∷ (5, 2) ∷ [])
unfolding connected_components lookup insert append_to
star_labels = refl

-- One round is not enough for a path of three edges.
path_cut_off :
    connected_components 2 1 (some ((0, 1) ∷ (1, 2) ∷ (2, 3) ∷ []) ∷ [])
    ≡ some ((2, 1) ∷ (1, 0) ∷ (3, 2) ∷ [])
unfolding connected_components lookup insert append_to
path_cut_off = refl

-- The graph of one edge.
module _ (a b : ℕ) where
  abbrev one_edge : List Edge
  one_edge = (a, b) ∷ []

  abbrev IsEnd : ℕ → Type 0
  IsEnd x = (x ≡ a) ⊎ (x ≡ b)

  ends : {x y : ℕ} → Connected one_edge x y → (x ≡ y) ⊎ (IsEnd x × IsEnd y)
  ends (same e) = inl e
  ends (edge m) =
      let e = Memᴰ-single m in inr (inl (ap (λ (v : Edge). v.0) e), inr (ap (λ (v : Edge). v.1) e))
  ends (flip c) = elim (ends c) [ inl e ↦ inl (sym e) | inr p ↦ inr (p.1, p.0) ]
  ends {x} {y} (join c d) = elim (ends c) [
    | inl e ↦ subst (λ v. (v ≡ y) ⊎ (IsEnd v × IsEnd y)) (sym e) (ends d)
    | inr p ↦ elim (ends d) [
      | inl e ↦ subst (λ v. (x ≡ v) ⊎ (IsEnd x × IsEnd v)) e (inr p)
      | inr q ↦ inr (p.0, q.1)
    ]
  ]

  one_edge-Within : (t x y : ℕ) → Connected one_edge x y → Within one_edge (suc t) x y
  one_edge-Within t x y c = elim (ends c) [
    | inl e ↦ stop e
    | inr (p, q) ↦ elim p [
      | inl u ↦ elim q [
        | inl v ↦ stop (u ∙ sym v)
        | inr v ↦ ahead (Memᴰ.head (ap₂ (λ i j. (i, j)) u v)) (stop refl)
      ]
      | inr u ↦ elim q [
        | inl v ↦ back (Memᴰ.head (ap₂ (λ i j. (i, j)) v u)) (stop refl)
        | inr v ↦ stop (u ∙ sym v)
      ]
    ]
  ]

connected_components-IsNearest_example :
    (label : Dict ℕ ℕ) × (connected_components 2 1 star ≡ some label)
    × ((r : ℕ) → IsNearest star_edges 1 r (get_default (lookup r label) r))
connected_components-IsNearest_example = connected_components-IsNearest 2 1 star

abbrev pair : List (Option (List Edge))
pair = none ∷ some ((4, 2) ∷ []) ∷ []

pair_labels : connected_components 3 1 pair ≡ some ((4, 2) ∷ [])
unfolding connected_components lookup insert append_to
pair_labels = refl

connected_components-IsLeast_example : IsLeast ((4, 2) ∷ []) 4 2
unfolding lookup
connected_components-IsLeast_example =
    connected_components-IsLeast 3 1 pair (one_edge-Within 4 2 0) ((4, 2) ∷ []) pair_labels 4

propagate-Round_example :
    (out : List (CcShard × List ℕ) × ℕ) × (propagate 2 (with_refd (dealt 2 star)) ≡ some out)
    × Ready 2 out.0
    × (edges_of out.0 ≡ edges_of (with_refd (dealt 2 star)))
    × Round
        (edges_of (with_refd (dealt 2 star)))
        (label_at 2 (shards_of (with_refd (dealt 2 star))))
        (label_at 2 (shards_of out.0))
        out.1
propagate-Round_example =
    propagate-Round 2 (omega arith) (with_refd (dealt 2 star))
      (with_refd-Ready 2 (dealt 2 star) (dealt-is 2 (omega arith) star))

-- Rows 0 and 2 have the same text.
the_edge : the_edges own last_digit equal 2 (omega arith) parts ≡ (0, 2) ∷ []
unfolding dist_fuzzy_reps keys_or_own push det_hash append_to lookup insert
the_edge = refl

dist_fuzzy_cc_reps-dist_fuzzy_reps_example :
    dist_fuzzy_cc_reps own last_digit equal 3 2 parts ≡ dist_fuzzy_reps own last_digit equal 2 parts
dist_fuzzy_cc_reps-dist_fuzzy_reps_example =
    dist_fuzzy_cc_reps-dist_fuzzy_reps own last_digit equal 2 (omega arith) parts
      (subst (λ es. (x y : ℕ) → Connected es x y → Within es 100 x y) (sym the_edge)
        (one_edge-Within 0 2 99))
      3

-- ===== src/Tests/Dedup.antt =====
-- Four rows in two partitions: texts are their own signatures, a text's band is its last digit,
-- and two signatures are similar when they are the same.
use jude.Prelude.{
  ℕ, zero, suc, ◌%◌, ◌≡◌, ◌≤◌, refl, sym, ◌∙◌, ap, inl, inr, Bool, true, false, some, List, [], ◌∷◌,
  length, concat, arith, ◌==◌, ==_iff, Memᴰ, nat_eq, list_eq, get_elem?, append_to, lookup, insert,
}
use jude.Graph.{Edge, Connected, IsLeast}
use jude.Dedup.UnionFind.{representatives}
use jude.Dedup.UnionFind.Component.{InRange, representatives_total, representatives-IsLeast}
use jude.Dedup.Shuffle.{gather, push, det_hash}
use jude.Dedup.FuzzyEdges.{Row, group_rows, curate_fuzzy_edges_bucket}
use jude.Dedup.FuzzyEdges.Sound.{Near, Justified, curate_fuzzy_edges_bucket-Justified}
use jude.Dedup.FuzzyEdges.Recall.{AllCold, curate_fuzzy_edges_bucket-links}
use jude.Dedup.Fuzzy.{Key, keys_or_own, produce, dist_fuzzy_reps, dist_fuzzy_dedup, kept}
use jude.Dedup.Fuzzy.Edges.{Share}
use jude.Dedup.Fuzzy.Clusters.{
  dist_fuzzy_reps_total, dist_fuzzy_reps_lowest, dist_fuzzy_reps_finest, dist_fuzzy_reps_recall,
}

abbrev five_edges : List Edge
five_edges = (1, 3) ∷ (0, 4) ∷ (3, 4) ∷ []

five_edges-InRange : InRange 5 five_edges
five_edges-InRange =
    (omega arith, omega arith, (omega arith, omega arith, (omega arith, omega arith, tt)))

five_labels : representatives 5 five_edges ≡ some (0 ∷ 0 ∷ 2 ∷ 0 ∷ 0 ∷ [])
unfolding representatives
five_labels = refl

representatives_total_example :
    (reps : List ℕ) × (representatives 5 five_edges ≡ some reps) × (length reps ≡ 5)
representatives_total_example = representatives_total 5 five_edges five_edges-InRange

representatives-IsLeast_example : IsLeast five_edges 3 0
representatives-IsLeast_example =
    representatives-IsLeast 5 five_edges five_edges-InRange (0 ∷ 0 ∷ 2 ∷ 0 ∷ 0 ∷ []) five_labels 3 0
      refl

abbrev pub own : ℕ → ℕ
own t = t

abbrev pub last_digit : ℕ → List Key
last_digit t = (t % 10 ∷ []) ∷ []

abbrev pub equal : ℕ → ℕ → Bool
equal s t = s == t

abbrev pub parts : List (List ℕ)
parts = (13 ∷ 23 ∷ []) ∷ (13 ∷ 7 ∷ []) ∷ []

abbrev labels : List ℕ
labels = 0 ∷ 1 ∷ 0 ∷ 3 ∷ []

ran : dist_fuzzy_reps own last_digit equal 2 parts ≡ some labels
unfolding dist_fuzzy_reps keys_or_own push det_hash append_to lookup insert
ran = refl

dist_fuzzy_dedup_kept :
    dist_fuzzy_dedup own last_digit equal 2 0 false parts ≡ some (kept (13 ∷ 23 ∷ 7 ∷ []))
unfolding dist_fuzzy_dedup keys_or_own push det_hash append_to lookup insert
dist_fuzzy_dedup_kept = refl

dist_fuzzy_reps_total_example :
    (reps : List ℕ) × (dist_fuzzy_reps own last_digit equal 2 parts ≡ some reps)
    × (length reps ≡ length (concat parts))
dist_fuzzy_reps_total_example = dist_fuzzy_reps_total own last_digit equal 2 (omega arith) parts

dist_fuzzy_reps_lowest_example : (0 ≤ 2) × (get_elem? labels 0 ≡ some 0)
dist_fuzzy_reps_lowest_example =
    dist_fuzzy_reps_lowest own last_digit equal 2 (omega arith) parts {reps = labels} ran 2 0 refl

-- Rows that share a band and are near have the same text.
Near-text :
    (i j : ℕ)
    → Share own last_digit equal 2 (omega arith) parts (Near equal) i j
    → get_elem? (concat parts) i ≡ get_elem? (concat parts) j
Near-text i j s =
    let texts : s.left ≡ s.right = elim s.related [
      | inl e ↦ e
      | inr e ↦ (==_iff s.left s.right).0 e
    ] in
    s.left_at ∙ ap some texts ∙ sym s.right_at

dist_fuzzy_reps_finest_example : get_elem? (concat parts) 0 ≡ get_elem? (concat parts) 2
dist_fuzzy_reps_finest_example =
    dist_fuzzy_reps_finest own last_digit equal 2 (omega arith) parts {reps = labels} ran
      (get_elem? (concat parts)) Near-text 0 2 0 refl refl

equal_sym : (s t : ℕ) → equal s t ≡ equal t s
equal_sym s t = ground arith

-- With one bucket, every other bucket is empty.
ran_one : dist_fuzzy_reps own last_digit equal 1 parts ≡ some labels
unfolding dist_fuzzy_reps keys_or_own push det_hash append_to lookup insert
ran_one = refl

cold : (bkt : ℕ) → AllCold (group_rows 0 (gather bkt (produce own last_digit 1 0 parts)) [])
unfolding group_rows gather produce keys_or_own push det_hash append_to
cold zero = (omega arith, (omega arith, tt))
cold (suc bkt) = tt

first_and_third : Share own last_digit equal 1 (omega arith) parts (λ s t. equal s t ≡ true) 0 2
unfolding keys_or_own
first_and_third = record {
  left = 13;
  right = 13;
  left_at = refl;
  right_at = refl;
  band = 3 ∷ [];
  left_keyed = Memᴰ.head refl;
  right_keyed = Memᴰ.head refl;
  related = refl;
}

dist_fuzzy_reps_recall_example : get_elem? labels 0 ≡ get_elem? labels 2
dist_fuzzy_reps_recall_example =
    dist_fuzzy_reps_recall own last_digit equal 1 (omega arith) parts {reps = labels} ran_one
      equal_sym cold 0 2 first_and_third

abbrev bucket : List (Row ℕ ℕ)
bucket =
    record { rid = 5; key = 3; sig = 8 }
    ∷ record { rid = 2; key = 3; sig = 8 }
    ∷ record { rid = 4; key = 1; sig = 8 }
    ∷ []

bucket_edge : Memᴰ (2, 5) (curate_fuzzy_edges_bucket equal bucket)
unfolding curate_fuzzy_edges_bucket append_to lookup insert
bucket_edge = Memᴰ.head refl

curate_fuzzy_edges_bucket-Justified_example : Justified equal bucket (2, 5)
curate_fuzzy_edges_bucket-Justified_example =
    curate_fuzzy_edges_bucket-Justified equal bucket (2, 5) bucket_edge

bucket-AllCold : AllCold (group_rows 0 bucket [])
unfolding group_rows append_to
bucket-AllCold = (omega arith, (omega arith, tt))

curate_fuzzy_edges_bucket-links_example : Connected (curate_fuzzy_edges_bucket equal bucket) 5 2
curate_fuzzy_edges_bucket-links_example =
    curate_fuzzy_edges_bucket-links equal equal_sym bucket (record { rid = 5; key = 3; sig = 8 })
      (record { rid = 2; key = 3; sig = 8 }) bucket-AllCold (Memᴰ.head refl)
      (Memᴰ.tail (Memᴰ.head refl)) refl refl

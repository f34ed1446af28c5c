-- ===== src/Dedup/Fuzzy/Clusters.antt =====
-- The clustering that `dist_fuzzy_dedup` computes, against its specification: the finest one that
-- joins the near-duplicates which share a band, each cluster named by its lowest row.
use jude.Prelude.{
  ℕ, ◌+◌, ◌%◌, ◌≤◌, ◌<◌, ◌≡◌, refl, sym, ap, ◌∙◌, Bool, true, some, List, [], length, concat,
  get_elem?, min, max, arith, Eq, list_eq, nat_eq, Memᴰ, subst, mod-lt, get_elem?-lt,
  get_elem?_of_lt, dec_le,
}
use jude.Graph.{Edge, Connected, same, flip, join, IsLeast, Connected-mono, Connected-ind}
use jude.Dedup.UnionFind.Component.{representatives_runs}
use jude.Dedup.Shuffle.{det_hash, gather, Memᴰ_of_gather}
use jude.Dedup.FuzzyEdges.{Row, group_rows, curate_fuzzy_edges_bucket}
use jude.Dedup.FuzzyEdges.Sound.{Near}
use jude.Dedup.FuzzyEdges.Recall.{AllCold, curate_fuzzy_edges_bucket-links}
use jude.Dedup.Fuzzy.{Key, produce, dist_fuzzy_reps}
use jude.Dedup.Fuzzy.Producer.{keys_of}
use jude.Dedup.Fuzzy.Shuffled.{produce-Routed}
use jude.Dedup.Fuzzy.Edges.{Share, refs, edges, edge-Share, edges-InRange, bucket_edges-holds}

module _ {Text Sig : Type 0} ⦃sig_eq : Eq Sig⦄ (signature : Text → Sig) (band_keys : Sig → List Key)
    (similar : Sig → Sig → Bool) (b : ℕ) (pos : 0 < b) (parts : List (List Text)) where
  abbrev the_refs : List (List (List (Row Key Sig)))
  the_refs = refs signature band_keys similar b pos parts

  abbrev the_edges : List Edge
  the_edges = edges signature band_keys similar b pos parts

  -- The reducer of its band key's bucket has the row of a table row.
  gathered :
      (i : ℕ) {t : Text} {k : Key}
      → get_elem? (concat parts) i ≡ some t
      → Memᴰ k (keys_of signature band_keys i t)
      → Memᴰ (record { rid = i; key = k; sig = signature t }) (gather (det_hash k % b) the_refs)
  gathered i {t} {k} g m =
      let z : i ≡ 0 + i = omega arith in
      let (out, l, at) =
        produce-Routed signature band_keys b pos 0 parts i g
          (subst (λ v. Memᴰ k (keys_of signature band_keys v t)) z m) in
      subst
        (λ v.
          Memᴰ (record { rid = v; key = k; sig = signature t }) (gather (det_hash k % b) the_refs))
        (sym z) (Memᴰ_of_gather (det_hash k % b) the_refs l at)

  -- The driver ends, and its labels are the least rows of the components.
  pub runs :
      (reps : List ℕ) × (dist_fuzzy_reps signature band_keys similar b parts ≡ some reps)
      × (length reps ≡ length (concat parts))
      × ((i r : ℕ) → get_elem? reps i ≡ some r → IsLeast the_edges i r)
  unfolding dist_fuzzy_reps
  runs =
      representatives_runs (length (concat parts)) the_edges
        (edges-InRange signature band_keys similar b pos parts)

  dist_fuzzy_reps-IsLeast :
      {reps : List ℕ}
      → dist_fuzzy_reps signature band_keys similar b parts ≡ some reps
      → (i : ℕ) {r : ℕ} → get_elem? reps i ≡ some r
      → IsLeast the_edges i r
  dist_fuzzy_reps-IsLeast {reps} e i {r} g =
      let (reps', e', size, least) = runs in
      let q : reps ≡ reps' = cc in least i r (subst (λ v. get_elem? v i ≡ some r) q g)

  -- With a positive number of buckets the driver ends, with one label for every row.
  pub dist_fuzzy_reps_total :
      (reps : List ℕ) × (dist_fuzzy_reps signature band_keys similar b parts ≡ some reps)
      × (length reps ≡ length (concat parts))
  dist_fuzzy_reps_total = let (reps, e, size, least) = runs in (reps, e, size)

  module _ {reps : List ℕ}
      (ran : dist_fuzzy_reps signature band_keys similar b parts ≡ some reps) where
    -- The label of a row is a row that is not above it and that has itself as its label.
    pub dist_fuzzy_reps_lowest :
        (i r : ℕ) → get_elem? reps i ≡ some r → (r ≤ i) × (get_elem? reps r ≡ some r)
    dist_fuzzy_reps_lowest i r g =
        let low = dist_fuzzy_reps-IsLeast ran i g in
        let r-le : r ≤ i = low.least i (same refl) in
        let (r', g') = get_elem?_of_lt reps r (omega (arith, get_elem?-lt reps i g)) in
        let low' = dist_fuzzy_reps-IsLeast ran r g' in
        let above : r ≤ r' = low.least r' (join low.linked low'.linked) in
        let below : r' ≤ r = low'.least r (same refl) in (r-le, ground arith)

    -- Two rows with the same label agree under every `f` that agrees on any two rows which share a
    -- band key and have equal or similar signatures: the clusters join nothing else.
    pub dist_fuzzy_reps_finest :
        {A : Type 0} (f : ℕ → A)
        → ((i j : ℕ) → Share signature band_keys similar b pos parts (Near similar) i j → f i ≡ f j)
        → (i j r : ℕ) → get_elem? reps i ≡ some r
        → get_elem? reps j ≡ some r
        → f i ≡ f j
    dist_fuzzy_reps_finest f h i j r gi gj = Connected-ind f respects (
        join (dist_fuzzy_reps-IsLeast ran i gi).linked
          (flip (dist_fuzzy_reps-IsLeast ran j gj).linked))
      where
        respects : (x y : ℕ) → Memᴰ (x, y) the_edges → f x ≡ f y
        respects x y m =
            let (k, l, s, e) = edge-Share signature band_keys similar b pos parts (x, y) m in
            let fe = h k l s in
            let p : x ≡ min k l = ap (λ (v : Edge). v.0) e in
            let q : y ≡ max k l = ap (λ (v : Edge). v.1) e in
            elim (dec_le k l) [
              | yes u ↦ ap f (p ∙ omega arith) ∙ fe ∙ ap f (omega (arith, q))
              | no u ↦ ap f (p ∙ omega arith) ∙ sym fe ∙ ap f (omega (arith, q))
            ]

    -- With a symmetric `similar` and no hot band in any bucket, that is none with more than 2000
    -- distinct signatures, two rows that share a band key and have similar signatures have the same
    -- label.
    pub dist_fuzzy_reps_recall :
        ((s t : Sig) → similar s t ≡ similar t s)
        → ((bkt : ℕ)
            → AllCold (group_rows 0 (gather bkt (produce signature band_keys b 0 parts)) []))
        → (i j : ℕ) → Share signature band_keys similar b pos parts (λ s t. similar s t ≡ true) i j
        → get_elem? reps i ≡ get_elem? reps j
    dist_fuzzy_reps_recall sym_similar cold i j s =
        let bkt = det_hash s.band % b in
        let linked : Connected (curate_fuzzy_edges_bucket similar (gather bkt the_refs)) i j =
          curate_fuzzy_edges_bucket-links similar sym_similar (gather bkt the_refs) _ _ (cold bkt)
            (gathered i s.left_at s.left_keyed) (gathered j s.right_at s.right_keyed) refl
            s.related in
        let all : Connected the_edges i j =
          Connected-mono
            (λ e m.
              bucket_edges-holds similar the_refs 0 b bkt (omega arith)
                (omega (arith, mod-lt (det_hash s.band) pos)) m)
            linked in
        let (reps', e', size, least) = runs in
        let q : reps ≡ reps' = cc in
        let (r, g) =
          get_elem?_of_lt reps' i (omega (arith, size, get_elem?-lt (concat parts) i s.left_at)) in
        let (r', g') =
          get_elem?_of_lt reps' j (omega (arith, size, get_elem?-lt (concat parts) j s.right_at)) in
        let low = least i r g in
        let low' = least j r' g' in
        let above : r ≤ r' = low.least r' (join all low'.linked) in
        let below : r' ≤ r = low'.least r (join (flip all) low.linked) in
        let meet : r ≡ r' = omega arith in subst (λ v. get_elem? v i ≡ get_elem? v j) (sym q) (cc)

-- ===== src/Dedup/Fuzzy/Workers.antt =====
-- The branch of `dist_fuzzy_dedup` with `cc_workers`, against the default one.
use jude.Prelude.{
  ℕ, suc, ◌+◌, ◌≡◌, ◌<◌, refl, sym, ◌∙◌, ap, ap₂, some, List, [], ◌∷◌, ◌++◌, length, concat,
  get_elem?, map, Bool, arith, Eq, subst, lookup, nat_eq, get_default, Dict, get_elem?-lt,
  length-map, get_elem?_of_map,
}
use jude.Graph.{Edge, Connected, IsLeast}
use jude.Dedup.UnionFind.{range_from}
use jude.Dedup.UnionFind.Component.{get_elem?-range_from, length-range_from}
use jude.Dedup.Propagation.{connected_components}
use jude.Dedup.Propagation.Dealt.{all_edges}
use jude.Dedup.Propagation.Converged.{Within}
use jude.Dedup.Propagation.Components.{connected_components-IsNearest, connected_components-IsLeast}
use jude.Dedup.Fuzzy.{Key, produce, bucket_edges, dist_fuzzy_reps, dist_fuzzy_cc_reps}
use jude.Dedup.Fuzzy.Edges.{edges}
use jude.Dedup.Fuzzy.Clusters.{runs}

all_edges-map : (ess : List (List Edge)) → all_edges (map some ess) ≡ concat ess
all_edges-map [] = refl
all_edges-map (es ∷ ess) = ap (λ v. es ++ v) (all_edges-map ess)

unique : (edges : List Edge) {x r s : ℕ} → IsLeast edges x r → IsLeast edges x s → r ≡ s
unique edges {x} {r} {s} h k = omega (arith, h.least s k.linked, k.least r h.linked)

-- Two lists with the same elements at the same places.
same_elements :
    {A : Type 0} (xs ys : List A)
    → length xs ≡ length ys
    → ((i : ℕ) (a b : A) → get_elem? xs i ≡ some a → get_elem? ys i ≡ some b → a ≡ b)
    → xs ≡ ys
same_elements [] [] l h = refl
same_elements [] (y ∷ ys) l h = absurd (omega (arith, l))
same_elements (x ∷ xs) [] l h = absurd (omega (arith, l))
same_elements (x ∷ xs) (y ∷ ys) l h =
    ap₂ (λ u v. u ∷ v) (h 0 x y refl refl)
      (same_elements xs ys (omega (arith, l)) (λ i a b g k. h (suc i) a b g k))

module _ {Text Sig : Type 0} ⦃sig_eq : Eq Sig⦄ (signature : Text → Sig) (band_keys : Sig → List Key)
    (similar : Sig → Sig → Bool) (b : ℕ) (pos : 0 < b) (parts : List (List Text)) where
  abbrev edge_tables : List (List Edge)
  edge_tables = bucket_edges similar 0 b (produce signature band_keys b 0 parts)

  abbrev pub the_edges : List Edge
  the_edges = edges signature band_keys similar b pos parts

  cc_label :
      ((x y : ℕ) → Connected the_edges x y → Within the_edges 100 x y)
      → (cc_workers : ℕ) {label : Dict ℕ ℕ}
      → connected_components cc_workers 100 (map some edge_tables) ≡ some label
      → (i : ℕ) → IsLeast the_edges i (get_default (lookup i label) i)
  cc_label close cc_workers {label} ran i =
      let e = all_edges-map edge_tables in
      subst (λ es. IsLeast es i (get_default (lookup i label) i)) e
        (connected_components-IsLeast cc_workers 100 (map some edge_tables)
          (subst (λ es. (x y : ℕ) → Connected es x y → Within es 100 x y) (sym e) close) label ran
          i)

  -- Where any two rows that the edges connect are within 100 edges of each other, label propagation
  -- on any number of workers gives every row the label that the union-find gives it.
  pub dist_fuzzy_cc_reps-dist_fuzzy_reps :
      ((x y : ℕ) → Connected the_edges x y → Within the_edges 100 x y)
      → (cc_workers : ℕ)
      → dist_fuzzy_cc_reps signature band_keys similar cc_workers b parts
        ≡ dist_fuzzy_reps signature band_keys similar b parts
  unfolding dist_fuzzy_cc_reps
  dist_fuzzy_cc_reps-dist_fuzzy_reps close cc_workers =
      let (label, ran, nearest) =
        connected_components-IsNearest cc_workers 100 (map some edge_tables) in
      let (reps, ran', size, least) = runs signature band_keys similar b pos parts in
      rw ran (ap some (agrees label reps (cc_label close cc_workers ran) size least) ∙ sym ran')
    where
      agrees :
          (label : Dict ℕ ℕ) (reps : List ℕ)
          → ((i : ℕ) → IsLeast the_edges i (get_default (lookup i label) i))
          → length reps ≡ length (concat parts)
          → ((i r : ℕ) → get_elem? reps i ≡ some r → IsLeast the_edges i r)
          → map (λ i. get_default (lookup i label) i) (range_from 0 (length (concat parts))) ≡ reps
      agrees label reps low size least =
          let n = length (concat parts) in
          same_elements _ reps (length-map (range_from 0 n) _ ∙ length-range_from 0 n ∙ sym size)
            (λ i x r gx gr.
              let (j, at, e) =
                get_elem?_of_map (λ i. get_default (lookup i label) i) (range_from 0 n) i gx in
              let h : i < n =
                omega (arith, get_elem?-lt (range_from 0 n) i at, length-range_from 0 n) in
              let at' = get_elem?-range_from 0 n i h in
              let q : j ≡ 0 + i = cc in
              let q' : j ≡ i = omega (arith, q) in
              subst (λ v. v ≡ r) e
                (unique the_edges
                  (subst (λ v. IsLeast the_edges v (get_default (lookup j label) j)) q' (low j))
                  (least i r gr)))

-- ===== src/Dedup/Fuzzy/Edges.antt =====
-- The edges of `dist_fuzzy_dedup` against the table: which rows they join.
use jude.Prelude.{
  ℕ, zero, suc, ◌+◌, ◌≤◌, ◌<◌, ◌≡◌, refl, sym, ap, inl, inr, Bool, some, List, [], ◌∷◌, length,
  concat, get_elem?, min, max, arith, Eq, list_eq, nat_eq, Memᴰ, Memᴰ-append, Memᴰ-append_left,
  Memᴰ-append_right, subst, subst₂, get_elem?-lt, ℕ_discrete,
}
use jude.Graph.{Edge}
use jude.Dedup.UnionFind.Component.{InRange}
use jude.Dedup.Shuffle.{gather, Memᴰ-gather}
use jude.Dedup.FuzzyEdges.{Row, curate_fuzzy_edges_bucket}
use jude.Dedup.FuzzyEdges.Sound.{Near, curate_fuzzy_edges_bucket-Justified}
use jude.Dedup.Fuzzy.{Key, produce, bucket_edges}
use jude.Dedup.Fuzzy.Producer.{keys_of}
use jude.Dedup.Fuzzy.Shuffled.{produce-Origin}

pub InRange-of_mem :
    (n : ℕ) (edges : List Edge)
    → ((a b : ℕ) → Memᴰ (a, b) edges → (a < n) × (b < n))
    → InRange n edges
InRange-of_mem n [] h = tt
InRange-of_mem n ((a, b) ∷ edges) h =
    let ends = h a b (Memᴰ.head refl) in
    (ends.0, ends.1, InRange-of_mem n edges (λ c d m. h c d (Memᴰ.tail m)))

module _ {Sig : Type 0} ⦃sig_eq : Eq Sig⦄ (similar : Sig → Sig → Bool)
    (refs : List (List (List (Row Key Sig)))) where
  bucket_edges-origin :
      (bkt count : ℕ) {e : Edge}
      → Memᴰ e (concat (bucket_edges similar bkt count refs))
      → (j : ℕ) × Memᴰ e (curate_fuzzy_edges_bucket similar (gather j refs))
  unfolding bucket_edges
  bucket_edges-origin bkt zero m = absurd (elim m [ ])
  bucket_edges-origin bkt (suc count) m =
      elim (Memᴰ-append (curate_fuzzy_edges_bucket similar (gather bkt refs)) m) [
        | inl l ↦ (bkt, l)
        | inr r ↦ bucket_edges-origin (suc bkt) count r
      ]

  pub bucket_edges-holds :
      (bkt count j : ℕ) {e : Edge}
      → bkt ≤ j
      → j < bkt + count
      → Memᴰ e (curate_fuzzy_edges_bucket similar (gather j refs))
      → Memᴰ e (concat (bucket_edges similar bkt count refs))
  unfolding bucket_edges
  bucket_edges-holds bkt zero j l h m = absurd (omega arith)
  bucket_edges-holds bkt (suc count) j {e} l h m = elim (ℕ_discrete bkt j) [
    | yes q ↦
        Memᴰ-append_left _
          (subst (λ v. Memᴰ e (curate_fuzzy_edges_bucket similar (gather v refs))) (sym q) m)
    | no n ↦
        Memᴰ-append_right (curate_fuzzy_edges_bucket similar (gather bkt refs))
          (bucket_edges-holds (suc bkt) count j (omega arith) (omega arith) m)
  ]

module _ {Text Sig : Type 0} ⦃sig_eq : Eq Sig⦄ (signature : Text → Sig) (band_keys : Sig → List Key)
    (similar : Sig → Sig → Bool) (b : ℕ) (pos : 0 < b) (parts : List (List Text)) where
  -- The rows `i` and `j` of the table share a band key, and their signatures are as `R` says.
  pub record Share (R : Sig → Sig → Type 0) (i j : ℕ) : Type 0 where
    pub left : Text
    pub right : Text
    pub left_at : get_elem? (concat parts) i ≡ some left
    pub right_at : get_elem? (concat parts) j ≡ some right
    pub band : Key
    pub left_keyed : Memᴰ band (keys_of signature band_keys i left)
    pub right_keyed : Memᴰ band (keys_of signature band_keys j right)
    pub related : R (signature left) (signature right)

  abbrev pub refs : List (List (List (Row Key Sig)))
  refs = produce signature band_keys b 0 parts

  abbrev pub edges : List Edge
  edges = concat (bucket_edges similar 0 b refs)

  -- An edge joins two rows of the table that share a band and are near.
  pub edge-Share :
      (e : Edge)
      → Memᴰ e edges
      → (i : ℕ) × (j : ℕ) × Share (Near similar) i j × (e ≡ (min i j, max i j))
  edge-Share e m =
      let (bkt, l) = bucket_edges-origin similar refs 0 b m in
      let why = curate_fuzzy_edges_bucket-Justified similar (gather bkt refs) e l in
      let (out, k, at) = Memᴰ-gather bkt refs why.left_in in
      let (out', k', at') = Memᴰ-gather bkt refs why.right_in in
      let o = produce-Origin signature band_keys b pos 0 parts out bkt k at in
      let o' = produce-Origin signature band_keys b pos 0 parts out' bkt k' at' in
      let q : why.left.rid ≡ o.index = omega (arith, o.numbered) in
      let q' : why.right.rid ≡ o'.index = omega (arith, o'.numbered) in
      (
        o.index,
        o'.index,
        record {
          left = o.text;
          right = o'.text;
          left_at = o.at;
          right_at = o'.at;
          band = why.left.key;
          left_keyed =
              subst (λ v. Memᴰ why.left.key (keys_of signature band_keys v o.text)) q o.keyed;
          right_keyed =
              subst₂ (λ v w. Memᴰ v (keys_of signature band_keys w o'.text)) (sym why.band) q'
                o'.keyed;
          related = subst₂ (λ v w. Near similar v w) o.signed o'.signed why.near;
        },
        subst₂ (λ v w. e ≡ (min v w, max v w)) q q' why.ends,
      )

  pub edges-InRange : InRange (length (concat parts)) edges
  edges-InRange = InRange-of_mem _ edges λ c d m.
      let (i, j, s, e) = edge-Share (c, d) m in
      let l = get_elem?-lt (concat parts) i s.left_at in
      let r = get_elem?-lt (concat parts) j s.right_at in
      let p : c ≡ min i j = ap (λ (v : Edge). v.0) e in
      let q : d ≡ max i j = ap (λ (v : Edge). v.1) e in (omega arith, omega arith)

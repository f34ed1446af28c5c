-- ===== src/Dedup/Image/Labels.antt =====
-- `dist_image_dedup` of python/jude/curate_dist.py: the ids that reach its union-find.
use jude.Prelude.{
  ℕ, zero, suc, ◌+◌, ◌%◌, ◌≡◌, ◌≤◌, ◌<◌, sym, ap, ◌∙◌, Bool, inl, inr, Option, none, some, List, [],
  ◌∷◌, length, concat, min, max, Memᴰ, Memᴰ-append, arith, subst, mod-lt, length-append, nat_eq,
  list_eq,
}
use jude.Graph.{Edge}
use jude.Dedup.UnionFind.Component.{representatives_total}
use jude.Dedup.Shuffle.{
  det_hash, push, no_rows, gather, InBucket, length-push, InBucket-push, Memᴰ-gather,
  length-no_rows, InBucket-no_rows,
}
use jude.Dedup.FuzzyEdges.{Row}
use jude.Dedup.Fuzzy.{Key}
use jude.Dedup.Fuzzy.Edges.{InRange-of_mem}
use jude.Dedup.Image.{
  ImageHash, Buckets, window_key, route_bands, route_images, curate_image_hash_edges,
  curate_image_dups_bucket, produce_images, image_edges, dist_image_reps,
}
use jude.Dedup.Image.Pairs.{curate_image_dups_bucket-Justified}

-- Every row of every bucket has an id below `n`.
abbrev Below : ℕ → Buckets → Type 0
Below n bs = (j : ℕ) (r : Row Key ImageHash) → InBucket j r bs → r.rid < n

module _ (b : ℕ) (pos : 0 < b) (bands n : ℕ) where
  route_bands-Below :
      (rid : ℕ) (h : ImageHash) (w count : ℕ) (bs : Buckets)
      → rid < n
      → length bs ≡ b
      → Below n bs
      → (length (route_bands b bands rid h w count bs) ≡ b)
        × Below n (route_bands b bands rid h w count bs)
  unfolding route_bands
  route_bands-Below rid h w zero bs l e below = (e, below)
  route_bands-Below rid h w (suc count) bs l e below =
      let key = window_key bands h w in
      let bkt = det_hash key % b in
      let row : Row Key ImageHash = record { rid = rid; key = key; sig = h } in
      let fits : bkt < length bs = subst (λ v. bkt < v) (sym e) (mod-lt (det_hash key) pos) in
      route_bands-Below rid h (suc w) count (push bkt row bs) l (length-push bkt row bs ∙ e)
        (λ j r m. elim (InBucket-push bkt row bs j fits m) [
          | inl new ↦ subst (λ (v : Row Key ImageHash). v.rid < n) (sym new.1) l
          | inr old ↦ below j r old
        ])

  route_images-Below :
      (rid : ℕ) (hashes : List (Option ImageHash)) (bs : Buckets)
      → rid + length hashes ≤ n
      → length bs ≡ b
      → Below n bs
      → Below n (route_images b bands rid hashes bs)
  unfolding route_images
  route_images-Below rid [] bs l e below = below
  route_images-Below rid (none ∷ hashes) bs l e below =
      route_images-Below (suc rid) hashes bs (omega arith) e below
  route_images-Below rid (some [] ∷ hashes) bs l e below =
      route_images-Below (suc rid) hashes bs (omega arith) e below
  route_images-Below rid (some (c ∷ cs) ∷ hashes) bs l e below =
      let (e', below') = route_bands-Below rid (c ∷ cs) 0 bands bs (omega arith) e below in
      route_images-Below (suc rid) hashes _ (omega arith) e' below'

  produce_images-Below :
      (offset : ℕ) (parts : List (List (Option ImageHash)))
      → offset + length (concat parts) ≤ n
      → (out : Buckets) → Memᴰ out (produce_images bands b offset parts)
      → Below n out
  unfolding produce_images curate_image_hash_edges
  produce_images-Below offset [] l out m = absurd (elim m [ ])
  produce_images-Below offset (part ∷ parts) l out (Memᴰ.head e) = subst (Below n) (sym e) (
      route_images-Below offset part (no_rows b) (omega (arith, length-append part (concat parts)))
        (length-no_rows (Row Key ImageHash) b) (λ j r m. absurd (InBucket-no_rows b j m)))
  produce_images-Below offset (part ∷ parts) l out (Memᴰ.tail k) =
      produce_images-Below (offset + length part) parts
        (omega (arith, length-append part (concat parts))) out k

module _ (close : ImageHash → ImageHash → Bool) (bands b : ℕ) (pos : 0 < b)
    (parts : List (List (Option ImageHash))) where
  abbrev the_refs : List Buckets
  the_refs = produce_images bands b 0 parts

  image_edges-below :
      (bkt count x y : ℕ)
      → Memᴰ (x, y) (concat (image_edges close bkt count the_refs))
      → (x < length (concat parts)) × (y < length (concat parts))
  unfolding image_edges
  image_edges-below bkt zero x y m = absurd (elim m [ ])
  image_edges-below bkt (suc count) x y m =
      elim (Memᴰ-append (curate_image_dups_bucket close (gather bkt the_refs)) m) [
        | inl l ↦
            let why = curate_image_dups_bucket-Justified close (gather bkt the_refs) (x, y) l in
            let (out, k, at) = Memᴰ-gather bkt the_refs why.left_in in
            let (out', k', at') = Memᴰ-gather bkt the_refs why.right_in in
            let low =
              produce_images-Below b pos bands (length (concat parts)) 0 parts (omega arith) out k
                bkt why.left at in
            let high =
              produce_images-Below b pos bands (length (concat parts)) 0 parts (omega arith) out' k'
                bkt why.right at' in
            let p : x ≡ min why.left.rid why.right.rid = ap (λ (v : Edge). v.0) why.ends in
            let q : y ≡ max why.left.rid why.right.rid = ap (λ (v : Edge). v.1) why.ends in
            (omega arith, omega arith)
        | inr r ↦ image_edges-below (suc bkt) count x y r
      ]

  -- With a positive number of buckets the driver of the image dedup ends, with one label for every
  -- row.
  pub dist_image_reps_total :
      (reps : List ℕ) × (dist_image_reps close bands b parts ≡ some reps)
      × (length reps ≡ length (concat parts))
  unfolding dist_image_reps
  dist_image_reps_total =
      representatives_total (length (concat parts)) (concat (image_edges close 0 b the_refs)) (
        InRange-of_mem (length (concat parts)) (concat (image_edges close 0 b the_refs))
          (λ x y m. image_edges-below 0 b x y m))

-- ===== src/Dedup/Image.antt =====
-- Near-duplicate images: `dist_image_dedup` of python/jude/curate_dist.py with
-- `curate_image_hash_edges` and `curate_image_dups_bucket` of python/jude/runners/_ray_shim.py.
-- The perceptual hash of an image, the characters of a hexadecimal number or none, is an argument,
-- and so is `close`, the test `image_hash_distance(s, t) <= max_distance`, both of the Rust core.
pub mod Pairs
pub mod Labels
use jude.Prelude.{
  ℕ, zero, suc, ◌+◌, ◌*◌, ◌/◌, ◌%◌, max, Bool, Option, none, some, List, [], ◌∷◌, ◌++◌, length,
  concat, if◌then◌else◌, ltb, Eq, nat_eq, list_eq, Dict, ◌>>=◌,
}
use jude.Graph.{Edge}
use jude.Packing.{slice}
use jude.Dedup.UnionFind.{representatives}
use jude.Dedup.Shuffle.{det_hash, push, no_rows, gather}
use jude.Dedup.FuzzyEdges.{Row, Member, group_rows, link_pairs}
use jude.Dedup.Fuzzy.{Key, decimal, Output, annotated, kept, representative_rows, append_column}

-- The characters of a perceptual hash.
abbrev pub ImageHash : Type 0
ImageHash = List ℕ

-- f"{b}:{h[b * wlen:(b + 1) * wlen]}", with `wlen = max(1, len(h) // max(1, bands))`
unfoldable pub window_key : ℕ → ImageHash → ℕ → Key
unfolding decimal
window_key bands h b =
    let wlen = max 1 (length h / max 1 bands) in decimal (suc b) b ++ b':' ∷ slice (b * wlen) wlen h

abbrev pub Buckets : Type 0
Buckets = List (List (Row Key ImageHash))

-- `for b in range(bands)`, for `count` bands from `b` on.
unfoldable pub route_bands : ℕ → ℕ → ℕ → ImageHash → ℕ → ℕ → Buckets → Buckets
unfolding window_key
route_bands num_buckets bands rid h b zero buckets = buckets
route_bands num_buckets bands rid h b (suc count) buckets =
    let key = window_key bands h b in
    route_bands num_buckets bands rid h (suc b) count
      (push (det_hash key % num_buckets) (record { rid = rid; key = key; sig = h }) buckets)

-- `for i, h in enumerate(hashes)`, from the row `rid` on; a missing or empty hash is skipped.
unfoldable pub route_images : ℕ → ℕ → ℕ → List (Option ImageHash) → Buckets → Buckets
unfolding route_bands
route_images num_buckets bands rid [] buckets = buckets
route_images num_buckets bands rid (none ∷ hashes) buckets =
    route_images num_buckets bands (suc rid) hashes buckets
route_images num_buckets bands rid (some [] ∷ hashes) buckets =
    route_images num_buckets bands (suc rid) hashes buckets
route_images num_buckets bands rid (some (c ∷ cs) ∷ hashes) buckets =
    route_images num_buckets bands (suc rid) hashes
      (route_bands num_buckets bands rid (c ∷ cs) 0 bands buckets)

unfoldable pub curate_image_hash_edges : List (Option ImageHash) → ℕ → ℕ → ℕ → Buckets
unfolding route_images no_rows
curate_image_hash_edges hashes bands num_buckets row_offset =
    route_images num_buckets bands row_offset hashes (no_rows num_buckets)

module _ {Key Sig : Type 0} ⦃key_eq : Eq Key⦄ ⦃sig_eq : Eq Sig⦄ (close : Sig → Sig → Bool) where
  -- The loop `for members in by_key.values()`.
  unfoldable pub link_images : Dict Key (List (Member Key Sig)) → List Edge → List Edge
  unfolding link_pairs
  link_images [] edges = edges
  link_images ((key, members) ∷ groups) edges =
      link_images groups (if ltb (length members) 2 then edges else link_pairs close members edges)

  unfoldable pub curate_image_dups_bucket : List (Row Key Sig) → List Edge
  unfolding group_rows link_images
  curate_image_dups_bucket rows = link_images (group_rows 0 rows []) []

-- `refs`, with the offsets that the loop over `parts` adds up.
unfoldable pub produce_images : ℕ → ℕ → ℕ → List (List (Option ImageHash)) → List Buckets
unfolding curate_image_hash_edges
produce_images bands num_buckets offset [] = []
produce_images bands num_buckets offset (part ∷ parts) =
    curate_image_hash_edges part bands num_buckets offset
    ∷ produce_images bands num_buckets (offset + length part) parts

module _ (close : ImageHash → ImageHash → Bool) where
  -- `edge_refs`: the edges of `count` buckets from `bkt` on.
  unfoldable pub image_edges : ℕ → ℕ → List Buckets → List (List Edge)
  unfolding gather curate_image_dups_bucket
  image_edges bkt zero refs = []
  image_edges bkt (suc count) refs =
      curate_image_dups_bucket close (gather bkt refs) ∷ image_edges (suc bkt) count refs

  -- `reps`, the representative of every row of the table.
  unfoldable pub dist_image_reps : ℕ → ℕ → List (List (Option ImageHash)) → Option (List ℕ)
  unfolding produce_images image_edges representatives
  dist_image_reps bands b parts =
      representatives (length (concat parts))
        (concat (image_edges 0 b (produce_images bands b 0 parts)))

  -- The rows stand as their hashes.
  unfoldable pub dist_image_dedup :
      ℕ → ℕ → Bool → List (List (Option ImageHash)) → Option (Output (Option ImageHash))
  unfolding dist_image_reps representative_rows append_column
  dist_image_dedup bands b keep_cluster parts = do
    reps ← dist_image_reps bands b parts
    some (
        if keep_cluster
        then annotated (append_column (concat parts) reps)
        else kept (representative_rows 0 (concat parts) reps))

-- ===== src/Tests/Shuffles.antt =====
-- Exact and image dedup and the global shuffle at small inputs.
use jude.Prelude.{
  ℕ, zero, suc, ◌≡◌, ◌≢◌, ◌<◌, refl, Bool, true, false, Option, none, some, List, [], ◌∷◌, ◌++◌,
  length, concat, replicate, length-replicate, arith, ◌==◌, Memᴰ, nat_eq, list_eq, append_to,
  lookup, insert, All,
}
use mathlib.Core.List.{Permᴰ}
use mathlib.Core.List.Permᴰ
use jude.Graph.{Connected}
use jude.Dedup.UnionFind.{range_from}
use jude.Dedup.Shuffle.{push, det_hash, gather}
use jude.Dedup.FuzzyEdges.{Row}
use jude.Dedup.FuzzyEdges.Sound.{Justified}
use jude.Dedup.Exact.{
  Hash, HashIndex, Dataset, exact_dedup, dist_exact_dedup, add_table, incremental_dedup,
}
use jude.Dedup.Exact.Shuffled.{dist_exact_dedup-Perm}
use jude.Dedup.Exact.Index.{add_table-again, incremental_dedup-append}
use jude.Dedup.Image.{ImageHash, curate_image_dups_bucket, dist_image_reps}
use jude.Dedup.Image.Pairs.{curate_image_dups_bucket-Justified, curate_image_dups_bucket-links}
use jude.Dedup.Image.Labels.{dist_image_reps_total}
use jude.Mixing.{dist_global_shuffle}
use jude.Mixing.Kept.{Fair, Bounded, dist_global_shuffle-Perm}

-- A document is a number with its own value as the only digit of its hash; 0 is a missing text.
abbrev digit : ℕ → Option Hash
digit zero = none
digit (suc n) = some (suc n ∷ [])

digit-full : (n : ℕ) → digit n ≢ some []
digit-full zero e = cc
digit-full (suc n) e = cc

abbrev parts : List (List ℕ)
parts = (5 ∷ 4 ∷ 5 ∷ []) ∷ (0 ∷ 4 ∷ 7 ∷ []) ∷ []

dist_exact_dedup_two :
    dist_exact_dedup digit parts 2 true
    ≡ (4, some (4 ∷ [])) ∷ (5, some (5 ∷ [])) ∷ (7, some (7 ∷ [])) ∷ []
unfolding dist_exact_dedup push gather
dist_exact_dedup_two = refl

dist_exact_dedup-Perm_example :
    Permᴰ (dist_exact_dedup digit parts 2 true) (exact_dedup digit (concat parts) true)
dist_exact_dedup-Perm_example = dist_exact_dedup-Perm 2 (omega arith) digit digit-full parts true

abbrev no_index : HashIndex
no_index = record { has_path = false; seen = [] }

add_table-again_example :
    (add_table digit (add_table digit no_index (3 ∷ 3 ∷ 8 ∷ []) true).0 (3 ∷ 3 ∷ 8 ∷ []) false).1
    ≡ []
add_table-again_example = add_table-again digit no_index (3 ∷ 3 ∷ 8 ∷ []) true false

first_run :
    incremental_dedup digit (9 ∷ 3 ∷ 9 ∷ []) none
    ≡ some ((9, none) ∷ (3, none) ∷ [], some ((3 ∷ []) ∷ (9 ∷ []) ∷ []))
unfolding incremental_dedup
first_run = refl

second_run :
    incremental_dedup digit (3 ∷ 6 ∷ []) (some ((3 ∷ []) ∷ (9 ∷ []) ∷ []))
    ≡ some ((6, none) ∷ [], some ((3 ∷ []) ∷ (6 ∷ []) ∷ (9 ∷ []) ∷ []))
unfolding incremental_dedup
second_run = refl

incremental_dedup-append_example :
    (stored₃ : Dataset) × (incremental_dedup digit ((9 ∷ 3 ∷ 9 ∷ []) ++ (3 ∷ 6 ∷ [])) none
      ≡ some (((9, none) ∷ (3, none) ∷ []) ++ ((6, none) ∷ []), stored₃))
incremental_dedup-append_example =
    incremental_dedup-append digit (9 ∷ 3 ∷ 9 ∷ []) (3 ∷ 6 ∷ []) none
      (some ((3 ∷ []) ∷ (9 ∷ []) ∷ [])) (some ((3 ∷ []) ∷ (6 ∷ []) ∷ (9 ∷ []) ∷ []))
      ((9, none) ∷ (3, none) ∷ []) ((6, none) ∷ []) first_run second_run

-- Images of one band, whose hashes are close when they have as many characters.
abbrev close : ImageHash → ImageHash → Bool
close s t = length s == length t

close_sym : (s t : ImageHash) → close s t ≡ close t s
close_sym s t = ground arith

abbrev images : List (Row ℕ ImageHash)
images =
    record { rid = 3; key = 0; sig = 1 ∷ 2 ∷ [] }
    ∷ record { rid = 1; key = 0; sig = 1 ∷ 1 ∷ [] }
    ∷ []

images_edge : Memᴰ (1, 3) (curate_image_dups_bucket close images)
unfolding curate_image_dups_bucket append_to lookup insert
images_edge = Memᴰ.head refl

curate_image_dups_bucket-Justified_example : Justified close images (1, 3)
curate_image_dups_bucket-Justified_example =
    curate_image_dups_bucket-Justified close images (1, 3) images_edge

curate_image_dups_bucket-links_example : Connected (curate_image_dups_bucket close images) 3 1
curate_image_dups_bucket-links_example =
    curate_image_dups_bucket-links close close_sym images
      (record { rid = 3; key = 0; sig = 1 ∷ 2 ∷ [] })
      (record { rid = 1; key = 0; sig = 1 ∷ 1 ∷ [] }) (Memᴰ.head refl) (Memᴰ.tail (Memᴰ.head refl))
      refl refl

abbrev image_parts : List (List (Option ImageHash))
image_parts = (some (7 ∷ 7 ∷ []) ∷ none ∷ []) ∷ (some (7 ∷ 8 ∷ []) ∷ []) ∷ []

dist_image_reps_three : dist_image_reps close 2 3 image_parts ≡ some (0 ∷ 1 ∷ 0 ∷ [])
unfolding dist_image_reps push det_hash append_to lookup insert
dist_image_reps_three = refl

dist_image_reps_total_example :
    (reps : List ℕ) × (dist_image_reps close 2 3 image_parts ≡ some reps)
    × (length reps ≡ length (concat image_parts))
dist_image_reps_total_example = dist_image_reps_total close 2 3 (omega arith) image_parts

-- Generators that keep every row where it is, in the first bucket.
abbrev zeros : ℕ → ℕ → ℕ → List ℕ
zeros s zero size = []
zeros s (suc high) size = replicate size 0

abbrev in_order : ℕ → ℕ → List ℕ
in_order s n = range_from 0 n

in_order-Fair : Fair in_order
in_order-Fair s n = Permᴰ.refl (range_from 0 n)

dist_global_shuffle_two :
    dist_global_shuffle zeros in_order parts 2 9 ≡ some (5 ∷ 4 ∷ 5 ∷ 0 ∷ 4 ∷ 7 ∷ [])
unfolding dist_global_shuffle range_from gather
dist_global_shuffle_two = refl

zeros-All : (high size : ℕ) → All (λ n. n < suc high) (replicate size 0)
zeros-All high zero = tt
zeros-All high (suc size) = (omega arith, zeros-All high size)

zeros-Bounded : Bounded zeros
zeros-Bounded s zero size h = absurd (omega arith)
zeros-Bounded s (suc high) size h = (length-replicate size 0, zeros-All high size)

dist_global_shuffle-Perm_example :
    (rows : List ℕ) × (dist_global_shuffle zeros in_order parts 2 9 ≡ some rows)
    × Permᴰ rows (concat parts)
dist_global_shuffle-Perm_example =
    dist_global_shuffle-Perm zeros in_order zeros-Bounded in_order-Fair parts 2 9 (omega arith)

-- ===== src/Tests/Packing.antt =====
-- The cutting of rows and tokens at small inputs.
use jude.Prelude.{
  ℕ, zero, suc, ◌-◌, ◌*◌, get_elem?, ◌≡◌, ◌≤◌, ◌<◌, ◌++◌, refl, true, false, Option, none, some,
  List, [], ◌∷◌, length, concat, map, replicate, min, max, arith, All, if◌then◌else◌, ℤ, pos,
  negsuc,
}
use mathlib.Core.List.{Permᴰ}
use jude.Dedup.UnionFind.{range_from}
use jude.Packing.{
  shard_row_ranges, write_sharded_parquet, rechunk, tokenize, Packed, pack_sequences,
  write_shuffled_shards,
}
use jude.Packing.Slices.{write_sharded_parquet-length, write_sharded_parquet-concat, rechunk-concat}
use jude.Packing.Shuffled.{write_shuffled_shards_Perm}
use jude.Packing.Sequences.{cells, stream, IsWindow, pack_sequences-stream}

abbrev rows : List ℕ
rows = 10 ∷ 11 ∷ 12 ∷ 13 ∷ 14 ∷ []

shard_row_ranges_five : shard_row_ranges 5 2 ≡ (0, 2) ∷ (2, 2) ∷ (4, 1) ∷ []
unfolding shard_row_ranges
shard_row_ranges_five = refl

rechunk_five : rechunk rows (some 3) ≡ (10 ∷ 11 ∷ 12 ∷ []) ∷ (13 ∷ 14 ∷ []) ∷ []
unfolding rechunk
rechunk_five = refl

third_shard : get_elem? (write_sharded_parquet rows 2) 2 ≡ some (14 ∷ [])
unfolding write_sharded_parquet
third_shard = refl

write_sharded_parquet-length_example :
    (length {A = ℕ} (14 ∷ []) ≡ min (max 1 2) (5 - 2 * max 1 2)) × (0 < length {A = ℕ} (14 ∷ []))
write_sharded_parquet-length_example = write_sharded_parquet-length rows 2 2 (14 ∷ []) third_shard

-- A document with an end token, a missing text, and one without tokens of its own.
tokenize_three :
    tokenize {Text = List ℕ} {Token = ℕ}
      (λ t. t)
      []
      (some 0)
      true
      none
      (some (7 ∷ 8 ∷ []) ∷ none ∷ some (9 ∷ []) ∷ [])
    ≡ ((7 ∷ 8 ∷ 0 ∷ [], 3) ∷ (0 ∷ [], 1) ∷ (9 ∷ 0 ∷ [], 2) ∷ [])
unfolding tokenize
tokenize_three = refl

abbrev documents : List (Option (List ℕ))
documents = some (7 ∷ 8 ∷ 9 ∷ []) ∷ none ∷ some (5 ∷ 6 ∷ []) ∷ []

pack_sequences_padded :
    pack_sequences documents 3 false 0
    ≡ some (
        record { input_ids = 7 ∷ 8 ∷ 9 ∷ []; doc_ids = pos 0 ∷ pos 0 ∷ pos 0 ∷ [] }
        ∷ record { input_ids = 5 ∷ 6 ∷ 0 ∷ []; doc_ids = pos 2 ∷ pos 2 ∷ negsuc 0 ∷ [] }
        ∷ [])
unfolding pack_sequences
pack_sequences_padded = refl

pack_sequences_zero : pack_sequences documents 0 false 0 ≡ none
unfolding pack_sequences
pack_sequences_zero = refl

pack_sequences-stream_example :
    (packed : List (Packed ℕ)) × (rest : List (ℕ × ℤ)) × (k : ℕ) × (pack_sequences documents 3 false
        0
      ≡ some packed)
    × (concat (map cells packed) ++ rest ≡ stream 0 documents ++ replicate k (0, negsuc 0))
    × (length rest < 3)
    × (k < 3)
    × (if false then k ≡ 0 else length rest ≡ 0)
    × All (IsWindow 3) packed
pack_sequences-stream_example = pack_sequences-stream documents 3 false 0 (omega arith)

abbrev backwards : ℕ → List ℕ
backwards zero = []
backwards (suc n) = n ∷ backwards n

write_shuffled_shards_five :
    write_shuffled_shards backwards rows 2 ≡ some ((14 ∷ 13 ∷ 12 ∷ []) ∷ (11 ∷ 10 ∷ []) ∷ [])
unfolding write_shuffled_shards
write_shuffled_shards_five = refl

abbrev swapped : ℕ → List ℕ
swapped n = 1 ∷ 0 ∷ []

swapped-Perm : Permᴰ (swapped 2) (range_from 0 2)
unfolding range_from
swapped-Perm = Permᴰ.swap refl refl

write_shuffled_shards_Perm_example :
    (shards : List (List ℕ)) × (write_shuffled_shards swapped (7 ∷ 8 ∷ []) 2 ≡ some shards)
    × Permᴰ (concat shards) (7 ∷ 8 ∷ [])
    × (length shards ≤ max 1 2)
write_shuffled_shards_Perm_example = write_shuffled_shards_Perm swapped (7 ∷ 8 ∷ []) 2 swapped-Perm

write_sharded_parquet-concat_example : concat (write_sharded_parquet rows 2) ≡ rows
write_sharded_parquet-concat_example = write_sharded_parquet-concat rows 2

rechunk-concat_example : concat (rechunk rows (some 3)) ≡ rows
rechunk-concat_example = rechunk-concat rows (some 3)

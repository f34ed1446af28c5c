-- ===== src/Tests/Cardinality.antt =====
-- Approximate distinct counts of a few items, with 4 registers.
use jude.Prelude.{
  ℕ, ◌≡◌, ◌*◌, ◌^◌, ◌%◌, ◌<◌, ◌↔◌, refl, arith, mod-lt, some, List, [], ◌∷◌, Memᴰ, true,
}
use jude.Cardinality.{rank_of, new_registers, add_items, dup_key}
use jude.Cardinality.Keys.{dup_key-words}
use jude.Cardinality.Registers.{add_items-members}
use jude.Texts.{split, lower, join}
use jude.Tests.Texts.{ascii}

-- A digest of 64 bits.
abbrev digest : ℕ → ℕ
digest a = (a * 0x1000000000000000) % 2 ^ 64

digest_lt : (a : ℕ) → digest a < 2 ^ 64
digest_lt a = mod-lt (a * 0x1000000000000000) (omega arith)

-- The digests 3, 9 and 15 of the top four bits, and then again in another order.
counted : add_items digest 2 (new_registers 2) (3 ∷ 9 ∷ 15 ∷ []) ≡ some (1 ∷ 0 ∷ 2 ∷ 1 ∷ [])
unfolding add_items new_registers
counted = refl

-- When the remaining bits are 0, the rank is 1.
no_bits : rank_of 64 0 1 ≡ some 1
unfolding rank_of
no_bits = refl

abbrev once : List ℕ
once = 3 ∷ 9 ∷ []

abbrev again : List ℕ
again = 9 ∷ 3 ∷ 9 ∷ []

swapped : (a : ℕ) → Memᴰ a once ↔ Memᴰ a again
swapped a = (to, from)
  where
    to : Memᴰ a once → Memᴰ a again
    to (Memᴰ.head e) = Memᴰ.tail (Memᴰ.head e)
    to (Memᴰ.tail (Memᴰ.head e)) = Memᴰ.head e
    to (Memᴰ.tail (Memᴰ.tail m)) = elim m [ ]

    from : Memᴰ a again → Memᴰ a once
    from (Memᴰ.head e) = Memᴰ.tail (Memᴰ.head e)
    from (Memᴰ.tail (Memᴰ.head e)) = Memᴰ.head e
    from (Memᴰ.tail (Memᴰ.tail (Memᴰ.head e))) = Memᴰ.tail (Memᴰ.head e)
    from (Memᴰ.tail (Memᴰ.tail (Memᴰ.tail m))) = elim m [ ]

add_items-members_example :
    (registers : List ℕ) × (add_items digest 2 (new_registers 2) once ≡ some registers)
    × (add_items digest 2 (new_registers 2) again ≡ some registers)
add_items-members_example = add_items-members digest 2 once again (omega arith) digest_lt swapped

-- White space does not tell two texts apart when the keys are normalized.
normalized :
    dup_key ascii true (some (b' ' ∷ b'a' ∷ b'\n' ∷ b' ' ∷ b'b' ∷ [])) ≡ b'a' ∷ b' ' ∷ b'b' ∷ []
unfolding dup_key split lower join
normalized = refl

dup_key-words_example :
    (dup_key ascii true (some (b' ' ∷ b'a' ∷ [])) ≡ dup_key ascii true (some (b'b' ∷ [])))
    ↔ (split ascii (lower ascii (b' ' ∷ b'a' ∷ [])) ≡ split ascii (lower ascii (b'b' ∷ [])))
dup_key-words_example = dup_key-words ascii refl (b' ' ∷ b'a' ∷ []) (b'b' ∷ [])

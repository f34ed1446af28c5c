-- ===== src/Cardinality.antt =====
-- Approximate distinct counts: `HyperLogLog` of python/jude/profile.py, and the loop of `profile`
-- that feeds it. The digest of an item (8 bytes of BLAKE2b) and `estimate`, which computes with
-- floating-point numbers, are arguments. The code is read for `p` of at most 64.
pub mod Keys
pub mod Registers
use jude.Prelude.{
  ℕ, zero, suc, ◌-◌, ◌*◌, ◌/◌, ◌%◌, ◌^◌, min, not, ◌&&◌, Bool, Option, none, some, ◌>>=◌, List, [],
  ◌∷◌, if◌then◌else◌, ltb, ◌==◌, get_elem?, set, replicate, length, map,
}
use jude.Texts.{Text, Alphabet, split, lower, join}

-- Bit 63.
abbrev pub top : ℕ
top = 0x8000000000000000

-- `while rest and not (rest >> 63)`; the loop ends within 64 rounds.
unfoldable pub rank_of : ℕ → ℕ → ℕ → Option ℕ
rank_of zero rest rank = none
rank_of (suc fuel) rest rank =
    let further = rank_of fuel (rest * 2) (suc rank) in
    if not (rest == 0) && (rest / top == 0) then further else some rank

-- `HyperLogLog(p).registers`
unfoldable pub new_registers : ℕ → List ℕ
new_registers p = replicate (2 ^ p) 0

-- A byte holds less than 256; an index out of range raises.
unfoldable pub raise_to : List ℕ → ℕ → ℕ → Option (List ℕ)
raise_to registers idx rank = do
  old ← get_elem? registers idx
  (if ltb old rank
      then (if ltb rank 256 then some (set registers idx rank) else none)
      else some registers)

module _ {A : Type 0} (digest : A → ℕ) (p : ℕ) where
  -- HyperLogLog.add
  unfoldable pub add_item : List ℕ → A → Option (List ℕ)
  unfolding rank_of raise_to
  add_item registers item = do
    rank ← rank_of 64 (digest item * 2 ^ p % 2 ^ 64) 1
    raise_to registers (digest item / 2 ^ (64 - p)) rank

  unfoldable pub add_items : List ℕ → List A → Option (List ℕ)
  unfolding add_item
  add_items registers [] = some registers
  add_items registers (item ∷ items) = do
    registers' ← add_item registers item
    add_items registers' items

-- What `profile` counts of a text.
unfoldable pub dup_key : Alphabet → Bool → Option Text → Text
unfolding split lower join
dup_key abc normalize_for_dup none = []
dup_key abc normalize_for_dup (some s) =
    if normalize_for_dup then join (b' ' ∷ []) (split abc (lower abc s)) else s

-- The `approx_distinct` of `profile`.
unfoldable pub approx_distinct :
    Alphabet → (Text → ℕ) → (List ℕ → ℕ) → Bool → List (Option Text) → Option ℕ
unfolding add_items new_registers dup_key
approx_distinct abc digest estimate normalize_for_dup texts = do
  registers ← add_items digest 14 (new_registers 14) (map (dup_key abc normalize_for_dup) texts)
  some (if length texts == 0 then 0 else min (estimate registers) (length texts))

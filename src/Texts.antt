-- ===== src/Texts.antt =====
-- Python's string methods, as the modelled code uses them, on lists of characters. Which characters
-- are white space and which break a line, and `str.lower`, are arguments.
use jude.Prelude.{
  ℕ, Bool, true, false, not, ◌&&◌, ◌||◌, List, [], ◌∷◌, ◌++◌, if◌then◌else◌, ◌==◌, length, leb,
  drop, ◌-◌, list_eq, nat_eq, ◌=?◌,
}

abbrev pub Text : Type 0
Text = List ℕ

pub record Alphabet : Type 0 where
  pub is_space : ℕ → Bool
  pub is_break : ℕ → Bool
  pub lower_case : Text → Text

module _ (abc : Alphabet) where
  -- The words of `word` followed by the text.
  unfoldable pub split_from : Text → Text → List Text
  split_from [] [] = []
  split_from (d ∷ word) [] = (d ∷ word) ∷ []
  split_from [] (c ∷ s) = split_from (if abc.is_space c then [] else c ∷ []) s
  split_from (d ∷ word) (c ∷ s) =
      let rest = split_from (if abc.is_space c then [] else (d ∷ word) ++ c ∷ []) s in
      if abc.is_space c then (d ∷ word) ∷ rest else rest

  -- `s.split()`
  unfoldable pub split : Text → List Text
  unfolding split_from
  split s = split_from [] s

  -- The lines of `line` followed by the text; a line feed after a carriage return breaks nothing.
  unfoldable pub lines_from : Bool → Text → Text → List Text
  lines_from after_cr [] [] = []
  lines_from after_cr (d ∷ line) [] = (d ∷ line) ∷ []
  lines_from after_cr line (c ∷ s) =
      let joined = after_cr && (c == b'\n') in
      let broken = abc.is_break c && not joined in
      let rest =
        lines_from (broken && (c == b'\r')) (if abc.is_break c then [] else line ++ c ∷ []) s in
      if broken then line ∷ rest else rest

  -- `s.splitlines()`
  unfoldable pub splitlines : Text → List Text
  unfolding lines_from
  splitlines s = lines_from false [] s

  unfoldable pub lstrip : Text → Text
  lstrip [] = []
  lstrip (c ∷ s) = let rest = lstrip s in if abc.is_space c then rest else c ∷ s

  unfoldable pub rstrip : Text → Text
  rstrip [] = []
  rstrip (c ∷ s) = elim (rstrip s) [
    | [] ↦ if abc.is_space c then [] else c ∷ []
    | d ∷ t ↦ c ∷ d ∷ t
  ]

  -- `s.strip()`
  unfoldable pub strip : Text → Text
  unfolding lstrip rstrip
  strip s = rstrip (lstrip s)

  -- `s.lower()`
  unfoldable pub lower : Text → Text
  lower s = abc.lower_case s

-- `separator.join(parts)`
unfoldable pub join : Text → List Text → Text
join separator [] = []
join separator (s ∷ []) = s
join separator (s ∷ t ∷ parts) = s ++ separator ++ join separator (t ∷ parts)

-- `s.startswith(p)`
unfoldable pub starts_with : Text → Text → Bool
starts_with [] s = true
starts_with (c ∷ p) [] = false
starts_with (c ∷ p) (d ∷ s) = (c == d) && starts_with p s

-- `p in s`
unfoldable pub occurs_in : Text → Text → Bool
unfolding starts_with
occurs_in p [] = p =? []
occurs_in p (c ∷ s) = starts_with p (c ∷ s) || occurs_in p s

-- `s.endswith(p)`
unfoldable pub has_suffix : Text → Text → Bool
has_suffix p s = leb (length p) (length s) && (drop (length s - length p) s =? p)

-- `any(p(x) for x in xs)`
unfoldable pub any_of {ℓ} : {A : Type ℓ} → (A → Bool) → List A → Bool
any_of p [] = false
any_of p (x ∷ xs) = p x || any_of p xs

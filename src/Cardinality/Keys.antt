-- ===== src/Cardinality/Keys.antt =====
-- Which texts `profile` of python/jude/profile.py counts as one: the keys that it makes of them.
use jude.Prelude.{
  ◌≡◌, ◌↔◌, refl, sym, ap, ◌∙◌, true, false, Bool-cases, inl, inr, some, List, [], ◌∷◌, ◌++◌, All,
  All-append, append-nil, append_assoc,
}
use jude.Texts.{Text, Alphabet, split_from, split, lower, join}
use jude.Cardinality.{dup_key}

module _ (abc : Alphabet) where
  abbrev Solid : Text → Type 0
  Solid s = All (λ c. abc.is_space c ≡ false) s

  -- A word has a character, and no white space.
  abbrev Word : Text → Type 0
  Word [] = ⊥
  Word (c ∷ s) = Solid (c ∷ s)

  split_from-words : (word s : Text) → Solid word → All Word (split_from abc word s)
  unfolding split_from
  split_from-words [] [] h = tt
  split_from-words (d ∷ word) [] h = (h, tt)
  split_from-words [] (c ∷ s) h = elim (Bool-cases (abc.is_space c)) [
    | inl y ↦ rw (y, split_from) (split_from-words [] s tt)
    | inr n ↦ rw (n, split_from) (split_from-words (c ∷ []) s (n, tt))
  ]
  split_from-words (d ∷ word) (c ∷ s) h = elim (Bool-cases (abc.is_space c)) [
    | inl y ↦ rw (y, split_from) (h, split_from-words [] s tt)
    | inr n ↦
        rw (n, split_from)
          (split_from-words ((d ∷ word) ++ c ∷ []) s
            (All-append (λ c. abc.is_space c ≡ false) (d ∷ word) (c ∷ []) h (n, tt)))
  ]

  -- Characters that are no white space go to the word.
  split_from-word :
      (word w s : Text) → Solid w → split_from abc word (w ++ s) ≡ split_from abc (word ++ w) s
  unfolding split_from
  split_from-word word [] s h = ap (λ v. split_from abc v s) (sym (append-nil word))
  split_from-word [] (c ∷ w) s h = rw (h.0, split_from) (split_from-word (c ∷ []) w s h.1)
  split_from-word (d ∷ word) (c ∷ w) s h =
      rw (h.0, split_from)
        (split_from-word ((d ∷ word) ++ c ∷ []) w s h.1
          ∙ ap (λ v. split_from abc v s) (append_assoc (d ∷ word) (c ∷ []) w))

  module _ (space : abc.is_space b' ' ≡ true) where
    split_from-space : (w s : Text) → Word w → split_from abc w (b' ' ∷ s) ≡ w ∷ split_from abc [] s
    unfolding split_from
    split_from-space [] s h = elim h [ ]
    split_from-space (c ∷ w) s h = rw (space, split_from) refl

    solid : (w : Text) → Word w → Solid w
    solid [] h = tt
    solid (c ∷ w) h = h

    single : (w : Text) → Word w → split_from abc w [] ≡ w ∷ []
    unfolding split_from
    single [] h = elim h [ ]
    single (c ∷ w) h = refl

    -- Words that are joined by spaces are split again.
    split-join : (ws : List Text) → All Word ws → split abc (join (b' ' ∷ []) ws) ≡ ws
    unfolding split join split_from
    split-join [] h = refl
    split-join (w ∷ []) h =
        ap (split_from abc []) (sym (append-nil w))
        ∙ split_from-word [] w [] (solid w h.0)
        ∙ single w h.0
    split-join (w ∷ u ∷ ws) h =
        ap (split_from abc []) (append_assoc w (b' ' ∷ []) (join (b' ' ∷ []) (u ∷ ws)))
        ∙ split_from-word [] w (b' ' ∷ join (b' ' ∷ []) (u ∷ ws)) (solid w h.0)
        ∙ split_from-space w (join (b' ' ∷ []) (u ∷ ws)) h.0
        ∙ ap (λ vs. w ∷ vs) (split-join (u ∷ ws) h.1)

    -- Where a space is white space, two texts have one normalized key if and only if they have the
    -- same words after `lower`.
    pub dup_key-words :
        (s t : Text)
        → (dup_key abc true (some s) ≡ dup_key abc true (some t))
          ↔ (split abc (lower abc s) ≡ split abc (lower abc t))
    unfolding dup_key split
    dup_key-words s t =
        ((λ e. sym (again s) ∙ ap (split abc) e ∙ again t), (λ e. ap (join (b' ' ∷ [])) e))
      where
        again :
            (s : Text)
            → split abc (join (b' ' ∷ []) (split abc (lower abc s))) ≡ split abc (lower abc s)
        again s = split-join (split abc (lower abc s)) (words s)
          where
            words : (s : Text) → All Word (split abc (lower abc s))
            words s = split_from-words [] (lower abc s) tt

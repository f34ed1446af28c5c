-- ===== src/Lines.antt =====
-- The line filters of python/jude/curate.py: `c4_line_filter` and `corpus_line_dedup`. A column of
-- texts is a list, `none` for a null; the column that the texts are written to is the result.
pub mod Frequency
use jude.Prelude.{
  ℕ, zero, suc, ◌+◌, Bool, true, false, not, ◌&&◌, ◌||◌, Option, none, some, List, [], ◌∷◌, ◌++◌,
  map, if◌then◌else◌, ltb, leb, length, Dict, lookup, insert, get_default, contains, list_eq,
  nat_eq, ◌=?◌,
}
use jude.Texts.{
  Text, Alphabet, split, splitlines, strip, lower, join, occurs_in, has_suffix, any_of,
}

abbrev newline : Text
newline = b'\n' ∷ []

module _ (abc : Alphabet) where
  -- The tests on one stripped line.
  unfoldable pub passes : ℕ → Bool → List Text → List Text → Text → Bool
  unfolding split lower occurs_in has_suffix any_of
  passes min_words require_terminal_punct terminal drop_markers s =
      let low = lower abc s in
      not (s =? [])
      && not (ltb (length (split abc s)) min_words)
      && not (require_terminal_punct && not (any_of (λ t. has_suffix t s) terminal))
      && not (any_of (λ m. occurs_in m low) drop_markers)

  -- `for line in txt.splitlines()`
  unfoldable pub prose_lines : ℕ → Bool → List Text → List Text → List Text → List Text
  unfolding passes strip
  prose_lines min_words require_terminal_punct terminal drop_markers [] = []
  prose_lines min_words require_terminal_punct terminal drop_markers (line ∷ lines) =
      let rest = prose_lines min_words require_terminal_punct terminal drop_markers lines in
      let s = strip abc line in
      if passes min_words require_terminal_punct terminal drop_markers s then s ∷ rest else rest

  unfoldable pub c4_line_filter :
      ℕ → Bool → List Text → List Text → List (Option Text) → List (Option Text)
  unfolding prose_lines splitlines join
  c4_line_filter min_words require_terminal_punct terminal drop_markers [] = []
  c4_line_filter min_words require_terminal_punct terminal drop_markers (none ∷ texts) =
      none ∷ c4_line_filter min_words require_terminal_punct terminal drop_markers texts
  c4_line_filter min_words require_terminal_punct terminal drop_markers (some [] ∷ texts) =
      some [] ∷ c4_line_filter min_words require_terminal_punct terminal drop_markers texts
  c4_line_filter min_words require_terminal_punct terminal drop_markers (some (c ∷ txt) ∷ texts) =
      some (
        join newline (
          prose_lines min_words require_terminal_punct terminal drop_markers
            (splitlines abc (c ∷ txt))))
      ∷ c4_line_filter min_words require_terminal_punct terminal drop_markers texts

  -- `key`
  unfoldable pub line_key : Bool → Text → Text
  unfolding strip lower
  line_key normalize line = let s = strip abc line in if normalize then lower abc s else s

  -- `for line in txt.splitlines()`, of the first pass.
  unfoldable pub count_lines : Bool → List Text → List Text → Dict Text ℕ → Dict Text ℕ
  unfolding line_key
  count_lines normalize [] seen doc_freq = doc_freq
  count_lines normalize (line ∷ lines) seen doc_freq =
      let k = line_key normalize line in
      let fresh = not (k =? []) && not (contains k seen) in
      count_lines normalize lines (if fresh then k ∷ seen else seen)
        (if fresh then insert k (get_default (lookup k doc_freq) 0 + 1) doc_freq else doc_freq)

  unfoldable pub document_frequency : Bool → List (Option Text) → Dict Text ℕ → Dict Text ℕ
  unfolding count_lines splitlines
  document_frequency normalize [] doc_freq = doc_freq
  document_frequency normalize (none ∷ texts) doc_freq = document_frequency normalize texts doc_freq
  document_frequency normalize (some txt ∷ texts) doc_freq =
      document_frequency normalize texts (count_lines normalize (splitlines abc txt) [] doc_freq)

  -- The comprehension of the second pass.
  unfoldable pub rare_lines : Bool → ℕ → Dict Text ℕ → List Text → List Text
  unfolding line_key
  rare_lines normalize min_docs doc_freq [] = []
  rare_lines normalize min_docs doc_freq (ln ∷ lines) =
      let rest = rare_lines normalize min_docs doc_freq lines in
      let k = line_key normalize ln in
      if not (k =? []) && leb min_docs (get_default (lookup k doc_freq) 0) then rest else ln ∷ rest

  unfoldable pub drop_lines : Bool → ℕ → Dict Text ℕ → List (Option Text) → List (Option Text)
  unfolding rare_lines splitlines join
  drop_lines normalize min_docs doc_freq [] = []
  drop_lines normalize min_docs doc_freq (none ∷ texts) =
      none ∷ drop_lines normalize min_docs doc_freq texts
  drop_lines normalize min_docs doc_freq (some [] ∷ texts) =
      some [] ∷ drop_lines normalize min_docs doc_freq texts
  drop_lines normalize min_docs doc_freq (some (c ∷ txt) ∷ texts) =
      some (join newline (rare_lines normalize min_docs doc_freq (splitlines abc (c ∷ txt))))
      ∷ drop_lines normalize min_docs doc_freq texts

  unfoldable pub corpus_line_dedup : Bool → ℕ → List (Option Text) → List (Option Text)
  unfolding document_frequency drop_lines
  corpus_line_dedup normalize min_docs texts =
      drop_lines normalize min_docs (document_frequency normalize texts []) texts

-- ===== src/Tests/Texts.antt =====
-- Line filters and substring deduplication on small texts; a token's hash is its first character.
use jude.Prelude.{
  ℕ, ◌≡◌, ◌↔◌, refl, arith, true, ◌||◌, ◌==◌, Option, some, none, List, [], ◌∷◌, map, Memᴰ, lookup,
  insert, append_to,
}
use jude.Texts.{Text, Alphabet, splitlines, split, lower, strip, join}
use jude.Lines.{c4_line_filter, corpus_line_dedup}
use jude.Lines.Frequency.{cleaned, corpus_line_dedup-cleaned}
use jude.Dedup.Shuffle.{push, gather}
use jude.Dedup.Substring.{
  Window, roll_in, window_hashes, substring_dedup, dist_substring_dedup,
  curate_substring_dups_bucket,
}
use jude.Dedup.Substring.Duplicates.{window, Repeats, curate_substring_dups_bucket-Repeats}
use jude.Dedup.Substring.Windows.{slices, window_hashes-slices}

abbrev pub ascii : Alphabet
ascii = record {
  is_space = λ c. (c == b' ') || (c == b'\n');
  is_break = λ c. (c == b'\n') || (c == b'\r');
  lower_case = λ s. s;
}

abbrev first_char : Text → ℕ
first_char [] = 0
first_char (c ∷ s) = c

lines_kept :
    splitlines ascii (b'a' ∷ b'\r' ∷ b'\n' ∷ b'\n' ∷ b'b' ∷ [])
    ≡ (b'a' ∷ []) ∷ [] ∷ (b'b' ∷ []) ∷ []
unfolding splitlines
lines_kept = refl

-- Two texts with the line `a`, one of them twice, and `b` only in the first.
abbrev pub pages : List (Option Text)
pages =
    some (b'a' ∷ b'\n' ∷ b'b' ∷ b'\n' ∷ b'a' ∷ []) ∷ none ∷ some (b'a' ∷ b' ' ∷ []) ∷ some [] ∷ []

pages_cleaned :
    corpus_line_dedup ascii true 2 pages ≡ some (b'b' ∷ []) ∷ none ∷ some [] ∷ some [] ∷ []
unfolding corpus_line_dedup splitlines lower strip join lookup insert
pages_cleaned = refl

prose :
    c4_line_filter ascii 2 true ((b'.' ∷ []) ∷ []) ((b'x' ∷ []) ∷ []) (
      some (b'a' ∷ b' ' ∷ b'b' ∷ b'.' ∷ b'\n' ∷ b'c' ∷ b'.' ∷ b'\n' ∷ b'x' ∷ b' ' ∷ b'.' ∷ []) ∷ [])
    ≡ some (b'a' ∷ b' ' ∷ b'b' ∷ b'.' ∷ []) ∷ []
unfolding c4_line_filter splitlines strip split lower join
prose = refl

corpus_line_dedup-cleaned_example :
    corpus_line_dedup ascii true 2 pages ≡ map (cleaned ascii true 2 pages) pages
corpus_line_dedup-cleaned_example = corpus_line_dedup-cleaned ascii true 2 pages

abbrev tokens : List Text
tokens = (b'a' ∷ []) ∷ (b'b' ∷ []) ∷ (b'c' ∷ []) ∷ []

window_hashes-slices_example :
    window_hashes ascii first_char 2 tokens ≡ map (roll_in 0) (slices 2 (map first_char tokens))
window_hashes-slices_example = window_hashes-slices ascii first_char 2 (omega arith) tokens

-- `a b c` and `x a b`: the second `a b` is dropped.
abbrev documents : List (Option Text)
documents =
    some (b'a' ∷ b' ' ∷ b'b' ∷ b' ' ∷ b'c' ∷ []) ∷ some (b'x' ∷ b' ' ∷ b'a' ∷ b' ' ∷ b'b' ∷ []) ∷ []

deduplicated :
    substring_dedup ascii first_char 2 documents
    ≡ some (b'a' ∷ b' ' ∷ b'b' ∷ b' ' ∷ b'c' ∷ []) ∷ some (b'x' ∷ []) ∷ []
unfolding substring_dedup split join
deduplicated = refl

deduplicated_in_buckets :
    dist_substring_dedup ascii first_char 2 3 (map (λ d. d ∷ []) documents)
    ≡ some (b'a' ∷ b' ' ∷ b'b' ∷ b' ' ∷ b'c' ∷ []) ∷ some (b'x' ∷ []) ∷ []
unfolding dist_substring_dedup split join push gather append_to lookup
deduplicated_in_buckets = refl

-- Three windows, of which two have one hash; the earlier of these comes last.
abbrev windows_of_two : List Window
windows_of_two = window 7 (1, 0) ∷ window 9 (0, 1) ∷ window 7 (0, 2) ∷ []

reported : curate_substring_dups_bucket windows_of_two ≡ (1, 0) ∷ []
unfolding curate_substring_dups_bucket append_to
reported = refl

curate_substring_dups_bucket-Repeats_example :
    Memᴰ (1, 0) (curate_substring_dups_bucket windows_of_two) ↔ Repeats windows_of_two (1, 0)
curate_substring_dups_bucket-Repeats_example =
    curate_substring_dups_bucket-Repeats windows_of_two (1, 0)

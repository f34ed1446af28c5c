-- ===== src/Dedup/Substring.antt =====
-- Exact-substring deduplication: `window_hashes` and `substring_dedup` of python/jude/curate.py, and
-- the distributed form, `dist_substring_dedup` of python/jude/curate_dist.py with its producer
-- `curate_substring_windows` and its reducer `curate_substring_dups_bucket` of
-- python/jude/runners/_ray_shim.py. The token hash (BLAKE2b, reduced modulo 2 ^ 61 - 1) is an
-- argument. A column of texts is a list, `none` for a null. The code is read for `k` of at least 1.
pub mod Windows
pub mod Duplicates
use jude.Prelude.{
  ℕ, zero, suc, ◌+◌, ◌-◌, ◌*◌, ◌%◌, ◌^◌, min, Bool, true, false, not, ◌&&◌, ◌||◌, Option, none,
  some, List, [], ◌∷◌, ◌++◌, map, length, take, drop, set, replicate, concat, if◌then◌else◌, ltb,
  ◌==◌, contains, Dict, lookup, append_to, nat_eq, pair_eq, ◌=?◌,
}
use jude.Texts.{Text, Alphabet, split, join}
use jude.Dedup.Shuffle.{push, no_rows, gather}

-- _MOD_61
abbrev pub mod_61 : ℕ
mod_61 = 0x1FFFFFFFFFFFFFFF

-- _POLY_B
abbrev pub poly_b : ℕ
poly_b = 1_000_003

-- `for j in range(k): h = (h * _POLY_B + th[j]) % _MOD_61`
unfoldable pub roll_in : ℕ → List ℕ → ℕ
roll_in h [] = h
roll_in h (t ∷ th) = roll_in ((h * poly_b + t) % mod_61) th

-- One step of the window, from the hash `h` to the one without `old` and with `new`; `%` of a
-- negative number is not negative.
unfoldable pub roll : ℕ → ℕ → ℕ → ℕ → ℕ
roll bk h old new = ((h + (mod_61 - old * bk % mod_61)) * poly_b + new) % mod_61

-- The loop over `i`: the tokens that leave, `th[i - 1]`, and those that enter, `th[i + k - 1]`.
unfoldable pub roll_on : ℕ → ℕ → List ℕ → List ℕ → List ℕ
unfolding roll
roll_on bk h olds [] = h ∷ []
roll_on bk h [] (new ∷ news) = h ∷ []
roll_on bk h (old ∷ olds) (new ∷ news) = h ∷ roll_on bk (roll bk h old new) olds news

-- `for j in range(i, i + count): flags[j] = True`
unfoldable pub mark : ℕ → ℕ → List Bool → List Bool
mark i zero flags = flags
mark i (suc count) flags = mark (suc i) count (set flags i true)

-- `[toks[i] for i in range(n) if not dup[i]]`
unfoldable pub unmarked : {A : Type 0} → List A → List Bool → List A
unmarked [] flags = []
unmarked (tok ∷ toks) [] = []
unmarked (tok ∷ toks) (flag ∷ flags) =
    let rest = unmarked toks flags in if flag then rest else tok ∷ rest

-- A window: its document, where it starts, and its hash.
pub record Window : Type 0 where
  pub h : ℕ
  pub doc : ℕ
  pub pos : ℕ

-- `(d, p) < (e, q)`
unfoldable pub earlier : ℕ × ℕ → ℕ × ℕ → Bool
earlier (d, p) (e, q) = ltb d e || ((d == e) && ltb p q)

-- `min(occs)`, of `best` and the others.
unfoldable pub earliest : ℕ × ℕ → List (ℕ × ℕ) → ℕ × ℕ
unfolding earlier
earliest best [] = best
earliest best (occ ∷ occs) = earliest (if earlier occ best then occ else best) occs

-- `for d, p in occs: if (d, p) != keeper`
unfoldable pub others : ℕ × ℕ → List (ℕ × ℕ) → List (ℕ × ℕ)
others keeper [] = []
others keeper (occ ∷ occs) =
    let rest = others keeper occs in if occ =? keeper then rest else occ ∷ rest

-- The body of `for occs in by_hash.values()`.
unfoldable pub duplicates_of : List (ℕ × ℕ) → List (ℕ × ℕ)
unfolding earliest others
duplicates_of [] = []
duplicates_of (occ ∷ []) = []
duplicates_of (occ ∷ occ' ∷ occs) = others (earliest occ (occ' ∷ occs)) (occ ∷ occ' ∷ occs)

unfoldable pub all_duplicates : Dict ℕ (List (ℕ × ℕ)) → List (ℕ × ℕ)
unfolding duplicates_of
all_duplicates [] = []
all_duplicates ((hash, occs) ∷ by_hash) = duplicates_of occs ++ all_duplicates by_hash

-- `by_hash.setdefault(h, []).append((d, p))`
unfoldable pub group_windows : List Window → Dict ℕ (List (ℕ × ℕ)) → Dict ℕ (List (ℕ × ℕ))
group_windows [] by_hash = by_hash
group_windows (win ∷ wins) by_hash = group_windows wins (append_to win.h (win.doc, win.pos) by_hash)

unfoldable pub curate_substring_dups_bucket : List Window → List (ℕ × ℕ)
unfolding group_windows all_duplicates
curate_substring_dups_bucket merged = all_duplicates (group_windows merged [])

-- `dup_pos.setdefault(d, []).append(p)`
unfoldable pub group_starts : List (ℕ × ℕ) → Dict ℕ (List ℕ) → Dict ℕ (List ℕ)
group_starts [] dup_pos = dup_pos
group_starts ((d, p) ∷ dups) dup_pos = group_starts dups (append_to d p dup_pos)

-- `for s in starts: for j in range(s, min(s + k, n)): drop[j] = True`
unfoldable pub mark_starts : ℕ → ℕ → List ℕ → List Bool → List Bool
unfolding mark
mark_starts k n [] flags = flags
mark_starts k n (s ∷ starts) flags = mark_starts k n starts (mark s (min (s + k) n - s) flags)

module _ (abc : Alphabet) (token_hash : Text → ℕ) (k : ℕ) where
  unfoldable pub window_hashes : List Text → List ℕ
  unfolding roll_in roll_on
  window_hashes tokens =
      let th = map token_hash tokens in
      if ltb (length tokens) k
      then []
      else roll_on (poly_b ^ (k - 1) % mod_61) (roll_in 0 (take k th)) th (drop k th)

  -- `for i, h in enumerate(window_hashes(toks, k))`, with `seen` and `dup`.
  unfoldable pub scan : ℕ → List ℕ → List ℕ → List Bool → List ℕ × List Bool
  unfolding mark
  scan i [] seen dup = (seen, dup)
  scan i (h ∷ hs) seen dup =
      scan (suc i) hs (if contains h seen then seen else h ∷ seen)
        (if contains h seen then mark i k dup else dup)

  abbrev space : Text
  space = b' ' ∷ []

  -- One text, with the hashes seen so far.
  unfoldable pub dedup_text : Text → List ℕ → List ℕ × Text
  unfolding window_hashes scan unmarked join split
  dedup_text txt seen =
      let toks = split abc txt in
      let n = length toks in
      let (seen', dup) = scan 0 (window_hashes toks) seen (replicate n false) in
      if ltb n k then (seen, txt) else (seen', join space (unmarked toks dup))

  unfoldable pub dedup_texts : List (Option Text) → List ℕ → List (Option Text)
  unfolding dedup_text
  dedup_texts [] seen = []
  dedup_texts (none ∷ texts) seen = none ∷ dedup_texts texts seen
  dedup_texts (some [] ∷ texts) seen = some [] ∷ dedup_texts texts seen
  dedup_texts (some (c ∷ txt) ∷ texts) seen =
      let (seen', out) = dedup_text (c ∷ txt) seen in some out ∷ dedup_texts texts seen'

  unfoldable pub substring_dedup : List (Option Text) → List (Option Text)
  unfolding dedup_texts
  substring_dedup texts = dedup_texts texts []

  -- `(txt or "").split()`
  unfoldable pub tokens_of : Option Text → List Text
  unfolding split
  tokens_of none = []
  tokens_of (some txt) = split abc txt

  -- `for pos, h in enumerate(...)`: a window goes to the bucket of its hash.
  unfoldable pub route_windows : ℕ → ℕ → ℕ → List ℕ → List (List Window) → List (List Window)
  route_windows num_buckets doc pos [] buckets = buckets
  route_windows num_buckets doc pos (h ∷ hs) buckets =
      route_windows num_buckets doc (suc pos) hs
        (push (h % num_buckets) (record { h = h; doc = doc; pos = pos }) buckets)

  unfoldable pub route_texts : ℕ → ℕ → List (Option Text) → List (List Window) → List (List Window)
  unfolding route_windows window_hashes tokens_of
  route_texts num_buckets doc [] buckets = buckets
  route_texts num_buckets doc (txt ∷ texts) buckets =
      route_texts num_buckets (suc doc) texts
        (route_windows num_buckets doc 0 (window_hashes (tokens_of txt)) buckets)

  unfoldable pub curate_substring_windows : List (Option Text) → ℕ → ℕ → List (List Window)
  unfolding route_texts no_rows
  curate_substring_windows texts num_buckets row_offset =
      route_texts num_buckets row_offset texts (no_rows num_buckets)

  -- `refs`, with the offsets of the parts.
  unfoldable pub produce_windows : ℕ → ℕ → List (List (Option Text)) → List (List (List Window))
  unfolding curate_substring_windows
  produce_windows num_buckets offset [] = []
  produce_windows num_buckets offset (part ∷ parts) =
      curate_substring_windows part num_buckets offset
      ∷ produce_windows num_buckets (offset + length part) parts

  -- The duplicate window starts of the buckets `bkt`, `bkt + 1` and so on.
  unfoldable pub bucket_dups : ℕ → ℕ → List (List (List Window)) → List (ℕ × ℕ)
  unfolding curate_substring_dups_bucket gather
  bucket_dups bkt zero refs = []
  bucket_dups bkt (suc count) refs =
      curate_substring_dups_bucket (gather bkt refs) ++ bucket_dups (suc bkt) count refs

  -- One text of the result, given the duplicate starts of its row.
  unfoldable pub drop_starts : Option (List ℕ) → Option Text → Option Text
  unfolding mark_starts unmarked join split
  drop_starts starts none = none
  drop_starts starts (some []) = some []
  drop_starts none (some (c ∷ txt)) = some (c ∷ txt)
  drop_starts (some []) (some (c ∷ txt)) = some (c ∷ txt)
  drop_starts (some (s ∷ starts)) (some (c ∷ txt)) =
      let toks = split abc (c ∷ txt) in
      let n = length toks in
      some (join space (unmarked toks (mark_starts k n (s ∷ starts) (replicate n false))))

  unfoldable pub drop_rows : ℕ → Dict ℕ (List ℕ) → List (Option Text) → List (Option Text)
  unfolding drop_starts
  drop_rows i dup_pos [] = []
  drop_rows i dup_pos (txt ∷ texts) =
      drop_starts (lookup i dup_pos) txt ∷ drop_rows (suc i) dup_pos texts

  unfoldable pub dist_substring_dedup : ℕ → List (List (Option Text)) → List (Option Text)
  unfolding produce_windows bucket_dups group_starts drop_rows
  dist_substring_dedup b parts =
      elim (group_starts (bucket_dups 0 b (produce_windows b 0 parts)) []) [
        | [] ↦ concat parts
        | entry ∷ entries ↦ drop_rows 0 (entry ∷ entries) (concat parts)
      ]

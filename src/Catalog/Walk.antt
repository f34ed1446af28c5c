-- ===== src/Catalog/Walk.antt =====
-- `discover` of python/jude/catalog.py: the walk over a tree of directories, and the registration of
-- the tables that it finds.
use jude.Prelude.{
  Bool, Option, none, some, List, [], ◌∷◌, ◌++◌, if◌then◌else◌, ◌==◌, list_eq, nat_eq, length, ◌-◌,
  take,
}
use jude.Texts.{Text, has_suffix}
use jude.Catalog.{
  Answer, FileSystem, Forest, Format, Store, Tree, detect_format, format_name, join_path, register,
  ok, raised, node, leaf, plant, lance, iceberg, hive, parquet, ◌>>=◌,
}

module _ (fs : FileSystem) where
  -- The name of a table at `rel`, the path from the root with dots for slashes.
  unfoldable pub dotted : Text → Text
  dotted [] = []
  dotted (c ∷ s) = (if c == b'/' then b'.' else c) ∷ dotted s

  -- `s.rstrip(".")`
  unfoldable pub strip_dots : Text → Text
  strip_dots [] = []
  strip_dots (c ∷ s) = elim (strip_dots s) [
    | [] ↦ if c == b'.' then [] else c ∷ []
    | d ∷ t ↦ c ∷ d ∷ t
  ]

  -- `s.lstrip(".")`
  unfoldable pub drop_dots : Text → Text
  drop_dots [] = []
  drop_dots (c ∷ s) = let rest = drop_dots s in if c == b'.' then rest else c ∷ s

  -- `f"{namespace}.{base}" if namespace else base`
  unfoldable pub qualified : Text → Text → Text
  qualified [] base = base
  qualified (c ∷ namespace) base = (c ∷ namespace) ++ b'.' ∷ base

  -- `base or os.path.basename(dirpath)`
  unfoldable pub or_basename : Text → Text → Text
  or_basename [] dirpath = fs.basename dirpath
  or_basename (c ∷ base) dirpath = c ∷ base

  unfoldable pub table_name : Text → Text → Text → Text
  unfolding qualified or_basename strip_dots drop_dots dotted
  table_name root [] dirpath =
      or_basename (drop_dots (strip_dots (dotted (fs.relpath dirpath root)))) dirpath
  table_name root (c ∷ namespace) dirpath =
      qualified (c ∷ namespace) (drop_dots (strip_dots (dotted (fs.relpath dirpath root))))

  -- `s.rsplit(".parquet", 1)[0]` of a name that ends so.
  unfoldable pub without_suffix : Text → Text
  without_suffix s = take (length s - 8) s

  -- The entries of the loose parquet files of a directory.
  unfoldable pub loose_files : Text → Text → Text → List Text → List (Text × Text × Format)
  unfolding qualified without_suffix dotted has_suffix join_path
  loose_files root namespace dirpath [] = []
  loose_files root namespace dirpath (f ∷ filenames) =
      let rest = loose_files root namespace dirpath filenames in
      let fp = join_path dirpath f in
      if has_suffix (b'.' ∷ b'p' ∷ b'a' ∷ b'r' ∷ b'q' ∷ b'u' ∷ b'e' ∷ b't' ∷ []) f
      then (qualified namespace (without_suffix (dotted (fs.relpath fp root))), fp, parquet) ∷ rest
      else rest

  -- `fmt in ("lance", "iceberg", "hive")`: the path that is registered for the directory.
  unfoldable pub table_path : Text → Option Format → Option (Text × Format)
  unfolding join_path
  table_path dirpath (some lance) = some (dirpath, lance)
  table_path dirpath (some iceberg) = some (dirpath, iceberg)
  table_path dirpath (some hive) = some (
    join_path (join_path dirpath (b'*' ∷ b'*' ∷ []))
        (b'*' ∷ b'.' ∷ b'p' ∷ b'a' ∷ b'r' ∷ b'q' ∷ b'u' ∷ b'e' ∷ b't' ∷ []),
    hive,
  )
  table_path dirpath fmt = none

  -- `found`: a detected table hides what is below it.
  unfoldable mutual
    unfolding detect_format table_name loose_files table_path

    pub find_tables : Text → Text → Tree → Answer (List (Text × Text × Format))
    find_tables root namespace (node dirpath filenames dirs) =
        let below = find_all_tables root namespace dirs in
        do
          fmt ← detect_format fs dirpath
          elim (table_path dirpath fmt) [
            | some (path, table_format) ↦
                ok ((table_name root namespace dirpath, path, table_format) ∷ [])
            | none ↦ do found ← below; ok (loose_files root namespace dirpath filenames ++ found)
          ]

    pub find_all_tables : Text → Text → Forest → Answer (List (Text × Text × Format))
    find_all_tables root namespace leaf = ok []
    find_all_tables root namespace (plant tree dirs) =
        let rest = find_all_tables root namespace dirs in
        do found ← find_tables root namespace tree; others ← rest; ok (found ++ others)

  -- `for e in found: self.register(e["name"], e["path"], e["format"])`
  unfoldable pub register_all : List (Text × Text × Format) → Store → Answer Unit × Store
  unfolding register
  register_all [] store = (ok tt, store)
  register_all ((name, path, fmt) ∷ found) store =
      let (answer, after) = register fs name path (some (format_name fmt)) none [] store in
      elim answer [ raised e ↦ (raised e, after) | ok entry ↦ register_all found after ]

  -- The second half of `discover`.
  unfoldable pub register_found :
      List (Text × Text × Format) → Bool → Store → Answer (List (Text × Text × Format)) × Store
  unfolding register_all
  register_found found to_register store =
      let (answer, after) = register_all found store in
      if to_register
      then (elim answer [ raised e ↦ raised e | ok done ↦ ok found ], after)
      else (ok found, store)

  unfoldable pub discover :
      Text → Text → Bool → Tree → Store → Answer (List (Text × Text × Format)) × Store
  unfolding find_tables register_found
  discover root namespace to_register tree store = elim (find_tables root namespace tree) [
    | raised e ↦ (raised e, store)
    | ok found ↦ register_found found to_register store
  ]

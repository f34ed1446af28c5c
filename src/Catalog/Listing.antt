-- ===== src/Catalog/Listing.antt =====
-- `list`, `tables`, `validate` and `read` of python/jude/catalog.py.
use jude.Prelude.{
  Bool, true, false, ◌&&◌, ◌||◌, none, some, List, [], ◌∷◌, map, if◌then◌else◌, ◌==◌, Dict, lookup,
  list_eq, nat_eq, ltb,
}
use jude.Texts.{Text}
use jude.Catalog.{
  Answer, Entry, FileSystem, Format, Store, get, glob_root, load_store, ok, raised, lance, iceberg,
  hive, parquet, csv,
}

module _ (fs : FileSystem) where
  -- The path whose existence `validate` asks for.
  unfoldable pub checked_path : Entry → Text
  unfolding glob_root
  checked_path e = elim e.format [ hive ↦ glob_root e.path | _ ↦ e.path ]

-- whether a name stands before or at another, as strings compare.
unfoldable pub text_le : Text → Text → Bool
text_le [] t = true
text_le (c ∷ s) [] = false
text_le (c ∷ s) (d ∷ t) = ltb c d || ((c == d) && text_le s t)

-- `sorted`
unfoldable pub insert_name : Text → List Text → List Text
unfolding text_le
insert_name n [] = n ∷ []
insert_name n (m ∷ ns) = if text_le n m then n ∷ m ∷ ns else m ∷ insert_name n ns

unfoldable pub sort_names : List Text → List Text
unfolding insert_name
sort_names [] = []
sort_names (n ∷ ns) = insert_name n (sort_names ns)

unfoldable pub list_tables : Store → List Text
unfolding sort_names load_store
list_tables store = sort_names (map (λ (p : Text × Entry). p.0) (load_store store))

-- `[d[n] for n in sorted(d)]`
unfoldable pub entries_at : List Text → Dict Text Entry → List Entry
entries_at [] d = []
entries_at (n ∷ ns) d = elim (lookup n d) [ none ↦ entries_at ns d | some e ↦ e ∷ entries_at ns d ]

unfoldable pub tables : Store → List Entry
unfolding list_tables entries_at
tables store = entries_at (list_tables store) (load_store store)

-- The names and paths that `validate` reports.
unfoldable pub missing_of : FileSystem → List Entry → List (Text × Text)
unfolding checked_path
missing_of fs [] = []
missing_of fs (e ∷ es) =
    let rest = missing_of fs es in
    if fs.exists (checked_path fs e) then rest else (e.name, e.path) ∷ rest

unfoldable pub validate : FileSystem → Store → List (Text × Text)
unfolding tables missing_of
validate fs store = missing_of fs (tables store)

-- Which reader `read` calls on the path.
pub data Reader : Type 0 where
  read_lance : Text → Reader
  read_iceberg : Text → Reader
  read_hive : Text → Reader
  read_parquet : Text → Reader
  read_csv : Text → Reader

unfoldable pub reader_of : Format → Text → Reader
reader_of lance path = read_lance path
reader_of iceberg path = read_iceberg path
reader_of hive path = read_hive path
reader_of parquet path = read_parquet path
reader_of csv path = read_csv path

unfoldable pub read : Text → Store → Answer Reader
unfolding get reader_of
read name store = elim (get name store) [
  | ok e ↦ ok (reader_of e.format e.path)
  | raised e ↦ raised e
]

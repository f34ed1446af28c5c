-- ===== src/Tests/Catalog.antt =====
-- A warehouse `w` with a Lance table `w/d.lance` and a loose file `w/p.parquet`.
use jude.Prelude.{
  ◌≡◌, ◌≢◌, ◌↔◌, refl, false, some, none, [], ◌∷◌, ◌=?◌, ◌||◌, if◌then◌else◌, drop, length, ◌+◌,
  list_eq, nat_eq,
}
use jude.Texts.{Text}
use jude.Catalog.{
  lance, parquet, hive, ok, raised, key_error, os_error, format_name, Store, FileSystem, Tree, node,
  leaf, plant, register, drop_table, get,
}
use jude.Catalog.Walk.{discover}
use jude.Catalog.Listing.{list_tables}
use jude.Catalog.Entries.{drop_table-get}
use jude.Catalog.Registration.{Registers, register-Registers}
use jude.Catalog.Discovery.{last_named}

abbrev w : Text
w = b'w' ∷ []

abbrev lance_dir : Text
lance_dir = b'w' ∷ b'/' ∷ b'd' ∷ b'.' ∷ b'l' ∷ b'a' ∷ b'n' ∷ b'c' ∷ b'e' ∷ []

abbrev file : Text
file = b'p' ∷ b'.' ∷ b'p' ∷ b'a' ∷ b'r' ∷ b'q' ∷ b'u' ∷ b'e' ∷ b't' ∷ []

abbrev disk : FileSystem
disk = record {
  is_dir = λ p. (p =? w) || (p =? lance_dir);
  exists = λ p. (p =? w);
  listdir = λ p. if (p =? w) || (p =? lance_dir) then some [] else none;
  has_parquet = λ p. false;
  relpath = λ p root. drop (length root + 1) p;
  basename = λ p. p;
}

abbrev tree : Tree
tree = node w (file ∷ []) (plant (node lance_dir [] leaf) leaf)

found_tables :
    (discover disk w [] false tree none).0
    ≡ ok ((b'p' ∷ [], b'w' ∷ b'/' ∷ file, parquet) ∷ (drop 2 lance_dir, lance_dir, lance) ∷ [])
unfolding discover
found_tables = refl

abbrev one_table : Store
one_table =
    some (
      (w, record { name = w; path = w; format = lance; partition_columns = none; props = [] }) ∷ [])

register-Registers_example :
    Registers disk file file none none [] one_table (register disk file file none none [] one_table)
register-Registers_example = register-Registers disk file file none none [] one_table

-- The keys of a Hive layout that is not there cannot be read.
missing_layout :
    register disk w file (some (format_name hive)) none [] one_table ≡ (raised os_error, one_table)
unfolding register
missing_layout = refl

drop_table-get_example :
    (get w (drop_table w one_table).1 ≡ raised key_error)
    × ((other : Text) → w ≢ other → get other (drop_table w one_table).1 ≡ get other one_table)
    × (((drop_table w one_table).0 ≡ false) ↔ (get w one_table ≡ raised key_error))
    × ((drop_table w one_table).0 ≡ false → (drop_table w one_table).1 ≡ one_table)
drop_table-get_example = drop_table-get w one_table

-- The files `a.b.parquet` and `a/b.parquet` are two tables of one name; the catalog keeps the last.
abbrev table_suffix : Text
table_suffix = b'.' ∷ b'p' ∷ b'a' ∷ b'r' ∷ b'q' ∷ b'u' ∷ b'e' ∷ b't' ∷ []

abbrev two_of_one_name : Tree
two_of_one_name =
    node w ((b'a' ∷ b'.' ∷ b'b' ∷ table_suffix) ∷ [])
      (plant (node (b'w' ∷ b'/' ∷ b'a' ∷ []) ((b'b' ∷ table_suffix) ∷ []) leaf) leaf)

overridden :
    last_named
      (b'a' ∷ b'.' ∷ b'b' ∷ [])
      (elim (discover disk w [] false two_of_one_name none).0 [ ok found ↦ found | raised e ↦ [] ])
    ≡ some (b'w' ∷ b'/' ∷ b'a' ∷ b'/' ∷ b'b' ∷ table_suffix, parquet)
unfolding discover
overridden = refl

sorted_names :
    list_tables (
      some (
        (
          file,
          record { name = file; path = w; format = lance; partition_columns = none; props = [] },
        )
        ∷ (
          b'a' ∷ [],
          record { name = w; path = w; format = lance; partition_columns = none; props = [] },
        )
        ∷ []))
    ≡ (b'a' ∷ []) ∷ file ∷ []
unfolding list_tables
sorted_names = refl

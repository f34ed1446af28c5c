-- ===== src/Catalog/Discovery.antt =====
-- What `discover` of python/jude/catalog.py leaves in the catalog.
use jude.Prelude.{
  ◌≡◌, Option, none, some, List, [], ◌∷◌, ◌++◌, list_eq, nat_eq, ◌=?◌, ◌⊎◌, if◌then◌else◌,
}
use jude.Texts.{Text}
use jude.Catalog.{Format, Entry, Answer, ok, raised, Store, FileSystem, get, Tree}
use jude.Catalog.Walk.{find_tables}

abbrev pub Table : Type 0
Table = Text × Text × Format

-- The path and format of the last of the tables that has the name.
abbrev pub last_named : Text → List Table → Option (Text × Format)
last_named name [] = none
last_named name ((other, path, fmt) ∷ found) = elim (last_named name found) [
  | some t ↦ some t
  | none ↦ if other =? name then some (path, fmt) else none
]

-- After the tables are registered, a name has the last table of that name, or what it had.
abbrev pub Has : Text → Store → Store → Option (Text × Format) → Type 0
Has name before after none = get name after ≡ get name before
Has name before after (some (path, fmt)) =
    (entry : Entry) × (get name after ≡ ok entry)
    × (entry.name ≡ name)
    × (entry.path ≡ path)
    × (entry.format ≡ fmt)

module _ (fs : FileSystem) where
  -- The outcome of `discover` while it registers. It answers the tables that it found, and each name
  -- has the last table of that name; or it raises, in the walk, which changes nothing, or at a table,
  -- when those before it are registered.
  abbrev pub Discovers : Text → Text → Tree → Store → Answer (List Table) × Store → Type 0
  Discovers root namespace tree store (ok found, after) =
      (find_tables fs root namespace tree ≡ ok found)
      × ((name : Text) → Has name store after (last_named name found))
  Discovers root namespace tree store (raised e, after) =
      ((find_tables fs root namespace tree ≡ raised e) × (after ≡ store))
      ⊎ ((done rest : List Table) × (find_tables fs root namespace tree ≡ ok (done ++ rest))
          × ((name : Text) → Has name store after (last_named name done)))

  -- The outcome of the loop over the tables.
  abbrev Registered : List Table → Store → Answer Unit × Store → Type 0
  Registered found store (ok u, after) =
      (name : Text) → Has name store after (last_named name found)
  Registered found store (raised e, after) =
      (done rest : List Table) × (found ≡ done ++ rest)
      × ((name : Text) → Has name store after (last_named name done))

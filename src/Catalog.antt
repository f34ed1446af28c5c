-- ===== src/Catalog.antt =====
-- python/jude/catalog.py: the registry of datasets. The file system is given by what the code asks
-- of it, and `os.walk` walks a tree of directories. The JSON file is its content, `none` where it is
-- missing or does not parse. A text is the list of its characters; an entry has the three fixed keys, the
-- partition columns of a Hive layout and further properties.
pub mod Walk
pub mod Listing
pub mod Entries
pub mod Registration
pub mod Discovery
use jude.Prelude.{
  ℕ, zero, suc, Bool, true, false, not, ◌&&◌, ◌||◌, Option, none, some, List, [], ◌∷◌, ◌++◌, map,
  if◌then◌else◌, ◌==◌, Dict, lookup, insert, remove, list_eq, nat_eq, contains, leb, ltb, ◌=?◌,
  get_default, length, ◌-◌, drop, take, ◌+◌,
}
use jude.Texts.{Text, has_suffix, any_of}

-- The members of `_FORMATS`.
pub data Format : Type 0 where
  lance : Format
  iceberg : Format
  hive : Format
  parquet : Format
  csv : Format

pub record Entry : Type 0 where
  pub name : Text
  pub path : Text
  pub format : Format
  pub partition_columns : Option (List Text)
  pub props : Dict Text Text

-- What a call raises; an os_error is any exception of the file system.
pub data Error : Type 0 where
  value_error : Error
  key_error : Error
  os_error : Error

-- What a call answers: a value, or the error that it raises.
pub data Answer (A : Type 0) : Type 0 where
  ok : A → Answer A
  raised : Error → Answer A

-- A call that goes on with what another one answers.
abbrev pub ◌>>=◌ : {A B : Type 0} → Answer A → (A → Answer B) → Answer B
ok a >>= f = f a
raised e >>= f = raised e

infixl 1 ◌>>=◌
-- The content of the JSON file.
abbrev pub Store : Type 0
Store = Option (Dict Text Entry)

-- `_load`
unfoldable pub load_store : Store → Dict Text Entry
load_store store = get_default store []

-- `s.split(c, 1)[0]`
unfoldable pub text_before : ℕ → Text → Text
text_before c [] = []
text_before c (d ∷ s) = if d == c then [] else d ∷ text_before c s

-- `s.rstrip("/")`
unfoldable pub strip_slashes : Text → Text
strip_slashes [] = []
strip_slashes (c ∷ s) = elim (strip_slashes s) [
  | [] ↦ if c == b'/' then [] else c ∷ []
  | d ∷ t ↦ c ∷ d ∷ t
]

-- `path.split("*", 1)[0].rstrip("/")`
unfoldable pub glob_root : Text → Text
unfolding text_before strip_slashes
glob_root path = strip_slashes (text_before b'*' path)

-- os.path.join, of a directory and a name that does not begin with a slash.
unfoldable pub join_path : Text → Text → Text
unfolding has_suffix
join_path [] name = name
join_path (c ∷ d) name =
    if has_suffix (b'/' ∷ []) (c ∷ d) then (c ∷ d) ++ name else (c ∷ d) ++ b'/' ∷ name

pub record FileSystem : Type 0 where
  pub is_dir : Text → Bool
  pub exists : Text → Bool
  -- `none` where os.listdir raises
  pub listdir : Text → Option (List Text)
  pub has_parquet : Text → Bool
  pub relpath : Text → Text → Text
  pub basename : Text → Text

abbrev lance_name : Text
lance_name = b'l' ∷ b'a' ∷ b'n' ∷ b'c' ∷ b'e' ∷ []

abbrev iceberg_name : Text
iceberg_name = b'i' ∷ b'c' ∷ b'e' ∷ b'b' ∷ b'e' ∷ b'r' ∷ b'g' ∷ []

abbrev hive_name : Text
hive_name = b'h' ∷ b'i' ∷ b'v' ∷ b'e' ∷ []

abbrev parquet_name : Text
parquet_name = b'p' ∷ b'a' ∷ b'r' ∷ b'q' ∷ b'u' ∷ b'e' ∷ b't' ∷ []

abbrev csv_name : Text
csv_name = b'c' ∷ b's' ∷ b'v' ∷ []

abbrev pub format_name : Format → Text
format_name lance = lance_name
format_name iceberg = iceberg_name
format_name hive = hive_name
format_name parquet = parquet_name
format_name csv = csv_name

-- `s.lower()`, on ASCII letters.
unfoldable pub lowercase : Text → Text
lowercase [] = []
lowercase (c ∷ s) = (if leb b'A' c && leb c b'Z' then c + 32 else c) ∷ lowercase s

-- The format of that name, if it is one of `_FORMATS`.
unfoldable pub format_of : Text → Option Format
format_of s =
    if s =? lance_name
    then some lance
    else if s =? iceberg_name
    then some iceberg
    else if s =? hive_name
    then some hive
    else if s =? parquet_name
    then some parquet
    else if s =? csv_name
    then some csv
    else none

unfoldable pub keep_if : (Text → Bool) → List Text → List Text
keep_if p [] = []
keep_if p (x ∷ xs) = let rest = keep_if p xs in if p x then x ∷ rest else rest

-- A directory as `os.walk` finds it: its path, its file names and its subdirectories.
mutual
  pub data Tree : Type 0 where
    node : Text → List Text → Forest → Tree

  pub data Forest : Type 0 where
    leaf : Forest
    plant : Tree → Forest → Forest

module _ (fs : FileSystem) where
  unfoldable pub is_lance : Text → Bool
  unfolding has_suffix join_path
  is_lance d =
      has_suffix (b'.' ∷ b'l' ∷ b'a' ∷ b'n' ∷ b'c' ∷ b'e' ∷ []) d
      || (fs.is_dir
            (join_path d (b'_' ∷ b'v' ∷ b'e' ∷ b'r' ∷ b's' ∷ b'i' ∷ b'o' ∷ b'n' ∷ b's' ∷ []))
          && fs.is_dir (join_path d (b'd' ∷ b'a' ∷ b't' ∷ b'a' ∷ [])))

  -- The names of an Iceberg metadata directory.
  unfoldable pub has_metadata : List Text → Bool
  unfolding has_suffix any_of
  has_metadata entries =
      any_of
        (has_suffix (
          b'.' ∷ b'm' ∷ b'e' ∷ b't' ∷ b'a' ∷ b'd' ∷ b'a' ∷ b't' ∷ b'a' ∷ b'.' ∷ b'j' ∷ b's' ∷ b'o'
          ∷ b'n' ∷ []))
        entries
      || contains
          (b'v' ∷ b'e' ∷ b'r' ∷ b's' ∷ b'i' ∷ b'o' ∷ b'n' ∷ b'-' ∷ b'h' ∷ b'i' ∷ b'n' ∷ b't' ∷ b'.'
            ∷ b't' ∷ b'e' ∷ b'x' ∷ b't' ∷ [])
          entries

  -- os.listdir
  unfoldable pub list_dir : Text → Answer (List Text)
  list_dir d = elim (fs.listdir d) [ none ↦ raised os_error | some names ↦ ok names ]

  unfoldable pub is_iceberg : Text → Answer Bool
  unfolding join_path has_metadata list_dir
  is_iceberg d =
      let meta = join_path d (b'm' ∷ b'e' ∷ b't' ∷ b'a' ∷ b'd' ∷ b'a' ∷ b't' ∷ b'a' ∷ []) in
      if fs.is_dir meta then (do entries ← list_dir meta; ok (has_metadata entries)) else ok false

  -- The loop of `_hive_partition_keys`, over `range(16)`.
  unfoldable pub descend : ℕ → Text → Answer (List Text)
  unfolding keep_if text_before join_path list_dir
  descend zero cur = ok []
  descend (suc rounds) cur = do
    names ← list_dir cur
    elim (keep_if (λ s. fs.is_dir (join_path cur s) && contains b'=' s) names) [
      | [] ↦ ok []
      | sub ∷ subs ↦ do keys ← descend rounds (join_path cur sub); ok (text_before b'=' sub ∷ keys)
    ]

  unfoldable pub hive_partition_keys : Text → Answer (List Text)
  unfolding descend
  hive_partition_keys d = descend 16 d

  -- What `detect_format` finds in a directory that is neither Lance nor Iceberg.
  unfoldable pub detect_files : Text → Answer (Option Format)
  unfolding hive_partition_keys
  detect_files path = do
    keys ← hive_partition_keys path
    ok (
        if ltb 0 (length keys)
        then some hive
        else if fs.has_parquet path
        then some parquet
        else none)

  unfoldable pub detect_directory : Text → Answer (Option Format)
  unfolding is_lance is_iceberg detect_files
  detect_directory path = if is_lance path then ok (some lance) else do
    iceberg_found ← is_iceberg path
    if iceberg_found then ok (some iceberg) else detect_files path

  unfoldable pub detect_format : Text → Answer (Option Format)
  unfolding detect_directory has_suffix
  detect_format path =
      if fs.is_dir path
      then detect_directory path
      else if has_suffix (b'.' ∷ b'p' ∷ b'a' ∷ b'r' ∷ b'q' ∷ b'u' ∷ b'e' ∷ b't' ∷ []) path
      then ok (some parquet)
      else if has_suffix (b'.' ∷ b'c' ∷ b's' ∷ b'v' ∷ []) path
          || has_suffix (b'.' ∷ b't' ∷ b's' ∷ b'v' ∷ []) path
      then ok (some csv)
      else ok none

  -- `(format or detect_format(path) or "").lower()`, looked up in `_FORMATS`.
  unfoldable pub chosen_format : Option Text → Text → Answer (Option Format)
  unfolding detect_format format_of lowercase
  chosen_format none path = detect_format path
  chosen_format (some []) path = detect_format path
  chosen_format (some (c ∷ s)) path = ok (format_of (lowercase (c ∷ s)))

  -- `entry`; `partition` is what the properties say of "partition_columns". The keys of a Hive
  -- layout are read also when the columns are given.
  unfoldable pub entry_of :
      Text → Text → Format → Option (List Text) → Dict Text Text → Answer Entry
  unfolding hive_partition_keys glob_root
  entry_of name path hive partition props = do
    keys ← hive_partition_keys (glob_root path)
    ok (record {
      name = name;
      path = path;
      format = hive;
      partition_columns = some (get_default partition keys);
      props = props;
    })
  entry_of name path fmt partition props = ok (record {
    name = name;
    path = path;
    format = fmt;
    partition_columns = partition;
    props = props;
  })

  unfoldable pub register :
      Text → Text → Option Text → Option (List Text) → Dict Text Text → Store → Answer Entry × Store
  unfolding chosen_format entry_of load_store
  register name path format partition props store = elim (chosen_format format path) [
    | raised e ↦ (raised e, store)
    | ok none ↦ (raised value_error, store)
    | ok (some fmt) ↦ elim (entry_of name path fmt partition props) [
      | raised e ↦ (raised e, store)
      | ok entry ↦ (ok entry, some (insert name entry (load_store store)))
    ]
  ]

unfoldable pub drop_table : Text → Store → Bool × Store
unfolding load_store
drop_table name store =
    let data_ = load_store store in
    elim (lookup name data_) [ none ↦ (false, store) | some e ↦ (true, some (remove name data_)) ]

unfoldable pub get : Text → Store → Answer Entry
unfolding load_store
get name store = elim (lookup name (load_store store)) [ none ↦ raised key_error | some e ↦ ok e ]

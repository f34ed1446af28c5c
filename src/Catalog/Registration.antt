-- ===== src/Catalog/Registration.antt =====
-- What `register` of python/jude/catalog.py makes of its arguments.
use jude.Prelude.{
  ◌≡◌, ◌≢◌, refl, sym, ap, false, Option, none, some, List, [], ◌∷◌, Dict, list_eq, nat_eq, ◌=?◌,
  =?_of_eq, eq_of_=?, Bool-cases, ◌⊎◌, inl, inr, subst, get_default,
}
use jude.Texts.{Text}
use jude.Catalog.{
  Format, lance, iceberg, hive, parquet, csv, Entry, Error, value_error, Answer, ok, raised, Store,
  FileSystem, detect_format, chosen_format, entry_of, register, format_name, get, format_of,
  lowercase, hive_partition_keys, glob_root,
}
use jude.Catalog.Entries.{get-insert_self, get-insert_ne}

-- The format that a name spells.
format_of-cases :
    (s : Text)
    → ((f : Format) × (format_of s ≡ some f) × (format_name f ≡ s))
      ⊎ ((format_of s ≡ none) × ((f : Format) → format_name f ≢ s))
unfolding format_of
format_of-cases s = elim (Bool-cases (s =? format_name lance)) [
  | inl y ↦ inl (lance, rw y refl, sym (eq_of_=? y))
  | inr n1 ↦ elim (Bool-cases (s =? format_name iceberg)) [
    | inl y ↦ inl (iceberg, rw n1 (rw y refl), sym (eq_of_=? y))
    | inr n2 ↦ elim (Bool-cases (s =? format_name hive)) [
      | inl y ↦ inl (hive, rw n1 (rw n2 (rw y refl)), sym (eq_of_=? y))
      | inr n3 ↦ elim (Bool-cases (s =? format_name parquet)) [
        | inl y ↦ inl (parquet, rw n1 (rw n2 (rw n3 (rw y refl))), sym (eq_of_=? y))
        | inr n4 ↦ elim (Bool-cases (s =? format_name csv)) [
          | inl y ↦ inl (csv, rw n1 (rw n2 (rw n3 (rw n4 (rw y refl)))), sym (eq_of_=? y))
          | inr n5 ↦ inr (rw n1 (rw n2 (rw n3 (rw n4 (rw n5 refl)))), none_of n1 n2 n3 n4 n5)
        ]
      ]
    ]
  ]
]
  where
    apart : (f : Format) → (s =? format_name f) ≡ false → format_name f ≢ s
    apart f n e = cc (=?_of_eq (sym e), n)

    none_of :
        (s =? format_name lance) ≡ false
        → (s =? format_name iceberg) ≡ false
        → (s =? format_name hive) ≡ false
        → (s =? format_name parquet) ≡ false
        → (s =? format_name csv) ≡ false
        → (f : Format) → format_name f ≢ s
    none_of n1 n2 n3 n4 n5 lance = apart lance n1
    none_of n1 n2 n3 n4 n5 iceberg = apart iceberg n2
    none_of n1 n2 n3 n4 n5 hive = apart hive n3
    none_of n1 n2 n3 n4 n5 parquet = apart parquet n4
    none_of n1 n2 n3 n4 n5 csv = apart csv n5

Answer-cases : {A : Type 0} (o : Answer A) → ((a : A) × (o ≡ ok a)) ⊎ ((e : Error) × (o ≡ raised e))
Answer-cases (ok a) = inl (a, refl)
Answer-cases (raised e) = inr (e, refl)

module _ (fs : FileSystem) where
  -- The format is the one that is given, in any case of letters, or else the one that is detected.
  abbrev pub Chosen : Option Text → Text → Format → Type 0
  Chosen none path fmt = detect_format fs path ≡ ok (some fmt)
  Chosen (some []) path fmt = detect_format fs path ≡ ok (some fmt)
  Chosen (some (c ∷ s)) path fmt = format_name fmt ≡ lowercase (c ∷ s)

  -- The format that is given is none of the five, or none is given and none is detected.
  abbrev pub Unknown : Option Text → Text → Type 0
  Unknown none path = detect_format fs path ≡ ok none
  Unknown (some []) path = detect_format fs path ≡ ok none
  Unknown (some (c ∷ s)) path = (fmt : Format) → format_name fmt ≢ lowercase (c ∷ s)

  -- No format is given, and the detection raises.
  abbrev pub Undetected : Option Text → Text → Error → Type 0
  Undetected none path e = detect_format fs path ≡ raised e
  Undetected (some []) path e = detect_format fs path ≡ raised e
  Undetected (some (c ∷ s)) path e = ⊥

  -- The partition columns: those that are given, or else, of a Hive layout, its keys.
  abbrev pub Columns : Text → Option (List Text) → Entry → Type 0
  Columns path partition entry = elim entry.format [
    | hive ↦
        (keys : List Text) × (hive_partition_keys fs (glob_root path) ≡ ok keys)
        × (entry.partition_columns ≡ some (get_default partition keys))
    | _ ↦ entry.partition_columns ≡ partition
  ]

  -- The entry that a registration makes.
  pub record Described (name path : Text) (fmt : Format) (partition : Option (List Text))
      (props : Dict Text Text) (entry : Entry) : Type 0 where
    pub named : entry.name ≡ name
    pub located : entry.path ≡ path
    pub formatted : entry.format ≡ fmt
    pub columns : Columns path partition entry
    pub further : entry.props ≡ props

  entry_of-Described :
      (name path : Text) (fmt : Format) (partition : Option (List Text)) (props : Dict Text Text)
      → ((entry : Entry) × (entry_of fs name path fmt partition props ≡ ok entry)
          × Described name path fmt partition props entry)
        ⊎ ((e : Error) × (entry_of fs name path fmt partition props ≡ raised e)
            × (fmt ≡ hive)
            × (hive_partition_keys fs (glob_root path) ≡ raised e))
  unfolding entry_of
  entry_of-Described name path hive partition props =
      elim (Answer-cases (hive_partition_keys fs (glob_root path))) [
        | inl (keys, h) ↦ inl (
          _,
          rw (h, entry_of) refl,
          record {
            named = refl;
            located = refl;
            formatted = refl;
            columns = (keys, h, refl);
            further = refl;
          },
        )
        | inr (e, h) ↦ inr (e, rw (h, entry_of) refl, refl, h)
      ]
  entry_of-Described name path lance partition props = inl (
    _,
    refl,
    record { named = refl; located = refl; formatted = refl; columns = refl; further = refl },
  )
  entry_of-Described name path iceberg partition props = inl (
    _,
    refl,
    record { named = refl; located = refl; formatted = refl; columns = refl; further = refl },
  )
  entry_of-Described name path parquet partition props = inl (
    _,
    refl,
    record { named = refl; located = refl; formatted = refl; columns = refl; further = refl },
  )
  entry_of-Described name path csv partition props = inl (
    _,
    refl,
    record { named = refl; located = refl; formatted = refl; columns = refl; further = refl },
  )

  detection :
      (path : Text)
      → ((fmt : Format) × (detect_format fs path ≡ ok (some fmt)))
        ⊎ (detect_format fs path ≡ ok none)
        ⊎ ((e : Error) × (detect_format fs path ≡ raised e))
  detection path = of (detect_format fs path) refl
    where
      of :
          (o : Answer (Option Format))
          → detect_format fs path ≡ o
          → ((fmt : Format) × (detect_format fs path ≡ ok (some fmt)))
            ⊎ (detect_format fs path ≡ ok none)
            ⊎ ((e : Error) × (detect_format fs path ≡ raised e))
      of (ok (some fmt)) h = inl (fmt, h)
      of (ok none) h = inr (inl h)
      of (raised e) h = inr (inr (e, h))

  chosen_format-cases :
      (format : Option Text) (path : Text)
      → ((fmt : Format) × (chosen_format fs format path ≡ ok (some fmt)) × Chosen format path fmt)
        ⊎ ((chosen_format fs format path ≡ ok none) × Unknown format path)
        ⊎ ((e : Error) × (chosen_format fs format path ≡ raised e) × Undetected format path e)
  unfolding chosen_format
  chosen_format-cases none path = elim (detection path) [
    | inl (fmt, h) ↦ inl (fmt, h, h)
    | inr (inl h) ↦ inr (inl (h, h))
    | inr (inr (e, h)) ↦ inr (inr (e, h, h))
  ]
  chosen_format-cases (some []) path = elim (detection path) [
    | inl (fmt, h) ↦ inl (fmt, h, h)
    | inr (inl h) ↦ inr (inl (h, h))
    | inr (inr (e, h)) ↦ inr (inr (e, h, h))
  ]
  chosen_format-cases (some (c ∷ s)) path = elim (format_of-cases (lowercase (c ∷ s))) [
    | inl (fmt, found, spelt) ↦ inl (fmt, ap (λ o. ok o) found, spelt)
    | inr (missing, other) ↦ inr (inl (ap (λ o. ok o) missing, other))
  ]

  module _ (name path : Text) (format : Option Text) (partition : Option (List Text))
      (props : Dict Text Text) (store : Store) where
    -- What a registration answers and leaves. It makes the entry, which `get` returns from then on
    -- under that name while every other name keeps its answer; or it raises and leaves the store as
    -- it was: for an unknown format, or an exception of the file system, which comes either from
    -- the detection or from the reading of the keys of a Hive layout.
    pub data Registers : Answer Entry × Store → Type 0 where
      registered :
          {fmt : Format} {entry : Entry} {after : Store}
          → Chosen format path fmt
          → Described name path fmt partition props entry
          → get name after ≡ ok entry
          → ((other : Text) → name ≢ other → get other after ≡ get other store)
          → Registers (ok entry, after)
      unknown : Unknown format path → Registers (raised value_error, store)
      undetected : {e : Error} → Undetected format path e → Registers (raised e, store)
      unread :
          {e : Error}
          → Chosen format path hive
          → hive_partition_keys fs (glob_root path) ≡ raised e
          → Registers (raised e, store)

    -- `register` makes the entry of its arguments, with the format that is given or else detected,
    -- which `get` then returns under its name while every other name keeps its answer; or it raises
    -- and leaves the store as it was: a ValueError where the format that is given or else detected
    -- is none of the five, and an exception of the file system where the detection, or the reading
    -- of the keys of a Hive layout, raises one.
    pub register-Registers : Registers (register fs name path format partition props store)
    unfolding register
    register-Registers = elim (chosen_format-cases format path) [
      | inl (fmt, e, chosen) ↦ elim (entry_of-Described name path fmt partition props) [
        | inl (entry, f, described) ↦
            rw (e, register)
              (rw f (
                Registers.registered chosen described (get-insert_self name entry store)
                  (λ other n. get-insert_ne name other entry store n)))
        | inr (x, f, is_hive, failed) ↦
            rw (e, register)
              (rw f (Registers.unread (subst (Chosen format path) is_hive chosen) failed))
      ]
      | inr (inl (e, un)) ↦ rw (e, register) (Registers.unknown un)
      | inr (inr (x, e, un)) ↦ rw (e, register) (Registers.undetected un)
    ]

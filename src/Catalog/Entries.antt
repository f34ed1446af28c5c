-- ===== src/Catalog/Entries.antt =====
-- What the calls that change the catalog leave in it.
use jude.Prelude.{
  ◌≡◌, ◌≢◌, ◌↔◌, refl, sym, ◌∙◌, Bool, true, false, Option, none, some, Dict, lookup, insert,
  remove, list_eq, nat_eq, lookup-insert, lookup-remove, Option-cases, =?_of_eq, =?_of_ne, inl, inr,
  subst, if-true, if-false,
}
use jude.Texts.{Text}
use jude.Catalog.{Entry, ok, raised, key_error, Store, load_store, drop_table, get}

-- What `get` answers after the data under one name has changed.
get_of :
    (name : Text) (d : Dict Text Entry) {o : Option Entry}
    → lookup name d ≡ o
    → get name (some d) ≡ elim o [ none ↦ raised key_error | some e ↦ ok e ]
unfolding get load_store
get_of name d e = rw (e, get) refl

pub get-insert_self :
    (name : Text) (e : Entry) (store : Store)
    → get name (some (insert name e (load_store store))) ≡ ok e
get-insert_self name e store =
    get_of name _
      (lookup-insert name name e (load_store store) ∙ if-true _ (=?_of_eq {a = name} refl))

pub get-insert_ne :
    (name other : Text) (e : Entry) (store : Store)
    → name ≢ other
    → get other (some (insert name e (load_store store))) ≡ get other store
unfolding get
get-insert_ne name other e store n =
    get_of other _ (lookup-insert name other e (load_store store) ∙ if-false _ (=?_of_ne n))

get-none :
    (name : Text) (store : Store)
    → lookup name (load_store store) ≡ none
    → get name store ≡ raised key_error
unfolding get
get-none name store e = rw (e, get) refl

get-some :
    (name : Text) (store : Store) {e : Entry}
    → lookup name (load_store store) ≡ some e
    → get name store ≡ ok e
unfolding get
get-some name store e = rw (e, get) refl

drop_none :
    (name : Text) (store : Store)
    → lookup name (load_store store) ≡ none
    → drop_table name store ≡ (false, store)
unfolding drop_table
drop_none name store e = rw (e, drop_table) refl

drop_some :
    (name : Text) (store : Store) {e : Entry}
    → lookup name (load_store store) ≡ some e
    → drop_table name store ≡ (true, some (remove name (load_store store)))
unfolding drop_table
drop_some name store e = rw (e, drop_table) refl

-- `drop` answers whether the name was there. The name is gone afterwards, every other name keeps
-- its answer, and a name that was not there leaves the store as it was.
pub drop_table-get :
    (name : Text) (store : Store)
    → (get name (drop_table name store).1 ≡ raised key_error)
      × ((other : Text) → name ≢ other → get other (drop_table name store).1 ≡ get other store)
      × (((drop_table name store).0 ≡ false) ↔ (get name store ≡ raised key_error))
      × ((drop_table name store).0 ≡ false → (drop_table name store).1 ≡ store)
unfolding get
drop_table-get name store = elim (Option-cases (lookup name (load_store store))) [
  | inl e ↦
      let gone : get name store ≡ raised key_error = get-none name store e in
      subst Outcome (sym (drop_none name store e))
        (gone, (λ other n. refl), ((λ h. gone), (λ h. refl)), (λ h. refl))
  | inr (entry, e) ↦
      let there : get name store ≡ ok entry = get-some name store e in
      subst Outcome (sym (drop_some name store e)) (
        get_of name _
            (lookup-remove name name (load_store store) ∙ if-true _ (=?_of_eq {a = name} refl)),
        (λ other n.
            get_of other _ (lookup-remove name other (load_store store) ∙ if-false _ (=?_of_ne n))),
        ((λ h. absurd cc), (λ h. absurd (cc (h, there)))),
        (λ h. absurd cc),
      )
]
  where
    Outcome : Bool × Store → Type 0
    Outcome r =
        (get name r.1 ≡ raised key_error)
        × ((other : Text) → name ≢ other → get other r.1 ≡ get other store)
        × ((r.0 ≡ false) ↔ (get name store ≡ raised key_error))
        × (r.0 ≡ false → r.1 ≡ store)

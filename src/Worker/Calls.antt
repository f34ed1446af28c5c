-- ===== src/Worker/Calls.antt =====
-- What the worker process of python/jude/execution/_worker.py should do with a batch: which calls
-- of the user function there are and what is written of their outcome, as relations.
use jude.Prelude.{ℕ, ◌≡◌, refl, ◌⊎◌, inl, inr, Option, none, some, List, [], ◌∷◌, ◌++◌}
use jude.Worker.{write_frame, write_ctrl}
use jude.Worker.Loop.{
  Outcome, ok, raised, Arrow, Returned, CallMode, map_batches, map_batches_rows, flat_map,
  map_values, unknown_mode, Exit, returned, crashed, to_table, map_column, convert, collect,
  apply_udf, reply,
}

Outcome-cases :
    {A : Type 0} (o : Outcome A) → ((a : A) × (o ≡ ok a)) ⊎ ((e : List ℕ) × (o ≡ raised e))
Outcome-cases (ok a) = inl (a, refl)
Outcome-cases (raised e) = inr (e, refl)

-- The modes that hand the whole batch to the user function.
abbrev pub OnTables : CallMode → Type 0
OnTables map_batches = Unit
OnTables map_batches_rows = Unit
OnTables flat_map = Unit
OnTables map_values = ⊥
OnTables unknown_mode = ⊥

-- The user function is called on each value, in order, with the state that the call before it
-- left, until one raises.
pub data Mapped {S Value : Type 0} (on_value : S → Value → S × Outcome Value)
    : S → List Value → S → Outcome (List Value) → Type 0 where
  mapped_none : {s : S} → Mapped on_value s [] s (ok [])
  mapped :
      {s s' : S} {v u : Value} {vs us : List Value}
      → (on_value s v).1 ≡ ok u
      → Mapped on_value (on_value s v).0 vs s' (ok us)
      → Mapped on_value s (v ∷ vs) s' (ok (u ∷ us))
  mapped_later :
      {s s' : S} {v u : Value} {vs : List Value} {e : List ℕ}
      → (on_value s v).1 ≡ ok u
      → Mapped on_value (on_value s v).0 vs s' (raised e)
      → Mapped on_value s (v ∷ vs) s' (raised e)
  mapped_raised :
      {s : S} {v : Value} {vs : List Value} {e : List ℕ}
      → (on_value s v).1 ≡ raised e
      → Mapped on_value s (v ∷ vs) (on_value s v).0 (raised e)

module _ {Table Batch Columns Value S : Type 0} (arrow : Arrow Table Batch Columns Value)
    (on_table : S → Table → S × Outcome (Returned Table Batch Columns))
    (on_value : S → Value → S × Outcome Value) where
  -- The outcome of one batch, by the mode: the table that the function returns, or what it, the
  -- conversion of what it returned, or the reading of the column raises.
  pub data Called : CallMode → S → Table → S → Outcome Table → Type 0 where
    table_returned :
        {mode : CallMode} {s : S} {t : Table} {r : Returned Table Batch Columns}
        → OnTables mode
        → (on_table s t).1 ≡ ok r
        → Called mode s t (on_table s t).0 (to_table arrow on_table on_value r)
    table_raised :
        {mode : CallMode} {s : S} {t : Table} {e : List ℕ}
        → OnTables mode
        → (on_table s t).1 ≡ raised e
        → Called mode s t (on_table s t).0 (raised e)
    no_column :
        {s : S} {t : Table} {e : List ℕ}
        → arrow.first_column t ≡ raised e
        → Called map_values s t s (raised e)
    column_returned :
        {s s' : S} {t : Table} {vs us : List Value}
        → arrow.first_column t ≡ ok vs
        → Mapped on_value s vs s' (ok us)
        → Called map_values s t s' (arrow.result_table us)
    column_raised :
        {s s' : S} {t : Table} {vs : List Value} {e : List ℕ}
        → arrow.first_column t ≡ ok vs
        → Mapped on_value s vs s' (raised e)
        → Called map_values s t s' (raised e)
    mode_unknown : {s : S} {t : Table} → Called unknown_mode s t s (raised arrow.value_error)

  -- What is written of an outcome: the frame of the table; or a report, of what was raised, or of
  -- the error that the frame is too long. A report that does not fit either is not written.
  pub data Answered : Outcome Table → Option (List ℕ) → Type 0 where
    answered :
        {t : Table} {bytes : List ℕ}
        → write_frame (arrow.to_ipc t) ≡ some bytes
        → Answered (ok t) (some bytes)
    too_long :
        {t : Table} {o : Option (List ℕ)}
        → write_frame (arrow.to_ipc t) ≡ none
        → write_ctrl arrow.struct_error ≡ o
        → Answered (ok t) o
    reported : {e : List ℕ} {o : Option (List ℕ)} → write_ctrl e ≡ o → Answered (raised e) o

  -- A reply for each batch, in order, with the state that the batch before it left. The worker goes
  -- on after a report, and ends early only where a report does not fit.
  pub data Served (mode : CallMode) : S → List Table → Exit → List ℕ → Type 0 where
    all_served : {s : S} → Served mode s [] returned []
    replied :
        {s s' : S} {t : Table} {ts : List Table} {o : Outcome Table} {exit : Exit}
        {bytes written : List ℕ}
        → Called mode s t s' o
        → Answered o (some bytes)
        → Served mode s' ts exit written
        → Served mode s (t ∷ ts) exit (bytes ++ written)
    unreported :
        {s s' : S} {t : Table} {ts : List Table} {o : Outcome Table}
        → Called mode s t s' o
        → Answered o none
        → Served mode s (t ∷ ts) crashed []

  map_column-Mapped :
      (s : S) (vs : List Value)
      → Mapped on_value s vs
          (map_column arrow on_table on_value s vs).0
          (map_column arrow on_table on_value s vs).1
  unfolding map_column
  map_column-Mapped s [] = Mapped.mapped_none
  map_column-Mapped s (v ∷ vs) =
      let below = map_column-Mapped (on_value s v).0 vs in
      elim (Outcome-cases (on_value s v).1) [
        | inr (x, e) ↦ rw (e, map_column) (Mapped.mapped_raised e)
        | inl (u, e) ↦
            elim (Outcome-cases (map_column arrow on_table on_value (on_value s v).0 vs).1) [
              | inl (us, f) ↦ rw (e, map_column) (rw f (Mapped.mapped e (rw f at below)))
              | inr (x, f) ↦ rw (e, map_column) (rw f (Mapped.mapped_later e (rw f at below)))
            ]
      ]

  convert-Called :
      (mode : CallMode) (s : S) (t : Table)
      → OnTables mode
      → Called mode s t
          (convert arrow on_table on_value (on_table s t)).0
          (convert arrow on_table on_value (on_table s t)).1
  unfolding convert
  convert-Called mode s t on = elim (Outcome-cases (on_table s t).1) [
    | inl (r, e) ↦ rw (e, convert) (Called.table_returned on e)
    | inr (x, e) ↦ rw (e, convert) (Called.table_raised on e)
  ]

  pub reply-Answered : (o : Outcome Table) → Answered o (reply arrow on_table on_value o)
  unfolding reply
  reply-Answered (raised e) = Answered.reported refl
  reply-Answered (ok t) =
      elim (write_frame (arrow.to_ipc t))
          as (λ w.
            write_frame (arrow.to_ipc t) ≡ w
            → Answered (ok t)
                (elim w [ some bytes ↦ some bytes | none ↦ write_ctrl arrow.struct_error ])) [
                  | some bytes ↦ λ e. Answered.answered e
                  | none ↦ λ e. Answered.too_long e refl
                ]
        refl

  collect-Called :
      (s : S) (t : Table) (vs : List Value) (s' : S) (o : Outcome (List Value))
      → arrow.first_column t ≡ ok vs
      → Mapped on_value s vs s' o
      → Called map_values s t
          (collect arrow on_table on_value (s', o)).0
          (collect arrow on_table on_value (s', o)).1
  unfolding collect
  collect-Called s t vs s' (ok us) e m = Called.column_returned e m
  collect-Called s t vs s' (raised x) e m = Called.column_raised e m

  pub apply_udf-Called :
      (mode : CallMode) (s : S) (t : Table)
      → Called mode s t
          (apply_udf arrow on_table on_value mode s t).0
          (apply_udf arrow on_table on_value mode s t).1
  unfolding apply_udf
  apply_udf-Called map_batches s t = convert-Called map_batches s t tt
  apply_udf-Called map_batches_rows s t = convert-Called map_batches_rows s t tt
  apply_udf-Called flat_map s t = convert-Called flat_map s t tt
  apply_udf-Called map_values s t = elim (Outcome-cases (arrow.first_column t)) [
    | inl (vs, e) ↦ rw (e, apply_udf) (collect-Called s t vs _ _ e (map_column-Mapped s vs))
    | inr (x, e) ↦ rw (e, apply_udf) (Called.no_column e)
  ]
  apply_udf-Called unknown_mode s t = Called.mode_unknown

-- ===== src/Worker/Loop.antt =====
-- The process that runs a user function: `_to_table`, `_apply` and `main` of
-- python/jude/execution/_worker.py. Arrow is an interface, and so are the JSON and pickle texts: an
-- exception is the JSON text of the message that reports it. The user function keeps a state, which
-- it returns with what it answers.
use jude.Prelude.{
  ℕ, zero, suc, Bool, true, false, Option, none, some, List, [], ◌∷◌, ◌++◌, length, ◌==◌,
}
use jude.Worker.{ctrl, read_frame, write_frame, write_ctrl}

pub data Outcome (A : Type 0) : Type 0 where
  ok : A → Outcome A
  raised : List ℕ → Outcome A

pub record Arrow (Table Batch Columns Value : Type 0) : Type 0 where
  pub from_ipc : List ℕ → Outcome Table
  pub to_ipc : Table → List ℕ
  pub from_batch : Batch → Table
  pub from_dict : Columns → Outcome Table
  pub concat_tables : List Table → Outcome Table
  pub empty_table : Table
  pub first_column : Table → Outcome (List Value)
  pub result_table : List Value → Outcome Table
  pub type_error : List ℕ
  pub value_error : List ℕ
  -- What a payload that is too long for its length field raises.
  pub struct_error : List ℕ

-- What a user function returns.
mutual
  pub data Returned (Table Batch Columns : Type 0) : Type 0 where
    a_table : Table → Returned Table Batch Columns
    a_batch : Batch → Returned Table Batch Columns
    a_dict : Columns → Returned Table Batch Columns
    an_iterable : Parts Table Batch Columns → Returned Table Batch Columns
    another : Returned Table Batch Columns

  -- An iteration ends, yields a value, or raises.
  pub data Parts (Table Batch Columns : Type 0) : Type 0 where
    end_of_parts : Parts Table Batch Columns
    part : Returned Table Batch Columns → Parts Table Batch Columns → Parts Table Batch Columns
    broken : List ℕ → Parts Table Batch Columns

pub data CallMode : Type 0 where
  map_batches : CallMode
  map_batches_rows : CallMode
  flat_map : CallMode
  map_values : CallMode
  unknown_mode : CallMode

-- How `main` ends: it returns, or an exception leaves it.
pub data Exit : Type 0 where
  returned : Exit
  crashed : Exit

module _ {Table Batch Columns Value S : Type 0} (arrow : Arrow Table Batch Columns Value)
    (on_table : S → Table → S × Outcome (Returned Table Batch Columns))
    (on_value : S → Value → S × Outcome Value) where
  -- `parts` with the tables of what was iterated before.
  unfoldable mutual
    pub to_table : Returned Table Batch Columns → Outcome Table
    to_table (a_table t) = ok t
    to_table (a_batch b) = ok (arrow.from_batch b)
    to_table (a_dict d) = arrow.from_dict d
    to_table (an_iterable parts) = elim (to_tables parts) [
      | raised e ↦ raised e
      | ok [] ↦ ok arrow.empty_table
      | ok (t ∷ ts) ↦ arrow.concat_tables (t ∷ ts)
    ]
    to_table another = raised arrow.type_error

    pub to_tables : Parts Table Batch Columns → Outcome (List Table)
    to_tables end_of_parts = ok []
    to_tables (broken e) = raised e
    to_tables (part r parts) =
        let rest = to_tables parts in
        elim (to_table r) [
          | raised e ↦ raised e
          | ok t ↦ elim rest [ raised e ↦ raised e | ok ts ↦ ok (t ∷ ts) ]
        ]

  -- `[fn(v) for v in col]`
  unfoldable pub map_column : S → List Value → S × Outcome (List Value)
  map_column s [] = (s, ok [])
  map_column s (v ∷ vs) =
      let (s', r) = on_value s v in
      let (s'', rest) = map_column s' vs in
      elim r [
        | raised e ↦ (s', raised e)
        | ok u ↦ (s'', elim rest [ raised e ↦ raised e | ok us ↦ ok (u ∷ us) ])
      ]

  unfoldable pub convert : S × Outcome (Returned Table Batch Columns) → S × Outcome Table
  unfolding to_table
  convert (s, raised e) = (s, raised e)
  convert (s, ok r) = (s, to_table r)

  unfoldable pub collect : S × Outcome (List Value) → S × Outcome Table
  collect (s, raised e) = (s, raised e)
  collect (s, ok vs) = (s, arrow.result_table vs)

  unfoldable pub apply_udf : CallMode → S → Table → S × Outcome Table
  unfolding convert collect map_column
  apply_udf map_batches s t = convert (on_table s t)
  apply_udf map_batches_rows s t = convert (on_table s t)
  apply_udf flat_map s t = convert (on_table s t)
  apply_udf map_values s t = elim (arrow.first_column t) [
    | raised e ↦ (s, raised e)
    | ok vs ↦ collect (map_column s vs)
  ]
  apply_udf unknown_mode s t = (s, raised arrow.value_error)

  -- What the worker writes for one batch; none where the report does not fit either.
  unfoldable pub reply : Outcome Table → Option (List ℕ)
  reply (raised e) = write_ctrl e
  reply (ok t) = elim (write_frame (arrow.to_ipc t)) [
    | some bytes ↦ some bytes
    | none ↦ write_ctrl arrow.struct_error
  ]

  module _ (got : List ℕ → ℕ → ℕ) (is_shutdown : List ℕ → Option Bool) where
    -- `while True`, with what was written so far; a round for each frame is enough.
    unfoldable pub serve : ℕ → CallMode → S → List ℕ → List ℕ → Option (Exit × List ℕ)
    unfolding apply_udf reply
    serve zero mode s stream out = none
    serve (suc fuel) mode s stream out = elim (read_frame got stream) [
      | none ↦ some (returned, out)
      | some ((kind, payload), left) ↦ elim (kind == ctrl) [
        | true ↦ elim (is_shutdown payload) [
          | none ↦ some (crashed, out)
          | some true ↦ some (returned, out)
          | some false ↦ serve fuel mode s left out
        ]
        | false ↦ elim (arrow.from_ipc payload) [
          | raised e ↦ some (crashed, out)
          | ok t ↦ elim (reply (apply_udf mode s t).1) [
            | none ↦ some (crashed, out)
            | some bytes ↦ serve fuel mode (apply_udf mode s t).0 left (out ++ bytes)
          ]
        ]
      ]
    ]

    -- `configure` decodes the first message: the call mode and the state of the function.
    unfoldable pub main :
        (List ℕ → Option (CallMode × S)) → List ℕ → List ℕ → Option (Exit × List ℕ)
    unfolding serve
    main configure ready stdin = elim (read_frame got stdin) [
      | none ↦ some (crashed, [])
      | some ((kind, payload), left) ↦ elim (kind == ctrl) [
        | false ↦ some (crashed, [])
        | true ↦ elim (configure payload) [
          | none ↦ some (crashed, [])
          | some (mode, s) ↦ elim (write_ctrl ready) [
            | none ↦ some (crashed, [])
            | some bytes ↦ serve (suc (length left)) mode s left bytes
          ]
        ]
      ]
    ]

-- ===== src/Observe.antt =====
-- The handles of python/jude/observe.py, which report queries, stages and curation runs. The
-- metrics registry and the audit log are Rust: the registry is the list of the calls that it gets,
-- newest last, and `new_id` the identifier that it returns; `opens` says whether the audit log
-- opens, `stored` whether it takes a record. A text is the list of its characters, a time a number
-- of milliseconds that `clock` gives to each reading.
pub mod Terminal
use jude.Prelude.{
  ℕ, ◌+◌, ◌-◌, Bool, true, false, not, Option, none, some, List, [], ◌∷◌, ◌++◌, if◌then◌else◌, Dict,
  insert, list_eq, nat_eq,
}
use jude.Texts.{Text}

pub data Call : Type 0 where
  query_start : Text → Text → ℕ → Call
  query_done : ℕ → ℕ → ℕ → ℕ → Call
  query_error : ℕ → Text → ℕ → Call
  stage_start : ℕ → Text → ℕ → ℕ → Call
  stage_progress : ℕ → ℕ → ℕ → ℕ → ℕ → ℕ → Call
  stage_done : ℕ → ℕ → Call
  pool_update : Text → Text → ℕ → ℕ → ℕ → ℕ → ℕ → ℕ → Call
  pool_remove : Text → Call

pub data Status : Type 0 where
  done_status : Status
  error_status : Status

-- The `rec` of `_audit_persist`.
pub record AuditRecord : Type 0 where
  pub rec_label : Text
  pub rec_kind : Text
  pub status : Status
  pub started_at : ℕ
  pub ended_at : ℕ
  pub duration_ms : ℕ
  pub rows : ℕ
  pub bytes : ℕ
  pub rec_stages : List Text
  pub error_text : Option Text
  pub rec_detail : Dict Text Text

-- The module's state: the registry, `_AUDIT_ENABLED`, whether `_AUDIT` is set, the records of the
-- audit log, and how often the clock was read.
pub record Observer : Type 0 where
  pub calls : List Call
  pub audit_enabled : Bool
  pub audit_open : Bool
  pub audit : List AuditRecord
  pub ticks : ℕ

pub record QueryHandle : Type 0 where
  pub id : ℕ
  pub is_done : Bool
  pub label : Text
  pub kind : Text
  pub started : ℕ
  pub details : Dict Text Text
  pub stages : List Text

-- __init__
abbrev pub new_handle : ℕ → QueryHandle
new_handle qid = record {
  id = qid;
  is_done = false;
  label = [];
  kind = [];
  started = 0;
  details = [];
  stages = [];
}

abbrev pub call : Call → Observer → Observer
call c o = record o { calls = o.calls ++ c ∷ [] }

-- time.time()
abbrev pub tick : Observer → Observer
tick o = record o { ticks = o.ticks + 1 }

unfoldable pub set_audit_enabled : Bool → Observer → Observer
set_audit_enabled enabled o = record o { audit_enabled = enabled }

-- `self._detail.update(kv)`
unfoldable pub update_detail : Dict Text Text → Dict Text Text → Dict Text Text
update_detail [] d = d
update_detail ((k, v) ∷ kv) d = update_detail kv (insert k v d)

unfoldable pub detail : Dict Text Text → QueryHandle → QueryHandle
unfolding update_detail
detail kv h = record h { details = update_detail kv h.details }

-- The body of a `with query(...)` block: what it does with the handle, and how it ends.
pub data Action : Type 0 where
  act_stage : Text → ℕ → Action
  act_detail : Dict Text Text → Action
  act_done : ℕ → ℕ → Action
  act_error : Text → Action

-- `curate`: the body may call `done(rows_out)` any number of times.
unfoldable pub last_rows : ℕ → List ℕ → ℕ
last_rows rows_out [] = rows_out
last_rows rows_out (r ∷ rs) = last_rows r rs

module _ (new_id : List Call → ℕ) (clock : ℕ → ℕ) (opens : Bool) (stored : AuditRecord → Bool) where
  -- The answer is whether there is a log.
  unfoldable pub audit_log : Observer → Bool × Observer
  audit_log o =
      if not o.audit_enabled
      then (false, o)
      else if o.audit_open
      then (true, o)
      else if opens
      then (true, record o { audit_open = true })
      else (false, o)

  unfoldable pub audit_persist :
      QueryHandle → Status → ℕ → ℕ → ℕ → Option Text → Observer → Observer
  unfolding audit_log
  audit_persist h status ended rows nbytes error o =
      let (log, o') = audit_log o in
      let rec : AuditRecord = record {
        rec_label = h.label;
        rec_kind = h.kind;
        status = status;
        started_at = h.started;
        ended_at = ended;
        duration_ms = ended - h.started;
        rows = rows;
        bytes = nbytes;
        rec_stages = h.stages;
        error_text = error;
        rec_detail = h.details;
      } in
      if log then (if stored rec then record o' { audit = o'.audit ++ rec ∷ [] } else o') else o'

  -- The stage's identifier is returned with the changes.
  unfoldable pub stage : Text → ℕ → QueryHandle → Observer → ℕ × QueryHandle × Observer
  stage name tasks_total h o = (
    new_id o.calls,
    record h { stages = h.stages ++ name ∷ [] },
    call (stage_start h.id name tasks_total (clock o.ticks)) (tick o),
  )

  unfoldable pub progress : ℕ → ℕ → ℕ → ℕ → ℕ → ℕ → Observer → Observer
  progress sid tasks_done tasks_failed attempts rows nbytes o =
      call (stage_progress sid tasks_done tasks_failed attempts rows nbytes) o

  unfoldable pub finish_stage : ℕ → Observer → Observer
  finish_stage sid o = call (stage_done sid (clock o.ticks)) (tick o)

  -- `_QueryHandle.done`
  unfoldable pub done : ℕ → ℕ → QueryHandle → Observer → QueryHandle × Observer
  unfolding audit_persist
  done rows nbytes h o =
      if h.is_done
      then (h, o)
      else let now = clock o.ticks in
        let h' = record h { is_done = true } in
        (
          h',
          audit_persist h' done_status now rows nbytes none
              (call (query_done h.id rows nbytes now) (tick o)),
        )

  -- `_QueryHandle.error`
  unfoldable pub error : Text → QueryHandle → Observer → QueryHandle × Observer
  unfolding audit_persist
  error msg h o =
      if h.is_done
      then (h, o)
      else let now = clock o.ticks in
        let h' = record h { is_done = true } in
        (
          h',
          audit_persist h' error_status now 0 0 (some msg)
              (call (query_error h.id msg now) (tick o)),
        )

  unfoldable pub act : Action → QueryHandle × Observer → QueryHandle × Observer
  unfolding stage detail done error
  act (act_stage name tasks_total) (h, o) =
      let (sid, h', o') = stage name tasks_total h o in (h', o')
  act (act_detail kv) (h, o) = (detail kv h, o)
  act (act_done rows nbytes) (h, o) = done rows nbytes h o
  act (act_error msg) (h, o) = error msg h o

  unfoldable pub run_body : List Action → QueryHandle × Observer → QueryHandle × Observer
  unfolding act
  run_body [] s = s
  run_body (a ∷ body) s = run_body body (act a s)

  -- `qid = registry().query_start(label, kind, time.time())` and the fields of the handle.
  unfoldable pub open_query : Text → Text → Observer → QueryHandle × Observer
  open_query label kind o =
      let o' = call (query_start label kind (clock o.ticks)) (tick o) in
      (
        record (new_handle (new_id o.calls)) {
          label = label;
          kind = kind;
          started = clock o'.ticks;
        },
        tick o',
      )

  -- `query`: `raised` is the text of the exception that ends the body, which is raised again.
  unfoldable pub query : Text → Text → List Action → Option Text → Observer → Option Text × Observer
  unfolding open_query run_body done error
  query label kind body raised o =
      let (h, o') = run_body body (open_query label kind o) in
      elim raised [ none ↦ (none, (done 0 0 h o').1) | some msg ↦ (some msg, (error msg h o').1) ]

  unfoldable pub curate : Text → ℕ → List ℕ → Option Text → Observer → Option Text × Observer
  unfolding last_rows
  curate op rows_in dones raised o =
      let qid = new_id o.calls in
      let o' =
        call (query_start op (b'c' ∷ b'u' ∷ b'r' ∷ b'a' ∷ b't' ∷ b'e' ∷ []) (clock o.ticks))
          (tick o) in
      elim raised [
        | none ↦ (
          none,
          call (query_done qid (last_rows rows_in dones) rows_in (clock o'.ticks)) (tick o'),
        )
        | some msg ↦ (some msg, call (query_error qid msg (clock o'.ticks)) (tick o'))
      ]

  unfoldable pub record_pool : Text → Text → ℕ → ℕ → ℕ → ℕ → ℕ → Observer → Observer
  record_pool key backend num_workers batches_in batches_out rows busy_ns o =
      call (pool_update key backend num_workers batches_in batches_out rows busy_ns (clock o.ticks))
        (tick o)

  unfoldable pub remove_pool : Text → Observer → Observer
  remove_pool key o = call (pool_remove key) o

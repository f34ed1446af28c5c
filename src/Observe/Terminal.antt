-- ===== src/Observe/Terminal.antt =====
-- How a query ends: the one call that closes it.
use jude.Prelude.{
  ℕ, ◌≡◌, refl, sym, ap, ◌∙◌, Bool, true, false, Option, none, some, List, [], ◌∷◌, ◌++◌,
  append-nil, subst, ap₂, arith, if-true, if-false, filter, filter-append,
}
use jude.Texts.{Text}
use jude.Observe.{
  Call, query_done, query_error, Status, done_status, error_status, AuditRecord, Observer,
  QueryHandle, call, tick, detail, audit_log, audit_persist, stage, done, error, Action, act_stage,
  act_detail, act_done, act_error, act, run_body, open_query, query,
}

-- The calls that close a query.
abbrev pub is_closing : Call → Bool
is_closing (query_done qid rows nbytes now) = true
is_closing (query_error qid msg now) = true
is_closing c = false

abbrev pub closing : List Call → List Call
closing calls = filter is_closing calls

-- How the body and the exception end a query: the first `done` or `error` of the body, or else what
-- the context manager does.
pub data End : Type 0 where
  end_done : ℕ → ℕ → End
  end_error : Text → End

abbrev pub end_of : List Action → Option Text → End
end_of [] none = end_done 0 0
end_of [] (some msg) = end_error msg
end_of (act_stage name tasks_total ∷ body) raised = end_of body raised
end_of (act_detail kv ∷ body) raised = end_of body raised
end_of (act_done rows nbytes ∷ body) raised = end_done rows nbytes
end_of (act_error msg ∷ body) raised = end_error msg

abbrev pub closing_call : ℕ → End → ℕ → Call
closing_call qid (end_done rows nbytes) now = query_done qid rows nbytes now
closing_call qid (end_error msg) now = query_error qid msg now

closing_call-is_closing : (qid : ℕ) (e : End) (now : ℕ) → is_closing (closing_call qid e now) ≡ true
closing_call-is_closing qid (end_done rows nbytes) now = refl
closing_call-is_closing qid (end_error msg) now = refl

-- The call of one more `c`.
closing_other :
    (c : Call) (calls : List Call)
    → is_closing c ≡ false
    → closing (calls ++ c ∷ []) ≡ closing calls
closing_other c calls e =
    filter-append is_closing calls (c ∷ []) ∙ rw e (append-nil (closing calls))

closing_more :
    (c : Call) (calls : List Call)
    → is_closing c ≡ true
    → closing (calls ++ c ∷ []) ≡ closing calls ++ c ∷ []
closing_more c calls e = filter-append is_closing calls (c ∷ []) ∙ rw e refl

module _ (new_id : List Call → ℕ) (clock : ℕ → ℕ) (opens : Bool) (stored : AuditRecord → Bool) where
  audit_persist-calls :
      (h : QueryHandle) (s : Status) (ended rows nbytes : ℕ) (e : Option Text) (o : Observer)
      → (audit_persist new_id clock opens stored h s ended rows nbytes e o).calls ≡ o.calls
  unfolding audit_persist audit_log
  audit_persist-calls h s ended rows nbytes e o = ground arith

  -- The state of a query: open, with the calls `before` that closed others, or closed by `c`.
  pub record Opened (qid : ℕ) (before : List Call) (s : QueryHandle × Observer) : Type 0 where
    pub still_open : s.0.is_done ≡ false
    pub same_id : s.0.id ≡ qid
    pub none_closed : closing s.1.calls ≡ before

  pub record Closed (qid : ℕ) (before : List Call) (e : End) (s : QueryHandle × Observer)
      : Type 0 where
    pub is_closed : s.0.is_done ≡ true
    pub at_time : ℕ
    pub one_closed : closing s.1.calls ≡ before ++ closing_call qid e at_time ∷ []

  done-Closed :
      (rows nbytes qid : ℕ) (before : List Call) (h : QueryHandle) (o : Observer)
      → Opened qid before (h, o)
      → Closed qid before (end_done rows nbytes) (done new_id clock opens stored rows nbytes h o)
  unfolding done
  done-Closed rows nbytes qid before h o s =
      subst (Closed qid before _) (sym (if-false _ s.still_open)) (record {
        is_closed = refl;
        at_time = clock o.ticks;
        one_closed =
            ap closing (
              audit_persist-calls (record h { is_done = true }) done_status (clock o.ticks) rows
                nbytes none (call (query_done h.id rows nbytes (clock o.ticks)) (tick o)))
            ∙ closing_more (query_done h.id rows nbytes (clock o.ticks)) o.calls refl
            ∙ ap₂ (λ u v. u ++ query_done v rows nbytes (clock o.ticks) ∷ []) s.none_closed
                s.same_id;
      })

  error-Closed :
      (msg : Text) (qid : ℕ) (before : List Call) (h : QueryHandle) (o : Observer)
      → Opened qid before (h, o)
      → Closed qid before (end_error msg) (error new_id clock opens stored msg h o)
  unfolding error
  error-Closed msg qid before h o s =
      subst (Closed qid before _) (sym (if-false _ s.still_open)) (record {
        is_closed = refl;
        at_time = clock o.ticks;
        one_closed =
            ap closing (
              audit_persist-calls (record h { is_done = true }) error_status (clock o.ticks) 0 0
                (some msg) (call (query_error h.id msg (clock o.ticks)) (tick o)))
            ∙ closing_more (query_error h.id msg (clock o.ticks)) o.calls refl
            ∙ ap₂ (λ u v. u ++ query_error v msg (clock o.ticks) ∷ []) s.none_closed s.same_id;
      })

  -- A closed query is not closed again.
  act-Closed :
      (a : Action) (qid : ℕ) (before : List Call) (e : End) (s : QueryHandle × Observer)
      → Closed qid before e s
      → Closed qid before e (act new_id clock opens stored a s)
  unfolding act stage detail done error
  act-Closed (act_stage name total) qid before e (h, o) c = record {
    is_closed = c.is_closed;
    at_time = c.at_time;
    one_closed = closing_other _ o.calls refl ∙ c.one_closed;
  }
  act-Closed (act_detail kv) qid before e (h, o) c = record {
    is_closed = c.is_closed;
    at_time = c.at_time;
    one_closed = c.one_closed;
  }
  act-Closed (act_done rows nbytes) qid before e (h, o) c =
      subst (Closed qid before e) (sym (if-true _ c.is_closed)) c
  act-Closed (act_error msg) qid before e (h, o) c =
      subst (Closed qid before e) (sym (if-true _ c.is_closed)) c

  body-Closed :
      (body : List Action) (qid : ℕ) (before : List Call) (e : End) (s : QueryHandle × Observer)
      → Closed qid before e s
      → Closed qid before e (run_body new_id clock opens stored body s)
  unfolding run_body
  body-Closed [] qid before e s c = c
  body-Closed (a ∷ body) qid before e s c =
      body-Closed body qid before e _ (act-Closed a qid before e s c)

  -- The end of the block, for either exit.
  leave : Option Text → QueryHandle × Observer → QueryHandle × Observer
  leave none (h, o) = done new_id clock opens stored 0 0 h o
  leave (some msg) (h, o) = error new_id clock opens stored msg h o

  leave-Closed :
      (raised : Option Text) (qid : ℕ) (before : List Call) (e : End) (s : QueryHandle × Observer)
      → Closed qid before e s
      → Closed qid before e (leave raised s)
  unfolding leave done error
  leave-Closed none qid before e (h, o) c =
      subst (Closed qid before e) (sym (if-true _ c.is_closed)) c
  leave-Closed (some msg) qid before e (h, o) c =
      subst (Closed qid before e) (sym (if-true _ c.is_closed)) c

  body-ends :
      (body : List Action) (raised : Option Text) (qid : ℕ) (before : List Call)
      (s : QueryHandle × Observer)
      → Opened qid before s
      → Closed qid before
          (end_of body raised)
          (leave raised (run_body new_id clock opens stored body s))
  unfolding run_body act leave stage detail
  body-ends [] none qid before (h, o) s = done-Closed 0 0 qid before h o s
  body-ends [] (some msg) qid before (h, o) s = error-Closed msg qid before h o s
  body-ends (act_stage name total ∷ body) raised qid before (h, o) s =
      body-ends body raised qid before _ (record {
        still_open = s.still_open;
        same_id = s.same_id;
        none_closed = closing_other _ o.calls refl ∙ s.none_closed;
      })
  body-ends (act_detail kv ∷ body) raised qid before (h, o) s =
      body-ends body raised qid before _
        (record { still_open = s.still_open; same_id = s.same_id; none_closed = s.none_closed })
  body-ends (act_done rows nbytes ∷ body) raised qid before (h, o) s =
      leave-Closed raised qid before _ _
        (body-Closed body qid before _ _ (done-Closed rows nbytes qid before h o s))
  body-ends (act_error msg ∷ body) raised qid before (h, o) s =
      leave-Closed raised qid before _ _
        (body-Closed body qid before _ _ (error-Closed msg qid before h o s))

  -- Whatever the body does with the handle, and whether it raises or not, the query is closed by
  -- exactly one call, with its own identifier: that of the body's first `done` or `error`, or else
  -- a `query_error` with the exception, or else a `query_done` of no rows.
  pub query-closes_once :
      (label kind : Text) (body : List Action) (raised : Option Text) (o : Observer)
      → (now : ℕ) × (closing (query new_id clock opens stored label kind body raised o).1.calls
          ≡ closing o.calls ++ closing_call (new_id o.calls) (end_of body raised) now ∷ [])
  unfolding query open_query leave
  query-closes_once label kind body none o =
      let c =
        body-ends body none (new_id o.calls) (closing o.calls)
          (open_query new_id clock opens stored label kind o)
          (record {
            still_open = refl;
            same_id = refl;
            none_closed = closing_other _ o.calls refl;
          }) in
      (c.at_time, c.one_closed)
  query-closes_once label kind body (some msg) o =
      let c =
        body-ends body (some msg) (new_id o.calls) (closing o.calls)
          (open_query new_id clock opens stored label kind o)
          (record {
            still_open = refl;
            same_id = refl;
            none_closed = closing_other _ o.calls refl;
          }) in
      (c.at_time, c.one_closed)

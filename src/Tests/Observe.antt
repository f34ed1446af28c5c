-- ===== src/Tests/Observe.antt =====
-- A query of one stage that is marked done and then raises.
use jude.Prelude.{ℕ, ◌≡◌, refl, Bool, true, some, none, List, [], ◌∷◌, ◌++◌, length}
use jude.Observe.{
  Call, query_done, query_start, stage_start, AuditRecord, Observer, Action, act_stage, act_done,
  query, curate,
}
use jude.Observe.Terminal.{closing, closing_call, end_of, query-closes_once}

abbrev idle_observer : Observer
idle_observer = record {
  calls = [];
  audit_enabled = true;
  audit_open = true;
  audit = [];
  ticks = 0;
}

abbrev count_calls : List Call → ℕ
count_calls calls = length calls

abbrev clock : ℕ → ℕ
clock n = n

abbrev stored : AuditRecord → Bool
stored r = true

abbrev body : List Action
body = act_stage (b's' ∷ []) 8 ∷ act_done 5 40 ∷ act_done 6 48 ∷ []

done_and_raised :
    (query count_calls clock true stored [] [] body (some (b'E' ∷ [])) idle_observer).1.calls
    ≡ query_start [] [] 0 ∷ stage_start 0 (b's' ∷ []) 8 2 ∷ query_done 0 5 40 3 ∷ []
unfolding query
done_and_raised = refl

curate_rows :
    (curate count_calls clock true stored [] 9 (4 ∷ 7 ∷ []) none idle_observer).1.calls
    ≡ query_start [] (b'c' ∷ b'u' ∷ b'r' ∷ b'a' ∷ b't' ∷ b'e' ∷ []) 0 ∷ query_done 0 7 9 1 ∷ []
unfolding curate
curate_rows = refl

query-closes_once_example :
    (now : ℕ) × (closing
        (query count_calls clock true stored [] [] body (some (b'E' ∷ [])) idle_observer).1.calls
      ≡ closing (idle_observer.calls) ++ closing_call 0 (end_of body (some (b'E' ∷ []))) now ∷ [])
query-closes_once_example =
    query-closes_once count_calls clock true stored [] [] body (some (b'E' ∷ [])) idle_observer

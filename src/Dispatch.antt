-- ===== src/Dispatch.antt =====
-- The dispatch loops of python/jude/runners/_ray_shim.py. Ray is a parameter: `fns` lists the
-- object references that the submit functions return, `fetch` is `ray.get` of one reference, and
-- `wait` is `ray.wait(..., num_returns=1)`, which picks one of the references that it is given, in
-- any order that may depend on the round. `none` stands for a fault (an unknown reference, fuel).
pub mod Invariant
pub mod Bounded
pub mod Admission
use jude.Prelude.{
  ℕ, zero, suc, ◌+◌, ◌≡◌, ◌≢◌, Bool, true, false, Option, none, some, List, [], ◌∷◌, length, map,
  replicate, get_elem?, set, ltb, leb, if◌then◌else◌, ◌&&◌, ◌||◌, ◌==◌, Eq, ◌=?◌, Dict, lookup,
  insert, remove, Memᴰ,
}

-- The variables of the loops: the next task, the tasks in flight, the results, and how many
-- references have been waited for.
pub record Pool (Ref A : Type 0) : Type 0 where
  pub next_idx : ℕ
  pub inflight : Dict Ref ℕ
  pub results : List (Option A)
  pub round : ℕ

-- list(inflight.keys())
abbrev pub keys : {Ref : Type 0} → Dict Ref ℕ → List Ref
keys [] = []
keys ((r, i) ∷ d) = r ∷ keys d

-- `ray.wait` picks one of the references in flight.
abbrev pub Picks : {Ref : Type 0} → (ℕ → List Ref → Ref) → Type 0
Picks {Ref} wait = (round : ℕ) (r : Ref) (refs : List Ref) → Memᴰ (wait round (r ∷ refs)) (r ∷ refs)

module _ {Ref A : Type 0} ⦃ref_eq : Eq Ref⦄ where
  -- Before the first submission: `[None] * len(submit_fns)`.
  unfoldable pub idle : List Ref → Pool Ref A
  idle fns = record {
    next_idx = 0;
    inflight = [];
    results = replicate (length fns) none;
    round = 0;
  }

  -- `ref = submit_fns[next_idx](); inflight[ref] = next_idx; next_idx += 1`
  unfoldable pub submit : List Ref → Pool Ref A → Pool Ref A
  submit fns p = elim (get_elem? fns p.next_idx) [
    | none ↦ p
    | some ref ↦ record p { inflight = insert ref p.next_idx p.inflight; next_idx = p.next_idx + 1 }
  ]

  -- `idx = inflight.pop(ref); results[idx] = ray.get(ref)`
  unfoldable pub finish : (Ref → A) → Ref → Pool Ref A → Option (Pool Ref A)
  finish fetch ref p = elim (lookup ref p.inflight) [
    | none ↦ none
    | some idx ↦ some (record p {
      inflight = remove ref p.inflight;
      results = set p.results idx (some (fetch ref));
      round = p.round + 1;
    })
  ]

  -- The first `while` of `run_bounded`; a round for each task is enough.
  unfoldable pub fill : ℕ → List Ref → ℕ → Pool Ref A → Pool Ref A
  unfolding submit
  fill zero fns window p = p
  fill (suc fuel) fns window p =
      let more = fill fuel fns window (submit fns p) in
      if ltb p.next_idx (length fns) && ltb (length p.inflight) window then more else p

  -- `while inflight`, with `launch` for what the body does after it has stored a result.
  unfoldable pub drain :
      (Ref → A)
      → (ℕ → List Ref → Ref)
      → (Pool Ref A → Pool Ref A)
      → ℕ
      → Pool Ref A
      → Option (List (Option A))
  unfolding finish
  drain fetch wait launch zero p = none
  drain fetch wait launch (suc fuel) p = elim p.inflight [
    | [] ↦ some p.results
    | _ ↦ elim (finish fetch (wait p.round (keys p.inflight)) p) [
      | none ↦ none
      | some p' ↦ drain fetch wait launch fuel (launch p')
    ]
  ]

  -- `if next_idx < len(submit_fns)` and its block.
  unfoldable pub submit_next : List Ref → Pool Ref A → Pool Ref A
  unfolding submit
  submit_next fns p = if ltb p.next_idx (length fns) then submit fns p else p

  unfoldable pub run_bounded :
      (Ref → A) → (ℕ → List Ref → Ref) → List Ref → ℕ → Option (List (Option A))
  unfolding idle fill drain submit_next
  run_bounded fetch wait fns window =
      if (window == 0) || leb (length fns) window
      then some (map (λ ref. some (fetch ref)) fns)
      else drain fetch wait (submit_next fns) (suc (length fns))
          (fill (length fns) fns window (idle fns))

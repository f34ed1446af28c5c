-- ===== src/Dispatch/Admission.antt =====
-- `run_bounded_admission` of python/jude/runners/_ray_shim.py: tasks that the Rust ResourceManager
-- admits. The manager is an argument, as its state and its three calls.
use jude.Prelude.{
  ℕ, zero, suc, ◌-◌, ◌≡◌, ◌≤◌, ◌<◌, refl, ap, ◌∙◌, inl, inr, Option, none, some, List, [], ◌∷◌,
  length, map, ltb, ltb→lt, if◌then◌else◌, if-elim, Eq, Option-cases, Dict, arith,
}
use jude.Dispatch.{Pool, keys, Picks, idle, submit, finish}
use jude.Dispatch.Invariant.{Fresh, Inv, idle-Inv, submit-Inv, finish-Inv}
use jude.Dispatch.Bounded.{inflight-cases, idle-results, Keeps, Busy, work, submit-work}

pub record ResourceManager (M : Type 0) : Type 0 where
  -- None is the answer False, with the state as it was.
  pub try_reserve : M → Option M
  pub reserve : M → M
  pub release : M → M

-- The variables of the loop, with the state of the manager.
pub record Gate (Ref A M : Type 0) : Type 0 where
  pub pool : Pool Ref A
  pub mgr : M

module _ {Ref M : Type 0} (rm : ResourceManager M) where
  -- Where nothing is in flight, one task is forced.
  abbrev pub forced : Dict Ref ℕ → M → Option M
  forced [] m = some (rm.reserve m)
  forced (r ∷ inflight) m = none

  -- The manager after a reservation; none is the `break`.
  unfoldable pub admit : Dict Ref ℕ → M → Option M
  admit inflight m = elim (rm.try_reserve m) [ none ↦ forced inflight m | some m' ↦ some m' ]

  -- The launches stop only with a task in flight.
  admit-none : (inflight : Dict Ref ℕ) (m : M) → admit inflight m ≡ none → 0 < length inflight
  unfolding admit
  admit-none [] m e = elim (Option-cases (rm.try_reserve m)) [
    | inl n ↦ let q : admit [] m ≡ some (rm.reserve m) = rw (n, admit) refl in cc
    | inr (m', s) ↦ let q : admit [] m ≡ some m' = rw (s, admit) refl in cc
  ]
  admit-none (r ∷ inflight) m e = omega arith

module _ {Ref A M : Type 0} ⦃ref_eq : Eq Ref⦄ (rm : ResourceManager M) where
  -- A round for each task is enough.
  unfoldable pub launch_ready : ℕ → List Ref → Gate Ref A M → Gate Ref A M
  unfolding admit submit
  launch_ready zero fns g = g
  launch_ready (suc fuel) fns g =
      let next = λ (m : M). launch_ready fuel fns (record { pool = submit fns g.pool; mgr = m }) in
      if ltb g.pool.next_idx (length fns)
      then (elim (admit rm g.pool.inflight g.mgr) [ none ↦ g | some m ↦ next m ])
      else g

  unfoldable pub drain_admission :
      (Ref → A) → (ℕ → List Ref → Ref) → List Ref → ℕ → Gate Ref A M → Option (List (Option A) × M)
  unfolding finish launch_ready
  drain_admission fetch wait fns zero g = none
  drain_admission fetch wait fns (suc fuel) g = elim g.pool.inflight [
    | [] ↦ some (g.pool.results, g.mgr)
    | _ ↦ elim (finish fetch (wait g.pool.round (keys g.pool.inflight)) g.pool) [
      | none ↦ none
      | some p ↦
          drain_admission fetch wait fns fuel
            (launch_ready (length fns) fns (record { pool = p; mgr = rm.release g.mgr }))
    ]
  ]

  unfoldable pub run_bounded_admission :
      (Ref → A) → (ℕ → List Ref → Ref) → List Ref → M → Option (List (Option A) × M)
  unfolding idle launch_ready drain_admission
  run_bounded_admission fetch wait fns m =
      drain_admission fetch wait fns (suc (length fns))
        (launch_ready (length fns) fns (record { pool = idle fns; mgr = m }))

  module _ (fetch : Ref → A) (fns : List Ref) (fresh : Fresh fns) where
    launch_ready-Keeps :
        (fuel : ℕ) (g : Gate Ref A M)
        → length fns - g.pool.next_idx ≤ fuel
        → Inv fetch fns g.pool
        → Keeps fetch fns g.pool (launch_ready fuel fns g).pool
    unfolding launch_ready
    launch_ready-Keeps zero g f inv = record {
      inv = inv;
      busy = λ h. omega arith;
      less = omega arith;
    }
    launch_ready-Keeps (suc fuel) g f inv =
        if-elim (λ (v : Gate Ref A M). Keeps fetch fns g.pool v.pool)
          (ltb g.pool.next_idx (length fns))
          (λ t.
            let h = ltb→lt g.pool.next_idx (length fns) t in
            let (le, pos, next, room) = submit-work fns g.pool h in
            admitted (admit rm g.pool.inflight g.mgr) refl (λ m.
              let keeps =
                launch_ready-Keeps fuel (record { pool = submit fns g.pool; mgr = m })
                  (omega (arith, next)) (submit-Inv fetch fns fresh g.pool h inv) in
              record { inv = keeps.inv; busy = keeps.busy; less = omega (arith, keeps.less, le) }))
          (λ t. record { inv = inv; busy = λ h. ground arith; less = omega arith })
      where
        admitted :
            (o : Option M)
            → admit rm g.pool.inflight g.mgr ≡ o
            → ((m : M)
                → Keeps fetch fns g.pool
                    (launch_ready fuel fns (record { pool = submit fns g.pool; mgr = m })).pool)
            → Keeps fetch fns g.pool
                (elim o as (λ _. Gate Ref A M) [
                  | none ↦ g
                  | some m ↦ launch_ready fuel fns (record { pool = submit fns g.pool; mgr = m })
                ]).pool
        admitted none e k = record {
          inv = inv;
          busy = λ h. admit-none rm g.pool.inflight g.mgr e;
          less = omega arith;
        }
        admitted (some m) e k = k m

    -- A round of the loop.
    drain_admission-step :
        (wait : ℕ → List Ref → Ref) (fuel : ℕ) (g : Gate Ref A M) (p : Pool Ref A) (r : Ref) (i : ℕ)
        (rest : Dict Ref ℕ)
        → g.pool.inflight ≡ (r, i) ∷ rest
        → finish fetch (wait g.pool.round (keys g.pool.inflight)) g.pool ≡ some p
        → drain_admission fetch wait fns (suc fuel) g
          ≡ drain_admission fetch wait fns fuel
              (launch_ready (length fns) fns (record { pool = p; mgr = rm.release g.mgr }))
    unfolding drain_admission
    drain_admission-step wait fuel g p r i rest e done = rw (e, done, drain_admission) refl

    drain_admission-done :
        (wait : ℕ → List Ref → Ref)
        → Picks wait
        → (fuel : ℕ) (g : Gate Ref A M) → Inv fetch fns g.pool
        → Busy fns g.pool
        → work fns g.pool < fuel
        → (m : M) × (drain_admission fetch wait fns fuel g
            ≡ some (map (λ ref. some (fetch ref)) fns, m))
    unfolding drain_admission
    drain_admission-done wait picks zero g inv busy f = absurd (omega arith)
    drain_admission-done wait picks (suc fuel) g inv busy f =
        elim (inflight-cases g.pool.inflight) [
          | inl e ↦
              (g.mgr, rw e (ap (λ rs. some (rs, g.mgr)) (idle-results fetch fns g.pool e inv busy)))
          | inr (r, i, rest, e) ↦
              let ref = wait g.pool.round (keys g.pool.inflight) in
              let (p, done, inv', same, less) =
                finish-Inv fetch fns fresh ref g.pool (rw e (picks g.pool.round r (keys rest)))
                  inv in
              let freed : Gate Ref A M = record { pool = p; mgr = rm.release g.mgr } in
              let next = launch_ready-Keeps (length fns) freed (omega arith) inv' in
              let (m, runs) =
                drain_admission-done wait picks fuel (launch_ready (length fns) fns freed) next.inv
                  next.busy (omega (arith, next.less)) in
              (m, drain_admission-step wait fuel g p r i rest e done ∙ runs)
        ]

    -- With any manager and any order of `ray.wait`, `run_bounded_admission` ends, and returns every
    -- task's result in the order of submission, when no reference is returned twice.
    pub run_bounded_admission_results :
        (wait : ℕ → List Ref → Ref)
        → Picks wait
        → (m : M)
        → (m' : M) × (run_bounded_admission fetch wait fns m
            ≡ some (map (λ ref. some (fetch ref)) fns, m'))
    unfolding run_bounded_admission idle
    run_bounded_admission_results wait picks m =
        let start : Gate Ref A M = record { pool = idle fns; mgr = m } in
        let first = launch_ready-Keeps (length fns) start (omega arith) (idle-Inv fetch fns) in
        drain_admission-done wait picks (suc (length fns)) (launch_ready (length fns) fns start)
          first.inv first.busy (omega (arith, first.less))

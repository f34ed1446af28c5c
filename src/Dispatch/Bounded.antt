-- ===== src/Dispatch/Bounded.antt =====
-- What `run_bounded` of python/jude/runners/_ray_shim.py returns, and how many tasks it keeps in
-- flight. The measure of its loops is the number of tasks that are not done.
use jude.Prelude.{
  ℕ, zero, suc, ◌+◌, ◌-◌, ◌≤◌, ◌<◌, ◌≡◌, refl, ap, ap₂, ◌⊎◌, inl, inr, Option, some, List, [], ◌∷◌,
  length, map, get_elem?, ltb, leb, ltb→lt, ◌==◌, ◌&&◌, ◌||◌, Eq, lookup, get_elem?-lt, Dict, arith,
  subst, length-insert, insert-pos, Memᴰ, if-elim, get_elem?_of_lt,
}
use jude.Dispatch.{Pool, keys, Picks, idle, submit, fill, drain, submit_next, run_bounded}
use jude.Dispatch.Invariant.{Fresh, Inv, idle-Inv, submit-Inv, finish-Inv}

pub inflight-cases :
    {Ref : Type 0} (d : Dict Ref ℕ)
    → (d ≡ []) ⊎ ((r : Ref) × (i : ℕ) × (rest : Dict Ref ℕ) × (d ≡ (r, i) ∷ rest))
inflight-cases [] = inl refl
inflight-cases ((r, i) ∷ d) = inr (r, i, d, refl)

-- `ray.wait` picks one of the references that it is given when they are at most `window`.
abbrev pub PicksWithin : {Ref : Type 0} → ℕ → (ℕ → List Ref → Ref) → Type 0
PicksWithin {Ref} window wait =
    (round : ℕ) (r : Ref) (refs : List Ref)
    → length (r ∷ refs) ≤ window
    → Memᴰ (wait round (r ∷ refs)) (r ∷ refs)

length-keys : {Ref : Type 0} (d : Dict Ref ℕ) → length (keys d) ≡ length d
length-keys [] = refl
length-keys ((r, i) ∷ d) = ap suc (length-keys d)

module _ {Ref A : Type 0} where
  -- A list that has each task's result at its index is the list of results.
  pub results-ext :
      (fetch : Ref → A) (fns : List Ref) (rs : List (Option A))
      → length rs ≡ length fns
      → ((i : ℕ) (r : Ref) → get_elem? fns i ≡ some r → get_elem? rs i ≡ some (some (fetch r)))
      → rs ≡ map (λ ref. some (fetch ref)) fns
  results-ext fetch [] [] l h = refl
  results-ext fetch [] (y ∷ rs) l h = absurd (omega (arith, l))
  results-ext fetch (f ∷ fns) [] l h = absurd (omega (arith, l))
  results-ext fetch (f ∷ fns) (y ∷ rs) l h =
      let first : some y ≡ some (some (fetch f)) = h 0 f refl in
      let others = results-ext fetch fns rs (omega (arith, l)) (λ i r g. h (suc i) r g) in
      ap₂ (λ z zs. z ∷ zs) (cc first) others

  -- How much is left to do.
  abbrev pub work : List Ref → Pool Ref A → ℕ
  work fns p = length p.inflight + (length fns - p.next_idx)

module _ {Ref A : Type 0} ⦃ref_eq : Eq Ref⦄ where
  -- While a task has not started, some task is in flight.
  abbrev pub Busy : List Ref → Pool Ref A → Type 0
  Busy fns p = p.next_idx < length fns → 0 < length p.inflight

  pub submit-work :
      (fns : List Ref) (p : Pool Ref A)
      → p.next_idx < length fns
      → (work fns (submit fns p) ≤ work fns p)
        × (0 < length (submit fns p).inflight)
        × ((submit fns p).next_idx ≡ p.next_idx + 1)
        × (length (submit fns p).inflight ≤ length p.inflight + 1)
  unfolding submit
  submit-work fns p h =
      let (ref, g) = get_elem?_of_lt fns p.next_idx h in
      rw (g, submit)
        (
          omega (arith, length-insert ref p.next_idx p.inflight),
          insert-pos ref p.next_idx p.inflight,
          refl,
          length-insert ref p.next_idx p.inflight,
        )

  module _ (fetch : Ref → A) (fns : List Ref) where
    -- What a change of the pool keeps.
    pub record Keeps (p p' : Pool Ref A) : Type 0 where
      pub inv : Inv fetch fns p'
      pub busy : Busy fns p'
      pub less : work fns p' ≤ work fns p

    module _ (fresh : Fresh fns) (window : ℕ) (positive : 0 < window) where
      pub fill-Keeps :
          (fuel : ℕ) (p : Pool Ref A)
          → length fns - p.next_idx ≤ fuel
          → length p.inflight ≤ window
          → Inv fetch fns p
          → Keeps p (fill fuel fns window p) × (length (fill fuel fns window p).inflight ≤ window)
      unfolding fill
      fill-Keeps zero p f l inv =
          (record { inv = inv; busy = λ h. omega arith; less = omega arith }, l)
      fill-Keeps (suc fuel) p f l inv =
          if-elim (λ p'. Keeps p p' × (length p'.inflight ≤ window))
            (ltb p.next_idx (length fns) && ltb (length p.inflight) window)
            (λ t.
              let h : p.next_idx < length fns = ground arith in
              let (le, pos, next, room) = submit-work fns p h in
              let (keeps, bound) =
                fill-Keeps fuel (submit fns p) (omega (arith, next)) (ground (arith, room))
                  (submit-Inv fetch fns fresh p h inv) in
              (
                record { inv = keeps.inv; busy = keeps.busy; less = omega (arith, keeps.less) },
                bound,
              ))
            (λ t. (record { inv = inv; busy = λ h. ground arith; less = omega arith }, l))

    pub submit_next-Keeps :
        (fresh : Fresh fns) (p : Pool Ref A)
        → Inv fetch fns p
        → Keeps p (submit_next fns p)
          × (length (submit_next fns p).inflight ≤ length p.inflight + 1)
    unfolding submit_next
    submit_next-Keeps fresh p inv =
        if-elim (λ p'. Keeps p p' × (length p'.inflight ≤ length p.inflight + 1))
          (ltb p.next_idx (length fns))
          (λ t.
            let h = ltb→lt p.next_idx (length fns) t in
            let (le, pos, next, room) = submit-work fns p h in
            (record { inv = submit-Inv fetch fns fresh p h inv; busy = λ _. pos; less = le }, room))
          (λ t. (record { inv = inv; busy = λ h. ground arith; less = omega arith }, omega arith))

    -- With nothing in flight every task has its result.
    pub idle-results :
        (p : Pool Ref A)
        → p.inflight ≡ []
        → Inv fetch fns p
        → Busy fns p
        → p.results ≡ map (λ ref. some (fetch ref)) fns
    unfolding lookup
    idle-results p e inv busy =
        let none_left : ¬ (0 < length p.inflight) =
          λ h. omega (arith, subst (λ d. 0 < length d) e h) in
        let all : length fns ≤ p.next_idx = ground arith in
        results-ext fetch fns p.results inv.sized (λ i r g.
          elim (inv.settled i r g (omega (arith, get_elem?-lt fns i g))) [
            | inl f ↦ cc (subst (λ d. lookup r d ≡ some i) e f)
            | inr d ↦ d
          ])

    -- The second loop ends with every result, when a task is in flight while one has not started,
    -- and no more than `window` are.
    drain-done :
        Fresh fns
        → (wait : ℕ → List Ref → Ref) (window : ℕ) → PicksWithin window wait
        → (fuel : ℕ) (p : Pool Ref A) → Inv fetch fns p
        → Busy fns p
        → length p.inflight ≤ window
        → work fns p < fuel
        → drain fetch wait (submit_next fns) fuel p ≡ some (map (λ ref. some (fetch ref)) fns)
    unfolding drain
    drain-done fresh wait window picks zero p inv busy room f = absurd (omega arith)
    drain-done fresh wait window picks (suc fuel) p inv busy room f =
        elim (inflight-cases p.inflight) [
          | inl e ↦ rw e (ap some (idle-results p e inv busy))
          | inr (r, i, rest, e) ↦
              let ref = wait p.round (keys p.inflight) in
              let few : length (r ∷ keys rest) ≤ window =
                omega (arith, room, ap length e, length-keys rest) in
              let (p', done, inv', same, less) =
                finish-Inv fetch fns fresh ref p (rw e (picks p.round r (keys rest) few)) inv in
              let (next, one) = submit_next-Keeps fresh p' inv' in
              let rest' =
                drain-done fresh wait window picks fuel (submit_next fns p') next.inv next.busy
                  (omega (arith, room, one, less)) (omega (arith, next.less)) in
              rw (e, done, drain) rest'
        ]

  -- When no reference is returned twice, `run_bounded` ends, and returns every task's result in the
  -- order of submission, even with a `ray.wait` that answers one of the references that it is given
  -- only when it is given at most `window` of them, and may answer anything when it is given more:
  -- it never relies on a wait for more tasks than the window.
  pub run_bounded-within :
      (fetch : Ref → A) (wait : ℕ → List Ref → Ref) (window : ℕ)
      → PicksWithin window wait
      → (fns : List Ref) → Fresh fns
      → run_bounded fetch wait fns window ≡ some (map (λ ref. some (fetch ref)) fns)
  unfolding run_bounded
  run_bounded-within fetch wait window picks fns fresh =
      if-elim (λ o. o ≡ some (map (λ ref. some (fetch ref)) fns))
        ((window == 0) || leb (length fns) window) (λ t. refl)
        (λ t.
          let w : 0 < window = ground arith in
          let (filled, room) =
            fill-Keeps fetch fns fresh window w (length fns) (idle fns) (omega arith) (omega arith)
              (idle-Inv fetch fns) in
          drain-done fetch fns fresh wait window picks (suc (length fns))
            (fill (length fns) fns window (idle fns)) filled.inv filled.busy room
            (omega (arith, filled.less)))

  -- With any order of `ray.wait` and any window, `run_bounded` ends, and returns every task's
  -- result in the order of submission, when no reference is returned twice.
  pub run_bounded_results :
      (fetch : Ref → A) (wait : ℕ → List Ref → Ref)
      → Picks wait
      → (fns : List Ref) → Fresh fns
      → (window : ℕ) → run_bounded fetch wait fns window ≡ some (map (λ ref. some (fetch ref)) fns)
  run_bounded_results fetch wait picks fns fresh window =
      run_bounded-within fetch wait window (λ round r refs few. picks round r refs) fns fresh

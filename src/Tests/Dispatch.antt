-- ===== src/Tests/Dispatch.antt =====
-- `run_bounded` with five tasks, two at a time, where the later task always ends first.
use jude.Prelude.{
  ◌-◌, none, if◌then◌else◌, ltb, ℕ, zero, suc, ◌+◌, ◌≡◌, refl, some, List, [], ◌∷◌, length, map,
  arith, Memᴰ, nat_eq, get_elem?, insert, lookup, remove,
}
use jude.Dispatch.{Picks, run_bounded}
use jude.Dispatch.Invariant.{Fresh}
use jude.Dispatch.Admission.{ResourceManager, run_bounded_admission, run_bounded_admission_results}
use jude.Dispatch.Bounded.{PicksWithin, run_bounded_results, run_bounded-within}

abbrev last_of : ℕ → List ℕ → ℕ
last_of r [] = r
last_of r (s ∷ refs) = last_of s refs

abbrev wait_last : ℕ → List ℕ → ℕ
wait_last round [] = 0
wait_last round (r ∷ refs) = last_of r refs

last_of-Mem : (r : ℕ) (refs : List ℕ) → Memᴰ (last_of r refs) (r ∷ refs)
last_of-Mem r [] = Memᴰ.head refl
last_of-Mem r (s ∷ refs) = Memᴰ.tail (last_of-Mem s refs)

wait_last-Picks : Picks wait_last
wait_last-Picks round r refs = last_of-Mem r refs

abbrev tasks : List ℕ
tasks = 20 ∷ 21 ∷ 22 ∷ 23 ∷ 24 ∷ []

-- The reference of a task is 20 more than its index.
tasks-index : (i r : ℕ) → get_elem? tasks i ≡ some r → r ≡ 20 + i
tasks-index zero r h = ground arith
tasks-index (suc zero) r h = ground arith
tasks-index (suc (suc zero)) r h = ground arith
tasks-index (suc (suc (suc zero))) r h = ground arith
tasks-index (suc (suc (suc (suc zero)))) r h = ground arith
tasks-index (suc (suc (suc (suc (suc i))))) r h = cc

tasks-Fresh : Fresh tasks
tasks-Fresh i j r h k = omega (arith, tasks-index i r h, tasks-index j r k)

run_bounded_five :
    run_bounded (λ r. r + 100) wait_last tasks 2
    ≡ some (some 120 ∷ some 121 ∷ some 122 ∷ some 123 ∷ some 124 ∷ [])
unfolding run_bounded insert lookup remove
run_bounded_five = refl

run_bounded_results_example :
    run_bounded (λ r. r + 100) wait_last tasks 2 ≡ some (map (λ ref. some (ref + 100)) tasks)
run_bounded_results_example =
    run_bounded_results (λ r. r + 100) wait_last wait_last-Picks tasks tasks-Fresh 2

-- Like `wait_last`, but no reference of a task when it is given more than two.
abbrev wait_two : ℕ → List ℕ → ℕ
wait_two round refs = if ltb 2 (length refs) then 0 else wait_last round refs

wait_two-PicksWithin : PicksWithin 2 wait_two
wait_two-PicksWithin round r [] few = Memᴰ.head refl
wait_two-PicksWithin round r (s ∷ []) few = Memᴰ.tail (Memᴰ.head refl)
wait_two-PicksWithin round r (s ∷ t ∷ refs) few = absurd (omega (arith, few))

run_bounded-within_example :
    run_bounded (λ r. r + 100) wait_two tasks 2 ≡ some (map (λ ref. some (ref + 100)) tasks)
run_bounded-within_example =
    run_bounded-within (λ r. r + 100) wait_two 2 wait_two-PicksWithin tasks tasks-Fresh

-- A wait for the five tasks together would fault.
wait_two_of_five : run_bounded (λ r. r + 100) wait_two tasks 4 ≡ none
unfolding run_bounded insert lookup remove
wait_two_of_five = refl

-- A manager with room for one task; its state is the number of leases.
abbrev one_lease : ResourceManager ℕ
one_lease = record {
  try_reserve = λ held. if ltb held 1 then some (held + 1) else none;
  reserve = λ held. held + 1;
  release = λ held. held - 1;
}

run_bounded_admission_five :
    run_bounded_admission one_lease (λ r. r + 100) wait_last tasks 0
    ≡ some (some 120 ∷ some 121 ∷ some 122 ∷ some 123 ∷ some 124 ∷ [], 0)
unfolding run_bounded_admission insert lookup remove
run_bounded_admission_five = refl

run_bounded_admission_results_example :
    (m : ℕ) × (run_bounded_admission one_lease (λ r. r + 100) wait_last tasks 0
      ≡ some (map (λ ref. some (ref + 100)) tasks, m))
run_bounded_admission_results_example =
    run_bounded_admission_results one_lease (λ r. r + 100) tasks tasks-Fresh wait_last
      wait_last-Picks 0

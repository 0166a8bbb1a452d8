-- ===== src/Sleeplock/Tests.antt =====
-- Examples for the sleep lock: process 1 has it, and process 2 sleeps.
use os2_project.Base.{ℕ, ◌≡◌, ◌≢◌, refl, true, List, [], ◌∷◌}
use os2_project.Sleeplock.{holding, asleep, run, step_at, initsleeplock, holdingsleep}
use os2_project.Sleeplock.Invariant.{owns, run-exclusive, run-woken}

abbrev owner : ℕ
owner = 1

abbrev steps : List ℕ
steps = 1 ∷ 2 ∷ 1 ∷ 2 ∷ 1 ∷ 2 ∷ 2 ∷ []

one_holds : (run steps initsleeplock).pc 1 ≡ holding
unfolding run step_at
one_holds = refl

two_sleeps : (run steps initsleeplock).pc 2 ≡ asleep
unfolding run step_at
two_sleeps = refl

one_owns : owns ((run steps initsleeplock).pc 1) ≡ true
unfolding run step_at
one_owns = refl

run-exclusive_example :
    (holdingsleep owner (run steps initsleeplock) ≡ true)
    × (owns ((run steps initsleeplock).pc owner) ≡ true → owner ≡ owner)
run-exclusive_example = run-exclusive steps owner owner one_owns

run-woken_example : (j : ℕ) × (2 ≢ j) × (owns ((run steps initsleeplock).pc j) ≡ true)
run-woken_example = run-woken steps 2 two_sleeps

-- Process 1 gives the lock back, and process 2 gets it.
handed_over : (run (1 ∷ 1 ∷ 1 ∷ 2 ∷ 2 ∷ []) (run steps initsleeplock)).pc 2 ≡ holding
unfolding run step_at
handed_over = refl

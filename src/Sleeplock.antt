-- ===== src/Sleeplock.antt =====
-- kernel/sleeplock.c: a sleep lock and the processes that call for it, one step at a time.
pub mod Invariant
mod Tests
use os2_project.Base.{
  ℕ, Bool, true, false, ◌&&◌, Option, none, some, List, [], ◌∷◌, if◌then◌else◌, ◌==◌, update,
}

-- Where a process is: outside; before the `acquire` of the spin lock in `acquiresleep`, which is where
-- a process that `sleep` has woken is too; at the test of the loop there; in `sleep`; with the sleep
-- lock; before the `acquire` in `releasesleep`, and behind it.
pub data Pc : Type 0 where
  outside : Pc
  entering : Pc
  testing : Pc
  asleep : Pc
  holding : Pc
  leaving : Pc
  freeing : Pc

-- `struct sleeplock`, with the process that holds its spin lock. The pid of a process is its number.
pub record Sleeplock : Type 0 where
  pub spin : Option ℕ
  pub locked : Bool
  pub pid : ℕ
  pub pc : ℕ → Pc

-- `wakeup`
abbrev pub wake : Pc → Pc
wake asleep = entering
wake q = q

-- A step of process `i`, which waits in a step that changes nothing. Behind the `acquire` of a spin
-- lock a call runs in one step up to the `release`; so does `sleep`, which gives the lock back.
unfoldable pub step_at : Pc → ℕ → Sleeplock → Sleeplock
step_at outside i s = record s { pc = update s.pc i entering }
step_at entering i s = elim s.spin [
  | none ↦ record s { spin = some i; pc = update s.pc i testing }
  | some j ↦ s
]
step_at testing i s =
    if s.locked
    then record s { spin = none; pc = update s.pc i asleep }
    else record { spin = none; locked = true; pid = i; pc = update s.pc i holding }
step_at asleep i s = s
step_at holding i s = record s { pc = update s.pc i leaving }
step_at leaving i s = elim s.spin [
  | none ↦ record s { spin = some i; pc = update s.pc i freeing }
  | some j ↦ s
]
step_at freeing i s = record {
  spin = none;
  locked = false;
  pid = 0;
  pc = update (λ j. wake (s.pc j)) i outside;
}

-- The processes take steps in the order of a list.
unfoldable pub run : List ℕ → Sleeplock → Sleeplock
run [] s = s
run (i ∷ is) s = run is (step_at (s.pc i) i s)

-- `initsleeplock`
abbrev pub initsleeplock : Sleeplock
initsleeplock = record { spin = none; locked = false; pid = 0; pc = λ i. outside }

-- `holdingsleep` of process `i`
abbrev pub holdingsleep : ℕ → Sleeplock → Bool
holdingsleep i s = s.locked && s.pid == i

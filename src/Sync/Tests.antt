-- ===== src/Sync/Tests.antt =====
-- Runs of the wait queue, the mutex and the semaphore, and their theorems at states that are reached.
use zonix_plus.Base.{[], refl, some, true, ◌∷◌, ◌≡◌}
use zonix_plus.Sync.{down_round, lock_round, unlink_entry, wakeup_all}
use zonix_plus.Sync.Mutexes
use zonix_plus.Sync.Mutexes.{IsExclusive, Reach-IsExclusive, holder-let_go}
use zonix_plus.Sync.Semaphores
use zonix_plus.Sync.Semaphores.{IsServed, Reach-IsServed}

wakeup_all_runs : wakeup_all (1 ∷ 2 ∷ []) ≡ (1 ∷ 2 ∷ [], [])
unfolding wakeup_all
wakeup_all_runs = refl

unlink_entry_runs : unlink_entry 2 (1 ∷ 2 ∷ 3 ∷ []) ≡ 1 ∷ 3 ∷ []
unfolding unlink_entry
unlink_entry_runs = refl

-- Task 4 holds the mutex, task 5 sleeps on it.
abbrev contended : Mutexes.System
contended = record {
  mutex = record { held = true; owner = some 4; waitq = 5 ∷ [] };
  active = [];
  holders = 4 ∷ [];
  wakers = 0;
}

contended-Reach : Mutexes.Reach contended
unfolding lock_round
contended-Reach =
    Mutexes.later
      (Mutexes.later
        (Mutexes.later (Mutexes.later Mutexes.start (Mutexes.enter 4))
          (Mutexes.take 4 [] [] _ refl refl))
        (Mutexes.enter 5))
      (Mutexes.block 5 [] [] _ refl refl)

-- Task 5 sleeps on an empty semaphore, and an up has not woken it yet.
abbrev raised_once : Semaphores.System
raised_once = record {
  sem = record { count = 1; waitq = 5 ∷ [] };
  active = [];
  wakers = 1;
  raised = 1;
  lowered = 0;
}

raised_once-Reach : Semaphores.Reach 0 raised_once
unfolding down_round
raised_once-Reach =
    Semaphores.later
      (Semaphores.later (Semaphores.later Semaphores.start (Semaphores.enter 5))
        (Semaphores.block 5 [] [] _ refl refl))
      Semaphores.up

Reach-IsExclusive_example : IsExclusive contended
Reach-IsExclusive_example = Reach-IsExclusive contended contended-Reach

Reach-IsServed_example : IsServed 0 raised_once
Reach-IsServed_example = Reach-IsServed 0 raised_once raised_once-Reach

-- ===== src/Sync.antt =====
-- kernel/sync: waitqueue.cpp, mutex.cpp and semaphore.cpp. A task is a number; a wait queue is the
-- list of the tasks whose entries hang on it, the first to be woken first. Each section under an
-- interrupt guard or a spinlock is one function; the count of a semaphore is never negative.
pub mod Mutexes
pub mod Semaphores
pub mod Tests
use zonix_plus.Base.{
  Bool, List, Option, [], false, if◌then◌else◌, ltb, none, some, true, ℕ, ◌&&◌, ◌++◌, ◌+◌, ◌-◌,
  ◌==◌, ◌∷◌,
}

-- WaitQueue::sleep, up to the switch: the task's entry is hung in as the last.
abbrev pub enqueue : ℕ → List ℕ → List ℕ
enqueue task waitq = waitq ++ task ∷ []

-- The end of WaitQueue::sleep: the entry is unlinked, if it still hangs there.
unfoldable pub unlink_entry : ℕ → List ℕ → List ℕ
unlink_entry task [] = []
unlink_entry task (t ∷ ts) = let rest = unlink_entry task ts in if t == task then ts else t ∷ rest

-- WaitQueue::wakeup_one, with the task that is woken.
abbrev pub wakeup_one : List ℕ → Option ℕ × List ℕ
wakeup_one [] = (none, [])
wakeup_one (t ∷ ts) = (some t, ts)

-- WaitQueue::wakeup_all: the loop, with the tasks it wakes, in their order.
unfoldable pub wakeup_all : List ℕ → List ℕ × List ℕ
wakeup_all [] = ([], [])
wakeup_all (t ∷ ts) = let (woken, waitq) = wakeup_all ts in (t ∷ woken, waitq)

pub record Mutex : Type 0 where
  pub held : Bool
  pub owner : Option ℕ
  pub waitq : List ℕ

-- One round of the loop of Mutex::lock: true if the task has the lock, false if it sleeps.
unfoldable pub lock_round : ℕ → Mutex → Bool × Mutex
lock_round task m =
    if m.held
    then (false, record m { waitq = enqueue task m.waitq })
    else (true, record m { held = true; owner = some task })

unfoldable pub try_lock : ℕ → Mutex → Bool × Mutex
try_lock task m = if m.held then (false, m) else (true, record m { held = true; owner = some task })

abbrev is_owner : Option ℕ → ℕ → Bool
is_owner none task = false
is_owner (some owner) task = owner == task

-- The first section of Mutex::unlock: none is the failed assertion. wakeup_one follows.
unfoldable pub let_go : ℕ → Mutex → Option Mutex
let_go task m =
    if m.held && is_owner m.owner task then some (record m { held = false; owner = none }) else none

pub record Semaphore : Type 0 where
  pub count : ℕ
  pub waitq : List ℕ

-- One round of the loop of Semaphore::down.
unfoldable pub down_round : ℕ → Semaphore → Bool × Semaphore
down_round task s =
    if ltb 0 s.count
    then (true, record s { count = s.count - 1 })
    else (false, record s { waitq = enqueue task s.waitq })

unfoldable pub try_down : Semaphore → Bool × Semaphore
try_down s = if ltb 0 s.count then (true, record s { count = s.count - 1 }) else (false, s)

-- The first section of Semaphore::up; wakeup_one follows.
abbrev pub raise : Semaphore → Semaphore
raise s = record s { count = s.count + 1 }

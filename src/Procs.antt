-- ===== src/Procs.antt =====
-- kernel/sched/task_table.cpp, process.cpp and the links of task.cpp: the table of tasks, exit and
-- wait. A task is named by a number, as its pointer; its links are the lists that its nodes hang in,
-- newest first. Process numbers are at least 0, so the refusals of negative ones are left out.
pub mod Lookup
pub mod Adopt
pub mod Children
pub mod Exit
pub mod Reaped
pub mod Wait
pub mod Tests
use zonix_plus.Base.{
  Bool, Error, List, Option, [], false, if◌then◌else◌, none, not_found, some, suc, true, update,
  zero, ℕ, ◌%◌, ◌&&◌, ◌*◌, ◌+◌, ◌-◌, ◌/◌, ◌==◌, ◌^◌, ◌||◌, ◌∷◌,
}
use zonix_plus.Sched.{TaskState, is_zombie}

-- TaskManager::pid_hash, in 32 bits; HASH_SHIFT is 10.
unfoldable pub pid_hash : ℕ → ℕ
pid_hash x = x % 2 ^ 32 * 0x61C88647 % 2 ^ 32 / 2 ^ 22

-- The fields of Task that this part uses.
pub record Proc : Type 0 where
  pub pid : ℕ
  pub state : TaskState
  pub exit_code : ℕ
  pub wait_state : Bool
  pub parent : Option ℕ
  pub child_list : List ℕ

-- TaskManager, with the tasks and the current one.
pub record Tasks : Type 0 where
  pub proc : ℕ → Proc
  pub hash_list : ℕ → List ℕ
  pub proc_list : List ℕ
  pub process_count : ℕ
  pub next_pid : ℕ
  pub current : ℕ
  pub init_proc : ℕ

abbrev pub set_proc : ℕ → Proc → Tasks → Tasks
set_proc t p m = record m { proc = update m.proc t p }

-- unlink of a node that hangs in a list
unfoldable pub detach : ℕ → List ℕ → List ℕ
detach t [] = []
detach t (u ∷ us) = let rest = detach t us in if u == t then us else u ∷ rest

-- TaskManager::add_process
unfoldable pub add_process : ℕ → Tasks → Tasks
add_process t m =
    let h = pid_hash (m.proc t).pid in
    record m {
      hash_list = update m.hash_list h (t ∷ m.hash_list h);
      proc_list = t ∷ m.proc_list;
      process_count = m.process_count + 1;
    }

-- TaskManager::remove_process, without its note to the scheduler.
unfoldable pub remove_process : ℕ → Tasks → Tasks
remove_process t m =
    let h = pid_hash (m.proc t).pid in
    record m {
      hash_list = update m.hash_list h (detach t (m.hash_list h));
      proc_list = detach t m.proc_list;
      process_count = m.process_count - 1;
    }

unfoldable pub find_pid : ℕ → (ℕ → Proc) → List ℕ → Option ℕ
find_pid pid proc [] = none
find_pid pid proc (t ∷ ts) =
    let rest = find_pid pid proc ts in if (proc t).pid == pid then some t else rest

-- TaskManager::find_process
unfoldable pub find_process : ℕ → Tasks → Option ℕ
find_process pid m = if pid == 0 then none else find_pid pid m.proc (m.hash_list (pid_hash pid))

-- Task::set_links
unfoldable pub set_links : ℕ → Tasks → Tasks
set_links t m =
    let added = add_process t m in
    elim (m.proc t).parent [
      | none ↦ added
      | some p ↦ set_proc p (record (m.proc p) { child_list = t ∷ (m.proc p).child_list }) added
    ]

-- Task::remove_links, of a child of `p`.
unfoldable pub remove_links : ℕ → ℕ → Tasks → Tasks
remove_links p t m =
    set_proc p (record (m.proc p) { child_list = detach t (m.proc p).child_list })
      (remove_process t m)

-- The last section of fork, which publishes the new task `t`; its parent is the current task.
unfoldable pub publish_task : ℕ → Tasks → ℕ × Tasks
publish_task t m =
    let p : Proc = record {
      pid = m.next_pid;
      state = TaskState.runnable;
      exit_code = 0;
      wait_state = false;
      parent = some m.current;
      child_list = [];
    } in
    (m.next_pid, set_links t (record (set_proc t p m) { next_pid = m.next_pid + 1 }))

-- Task::wakeup: none is the failed assertion.
unfoldable pub wake : ℕ → Tasks → Option Tasks
wake t m =
    if is_zombie (m.proc t).state
    then none
    else some (set_proc t (record (m.proc t) { state = TaskState.runnable }) m)

-- Wake a task that waits for a child.
unfoldable pub wake_waiter : ℕ → Tasks → Option Tasks
wake_waiter t m = if (m.proc t).wait_state then wake t m else some m

-- The body of the loop of exit: the child `c` is given to init.
unfoldable pub adopt : ℕ → List ℕ → Tasks → Option Tasks
adopt c cs m =
    let i = m.init_proc in
    let m₁ = set_proc m.current (record (m.proc m.current) { child_list = cs }) m in
    let m₂ = set_proc c (record (m₁.proc c) { parent = some i }) m₁ in
    let m₃ = set_proc i (record (m₂.proc i) { child_list = c ∷ (m₂.proc i).child_list }) m₂ in
    if is_zombie (m₃.proc c).state then wake_waiter i m₃ else some m₃

-- The loop of exit, none without fuel or with a failed assertion.
unfoldable pub adopt_all : ℕ → Tasks → Option Tasks
adopt_all zero m = none
adopt_all (suc fuel) m = elim (m.proc m.current).child_list [
  | [] ↦ some m
  | c ∷ cs ↦ elim (adopt c cs m) [ none ↦ none | some m' ↦ adopt_all fuel m' ]
]

unfoldable pub wake_parent : Option ℕ → Tasks → Option Tasks
wake_parent none m = some m
wake_parent (some q) m = wake_waiter q m

-- TaskManager::exit, up to the switch to another task.
unfoldable pub exit_task : ℕ → ℕ → Tasks → Option Tasks
exit_task fuel code m =
    let p = m.proc m.current in
    let m' = set_proc m.current (record p { state = TaskState.zombie; exit_code = code }) m in
    elim (wake_parent p.parent m') [ none ↦ none | some m'' ↦ adopt_all fuel m'' ]

-- The children that wait(pid) looks at; 0 stands for all.
abbrev pub is_wanted : ℕ → Proc → Bool
is_wanted pid p = pid == 0 || p.pid == pid

unfoldable pub find_zombie : ℕ → (ℕ → Proc) → List ℕ → Option ℕ
find_zombie pid proc [] = none
find_zombie pid proc (c ∷ cs) =
    let rest = find_zombie pid proc cs in
    if is_wanted pid (proc c) && is_zombie (proc c).state then some c else rest

unfoldable pub has_children : ℕ → (ℕ → Proc) → List ℕ → Bool
has_children pid proc [] = false
has_children pid proc (c ∷ cs) = is_wanted pid (proc c) || has_children pid proc cs

-- What a round of wait comes to: a child is reaped, with its pid and exit code; there is none; or
-- the task sleeps until it is woken.
pub data Waited : Type 0 where
  reaped : ℕ → ℕ → Tasks → Waited
  refused : Error → Waited
  asleep : Tasks → Waited

-- One round of the loop of TaskManager::wait, up to the switch to another task.
unfoldable pub wait_round : ℕ → Tasks → Waited
wait_round pid m =
    let p = m.proc m.current in
    elim (find_zombie pid m.proc p.child_list) [
      | some c ↦ reaped (m.proc c).pid (m.proc c).exit_code (remove_links m.current c m)
      | none ↦
          if has_children pid m.proc p.child_list
          then asleep
              (set_proc m.current (record p { wait_state = true; state = TaskState.sleeping }) m)
          else refused not_found
    ]

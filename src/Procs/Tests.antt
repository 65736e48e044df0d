-- ===== src/Procs/Tests.antt =====
-- Runs of the task table, exit and wait, and their theorems at a small family of tasks.
use zonix_plus.Base.{
  Bool, List, Option, [], arith, false, none, refl, some, sym, true, update, ℕ, ◌∷◌, ◌≡◌,
}
use zonix_plus.Sched.{TaskState}
use zonix_plus.Procs.{
  Proc, Tasks, Waited, add_process, exit_task, find_process, pid_hash, publish_task, remove_process,
  wait_round,
}
use zonix_plus.Procs.Exit.{CanExit, IsExited, exit_task-IsExited}
use zonix_plus.Procs.Wait.{Answers, wait_round-Answers}

abbrev task : ℕ → TaskState → Bool → Option ℕ → List ℕ → Proc
task pid state waits parent children = record {
  pid = pid;
  state = state;
  exit_code = 0;
  wait_state = waits;
  parent = parent;
  child_list = children;
}

-- Task 1 is init and sleeps in wait; its child 2 runs, with the children 3, a zombie, and 4.
abbrev family : Tasks
family = record {
  proc =
      update
        (update
          (update
            (update (λ t. task 0 TaskState.uninit false none []) 1
              (task 1 TaskState.sleeping true none (2 ∷ [])))
            2 (task 2 TaskState.running false (some 1) (4 ∷ 3 ∷ [])))
          3 (task 3 TaskState.zombie false (some 2) []))
        4 (task 4 TaskState.runnable false (some 2) []);
  hash_list = λ h. [];
  proc_list = 4 ∷ 3 ∷ 2 ∷ 1 ∷ [];
  process_count = 4;
  next_pid = 5;
  current = 2;
  init_proc = 1;
}

pid_hash_runs : pid_hash 1 ≡ 391
unfolding pid_hash
pid_hash_runs = refl

publish_task_runs : ((publish_task 9 family).1.proc 2).child_list ≡ 9 ∷ 4 ∷ 3 ∷ []
unfolding publish_task zonix_plus.Procs.set_links
publish_task_runs = refl

family-CanExit : CanExit family
family-CanExit = record {
  apart = refl;
  init_alive = refl;
  parent_apart = λ q e. let same : 1 ≡ q = cc in rw (sym same) refl;
  parent_alive = λ q e. let same : 1 ≡ q = cc in rw (sym same) refl;
}

exit_task-IsExited_example : (m' : Tasks) × (exit_task 3 7 family ≡ some m') × IsExited 7 family m'
exit_task-IsExited_example = exit_task-IsExited 3 7 family (omega arith) family-CanExit

wait_round-Answers_example : Answers 0 family (wait_round 0 family)
wait_round-Answers_example = wait_round-Answers 0 family

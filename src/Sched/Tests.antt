-- ===== src/Sched/Tests.antt =====
-- Runs of the scheduler, and its theorems at inputs that meet their hypotheses.
use mathlib.Core.Option
use zonix_plus.Base.{
  Bool-cases, In, [], arith, false, if◌then◌else◌, inl, inr, none, refl, some, true, ℕ, ◌==◌, ◌∷◌,
  ◌≡◌,
}
use mathlib.Core.Bool.{false≢true}
use mathlib.Core.Path.{subst}
use zonix_plus.Ring.{Links, circular_walk, add_before, set_next, set_prev}
use zonix_plus.Ring.Segment.{IsRing}
use zonix_plus.Ring.Insert.{add_before-IsRing}
use zonix_plus.Sched.{
  Task, TaskState, Scheduler, eligible, pick_next, start_cursor, schedule, page_table_root_pa,
}
use zonix_plus.Sched.Switch.{IsScheduled, schedule-IsScheduled}
use zonix_plus.Sched.Fair.{IsBest, picks, picks-fair}

abbrev ready : Task
ready = record {
  state = TaskState.runnable;
  priority = 10;
  time_slice = 3;
  need_resched = false;
  page_table = some 64;
}

abbrev asleep : Task
asleep = record {
  state = TaskState.sleeping;
  priority = 0;
  time_slice = 0;
  need_resched = false;
  page_table = some 64;
}

abbrev idling : Task
idling = record {
  state = TaskState.running;
  priority = 31;
  time_slice = 0;
  need_resched = false;
  page_table = some 64;
}

-- The head of the task list is 0, the idle task 1; task 2 sleeps, tasks 3 and 4 are ready.
abbrev tasks : ℕ → Task
tasks p = if p == 1 then idling else if p == 2 then asleep else ready

abbrev alone : Links
alone = record { next = λ q. q; prev = λ q. q }

abbrev four : Links
unfolding add_before set_next set_prev
four = add_before 0 4 (add_before 0 3 (add_before 0 2 (add_before 0 1 alone)))

four-IsRing : IsRing four 0 (1 ∷ 2 ∷ 3 ∷ 4 ∷ [])
unfolding four
four-IsRing =
    add_before-IsRing _ 0 4 (1 ∷ 2 ∷ 3 ∷ [])
      (add_before-IsRing _ 0 3 (1 ∷ 2 ∷ [])
        (add_before-IsRing _ 0 2 (1 ∷ [])
          (add_before-IsRing alone 0 1 [] (record { linked = (refl, refl); distinct = (tt, tt) })
            (omega arith, tt))
          (omega arith, (omega arith, tt)))
        (omega arith, (omega arith, (omega arith, tt))))
      (omega arith, (omega arith, (omega arith, (omega arith, tt))))

abbrev busy : Scheduler
busy = record {
  task = tasks;
  links = four;
  task_list = 0;
  idle = 1;
  cursor = some 4;
  current = some 3;
  loaded_root = 80;
  tick_count = 0;
  schedule_calls = 0;
  need_resched_events = 0;
  context_switches = 0;
  same_task_runs = 0;
  pick_idle = 0;
  pick_non_idle = 0;
}

pick_runs : pick_next 4 busy ≡ (4, some 0)
unfolding pick_next circular_walk eligible four
pick_runs = refl

schedule_runs : Option.map (λ (s : Scheduler). s.current) (schedule 4 busy) ≡ some (some 4)
unfolding schedule circular_walk eligible four
schedule_runs = refl

start_busy : start_cursor four 0 (some 4) ≡ 4
unfolding start_cursor
start_busy = refl

three-IsBest : IsBest busy (1 ∷ 2 ∷ 3 ∷ 4 ∷ []) 3
unfolding eligible
three-IsBest = record {
  eligible_best = refl;
  bounded = omega arith;
  best = λ q i e. elim i [
    | inl r ↦ absurd (false≢true (subst (λ (x : ℕ). eligible tasks 1 (some 3) x ≡ true) r e))
    | inr (inl r) ↦ absurd (false≢true (subst (λ (x : ℕ). eligible tasks 1 (some 3) x ≡ true) r e))
    | inr (inr (inl r)) ↦ rw r (omega arith)
    | inr (inr (inr (inl r))) ↦ rw r (omega arith)
    | inr (inr (inr (inr r))) ↦ elim r [ ]
  ];
}

picks-fair_example : In 3 (picks 4 4 busy)
picks-fair_example =
    picks-fair busy (1 ∷ 2 ∷ 3 ∷ 4 ∷ []) 4 3 four-IsRing refl (inr (inr (inr (inl refl))))
      (inr (inr (inl refl))) three-IsBest

-- Task 3 is running, on page tables of its own, and the idle task is ready.
abbrev running_three : Scheduler
running_three = record busy {
  task = λ p.
      if p == 3
      then record ready { state = TaskState.running; page_table = some 80 }
      else if p == 2
      then asleep
      else ready;
}

running_three-IsScheduled : IsScheduled running_three 3
unfolding page_table_root_pa
running_three-IsScheduled = record {
  is_current = refl;
  alone = λ q n.
      let other : (q == 3) ≡ false = ground arith in
      rw other (elim (Bool-cases (q == 2)) [ inl e ↦ rw e refl | inr e ↦ rw e refl ]);
  loaded = refl;
  mapped = λ q h. ground arith;
  idle_mapped = refl;
  idle_alive = refl;
}

-- The page tables of task 4 are loaded with it.
schedule_loads : Option.map (λ (s : Scheduler). s.loaded_root) (schedule 4 running_three) ≡ some 64
unfolding schedule circular_walk eligible four
schedule_loads = refl

-- A task without page tables fails the assertion.
schedule_unmapped :
    schedule 4 (record running_three {
      task = λ p. if p == 4 then record ready { page_table = none } else running_three.task p;
    })
    ≡ none
unfolding schedule circular_walk eligible four
schedule_unmapped = refl

schedule-IsScheduled_example :
    (s' : Scheduler) × (schedule 4 running_three ≡ some s')
    × IsScheduled s' (pick_next 4 running_three).0
    × (s'.cursor ≡ (pick_next 4 running_three).1)
schedule-IsScheduled_example = schedule-IsScheduled 4 3 running_three running_three-IsScheduled

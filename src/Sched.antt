-- ===== src/Sched.antt =====
-- kernel/sched/sched_priority_rr.cpp, sched.cpp, sched.h and the task states of task.cpp: the
-- scheduler. A task is named by the name of its list node. Priorities and time slices are not
-- negative in the source (priorities are 10 and 31, and inherited), so they are natural numbers.
pub mod Slice
pub mod Pick
pub mod Turn
pub mod Fair
pub mod Switch
pub mod Tests
use zonix_plus.Base.{
  Bool, List, Option, [], false, if◌then◌else◌, leb, ltb, none, not, some, true, update, ℕ, ◌%◌,
  ◌&&◌, ◌*◌, ◌+◌, ◌-◌, ◌/◌, ◌==◌, ◌^◌, ◌||◌, ◌∷◌,
}
use zonix_plus.Ring.{Links, circular_walk}

pub data TaskState : Type 0 where
  uninit sleeping runnable running zombie : TaskState

abbrev pub is_runnable : TaskState → Bool
is_runnable TaskState.runnable = true
is_runnable s = false

abbrev pub is_running : TaskState → Bool
is_running TaskState.running = true
is_running s = false

abbrev pub is_zombie : TaskState → Bool
is_zombie TaskState.zombie = true
is_zombie s = false

-- The fields of Task that the scheduler uses. `page_table` is the physical address of memory()->pgdir,
-- none if one of these pointers is null.
pub record Task : Type 0 where
  pub state : TaskState
  pub priority : ℕ
  pub time_slice : ℕ
  pub need_resched : Bool
  pub page_table : Option ℕ

abbrev pub base_timeslice : ℕ
base_timeslice = 10

abbrev pub lowest_priority : ℕ
lowest_priority = 20

abbrev pub default_priority : ℕ
default_priority = 10

abbrev pub idle_prio : ℕ
idle_prio = 31

-- SchedulerPolicy::calc_time_slice. Below 0 the source's `int` product is cut to 1 as well.
unfoldable pub calc_time_slice : ℕ → ℕ
calc_time_slice priority =
    let slice = base_timeslice * (lowest_priority + 1 - priority) / (default_priority + 1) in
    if ltb slice 1 then 1 else slice

-- Scheduler, SchedulerPolicy and what they use of TaskManager. `loaded_root` is the root of the page
-- tables that arch_load_page_table_root loaded last.
pub record Scheduler : Type 0 where
  pub task : ℕ → Task
  pub links : Links
  pub task_list : ℕ
  pub idle : ℕ
  pub cursor : Option ℕ
  pub current : Option ℕ
  pub loaded_root : ℕ
  pub tick_count : ℕ
  pub schedule_calls : ℕ
  pub need_resched_events : ℕ
  pub context_switches : ℕ
  pub same_task_runs : ℕ
  pub pick_idle : ℕ
  pub pick_non_idle : ℕ

abbrev u64 : ℕ
u64 = 2 ^ 64

-- SchedulerPolicy::tick on a task that is not the idle one
unfoldable pub tick_task : Task → Task
tick_task t =
    let left = if ltb 0 t.time_slice then t.time_slice - 1 else t.time_slice in
    record t { time_slice = left; need_resched = if leb left 0 then true else t.need_resched }

-- Scheduler::tick
unfoldable pub tick : Scheduler → Scheduler
unfolding tick_task
tick s =
    let counted = record s { tick_count = (s.tick_count + 1) % u64 } in
    elim s.current [
      | none ↦ counted
      | some c ↦ if c == s.idle then counted else record counted {
        task = update s.task c (tick_task (s.task c));
        need_resched_events =
            if not (s.task c).need_resched && (tick_task (s.task c)).need_resched
            then (s.need_resched_events + 1) % u64
            else s.need_resched_events;
      }
    ]

-- SchedulerPolicy::task_removed
unfoldable pub task_removed : ℕ → Option ℕ → Option ℕ
task_removed t none = none
task_removed t (some c) = if c == t then none else some c

-- The condition of pick_next on a task.
unfoldable pub eligible : (ℕ → Task) → ℕ → Option ℕ → ℕ → Bool
eligible task idle current p =
    let is_current : Bool = elim current [ none ↦ false | some c ↦ p == c ] in
    (is_runnable (task p).state || is_current && is_running (task p).state) && not (p == idle)

-- The loop of pick_next: `next` and `best_prio`.
unfoldable pub scan : (ℕ → Task) → ℕ → Option ℕ → List ℕ → ℕ × ℕ → ℕ × ℕ
scan task idle current [] best = best
scan task idle current (p ∷ rest) best =
    let better = eligible task idle current p && ltb (task p).priority best.1 in
    scan task idle current rest (if better then (p, (task p).priority) else best)

-- `cursor_` as pick_next sets it first.
unfoldable pub start_cursor : Links → ℕ → Option ℕ → ℕ
start_cursor l head none = l.next head
start_cursor l head (some c) = if c == head then l.next head else c

-- SchedulerPolicy::pick_next, with fuel for the rounds of the circle: the next task and the cursor.
unfoldable pub pick_next : ℕ → Scheduler → ℕ × Option ℕ
unfolding start_cursor scan
pick_next rounds s =
    let start = start_cursor s.links s.task_list s.cursor in
    let order = circular_walk rounds s.task_list (some start) s.links in
    let next = (scan s.task s.idle s.current order (s.idle, idle_prio + 1)).0 in
    (next, if next == s.idle then some start else some (s.links.next next))

-- Task::wakeup, with its assertion
unfoldable pub wakeup : Task → Option Task
wakeup t = if is_zombie t.state then none else some (record t { state = TaskState.runnable })

-- Task::mark_running, with its assertion
unfoldable pub mark_running : Task → Option Task
mark_running t = if is_zombie t.state then none else some (record t { state = TaskState.running })

-- Task::page_table_root_pa, with its assertion
unfoldable pub page_table_root_pa : Task → Option ℕ
page_table_root_pa t = t.page_table

-- Task::run of a task that is not the current one, `prev`, up to the kernel stack and the context
-- switch: none is a failed assertion.
unfoldable pub run : ℕ → ℕ → Scheduler → Option Scheduler
unfolding mark_running page_table_root_pa
run next prev s = elim (mark_running (s.task next)) [
  | none ↦ none
  | some t ↦
      let task = update s.task next t in
      elim (page_table_root_pa (task next)) [
        | none ↦ none
        | some next_root ↦ elim (page_table_root_pa (task prev)) [
          | none ↦ none
          | some previous_root ↦ some (record s {
            task = task;
            current = some next;
            loaded_root = if next_root == previous_root then s.loaded_root else next_root;
          })
        ]
      ]
]

-- The switch of schedule from `c` to another task: none is a failed assertion.
unfoldable pub switch_task : ℕ → ℕ → Scheduler → Option Scheduler
unfolding wakeup run
switch_task c next s =
    elim (if is_running (s.task c).state then wakeup (s.task c) else some (s.task c)) [
      | none ↦ none
      | some left ↦
          run next c (record s { task = update s.task c (record left { need_resched = false }) })
    ]

-- schedule up to the choice of a switch: the counters, and a new time slice for the next task.
unfoldable pub note_pick : ℕ → Option ℕ → Scheduler → Scheduler
unfolding calc_time_slice
note_pick next cursor s =
    let t = s.task next in
    let slice = if leb t.time_slice 0 then calc_time_slice t.priority else t.time_slice in
    record s {
      task = update s.task next (record t { time_slice = slice });
      cursor = cursor;
      schedule_calls = (s.schedule_calls + 1) % u64;
      pick_idle = if next == s.idle then (s.pick_idle + 1) % u64 else s.pick_idle;
      pick_non_idle = if next == s.idle then s.pick_non_idle else (s.pick_non_idle + 1) % u64;
    }

-- The branch of schedule that stays on the current task.
unfoldable pub stay : ℕ → Scheduler → Scheduler
stay c s = record s {
  same_task_runs = (s.same_task_runs + 1) % u64;
  task = update s.task c (record (s.task c) { need_resched = false });
}

abbrev pub count_switch : Scheduler → Scheduler
count_switch s = record s { context_switches = (s.context_switches + 1) % u64 }

-- Scheduler::schedule up to the context switch. No current task (a null pointer) and a failed
-- assertion give none.
unfoldable pub schedule : ℕ → Scheduler → Option Scheduler
unfolding pick_next note_pick switch_task stay
schedule rounds s =
    let (next, cursor) = pick_next rounds s in
    let noted = note_pick next cursor s in
    elim s.current [
      | none ↦ none
      | some c ↦ if next == c then some (stay c noted) else switch_task c next (count_switch noted)
    ]

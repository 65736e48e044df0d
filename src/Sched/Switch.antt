-- ===== src/Sched/Switch.antt =====
-- What schedule leaves behind: one running task at most.
use mathlib.Core.Path.{subst}
use zonix_plus.Base.{
  ==_refl, Bool, Bool-cases, Option, ap, arith, false, if◌then◌else◌, inl, inr, is_none, none, refl,
  some, sym, true, update, ℕ, ℕ_discrete, ◌&&◌, ◌+◌, ◌==◌, ◌||◌, ◌∙◌, ◌≡◌, ◌≢◌, ◌⊎◌,
}
use zonix_plus.Ring.{circular_walk}
use zonix_plus.Sched.{
  Task, TaskState, Scheduler, page_table_root_pa, run, is_runnable, is_running, is_zombie, eligible,
  pick_next, start_cursor, idle_prio, switch_task, note_pick, stay, count_switch, schedule, wakeup,
  mark_running,
}
use zonix_plus.Sched.Pick.{scan-cases}

-- `c` is the current task, its page tables are loaded, and no other task is in the state Running. The
-- idle task and every task that is ready can be run: they have page tables.
pub record IsScheduled (s : Scheduler) (c : ℕ) : Type 0 where
  pub is_current : s.current ≡ some c
  pub alone : (q : ℕ) → q ≢ c → is_running (s.task q).state ≡ false
  pub loaded : page_table_root_pa (s.task c) ≡ some s.loaded_root
  pub mapped :
      (q : ℕ)
      → is_runnable (s.task q).state ≡ true
      → is_none (page_table_root_pa (s.task q)) ≡ false
  pub idle_mapped : is_none (page_table_root_pa (s.task s.idle)) ≡ false
  pub idle_alive : is_zombie (s.task s.idle).state ≡ false

ready-not_zombie :
    (state : TaskState) (a b : Bool)
    → ((is_runnable state || a && is_running state) && b) ≡ true
    → is_zombie state ≡ false
ready-not_zombie TaskState.zombie true b h = cc
ready-not_zombie TaskState.zombie false b h = cc
ready-not_zombie TaskState.uninit a b h = refl
ready-not_zombie TaskState.sleeping a b h = refl
ready-not_zombie TaskState.runnable a b h = refl
ready-not_zombie TaskState.running a b h = refl

eligible-not_zombie :
    (task : ℕ → Task) (idle : ℕ) (current : Option ℕ) (p : ℕ)
    → eligible task idle current p ≡ true
    → is_zombie (task p).state ≡ false
unfolding eligible
eligible-not_zombie task idle current p h = ready-not_zombie (task p).state _ _ h

running-not_zombie : (state : TaskState) → is_running state ≡ true → is_zombie state ≡ false
running-not_zombie TaskState.zombie h = cc
running-not_zombie TaskState.uninit h = cc
running-not_zombie TaskState.sleeping h = cc
running-not_zombie TaskState.runnable h = refl
running-not_zombie TaskState.running h = refl

-- The states after a switch from `c`, which becomes ready if it was running, to a task with the page
-- tables `root`.
abbrev switched : ℕ → ℕ → ℕ → Scheduler → Scheduler
switched c next root s =
    let left =
      if is_running (s.task c).state
      then record (s.task c) { state = TaskState.runnable }
      else s.task c in
    record s {
      task =
          update (update s.task c (record left { need_resched = false })) next
            (record (s.task next) { state = TaskState.running });
      current = some next;
      loaded_root = root;
    }

loads : (root loaded : ℕ) → (if root == loaded then loaded else root) ≡ root
loads root loaded = ground arith

run-eq :
    (next prev root : ℕ) (s : Scheduler)
    → prev ≢ next
    → is_zombie (s.task next).state ≡ false
    → page_table_root_pa (s.task next) ≡ some root
    → page_table_root_pa (s.task prev) ≡ some s.loaded_root
    → run next prev s
      ≡ some (record s {
        task = update s.task next (record (s.task next) { state = TaskState.running });
        current = some next;
        loaded_root = root;
      })
unfolding run mark_running page_table_root_pa
run-eq next prev root s d z e e' =
    let apart : (next == prev) ≡ false = ground arith in
    rw (z, run, ==_refl next, e, apart, e', loads root s.loaded_root)
      λ i. some (record s {
        task =
            update s.task next
              (record (s.task next) { state = TaskState.running; page_table = e i });
        current = some next;
        loaded_root = root;
      })

switch_task-eq :
    (c next root : ℕ) (s : Scheduler)
    → c ≢ next
    → is_zombie (s.task next).state ≡ false
    → page_table_root_pa (s.task next) ≡ some root
    → page_table_root_pa (s.task c) ≡ some s.loaded_root
    → switch_task c next s ≡ some (switched c next root s)
unfolding switch_task wakeup page_table_root_pa
switch_task-eq c next root s d z e e' =
    let apart : (c == next) ≡ false = ground arith in
    elim (Bool-cases (is_running (s.task c).state)) [
      | inl r ↦
          let left = record (s.task c) { state = TaskState.runnable; need_resched = false } in
          rw (r, switch_task, running-not_zombie (s.task c).state r)
            (run-eq next c root (record s { task = update s.task c left }) d (rw apart z)
                (rw apart e) (rw (==_refl c) e')
              ∙ rw apart refl)
      | inr r ↦
          let left = record (s.task c) { need_resched = false } in
          rw (r, switch_task)
            (run-eq next c root (record s { task = update s.task c left }) d (rw apart z)
                (rw apart e) (rw (==_refl c) e')
              ∙ rw apart refl)
    ]

module _ (c next root : ℕ) (s : Scheduler) (apart : c ≢ next) where
  switched-alone :
      ((q : ℕ) → q ≢ c → is_running (s.task q).state ≡ false)
      → (q : ℕ) → q ≢ next
      → is_running ((switched c next root s).task q).state ≡ false
  switched-alone alone q n =
      let other : (next == q) ≡ false = ground arith in
      rw other (elim (ℕ_discrete c q) [
        | yes e ↦ rw (sym e) (
            rw (==_refl c) (elim (Bool-cases (is_running (s.task c).state)) [
              | inl r ↦ rw r refl
              | inr r ↦ rw r r
            ]))
        | no d ↦ let other : (c == q) ≡ false = ground arith in rw other (alone q (λ e. d (sym e)))
      ])

  switched-page_table :
      (q : ℕ) → page_table_root_pa ((switched c next root s).task q) ≡ page_table_root_pa (s.task q)
  unfolding page_table_root_pa
  switched-page_table q = ground arith

  switched-runnable :
      (q : ℕ)
      → is_runnable ((switched c next root s).task q).state ≡ true
      → (q ≡ c) ⊎ (is_runnable (s.task q).state ≡ true)
  switched-runnable q h = ground arith

  switched-alive :
      (q : ℕ)
      → is_zombie (s.task q).state ≡ false
      → is_zombie ((switched c next root s).task q).state ≡ false
  switched-alive q h = ground arith

-- What IsScheduled reads of a state.
record IsAlike (s s' : Scheduler) : Type 0 where
  current : s'.current ≡ s.current
  idle : s'.idle ≡ s.idle
  root : s'.loaded_root ≡ s.loaded_root
  states : (q : ℕ) → (s'.task q).state ≡ (s.task q).state
  tables : (q : ℕ) → page_table_root_pa (s'.task q) ≡ page_table_root_pa (s.task q)

alike-IsScheduled : (s s' : Scheduler) (c : ℕ) → IsAlike s s' → IsScheduled s c → IsScheduled s' c
alike-IsScheduled s s' c a i = record {
  is_current = a.current ∙ i.is_current;
  alone = λ q n. ap is_running (a.states q) ∙ i.alone q n;
  loaded = a.tables c ∙ i.loaded ∙ ap some (sym a.root);
  mapped = λ q h. ap is_none (a.tables q) ∙ i.mapped q (sym (ap is_runnable (a.states q)) ∙ h);
  idle_mapped =
      ap (λ q. is_none (page_table_root_pa (s'.task q))) a.idle
      ∙ ap is_none (a.tables s.idle)
      ∙ i.idle_mapped;
  idle_alive =
      ap (λ q. is_zombie (s'.task q).state) a.idle ∙ ap is_zombie (a.states s.idle) ∙ i.idle_alive;
}

note_pick-IsAlike :
    (next : ℕ) (cursor : Option ℕ) (s : Scheduler) → IsAlike s (note_pick next cursor s)
unfolding note_pick page_table_root_pa
note_pick-IsAlike next cursor s = record {
  current = refl;
  idle = refl;
  root = refl;
  states = λ q. ground arith;
  tables = λ q. ground arith;
}

stay-IsAlike : (c : ℕ) (s : Scheduler) → IsAlike s (stay c s)
unfolding stay page_table_root_pa
stay-IsAlike c s = record {
  current = refl;
  idle = refl;
  root = refl;
  states = λ q. ground arith;
  tables = λ q. ground arith;
}

note_pick-cursor :
    (next : ℕ) (cursor : Option ℕ) (s : Scheduler) → (note_pick next cursor s).cursor ≡ cursor
unfolding note_pick
note_pick-cursor next cursor s = refl

count_switch-IsAlike : (s : Scheduler) → IsAlike s (count_switch s)
count_switch-IsAlike s = record {
  current = refl;
  idle = refl;
  root = refl;
  states = λ q. refl;
  tables = λ q. refl;
}

is_none-false : (o : Option ℕ) → is_none o ≡ false → (r : ℕ) × (o ≡ some r)
is_none-false none h = absurd cc
is_none-false (some r) h = (r, refl)

stay-cursor : (c : ℕ) (s : Scheduler) → (stay c s).cursor ≡ s.cursor
unfolding stay
stay-cursor c s = refl

eligible-runnable :
    (task : ℕ → Task) (idle c : ℕ) (current : Option ℕ) (p : ℕ)
    → current ≡ some c
    → p ≢ c
    → eligible task idle current p ≡ true
    → is_runnable (task p).state ≡ true
unfolding eligible
eligible-runnable task idle c current p e d h = ground arith

-- Another task that pick_next chooses is no zombie and has page tables.
pick_next-runs :
    (rounds c : ℕ) (s : Scheduler)
    → IsScheduled s c
    → (pick_next rounds s).0 ≢ c
    → (is_zombie (s.task (pick_next rounds s).0).state ≡ false)
      × (is_none (page_table_root_pa (s.task (pick_next rounds s).0)) ≡ false)
unfolding pick_next
pick_next-runs rounds c s i d =
    let order =
      circular_walk rounds s.task_list (some (start_cursor s.links s.task_list s.cursor)) s.links in
    elim (scan-cases s.task s.idle s.current order s.idle (idle_prio + 1)) [
      | inl c ↦ rw c.0 (i.idle_alive, i.idle_mapped)
      | inr f ↦ (
        eligible-not_zombie s.task s.idle s.current _ f.chosen,
        i.mapped _ (eligible-runnable s.task s.idle c s.current _ i.is_current d f.chosen),
      )
    ]

switched-IsScheduled :
    (c next root : ℕ) (s : Scheduler)
    → c ≢ next
    → IsScheduled s c
    → page_table_root_pa (s.task next) ≡ some root
    → IsScheduled (switched c next root s) next
switched-IsScheduled c next root s d i e =
    let tables = switched-page_table c next root s d in
    record {
      is_current = refl;
      alone = switched-alone c next root s d i.alone;
      loaded = tables next ∙ e;
      mapped = λ q h. ap is_none (tables q) ∙ elim (switched-runnable c next root s d q h) [
        | inl same ↦ rw same (ap is_none i.loaded)
        | inr ready ↦ i.mapped q ready
      ];
      idle_mapped = ap is_none (tables s.idle) ∙ i.idle_mapped;
      idle_alive = switched-alive c next root s d s.idle i.idle_alive;
    }

schedule-current :
    (rounds c : ℕ) (s : Scheduler)
    → s.current ≡ some c
    → (let next = (pick_next rounds s).0 in
        let noted = note_pick next (pick_next rounds s).1 s in
        schedule rounds s
        ≡ (if next == c then some (stay c noted) else switch_task c next (count_switch noted)))
unfolding schedule
schedule-current rounds c s e = rw e refl

-- From a state in which only the current task is running, its page tables are loaded, and the idle task
-- and all ready tasks have page tables, schedule returns: none of its assertions fails, those on the
-- page tables of both tasks included. The task that pick_next chose becomes the current one, its page
-- tables are the loaded ones, the cursor is as pick_next left it, and again no other task is running
-- and the idle task and all ready tasks have page tables.
pub schedule-IsScheduled :
    (rounds c : ℕ) (s : Scheduler)
    → IsScheduled s c
    → (s' : Scheduler) × (schedule rounds s ≡ some s')
      × IsScheduled s' (pick_next rounds s).0
      × (s'.cursor ≡ (pick_next rounds s).1)
schedule-IsScheduled rounds c s i =
    let next = (pick_next rounds s).0 in
    let cursor = (pick_next rounds s).1 in
    let noted = note_pick next cursor s in
    let alike = note_pick-IsAlike next cursor s in
    let same = alike-IsScheduled s noted c alike i in
    let step = schedule-current rounds c s i.is_current in
    elim (ℕ_discrete next c) [
      | yes e ↦
          let here : (next == c) ≡ true = rw e (==_refl c) in
          (
            stay c noted,
            step ∙ rw here refl,
            subst (λ (x : ℕ). IsScheduled (stay c noted) x) (sym e)
                (alike-IsScheduled noted (stay c noted) c (stay-IsAlike c noted) same),
            stay-cursor c noted ∙ note_pick-cursor next cursor s,
          )
      | no d ↦
          let apart : (next == c) ≡ false = ground arith in
          let away : c ≢ next = λ e. d (sym e) in
          let (alive, mapped) = pick_next-runs rounds c s i d in
          let (root, at) = is_none-false _ mapped in
          let counted = count_switch noted in
          let table = alike.tables next ∙ at in
          (
            switched c next root counted,
            step
                ∙ rw apart (
                    switch_task-eq c next root counted away
                      (ap is_zombie (alike.states next) ∙ alive) table same.loaded),
            switched-IsScheduled c next root counted away
                (alike-IsScheduled noted counted c (count_switch-IsAlike noted) same) table,
            note_pick-cursor next cursor s,
          )
    ]

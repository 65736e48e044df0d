-- ===== src/Sched/Slice.antt =====
-- Time slices (calc_time_slice) and how ticks use them up.
use zonix_plus.Base.{
  Bool, Bool-cases, ap, arith, false, inl, inr, leb, ltb, refl, some, suc, true, zero, ℕ, ◌&&◌, ◌-◌,
  ◌<◌, ◌||◌, ◌∙◌, ◌≡◌, ◌≢◌, ◌≤◌,
}
use zonix_plus.Sched.{Task, Scheduler, calc_time_slice, tick, tick_task}

-- A time slice is at least 1 tick and at most 19, and a task of a better (smaller) priority never
-- gets a shorter one.
pub calc_time_slice_bounds :
    (p q : ℕ)
    → p ≤ q
    → (1 ≤ calc_time_slice q) × (calc_time_slice q ≤ calc_time_slice p) × (calc_time_slice p ≤ 19)
unfolding calc_time_slice
calc_time_slice_bounds p q h = ground arith

-- Ticks of a running task, one after the other.
unfoldable pub ticks : ℕ → Scheduler → Scheduler
unfolding tick
ticks zero s = s
ticks (suc n) s = ticks n (tick s)

tick-task :
    (c : ℕ) (s : Scheduler)
    → s.current ≡ some c
    → c ≢ s.idle
    → (tick s).task c ≡ tick_task (s.task c)
unfolding tick
tick-task c s e n = ground arith

tick-current : (s : Scheduler) → ((tick s).current ≡ s.current) × ((tick s).idle ≡ s.idle)
unfolding tick
tick-current s = ground arith

tick_task_lem :
    (t : Task)
    → ((tick_task t).time_slice ≡ t.time_slice - 1)
      × ((tick_task t).need_resched ≡ (t.need_resched || leb t.time_slice 1))
unfolding tick_task
tick_task_lem t = (
  ground arith,
  elim (Bool-cases t.need_resched) [ inl e ↦ ground (arith, e) | inr e ↦ ground (arith, e) ],
)

used_up :
    (b : Bool) (k n : ℕ)
    → ((b || leb k 1) || (ltb 0 n && leb (k - 1) n)) ≡ (b || (ltb 0 (suc n) && leb k (suc n)))
used_up true k n = refl
used_up false k n = ground arith

ticks-task :
    (n c k : ℕ) (b : Bool) (s : Scheduler)
    → s.current ≡ some c
    → c ≢ s.idle
    → (s.task c).time_slice ≡ k
    → (s.task c).need_resched ≡ b
    → (((ticks n s).task c).time_slice ≡ k - n)
      × (((ticks n s).task c).need_resched ≡ (b || (ltb 0 n && leb k n)))
unfolding ticks
ticks-task zero c k b s e d hk hb =
    (ground arith, elim (Bool-cases b) [ inl q ↦ ground (arith, q) | inr q ↦ ground (arith, q) ])
ticks-task (suc n) c k b s e d hk hb =
    let t = tick_task_lem (s.task c) in
    let step = tick-task c s e d in
    let keeps = tick-current s in
    let rest =
      ticks-task n c (k - 1) (b || leb k 1) (tick s) (keeps.0 ∙ e) (λ q. d (q ∙ keeps.1))
        (ap (λ (x : Task). x.time_slice) step ∙ t.0 ∙ ap (λ (x : ℕ). x - 1) hk)
        (rw step (rw t.1 (rw hb (rw hk refl)))) in
    (rest.0 ∙ omega arith, rest.1 ∙ used_up b k n)

-- A current task other than the idle one, whose slice is k > 0 and which nobody asked to be
-- rescheduled, has k - n ticks left after n ticks, and is to be rescheduled exactly from the k-th on.
pub ticks-need_resched :
    (n c k : ℕ) (s : Scheduler)
    → s.current ≡ some c
    → c ≢ s.idle
    → (s.task c).time_slice ≡ k
    → (s.task c).need_resched ≡ false
    → 0 < k
    → (((ticks n s).task c).time_slice ≡ k - n) × (((ticks n s).task c).need_resched ≡ leb k n)
ticks-need_resched n c k s e d hk hb h =
    let r = ticks-task n c k false s e d hk hb in (r.0, r.1 ∙ ground arith)

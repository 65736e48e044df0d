-- ===== src/Procs/Adopt.antt =====
-- kernel/sched/process.cpp: how exit gives one child to init.
use mathlib.Core.Bool.{true≢false}
use zonix_plus.Base.{
  ==→eq, Bool-cases, List, ap, arith, false, inl, inr, refl, some, sym, true, ℕ, ◌==◌, ◌∙◌, ◌∷◌,
  ◌≡◌,
}
use zonix_plus.Sched.{TaskState, is_zombie}
use zonix_plus.Procs.{Tasks, adopt, set_proc, wake, wake_waiter}

-- The tasks that a step of exit changes, before init is woken.
abbrev moved : ℕ → List ℕ → Tasks → Tasks
moved c cs m =
    let i = m.init_proc in
    let m₁ = set_proc m.current (record (m.proc m.current) { child_list = cs }) m in
    let m₂ = set_proc c (record (m₁.proc c) { parent = some i }) m₁ in
    set_proc i (record (m₂.proc i) { child_list = c ∷ (m₂.proc i).child_list }) m₂

module _ (m : Tasks) (c : ℕ) (cs : List ℕ) (n : (m.init_proc == m.current) ≡ false) where
  moved-left : ((moved c cs m).proc m.current).child_list ≡ cs
  moved-left = ground (arith, n)

  moved-right : ((moved c cs m).proc m.init_proc).child_list ≡ c ∷ (m.proc m.init_proc).child_list
  moved-right = ground (arith, n)

  moved-parent : ((moved c cs m).proc c).parent ≡ some m.init_proc
  moved-parent = ground (arith, n)

  moved-parent_other :
      (t : ℕ) → (c == t) ≡ false → ((moved c cs m).proc t).parent ≡ (m.proc t).parent
  moved-parent_other t h = ground (arith, n, h)

  moved-state : (t : ℕ) → ((moved c cs m).proc t).state ≡ (m.proc t).state
  moved-state t = ground (arith, n)

  moved-wait_state : (t : ℕ) → ((moved c cs m).proc t).wait_state ≡ (m.proc t).wait_state
  moved-wait_state t = ground (arith, n)

-- One child was given to init.
pub record IsMoved (c : ℕ) (cs : List ℕ) (m m' : Tasks) : Type 0 where
  pub current : m'.current ≡ m.current
  pub init_proc : m'.init_proc ≡ m.init_proc
  pub left : (m'.proc m.current).child_list ≡ cs
  pub right : (m'.proc m.init_proc).child_list ≡ c ∷ (m.proc m.init_proc).child_list
  pub parent : (m'.proc c).parent ≡ some m.init_proc
  pub parent_other : (t : ℕ) → (c == t) ≡ false → (m'.proc t).parent ≡ (m.proc t).parent
  pub zombies : (t : ℕ) → is_zombie (m'.proc t).state ≡ is_zombie (m.proc t).state
  pub waits : (t : ℕ) → (m'.proc t).wait_state ≡ (m.proc t).wait_state
  pub stays :
      (t : ℕ) → (m.proc t).state ≡ TaskState.runnable → (m'.proc t).state ≡ TaskState.runnable
  pub codes : (t : ℕ) → (m'.proc t).exit_code ≡ (m.proc t).exit_code
  pub roused :
      is_zombie (m.proc c).state ≡ true
      → (m.proc m.init_proc).wait_state ≡ true
      → (m'.proc m.init_proc).state ≡ TaskState.runnable

abbrev pub roused_at : ℕ → Tasks → Tasks
roused_at t m = set_proc t (record (m.proc t) { state = TaskState.runnable }) m

-- Waking a task changes its state only, and it was no zombie before.
pub roused_at-zombies :
    (i : ℕ) (m : Tasks) (t : ℕ)
    → is_zombie (m.proc i).state ≡ false
    → is_zombie ((roused_at i m).proc t).state ≡ is_zombie (m.proc t).state
roused_at-zombies i m t z = elim (Bool-cases (i == t)) [
  | inl e ↦ let s : is_zombie (m.proc t).state ≡ false = rw (sym (==→eq i t e)) z in rw e (sym s)
  | inr e ↦ rw e refl
]

pub roused_at-stays :
    (i : ℕ) (m : Tasks) (t : ℕ)
    → (m.proc t).state ≡ TaskState.runnable
    → ((roused_at i m).proc t).state ≡ TaskState.runnable
roused_at-stays i m t h = elim (Bool-cases (i == t)) [ inl e ↦ rw e refl | inr e ↦ rw e h ]

pub wake_waiter-false :
    (i : ℕ) (m : Tasks) → (m.proc i).wait_state ≡ false → wake_waiter i m ≡ some m
unfolding wake_waiter
wake_waiter-false i m w = rw w refl

pub wake_waiter-true :
    (i : ℕ) (m : Tasks)
    → (m.proc i).wait_state ≡ true
    → is_zombie (m.proc i).state ≡ false
    → wake_waiter i m ≡ some (roused_at i m)
unfolding wake_waiter wake
wake_waiter-true i m w z = rw w (rw z refl)

module _ (c : ℕ) (cs : List ℕ) (m : Tasks) (n : (m.init_proc == m.current) ≡ false) where
  moved-IsMoved :
      (is_zombie (m.proc c).state ≡ true → (m.proc m.init_proc).wait_state ≡ true → ⊥)
      → IsMoved c cs m (moved c cs m)
  moved-IsMoved no_wake = record {
    current = refl;
    init_proc = refl;
    left = moved-left m c cs n;
    right = moved-right m c cs n;
    parent = moved-parent m c cs n;
    parent_other = moved-parent_other m c cs n;
    zombies = λ t. ap is_zombie (moved-state m c cs n t);
    waits = moved-wait_state m c cs n;
    stays = λ t s. moved-state m c cs n t ∙ s;
    codes = λ t. ground (arith, n);
    roused = λ z w. absurd (no_wake z w);
  }

  roused-IsMoved :
      is_zombie (m.proc m.init_proc).state ≡ false
      → IsMoved c cs m (roused_at m.init_proc (moved c cs m))
  roused-IsMoved z =
      let i = m.init_proc in
      let z' : is_zombie ((moved c cs m).proc i).state ≡ false =
        ap is_zombie (moved-state m c cs n i) ∙ z in
      record {
        current = refl;
        init_proc = refl;
        left = ground (arith, n);
        right = ground (arith, n);
        parent = ground (arith, n);
        parent_other = λ t h. ground (arith, n, h);
        zombies =
            λ t. roused_at-zombies i (moved c cs m) t z' ∙ ap is_zombie (moved-state m c cs n t);
        waits = λ t. ground (arith, n);
        stays = λ t s. roused_at-stays i (moved c cs m) t (moved-state m c cs n t ∙ s);
        codes = λ t. ground (arith, n);
        roused = λ x w. ground (arith, n);
      }

  pub adopt-IsMoved :
      is_zombie (m.proc m.init_proc).state ≡ false
      → (m' : Tasks) × (adopt c cs m ≡ some m') × IsMoved c cs m m'
  unfolding adopt
  adopt-IsMoved z =
      let i = m.init_proc in
      let same = ap is_zombie (moved-state m c cs n c) in
      let wait = moved-wait_state m c cs n i in
      let z' = ap is_zombie (moved-state m c cs n i) ∙ z in
      elim (Bool-cases (is_zombie (m.proc c).state)) [
        | inr e ↦ (
          moved c cs m,
          rw (same ∙ e) refl,
          moved-IsMoved (λ x w. absurd (true≢false (sym x ∙ e))),
        )
        | inl e ↦ elim (Bool-cases (m.proc i).wait_state) [
          | inr w ↦ (
            moved c cs m,
            rw (same ∙ e) (wake_waiter-false i (moved c cs m) (wait ∙ w)),
            moved-IsMoved (λ x v. absurd (true≢false (sym v ∙ w))),
          )
          | inl w ↦ (
            roused_at i (moved c cs m),
            rw (same ∙ e) (wake_waiter-true i (moved c cs m) (wait ∙ w) z'),
            roused-IsMoved z,
          )
        ]
      ]

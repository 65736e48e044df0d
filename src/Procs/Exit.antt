-- ===== src/Procs/Exit.antt =====
-- kernel/sched/process.cpp: what exit leaves behind.
use mathlib.Core.Bool.{true≢false}
use zonix_plus.Base.{
  ==_refl, Bool-cases, In, Option, Option-cases, [], ap, arith, false, inl, inr, length, none, refl,
  some, sym, true, ℕ, ◌<◌, ◌==◌, ◌∙◌, ◌≡◌,
}
use zonix_plus.Sched.{TaskState, is_zombie}
use zonix_plus.Procs.{Tasks, adopt_all, exit_task, set_proc, wake_parent, wake_waiter}
use zonix_plus.Procs.Adopt.{roused_at, roused_at-zombies, wake_waiter-false, wake_waiter-true}
use zonix_plus.Procs.Children.{IsAdopted, IsAdopted-recast, adopt_all-IsAdopted, onto}

-- What exit relies on: init does not exit, and no zombie has children.
pub record CanExit (m : Tasks) : Type 0 where
  pub apart : (m.init_proc == m.current) ≡ false
  pub init_alive : is_zombie (m.proc m.init_proc).state ≡ false
  pub parent_apart : (q : ℕ) → (m.proc m.current).parent ≡ some q → (m.current == q) ≡ false
  pub parent_alive :
      (q : ℕ) → (m.proc m.current).parent ≡ some q → is_zombie (m.proc q).state ≡ false

-- The current task is a zombie with its exit code; its parent was woken if it waits; its children
-- are init's, and init was woken if it waits and one of them is a zombie.
pub record IsExited (code : ℕ) (m m' : Tasks) : Type 0 where
  pub ended : is_zombie (m'.proc m.current).state ≡ true
  pub exit_code : (m'.proc m.current).exit_code ≡ code
  pub left : (m'.proc m.current).child_list ≡ []
  pub right :
      (m'.proc m.init_proc).child_list
      ≡ onto (m.proc m.current).child_list (m.proc m.init_proc).child_list
  pub parents : (c : ℕ) → In c (m.proc m.current).child_list → (m'.proc c).parent ≡ some m.init_proc
  pub parent_woken :
      (q : ℕ)
      → (m.proc m.current).parent ≡ some q
      → (m.proc q).wait_state ≡ true
      → (m'.proc q).state ≡ TaskState.runnable
  pub init_woken :
      (c : ℕ)
      → In c (m.proc m.current).child_list
      → is_zombie (m.proc c).state ≡ true
      → (m.proc m.init_proc).wait_state ≡ true
      → (m'.proc m.init_proc).state ≡ TaskState.runnable

abbrev marked : ℕ → Tasks → Tasks
marked code m =
    set_proc m.current (record (m.proc m.current) { state = TaskState.zombie; exit_code = code }) m

-- The state in which the loop of exit starts.
record IsMarked (code : ℕ) (m m' : Tasks) : Type 0 where
  current : m'.current ≡ m.current
  init_proc : m'.init_proc ≡ m.init_proc
  children : (t : ℕ) → (m'.proc t).child_list ≡ (m.proc t).child_list
  waits : (t : ℕ) → (m'.proc t).wait_state ≡ (m.proc t).wait_state
  ended : is_zombie (m'.proc m.current).state ≡ true
  exit_code : (m'.proc m.current).exit_code ≡ code
  zombies :
      (t : ℕ) → (m.current == t) ≡ false → is_zombie (m'.proc t).state ≡ is_zombie (m.proc t).state
  zombie_still : (t : ℕ) → is_zombie (m.proc t).state ≡ true → is_zombie (m'.proc t).state ≡ true
  parent_woken :
      (q : ℕ)
      → (m.proc m.current).parent ≡ some q
      → (m.proc q).wait_state ≡ true
      → (m'.proc q).state ≡ TaskState.runnable

marked_still :
    (code : ℕ) (m : Tasks) (t : ℕ)
    → is_zombie (m.proc t).state ≡ true
    → is_zombie ((marked code m).proc t).state ≡ true
marked_still code m t z = elim (Bool-cases (m.current == t)) [ inl e ↦ rw e refl | inr e ↦ rw e z ]

marked-IsMarked :
    (code : ℕ) (m : Tasks)
    → ((q : ℕ) → (m.proc m.current).parent ≡ some q → (m.proc q).wait_state ≡ true → ⊥)
    → IsMarked code m (marked code m)
marked-IsMarked code m no_wake = record {
  current = refl;
  init_proc = refl;
  children = λ t. ground arith;
  waits = λ t. ground arith;
  ended = rw (==_refl m.current) refl;
  exit_code = rw (==_refl m.current) refl;
  zombies = λ t e. rw e refl;
  zombie_still = marked_still code m;
  parent_woken = λ q e w. absurd (no_wake q e w);
}

roused-IsMarked :
    (code : ℕ) (m : Tasks) (q : ℕ)
    → (m.proc m.current).parent ≡ some q
    → (m.current == q) ≡ false
    → is_zombie (m.proc q).state ≡ false
    → IsMarked code m (roused_at q (marked code m))
roused-IsMarked code m q e n z =
    let z' : is_zombie ((marked code m).proc q).state ≡ false = rw n z in
    record {
      current = refl;
      init_proc = refl;
      children = λ t. ground arith;
      waits = λ t. ground arith;
      ended = roused_at-zombies q (marked code m) m.current z' ∙ (rw (==_refl m.current) refl);
      exit_code = ground (arith, ==_refl m.current);
      zombies = λ t f. roused_at-zombies q (marked code m) t z' ∙ (rw f refl);
      zombie_still = λ t y. roused_at-zombies q (marked code m) t z' ∙ marked_still code m t y;
      parent_woken = λ r f w. let same : q ≡ r = cc in rw (sym same) (rw (==_refl q) refl);
    }

exit_task-woken :
    (fuel code : ℕ) (m w : Tasks)
    → wake_parent (m.proc m.current).parent (marked code m) ≡ some w
    → exit_task fuel code m ≡ adopt_all fuel w
unfolding exit_task
exit_task-woken fuel code m w h = rw (h, exit_task) refl

wake_parent-waiter :
    (o : Option ℕ) (q : ℕ) (m : Tasks) → o ≡ some q → wake_parent o m ≡ wake_waiter q m
unfolding wake_parent
wake_parent-waiter none q m e = absurd cc
wake_parent-waiter (some p) q m e = let same : p ≡ q = cc in rw same refl

wake_parent-none : (o : Option ℕ) (m : Tasks) → o ≡ none → wake_parent o m ≡ some m
unfolding wake_parent
wake_parent-none none m e = refl
wake_parent-none (some p) m e = absurd cc

-- What exit does before its loop.
exit_task-IsMarked :
    (fuel code : ℕ) (m : Tasks)
    → CanExit m
    → (m' : Tasks) × (exit_task fuel code m ≡ adopt_all fuel m') × IsMarked code m m'
exit_task-IsMarked fuel code m k = elim (Option-cases (m.proc m.current).parent) [
  | inl e ↦ (
    marked code m,
    exit_task-woken fuel code m (marked code m) (wake_parent-none _ (marked code m) e),
    marked-IsMarked code m (λ q f w. absurd cc),
  )
  | inr (q, e) ↦
      let n = k.parent_apart q e in
      let z : is_zombie ((marked code m).proc q).state ≡ false = rw n (k.parent_alive q e) in
      let same : ((marked code m).proc q).wait_state ≡ (m.proc q).wait_state = rw n refl in
      let waiter = wake_parent-waiter _ q (marked code m) e in
      elim (Bool-cases (m.proc q).wait_state) [
        | inr w ↦ (
          marked code m,
          exit_task-woken fuel code m (marked code m)
              (waiter ∙ wake_waiter-false q (marked code m) (same ∙ w)),
          marked-IsMarked code m (λ r f v.
              let p : q ≡ r = cc in
              let u : (m.proc q).wait_state ≡ true = rw p v in absurd (true≢false (sym u ∙ w))),
        )
        | inl w ↦ (
          roused_at q (marked code m),
          exit_task-woken fuel code m (roused_at q (marked code m))
              (waiter ∙ wake_waiter-true q (marked code m) (same ∙ w) z),
          roused-IsMarked code m q e n (k.parent_alive q e),
        )
      ]
]

IsAdopted-IsExited :
    (code : ℕ) (m w m' : Tasks)
    → CanExit m
    → IsMarked code m w
    → IsAdopted m.current m.init_proc (m.proc m.current).child_list w m'
    → IsExited code m m'
IsAdopted-IsExited code m w m' k j a = record {
  ended = a.zombies m.current ∙ j.ended;
  exit_code = a.codes m.current ∙ j.exit_code;
  left = a.left;
  right = a.right ∙ ap (onto (m.proc m.current).child_list) (j.children m.init_proc);
  parents = a.parents;
  parent_woken = λ q e v. a.stays q (j.parent_woken q e v);
  init_woken = λ c i z v. a.roused c i (j.zombie_still c z) (j.waits m.init_proc ∙ v);
}

-- A task other than init, whose parent and init are no zombies, exits: the loop ends with a round for
-- each child and one more, and no assertion fails. The task is then a zombie with its exit code and
-- without children, which are init's; its parent is runnable if it waits, and init is if it waits and
-- one of the children is a zombie.
pub exit_task-IsExited :
    (fuel code : ℕ) (m : Tasks)
    → length (m.proc m.current).child_list < fuel
    → CanExit m
    → (m' : Tasks) × (exit_task fuel code m ≡ some m') × IsExited code m m'
exit_task-IsExited fuel code m f k =
    let (w, e, j) = exit_task-IsMarked fuel code m k in
    let cs = (m.proc m.current).child_list in
    let own : (w.proc w.current).child_list ≡ cs = rw j.current (j.children m.current) in
    let apart : (w.init_proc == w.current) ≡ false = rw j.current (rw j.init_proc k.apart) in
    let sep : (m.current == m.init_proc) ≡ false = ground (arith, k.apart) in
    let alive : is_zombie (w.proc w.init_proc).state ≡ false =
      rw j.init_proc (j.zombies m.init_proc sep ∙ k.init_alive) in
    let (m', r, a) = adopt_all-IsAdopted fuel cs w f own apart alive in
    (
      m',
      e ∙ r,
      IsAdopted-IsExited code m w m' k j (IsAdopted-recast _ _ _ _ cs w m' j.current j.init_proc a),
    )

-- ===== src/Procs/Wait.antt =====
-- kernel/sched/process.cpp: what a round of wait answers.
use zonix_plus.Base.{
  ==_refl, Bool, Bool-cases, In, List, Option-cases, [], arith, false, inl, inr, none, not_found,
  refl, some, sym, true, ℕ, ◌&&◌, ◌∙◌, ◌∷◌, ◌≡◌, ◌≢◌,
}
use zonix_plus.Sched.{TaskState, is_zombie}
use zonix_plus.Procs.Reaped.{IsReaped, remove_links-IsReaped}
use zonix_plus.Procs.{
  Proc, Tasks, Waited, asleep, find_zombie, has_children, is_wanted, reaped, refused, remove_links,
  set_proc, wait_round,
}

-- A zombie that is waited for is reaped: its number and its exit code are returned, and it leaves the
-- lists; NotFound comes only if no child is waited for; and a task sleeps only if a child is
-- waited for and none of those is a zombie.
pub Answers : ℕ → Tasks → Waited → Type 0
Answers pid m (reaped p code m') =
    (c : ℕ) × In c (m.proc m.current).child_list
    × (is_wanted pid (m.proc c) ≡ true)
    × (is_zombie (m.proc c).state ≡ true)
    × ((m.proc c).pid ≡ p)
    × ((m.proc c).exit_code ≡ code)
    × IsReaped m.current c m m'
Answers pid m (refused e) =
    (e ≡ not_found)
    × ((c : ℕ) → In c (m.proc m.current).child_list → is_wanted pid (m.proc c) ≡ false)
Answers pid m (asleep m') =
    ((c : ℕ) × In c (m.proc m.current).child_list × (is_wanted pid (m.proc c) ≡ true))
    × ((c : ℕ)
        → In c (m.proc m.current).child_list
        → is_wanted pid (m.proc c) ≡ true
        → is_zombie (m.proc c).state ≡ false)
    × ((m'.proc m.current).state ≡ TaskState.sleeping)
    × ((m'.proc m.current).wait_state ≡ true)
    × ((q : ℕ) → q ≢ m.current → m'.proc q ≡ m.proc q)

both-left : (a b : Bool) → (a && b) ≡ true → a ≡ true
both-left true b h = refl
both-left false b h = absurd cc

both-right : (a b : Bool) → (a && b) ≡ true → b ≡ true
both-right true b h = h
both-right false b h = absurd cc

not_both : (a b : Bool) → (a && b) ≡ false → a ≡ true → b ≡ false
not_both true b h e = h
not_both false b h e = absurd cc

find_zombie-hit :
    (pid : ℕ) (proc : ℕ → Proc) (d : ℕ) (cs : List ℕ)
    → (is_wanted pid (proc d) && is_zombie (proc d).state) ≡ true
    → find_zombie pid proc (d ∷ cs) ≡ some d
unfolding find_zombie
find_zombie-hit pid proc d cs h = rw h refl

find_zombie-skip :
    (pid : ℕ) (proc : ℕ → Proc) (d : ℕ) (cs : List ℕ)
    → (is_wanted pid (proc d) && is_zombie (proc d).state) ≡ false
    → find_zombie pid proc (d ∷ cs) ≡ find_zombie pid proc cs
unfolding find_zombie
find_zombie-skip pid proc d cs h = rw h refl

find_zombie-some :
    (pid : ℕ) (proc : ℕ → Proc) (cs : List ℕ) (c : ℕ)
    → find_zombie pid proc cs ≡ some c
    → In c cs × (is_wanted pid (proc c) ≡ true) × (is_zombie (proc c).state ≡ true)
unfolding find_zombie
find_zombie-some pid proc [] c e = absurd cc
find_zombie-some pid proc (d ∷ cs) c e =
    elim (Bool-cases (is_wanted pid (proc d) && is_zombie (proc d).state)) [
      | inl h ↦
          let hit = sym (find_zombie-hit pid proc d cs h) ∙ e in
          let same : d ≡ c = cc in
          (inl (sym same), rw (sym same) (both-left _ _ h), rw (sym same) (both-right _ _ h))
      | inr h ↦
          let (i, w, z) =
            find_zombie-some pid proc cs c (sym (find_zombie-skip pid proc d cs h) ∙ e) in
          (inr i, w, z)
    ]

find_zombie-none :
    (pid : ℕ) (proc : ℕ → Proc) (cs : List ℕ)
    → find_zombie pid proc cs ≡ none
    → (c : ℕ) → In c cs
    → is_wanted pid (proc c) ≡ true
    → is_zombie (proc c).state ≡ false
unfolding find_zombie
find_zombie-none pid proc [] e c i w = elim i [ ]
find_zombie-none pid proc (d ∷ cs) e c i w =
    elim (Bool-cases (is_wanted pid (proc d) && is_zombie (proc d).state)) [
      | inl h ↦ let hit = sym (find_zombie-hit pid proc d cs h) ∙ e in absurd cc
      | inr h ↦ elim i [
        | inl s ↦ rw s (not_both (is_wanted pid (proc d)) _ h (rw (sym s) w))
        | inr j ↦ find_zombie-none pid proc cs (sym (find_zombie-skip pid proc d cs h) ∙ e) c j w
      ]
    ]

has_children-true :
    (pid : ℕ) (proc : ℕ → Proc) (cs : List ℕ)
    → has_children pid proc cs ≡ true
    → (c : ℕ) × In c cs × (is_wanted pid (proc c) ≡ true)
unfolding has_children
has_children-true pid proc [] h = absurd cc
has_children-true pid proc (d ∷ cs) h = elim (Bool-cases (is_wanted pid (proc d))) [
  | inl e ↦ (d, inl refl, e)
  | inr e ↦
      let rest : has_children pid proc cs ≡ true = ground (arith, e, h) in
      let (c, i, w) = has_children-true pid proc cs rest in (c, inr i, w)
]

has_children-false :
    (pid : ℕ) (proc : ℕ → Proc) (cs : List ℕ)
    → has_children pid proc cs ≡ false
    → (c : ℕ) → In c cs
    → is_wanted pid (proc c) ≡ false
unfolding has_children
has_children-false pid proc [] h c i = elim i [ ]
has_children-false pid proc (d ∷ cs) h c (inl e) = rw e (ground (arith, h))
has_children-false pid proc (d ∷ cs) h c (inr i) =
    has_children-false pid proc cs (ground (arith, h)) c i

abbrev slept : Tasks → Tasks
slept m =
    set_proc m.current (record (m.proc m.current) { wait_state = true; state = TaskState.sleeping })
      m

module _ (pid : ℕ) (m : Tasks) where
  abbrev children : List ℕ
  children = (m.proc m.current).child_list

  wait_round-reaped :
      (c : ℕ)
      → find_zombie pid m.proc children ≡ some c
      → wait_round pid m ≡ reaped (m.proc c).pid (m.proc c).exit_code (remove_links m.current c m)
  unfolding wait_round
  wait_round-reaped c e = rw (e, wait_round) refl

  wait_round-asleep :
      find_zombie pid m.proc children ≡ none
      → has_children pid m.proc children ≡ true
      → wait_round pid m ≡ asleep (slept m)
  unfolding wait_round
  wait_round-asleep e h = rw (e, h, wait_round) refl

  wait_round-refused :
      find_zombie pid m.proc children ≡ none
      → has_children pid m.proc children ≡ false
      → wait_round pid m ≡ refused not_found
  unfolding wait_round
  wait_round-refused e h = rw (e, h, wait_round) refl

-- A round of wait that reaps a child answers the number and the exit code of a zombie that is waited
-- for, and takes it out of its parent's list of children, the list of all tasks and its place in the
-- hash table, and changes no other field of any task. It answers NotFound only if no child is waited
-- for; and the task sleeps only if a child is waited for and none of those is a zombie, and then no
-- other task is changed.
pub wait_round-Answers : (pid : ℕ) (m : Tasks) → Answers pid m (wait_round pid m)
unfolding Answers
wait_round-Answers pid m =
    let cs = children pid m in
    elim (Option-cases (find_zombie pid m.proc cs)) [
      | inr (c, e) ↦
          let (i, w, z) = find_zombie-some pid m.proc cs c e in
          rw (wait_round-reaped pid m c e)
            (c, i, w, z, refl, refl, remove_links-IsReaped m.current c m i)
      | inl e ↦ elim (Bool-cases (has_children pid m.proc cs)) [
        | inl h ↦ rw (wait_round-asleep pid m e h) (
          has_children-true pid m.proc cs h,
          find_zombie-none pid m.proc cs e,
          (rw (==_refl m.current) refl),
          (rw (==_refl m.current) refl),
          (λ q n. ground arith),
        )
        | inr h ↦ rw (wait_round-refused pid m e h) (refl, has_children-false pid m.proc cs h)
      ]
    ]

-- ===== src/Procs/Children.antt =====
-- kernel/sched/process.cpp: the loop of exit, which gives all children to init.
use zonix_plus.Base.{
  ==→eq, Bool-cases, In, List, [], ap, arith, false, inl, inr, length, refl, some, suc, sym, true,
  zero, ℕ, ◌<◌, ◌==◌, ◌∙◌, ◌∷◌, ◌≡◌,
}
use zonix_plus.Sched.{TaskState, is_zombie}
use zonix_plus.Procs.{Tasks, adopt, adopt_all}
use zonix_plus.Procs.Adopt.{IsMoved, adopt-IsMoved}

-- The nodes of the first list, hung in before the second, one after the other.
abbrev pub onto : List ℕ → List ℕ → List ℕ
onto [] ds = ds
onto (c ∷ cs) ds = onto cs (c ∷ ds)

-- The children `cs` of the current task were given to init.
pub record IsAdopted (cur i : ℕ) (cs : List ℕ) (m m' : Tasks) : Type 0 where
  pub left : (m'.proc cur).child_list ≡ []
  pub right : (m'.proc i).child_list ≡ onto cs (m.proc i).child_list
  pub parents : (c : ℕ) → In c cs → (m'.proc c).parent ≡ some i
  pub kept : (t : ℕ) → (m.proc t).parent ≡ some i → (m'.proc t).parent ≡ some i
  pub zombies : (t : ℕ) → is_zombie (m'.proc t).state ≡ is_zombie (m.proc t).state
  pub waits : (t : ℕ) → (m'.proc t).wait_state ≡ (m.proc t).wait_state
  pub stays :
      (t : ℕ) → (m.proc t).state ≡ TaskState.runnable → (m'.proc t).state ≡ TaskState.runnable
  pub codes : (t : ℕ) → (m'.proc t).exit_code ≡ (m.proc t).exit_code
  pub roused :
      (c : ℕ)
      → In c cs
      → is_zombie (m.proc c).state ≡ true
      → (m.proc i).wait_state ≡ true
      → (m'.proc i).state ≡ TaskState.runnable

nothing-IsAdopted : (cur i : ℕ) (m : Tasks) → (m.proc cur).child_list ≡ [] → IsAdopted cur i [] m m
nothing-IsAdopted cur i m e = record {
  left = e;
  right = refl;
  parents = λ c j. elim j [ ];
  kept = λ t h. h;
  zombies = λ t. refl;
  waits = λ t. refl;
  stays = λ t h. h;
  codes = λ t. refl;
  roused = λ c j z w. elim j [ ];
}

moved-kept :
    (c : ℕ) (cs : List ℕ) (m m' : Tasks) (t : ℕ)
    → IsMoved c cs m m'
    → (m.proc t).parent ≡ some m.init_proc
    → (m'.proc t).parent ≡ some m.init_proc
moved-kept c cs m m' t k h = elim (Bool-cases (c == t)) [
  | inl e ↦ let s : c ≡ t = ==→eq c t e in rw (sym s) k.parent
  | inr e ↦ k.parent_other t e ∙ h
]

next-IsAdopted :
    (c : ℕ) (cs : List ℕ) (m m₁ m' : Tasks)
    → IsMoved c cs m m₁
    → IsAdopted m.current m.init_proc cs m₁ m'
    → IsAdopted m.current m.init_proc (c ∷ cs) m m'
next-IsAdopted c cs m m₁ m' k a = record {
  left = a.left;
  right = a.right ∙ ap (onto cs) k.right;
  parents = λ d j. elim j [ inl e ↦ rw e (a.kept c k.parent) | inr l ↦ a.parents d l ];
  kept = λ t h. a.kept t (moved-kept c cs m m₁ t k h);
  zombies = λ t. a.zombies t ∙ k.zombies t;
  waits = λ t. a.waits t ∙ k.waits t;
  stays = λ t h. a.stays t (k.stays t h);
  codes = λ t. a.codes t ∙ k.codes t;
  roused = λ d j z w. elim j [
    | inl e ↦ a.stays m.init_proc (k.roused (rw (sym e) z) w)
    | inr l ↦ a.roused d l (k.zombies d ∙ z) (k.waits m.init_proc ∙ w)
  ];
}

adopt_all-nil :
    (fuel : ℕ) (m : Tasks) → (m.proc m.current).child_list ≡ [] → adopt_all (suc fuel) m ≡ some m
unfolding adopt_all
adopt_all-nil fuel m e = rw (e, adopt_all) refl

adopt_all-cons :
    (fuel : ℕ) (m m₁ : Tasks) (c : ℕ) (cs : List ℕ)
    → (m.proc m.current).child_list ≡ c ∷ cs
    → adopt c cs m ≡ some m₁
    → adopt_all (suc fuel) m ≡ adopt_all fuel m₁
unfolding adopt_all
adopt_all-cons fuel m m₁ c cs e h = rw (e, h, adopt_all) refl

pub IsAdopted-recast :
    (c c' i i' : ℕ) (cs : List ℕ) (m m' : Tasks)
    → c ≡ c'
    → i ≡ i'
    → IsAdopted c i cs m m'
    → IsAdopted c' i' cs m m'
IsAdopted-recast c c' i i' cs m m' p q a = rw (sym p) (rw (sym q) a)

-- With a round for each child and one more, the loop ends.
pub adopt_all-IsAdopted :
    (fuel : ℕ) (cs : List ℕ) (m : Tasks)
    → length cs < fuel
    → (m.proc m.current).child_list ≡ cs
    → (m.init_proc == m.current) ≡ false
    → is_zombie (m.proc m.init_proc).state ≡ false
    → (m' : Tasks) × (adopt_all fuel m ≡ some m') × IsAdopted m.current m.init_proc cs m m'
adopt_all-IsAdopted zero cs m f e n z = absurd (omega arith)
adopt_all-IsAdopted (suc fuel) [] m f e n z =
    (m, adopt_all-nil fuel m e, nothing-IsAdopted m.current m.init_proc m e)
adopt_all-IsAdopted (suc fuel) (c ∷ cs) m f e n z =
    let (m₁, h, k) = adopt-IsMoved c cs m n z in
    let cur : (m₁.proc m₁.current).child_list ≡ cs = rw k.current k.left in
    let apart : (m₁.init_proc == m₁.current) ≡ false = rw k.current (rw k.init_proc n) in
    let alive : is_zombie (m₁.proc m₁.init_proc).state ≡ false =
      rw k.init_proc (k.zombies m.init_proc ∙ z) in
    let (m', r, a) = adopt_all-IsAdopted fuel cs m₁ (omega arith) cur apart alive in
    (
      m',
      adopt_all-cons fuel m m₁ c cs e h ∙ r,
      next-IsAdopted c cs m m₁ m' k (IsAdopted-recast _ _ _ _ cs m₁ m' k.current k.init_proc a),
    )

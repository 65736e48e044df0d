-- ===== src/Sync/Semaphores.antt =====
-- Tasks that share a semaphore, interleaved in any order.
use zonix_plus.Base.{
  In, List, [], ap, arith, false, inl, inr, length, length-append, none, refl, some, suc, true, ℕ,
  ◌++◌, ◌+◌, ◌-◌, ◌<◌, ◌∷◌, ◌≡◌, ◌≤◌, ◌⊎◌,
}
use zonix_plus.Sync.{Semaphore, down_round, raise, try_down, unlink_entry, wakeup_one}

-- `active` are the tasks that run in down, `wakers` counts the calls of up before their wakeup_one,
-- `raised` the calls of up and `lowered` the calls of down and try_down that have come through. The
-- tasks that sleep are those of the wait queue.
pub record System : Type 0 where
  pub sem : Semaphore
  pub active : List ℕ
  pub wakers : ℕ
  pub raised : ℕ
  pub lowered : ℕ

pub data Step (s : System) : System → Type 0 where
  enter : (t : ℕ) → Step s (record s { active = t ∷ s.active })
  resume :
      (t : ℕ)
      → In t s.active
      → Step s (record s { sem = record s.sem { waitq = unlink_entry t s.sem.waitq } })
  pass :
      (t : ℕ) (xs ys : List ℕ) (m : Semaphore)
      → s.active ≡ xs ++ t ∷ ys
      → down_round t s.sem ≡ (true, m)
      → Step s (record s { sem = m; active = xs ++ ys; lowered = suc s.lowered })
  block :
      (t : ℕ) (xs ys : List ℕ) (m : Semaphore)
      → s.active ≡ xs ++ t ∷ ys
      → down_round t s.sem ≡ (false, m)
      → Step s (record s { sem = m; active = xs ++ ys })
  try :
      (m : Semaphore)
      → try_down s.sem ≡ (true, m)
      → Step s (record s { sem = m; lowered = suc s.lowered })
  up : Step s (record s { sem = raise s.sem; wakers = suc s.wakers; raised = suc s.raised })
  wake :
      (n t : ℕ) (ts : List ℕ)
      → s.wakers ≡ suc n
      → wakeup_one s.sem.waitq ≡ (some t, ts)
      → Step s (record s { sem = record s.sem { waitq = ts }; active = t ∷ s.active; wakers = n })
  wake_none :
      (n : ℕ)
      → s.wakers ≡ suc n
      → wakeup_one s.sem.waitq ≡ (none, [])
      → Step s (record s { wakers = n })

abbrev pub start_system : ℕ → System
start_system count = record {
  sem = record { count = count; waitq = [] };
  active = [];
  wakers = 0;
  raised = 0;
  lowered = 0;
}

pub data Reach (count : ℕ) : System → Type 0 where
  start : Reach count (start_system count)
  later : {s t : System} → Reach count s → Step s t → Reach count t

-- No permit is lost or made up, and while somebody sleeps, every permit that is left has a task
-- that is awake and will take it or wake a sleeper for it.
pub record IsServed (count : ℕ) (s : System) : Type 0 where
  pub kept : s.sem.count + s.lowered ≡ count + s.raised
  pub awake : (s.sem.waitq ≡ []) ⊎ (s.sem.count ≤ length s.active + s.wakers)

down_round-true :
    (t : ℕ) (m m' : Semaphore)
    → down_round t m ≡ (true, m')
    → (0 < m.count) × (m' ≡ record m { count = m.count - 1 })
unfolding down_round
down_round-true t m m' e = (ground arith, ground arith)

down_round-false :
    (t : ℕ) (m m' : Semaphore)
    → down_round t m ≡ (false, m')
    → (m.count ≡ 0) × (m' ≡ record m { waitq = m.waitq ++ t ∷ [] })
unfolding down_round
down_round-false t m m' e = (ground arith, ground arith)

try_down-true :
    (m m' : Semaphore)
    → try_down m ≡ (true, m')
    → (0 < m.count) × (m' ≡ record m { count = m.count - 1 })
unfolding try_down
try_down-true m m' e = (ground arith, ground arith)

wakeup_one-nil : (q : List ℕ) → wakeup_one q ≡ (none, []) → q ≡ []
wakeup_one-nil [] e = refl
wakeup_one-nil (t ∷ ts) e = absurd cc

woken-nil : (q : List ℕ) (t : ℕ) (ts : List ℕ) → q ≡ [] → wakeup_one q ≡ (some t, ts) → ⊥
woken-nil [] t ts e l = absurd cc
woken-nil (u ∷ us) t ts e l = absurd cc

cut-length :
    (xs : List ℕ) (t : ℕ) (ys active : List ℕ)
    → active ≡ xs ++ t ∷ ys
    → length active ≡ suc (length (xs ++ ys))
cut-length xs t ys active e =
    omega (arith, ap length e, length-append xs (t ∷ ys), length-append xs ys)

Step-IsServed : (count : ℕ) (s s' : System) → Step s s' → IsServed count s → IsServed count s'
unfolding unlink_entry
Step-IsServed count s s' (enter t) k = record {
  kept = k.kept;
  awake = elim k.awake [ inl e ↦ inl e | inr h ↦ inr (omega (arith, h)) ];
}
Step-IsServed count s s' (resume t i) k = record {
  kept = k.kept;
  awake = elim k.awake [ inl e ↦ inl (rw e refl) | inr h ↦ inr h ];
}
Step-IsServed count s s' (pass t xs ys m e l) k =
    let (h, p) = down_round-true t s.sem m l in
    rw p (record {
      kept = omega (arith, h, k.kept);
      awake = elim k.awake [
        | inl f ↦ inl f
        | inr f ↦ inr (omega (arith, h, f, cut-length xs t ys s.active e))
      ];
    })
Step-IsServed count s s' (block t xs ys m e l) k =
    let (h, p) = down_round-false t s.sem m l in
    rw p (record { kept = k.kept; awake = inr (omega (arith, h)) })
Step-IsServed count s s' (try m l) k =
    let (h, p) = try_down-true s.sem m l in
    rw p (record {
      kept = omega (arith, h, k.kept);
      awake = elim k.awake [ inl f ↦ inl f | inr f ↦ inr (omega (arith, f)) ];
    })
Step-IsServed count s s' up k = record {
  kept = omega (arith, k.kept);
  awake = elim k.awake [ inl f ↦ inl f | inr f ↦ inr (omega (arith, f)) ];
}
Step-IsServed count s s' (wake n t ts e l) k = record {
  kept = k.kept;
  awake = elim k.awake [
    | inl f ↦ absurd (woken-nil s.sem.waitq t ts f l)
    | inr f ↦ inr (omega (arith, f, e))
  ];
}
Step-IsServed count s s' (wake_none n e l) k = record {
  kept = k.kept;
  awake = inl (wakeup_one-nil s.sem.waitq l);
}

-- In every reachable state the permits that are left and those that were taken are the initial ones
-- and those that were put back; and if a task sleeps, there is for every permit that is left a task
-- that is awake in down or in up.
pub Reach-IsServed : (count : ℕ) (s : System) → Reach count s → IsServed count s
Reach-IsServed count s start = record { kept = omega arith; awake = inl refl }
Reach-IsServed count s (later {s = r} h st) = Step-IsServed count r s st (Reach-IsServed count r h)

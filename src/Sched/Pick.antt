-- ===== src/Sched/Pick.antt =====
-- What the loop of pick_next chooses.
use zonix_plus.Base.{
  ==_refl, All, Bool, Bool-cases, List, Option, [], ap, arith, false, if◌then◌else◌, inl, inr,
  length, ltb, ltb→lt, refl, some, suc, sym, true, ℕ, ◌&&◌, ◌++◌, ◌+◌, ◌<◌, ◌==◌, ◌∙◌, ◌∷◌, ◌≡◌,
  ◌≢◌, ◌≤◌, ◌⊎◌,
}
use mathlib.Core.Bool.{true≢false}
use zonix_plus.Ring.{circular_walk}
use zonix_plus.Ring.Segment.{IsRing}
use zonix_plus.Ring.Walk.{circular_walk-IsRing}
use zonix_plus.Sched.{Task, Scheduler, eligible, scan, pick_next, start_cursor, idle_prio}

both : (a b : Bool) → (a && b) ≡ true → (a ≡ true) × (b ≡ true)
both true b e = (refl, e)
both false b e = cc

module _ (task : ℕ → Task) (idle : ℕ) (current : Option ℕ) where
  -- `next` is the first eligible task of `order` whose priority is below `bound` and the least.
  pub record IsFirst (order : List ℕ) (bound next : ℕ) : Type 0 where
    pub before : List ℕ
    pub behind : List ℕ
    pub found : order ≡ before ++ next ∷ behind
    pub chosen : eligible task idle current next ≡ true
    pub below : (task next).priority < bound
    pub first :
        All
          (λ q. eligible task idle current q ≡ true → (task next).priority < (task q).priority)
          before
    pub least :
        All
          (λ q. eligible task idle current q ≡ true → (task next).priority ≤ (task q).priority)
          behind

  -- No eligible task of `order` has a priority below `bound`.
  abbrev pub NoneBelow : List ℕ → ℕ → Type 0
  NoneBelow order bound =
      All (λ q. eligible task idle current q ≡ true → bound ≤ (task q).priority) order

  IsFirst-cons :
      (p : ℕ) (order : List ℕ) (bound next : ℕ)
      → (eligible task idle current p ≡ true → bound ≤ (task p).priority)
      → IsFirst order bound next
      → IsFirst (p ∷ order) bound next
  IsFirst-cons p order bound next h f = record {
    before = p ∷ f.before;
    behind = f.behind;
    found = ap (λ (xs : List ℕ). p ∷ xs) f.found;
    chosen = f.chosen;
    below = f.below;
    first = ((λ e. omega (arith, h e, f.below)), f.first);
    least = f.least;
  }

  IsFirst-better :
      (p : ℕ) (order : List ℕ) (bound next : ℕ)
      → (task p).priority < bound
      → IsFirst order (task p).priority next
      → IsFirst (p ∷ order) bound next
  IsFirst-better p order bound next h f = record {
    before = p ∷ f.before;
    behind = f.behind;
    found = ap (λ (xs : List ℕ). p ∷ xs) f.found;
    chosen = f.chosen;
    below = omega (arith, f.below, h);
    first = ((λ e. f.below), f.first);
    least = f.least;
  }

  IsFirst-head :
      (p : ℕ) (order : List ℕ) (bound : ℕ)
      → eligible task idle current p ≡ true
      → (task p).priority < bound
      → NoneBelow order (task p).priority
      → IsFirst (p ∷ order) bound p
  IsFirst-head p order bound c h none_below = record {
    before = [];
    behind = order;
    found = refl;
    chosen = c;
    below = h;
    first = tt;
    least = none_below;
  }

  scan-nil : (n bound : ℕ) → (scan task idle current [] (n, bound)).0 ≡ n
  unfolding scan
  scan-nil n bound = refl

  scan-cons :
      (p : ℕ) (rest : List ℕ) (n bound : ℕ)
      → scan task idle current (p ∷ rest) (n, bound)
        ≡ scan task idle current rest (
            if eligible task idle current p && ltb (task p).priority bound
            then (p, (task p).priority)
            else (n, bound))
  unfolding scan
  scan-cons p rest n bound = refl

  pub scan-cases :
      (order : List ℕ) (n bound : ℕ)
      → ((scan task idle current order (n, bound)).0 ≡ n × NoneBelow order bound)
        ⊎ IsFirst order bound (scan task idle current order (n, bound)).0
  scan-cases [] n bound = inl (scan-nil n bound, tt)
  scan-cases (p ∷ rest) n bound =
      elim (Bool-cases (eligible task idle current p && ltb (task p).priority bound)) [
        | inl e ↦
            let (chosen, below) =
              both (eligible task idle current p) (ltb (task p).priority bound) e in
            let lower = ltb→lt (task p).priority bound below in
            rw (scan-cons p rest n bound) (
              rw e (
                inr (elim (scan-cases rest p (task p).priority) [
                  | inl r ↦ rw r.0 (IsFirst-head p rest bound chosen lower r.1)
                  | inr f ↦ IsFirst-better p rest bound _ lower f
                ])))
        | inr e ↦
            let higher : eligible task idle current p ≡ true → bound ≤ (task p).priority =
              λ c. ground (arith, c, e) in
            rw (scan-cons p rest n bound) (
              rw e (elim (scan-cases rest n bound) [
                | inl r ↦ inl (r.0, (higher, r.1))
                | inr f ↦ inr (IsFirst-cons p rest bound _ higher f)
              ]))
      ]

not-eligible :
    (task : ℕ → Task) (idle : ℕ) (current : Option ℕ) → eligible task idle current idle ≡ false
unfolding eligible
not-eligible task idle current = ground (arith, ==_refl idle)

pub IsFirst-not_idle :
    (task : ℕ → Task) (idle : ℕ) (current : Option ℕ) (order : List ℕ) (bound next : ℕ)
    → IsFirst task idle current order bound next
    → next ≢ idle
IsFirst-not_idle task idle current order bound next f e =
    true≢false (sym f.chosen ∙ ap (eligible task idle current) e ∙ not-eligible task idle current)

pick_next-scan :
    (s : Scheduler) (rounds start : ℕ) (order : List ℕ)
    → start_cursor s.links s.task_list s.cursor ≡ start
    → circular_walk rounds s.task_list (some start) s.links ≡ order
    → (let next = (scan s.task s.idle s.current order (s.idle, idle_prio + 1)).0 in
        pick_next rounds s
        ≡ (next, if next == s.idle then some start else some (s.links.next next)))
unfolding pick_next
pick_next-scan s rounds start order h w = rw h (rw w refl)

-- On a list of tasks whose cursor stands for `start`, pick_next looks at all tasks from `start` around.
-- It takes the first eligible one of the least priority and moves the cursor behind it, or, if none
-- is eligible at priority 31 or better, the idle task.
pub pick_next-IsFirst :
    (s : Scheduler) (xs : List ℕ) (start : ℕ) (ys : List ℕ)
    → IsRing s.links s.task_list (xs ++ start ∷ ys)
    → start_cursor s.links s.task_list s.cursor ≡ start
    → (let order = start ∷ ys ++ xs in
        let picked = pick_next (suc (length ys + length xs)) s in
        ((picked ≡ (s.idle, some start)) × NoneBelow s.task s.idle s.current order (idle_prio + 1))
        ⊎ (IsFirst s.task s.idle s.current order (idle_prio + 1) picked.0
            × (picked.1 ≡ some (s.links.next picked.0))))
pick_next-IsFirst s xs start ys r h =
    let circle = circular_walk-IsRing s.links s.task_list xs start ys r in
    let order : List ℕ = start ∷ ys ++ xs in
    let picked = pick_next-scan s _ start order h circle in
    rw picked (elim (scan-cases s.task s.idle s.current order s.idle (idle_prio + 1)) [
      | inl c ↦ inl (rw c.0 (rw (==_refl s.idle) refl), c.1)
      | inr f ↦
          let n = IsFirst-not_idle s.task s.idle s.current order (idle_prio + 1) _ f in
          inr (f, ground (arith, n))
    ])

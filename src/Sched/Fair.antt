-- ===== src/Sched/Fair.antt =====
-- Round robin: no eligible task of the least priority is passed over for ever.
use zonix_plus.Base.{
  All-In, In, In-middle, In-split, In-swap, List, Option, [], ap, append-middle, append-split,
  arith, inl, inr, length, length-append, some, suc, sym, true, zero, ℕ, ◌++◌, ◌+◌, ◌<◌, ◌∙◌, ◌∷◌,
  ◌≡◌, ◌≤◌, ◌⊎◌,
}
use mathlib.Core.Path.{subst}
use zonix_plus.Ring.Segment.{IsRing}
use zonix_plus.Sched.{Scheduler, eligible, pick_next, idle_prio}
use zonix_plus.Sched.Turn.{IsAt, Picked, moved, pick-IsAt, IsAt-turn}
use zonix_plus.Sched.Pick.{IsFirst}

-- The tasks that pick_next returns one after the other, while no state and no priority changes.
unfoldable pub picks : ℕ → ℕ → Scheduler → List ℕ
picks rounds zero s = []
picks rounds (suc k) s =
    let (next, cursor) = pick_next rounds s in next ∷ picks rounds k (record s { cursor = cursor })

-- `t` is eligible, and no eligible task of `nodes` has a better priority.
pub record IsBest (s : Scheduler) (nodes : List ℕ) (t : ℕ) : Type 0 where
  pub eligible_best : eligible s.task s.idle s.current t ≡ true
  pub bounded : (s.task t).priority ≤ idle_prio
  pub best :
      (q : ℕ)
      → In q nodes
      → eligible s.task s.idle s.current q ≡ true
      → (s.task t).priority ≤ (s.task q).priority

-- What is picked before its turn lies before `t` on the circle.
IsFirst-before :
    (s : Scheduler) (nodes before : List ℕ) (t : ℕ) (behind : List ℕ) (next : ℕ)
    → IsBest s nodes t
    → ((q : ℕ) → In q (before ++ t ∷ behind) → In q nodes)
    → (f : IsFirst s.task s.idle s.current (before ++ t ∷ behind) (idle_prio + 1) next)
    → (next ≡ t)
      ⊎ ((rest : List ℕ) × (before ≡ f.before ++ next ∷ rest) × (f.behind ≡ rest ++ t ∷ behind))
IsFirst-before s nodes before t behind next b sub f =
    let inside : In next nodes = sub next (rw f.found (In-middle f.before next f.behind)) in
    elim (append-split before (t ∷ behind) f.before next f.behind f.found) [
      | inl r ↦ inr r
      | inr ([], p, r) ↦ inl cc
      | inr (x ∷ rest, p, r) ↦
          let same : x ≡ t = cc in
          let passed : In t f.before = rw p (rw same (In-middle before t rest)) in
          let less = All-In _ f.before t f.first passed b.eligible_best in
          absurd (omega (arith, less, b.best next inside f.chosen))
    ]

IsBest-moved :
    (s : Scheduler) (nodes : List ℕ) (t next : ℕ) → IsBest s nodes t → IsBest (moved s next) nodes t
unfolding moved
IsBest-moved s nodes t next b = record {
  eligible_best = b.eligible_best;
  bounded = b.bounded;
  best = b.best;
}

picks-moved :
    (s : Scheduler) (rounds k : ℕ)
    → (pick_next rounds s).1 ≡ some (s.links.next (pick_next rounds s).0)
    → picks rounds (suc k) s
      ≡ (pick_next rounds s).0 ∷ picks rounds k (moved s (pick_next rounds s).0)
unfolding picks moved
picks-moved s rounds k e =
    ap (λ (c : Option ℕ). (pick_next rounds s).0 ∷ picks rounds k (record s { cursor = c })) e

picks-at :
    (k : ℕ) (s : Scheduler) (ps qs nodes before : List ℕ) (t : ℕ) (behind : List ℕ)
    → IsAt s ps qs
    → ps ++ qs ≡ nodes
    → qs ++ ps ≡ before ++ t ∷ behind
    → length before < k
    → IsBest s nodes t
    → In t (picks (length nodes) k s)
picks-at zero s ps qs nodes before t behind a n e h b = absurd (omega arith)
picks-at (suc k) s ps qs nodes before t behind a n e h b =
    let order : List ℕ = before ++ t ∷ behind in
    let sub : (q : ℕ) → In q order → In q nodes =
      λ q i. subst (λ (xs : List ℕ). In q xs) n (In-swap q qs ps (rw e i)) in
    let here : In t (qs ++ ps) = rw e (In-middle before t behind) in
    let picked : Picked s order (pick_next (length nodes) s) =
      subst (λ (xs : List ℕ). Picked s order (pick_next (length xs) s)) n
        (subst (λ (xs : List ℕ). Picked s xs (pick_next (length (ps ++ qs)) s)) e
          (pick-IsAt s ps qs t a here)) in
    elim picked [
      | inl (idle, none_below) ↦ absurd (
          omega (
            arith,
            b.bounded,
            All-In _ order t none_below (In-middle before t behind) b.eligible_best,
          ))
      | inr (f, c) ↦
          let next = (pick_next (length nodes) s).0 in
          rw (picks-moved s (length nodes) k c)
            (elim (IsFirst-before s nodes before t behind next b sub f) [
              | inl same ↦ inl (sym same)
              | inr (rest, p, r) ↦
                  let turn = IsAt-turn s ps qs f.before next f.behind a (e ∙ f.found) in
                  let later : turn.ahead ++ turn.passed
                      ≡ rest ++ t ∷ (behind ++ f.before ++ next ∷ []) =
                    turn.same_order
                    ∙ ap (λ (xs : List ℕ). xs ++ f.before ++ next ∷ []) r
                    ∙ append-middle rest t behind f.before (next ∷ []) in
                  let shorter = ap length p ∙ length-append f.before (next ∷ rest) in
                  inr (
                    picks-at k (moved s next) turn.passed turn.ahead nodes rest t _ turn.at
                      (turn.same_nodes ∙ n) later (omega arith) (IsBest-moved s nodes t next b))
            ])
    ]

-- Round robin is fair: with the cursor at a task of the list, and as long as states and priorities do
-- not change, each eligible task of priority 31 or better, than which no eligible one is better, is
-- picked at least once in as many picks as there are tasks.
pub picks-fair :
    (s : Scheduler) (nodes : List ℕ) (c t : ℕ)
    → IsRing s.links s.task_list nodes
    → s.cursor ≡ some c
    → In c nodes
    → In t nodes
    → IsBest s nodes t
    → In t (picks (length nodes) (length nodes) s)
picks-fair s nodes c t r h i j b =
    let (ps, ys, e) = In-split c nodes i in
    let at : IsAt s ps (c ∷ ys) = record {
      ring = subst (λ (xs : List ℕ). IsRing s.links s.task_list xs) e r;
      cursor = h;
    } in
    let (before, behind, o) =
      In-split t (c ∷ ys ++ ps) (In-swap t ps (c ∷ ys) (subst (λ (xs : List ℕ). In t xs) e j)) in
    let nodes_size = ap length e ∙ length-append ps (c ∷ ys) in
    let order_size = length-append (c ∷ ys) ps in
    let before_size = ap length o ∙ length-append before (t ∷ behind) in
    picks-at (length nodes) s ps (c ∷ ys) nodes before t behind at (sym e) o (omega arith) b

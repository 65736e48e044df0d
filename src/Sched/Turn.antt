-- ===== src/Sched/Turn.antt =====
-- How pick_next moves the cursor around the task list.
use mathlib.Core.List.{append-nil, append_assoc}
use mathlib.Core.Path.{subst}
use zonix_plus.Base.{
  ==_refl, In, List, NotIn-append, Option, [], ap, append-split, arith, inl, inr, length,
  length-append, refl, some, suc, sym, ℕ, ◌++◌, ◌+◌, ◌∙◌, ◌∷◌, ◌≡◌, ◌≢◌, ◌⊎◌,
}
use zonix_plus.Ring.{Links}
use zonix_plus.Ring.Segment.{Segment, IsRing, Segment-split}
use zonix_plus.Sched.{Scheduler, pick_next, start_cursor, idle_prio}
use zonix_plus.Sched.Pick.{IsFirst, NoneBelow, pick_next-IsFirst}

abbrev pub first_or : List ℕ → ℕ → ℕ
first_or [] head = head
first_or (x ∷ xs) head = x

Segment-first :
    (l : Links) (a : ℕ) (xs : List ℕ) (b : ℕ) → Segment l a xs b → l.next a ≡ first_or xs b
Segment-first l a [] b s = s.0
Segment-first l a (x ∷ xs) b s = s.0

-- The list is `ps ++ qs`, and the cursor is at the first of `qs`, or at the head if there is none.
pub record IsAt (s : Scheduler) (ps qs : List ℕ) : Type 0 where
  pub ring : IsRing s.links s.task_list (ps ++ qs)
  pub cursor : s.cursor ≡ some (first_or qs s.task_list)

-- What pick_next returns, in terms of the circle `order` that it looks at.
abbrev pub Picked : Scheduler → List ℕ → ℕ × Option ℕ → Type 0
Picked s order picked =
    ((picked.0 ≡ s.idle) × NoneBelow s.task s.idle s.current order (idle_prio + 1))
    ⊎ (IsFirst s.task s.idle s.current order (idle_prio + 1) picked.0
        × (picked.1 ≡ some (s.links.next picked.0)))

pick-at :
    (s : Scheduler) (xs : List ℕ) (start : ℕ) (ys : List ℕ) (rounds : ℕ)
    → IsRing s.links s.task_list (xs ++ start ∷ ys)
    → start_cursor s.links s.task_list s.cursor ≡ start
    → rounds ≡ length (xs ++ start ∷ ys)
    → Picked s (start ∷ ys ++ xs) (pick_next rounds s)
pick-at s xs start ys rounds r h n =
    let enough : rounds ≡ suc (length ys + length xs) =
      n ∙ length-append xs (start ∷ ys) ∙ omega arith in
    rw enough (elim (pick_next-IsFirst s xs start ys r h) [
      | inl (e, c) ↦ inl (ap (λ (x : ℕ × Option ℕ). x.0) e, c)
      | inr f ↦ inr f
    ])

start-at :
    (s : Scheduler) (q : ℕ)
    → s.cursor ≡ some q
    → q ≢ s.task_list
    → start_cursor s.links s.task_list s.cursor ≡ q
unfolding start_cursor
start-at s q h n = rw h (ground arith)

start-head :
    (s : Scheduler)
    → s.cursor ≡ some s.task_list
    → start_cursor s.links s.task_list s.cursor ≡ s.links.next s.task_list
unfolding start_cursor
start-head s h = rw h (ground (arith, ==_refl s.task_list))

pub pick-IsAt :
    (s : Scheduler) (ps qs : List ℕ) (t : ℕ)
    → IsAt s ps qs
    → In t (qs ++ ps)
    → Picked s (qs ++ ps) (pick_next (length (ps ++ qs)) s)
pick-IsAt s ps (q ∷ qs) t a i =
    let (hx, hy) = NotIn-append s.task_list ps (q ∷ qs) a.ring.distinct.0 in
    pick-at s ps q qs _ a.ring (start-at s q a.cursor (λ e. hy.0 (sym e))) refl
pick-IsAt s [] [] t a i = elim i [ ]
pick-IsAt s (p ∷ ps) [] t a i =
    let first : s.links.next s.task_list ≡ p =
      Segment-first s.links s.task_list (p ∷ ps ++ []) s.task_list a.ring.linked in
    let same : p ∷ (ps ++ []) ++ [] ≡ p ∷ ps = append-nil _ ∙ append-nil (p ∷ ps) in
    subst (λ (order : List ℕ). Picked s order (pick_next (length (p ∷ ps ++ [])) s)) same
      (pick-at s [] p (ps ++ []) _ a.ring (start-head s a.cursor ∙ first) refl)

unfoldable pub moved : Scheduler → ℕ → Scheduler
moved s next = record s { cursor = some (s.links.next next) }

-- Behind the task that was picked, the circle goes on with what was behind it.
pub record IsRotated (s : Scheduler) (order nodes : List ℕ) : Type 0 where
  pub passed : List ℕ
  pub ahead : List ℕ
  pub at : IsAt s passed ahead
  pub same_nodes : passed ++ ahead ≡ nodes
  pub same_order : ahead ++ passed ≡ order

IsAt-moved :
    (s : Scheduler) (ls : List ℕ) (next : ℕ) (bs nodes : List ℕ)
    → IsRing s.links s.task_list nodes
    → nodes ≡ ls ++ next ∷ bs
    → IsRotated (moved s next) (bs ++ ls ++ next ∷ []) nodes
unfolding moved
IsAt-moved s ls next bs nodes r e =
    let split =
      Segment-split s.links s.task_list ls next bs s.task_list
        (subst (λ (xs : List ℕ). Segment s.links s.task_list xs s.task_list) e r.linked) in
    let joined : ls ++ next ∷ [] ++ bs ≡ nodes = append_assoc ls (next ∷ []) bs ∙ sym e in
    record {
      passed = ls ++ next ∷ [];
      ahead = bs;
      at = record {
        ring = subst (λ (xs : List ℕ). IsRing s.links s.task_list xs) (sym joined) r;
        cursor = ap some (Segment-first s.links next bs s.task_list split.1);
      };
      same_nodes = joined;
      same_order = sym (append_assoc bs ls (next ∷ []));
    }

IsRotated-eq :
    (s : Scheduler) (order order' nodes : List ℕ)
    → order ≡ order'
    → IsRotated s order nodes
    → IsRotated s order' nodes
IsRotated-eq s order order' nodes e r = subst (λ (xs : List ℕ). IsRotated s xs nodes) e r

pub IsAt-turn :
    (s : Scheduler) (ps qs before : List ℕ) (next : ℕ) (behind : List ℕ)
    → IsAt s ps qs
    → qs ++ ps ≡ before ++ next ∷ behind
    → IsRotated (moved s next) (behind ++ before ++ next ∷ []) (ps ++ qs)
IsAt-turn s ps qs before next behind a e = elim (append-split qs ps before next behind e) [
  | inl (rest, p, r) ↦
      let nodes : ps ++ qs ≡ ps ++ before ++ next ∷ rest =
        ap (λ (xs : List ℕ). ps ++ xs) p ∙ sym (append_assoc ps before (next ∷ rest)) in
      let order : rest ++ (ps ++ before) ++ next ∷ [] ≡ behind ++ before ++ next ∷ [] =
        rw r (ap (λ (xs : List ℕ). xs ++ next ∷ []) (sym (append_assoc rest ps before))) in
      IsRotated-eq _ _ _ _ order (IsAt-moved s (ps ++ before) next rest (ps ++ qs) a.ring nodes)
  | inr (rest, p, r) ↦
      let nodes : ps ++ qs ≡ rest ++ next ∷ (behind ++ qs) =
        ap (λ (xs : List ℕ). xs ++ qs) r ∙ append_assoc rest (next ∷ behind) qs in
      let order : (behind ++ qs) ++ rest ++ next ∷ [] ≡ behind ++ before ++ next ∷ [] =
        rw p (ap (λ (xs : List ℕ). xs ++ next ∷ []) (append_assoc behind qs rest)) in
      IsRotated-eq _ _ _ _ order (IsAt-moved s rest next (behind ++ qs) (ps ++ qs) a.ring nodes)
]

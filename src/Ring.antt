-- ===== src/Ring.antt =====
-- kernel/lib/list.h: the intrusive circular list. A node is named by a number (its address), and a
-- `Links` holds the `prev` and `next` pointers of all nodes.
pub mod Segment
pub mod Insert
pub mod Unlink
pub mod Walk
pub mod Tests
use zonix_plus.Base.{
  Bool, List, Option, [], if◌then◌else◌, none, some, suc, update, zero, ℕ, ◌==◌, ◌||◌, ◌∷◌,
}

pub record Links : Type 0 where
  pub next : ℕ → ℕ
  pub prev : ℕ → ℕ

unfoldable pub set_next : ℕ → ℕ → Links → Links
set_next p v l = record l { next = update l.next p v }

unfoldable pub set_prev : ℕ → ℕ → Links → Links
set_prev p v l = record l { prev = update l.prev p v }

-- ListNode(): prev = next = this
unfoldable pub init_node : ℕ → Links → Links
unfolding set_next set_prev
init_node self l = set_prev self self (set_next self self l)

unfoldable pub next_node : ℕ → Links → ℕ
next_node self l = l.next self

-- The writes in the order of the source; each pointer is read when its write is made.
unfoldable pub add_before : ℕ → ℕ → Links → Links
add_before self elm l =
    let l₁ = set_prev elm (l.prev self) l in
    let l₂ = set_next elm self l₁ in let l₃ = set_next (l₂.prev self) elm l₂ in set_prev self elm l₃

unfoldable pub add_after : ℕ → ℕ → Links → Links
add_after self elm l =
    let l₁ = set_prev elm self l in
    let l₂ = set_next elm (l₁.next self) l₁ in
    let l₃ = set_prev (l₂.next self) elm l₂ in set_next self elm l₃

unfoldable pub unlink : ℕ → Links → Links
unfolding init_node
unlink self l =
    let l₁ = set_next (l.prev self) (l.next self) l in
    let l₂ = set_prev (l₁.next self) (l₁.prev self) l₁ in init_node self l₂

unfoldable pub empty : ℕ → Links → Bool
empty self l = l.next self == self

-- for (auto* node : list): from begin() = next to end() = the head, with fuel for the rounds.
unfoldable pub walk : ℕ → ℕ → ℕ → Links → List ℕ
walk zero head cur l = []
walk (suc fuel) head cur l =
    let rest = walk fuel head (l.next cur) l in if cur == head then [] else cur ∷ rest

-- CircularIterator::operator++; none is the null `cur` of end().
unfoldable pub circular_next : ℕ → ℕ → ℕ → Links → Option ℕ
circular_next head start cur l =
    let next' = if l.next cur == head then l.next (l.next cur) else l.next cur in
    if next' == head || next' == start then none else some next'

-- CircularView::begin() for a view whose head is not null; `start` may be null.
unfoldable pub circular_begin : ℕ → Option ℕ → Links → Option ℕ
circular_begin head start l =
    let first : ℕ = elim start [ none ↦ l.next head | some s ↦ s ] in
    let first' = if first == head then l.next first else first in
    if first' == head then none else some first'

-- for (auto* node : list.circular_from(start)): each round visits `cur` and steps on.
unfoldable pub circular_rounds : ℕ → ℕ → ℕ → Option ℕ → Links → List ℕ
circular_rounds zero head start cur l = []
circular_rounds (suc fuel) head start none l = []
circular_rounds (suc fuel) head start (some cur) l =
    cur ∷ circular_rounds fuel head start (circular_next head start cur l) l

unfoldable pub circular_walk : ℕ → ℕ → Option ℕ → Links → List ℕ
unfolding circular_begin circular_rounds circular_next
circular_walk fuel head start l = elim (circular_begin head start l) [
  | none ↦ []
  | some first ↦ circular_rounds fuel head first (some first) l
]

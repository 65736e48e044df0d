-- ===== src/Ring/Segment.antt =====
-- Chains of nodes that point at one another in both directions, and the rings that they close.
use zonix_plus.Base.{Distinct, Distinct-append_comm, List, NotIn, [], arith, ℕ, ◌++◌, ◌∷◌, ◌≡◌, ◌≢◌}
use zonix_plus.Ring.{Links, set_next, set_prev}

-- From `a` through `xs` to `b`.
abbrev pub Segment : Links → ℕ → List ℕ → ℕ → Type 0
Segment l a [] b = (l.next a ≡ b) × (l.prev b ≡ a)
Segment l a (x ∷ xs) b = (l.next a ≡ x) × (l.prev x ≡ a) × Segment l x xs b

-- The list with the head node `h` holds the nodes `xs`, in order.
pub record IsRing (l : Links) (h : ℕ) (xs : List ℕ) : Type 0 where
  pub linked : Segment l h xs h
  pub distinct : Distinct (h ∷ xs)

pub Segment-set_next :
    (l : Links) (p v a : ℕ) (xs : List ℕ) (b : ℕ)
    → NotIn p (a ∷ xs)
    → Segment l a xs b
    → Segment (set_next p v l) a xs b
unfolding set_next
Segment-set_next l p v a [] b n s = (ground arith, s.1)
Segment-set_next l p v a (x ∷ xs) b n s = (ground arith, s.1, Segment-set_next l p v x xs b n.1 s.2)

pub Segment-set_prev :
    (l : Links) (p v a : ℕ) (xs : List ℕ) (b : ℕ)
    → NotIn p xs
    → p ≢ b
    → Segment l a xs b
    → Segment (set_prev p v l) a xs b
unfolding set_prev
Segment-set_prev l p v a [] b n m s = (s.0, ground arith)
Segment-set_prev l p v a (x ∷ xs) b n m s =
    (s.0, ground arith, Segment-set_prev l p v x xs b n.1 m s.2)

-- The same for a pointer `q` that is known to be `p`.
pub Segment-set_prev_at :
    (l : Links) (q p v a : ℕ) (xs : List ℕ) (b : ℕ)
    → q ≡ p
    → NotIn p xs
    → p ≢ b
    → Segment l a xs b
    → Segment (set_prev q v l) a xs b
Segment-set_prev_at l q p v a xs b e n m s = rw e (Segment-set_prev l p v a xs b n m s)

pub Segment-set_next_at :
    (l : Links) (q p v a : ℕ) (xs : List ℕ) (b : ℕ)
    → q ≡ p
    → NotIn p (a ∷ xs)
    → Segment l a xs b
    → Segment (set_next q v l) a xs b
Segment-set_next_at l q p v a xs b e n s = rw e (Segment-set_next l p v a xs b n s)

pub Segment-split :
    (l : Links) (a : ℕ) (xs : List ℕ) (y : ℕ) (ys : List ℕ) (b : ℕ)
    → Segment l a (xs ++ y ∷ ys) b
    → Segment l a xs y × Segment l y ys b
Segment-split l a [] y ys b s = ((s.0, s.1), s.2)
Segment-split l a (x ∷ xs) y ys b s =
    let (p, q) = Segment-split l x xs y ys b s.2 in ((s.0, s.1, p), q)

pub Segment-join :
    (l : Links) (a : ℕ) (xs : List ℕ) (y : ℕ) (ys : List ℕ) (b : ℕ)
    → Segment l a xs y
    → Segment l y ys b
    → Segment l a (xs ++ y ∷ ys) b
Segment-join l a [] y ys b p q = (p.0, p.1, q)
Segment-join l a (x ∷ xs) y ys b p q = (p.0, p.1, Segment-join l x xs y ys b p.2 q)

-- A ring may be read from any of its nodes.
pub IsRing-rotate :
    (l : Links) (x : ℕ) (xs : List ℕ) (y : ℕ) (ys : List ℕ)
    → IsRing l x (xs ++ y ∷ ys)
    → IsRing l y (ys ++ x ∷ xs)
IsRing-rotate l x xs y ys r =
    let (p, q) = Segment-split l x xs y ys x r.linked in
    record {
      linked = Segment-join l y ys x xs y q p;
      distinct = Distinct-append_comm (x ∷ xs) (y ∷ ys) r.distinct;
    }

-- A list is empty or has a last element.
pub data LastView : List ℕ → Type 0 where
  none_left : LastView []
  last_of : (xs : List ℕ) (z : ℕ) → LastView (xs ++ z ∷ [])

LastView-cons : (x : ℕ) {xs : List ℕ} → LastView xs → LastView (x ∷ xs)
LastView-cons x none_left = last_of [] x
LastView-cons x (last_of xs z) = last_of (x ∷ xs) z

pub last_view : (xs : List ℕ) → LastView xs
last_view [] = none_left
last_view (x ∷ xs) = LastView-cons x (last_view xs)

-- ===== src/Ring/Insert.antt =====
-- add_before and add_after on a ring: the node goes to the end, or to the front.
use mathlib.Core.List.{append_assoc}
use zonix_plus.Base.{
  List, NotIn, NotIn-append, [], append-NotIn, arith, fun_ext, sym, ℕ, ◌++◌, ◌∷◌, ◌≡◌, ◌≢◌,
}
use zonix_plus.Ring.{Links, set_next, set_prev, add_before, add_after}
use zonix_plus.Ring.Segment.{
  IsRing, LastView, none_left, last_of, last_view, Segment-set_next, Segment-set_prev,
  Segment-set_prev_at, Segment-split, IsRing-rotate,
}

-- Reading the ring from the node itself, the new node is its successor.
pub add_after-IsRing :
    (l : Links) (self elm : ℕ) (xs : List ℕ)
    → IsRing l self xs
    → NotIn elm (self ∷ xs)
    → IsRing (add_after self elm l) self (elm ∷ xs)
unfolding add_after set_next set_prev
add_after-IsRing l self elm [] r n = record {
  linked = (ground arith, ground arith, (ground arith, ground arith));
  distinct = (((λ e. n.0 (sym e)), tt), (tt, tt));
}
add_after-IsRing l self elm (x ∷ xs) r n = record {
  linked = (
    ground arith,
    ground arith,
    (
      ground arith,
      ground arith,
      Segment-set_next _ self elm x xs self r.distinct.0 (
          Segment-set_prev_at _ _ x elm x xs self (ground arith) r.distinct.1.0
            (λ e. r.distinct.0.0 (sym e))
            (Segment-set_next _ elm _ x xs self n.1
              (Segment-set_prev l elm self x xs self n.1.1 n.0 r.linked.2))),
    ),
  );
  distinct = (((λ e. n.0 (sym e)), r.distinct.0), (n.1, r.distinct.1));
}

-- To insert before a node is to insert after the one that precedes it.
add_before-eq-add_after :
    (l : Links) (self elm p : ℕ)
    → l.prev self ≡ p
    → l.next p ≡ self
    → elm ≢ self
    → elm ≢ p
    → add_before self elm l ≡ add_after p elm l
unfolding add_before add_after set_next set_prev
add_before-eq-add_after l self elm p e f m n = λ i. record { next = nexts i; prev = prevs i }
  where
    nexts : (add_before self elm l).next ≡ (add_after p elm l).next
    nexts = fun_ext λ q. ground arith

    prevs : (add_before self elm l).prev ≡ (add_after p elm l).prev
    prevs = fun_ext λ q. ground arith

last-IsRing :
    (l : Links) (self elm : ℕ) {xs : List ℕ}
    → LastView xs
    → IsRing l self xs
    → NotIn elm (self ∷ xs)
    → IsRing (add_before self elm l) self (xs ++ elm ∷ [])
last-IsRing l self elm none_left r n =
    let e = add_before-eq-add_after l self elm self r.linked.1 r.linked.0 n.0 n.0 in
    rw e (add_after-IsRing l self elm [] r n)
last-IsRing l self elm (last_of xs z) r n =
    let (m, k) = NotIn-append elm xs (z ∷ []) n.1 in
    let (s, t) = Segment-split l self xs z [] self r.linked in
    let e = add_before-eq-add_after l self elm z t.1 t.0 n.0 k.0 in
    let r' =
      add_after-IsRing l z elm (self ∷ xs) (IsRing-rotate l self xs z [] r) (k.0, (n.0, m)) in
    rw (e, append_assoc) (IsRing-rotate _ z (elm ∷ []) self xs r')

-- Inserting before the head puts the node at the end of the list.
pub add_before-IsRing :
    (l : Links) (self elm : ℕ) (xs : List ℕ)
    → IsRing l self xs
    → NotIn elm (self ∷ xs)
    → IsRing (add_before self elm l) self (xs ++ elm ∷ [])
add_before-IsRing l self elm xs r n = last-IsRing l self elm (last_view xs) r n

-- Inserting after a node of the list puts the new node directly behind it.
pub add_after-IsRing_at :
    (l : Links) (head : ℕ) (xs : List ℕ) (self : ℕ) (ys : List ℕ) (elm : ℕ)
    → IsRing l head (xs ++ self ∷ ys)
    → NotIn elm (head ∷ xs ++ self ∷ ys)
    → IsRing (add_after self elm l) head (xs ++ self ∷ elm ∷ ys)
add_after-IsRing_at l head xs self ys elm r n =
    let (m, k) = NotIn-append elm xs (self ∷ ys) n.1 in
    let r' =
      add_after-IsRing l self elm (ys ++ head ∷ xs) (IsRing-rotate l head xs self ys r)
        (k.0, append-NotIn elm ys (head ∷ xs) k.1 (n.0, m)) in
    IsRing-rotate _ self (elm ∷ ys) head xs r'

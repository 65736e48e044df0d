-- ===== src/Ring/Unlink.antt =====
-- unlink: the node leaves its ring, and is a ring of its own.
use mathlib.Core.List.{append-nil}
use zonix_plus.Base.{
  Apart-comm, Distinct-append, List, NotIn-append, [], arith, false, true, ℕ, ◌++◌, ◌∷◌, ◌≡◌,
}
use zonix_plus.Ring.{Links, set_next, set_prev, init_node, unlink, empty}
use zonix_plus.Ring.Segment.{
  IsRing, Segment, Segment-set_next, Segment-set_prev, Segment-set_prev_at, Segment-set_next_at,
  Segment-split, Segment-join, IsRing-rotate, LastView, none_left, last_of, last_view,
}

-- Reading the ring from the node that leaves.
unlink-Segment :
    (l : Links) (x y : ℕ) {ys : List ℕ}
    → LastView ys
    → IsRing l x (y ∷ ys)
    → Segment (unlink x l) y ys y
unfolding unlink set_next set_prev
unlink-Segment l x y none_left r = (ground arith, ground arith)
unlink-Segment l x y (last_of zs w) r =
    let (s, t) = Segment-split l y zs w [] x r.linked.2 in
    let (xz, xw) = NotIn-append x zs (w ∷ []) r.distinct.0.1 in
    let (yz, yw) = NotIn-append y zs (w ∷ []) r.distinct.1.0 in
    let (dz, dw, a) = Distinct-append (y ∷ zs) (w ∷ []) r.distinct.1 in
    Segment-join _ y zs w [] y
      (Segment-set_prev _ x x y zs w xz xw.0 (
        Segment-set_next _ x x y zs w (r.distinct.0.0, xz)
          (Segment-set_prev_at _ _ y _ y zs w (ground arith) yz yw.0
            (Segment-set_next_at l _ w _ y zs w t.1 (Apart-comm (y ∷ zs) (w ∷ []) a).0 s))))
      (ground arith, ground arith)

unlink-IsRing_self :
    (l : Links) (x y : ℕ) (ys : List ℕ) → IsRing l x (y ∷ ys) → IsRing (unlink x l) y ys
unlink-IsRing_self l x y ys r = record {
  linked = unlink-Segment l x y (last_view ys) r;
  distinct = r.distinct.1;
}

-- The node leaves the list, whose other nodes keep their order.
pub unlink-IsRing :
    (l : Links) (head : ℕ) (xs : List ℕ) (x : ℕ) (ys : List ℕ)
    → IsRing l head (xs ++ x ∷ ys)
    → IsRing (unlink x l) head (xs ++ ys)
unlink-IsRing l head xs x [] r =
    rw append-nil (unlink-IsRing_self l x head xs (IsRing-rotate l head xs x [] r))
unlink-IsRing l head xs x (y ∷ ys) r =
    let r' = IsRing-rotate l head xs x (y ∷ ys) r in
    IsRing-rotate _ y ys head xs (unlink-IsRing_self l x y (ys ++ head ∷ xs) r')

-- A node that has left its list is an empty list, whatever it was linked to.
pub unlink-IsRing_alone : (l : Links) (x : ℕ) → IsRing (unlink x l) x []
unfolding unlink init_node set_next set_prev
unlink-IsRing_alone l x = record { linked = (ground arith, ground arith); distinct = (tt, tt) }

-- `empty` tells whether the list has a node.
pub empty-cons :
    (l : Links) (head x : ℕ) (xs : List ℕ) → IsRing l head (x ∷ xs) → empty head l ≡ false
unfolding empty
empty-cons l head x xs r = ground (arith, r.linked.0, r.distinct.0.0)

pub empty-nil : (l : Links) (head : ℕ) → IsRing l head [] → empty head l ≡ true
unfolding empty
empty-nil l head r = ground (arith, r.linked.0)

-- ===== src/Ring/Walk.antt =====
-- Iteration over a ring, forwards from the head and in a circle from a node.
use zonix_plus.Base.{
  Apart-comm, Distinct-append, List, NotIn, NotIn-append, [], arith, length, none, refl, some, suc,
  sym, zero, ℕ, ◌++◌, ◌+◌, ◌<◌, ◌∷◌, ◌≡◌, ◌≢◌,
}
use zonix_plus.Ring.{Links, walk, circular_next, circular_rounds, circular_walk}
use zonix_plus.Ring.Segment.{IsRing, Segment, Segment-split}

walk-Segment :
    (l : Links) (head a : ℕ) (xs : List ℕ) (fuel : ℕ)
    → Segment l a xs head
    → NotIn head xs
    → length xs < fuel
    → walk fuel head (l.next a) l ≡ xs
unfolding walk
walk-Segment l head a xs zero s n h = absurd (omega arith)
walk-Segment l head a [] (suc fuel) s n h = ground arith
walk-Segment l head a (x ∷ xs) (suc fuel) s n h =
    rw s.0 (ground (arith, n.0, walk-Segment l head x xs fuel s.2 n.1 (omega arith)))

-- Iteration from the head visits the nodes in order and ends, with fuel for one round more.
pub walk-IsRing :
    (l : Links) (head : ℕ) (xs : List ℕ)
    → IsRing l head xs
    → walk (suc (length xs)) head (l.next head) l ≡ xs
walk-IsRing l head xs r = walk-Segment l head head xs _ r.linked r.distinct.0 (omega arith)

rounds-none : (fuel head start : ℕ) (l : Links) → circular_rounds fuel head start none l ≡ []
unfolding circular_rounds
rounds-none zero head start l = refl
rounds-none (suc fuel) head start l = refl

module _ (l : Links) (head start : ℕ) (apart : start ≢ head) where
  -- The round ends at the node from which it began.
  rounds-back :
      (c : ℕ) (xs : List ℕ) (fuel : ℕ)
      → Segment l c xs start
      → NotIn head xs
      → NotIn start xs
      → length xs < fuel
      → circular_rounds fuel head start (some c) l ≡ c ∷ xs
  unfolding circular_rounds circular_next
  rounds-back c xs zero s n m h = absurd (omega arith)
  rounds-back c [] (suc fuel) s n m h = ground (arith, rounds-none fuel head start l)
  rounds-back c (x ∷ xs) (suc fuel) s n m h =
      ground (arith, n.0, m.0, rounds-back x xs fuel s.2 n.1 m.1 (omega arith))

  rounds-forth :
      (c : ℕ) (ys xs : List ℕ) (fuel : ℕ)
      → Segment l c ys head
      → Segment l head xs start
      → NotIn head ys
      → NotIn start ys
      → NotIn head xs
      → NotIn start xs
      → length ys + length xs < fuel
      → circular_rounds fuel head start (some c) l ≡ c ∷ ys ++ xs
  unfolding circular_rounds circular_next
  rounds-forth c ys xs zero s t n m n' m' h = absurd (omega arith)
  rounds-forth c [] [] (suc fuel) s t n m n' m' h = ground (arith, rounds-none fuel head start l)
  rounds-forth c [] (x ∷ xs) (suc fuel) s t n m n' m' h =
      ground (arith, n'.0, m'.0, rounds-back x xs fuel t.2 n'.1 m'.1 (omega arith))
  rounds-forth c (y ∷ ys) xs (suc fuel) s t n m n' m' h =
      ground (arith, n.0, m.0, rounds-forth y ys xs fuel s.2 t n.1 m.1 n' m' (omega arith))

-- From a node of the list, the circle visits it, the nodes behind it, and then those before it.
pub circular_walk-IsRing :
    (l : Links) (head : ℕ) (xs : List ℕ) (start : ℕ) (ys : List ℕ)
    → IsRing l head (xs ++ start ∷ ys)
    → circular_walk (suc (length ys + length xs)) head (some start) l ≡ start ∷ ys ++ xs
unfolding circular_walk
circular_walk-IsRing l head xs start ys r =
    let (hx, hy) = NotIn-append head xs (start ∷ ys) r.distinct.0 in
    let (dx, dy, a) = Distinct-append xs (start ∷ ys) r.distinct.1 in
    let (s, t) = Segment-split l head xs start ys head r.linked in
    let apart : start ≢ head = λ e. hy.0 (sym e) in
    ground (
      arith,
      apart,
      rounds-forth l head start apart start ys xs (suc (length ys + length xs)) t s hy.1 dy.0 hx
          (Apart-comm xs (start ∷ ys) a).0 (omega arith),
    )

-- With no node to start from, it begins at the first node of the list.
pub circular_walk-none :
    (l : Links) (head x : ℕ) (xs : List ℕ) (fuel : ℕ)
    → IsRing l head (x ∷ xs)
    → circular_walk fuel head none l ≡ circular_walk fuel head (some x) l
unfolding circular_walk
circular_walk-none l head x xs fuel r = ground (arith, r.linked.0)

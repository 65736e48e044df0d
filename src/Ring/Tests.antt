-- ===== src/Ring/Tests.antt =====
-- Runs of the list operations, and the theorems at inputs that meet their hypotheses.
use zonix_plus.Base.{[], arith, refl, some, ◌∷◌, ◌≡◌}
use zonix_plus.Ring.{Links, set_next, set_prev, add_before, unlink, circular_walk}
use zonix_plus.Ring.Segment.{IsRing}
use zonix_plus.Ring.Insert.{add_before-IsRing}
use zonix_plus.Ring.Unlink.{unlink-IsRing}

-- Every node alone; the head is node 0.
abbrev alone : Links
alone = record { next = λ q. q; prev = λ q. q }

abbrev three : Links
unfolding add_before set_next set_prev
three = add_before 0 30 (add_before 0 20 (add_before 0 10 alone))

empty-IsRing : IsRing alone 0 []
empty-IsRing = record { linked = (refl, refl); distinct = (tt, tt) }

one-IsRing : IsRing (add_before 0 10 alone) 0 (10 ∷ [])
one-IsRing = add_before-IsRing alone 0 10 [] empty-IsRing (omega arith, tt)

two-IsRing : IsRing (add_before 0 20 (add_before 0 10 alone)) 0 (10 ∷ 20 ∷ [])
two-IsRing = add_before-IsRing _ 0 20 (10 ∷ []) one-IsRing (omega arith, (omega arith, tt))

inserted-IsRing : IsRing three 0 (10 ∷ 20 ∷ 30 ∷ [])
unfolding three
inserted-IsRing =
    add_before-IsRing (add_before 0 20 (add_before 0 10 alone)) 0 30 (10 ∷ 20 ∷ []) two-IsRing
      (omega arith, (omega arith, (omega arith, tt)))

unlink-IsRing_example : IsRing (unlink 20 three) 0 (10 ∷ 30 ∷ [])
unlink-IsRing_example = unlink-IsRing three 0 (10 ∷ []) 20 (30 ∷ []) inserted-IsRing

circle_runs : circular_walk 3 0 (some 20) three ≡ 20 ∷ 30 ∷ 10 ∷ []
unfolding circular_walk three
circle_runs = refl

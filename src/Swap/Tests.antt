-- ===== src/Swap/Tests.antt =====
-- Runs of the slot allocator, and its theorems at inputs that meet their hypotheses.
use zonix_plus.Base.{
  arith, err, false, full, leb, none, ok, refl, some, true, ℕ, ◌<◌, ◌↔◌, ◌≡◌, ◌≤◌, ◌⊎◌,
}
use zonix_plus.Swap.{State, DeviceType, usable, reserve_slot}
use zonix_plus.Swap.Slots.{IsSound, reserve_slot-full}

-- Slots 1 to 3, of which the first two are taken; the search goes on at slot 3.
abbrev some_taken : State
some_taken = record {
  device = some DeviceType.swap;
  slots_empty = false;
  slots = λ slot. leb slot 2;
  slot_limit = 4;
  next_slot = 3;
}

unused : State
unused = record {
  device = none;
  slots_empty = true;
  slots = λ slot. false;
  slot_limit = 0;
  next_slot = 1;
}

some_taken-IsSound : IsSound some_taken
some_taken-IsSound = record { at_slot = omega arith; in_range = omega arith; bounded = omega arith }

is_usable : usable some_taken ≡ true
unfolding usable
is_usable = refl

reserved : (reserve_slot some_taken).0 ≡ ok 3
unfolding reserve_slot
reserved = refl

reserve_slot-full_example :
    (((reserve_slot some_taken).0 ≡ err full) ↔ ((q : ℕ) → 1 ≤ q → q < 4 → leb q 2 ≡ true))
    × (((slot : ℕ) × ((reserve_slot some_taken).0 ≡ ok slot))
        ⊎ ((reserve_slot some_taken).0 ≡ err full))
reserve_slot-full_example = reserve_slot-full some_taken some_taken-IsSound is_usable

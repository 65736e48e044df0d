-- ===== src/Swap/Entries.antt =====
-- Page-table entries that name a slot, and the blocks of their transfers.
use zonix_plus.Base.{
  ==_refl, Bool, ap, arith, false, if◌then◌else◌, lt→ltb, ok, refl, some, sym, true, update, ℕ,
  ℕ_discrete, ◌%◌, ◌*◌, ◌+◌, ◌-◌, ◌/◌, ◌<◌, ◌==◌, ◌^◌, ◌∙◌, ◌≡◌, ◌≤◌,
}
use zonix_plus.Swap.{
  State, usable, has_stray_bits, allocated_slot, release_entry, make_entry, transfer_start,
  reserve_slot, max_offset_limit,
}
use zonix_plus.Swap.Slots.{IsSound, reserve_slot-IsReserved}

entry_fields :
    (slot : ℕ) (w x : Bool)
    → slot < max_offset_limit
    → (has_stray_bits (make_entry slot w x) ≡ false)
      × ((make_entry slot w x / 2 ^ 7 % 2 == 1) ≡ true)
      × (make_entry slot w x / 2 ^ 8 % 2 ^ 32 ≡ slot)
unfolding make_entry has_stray_bits
entry_fields slot true true h = (ground arith, ground arith, omega arith)
entry_fields slot true false h = (ground arith, ground arith, omega arith)
entry_fields slot false true h = (ground arith, ground arith, omega arith)
entry_fields slot false false h = (ground arith, ground arith, omega arith)

-- On a usable device, the entry written for a slot in range, with any permissions, is read back as
-- that slot while the slot is taken, and as no slot while it is free.
pub allocated_slot-make_entry :
    (s : State) (slot : ℕ) (w x : Bool)
    → IsSound s
    → usable s ≡ true
    → 1 ≤ slot
    → slot < s.slot_limit
    → allocated_slot (make_entry slot w x) s ≡ (if s.slots slot then slot else 0)
unfolding allocated_slot
allocated_slot-make_entry s slot w x i u h k =
    let bounded = i.bounded in
    let (stray, permitted, named) = entry_fields slot w x (omega arith) in
    let positive = lt→ltb 0 slot h in
    let below = lt→ltb slot s.slot_limit k in
    rw u (rw stray (rw permitted (rw named (rw positive (rw below refl)))))

release-slots :
    (entry : ℕ) (s : State) (slot q : ℕ)
    → allocated_slot entry s ≡ slot
    → 1 ≤ slot
    → (release_entry entry s).slots q ≡ update s.slots slot false q
unfolding release_entry
release-slots entry s slot q e h =
    let taken : (slot == 0) ≡ false = ground arith in rw e (rw taken refl)

cleared :
    (f g : ℕ → Bool) (slot q : ℕ)
    → f slot ≡ false
    → ((p : ℕ) → g p ≡ update f slot true p)
    → update g slot false q ≡ f q
cleared f g slot q e h = elim (ℕ_discrete slot q) [
  | yes same ↦ rw (sym same) (rw (==_refl slot) (sym e))
  | no other ↦ let apart : (slot == q) ≡ false = ground arith in rw apart (h q ∙ rw apart refl)
]

-- Releasing the entry of a slot that was just reserved leaves every slot as it was before.
pub release_entry-reserve_slot :
    (s : State) (slot : ℕ) (w x : Bool) (q : ℕ)
    → IsSound s
    → usable s ≡ true
    → (reserve_slot s).0 ≡ ok slot
    → (release_entry (make_entry slot w x) (reserve_slot s).1).slots q ≡ s.slots q
release_entry-reserve_slot s slot w x q i u e =
    let r = reserve_slot-IsReserved s slot i e in
    let s' = (reserve_slot s).1 in
    let at : s'.slots slot ≡ true = r.taken slot ∙ rw (==_refl slot) refl in
    let read : allocated_slot (make_entry slot w x) s' ≡ slot =
      allocated_slot-make_entry s' slot w x r.sound (r.same_use ∙ u) r.is_slot.0
        (rw r.same_limit r.is_slot.1)
      ∙ rw at refl in
    release-slots (make_entry slot w x) s' slot q read r.is_slot.0
    ∙ cleared s.slots s'.slots slot q r.was_free r.taken

-- While a slot is taken, the transfers for its entry start at the slot's 8 blocks, which lie below
-- those of the limit.
pub transfer_start-make_entry :
    (s : State) (slot : ℕ) (w x : Bool)
    → IsSound s
    → usable s ≡ true
    → 1 ≤ slot
    → slot < s.slot_limit
    → s.slots slot ≡ true
    → (transfer_start (make_entry slot w x) s ≡ some ((slot - 1) * 8))
      × ((slot - 1) * 8 + 8 ≤ (s.slot_limit - 1) * 8)
unfolding transfer_start
transfer_start-make_entry s slot w x i u h k t =
    let bounded = i.bounded in
    let read : allocated_slot (make_entry slot w x) s ≡ slot =
      allocated_slot-make_entry s slot w x i u h k ∙ rw t refl in
    let taken : (slot == 0) ≡ false = ground arith in
    (rw read (rw taken (ap some (omega arith))), omega arith)

-- ===== src/Swap/Slots.antt =====
-- The slots that reserve_slot hands out.
use zonix_plus.Base.{
  Bool, Bool-cases, Result, ap, arith, err, false, full, if◌then◌else◌, inl, inr, leb, min, none,
  ok, refl, some, suc, sym, true, update, zero, ℕ, ℕ_discrete, ◌*◌, ◌+◌, ◌-◌, ◌/◌, ◌<◌, ◌==◌, ◌↔◌,
  ◌∙◌, ◌≡◌, ◌≢◌, ◌≤◌, ◌⊎◌,
}
use native.Mathlib.Nat.{min-le_left, min-le_right}
use mathlib.Core.Bool.{true≢false}
use mathlib.Core.Path.{subst}
use zonix_plus.Swap.{
  State, usable, advance, fresh_state, reserve_rounds, reserve_slot, swapfs_init, max_offset_limit,
}

-- The search position is a slot, and slots fit 24 bits.
pub record IsSound (s : State) : Type 0 where
  pub at_slot : 1 ≤ s.next_slot
  pub in_range : s.next_slot < s.slot_limit
  pub bounded : s.slot_limit ≤ max_offset_limit

-- Every state of the slots from which swap is usable is sound.
fresh-IsSound : (limit : ℕ) → 1 < limit → limit ≤ max_offset_limit → IsSound (fresh_state limit)
unfolding fresh_state
fresh-IsSound limit h k = record { at_slot = omega arith; in_range = h; bounded = k }

-- When no device is in use yet, swapfs_init on a swap device with at least 8 blocks and memory for
-- the bitmap gives a usable sound state without taken slots, whose slots all lie on the device.
pub swapfs_init-IsSound :
    (block_count : ℕ) (s : State)
    → s.device ≡ none
    → 8 ≤ block_count
    → (let booted = (swapfs_init (some block_count) true s).1 in
        ((swapfs_init (some block_count) true s).0 ≡ true)
        × IsSound booted
        × (usable booted ≡ true)
        × ((slot : ℕ) → booted.slots slot ≡ false)
        × ((booted.slot_limit - 1) * 8 ≤ block_count))
unfolding swapfs_init usable fresh_state
swapfs_init-IsSound block_count s n h =
    let limit = min (block_count / 8 + 1) max_offset_limit in
    let big : leb limit 1 ≡ false = ground arith in
    let small = min-le_left (block_count / 8 + 1) max_offset_limit in
    let le = min-le_right (block_count / 8 + 1) max_offset_limit in
    rw n (rw big (refl, fresh-IsSound limit (ground arith) le, refl, (λ slot. refl), omega arith))

advance-IsSound : (s : State) → IsSound s → IsSound (advance s)
unfolding advance
advance-IsSound s i = record {
  at_slot = ground (arith, i.at_slot);
  in_range = ground (arith, i.at_slot, i.in_range, i.bounded);
  bounded = i.bounded;
}

advance-next :
    (s : State)
    → IsSound s
    → (advance s).next_slot ≡ (if s.next_slot + 1 == s.slot_limit then 1 else s.next_slot + 1)
unfolding advance
advance-next s i = ground (arith, i.in_range, i.bounded)

advance-keeps :
    (s : State)
    → ((advance s).slots ≡ s.slots)
      × ((advance s).slot_limit ≡ s.slot_limit)
      × (usable (advance s) ≡ usable s)
unfolding advance usable
advance-keeps s = (refl, refl, refl)

-- What a slot that was handed out means for the state.
pub record IsReserved (s s' : State) (slot : ℕ) : Type 0 where
  pub sound : IsSound s'
  pub is_slot : (1 ≤ slot) × (slot < s.slot_limit)
  pub was_free : s.slots slot ≡ false
  pub taken : (q : ℕ) → s'.slots q ≡ update s.slots slot true q
  pub same_limit : s'.slot_limit ≡ s.slot_limit
  pub same_use : usable s' ≡ usable s

reserve_here :
    (s : State)
    → IsSound s
    → s.slots s.next_slot ≡ false
    → IsReserved s (record (advance s) { slots = update s.slots s.next_slot true }) s.next_slot
unfolding usable advance
reserve_here s i h = record {
  sound = record {
    at_slot = (advance-IsSound s i).at_slot;
    in_range = (advance-IsSound s i).in_range;
    bounded = i.bounded;
  };
  is_slot = (i.at_slot, i.in_range);
  was_free = h;
  taken = λ q. refl;
  same_limit = refl;
  same_use = refl;
}

reserve_rounds-cases :
    (n : ℕ) (s : State)
    → (reserve_rounds (suc n) s ≡ (
        if s.slots s.next_slot
        then reserve_rounds n (advance s)
        else (ok s.next_slot, record (advance s) { slots = update s.slots s.next_slot true })))
unfolding reserve_rounds
reserve_rounds-cases n s = refl

reserve_rounds-zero : (s : State) → reserve_rounds 0 s ≡ (err full, s)
unfolding reserve_rounds
reserve_rounds-zero s = refl

taken-next :
    (n : ℕ) (s : State)
    → s.slots s.next_slot ≡ true
    → reserve_rounds (suc n) s ≡ reserve_rounds n (advance s)
taken-next n s t = reserve_rounds-cases n s ∙ rw t refl

free-next :
    (n : ℕ) (s : State)
    → s.slots s.next_slot ≡ false
    → reserve_rounds (suc n) s
      ≡ (ok s.next_slot, record (advance s) { slots = update s.slots s.next_slot true })
free-next n s f = reserve_rounds-cases n s ∙ rw f refl

IsReserved-advance :
    (s s' : State) (slot : ℕ) → IsReserved (advance s) s' slot → IsReserved s s' slot
unfolding advance usable
IsReserved-advance s s' slot r = record {
  sound = r.sound;
  is_slot = r.is_slot;
  was_free = r.was_free;
  taken = r.taken;
  same_limit = r.same_limit;
  same_use = r.same_use;
}

reserve_rounds-ok :
    (n : ℕ) (s : State) (slot : ℕ)
    → IsSound s
    → (reserve_rounds n s).0 ≡ ok slot
    → IsReserved s (reserve_rounds n s).1 slot
reserve_rounds-ok zero s slot i e =
    let failed = ap (λ (x : Result ℕ × State). x.0) (reserve_rounds-zero s) in cc
reserve_rounds-ok (suc n) s slot i e = elim (Bool-cases (s.slots s.next_slot)) [
  | inl t ↦
      let step = taken-next n s t in
      let later = ap (λ (x : Result ℕ × State). x.0) (sym step) ∙ e in
      rw step (
        IsReserved-advance s _ slot
          (reserve_rounds-ok n (advance s) slot (advance-IsSound s i) later))
  | inr f ↦
      let step = free-next n s f in
      let found : s.next_slot ≡ slot =
        let same = ap (λ (x : Result ℕ × State). x.0) (sym step) ∙ e in cc in
      rw step (
        subst
          (λ (x : ℕ).
            IsReserved s (record (advance s) { slots = update s.slots s.next_slot true }) x)
          found (reserve_here s i f))
]

-- How many rounds the search takes to reach the slot `q`.
abbrev rounds_to : State → ℕ → ℕ
rounds_to s q = if leb s.next_slot q then q - s.next_slot else q + (s.slot_limit - 1) - s.next_slot

rounds_to-advance :
    (s : State) (q : ℕ)
    → IsSound s
    → 1 ≤ q
    → q < s.slot_limit
    → q ≢ s.next_slot
    → rounds_to (advance s) q + 1 ≡ rounds_to s q
rounds_to-advance s q i h k n =
    let keeps = advance-keeps s in
    let moves = advance-next s i in rw (moves, keeps.1) (ground (arith, i.at_slot, i.in_range))

reserve_rounds-full :
    (n : ℕ) (s : State) (q : ℕ)
    → IsSound s
    → (reserve_rounds n s).0 ≡ err full
    → 1 ≤ q
    → q < s.slot_limit
    → rounds_to s q < n
    → s.slots q ≡ true
reserve_rounds-full zero s q i e h k d = absurd (omega arith)
reserve_rounds-full (suc n) s q i e h k d = elim (Bool-cases (s.slots s.next_slot)) [
  | inl t ↦
      let step = taken-next n s t in
      let later = ap (λ (x : Result ℕ × State). x.0) (sym step) ∙ e in
      elim (ℕ_discrete q s.next_slot) [
        | yes same ↦ rw same t
        | no other ↦
            let nearer = rounds_to-advance s q i h k other in
            let keeps = advance-keeps s in
            sym (ap (λ (f : ℕ → Bool). f q) keeps.0)
            ∙ reserve_rounds-full n (advance s) q (advance-IsSound s i) later h (rw keeps.1 k)
                (omega arith)
      ]
  | inr f ↦ let step = ap (λ (x : Result ℕ × State). x.0) (free-next n s f) in cc
]

reserve_rounds-err :
    (n : ℕ) (s : State)
    → ((slot : ℕ) × ((reserve_rounds n s).0 ≡ ok slot)) ⊎ ((reserve_rounds n s).0 ≡ err full)
reserve_rounds-err zero s = inr (ap (λ (x : Result ℕ × State). x.0) (reserve_rounds-zero s))
reserve_rounds-err (suc n) s = elim (Bool-cases (s.slots s.next_slot)) [
  | inl t ↦ rw (taken-next n s t) (reserve_rounds-err n (advance s))
  | inr f ↦ rw (free-next n s f) (inl (s.next_slot, refl))
]

-- From a sound state, a slot that reserve_slot returns lies between 1 and the limit and was free; the
-- call marks it and no other, and leaves a sound state.
pub reserve_slot-IsReserved :
    (s : State) (slot : ℕ)
    → IsSound s
    → (reserve_slot s).0 ≡ ok slot
    → IsReserved s (reserve_slot s).1 slot
unfolding reserve_slot
reserve_slot-IsReserved s slot i e = elim (Bool-cases (usable s)) [
  | inl u ↦ rw u (reserve_rounds-ok (s.slot_limit - 1) s slot i (ground arith))
  | inr n ↦ ground (arith, n, e)
]

-- On a usable device in a sound state, one round of the search misses no slot: reserve_slot reports that the device
-- is full exactly when every slot is taken, and otherwise returns one.
pub reserve_slot-full :
    (s : State)
    → IsSound s
    → usable s ≡ true
    → (((reserve_slot s).0 ≡ err full) ↔ ((q : ℕ) → 1 ≤ q → q < s.slot_limit → s.slots q ≡ true))
      × (((slot : ℕ) × ((reserve_slot s).0 ≡ ok slot)) ⊎ ((reserve_slot s).0 ≡ err full))
unfolding reserve_slot
reserve_slot-full s i u =
    let searched = reserve_rounds-err (s.slot_limit - 1) s in
    rw u (
      (
        (λ e q h k.
            reserve_rounds-full (s.slot_limit - 1) s q i e h k
              (ground (arith, i.at_slot, i.in_range))),
        (λ all. elim searched [
          | inl (slot, e) ↦
              let r = reserve_rounds-ok (s.slot_limit - 1) s slot i e in
              absurd (true≢false (sym (all slot r.is_slot.0 r.is_slot.1) ∙ r.was_free))
          | inr e ↦ e
        ]),
      ),
      searched,
    )

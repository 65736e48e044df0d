-- ===== src/Swap.antt =====
-- kernel/mm/swap.cpp and swap.h: the slots of the swap device. The bitmap `slots_` is a function
-- from the slot to its bit. Calls run with interrupts off and are one step each.
pub mod Slots
pub mod Entries
pub mod Tests
use zonix_plus.Base.{
  Bool, Option, Result, err, false, full, if◌then◌else◌, leb, ltb, min, no_device, none, not, ok,
  some, suc, true, update, zero, ℕ, ◌%◌, ◌&&◌, ◌*◌, ◌+◌, ◌-◌, ◌/◌, ◌==◌, ◌^◌, ◌||◌,
}

abbrev pub max_offset_limit : ℕ
max_offset_limit = 2 ^ 24

abbrev pub blocks_per_page : ℕ
blocks_per_page = 4096 / 512

abbrev pub u32 : ℕ
u32 = 2 ^ 32

pub data DeviceType : Type 0 where
  no_type disk swap : DeviceType

abbrev pub is_swap : DeviceType → Bool
is_swap DeviceType.swap = true
is_swap t = false

-- class State; `device_` is null until swapfs_init found a device.
pub record State : Type 0 where
  pub device : Option DeviceType
  pub slots_empty : Bool
  pub slots : ℕ → Bool
  pub slot_limit : ℕ
  pub next_slot : ℕ

-- device_ && device_->type == Swap && !slots_.empty()
unfoldable pub usable : State → Bool
usable s = elim s.device [ none ↦ false | some t ↦ is_swap t && not s.slots_empty ]

-- The end of swapfs_init: a cleared bitmap of the dedicated device.
unfoldable pub fresh_state : ℕ → State
fresh_state slot_limit = record {
  device = some DeviceType.swap;
  slots_empty = false;
  slots = λ slot. false;
  slot_limit = slot_limit;
  next_slot = 1;
}

-- swapfs_init: `found` is the block count of the swap device, if BlockManager has one, and
-- `allocated` whether there was memory for the bitmap. The result says whether swap is in use (0).
unfoldable pub swapfs_init : Option ℕ → Bool → State → Bool × State
unfolding fresh_state
swapfs_init found allocated s = elim s.device [
  | some t ↦ (true, s)
  | none ↦ elim found [
    | none ↦ (false, s)
    | some block_count ↦
        let slot_limit = min (block_count / blocks_per_page + 1) max_offset_limit in
        if leb slot_limit 1 || not allocated then (false, s) else (true, fresh_state slot_limit)
  ]
]

-- if (++next_slot_ == slot_limit_) next_slot_ = 1;
unfoldable pub advance : State → State
advance s =
    let next = (s.next_slot + 1) % u32 in
    record s { next_slot = if next == s.slot_limit then 1 else next }

-- The loop of reserve_slot, with the rounds that are left.
unfoldable pub reserve_rounds : ℕ → State → Result ℕ × State
unfolding advance
reserve_rounds zero s = (err full, s)
reserve_rounds (suc n) s =
    let rest = reserve_rounds n (advance s) in
    if s.slots s.next_slot
    then rest
    else (ok s.next_slot, record (advance s) { slots = update s.slots s.next_slot true })

unfoldable pub reserve_slot : State → Result ℕ × State
unfolding usable reserve_rounds
reserve_slot s = if usable s then reserve_rounds (s.slot_limit - 1) s else (err no_device, s)

abbrev pub bit : ℕ → ℕ → Bool
bit entry k = entry / 2 ^ k % 2 == 1

-- (entry & ~(ENTRY_SLOT_MASK | ENTRY_FLAGS)) != 0: a bit above the slot's 24, or one of the low
-- byte that is no flag (the flags are bits 1, 2 and 7)
unfoldable pub has_stray_bits : ℕ → Bool
has_stray_bits entry =
    ltb 0 (entry / 2 ^ 32)
    || bit entry 0
    || bit entry 3
    || bit entry 4
    || bit entry 5
    || bit entry 6

-- State::allocated_slot, where 0 stands for no slot; ENTRY_HAS_PERMISSIONS is bit 7.
unfoldable pub allocated_slot : ℕ → State → ℕ
unfolding usable has_stray_bits
allocated_slot entry s =
    let slot = entry / 2 ^ 8 % u32 in
    if not (usable s) || has_stray_bits entry || not (bit entry 7)
    then 0
    else if ltb 0 slot && ltb slot s.slot_limit && s.slots slot
    then slot
    else 0

unfoldable pub release_entry : ℕ → State → State
unfolding allocated_slot
release_entry entry s =
    let slot = allocated_slot entry s in
    if slot == 0 then s else record s { slots = update s.slots slot false }

-- The entry that swap::out writes for a page in `slot`.
unfoldable pub make_entry : ℕ → Bool → Bool → ℕ
make_entry slot writable executable =
    slot * 2 ^ 8 + 0x80 + (if writable then 0x02 else 0) + (if executable then 0x04 else 0)

-- The first block of the transfer that swapfs_read and swapfs_write make for an entry; none is the
-- error for an entry without a slot.
unfoldable pub transfer_start : ℕ → State → Option ℕ
unfolding allocated_slot
transfer_start entry s =
    let slot = allocated_slot entry s in
    if slot == 0 then none else some ((slot - 1) * blocks_per_page % u32)

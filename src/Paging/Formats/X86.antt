-- ===== src/Paging/Formats/X86.antt =====
-- arch/x86/include/asm/page.h has what the walk relies on.
use zonix_plus.Base.{
  Bool, arith, false, inl, inr, refl, suc, true, ℕ, ◌%◌, ◌*◌, ◌+◌, ◌/◌, ◌<◌, ◌^◌, ◌≡◌,
}
use zonix_plus.Paging.{block_base, split_entries}
use zonix_plus.Paging.Formats.{IsFormat}
use zonix_plus.Paging.Riscv.{has_bit}
use zonix_plus.Paging.Shifts.{level_cases, level_shift, level_shift-next, level_shift-rest}
use zonix_plus.Paging.X86.{
  entry_flags, make_pte_page, make_pte_table, pte_addr, pte_is_block, pte_user_accessible,
  split_page_entry, x86,
}

-- The parts of an entry that a split leaves: its lowest seven bits and its highest twelve.
split-low : (e a s : ℕ) → a % 2 ^ 12 ≡ 0 → split_page_entry e a s % 2 ^ 7 ≡ e % 2 ^ 7
unfolding split_page_entry entry_flags
split-low e a s h = ground (arith, h)

split-block : (e a s : ℕ) → a % 2 ^ 12 ≡ 0 → 12 < s → has_bit 7 (split_page_entry e a s) ≡ true
unfolding split_page_entry entry_flags
split-block e a s h big = ground (arith, h, big)

split-addr-large :
    (e a s : ℕ)
    → a < 2 ^ 52
    → a % 2 ^ 13 ≡ 0
    → 12 < s
    → pte_addr (split_page_entry e a s) / 2 ^ 13 * 2 ^ 13 ≡ a
unfolding split_page_entry entry_flags pte_addr
split-addr-large e a s low h big = ground (arith, low, h, big)

split-addr-page : (e a : ℕ) → a < 2 ^ 52 → a % 2 ^ 12 ≡ 0 → pte_addr (split_page_entry e a 12) ≡ a
unfolding split_page_entry entry_flags pte_addr
split-addr-page e a low h = ground (arith, low, h)

pte_addr-lt : (e : ℕ) → pte_addr e < 2 ^ 52
unfolding pte_addr
pte_addr-lt e = omega arith

-- The address of the part `i` of a block.
abbrev part : ℕ → ℕ → ℕ → ℕ
part level e i = block_base x86 level e + i * 2 ^ level_shift (suc level)

part-fits :
    (level e i : ℕ)
    → suc level < 4
    → i < 512
    → (part level e i < 2 ^ 52) × (part level e i % 2 ^ 12 ≡ 0)
unfolding level_shift
part-fits level e i h k = elim (level_cases level h) [
  | inl at ↦ rw at (omega (arith, pte_addr-lt e, k), omega arith)
  | inr (inl at) ↦ rw at (omega (arith, pte_addr-lt e, k), omega arith)
  | inr (inr at) ↦ rw at (omega (arith, pte_addr-lt e, k), omega arith)
]

split_entries-base :
    (level e i : ℕ)
    → suc level < 4
    → i < 512
    → block_base x86 (suc level) (split_entries x86 level e i)
      ≡ block_base x86 level e + i * 2 ^ x86.shift (suc level)
unfolding level_shift
split_entries-base level e i h k = elim (level_cases level h) [
  | inl at ↦
      let a = part 0 e i in
      rw at (
        omega (
          arith,
          split-addr-large e a 30 (part-fits 0 e i (omega arith) k).0 (omega arith) (omega arith),
        ))
  | inr (inl at) ↦
      let a = part 1 e i in
      rw at (
        omega (
          arith,
          split-addr-large e a 21 (part-fits 1 e i (omega arith) k).0 (omega arith) (omega arith),
        ))
  | inr (inr at) ↦
      let a = part 2 e i in
      let fits = part-fits 2 e i (omega arith) k in
      rw at (omega (arith, split-addr-page e a fits.0 fits.1))
]

split_entries-block :
    (level e i : ℕ)
    → suc (suc level) < 4
    → i < 512
    → pte_is_block (split_entries x86 level e i) ≡ true
unfolding level_shift pte_is_block
split_entries-block level e i h k = elim (level_cases level (omega (arith, h))) [
  | inl at ↦ rw at (split-block e (part 0 e i) 30 (part-fits 0 e i (omega arith) k).1 (omega arith))
  | inr (inl at) ↦
      rw at (split-block e (part 1 e i) 21 (part-fits 1 e i (omega arith) k).1 (omega arith))
  | inr (inr at) ↦ absurd (omega (arith, h, at))
]

split_entries-low :
    (level e i : ℕ) → suc level < 4 → i < 512 → split_entries x86 level e i % 2 ^ 7 ≡ e % 2 ^ 7
split_entries-low level e i h k =
    split-low e (part level e i) (level_shift (suc level)) (part-fits level e i h k).1

-- The lowest bits of an entry decide who may use it.
low-present : (e e' : ℕ) → e' % 2 ^ 7 ≡ e % 2 ^ 7 → has_bit 0 e ≡ true → has_bit 0 e' ≡ true
low-present e e' same h = ground (arith, same, h)

low-accessible :
    (e e' : ℕ) (write : Bool)
    → e' % 2 ^ 7 ≡ e % 2 ^ 7
    → pte_user_accessible e' write ≡ pte_user_accessible e write
unfolding pte_user_accessible
low-accessible e e' write same = ground (arith, same)

make_pte_table-addr : (p : ℕ) → p < 2 ^ 40 → pte_addr (make_pte_table (p * 4096)) ≡ p * 4096
unfolding pte_addr make_pte_table
make_pte_table-addr p h = omega (arith, h)

make_pte_table-low : (p : ℕ) → make_pte_table (p * 4096) % 2 ^ 8 ≡ 7
unfolding make_pte_table
make_pte_table-low p = omega arith

make_pte_page-addr : (p perm : ℕ) → p < 2 ^ 40 → pte_addr (make_pte_page (p * 4096) perm) ≡ p * 4096
unfolding pte_addr make_pte_page
make_pte_page-addr p perm h = ground (arith, h)

make_pte_page-low : (p perm : ℕ) → has_bit 0 (make_pte_page (p * 4096) perm) ≡ true
unfolding make_pte_page
make_pte_page-low p perm = ground arith

low-table : (e : ℕ) (write : Bool) → e % 2 ^ 8 ≡ 7 → pte_user_accessible e write ≡ true
unfolding pte_user_accessible
low-table e write h = ground (arith, h)

low-leads : (e : ℕ) → e % 2 ^ 8 ≡ 7 → (has_bit 0 e ≡ true) × (pte_is_block e ≡ false)
unfolding pte_is_block
low-leads e h = (ground (arith, h), ground (arith, h))

-- The entries of x86-64 are a format as the walk relies on, for physical addresses of 52 bits.
x86-IsFormat : IsFormat x86 (2 ^ 40)
unfolding level_shift
x86-IsFormat = record {
  depth = omega arith;
  shift_top = λ va h. omega (arith, h);
  shift_next = level_shift-next;
  shift_rest = level_shift-rest;
  shift_last = refl;
  zero_absent = refl;
  table_present = λ p h. (low-leads _ (make_pte_table-low p)).0;
  table_is_block = λ p h. (low-leads _ (make_pte_table-low p)).1;
  table_addr = make_pte_table-addr;
  table_open = λ p write h. low-table _ write (make_pte_table-low p);
  page_present = λ p perm h. make_pte_page-low p perm;
  page_addr = make_pte_page-addr;
  split_present = λ level e i h k there. low-present e _ (split_entries-low level e i h k) there;
  split_is_block = λ level e i h k block. split_entries-block level e i h k;
  split_accessible =
      λ level e i write h k there block. low-accessible e _ write (split_entries-low level e i h k);
  split_base = split_entries-base;
}

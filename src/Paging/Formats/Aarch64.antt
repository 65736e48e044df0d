-- ===== src/Paging/Formats/Aarch64.antt =====
-- arch/aarch64/include/asm/page.h has what the walk relies on.
use zonix_plus.Base.{
  Bool, arith, false, inl, inr, refl, suc, true, ℕ, ◌%◌, ◌*◌, ◌+◌, ◌/◌, ◌<◌, ◌^◌, ◌≡◌,
}
use zonix_plus.Paging.{block_base, split_entries}
use zonix_plus.Paging.Aarch64.{
  aarch64, entry_flags, make_pte_page, make_pte_table, pte_addr, pte_is_block, pte_user_accessible,
  pte_user_table_accessible, split_page_entry,
}
use zonix_plus.Paging.Formats.{IsFormat}
use zonix_plus.Paging.Riscv.{has_bit}
use zonix_plus.Paging.Shifts.{level_cases, level_shift, level_shift-next, level_shift-rest}

-- What a split leaves of an entry below bit 12, but for its type.
split-low : (e a s : ℕ) → a % 2 ^ 12 ≡ 0 → split_page_entry e a s % 2 ^ 12 / 4 ≡ e % 2 ^ 12 / 4
unfolding split_page_entry entry_flags
split-low e a s h = ground (arith, h)

split-present : (e a s : ℕ) → a % 2 ^ 12 ≡ 0 → has_bit 0 (split_page_entry e a s) ≡ true
unfolding split_page_entry entry_flags
split-present e a s h = ground (arith, h)

split-block : (e a s : ℕ) → a % 2 ^ 12 ≡ 0 → 12 < s → pte_is_block (split_page_entry e a s) ≡ true
unfolding split_page_entry entry_flags pte_is_block
split-block e a s h big = ground (arith, h, big)

split-addr : (e a s : ℕ) → a < 2 ^ 48 → a % 2 ^ 12 ≡ 0 → pte_addr (split_page_entry e a s) ≡ a
unfolding split_page_entry entry_flags pte_addr
split-addr e a s low h = ground (arith, low, h)

pte_addr-lt : (e : ℕ) → pte_addr e < 2 ^ 48
unfolding pte_addr
pte_addr-lt e = omega arith

-- The address of the part `i` of a block.
abbrev part : ℕ → ℕ → ℕ → ℕ
part level e i = block_base aarch64 level e + i * 2 ^ level_shift (suc level)

part-fits :
    (level e i : ℕ)
    → suc level < 4
    → i < 512
    → (part level e i < 2 ^ 48)
      × (part level e i % 2 ^ 12 ≡ 0)
      × (part level e i / 2 ^ level_shift (suc level) * 2 ^ level_shift (suc level)
          ≡ part level e i)
unfolding level_shift
part-fits level e i h k = elim (level_cases level h) [
  | inl at ↦ rw at (omega (arith, pte_addr-lt e, k), omega arith, omega arith)
  | inr (inl at) ↦ rw at (omega (arith, pte_addr-lt e, k), omega arith, omega arith)
  | inr (inr at) ↦ rw at (omega (arith, pte_addr-lt e, k), omega arith, omega arith)
]

module _ (level e i : ℕ) (h : suc level < 4) (k : i < 512) where
  split_entries-base :
      block_base aarch64 (suc level) (split_entries aarch64 level e i)
      ≡ block_base aarch64 level e + i * 2 ^ aarch64.shift (suc level)
  split_entries-base =
      let (low, aligned, whole) = part-fits level e i h k in
      rw (split-addr e (part level e i) (level_shift (suc level)) low aligned) whole

  split_entries-block : suc (suc level) < 4 → pte_is_block (split_entries aarch64 level e i) ≡ true
  unfolding level_shift
  split_entries-block deep =
      split-block e (part level e i) (level_shift (suc level)) (part-fits level e i h k).1
        (elim (level_cases level h) [
          | inl at ↦ rw at (omega arith)
          | inr (inl at) ↦ rw at (omega arith)
          | inr (inr at) ↦ absurd (omega (arith, deep, at))
        ])

  split_entries-low : split_entries aarch64 level e i % 2 ^ 12 / 4 ≡ e % 2 ^ 12 / 4
  split_entries-low =
      split-low e (part level e i) (level_shift (suc level)) (part-fits level e i h k).1

  split_entries-present : has_bit 0 (split_entries aarch64 level e i) ≡ true
  split_entries-present =
      split-present e (part level e i) (level_shift (suc level)) (part-fits level e i h k).1

-- The bits below bit 12 decide who may use a page.
low-accessible :
    (e e' : ℕ) (write : Bool)
    → has_bit 0 e ≡ true
    → has_bit 0 e' ≡ true
    → e' % 2 ^ 12 / 4 ≡ e % 2 ^ 12 / 4
    → pte_user_accessible e' write ≡ pte_user_accessible e write
unfolding pte_user_accessible
low-accessible e e' write there there' same =
    let user : has_bit 6 e' ≡ has_bit 6 e = ground (arith, same) in
    let reads : has_bit 7 e' ≡ has_bit 7 e = ground (arith, same) in
    rw (there, there', user, reads) refl

make_pte_table-addr : (p : ℕ) → p < 2 ^ 36 → pte_addr (make_pte_table (p * 4096)) ≡ p * 4096
unfolding pte_addr make_pte_table
make_pte_table-addr p h = omega (arith, h)

make_pte_table-leads :
    (p : ℕ)
    → (has_bit 0 (make_pte_table (p * 4096)) ≡ true)
      × (pte_is_block (make_pte_table (p * 4096)) ≡ false)
unfolding make_pte_table pte_is_block
make_pte_table-leads p = (ground arith, ground arith)

make_pte_table-open :
    (p : ℕ) (write : Bool)
    → p < 2 ^ 36
    → pte_user_table_accessible (make_pte_table (p * 4096)) write ≡ true
unfolding make_pte_table pte_user_table_accessible
make_pte_table-open p write h = ground (arith, h)

make_pte_page-addr : (p perm : ℕ) → p < 2 ^ 36 → pte_addr (make_pte_page (p * 4096) perm) ≡ p * 4096
unfolding pte_addr make_pte_page
make_pte_page-addr p perm h = ground (arith, h)

make_pte_page-low : (p perm : ℕ) → has_bit 0 (make_pte_page (p * 4096) perm) ≡ true
unfolding make_pte_page
make_pte_page-low p perm = ground arith

-- The descriptors of aarch64 are a format as the walk relies on, for physical addresses of 48 bits.
aarch64-IsFormat : IsFormat aarch64 (2 ^ 36)
unfolding level_shift
aarch64-IsFormat = record {
  depth = omega arith;
  shift_top = λ va h. omega (arith, h);
  shift_next = level_shift-next;
  shift_rest = level_shift-rest;
  shift_last = refl;
  zero_absent = refl;
  table_present = λ p h. (make_pte_table-leads p).0;
  table_is_block = λ p h. (make_pte_table-leads p).1;
  table_addr = make_pte_table-addr;
  table_open = make_pte_table-open;
  page_present = λ p perm h. make_pte_page-low p perm;
  page_addr = make_pte_page-addr;
  split_present = λ level e i h k there. split_entries-present level e i h k;
  split_is_block = λ level e i h k block. split_entries-block level e i (omega (arith, h)) k h;
  split_accessible = λ level e i write h k there block.
      low-accessible e _ write there (split_entries-present level e i h k)
        (split_entries-low level e i h k);
  split_base = λ level e i h k. split_entries-base level e i h k;
}

-- ===== src/Paging/X86.antt =====
-- arch/x86/include/asm/page.h: the entries of x86-64, of four levels. A page's flags stand below bit
-- 12 and from bit 52 on, its address between them; fields that `|` joins lie in different bits, so
-- they are added.
use zonix_plus.Base.{Bool, if◌then◌else◌, ltb, not, ℕ, ◌%◌, ◌&&◌, ◌*◌, ◌+◌, ◌/◌, ◌^◌, ◌||◌}
use zonix_plus.Paging.{Format}
use zonix_plus.Paging.Riscv.{flag, has_bit}
use zonix_plus.Paging.Shifts.{level_shift}

-- pte & PTE_ADDR_MASK
unfoldable pub pte_addr : ℕ → ℕ
pte_addr pte = pte % 2 ^ 52 / 2 ^ 12 * 2 ^ 12

unfoldable pub pte_is_block : ℕ → Bool
pte_is_block entry = has_bit 7 entry

unfoldable pub make_pte_table : ℕ → ℕ
make_pte_table pa = pa + (1 + 2 + 4)

unfoldable pub make_pte_page : ℕ → ℕ → ℕ
make_pte_page pa perm =
    pa
    + 1
    + flag (has_bit 1 perm) 1
    + flag (has_bit 2 perm) 2
    + (flag (has_bit 3 perm) 4 + flag (has_bit 3 perm) 3)
    + flag (has_bit 4 perm) 63

-- entry & ~(PTE_ADDR_MASK | PTE_PS)
unfoldable pub entry_flags : ℕ → ℕ
entry_flags entry = entry / 2 ^ 52 * 2 ^ 52 + entry % 2 ^ 12 / 2 ^ 8 * 2 ^ 8 + entry % 2 ^ 7

-- The bit PTE_PAT_LARGE of a block is bit 7 of a page's entry, where a block has PTE_PS.
unfoldable pub split_page_entry : ℕ → ℕ → ℕ → ℕ
unfolding entry_flags
split_page_entry entry pa child_shift =
    let pat = has_bit 12 entry in
    pa + entry_flags entry + (if ltb 12 child_shift then 2 ^ 7 + flag pat 12 else flag pat 7)

unfoldable pub pte_user_accessible : ℕ → Bool → Bool
pte_user_accessible entry write =
    has_bit 0 entry && has_bit 2 entry && (not write || has_bit 1 entry)

abbrev pub x86 : Format
x86 = record {
  levels = 4;
  shift = level_shift;
  user_top = 0x800000000000;
  present = has_bit 0;
  is_block = pte_is_block;
  addr = pte_addr;
  make_table = make_pte_table;
  make_page = make_pte_page;
  split_entry = split_page_entry;
  user_accessible = pte_user_accessible;
  table_accessible = pte_user_accessible;
}

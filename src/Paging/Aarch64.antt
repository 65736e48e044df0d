-- ===== src/Paging/Aarch64.antt =====
-- arch/aarch64/include/asm/page.h: the descriptors of aarch64, of four levels. Attributes stand below
-- bit 12 and from bit 48 on, the address between them; fields that `|` joins lie in different bits, so
-- they are added, but for PTE_PXN, which two flags of a request set.
use zonix_plus.Base.{Bool, if◌then◌else◌, not, ℕ, ◌%◌, ◌&&◌, ◌*◌, ◌+◌, ◌/◌, ◌==◌, ◌^◌, ◌||◌}
use zonix_plus.Paging.{Format}
use zonix_plus.Paging.Riscv.{flag, has_bit}
use zonix_plus.Paging.Shifts.{level_shift}

-- pte & PTE_ADDR_MASK
unfoldable pub pte_addr : ℕ → ℕ
pte_addr pte = pte % 2 ^ 48 / 2 ^ 12 * 2 ^ 12

-- (entry & PTE_TYPE_MASK) == PTE_VALID
unfoldable pub pte_is_block : ℕ → Bool
pte_is_block entry = entry % 4 == 1

unfoldable pub make_pte_table : ℕ → ℕ
make_pte_table pa = pa + (1 + 2)

unfoldable pub make_pte_page : ℕ → ℕ → ℕ
make_pte_page pa perm =
    pa
    + (1 + 2 + 2 ^ 10)
    + flag (not (has_bit 1 perm)) 7
    + flag (has_bit 2 perm) 6
    + flag (has_bit 2 perm || has_bit 4 perm) 53
    + flag (has_bit 4 perm) 54
    + flag (has_bit 3 perm) 2

-- entry & ~(PTE_ADDR_MASK | PTE_TYPE_MASK)
unfoldable pub entry_flags : ℕ → ℕ
entry_flags entry = entry / 2 ^ 48 * 2 ^ 48 + entry % 2 ^ 12 / 4 * 4

unfoldable pub split_page_entry : ℕ → ℕ → ℕ → ℕ
unfolding entry_flags
split_page_entry entry pa child_shift =
    pa + entry_flags entry + 1 + (if child_shift == 12 then 2 else 0)

unfoldable pub pte_user_accessible : ℕ → Bool → Bool
pte_user_accessible entry write =
    has_bit 0 entry && has_bit 6 entry && (not write || not (has_bit 7 entry))

unfoldable pub pte_user_table_accessible : ℕ → Bool → Bool
pte_user_table_accessible entry write =
    not (has_bit 61 entry) && (not write || not (has_bit 62 entry))

abbrev pub aarch64 : Format
aarch64 = record {
  levels = 4;
  shift = level_shift;
  user_top = 0x800000000000;
  present = has_bit 0;
  is_block = pte_is_block;
  addr = pte_addr;
  make_table = make_pte_table;
  make_page = make_pte_page;
  split_entry = split_page_entry;
  user_accessible = pte_user_accessible;
  table_accessible = pte_user_table_accessible;
}

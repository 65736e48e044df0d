-- ===== src/Paging/Riscv.antt =====
-- arch/riscv64/include/asm/page.h: the Sv39 entries, of three levels. An entry has its page number
-- above ten flags: V, R, W, X, U, G, A, D and two for the system. Fields that `|` joins lie in
-- different bits, so they are added. The flags of a mapping request are those of
-- include/kernel/vm_flags.h.
use zonix_plus.Base.{Bool, if◌then◌else◌, not, true, ℕ, ◌%◌, ◌&&◌, ◌*◌, ◌+◌, ◌/◌, ◌==◌, ◌^◌, ◌||◌}
use zonix_plus.Paging.{Format}

-- (pte & 1 << k) != 0
abbrev pub has_bit : ℕ → ℕ → Bool
has_bit k e = e / 2 ^ k % 2 == 1

abbrev pub flag : Bool → ℕ → ℕ
flag b k = if b then 2 ^ k else 0

-- LEVEL_SHIFTS, of the levels that are walked.
unfoldable pub level_shift : ℕ → ℕ
level_shift level = if level == 0 then 30 else if level == 1 then 21 else 12

-- (pa >> PG_SHIFT) << PTE_PPN_SHIFT
unfoldable pub ppn : ℕ → ℕ
ppn pa = pa / 4096 * 1024

-- PTE_ADDR
unfoldable pub pte_addr : ℕ → ℕ
pte_addr pte = pte / 1024 * 4096 % 2 ^ 64

unfoldable pub pte_is_leaf : ℕ → Bool
pte_is_leaf pte = has_bit 1 pte || has_bit 2 pte || has_bit 3 pte

unfoldable pub make_pte_table : ℕ → ℕ
unfolding ppn
make_pte_table pa = ppn pa + 1

unfoldable pub make_pte_page : ℕ → ℕ → ℕ
unfolding ppn
make_pte_page pa perm =
    ppn pa
    + (1 + 2 + 64 + 128)
    + flag (has_bit 1 perm) 2
    + flag (has_bit 2 perm) 4
    + flag (not (has_bit 4 perm)) 3

unfoldable pub split_page_entry : ℕ → ℕ → ℕ → ℕ
unfolding ppn
split_page_entry entry pa child_shift = ppn pa + entry % 1024

unfoldable pub pte_user_accessible : ℕ → Bool → Bool
pte_user_accessible entry write =
    has_bit 0 entry && has_bit 4 entry && has_bit 1 entry && (not write || has_bit 2 entry)

abbrev pub sv39 : Format
sv39 = record {
  levels = 3;
  shift = level_shift;
  user_top = 0x4000000000;
  present = has_bit 0;
  is_block = pte_is_leaf;
  addr = pte_addr;
  make_table = make_pte_table;
  make_page = make_pte_page;
  split_entry = split_page_entry;
  user_accessible = pte_user_accessible;
  table_accessible = λ entry write. true;
}

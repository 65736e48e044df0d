-- ===== src/Elf/Tests.antt =====
-- A run of the check of ELF files, and its theorem at a small executable.
use zonix_plus.Base.{
  List, [], if◌then◌else◌, invalid, refl, success, true, ℕ, ◌*◌, ◌==◌, ◌↔◌, ◌∷◌, ◌≡◌,
}
use zonix_plus.Elf.{Layout, is_elf, validate}
use zonix_plus.Elf.Validate.{IsLoadable, validate-IsLoadable}

-- asm/page.h and asm/elf.h of x86
abbrev x86 : Layout
x86 = record {
  page_size = 4096;
  user_space_top = 0x0000800000000000;
  user_stack_top = 0x00007FFFFFFFE000;
  user_stack_size = 4 * 4096;
  machine = 0x3E;
}

abbrev bytes_of : List (ℕ × ℕ) → ℕ → ℕ
bytes_of [] at = 0
bytes_of ((place, byte) ∷ rest) at =
    let other = bytes_of rest at in if place == at then byte else other

-- One executable segment of 16 bytes, at 0x400000, where it is entered.
abbrev small : ℕ → ℕ
small = bytes_of (
    (0, 0x7F)
    ∷ (1, 0x45)
    ∷ (2, 0x4C)
    ∷ (3, 0x46)
    ∷ (4, 2)
    ∷ (16, 2)
    ∷ (18, 0x3E)
    ∷ (20, 1)
    ∷ (26, 0x40)
    ∷ (32, 64)
    ∷ (52, 64)
    ∷ (54, 56)
    ∷ (56, 1)
    ∷ (64, 1)
    ∷ (68, 5)
    ∷ (82, 0x40)
    ∷ (96, 16)
    ∷ (104, 32)
    ∷ [])

is_elf_runs : is_elf x86 small 160 ≡ true
unfolding is_elf zonix_plus.Elf.is_valid zonix_plus.Elf.elf_header
is_elf_runs = refl

validate_runs : validate x86 small 160 ≡ success
unfolding validate zonix_plus.Elf.check_header zonix_plus.Elf.is_valid zonix_plus.Elf.elf_header
    zonix_plus.Elf.is_executable zonix_plus.Elf.check_segments zonix_plus.Elf.check_segment
    zonix_plus.Elf.program_header
validate_runs = refl

-- The table of program headers does not fit.
validate_short : validate x86 small 100 ≡ invalid
unfolding validate zonix_plus.Elf.check_header zonix_plus.Elf.is_valid zonix_plus.Elf.elf_header
    zonix_plus.Elf.is_executable
validate_short = refl

validate-IsLoadable_example : (validate x86 small 160 ≡ success) ↔ IsLoadable x86 small 160
validate-IsLoadable_example = validate-IsLoadable x86 small 160

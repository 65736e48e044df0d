-- ===== src/Elf.antt =====
-- include/base/elf.h and validate of kernel/exec/elf_loader.cpp. A file is its bytes, a function
-- from their positions, and its size; headers are read from the bytes in little-endian order. The
-- page size, the user address space and the machine are the architecture's (asm/page.h, asm/elf.h):
-- they are a parameter.
pub mod Segments
pub mod Table
pub mod Validate
pub mod Tests
use zonix_plus.Base.{
  Bool, Error, Result, ensure, err, false, if◌then◌else◌, invalid, leb, ltb, not, ok, suc, success,
  true, zero, ℕ, ◌%◌, ◌&&◌, ◌*◌, ◌+◌, ◌-◌, ◌==◌, ◌>>◌, ◌||◌,
}

-- PG_SIZE, USER_SPACE_TOP, USER_STACK_TOP, USER_STACK_SIZE and EM_CURRENT
pub record Layout : Type 0 where
  pub page_size : ℕ
  pub user_space_top : ℕ
  pub user_stack_top : ℕ
  pub user_stack_size : ℕ
  pub machine : ℕ

abbrev pub elf_magic : ℕ
elf_magic = 0x464C457F

abbrev pub elf_pt_load : ℕ
elf_pt_load = 1

-- sizeof(ElfHeader) and sizeof(ProgramHeader)
abbrev pub elf_header_size : ℕ
elf_header_size = 64

abbrev pub program_header_size : ℕ
program_header_size = 56

-- The number in `n` bytes from `at` on.
unfoldable pub number : ℕ → (ℕ → ℕ) → ℕ → ℕ
number zero bytes at = 0
number (suc n) bytes at = bytes at + 256 * number n bytes (at + 1)

-- ElfHeader64, as far as validate and load read it.
pub record ElfHeader : Type 0 where
  pub e_magic : ℕ
  pub e_class : ℕ
  pub e_type : ℕ
  pub e_machine : ℕ
  pub e_version : ℕ
  pub e_entry : ℕ
  pub e_phoff : ℕ
  pub e_ehsize : ℕ
  pub e_phentsize : ℕ
  pub e_phnum : ℕ

-- ProgramHeader64, as far as validate and load read it.
pub record ProgramHeader : Type 0 where
  pub p_type : ℕ
  pub p_flags : ℕ
  pub p_offset : ℕ
  pub p_va : ℕ
  pub p_filesz : ℕ
  pub p_memsz : ℕ

unfoldable pub elf_header : (ℕ → ℕ) → ElfHeader
unfolding number
elf_header bytes = record {
  e_magic = number 4 bytes 0;
  e_class = bytes 4;
  e_type = number 2 bytes 16;
  e_machine = number 2 bytes 18;
  e_version = number 4 bytes 20;
  e_entry = number 8 bytes 24;
  e_phoff = number 8 bytes 32;
  e_ehsize = number 2 bytes 52;
  e_phentsize = number 2 bytes 54;
  e_phnum = number 2 bytes 56;
}

unfoldable pub program_header : (ℕ → ℕ) → ℕ → ProgramHeader
unfolding number
program_header bytes at = record {
  p_type = number 4 bytes at;
  p_flags = number 4 bytes (at + 4);
  p_offset = number 8 bytes (at + 8);
  p_va = number 8 bytes (at + 16);
  p_filesz = number 8 bytes (at + 32);
  p_memsz = number 8 bytes (at + 40);
}

-- ElfHeader64::is_valid
unfoldable pub is_valid : Layout → ElfHeader → Bool
is_valid l eh =
    eh.e_magic == elf_magic && eh.e_class == 2 && eh.e_version == 1 && eh.e_machine == l.machine

-- ElfHeader64::is_executable
unfoldable pub is_executable : Layout → ElfHeader → Bool
is_executable l eh =
    is_valid l eh && eh.e_type == 2 && not (eh.e_phoff == 0) && not (eh.e_phnum == 0)

-- is_elf
unfoldable pub is_elf : Layout → (ℕ → ℕ) → ℕ → Bool
is_elf l bytes size = if ltb size elf_header_size then false else is_valid l (elf_header bytes)

-- The body of validate's loop: whether the segment is an executable one with the entry in it.
unfoldable pub check_segment : Layout → ℕ → ℕ → ProgramHeader → Result Bool
check_segment l entry size ph =
    if not (ph.p_type == elf_pt_load)
    then ok false
    else if not (leb ph.p_filesz ph.p_memsz)
    then err invalid
    else if not (leb ph.p_offset size && leb ph.p_filesz (size - ph.p_offset))
    then err invalid
    else if ph.p_memsz == 0
    then ok false
    else if not (leb l.page_size ph.p_va && ltb ph.p_va l.user_space_top)
    then err invalid
    else if not (leb ph.p_memsz (l.user_space_top - ph.p_va))
    then err invalid
    else if not (
        leb (ph.p_va + ph.p_memsz) (l.user_stack_top - l.user_stack_size)
        || leb l.user_stack_top ph.p_va)
    then err invalid
    else ok (ph.p_flags % 2 == 1 && leb ph.p_va entry && ltb entry (ph.p_va + ph.p_memsz))

-- validate's loop, with `n` headers left from number `i` on.
unfoldable pub check_segments : Layout → (ℕ → ℕ) → ℕ → ℕ → ℕ → Bool → Result Bool
check_segments l bytes size zero i executable_entry = ok executable_entry
check_segments l bytes size (suc n) i executable_entry =
    let eh = elf_header bytes in
    let ph = program_header bytes (eh.e_phoff + i * program_header_size) in
    elim (check_segment l eh.e_entry size ph) [
      | err e ↦ err e
      | ok found ↦ check_segments l bytes size n (i + 1) (executable_entry || found)
    ]

-- The checks of the header, before validate's loop.
unfoldable pub check_header : Layout → ElfHeader → ℕ → Result (Unit {0})
check_header l eh size =
    ensure (leb elf_header_size size) invalid
    >> ensure (is_valid l eh && is_executable l eh) invalid
    >> ensure (eh.e_ehsize == elf_header_size && eh.e_phentsize == program_header_size) invalid
    >> ensure (leb elf_header_size eh.e_phoff && leb eh.e_phoff size) invalid
    >> ensure (leb (eh.e_phnum * program_header_size) (size - eh.e_phoff)) invalid
    >> ensure (leb l.page_size eh.e_entry && ltb eh.e_entry l.user_space_top) invalid

-- validate
unfoldable pub validate : Layout → (ℕ → ℕ) → ℕ → Error
validate l bytes size = elim (check_header l (elf_header bytes) size) [
  | err e ↦ e
  | ok u ↦ elim (check_segments l bytes size (elf_header bytes).e_phnum 0 false) [
    | err e ↦ e
    | ok true ↦ success
    | ok false ↦ invalid
  ]
]

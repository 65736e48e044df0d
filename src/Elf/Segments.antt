-- ===== src/Elf/Segments.antt =====
-- kernel/exec/elf_loader.cpp: what validate checks of one segment.
use zonix_plus.Base.{
  Bool, Bool-cases, arith, false, inl, inr, leb, ltb, ok, refl, true, ℕ, ◌%◌, ◌&&◌, ◌+◌, ◌-◌, ◌<◌,
  ◌==◌, ◌≡◌, ◌≢◌, ◌≤◌, ◌⊎◌,
}
use zonix_plus.Elf.{Layout, ProgramHeader, check_segment, elf_pt_load}

-- A segment to be loaded lies in the file, and its memory in the user's address space, behind the
-- first page and apart from the stack.
pub record Fits (l : Layout) (size : ℕ) (ph : ProgramHeader) : Type 0 where
  pub shorter : ph.p_filesz ≤ ph.p_memsz
  pub in_file : ph.p_offset + ph.p_filesz ≤ size
  pub above : ph.p_memsz ≢ 0 → l.page_size ≤ ph.p_va
  pub below : ph.p_memsz ≢ 0 → ph.p_va + ph.p_memsz ≤ l.user_space_top
  pub apart :
      ph.p_memsz ≢ 0
      → (ph.p_va + ph.p_memsz ≤ l.user_stack_top - l.user_stack_size) ⊎ (l.user_stack_top ≤ ph.p_va)

-- The entry is in a segment that is loaded and executable.
pub record Enters (entry : ℕ) (ph : ProgramHeader) : Type 0 where
  pub loaded : ph.p_type ≡ elf_pt_load
  pub executable : ph.p_flags % 2 ≡ 1
  pub from : ph.p_va ≤ entry
  pub to : entry < ph.p_va + ph.p_memsz

pub check_segment-Fits :
    (l : Layout) (entry size : ℕ) (ph : ProgramHeader) (b : Bool)
    → check_segment l entry size ph ≡ ok b
    → ph.p_type ≡ elf_pt_load
    → Fits l size ph
unfolding check_segment
check_segment-Fits l entry size ph b h t = record {
  shorter = ground (arith, h, t);
  in_file = ground (arith, h, t);
  above = λ m. ground (arith, h, t, m);
  below = λ m. ground (arith, h, t, m);
  apart = λ m. ground (arith, h, t, m);
}

pub check_segment-Enters :
    (l : Layout) (entry size : ℕ) (ph : ProgramHeader)
    → check_segment l entry size ph ≡ ok true
    → Enters entry ph
unfolding check_segment
check_segment-Enters l entry size ph h = record {
  loaded = ground (arith, h);
  executable = ground (arith, h);
  from = ground (arith, h);
  to = ground (arith, h);
}

pub Fits-check_segment :
    (l : Layout) (entry size : ℕ) (ph : ProgramHeader)
    → (ph.p_type ≡ elf_pt_load → Fits l size ph)
    → (b : Bool) × (check_segment l entry size ph ≡ ok b)
unfolding check_segment
Fits-check_segment l entry size ph f = elim (Bool-cases (ph.p_type == elf_pt_load)) [
  | inr e ↦ (false, ground (arith, e))
  | inl e ↦
      let k = f (ground (arith, e)) in
      elim (Bool-cases (ph.p_memsz == 0)) [
        | inl z ↦ (false, ground (arith, e, z, k.shorter, k.in_file))
        | inr z ↦
            let m : ph.p_memsz ≢ 0 = λ q. ground (arith, q, z) in
            (
              ph.p_flags % 2 == 1 && leb ph.p_va entry && ltb entry (ph.p_va + ph.p_memsz),
              ground (arith, e, z, k.shorter, k.in_file, k.above m, k.below m, k.apart m),
            )
      ]
]

pub Enters-check_segment :
    (l : Layout) (entry size : ℕ) (ph : ProgramHeader) (b : Bool)
    → Enters entry ph
    → check_segment l entry size ph ≡ ok b
    → b ≡ true
unfolding check_segment
Enters-check_segment l entry size ph true n h = refl
Enters-check_segment l entry size ph false n h =
    absurd (ground (arith, h, n.loaded, n.executable, n.from, n.to))

-- ===== src/Elf/Validate.antt =====
-- kernel/exec/elf_loader.cpp: validate as a whole.
use zonix_plus.Base.{
  Error, Result-cases, arith, err, false, inl, inr, invalid, ok, success, true, ℕ, ◌*◌, ◌+◌, ◌<◌,
  ◌↔◌, ◌≡◌, ◌≤◌,
}
use zonix_plus.Elf.{
  ElfHeader, Layout, check_header, check_segments, elf_header, elf_header_size, elf_pt_load,
  is_executable, is_valid, program_header_size, validate,
}
use zonix_plus.Elf.Segments.{Fits, Enters}
use zonix_plus.Elf.Table.{
  header, entry, check_segments-FitFrom, FitFrom-check_segments, check_segments-invalid,
}

module _ (l : Layout) (bytes : ℕ → ℕ) (size : ℕ) where
  -- Everything that validate checks.
  pub record IsLoadable : Type 0 where
    pub whole : elf_header_size ≤ size
    pub executable : is_executable l (elf_header bytes) ≡ true
    pub header_sizes :
        ((elf_header bytes).e_ehsize ≡ elf_header_size)
        × ((elf_header bytes).e_phentsize ≡ program_header_size)
    pub behind : elf_header_size ≤ (elf_header bytes).e_phoff
    pub table : (elf_header bytes).e_phoff + (elf_header bytes).e_phnum * program_header_size ≤ size
    pub entry_range : (l.page_size ≤ entry l bytes size) × (entry l bytes size < l.user_space_top)
    pub fits :
        (k : ℕ)
        → k < (elf_header bytes).e_phnum
        → (header l bytes size k).p_type ≡ elf_pt_load
        → Fits l size (header l bytes size k)
    pub entered :
        (k : ℕ) × (k < (elf_header bytes).e_phnum)
        × Enters (entry l bytes size) (header l bytes size k)

  check_header-invalid : (eh : ElfHeader) (e : Error) → check_header l eh size ≡ err e → e ≡ invalid
  unfolding check_header
  check_header-invalid eh e h = ground (arith, h)

  check_header-ok :
      (eh : ElfHeader)
      → check_header l eh size ≡ ok tt
      → (elf_header_size ≤ size)
        × (is_executable l eh ≡ true)
        × (eh.e_ehsize ≡ elf_header_size)
        × (eh.e_phentsize ≡ program_header_size)
        × (elf_header_size ≤ eh.e_phoff)
        × (eh.e_phoff + eh.e_phnum * program_header_size ≤ size)
        × (l.page_size ≤ eh.e_entry)
        × (eh.e_entry < l.user_space_top)
  unfolding check_header
  check_header-ok eh h = (
    ground (arith, h),
    ground (arith, h),
    ground (arith, h),
    ground (arith, h),
    ground (arith, h),
    ground (arith, h),
    ground (arith, h),
    ground (arith, h),
  )

  executable-valid : (eh : ElfHeader) → is_executable l eh ≡ true → is_valid l eh ≡ true
  unfolding is_executable
  executable-valid eh h = ground (arith, h)

  ok-check_header :
      (eh : ElfHeader)
      → elf_header_size ≤ size
      → is_executable l eh ≡ true
      → (eh.e_ehsize ≡ elf_header_size) × (eh.e_phentsize ≡ program_header_size)
      → elf_header_size ≤ eh.e_phoff
      → eh.e_phoff + eh.e_phnum * program_header_size ≤ size
      → (l.page_size ≤ eh.e_entry) × (eh.e_entry < l.user_space_top)
      → check_header l eh size ≡ ok tt
  unfolding check_header
  ok-check_header eh a b c d f g =
      ground (arith, a, b, executable-valid eh b, c.0, c.1, d, f, g.0, g.1)

  validate-IsLoadable_to : validate l bytes size ≡ success → IsLoadable
  unfolding validate
  validate-IsLoadable_to h = elim (Result-cases (check_header l (elf_header bytes) size)) [
    | inr (e, p) ↦ absurd (ground (arith, h, p, check_header-invalid (elf_header bytes) e p))
    | inl (u, p) ↦
        elim (Result-cases (check_segments l bytes size (elf_header bytes).e_phnum 0 false)) [
          | inr (e, q) ↦ absurd (
              ground (
                arith,
                h,
                p,
                q,
                check_segments-invalid l bytes size (elf_header bytes).e_phnum 0 false e q,
              ))
          | inl (c, q) ↦
              let t : c ≡ true = ground (arith, h, p, q) in
              let (fits, found) =
                check_segments-FitFrom l bytes size (elf_header bytes).e_phnum 0 false c q in
              let (w, x, s, z, o, tb, lo, hi) = check_header-ok (elf_header bytes) p in
              record {
                whole = w;
                executable = x;
                header_sizes = (s, z);
                behind = o;
                table = tb;
                entry_range = (lo, hi);
                fits = λ k a b. fits k (omega arith) (omega arith) b;
                entered = elim (found t) [
                  | inl bad ↦ absurd cc
                  | inr (k, a, b, e) ↦ (k, omega arith, e)
                ];
              }
        ]
  ]

  validate-IsLoadable_from : IsLoadable → validate l bytes size ≡ success
  unfolding validate
  validate-IsLoadable_from k =
      let p =
        ok-check_header (elf_header bytes) k.whole k.executable k.header_sizes k.behind k.table
          k.entry_range in
      let n = (elf_header bytes).e_phnum in
      let (c, q, found) =
        FitFrom-check_segments l bytes size n 0 false (λ i a b. k.fits i (omega arith)) in
      let (i, a, e) = k.entered in
      let t = found (inr (i, omega arith, omega arith, e)) in ground (arith, p, q, t)

-- validate accepts a file exactly if it is an executable of the machine whose header and table of
-- program headers lie in the file, each segment to be loaded lies in the file and in the user's
-- address space, apart from the stack, and an executable segment holds the entry.
pub validate-IsLoadable :
    (l : Layout) (bytes : ℕ → ℕ) (size : ℕ)
    → (validate l bytes size ≡ success) ↔ IsLoadable l bytes size
validate-IsLoadable l bytes size =
    (validate-IsLoadable_to l bytes size, validate-IsLoadable_from l bytes size)

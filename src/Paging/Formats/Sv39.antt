-- ===== src/Paging/Formats/Sv39.antt =====
-- arch/riscv64/include/asm/page.h has what the walk relies on.
use zonix_plus.Base.{arith, inl, inr, refl, suc, ℕ, ◌%◌, ◌*◌, ◌+◌, ◌/◌, ◌<◌, ◌^◌, ◌∙◌, ◌≡◌, ◌⊎◌}
use zonix_plus.Paging.{block_base, split_entries}
use zonix_plus.Paging.Formats.{IsFormat}
use zonix_plus.Paging.Riscv.{
  level_shift, make_pte_page, make_pte_table, ppn, pte_addr, pte_is_leaf, pte_user_accessible,
  split_page_entry, sv39,
}

level_cases : (level : ℕ) → suc level < 3 → (level ≡ 0) ⊎ (level ≡ 1)
level_cases level h = grind arith

pte_addr-lt : (e : ℕ) → pte_addr e < 2 ^ 64
unfolding pte_addr
pte_addr-lt e = omega arith

-- The address of an entry of the page number of `a` and any flags.
pte_addr-split :
    (e a shift : ℕ) → a < 2 ^ 64 → pte_addr (split_page_entry e a shift) ≡ a / 4096 * 4096
unfolding pte_addr split_page_entry ppn
pte_addr-split e a shift h = omega (arith, h)

-- An aligned address survives the entry.
pte_addr-split_aligned :
    (e a : ℕ) → a < 2 ^ 64 → a % 4096 ≡ 0 → (shift : ℕ) → pte_addr (split_page_entry e a shift) ≡ a
pte_addr-split_aligned e a h z shift = pte_addr-split e a shift h ∙ omega (arith, z)

split_top :
    (e i : ℕ)
    → i < 512
    → pte_addr (split_page_entry e (pte_addr e / 2 ^ 30 * 2 ^ 30 + i * 2 ^ 21) 21) / 2 ^ 21 * 2 ^ 21
      ≡ pte_addr e / 2 ^ 30 * 2 ^ 30 + i * 2 ^ 21
split_top e i k =
    rw
      (pte_addr-split_aligned e (pte_addr e / 2 ^ 30 * 2 ^ 30 + i * 2 ^ 21)
        (omega (arith, pte_addr-lt e, k)) (omega arith) 21)
      (omega arith)

split_middle :
    (e i : ℕ)
    → i < 512
    → pte_addr (split_page_entry e (pte_addr e / 2 ^ 21 * 2 ^ 21 + i * 2 ^ 12) 12) / 2 ^ 12 * 2 ^ 12
      ≡ pte_addr e / 2 ^ 21 * 2 ^ 21 + i * 2 ^ 12
split_middle e i k =
    rw
      (pte_addr-split_aligned e (pte_addr e / 2 ^ 21 * 2 ^ 21 + i * 2 ^ 12)
        (omega (arith, pte_addr-lt e, k)) (omega arith) 12)
      (omega arith)

sv39-split_base :
    (level e i : ℕ)
    → suc level < 3
    → i < 512
    → block_base sv39 (suc level) (split_entries sv39 level e i)
      ≡ block_base sv39 level e + i * 2 ^ sv39.shift (suc level)
unfolding level_shift
sv39-split_base level e i h k = elim (level_cases level h) [
  | inl at ↦ rw at (split_top e i k)
  | inr at ↦ rw at (split_middle e i k)
]

-- The entries of riscv64 are a format as the walk relies on, for page numbers of 44 bits.
pub sv39-IsFormat : IsFormat sv39 (2 ^ 44)
unfolding level_shift pte_addr pte_is_leaf make_pte_table make_pte_page split_page_entry
    pte_user_accessible ppn
sv39-IsFormat = record {
  depth = omega arith;
  shift_top = λ va h. omega (arith, h);
  shift_next = λ level va h. elim (level_cases level h) [
    | inl at ↦ rw at (omega arith)
    | inr at ↦ rw at (omega arith)
  ];
  shift_rest = λ level va h. elim (level_cases level h) [
    | inl at ↦ rw at (omega arith)
    | inr at ↦ rw at (omega arith)
  ];
  shift_last = refl;
  zero_absent = refl;
  table_present = λ p h. ground arith;
  table_is_block = λ p h. ground arith;
  table_addr = λ p h. omega (arith, h);
  table_open = λ p write h. refl;
  page_present = λ p perm h. ground arith;
  page_addr = λ p perm h. ground (arith, h);
  split_present = λ level e i h k there. ground arith;
  split_is_block = λ level e i h k block. ground arith;
  split_accessible = λ level e i write h k there block. ground arith;
  split_base = λ level e i h k. sv39-split_base level e i h k;
}

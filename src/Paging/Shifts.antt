-- ===== src/Paging/Shifts.antt =====
-- kernel/mm/pmm.cpp: LEVEL_SHIFTS, with the shifts that x86 and aarch64 have in common.
use zonix_plus.Base.{
  arith, if◌then◌else◌, inl, inr, suc, ℕ, ◌%◌, ◌*◌, ◌+◌, ◌/◌, ◌<◌, ◌==◌, ◌^◌, ◌≡◌, ◌⊎◌,
}

unfoldable pub level_shift : ℕ → ℕ
level_shift level =
    if level == 0 then 39 else if level == 1 then 30 else if level == 2 then 21 else 12

pub level_cases : (level : ℕ) → suc level < 4 → (level ≡ 0) ⊎ ((level ≡ 1) ⊎ (level ≡ 2))
level_cases level h = grind arith

pub level_shift-next :
    (level va : ℕ)
    → suc level < 4
    → va / 2 ^ level_shift level ≡ va / 2 ^ level_shift (suc level) / 512
unfolding level_shift
level_shift-next level va h = elim (level_cases level h) [
  | inl at ↦ rw at (omega arith)
  | inr (inl at) ↦ rw at (omega arith)
  | inr (inr at) ↦ rw at (omega arith)
]

pub level_shift-rest :
    (level va : ℕ)
    → suc level < 4
    → va % 2 ^ level_shift level
      ≡ va / 2 ^ level_shift (suc level) % 512 * 2 ^ level_shift (suc level)
        + va % 2 ^ level_shift (suc level)
unfolding level_shift
level_shift-rest level va h = elim (level_cases level h) [
  | inl at ↦ rw at (omega arith)
  | inr (inl at) ↦ rw at (omega arith)
  | inr (inr at) ↦ rw at (omega arith)
]

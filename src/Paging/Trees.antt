-- ===== src/Paging/Trees.antt =====
-- The tables that a walk reaches, and when they form a tree: what makes it safe to change one entry.
use zonix_plus.Base.{
  Bool, Bool-cases, Option, Option-cases, arith, dec_lt, false, if◌then◌else◌, inl, inr, none, not,
  refl, some, suc, true, zero, ℕ, ◌&&◌, ◌+◌, ◌/◌, ◌<◌, ◌≡◌, ◌≤◌,
}
use zonix_plus.Pmm.Runs.{cover, IsSound}
use zonix_plus.Paging.{Format, Machine, level_index, page_bytes}

-- Whether the walk goes on to a table at the entry `e`.
abbrev pub leads : Format → ℕ → Bool
leads f e = f.present e && not (f.is_block e)

-- The table at depth `level` of the walk for an address.
unfoldable pub table_of : Format → Machine → ℕ → ℕ → ℕ → Option ℕ
unfolding level_index
table_of f m root zero va = some root
table_of f m root (suc level) va = elim (table_of f m root level va) [
  | none ↦ none
  | some t ↦
      if leads f (m.entry t (level_index f va level))
      then some (f.addr (m.entry t (level_index f va level)))
      else none
]

-- The walks for both addresses take the same entries down to that depth.
abbrev pub Agree : Format → ℕ → ℕ → ℕ → Type 0
Agree f level a b = (k : ℕ) → k < level → level_index f a k ≡ level_index f b k

-- An entry on the walk above the last level refuses the access.
abbrev pub IsShut : Format → Machine → ℕ → ℕ → Bool → Type 0
IsShut f m root va write =
    (level : ℕ) × (t : ℕ) × (suc level < f.levels)
    × (table_of f m root level va ≡ some t)
    × (f.table_accessible (m.entry t (level_index f va level)) write ≡ false)

-- No entry on the walk above the last level refuses the access.
abbrev pub IsOpen : Format → Machine → ℕ → ℕ → Bool → Type 0
IsOpen f m root va write =
    (level t : ℕ)
    → suc level < f.levels
    → table_of f m root level va ≡ some t
    → f.table_accessible (m.entry t (level_index f va level)) write ≡ true

-- No free page holds a table, and no table is reached in two ways.
pub record IsTree (f : Format) (page_limit root : ℕ) (m : Machine) : Type 0 where
  pub sound : IsSound m.pmm
  pub inside : (p : ℕ) → 1 ≤ cover m.pmm p → p < page_limit
  pub held :
      (level va t : ℕ)
      → level < f.levels
      → table_of f m root level va ≡ some t
      → cover m.pmm (t / page_bytes) ≡ 0
  pub unique :
      (l a k b t : ℕ)
      → l < f.levels
      → k < f.levels
      → table_of f m root l a ≡ some t
      → table_of f m root k b ≡ some t
      → (l ≡ k) × Agree f l a b

pub table_of-root : (f : Format) (m : Machine) (root va : ℕ) → table_of f m root zero va ≡ some root
unfolding table_of
table_of-root f m root va = refl

module _ (f : Format) (m : Machine) (root : ℕ) where
  -- A table below the root is what a leading entry of the table above it points to.
  pub table_of-suc :
      (level va t : ℕ)
      → table_of f m root (suc level) va ≡ some t
      → (s : ℕ) × (table_of f m root level va ≡ some s)
        × (leads f (m.entry s (level_index f va level)) ≡ true)
        × (f.addr (m.entry s (level_index f va level)) ≡ t)
  unfolding table_of
  table_of-suc level va t h = elim (Option-cases (table_of f m root level va)) [
    | inl e ↦ absurd (ground arith)
    | inr (s, e) ↦ elim (Bool-cases (leads f (m.entry s (level_index f va level)))) [
      | inl goes ↦ (s, e, goes, ground arith)
      | inr stops ↦ absurd (ground arith)
    ]
  ]

  pub table_of-step :
      (level va s : ℕ)
      → table_of f m root level va ≡ some s
      → leads f (m.entry s (level_index f va level)) ≡ true
      → table_of f m root (suc level) va ≡ some (f.addr (m.entry s (level_index f va level)))
  unfolding table_of
  table_of-step level va s h goes = rw (h, table_of) (rw goes refl)

  -- The walk passes every depth above a table that it reaches.
  pub table_of-above :
      (n level va t : ℕ)
      → table_of f m root (level + n) va ≡ some t
      → (s : ℕ) × (table_of f m root level va ≡ some s)
  table_of-above zero level va t h =
      let same : level + 0 ≡ level = omega arith in (t, rw (← same) h)
  table_of-above (suc n) level va t h =
      let same : level + suc n ≡ suc (level + n) = omega arith in
      let (s, e, goes, at) = table_of-suc (level + n) va t (rw (← same) h) in
      table_of-above n level va s e

module _ (f : Format) where
  pub Agree-le : (l k a b : ℕ) → k ≤ l → Agree f l a b → Agree f k a b
  Agree-le l k a b le h i lt = h i (omega (arith, lt, le))

  pub Agree-suc :
      (level a b : ℕ)
      → Agree f level a b
      → level_index f a level ≡ level_index f b level
      → Agree f (suc level) a b
  Agree-suc level a b h e k lt = elim (dec_lt k level) [
    | yes below ↦ h k below
    | no top ↦ let at : k ≡ level = omega (arith, top, lt) in rw at e
  ]

-- ===== src/Paging.antt =====
-- kernel/mm/pmm.cpp: the page tables, walked level by level. The format of an entry is the
-- architecture's (arch/*/include/asm/page.h): a record of its functions. A table is named by its
-- physical address, so phys_to_virt is left out, and an entry by its table and its index. Invalidating
-- the TLB has no effect on the tables.
pub mod Riscv
pub mod Shifts
pub mod X86
pub mod Aarch64
pub mod Formats
pub mod Trees
pub mod Link
pub mod Fresh
pub mod Descend
pub mod Enter
pub mod Outcomes
pub mod Insert
pub mod Tests
use zonix_plus.Base.{
  Bool, Option, Result, ensure, err, exists_already, if◌then◌else◌, invalid, leb, ltb, no_mem, none,
  ok, some, suc, true, update, zero, ℕ, ◌%◌, ◌&&◌, ◌*◌, ◌+◌, ◌-◌, ◌/◌, ◌==◌, ◌>>◌, ◌^◌, ◌||◌,
}
use zonix_plus.Pmm.{Page, Pmm, alloc, free}

-- PAGE_TABLE_ENTRIES and ENTRY_NUM
abbrev pub entry_num : ℕ
entry_num = 512

abbrev pub page_bytes : ℕ
page_bytes = 4096

-- asm/page.h: PT_WALK_LEVELS, LEVEL_SHIFTS, USER_SPACE_TOP and the functions on entries.
pub record Format : Type 0 where
  pub levels : ℕ
  pub shift : ℕ → ℕ
  pub user_top : ℕ
  pub present : ℕ → Bool
  pub is_block : ℕ → Bool
  pub addr : ℕ → ℕ
  pub make_table : ℕ → ℕ
  pub make_page : ℕ → ℕ → ℕ
  pub split_entry : ℕ → ℕ → ℕ → ℕ
  pub user_accessible : ℕ → Bool → Bool
  pub table_accessible : ℕ → Bool → Bool

-- The entries of all tables, and the allocator.
pub record Machine : Type 0 where
  pub entry : ℕ → ℕ → ℕ
  pub pmm : Pmm

-- pmm::page_to_phys
unfoldable pub page_to_phys : ℕ → ℕ
page_to_phys page = page * page_bytes

-- pmm::phys_to_page
unfoldable pub phys_to_page : ℕ → ℕ
phys_to_page pa = pa / page_bytes

abbrev pub set_page : ℕ → Page → Machine → Machine
set_page p page m = record m { pmm = record m.pmm { page = update m.pmm.page p page } }

abbrev pub set_entry : ℕ → ℕ → ℕ → Machine → Machine
set_entry table i e m = record m { entry = update m.entry table (update (m.entry table) i e) }

-- memset and the loop of descend_level: the entries of a table.
abbrev pub fill_table : ℕ → (ℕ → ℕ) → Machine → Machine
fill_table table content m = record m {
  entry = update m.entry table (λ i. if ltb i entry_num then content i else m.entry table i);
}

-- The page `p`, for which the allocator left `s`, becomes an empty table.
abbrev pub take_table : ℕ → Pmm → Machine → Machine
take_table p s m =
    fill_table (page_to_phys p) (λ i. 0)
      (set_page p (record (s.page p) { ref_count = 1; page_table = true }) (record m { pmm = s }))

-- alloc_table_page; INVALID_TABLE_PA is none.
unfoldable pub alloc_table_page : Bool → Machine → Option ℕ × Machine
unfolding page_to_phys
alloc_table_page create m =
    if create
    then (let (page, s) = alloc 1 m.pmm in
        elim page [
          | none ↦ (none, record m { pmm = s })
          | some p ↦ (some (page_to_phys p), take_table p s m)
        ])
    else (none, m)

module _ (f : Format) where
  unfoldable pub level_index : ℕ → ℕ → ℕ
  level_index va level = va / 2 ^ f.shift level % 512

  -- pte_addr(entry) & ~((1UL << shift) - 1)
  abbrev pub block_base : ℕ → ℕ → ℕ
  block_base level e = f.addr e / 2 ^ f.shift level * 2 ^ f.shift level

  abbrev pub link_table_entry : ℕ → ℕ → ℕ → Machine → Machine
  link_table_entry table i pa m = set_entry table i (f.make_table pa) m

  -- The entries of the next level that cover what the block `e` of this level covers.
  abbrev pub split_entries : ℕ → ℕ → ℕ → ℕ
  split_entries level e i =
      f.split_entry e (block_base level e + i * 2 ^ f.shift (suc level)) (f.shift (suc level))

  -- descend_level, at the entry `i` of a table of that level
  unfoldable pub descend_level : ℕ → ℕ → Bool → ℕ → Machine → Option ℕ × Machine
  descend_level table i create level m =
      let e = m.entry table i in
      let (fresh, m') = alloc_table_page create m in
      if f.present e
      then if f.is_block e
        then elim fresh [
          | none ↦ (none, m')
          | some pa ↦
              (some pa, link_table_entry table i pa (fill_table pa (split_entries level e) m'))
        ]
        else (some (f.addr e), m)
      else elim fresh [ none ↦ (none, m') | some pa ↦ (some pa, link_table_entry table i pa m') ]

  -- The loop of get_pte, with `n` levels left to descend.
  unfoldable pub descend : ℕ → ℕ → ℕ → ℕ → Bool → Machine → Option ℕ × Machine
  descend zero level table va create m = (some table, m)
  descend (suc n) level table va create m =
      let (child, m') = descend_level table (level_index va level) create level m in
      elim child [ none ↦ (none, m') | some t ↦ descend n (suc level) t va create m' ]

  -- pmm::get_pte: the table and the index of the last level's entry.
  unfoldable pub get_pte : ℕ → ℕ → Bool → Machine → Option (ℕ × ℕ) × Machine
  get_pte pgdir va create m =
      let (table, m') = descend (f.levels - 1) 0 pgdir va create m in
      elim table [ none ↦ (none, m') | some t ↦ (some (t, level_index va (f.levels - 1)), m') ]

  -- What user_address answers at a leaf.
  unfoldable pub leaf_address : ℕ → ℕ → ℕ → Bool → Result ℕ
  leaf_address level e user_va write =
      ensure (f.user_accessible e write) invalid
      >> ok (block_base level e + user_va % 2 ^ f.shift level)

  -- The loop of user_address, with `n` rounds left.
  unfoldable pub user_walk : ℕ → ℕ → ℕ → ℕ → Bool → Machine → Result ℕ
  user_walk zero level table user_va write m = err invalid
  user_walk (suc n) level table user_va write m =
      let e = m.entry table (level_index user_va level) in
      let rest = user_walk n (suc level) (f.addr e) user_va write m in
      if f.present e
      then if level == f.levels - 1 || f.is_block e
        then leaf_address level e user_va write
        else if f.table_accessible e write
        then rest
        else err invalid
      else err invalid

  -- pmm::user_address, of a page directory that is there; the address is physical.
  unfoldable pub user_address : ℕ → ℕ → Bool → Machine → Result ℕ
  user_address pgdir user_va write m =
      ensure (leb page_bytes user_va && ltb user_va f.user_top) invalid
      >> user_walk f.levels 0 pgdir user_va write m

  -- The end of page_insert, at an entry that is not present.
  abbrev pub enter_page : ℕ → ℕ → ℕ → ℕ → Machine → Machine
  enter_page page perm table i m =
      let d = m.pmm.page page in
      set_entry table i (f.make_page (page_to_phys page) perm)
        (set_page page (record d { ref_count = d.ref_count + 1 }) m)

  -- pmm::page_insert
  unfoldable pub page_insert : ℕ → ℕ → ℕ → ℕ → Machine → Result (Unit {0}) × Machine
  page_insert pgdir page va perm m =
      let (pte, m') = get_pte pgdir va true m in
      elim pte [
        | none ↦ (err no_mem, m')
        | some (table, i) ↦
            if f.present (m'.entry table i)
            then (err exists_already, m')
            else (ok tt, enter_page page perm table i m')
      ]

  -- pmm::alloc_and_map_page; none if the free of the page fails its assert.
  unfoldable pub alloc_and_map_page : ℕ → ℕ → ℕ → Machine → Option (Option ℕ × Machine)
  alloc_and_map_page pgdir va perm m =
      let (page, s) = alloc 1 m.pmm in
      elim page [
        | none ↦ some (none, record m { pmm = s })
        | some p ↦
            let (r, m') = page_insert pgdir p va perm (record m { pmm = s }) in
            elim r [
              | ok u ↦ some (some p, m')
              | err e ↦ elim (free p 1 m'.pmm) [
                | none ↦ none
                | some s' ↦ some (none, record m' { pmm = s' })
              ]
            ]
      ]

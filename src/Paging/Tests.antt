-- ===== src/Paging/Tests.antt =====
-- Runs of the page tables of riscv64, and their theorems on an address space with one large block.
use zonix_plus.Base.{
  Bool, [], arith, err, exists_already, false, if◌then◌else◌, invalid, no_mem, ok, refl, some, suc,
  sym, true, zero, ℕ, ◌%◌, ◌&&◌, ◌*◌, ◌+◌, ◌/◌, ◌<◌, ◌==◌, ◌^◌, ◌∙◌, ◌≡◌, ◌≢◌, ◌≤◌, ◌⊎◌,
}
use zonix_plus.Pmm.{Pmm, alloc, blank, init_memmap}
use zonix_plus.Pmm.Boot.{init_memmap-cover}
use zonix_plus.Pmm.Runs.{cover, in_run, in_run-le, IsSound}
use zonix_plus.Paging.{
  Machine, alloc_table_page, descend, descend_level, get_pte, leaf_address, level_index, page_bytes,
  page_insert, page_to_phys, user_address, user_walk,
}
use zonix_plus.Paging.Descend.{Found, IsKept, get_pte-IsKept}
use zonix_plus.Paging.Formats.Sv39.{sv39-IsFormat}
use zonix_plus.Paging.Insert.{page_insert-error, page_insert-maps, page_insert-others}
use zonix_plus.Paging.Riscv.{
  level_shift, make_pte_page, make_pte_table, ppn, pte_addr, pte_is_leaf, pte_user_accessible,
  split_page_entry, sv39,
}
use zonix_plus.Paging.Trees.{IsOpen, IsShut, IsTree, leads, table_of, table_of-root, table_of-suc}

abbrev no_pages : Pmm
no_pages = record { page = λ _. blank; free_list = []; free_page_count = 0 }

no_pages-IsSound : IsSound no_pages
no_pages-IsSound = record {
  nonempty = tt;
  disjoint = λ i. omega arith;
  counted = refl;
  bounded = omega arith;
}

-- The pages 32 to 39 are free.
abbrev eight_pages : Pmm
eight_pages = init_memmap 32 8 no_pages

eight_pages-IsSound : IsSound eight_pages
eight_pages-IsSound =
    (init_memmap-cover 32 8 no_pages no_pages-IsSound (omega arith) (omega arith)
      (λ i. omega (arith, in_run-le 32 8 i))).0

eight_pages-cover : (i : ℕ) → cover eight_pages i ≡ in_run 32 8 i
eight_pages-cover i = omega (
  arith,
  (init_memmap-cover 32 8 no_pages no_pages-IsSound (omega arith) (omega arith)
        (λ j. omega (arith, in_run-le 32 8 j))).1
      i,
)

in_run-low : (i : ℕ) → 1 ≤ in_run 32 8 i → i < 2 ^ 44
unfolding in_run
in_run-low i h = ground arith

page_100 : in_run 32 8 100 ≡ 0
unfolding in_run
page_100 = refl

-- The page 100 is the directory: its first entry is a block of 1 GiB that users may read.
abbrev directory : ℕ
directory = 100 * 4096

abbrev one_block : Machine
one_block = record { entry = λ t i. if t == directory && i == 0 then 211 else 0; pmm = eight_pages }

-- The address 5 pages into the second GiB, mapped to the page 77 for reading and writing by users.
abbrev second_gib : ℕ
second_gib = 0x40005000

page_insert_runs : (page_insert sv39 directory 77 second_gib 0x16 one_block).0 ≡ ok tt
unfolding page_insert get_pte descend descend_level level_index level_shift alloc_table_page
    page_to_phys alloc init_memmap make_pte_table make_pte_page pte_is_leaf pte_addr ppn
    split_page_entry user_address user_walk leaf_address pte_user_accessible
page_insert_runs = refl

user_address_runs :
    user_address sv39 directory
      (second_gib + 9)
      true
      (page_insert sv39 directory 77 second_gib 0x16 one_block).1
    ≡ ok (77 * 4096 + 9)
unfolding page_insert get_pte descend descend_level level_index level_shift alloc_table_page
    page_to_phys alloc init_memmap make_pte_table make_pte_page pte_is_leaf pte_addr ppn
    split_page_entry user_address user_walk leaf_address pte_user_accessible
user_address_runs = refl

-- A page in the middle of the block is taken already; the block is split on the way.
page_insert_taken : (page_insert sv39 directory 77 0x5000 0x16 one_block).0 ≡ err exists_already
unfolding page_insert get_pte descend descend_level level_index level_shift alloc_table_page
    page_to_phys alloc init_memmap make_pte_table make_pte_page pte_is_leaf pte_addr ppn
    split_page_entry user_address user_walk leaf_address pte_user_accessible
page_insert_taken = refl

user_address_split :
    user_address sv39 directory 0x5009 false (page_insert sv39 directory 77 0x5000 0x16 one_block).1
    ≡ ok 0x5009
unfolding page_insert get_pte descend descend_level level_index level_shift alloc_table_page
    page_to_phys alloc init_memmap make_pte_table make_pte_page pte_is_leaf pte_addr ppn
    split_page_entry user_address user_walk leaf_address pte_user_accessible
user_address_split = refl

one_block-flat : (t i : ℕ) → leads sv39 (one_block.entry t i) ≡ false
unfolding pte_is_leaf
one_block-flat t i = ground arith

no_table : (l va t : ℕ) → table_of sv39 one_block directory (suc l) va ≢ some t
no_table l va t h =
    let (s, e, goes, at) = table_of-suc sv39 one_block directory l va t h in
    absurd (ground (arith, one_block-flat s (level_index sv39 va l), goes))

only_directory :
    (l va t : ℕ) → table_of sv39 one_block directory l va ≡ some t → (l ≡ 0) × (t ≡ directory)
only_directory zero va t h = (refl, ground (arith, h, table_of-root sv39 one_block directory va))
only_directory (suc l) va t h = absurd (no_table l va t h)

one_block-IsTree : IsTree sv39 (2 ^ 44) directory one_block
one_block-IsTree = record {
  sound = eight_pages-IsSound;
  inside = λ p h. in_run-low p (omega (arith, h, eight_pages-cover p));
  held = λ level va t lt h.
      let (z, e) = only_directory level va t h in
      let at : t / page_bytes ≡ 100 = omega (arith, e) in rw at (eight_pages-cover 100 ∙ page_100);
  unique = λ l a k b t lt lt' h h'.
      let (z, e) = only_directory l a t h in
      let (z', e') = only_directory k b t h' in
      (z ∙ sym z', λ j below. absurd (omega (arith, below, z)));
}

get_pte-IsKept_example :
    IsKept sv39 (2 ^ 44) directory one_block (get_pte sv39 directory second_gib true one_block).1
    × Found sv39 directory second_gib true
        (get_pte sv39 directory second_gib true one_block).0
        (get_pte sv39 directory second_gib true one_block).1
get_pte-IsKept_example =
    get_pte-IsKept sv39 (2 ^ 44) directory sv39-IsFormat true second_gib one_block one_block-IsTree

abbrev mapped : Machine
mapped = (page_insert sv39 directory 77 second_gib 0x16 one_block).1

page_insert-others_example :
    IsTree sv39 (2 ^ 44) directory mapped
    × ((b : ℕ) (write : Bool)
        → b / page_bytes ≢ second_gib / page_bytes
        → user_address sv39 directory b write mapped
          ≡ user_address sv39 directory b write one_block)
page_insert-others_example =
    page_insert-others sv39 (2 ^ 44) directory 77 second_gib 0x16 one_block sv39-IsFormat
      one_block-IsTree (omega arith)

page_insert-maps_example :
    ((t : ℕ) × (i : ℕ) × (get_pte sv39 directory second_gib false mapped ≡ (some (t, i), mapped))
      × (mapped.entry t i ≡ make_pte_page (page_to_phys 77) 0x16))
    × ((write : Bool)
        → (user_address sv39 directory second_gib write one_block ≡ err invalid)
          × (((user_address sv39 directory second_gib write mapped
                  ≡ ok (page_to_phys 77 + second_gib % page_bytes))
                × (page_bytes ≤ second_gib)
                × (second_gib < sv39.user_top)
                × IsOpen sv39 mapped directory second_gib write
                × (pte_user_accessible (make_pte_page (page_to_phys 77) 0x16) write ≡ true))
              ⊎ ((user_address sv39 directory second_gib write mapped ≡ err invalid)
                  × ((second_gib < page_bytes)
                      ⊎ (sv39.user_top ≤ second_gib)
                      ⊎ IsShut sv39 mapped directory second_gib write
                      ⊎ (pte_user_accessible (make_pte_page (page_to_phys 77) 0x16) write
                          ≡ false)))))
page_insert-maps_example =
    page_insert-maps sv39 (2 ^ 44) directory 77 second_gib 0x16 one_block sv39-IsFormat
      one_block-IsTree (omega arith) page_insert_runs

-- Users may not write to a page that is mapped without that permission.
user_address_read_only :
    user_address sv39 directory
      (second_gib + 9)
      true
      (page_insert sv39 directory 77 second_gib 0x12 one_block).1
    ≡ err invalid
unfolding page_insert get_pte descend descend_level level_index level_shift alloc_table_page
    page_to_phys alloc init_memmap make_pte_table make_pte_page pte_is_leaf pte_addr ppn
    split_page_entry user_address user_walk leaf_address pte_user_accessible
user_address_read_only = refl

-- Without a free page there is no table for the address.
page_insert_short :
    (page_insert sv39 directory 77 second_gib 0x16 (record one_block { pmm = no_pages })).0
    ≡ err no_mem
unfolding page_insert get_pte descend descend_level alloc_table_page alloc level_index level_shift
page_insert_short = refl

abbrev unmapped : Machine
unmapped = (page_insert sv39 directory 77 0x5000 0x16 one_block).1

page_insert-error_example :
    ((b : ℕ) (write : Bool)
      → user_address sv39 directory b write unmapped
        ≡ user_address sv39 directory b write one_block)
    × (((exists_already ≡ no_mem)
          × ((p : ℕ) → cover unmapped.pmm p ≡ 0)
          × ((level : ℕ) × (t : ℕ) × (suc level < sv39.levels)
              × (table_of sv39 unmapped directory level 0x5000 ≡ some t)
              × (leads sv39 (unmapped.entry t (level_index sv39 0x5000 level)) ≡ false)))
        ⊎ ((exists_already ≡ exists_already)
            × ((t : ℕ) × (i : ℕ) × (get_pte sv39 directory 0x5000 false unmapped
                  ≡ (some (t, i), unmapped))
                × (sv39.present (unmapped.entry t i) ≡ true))))
page_insert-error_example =
    page_insert-error sv39 (2 ^ 44) directory 77 0x5000 0x16 one_block exists_already sv39-IsFormat
      one_block-IsTree page_insert_taken

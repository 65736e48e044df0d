-- ===== src/Pmm.antt =====
-- kernel/mm/pmm_firstfit.cpp and pmm.h: the first-fit physical page allocator. A page is named by
-- its index in the array of descriptors, so pointer arithmetic on descriptors is addition. The free
-- list is the list of the pages that head a free run, in list order (Ring shows that the intrusive
-- list behaves as such a list). `unsigned int` counters wrap at 2 ^ 32. A failed assert is `none`.
pub mod Runs
pub mod Boot
pub mod Alloc
pub mod Coalesce
pub mod Free
pub mod Heap
pub mod Tests
use zonix_plus.Base.{
  Bool, List, Option, [], false, if◌then◌else◌, insert_after, leb, ltb, none, remove, some, suc,
  true, update, zero, ℕ, ◌%◌, ◌++◌, ◌+◌, ◌-◌, ◌==◌, ◌^◌, ◌∷◌,
}

abbrev pub u32 : ℕ
u32 = 2 ^ 32

-- Of the flags, `reserved` and `page_table` are bits 0 and 2; nothing sets another bit.
pub record Page : Type 0 where
  pub ref_count : ℕ
  pub reserved : Bool
  pub page_table : Bool
  pub block_page_count : ℕ

-- Page(); the state after `new (p) Page()`
abbrev pub blank : Page
blank = record { ref_count = 0; reserved = false; page_table = false; block_page_count = 0 }

abbrev pub set_reserved : Page → Page
set_reserved p = record p { reserved = true }

abbrev pub clear_reserved : Page → Page
clear_reserved p = record p { reserved = false }

-- The descriptors, and FreeArea.
pub record Pmm : Type 0 where
  pub page : ℕ → Page
  pub free_list : List ℕ
  pub free_page_count : ℕ

-- for (p = base; p != base + page_count; p++) new (p) Page();
abbrev construct_pages : ℕ → ℕ → (ℕ → Page) → ℕ → Page
construct_pages base zero page = page
construct_pages base (suc n) page = construct_pages (base + 1) n (update page base blank)

unfoldable pub init_memmap : ℕ → ℕ → Pmm → Pmm
init_memmap base page_count s =
    let constructed = construct_pages base page_count s.page in
    let head = set_reserved (record (constructed base) { block_page_count = page_count % u32 }) in
    record {
      page = update constructed base head;
      free_list = s.free_list ++ base ∷ [];
      free_page_count = (s.free_page_count + page_count) % u32;
    }

-- The search of `alloc`: the first run in list order that is large enough.
unfoldable pub first_fit : ℕ → (ℕ → Page) → List ℕ → Option ℕ
first_fit page_count page [] = none
first_fit page_count page (p ∷ rest) =
    let next = first_fit page_count page rest in
    if leb page_count (page p).block_page_count then some p else next

-- The tail of a run that is too long goes back as a run of its own, directly behind it.
unfoldable pub split_run : ℕ → ℕ → Pmm → Pmm
split_run p page_count s =
    let remaining = p + page_count in
    let count = (s.page p).block_page_count in
    if ltb page_count count
    then record s {
      page =
          update s.page remaining
            (set_reserved (record (s.page remaining) { block_page_count = count - page_count }));
      free_list = insert_after p remaining s.free_list;
    }
    else s

unfoldable pub take_run : ℕ → ℕ → Pmm → Pmm
unfolding split_run
take_run p page_count s =
    let split = split_run p page_count s in
    record {
      page = update split.page p (clear_reserved (split.page p));
      free_list = remove p split.free_list;
      free_page_count = split.free_page_count - page_count;
    }

-- PageAllocator::alloc, for page_count > 0. (At 0 the source links a run behind itself.)
unfoldable pub alloc : ℕ → Pmm → Option ℕ × Pmm
unfolding first_fit take_run
alloc page_count s =
    if ltb s.free_page_count page_count
    then (none, s)
    else elim (first_fit page_count s.page s.free_list) [
      | none ↦ (none, s)
      | some p ↦ (some p, take_run p page_count s)
    ]

-- The first loop of `free`: each page must be unreferenced, and loses its flags.
unfoldable pub reset_pages : ℕ → ℕ → (ℕ → Page) → Option (ℕ → Page)
reset_pages base zero page = some page
reset_pages base (suc n) page =
    let cleared = record (page base) { ref_count = 0; reserved = false; page_table = false } in
    let rest = reset_pages (base + 1) n (update page base cleared) in
    if (page base).ref_count == 0 then rest else none

pub record Merge : Type 0 where
  pub page : ℕ → Page
  pub base : ℕ

-- One round of the merge loop at the run `p`, and whether `p` stays in the list.
unfoldable pub absorb : Merge → ℕ → Merge × Bool
absorb m p =
    let base_count = (m.page m.base).block_page_count in
    let run_count = (m.page p).block_page_count in
    if m.base + base_count == p
    then (
      record m {
        page =
            update
              (update m.page m.base
                (record (m.page m.base) { block_page_count = (base_count + run_count) % u32 }))
              p (clear_reserved (m.page p));
      },
      false,
    )
    else if p + run_count == m.base
    then (
      record {
        page =
            update
              (update m.page p
                (record (m.page p) { block_page_count = (run_count + base_count) % u32 }))
              m.base (clear_reserved (m.page m.base));
        base = p;
      },
      false,
    )
    else (m, true)

-- The merge loop: the nodes that stay linked, with the run that grew.
unfoldable pub merge : Merge → List ℕ → Merge × List ℕ
unfolding absorb
merge m [] = (m, [])
merge m (p ∷ rest) =
    let (m', stays) = absorb m p in
    let (m'', kept) = merge m' rest in (m'', if stays then p ∷ kept else kept)

-- PageAllocator::free. `prev` ends as the last node that stays linked, or as the head of the list
-- if none does, so that prev->add_after puts the run at the end.
unfoldable pub free : ℕ → ℕ → Pmm → Option Pmm
unfolding reset_pages merge
free base page_count s = elim (reset_pages base page_count s.page) [
  | none ↦ none
  | some page ↦
      let head = set_reserved (record (page base) { block_page_count = page_count % u32 }) in
      let (m, kept) = merge (record { page = update page base head; base = base }) s.free_list in
      some (record {
        page = m.page;
        free_list = kept ++ m.base ∷ [];
        free_page_count = (s.free_page_count + page_count) % u32;
      })
]

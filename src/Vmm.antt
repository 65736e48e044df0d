-- ===== src/Vmm.antt =====
-- kernel/mm/vmm.cpp: the check of a range of user addresses. Where a user's page may be read or
-- written is decided by the page tables (pmm::user_address): it is a parameter. PG_SIZE is 4096 on
-- every architecture; the top of the user space is the architecture's.
pub mod Range
pub mod Tests
use zonix_plus.Base.{
  Bool, Option, false, if◌then◌else◌, leb, ltb, none, some, suc, true, zero, ℕ, ◌%◌, ◌+◌, ◌-◌, ◌||◌,
}

abbrev pub pg_size : ℕ
pg_size = 4096

-- The bytes up to the end of the page, or as many as are left.
unfoldable pub chunk_bytes : ℕ → ℕ → ℕ
chunk_bytes user_va byte_count =
    let chunk = pg_size - user_va % pg_size in if ltb byte_count chunk then byte_count else chunk

module _ (user_address : ℕ → Bool → Bool) where
  -- The loop of user_range_valid, none without fuel.
  unfoldable pub check_pages : ℕ → ℕ → ℕ → Bool → Option Bool
  check_pages fuel user_va zero write = some true
  check_pages zero user_va (suc byte_count) write = none
  check_pages (suc fuel) user_va (suc byte_count) write =
      let chunk = chunk_bytes user_va (suc byte_count) in
      let rest = check_pages fuel (user_va + chunk) (suc byte_count - chunk) write in
      if user_address user_va write then rest else some false

  -- user_range_valid, of an address space that is there.
  unfoldable pub user_range_valid : ℕ → ℕ → ℕ → ℕ → Bool → Option Bool
  unfolding check_pages
  user_range_valid fuel user_space_top user_va byte_count write =
      if ltb user_va pg_size
        || leb user_space_top user_va
        || ltb (user_space_top - user_va) byte_count
      then some false
      else check_pages fuel user_va byte_count write

-- ===== src/Vmm/Tests.antt =====
-- A run of the check of user ranges, and its theorem at a range over two pages.
use zonix_plus.Base.{
  Bool, arith, false, not, refl, some, true, ℕ, ◌&&◌, ◌+◌, ◌/◌, ◌<◌, ◌==◌, ◌||◌, ◌↔◌, ◌≡◌, ◌≤◌,
}
use zonix_plus.Vmm.{pg_size, user_range_valid}
use zonix_plus.Vmm.Range.{IsPaged, user_range_valid-Open}

-- The pages 1 and 2 are open, for reading only.
abbrev two_pages : ℕ → Bool → Bool
two_pages va write = not write && (va / pg_size == 1 || va / pg_size == 2)

user_range_valid_runs : user_range_valid two_pages 2 0x100000 8000 4000 false ≡ some true
unfolding user_range_valid zonix_plus.Vmm.chunk_bytes
user_range_valid_runs = refl

user_range_valid_beyond : user_range_valid two_pages 3 0x100000 8000 5000 false ≡ some false
unfolding user_range_valid zonix_plus.Vmm.chunk_bytes
user_range_valid_beyond = refl

two_pages-IsPaged : IsPaged two_pages
two_pages-IsPaged a b write e = rw e refl

user_range_valid-Open_example :
    (b : Bool) × (user_range_valid two_pages 5000 0x100000 8000 5000 false ≡ some b)
    × ((b ≡ true) ↔ (
        (pg_size ≤ 8000)
        × (8000 < 0x100000)
        × (8000 + 5000 ≤ 0x100000)
        × ((k : ℕ) → k < 5000 → two_pages (8000 + k) false ≡ true)))
user_range_valid-Open_example =
    user_range_valid-Open two_pages 5000 0x100000 8000 5000 false two_pages-IsPaged (omega arith)

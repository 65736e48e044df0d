-- ===== src/Pmm/Tests.antt =====
-- Runs of the allocator, and its theorems at inputs that meet their hypotheses.
use mathlib.Core.Option
use zonix_plus.Base.{
  All, List, [], arith, none, refl, some, ℕ, ◌*◌, ◌++◌, ◌+◌, ◌-◌, ◌<◌, ◌∷◌, ◌≡◌, ◌≤◌,
}
use zonix_plus.Pmm.{Pmm, blank, init_memmap, alloc, free}
use zonix_plus.Pmm.Runs.{in_run, in_run-le, cover, IsSound, size}
use zonix_plus.Rounding.{u64}
use zonix_plus.Pmm.Boot.{
  init_memmap-cover, normalize_available_range, normalize_available_range_wraps,
}
use zonix_plus.Pmm.Alloc.{alloc-cover, alloc-first}
use zonix_plus.Pmm.Heap.{kfree, kfree-kmalloc, kmalloc, note_count}
use zonix_plus.Pmm.Free.{free-cover, free-alloc}

abbrev booting : Pmm
booting = record { page = λ _. blank; free_list = []; free_page_count = 0 }

-- Two regions: pages 16 to 17, and 32 to 39.
abbrev two_regions : Pmm
unfolding init_memmap
two_regions = init_memmap 32 8 (init_memmap 16 2 booting)

booting-IsSound : IsSound booting
booting-IsSound = record {
  nonempty = tt;
  disjoint = λ i. omega arith;
  counted = refl;
  bounded = omega arith;
}

first_region-IsSound : IsSound (init_memmap 16 2 booting)
first_region-IsSound =
    (init_memmap-cover 16 2 booting booting-IsSound (omega arith) (omega arith)
      (λ i. omega (arith, in_run-le 16 2 i))).0

two_regions-IsSound : IsSound two_regions
unfolding two_regions in_run
two_regions-IsSound =
    (init_memmap-cover 32 8 (init_memmap 16 2 booting) first_region-IsSound (omega arith)
      (omega arith) (λ i. ground arith)).0

-- The first run is too small for three pages; the second is split.
alloc_three : (alloc 3 two_regions).0 ≡ some 32
unfolding alloc two_regions
alloc_three = refl

alloc_three_list : (alloc 3 two_regions).1.free_list ≡ 16 ∷ 35 ∷ []
unfolding alloc two_regions
alloc_three_list = refl

-- Pages 18 to 31 join both regions.
free_between : Option.map (λ (s : Pmm). s.free_list) (free 18 14 two_regions) ≡ some (16 ∷ [])
unfolding free two_regions
free_between = refl

abbrev after_alloc : Pmm
unfolding alloc two_regions
after_alloc = (alloc 3 two_regions).1

alloc-cover_example :
    IsSound after_alloc
    × ((i : ℕ) → cover two_regions i ≡ in_run 32 3 i + cover after_alloc i)
    × (after_alloc.free_page_count + 3 ≡ two_regions.free_page_count)
unfolding alloc two_regions
alloc-cover_example =
    alloc-cover 3 two_regions after_alloc 32 two_regions-IsSound (omega arith) refl

alloc-first_example :
    (before : List ℕ) × (behind : List ℕ) × (two_regions.free_list ≡ before ++ 32 ∷ behind)
    × All (λ q. size two_regions.page q < 3) before
    × (3 ≤ size two_regions.page 32)
unfolding alloc two_regions
alloc-first_example = alloc-first 3 two_regions after_alloc 32 refl

abbrev after_free : Pmm
unfolding free two_regions
after_free = elim (free 18 14 two_regions) [ some s ↦ s | none ↦ two_regions ]

between_held : (i : ℕ) → in_run 18 14 i + cover two_regions i ≤ 1
unfolding two_regions in_run
between_held i = ground arith

free-cover_example :
    IsSound after_free × ((i : ℕ) → cover after_free i ≡ cover two_regions i + in_run 18 14 i)
unfolding free two_regions
free-cover_example =
    free-cover 18 14 two_regions after_free two_regions-IsSound (omega arith) (omega arith)
      between_held refl

abbrev after_both : Pmm
unfolding alloc free two_regions
after_both = elim (free 32 3 after_alloc) [ some s ↦ s | none ↦ two_regions ]

free-alloc_example : IsSound after_both × ((i : ℕ) → cover after_both i ≡ cover two_regions i)
unfolding alloc free two_regions
free-alloc_example =
    free-alloc 3 32 two_regions after_alloc after_both two_regions-IsSound (omega arith) refl refl

normalize_available_range_wraps_example :
    normalize_available_range (u64 - 16) 8 0x100000 ≡ some (0, u64 - 4096)
normalize_available_range_wraps_example =
    normalize_available_range_wraps (u64 - 16) 8 0x100000 (omega arith) (omega arith) (omega arith)
      (omega arith)

-- 9000 bytes take three pages.
abbrev after_kmalloc : Pmm
after_kmalloc = note_count 32 3 after_alloc

kfree-kmalloc_example :
    (p : ℕ) × (n : ℕ) × (0x20000 ≡ p * 4096)
    × (9000 ≤ n * 4096)
    × (n * 4096 < 9000 + 4096)
    × ((i : ℕ) → cover two_regions i ≡ in_run p n i + cover after_kmalloc i)
    × (((i : ℕ) → p ≤ i → i < p + n → (after_kmalloc.page i).ref_count ≡ 0)
        → (s'' : Pmm) × (kfree 0x20000 after_kmalloc ≡ some s'')
          × IsSound s''
          × ((i : ℕ) → cover s'' i ≡ cover two_regions i))
unfolding kmalloc alloc two_regions after_alloc
kfree-kmalloc_example =
    kfree-kmalloc 9000 0x20000 two_regions after_kmalloc two_regions-IsSound (omega arith)
      (omega arith) refl

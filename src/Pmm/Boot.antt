-- ===== src/Pmm/Boot.antt =====
-- kernel/mm/pmm.cpp: the regions of the boot memory map, and their release to the allocator by
-- init_memmap of pmm_firstfit.cpp.
use zonix_plus.Base.{
  All, All-In, All-append, All-of_In, Bool-cases, In, Option, [], ap, arith, if◌then◌else◌, inl,
  inr, leb, ltb, none, refl, some, suc, sum_of, sum_of-append, sum_of-ext, sum_of-le_self, update,
  zero, ℕ, ◌%◌, ◌++◌, ◌+◌, ◌-◌, ◌<◌, ◌==◌, ◌||◌, ◌∙◌, ◌∷◌, ◌≡◌, ◌≤◌, ◌⊎◌,
}
use zonix_plus.Rounding.{u64, round_down, round_up, round_down-page, round_up-page, round_up-wraps}
use zonix_plus.Pmm.{Page, Pmm, u32, blank, construct_pages, init_memmap}
use zonix_plus.Pmm.Runs.{size, in_run, covers, cover, IsSound, in_run_self, in_run-inside}

-- The part of a region from `min_pa` on, in whole pages, as [begin, limit); none for `false`.
unfoldable pub normalize_available_range : ℕ → ℕ → ℕ → Option (ℕ × ℕ)
normalize_available_range base_pa size_bytes min_pa =
    let limit = if ltb (base_pa + size_bytes) u64 then base_pa + size_bytes else u64 - 1 in
    let begin = if ltb base_pa min_pa then min_pa else base_pa in
    let begin' = round_up begin 4096 in
    let limit' = round_down limit 4096 in
    if size_bytes == 0
    then none
    else if leb limit begin
    then none
    else if leb limit' begin'
    then none
    else some (begin', limit')

-- Where neither the region nor `min_pa` begins in the last page of the address space, the range is
-- aligned to pages, not empty, and lies in the region and above `min_pa`.
pub normalize_available_range_bounds :
    (base_pa size_bytes min_pa begin limit : ℕ)
    → base_pa + 4095 < u64
    → min_pa + 4095 < u64
    → normalize_available_range base_pa size_bytes min_pa ≡ some (begin, limit)
    → (begin % 4096 ≡ 0)
      × (limit % 4096 ≡ 0)
      × (begin < limit)
      × (min_pa ≤ begin)
      × (base_pa ≤ begin)
      × (limit ≤ base_pa + size_bytes)
unfolding normalize_available_range
normalize_available_range_bounds base_pa size_bytes min_pa begin limit hb hm e = ground (
  arith,
  round_up-page base_pa hb,
  round_up-page min_pa hm,
  round_down-page (base_pa + size_bytes),
  round_down-page (u64 - 1),
)

-- A region that begins above the last page boundary and ends below the address limit is taken for
-- all memory from address 0, whatever `min_pa` it lies above.
pub normalize_available_range_wraps :
    (base_pa size_bytes min_pa : ℕ)
    → u64 ≤ base_pa + 4095
    → 0 < size_bytes
    → base_pa + size_bytes < u64
    → min_pa ≤ base_pa
    → normalize_available_range base_pa size_bytes min_pa ≡ some (0, u64 - 4096)
unfolding normalize_available_range
normalize_available_range_wraps base_pa size_bytes min_pa h k m n =
    let up = round_up-wraps base_pa h (omega arith) in
    let down : round_down (base_pa + size_bytes) 4096 ≡ u64 - 4096 =
      omega (arith, round_down-page (base_pa + size_bytes)) in
    ground (arith, up, down)

size-construct_pages :
    (base n : ℕ) (page : ℕ → Page) (q : ℕ)
    → (q < base) ⊎ (base + n ≤ q)
    → construct_pages base n page q ≡ page q
size-construct_pages base zero page q h = refl
size-construct_pages base (suc n) page q h =
    size-construct_pages (base + 1) n (update page base blank) q (omega (arith, h))
    ∙ ground (arith, h)

module _ (base n : ℕ) (s : Pmm) (sound : IsSound s) (pos : 0 < n)
    (room : s.free_page_count + n < u32) (held : (i : ℕ) → in_run base n i + cover s i ≤ 1) where
  outside : (q : ℕ) → In q s.free_list → (q < base) ⊎ (base + n ≤ q)
  outside q i = elim (Bool-cases (ltb q base || leb (base + n) q)) [
    | inl e ↦ ground arith
    | inr e ↦ absurd (
        omega (
          arith,
          held q,
          sum_of-le_self (covers s.page q) q s.free_list i,
          in_run_self q (size s.page q) (All-In _ s.free_list q sound.nonempty i),
          in_run-inside base n q (ground arith) (ground arith),
        ))
  ]

  size-init_memmap : (q : ℕ) → In q s.free_list → size (init_memmap base n s).page q ≡ size s.page q
  unfolding init_memmap
  size-init_memmap q i = ground (
    arith,
    outside q i,
    ap (λ (p : Page). p.block_page_count) (size-construct_pages base n s.page q (outside q i)),
  )

  size-base : size (init_memmap base n s).page base ≡ n
  unfolding init_memmap
  size-base = ground (arith, room)

  list-init_memmap : (init_memmap base n s).free_list ≡ s.free_list ++ base ∷ []
  unfolding init_memmap
  list-init_memmap = refl

  count-init_memmap : (init_memmap base n s).free_page_count ≡ s.free_page_count + n
  unfolding init_memmap
  count-init_memmap = ground (arith, room)

  module _ (g : ℕ → ℕ → ℕ) where
    sum-init_memmap :
        sum_of (λ q. g q (size (init_memmap base n s).page q)) (init_memmap base n s).free_list
        ≡ sum_of (λ q. g q (size s.page q)) s.free_list + g base n
    sum-init_memmap = rw list-init_memmap (
        omega (
          arith,
          sum_of-append (λ q. g q (size (init_memmap base n s).page q)) s.free_list (base ∷ []),
          sum_of-ext (λ q. g q (size s.page q)) (λ q. g q (size (init_memmap base n s).page q))
              s.free_list (λ q i. ap (g q) (size-init_memmap q i)),
          ap (g base) size-base,
        ))

  nonempty-init_memmap :
      All (λ q. 0 < size (init_memmap base n s).page q) (init_memmap base n s).free_list
  nonempty-init_memmap = rw list-init_memmap (
      All-append (λ q. 0 < size (init_memmap base n s).page q) s.free_list (base ∷ [])
        (All-of_In _ s.free_list
          λ q i. omega (arith, size-init_memmap q i, All-In _ s.free_list q sound.nonempty i))
        (omega (arith, size-base, pos), tt))

-- Adding a region of n > 0 pages, none of which is free, to a sound state whose count has room for
-- them leaves a sound state, whose free pages are those from before and the region's.
pub init_memmap-cover :
    (base n : ℕ) (s : Pmm)
    → IsSound s
    → 0 < n
    → s.free_page_count + n < u32
    → ((i : ℕ) → in_run base n i + cover s i ≤ 1)
    → IsSound (init_memmap base n s)
      × ((i : ℕ) → cover (init_memmap base n s) i ≡ cover s i + in_run base n i)
init_memmap-cover base n s sound pos room held =
    let covered : (i : ℕ) → cover (init_memmap base n s) i ≡ cover s i + in_run base n i =
      λ i. sum-init_memmap base n s sound pos room held (λ q z. in_run q z i) in
    (
      record {
        nonempty = nonempty-init_memmap base n s sound pos room held;
        disjoint = λ i. omega (arith, covered i, held i);
        counted = omega (
          arith,
          sum-init_memmap base n s sound pos room held (λ q z. z),
          count-init_memmap base n s sound pos room held,
          sound.counted,
        );
        bounded = omega (arith, count-init_memmap base n s sound pos room held, room);
      },
      covered,
    )

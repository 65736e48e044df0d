-- ===== src/Pmm/Free.antt =====
-- `free` gives the pages back to the free runs, whatever runs it merges.
use zonix_plus.Base.{
  All-append, Bool-cases, Distinct, NotIn, Option-cases, [], ap, arith, false, inl, inr, none, refl,
  some, suc, sum_of, sum_of-append, sum_of-eq, true, update, zero, ℕ, ◌%◌, ◌++◌, ◌+◌, ◌<◌, ◌==◌,
  ◌↔◌, ◌∷◌, ◌≡◌, ◌≢◌, ◌≤◌,
}
use zonix_plus.Pmm.{Page, Pmm, Merge, u32, reset_pages, merge, alloc, free}
use zonix_plus.Pmm.Runs.{
  size, in_run, cover, IsSound, in_run_self, in_run-add, NotIn-of_cover, Distinct-of_cover,
}
use zonix_plus.Pmm.Coalesce.{sizes, NonEmpty, merge-sum, merge-nonempty, All-same}
use zonix_plus.Pmm.Alloc.{alloc-cover}

size-reset_pages :
    (base n : ℕ) (page page' : ℕ → Page)
    → reset_pages base n page ≡ some page'
    → (q : ℕ) → size page' q ≡ size page q
unfolding reset_pages
size-reset_pages base zero page page' h q = ground arith
size-reset_pages base (suc n) page page' h q =
    let cleared : Page = record (page base) {
      ref_count = 0;
      reserved = false;
      page_table = false;
    } in
    let step = size-reset_pages (base + 1) n (update page base cleared) page' (ground arith) q in
    ground (arith, step)

-- The state of the loop when `free` enters it.
abbrev entering : ℕ → ℕ → (ℕ → Page) → Merge
entering base n page = record {
  page = update page base (record (page base) { block_page_count = n % u32; reserved = true });
  base = base;
}

free-some :
    (base n : ℕ) (s s' : Pmm)
    → free base n s ≡ some s'
    → (page : ℕ → Page) × (reset_pages base n s.page ≡ some page)
      × (s'.page ≡ (merge (entering base n page) s.free_list).0.page)
      × (s'.free_list
          ≡ (merge (entering base n page) s.free_list).1
            ++ (merge (entering base n page) s.free_list).0.base ∷ [])
      × (s'.free_page_count ≡ (s.free_page_count + n) % u32)
unfolding free
free-some base n s s' h = elim (Option-cases (reset_pages base n s.page)) [
  | inl e ↦ absurd (ground arith)
  | inr (page, e) ↦ (page, e, ground arith, ground arith, ground arith)
]

module _ (base n : ℕ) (s s' : Pmm) (sound : IsSound s) (pos : 0 < n)
    (room : s.free_page_count + n < u32) (held : (i : ℕ) → in_run base n i + cover s i ≤ 1)
    (freed : free base n s ≡ some s') where
  base-NotIn : NotIn base s.free_list
  base-NotIn =
      NotIn-of_cover s.page base s.free_list sound.nonempty
        (omega (arith, held base, in_run_self base n pos))

  start-Distinct : Distinct (base ∷ s.free_list)
  start-Distinct = (base-NotIn, Distinct-of_cover s.page s.free_list sound.nonempty sound.disjoint)

  module _ (page : ℕ → Page) (reset : (q : ℕ) → size page q ≡ size s.page q) where
    abbrev m : Merge
    m = entering base n page

    start-same : (q : ℕ) → base ≢ q → sizes m q ≡ size s.page q
    start-same q ne = ground (arith, reset q)

    start-base : sizes m base ≡ n
    start-base = ground (arith, room)

    loop-bound : sum_of (sizes m) s.free_list + sizes m base < u32
    loop-bound = omega (
      arith,
      sum_of-eq (size s.page) (sizes m) base s.free_list base-NotIn start-same,
      start-base,
      sound.counted,
      room,
    )

    loop-NonEmpty : NonEmpty (merge m s.free_list)
    loop-NonEmpty = merge-nonempty m base s.free_list refl start-Distinct loop-bound (
      omega (arith, start-base, pos),
      All-same (size s.page) (sizes m) base s.free_list base-NotIn start-same sound.nonempty,
    )

    module _ (g : ℕ → ℕ → ℕ) (additive : (p i j : ℕ) → g p (i + j) ≡ g p i + g (p + i) j) where
      loop-sum :
          sum_of
            (λ q. g q (sizes (merge m s.free_list).0 q))
            ((merge m s.free_list).1 ++ (merge m s.free_list).0.base ∷ [])
          ≡ sum_of (λ q. g q (size s.page q)) s.free_list + g base n
      loop-sum = omega (
        arith,
        sum_of-append (λ q. g q (sizes (merge m s.free_list).0 q)) (merge m s.free_list).1
            ((merge m s.free_list).0.base ∷ []),
        merge-sum g additive m base s.free_list refl start-Distinct loop-bound,
        sum_of-eq (λ q. g q (size s.page q)) (λ q. g q (sizes m q)) base s.free_list base-NotIn
            (λ q ne. ap (g q) (start-same q ne)),
        ap (g base) start-base,
      )

  cover-free : (i : ℕ) → cover s' i ≡ cover s i + in_run base n i
  cover-free i =
      let (page, r, p, l, c) = free-some base n s s' freed in
      let loop =
        loop-sum page (size-reset_pages base n s.page page r) (λ q z. in_run q z i)
          (λ q j k. in_run-add q j k i) in
      rw (p, l) loop

  free-IsSound : IsSound s'
  free-IsSound =
      let (page, r, p, l, c) = free-some base n s s' freed in
      let reset = size-reset_pages base n s.page page r in
      let total = loop-sum page reset (λ q z. z) (λ q j k. refl) in
      let filled = loop-NonEmpty page reset in
      record {
        nonempty =
            rw (p, l)
              (All-append (λ q. 0 < sizes (merge (entering base n page) s.free_list).0 q) _ _
                filled.1 (filled.0, tt));
        disjoint = λ i. omega (arith, cover-free i, held i);
        counted = rw (p, l) (omega (arith, total, c, sound.counted, room));
        bounded = omega (arith, c, room);
      }

-- Freeing n > 0 pages of which none is free, from a sound state whose count has room for them,
-- leaves a sound state whose free pages are those from before and the n pages from `base`.
pub free-cover :
    (base n : ℕ) (s s' : Pmm)
    → IsSound s
    → 0 < n
    → s.free_page_count + n < u32
    → ((i : ℕ) → in_run base n i + cover s i ≤ 1)
    → free base n s ≡ some s'
    → IsSound s' × ((i : ℕ) → cover s' i ≡ cover s i + in_run base n i)
free-cover base n s s' sound pos room held freed = (
  free-IsSound base n s s' sound pos room held freed,
  cover-free base n s s' sound pos room held freed,
)

reset_pages-some :
    (base n : ℕ) (page : ℕ → Page)
    → ((i : ℕ) → base ≤ i → i < base + n → (page i).ref_count ≡ 0)
    → (page' : ℕ → Page) × (reset_pages base n page ≡ some page')
unfolding reset_pages
reset_pages-some base zero page h = (page, refl)
reset_pages-some base (suc n) page h =
    let cleared : Page = record (page base) {
      ref_count = 0;
      reserved = false;
      page_table = false;
    } in
    let (page', e) =
      reset_pages-some (base + 1) n (update page base cleared)
        (λ i lo hi. ground (arith, h i (omega arith) (omega arith))) in
    (page', ground (arith, h base (omega arith) (omega arith)))

reset_pages-zero :
    (base n : ℕ) (page page' : ℕ → Page)
    → reset_pages base n page ≡ some page'
    → (i : ℕ) → base ≤ i
    → i < base + n
    → (page i).ref_count ≡ 0
unfolding reset_pages
reset_pages-zero base zero page page' h i lo hi = absurd (omega arith)
reset_pages-zero base (suc n) page page' h i lo hi =
    let cleared : Page = record (page base) {
      ref_count = 0;
      reserved = false;
      page_table = false;
    } in
    elim (Bool-cases (base == i)) [
      | inl e ↦ ground arith
      | inr e ↦
          let rest =
            reset_pages-zero (base + 1) n (update page base cleared) page' (ground arith) i
              (ground arith) (omega arith) in
          ground (arith, rest)
    ]

-- `free` returns, with no assertion failed, exactly when no page of the range is referenced.
pub free-total :
    (base n : ℕ) (s : Pmm)
    → (free base n s ≢ none) ↔ ((i : ℕ) → base ≤ i → i < base + n → (s.page i).ref_count ≡ 0)
unfolding free
free-total base n s = (
  λ h. elim (Option-cases (reset_pages base n s.page)) [
    | inl e ↦ absurd (h (ground arith))
    | inr (page, e) ↦ reset_pages-zero base n s.page page e
  ],
  λ z. let (page, e) = reset_pages-some base n s.page z in ground arith,
)

-- Allocating n > 0 pages and freeing them again leaves every page as free as it was.
pub free-alloc :
    (n p : ℕ) (s s' s'' : Pmm)
    → IsSound s
    → 0 < n
    → alloc n s ≡ (some p, s')
    → free p n s' ≡ some s''
    → IsSound s'' × ((i : ℕ) → cover s'' i ≡ cover s i)
free-alloc n p s s' s'' sound pos h k =
    let (sound', taken, count) = alloc-cover n s s' p sound pos h in
    let room : s'.free_page_count + n < u32 = omega (arith, count, sound.bounded) in
    let held : (i : ℕ) → in_run p n i + cover s' i ≤ 1 =
      λ i. omega (arith, taken i, sound.disjoint i) in
    let (sound'', given) = free-cover p n s' s'' sound' pos room held k in
    (sound'', λ i. omega (arith, taken i, given i))

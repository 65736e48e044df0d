-- ===== src/Pmm/Heap.antt =====
-- kernel/mm/pmm.cpp: kmalloc and kfree, which hand out runs of pages and note their length in the
-- first descriptor. A pointer is a physical address.
use zonix_plus.Base.{
  All-In, All-of_In, NotIn, NotIn-In, Option, Option-cases, ap, arith, if◌then◌else◌, inl, inr, ltb,
  lt→ltb, none, refl, some, sum_of, sum_of-eq, sym, update, ℕ, ◌%◌, ◌*◌, ◌+◌, ◌-◌, ◌/◌, ◌<◌, ◌==◌,
  ◌∙◌, ◌≡◌, ◌≢◌, ◌≤◌,
}
use zonix_plus.Pmm.{Pmm, alloc, free, u32}
use zonix_plus.Pmm.Alloc.{alloc-cover}
use zonix_plus.Pmm.Free.{free-cover, free-total}
use zonix_plus.Pmm.Runs.{NotIn-of_cover, cover, in_run, in_run_self, IsSound, size}
use zonix_plus.Rounding.{u64}

abbrev pg_bytes : ℕ
pg_bytes = 4096

-- (byte_count + PG_SIZE - 1) / PG_SIZE
unfoldable pub pages_for : ℕ → ℕ
pages_for byte_count = (byte_count + (pg_bytes - 1)) % u64 / pg_bytes

-- page->block_page_count = page_count
abbrev pub note_count : ℕ → ℕ → Pmm → Pmm
note_count p count s = record s {
  page = update s.page p (record (s.page p) { block_page_count = count });
}

-- kmalloc; the address 0 is none.
unfoldable pub kmalloc : ℕ → Pmm → Option ℕ × Pmm
unfolding pages_for
kmalloc byte_count s =
    if byte_count == 0
    then (none, s)
    else (let (page, s') = alloc (pages_for byte_count) s in
        elim page [
          | none ↦ (none, s')
          | some p ↦ (some (p * pg_bytes), note_count p (pages_for byte_count % u32) s')
        ])

-- kfree, of an address that is not 0
unfoldable pub kfree : ℕ → Pmm → Option Pmm
kfree pa s =
    let p = pa / pg_bytes in
    let count = (s.page p).block_page_count in free p (if ltb 0 count then count else 1) s

-- The first page of a run that is in use heads no free run, so its length may be noted there.
module _ (s : Pmm) (sound : IsSound s) (p count : ℕ) (used : cover s p ≡ 0) where
  p-NotIn : NotIn p s.free_list
  p-NotIn = NotIn-of_cover s.page p s.free_list sound.nonempty used

  sum-note_count :
      (m : ℕ → ℕ → ℕ)
      → sum_of (λ q. m q (size (note_count p count s).page q)) s.free_list
        ≡ sum_of (λ q. m q (size s.page q)) s.free_list
  sum-note_count m = sum_of-eq _ _ p s.free_list p-NotIn λ q ne. ap (m q) (ground (arith, ne))

  note_count-IsSound : IsSound (note_count p count s)
  note_count-IsSound = record {
    nonempty = All-of_In _ s.free_list λ q i.
        let other : p ≢ q = λ e. NotIn-In p s.free_list p-NotIn (rw e i) in
        ground (arith, other, All-In _ s.free_list q sound.nonempty i);
    disjoint = λ i. rw (sum-note_count (λ q z. in_run q z i)) (sound.disjoint i);
    counted = sound.counted ∙ sym (sum-note_count (λ q z. z));
    bounded = sound.bounded;
  }

kmalloc-some :
    (byte_count pa : ℕ) (s s' : Pmm)
    → kmalloc byte_count s ≡ (some pa, s')
    → (p : ℕ) × (s₁ : Pmm) × (alloc (pages_for byte_count) s ≡ (some p, s₁))
      × (pa ≡ p * 4096)
      × (s' ≡ note_count p (pages_for byte_count % u32) s₁)
unfolding kmalloc
kmalloc-some byte_count pa s s' h = elim (Option-cases (alloc (pages_for byte_count) s).0) [
  | inl e ↦ absurd (ground (arith, h, e))
  | inr (p, e) ↦ (
    p,
    (alloc (pages_for byte_count) s).1,
    λ i. (e i, (alloc (pages_for byte_count) s).1),
    ground (arith, h, e),
    ground (arith, h, e),
  )
]

kfree-page : (p n : ℕ) (s : Pmm) → size s.page p ≡ n → 0 < n → kfree (p * 4096) s ≡ free p n s
unfolding kfree
kfree-page p n s h pos =
    let at : p * 4096 / 4096 ≡ p = omega arith in rw (at, h, lt→ltb 0 n pos) refl

-- For a number of bytes above 0 that leaves room for the rounding, kmalloc takes pages that hold the
-- bytes out of the free pages, fewer than a page too many; and kfree, while no page of the block is
-- referenced, returns with every page as free as it was before the kmalloc.
pub kfree-kmalloc :
    (byte_count pa : ℕ) (s s' : Pmm)
    → IsSound s
    → 0 < byte_count
    → byte_count + 4096 ≤ u64
    → kmalloc byte_count s ≡ (some pa, s')
    → (p : ℕ) × (n : ℕ) × (pa ≡ p * 4096)
      × (byte_count ≤ n * 4096)
      × (n * 4096 < byte_count + 4096)
      × ((i : ℕ) → cover s i ≡ in_run p n i + cover s' i)
      × (((i : ℕ) → p ≤ i → i < p + n → (s'.page i).ref_count ≡ 0)
          → (s'' : Pmm) × (kfree pa s' ≡ some s'')
            × IsSound s''
            × ((i : ℕ) → cover s'' i ≡ cover s i))
unfolding pages_for
kfree-kmalloc byte_count pa s s' sound pos room h =
    let n = pages_for byte_count in
    let some_pages : 0 < n = omega (arith, pos, room) in
    let (p, s₁, taken, at, noted) = kmalloc-some byte_count pa s s' h in
    let (sound₁, covers₁, count) = alloc-cover n s s₁ p sound some_pages taken in
    let small : n % u32 ≡ n = omega (arith, count, sound.bounded) in
    let used : cover s₁ p ≡ 0 =
      omega (arith, covers₁ p, in_run_self p n some_pages, sound.disjoint p) in
    let left = note_count p n s₁ in
    let is_left : s' ≡ left = noted ∙ ap (λ c. note_count p c s₁) small in
    let sound' = note_count-IsSound s₁ sound₁ p n used in
    let same : (i : ℕ) → cover left i ≡ cover s₁ i =
      λ i. sum-note_count s₁ sound₁ p n used (λ q z. in_run q z i) in
    (
      p,
      n,
      at,
      omega (arith, room),
      omega (arith, room),
      λ i. rw is_left (omega (arith, covers₁ i, same i)),
      λ idle. elim (Option-cases (free p n left)) [
        | inl e ↦ absurd (
            (free-total p n left).1
              (λ i a b. ap (λ z. (z.page i).ref_count) (sym is_left) ∙ idle i a b) e)
        | inr (s'', e) ↦
            let (sound'', given) =
              free-cover p n left s'' sound' some_pages (omega (arith, count, sound.bounded))
                (λ i. omega (arith, same i, covers₁ i, sound.disjoint i)) e in
            (
              s'',
              rw (is_left, at) (kfree-page p n left (ground arith) some_pages ∙ e),
              sound'',
              λ i. omega (arith, given i, same i, covers₁ i),
            )
      ],
    )

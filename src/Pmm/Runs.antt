-- ===== src/Pmm/Runs.antt =====
-- The abstract view of the allocator: how many free runs cover each page.
use zonix_plus.Base.{
  All, All-In, Distinct, List, NotIn, NotIn-of_not, [], arith, if◌then◌else◌, leb, ltb, sum_of,
  sum_of-le_self, ℕ, ◌&&◌, ◌+◌, ◌-◌, ◌<◌, ◌∷◌, ◌≡◌, ◌≤◌,
}
use zonix_plus.Pmm.{Page, Pmm, u32}

abbrev pub size : (ℕ → Page) → ℕ → ℕ
size page p = (page p).block_page_count

-- 1 if page `i` is one of the `n` pages from `base`.
unfoldable pub in_run : ℕ → ℕ → ℕ → ℕ
in_run base n i = if leb base i && ltb i (base + n) then 1 else 0

abbrev pub covers : (ℕ → Page) → ℕ → ℕ → ℕ
covers page i p = in_run p (size page p) i

-- The number of free runs that hold page `i`.
abbrev pub cover : Pmm → ℕ → ℕ
cover s i = sum_of (covers s.page i) s.free_list

-- The free runs are not empty, no page is in two of them, and the counter is their total.
pub record IsSound (s : Pmm) : Type 0 where
  pub nonempty : All (λ p. 0 < size s.page p) s.free_list
  pub disjoint : (i : ℕ) → cover s i ≤ 1
  pub counted : s.free_page_count ≡ sum_of (size s.page) s.free_list
  pub bounded : s.free_page_count < u32

pub in_run_self : (p n : ℕ) → 0 < n → in_run p n p ≡ 1
unfolding in_run
in_run_self p n h = ground arith

pub in_run-inside : (p n i : ℕ) → p ≤ i → i < p + n → in_run p n i ≡ 1
unfolding in_run
in_run-inside p n i h k = ground arith

pub in_run-le : (p n i : ℕ) → in_run p n i ≤ 1
unfolding in_run
in_run-le p n i = ground arith

-- A run is its first pages and the rest.
pub in_run-add : (p m n i : ℕ) → in_run p (m + n) i ≡ in_run p m i + in_run (p + m) n i
unfolding in_run
in_run-add p m n i = ground arith

pub in_run-split :
    (p n z i : ℕ)
    → n ≤ z
    → in_run p z i ≡ in_run p n i + (if ltb n z then in_run (p + n) (z - n) i else 0)
unfolding in_run
in_run-split p n z i h = ground arith

-- A page that no run covers heads no run.
pub NotIn-of_cover :
    (page : ℕ → Page) (a : ℕ) (xs : List ℕ)
    → All (λ p. 0 < size page p) xs
    → sum_of (covers page a) xs ≡ 0
    → NotIn a xs
NotIn-of_cover page a xs pos h = NotIn-of_not a xs λ i. absurd (
    omega (
      arith,
      sum_of-le_self (covers page a) a xs i,
      in_run_self a (size page a) (All-In _ xs a pos i),
    ))

-- Runs that do not overlap have distinct heads.
pub Distinct-of_cover :
    (page : ℕ → Page) (xs : List ℕ)
    → All (λ p. 0 < size page p) xs
    → ((i : ℕ) → sum_of (covers page i) xs ≤ 1)
    → Distinct xs
Distinct-of_cover page [] pos h = tt
Distinct-of_cover page (x ∷ xs) pos h = (
  NotIn-of_cover page x xs pos.1 (omega (arith, h x, in_run_self x (size page x) pos.0)),
  Distinct-of_cover page xs pos.1 (λ i. omega (arith, h i)),
)

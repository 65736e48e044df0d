-- ===== src/Vmm/Range.antt =====
-- A range is valid if every byte of it is.
use zonix_plus.Base.{
  Bool, Bool-cases, ap, arith, false, inl, inr, leb, ltb, ltb→lt, refl, some, suc, sym, true, zero,
  ℕ, ◌%◌, ◌+◌, ◌-◌, ◌/◌, ◌<◌, ◌||◌, ◌↔◌, ◌∙◌, ◌≡◌, ◌≤◌,
}
use zonix_plus.Vmm.{check_pages, chunk_bytes, pg_size, user_range_valid}

chunk_bytes_bounds :
    (va n : ℕ)
    → (0 < chunk_bytes va (suc n))
      × (chunk_bytes va (suc n) ≤ suc n)
      × (chunk_bytes va (suc n) ≤ pg_size - va % pg_size)
unfolding chunk_bytes
chunk_bytes_bounds va n = (ground arith, ground arith, ground arith)

same_page : (va k : ℕ) → k < pg_size - va % pg_size → (va + k) / pg_size ≡ va / pg_size
same_page va k h = omega arith

-- All addresses of a page are open to the user alike.
abbrev pub IsPaged : (ℕ → Bool → Bool) → Type 0
IsPaged user_address =
    (a b : ℕ) (write : Bool)
    → a / pg_size ≡ b / pg_size
    → user_address a write ≡ user_address b write

module _ (user_address : ℕ → Bool → Bool) (paged : IsPaged user_address) (write : Bool) where
  abbrev Open : ℕ → ℕ → Type 0
  Open va n = (k : ℕ) → k < n → user_address (va + k) write ≡ true

  chunk-Open :
      (va c n : ℕ)
      → user_address va write ≡ true
      → c ≤ pg_size - va % pg_size
      → Open (va + c) (n - c)
      → Open va n
  chunk-Open va c n e page rest k h = elim (Bool-cases (ltb k c)) [
    | inl f ↦ paged (va + k) va write (same_page va k (omega (arith, ltb→lt k c f, page))) ∙ e
    | inr f ↦
        let g : c ≤ k = ground (arith, f) in
        let at : va + k ≡ va + c + (k - c) = omega arith in
        ap (λ a. user_address a write) at ∙ rest (k - c) (omega arith)
  ]

  check_pages-step :
      (fuel va n : ℕ)
      → user_address va write ≡ true
      → check_pages user_address (suc fuel) va (suc n) write
        ≡ check_pages user_address fuel
            (va + chunk_bytes va (suc n))
            (suc n - chunk_bytes va (suc n))
            write
  unfolding check_pages
  check_pages-step fuel va n e = rw (e, check_pages) refl

  check_pages-stop :
      (fuel va n : ℕ)
      → user_address va write ≡ false
      → check_pages user_address (suc fuel) va (suc n) write ≡ some false
  unfolding check_pages
  check_pages-stop fuel va n e = rw (e, check_pages) refl

  check_pages-Open :
      (fuel va n : ℕ)
      → n ≤ fuel
      → (b : Bool) × (check_pages user_address fuel va n write ≡ some b) × ((b ≡ true) ↔ Open va n)
  unfolding check_pages
  check_pages-Open fuel va zero l = (true, refl, ((λ t k h. absurd (omega arith)), λ o. refl))
  check_pages-Open zero va (suc n) l = absurd (omega arith)
  check_pages-Open (suc fuel) va (suc n) l =
      let c = chunk_bytes va (suc n) in
      let (pos, le, page) = chunk_bytes_bounds va n in
      elim (Bool-cases (user_address va write)) [
        | inr e ↦ (
          false,
          check_pages-stop fuel va n e,
          (
            (λ t. absurd cc),
            λ o. sym (sym (o 0 (omega arith)) ∙ ap (λ a. user_address a write) (omega arith) ∙ e),
          ),
        )
        | inl e ↦
            let (b, r, (to, from)) = check_pages-Open fuel (va + c) (suc n - c) (omega arith) in
            (
              b,
              check_pages-step fuel va n e ∙ r,
              (
                (λ t k h. chunk-Open va c (suc n) e page (to t) k h),
                λ o.
                    from (λ k h.
                      ap (λ a. user_address a write) (omega arith) ∙ o (c + k) (omega arith)),
              ),
            )
      ]

-- The check of a range answers, with a round for each byte at most, and it answers yes exactly if the
-- range lies in the user's address space behind the first page, and every byte of it is open.
pub user_range_valid-Open :
    (user_address : ℕ → Bool → Bool) (fuel top va n : ℕ) (write : Bool)
    → IsPaged user_address
    → n ≤ fuel
    → (b : Bool) × (user_range_valid user_address fuel top va n write ≡ some b)
      × ((b ≡ true) ↔ (
          (pg_size ≤ va)
          × (va < top)
          × (va + n ≤ top)
          × ((k : ℕ) → k < n → user_address (va + k) write ≡ true)))
unfolding user_range_valid
user_range_valid-Open user_address fuel top va n write paged l =
    elim (Bool-cases (ltb va pg_size || leb top va || ltb (top - va) n)) [
      | inl e ↦ (
        false,
        rw (e, user_range_valid) refl,
        ((λ t. absurd cc), λ o. absurd (ground (arith, e, o.0, o.1, o.2))),
      )
      | inr e ↦
          let (b, r, (to, from)) = check_pages-Open user_address paged write fuel va n l in
          (
            b,
            rw (e, user_range_valid) r,
            ((λ t. (ground (arith, e), ground (arith, e), ground (arith, e), to t)), λ o. from o.3),
          )
    ]

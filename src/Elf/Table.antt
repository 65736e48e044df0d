-- ===== src/Elf/Table.antt =====
-- kernel/exec/elf_loader.cpp: the loop of validate over the table of program headers.
use zonix_plus.Base.{
  Bool, Error, Result-cases, ap, arith, err, false, inl, inr, invalid, ok, refl, suc, sym, true,
  zero, ℕ, ℕ_discrete, ◌*◌, ◌+◌, ◌<◌, ◌||◌, ◌∙◌, ◌≡◌, ◌≤◌, ◌⊎◌,
}
use zonix_plus.Elf.{
  Layout, ProgramHeader, check_segment, check_segments, elf_header, elf_pt_load, program_header,
  program_header_size,
}
use zonix_plus.Elf.Segments.{
  Fits, Enters, check_segment-Fits, check_segment-Enters, Fits-check_segment, Enters-check_segment,
}

module _ (l : Layout) (bytes : ℕ → ℕ) (size : ℕ) where
  -- The program header number `k`.
  abbrev pub header : ℕ → ProgramHeader
  header k = program_header bytes ((elf_header bytes).e_phoff + k * program_header_size)

  abbrev pub entry : ℕ
  entry = (elf_header bytes).e_entry

  abbrev pub FitFrom : ℕ → ℕ → Type 0
  FitFrom i n =
      (k : ℕ) → i ≤ k → k < i + n → (header k).p_type ≡ elf_pt_load → Fits l size (header k)

  abbrev pub EntersFrom : ℕ → ℕ → Type 0
  EntersFrom i n = (k : ℕ) × (i ≤ k) × (k < i + n) × Enters entry (header k)

  check_segments-ok :
      (n i : ℕ) (b f : Bool)
      → check_segment l entry size (header i) ≡ ok f
      → check_segments l bytes size (suc n) i b ≡ check_segments l bytes size n (i + 1) (b || f)
  unfolding check_segments
  check_segments-ok n i b f e = rw (e, check_segments) refl

  check_segments-err :
      (n i : ℕ) (b : Bool) (er : Error)
      → check_segment l entry size (header i) ≡ err er
      → check_segments l bytes size (suc n) i b ≡ err er
  unfolding check_segments
  check_segments-err n i b er e = rw (e, check_segments) refl

  -- A property of the header `i` and of those behind it, as one of those from `i` on.
  extend :
      {P : ℕ → Type 0} (i n : ℕ)
      → P i
      → ((k : ℕ) → i + 1 ≤ k → k < i + 1 + n → P k)
      → (k : ℕ) → i ≤ k
      → k < i + suc n
      → P k
  extend i n p rest k a b = elim (ℕ_discrete i k) [
    | yes e ↦ rw (sym e) p
    | no m ↦ rest k (omega arith) (omega arith)
  ]

  sooner : (i n : ℕ) → EntersFrom (i + 1) n → EntersFrom i (suc n)
  sooner i n (k, p, q, e) = (k, omega arith, omega arith, e)

  or-cases : (b f : Bool) → (b || f) ≡ true → (b ≡ true) ⊎ (f ≡ true)
  or-cases true f h = inl refl
  or-cases false f h = inr h

  or_left : (b f : Bool) → b ≡ true → (b || f) ≡ true
  or_left true f h = refl
  or_left false f h = absurd cc

  or_right : (b f : Bool) → f ≡ true → (b || f) ≡ true
  or_right true f h = refl
  or_right false f h = h

  pub check_segments-FitFrom :
      (n i : ℕ) (b c : Bool)
      → check_segments l bytes size n i b ≡ ok c
      → FitFrom i n × (c ≡ true → (b ≡ true) ⊎ EntersFrom i n)
  unfolding check_segments
  check_segments-FitFrom zero i b c h =
      let same : b ≡ c = cc in ((λ k p q. absurd (omega arith)), λ t. inl (same ∙ t))
  check_segments-FitFrom (suc n) i b c h =
      elim (Result-cases (check_segment l entry size (header i))) [
        | inr (er, e) ↦ let bad = sym h ∙ check_segments-err n i b er e in absurd cc
        | inl (f, e) ↦
            let (fits, found) =
              check_segments-FitFrom n (i + 1) (b || f) c (sym (check_segments-ok n i b f e) ∙ h) in
            (
              extend {P = λ k. (header k).p_type ≡ elf_pt_load → Fits l size (header k)} i n
                  (check_segment-Fits l entry size (header i) f e) fits,
              λ t. elim (found t) [
                | inr later ↦ inr (sooner i n later)
                | inl o ↦ elim (or-cases b f o) [
                  | inl p ↦ inl p
                  | inr p ↦ inr (
                    i,
                    omega arith,
                    omega arith,
                    check_segment-Enters l entry size (header i) (e ∙ ap ok p),
                  )
                ]
              ],
            )
      ]

  pub FitFrom-check_segments :
      (n i : ℕ) (b : Bool)
      → FitFrom i n
      → (c : Bool) × (check_segments l bytes size n i b ≡ ok c)
        × ((b ≡ true) ⊎ EntersFrom i n → c ≡ true)
  unfolding check_segments
  FitFrom-check_segments zero i b f =
      (b, refl, λ t. elim t [ inl p ↦ p | inr (k, p, q, e) ↦ absurd (omega arith) ])
  FitFrom-check_segments (suc n) i b fits =
      let (f, e) =
        Fits-check_segment l entry size (header i) (fits i (omega arith) (omega arith)) in
      let (c, r, found) =
        FitFrom-check_segments n (i + 1) (b || f) (λ k p q. fits k (omega arith) (omega arith)) in
      (
        c,
        check_segments-ok n i b f e ∙ r,
        λ t. elim t [
          | inl p ↦ found (inl (or_left b f p))
          | inr (k, p, q, n) ↦ elim (ℕ_discrete i k) [
            | yes s ↦
                let here : Enters entry (header i) = rw s n in
                found (inl (or_right b f (Enters-check_segment l entry size (header i) f here e)))
            | no s ↦ found (inr (k, omega arith, omega arith, n))
          ]
        ],
      )

  check_segment-err :
      (ph : ProgramHeader) (e : Error) → check_segment l entry size ph ≡ err e → e ≡ invalid
  unfolding check_segment
  check_segment-err ph e h = ground (arith, h)

  pub check_segments-invalid :
      (n i : ℕ) (b : Bool) (e : Error) → check_segments l bytes size n i b ≡ err e → e ≡ invalid
  unfolding check_segments
  check_segments-invalid zero i b e h = absurd cc
  check_segments-invalid (suc n) i b e h =
      elim (Result-cases (check_segment l entry size (header i))) [
        | inl (f, p) ↦
            check_segments-invalid n (i + 1) (b || f) e (sym (check_segments-ok n i b f p) ∙ h)
        | inr (er, p) ↦
            let same = sym (check_segments-err n i b er p) ∙ h in
            let q : er ≡ e = cc in sym q ∙ check_segment-err (header i) er p
      ]

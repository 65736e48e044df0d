-- ===== src/Files/Open.antt =====
-- Opening: the descriptor that alloc chooses.
use mathlib.Core.Path.{subst}
use zonix_plus.Base.{
  ==_refl, Bool-cases, Result, [], ap, arith, err, false, full, inl, inr, none, ok, refl, some, suc,
  sym, true, zero, ℕ, ℕ_discrete, ◌++◌, ◌+◌, ◌<◌, ◌∙◌, ◌∷◌, ◌≡◌, ◌≢◌, ◌⊎◌,
}
use zonix_plus.Files.{Table, max_fd, set_entry, alloc_from, alloc, drop}

module _ {F : Type 0} where
  -- An unused entry holds no file, and a used one does.
  pub record IsSound (t : Table F) : Type 0 where
    pub unused : (i : ℕ) → (t.entries i).used ≡ false → (t.entries i).file ≡ none
    pub in_use : (i : ℕ) → (t.entries i).used ≡ true → (f : F) × ((t.entries i).file ≡ some f)

  -- The file was put under the lowest free descriptor `i`, at offset 0, and nothing was closed.
  pub record IsOpened (f : F) (i : ℕ) (t t' : Table F) : Type 0 where
    pub in_range : i < max_fd
    pub was_free : (t.entries i).used ≡ false
    pub lowest : (j : ℕ) → j < i → (t.entries j).used ≡ true
    pub opened : t'.entries i ≡ record { file = some f; offset = 0; used = true }
    pub others : (j : ℕ) → j ≢ i → t'.entries j ≡ t.entries j
    pub none_closed : t'.closed ≡ t.closed

  none_left : (i : ℕ) (f : F) (t : Table F) → (alloc_from i 0 f t).0 ≡ err full
  unfolding alloc_from
  none_left i f t = refl

  failed : (i : ℕ) (f : F) (t : Table F) (fd : ℕ) → (alloc_from i 0 f t).0 ≡ ok fd → ⊥
  failed i f t fd o = let e = none_left i f t in cc

  used-next :
      (i n : ℕ) (f : F) (t : Table F)
      → (t.entries i).used ≡ true
      → alloc_from i (suc n) f t ≡ alloc_from (i + 1) n f t
  unfolding alloc_from
  used-next i n f t u = rw u refl

  free-next :
      (i n : ℕ) (f : F) (t : Table F)
      → (t.entries i).used ≡ false
      → alloc_from i (suc n) f t ≡ (ok i, set_entry i f 0 true t)
  unfolding alloc_from
  free-next i n f t u = rw u refl

  all-below :
      (i : ℕ) (t : Table F)
      → ((j : ℕ) → j < i → (t.entries j).used ≡ true)
      → (t.entries i).used ≡ true
      → (j : ℕ) → j < i + 1
      → (t.entries j).used ≡ true
  all-below i t h u j k = elim (ℕ_discrete j i) [ yes e ↦ rw e u | no n ↦ h j (omega arith) ]

  set_entry-IsOpened :
      (i : ℕ) (f : F) (t : Table F)
      → IsSound t
      → i < max_fd
      → (t.entries i).used ≡ false
      → ((j : ℕ) → j < i → (t.entries j).used ≡ true)
      → IsOpened f i t (set_entry i f 0 true t)
  unfolding set_entry drop
  set_entry-IsOpened i f t s b u h = record {
    in_range = b;
    was_free = u;
    lowest = h;
    opened = rw (==_refl i) refl;
    others = λ j n. ground arith;
    none_closed = rw (s.unused i u) refl;
  }

  alloc_from-IsOpened :
      (i n : ℕ) (f : F) (t : Table F) (fd : ℕ)
      → IsSound t
      → i + n ≡ max_fd
      → ((j : ℕ) → j < i → (t.entries j).used ≡ true)
      → (alloc_from i n f t).0 ≡ ok fd
      → IsOpened f fd t (alloc_from i n f t).1
  alloc_from-IsOpened i zero f t fd s e h o = absurd (failed i f t fd o)
  alloc_from-IsOpened i (suc n) f t fd s e h o = elim (Bool-cases (t.entries i).used) [
    | inl u ↦
        let later = ap (λ (x : Result ℕ × Table F). x.0) (sym (used-next i n f t u)) ∙ o in
        rw (used-next i n f t u)
          (alloc_from-IsOpened (i + 1) n f t fd s (omega arith) (all-below i t h u) later)
    | inr u ↦
        let same : i ≡ fd =
          let r = ap (λ (x : Result ℕ × Table F). x.0) (sym (free-next i n f t u)) ∙ o in cc in
        rw (free-next i n f t u) (
          subst (λ (x : ℕ). IsOpened f x t (set_entry i f 0 true t)) same
            (set_entry-IsOpened i f t s (omega arith) u h))
  ]

  -- When it finds no free entry, the file is closed and no entry changes.
  pub record IsFull (f : F) (t t' : Table F) : Type 0 where
    pub all_used : (j : ℕ) → j < max_fd → (t.entries j).used ≡ true
    pub same : (j : ℕ) → t'.entries j ≡ t.entries j
    pub file_closed : t'.closed ≡ t.closed ++ f ∷ []

  rejected :
      (i : ℕ) (f : F) (t : Table F)
      → ((j : ℕ) → j < max_fd → (t.entries j).used ≡ true)
      → IsFull f t (alloc_from i 0 f t).1
  unfolding alloc_from drop
  rejected i f t h = record { all_used = h; same = λ j. refl; file_closed = refl }

  alloc_from-IsFull :
      (i n : ℕ) (f : F) (t : Table F)
      → i + n ≡ max_fd
      → ((j : ℕ) → j < i → (t.entries j).used ≡ true)
      → (alloc_from i n f t).0 ≡ err full
      → IsFull f t (alloc_from i n f t).1
  alloc_from-IsFull i zero f t e h o = rejected i f t (λ j k. h j (omega arith))
  alloc_from-IsFull i (suc n) f t e h o = elim (Bool-cases (t.entries i).used) [
    | inl u ↦
        let later = ap (λ (x : Result ℕ × Table F). x.0) (sym (used-next i n f t u)) ∙ o in
        rw (used-next i n f t u)
          (alloc_from-IsFull (i + 1) n f t (omega arith) (all-below i t h u) later)
    | inr u ↦ let r = ap (λ (x : Result ℕ × Table F). x.0) (sym (free-next i n f t u)) ∙ o in cc
  ]

  alloc_from-cases :
      (i n : ℕ) (f : F) (t : Table F)
      → ((fd : ℕ) × ((alloc_from i n f t).0 ≡ ok fd)) ⊎ ((alloc_from i n f t).0 ≡ err full)
  alloc_from-cases i zero f t = inr (none_left i f t)
  alloc_from-cases i (suc n) f t = elim (Bool-cases (t.entries i).used) [
    | inl u ↦ rw (used-next i n f t u) (alloc_from-cases (i + 1) n f t)
    | inr u ↦ rw (free-next i n f t u) (inl (i, refl))
  ]

  -- In a sound table, alloc of a file either puts it, and nothing else, under the lowest free
  -- descriptor, or, if all are in use, reports that and closes it.
  pub alloc-IsOpened :
      (f : F) (t : Table F)
      → IsSound t
      → ((fd : ℕ) × ((alloc (some f) t).0 ≡ ok fd) × IsOpened f fd t (alloc (some f) t).1)
        ⊎ (((alloc (some f) t).0 ≡ err full) × IsFull f t (alloc (some f) t).1)
  unfolding alloc
  alloc-IsOpened f t s =
      let start : (j : ℕ) → j < 0 → (t.entries j).used ≡ true = λ j k. absurd (omega arith) in
      elim (alloc_from-cases 0 max_fd f t) [
        | inl (fd, o) ↦ inl (fd, o, alloc_from-IsOpened 0 max_fd f t fd s refl start o)
        | inr o ↦ inr (o, alloc_from-IsFull 0 max_fd f t refl start o)
      ]

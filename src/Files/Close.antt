-- ===== src/Files/Close.antt =====
-- Closing: each file that leaves the table is closed, and once.
use mathlib.Core.Path.{subst}
use mathlib.Core.List.{append-nil, append_assoc}
use zonix_plus.Base.{
  ==_refl, List, Option, [], ap, arith, false, inl, inr, leb, none, ok, refl, some, suc, success,
  sym, true, zero, ℕ, ℕ_discrete, ◌++◌, ◌+◌, ◌<◌, ◌==◌, ◌∙◌, ◌∷◌, ◌≡◌, ◌≢◌, ◌≤◌,
}
use zonix_plus.Files.{
  Table, Entry, ℤ, pos, max_fd, no_entry, alloc, get, drop, close, reset_entry, reset_from,
  close_all,
}
use zonix_plus.Files.Open.{IsSound, IsOpened, alloc-IsOpened}

module _ {F : Type 0} where
  get_used :
      (t : Table F) (i : ℕ) (f : F)
      → i < max_fd
      → (t.entries i).file ≡ some f
      → (t.entries i).used ≡ true
      → get (pos i) t ≡ some i
  unfolding get
  get_used t i f h e u = let b : leb max_fd i ≡ false = ground arith in rw b (rw e (rw u refl))

  close_found :
      (fd : ℤ) (t : Table F) (i : ℕ) → get fd t ≡ some i → close fd t ≡ (success, reset_entry i t)
  unfolding close
  close_found fd t i e = rw (close, e) refl

  reset_entry_lem :
      (i : ℕ) (f : F) (t : Table F)
      → (t.entries i).file ≡ some f
      → ((reset_entry i t).entries i ≡ no_entry)
        × ((j : ℕ) → j ≢ i → (reset_entry i t).entries j ≡ t.entries j)
        × ((reset_entry i t).closed ≡ t.closed ++ f ∷ [])
  unfolding reset_entry drop
  reset_entry_lem i f t e = (rw (==_refl i) refl, (λ j n. ground arith), rw e refl)

  close-IsOpened :
      (f : F) (t t' : Table F) (fd : ℕ)
      → IsOpened f fd t t'
      → ((close (pos fd) t').0 ≡ success)
        × ((close (pos fd) t').1.closed ≡ t.closed ++ f ∷ [])
        × ((close (pos fd) t').1.entries fd ≡ no_entry)
        × ((j : ℕ) → j ≢ fd → (close (pos fd) t').1.entries j ≡ t.entries j)
  close-IsOpened f t t' fd r =
      let file = ap (λ (x : Entry F). x.file) r.opened in
      let used = ap (λ (x : Entry F). x.used) r.opened in
      let l = reset_entry_lem fd f t' file in
      rw (close_found (pos fd) t' fd (get_used t' fd f r.in_range file used)) (
        refl,
        l.2 ∙ ap (λ (xs : List F). xs ++ f ∷ []) r.none_closed,
        l.0,
        (λ j n. l.1 j n ∙ r.others j n),
      )

  -- In a sound table, closing the descriptor that alloc has just returned succeeds, closes the file
  -- and no other, and leaves each entry as it was before, the freed one being empty.
  pub close-alloc :
      (f : F) (t : Table F) (fd : ℕ)
      → IsSound t
      → (alloc (some f) t).0 ≡ ok fd
      → (let opened = (alloc (some f) t).1 in
          let after = (close (pos fd) opened).1 in
          ((close (pos fd) opened).0 ≡ success)
          × (after.closed ≡ t.closed ++ f ∷ [])
          × (after.entries fd ≡ no_entry)
          × ((j : ℕ) → j ≢ fd → after.entries j ≡ t.entries j))
  close-alloc f t fd s o = elim (alloc-IsOpened f t s) [
    | inl (i, e, r) ↦
        let same : i ≡ fd = let both = sym e ∙ o in cc in
        close-IsOpened f t (alloc (some f) t).1 fd
          (subst (λ (x : ℕ). IsOpened f x t (alloc (some f) t).1) same r)
    | inr (e, r) ↦ let clash = sym o ∙ e in cc
  ]

  -- The files of `n` entries from `i` on.
  unfoldable pub files_from : ℕ → ℕ → Table F → List F
  unfolding drop
  files_from i zero t = []
  files_from i (suc n) t = drop (t.entries i).file [] ++ files_from (i + 1) n t

  files_from-reset :
      (i k n : ℕ) (t : Table F) → k < i → files_from i n (reset_entry k t) ≡ files_from i n t
  unfolding files_from reset_entry
  files_from-reset i k zero t h = refl
  files_from-reset i k (suc n) t h =
      let other : (k == i) ≡ false = ground arith in
      rw other (
        ap (λ (xs : List F). drop (t.entries i).file [] ++ xs)
          (files_from-reset (i + 1) k n t (omega arith)))

  drop-append : (o : Option F) (xs : List F) → drop o xs ≡ xs ++ drop o []
  unfolding drop
  drop-append none xs = sym (append-nil xs)
  drop-append (some f) xs = refl

  reset_from-closed :
      (i n : ℕ) (t : Table F) → (reset_from i n t).closed ≡ t.closed ++ files_from i n t
  unfolding reset_from files_from reset_entry
  reset_from-closed i zero t = sym (append-nil t.closed)
  reset_from-closed i (suc n) t =
      reset_from-closed (i + 1) n (reset_entry i t)
      ∙ ap (λ (xs : List F). (reset_entry i t).closed ++ xs)
          (files_from-reset (i + 1) i n t (omega arith))
      ∙ ap (λ (xs : List F). xs ++ files_from (i + 1) n t) (drop-append (t.entries i).file t.closed)
      ∙ append_assoc t.closed (drop (t.entries i).file []) (files_from (i + 1) n t)

  reset_from-entries :
      (i n : ℕ) (t : Table F) (j : ℕ)
      → (j < i → (reset_from i n t).entries j ≡ t.entries j)
        × (i ≤ j → j < i + n → (reset_from i n t).entries j ≡ no_entry)
  unfolding reset_from reset_entry
  reset_from-entries i zero t j = ((λ h. refl), (λ h k. absurd (omega arith)))
  reset_from-entries i (suc n) t j =
      let r = reset_from-entries (i + 1) n (reset_entry i t) j in
      (
        (λ h. r.0 (omega arith) ∙ (let apart : (i == j) ≡ false = ground arith in rw apart refl)),
        (λ h k. elim (ℕ_discrete j i) [
          | yes e ↦ r.0 (omega arith) ∙ rw e (rw (==_refl i) refl)
          | no d ↦ r.1 (omega arith) (omega arith)
        ]),
      )

  -- close_all (and init, and a fork that resets) leaves all 16 entries empty, and closes the files
  -- of the table in the order of their descriptors, each once.
  pub close_all-closed :
      (t : Table F)
      → ((close_all t).closed ≡ t.closed ++ files_from 0 max_fd t)
        × ((j : ℕ) → j < max_fd → (close_all t).entries j ≡ no_entry)
  unfolding close_all
  close_all-closed t =
      (reset_from-closed 0 max_fd t, (λ j h. (reset_from-entries 0 max_fd t j).1 (omega arith) h))

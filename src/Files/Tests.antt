-- ===== src/Files/Tests.antt =====
-- Runs of the descriptor table, and its theorems at inputs that meet their hypotheses.
use mathlib.Core.Bool.{true≢false}
use zonix_plus.Base.{
  Bool-cases, [], if◌then◌else◌, inl, inr, invalid, ltb, ok, refl, some, success, sym, true, ℕ, ◌+◌,
  ◌∙◌, ◌∷◌, ◌≡◌, ◌≢◌,
}
use zonix_plus.Files.{Table, pos, negsuc, no_entry, alloc, close}
use zonix_plus.Files.Open.{IsSound}
use zonix_plus.Files.Close.{close-alloc}

-- Descriptors 0 and 1 are in use, for the files 7 and 8.
abbrev two_open : Table ℕ
two_open = record {
  entries =
      λ i. if ltb i 2 then record { file = some (i + 7); offset = 5; used = true } else no_entry;
  closed = [];
}

alloc_runs : (alloc (some 9) two_open).0 ≡ ok 2
unfolding alloc
alloc_runs = refl

close_missing : (close (negsuc 0) two_open).0 ≡ invalid
unfolding close
close_missing = refl

two_open-IsSound : IsSound two_open
two_open-IsSound = record {
  unused = λ i h. elim (Bool-cases (ltb i 2)) [
    | inl e ↦ absurd (true≢false (sym (rw e refl) ∙ h))
    | inr e ↦ rw e refl
  ];
  in_use = λ i h. elim (Bool-cases (ltb i 2)) [
    | inl e ↦ (i + 7, rw e refl)
    | inr e ↦ absurd (true≢false (sym h ∙ rw e refl))
  ];
}

close-alloc_example :
    (let opened = (alloc (some 9) two_open).1 in
      let after = (close (pos 2) opened).1 in
      ((close (pos 2) opened).0 ≡ success)
      × (after.closed ≡ 9 ∷ [])
      × (after.entries 2 ≡ no_entry)
      × ((j : ℕ) → j ≢ 2 → after.entries j ≡ two_open.entries j))
close-alloc_example = close-alloc 9 two_open 2 two_open-IsSound alloc_runs

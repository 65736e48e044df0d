-- ===== src/Procs/Reaped.antt =====
-- kernel/sched/task.cpp: remove_links takes a child out of every list that it hangs in.
use zonix_plus.Base.{
  ==_refl, In, List, [], ap, arith, false, inl, inr, refl, sym, ℕ, ℕ_discrete, ◌++◌, ◌-◌, ◌==◌, ◌∷◌,
  ◌≡◌, ◌≢◌, ◌⊎◌,
}
use zonix_plus.Procs.{Tasks, detach, pid_hash, remove_links, remove_process}

-- The first `c` of a list is taken out, if there is one.
abbrev pub Without : ℕ → List ℕ → List ℕ → Type 0
Without c us us' =
    ((In c us → ⊥) × (us' ≡ us))
    ⊎ ((xs : List ℕ) × (ys : List ℕ) × (us ≡ xs ++ c ∷ ys) × (us' ≡ xs ++ ys) × (In c xs → ⊥))

-- The child `c` of `p` has left the list of its parent's children, the list of all tasks and its
-- place in the hash table; everything else of the tasks is as it was.
pub record IsReaped (p c : ℕ) (m m' : Tasks) : Type 0 where
  pub children :
      (xs : List ℕ) × (ys : List ℕ) × ((m.proc p).child_list ≡ xs ++ c ∷ ys)
      × ((m'.proc p).child_list ≡ xs ++ ys)
      × (In c xs → ⊥)
  pub listed : Without c m.proc_list m'.proc_list
  pub hashed :
      Without c (m.hash_list (pid_hash (m.proc c).pid)) (m'.hash_list (pid_hash (m.proc c).pid))
  pub buckets : (h : ℕ) → h ≢ pid_hash (m.proc c).pid → m'.hash_list h ≡ m.hash_list h
  pub count : m'.process_count ≡ m.process_count - 1
  pub parent : m'.proc p ≡ record (m.proc p) { child_list = (m'.proc p).child_list }
  pub others : (q : ℕ) → q ≢ p → m'.proc q ≡ m.proc q

detach-taken :
    (c : ℕ) (us : List ℕ)
    → In c us
    → (xs : List ℕ) × (ys : List ℕ) × (us ≡ xs ++ c ∷ ys) × (detach c us ≡ xs ++ ys) × (In c xs → ⊥)
unfolding detach
detach-taken c [] i = elim i [ ]
detach-taken c (u ∷ us) i = elim (ℕ_discrete u c) [
  | yes e ↦ ([], us, ap (λ x. x ∷ us) e, rw e (rw (==_refl c) refl), λ j. elim j [ ])
  | no d ↦
      let rest : In c us = elim i [ inl e ↦ absurd (d (sym e)) | inr j ↦ j ] in
      let (xs, ys, e, e', first) = detach-taken c us rest in
      let apart : (u == c) ≡ false = ground arith in
      (
        u ∷ xs,
        ys,
        ap (λ x. u ∷ x) e,
        rw apart (ap (λ x. u ∷ x) e'),
        λ j. elim j [ inl e ↦ d (sym e) | inr k ↦ first k ],
      )
]

In-middle : (c : ℕ) (xs ys : List ℕ) → In c (xs ++ c ∷ ys)
In-middle c [] ys = inl refl
In-middle c (x ∷ xs) ys = inr (In-middle c xs ys)

detach-Without : (c : ℕ) (us : List ℕ) → Without c us (detach c us)
unfolding detach
detach-Without c [] = inl (λ j. elim j [ ], refl)
detach-Without c (u ∷ us) = elim (ℕ_discrete u c) [
  | yes e ↦ inr (detach-taken c (u ∷ us) (inl (sym e)))
  | no d ↦ elim (detach-Without c us) [
    | inl (absent, same) ↦
        let apart : (u == c) ≡ false = ground arith in
        inl (λ j. elim j [ inl e ↦ d (sym e) | inr k ↦ absent k ], rw apart (ap (λ x. u ∷ x) same))
    | inr (xs, ys, e, left, first) ↦ inr (detach-taken c (u ∷ us) (inr (rw e (In-middle c xs ys))))
  ]
]

pub remove_links-IsReaped :
    (p c : ℕ) (m : Tasks) → In c (m.proc p).child_list → IsReaped p c m (remove_links p c m)
unfolding remove_links remove_process
remove_links-IsReaped p c m i =
    let (xs, ys, e, e', first) = detach-taken c (m.proc p).child_list i in
    record {
      children = (xs, ys, e, rw (==_refl p) e', first);
      listed = detach-Without c m.proc_list;
      hashed =
          rw (==_refl (pid_hash (m.proc c).pid))
            (detach-Without c (m.hash_list (pid_hash (m.proc c).pid)));
      buckets = λ h n. ground arith;
      count = refl;
      parent = rw (==_refl p) refl;
      others = λ q n. ground arith;
    }

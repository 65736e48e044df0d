-- ===== src/Procs/Lookup.antt =====
-- The table of tasks as a map from process numbers.
use zonix_plus.Base.{
  ==_refl, ==→eq, Bool-cases, List, ap, false, if◌then◌else◌, inl, inr, not, refl, some, true, ℕ,
  ◌&&◌, ◌==◌, ◌∷◌, ◌≡◌,
}
use zonix_plus.Procs.{
  Proc, Tasks, add_process, detach, find_pid, find_process, pid_hash, remove_process,
}

find_pid-skip :
    (pid : ℕ) (proc : ℕ → Proc) (t : ℕ) (ts : List ℕ)
    → ((proc t).pid == pid) ≡ false
    → find_pid pid proc (t ∷ ts) ≡ find_pid pid proc ts
unfolding find_pid
find_pid-skip pid proc t ts e = rw e refl

-- A task that was added is found under its number, and every other number is found as before.
pub find_process-add_process :
    (t q : ℕ) (m : Tasks)
    → find_process q (add_process t m)
      ≡ (if not (q == 0) && (m.proc t).pid == q then some t else find_process q m)
unfolding find_process add_process find_pid
find_process-add_process t q m =
    let p = (m.proc t).pid in
    elim (Bool-cases (q == 0)) [
      | inl z ↦ rw z refl
      | inr z ↦ elim (Bool-cases (p == q)) [
        | inl e ↦
            let h : (pid_hash p == pid_hash q) ≡ true =
              rw (ap pid_hash (==→eq p q e)) (==_refl (pid_hash q)) in
            rw z (rw e (rw h (rw e refl)))
        | inr e ↦ elim (Bool-cases (pid_hash p == pid_hash q)) [
          | inl h ↦
              let l : m.hash_list (pid_hash p) ≡ m.hash_list (pid_hash q) =
                ap m.hash_list (==→eq _ _ h) in
              rw z (rw e (rw h (rw l (find_pid-skip q m.proc t (m.hash_list (pid_hash q)) e))))
          | inr h ↦ rw z (rw e (rw h refl))
        ]
      ]
    ]

-- A task that is added and removed again leaves every look-up as it was.
pub find_process-remove_process :
    (t q : ℕ) (m : Tasks) → find_process q (remove_process t (add_process t m)) ≡ find_process q m
unfolding find_process remove_process add_process detach
find_process-remove_process t q m =
    let p = (m.proc t).pid in
    elim (Bool-cases (pid_hash p == pid_hash q)) [
      | inl h ↦
          let l : m.hash_list (pid_hash p) ≡ m.hash_list (pid_hash q) =
            ap m.hash_list (==→eq _ _ h) in
          rw h (rw (==_refl (pid_hash p)) (rw (==_refl t) (rw l refl)))
      | inr h ↦ rw h refl
    ]

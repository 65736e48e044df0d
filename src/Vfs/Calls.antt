-- ===== src/Vfs/Calls.antt =====
-- Calls on a path among others, from resolve_path to the end of their reference to the mount.
use zonix_plus.Base.{
  Error, List, Option, Option-cases, Result, arith, err, inl, inr, invalid, none, not_found, ok,
  refl, some, update, ℕ, ◌++◌, ◌+◌, ◌-◌, ◌∷◌, ◌≡◌, ◌≢◌, ◌⊎◌,
}
use zonix_plus.Vfs.{
  Vfs, acquire_mount, find_slot, on_path, release_mount, resolve_path, set_slot, split_path,
}
use zonix_plus.Vfs.System.{Later, Later-Reach, Reach, System, acquire, later, release}
use zonix_plus.Vfs.Users.{Reach-IsSafe, middle-kept}

module _ {Fs : Type 0} where
  acquire_mount-cases :
      (m : Option (List ℕ)) (v : Vfs Fs)
      → (acquire_mount m v ≡ (err not_found, v))
        ⊎ ((i : ℕ) × (u : Vfs Fs) × (acquire_mount m v ≡ (ok i, u)))
  unfolding acquire_mount
  acquire_mount-cases m v = elim (Option-cases (find_slot m)) [
    | inl e ↦ inl (ground (arith, e))
    | inr (i, e) ↦ elim (Option-cases (v.slots i).fs) [
      | inl f ↦ inl (ground (arith, e, f))
      | inr (fs, f) ↦
          let u = set_slot i (record (v.slots i) { users = (v.slots i).users + 1 }) v in
          inr (i, u, ground (arith, e, f))
    ]
  ]

  resolve_path-cases :
      (path : Option (List ℕ)) (v : Vfs Fs)
      → ((e : Error) × (resolve_path path v ≡ (err e, v)))
        ⊎ ((m : Option (List ℕ)) × (i : ℕ) × (rel : List ℕ) × (u : Vfs Fs) × (acquire_mount m v
              ≡ (ok i, u))
            × (resolve_path path v ≡ (ok (i, rel), u)))
  unfolding resolve_path
  resolve_path-cases none v = inl (invalid, refl)
  resolve_path-cases (some path) v =
      let m = some (split_path path).0 in
      elim (acquire_mount-cases m v) [
        | inl e ↦ inl (not_found, ground (arith, e))
        | inr (i, u, e) ↦ inr (m, i, (split_path path).1, u, e, ground (arith, e))
      ]

  resolve_path-ok :
      (path : Option (List ℕ)) (v v' : Vfs Fs) (i : ℕ) (rel : List ℕ)
      → resolve_path path v ≡ (ok (i, rel), v')
      → (m : Option (List ℕ)) × (acquire_mount m v ≡ (ok i, v'))
  resolve_path-ok path v v' i rel h = elim (resolve_path-cases path v) [
    | inl (e, p) ↦ absurd (ground (arith, h, p))
    | inr (m, j, rel', u, e, p) ↦ (m, ground (arith, h, p, e))
  ]

  release_mount-used :
      (i : ℕ) (v : Vfs Fs) → (v.slots i).users ≢ 0 → (v' : Vfs Fs) × (release_mount i v ≡ some v')
  unfolding release_mount
  release_mount-used i v n =
      (set_slot i (record (v.slots i) { users = (v.slots i).users - 1 }) v, ground (arith, n))

  on_path-eq :
      {W A : Type 0} (path : Option (List ℕ)) (v v₁ u u' v' : Vfs Fs) (i : ℕ) (rel : List ℕ)
      (fs : Fs) (meanwhile : Vfs Fs → Vfs Fs)
      (call : Fs → List ℕ → Vfs Fs → W → Result A × Vfs Fs × W) (w w' : W) (r : Result A)
      → resolve_path path v ≡ (ok (i, rel), v₁)
      → meanwhile v₁ ≡ u
      → (u.slots i).fs ≡ some fs
      → call fs rel u w ≡ (r, u', w')
      → release_mount i u' ≡ some v'
      → on_path meanwhile call path v w ≡ some (r, v', w')
  unfolding on_path
  on_path-eq path v v₁ u u' v' i rel fs meanwhile call w w' r e read here run left =
      ground (arith, e, read, here, run, left)

  -- The system after a call got a reference to the file system of slot `i`.
  abbrev pub entered : System Fs → Vfs Fs → ℕ → Fs → System Fs
  entered s v i fs = record { vfs = v; refs = update s.refs i (fs ∷ s.refs i); calls = s.calls }

  -- A call on a path, in a state that mount, umount and other calls can reach, whose path resolves to
  -- slot `i`. Let any of those run, in any order, up to the state `s₁` in which the slot's file system is
  -- read, and up to `s₂` when its operation ends, none of them giving back this call's reference. Then
  -- the call returns, with the result of the operation on the file system that was mounted at its
  -- start: that one is found in the slot and is still mounted at the end, and no assertion fails. The
  -- state that is left is again one that can be reached, with this reference given back.
  pub on_path-Reach :
      {W A : Type 0} (s s₁ s₂ : System Fs) (path : Option (List ℕ)) (i : ℕ) (rel : List ℕ) (fs : Fs)
      (v : Vfs Fs) (xs ys xs' ys' : List Fs) (meanwhile : Vfs Fs → Vfs Fs)
      (call : Fs → List ℕ → Vfs Fs → W → Result A × Vfs Fs × W) (w w' : W) (r : Result A)
      → Reach s
      → resolve_path path s.vfs ≡ (ok (i, rel), v)
      → (s.vfs.slots i).fs ≡ some fs
      → Later (entered s v i fs) s₁
      → s₁.refs i ≡ xs ++ fs ∷ ys
      → meanwhile v ≡ s₁.vfs
      → Later s₁ s₂
      → s₂.refs i ≡ xs' ++ fs ∷ ys'
      → call fs rel s₁.vfs w ≡ (r, s₂.vfs, w')
      → (v' : Vfs Fs) × (on_path meanwhile call path s.vfs w ≡ some (r, v', w'))
        × ((s₂.vfs.slots i).fs ≡ some fs)
        × Reach (record { vfs = v'; refs = update s₂.refs i (xs' ++ ys'); calls = s₂.calls })
  on_path-Reach s s₁ s₂ path i rel fs v xs ys xs' ys' meanwhile call w w' r h e f l at read l' at'
        run =
      let (m, got) = resolve_path-ok path s.vfs v i rel e in
      let h₁ = Later-Reach (later h (acquire m i fs v got f)) l in
      let h₂ = Later-Reach h₁ l' in
      let (used₁, here₁) =
        middle-kept (s₁.vfs.slots i) (s₁.refs i) xs ys (s₁.calls i) fs at (Reach-IsSafe s₁ h₁ i) in
      let (used, here) =
        middle-kept (s₂.vfs.slots i) (s₂.refs i) xs' ys' (s₂.calls i) fs at'
          (Reach-IsSafe s₂ h₂ i) in
      let (v', left) = release_mount-used i s₂.vfs used in
      (
        v',
        on_path-eq path s.vfs v s₁.vfs s₂.vfs v' i rel fs meanwhile call w w' r e read here₁ run
            left,
        here,
        later h₂ (release i fs xs' ys' v' at' left),
      )

-- ===== src/Vfs/Users.antt =====
-- Who uses a mount: an unmounted file system has no open file.
use zonix_plus.Base.{
  ==→eq, All, Bool, Bool-cases, List, Option, [], ap, arith, busy, err, false, if◌then◌else◌, inl,
  inr, is_none, length, length-append, none, ok, refl, some, sym, true, update, ℕ, ◌++◌, ◌==◌, ◌∙◌,
  ◌∷◌, ◌≡◌, ◌≢◌,
}
use zonix_plus.Vfs.{
  MountSlot, Vfs, finish_transition, publish_mount, release_mount, begin_umount, find_slot,
}
use zonix_plus.Vfs.System.{
  Call, System, Step, Reach, start, later, acquire, release, start_mount, publish, start_umount,
  finish, register, mounting, published, unmounting,
}
use zonix_plus.Vfs.Slots.{
  acquire_mount-ok, release_mount-some, begin_mount-ok, begin_umount-ok, register_fs-slots, Stage,
  IsKept, acquire-IsKept, release-IsKept, AtMostOne-only, unused, idle, unheld,
}

update_self : {A : Type 0} (f : ℕ → A) (i j : ℕ) → update f i (f i) j ≡ f j
update_self f i j = elim (Bool-cases (i == j)) [
  | inl e ↦ let same : i ≡ j = ==→eq i j e in rw e (ap f same)
  | inr e ↦ rw e refl
]

find_slot-none : (i : ℕ) → find_slot none ≡ some i → ⊥
unfolding find_slot
find_slot-none i e = absurd cc

module _ {Fs : Type 0} where
  choose-IsKept :
      (b : Bool) (s s' : MountSlot Fs) (r r' : List Fs) (c c' : List Call)
      → IsKept s' r' c'
      → IsKept s r c
      → IsKept (if b then s' else s) (if b then r' else r) (if b then c' else c)
  choose-IsKept true s s' r r' c c' k l = k
  choose-IsKept false s s' r r' c c' k l = l

  -- Every slot of the system is kept.
  abbrev pub IsSafe : System Fs → Type 0
  IsSafe s = (j : ℕ) → IsKept (s.vfs.slots j) (s.refs j) (s.calls j)

  module _ (s : System Fs) (k : IsSafe s) (i : ℕ) (slot : MountSlot Fs) where
    -- Slot `i` changes, and its users or calls with it.
    both-IsSafe :
        (refs : List Fs) (calls : List Call)
        → IsKept slot refs calls
        → (j : ℕ)
        → IsKept (update s.vfs.slots i slot j) (update s.refs i refs j) (update s.calls i calls j)
    both-IsSafe refs calls h j =
        choose-IsKept (i == j) (s.vfs.slots j) slot (s.refs j) refs (s.calls j) calls h (k j)

    refs-IsSafe :
        (refs : List Fs)
        → IsKept slot refs (s.calls i)
        → (j : ℕ) → IsKept (update s.vfs.slots i slot j) (update s.refs i refs j) (s.calls j)
    refs-IsSafe refs h j = rw (sym (update_self s.calls i j)) (both-IsSafe refs (s.calls i) h j)

    calls-IsSafe :
        (calls : List Call)
        → IsKept slot (s.refs i) calls
        → (j : ℕ) → IsKept (update s.vfs.slots i slot j) (s.refs j) (update s.calls i calls j)
    calls-IsSafe calls h j = rw (sym (update_self s.refs i j)) (both-IsSafe (s.refs i) calls h j)

  enter-IsKept :
      (s s' : MountSlot Fs) (refs : List Fs) (calls : List Call) (c : Call)
      → s'.users ≡ length refs
      → All (λ fs. s'.fs ≡ some fs) refs
      → s.transitioning ≡ false
      → s'.transitioning ≡ true
      → Stage c s'.fs
      → IsKept s refs calls
      → IsKept s' refs (c ∷ calls)
  enter-IsKept s s' refs calls c n h b b' st k =
      rw (idle calls s.fs s.transitioning b k.alone)
        (record { counted = n; held = h; alone = (b', st) })

  none-held : (o : Option Fs) (refs : List Fs) → refs ≡ [] → All (λ fs. o ≡ some fs) refs
  none-held o refs e = rw e tt

  publish-IsKept :
      (s s' : MountSlot Fs) (refs : List Fs) (calls xs ys : List Call)
      → calls ≡ xs ++ mounting ∷ ys
      → s'.users ≡ s.users
      → s'.transitioning ≡ s.transitioning
      → IsKept s refs calls
      → IsKept s' refs (xs ++ published ∷ ys)
  publish-IsKept s s' refs calls xs ys e n b k =
      let (p, q, t, st) = AtMostOne-only calls xs mounting ys s.fs s.transitioning e k.alone in
      rw p (
        rw q (record {
          counted = n ∙ k.counted;
          held = none-held s'.fs refs (unheld s refs calls st k);
          alone = (b ∙ t, tt);
        }))

  finish-IsKept :
      (s s' : MountSlot Fs) (refs : List Fs) (calls xs ys : List Call) (c : Call)
      → calls ≡ xs ++ c ∷ ys
      → s'.users ≡ s.users
      → s'.fs ≡ s.fs
      → s'.transitioning ≡ false
      → IsKept s refs calls
      → IsKept s' refs (xs ++ ys)
  finish-IsKept s s' refs calls xs ys c e n f b k =
      let (p, q, t, st) = AtMostOne-only calls xs c ys s.fs s.transitioning e k.alone in
      rw p (rw q (record { counted = n ∙ k.counted; held = rw f k.held; alone = b }))

  Step-IsSafe : (s t : System Fs) → Step s t → IsSafe s → IsSafe t
  unfolding publish_mount finish_transition
  Step-IsSafe s t (acquire m i fs v e f) k j = rw (acquire_mount-ok m s.vfs v i e) (
      refs-IsSafe s k i _ (fs ∷ s.refs i)
        (acquire-IsKept (s.vfs.slots i) (s.refs i) (s.calls i) fs f (k i)) j)
  Step-IsSafe s t (release i fs xs ys v e f) k j = rw (release_mount-some i s.vfs v f).1 (
      refs-IsSafe s k i _ (xs ++ ys)
        (release-IsKept (s.vfs.slots i) (s.refs i) xs ys (s.calls i) fs e (k i)) j)
  Step-IsSafe s t (start_mount m ty i fa v e) k j =
      let (b, f, p) = begin_mount-ok m ty s.vfs v i fa e in
      rw p (
        calls-IsSafe s k i _ (mounting ∷ s.calls i)
          (enter-IsKept (s.vfs.slots i) _ (s.refs i) (s.calls i) mounting (k i).counted (k i).held b
            refl f (k i))
          j)
  Step-IsSafe s t (publish i ty dev fs xs ys e) k j =
      calls-IsSafe s k i _ (xs ++ published ∷ ys)
        (publish-IsKept (s.vfs.slots i) _ (s.refs i) (s.calls i) xs ys e refl refl (k i)) j
  Step-IsSafe s t (start_umount m i fs v e) k j =
      let (b, f, n, p) = begin_umount-ok m s.vfs v i fs e in
      rw p (
        calls-IsSafe s k i _ (unmounting ∷ s.calls i)
          (enter-IsKept (s.vfs.slots i) _ (s.refs i) (s.calls i) unmounting (k i).counted
            (none-held none (s.refs i) (unused (s.vfs.slots i) (s.refs i) (s.calls i) n (k i))) b
            refl refl (k i))
          j)
  Step-IsSafe s t (finish i c xs ys e) k j =
      calls-IsSafe s k i _ (xs ++ ys)
        (finish-IsKept (s.vfs.slots i) _ (s.refs i) (s.calls i) xs ys c e refl refl refl (k i)) j
  Step-IsSafe s t (register n f e v h) k j =
      rw (ap (λ w. w j) (register_fs-slots n f s.vfs v e h)) (k j)

  -- In every reachable state each slot counts its users, each of them holds the file system that is
  -- still mounted there, and at most one call of mount or umount is at work on the slot.
  pub Reach-IsSafe : (s : System Fs) → Reach s → IsSafe s
  Reach-IsSafe s start j = record { counted = refl; held = tt; alone = refl }
  Reach-IsSafe s (later {s = r} h st) j = Step-IsSafe r s st (Reach-IsSafe r h) j

  All-middle :
      (o : Option Fs) (xs : List Fs) (fs : Fs) (ys : List Fs)
      → All (λ g. o ≡ some g) (xs ++ fs ∷ ys)
      → o ≡ some fs
  All-middle o [] fs ys h = h.0
  All-middle o (x ∷ xs) fs ys h = All-middle o xs fs ys h.1

  pub middle-kept :
      (s : MountSlot Fs) (refs xs ys : List Fs) (calls : List Call) (fs : Fs)
      → refs ≡ xs ++ fs ∷ ys
      → IsKept s refs calls
      → (s.users ≢ 0) × (s.fs ≡ some fs)
  middle-kept s refs xs ys calls fs e k = (
    (λ z. let n = length-append xs (fs ∷ ys) in omega (arith, z, k.counted, ap length e)),
    All-middle s.fs xs fs ys (rw (sym e) k.held),
  )

  -- Whoever holds a file system through a slot finds it mounted there still, an unmount of the slot
  -- is refused as busy, and to give the mount back does not fail its assertion.
  pub held-umount :
      (s : System Fs) (mount_point : Option (List ℕ)) (i : ℕ) (fs : Fs) (xs ys : List Fs)
      → Reach s
      → find_slot mount_point ≡ some i
      → s.refs i ≡ xs ++ fs ∷ ys
      → ((s.vfs.slots i).fs ≡ some fs)
        × (begin_umount mount_point s.vfs ≡ (err busy, s.vfs))
        × (is_none (release_mount i s.vfs) ≡ false)
  unfolding begin_umount release_mount
  held-umount s none i fs xs ys h p e = absurd (find_slot-none i p)
  held-umount s (some m) i fs xs ys h p e =
      let (n, f) =
        middle-kept (s.vfs.slots i) (s.refs i) xs ys (s.calls i) fs e (Reach-IsSafe s h i) in
      (f, ground (arith, n, f, p), ground (arith, n))

  -- An unmount that starts takes a file system that nobody holds and that no other call is mounting
  -- or unmounting.
  pub begin_umount-unused :
      (s : System Fs) (mount_point : Option (List ℕ)) (i : ℕ) (fs : Fs) (v : Vfs Fs)
      → Reach s
      → begin_umount mount_point s.vfs ≡ (ok (i, fs), v)
      → (s.refs i ≡ []) × (s.calls i ≡ [])
  begin_umount-unused s m i fs v h e =
      let (b, f, n, p) = begin_umount-ok m s.vfs v i fs e in
      let k = Reach-IsSafe s h i in
      (
        unused (s.vfs.slots i) (s.refs i) (s.calls i) n k,
        idle (s.calls i) (s.vfs.slots i).fs (s.vfs.slots i).transitioning b k.alone,
      )

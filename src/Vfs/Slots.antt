-- ===== src/Vfs/Slots.antt =====
-- One slot: its users, and the call that is mounting or unmounting there.
use zonix_plus.Base.{
  All, Bool, Error, List, Option, [], ap, arith, false, length, length-append, none, ok, refl, some,
  sym, true, ℕ, ◌++◌, ◌+◌, ◌-◌, ◌∷◌, ◌≡◌, ◌≢◌,
}
use zonix_plus.Vfs.{
  MountSlot, Vfs, acquire_mount, begin_mount, begin_umount, register_fs, release_mount, set_slot,
}
use zonix_plus.Vfs.System.{Call, mounting, published, unmounting}

nil-middle : (xs : List Call) (c : Call) (ys : List Call) → [] ≡ xs ++ c ∷ ys → ⊥
nil-middle [] c ys e = absurd cc
nil-middle (x ∷ xs) c ys e = absurd cc

module _ {Fs : Type 0} where
  pub acquire_mount-ok :
      (m : Option (List ℕ)) (v v' : Vfs Fs) (i : ℕ)
      → acquire_mount m v ≡ (ok i, v')
      → v' ≡ set_slot i (record (v.slots i) { users = (v.slots i).users + 1 }) v
  unfolding acquire_mount
  acquire_mount-ok m v v' i h = grind arith

  pub release_mount-some :
      (i : ℕ) (v v' : Vfs Fs)
      → release_mount i v ≡ some v'
      → ((v.slots i).users ≢ 0)
        × (v' ≡ set_slot i (record (v.slots i) { users = (v.slots i).users - 1 }) v)
  unfolding release_mount
  release_mount-some i v v' h = (ground arith, ground arith)

  pub begin_mount-ok :
      (m t : Option (List ℕ)) (v v' : Vfs Fs) (i k : ℕ)
      → begin_mount m t v ≡ (ok (i, k), v')
      → ((v.slots i).transitioning ≡ false)
        × ((v.slots i).fs ≡ none)
        × (v' ≡ set_slot i (record (v.slots i) { transitioning = true }) v)
  unfolding begin_mount
  begin_mount-ok m t v v' i k h = (ground arith, ground arith, ground arith)

  pub begin_umount-ok :
      (m : Option (List ℕ)) (v v' : Vfs Fs) (i : ℕ) (fs : Fs)
      → begin_umount m v ≡ (ok (i, fs), v')
      → ((v.slots i).transitioning ≡ false)
        × ((v.slots i).fs ≡ some fs)
        × ((v.slots i).users ≡ 0)
        × (v'
            ≡ set_slot i
                (record (v.slots i) {
                  transitioning = true;
                  fs = none;
                  fs_type = none;
                  device = none;
                  device_name = none;
                })
                v)
  unfolding begin_umount
  begin_umount-ok m v v' i fs h = (ground arith, ground arith, ground arith, ground arith)

  pub register_fs-slots :
      (name : Option (List ℕ)) (factory : Option ℕ) (v v' : Vfs Fs) (e : Error)
      → register_fs name factory v ≡ (e, v')
      → v'.slots ≡ v.slots
  unfolding register_fs
  register_fs-slots name factory v v' e h = ground arith

  -- What a call that holds the transition of a slot relies on.
  abbrev pub Stage : Call → Option Fs → Type 0
  Stage mounting fs = fs ≡ none
  Stage published fs = Unit
  Stage unmounting fs = fs ≡ none

  abbrev pub AtMostOne : List Call → Option Fs → Bool → Type 0
  AtMostOne [] fs transitioning = transitioning ≡ false
  AtMostOne (c ∷ []) fs transitioning = (transitioning ≡ true) × Stage c fs
  AtMostOne (c ∷ d ∷ cs) fs transitioning = ⊥

  -- The users of a slot are counted, each holds the file system of the slot, and at most one call
  -- is mounting or unmounting there.
  pub record IsKept (s : MountSlot Fs) (refs : List Fs) (calls : List Call) : Type 0 where
    pub counted : s.users ≡ length refs
    pub held : All (λ fs. s.fs ≡ some fs) refs
    pub alone : AtMostOne calls s.fs s.transitioning

  pub acquire-IsKept :
      (s : MountSlot Fs) (refs : List Fs) (calls : List Call) (fs : Fs)
      → s.fs ≡ some fs
      → IsKept s refs calls
      → IsKept (record s { users = s.users + 1 }) (fs ∷ refs) calls
  acquire-IsKept s refs calls fs e k = record {
    counted = omega (arith, k.counted);
    held = (e, k.held);
    alone = k.alone;
  }

  All-cut :
      (P : Fs → Type 0) (xs : List Fs) (y : Fs) (ys : List Fs)
      → All P (xs ++ y ∷ ys)
      → All P (xs ++ ys)
  All-cut P [] y ys h = h.1
  All-cut P (x ∷ xs) y ys h = (h.0, All-cut P xs y ys h.1)

  pub release-IsKept :
      (s : MountSlot Fs) (refs xs ys : List Fs) (calls : List Call) (fs : Fs)
      → refs ≡ xs ++ fs ∷ ys
      → IsKept s refs calls
      → IsKept (record s { users = s.users - 1 }) (xs ++ ys) calls
  release-IsKept s refs xs ys calls fs e k = record {
    counted =
        omega (arith, k.counted, ap length e, length-append xs (fs ∷ ys), length-append xs ys);
    held = All-cut (λ g. s.fs ≡ some g) xs fs ys (rw (sym e) k.held);
    alone = k.alone;
  }

  pub AtMostOne-only :
      (calls xs : List Call) (c : Call) (ys : List Call) (fs : Option Fs) (b : Bool)
      → calls ≡ xs ++ c ∷ ys
      → AtMostOne calls fs b
      → (xs ≡ []) × (ys ≡ []) × (b ≡ true) × Stage c fs
  AtMostOne-only [] [] c ys fs b e h = absurd cc
  AtMostOne-only (d ∷ []) [] c ys fs b e h =
      let same : d ≡ c = cc in (refl, cc, h.0, rw (sym same) h.1)
  AtMostOne-only (d ∷ []) (x ∷ xs) c ys fs b e h = absurd (nil-middle xs c ys cc)
  AtMostOne-only (d ∷ e ∷ ds) xs c ys fs b p h = absurd h
  AtMostOne-only [] (x ∷ xs) c ys fs b e h = absurd cc

  pub unused :
      (s : MountSlot Fs) (refs : List Fs) (calls : List Call)
      → s.users ≡ 0
      → IsKept s refs calls
      → refs ≡ []
  unused s [] calls e k = refl
  unused s (r ∷ refs) calls e k = absurd (omega (arith, e, k.counted))

  pub idle :
      (calls : List Call) (fs : Option Fs) (b : Bool)
      → b ≡ false
      → AtMostOne calls fs b
      → calls ≡ []
  idle [] fs b e h = refl
  idle (c ∷ []) fs b e h = absurd cc
  idle (c ∷ d ∷ cs) fs b e h = absurd h

  pub unheld :
      (s : MountSlot Fs) (refs : List Fs) (calls : List Call)
      → s.fs ≡ none
      → IsKept s refs calls
      → refs ≡ []
  unheld s [] calls e k = refl
  unheld s (r ∷ refs) calls e k = absurd cc

-- ===== src/Vfs/System.antt =====
-- The mount table under calls that run in any order: one step for each section under an interrupt
-- guard.
use zonix_plus.Base.{Error, List, Option, [], false, none, ok, some, update, ℕ, ◌++◌, ◌∷◌, ◌≡◌}
use zonix_plus.Vfs.{
  BlockDevice, Vfs, acquire_mount, begin_mount, begin_umount, finish_transition, publish_mount,
  register_fs, release_mount,
}

-- Where a call of mount or umount stands that holds a slot's transition.
pub data Call : Type 0 where
  mounting : Call
  published : Call
  unmounting : Call

-- `refs i` are the file systems that open files and running calls hold through slot `i`, `calls i`
-- the calls of mount and umount that are between the sections on it.
pub record System (Fs : Type 0) : Type 0 where
  pub vfs : Vfs Fs
  pub refs : ℕ → List Fs
  pub calls : ℕ → List Call

module _ {Fs : Type 0} where
  pub data Step (s : System Fs) : System Fs → Type 0 where
    acquire :
        (mount_point : Option (List ℕ)) (i : ℕ) (fs : Fs) (v : Vfs Fs)
        → acquire_mount mount_point s.vfs ≡ (ok i, v)
        → (s.vfs.slots i).fs ≡ some fs
        → Step s (record { vfs = v; refs = update s.refs i (fs ∷ s.refs i); calls = s.calls })
    release :
        (i : ℕ) (fs : Fs) (xs ys : List Fs) (v : Vfs Fs)
        → s.refs i ≡ xs ++ fs ∷ ys
        → release_mount i s.vfs ≡ some v
        → Step s (record { vfs = v; refs = update s.refs i (xs ++ ys); calls = s.calls })
    start_mount :
        (mount_point fs_type : Option (List ℕ)) (i factory : ℕ) (v : Vfs Fs)
        → begin_mount mount_point fs_type s.vfs ≡ (ok (i, factory), v)
        → Step s (record {
          vfs = v;
          refs = s.refs;
          calls = update s.calls i (Call.mounting ∷ s.calls i);
        })
    publish :
        (i : ℕ) (fs_type : List ℕ) (dev : Option BlockDevice) (fs : Fs) (xs ys : List Call)
        → s.calls i ≡ xs ++ Call.mounting ∷ ys
        → Step s (record {
          vfs = publish_mount i fs_type dev fs s.vfs;
          refs = s.refs;
          calls = update s.calls i (xs ++ Call.published ∷ ys);
        })
    start_umount :
        (mount_point : Option (List ℕ)) (i : ℕ) (fs : Fs) (v : Vfs Fs)
        → begin_umount mount_point s.vfs ≡ (ok (i, fs), v)
        → Step s (record {
          vfs = v;
          refs = s.refs;
          calls = update s.calls i (Call.unmounting ∷ s.calls i);
        })
    finish :
        (i : ℕ) (c : Call) (xs ys : List Call)
        → s.calls i ≡ xs ++ c ∷ ys
        → Step s (record {
          vfs = finish_transition i s.vfs;
          refs = s.refs;
          calls = update s.calls i (xs ++ ys);
        })
    register :
        (name : Option (List ℕ)) (factory : Option ℕ) (e : Error) (v : Vfs Fs)
        → register_fs name factory s.vfs ≡ (e, v)
        → Step s (record { vfs = v; refs = s.refs; calls = s.calls })

  -- The table as it is at start: three empty slots, no file system known.
  abbrev pub start_vfs : Vfs Fs
  start_vfs = record {
    registry = [];
    slots = λ _. record {
      device = none;
      device_name = none;
      fs = none;
      fs_type = none;
      users = 0;
      transitioning = false;
    };
  }

  abbrev pub start_system : System Fs
  start_system = record { vfs = start_vfs; refs = λ _. []; calls = λ _. [] }

  pub data Reach : System Fs → Type 0 where
    start : Reach start_system
    later : {s t : System Fs} → Reach s → Step s t → Reach t

  -- What any number of calls make of a system, in any order.
  pub data Later (s : System Fs) : System Fs → Type 0 where
    now : Later s s
    next : {t u : System Fs} → Later s t → Step t u → Later s u

  pub Later-Reach : {s t : System Fs} → Reach s → Later s t → Reach t
  Later-Reach h now = h
  Later-Reach h (next l st) = later (Later-Reach h l) st

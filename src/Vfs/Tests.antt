-- ===== src/Vfs/Tests.antt =====
-- Runs of the mount table, and its theorems at states that are reached.
use zonix_plus.Base.{
  List, Result, [], busy, err, false, is_none, none, not_found, ok, refl, some, success, true,
  update, ℕ, ◌++◌, ◌+◌, ◌-◌, ◌∷◌, ◌≡◌,
}
use zonix_plus.Vfs.{
  FileSystems, Vfs, acquire_mount, begin_mount, begin_umount, find_slot, finish_transition,
  is_mounted, mnt_path, mount, on_path, open_path, publish_mount, register_fs, release_mount,
  resolve_path, split_path,
}
use zonix_plus.Vfs.System.{
  Later, System, Reach, acquire, next, now, finish, later, publish, register, start, start_mount,
  start_vfs, mounting, published,
}
use zonix_plus.Vfs.Users.{IsSafe, Reach-IsSafe, held-umount}
use zonix_plus.Vfs.Calls.{on_path-Reach}

-- The file system type "f", whose factory has the number 3.
abbrev fs_name : List ℕ
fs_name = b'f' ∷ []

abbrev known : Vfs ℕ
unfolding register_fs
known = (register_fs (some fs_name) (some 3) start_vfs).1

abbrev reserved : Vfs ℕ
unfolding begin_mount
reserved = (begin_mount (some mnt_path) (some fs_name) known).1

abbrev mounted : Vfs ℕ
unfolding publish_mount finish_transition
mounted = finish_transition 1 (publish_mount 1 fs_name none 20 reserved)

abbrev in_use : Vfs ℕ
unfolding acquire_mount
in_use = (acquire_mount (some mnt_path) mounted).1

split_path_runs : split_path (mnt_path ++ b'/' ∷ b'/' ∷ b'a' ∷ []) ≡ (mnt_path, b'a' ∷ [])
unfolding split_path
split_path_runs = refl

busy_runs : (begin_umount (some mnt_path) in_use).0 ≡ err busy
unfolding begin_umount in_use mounted reserved known
busy_runs = refl

abbrev mounted_system : System ℕ
mounted_system = record {
  vfs = mounted;
  refs = λ _. [];
  calls = update (update (λ _. []) 1 (mounting ∷ [])) 1 (published ∷ []);
}

known-Reach : Reach (record { vfs = known; refs = λ _. []; calls = λ _. [] })
unfolding register_fs
known-Reach = later start (register (some fs_name) (some 3) success known refl)

reserved-Reach :
    Reach (record { vfs = reserved; refs = λ _. []; calls = update (λ _. []) 1 (mounting ∷ []) })
unfolding begin_mount known
reserved-Reach = later known-Reach (start_mount (some mnt_path) (some fs_name) 1 3 reserved refl)

abbrev after_mount : System ℕ
after_mount = record {
  vfs = mounted;
  refs = λ _. [];
  calls = update (update (update (λ _. []) 1 (mounting ∷ [])) 1 (published ∷ [])) 1 [];
}

abbrev after_acquire : System ℕ
after_acquire = record {
  vfs = in_use;
  refs = update (λ _. []) 1 (20 ∷ []);
  calls = after_mount.calls;
}

after_mount-Reach : Reach after_mount
unfolding finish_transition mounted
after_mount-Reach =
    later (later reserved-Reach (publish 1 fs_name none 20 [] [] refl))
      (finish 1 published [] [] refl)

after_acquire-Reach : Reach after_acquire
unfolding acquire_mount mounted
after_acquire-Reach = later after_mount-Reach (acquire (some mnt_path) 1 20 in_use refl refl)

Reach-IsSafe_example : IsSafe after_acquire
Reach-IsSafe_example = Reach-IsSafe after_acquire after_acquire-Reach

held-umount_example :
    ((after_acquire.vfs.slots 1).fs ≡ some 20)
    × (begin_umount (some mnt_path) after_acquire.vfs ≡ (err busy, after_acquire.vfs))
    × (is_none (release_mount 1 after_acquire.vfs) ≡ false)
unfolding find_slot
held-umount_example =
    held-umount after_acquire (some mnt_path) 1 20 [] [] after_acquire-Reach refl refl

-- A file system that holds nothing.
abbrev empty_systems : FileSystems ℕ ℕ ℕ
empty_systems = record {
  create = λ factory w. (some (factory + 17), w);
  mount_fs = λ fs dev w. (success, w + 1);
  unmount_fs = λ fs w. w - 1;
  destroy = λ fs w. w;
  open_file = λ fs path w. (err not_found, w);
}

mount_runs :
    is_mounted (some mnt_path) (mount empty_systems (some mnt_path) none (some fs_name) known 0).1
    ≡ true
unfolding mount is_mounted known
mount_runs = refl

open_path_runs :
    open_path empty_systems (some (mnt_path ++ b'/' ∷ b'a' ∷ [])) start_vfs 5
    ≡ some (err not_found, start_vfs, 5)
unfolding open_path
open_path_runs = refl

-- A second call takes a reference while the first one's operation runs.
abbrev twice_used : Vfs ℕ
unfolding acquire_mount
twice_used = (acquire_mount (some mnt_path) in_use).1

abbrev two_calls : System ℕ
two_calls = record {
  vfs = twice_used;
  refs = update after_acquire.refs 1 (20 ∷ 20 ∷ []);
  calls = after_mount.calls;
}

second_acquire : Later after_acquire two_calls
unfolding acquire_mount in_use mounted
second_acquire = next now (acquire (some mnt_path) 1 20 twice_used refl refl)

mounted_twenty : (mounted.slots 1).fs ≡ some 20
unfolding mounted
mounted_twenty = refl

resolves : resolve_path (some mnt_path) mounted ≡ (ok (1, []), in_use)
unfolding resolve_path in_use mounted
resolves = refl

abbrev seen : ℕ → List ℕ → Vfs ℕ → ℕ → Result ℕ × Vfs ℕ × ℕ
seen fs rel v w = (ok fs, twice_used, w + 1)

on_path-Reach_example :
    (v' : Vfs ℕ) × (on_path (λ v. v) seen (some mnt_path) mounted 5 ≡ some (ok 20, v', 6))
    × ((twice_used.slots 1).fs ≡ some 20)
    × Reach
        (record { vfs = v'; refs = update two_calls.refs 1 (20 ∷ []); calls = after_mount.calls })
on_path-Reach_example =
    on_path-Reach after_mount after_acquire two_calls (some mnt_path) 1 [] 20 in_use [] [] []
      (20 ∷ []) (λ v. v) seen 5 6 (ok 20) after_mount-Reach resolves mounted_twenty now refl refl
      second_acquire refl refl

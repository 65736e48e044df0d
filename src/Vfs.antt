-- ===== src/Vfs.antt =====
-- kernel/fs/vfs.cpp, vfs.h and vfs_fs.h: the mount table and the calls that go through it. The file
-- systems are a parameter, over a world `W` that they change. A text is its list of bytes; a device
-- is the name of a driver object with its own name. Each section under an interrupt guard is one
-- step; mount and umount are two steps each, since other calls run between them.
pub mod System
pub mod Slots
pub mod Calls
pub mod Users
pub mod Tests
use mathlib.Core.Option
use zonix_plus.Base.{
  Bool, Error, List, Option, Result, [], busy, err, exists_already, false, full, if◌then◌else◌,
  invalid, io, is_none, length, ltb, map, no_mem, none, not, not_found, ok, same_text, some,
  str_skip_char, str_starts_with, suc, success, true, update, zero, ℕ, ◌++◌, ◌+◌, ◌-◌, ◌==◌, ◌∷◌,
}

abbrev pub max_fs_types : ℕ
max_fs_types = 8

pub record BlockDevice : Type 0 where
  pub id : ℕ
  pub name : List ℕ

-- FileSystem and its factories. A factory may have no memory; `open` may return no file.
pub record FileSystems (W Fs F : Type 0) : Type 0 where
  pub create : ℕ → W → Option Fs × W
  pub mount_fs : Fs → Option BlockDevice → W → Error × W
  pub unmount_fs : Fs → W → W
  pub destroy : Fs → W → W
  pub open_file : Fs → List ℕ → W → Result (Option F) × W

-- MountSlot; the slots 0, 1 and 2 are for /dev, /mnt and /.
pub record MountSlot (Fs : Type 0) : Type 0 where
  pub device : Option BlockDevice
  pub device_name : Option (List ℕ)
  pub fs : Option Fs
  pub fs_type : Option (List ℕ)
  pub users : ℕ
  pub transitioning : Bool

pub record FsEntry : Type 0 where
  pub name : List ℕ
  pub factory : ℕ

-- vfs::State
pub record Vfs (Fs : Type 0) : Type 0 where
  pub registry : List FsEntry
  pub slots : ℕ → MountSlot Fs

-- "/dev", "/mnt" and "/"
abbrev pub dev_path : List ℕ
dev_path = b'/' ∷ b'd' ∷ b'e' ∷ b'v' ∷ []

abbrev pub mnt_path : List ℕ
mnt_path = b'/' ∷ b'm' ∷ b'n' ∷ b't' ∷ []

abbrev pub root_path : List ℕ
root_path = b'/' ∷ []

unfoldable pub find_slot : Option (List ℕ) → Option ℕ
unfolding same_text
find_slot none = none
find_slot (some mount_point) =
    if same_text dev_path mount_point
    then some 0
    else if same_text mnt_path mount_point
    then some 1
    else if same_text root_path mount_point
    then some 2
    else none

abbrev drop_bytes : ℕ → List ℕ → List ℕ
drop_bytes zero cs = cs
drop_bytes (suc n) [] = []
drop_bytes (suc n) (c ∷ cs) = drop_bytes n cs

-- The mount point and the rest of a path, as resolve_path tells them apart.
unfoldable pub split_path : List ℕ → List ℕ × List ℕ
unfolding same_text str_starts_with str_skip_char
split_path path =
    if same_text path dev_path
    then (dev_path, [])
    else if str_starts_with path (dev_path ++ b'/' ∷ [])
    then (dev_path, str_skip_char (drop_bytes 5 path) b'/')
    else if same_text path mnt_path
    then (mnt_path, [])
    else if str_starts_with path (mnt_path ++ b'/' ∷ [])
    then (mnt_path, str_skip_char (drop_bytes 5 path) b'/')
    else if str_starts_with path root_path
    then (root_path, str_skip_char (drop_bytes 1 path) b'/')
    else (root_path, str_skip_char path b'/')

unfoldable pub find_factory : List ℕ → List FsEntry → Option ℕ
unfolding same_text
find_factory fs_type [] = none
find_factory fs_type (e ∷ es) =
    let rest = find_factory fs_type es in if same_text e.name fs_type then some e.factory else rest

module _ {Fs : Type 0} where
  abbrev pub set_slot : ℕ → MountSlot Fs → Vfs Fs → Vfs Fs
  set_slot i slot v = record v { slots = update v.slots i slot }

  -- acquire_mount: one more user of a slot with a file system.
  unfoldable pub acquire_mount : Option (List ℕ) → Vfs Fs → Result ℕ × Vfs Fs
  unfolding find_slot
  acquire_mount mount_point v = elim (find_slot mount_point) [
    | none ↦ (err not_found, v)
    | some i ↦ elim (v.slots i).fs [
      | none ↦ (err not_found, v)
      | some fs ↦ (ok i, set_slot i (record (v.slots i) { users = (v.slots i).users + 1 }) v)
    ]
  ]

  -- ReleaseMount, and File::~File for the file's mount: none is the failed assertion.
  unfoldable pub release_mount : ℕ → Vfs Fs → Option (Vfs Fs)
  release_mount i v =
      if (v.slots i).users == 0
      then none
      else some (set_slot i (record (v.slots i) { users = (v.slots i).users - 1 }) v)

  unfoldable pub resolve_path : Option (List ℕ) → Vfs Fs → Result (ℕ × List ℕ) × Vfs Fs
  unfolding split_path acquire_mount
  resolve_path none v = (err invalid, v)
  resolve_path (some path) v =
      let (mount_point, relpath) = split_path path in
      let (r, v') = acquire_mount (some mount_point) v in
      elim r [ err e ↦ (err e, v') | ok i ↦ (ok (i, relpath), v') ]

  -- The first section of mount: the slot is reserved, and the factory found.
  unfoldable pub begin_mount : Option (List ℕ) → Option (List ℕ) → Vfs Fs → Result (ℕ × ℕ) × Vfs Fs
  unfolding find_slot find_factory
  begin_mount (some mount_point) (some fs_type) v = elim (find_slot (some mount_point)) [
    | none ↦ (err not_found, v)
    | some i ↦ if (v.slots i).transitioning then (err busy, v) else elim (v.slots i).fs [
      | some fs ↦ (err exists_already, v)
      | none ↦ elim (find_factory fs_type v.registry) [
        | none ↦ (err not_found, v)
        | some factory ↦
            (ok (i, factory), set_slot i (record (v.slots i) { transitioning = true }) v)
      ]
    ]
  ]
  begin_mount mount_point fs_type v = (err invalid, v)

  -- FinishTransition
  unfoldable pub finish_transition : ℕ → Vfs Fs → Vfs Fs
  finish_transition i v = set_slot i (record (v.slots i) { transitioning = false }) v

  -- The last section of mount.
  unfoldable pub publish_mount : ℕ → List ℕ → Option BlockDevice → Fs → Vfs Fs → Vfs Fs
  publish_mount i fs_type dev fs v =
      set_slot i
        (record (v.slots i) {
          fs_type = some fs_type;
          device = dev;
          device_name = Option.map (λ (d : BlockDevice). d.name) dev;
          fs = some fs;
        })
        v

  -- The first section of umount: the file system is taken out of its slot.
  unfoldable pub begin_umount : Option (List ℕ) → Vfs Fs → Result (ℕ × Fs) × Vfs Fs
  unfolding find_slot
  begin_umount none v = (err invalid, v)
  begin_umount (some mount_point) v = elim (find_slot (some mount_point)) [
    | none ↦ (err not_found, v)
    | some i ↦ if (v.slots i).transitioning then (err busy, v) else elim (v.slots i).fs [
      | none ↦ (err not_found, v)
      | some fs ↦
          if (v.slots i).users == 0
          then (
            ok (i, fs),
            set_slot i
                (record (v.slots i) {
                  transitioning = true;
                  fs = none;
                  fs_type = none;
                  device = none;
                  device_name = none;
                })
                v,
          )
          else (err busy, v)
    ]
  ]

  unfoldable pub is_mounted : Option (List ℕ) → Vfs Fs → Bool
  unfolding find_slot
  is_mounted mount_point v = elim (find_slot mount_point) [
    | none ↦ false
    | some i ↦ not (is_none (v.slots i).fs)
  ]

  unfoldable pub mounted_device : Option (List ℕ) → Vfs Fs → Option (List ℕ)
  unfolding find_slot
  mounted_device mount_point v = elim (find_slot mount_point) [
    | none ↦ none
    | some i ↦ if is_none (v.slots i).fs then none else (v.slots i).device_name
  ]

  unfoldable pub register_fs : Option (List ℕ) → Option ℕ → Vfs Fs → Error × Vfs Fs
  register_fs (some name) (some factory) v =
      if ltb (length v.registry) max_fs_types
      then (
        success,
        record v { registry = v.registry ++ record { name = name; factory = factory } ∷ [] },
      )
      else (full, v)
  register_fs name factory v = (invalid, v)

-- The end of a call on a path: its reference to the mount is given back. none is the failed assertion.
abbrev pub leave_mount : {W Fs A : Type 0} → ℕ → A → Vfs Fs → W → Option (A × Vfs Fs × W)
leave_mount i a v w = elim (release_mount i v) [ none ↦ none | some v' ↦ some (a, v', w) ]

-- stat, readdir, mkdir, create, unlink and rmdir. Other calls run on the mount table before the slot's
-- file system is read and while its operation runs: `meanwhile` is what they do to the table up to
-- there, and `call` the operation, with the table as it is left by then. none is a failed assertion,
-- or a null pointer for the file system.
unfoldable pub on_path :
    {W Fs A : Type 0}
    → (Vfs Fs → Vfs Fs)
    → (Fs → List ℕ → Vfs Fs → W → Result A × Vfs Fs × W)
    → Option (List ℕ)
    → Vfs Fs
    → W
    → Option (Result A × Vfs Fs × W)
unfolding resolve_path release_mount
on_path meanwhile call path v w =
    let (r, v₁) = resolve_path path v in
    elim r [
      | err e ↦ some (err e, v₁, w)
      | ok (i, relpath) ↦ elim ((meanwhile v₁).slots i).fs [
        | none ↦ none
        | some fs ↦
            let (result, v₂, w') = call fs relpath (meanwhile v₁) w in leave_mount i result v₂ w'
      ]
    ]

module _ {W Fs F : Type 0} (systems : FileSystems W Fs F) where
  -- The second section of mount: the file system is made and mounted, and published if that works.
  -- The result is its error.
  unfoldable pub finish_mount :
      ℕ → ℕ → List ℕ → Option BlockDevice → Vfs Fs → W → Error × Vfs Fs × W
  unfolding publish_mount finish_transition
  finish_mount i factory fs_type dev v w =
      let (made, w₁) = systems.create factory w in
      elim made [
        | none ↦ (no_mem, finish_transition i v, w₁)
        | some fs ↦
            let (e, w₂) = systems.mount_fs fs dev w₁ in
            elim e [
              | success ↦ (success, finish_transition i (publish_mount i fs_type dev fs v), w₂)
              | other ↦ (other, finish_transition i v, systems.destroy fs w₂)
            ]
      ]

  -- vfs::mount, when nothing else runs between its sections.
  unfoldable pub mount :
      Option (List ℕ) → Option BlockDevice → Option (List ℕ) → Vfs Fs → W → Error × Vfs Fs × W
  unfolding begin_mount finish_mount
  mount mount_point dev fs_type v w =
      let (r, v') = begin_mount mount_point fs_type v in
      elim r [
        | err e ↦ (e, v', w)
        | ok (i, factory) ↦ elim fs_type [
          | none ↦ (invalid, v', w)
          | some t ↦ finish_mount i factory t dev v' w
        ]
      ]

  -- vfs::umount
  unfoldable pub umount : Option (List ℕ) → Vfs Fs → W → Error × Vfs Fs × W
  unfolding begin_umount finish_transition
  umount mount_point v w =
      let (r, v') = begin_umount mount_point v in
      elim r [
        | err e ↦ (e, v', w)
        | ok (i, fs) ↦
            (success, finish_transition i v', systems.destroy fs (systems.unmount_fs fs w))
      ]

  -- vfs::open: the file and the slot whose user it becomes, when nothing else runs meanwhile. none is a
  -- failed assertion.
  unfoldable pub open_path : Option (List ℕ) → Vfs Fs → W → Option (Result (F × ℕ) × Vfs Fs × W)
  unfolding resolve_path release_mount
  open_path path v w =
      let (r, v') = resolve_path path v in
      elim r [
        | err e ↦ some (err e, v', w)
        | ok (i, relpath) ↦ elim relpath [
          | [] ↦ leave_mount i (err invalid) v' w
          | c ∷ cs ↦ elim (v'.slots i).fs [
            | none ↦ none
            | some fs ↦
                let (opened, w') = systems.open_file fs (c ∷ cs) w in
                elim opened [
                  | err e ↦ leave_mount i (err e) v' w'
                  | ok none ↦ leave_mount i (err io) v' w'
                  | ok (some f) ↦ some (ok (f, i), v', w')
                ]
          ]
        ]
      ]

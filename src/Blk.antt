-- ===== src/Blk.antt =====
-- kernel/block/blk.cpp: the registry of block devices. A device is the number of its object, with
-- the name and the type of the object in a function.
pub mod Registry
pub mod Tests
use zonix_plus.Base.{
  Bool, Error, List, Option, Result, [], err, exists_already, false, full, get_elem?, if◌then◌else◌,
  invalid, leb, length, none, ok, same_text, some, success, true, ℕ, ◌++◌, ◌-◌, ◌==◌, ◌||◌, ◌∷◌,
}
use zonix_plus.Swap.{DeviceType}

abbrev pub max_devices : ℕ
max_devices = 4

-- The fields of BlockDevice that are looked for.
pub record DeviceInfo : Type 0 where
  pub name : List ℕ
  pub type : DeviceType

abbrev pub is_registered : ℕ → List ℕ → Bool
is_registered dev [] = false
is_registered dev (d ∷ ds) = d == dev || is_registered dev ds

-- The first loop of register_devices: every device is there, and none is registered or given
-- twice. `before` are those that stand before it.
unfoldable pub check_devices : List (Option ℕ) → List ℕ → List ℕ → Result (List ℕ)
check_devices [] before registered = ok before
check_devices (none ∷ ds) before registered = err invalid
check_devices (some d ∷ ds) before registered =
    let rest = check_devices ds (before ++ d ∷ []) registered in
    if is_registered d registered
    then err exists_already
    else if is_registered d before
    then err exists_already
    else rest

-- BlockManager::register_devices; none is a null array with a count that is not 0.
unfoldable pub register_devices : Option (List (Option ℕ)) → List ℕ → Error × List ℕ
unfolding check_devices
register_devices none registered = (invalid, registered)
register_devices (some ds) registered =
    if leb (length ds) (max_devices - length registered)
    then elim (check_devices ds [] registered) [
      | err e ↦ (e, registered)
      | ok new ↦ (success, registered ++ new)
    ]
    else (full, registered)

-- BlockManager::register_device
unfoldable pub register_device : Option ℕ → List ℕ → Error × List ℕ
register_device dev registered = register_devices (some (dev ∷ [])) registered

-- BlockManager::find_device by name
unfoldable pub find_by_name : Option (List ℕ) → (ℕ → DeviceInfo) → List ℕ → Option ℕ
unfolding same_text
find_by_name none info ds = none
find_by_name (some name) info [] = none
find_by_name (some name) info (d ∷ ds) =
    let rest = find_by_name (some name) info ds in
    if same_text (info d).name name then some d else rest

-- BlockManager::find_device by index, which is not negative
unfoldable pub find_by_index : ℕ → List ℕ → Option ℕ
find_by_index index ds = if leb (length ds) index then none else get_elem? ds index

abbrev is_type : DeviceType → DeviceType → Bool
is_type DeviceType.no_type DeviceType.no_type = true
is_type DeviceType.disk DeviceType.disk = true
is_type DeviceType.swap DeviceType.swap = true
is_type a b = false

-- BlockManager::find_device by type
unfoldable pub find_by_type : DeviceType → (ℕ → DeviceInfo) → List ℕ → Option ℕ
find_by_type type info [] = none
find_by_type type info (d ∷ ds) =
    let rest = find_by_type type info ds in if is_type (info d).type type then some d else rest

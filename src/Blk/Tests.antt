-- ===== src/Blk/Tests.antt =====
-- Runs of the registry of block devices, and its theorem at a registry of two.
use zonix_plus.Base.{
  Error, List, Option, [], arith, exists_already, if◌then◌else◌, map, none, refl, some, success, ℕ,
  ◌+◌, ◌==◌, ◌∷◌, ◌≡◌, ◌≢◌, ◌⊎◌,
}
use zonix_plus.Swap.{DeviceType}
use zonix_plus.Blk.{
  DeviceInfo, find_by_index, find_by_name, find_by_type, register_devices, register_device,
}
use zonix_plus.Blk.Registry.{IsRegistry, register_devices-IsRegistry}

abbrev info : ℕ → DeviceInfo
info d = record {
  name = b'd' ∷ (b'0' + d) ∷ [];
  type = if d == 8 then DeviceType.swap else DeviceType.disk;
}

register_device_runs : register_device (some 7) (7 ∷ 8 ∷ []) ≡ (exists_already, 7 ∷ 8 ∷ [])
unfolding register_device register_devices
register_device_runs = refl

find_by_name_runs : find_by_name (some (b'd' ∷ b'8' ∷ [])) info (7 ∷ 8 ∷ []) ≡ some 8
unfolding find_by_name
find_by_name_runs = refl

find_by_type_runs : find_by_type DeviceType.swap info (7 ∷ 8 ∷ []) ≡ some 8
unfolding find_by_type
find_by_type_runs = refl

find_by_index_runs : find_by_index 2 (7 ∷ 8 ∷ []) ≡ none
unfolding find_by_index
find_by_index_runs = refl

register_devices-IsRegistry_example :
    (e : Error) × (after : List ℕ) × (register_devices (some (some 9 ∷ some 10 ∷ [])) (7 ∷ 8 ∷ [])
      ≡ (e, after))
    × IsRegistry after
    × (((e ≢ success) × (after ≡ 7 ∷ 8 ∷ []))
        ⊎ ((e ≡ success)
            × ((new : List ℕ) × (◌≡◌ {A = Option (List (Option ℕ))}
                  (some (some 9 ∷ some 10 ∷ []))
                  (some (map some new)))
                × (after ≡ 7 ∷ 8 ∷ new))))
register_devices-IsRegistry_example =
    register_devices-IsRegistry (some (some 9 ∷ some 10 ∷ [])) (7 ∷ 8 ∷ [])
      (record { few = omega arith; once = (((λ e. omega (arith, e)), tt), (tt, tt)) })

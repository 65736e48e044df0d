-- ===== src/Fat/Dir.antt =====
-- kernel/fs/fat/fat_dir.cpp and include/base/bpb.h: the entries of a directory, which fill the sectors
-- of its cluster chain, and the functions that look through them. An entry is its eight little-endian
-- words, a text the bytes before its NUL.
pub mod Sectors
pub mod Steps
pub mod Walk
pub mod Entries
pub mod Lookup
pub mod Remove
pub mod Ends
pub mod Tests
use zonix_plus.Base.{
  Bool, List, Option, Result, [], err, if◌then◌else◌, none, not, not_found, ok, same_text, some,
  suc, update, zero, ℕ, ◌%◌, ◌&&◌, ◌*◌, ◌+◌, ◌/◌, ◌==◌, ◌^◌, ◌||◌, ◌∷◌,
}
use zonix_plus.Fat.{cluster_to_sector}
use zonix_plus.Fat.Chain.{Chain, new_chain, next}
use zonix_plus.Fat.Names.{get_filename, to_upper}
use zonix_plus.Fat.Table.{Device, Sector, Volume, lba}

abbrev pub Entry : Type 0
Entry = ℕ → ℕ

-- SectorArray<FatDirEntry>::COUNT
abbrev pub entry_count : ℕ
entry_count = 16

abbrev pub entry_at : Sector → ℕ → Entry
entry_at sector j k = sector (8 * j + k)

-- Byte `b` of the word `w`.
abbrev pub byte_of : ℕ → ℕ → ℕ
byte_of w b = w / 2 ^ (8 * b) % 256

abbrev pub attr : Entry → ℕ
attr e = byte_of (e 2) 3

-- (attr & mask) != 0, for a mask of one bit
abbrev pub has_attr : ℕ → Entry → Bool
has_attr mask e = not (attr e / mask % 2 == 0)

unfoldable pub is_end : Entry → Bool
is_end e = byte_of (e 0) 0 == 0

unfoldable pub is_deleted : Entry → Bool
is_deleted e = byte_of (e 0) 0 == 0xE5

unfoldable pub is_directory : Entry → Bool
is_directory e = has_attr 0x10 e

unfoldable pub is_valid : Entry → Bool
unfolding is_end is_deleted
is_valid e = not (is_end e || is_deleted e) && not (has_attr 0x08 e) && not (attr e % 16 == 0x0F)

-- FatDirEntry::cluster; first_cluster_low is above write_date, first_cluster_high below write_time.
unfoldable pub cluster_of : Entry → ℕ
cluster_of e = e 5 % 2 ^ 16 * 2 ^ 16 + e 6 / 2 ^ 16

abbrev pub name_of : Entry → List ℕ × List ℕ
name_of e = (
  byte_of (e 0) 0
      ∷ byte_of (e 0) 1
      ∷ byte_of (e 0) 2
      ∷ byte_of (e 0) 3
      ∷ byte_of (e 1) 0
      ∷ byte_of (e 1) 1
      ∷ byte_of (e 1) 2
      ∷ byte_of (e 1) 3
      ∷ [],
  byte_of (e 2) 0 ∷ byte_of (e 2) 1 ∷ byte_of (e 2) 2 ∷ [],
)

-- for (k = 0; entry_name[k]; k++) entry_name[k] = to_upper(entry_name[k]);
unfoldable pub upper_text : List ℕ → List ℕ
unfolding to_upper
upper_text [] = []
upper_text (c ∷ cs) = let rest = upper_text cs in if c == 0 then [] else to_upper c ∷ rest

unfoldable pub entry_name : Entry → List ℕ
unfolding get_filename upper_text
entry_name e = upper_text (get_filename (name_of e))

-- The loop over the entries of a sector: where it stops, if it does.
pub data Seen : Type 0 where
  ended : Seen
  found : ℕ → Seen

-- The loop of find_entry and remove_dir_entry, with `n` entries left from `j` on.
unfoldable pub scan_entries : ℕ → ℕ → List ℕ → Sector → Option Seen
scan_entries zero j name sector = none
scan_entries (suc n) j name sector =
    let rest = scan_entries n (suc j) name sector in
    if is_end (entry_at sector j)
    then some ended
    else if is_valid (entry_at sector j) && same_text (entry_name (entry_at sector j)) name
    then some (found j)
    else rest

-- Where a walk over a directory stopped: the sector's block, what was read of it, and the answer.
abbrev pub Stop : Type 0 → Type 0
Stop A = ℕ × Sector × A

module _ {D A : Type 0} (dev : Device D) (look : Sector → Option A) where
  -- The loop over the sectors of a cluster, `n` left from `sector` on. A read that succeeds fills the
  -- whole buffer, so what is in it before is left out.
  unfoldable pub walk_sectors : ℕ → ℕ → Volume D → Result (Option (Stop A)) × Volume D
  walk_sectors zero sector v = (ok none, v)
  walk_sectors (suc n) sector v =
      let block = lba v.geometry sector in
      let (r, filled, d) = dev.read v.disk block (λ i. 0) in
      let left = record v { disk = d } in
      let rest = walk_sectors n (sector + 1) left in
      elim r [
        | err e ↦ (err e, left)
        | ok u ↦ elim (look filled) [ some a ↦ (ok (some (block, filled, a)), left) | none ↦ rest ]
      ]

  -- The loop over the clusters of a directory, none without fuel.
  unfoldable pub walk_dir : ℕ → Chain → Volume D → Option (Result (Option (Stop A))) × Volume D
  walk_dir zero c v = (none, v)
  walk_dir (suc fuel) c v =
      let (r, c', v') = next dev c v in
      elim r [
        | err e ↦ (some (err e), v')
        | ok zero ↦ (some (ok none), v')
        | ok (suc k) ↦
            let first = cluster_to_sector v'.geometry (suc k) in
            let (s, v'') = walk_sectors v'.geometry.sectors_per_cluster first v' in
            elim s [
              | err e ↦ (some (err e), v'')
              | ok (some stop) ↦ (some (ok (some stop)), v'')
              | ok none ↦ walk_dir fuel c' v''
            ]
      ]

-- entries[j].name[0] = 0xE5
abbrev pub mark_deleted : ℕ → Sector → Sector
mark_deleted j sector = update sector (8 * j) (sector (8 * j) / 256 * 256 + 0xE5)

-- The answer of find_entry after its walk.
abbrev pub entry_found : Option (Stop Seen) → Result Entry
entry_found none = err not_found
entry_found (some (block, sector, ended)) = err not_found
entry_found (some (block, sector, found j)) = ok (entry_at sector j)

module _ {D : Type 0} (dev : Device D) where
  -- FatInfo::find_entry
  unfoldable pub find_entry : ℕ → ℕ → List ℕ → Volume D → Option (Result Entry) × Volume D
  find_entry fuel start name v =
      let (r, v') = walk_dir dev (scan_entries entry_count 0 name) fuel (new_chain start) v in
      elim r [
        | none ↦ (none, v')
        | some (err e) ↦ (some (err e), v')
        | some (ok stop) ↦ (some (entry_found stop), v')
      ]

  -- FatInfo::remove_dir_entry
  unfoldable pub remove_dir_entry :
      ℕ → ℕ → List ℕ → Volume D → Option (Result (Unit {0})) × Volume D
  remove_dir_entry fuel start name v =
      let (r, v') = walk_dir dev (scan_entries entry_count 0 name) fuel (new_chain start) v in
      elim r [
        | none ↦ (none, v')
        | some (err e) ↦ (some (err e), v')
        | some (ok none) ↦ (some (err not_found), v')
        | some (ok (some (block, sector, ended))) ↦ (some (err not_found), v')
        | some (ok (some (block, sector, found j))) ↦
            let (w, d) = dev.write v'.disk block (mark_deleted j sector) in
            (some w, record v' { disk = d })
      ]

-- ===== src/Fat/Dir/Tests.antt =====
-- Runs of the directory functions on a directory of one cluster, and their theorems on it.
use zonix_plus.Base.{
  Error, List, Result, [], arith, err, false, if◌then◌else◌, not_found, ok, refl, same_text, some,
  true, ℕ, ◌-◌, ◌==◌, ◌^◌, ◌||◌, ◌∷◌, ◌≡◌, ◌≢◌, ◌⊎◌,
}
use zonix_plus.Fat.{Geometry, entry_sector, fat_invalid_sector, valid_cluster}
use zonix_plus.Fat.Chain.{new_chain}
use zonix_plus.Fat.Dir.{
  Entry, cluster_of, entry_at, entry_count, find_entry, is_directory, mark_deleted,
  remove_dir_entry, scan_entries, walk_dir,
}
use zonix_plus.Fat.Dir.Ends.{find_entry-ends}
use zonix_plus.Fat.Dir.Entries.{lookup}
use zonix_plus.Fat.Dir.Lookup.{Looked, dir_entries, find_entry-lookup}
use zonix_plus.Fat.Dir.Remove.{Marked, remove_dir_entry-marks}
use zonix_plus.Fat.Dir.Steps.{IsReal}
use zonix_plus.Fat.Table.{Sector, Volume}
use zonix_plus.Fat.Table.Coherence.{IsCoherent}
use zonix_plus.Fat.Tests.{memory, memory-IsDisk}

abbrev pub geometry : Geometry
geometry = record {
  partition_start_lba = 100;
  bytes_per_sector = 512;
  sectors_per_cluster = 1;
  bytes_per_cluster = 512;
  reserved_sector_count = 1;
  fat_count = 2;
  fat_start_sector = 1;
  fat_sector_count = 1;
  root_cluster = 2;
  data_start_sector = 3;
  cluster_count = 17;
  total_sector_count = 20;
}

-- README.TXT, a deleted entry, the directory BIN in cluster 5, and the end mark.
abbrev pub root_sector : Sector
root_sector w =
    if w == 0
    then 0x44414552
    else if w == 1
    then 0x2020454D
    else if w == 2
    then 0x20545854
    else if w == 8
    then 0x444145E5
    else if w == 9
    then 0x2020454D
    else if w == 10
    then 0x20545854
    else if w == 16
    then 0x204E4942
    else if w == 17
    then 0x20202020
    else if w == 18
    then 0x10202020
    else if w == 22
    then 0x50000
    else 0

-- The chain of the root directory is the cluster 2.
abbrev pub root_table : Sector
root_table w = if w == 2 then 0x0FFFFFFF else 0

abbrev pub volume : Volume (ℕ → Sector)
volume = record {
  geometry = geometry;
  mounted = true;
  buffer = λ _. 0;
  buffer_sector = 2 ^ 32 - 1;
  buffer_dirty = false;
  disk =
      λ l. if l == 101 || l == 102 then root_table else if l == 103 then root_sector else (λ _. 0);
}

pub volume-IsCoherent : IsCoherent memory memory-IsDisk volume
volume-IsCoherent = record { clean = refl; cached = λ n. absurd (n refl) }

pub geometry-IsReal : IsReal geometry
unfolding entry_sector valid_cluster
geometry-IsReal c h = ground (arith, h)

abbrev bin : List ℕ
bin = b'B' ∷ b'I' ∷ b'N' ∷ []

find_bin : (find_entry memory 18 2 bin volume).0 ≡ some (ok (entry_at root_sector 2))
unfolding find_entry walk_dir zonix_plus.Fat.Chain.next new_chain valid_cluster
    zonix_plus.Fat.Dir.walk_sectors scan_entries zonix_plus.Fat.Dir.is_end zonix_plus.Fat.Table.lba
    zonix_plus.Fat.cluster_to_sector zonix_plus.Fat.Dir.is_valid zonix_plus.Base.same_text
    zonix_plus.Fat.Dir.entry_name
find_bin = refl

bin_cluster : cluster_of (entry_at root_sector 2) ≡ 5
unfolding cluster_of
bin_cluster = refl

bin_directory : is_directory (entry_at root_sector 2) ≡ true
unfolding is_directory
bin_directory = refl

-- The name of the deleted entry, as the driver would read it.
find_none : (find_entry memory 18 2 (b'X' ∷ []) volume).0 ≡ some (err not_found)
unfolding find_entry walk_dir zonix_plus.Fat.Chain.next new_chain valid_cluster
    zonix_plus.Fat.Dir.walk_sectors scan_entries zonix_plus.Fat.Dir.is_end zonix_plus.Fat.Table.lba
    zonix_plus.Fat.cluster_to_sector zonix_plus.Fat.Dir.is_valid zonix_plus.Base.same_text
    zonix_plus.Fat.Dir.entry_name
find_none = refl

remove_bin : (remove_dir_entry memory 18 2 bin volume).0 ≡ some (ok tt)
unfolding remove_dir_entry walk_dir zonix_plus.Fat.Chain.next new_chain valid_cluster
    zonix_plus.Fat.Dir.walk_sectors scan_entries zonix_plus.Fat.Dir.is_end zonix_plus.Fat.Table.lba
    zonix_plus.Fat.cluster_to_sector zonix_plus.Fat.Dir.is_valid zonix_plus.Base.same_text
    zonix_plus.Fat.Dir.entry_name
remove_bin = refl

find_entry-lookup_example :
    Looked memory memory-IsDisk volume 2 bin (ok (entry_at root_sector 2))
    ⊎ ((e : Error) × (ok (entry_at root_sector 2) ≡ err e)
        × ((walk_dir memory (scan_entries entry_count 0 bin) 18 (new_chain 2) volume).0
            ≡ some (err e)))
find_entry-lookup_example =
    find_entry-lookup memory memory-IsDisk 18 2 bin volume (ok (entry_at root_sector 2))
      volume-IsCoherent geometry-IsReal find_bin

find_entry-ends_example : (r : Result Entry) × ((find_entry memory 18 2 bin volume).0 ≡ some r)
find_entry-ends_example = find_entry-ends memory 2 bin volume (omega arith)

abbrev after_removal : ℕ → Sector
after_removal = (remove_dir_entry memory 18 2 bin volume).1.disk

remove_dir_entry-marks_example :
    (n : ℕ) × (block : ℕ) × (j : ℕ) × (lookup bin (dir_entries memory memory-IsDisk volume n 2)
      ≡ some (entry_at (volume.disk block) j))
    × Marked j (volume.disk block) (after_removal block)
    × ((l : ℕ) → block ≢ l → after_removal l ≡ volume.disk l)
remove_dir_entry-marks_example =
    remove_dir_entry-marks memory memory-IsDisk 18 2 bin volume volume-IsCoherent geometry-IsReal
      remove_bin

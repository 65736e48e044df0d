-- ===== src/Fat/Tests.antt =====
-- Runs of the FAT32 driver on a small volume in memory, and its theorems at inputs that meet their
-- hypotheses.
use zonix_plus.Base.{
  List, Result, [], arith, bad_fs, err, false, if◌then◌else◌, ok, refl, some, true, update, ℕ, ◌%◌,
  ◌+◌, ◌-◌, ◌/◌, ◌<◌, ◌==◌, ◌^◌, ◌||◌, ◌∷◌, ◌≡◌, ◌≢◌,
}
use zonix_plus.Fat.{
  BootSector, Geometry, is_power_of_two, do_init_state, mount, valid_cluster, entry_sector,
  entry_offset,
}
use zonix_plus.Fat.Mount.{IsMounted, mount-IsMounted}
use zonix_plus.Fat.Table.{Sector, Device, Volume, lba, copy_lba, read_entry, write_entry}
use zonix_plus.Fat.Table.Coherence.{
  IsDisk, IsCoherent, IsFetched, table_word, table_entry, read_entry-table_entry,
}
use zonix_plus.Fat.Chain.{new_chain, next, follow}
use zonix_plus.Fat.Chain.Walk.{IsInside, follow-new_chain}
use zonix_plus.Fat.Table.Laws.{write_entry-table_entry, read_entry-write_entry}

-- Two tables of one sector behind the boot sector, and 17 clusters of one sector.
abbrev small : BootSector
small = record {
  bytes_per_sector = 512;
  sectors_per_cluster = 1;
  reserved_sectors = 1;
  num_fats = 2;
  root_entries = 0;
  fat_size_16 = 0;
  total_sectors_32 = 20;
  fat_size_32 = 1;
  ext_flags = 0;
  fs_version = 0;
  root_cluster = 2;
  boot_signature = 0x29;
  boot_signature_word = 0xAA55;
}

abbrev small_geometry : Geometry
unfolding do_init_state
small_geometry = do_init_state 100 small

small_mounts : mount 100 200 small ≡ ok small_geometry
unfolding mount is_power_of_two small_geometry
small_mounts = refl

no_root : mount 100 200 (record small { root_cluster = 19 }) ≡ err bad_fs
unfolding mount is_power_of_two
no_root = refl

mount-IsMounted_example : IsMounted 100 200 small_geometry
mount-IsMounted_example = mount-IsMounted 100 200 small small_geometry (omega arith) small_mounts

valid_five : valid_cluster small_geometry 5 ≡ true
unfolding valid_cluster small_geometry
valid_five = refl

valid_six : valid_cluster small_geometry 6 ≡ true
unfolding valid_cluster small_geometry
valid_six = refl

-- A device that never fails.
abbrev pub memory : Device (ℕ → Sector)
memory = record { read = λ d l s. (ok tt, d l, d); write = λ d l s. (ok tt, update d l s) }

pub memory-stores : (d : ℕ → Sector) (l : ℕ) (s : Sector) → update d l s l ≡ s
memory-stores d l s = ground arith

pub memory-frames : (d : ℕ → Sector) (l : ℕ) (s : Sector) (k : ℕ) → l ≢ k → update d l s k ≡ d k
memory-frames d l s k n = ground arith

abbrev pub memory-IsDisk : IsDisk memory
memory-IsDisk = record {
  content = λ d. d;
  read_fills = λ d l s h. refl;
  read_keeps = λ d l s. refl;
  write_stores = λ d l s h. memory-stores d l s;
  write_frames = memory-frames;
}

-- The chain 2 → 5 → 6, in both tables; nothing is cached.
abbrev table : Sector
table w = if w == 2 then 5 else if w == 5 then 6 else if w == 6 then 0x0FFFFFFF else 0

abbrev volume : Volume (ℕ → Sector)
volume = record {
  geometry = small_geometry;
  mounted = true;
  buffer = λ _. 0;
  buffer_sector = 2 ^ 32 - 1;
  buffer_dirty = false;
  disk = λ l. if l == 101 || l == 102 then table else (λ _. 0);
}

volume-IsCoherent : IsCoherent memory memory-IsDisk volume
volume-IsCoherent = record { clean = refl; cached = λ n. absurd (n refl) }

read_five : (read_entry memory 5 volume).0 ≡ ok 6
unfolding read_entry lba valid_cluster entry_sector entry_offset small_geometry
read_five = refl

read_entry-table_entry_example :
    (6 ≡ table_entry memory memory-IsDisk volume 5)
    × IsFetched memory memory-IsDisk
        (entry_sector small_geometry 5)
        volume
        (read_entry memory 5 volume).1
unfolding entry_sector small_geometry
read_entry-table_entry_example =
    read_entry-table_entry memory memory-IsDisk 5 volume 6 volume-IsCoherent (omega arith) read_five

abbrev cut : Volume (ℕ → Sector)
unfolding write_entry lba copy_lba entry_sector entry_offset small_geometry
cut = (write_entry memory 5 0x0FFFFFFF volume).1

cut_succeeds : (write_entry memory 5 0x0FFFFFFF volume).0 ≡ ok tt
unfolding write_entry lba copy_lba entry_sector entry_offset small_geometry
cut_succeeds = refl

write_entry-table_entry_example :
    (table_entry memory memory-IsDisk (write_entry memory 5 0x0FFFFFFF volume).1 5
      ≡ 0x0FFFFFFF % 2 ^ 28)
    × (table_word memory memory-IsDisk (write_entry memory 5 0x0FFFFFFF volume).1 5 / 2 ^ 28
        ≡ table_word memory memory-IsDisk volume 5 / 2 ^ 28)
    × ((c' : ℕ)
        → valid_cluster small_geometry c' ≡ true
        → 5 ≢ c'
        → table_word memory memory-IsDisk (write_entry memory 5 0x0FFFFFFF volume).1 c'
          ≡ table_word memory memory-IsDisk volume c')
    × ((i j : ℕ)
        → i < small_geometry.fat_count
        → j < small_geometry.fat_count
        → (write_entry memory 5 0x0FFFFFFF volume).1.disk
            (copy_lba small_geometry (entry_sector small_geometry 5) i)
          ≡ (write_entry memory 5 0x0FFFFFFF volume).1.disk
              (copy_lba small_geometry (entry_sector small_geometry 5) j))
    × IsCoherent memory memory-IsDisk (write_entry memory 5 0x0FFFFFFF volume).1
write_entry-table_entry_example =
    write_entry-table_entry memory memory-IsDisk 100 200 5 0x0FFFFFFF volume mount-IsMounted_example
      (omega arith) volume-IsCoherent valid_five cut_succeeds

reread_six : (read_entry memory 6 (write_entry memory 5 0x0FFFFFFF volume).1).0 ≡ ok 0x0FFFFFFF
unfolding read_entry write_entry lba copy_lba valid_cluster entry_sector entry_offset small_geometry
reread_six = refl

read_entry-write_entry_example :
    0x0FFFFFFF ≡ (if 5 == 6 then 0x0FFFFFFF % 2 ^ 28 else table_entry memory memory-IsDisk volume 6)
read_entry-write_entry_example =
    read_entry-write_entry memory memory-IsDisk 100 200 5 0x0FFFFFFF 6 0x0FFFFFFF volume
      mount-IsMounted_example (omega arith) volume-IsCoherent valid_five valid_six cut_succeeds
      reread_six

follows_chain : (follow memory 18 (new_chain 2) volume).0 ≡ some (ok (2 ∷ 5 ∷ 6 ∷ []))
unfolding follow new_chain read_entry lba valid_cluster entry_sector entry_offset small_geometry
follows_chain = refl

-- With the last link leading back to cluster 5, the cycle is found.
abbrev cyclic : Volume (ℕ → Sector)
cyclic = record volume { disk = λ l w. if w == 6 then 5 else table w }

finds_cycle : (follow memory 18 (new_chain 2) cyclic).0 ≡ some (err bad_fs)
unfolding follow new_chain read_entry lba valid_cluster entry_sector entry_offset small_geometry
finds_cycle = refl

next_two : (next memory (new_chain 2) volume).0 ≡ ok 2
unfolding next new_chain valid_cluster small_geometry
next_two = refl

follow-new_chain_example :
    (r : Result (List ℕ)) × ((follow memory
        (small_geometry.cluster_count + 1)
        (new_chain 2)
        cyclic).0
      ≡ some r)
    × IsInside small_geometry 0 r
unfolding small_geometry
follow-new_chain_example = follow-new_chain memory 2 cyclic (omega arith)

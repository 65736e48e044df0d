-- ===== src/Fat.antt =====
-- kernel/fs/fat.h, kernel/fs/fat/fat_core.cpp and the boot sector of include/base/bpb.h: the FAT32
-- volume, its geometry and its mount. Integers are natural numbers, wrapped where the source's
-- uint32_t can wrap; a field's width is stated where a proof needs it.
pub mod Names
pub mod Mount
pub mod Table
pub mod Chain
pub mod Dir
pub mod Calls
pub mod Tests
use zonix_plus.Base.{
  Bool, Result, bad_fs, bit_and, ensure, if◌then◌else◌, leb, ltb, not, not_supported, ok, ℕ, ◌%◌,
  ◌&&◌, ◌*◌, ◌+◌, ◌-◌, ◌/◌, ◌==◌, ◌>>=◌, ◌>>◌, ◌^◌, ◌||◌,
}

abbrev pub u32 : ℕ
u32 = 2 ^ 32

abbrev pub fat32_reserved_min : ℕ
fat32_reserved_min = 0x0FFFFFF0

abbrev pub fat32_eoc_min : ℕ
fat32_eoc_min = 0x0FFFFFF8

abbrev pub fat32_eoc_max : ℕ
fat32_eoc_max = 0x0FFFFFFF

abbrev pub fat_invalid_sector : ℕ
fat_invalid_sector = 2 ^ 32 - 1

-- The fields of Fat32BootSector that the driver reads.
pub record BootSector : Type 0 where
  pub bytes_per_sector : ℕ
  pub sectors_per_cluster : ℕ
  pub reserved_sectors : ℕ
  pub num_fats : ℕ
  pub root_entries : ℕ
  pub fat_size_16 : ℕ
  pub total_sectors_32 : ℕ
  pub fat_size_32 : ℕ
  pub ext_flags : ℕ
  pub fs_version : ℕ
  pub root_cluster : ℕ
  pub boot_signature : ℕ
  pub boot_signature_word : ℕ

unfoldable pub is_fat32 : BootSector → Bool
is_fat32 bs =
    bs.boot_signature_word == 0xAA55 && bs.boot_signature == 0x29 && not (bs.total_sectors_32 == 0)

-- The geometry that a mounted FatInfo holds.
pub record Geometry : Type 0 where
  pub partition_start_lba : ℕ
  pub bytes_per_sector : ℕ
  pub sectors_per_cluster : ℕ
  pub bytes_per_cluster : ℕ
  pub reserved_sector_count : ℕ
  pub fat_count : ℕ
  pub fat_start_sector : ℕ
  pub fat_sector_count : ℕ
  pub root_cluster : ℕ
  pub data_start_sector : ℕ
  pub cluster_count : ℕ
  pub total_sector_count : ℕ

-- FatInfo::do_init_state, in 32-bit arithmetic.
unfoldable pub do_init_state : ℕ → BootSector → Geometry
do_init_state partition_start bs =
    let data_start = (bs.reserved_sectors + bs.num_fats * bs.fat_size_32 % u32) % u32 in
    let data_sectors = (bs.total_sectors_32 + u32 - data_start) % u32 in
    record {
      partition_start_lba = partition_start;
      bytes_per_sector = bs.bytes_per_sector;
      sectors_per_cluster = bs.sectors_per_cluster;
      bytes_per_cluster = bs.bytes_per_sector * bs.sectors_per_cluster % u32;
      reserved_sector_count = bs.reserved_sectors;
      fat_count = bs.num_fats;
      fat_start_sector = bs.reserved_sectors;
      fat_sector_count = bs.fat_size_32;
      root_cluster = bs.root_cluster;
      data_start_sector = data_start;
      cluster_count = data_sectors / bs.sectors_per_cluster;
      total_sector_count = bs.total_sectors_32;
    }

-- (x & (x - 1)) == 0, for x != 0
unfoldable pub is_power_of_two : ℕ → Bool
is_power_of_two x = bit_and x (x - 1) == 0

-- The checks of FatInfo::mount on a boot sector, in their order, with 64-bit sums and products.
unfoldable pub check_boot_sector : ℕ → ℕ → BootSector → Result (Unit {0})
unfolding is_fat32
check_boot_sector part_start block_count bs = do
  ensure (is_fat32 bs) bad_fs
  ensure (not (bs.bytes_per_sector == 0)) bad_fs
  ensure
      (bs.bytes_per_sector == 512
        || bs.bytes_per_sector == 1024
        || bs.bytes_per_sector == 2048
        || bs.bytes_per_sector == 4096)
      bad_fs
  ensure (bs.bytes_per_sector == 512) not_supported
  ensure
      (not (bs.sectors_per_cluster == 0)
        && leb bs.sectors_per_cluster 128
        && is_power_of_two bs.sectors_per_cluster)
      bad_fs
  ensure
      (not (bs.reserved_sectors == 0)
        && not (bs.num_fats == 0)
        && leb bs.num_fats 2
        && not (bs.fat_size_32 == 0)
        && bs.root_entries == 0
        && bs.fat_size_16 == 0)
      bad_fs
  ensure (bs.fs_version == 0 && bit_and bs.ext_flags 0x80 == 0) not_supported
  let data_start = bs.reserved_sectors + bs.num_fats * bs.fat_size_32
  ensure (ltb data_start bs.total_sectors_32) bad_fs
  ensure (leb (part_start + bs.total_sectors_32) block_count) bad_fs
  let clusters = (bs.total_sectors_32 - data_start) / bs.sectors_per_cluster
  ensure (not (clusters == 0) && leb (clusters + 2) fat32_reserved_min) bad_fs
  ensure (leb ((clusters + 2) * 4) (bs.fat_size_32 * bs.bytes_per_sector)) bad_fs
  ensure (leb 2 bs.root_cluster && ltb bs.root_cluster (clusters + 2)) bad_fs

-- FatInfo::mount, after the partition was found and its boot sector read.
unfoldable pub mount : ℕ → ℕ → BootSector → Result Geometry
unfolding check_boot_sector do_init_state
mount part_start block_count bs = do
  check_boot_sector part_start block_count bs
  ok (do_init_state part_start bs)

unfoldable pub valid_cluster : Geometry → ℕ → Bool
valid_cluster g cluster = leb 2 cluster && ltb cluster ((g.cluster_count + 2) % u32)

-- FatInfo::cluster_to_sector, relative to the partition.
unfoldable pub cluster_to_sector : Geometry → ℕ → ℕ
cluster_to_sector g cluster =
    if ltb cluster 2
    then 0
    else (g.data_start_sector + (cluster - 2) * g.sectors_per_cluster % u32) % u32

-- Of read_entry and write_entry: the sector and the byte in it of a cluster's table entry.
unfoldable pub entry_sector : Geometry → ℕ → ℕ
entry_sector g cluster = (g.fat_start_sector + cluster * 4 % u32 / g.bytes_per_sector) % u32

unfoldable pub entry_offset : Geometry → ℕ → ℕ
entry_offset g cluster = cluster * 4 % u32 % g.bytes_per_sector

-- ===== src/Fat/Table.antt =====
-- kernel/fs/fat/fat_core.cpp: read_entry and write_entry, which go through a cache of one sector of
-- the file allocation table. A sector of the table is its 128 little-endian words. The block device
-- (block/blk.h) is a parameter: its calls return an error code, and a read also what it left in the
-- buffer, which it may have changed before it failed.
pub mod Coherence
pub mod Update
pub mod Entry
pub mod Laws
use zonix_plus.Base.{
  Bool, Result, bad_fs, err, false, if◌then◌else◌, invalid, leb, ltb, not, ok, suc, true, update,
  zero, ℕ, ◌%◌, ◌&&◌, ◌*◌, ◌+◌, ◌/◌, ◌==◌, ◌^◌,
}
use zonix_plus.Fat.{u32, fat_invalid_sector, Geometry, valid_cluster, entry_sector, entry_offset}

abbrev pub Sector : Type 0
Sector = ℕ → ℕ

-- BlockDevice::read and BlockDevice::write of one block.
pub record Device (D : Type 0) : Type 0 where
  pub read : D → ℕ → Sector → Result (Unit {0}) × Sector × D
  pub write : D → ℕ → Sector → Result (Unit {0}) × D

-- FatInfo: `dev_` is null until a mount, `buffer_` holds the sector `buffer_sector_`.
pub record Volume (D : Type 0) : Type 0 where
  pub geometry : Geometry
  pub mounted : Bool
  pub buffer : Sector
  pub buffer_sector : ℕ
  pub buffer_dirty : Bool
  pub disk : D

-- partition_start_lba_ + sector
unfoldable pub lba : Geometry → ℕ → ℕ
lba g sector = (g.partition_start_lba + sector) % u32

-- The sector of copy `i` of the table.
unfoldable pub copy_lba : Geometry → ℕ → ℕ → ℕ
copy_lba g sector i = (g.partition_start_lba + sector + i * g.fat_sector_count) % u32

-- (old & 0xF0000000) | (value & FAT32_CLUSTER_MASK), on 32-bit words.
unfoldable pub merge_entry : ℕ → ℕ → ℕ
merge_entry old value = old / 2 ^ 28 * 2 ^ 28 + value % 2 ^ 28

module _ {D : Type 0} (dev : Device D) where
  -- TRY(dev_->read(partition_start_lba_ + fat_sector, buffer_, 1)); buffer_sector_ = fat_sector;
  unfoldable pub load_sector : ℕ → Volume D → Result (Unit {0}) × Volume D
  load_sector sector v =
      let (r, filled, d) = dev.read v.disk (lba v.geometry sector) v.buffer in
      let left = record v { buffer = filled; disk = d } in
      elim r [ ok u ↦ (ok tt, record left { buffer_sector = sector }) | err e ↦ (err e, left) ]

  unfoldable pub fetch_sector : ℕ → Volume D → Result (Unit {0}) × Volume D
  unfolding load_sector
  fetch_sector sector v = if sector == v.buffer_sector then (ok tt, v) else load_sector sector v

  unfoldable pub read_entry : ℕ → Volume D → Result ℕ × Volume D
  unfolding fetch_sector
  read_entry cluster v =
      if v.mounted && valid_cluster v.geometry cluster
      then (let (r, v') = fetch_sector (entry_sector v.geometry cluster) v in
          elim r [
            | ok u ↦ (ok (v'.buffer (entry_offset v.geometry cluster / 4) % 2 ^ 28), v')
            | err e ↦ (err e, v')
          ])
      else (err bad_fs, v)

  -- for (i = first; i < fat_count_; i++) TRY(dev_->write(abs_sector, buffer_, 1)), `n` rounds left.
  unfoldable pub write_copies : ℕ → ℕ → ℕ → Volume D → Result (Unit {0}) × Volume D
  write_copies sector i zero v = (ok tt, v)
  write_copies sector i (suc n) v =
      let (r, d) = dev.write v.disk (copy_lba v.geometry sector i) v.buffer in
      let v' = record v { disk = d } in
      let rest = write_copies sector (i + 1) n v' in elim r [ ok u ↦ rest | err e ↦ (err e, v') ]

  -- Write the buffer to all copies and mark it clean; an error leaves it dirty.
  unfoldable pub flush : Volume D → Result (Unit {0}) × Volume D
  unfolding write_copies
  flush v =
      let (r, v') = write_copies v.buffer_sector 0 v.geometry.fat_count v in
      elim r [ ok u ↦ (ok tt, record v' { buffer_dirty = false }) | err e ↦ (err e, v') ]

  -- Bring the entry's sector into the buffer, a dirty buffer being written first.
  unfoldable pub switch_sector : ℕ → Volume D → Result (Unit {0}) × Volume D
  unfolding flush load_sector
  switch_sector sector v =
      if sector == v.buffer_sector
      then (ok tt, v)
      else if v.buffer_dirty && not (v.buffer_sector == fat_invalid_sector)
      then (let (r, v') = flush v in elim r [ ok u ↦ load_sector sector v' | err e ↦ (err e, v') ])
      else load_sector sector v

  unfoldable pub store_entry : ℕ → ℕ → Volume D → Volume D
  unfolding merge_entry
  store_entry cluster value v =
      let word = entry_offset v.geometry cluster / 4 in
      record v {
        buffer = update v.buffer word (merge_entry (v.buffer word) value);
        buffer_dirty = true;
      }

  unfoldable pub write_entry : ℕ → ℕ → Volume D → Result (Unit {0}) × Volume D
  unfolding switch_sector store_entry
  write_entry cluster value v =
      if leb 2 cluster && ltb cluster ((v.geometry.cluster_count + 2) % u32)
      then (let (r, v') = switch_sector (entry_sector v.geometry cluster) v in
          elim r [ ok u ↦ flush (store_entry cluster value v') | err e ↦ (err e, v') ])
      else (err invalid, v)

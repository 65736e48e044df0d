-- ===== src/Fat/Table/Coherence.antt =====
-- The sector cache of the table: while it is coherent, read_entry gives what the disk holds.
use zonix_plus.Base.{
  ==→eq, Bool-cases, Error, Result-cases, arith, err, false, inl, inr, ok, refl, sym, true, ℕ, ◌%◌,
  ◌/◌, ◌==◌, ◌^◌, ◌∙◌, ◌≡◌, ◌≢◌,
}
use zonix_plus.Fat.{fat_invalid_sector, valid_cluster, entry_sector, entry_offset}
use zonix_plus.Fat.Table.{Sector, Device, Volume, lba, load_sector, fetch_sector, read_entry}

-- What the table code relies on: a read that succeeds fills the buffer and changes no block; a write
-- that succeeds stores the block, and no write touches another block. A failed write may have
-- changed its block, and a failed read its buffer.
pub record IsDisk {D : Type 0} (dev : Device D) : Type 0 where
  pub content : D → ℕ → Sector
  pub read_fills :
      (d : D) (l : ℕ) (s : Sector) → (dev.read d l s).0 ≡ ok tt → (dev.read d l s).1 ≡ content d l
  pub read_keeps : (d : D) (l : ℕ) (s : Sector) → content (dev.read d l s).2 ≡ content d
  pub write_stores :
      (d : D) (l : ℕ) (s : Sector) → (dev.write d l s).0 ≡ ok tt → content (dev.write d l s).1 l ≡ s
  pub write_frames :
      (d : D) (l : ℕ) (s : Sector) (k : ℕ) → l ≢ k → content (dev.write d l s).1 k ≡ content d k

module _ {D : Type 0} (dev : Device D) (disk : IsDisk dev) where
  open disk use {content}

  -- The cache is clean, and holds its sector if it holds one.
  pub record IsCoherent (v : Volume D) : Type 0 where
    pub clean : v.buffer_dirty ≡ false
    pub cached :
        v.buffer_sector ≢ fat_invalid_sector
        → v.buffer ≡ content v.disk (lba v.geometry v.buffer_sector)

  -- The word of the first table for a cluster, and its 28 low bits.
  abbrev pub table_word : Volume D → ℕ → ℕ
  table_word v c =
      content v.disk (lba v.geometry (entry_sector v.geometry c)) (entry_offset v.geometry c / 4)

  abbrev pub table_entry : Volume D → ℕ → ℕ
  table_entry v c = table_word v c % 2 ^ 28

  -- What loading a sector does when the device succeeds.
  pub load_sector-ok :
      (sector : ℕ) (v : Volume D)
      → (load_sector dev sector v).0 ≡ ok tt
      → ((load_sector dev sector v).1.geometry ≡ v.geometry)
        × ((load_sector dev sector v).1.mounted ≡ v.mounted)
        × ((load_sector dev sector v).1.buffer_sector ≡ sector)
        × ((load_sector dev sector v).1.buffer_dirty ≡ v.buffer_dirty)
        × ((load_sector dev sector v).1.buffer ≡ content v.disk (lba v.geometry sector))
        × (content (load_sector dev sector v).1.disk ≡ content v.disk)
  unfolding load_sector
  load_sector-ok sector v h =
      elim (Result-cases (dev.read v.disk (lba v.geometry sector) v.buffer).0) [
        | inl (u, e) ↦
            rw (e, load_sector)
              (
                refl,
                refl,
                refl,
                refl,
                disk.read_fills v.disk (lba v.geometry sector) v.buffer e,
                disk.read_keeps v.disk (lba v.geometry sector) v.buffer,
              )
        | inr (x, e) ↦ absurd (ground arith)
      ]

  -- Loading a sector into a clean cache leaves it coherent.
  pub load_sector-IsCoherent :
      (sector : ℕ) (v : Volume D)
      → v.buffer_dirty ≡ false
      → (load_sector dev sector v).0 ≡ ok tt
      → IsCoherent (load_sector dev sector v).1
  load_sector-IsCoherent sector v clean h =
      let (g, m, at, dirty, filled, same) = load_sector-ok sector v h in
      record { clean = dirty ∙ clean; cached = λ _. filled ∙ rw (g, at, same) refl }

  -- The state `w` has the sector in its buffer, and is otherwise as `v`.
  pub record IsFetched (sector : ℕ) (v w : Volume D) : Type 0 where
    pub coherent : IsCoherent w
    pub geometry : w.geometry ≡ v.geometry
    pub mounted : w.mounted ≡ v.mounted
    pub at : w.buffer_sector ≡ sector
    pub filled : w.buffer ≡ content v.disk (lba v.geometry sector)
    pub same : content w.disk ≡ content v.disk

  pub hit-IsFetched :
      (sector : ℕ) (v : Volume D)
      → IsCoherent v
      → sector ≢ fat_invalid_sector
      → sector ≡ v.buffer_sector
      → IsFetched sector v v
  hit-IsFetched sector v coherent real at = record {
    coherent = coherent;
    geometry = refl;
    mounted = refl;
    at = sym at;
    filled = rw at (coherent.cached (rw at at real));
    same = refl;
  }

  pub load-IsFetched :
      (sector : ℕ) (v : Volume D)
      → v.buffer_dirty ≡ false
      → (load_sector dev sector v).0 ≡ ok tt
      → IsFetched sector v (load_sector dev sector v).1
  load-IsFetched sector v clean h =
      let (g, m, at, dirty, filled, same) = load_sector-ok sector v h in
      record {
        coherent = load_sector-IsCoherent sector v clean h;
        geometry = g;
        mounted = m;
        at = at;
        filled = filled;
        same = same;
      }

  fetch_hit :
      (sector : ℕ) (v : Volume D)
      → (sector == v.buffer_sector) ≡ true
      → fetch_sector dev sector v ≡ (ok tt, v)
  unfolding fetch_sector
  fetch_hit sector v e = rw e refl

  fetch_miss :
      (sector : ℕ) (v : Volume D)
      → (sector == v.buffer_sector) ≡ false
      → fetch_sector dev sector v ≡ load_sector dev sector v
  unfolding fetch_sector
  fetch_miss sector v e = rw e refl

  fetch-IsFetched :
      (sector : ℕ) (v : Volume D)
      → IsCoherent v
      → sector ≢ fat_invalid_sector
      → (fetch_sector dev sector v).0 ≡ ok tt
      → IsFetched sector v (fetch_sector dev sector v).1
  fetch-IsFetched sector v coherent real h = elim (Bool-cases (sector == v.buffer_sector)) [
    | inl e ↦ rw (fetch_hit sector v e) (hit-IsFetched sector v coherent real (==→eq _ _ e))
    | inr e ↦
        rw (fetch_miss sector v e)
          (load-IsFetched sector v coherent.clean (rw (fetch_miss sector v e) at h))
  ]

  pub read_entry-fetch :
      (c : ℕ) (v : Volume D) (x : ℕ)
      → (read_entry dev c v).0 ≡ ok x
      → (valid_cluster v.geometry c ≡ true)
        × (v.mounted ≡ true)
        × ((fetch_sector dev (entry_sector v.geometry c) v).0 ≡ ok tt)
        × ((read_entry dev c v).1 ≡ (fetch_sector dev (entry_sector v.geometry c) v).1)
        × (x
            ≡ (fetch_sector dev (entry_sector v.geometry c) v).1.buffer
                (entry_offset v.geometry c / 4)
              % 2 ^ 28)
  unfolding read_entry
  read_entry-fetch c v x h = ground arith

  -- From a coherent cache, a read of an entry that succeeds gives the entry that the disk holds,
  -- cached or not, leaves the cache coherent and changes neither the geometry nor any block.
  pub read_entry-table_entry :
      (c : ℕ) (v : Volume D) (x : ℕ)
      → IsCoherent v
      → entry_sector v.geometry c ≢ fat_invalid_sector
      → (read_entry dev c v).0 ≡ ok x
      → (x ≡ table_entry v c) × IsFetched (entry_sector v.geometry c) v (read_entry dev c v).1
  read_entry-table_entry c v x coherent real h =
      let (valid, m, r, e, y) = read_entry-fetch c v x h in
      let f = fetch-IsFetched (entry_sector v.geometry c) v coherent real r in
      (y ∙ rw f.filled refl, rw e f)

  -- If the read of an entry's sector fails after it has changed the buffer to `junk`, the cache still
  -- answers for the sector it held before: an entry of that sector is then read from `junk`.
  pub read_entry-stale :
      (c c' : ℕ) (v : Volume D) (e : Error) (junk : Sector) (d : D)
      → v.mounted ≡ true
      → valid_cluster v.geometry c ≡ true
      → valid_cluster v.geometry c' ≡ true
      → v.buffer_sector ≢ entry_sector v.geometry c
      → v.buffer_sector ≡ entry_sector v.geometry c'
      → dev.read v.disk (lba v.geometry (entry_sector v.geometry c)) v.buffer ≡ (err e, junk, d)
      → ((read_entry dev c v).0 ≡ err e)
        × ((read_entry dev c' (read_entry dev c v).1).0
            ≡ ok (junk (entry_offset v.geometry c' / 4) % 2 ^ 28))
  unfolding read_entry fetch_sector load_sector
  read_entry-stale c c' v e junk d m valid valid' ne same failed = ground arith

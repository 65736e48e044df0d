-- ===== src/Fat/Table/Update.antt =====
-- write_entry: the entry is changed in every copy of the table, and nothing else is.
use zonix_plus.Base.{
  ==→eq, Bool-cases, Result-cases, arith, false, inl, inr, leb, ltb, ok, refl, suc, true, zero, ℕ,
  ◌%◌, ◌&&◌, ◌+◌, ◌<◌, ◌==◌, ◌∙◌, ◌≡◌, ◌≢◌, ◌≤◌,
}
use zonix_plus.Fat.{u32, fat_invalid_sector, Geometry, valid_cluster, entry_sector}
use zonix_plus.Fat.Table.{
  Device, Volume, copy_lba, load_sector, write_copies, flush, switch_sector, store_entry,
  write_entry,
}
use zonix_plus.Fat.Table.Coherence.{IsDisk, IsCoherent, IsFetched, hit-IsFetched, load-IsFetched}

-- The copies of the sector are different blocks.
abbrev pub CopiesApart : Geometry → ℕ → Type 0
CopiesApart g sector =
    (j k : ℕ) → j < k → k < g.fat_count → copy_lba g sector k ≢ copy_lba g sector j

module _ {D : Type 0} (dev : Device D) (disk : IsDisk dev) where
  open disk use {content}

  -- From `v` to `w` the copies `i` to `i + n - 1` of a sector got the buffer, and no other block
  -- was changed.
  pub record IsWritten (sector i n : ℕ) (v w : Volume D) : Type 0 where
    pub geometry : w.geometry ≡ v.geometry
    pub mounted : w.mounted ≡ v.mounted
    pub buffer : w.buffer ≡ v.buffer
    pub at : w.buffer_sector ≡ v.buffer_sector
    pub stored :
        (j : ℕ) → i ≤ j → j < i + n → content w.disk (copy_lba v.geometry sector j) ≡ v.buffer
    pub framed :
        (l : ℕ)
        → ((j : ℕ) → i ≤ j → j < i + n → copy_lba v.geometry sector j ≢ l)
        → content w.disk l ≡ content v.disk l

  -- The disk after one more copy.
  after_write : ℕ → ℕ → Volume D → Volume D
  after_write sector i v = record v {
    disk = (dev.write v.disk (copy_lba v.geometry sector i) v.buffer).1;
  }

  write_copies-step :
      (sector i n : ℕ) (v : Volume D)
      → (write_copies dev sector i (suc n) v).0 ≡ ok tt
      → ((dev.write v.disk (copy_lba v.geometry sector i) v.buffer).0 ≡ ok tt)
        × (write_copies dev sector i (suc n) v
            ≡ write_copies dev sector (i + 1) n (after_write sector i v))
  unfolding write_copies after_write
  write_copies-step sector i n v h =
      elim (Result-cases (dev.write v.disk (copy_lba v.geometry sector i) v.buffer).0) [
        | inl (u, e) ↦ (e, rw (e, write_copies) refl)
        | inr (x, e) ↦ absurd (ground arith)
      ]

  step-IsWritten :
      (sector i n : ℕ) (v w : Volume D)
      → CopiesApart v.geometry sector
      → i + suc n ≤ v.geometry.fat_count
      → (dev.write v.disk (copy_lba v.geometry sector i) v.buffer).0 ≡ ok tt
      → IsWritten sector (i + 1) n (after_write sector i v) w
      → IsWritten sector i (suc n) v w
  unfolding after_write
  step-IsWritten sector i n v w apart room first rest = record {
    geometry = rest.geometry;
    mounted = rest.mounted;
    buffer = rest.buffer;
    at = rest.at;
    stored = λ j lo hi. elim (Bool-cases (i == j)) [
      | inl e ↦
          let same : i ≡ j = ==→eq _ _ e in
          rw (← same) (
            rest.framed (copy_lba v.geometry sector i)
              (λ k l h. apart i k (omega arith) (omega arith))
            ∙ disk.write_stores v.disk (copy_lba v.geometry sector i) v.buffer first)
      | inr e ↦ rest.stored j (ground arith) (omega arith)
    ];
    framed = λ l away.
        rest.framed l (λ j lo hi. away j (omega arith) (omega arith))
        ∙ disk.write_frames v.disk (copy_lba v.geometry sector i) v.buffer l
            (away i (omega arith) (omega arith));
  }

  write_copies-zero : (sector i : ℕ) (v : Volume D) → write_copies dev sector i zero v ≡ (ok tt, v)
  unfolding write_copies
  write_copies-zero sector i v = refl

  write_copies-IsWritten :
      (sector i n : ℕ) (v : Volume D)
      → CopiesApart v.geometry sector
      → i + n ≤ v.geometry.fat_count
      → (write_copies dev sector i n v).0 ≡ ok tt
      → IsWritten sector i n v (write_copies dev sector i n v).1
  unfolding after_write
  write_copies-IsWritten sector i zero v apart room h = rw (write_copies-zero sector i v) (record {
    geometry = refl;
    mounted = refl;
    buffer = refl;
    at = refl;
    stored = λ j lo hi. absurd (omega arith);
    framed = λ l away. refl;
  })
  write_copies-IsWritten sector i (suc n) v apart room h =
      let (first, e) = write_copies-step sector i n v h in
      rw e (
        step-IsWritten sector i n v _ apart room first (
          write_copies-IsWritten sector (i + 1) n (after_write sector i v) apart (omega arith)
            (rw e at h)))

  flush-copies :
      (v : Volume D)
      → (flush dev v).0 ≡ ok tt
      → ((write_copies dev v.buffer_sector 0 v.geometry.fat_count v).0 ≡ ok tt)
        × ((flush dev v).1 ≡ record (write_copies dev v.buffer_sector 0 v.geometry.fat_count v).1 {
          buffer_dirty = false;
        })
  unfolding flush
  flush-copies v h =
      elim (Result-cases (write_copies dev v.buffer_sector 0 v.geometry.fat_count v).0) [
        | inl (u, e) ↦ (e, ground arith)
        | inr (x, e) ↦ absurd (ground arith)
      ]

  -- A flush that succeeds writes the buffer to all copies of its sector, and cleans the cache.
  pub flush-IsWritten :
      (v : Volume D)
      → CopiesApart v.geometry v.buffer_sector
      → (flush dev v).0 ≡ ok tt
      → IsWritten v.buffer_sector 0 v.geometry.fat_count v (flush dev v).1
        × ((flush dev v).1.buffer_dirty ≡ false)
  flush-IsWritten v apart h =
      let (done, e) = flush-copies v h in
      let w =
        write_copies-IsWritten v.buffer_sector 0 v.geometry.fat_count v apart (omega arith) done in
      rw e (
        record {
          geometry = w.geometry;
          mounted = w.mounted;
          buffer = w.buffer;
          at = w.at;
          stored = w.stored;
          framed = w.framed;
        },
        refl,
      )

  switch_hit :
      (sector : ℕ) (v : Volume D)
      → (sector == v.buffer_sector) ≡ true
      → switch_sector dev sector v ≡ (ok tt, v)
  unfolding switch_sector
  switch_hit sector v e = rw e refl

  switch_miss :
      (sector : ℕ) (v : Volume D)
      → v.buffer_dirty ≡ false
      → (sector == v.buffer_sector) ≡ false
      → switch_sector dev sector v ≡ load_sector dev sector v
  unfolding switch_sector
  switch_miss sector v clean e = rw (e, clean) refl

  pub switch-IsFetched :
      (sector : ℕ) (v : Volume D)
      → IsCoherent dev disk v
      → sector ≢ fat_invalid_sector
      → (switch_sector dev sector v).0 ≡ ok tt
      → IsFetched dev disk sector v (switch_sector dev sector v).1
  switch-IsFetched sector v coherent real h = elim (Bool-cases (sector == v.buffer_sector)) [
    | inl e ↦
        rw (switch_hit sector v e) (hit-IsFetched dev disk sector v coherent real (==→eq _ _ e))
    | inr e ↦ rw (switch_miss sector v coherent.clean e) (
        load-IsFetched dev disk sector v coherent.clean
          (rw (switch_miss sector v coherent.clean e) at h))
  ]

  pub write_entry-flush :
      (c value : ℕ) (v : Volume D)
      → (write_entry dev c value v).0 ≡ ok tt
      → (valid_cluster v.geometry c ≡ true)
        × ((switch_sector dev (entry_sector v.geometry c) v).0 ≡ ok tt)
        × (write_entry dev c value v
            ≡ flush dev
                (store_entry dev c value (switch_sector dev (entry_sector v.geometry c) v).1))
  unfolding write_entry valid_cluster
  write_entry-flush c value v h =
      elim (Bool-cases (leb 2 c && ltb c ((v.geometry.cluster_count + 2) % u32))) [
        | inl valid ↦ elim (Result-cases (switch_sector dev (entry_sector v.geometry c) v).0) [
          | inl (u, e) ↦ (valid, e, rw (valid, e, write_entry) refl)
          | inr (x, e) ↦ absurd (ground arith)
        ]
        | inr bad ↦ absurd (ground arith)
      ]

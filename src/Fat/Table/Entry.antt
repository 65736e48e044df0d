-- ===== src/Fat/Table/Entry.antt =====
-- write_entry on a mounted volume: the entry that is read back, the copies, and all other entries.
use mathlib.Core.Path.{subst}
use native.Mathlib.Nat.{mul-le-mul_right}
use zonix_plus.Base.{
  ap, arith, false, ok, refl, suc, sym, true, update, zero, ℕ, ◌*◌, ◌+◌, ◌/◌, ◌<◌, ◌∙◌, ◌≡◌, ◌≢◌,
}
use zonix_plus.Fat.{u32, fat_invalid_sector, Geometry, valid_cluster, entry_sector, entry_offset}
use zonix_plus.Fat.Mount.{IsMounted, entry_bounds}
use zonix_plus.Fat.Table.{
  Sector, Device, Volume, lba, copy_lba, merge_entry, flush, switch_sector, store_entry,
  write_entry,
}
use zonix_plus.Fat.Table.Coherence.{IsDisk, IsCoherent, IsFetched, table_word}
use zonix_plus.Fat.Table.Update.{
  IsWritten, CopiesApart, flush-IsWritten, switch-IsFetched, write_entry-flush,
}

module _ (part_start block_count : ℕ) (g : Geometry) (mounted : IsMounted part_start block_count g)
    (width : block_count < u32) where
  -- On a mounted volume the addresses of the table do not wrap.
  copy_lba-exact :
      (c j : ℕ)
      → valid_cluster g c ≡ true
      → j < g.fat_count
      → copy_lba g (entry_sector g c) j ≡ part_start + entry_sector g c + j * g.fat_sector_count
  unfolding copy_lba
  copy_lba-exact c j valid h =
      let (lo, hi, word, aligned, at) =
        entry_bounds part_start block_count g c mounted width valid in
      let last = mul-le-mul_right {m = j + 1} {n = g.fat_count} g.fat_sector_count (omega arith) in
      omega (arith, mounted, lo, hi, last)

  copies-Apart : (c : ℕ) → valid_cluster g c ≡ true → CopiesApart g (entry_sector g c)
  copies-Apart c valid j k h room e =
      let (lo, hi, word, aligned, at) =
        entry_bounds part_start block_count g c mounted width valid in
      let step = mul-le-mul_right {m = j + 1} {n = k} g.fat_sector_count (omega arith) in
      omega (
        arith,
        e,
        copy_lba-exact c j valid (omega arith),
        copy_lba-exact c k valid room,
        step,
        mounted.entries,
      )

  pub lba-copy_lba : (c : ℕ) → lba g (entry_sector g c) ≡ copy_lba g (entry_sector g c) 0
  unfolding lba copy_lba
  lba-copy_lba c = omega arith

  pub entry_real : (c : ℕ) → valid_cluster g c ≡ true → entry_sector g c ≢ fat_invalid_sector
  entry_real c valid e =
      let (lo, hi, word, aligned, at) =
        entry_bounds part_start block_count g c mounted width valid in
      let once = mul-le-mul_right {m = 1} {n = g.fat_count} g.fat_sector_count mounted.copies.0 in
      omega (arith, mounted, lo, hi, once, e)

  -- An entry in another sector of the first table is in no copy of this sector.
  pub other_sector :
      (c c' j : ℕ)
      → valid_cluster g c ≡ true
      → valid_cluster g c' ≡ true
      → j < g.fat_count
      → entry_sector g c ≢ entry_sector g c'
      → copy_lba g (entry_sector g c) j ≢ lba g (entry_sector g c')
  other_sector c c' zero valid valid' h ne e = ne (
      omega (
        arith,
        e,
        lba-copy_lba c',
        copy_lba-exact c 0 valid h,
        copy_lba-exact c' 0 valid' (omega arith),
      ))
  other_sector c c' (suc j) valid valid' h ne e =
      let (lo, hi, _, _, _) = entry_bounds part_start block_count g c mounted width valid in
      let (lo', hi', _, _, _) = entry_bounds part_start block_count g c' mounted width valid' in
      omega (
        arith,
        e,
        lo,
        hi',
        lba-copy_lba c',
        copy_lba-exact c (suc j) valid h,
        copy_lba-exact c' 0 valid' (omega arith),
      )

  -- Two entries of one sector are different words of it.
  pub other_word :
      (c c' : ℕ)
      → valid_cluster g c ≡ true
      → valid_cluster g c' ≡ true
      → c ≢ c'
      → entry_sector g c ≡ entry_sector g c'
      → entry_offset g c / 4 ≢ entry_offset g c' / 4
  other_word c c' valid valid' ne same e =
      let (lo, _, _, aligned, at) = entry_bounds part_start block_count g c mounted width valid in
      let (lo', _, _, aligned', at') =
        entry_bounds part_start block_count g c' mounted width valid' in
      ne (omega (arith, same, e, aligned, at, aligned', at'))

module _ {D : Type 0} (dev : Device D) (disk : IsDisk dev) where
  open disk use {content}

  -- What a write of the entry of `c` leaves behind.
  pub record IsStored (c value : ℕ) (v w : Volume D) : Type 0 where
    pub geometry : w.geometry ≡ v.geometry
    pub mounted : w.mounted ≡ v.mounted
    pub coherent : IsCoherent dev disk w
    pub copies :
        (j : ℕ)
        → j < v.geometry.fat_count
        → content w.disk (copy_lba v.geometry (entry_sector v.geometry c) j)
          ≡ update
              (content v.disk (lba v.geometry (entry_sector v.geometry c)))
              (entry_offset v.geometry c / 4)
              (merge_entry (table_word dev disk v c) value)
    pub framed :
        (l : ℕ)
        → ((j : ℕ)
            → j < v.geometry.fat_count
            → copy_lba v.geometry (entry_sector v.geometry c) j ≢ l)
        → content w.disk l ≡ content v.disk l

  module _ (part_start block_count c value : ℕ) (v : Volume D)
      (mounted : IsMounted part_start block_count v.geometry) (width : block_count < u32)
      (coherent : IsCoherent dev disk v) where
    abbrev S : ℕ
    S = entry_sector v.geometry c

    module _ (v₁ w : Volume D) (valid : valid_cluster v.geometry c ≡ true)
        (f : IsFetched dev disk S v v₁)
        (wr : IsWritten dev disk S 0 v.geometry.fat_count (store_entry dev c value v₁) w)
        (clean : w.buffer_dirty ≡ false) where
      stored-geometry : w.geometry ≡ v.geometry
      unfolding store_entry
      stored-geometry = wr.geometry ∙ f.geometry

      stored-buffer :
          (store_entry dev c value v₁).buffer
          ≡ update
              (content v.disk (lba v.geometry S))
              (entry_offset v.geometry c / 4)
              (merge_entry (table_word dev disk v c) value)
      unfolding store_entry
      stored-buffer = rw (f.geometry, f.filled) refl

      stored-copy :
          (j : ℕ)
          → j < v.geometry.fat_count
          → content w.disk (copy_lba v.geometry S j) ≡ (store_entry dev c value v₁).buffer
      unfolding store_entry
      stored-copy j h =
          subst
            (λ (g : Geometry).
              content w.disk (copy_lba g S j) ≡ (store_entry dev c value v₁).buffer)
            f.geometry (wr.stored j (omega arith) (omega (arith, h)))

      stored-cached : w.buffer ≡ content w.disk (lba w.geometry w.buffer_sector)
      unfolding store_entry
      stored-cached =
          let at : w.buffer_sector ≡ S = wr.at ∙ f.at in
          let first : lba v.geometry S ≡ copy_lba v.geometry S 0 =
            lba-copy_lba part_start block_count v.geometry mounted width c in
          rw (stored-geometry, at, first)
            (wr.buffer ∙ sym (stored-copy 0 (omega (arith, mounted.copies))))

      stored-framed :
          (l : ℕ)
          → ((j : ℕ) → j < v.geometry.fat_count → copy_lba v.geometry S j ≢ l)
          → content w.disk l ≡ content v.disk l
      unfolding store_entry
      stored-framed l away =
          wr.framed l (λ j lo hi. rw f.geometry (away j (omega (arith, hi))))
          ∙ ap (λ (h : ℕ → Sector). h l) f.same

      flush-IsStored : IsStored c value v w
      unfolding store_entry
      flush-IsStored = record {
        geometry = stored-geometry;
        mounted = wr.mounted ∙ f.mounted;
        coherent = record { clean = clean; cached = λ _. stored-cached };
        copies = λ j h. stored-copy j h ∙ stored-buffer;
        framed = stored-framed;
      }

    -- A write of an entry that succeeds.
    pub write_entry-IsStored :
        (write_entry dev c value v).0 ≡ ok tt → IsStored c value v (write_entry dev c value v).1
    unfolding store_entry
    write_entry-IsStored h =
        let (valid, switched, e) = write_entry-flush dev disk c value v h in
        let real = entry_real part_start block_count v.geometry mounted width c valid in
        let f = switch-IsFetched dev disk S v coherent real switched in
        let v₁ = (switch_sector dev S v).1 in
        let v₂ = store_entry dev c value v₁ in
        let apart : CopiesApart v₂.geometry v₂.buffer_sector =
          rw (f.geometry, f.at)
            (copies-Apart part_start block_count v.geometry mounted width c valid) in
        let (wr, clean) = flush-IsWritten dev disk v₂ apart (rw e at h) in
        let count : v₂.geometry.fat_count ≡ v.geometry.fat_count =
          ap (λ (g : Geometry). g.fat_count) f.geometry in
        let wr' : IsWritten dev disk S 0 v.geometry.fat_count v₂ (flush dev v₂).1 =
          subst (λ (n : ℕ). IsWritten dev disk S 0 n v₂ (flush dev v₂).1) count
            (subst (λ (t : ℕ). IsWritten dev disk t 0 v₂.geometry.fat_count v₂ (flush dev v₂).1)
              f.at wr) in
        rw e (flush-IsStored v₁ (flush dev v₂).1 valid f wr' clean)

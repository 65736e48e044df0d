-- ===== src/Fat/Table/Laws.antt =====
-- The laws of the table: what write_entry does to each entry, and what read_entry then gives.
use zonix_plus.Base.{
  ==→eq, Bool-cases, ap, arith, if◌then◌else◌, inl, inr, ok, sym, true, update, ℕ, ◌%◌, ◌/◌, ◌<◌,
  ◌==◌, ◌^◌, ◌∙◌, ◌≡◌, ◌≢◌,
}
use zonix_plus.Fat.{u32, fat_invalid_sector, Geometry, valid_cluster, entry_sector, entry_offset}
use zonix_plus.Fat.Mount.{IsMounted}
use zonix_plus.Fat.Table.{
  Sector, Device, Volume, lba, copy_lba, merge_entry, read_entry, write_entry,
}
use zonix_plus.Fat.Table.Coherence.{
  IsDisk, IsCoherent, table_word, table_entry, read_entry-table_entry,
}
use zonix_plus.Fat.Table.Entry.{
  IsStored, write_entry-IsStored, lba-copy_lba, entry_real, other_sector, other_word,
}

merge_entry_parts :
    (old value : ℕ)
    → (merge_entry old value % 2 ^ 28 ≡ value % 2 ^ 28)
      × (merge_entry old value / 2 ^ 28 ≡ old / 2 ^ 28)
unfolding merge_entry
merge_entry_parts old value = (omega arith, omega arith)

module _ {D : Type 0} (dev : Device D) (disk : IsDisk dev) (part_start block_count c value : ℕ)
    (v w : Volume D) (mounted : IsMounted part_start block_count v.geometry)
    (width : block_count < u32) (valid : valid_cluster v.geometry c ≡ true)
    (st : IsStored dev disk c value v w) where
  open disk use {content}

  abbrev S : ℕ
  S = entry_sector v.geometry c

  stored-first :
      content w.disk (lba v.geometry S)
      ≡ update
          (content v.disk (lba v.geometry S))
          (entry_offset v.geometry c / 4)
          (merge_entry (table_word dev disk v c) value)
  stored-first =
      ap (content w.disk) (lba-copy_lba part_start block_count v.geometry mounted width c)
      ∙ st.copies 0 (omega (arith, mounted.copies))

  -- A word of the new table, read with the old geometry.
  word_moved :
      (c' : ℕ)
      → table_word dev disk w c'
        ≡ content w.disk
            (lba v.geometry (entry_sector v.geometry c'))
            (entry_offset v.geometry c' / 4)
  word_moved c' =
      ap (λ (g : Geometry). content w.disk (lba g (entry_sector g c')) (entry_offset g c' / 4))
        st.geometry

  word_self : table_word dev disk w c ≡ merge_entry (table_word dev disk v c) value
  word_self =
      word_moved c
      ∙ ap (λ (s : Sector). s (entry_offset v.geometry c / 4)) stored-first
      ∙ ground arith

  word_same_sector :
      (c' : ℕ)
      → entry_sector v.geometry c' ≡ entry_sector v.geometry c
      → entry_offset v.geometry c / 4 ≢ entry_offset v.geometry c' / 4
      → table_word dev disk w c' ≡ table_word dev disk v c'
  word_same_sector c' same ne =
      word_moved c'
      ∙ ap (λ (t : ℕ). content w.disk (lba v.geometry t) (entry_offset v.geometry c' / 4)) same
      ∙ ap (λ (s : Sector). s (entry_offset v.geometry c' / 4)) stored-first
      ∙ ground arith
      ∙ ap (λ (t : ℕ). content v.disk (lba v.geometry t) (entry_offset v.geometry c' / 4))
          (sym same)

  word_other :
      (c' : ℕ)
      → valid_cluster v.geometry c' ≡ true
      → c ≢ c'
      → table_word dev disk w c' ≡ table_word dev disk v c'
  word_other c' valid' ne =
      elim (Bool-cases (entry_sector v.geometry c == entry_sector v.geometry c')) [
        | inl e ↦
            let same : entry_sector v.geometry c ≡ entry_sector v.geometry c' = ==→eq _ _ e in
            word_same_sector c' (sym same)
              (other_word part_start block_count v.geometry mounted width c c' valid valid' ne same)
        | inr e ↦
            word_moved c'
            ∙ ap (λ (s : Sector). s (entry_offset v.geometry c' / 4))
                (st.framed (lba v.geometry (entry_sector v.geometry c')) (λ j h.
                  other_sector part_start block_count v.geometry mounted width c c' j valid valid' h
                    (ground arith)))
      ]

module _ {D : Type 0} (dev : Device D) (disk : IsDisk dev) where
  open disk use {content}

  -- On a mounted volume with a coherent cache, a write of the entry of a valid cluster that succeeds
  -- sets its 28 low bits to the value's, keeps its 4 high bits and every other valid cluster's word,
  -- leaves all copies of the table's sector alike and the cache coherent.
  pub write_entry-table_entry :
      (part_start block_count c value : ℕ) (v : Volume D)
      → IsMounted part_start block_count v.geometry
      → block_count < u32
      → IsCoherent dev disk v
      → valid_cluster v.geometry c ≡ true
      → (write_entry dev c value v).0 ≡ ok tt
      → (table_entry dev disk (write_entry dev c value v).1 c ≡ value % 2 ^ 28)
        × (table_word dev disk (write_entry dev c value v).1 c / 2 ^ 28
            ≡ table_word dev disk v c / 2 ^ 28)
        × ((c' : ℕ)
            → valid_cluster v.geometry c' ≡ true
            → c ≢ c'
            → table_word dev disk (write_entry dev c value v).1 c' ≡ table_word dev disk v c')
        × ((i j : ℕ)
            → i < v.geometry.fat_count
            → j < v.geometry.fat_count
            → content
                (write_entry dev c value v).1.disk
                (copy_lba v.geometry (entry_sector v.geometry c) i)
              ≡ content
                  (write_entry dev c value v).1.disk
                  (copy_lba v.geometry (entry_sector v.geometry c) j))
        × IsCoherent dev disk (write_entry dev c value v).1
  write_entry-table_entry part_start block_count c value v mounted width coherent valid h =
      let w = (write_entry dev c value v).1 in
      let st =
        write_entry-IsStored dev disk part_start block_count c value v mounted width coherent h in
      let self = word_self dev disk part_start block_count c value v w mounted width valid st in
      let (low, high) = merge_entry_parts (table_word dev disk v c) value in
      (
        ap (λ (x : ℕ). x % 2 ^ 28) self ∙ low,
        ap (λ (x : ℕ). x / 2 ^ 28) self ∙ high,
        word_other dev disk part_start block_count c value v w mounted width valid st,
        (λ i j hi hj. st.copies i hi ∙ sym (st.copies j hj)),
        st.coherent,
      )

  -- On a mounted volume with a coherent cache, after a write of the entry of the valid cluster `c` that
  -- succeeds, a read of the entry of a valid cluster that succeeds gives the value's 28 low bits for
  -- `c`, and what the table held before for any other cluster.
  pub read_entry-write_entry :
      (part_start block_count c value c' x : ℕ) (v : Volume D)
      → IsMounted part_start block_count v.geometry
      → block_count < u32
      → IsCoherent dev disk v
      → valid_cluster v.geometry c ≡ true
      → valid_cluster v.geometry c' ≡ true
      → (write_entry dev c value v).0 ≡ ok tt
      → (read_entry dev c' (write_entry dev c value v).1).0 ≡ ok x
      → x ≡ (if c == c' then value % 2 ^ 28 else table_entry dev disk v c')
  read_entry-write_entry part_start block_count c value c' x v mounted width coherent valid valid' h
        k =
      let w = (write_entry dev c value v).1 in
      let st =
        write_entry-IsStored dev disk part_start block_count c value v mounted width coherent h in
      let (low, high, other, alike, coherent') =
        write_entry-table_entry part_start block_count c value v mounted width coherent valid h in
      let real = entry_real part_start block_count v.geometry mounted width c' valid' in
      let real' : entry_sector w.geometry c' ≢ fat_invalid_sector = rw st.geometry real in
      let (e, f) = read_entry-table_entry dev disk c' w x coherent' real' k in
      elim (Bool-cases (c == c')) [
        | inl same ↦ rw same (e ∙ ap (table_entry dev disk w) (sym (==→eq _ _ same)) ∙ low)
        | inr differ ↦ rw differ (e ∙ ap (λ (y : ℕ). y % 2 ^ 28) (other c' valid' (ground arith)))
      ]

-- ===== src/Fat/Dir/Remove.antt =====
-- remove_dir_entry marks the entry that a look-up finds, and changes nothing else on the disk.
use zonix_plus.Base.{
  List, Option, Option-cases, Result, ap, arith, err, inl, inr, none, ok, some, sym, true, ℕ, ◌*◌,
  ◌/◌, ◌∙◌, ◌≡◌, ◌≢◌,
}
use zonix_plus.Fat.Chain.{new_chain}
use zonix_plus.Fat.Dir.{
  Seen, Stop, ended, entry_at, entry_count, found, is_deleted, mark_deleted, remove_dir_entry,
  scan_entries, walk_dir,
}
use zonix_plus.Fat.Dir.Entries.{Settled-eq, first_seen-Settled, lookup}
use zonix_plus.Fat.Dir.Lookup.{dir_entries}
use zonix_plus.Fat.Dir.Sectors.{first_seen-held}
use zonix_plus.Fat.Dir.Steps.{IsReal}
use zonix_plus.Fat.Dir.Walk.{walk_dir-new_chain}
use zonix_plus.Fat.Table.{Device, Sector, Volume}
use zonix_plus.Fat.Table.Coherence.{IsCoherent, IsDisk}

-- The entry `j` is deleted, and only its first byte has changed.
abbrev pub Marked : ℕ → Sector → Sector → Type 0
Marked j sector after =
    (is_deleted (entry_at after j) ≡ true)
    × (after (8 * j) / 256 ≡ sector (8 * j) / 256)
    × ((w : ℕ) → w ≢ 8 * j → after w ≡ sector w)

mark_deleted-Marked : (j : ℕ) (sector : Sector) → Marked j sector (mark_deleted j sector)
unfolding is_deleted
mark_deleted-Marked j sector = (ground arith, ground arith, λ w ne. ground (arith, ne))

module _ {D : Type 0} (dev : Device D) (disk : IsDisk dev) where
  open disk use {content}

  module _ (fuel start : ℕ) (name : List ℕ) (v : Volume D) where
    abbrev walked : Option (Result (Option (Stop Seen))) × Volume D
    walked = walk_dir dev (scan_entries entry_count 0 name) fuel (new_chain start) v

    -- A removal that returns without an error wrote the sector where the walk stopped.
    remove_dir_entry-ok :
        (remove_dir_entry dev fuel start name v).0 ≡ some (ok tt)
        → (block : ℕ) × (sector : Sector) × (j : ℕ) × (walked.0
            ≡ some (ok (some (block, sector, found j))))
          × ((dev.write walked.1.disk block (mark_deleted j sector)).0 ≡ ok tt)
          × ((remove_dir_entry dev fuel start name v).1.disk
              ≡ (dev.write walked.1.disk block (mark_deleted j sector)).1)
    unfolding remove_dir_entry
    remove_dir_entry-ok h = elim (Option-cases walked.0) [
      | inl e ↦ absurd (ground (arith, h, e))
      | inr (err x, e) ↦ absurd (ground (arith, h, e))
      | inr (ok none, e) ↦ absurd (ground (arith, h, e))
      | inr (ok (some (block, sector, ended)), e) ↦ absurd (ground (arith, h, e))
      | inr (ok (some (block, sector, found j)), e) ↦
          (block, sector, j, e, ground (arith, h, e), ground (arith, h, e))
    ]

  -- From a coherent cache, a remove_dir_entry that succeeds marks the entry that a look-up of the name
  -- finds in the directory as deleted, in its sector on the disk, where every other word and the other
  -- bytes of this one stay, and changes no other block.
  pub remove_dir_entry-marks :
      (fuel start : ℕ) (name : List ℕ) (v : Volume D)
      → IsCoherent dev disk v
      → IsReal v.geometry
      → (remove_dir_entry dev fuel start name v).0 ≡ some (ok tt)
      → let after = content (remove_dir_entry dev fuel start name v).1.disk in
        (n : ℕ) × (block : ℕ) × (j : ℕ) × (lookup name (dir_entries dev disk v n start)
          ≡ some (entry_at (content v.disk block) j))
        × Marked j (content v.disk block) (after block)
        × ((l : ℕ) → block ≢ l → after l ≡ content v.disk l)
  remove_dir_entry-marks fuel start name v coherent real h =
      let look = scan_entries entry_count 0 name in
      let (block, sector, j, at, written, left) = remove_dir_entry-ok fuel start name v h in
      let walk = walk_dir-new_chain dev disk look fuel start v _ coherent real at in
      let n = walk.clusters in
      let held : sector ≡ content v.disk block =
        first_seen-held look (content v.disk) _ block sector (found j) (sym walk.answer) in
      let settled : lookup name (dir_entries dev disk v n start) ≡ some (entry_at sector j) =
        Settled-eq name (dir_entries dev disk v n start) (some (block, sector, found j)) _
          walk.answer (first_seen-Settled name (content v.disk) _) in
      let d = (walked fuel start name v).1.disk in
      let marked = mark_deleted j sector in
      (
        n,
        block,
        j,
        settled ∙ ap (λ s. some (entry_at s j)) held,
        rw
            (ap (λ x. content x block) left
              ∙ disk.write_stores d block marked written
              ∙ ap (mark_deleted j) held)
            (mark_deleted-Marked j (content v.disk block)),
        λ l ne.
            ap (λ x. content x l) left
            ∙ disk.write_frames d block marked l ne
            ∙ ap (λ f. f l) walk.kept.same,
      )

-- ===== src/Fat/Dir/Lookup.antt =====
-- find_entry answers as a look-up in the list of the directory's entries, in their order on the disk.
use zonix_plus.Base.{
  Error, List, Option, Option-cases, Result, Result-cases, ap, arith, err, inl, inr, none,
  not_found, ok, refl, some, true, ℕ, ◌∙◌, ◌≡◌, ◌≤◌, ◌⊎◌,
}
use zonix_plus.Fat.{fat32_eoc_min}
use zonix_plus.Fat.Chain.{new_chain}
use zonix_plus.Fat.Dir.{
  Entry, Seen, Stop, ended, entry_count, entry_found, find_entry, found, scan_entries, walk_dir,
}
use zonix_plus.Fat.Dir.Entries.{
  Settled, Settled-eq, entries_of, first_seen-Settled, has_end, lookup,
}
use zonix_plus.Fat.Dir.Sectors.{IsKept}
use zonix_plus.Fat.Dir.Steps.{clusters_from-kept, IsReal, blocks_of, cluster_after, clusters_from}
use zonix_plus.Fat.Dir.Walk.{walk_dir-new_chain}
use zonix_plus.Fat.Table.{Device, Volume}
use zonix_plus.Fat.Table.Coherence.{IsCoherent, IsDisk}

-- The end of a directory: its chain ends, or an end mark stands among its entries.
module _ {D : Type 0} (dev : Device D) (disk : IsDisk dev) where
  open disk use {content}

  -- The entries of the first `n` clusters that the table leads to from `start`.
  abbrev pub dir_entries : Volume D → ℕ → ℕ → List Entry
  dir_entries v n start =
      entries_of (content v.disk) (blocks_of v.geometry (clusters_from dev disk v n start))

  -- The whole directory is in its first `n` clusters.
  abbrev pub IsWhole : Volume D → ℕ → ℕ → Type 0
  IsWhole v n start =
      (fat32_eoc_min ≤ cluster_after dev disk v n start) ⊎ (has_end (dir_entries v n start) ≡ true)

  -- The answers of find_entry: an entry, the absence of one, or the error of the walk.
  abbrev pub Looked : Volume D → ℕ → List ℕ → Result Entry → Type 0
  Looked v start name (ok e) = (n : ℕ) × (lookup name (dir_entries v n start) ≡ some e)
  Looked v start name (err x) =
      (n : ℕ) × (x ≡ not_found) × (lookup name (dir_entries v n start) ≡ none) × IsWhole v n start

  entry_found-Looked :
      (start : ℕ) (name : List ℕ) (v : Volume D) (n : ℕ) (x : Option (Stop Seen))
      → Settled name (dir_entries v n start) x
      → (x ≡ none → fat32_eoc_min ≤ cluster_after dev disk v n start)
      → Looked v start name (entry_found x)
  entry_found-Looked start name v n none h over = (n, refl, h, inl (over refl))
  entry_found-Looked start name v n (some (block, sector, ended)) h over = (n, refl, h.0, inr h.1)
  entry_found-Looked start name v n (some (block, sector, found j)) h over = (n, h)

  Looked-eq :
      (v : Volume D) (start : ℕ) (name : List ℕ) (r s : Result Entry)
      → r ≡ s
      → Looked v start name s
      → Looked v start name r
  Looked-eq v start name r s e h = rw e h

  find_entry-ok :
      (fuel start : ℕ) (name : List ℕ) (v : Volume D) (x : Option (Stop Seen))
      → (walk_dir dev (scan_entries entry_count 0 name) fuel (new_chain start) v).0 ≡ some (ok x)
      → (find_entry dev fuel start name v).0 ≡ some (entry_found x)
  unfolding find_entry
  find_entry-ok fuel start name v x h = rw (h, find_entry) refl

  find_entry-left :
      (fuel start : ℕ) (name : List ℕ) (v : Volume D) (x : Option (Stop Seen))
      → (walk_dir dev (scan_entries entry_count 0 name) fuel (new_chain start) v).0 ≡ some (ok x)
      → (find_entry dev fuel start name v).1
        ≡ (walk_dir dev (scan_entries entry_count 0 name) fuel (new_chain start) v).1
  unfolding find_entry
  find_entry-left fuel start name v x h = rw (h, find_entry) refl

  find_entry-err :
      (fuel start : ℕ) (name : List ℕ) (v : Volume D) (e : Error)
      → (walk_dir dev (scan_entries entry_count 0 name) fuel (new_chain start) v).0 ≡ some (err e)
      → (find_entry dev fuel start name v).0 ≡ some (err e)
  unfolding find_entry
  find_entry-err fuel start name v e h = rw (h, find_entry) refl

  find_entry-none :
      (fuel start : ℕ) (name : List ℕ) (v : Volume D)
      → (walk_dir dev (scan_entries entry_count 0 name) fuel (new_chain start) v).0 ≡ none
      → (find_entry dev fuel start name v).0 ≡ none
  unfolding find_entry
  find_entry-none fuel start name v h = rw (h, find_entry) refl

  -- From a coherent cache, find_entry answers as a look-up among the entries that the disk holds in the
  -- chain of the directory: with the first live entry of that name before the end mark, or with
  -- NotFound, and then it saw the whole directory and no such entry; or it answers with the error that
  -- ended its walk.
  pub find_entry-lookup :
      (fuel start : ℕ) (name : List ℕ) (v : Volume D) (r : Result Entry)
      → IsCoherent dev disk v
      → IsReal v.geometry
      → (find_entry dev fuel start name v).0 ≡ some r
      → Looked v start name r
        ⊎ ((e : Error) × (r ≡ err e)
            × ((walk_dir dev (scan_entries entry_count 0 name) fuel (new_chain start) v).0
                ≡ some (err e)))
  find_entry-lookup fuel start name v r coherent real h =
      let look = scan_entries entry_count 0 name in
      elim (Option-cases (walk_dir dev look fuel (new_chain start) v).0) [
        | inl e ↦ absurd (ground (arith, h, find_entry-none fuel start name v e))
        | inr (s, at) ↦ elim (Result-cases s) [
          | inr (e, failed) ↦
              let whole = at ∙ ap some failed in
              inr (e, ground (arith, h, find_entry-err fuel start name v e whole), whole)
          | inl (x, fine) ↦
              let whole = at ∙ ap some fine in
              let walked = walk_dir-new_chain dev disk look fuel start v x coherent real whole in
              let same : r ≡ entry_found x =
                ground (arith, h, find_entry-ok fuel start name v x whole) in
              let settled =
                Settled-eq name (dir_entries v walked.clusters start) x _ walked.answer
                  (first_seen-Settled name (content v.disk) _) in
              inl (
                Looked-eq v start name r (entry_found x) same
                  (entry_found-Looked start name v walked.clusters x settled walked.exhausted))
        ]
      ]

  -- A find_entry that finds an entry keeps the disk and a coherent cache.
  pub find_entry-found :
      (fuel start : ℕ) (name : List ℕ) (v : Volume D) (e : Entry)
      → IsCoherent dev disk v
      → IsReal v.geometry
      → (find_entry dev fuel start name v).0 ≡ some (ok e)
      → ((n : ℕ) × (lookup name (dir_entries v n start) ≡ some e))
        × IsKept dev disk v (find_entry dev fuel start name v).1
  find_entry-found fuel start name v e coherent real h =
      let look = scan_entries entry_count 0 name in
      elim (Option-cases (walk_dir dev look fuel (new_chain start) v).0) [
        | inl none_left ↦ absurd (ground (arith, h, find_entry-none fuel start name v none_left))
        | inr (err f, at) ↦ absurd (ground (arith, h, find_entry-err fuel start name v f at))
        | inr (ok x, at) ↦
            let walked = walk_dir-new_chain dev disk look fuel start v x coherent real at in
            (
              elim (find_entry-lookup fuel start name v (ok e) coherent real h) [
                | inl looked ↦ looked
                | inr (f, bad, rest) ↦ absurd (ground (arith, bad))
              ],
              rw (find_entry-left fuel start name v x at) walked.kept,
            )
      ]

  -- The entries of a directory are the same after a walk.
  pub dir_entries-kept :
      (v w : Volume D) (n start : ℕ)
      → IsKept dev disk v w
      → dir_entries w n start ≡ dir_entries v n start
  dir_entries-kept v w n start kept = λ i.
      entries_of (kept.same i)
        (blocks_of (kept.geometry i) (clusters_from-kept dev disk v w kept n start i))

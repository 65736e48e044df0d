-- ===== src/Fat/Dir/Ends.antt =====
-- The walks over a directory end, on any table and any device.
use zonix_plus.Base.{
  List, Option, Option-cases, Result, Result-cases, ap, arith, err, inl, inr, none, ok, refl, some,
  suc, zero, ℕ, ◌+◌, ◌-◌, ◌<◌, ◌∙◌, ◌≡◌,
}
use zonix_plus.Fat.{cluster_to_sector, u32}
use zonix_plus.Fat.Chain.{Chain, new_chain, next}
use zonix_plus.Fat.Chain.Bound.{next-IsCounted}
use zonix_plus.Fat.Dir.{
  Entry, Seen, Stop, entry_count, entry_found, find_entry, scan_entries, walk_dir, walk_sectors,
}
use zonix_plus.Fat.Table.{Device, Sector, Volume, lba}

module _ {D A : Type 0} (dev : Device D) (look : Sector → Option A) where
  walk_sectors-geometry :
      (n sector : ℕ) (v : Volume D) → (walk_sectors dev look n sector v).1.geometry ≡ v.geometry
  unfolding walk_sectors
  walk_sectors-geometry zero sector v = refl
  walk_sectors-geometry (suc n) sector v =
      let block = lba v.geometry sector in
      let (r, filled, d) = dev.read v.disk block (λ i. 0) in
      let rest = walk_sectors-geometry n (sector + 1) (record v { disk = d }) in
      elim (Result-cases r) [
        | inr (e, failed) ↦ rw (failed, walk_sectors) refl
        | inl (u, fine) ↦ elim (Option-cases (look filled)) [
          | inl e ↦ rw (fine, e, walk_sectors) rest
          | inr (a, e) ↦ rw (fine, e, walk_sectors) refl
        ]
      ]

  -- As many rounds as there are clusters left to count, and one, end a walk.
  walk_dir-ends :
      (fuel : ℕ) (c : Chain) (v : Volume D)
      → v.geometry.cluster_count < u32
      → v.geometry.cluster_count - c.visited < fuel
      → (r : Result (Option (Stop A))) × ((walk_dir dev look fuel c v).0 ≡ some r)
  unfolding walk_dir
  walk_dir-ends zero c v w h = absurd (omega (arith, h))
  walk_dir-ends (suc fuel) c v w h =
      let (r, c', v') = next dev c v in
      elim (Result-cases r) [
        | inr (e, failed) ↦ (err e, rw (failed, walk_dir) refl)
        | inl (zero, at) ↦ (ok none, rw (at, walk_dir) refl)
        | inl (suc k, at) ↦
            let (counted, same) = next-IsCounted dev c v k w at in
            let (s, v'') =
              walk_sectors dev look v'.geometry.sectors_per_cluster
                (cluster_to_sector v'.geometry (suc k)) v' in
            let kept =
              walk_sectors-geometry v'.geometry.sectors_per_cluster
                (cluster_to_sector v'.geometry (suc k)) v' in
            let count : v''.geometry.cluster_count ≡ v.geometry.cluster_count =
              ap (λ g. g.cluster_count) (kept ∙ same) in
            let (rest, e) =
              walk_dir-ends fuel c' v'' (omega (arith, count, w))
                (omega (arith, count, counted.counted, counted.room, h)) in
            elim (Result-cases s) [
              | inr (f, failed) ↦ (err f, rw (at, failed, walk_dir) refl)
              | inl (none, on) ↦ (rest, rw (at, on, walk_dir) e)
              | inl (some stop, on) ↦ (ok (some stop), rw (at, on, walk_dir) refl)
            ]
      ]

module _ {D : Type 0} (dev : Device D) where
  find_entry-some :
      (fuel start : ℕ) (name : List ℕ) (v : Volume D) (s : Result (Option (Stop Seen)))
      → (walk_dir dev (scan_entries entry_count 0 name) fuel (new_chain start) v).0 ≡ some s
      → (r : Result Entry) × ((find_entry dev fuel start name v).0 ≡ some r)
  unfolding find_entry
  find_entry-some fuel start name v (err e) h = (err e, rw (h, find_entry) refl)
  find_entry-some fuel start name v (ok x) h = (entry_found x, rw (h, find_entry) refl)

  -- From any cluster, on any table and any device, find_entry answers within one round more than the
  -- volume has clusters.
  pub find_entry-ends :
      (start : ℕ) (name : List ℕ) (v : Volume D)
      → v.geometry.cluster_count < u32
      → (r : Result Entry) × ((find_entry dev (v.geometry.cluster_count + 1) start name v).0
          ≡ some r)
  unfolding new_chain
  find_entry-ends start name v w =
      let fuel = v.geometry.cluster_count + 1 in
      let (s, e) =
        walk_dir-ends dev (scan_entries entry_count 0 name) fuel (new_chain start) v w
          (omega arith) in
      find_entry-some fuel start name v s e

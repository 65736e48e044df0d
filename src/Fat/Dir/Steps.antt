-- ===== src/Fat/Dir/Steps.antt =====
-- The clusters that the allocation table on the disk leads to, and what a call of ClusterChain::next
-- does there.
use zonix_plus.Base.{
  Bool-cases, List, Result-cases, [], ap, arith, false, if◌then◌else◌, inl, inr, ok, refl, suc, sym,
  true, zero, ℕ, ◌%◌, ◌++◌, ◌/◌, ◌<◌, ◌^◌, ◌∙◌, ◌∷◌, ◌≡◌, ◌≢◌, ◌≤◌, ◌⊎◌,
}
use zonix_plus.Fat.{
  Geometry, cluster_to_sector, entry_offset, entry_sector, fat32_eoc_min, fat_invalid_sector,
  valid_cluster,
}
use zonix_plus.Fat.Chain.{Chain, next, step, visit}
use zonix_plus.Fat.Dir.Sectors.{IsKept, blocks_from}
use zonix_plus.Fat.Table.{Device, Volume, lba, read_entry}
use zonix_plus.Fat.Table.Coherence.{
  IsCoherent, IsDisk, read_entry-fetch, read_entry-table_entry, table_entry,
}

-- The cluster that next() visits, and the state it leaves.
abbrev pub Visited : Chain → Chain → ℕ → Type 0
Visited c c' x = (2 ≤ x) × (c'.current ≡ x) × (c'.started ≡ true) × (c'.finished ≡ c.finished)

visit-Visited :
    (g : Geometry) (c : Chain) (x : ℕ)
    → (visit g c).0 ≡ ok x
    → (x ≡ c.current) × Visited c (visit g c).1 x
unfolding visit valid_cluster
visit-Visited g c x h = ground arith

step-Visited :
    (g : Geometry) (link : ℕ) (c : Chain) (x : ℕ)
    → (step g link c).0 ≡ ok x
    → ((fat32_eoc_min ≤ link) × (x ≡ 0))
      ⊎ ((link < fat32_eoc_min) × (x ≡ link) × Visited c (step g link c).1 x)
unfolding step visit valid_cluster
step-Visited g link c x h = ground arith

-- The blocks of a list of clusters.
unfoldable pub blocks_of : Geometry → List ℕ → List ℕ
blocks_of g [] = []
blocks_of g (cluster ∷ clusters) =
    blocks_from g g.sectors_per_cluster (cluster_to_sector g cluster) ++ blocks_of g clusters

-- Every sector of the table can be told from the mark of an empty cache.
abbrev pub IsReal : Geometry → Type 0
IsReal g = (c : ℕ) → valid_cluster g c ≡ true → entry_sector g c ≢ fat_invalid_sector

module _ {D : Type 0} (dev : Device D) (disk : IsDisk dev) where
  open disk use {content}

  -- One call of next(): the first visits the start, the later ones follow the table.
  next-first :
      (c : Chain) (v : Volume D)
      → c.finished ≡ false
      → c.started ≡ false
      → ((next dev c v).0 ≡ (visit v.geometry c).0)
        × ((next dev c v).1 ≡ (visit v.geometry c).1)
        × ((next dev c v).2 ≡ v)
  unfolding next
  next-first c v h k = (ground (arith, h, k), ground (arith, h, k), ground (arith, h, k))

  next-later :
      (c : Chain) (v : Volume D) (x : ℕ)
      → c.finished ≡ false
      → c.started ≡ true
      → (next dev c v).0 ≡ ok x
      → (link : ℕ) × ((read_entry dev c.current v).0 ≡ ok link)
        × ((step v.geometry link c).0 ≡ ok x)
        × ((next dev c v).1 ≡ (step v.geometry link c).1)
        × ((next dev c v).2 ≡ (read_entry dev c.current v).1)
  unfolding next
  next-later c v x h k e = elim (Result-cases (read_entry dev c.current v).0) [
    | inl (link, r) ↦
        (link, r, ground (arith, e, h, k, r), ground (arith, h, k, r), ground (arith, h, k, r))
    | inr (y, r) ↦ absurd (ground (arith, e, h, k, r))
  ]

  -- The cluster that the table on the disk leads to after `n` links, and the clusters before it.
  unfoldable pub cluster_after : Volume D → ℕ → ℕ → ℕ
  cluster_after v zero cluster = cluster
  cluster_after v (suc n) cluster = cluster_after v n (table_entry dev disk v cluster)

  unfoldable pub clusters_from : Volume D → ℕ → ℕ → List ℕ
  clusters_from v zero cluster = []
  clusters_from v (suc n) cluster = cluster ∷ clusters_from v n (table_entry dev disk v cluster)

  -- The cluster that next() will look at.
  abbrev pub upcoming : Volume D → Chain → ℕ
  upcoming v c = if c.started then table_entry dev disk v c.current else c.current

  pub upcoming-on :
      (v : Volume D) (c : Chain) (x : ℕ)
      → c.current ≡ x
      → c.started ≡ true
      → upcoming v c ≡ table_entry dev disk v x
  upcoming-on v c x at on = rw on (ap (table_entry dev disk v) at)

  -- What a call of next() that succeeds did.
  pub record IsStep (v w : Volume D) (c c' : Chain) (x : ℕ) : Type 0 where
    pub kept : IsKept dev disk v w
    pub arrives : ((fat32_eoc_min ≤ upcoming v c) × (x ≡ 0)) ⊎ ((x ≡ upcoming v c) × Visited c c' x)

  pub next-IsStep :
      (c : Chain) (v : Volume D) (x : ℕ)
      → IsCoherent dev disk v
      → IsReal v.geometry
      → c.finished ≡ false
      → (next dev c v).0 ≡ ok x
      → IsStep v (next dev c v).2 c (next dev c v).1 x
  next-IsStep c v x coherent real open_ h = elim (Bool-cases c.started) [
    | inl on ↦
        let (link, read, stepped, at, left) = next-later c v x open_ on h in
        let valid = (read_entry-fetch dev disk c.current v link read).0 in
        let (value, fetched) =
          read_entry-table_entry dev disk c.current v link coherent (real c.current valid) read in
        record {
          kept = rw left (record {
            coherent = fetched.coherent;
            geometry = fetched.geometry;
            same = fetched.same;
          });
          arrives = elim (step-Visited v.geometry link c x stepped) [
            | inl (le, z) ↦ inl (rw on (omega (arith, value, le)), z)
            | inr (lt, e, visited) ↦ inr (rw on (e ∙ value), rw at visited)
          ];
        }
    | inr off ↦
        let (ran, at, left) = next-first c v open_ off in
        let (e, visited) = visit-Visited v.geometry c x (sym ran ∙ h) in
        record {
          kept = rw left (record { coherent = coherent; geometry = refl; same = refl });
          arrives = inr (rw off e, rw at visited);
        }
  ]

  -- The table is the same after a walk.
  module _ (v w : Volume D) (kept : IsKept dev disk v w) where
    pub table_entry-kept : (c : ℕ) → table_entry dev disk w c ≡ table_entry dev disk v c
    table_entry-kept c = λ i.
        kept.same i (lba (kept.geometry i) (entry_sector (kept.geometry i) c))
          (entry_offset (kept.geometry i) c / 4)
        % 2 ^ 28

    pub cluster_after-kept : (n c : ℕ) → cluster_after w n c ≡ cluster_after v n c
    unfolding cluster_after
    cluster_after-kept zero c = refl
    cluster_after-kept (suc n) c =
        ap (cluster_after w n) (table_entry-kept c)
        ∙ cluster_after-kept n (table_entry dev disk v c)

    pub clusters_from-kept : (n c : ℕ) → clusters_from w n c ≡ clusters_from v n c
    unfolding clusters_from
    clusters_from-kept zero c = refl
    clusters_from-kept (suc n) c =
        ap (λ t. c ∷ clusters_from w n t) (table_entry-kept c)
        ∙ ap (λ ts. c ∷ ts) (clusters_from-kept n (table_entry dev disk v c))

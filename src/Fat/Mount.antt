-- ===== src/Fat/Mount.antt =====
-- What the checks of `mount` give: no 32-bit computation of the geometry wraps, every cluster's data
-- lies in the volume, and every cluster has an entry inside the table.
use native.Mathlib.Nat.{div-mul-le_self, mul-le-mul_right, div-eq_of_lt-le}
use zonix_plus.Base.{
  >>=-eq-ok, ap, arith, ok, refl, sym, true, ℕ, ◌%◌, ◌*◌, ◌+◌, ◌-◌, ◌/◌, ◌<◌, ◌∙◌, ◌≡◌, ◌≤◌,
}
use zonix_plus.Fat.{
  u32, fat32_reserved_min, BootSector, Geometry, do_init_state, check_boot_sector, mount,
  valid_cluster, cluster_to_sector, entry_sector, entry_offset,
}

-- The geometry of a volume that fits the device.
pub record IsMounted (part_start block_count : ℕ) (g : Geometry) : Type 0 where
  pub start : g.partition_start_lba ≡ part_start
  pub sector_bytes : g.bytes_per_sector ≡ 512
  pub cluster_sectors : (0 < g.sectors_per_cluster) × (g.sectors_per_cluster ≤ 128)
  pub cluster_bytes : g.bytes_per_cluster ≡ g.bytes_per_sector * g.sectors_per_cluster
  pub copies : (0 < g.fat_count) × (g.fat_count ≤ 2)
  pub tables : g.fat_start_sector + g.fat_count * g.fat_sector_count ≡ g.data_start_sector
  pub clusters : (0 < g.cluster_count) × (g.cluster_count + 2 ≤ fat32_reserved_min)
  pub counted :
      g.cluster_count ≡ (g.total_sector_count - g.data_start_sector) / g.sectors_per_cluster
  pub area : g.data_start_sector + g.cluster_count * g.sectors_per_cluster ≤ g.total_sector_count
  pub entries : (g.cluster_count + 2) * 4 ≤ g.fat_sector_count * 512
  pub root : (2 ≤ g.root_cluster) × (g.root_cluster < g.cluster_count + 2)
  pub fits : part_start + g.total_sector_count ≤ block_count

abbrev start_of : BootSector → ℕ
start_of bs = bs.reserved_sectors + bs.num_fats * bs.fat_size_32

abbrev clusters_of : BootSector → ℕ
clusters_of bs = (bs.total_sectors_32 - start_of bs) / bs.sectors_per_cluster

-- What a boot sector that passes the checks satisfies, in numbers.
pub record IsChecked (part_start block_count : ℕ) (bs : BootSector) : Type 0 where
  pub sector_bytes : bs.bytes_per_sector ≡ 512
  pub cluster_sectors : (0 < bs.sectors_per_cluster) × (bs.sectors_per_cluster ≤ 128)
  pub copies : (0 < bs.num_fats) × (bs.num_fats ≤ 2)
  pub area : start_of bs < bs.total_sectors_32
  pub fits : part_start + bs.total_sectors_32 ≤ block_count
  pub clusters : (0 < clusters_of bs) × (clusters_of bs + 2 ≤ fat32_reserved_min)
  pub entries : (clusters_of bs + 2) * 4 ≤ bs.fat_size_32 * bs.bytes_per_sector
  pub root : (2 ≤ bs.root_cluster) × (bs.root_cluster < clusters_of bs + 2)

check_boot_sector-IsChecked :
    (part_start block_count : ℕ) (bs : BootSector)
    → check_boot_sector part_start block_count bs ≡ ok tt
    → IsChecked part_start block_count bs
unfolding check_boot_sector
check_boot_sector-IsChecked part_start block_count bs h = record {
  sector_bytes = ground arith;
  cluster_sectors = ground arith;
  copies = ground arith;
  area = ground arith;
  fits = ground arith;
  clusters = ground arith;
  entries = ground arith;
  root = ground arith;
}

module _ (part_start block_count : ℕ) (bs : BootSector)
    (checked : IsChecked part_start block_count bs) (width : bs.total_sectors_32 < u32) where
  data_start-exact : (do_init_state part_start bs).data_start_sector ≡ start_of bs
  unfolding do_init_state
  data_start-exact = omega (arith, checked.area)

  cluster_count-exact : (do_init_state part_start bs).cluster_count ≡ clusters_of bs
  unfolding do_init_state
  cluster_count-exact =
      ap (λ (x : ℕ). x / bs.sectors_per_cluster) (omega (arith, data_start-exact, checked.area))

  do_init_state-IsMounted : IsMounted part_start block_count (do_init_state part_start bs)
  unfolding do_init_state
  do_init_state-IsMounted = record {
    start = refl;
    sector_bytes = checked.sector_bytes;
    cluster_sectors = checked.cluster_sectors;
    cluster_bytes = rw checked.sector_bytes (omega (arith, checked.cluster_sectors));
    copies = checked.copies;
    tables = omega (arith, data_start-exact);
    clusters = rw cluster_count-exact checked.clusters;
    counted =
        cluster_count-exact
        ∙ ap (λ (x : ℕ). (bs.total_sectors_32 - x) / bs.sectors_per_cluster) (sym data_start-exact);
    area = rw cluster_count-exact (
        omega (
          arith,
          data_start-exact,
          checked.area,
          div-mul-le_self (bs.total_sectors_32 - start_of bs) bs.sectors_per_cluster,
        ));
    entries = rw cluster_count-exact (rw checked.sector_bytes at checked.entries);
    root = rw cluster_count-exact checked.root;
    fits = checked.fits;
  }

-- A boot sector that mount accepts, its 32-bit sector count in range, gives a geometry that fits the
-- device, in which no 32-bit sum, product or difference has wrapped.
pub mount-IsMounted :
    (part_start block_count : ℕ) (bs : BootSector) (g : Geometry)
    → bs.total_sectors_32 < u32
    → mount part_start block_count bs ≡ ok g
    → IsMounted part_start block_count g
unfolding mount
mount-IsMounted part_start block_count bs g width h =
    let (u, passed, e) =
      >>=-eq-ok (check_boot_sector part_start block_count bs)
        (λ _. ok (do_init_state part_start bs)) h in
    let checked = check_boot_sector-IsChecked part_start block_count bs passed in
    let same : do_init_state part_start bs ≡ g = ground arith in
    rw (← same) (do_init_state-IsMounted part_start block_count bs checked width)

module _ (part_start block_count : ℕ) (g : Geometry) (mounted : IsMounted part_start block_count g)
    (width : block_count < u32) (c : ℕ) (valid : valid_cluster g c ≡ true) where
  valid_cluster-bounds : (2 ≤ c) × (c < g.cluster_count + 2)
  unfolding valid_cluster
  valid_cluster-bounds = ground (arith, mounted.clusters)

  -- The data of a valid cluster lies in the volume and behind the tables.
  data-end :
      (c - 2) * g.sectors_per_cluster + g.sectors_per_cluster
      ≤ g.cluster_count * g.sectors_per_cluster
  data-end = omega (
    arith,
    mul-le-mul_right {m = c - 2 + 1} {n = g.cluster_count} g.sectors_per_cluster
        (omega (arith, valid_cluster-bounds)),
  )

  pub cluster_to_sector-exact :
      cluster_to_sector g c ≡ g.data_start_sector + (c - 2) * g.sectors_per_cluster
  unfolding cluster_to_sector
  cluster_to_sector-exact =
      ground (arith, valid_cluster-bounds, data-end, mounted.area, mounted.fits)

-- On a mounted volume of a device with a 32-bit block count, each sector of a valid cluster lies
-- behind the tables and inside the volume and the device, and its address does not wrap.
pub cluster_to_sector_bounds :
    (part_start block_count : ℕ) (g : Geometry) (c s : ℕ)
    → IsMounted part_start block_count g
    → block_count < u32
    → valid_cluster g c ≡ true
    → s < g.sectors_per_cluster
    → (g.fat_start_sector + g.fat_count * g.fat_sector_count ≤ cluster_to_sector g c + s)
      × (cluster_to_sector g c + s < g.total_sector_count)
      × (part_start + (cluster_to_sector g c + s) < block_count)
cluster_to_sector_bounds part_start block_count g c s mounted width valid h =
    let exact = cluster_to_sector-exact part_start block_count g mounted width c valid in
    let end = data-end part_start block_count g mounted width c valid in
    (
      omega (arith, exact, mounted.tables),
      omega (arith, exact, end, mounted.area, h),
      omega (arith, exact, end, mounted.area, mounted.fits, h),
    )

same_cluster : (k c d s t : ℕ) → s < k → t < k → c * k + s ≡ d * k + t → (c ≡ d) × (s ≡ t)
same_cluster k c d s t hs ht e =
    let first : (c * k + s) / k ≡ c = div-eq_of_lt-le {k = c} k (omega arith) (omega arith) in
    let second : (d * k + t) / k ≡ d = div-eq_of_lt-le {k = d} k (omega arith) (omega arith) in
    let same : c ≡ d = sym first ∙ ap (λ (x : ℕ). x / k) e ∙ second in
    (same, omega (arith, e, ap (λ (x : ℕ). x * k) same))

-- Two valid clusters of a mounted volume share no sector.
pub cluster_to_sector_injective :
    (part_start block_count : ℕ) (g : Geometry) (c d s t : ℕ)
    → IsMounted part_start block_count g
    → block_count < u32
    → valid_cluster g c ≡ true
    → valid_cluster g d ≡ true
    → s < g.sectors_per_cluster
    → t < g.sectors_per_cluster
    → cluster_to_sector g c + s ≡ cluster_to_sector g d + t
    → (c ≡ d) × (s ≡ t)
cluster_to_sector_injective part_start block_count g c d s t mounted width vc vd hs ht e =
    let (same, rest) = same_cluster g.sectors_per_cluster (c - 2) (d - 2) s t hs ht (
      omega (
        arith,
        e,
        cluster_to_sector-exact part_start block_count g mounted width c vc,
        cluster_to_sector-exact part_start block_count g mounted width d vd,
      )) in
    (
      omega (
        arith,
        same,
        valid_cluster-bounds part_start block_count g mounted width c vc,
        valid_cluster-bounds part_start block_count g mounted width d vd,
      ),
      rest,
    )

-- The table entry of a valid cluster is a whole 32-bit word of a sector of the first table.
pub entry_bounds :
    (part_start block_count : ℕ) (g : Geometry) (c : ℕ)
    → IsMounted part_start block_count g
    → block_count < u32
    → valid_cluster g c ≡ true
    → (g.fat_start_sector ≤ entry_sector g c)
      × (entry_sector g c < g.fat_start_sector + g.fat_sector_count)
      × (entry_offset g c + 4 ≤ 512)
      × (entry_offset g c % 4 ≡ 0)
      × ((entry_sector g c - g.fat_start_sector) * 512 + entry_offset g c ≡ c * 4)
unfolding entry_sector entry_offset
entry_bounds part_start block_count g c mounted width valid =
    let (lo, hi) = valid_cluster-bounds part_start block_count g mounted width c valid in
    let once = mul-le-mul_right {m = 1} {n = g.fat_count} g.fat_sector_count mounted.copies.0 in
    rw mounted.sector_bytes (
      omega (arith, lo, hi, once, mounted),
      omega (arith, lo, hi, once, mounted),
      omega (arith, lo, hi, once, mounted),
      omega (arith, lo, hi, once, mounted),
      omega (arith, lo, hi, once, mounted),
    )

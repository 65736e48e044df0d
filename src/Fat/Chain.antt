-- ===== src/Fat/Chain.antt =====
-- kernel/fs/fat.h and kernel/fs/fat/fat_core.cpp: ClusterChain, which follows the links of a cluster
-- chain and detects cycles with Brent's algorithm, the loop over it, and free_chain.
pub mod Bound
pub mod Walk
use zonix_plus.Base.{
  Bool, List, Option, Result, [], bad_fs, err, false, if◌then◌else◌, leb, ltb, none, not, ok, some,
  suc, true, zero, ℕ, ◌%◌, ◌&&◌, ◌*◌, ◌+◌, ◌==◌, ◌∷◌,
}
use zonix_plus.Fat.{u32, fat32_eoc_min, Geometry, valid_cluster}
use zonix_plus.Fat.Table.{Device, Volume, read_entry, write_entry}

-- The state of a ClusterChain.
pub record Chain : Type 0 where
  pub current : ℕ
  pub checkpoint : ℕ
  pub power : ℕ
  pub distance : ℕ
  pub visited : ℕ
  pub started : Bool
  pub finished : Bool

unfoldable pub new_chain : ℕ → Chain
new_chain start = record {
  current = start;
  checkpoint = start;
  power = 1;
  distance = 0;
  visited = 0;
  started = false;
  finished = false;
}

-- The end of next(): the current cluster is checked, counted and returned.
unfoldable pub visit : Geometry → Chain → Result ℕ × Chain
visit g c =
    if valid_cluster g c.current && ltb c.visited g.cluster_count
    then (ok c.current, record c { visited = (c.visited + 1) % u32; started = true })
    else (err bad_fs, c)

-- The middle of next(): the link that was read is checked against the checkpoint and becomes current.
unfoldable pub step : Geometry → ℕ → Chain → Result ℕ × Chain
unfolding visit
step g next c =
    let far = (c.distance + 1) % u32 in
    if leb fat32_eoc_min next
    then (ok 0, record c { finished = true })
    else if not (valid_cluster g next)
    then (err bad_fs, c)
    else if next == c.checkpoint
    then (err bad_fs, record c { distance = far })
    else if far == c.power
    then visit g
        (record c { current = next; checkpoint = next; power = c.power * 2 % u32; distance = 0 })
    else visit g (record c { current = next; distance = far })

-- One call of next() and the rest of a loop over the chain, which ends with an error or a 0.
abbrev pub joined : Result ℕ → Option (Result (List ℕ)) → Option (Result (List ℕ))
joined (err e) rest = some (err e)
joined (ok zero) rest = some (ok [])
joined (ok (suc n)) none = none
joined (ok (suc n)) (some (err e)) = some (err e)
joined (ok (suc n)) (some (ok clusters)) = some (ok (suc n ∷ clusters))

module _ {D : Type 0} (dev : Device D) where
  -- ClusterChain::next; the cluster 0 marks the end of a chain.
  unfoldable pub next : Chain → Volume D → Result ℕ × Chain × Volume D
  unfolding step
  next c v =
      if c.finished
      then (ok 0, c, v)
      else if c.started
      then (let (link, v') = read_entry dev c.current v in
          elim link [
            | err e ↦ (err e, c, v')
            | ok n ↦ let (r, c') = step v.geometry n c in (r, c', v')
          ])
      else (let (r, c') = visit v.geometry c in (r, c', v))

  -- while (TRY(chain.next()) != 0) {}: the clusters that were returned, none without fuel.
  unfoldable pub follow : ℕ → Chain → Volume D → Option (Result (List ℕ)) × Volume D
  unfolding next
  follow zero c v = (none, v)
  follow (suc fuel) c v =
      let (r, c', v') = next c v in
      let (rest, v'') = follow fuel c' v' in
      (joined r rest, elim r [ err e ↦ v' | ok zero ↦ v' | ok (suc n) ↦ v'' ])

  -- The second loop of free_chain, none without fuel.
  unfoldable pub clear_links : ℕ → ℕ → Volume D → Option (Result (Unit {0})) × Volume D
  clear_links zero cluster v = (none, v)
  clear_links (suc fuel) cluster v =
      let (r, v') = read_entry dev cluster v in
      let (w, v'') = write_entry dev cluster 0 v' in
      let link : ℕ = elim r [ ok n ↦ n | err e ↦ 0 ] in
      let rest = clear_links fuel link v'' in
      if leb fat32_eoc_min cluster then (some (ok tt), v) else elim r [
        | err e ↦ (some (err e), v')
        | ok n ↦ elim w [ err e ↦ (some (err e), v'') | ok u ↦ rest ]
      ]

  -- FatInfo::free_chain
  unfoldable pub free_chain : ℕ → ℕ → Volume D → Option (Result (Unit {0})) × Volume D
  unfolding follow clear_links
  free_chain fuel start v =
      let (r, v') = follow fuel (new_chain start) v in
      elim r [
        | none ↦ (none, v')
        | some (err e) ↦ (some (err e), v')
        | some (ok clusters) ↦ clear_links fuel start v'
      ]

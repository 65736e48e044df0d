-- ===== src/Fat/Dir/Walk.antt =====
-- A walk over a directory looks through the sectors that the allocation table on the disk leads to,
-- in their order, and stops at the first that answers.
use zonix_plus.Base.{
  Error, Option, Result, Result-cases, [], ap, arith, err, false, inl, inr, none, ok, refl, some,
  suc, sym, zero, ℕ, ◌∙◌, ◌≡◌, ◌≢◌, ◌≤◌,
}
use zonix_plus.Fat.{Geometry, cluster_to_sector, fat32_eoc_min}
use zonix_plus.Fat.Chain.{Chain, new_chain, next}
use zonix_plus.Fat.Dir.{Stop, walk_dir, walk_sectors}
use zonix_plus.Fat.Dir.Steps.{
  IsReal, Visited, blocks_of, cluster_after, cluster_after-kept, clusters_from, clusters_from-kept,
  next-IsStep, table_entry-kept, upcoming, upcoming-on,
}
use zonix_plus.Fat.Dir.Sectors.{
  IsKept, IsKept-trans, blocks_from, first_seen, first_seen-append, first_seen-prefix,
  walk_sectors-first_seen,
}
use zonix_plus.Fat.Table.{Device, Sector, Volume}
use zonix_plus.Fat.Table.Coherence.{IsCoherent, IsDisk, table_entry}

module _ {D : Type 0} (dev : Device D) (disk : IsDisk dev) where
  open disk use {content}

  module _ {A : Type 0} (look : Sector → Option A) where
    abbrev pub walk : ℕ → Chain → Volume D → Option (Result (Option (Stop A))) × Volume D
    walk = walk_dir dev look

    -- What a walk that ends without an error did.
    pub record IsWalked (v w : Volume D) (start : ℕ) (x : Option (Stop A)) : Type 0 where
      pub clusters : ℕ
      pub answer :
          x
          ≡ first_seen look
              (content v.disk)
              (blocks_of v.geometry (clusters_from dev disk v clusters start))
      pub exhausted : x ≡ none → fat32_eoc_min ≤ cluster_after dev disk v clusters start
      pub kept : IsKept dev disk v w

    walk-zero : (c : Chain) (v : Volume D) (x : Option (Stop A)) → (walk zero c v).0 ≢ some (ok x)
    unfolding walk_dir
    walk-zero c v x h = absurd (ground (arith, h))

    -- One round of the walk.
    module _ (fuel : ℕ) (c : Chain) (v : Volume D) where
      abbrev pub c₁ : Chain
      c₁ = (next dev c v).1

      abbrev pub v₁ : Volume D
      v₁ = (next dev c v).2

      abbrev pub sectors : ℕ → Result (Option (Stop A)) × Volume D
      sectors k =
          walk_sectors dev look v₁.geometry.sectors_per_cluster
            (cluster_to_sector v₁.geometry (suc k)) v₁

      pub walk-err :
          (e : Error) → (next dev c v).0 ≡ err e → walk (suc fuel) c v ≡ (some (err e), v₁)
      unfolding walk_dir
      walk-err e h = rw (h, walk_dir) refl

      pub walk-end : (next dev c v).0 ≡ ok 0 → walk (suc fuel) c v ≡ (some (ok none), v₁)
      unfolding walk_dir
      walk-end h = rw (h, walk_dir) refl

      pub walk-stop :
          (k : ℕ) (stop : Stop A)
          → (next dev c v).0 ≡ ok (suc k)
          → (sectors k).0 ≡ ok (some stop)
          → walk (suc fuel) c v ≡ (some (ok (some stop)), (sectors k).1)
      unfolding walk_dir
      walk-stop k stop h e = rw (h, e, walk_dir) refl

      pub walk-failed :
          (k : ℕ) (e : Error)
          → (next dev c v).0 ≡ ok (suc k)
          → (sectors k).0 ≡ err e
          → walk (suc fuel) c v ≡ (some (err e), (sectors k).1)
      unfolding walk_dir
      walk-failed k e h f = rw (h, f, walk_dir) refl

      pub walk-on :
          (k : ℕ)
          → (next dev c v).0 ≡ ok (suc k)
          → (sectors k).0 ≡ ok none
          → walk (suc fuel) c v ≡ walk fuel c₁ (sectors k).1
      unfolding walk_dir
      walk-on k h e = rw (h, e, walk_dir) refl

    IsWalked-end :
        (v w : Volume D) (t : ℕ) (x : Option (Stop A))
        → x ≡ none
        → fat32_eoc_min ≤ t
        → IsKept dev disk v w
        → IsWalked v w t x
    unfolding clusters_from cluster_after blocks_of first_seen
    IsWalked-end v w t x e eoc kept = record {
      clusters = 0;
      answer = e;
      exhausted = λ z. eoc;
      kept = kept;
    }

    -- The walk of the clusters behind `t`, and of `t` before them.
    IsWalked-cons :
        (v v₂ w : Volume D) (t u : ℕ) (x : Option (Stop A))
        → IsKept dev disk v v₂
        → u ≡ table_entry dev disk v t
        → first_seen look
            (content v.disk)
            (blocks_from v.geometry v.geometry.sectors_per_cluster (cluster_to_sector v.geometry t))
          ≡ none
        → IsWalked v₂ w u x
        → IsWalked v w t x
    unfolding clusters_from cluster_after blocks_of
    IsWalked-cons v v₂ w t u x kept at missed walked =
        let n = walked.clusters in
        let link = table_entry dev disk v t in
        let same : clusters_from dev disk v₂ n u ≡ clusters_from dev disk v n link =
          clusters_from-kept dev disk v v₂ kept n u ∙ ap (clusters_from dev disk v n) at in
        let last : cluster_after dev disk v₂ n u ≡ cluster_after dev disk v n link =
          cluster_after-kept dev disk v v₂ kept n u ∙ ap (cluster_after dev disk v n) at in
        record {
          clusters = suc n;
          answer =
              walked.answer
              ∙ (λ i. first_seen look (kept.same i) (blocks_of (kept.geometry i) (same i)))
              ∙ sym (
                  first_seen-append look (content v.disk)
                    (blocks_from v.geometry v.geometry.sectors_per_cluster
                      (cluster_to_sector v.geometry t))
                    (blocks_of v.geometry (clusters_from dev disk v n link)) missed);
          exhausted = λ e. rw (← last) (walked.exhausted e);
          kept = IsKept-trans dev disk v v₂ w kept walked.kept;
        }

    IsWalked-stop :
        (v w : Volume D) (t : ℕ) (x : Option (Stop A)) (stop : Stop A)
        → x ≡ some stop
        → first_seen look
            (content v.disk)
            (blocks_from v.geometry v.geometry.sectors_per_cluster (cluster_to_sector v.geometry t))
          ≡ some stop
        → IsKept dev disk v w
        → IsWalked v w t x
    unfolding clusters_from blocks_of
    IsWalked-stop v w t x stop e here kept = record {
      clusters = 1;
      answer =
          e
          ∙ sym (
              first_seen-prefix look (content v.disk)
                (blocks_from v.geometry v.geometry.sectors_per_cluster
                  (cluster_to_sector v.geometry t))
                [] stop here);
      exhausted = λ z. absurd (ground (arith, z, e));
      kept = kept;
    }

    IsReal-kept : {g h : Geometry} → h ≡ g → IsReal g → IsReal h
    IsReal-kept e real = rw e real

    -- A round that looks through the cluster of next(), and the rest of the walk.
    walk-round :
        (fuel : ℕ) (c : Chain) (v : Volume D) (x : Option (Stop A))
        → IsCoherent dev disk v
        → IsReal v.geometry
        → (k : ℕ) → (next dev c v).0 ≡ ok (suc k)
        → suc k ≡ upcoming dev disk v c
        → IsKept dev disk v (v₁ fuel c v)
        → Visited c (c₁ fuel c v) (suc k)
        → (IsKept dev disk v (sectors fuel c v k).1
            → (walk fuel (c₁ fuel c v) (sectors fuel c v k).1).0 ≡ some (ok x)
            → IsWalked
                (sectors fuel c v k).1
                (walk fuel (c₁ fuel c v) (sectors fuel c v k).1).1
                (upcoming dev disk (sectors fuel c v k).1 (c₁ fuel c v))
                x)
        → (walk (suc fuel) c v).0 ≡ some (ok x)
        → IsWalked v (walk (suc fuel) c v).1 (upcoming dev disk v c) x
    walk-round fuel c v x coherent real k at e kept visited rest h =
        let t = upcoming dev disk v c in
        let w = v₁ fuel c v in
        let seen : (y : Option (Stop A))
            → (sectors fuel c v k).0 ≡ ok y
            → (first_seen look (content v.disk) (
                  blocks_from v.geometry v.geometry.sectors_per_cluster
                    (cluster_to_sector v.geometry t))
                ≡ y)
              × IsKept dev disk v (sectors fuel c v k).1 =
          λ y got.
            let (first, kept') =
              walk_sectors-first_seen dev disk look w.geometry.sectors_per_cluster
                (cluster_to_sector w.geometry (suc k)) w y kept.coherent got in
            (
              sym (
                  first ∙ λ i. first_seen look (kept.same i) (
                    blocks_from (kept.geometry i) (kept.geometry i).sectors_per_cluster
                      (cluster_to_sector (kept.geometry i) (e i)))),
              IsKept-trans dev disk v w _ kept kept',
            ) in
        elim (Result-cases (sectors fuel c v k).0) [
          | inr (f, failed) ↦
              absurd (ground (arith, h, ap (λ z. z.0) (walk-failed fuel c v k f at failed)))
          | inl (some stop, got) ↦
              let ran = walk-stop fuel c v k stop at got in
              let (here, kept') = seen (some stop) got in
              rw (ap (λ z. z.1) ran)
                (IsWalked-stop v _ t x stop (ground (arith, h, ap (λ z. z.0) ran)) here kept')
          | inl (none, got) ↦
              let ran = walk-on fuel c v k at got in
              let (missed, kept') = seen none got in
              let v₂ = (sectors fuel c v k).1 in
              let link : upcoming dev disk v₂ (c₁ fuel c v) ≡ table_entry dev disk v t =
                upcoming-on dev disk v₂ (c₁ fuel c v) (suc k) visited.1 visited.2
                ∙ table_entry-kept dev disk v v₂ kept' (suc k)
                ∙ ap (table_entry dev disk v) e in
              rw (ap (λ z. z.1) ran) (
                IsWalked-cons v v₂ _ t (upcoming dev disk v₂ (c₁ fuel c v)) x kept' link missed
                  (rest kept' (sym (ap (λ z. z.0) ran) ∙ h)))
        ]

    walk_dir-IsWalked :
        (fuel : ℕ) (c : Chain) (v : Volume D) (x : Option (Stop A))
        → IsCoherent dev disk v
        → IsReal v.geometry
        → c.finished ≡ false
        → (walk fuel c v).0 ≡ some (ok x)
        → IsWalked v (walk fuel c v).1 (upcoming dev disk v c) x
    walk_dir-IsWalked zero c v x coherent real open_ h = absurd (walk-zero c v x h)
    walk_dir-IsWalked (suc fuel) c v x coherent real open_ h =
        elim (Result-cases (next dev c v).0) [
          | inr (e, failed) ↦ absurd (ground (arith, h, ap (λ z. z.0) (walk-err fuel c v e failed)))
          | inl (zero, at) ↦
              let ran = walk-end fuel c v at in
              let stepped = next-IsStep dev disk c v 0 coherent real open_ at in
              let ended : x ≡ none = ground (arith, h, ap (λ z. z.0) ran) in
              elim stepped.arrives [
                | inr (e, visited) ↦ absurd (omega (arith, visited.0))
                | inl (eoc, z) ↦ rw (ap (λ z. z.1) ran) (
                    IsWalked-end v (next dev c v).2 (upcoming dev disk v c) x ended eoc
                      stepped.kept)
              ]
          | inl (suc k, at) ↦
              let stepped = next-IsStep dev disk c v (suc k) coherent real open_ at in
              elim stepped.arrives [
                | inl (eoc, z) ↦ absurd (omega (arith, z))
                | inr (e, visited) ↦
                    let shut = visited.3 ∙ open_ in
                    walk-round fuel c v x coherent real k at e stepped.kept visited
                      (λ kept heard.
                        walk_dir-IsWalked fuel (next dev c v).1 (sectors fuel c v k).1 x
                          kept.coherent (IsReal-kept kept.geometry real) shut heard)
                      h
              ]
        ]

    -- A walk from the start of a chain.
    pub walk_dir-new_chain :
        (fuel start : ℕ) (v : Volume D) (x : Option (Stop A))
        → IsCoherent dev disk v
        → IsReal v.geometry
        → (walk fuel (new_chain start) v).0 ≡ some (ok x)
        → IsWalked v (walk fuel (new_chain start) v).1 start x
    unfolding new_chain
    walk_dir-new_chain fuel start v x coherent real h =
        walk_dir-IsWalked fuel (new_chain start) v x coherent real refl h

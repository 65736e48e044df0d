-- ===== src/Fat/Dir/Sectors.antt =====
-- The walk over the sectors of a cluster reads them from the disk in their order, and stops at the
-- first that answers.
use zonix_plus.Base.{
  Error, List, Option, Option-cases, Result-cases, [], ap, arith, err, inl, inr, none, ok, refl,
  some, suc, sym, zero, ℕ, ◌++◌, ◌+◌, ◌∙◌, ◌∷◌, ◌≡◌, ◌≢◌,
}
use zonix_plus.Fat.{Geometry}
use zonix_plus.Fat.Dir.{Stop, walk_sectors}
use zonix_plus.Fat.Table.{Device, Sector, Volume, lba}
use zonix_plus.Fat.Table.Coherence.{IsCoherent, IsDisk}

-- The blocks of `n` sectors.
unfoldable pub blocks_from : Geometry → ℕ → ℕ → List ℕ
blocks_from g zero sector = []
blocks_from g (suc n) sector = lba g sector ∷ blocks_from g n (sector + 1)

stop-block :
    {A : Type 0} {x y : ℕ} {s t : Sector} {a b : A}
    → (let Stops : Type 0 = Option (Stop A) in
        let left : Stops = some (x, s, a) in let right : Stops = some (y, t, b) in left ≡ right)
    → x ≡ y
stop-block h = cc

stop-sector :
    {A : Type 0} {x y : ℕ} {s t : Sector} {a b : A}
    → (let Stops : Type 0 = Option (Stop A) in
        let left : Stops = some (x, s, a) in let right : Stops = some (y, t, b) in left ≡ right)
    → s ≡ t
stop-sector h = cc

module _ {A : Type 0} (look : Sector → Option A) where
  -- The first of the blocks on which `look` answers.
  unfoldable pub first_seen : (ℕ → Sector) → List ℕ → Option (Stop A)
  first_seen held [] = none
  first_seen held (block ∷ blocks) =
      let rest = first_seen held blocks in
      elim (look (held block)) [ some a ↦ some (block, held block, a) | none ↦ rest ]

  first_seen-empty : (held : ℕ → Sector) (s : Stop A) → first_seen held [] ≢ some s
  unfolding first_seen
  first_seen-empty held s h = absurd (ground (arith, h))

  pub first_seen-hit :
      (held : ℕ → Sector) (x : ℕ) (xs : List ℕ) (a : A)
      → look (held x) ≡ some a
      → first_seen held (x ∷ xs) ≡ some (x, held x, a)
  unfolding first_seen
  first_seen-hit held x xs a h = rw (h, first_seen) refl

  pub first_seen-miss :
      (held : ℕ → Sector) (x : ℕ) (xs : List ℕ)
      → look (held x) ≡ none
      → first_seen held (x ∷ xs) ≡ first_seen held xs
  unfolding first_seen
  first_seen-miss held x xs h = rw (h, first_seen) refl

  -- The sector that answers is the one that its block holds.
  pub first_seen-held :
      (held : ℕ → Sector) (xs : List ℕ) (b : ℕ) (sector : Sector) (a : A)
      → first_seen held xs ≡ some (b, sector, a)
      → sector ≡ held b
  first_seen-held held [] b sector a h = absurd (first_seen-empty held (b, sector, a) h)
  first_seen-held held (x ∷ xs) b sector a h = elim (Option-cases (look (held x))) [
    | inl e ↦ first_seen-held held xs b sector a (sym (first_seen-miss held x xs e) ∙ h)
    | inr (a', e) ↦
        let same = sym (first_seen-hit held x xs a' e) ∙ h in
        let block : x ≡ b = stop-block same in sym (stop-sector same) ∙ ap held block
  ]

  pub first_seen-append :
      (held : ℕ → Sector) (xs ys : List ℕ)
      → first_seen held xs ≡ none
      → first_seen held (xs ++ ys) ≡ first_seen held ys
  first_seen-append held [] ys h = refl
  first_seen-append held (x ∷ xs) ys h = elim (Option-cases (look (held x))) [
    | inl e ↦
        first_seen-miss held x (xs ++ ys) e
        ∙ first_seen-append held xs ys (sym (first_seen-miss held x xs e) ∙ h)
    | inr (a, e) ↦ absurd (ground (arith, first_seen-hit held x xs a e, h))
  ]

  pub first_seen-prefix :
      (held : ℕ → Sector) (xs ys : List ℕ) (s : Stop A)
      → first_seen held xs ≡ some s
      → first_seen held (xs ++ ys) ≡ some s
  first_seen-prefix held [] ys s h = absurd (first_seen-empty held s h)
  first_seen-prefix held (x ∷ xs) ys s h = elim (Option-cases (look (held x))) [
    | inl e ↦
        first_seen-miss held x (xs ++ ys) e
        ∙ first_seen-prefix held xs ys s (sym (first_seen-miss held x xs e) ∙ h)
    | inr (a, e) ↦ first_seen-hit held x (xs ++ ys) a e ∙ sym (first_seen-hit held x xs a e) ∙ h
  ]

module _ {D : Type 0} (dev : Device D) (disk : IsDisk dev) where
  open disk use {content}

  -- What a walk keeps: the cache is coherent, and no block of the disk changes.
  pub record IsKept (v w : Volume D) : Type 0 where
    pub coherent : IsCoherent dev disk w
    pub geometry : w.geometry ≡ v.geometry
    pub same : content w.disk ≡ content v.disk

  pub IsKept-trans : (u v w : Volume D) → IsKept u v → IsKept v w → IsKept u w
  IsKept-trans u v w h h' = record {
    coherent = h'.coherent;
    geometry = h'.geometry ∙ h.geometry;
    same = h'.same ∙ h.same;
  }

  -- A read of a block outside the cache.
  read-IsKept :
      (block : ℕ) (v : Volume D)
      → IsCoherent dev disk v
      → IsKept v (record v { disk = (dev.read v.disk block (λ i. 0)).2 })
  read-IsKept block v coherent =
      let same = disk.read_keeps v.disk block (λ i. 0) in
      record {
        coherent = record {
          clean = coherent.clean;
          cached = λ real.
              coherent.cached real ∙ ap (λ f. f (lba v.geometry v.buffer_sector)) (sym same);
        };
        geometry = refl;
        same = same;
      }

  module _ {A : Type 0} (look : Sector → Option A) where
    -- One round of the loop over sectors.
    module _ (n sector : ℕ) (v : Volume D) where
      abbrev block : ℕ
      block = lba v.geometry sector

      abbrev left : Volume D
      left = record v { disk = (dev.read v.disk block (λ i. 0)).2 }

      abbrev filled : Sector
      filled = (dev.read v.disk block (λ i. 0)).1

      walk_sectors-err :
          (e : Error)
          → (dev.read v.disk block (λ i. 0)).0 ≡ err e
          → walk_sectors dev look (suc n) sector v ≡ (err e, left)
      unfolding walk_sectors
      walk_sectors-err e h = rw (h, walk_sectors) refl

      walk_sectors-hit :
          (a : A)
          → (dev.read v.disk block (λ i. 0)).0 ≡ ok tt
          → look filled ≡ some a
          → walk_sectors dev look (suc n) sector v ≡ (ok (some (block, filled, a)), left)
      unfolding walk_sectors
      walk_sectors-hit a h k = rw (h, k, walk_sectors) refl

      walk_sectors-miss :
          (dev.read v.disk block (λ i. 0)).0 ≡ ok tt
          → look filled ≡ none
          → walk_sectors dev look (suc n) sector v ≡ walk_sectors dev look n (sector + 1) left
      unfolding walk_sectors
      walk_sectors-miss h k = rw (h, k, walk_sectors) refl

    pub walk_sectors-first_seen :
        (n sector : ℕ) (v : Volume D) (x : Option (Stop A))
        → IsCoherent dev disk v
        → (walk_sectors dev look n sector v).0 ≡ ok x
        → (x ≡ first_seen look (content v.disk) (blocks_from v.geometry n sector))
          × IsKept v (walk_sectors dev look n sector v).1
    unfolding walk_sectors blocks_from first_seen
    walk_sectors-first_seen zero sector v x coherent h =
        (ground (arith, h), record { coherent = coherent; geometry = refl; same = refl })
    walk_sectors-first_seen (suc n) sector v x coherent h =
        let b = lba v.geometry sector in
        let next_v = record v { disk = (dev.read v.disk b (λ i. 0)).2 } in
        let got = (dev.read v.disk b (λ i. 0)).1 in
        let kept = read-IsKept b v coherent in
        let rest = blocks_from v.geometry n (sector + 1) in
        elim (Result-cases (dev.read v.disk b (λ i. 0)).0) [
          | inr (e, failed) ↦
              absurd (ground (arith, h, ap (λ z. z.0) (walk_sectors-err n sector v e failed)))
          | inl (u, fine) ↦
              let same : got ≡ content v.disk b = disk.read_fills v.disk b (λ i. 0) fine in
              elim (Option-cases (look got)) [
                | inl e ↦
                    let ran = walk_sectors-miss n sector v fine e in
                    let (first, kept') =
                      walk_sectors-first_seen n (sector + 1) next_v x kept.coherent
                        (sym (ap (λ z. z.0) ran) ∙ h) in
                    (
                      first
                          ∙ ap (λ c. first_seen look c rest) kept.same
                          ∙ sym (
                              first_seen-miss look (content v.disk) b rest
                                (ap look (sym same) ∙ e)),
                      rw (ap (λ z. z.1) ran) (IsKept-trans v next_v _ kept kept'),
                    )
                | inr (a, e) ↦
                    let ran = walk_sectors-hit n sector v a fine e in
                    (
                      ground (arith, h, ap (λ z. z.0) ran)
                          ∙ ap (λ g. some (b, g, a)) same
                          ∙ sym (
                              first_seen-hit look (content v.disk) b rest a
                                (ap look (sym same) ∙ e)),
                      rw (ap (λ z. z.1) ran) kept,
                    )
              ]
        ]

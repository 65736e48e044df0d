-- ===== src/Fat/Chain/Bound.antt =====
-- A walk along a cluster chain ends, and stays among the clusters of the volume.
use zonix_plus.Base.{
  Bool, Bool-cases, Error, Result, Result-cases, ap, arith, bad_fs, err, false, if◌then◌else◌, inl,
  inr, leb, ltb, ltb→lt, ok, refl, suc, sym, true, ℕ, ◌%◌, ◌&&◌, ◌*◌, ◌+◌, ◌<◌, ◌==◌, ◌∙◌, ◌≡◌, ◌⊎◌,
}
use zonix_plus.Fat.{u32, fat32_eoc_min, Geometry, valid_cluster, entry_sector}
use zonix_plus.Fat.Table.{Device, Volume, lba, read_entry, fetch_sector, load_sector}
use zonix_plus.Fat.Chain.{Chain, visit, step, next}

both : (a b : Bool) → (a && b) ≡ true → (a ≡ true) × (b ≡ true)
both true b e = (refl, e)
both false b e = cc

if-true : {A : Type 0} {b : Bool} {x : A} (y : A) → b ≡ true → (if b then x else y) ≡ x
if-true y e = rw e refl

if-false : {A : Type 0} {b : Bool} (x : A) {y : A} → b ≡ false → (if b then x else y) ≡ y
if-false x e = rw e refl

-- What a call that returns the cluster `x` > 0 means: it is valid, and was counted.
pub record IsCounted (g : Geometry) (c c' : Chain) (x : ℕ) : Type 0 where
  pub is_valid : valid_cluster g x ≡ true
  pub room : c.visited < g.cluster_count
  pub counted : c'.visited ≡ c.visited + 1

visit-refused :
    (g : Geometry) (c : Chain)
    → (valid_cluster g c.current && ltb c.visited g.cluster_count) ≡ false
    → (visit g c).0 ≡ err bad_fs
unfolding visit
visit-refused g c h = rw h refl

visit-taken :
    (g : Geometry) (c : Chain)
    → (valid_cluster g c.current && ltb c.visited g.cluster_count) ≡ true
    → visit g c ≡ (ok c.current, record c { visited = (c.visited + 1) % u32; started = true })
unfolding visit
visit-taken g c h = rw h refl

visit-IsCounted :
    (g : Geometry) (c : Chain) (x : ℕ)
    → g.cluster_count < u32
    → (visit g c).0 ≡ ok x
    → IsCounted g c (visit g c).1 x
visit-IsCounted g c x w e =
    elim (Bool-cases (valid_cluster g c.current && ltb c.visited g.cluster_count)) [
      | inl h ↦
          let (v, l) = both (valid_cluster g c.current) (ltb c.visited g.cluster_count) h in
          let room = ltb→lt c.visited g.cluster_count l in
          let taken = visit-taken g c h in
          let same : c.current ≡ x =
            let r = ap (λ (y : Result ℕ × Chain). y.0) (sym taken) ∙ e in cc in
          rw taken (record { is_valid = rw (sym same) v; room = room; counted = omega arith })
      | inr h ↦ let r = sym e ∙ visit-refused g c h in cc
    ]

-- Of `step`: either it returns no cluster, or it visits a chain that has counted as many.
step-cases :
    (g : Geometry) (n : ℕ) (c : Chain)
    → ((step g n c).0 ≡ ok 0)
      ⊎ ((step g n c).0 ≡ err bad_fs)
      ⊎ ((c' : Chain) × (c'.visited ≡ c.visited) × (step g n c ≡ visit g c'))
unfolding step
step-cases g n c = elim (Bool-cases (leb fat32_eoc_min n)) [
  | inl a ↦ inl (rw a refl)
  | inr a ↦ rw a (elim (Bool-cases (valid_cluster g n)) [
    | inr b ↦ rw b (inr (inl refl))
    | inl b ↦ rw b (elim (Bool-cases (n == c.checkpoint)) [
      | inl d ↦ rw d (inr (inl refl))
      | inr d ↦ rw d (elim (Bool-cases ((c.distance + 1) % u32 == c.power)) [
        | inl f ↦ rw f (
            inr (
              inr (
                record c { current = n; checkpoint = n; power = c.power * 2 % u32; distance = 0 },
                refl,
                rw b refl,
              )))
        | inr f ↦ rw f (
            inr
              (inr (record c { current = n; distance = (c.distance + 1) % u32 }, refl, rw b refl)))
      ])
    ])
  ])
]

step-IsCounted :
    (g : Geometry) (n : ℕ) (c : Chain) (x : ℕ)
    → g.cluster_count < u32
    → (step g n c).0 ≡ ok (suc x)
    → IsCounted g c (step g n c).1 (suc x)
step-IsCounted g n c x w e = elim (step-cases g n c) [
  | inl z ↦ let r = sym e ∙ z in cc
  | inr (inl z) ↦ let r = sym e ∙ z in cc
  | inr (inr (c', same, s)) ↦
      let visited = ap (λ (y : Result ℕ × Chain). y.0) (sym s) ∙ e in
      let r = visit-IsCounted g c' (suc x) w visited in
      rw s (record {
        is_valid = r.is_valid;
        room = rw (sym same) r.room;
        counted = r.counted ∙ ap (λ (y : ℕ). y + 1) same;
      })
]

module _ {D : Type 0} (dev : Device D) where
  load_sector-geometry :
      (sector : ℕ) (v : Volume D) → (load_sector dev sector v).1.geometry ≡ v.geometry
  unfolding load_sector
  load_sector-geometry sector v =
      elim (Result-cases (dev.read v.disk (lba v.geometry sector) v.buffer).0) [
        | inl (u, e) ↦ rw (load_sector, e) refl
        | inr (r, e) ↦ rw (load_sector, e) refl
      ]

  fetch_sector-geometry :
      (sector : ℕ) (v : Volume D) → (fetch_sector dev sector v).1.geometry ≡ v.geometry
  unfolding fetch_sector
  fetch_sector-geometry sector v = elim (Bool-cases (sector == v.buffer_sector)) [
    | inl e ↦ rw e refl
    | inr e ↦ rw e (load_sector-geometry sector v)
  ]

  read_entry-geometry :
      (cluster : ℕ) (v : Volume D) → (read_entry dev cluster v).1.geometry ≡ v.geometry
  unfolding read_entry
  read_entry-geometry cluster v =
      let fetched = fetch_sector-geometry (entry_sector v.geometry cluster) v in
      elim (Bool-cases (v.mounted && valid_cluster v.geometry cluster)) [
        | inr e ↦ rw e refl
        | inl e ↦
            rw e (elim (Result-cases (fetch_sector dev (entry_sector v.geometry cluster) v).0) [
              | inl (u, f) ↦ rw f fetched
              | inr (r, f) ↦ rw f fetched
            ])
      ]

  next-unstarted :
      (c : Chain) (v : Volume D)
      → c.finished ≡ false
      → c.started ≡ false
      → next dev c v ≡ ((visit v.geometry c).0, (visit v.geometry c).1, v)
  unfolding next
  next-unstarted c v f s = if-false _ f ∙ if-false _ s

  next-started :
      (c : Chain) (v : Volume D) (n : ℕ)
      → c.finished ≡ false
      → c.started ≡ true
      → (read_entry dev c.current v).0 ≡ ok n
      → next dev c v
        ≡ ((step v.geometry n c).0, (step v.geometry n c).1, (read_entry dev c.current v).1)
  unfolding next
  next-started c v n f s r =
      let v' = (read_entry dev c.current v).1 in
      if-false _ f
      ∙ if-true _ s
      ∙ ap
          (λ (link : Result ℕ). elim link as (λ x. Result ℕ × Chain × Volume D) [
            | err e ↦ (err e, c, v')
            | ok m ↦ ((step v.geometry m c).0, (step v.geometry m c).1, v')
          ])
          r

  next-unread :
      (c : Chain) (v : Volume D) (e : Error)
      → c.finished ≡ false
      → c.started ≡ true
      → (read_entry dev c.current v).0 ≡ err e
      → next dev c v ≡ (err e, c, (read_entry dev c.current v).1)
  unfolding next
  next-unread c v e f s r =
      let v' = (read_entry dev c.current v).1 in
      if-false _ f
      ∙ if-true _ s
      ∙ ap
          (λ (link : Result ℕ). elim link as (λ x. Result ℕ × Chain × Volume D) [
            | err e ↦ (err e, c, v')
            | ok m ↦ ((step v.geometry m c).0, (step v.geometry m c).1, v')
          ])
          r

  next-finished : (c : Chain) (v : Volume D) → c.finished ≡ true → next dev c v ≡ (ok 0, c, v)
  unfolding next
  next-finished c v f = if-true _ f

  -- Each call of ClusterChain::next that returns a cluster returns a valid one and counts it, and
  -- there were fewer than all clusters of the volume counted before; the geometry stays the same.
  pub next-IsCounted :
      (c : Chain) (v : Volume D) (x : ℕ)
      → v.geometry.cluster_count < u32
      → (next dev c v).0 ≡ ok (suc x)
      → IsCounted v.geometry c (next dev c v).1 (suc x) × ((next dev c v).2.geometry ≡ v.geometry)
  next-IsCounted c v x w e = elim (Bool-cases c.finished) [
    | inl f ↦
        let r = sym e ∙ ap (λ (y : Result ℕ × Chain × Volume D). y.0) (next-finished c v f) in cc
    | inr f ↦ elim (Bool-cases c.started) [
      | inr s ↦
          let same = next-unstarted c v f s in
          let r = ap (λ (y : Result ℕ × Chain × Volume D). y.0) (sym same) ∙ e in
          rw same (visit-IsCounted v.geometry c (suc x) w r, refl)
      | inl s ↦ elim (Result-cases (read_entry dev c.current v).0) [
        | inr (r, q) ↦
            let z =
              sym e ∙ ap (λ (y : Result ℕ × Chain × Volume D). y.0) (next-unread c v r f s q) in
            cc
        | inl (n, q) ↦
            let same = next-started c v n f s q in
            let r = ap (λ (y : Result ℕ × Chain × Volume D). y.0) (sym same) ∙ e in
            rw same (step-IsCounted v.geometry n c x w r, read_entry-geometry c.current v)
      ]
    ]
  ]

-- ===== src/Fat/Chain/Walk.antt =====
-- The loop over a cluster chain.
use zonix_plus.Base.{
  All, List, Option, Result, Result-cases, [], ap, arith, err, inl, inr, length, ok, refl, some,
  suc, true, zero, ℕ, ◌+◌, ◌-◌, ◌<◌, ◌∙◌, ◌∷◌, ◌≡◌, ◌≤◌,
}
use mathlib.Core.Path.{subst}
use zonix_plus.Fat.{u32, Geometry, valid_cluster}
use zonix_plus.Fat.Table.{Device, Volume}
use zonix_plus.Fat.Chain.{Chain, joined, new_chain, next, follow}
use zonix_plus.Fat.Chain.Bound.{next-IsCounted}

-- A walk that succeeds gives valid clusters, not more than the volume has left to count.
abbrev pub IsInside : Geometry → ℕ → Result (List ℕ) → Type 0
IsInside g visited (err e) = Unit
IsInside g visited (ok clusters) =
    All (λ c. valid_cluster g c ≡ true) clusters × (length clusters ≤ g.cluster_count - visited)

module _ {D : Type 0} (dev : Device D) where
  follow-next :
      (fuel : ℕ) (c : Chain) (v : Volume D)
      → (follow dev (suc fuel) c v).0
        ≡ joined (next dev c v).0 (follow dev fuel (next dev c v).1 (next dev c v).2).0
  unfolding follow
  follow-next fuel c v = refl

  joined-IsInside :
      (g : Geometry) (visited x : ℕ) (rest : Result (List ℕ))
      → valid_cluster g (suc x) ≡ true
      → visited < g.cluster_count
      → IsInside g (visited + 1) rest
      → (r : Result (List ℕ)) × (joined (ok (suc x)) (some rest) ≡ some r) × IsInside g visited r
  joined-IsInside g visited x (err e) valid room i = (err e, refl, tt)
  joined-IsInside g visited x (ok clusters) valid room i =
      (ok (suc x ∷ clusters), refl, ((valid, i.0), omega (arith, i.1)))

  -- From any state of a ClusterChain, as many calls as there are clusters left to count, and one,
  -- end the loop: with an error, or with valid clusters, not more than were left.
  follow-ends :
      (fuel : ℕ) (c : Chain) (v : Volume D)
      → v.geometry.cluster_count < u32
      → v.geometry.cluster_count - c.visited < fuel
      → (r : Result (List ℕ)) × ((follow dev fuel c v).0 ≡ some r) × IsInside v.geometry c.visited r
  follow-ends zero c v w h = absurd (omega arith)
  follow-ends (suc fuel) c v w h =
      let rest = (follow dev fuel (next dev c v).1 (next dev c v).2).0 in
      elim (Result-cases (next dev c v).0) [
        | inr (e, q) ↦ (err e, follow-next fuel c v ∙ ap (λ (r : Result ℕ). joined r rest) q, tt)
        | inl (zero, q) ↦ (
          ok [],
          follow-next fuel c v ∙ ap (λ (r : Result ℕ). joined r rest) q,
          (tt, omega arith),
        )
        | inl (suc x, q) ↦
            let (counted, same) = next-IsCounted dev c v x w q in
            let count = ap (λ (g : Geometry). g.cluster_count) same in
            let room = counted.room in
            let visited = counted.counted in
            let (r, found, inside) =
              follow-ends fuel (next dev c v).1 (next dev c v).2 (omega arith) (omega arith) in
            let inside' : IsInside v.geometry (c.visited + 1) r =
              subst (λ (n : ℕ). IsInside v.geometry n r) visited
                (subst (λ (g : Geometry). IsInside g (next dev c v).1.visited r) same inside) in
            let (r', e, i) =
              joined-IsInside v.geometry c.visited x r counted.is_valid room inside' in
            (
              r',
              follow-next fuel c v
                  ∙ ap (λ (y : Result ℕ). joined y rest) q
                  ∙ ap (λ (y : Option (Result (List ℕ))). joined (ok (suc x)) y) found
                  ∙ e,
              i,
            )
      ]

  -- Following a chain from any cluster ends within one call more than the volume has clusters, on
  -- any table, cyclic or not, and on any device: with an error, or with a list of valid clusters
  -- which is not longer than the volume.
  pub follow-new_chain :
      (start : ℕ) (v : Volume D)
      → v.geometry.cluster_count < u32
      → (r : Result (List ℕ)) × ((follow dev (v.geometry.cluster_count + 1) (new_chain start) v).0
          ≡ some r)
        × IsInside v.geometry 0 r
  unfolding new_chain
  follow-new_chain start v w =
      follow-ends (v.geometry.cluster_count + 1) (new_chain start) v w (omega arith)

-- ===== src/Pmm/Coalesce.antt =====
-- The merge loop of `free`: what it keeps and the run that grew hold the pages that were there.
use mathlib.Core.Path.{subst}
use zonix_plus.Base.{
  ==→eq, All, Bool, Bool-cases, Distinct, List, NotIn, [], ap, arith, false, inl, inr, refl, sum_of,
  sum_of-eq, sym, true, ℕ, ◌%◌, ◌+◌, ◌<◌, ◌==◌, ◌∙◌, ◌∷◌, ◌≡◌, ◌≢◌,
}
use zonix_plus.Pmm.{Merge, u32, absorb, merge}
use zonix_plus.Pmm.Runs.{size}

-- Of a merge loop, what it does to the sizes.
abbrev pub sizes : Merge → ℕ → ℕ
sizes m = size m.page

-- One round with the base `b` leaves all as it is, or joins the run `p` and the base.
data Absorbed (m : Merge) (b p : ℕ) (r : Merge × Bool) : Type 0 where
  behind :
      b + sizes m b ≡ p
      → r.0.base ≡ b
      → sizes r.0 b ≡ (sizes m b + sizes m p) % u32
      → ((q : ℕ) → b ≢ q → sizes r.0 q ≡ sizes m q)
      → r.1 ≡ false
      → Absorbed m b p r
  ahead :
      p + sizes m p ≡ b
      → r.0.base ≡ p
      → sizes r.0 p ≡ (sizes m p + sizes m b) % u32
      → ((q : ℕ) → p ≢ q → sizes r.0 q ≡ sizes m q)
      → r.1 ≡ false
      → Absorbed m b p r
  apart : b + sizes m b ≢ p → p + sizes m p ≢ b → r ≡ (m, true) → Absorbed m b p r

absorb-Absorbed : (m : Merge) (b p : ℕ) → m.base ≡ b → b ≢ p → Absorbed m b p (absorb m p)
unfolding absorb
absorb-Absorbed m b p e ne = rw (← e) (elim (Bool-cases (m.base + sizes m m.base == p)) [
  | inl h ↦ behind (==→eq _ _ h) (ground arith) (ground arith) (λ q n. ground arith) (ground arith)
  | inr h ↦ elim (Bool-cases (p + sizes m p == m.base)) [
    | inl k ↦ ahead (==→eq _ _ k) (ground arith) (ground arith) (λ q n. ground arith) (ground arith)
    | inr k ↦ apart (ground arith) (ground arith) (ground arith)
  ]
])

-- The merge loop, from a base `b` that is none of the runs, changes no other size.
pub merge-frame :
    (m : Merge) (b : ℕ) (xs : List ℕ) (q : ℕ)
    → m.base ≡ b
    → Distinct (b ∷ xs)
    → NotIn q (b ∷ xs)
    → sizes (merge m xs).0 q ≡ sizes m q
unfolding merge
merge-frame m b [] q e d n = refl
merge-frame m b (p ∷ rest) q e d n = elim (absorb-Absorbed m b p e d.0.0) [
  | behind h base sum same gone ↦
      merge-frame (absorb m p).0 b rest q base (d.0.1, d.1.1) (n.0, n.1.1)
      ∙ same q (λ c. n.0 (sym c))
  | ahead h base sum same gone ↦
      merge-frame (absorb m p).0 p rest q base d.1 n.1 ∙ same q (λ c. n.1.0 (sym c))
  | apart h k same ↦ rw same (merge-frame m b rest q e (d.0.1, d.1.1) (n.0, n.1.1))
]

module _ (g : ℕ → ℕ → ℕ) (additive : (p i j : ℕ) → g p (i + j) ≡ g p i + g (p + i) j) where
  abbrev pub measure : Merge → ℕ → ℕ
  measure m q = g q (sizes m q)

  measure-eq :
      (m m' : Merge) (a : ℕ)
      → ((q : ℕ) → a ≢ q → sizes m' q ≡ sizes m q)
      → (q : ℕ) → a ≢ q
      → measure m' q ≡ measure m q
  measure-eq m m' a same q n = ap (g q) (same q n)

  -- Two adjacent runs joined measure what they measured apart.
  joined : (p i j q z : ℕ) → p + i ≡ q → i + j < u32 → z ≡ (i + j) % u32 → g p z ≡ g p i + g q j
  joined p i j q z e h k =
      let exact : z ≡ i + j = omega (arith, k, h) in rw (exact, additive p i j, e) refl

  -- What the loop keeps and the run that grew measure what the runs and the base measured.
  pub merge-sum :
      (m : Merge) (b : ℕ) (xs : List ℕ)
      → m.base ≡ b
      → Distinct (b ∷ xs)
      → sum_of (sizes m) xs + sizes m b < u32
      → sum_of (measure (merge m xs).0) (merge m xs).1 + measure (merge m xs).0 (merge m xs).0.base
        ≡ sum_of (measure m) xs + measure m b
  unfolding merge
  merge-sum m b [] e d h = rw e refl
  merge-sum m b (p ∷ rest) e d h = elim (absorb-Absorbed m b p e d.0.0) [
    | behind adj base sum same gone ↦
        let m' = (absorb m p).0 in
        rw (gone, merge)
          (omega (
            arith,
            merge-sum m' b rest base (d.0.1, d.1.1)
                (omega (arith, sum_of-eq (sizes m) (sizes m') b rest d.0.1 same, sum, h)),
            sum_of-eq (measure m) (measure m') b rest d.0.1 (measure-eq m m' b same),
            joined b (sizes m b) (sizes m p) p (sizes m' b) adj (omega (arith, h)) sum,
          ))
    | ahead adj base sum same gone ↦
        let m' = (absorb m p).0 in
        rw (gone, merge)
          (omega (
            arith,
            merge-sum m' p rest base d.1
                (omega (arith, sum_of-eq (sizes m) (sizes m') p rest d.1.0 same, sum, h)),
            sum_of-eq (measure m) (measure m') p rest d.1.0 (measure-eq m m' p same),
            joined p (sizes m p) (sizes m b) b (sizes m' p) adj (omega (arith, h)) sum,
          ))
    | apart adj adj' same ↦
        let kept : measure (merge m rest).0 p ≡ measure m p =
          ap (g p) (merge-frame m b rest p e (d.0.1, d.1.1) ((λ c. d.0.0 (sym c)), d.1.0)) in
        rw (same, merge)
          (omega (arith, kept, merge-sum m b rest e (d.0.1, d.1.1) (omega (arith, h))))
  ]

pub All-same :
    (f f' : ℕ → ℕ) (a : ℕ) (xs : List ℕ)
    → NotIn a xs
    → ((q : ℕ) → a ≢ q → f' q ≡ f q)
    → All (λ q. 0 < f q) xs
    → All (λ q. 0 < f' q) xs
All-same f f' a [] n same h = tt
All-same f f' a (x ∷ xs) n same h =
    (omega (arith, same x n.0, h.0), All-same f f' a xs n.1 same h.1)

abbrev pub NonEmpty : Merge × List ℕ → Type 0
NonEmpty r = All (λ q. 0 < sizes r.0 q) (r.0.base ∷ r.1)

merge-apart :
    (m : Merge) (p : ℕ) (rest : List ℕ)
    → absorb m p ≡ (m, true)
    → merge m (p ∷ rest) ≡ ((merge m rest).0, p ∷ (merge m rest).1)
unfolding merge
merge-apart m p rest same = rw (same, merge) refl

-- No run that the loop leaves is empty.
pub merge-nonempty :
    (m : Merge) (b : ℕ) (xs : List ℕ)
    → m.base ≡ b
    → Distinct (b ∷ xs)
    → sum_of (sizes m) xs + sizes m b < u32
    → All (λ q. 0 < sizes m q) (b ∷ xs)
    → NonEmpty (merge m xs)
unfolding merge
merge-nonempty m b [] e d h pos = (rw e pos.0, tt)
merge-nonempty m b (p ∷ rest) e d h pos = elim (absorb-Absorbed m b p e d.0.0) [
  | behind adj base sum same gone ↦
      let m' = (absorb m p).0 in
      rw (gone, merge)
        (merge-nonempty m' b rest base (d.0.1, d.1.1)
          (omega (arith, sum_of-eq (sizes m) (sizes m') b rest d.0.1 same, sum, h))
          (omega (arith, sum, h, pos.0), All-same (sizes m) (sizes m') b rest d.0.1 same pos.1.1))
  | ahead adj base sum same gone ↦
      let m' = (absorb m p).0 in
      rw (gone, merge)
        (merge-nonempty m' p rest base d.1
          (omega (arith, sum_of-eq (sizes m) (sizes m') p rest d.1.0 same, sum, h))
          (omega (arith, sum, h, pos.1.0), All-same (sizes m) (sizes m') p rest d.1.0 same pos.1.1))
  | apart adj adj' same ↦
      let left = merge-nonempty m b rest e (d.0.1, d.1.1) (omega (arith, h)) (pos.0, pos.1.1) in
      let kept = merge-frame m b rest p e (d.0.1, d.1.1) ((λ c. d.0.0 (sym c)), d.1.0) in
      subst NonEmpty (sym (merge-apart m p rest same))
        (left.0, (omega (arith, kept, pos.1.0), left.1))
]

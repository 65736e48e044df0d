-- ===== src/Base/Splits.antt =====
-- Lists cut at an element.
use mathlib.Core.Path.{◌≡◌, refl, ap}
use mathlib.Core.Logic.{◌⊎◌, inl, inr}
use mathlib.Core.List.{List, [], ◌∷◌, ◌++◌}
use Prim.Native.Nat.{ℕ}
use zonix_plus.Base.Nodes.{In, In-append}

pub append-split :
    (qs ps bs : List ℕ) (n : ℕ) (cs : List ℕ)
    → qs ++ ps ≡ bs ++ n ∷ cs
    → ((rest : List ℕ) × (qs ≡ bs ++ n ∷ rest) × (cs ≡ rest ++ ps))
      ⊎ ((rest : List ℕ) × (bs ≡ qs ++ rest) × (ps ≡ rest ++ n ∷ cs))
append-split [] ps bs n cs e = inr (bs, refl, e)
append-split (q ∷ qs) ps [] n cs e = inl (qs, cc, cc)
append-split (q ∷ qs) ps (b ∷ bs) n cs e =
    let tails : qs ++ ps ≡ bs ++ n ∷ cs = cc in
    elim (append-split qs ps bs n cs tails) [
      | inl (rest, p, r) ↦ inl (rest, cc, r)
      | inr (rest, p, r) ↦ inr (rest, cc, r)
    ]

pub In-middle : (xs : List ℕ) (t : ℕ) (ys : List ℕ) → In t (xs ++ t ∷ ys)
In-middle [] t ys = inl refl
In-middle (x ∷ xs) t ys = inr (In-middle xs t ys)

In-right : (t : ℕ) (xs ys : List ℕ) → In t ys → In t (xs ++ ys)
In-right t [] ys i = i
In-right t (x ∷ xs) ys i = inr (In-right t xs ys i)

In-left : (t : ℕ) (xs ys : List ℕ) → In t xs → In t (xs ++ ys)
In-left t [] ys i = elim i [ ]
In-left t (x ∷ xs) ys (inl e) = inl e
In-left t (x ∷ xs) ys (inr i) = inr (In-left t xs ys i)

pub In-swap : (t : ℕ) (xs ys : List ℕ) → In t (xs ++ ys) → In t (ys ++ xs)
In-swap t xs ys i = elim (In-append t xs ys i) [
  | inl j ↦ In-right t ys xs j
  | inr j ↦ In-left t ys xs j
]

pub In-split :
    (t : ℕ) (xs : List ℕ)
    → In t xs
    → (before : List ℕ) × (behind : List ℕ) × (xs ≡ before ++ t ∷ behind)
In-split t [] i = elim i [ ]
In-split t (x ∷ xs) (inl e) = ([], xs, cc)
In-split t (x ∷ xs) (inr i) =
    let (before, behind, e) = In-split t xs i in
    (x ∷ before, behind, ap (λ (ys : List ℕ). x ∷ ys) e)

pub append-middle :
    (xs : List ℕ) (t : ℕ) (bs cs ds : List ℕ)
    → (xs ++ t ∷ bs) ++ cs ++ ds ≡ xs ++ t ∷ (bs ++ cs ++ ds)
append-middle [] t bs cs ds = refl
append-middle (x ∷ xs) t bs cs ds = ap (λ (ys : List ℕ). x ∷ ys) (append-middle xs t bs cs ds)

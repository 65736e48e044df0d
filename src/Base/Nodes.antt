-- ===== src/Base/Nodes.antt =====
-- Lists without repetition, as predicates by recursion.
use mathlib.Core.Path.{refl, ◌≡◌, sym}
use mathlib.Core.Logic.{◌≢◌, ◌⊎◌, inl, inr}
use mathlib.Core.List.{List, [], ◌∷◌, ◌++◌}
use Prim.Native.Nat.{ℕ}

abbrev pub NotIn : ℕ → List ℕ → Type 0
NotIn a [] = Unit
NotIn a (x ∷ xs) = (a ≢ x) × NotIn a xs

abbrev pub Distinct : List ℕ → Type 0
Distinct [] = Unit
Distinct (x ∷ xs) = NotIn x xs × Distinct xs

pub NotIn-append : (a : ℕ) (xs ys : List ℕ) → NotIn a (xs ++ ys) → NotIn a xs × NotIn a ys
NotIn-append a [] ys h = (tt, h)
NotIn-append a (x ∷ xs) ys h = let (p, q) = NotIn-append a xs ys h.1 in ((h.0, p), q)

pub append-NotIn : (a : ℕ) (xs ys : List ℕ) → NotIn a xs → NotIn a ys → NotIn a (xs ++ ys)
append-NotIn a [] ys p q = q
append-NotIn a (x ∷ xs) ys p q = (p.0, append-NotIn a xs ys p.1 q)

abbrev pub Apart : List ℕ → List ℕ → Type 0
Apart [] ys = Unit
Apart (x ∷ xs) ys = NotIn x ys × Apart xs ys

Apart-cons : (x : ℕ) (ys xs : List ℕ) → NotIn x ys → Apart ys xs → Apart ys (x ∷ xs)
Apart-cons x [] xs n a = tt
Apart-cons x (y ∷ ys) xs n a = (((λ e. n.0 (sym e)), a.0), Apart-cons x ys xs n.1 a.1)

Apart-nil : (ys : List ℕ) → Apart ys []
Apart-nil [] = tt
Apart-nil (y ∷ ys) = (tt, Apart-nil ys)

pub Apart-comm : (xs ys : List ℕ) → Apart xs ys → Apart ys xs
Apart-comm [] ys a = Apart-nil ys
Apart-comm (x ∷ xs) ys a = Apart-cons x ys xs a.0 (Apart-comm xs ys a.1)

pub Distinct-append :
    (xs ys : List ℕ) → Distinct (xs ++ ys) → Distinct xs × Distinct ys × Apart xs ys
Distinct-append [] ys d = (tt, d, tt)
Distinct-append (x ∷ xs) ys d =
    let (p, q) = NotIn-append x xs ys d.0 in
    let (dx, dy, a) = Distinct-append xs ys d.1 in ((p, dx), dy, (q, a))

pub append-Distinct :
    (xs ys : List ℕ) → Distinct xs → Distinct ys → Apart xs ys → Distinct (xs ++ ys)
append-Distinct [] ys dx dy a = dy
append-Distinct (x ∷ xs) ys dx dy a =
    (append-NotIn x xs ys dx.0 a.0, append-Distinct xs ys dx.1 dy a.1)

pub Distinct-append_comm : (xs ys : List ℕ) → Distinct (xs ++ ys) → Distinct (ys ++ xs)
Distinct-append_comm xs ys d =
    let (dx, dy, a) = Distinct-append xs ys d in append-Distinct ys xs dy dx (Apart-comm xs ys a)

abbrev pub In : ℕ → List ℕ → Type 0
In a [] = ⊥
In a (x ∷ xs) = (a ≡ x) ⊎ In a xs

pub NotIn-In : (a : ℕ) (xs : List ℕ) → NotIn a xs → In a xs → ⊥
NotIn-In a [] n i = elim i [ ]
NotIn-In a (x ∷ xs) n (inl e) = n.0 e
NotIn-In a (x ∷ xs) n (inr i) = NotIn-In a xs n.1 i

pub NotIn-of_not : (a : ℕ) (xs : List ℕ) → ¬ In a xs → NotIn a xs
NotIn-of_not a [] n = tt
NotIn-of_not a (x ∷ xs) n = ((λ e. n (inl e)), NotIn-of_not a xs (λ i. n (inr i)))

pub In-append : (a : ℕ) (xs ys : List ℕ) → In a (xs ++ ys) → In a xs ⊎ In a ys
In-append a [] ys i = inr i
In-append a (x ∷ xs) ys (inl e) = inl (inl e)
In-append a (x ∷ xs) ys (inr i) = elim (In-append a xs ys i) [ inl j ↦ inl (inr j) | inr j ↦ inr j ]

abbrev pub All {ℓ κ} : {A : Type ℓ} → (A → Type κ) → List A → Type κ
All P [] = Unit
All P (x ∷ xs) = P x × All P xs

pub All-In {κ} : (P : ℕ → Type κ) (xs : List ℕ) (a : ℕ) → All P xs → In a xs → P a
All-In P [] a h i = elim i [ ]
All-In P (x ∷ xs) a h (inl e) = rw e h.0
All-In P (x ∷ xs) a h (inr i) = All-In P xs a h.1 i

pub All-append {ℓ κ} :
    {A : Type ℓ} (P : A → Type κ) (xs ys : List A) → All P xs → All P ys → All P (xs ++ ys)
All-append P [] ys hx hy = hy
All-append P (x ∷ xs) ys hx hy = (hx.0, All-append P xs ys hx.1 hy)

pub All-of_In {κ} : (P : ℕ → Type κ) (xs : List ℕ) → ((a : ℕ) → In a xs → P a) → All P xs
All-of_In P [] h = tt
All-of_In P (x ∷ xs) h = (h x (inl refl), All-of_In P xs (λ a i. h a (inr i)))

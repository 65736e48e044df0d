-- ===== src/Base/Sums.antt =====
-- Sums of a measure over a list of nodes.
use Prim.Native.Nat.{ℕ, ◌+◌, ◌≤◌}
use mathlib.Core.Path.{◌≡◌, refl}
use mathlib.Core.Logic.{◌≢◌, inl, inr}
use mathlib.Core.List.{List, [], ◌∷◌, ◌++◌}
use native.Mathlib.Omega.{arith}
use zonix_plus.Base.Nodes.{NotIn, In, All}
use zonix_plus.Base.Tests.{◌==◌, if◌then◌else◌, Bool-cases}

abbrev pub sum_of : (ℕ → ℕ) → List ℕ → ℕ
sum_of f [] = 0
sum_of f (x ∷ xs) = f x + sum_of f xs

pub sum_of-append : (f : ℕ → ℕ) (xs ys : List ℕ) → sum_of f (xs ++ ys) ≡ sum_of f xs + sum_of f ys
sum_of-append f [] ys = omega arith
sum_of-append f (x ∷ xs) ys = omega (arith, sum_of-append f xs ys)

-- Two measures that differ at one node, which is not in the list.
pub sum_of-eq :
    (f g : ℕ → ℕ) (a : ℕ) (xs : List ℕ)
    → NotIn a xs
    → ((q : ℕ) → a ≢ q → g q ≡ f q)
    → sum_of g xs ≡ sum_of f xs
sum_of-eq f g a [] n h = refl
sum_of-eq f g a (x ∷ xs) n h = omega (arith, sum_of-eq f g a xs n.1 h, h x n.0)

-- Two measures that agree on the nodes of the list.
pub sum_of-ext :
    (f g : ℕ → ℕ) (xs : List ℕ) → ((q : ℕ) → In q xs → g q ≡ f q) → sum_of g xs ≡ sum_of f xs
sum_of-ext f g [] h = refl
sum_of-ext f g (x ∷ xs) h = omega (arith, h x (inl refl), sum_of-ext f g xs (λ q i. h q (inr i)))

pub sum_of-le_self : (f : ℕ → ℕ) (a : ℕ) (xs : List ℕ) → In a xs → f a ≤ sum_of f xs
sum_of-le_self f a [] i = elim i [ ]
sum_of-le_self f a (x ∷ xs) (inl e) = rw e (omega arith)
sum_of-le_self f a (x ∷ xs) (inr i) = omega (arith, sum_of-le_self f a xs i)

-- Two nodes of the list are both counted.
pub sum_of-le_both :
    (f : ℕ → ℕ) (a b : ℕ) (xs : List ℕ) → In a xs → In b xs → a ≢ b → f a + f b ≤ sum_of f xs
sum_of-le_both f a b [] i j n = elim i [ ]
sum_of-le_both f a b (x ∷ xs) (inl d) (inl e) n = absurd (n (rw (d, e) refl))
sum_of-le_both f a b (x ∷ xs) (inl d) (inr j) n = rw d (omega (arith, sum_of-le_self f b xs j))
sum_of-le_both f a b (x ∷ xs) (inr i) (inl e) n = rw e (omega (arith, sum_of-le_self f a xs i))
sum_of-le_both f a b (x ∷ xs) (inr i) (inr j) n = omega (arith, sum_of-le_both f a b xs i j n)

-- The first occurrence of a node is taken out.
abbrev pub remove : ℕ → List ℕ → List ℕ
remove a [] = []
remove a (x ∷ xs) = if x == a then xs else x ∷ remove a xs

-- A node is put behind the first occurrence of another.
abbrev pub insert_after : ℕ → ℕ → List ℕ → List ℕ
insert_after a b [] = []
insert_after a b (x ∷ xs) = if x == a then x ∷ b ∷ xs else x ∷ insert_after a b xs

pub sum_of-remove :
    (f : ℕ → ℕ) (a : ℕ) (xs : List ℕ) → In a xs → sum_of f (remove a xs) + f a ≡ sum_of f xs
sum_of-remove f a [] i = elim i [ ]
sum_of-remove f a (x ∷ xs) (inl e) = ground arith
sum_of-remove f a (x ∷ xs) (inr i) = ground (arith, sum_of-remove f a xs i)

pub sum_of-insert_after :
    (f : ℕ → ℕ) (a b : ℕ) (xs : List ℕ)
    → In a xs
    → sum_of f (insert_after a b xs) ≡ sum_of f xs + f b
sum_of-insert_after f a b [] i = elim i [ ]
sum_of-insert_after f a b (x ∷ xs) (inl e) = ground arith
sum_of-insert_after f a b (x ∷ xs) (inr i) = ground (arith, sum_of-insert_after f a b xs i)

pub In-insert_after : (a b c : ℕ) (xs : List ℕ) → In c xs → In c (insert_after a b xs)
In-insert_after a b c [] i = elim i [ ]
In-insert_after a b c (x ∷ xs) (inl e) = ground arith
In-insert_after a b c (x ∷ xs) (inr i) = ground (arith, In-insert_after a b c xs i)

module _ {κ} (P : ℕ → Type κ) where
  pub All-remove : (a : ℕ) (xs : List ℕ) → All P xs → All P (remove a xs)
  All-remove a [] h = tt
  All-remove a (x ∷ xs) h = elim (Bool-cases (x == a)) [
    | inl e ↦ rw e h.1
    | inr e ↦ rw e (h.0, All-remove a xs h.1)
  ]

  pub All-insert_after : (a b : ℕ) (xs : List ℕ) → All P xs → P b → All P (insert_after a b xs)
  All-insert_after a b [] h k = tt
  All-insert_after a b (x ∷ xs) h k = elim (Bool-cases (x == a)) [
    | inl e ↦ rw e (h.0, (k, h.1))
    | inr e ↦ rw e (h.0, All-insert_after a b xs h.1 k)
  ]

pub All-mono {κ ι} :
    (P : ℕ → Type κ) (Q : ℕ → Type ι) (xs : List ℕ) → ((x : ℕ) → P x → Q x) → All P xs → All Q xs
All-mono P Q [] f h = tt
All-mono P Q (x ∷ xs) f h = (f x h.0, All-mono P Q xs f h.1)

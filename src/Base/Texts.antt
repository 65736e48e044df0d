-- ===== src/Base/Texts.antt =====
-- Texts, which are lists of bytes without the NUL at their end, and kernel/lib/string.h.
use mathlib.Core.Path.{◌≡◌, refl}
use mathlib.Core.Logic.{◌≢◌, inl, inr}
use mathlib.Core.Bool.{Bool, true, false, ◌&&◌}
use mathlib.Core.List.{List, [], ◌∷◌}
use native.Mathlib.Omega.{arith}
use Prim.Native.Nat.{ℕ}
use zonix_plus.Base.Tests.{◌==◌, ==_refl, ==→eq, Bool-cases, if◌then◌else◌}

-- Whether strcmp finds no difference.
unfoldable pub same_text : List ℕ → List ℕ → Bool
same_text [] [] = true
same_text [] (d ∷ ds) = false
same_text (c ∷ cs) [] = false
same_text (c ∷ cs) (d ∷ ds) = c == d && same_text cs ds

-- str_starts_with, on texts that are not null
unfoldable pub str_starts_with : List ℕ → List ℕ → Bool
str_starts_with str [] = true
str_starts_with [] (d ∷ ds) = false
str_starts_with (c ∷ cs) (d ∷ ds) = c == d && str_starts_with cs ds

-- str_skip_char, on a text that is not null
unfoldable pub str_skip_char : List ℕ → ℕ → List ℕ
str_skip_char [] ch = []
str_skip_char (c ∷ cs) ch = let rest = str_skip_char cs ch in if c == ch then rest else c ∷ cs

pub same_text_refl : (t : List ℕ) → same_text t t ≡ true
unfolding same_text
same_text_refl [] = refl
same_text_refl (c ∷ t) = rw (==_refl c) (same_text_refl t)

pub same_text-eq : (s t : List ℕ) → same_text s t ≡ true → s ≡ t
unfolding same_text
same_text-eq [] [] h = refl
same_text-eq [] (d ∷ t) h = cc
same_text-eq (c ∷ s) [] h = cc
same_text-eq (c ∷ s) (d ∷ t) h = elim (Bool-cases (c == d)) [
  | inl e ↦ let heads = ==→eq c d e in let tails = same_text-eq s t (ground (arith, h, e)) in cc
  | inr e ↦ absurd (ground (arith, h, e))
]

pub same_text-ne : (s t : List ℕ) → s ≢ t → same_text s t ≡ false
same_text-ne s t n = elim (Bool-cases (same_text s t)) [
  | inl e ↦ absurd (n (same_text-eq s t e))
  | inr e ↦ e
]

-- ===== src/Stdio/Tests.antt =====
-- Runs of the formatted output, and its theorems at inputs that meet their hypotheses.
use zonix_plus.Base.{
  List, [], arith, inl, length, none, refl, some, ℕ, ◌-◌, ◌^◌, ◌∷◌, ◌≡◌, ◌≤◌, ◌⊎◌,
}
use zonix_plus.Stdio.{word, convert, digits, num_buf_size, cprintf, vsnprintf, vformat}
use zonix_plus.Stdio.Digits.{number, digits-number}
use zonix_plus.Stdio.Buffers.{IsPrinted, vsnprintf-cprintf}

-- "a%5d|%x"
abbrev two_numbers : List ℕ
two_numbers = b'a' ∷ b'%' ∷ b'5' ∷ b'd' ∷ b'|' ∷ b'%' ∷ b'x' ∷ []

-- "a  -42|FF"
prints_numbers :
    cprintf two_numbers (word (2 ^ 32 - 42) ∷ word 255 ∷ [])
    ≡ some (b'a' ∷ b' ' ∷ b' ' ∷ b'-' ∷ b'4' ∷ b'2' ∷ b'|' ∷ b'F' ∷ b'F' ∷ [])
unfolding cprintf vformat convert
prints_numbers = refl

missing_argument : cprintf two_numbers (word 1 ∷ []) ≡ none
unfolding cprintf vformat convert
missing_argument = refl

digits-number_example :
    (ds : List ℕ) × (digits 1234 10 ≡ some ds)
    × (number 10 ds ≡ 1234)
    × (1 ≤ length ds)
    × (length ds ≤ num_buf_size)
digits-number_example = digits-number 1234 10 (inl refl) (omega arith)

vsnprintf-cprintf_example :
    ((cprintf two_numbers (word 7 ∷ word 8 ∷ []) ≡ none)
      × (vsnprintf (λ _. 1) 4 two_numbers (word 7 ∷ word 8 ∷ []) ≡ none))
    ⊎ ((t : List ℕ) × (buf' : ℕ → ℕ) × (cprintf two_numbers (word 7 ∷ word 8 ∷ []) ≡ some t)
        × (vsnprintf (λ _. 1) 4 two_numbers (word 7 ∷ word 8 ∷ []) ≡ some (length t, buf'))
        × IsPrinted t (λ _. 1) 4 buf')
vsnprintf-cprintf_example = vsnprintf-cprintf (λ _. 1) 4 two_numbers (word 7 ∷ word 8 ∷ [])

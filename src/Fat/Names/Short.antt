-- ===== src/Fat/Names/Short.antt =====
-- Names that fit into 8.3 form.
use mathlib.Core.List.{append-nil}
use zonix_plus.Base.{
  All, List, [], ap, arith, false, length, map, refl, suc, sym, zero, ℕ, ◌++◌, ◌==◌, ◌∙◌, ◌∷◌, ◌≡◌,
  ◌≢◌, ◌≤◌,
}
use zonix_plus.Fat.Names.{
  get_filename, make_83_name, pad, take_base, take_ext, to_upper, until_space,
}

-- A byte that is neither a dot nor a space.
abbrev pub IsPlain : ℕ → Type 0
IsPlain c = (c ≢ b'.') × (c ≢ b' ')

to_upper-no_space : (c : ℕ) → c ≢ b' ' → (to_upper c == b' ') ≡ false
unfolding to_upper
to_upper-no_space c h = ground (arith, h)

take_base-step :
    (room c : ℕ) (cs base rest : List ℕ)
    → c ≢ b'.'
    → take_base room cs ≡ (base, rest)
    → take_base (suc room) (c ∷ cs) ≡ (to_upper c ∷ base, rest)
unfolding take_base
take_base-step room c cs base rest h e =
    let f : (c == b'.') ≡ false = ground (arith, h) in rw f (rw e refl)

take_base-dot :
    (room : ℕ) (base rest : List ℕ)
    → length base ≤ room
    → All IsPlain base
    → take_base room (base ++ b'.' ∷ rest) ≡ (map to_upper base, b'.' ∷ rest)
unfolding take_base
take_base-dot zero [] rest l h = refl
take_base-dot (suc room) [] rest l h = refl
take_base-dot zero (c ∷ cs) rest l h = absurd (omega arith)
take_base-dot (suc room) (c ∷ cs) rest l h =
    take_base-step room c (cs ++ b'.' ∷ rest) (map to_upper cs) (b'.' ∷ rest) h.0.0
      (take_base-dot room cs rest (omega arith) h.1)

take_base-whole :
    (room : ℕ) (base : List ℕ)
    → length base ≤ room
    → All IsPlain base
    → take_base room base ≡ (map to_upper base, [])
unfolding take_base
take_base-whole zero [] l h = refl
take_base-whole (suc room) [] l h = refl
take_base-whole zero (c ∷ cs) l h = absurd (omega arith)
take_base-whole (suc room) (c ∷ cs) l h =
    take_base-step room c cs (map to_upper cs) [] h.0.0 (take_base-whole room cs (omega arith) h.1)

take_ext-all : (room : ℕ) (ext : List ℕ) → length ext ≤ room → take_ext room ext ≡ map to_upper ext
unfolding take_ext
take_ext-all zero [] l = refl
take_ext-all zero (c ∷ cs) l = absurd (omega arith)
take_ext-all (suc room) [] l = refl
take_ext-all (suc room) (c ∷ cs) l = ap (λ t. to_upper c ∷ t) (take_ext-all room cs (omega arith))

until_space-pad :
    (n : ℕ) (cs : List ℕ)
    → length cs ≤ n
    → All (λ c. (c == b' ') ≡ false) cs
    → until_space (pad n cs) ≡ cs
unfolding until_space pad
until_space-pad zero [] l h = refl
until_space-pad zero (c ∷ cs) l h = absurd (omega arith)
until_space-pad (suc n) [] l h = refl
until_space-pad (suc n) (c ∷ cs) l h =
    rw h.0 (ap (λ t. c ∷ t) (until_space-pad n cs (omega arith) h.1))

length-map : (f : ℕ → ℕ) (cs : List ℕ) → length (map f cs) ≡ length cs
length-map f [] = refl
length-map f (c ∷ cs) = ap suc (length-map f cs)

upper-no_space : (cs : List ℕ) → All IsPlain cs → All (λ c. (c == b' ') ≡ false) (map to_upper cs)
upper-no_space [] h = tt
upper-no_space (c ∷ cs) h = (to_upper-no_space c h.0.1, upper-no_space cs h.1)

map-append : (f : ℕ → ℕ) (xs ys : List ℕ) → map f (xs ++ ys) ≡ map f xs ++ map f ys
map-append f [] ys = refl
map-append f (x ∷ xs) ys = ap (λ t. f x ∷ t) (map-append f xs ys)

-- A base and an extension as one name; without an extension there is no dot.
abbrev pub dotted : List ℕ → List ℕ → List ℕ
dotted base [] = base
dotted base (c ∷ cs) = base ++ b'.' ∷ c ∷ cs

until_space-upper :
    (n : ℕ) (cs : List ℕ)
    → length cs ≤ n
    → All IsPlain cs
    → until_space (pad n (map to_upper cs)) ≡ map to_upper cs
until_space-upper n cs l h =
    until_space-pad n (map to_upper cs) (omega (arith, length-map to_upper cs))
      (upper-no_space cs h)

-- A name of at most 8 plain characters, with an extension of at most 3, is read back from its
-- directory entry as it was written, in upper case.
pub get_filename-make_83_name :
    (base ext : List ℕ)
    → length base ≤ 8
    → length ext ≤ 3
    → All IsPlain base
    → All IsPlain ext
    → get_filename (make_83_name (dotted base ext)) ≡ map to_upper (dotted base ext)
unfolding get_filename make_83_name
get_filename-make_83_name base [] l k h i =
    rw (take_base-whole 8 base l h)
      (append-nil (until_space (pad 8 (map to_upper base))) ∙ until_space-upper 8 base l h)
get_filename-make_83_name base (c ∷ cs) l k h i =
    let blank = to_upper-no_space c i.0.1 in
    let ext = take_ext-all 2 cs (omega (arith, k)) in
    let read = until_space-upper 2 cs (omega (arith, k)) i.1 in
    rw (take_base-dot 8 base (c ∷ cs) l h) (
      rw blank (
        rw ext (
          rw read
            (rw (until_space-upper 8 base l h) (sym (map-append to_upper base (b'.' ∷ c ∷ cs)))))))

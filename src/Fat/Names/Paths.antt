-- ===== src/Fat/Names/Paths.antt =====
-- Paths cut into parts.
use zonix_plus.Base.{
  All, All-append, Bool, Bool-cases, List, Option, Result, [], ap, arith, err, false, if◌then◌else◌,
  inl, inr, invalid, length, length-append, ltb, ltb→lt, none, ok, refl, same_text, some,
  str_skip_char, suc, true, zero, ℕ, ◌++◌, ◌-◌, ◌<◌, ◌==◌, ◌∙◌, ◌∷◌, ◌≡◌, ◌≤◌, ◌⊎◌,
}
use zonix_plus.Fat.Names.{
  drop_part, max_depth, max_part_len, next_part, path_parts, take_part, to_upper,
}

take_part-slash :
    (room c : ℕ) (cs : List ℕ) → (c == b'/') ≡ true → take_part room (c ∷ cs) ≡ some ([], c ∷ cs)
unfolding take_part
take_part-slash zero c cs e = rw e refl
take_part-slash (suc room) c cs e = rw e refl

take_part-full : (c : ℕ) (cs : List ℕ) → (c == b'/') ≡ false → take_part 0 (c ∷ cs) ≡ none
unfolding take_part
take_part-full c cs e = rw e refl

take_part-none :
    (room c : ℕ) (cs : List ℕ)
    → (c == b'/') ≡ false
    → take_part room cs ≡ none
    → take_part (suc room) (c ∷ cs) ≡ none
unfolding take_part
take_part-none room c cs e h = rw e (rw h refl)

take_part-some :
    (room c : ℕ) (cs part rest : List ℕ)
    → (c == b'/') ≡ false
    → take_part room cs ≡ some (part, rest)
    → take_part (suc room) (c ∷ cs) ≡ some (to_upper c ∷ part, rest)
unfolding take_part
take_part-some room c cs part rest e h = rw e (rw h refl)

-- The part fits its room, and if it is not empty the path gets shorter.
take_part-cases :
    (room c : ℕ) (cs : List ℕ)
    → (c == b'/') ≡ false
    → (take_part room (c ∷ cs) ≡ none)
      ⊎ ((part : List ℕ) × (rest : List ℕ) × (take_part room (c ∷ cs) ≡ some (part, rest))
          × (length part ≤ room)
          × (length rest ≤ length cs))
unfolding take_part
take_part-cases zero c cs e = inl (take_part-full c cs e)
take_part-cases (suc room) c [] e =
    inr (to_upper c ∷ [], [], take_part-some room c [] [] [] e refl, omega arith, omega arith)
take_part-cases (suc room) c (d ∷ cs) e = elim (Bool-cases (d == b'/')) [
  | inl f ↦ inr (
    to_upper c ∷ [],
    d ∷ cs,
    take_part-some room c (d ∷ cs) [] (d ∷ cs) e (take_part-slash room d cs f),
    omega arith,
    omega arith,
  )
  | inr f ↦ elim (take_part-cases room d cs f) [
    | inl h ↦ inl (take_part-none room c (d ∷ cs) e h)
    | inr (part, rest, h, l, k) ↦ inr (
      to_upper c ∷ part,
      rest,
      take_part-some room c (d ∷ cs) part rest e h,
      omega arith,
      omega arith,
    )
  ]
]

str_skip_char-length : (cs : List ℕ) (c : ℕ) → length (str_skip_char cs c) ≤ length cs
unfolding str_skip_char
str_skip_char-length [] c = omega arith
str_skip_char-length (d ∷ cs) c = elim (Bool-cases (d == c)) [
  | inl e ↦ rw e (omega (arith, str_skip_char-length cs c))
  | inr e ↦ rw e (omega arith)
]

drop_part-length : (parts : List (List ℕ)) → length (drop_part parts) ≤ length parts
drop_part-length [] = omega arith
drop_part-length (part ∷ []) = omega arith
drop_part-length (part ∷ next ∷ parts) = omega (arith, drop_part-length (next ∷ parts))

drop_part-All :
    (P : List ℕ → Type 0) (parts : List (List ℕ)) → All P parts → All P (drop_part parts)
drop_part-All P [] h = tt
drop_part-All P (part ∷ []) h = tt
drop_part-All P (part ∷ next ∷ parts) h = (h.0, drop_part-All P (next ∷ parts) h.1)

next_part-none : (path : List ℕ) → take_part (max_part_len - 1) path ≡ none → next_part path ≡ none
unfolding next_part
next_part-none path h = rw (h, next_part) refl

next_part-some :
    (path part rest : List ℕ)
    → take_part (max_part_len - 1) path ≡ some (part, rest)
    → next_part path ≡ some (part, str_skip_char rest b'/')
unfolding next_part
next_part-some path part rest h = rw (h, next_part) refl

skip-slash :
    (c : ℕ) (cs : List ℕ) → (c == b'/') ≡ true → str_skip_char (c ∷ cs) b'/' ≡ str_skip_char cs b'/'
unfolding str_skip_char
skip-slash c cs e = rw e refl

next_part-cases :
    (c : ℕ) (cs : List ℕ)
    → (next_part (c ∷ cs) ≡ none)
      ⊎ ((part : List ℕ) × (rest : List ℕ) × (next_part (c ∷ cs) ≡ some (part, rest))
          × (length part < max_part_len)
          × (length rest ≤ length cs))
next_part-cases c cs = elim (Bool-cases (c == b'/')) [
  | inl e ↦ inr (
    [],
    str_skip_char cs b'/',
    next_part-some (c ∷ cs) [] (c ∷ cs) (take_part-slash (max_part_len - 1) c cs e)
        ∙ ap (λ t. some ([], t)) (skip-slash c cs e),
    omega arith,
    str_skip_char-length cs b'/',
  )
  | inr e ↦ elim (take_part-cases (max_part_len - 1) c cs e) [
    | inl h ↦ inl (next_part-none (c ∷ cs) h)
    | inr (part, rest, h, l, k) ↦ inr (
      part,
      str_skip_char rest b'/',
      next_part-some (c ∷ cs) part rest h,
      omega arith,
      omega (arith, str_skip_char-length rest b'/'),
    )
  ]
]

-- The parts of a path are at most 16, of at most 12 characters each.
pub record AreParts (parts : List (List ℕ)) : Type 0 where
  pub few : length parts ≤ max_depth
  pub short : All (λ part. length part < max_part_len) parts

abbrev pub IsResolved : Option (Result (List (List ℕ))) → Type 0
IsResolved none = ⊥
IsResolved (some (err e)) = e ≡ invalid
IsResolved (some (ok parts)) = AreParts parts

if-IsResolved :
    (b : Bool) (r s : Option (Result (List (List ℕ))))
    → (b ≡ true → IsResolved r)
    → (b ≡ false → IsResolved s)
    → IsResolved (if b then r else s)
if-IsResolved true r s h k = h refl
if-IsResolved false r s h k = k refl

path_parts-refused :
    (fuel : ℕ) (parts : List (List ℕ)) (c : ℕ) (cs : List ℕ)
    → next_part (c ∷ cs) ≡ none
    → path_parts (suc fuel) parts (c ∷ cs) ≡ some (err invalid)
unfolding path_parts
path_parts-refused fuel parts c cs h = rw (h, path_parts) refl

path_parts-step :
    (fuel : ℕ) (parts : List (List ℕ)) (c : ℕ) (cs part rest : List ℕ)
    → next_part (c ∷ cs) ≡ some (part, rest)
    → path_parts (suc fuel) parts (c ∷ cs) ≡ (
        if same_text part (b'.' ∷ [])
        then path_parts fuel parts rest
        else if same_text part (b'.' ∷ b'.' ∷ [])
        then path_parts fuel (drop_part parts) rest
        else if ltb (length parts) max_depth
        then path_parts fuel (parts ++ part ∷ []) rest
        else some (err invalid))
unfolding path_parts
path_parts-step fuel parts c cs part rest h = rw (h, path_parts) refl

-- With a round for each character of the path, the parts of a path are found, within the bounds of
-- the arrays that hold them, or the path is refused as Invalid.
pub path_parts-IsResolved :
    (fuel : ℕ) (parts : List (List ℕ)) (path : List ℕ)
    → length path ≤ fuel
    → AreParts parts
    → IsResolved (path_parts fuel parts path)
unfolding path_parts
path_parts-IsResolved fuel parts [] l a = a
path_parts-IsResolved zero parts (c ∷ cs) l a = absurd (omega arith)
path_parts-IsResolved (suc fuel) parts (c ∷ cs) l a = elim (next_part-cases c cs) [
  | inl h ↦ rw (path_parts-refused fuel parts c cs h) refl
  | inr (part, rest, h, s, k) ↦ rw (path_parts-step fuel parts c cs part rest h) (
      if-IsResolved (same_text part (b'.' ∷ [])) _ _
        (λ e. path_parts-IsResolved fuel parts rest (omega arith) a)
        (λ e.
          if-IsResolved (same_text part (b'.' ∷ b'.' ∷ [])) _ _
            (λ f. path_parts-IsResolved fuel (drop_part parts) rest (omega arith) (record {
              few = omega (arith, drop_part-length parts, a.few);
              short = drop_part-All _ parts a.short;
            }))
            (λ f.
              if-IsResolved (ltb (length parts) max_depth) _ _
                (λ g. path_parts-IsResolved fuel (parts ++ part ∷ []) rest (omega arith) (record {
                  few =
                      omega
                        (arith, ltb→lt (length parts) max_depth g, length-append parts (part ∷ []));
                  short = All-append _ parts (part ∷ []) a.short (s, tt);
                }))
                (λ g. refl))))
]

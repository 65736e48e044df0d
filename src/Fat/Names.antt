-- ===== src/Fat/Names.antt =====
-- kernel/fs/fat/fat_dir.cpp and include/base/bpb.h: the parts of a path and the 8.3 names of
-- directory entries. A text is its list of bytes, without the NUL at its end.
pub mod Short
pub mod Paths
pub mod Tests
use zonix_plus.Base.{
  Bool, List, Option, Result, [], err, if◌then◌else◌, invalid, leb, length, ltb, none, ok,
  same_text, some, str_skip_char, suc, true, zero, ℕ, ◌&&◌, ◌++◌, ◌-◌, ◌==◌, ◌∷◌,
}

-- sizeof of a part: 12 characters and a NUL.
abbrev pub max_part_len : ℕ
max_part_len = 13

abbrev pub max_depth : ℕ
max_depth = 16

unfoldable pub to_upper : ℕ → ℕ
to_upper ch = if leb b'a' ch && leb ch b'z' then ch - 32 else ch

-- The loop of next_part, with room for that many characters: the part and what follows.
unfoldable pub take_part : ℕ → List ℕ → Option (List ℕ × List ℕ)
unfolding to_upper
take_part room [] = some ([], [])
take_part zero (c ∷ cs) = if c == b'/' then some ([], c ∷ cs) else none
take_part (suc room) (c ∷ cs) =
    let rest = take_part room cs in
    if c == b'/'
    then some ([], c ∷ cs)
    else elim rest [ none ↦ none | some (part, path) ↦ some (to_upper c ∷ part, path) ]

-- next_part
unfoldable pub next_part : List ℕ → Option (List ℕ × List ℕ)
unfolding take_part str_skip_char
next_part path = elim (take_part (max_part_len - 1) path) [
  | none ↦ none
  | some (part, rest) ↦ some (part, str_skip_char rest b'/')
]

abbrev pub drop_part : List (List ℕ) → List (List ℕ)
drop_part [] = []
drop_part (part ∷ []) = []
drop_part (part ∷ next ∷ parts) = part ∷ drop_part (next ∷ parts)

-- The loop of find_file and resolve_parent over a path; none without fuel.
unfoldable pub path_parts : ℕ → List (List ℕ) → List ℕ → Option (Result (List (List ℕ)))
unfolding next_part same_text
path_parts fuel parts [] = some (ok parts)
path_parts zero parts (c ∷ cs) = none
path_parts (suc fuel) parts (c ∷ cs) = elim (next_part (c ∷ cs)) [
  | none ↦ some (err invalid)
  | some (part, path) ↦
      let skipped = path_parts fuel parts path in
      let dropped = path_parts fuel (drop_part parts) path in
      let pushed = path_parts fuel (parts ++ part ∷ []) path in
      if same_text part (b'.' ∷ [])
      then skipped
      else if same_text part (b'.' ∷ b'.' ∷ [])
      then dropped
      else if ltb (length parts) max_depth
      then pushed
      else some (err invalid)
]

-- The first loop of make_83_name, with room for that many characters.
unfoldable pub take_base : ℕ → List ℕ → List ℕ × List ℕ
unfolding to_upper
take_base zero p = ([], p)
take_base (suc room) [] = ([], [])
take_base (suc room) (c ∷ cs) =
    let (base, rest) = take_base room cs in
    if c == b'.' then ([], c ∷ cs) else (to_upper c ∷ base, rest)

abbrev pub skip_dot : List ℕ → List ℕ
skip_dot [] = []
skip_dot (c ∷ cs) = if c == b'.' then cs else c ∷ cs

-- The second loop.
unfoldable pub take_ext : ℕ → List ℕ → List ℕ
unfolding to_upper
take_ext zero p = []
take_ext (suc room) [] = []
take_ext (suc room) (c ∷ cs) = to_upper c ∷ take_ext room cs

-- The bytes in a field of `n` spaces.
unfoldable pub pad : ℕ → List ℕ → List ℕ
pad zero cs = []
pad (suc n) [] = b' ' ∷ pad n []
pad (suc n) (c ∷ cs) = c ∷ pad n cs

-- FatInfo::make_83_name
unfoldable pub make_83_name : List ℕ → List ℕ × List ℕ
unfolding take_base take_ext pad
make_83_name name =
    let (base, rest) = take_base 8 name in (pad 8 base, pad 3 (take_ext 3 (skip_dot rest)))

unfoldable pub until_space : List ℕ → List ℕ
until_space [] = []
until_space (c ∷ cs) = let rest = until_space cs in if c == b' ' then [] else c ∷ rest

abbrev pub starts_blank : List ℕ → Bool
starts_blank [] = true
starts_blank (c ∷ cs) = c == b' '

-- FatDirEntry::get_filename
unfoldable pub get_filename : List ℕ × List ℕ → List ℕ
unfolding until_space
get_filename (name, ext) =
    until_space name ++ (if starts_blank ext then [] else b'.' ∷ until_space ext)

-- ===== src/Fat/Names/Tests.antt =====
-- Runs of the functions on names, and their theorems at a name and a path.
use zonix_plus.Base.{List, [], arith, map, ok, refl, some, ℕ, ◌∷◌, ◌≡◌, ◌≤◌}
use zonix_plus.Fat.Names.{get_filename, make_83_name, path_parts, to_upper}
use zonix_plus.Fat.Names.Short.{IsPlain, dotted, get_filename-make_83_name}
use zonix_plus.Fat.Names.Paths.{IsResolved, path_parts-IsResolved}

-- "ABCDEFGHI.C" comes back as "ABCDEFGH.I.C".
long_name_runs :
    get_filename (
      make_83_name
        (b'A' ∷ b'B' ∷ b'C' ∷ b'D' ∷ b'E' ∷ b'F' ∷ b'G' ∷ b'H' ∷ b'I' ∷ b'.' ∷ b'C' ∷ []))
    ≡ b'A' ∷ b'B' ∷ b'C' ∷ b'D' ∷ b'E' ∷ b'F' ∷ b'G' ∷ b'H' ∷ b'.' ∷ b'I' ∷ b'.' ∷ b'C' ∷ []
unfolding get_filename make_83_name
long_name_runs = refl

-- "a/./b/../c"
abbrev up_and_down : List ℕ
up_and_down = b'a' ∷ b'/' ∷ b'.' ∷ b'/' ∷ b'b' ∷ b'/' ∷ b'.' ∷ b'.' ∷ b'/' ∷ b'c' ∷ []

path_parts_runs : path_parts 10 [] up_and_down ≡ some (ok ((b'A' ∷ []) ∷ (b'C' ∷ []) ∷ []))
unfolding path_parts
path_parts_runs = refl

plain : (c : ℕ) → b'0' ≤ c → IsPlain c
plain c h = ((λ e. omega (arith, e, h)), λ e. omega (arith, e, h))

get_filename-make_83_name_example :
    get_filename (make_83_name (dotted (b'a' ∷ b'b' ∷ []) (b'c' ∷ [])))
    ≡ map to_upper (dotted (b'a' ∷ b'b' ∷ []) (b'c' ∷ []))
get_filename-make_83_name_example =
    get_filename-make_83_name (b'a' ∷ b'b' ∷ []) (b'c' ∷ []) (omega arith) (omega arith)
      (plain (b'a') (omega arith), (plain (b'b') (omega arith), tt))
      (plain (b'c') (omega arith), tt)

path_parts-IsResolved_example : IsResolved (path_parts 10 [] up_and_down)
path_parts-IsResolved_example =
    path_parts-IsResolved 10 [] up_and_down (omega arith) (record { few = omega arith; short = tt })

-- ===== src/Fat/Calls.antt =====
-- kernel/fs/fat/fat_dir.cpp: the calls on a path, which go from the root directory through its parts
-- with find_entry. The fuel bounds the parts of the path and the clusters of each chain.
pub mod Paths
pub mod Tests
use zonix_plus.Base.{
  Bool, Error, List, Option, Result, [], err, false, if◌then◌else◌, invalid, leb, none, not,
  not_found, ok, some, str_skip_char, true, ℕ, ◌∷◌,
}
use zonix_plus.Fat.Chain.{free_chain}
use zonix_plus.Fat.Dir.{Entry, cluster_of, find_entry, is_directory, remove_dir_entry}
use zonix_plus.Fat.Names.{path_parts}
use zonix_plus.Fat.Table.{Device, Volume}

-- A call's result, none without fuel, and the volume that it leaves.
abbrev pub Call : Type 0 → Type 0 → Type 0
Call D A = Option (Result A) × Volume D

abbrev pub and_then : {D A B : Type 0} → Call D A → (A → Volume D → Call D B) → Call D B
and_then (none, v) rest = (none, v)
and_then (some (err e), v) rest = (some (err e), v)
and_then (some (ok a), v) rest = rest a v

-- ENSURE in such a call
abbrev pub ensured : {D A : Type 0} → Bool → Error → Volume D → Call D A → Call D A
ensured true e v rest = rest
ensured false e v rest = (some (err e), v)

-- The beginning of find_file and resolve_parent: the parts of a path that is not empty.
unfoldable pub parts_of : ℕ → List ℕ → Option (Result (List (List ℕ)))
parts_of fuel relpath = elim (str_skip_char relpath b'/') [
  | [] ↦ some (err invalid)
  | c ∷ cs ↦ elim (path_parts fuel [] (c ∷ cs)) [
    | none ↦ none
    | some (err e) ↦ some (err e)
    | some (ok []) ↦ some (err invalid)
    | some (ok (part ∷ parts)) ↦ some (ok (part ∷ parts))
  ]
]

module _ {D : Type 0} (dev : Device D) (fuel : ℕ) where
  -- The last loop of find_file: from a cluster through the parts, which are not empty.
  unfoldable pub find_parts : ℕ → List (List ℕ) → Volume D → Call D Entry
  find_parts cluster [] v = (some (err invalid), v)
  find_parts cluster (part ∷ []) v = find_entry dev fuel cluster part v
  find_parts cluster (part ∷ next ∷ parts) v =
      and_then (find_entry dev fuel cluster part v)
        λ e v'. ensured (is_directory e) not_found v' (find_parts (cluster_of e) (next ∷ parts) v')

  -- FatInfo::find_file
  unfoldable pub find_file : List ℕ → Volume D → Call D Entry
  find_file filename v =
      and_then (parts_of fuel filename, v) λ parts v'. find_parts v'.geometry.root_cluster parts v'

  -- The last loop of resolve_parent, with the name of the child.
  unfoldable pub parent_of : ℕ → List (List ℕ) → Volume D → Call D (ℕ × List ℕ)
  parent_of cluster [] v = (some (err invalid), v)
  parent_of cluster (part ∷ []) v = (some (ok (cluster, part)), v)
  parent_of cluster (part ∷ next ∷ parts) v =
      and_then (find_entry dev fuel cluster part v)
        λ e v'. ensured (is_directory e) not_found v' (parent_of (cluster_of e) (next ∷ parts) v')

  -- FatInfo::resolve_parent
  unfoldable pub resolve_parent : List ℕ → Volume D → Call D (ℕ × List ℕ)
  resolve_parent relpath v =
      and_then (parts_of fuel relpath, v) λ parts v'. parent_of v'.geometry.root_cluster parts v'

  -- The end of unlink: the chain of the file is freed, and its entry removed.
  abbrev pub drop_file : Entry → ℕ → List ℕ → Volume D → Call D (Unit {0})
  drop_file e parent child v =
      let freed : Call D (Unit {0}) =
        if leb 2 (cluster_of e) then free_chain dev fuel (cluster_of e) v else (some (ok tt), v) in
      and_then freed λ u v'. remove_dir_entry dev fuel parent child v'

  -- FatInfo::unlink
  unfoldable pub unlink_file : List ℕ → Volume D → Call D (Unit {0})
  unlink_file relpath v = and_then (resolve_parent relpath v) λ (parent, child) v'.
      and_then (find_entry dev fuel parent child v')
        λ e v''. ensured (not (is_directory e)) invalid v'' (drop_file e parent child v'')

-- ===== src/Fat/Calls/Tests.antt =====
-- Runs of the calls on paths, and the theorem on them, on the directory of Fat/Dir/Tests.
use zonix_plus.Base.{List, [], err, invalid, ok, refl, same_text, some, str_skip_char, ℕ, ◌∷◌, ◌≡◌}
use zonix_plus.Fat.{cluster_to_sector, entry_offset, entry_sector, valid_cluster}
use zonix_plus.Fat.Calls.{find_file, find_parts, parent_of, parts_of, resolve_parent, unlink_file}
use zonix_plus.Fat.Chain.{new_chain, next, step, visit}
use zonix_plus.Fat.Names.{get_filename, next_part, path_parts, take_part, to_upper, until_space}
use zonix_plus.Fat.Table.{fetch_sector, lba, load_sector, read_entry}
use zonix_plus.Fat.Calls.Paths.{Leads, find_file-Leads}
use zonix_plus.Fat.Dir.{
  cluster_of, entry_at, entry_name, find_entry, is_deleted, is_directory, is_end, is_valid,
  remove_dir_entry, scan_entries, upper_text, walk_dir, walk_sectors,
}
use zonix_plus.Fat.Dir.Tests.{geometry-IsReal, root_sector, volume, volume-IsCoherent}
use zonix_plus.Fat.Tests.{memory, memory-IsDisk}

-- "/bin/../bin"
abbrev bin_path : List ℕ
bin_path = b'/' ∷ b'b' ∷ b'i' ∷ b'n' ∷ b'/' ∷ b'.' ∷ b'.' ∷ b'/' ∷ b'b' ∷ b'i' ∷ b'n' ∷ []

-- "readme.txt"
abbrev readme : List ℕ
readme = b'r' ∷ b'e' ∷ b'a' ∷ b'd' ∷ b'm' ∷ b'e' ∷ b'.' ∷ b't' ∷ b'x' ∷ b't' ∷ []

find_file_bin : (find_file memory 18 bin_path volume).0 ≡ some (ok (entry_at root_sector 2))
unfolding find_file find_parts parts_of path_parts next_part take_part to_upper str_skip_char
    same_text get_filename until_space find_entry walk_dir walk_sectors scan_entries is_end is_valid
    is_deleted is_directory entry_name upper_text cluster_of next new_chain visit step valid_cluster
    cluster_to_sector lba read_entry fetch_sector load_sector entry_sector entry_offset
find_file_bin = refl

-- A directory is not unlinked, a file is.
unlink_bin : (unlink_file memory 18 bin_path volume).0 ≡ some (err invalid)
unfolding find_file find_parts parts_of path_parts next_part take_part to_upper str_skip_char
    same_text get_filename until_space find_entry walk_dir walk_sectors scan_entries is_end is_valid
    is_deleted is_directory entry_name upper_text cluster_of next new_chain visit step valid_cluster
    cluster_to_sector lba read_entry fetch_sector load_sector entry_sector entry_offset unlink_file
    resolve_parent parent_of remove_dir_entry
unlink_bin = refl

unlink_readme : (unlink_file memory 18 readme volume).0 ≡ some (ok tt)
unfolding find_file find_parts parts_of path_parts next_part take_part to_upper str_skip_char
    same_text get_filename until_space find_entry walk_dir walk_sectors scan_entries is_end is_valid
    is_deleted is_directory entry_name upper_text cluster_of next new_chain visit step valid_cluster
    cluster_to_sector lba read_entry fetch_sector load_sector entry_sector entry_offset unlink_file
    resolve_parent parent_of remove_dir_entry
unlink_readme = refl

find_file-Leads_example :
    (parts : List (List ℕ)) × (parts_of 18 bin_path ≡ some (ok parts))
    × Leads memory memory-IsDisk volume 2 parts (entry_at root_sector 2)
find_file-Leads_example =
    find_file-Leads memory memory-IsDisk 18 bin_path volume (entry_at root_sector 2)
      volume-IsCoherent geometry-IsReal find_file_bin

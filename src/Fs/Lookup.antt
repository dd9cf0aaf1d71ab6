-- ===== src/Fs/Lookup.antt =====
-- fs/filesystem.c: `find_inode_by_path`, and the questions answered by it.
pub mod Resolve
use ephemeral_os.Base.{
  ℕ, Bool, true, false, not, ◌||◌, [], ◌∷◌, ◌++◌, leb, ◌==◌, if◌then◌else◌, length, drop, Bytes,
  str_eq, no_index,
}
use ephemeral_os.Fs.State.{
  Fs, max_inodes, max_blocks, max_filename, type_dir, type_file, inode_at, first_block,
}
use ephemeral_os.Fs.Path.{slash, normalize_path}
use ephemeral_os.Fs.Dir.{read_dir, find_entry}

-- One round of the `while` loop: the inode of `component` in the directory `current_inode`.
unfoldable pub find_component : Fs → ℕ → Bytes → ℕ
find_component fs current_inode component =
    if leb max_filename (length component)
    then no_index
    else if leb max_inodes current_inode
    then no_index
    else if not ((inode_at fs current_inode).type == type_dir)
    then no_index
    else if first_block fs current_inode == 0 || leb max_blocks (first_block fs current_inode)
    then no_index
    else find_entry (read_dir fs (first_block fs current_inode)) component

abbrev pub is_empty : Bytes → Bool
is_empty [] = true
is_empty (c ∷ cs) = false

-- The `while` loop from `p` on, a byte at a time, with the component read so far.
unfoldable pub walk : Fs → ℕ → Bytes → Bytes → ℕ
walk fs current_inode component [] = find_component fs current_inode component
walk fs current_inode component (c ∷ cs) =
    let found = find_component fs current_inode component in
    let next = walk fs found [] cs in
    let longer = walk fs current_inode (component ++ c ∷ []) cs in
    if not (c == slash)
    then longer
    else if found == no_index
    then no_index
    else if is_empty cs
    then found
    else next

unfoldable pub find_inode_by_path : Fs → Bytes → ℕ
unfolding walk
find_inode_by_path fs path =
    let normalized = normalize_path path in
    if str_eq normalized (slash ∷ [])
    then fs.superblock.root_inode
    else if is_empty (drop 1 normalized)
    then fs.superblock.root_inode
    else walk fs fs.superblock.root_inode [] (drop 1 normalized)

unfoldable pub fs_dir_exists : Fs → Bytes → Bool
fs_dir_exists fs path =
    let inode = find_inode_by_path fs path in
    if inode == no_index
    then false
    else if leb max_inodes inode
    then false
    else (inode_at fs inode).type == type_dir

unfoldable pub fs_file_exists : Fs → Bytes → Bool
fs_file_exists fs path =
    let inode = find_inode_by_path fs path in
    if inode == no_index
    then false
    else if leb max_inodes inode
    then false
    else (inode_at fs inode).type == type_file

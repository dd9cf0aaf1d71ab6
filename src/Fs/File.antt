-- ===== src/Fs/File.antt =====
-- fs/filesystem.c: `fs_create_file`, `fs_read_file` and `fs_delete_file`. `sector_buffer` is filled
-- before each use, so it carries no state.
pub mod Contents
use ephemeral_os.Base.{
  ℕ, zero, suc, ◌+◌, ◌-◌, ◌/◌, ◌||◌, not, Bool, true, false, List, [], ◌++◌, ltb, leb, ◌==◌,
  if◌then◌else◌, get_or, length, take, drop, replicate, min, Bytes, Option, none, some, no_index,
}
use ephemeral_os.Fs.State.{
  Fs, block_size, direct_blocks, max_inodes, max_file_size, type_dir, type_file, inode_at,
  set_inode, first_block, sync_inode_table, sync_block_bitmap, sync_superblock, read_inode_block,
  write_inode_block,
}
use ephemeral_os.Fs.Bitmap.{allocate_block}
use ephemeral_os.Fs.Path.{split_path}
use ephemeral_os.Fs.Inodes.{allocate_inode, free_inode}
use ephemeral_os.Fs.Dir.{read_dir, write_dir, remove_entry}
use ephemeral_os.Fs.Lookup.{find_inode_by_path}
use ephemeral_os.Fs.Create.{
  Status, success, failure, out_of_fuel, set_block, link, bad_name, fs_create_dir,
}

unfoldable pub fs_delete_file : Fs → Bytes → Fs × Status
fs_delete_file fs path =
    let parent = find_inode_by_path fs (split_path path).0 in
    let file = find_inode_by_path fs path in
    if parent == no_index
    then (fs, failure)
    else if file == no_index || not ((inode_at fs file).type == type_file)
    then (fs, failure)
    else let fs1 = free_inode fs file in
      let block = first_block fs1 parent in
      let fs2 = write_dir fs1 block (remove_entry (read_dir fs1 block) file) in
      (sync_block_bitmap (sync_inode_table fs2), success)

-- `blocks_needed`
abbrev pub blocks_needed : ℕ → ℕ
blocks_needed size = min ((size + block_size - 1) / block_size) direct_blocks

-- A sector that holds the first bytes of the data that remains.
abbrev pub sector_of : Bytes → Bytes
sector_of rest = take block_size rest ++ replicate (block_size - length rest) 0

-- The loop over the blocks, with the rounds left, the block's index and the data that remains;
-- `none` is a full drive, and the state is then the one that `free_inode` starts from.
unfoldable pub store_blocks : Fs → ℕ → ℕ → ℕ → Bytes → Fs × Bool
store_blocks fs inode zero i rest = (fs, true)
store_blocks fs inode (suc n) i rest =
    let (fs1, block) = allocate_block fs in
    let fs2 = write_inode_block (set_block fs1 inode i block) block (sector_of rest) in
    let later = store_blocks fs2 inode n (i + 1) (drop block_size rest) in
    if block == no_index then (fs1, false) else later

unfoldable pub set_type_file : Fs → ℕ → ℕ → ℕ → Fs
set_type_file fs i size parent =
    set_inode fs i (record (inode_at fs i) { type = type_file; size = size; parent_inode = parent })

-- From the call of `allocate_inode` on. The argument `size` of the source is the file_datas length.
unfoldable pub make_file : Fs → ℕ → Bytes → Bytes → Fs × Status
unfolding store_blocks set_type_file
make_file fs parent name file_data =
    let (fs1, inode) = allocate_inode fs in
    if inode == no_index
    then (fs1, failure)
    else let (fs2, stored) =
        store_blocks (set_type_file fs1 inode (length file_data) parent) inode
          (blocks_needed (length file_data)) 0 file_data in
      if not stored then (free_inode fs2 inode, failure) else elim (link fs2 parent name inode) [
        | none ↦ (free_inode fs2 inode, failure)
        | some fs3 ↦ (sync_superblock (sync_block_bitmap (sync_inode_table fs3)), success)
      ]

-- From the test of the parent's type on.
unfoldable pub replace_file : Fs → ℕ → Bytes → Bytes → Bytes → Fs × Status
unfolding make_file fs_delete_file
replace_file fs parent path name file_data =
    if not ((inode_at fs parent).type == type_dir)
    then (fs, failure)
    else if not (find_inode_by_path fs path == no_index)
    then make_file (fs_delete_file fs path).0 parent name file_data
    else make_file fs parent name file_data

-- Behind the call of `fs_create_dir` for the parent.
unfoldable pub create_in_parent : Bytes → Bytes → Bytes → Bytes → Fs × Status → Fs × Status
unfolding replace_file
create_in_parent path parent_path name file_data (fs, success) =
    let parent = find_inode_by_path fs parent_path in
    if parent == no_index then (fs, failure) else replace_file fs parent path name file_data
create_in_parent path parent_path name file_data (fs, failure) = (fs, failure)
create_in_parent path parent_path name file_data (fs, out_of_fuel) = (fs, out_of_fuel)

unfoldable pub fs_create_file : Fs → Bytes → Bytes → Fs × Status
unfolding create_in_parent
fs_create_file fs path file_data =
    let parent_path = (split_path path).0 in
    let file_name = (split_path path).1 in
    let parent = find_inode_by_path fs parent_path in
    if ltb max_file_size (length file_data)
    then (fs, failure)
    else if bad_name file_name
    then (fs, failure)
    else if parent == no_index
    then create_in_parent path parent_path file_name file_data (fs_create_dir fs parent_path)
    else replace_file fs parent path file_name file_data

-- The loop of `fs_read_file`: what it copies to `buffer`, from the pointers on, with the rounds and
-- the bytes that are left.
unfoldable pub load_blocks : Fs → List ℕ → ℕ → ℕ → ℕ → Bytes
load_blocks fs blocks zero i remaining = []
load_blocks fs blocks (suc n) i remaining =
    take (min block_size remaining) (read_inode_block fs (get_or blocks i 0))
    ++ load_blocks fs blocks n (i + 1) (remaining - min block_size remaining)

-- The result and the bytes written to `buffer`; `none` is the result -1.
unfoldable pub fs_read_file : Fs → Bytes → ℕ → Option (ℕ × Bytes)
unfolding load_blocks
fs_read_file fs path max_size =
    let inode = find_inode_by_path fs path in
    if inode == no_index || leb max_inodes inode
    then none
    else if not ((inode_at fs inode).type == type_file)
    then none
    else let size = min (inode_at fs inode).size max_size in
      some (
        (inode_at fs inode).size,
        load_blocks fs (inode_at fs inode).blocks (blocks_needed size) 0 size,
      )

-- ===== src/Fs/Create.antt =====
-- fs/filesystem.c: `fs_create_dir`.
pub mod Total
pub mod Made
pub mod Frame
use ephemeral_os.Base.{
  ℕ, zero, suc, ◌||◌, not, Bool, [], ◌∷◌, leb, ◌==◌, if◌then◌else◌, set, length, replicate, Bytes,
  str_eq, codes, Option, none, some, no_index,
}
use ephemeral_os.Fs.State.{
  Fs, max_filename, type_dir, inode_at, set_inode, first_block, sync_inode_table, sync_block_bitmap,
}
use ephemeral_os.Fs.Bitmap.{allocate_block}
use ephemeral_os.Fs.Path.{slash, split_path}
use ephemeral_os.Fs.Inodes.{allocate_inode, free_inode}
use ephemeral_os.Fs.Dir.{DirBlock, zero_dir, store_name, read_dir, write_dir, add_entry}
use ephemeral_os.Fs.Lookup.{find_inode_by_path}

-- 0, -1, and, in the model alone, a recursion that was not followed to its end.
pub data Status : Type 0 where
  success failure out_of_fuel : Status

-- The block of a fresh directory: `.` and `..`.
unfoldable pub new_dir : ℕ → ℕ → DirBlock
unfolding store_name
new_dir inode parent =
    set
      (set zero_dir 0 (record {
        name = store_name (replicate max_filename 0) (codes ".");
        inode = inode;
        in_use = 1;
      }))
      1
      (record {
        name = store_name (replicate max_filename 0) (codes "..");
        inode = parent;
        in_use = 1;
      })

-- The last part of `fs_create_dir` and `fs_create_file`: the entry in the parent's block.
unfoldable pub link : Fs → ℕ → Bytes → ℕ → Option Fs
link fs parent name inode = elim (add_entry (read_dir fs (first_block fs parent)) name inode) [
  | none ↦ none
  | some d ↦ some (write_dir fs (first_block fs parent) d)
]

unfoldable pub set_type_dir : Fs → ℕ → ℕ → Fs
set_type_dir fs i parent =
    set_inode fs i (record (inode_at fs i) { type = type_dir; size = 0; parent_inode = parent })

unfoldable pub set_block : Fs → ℕ → ℕ → ℕ → Fs
set_block fs i k block =
    set_inode fs i (record (inode_at fs i) { blocks = set (inode_at fs i).blocks k block })

-- From the test of the parent's type on.
unfoldable pub make_dir : Fs → ℕ → Bytes → Fs × Status
unfolding new_dir link set_type_dir set_block
make_dir fs parent name =
    if not ((inode_at fs parent).type == type_dir)
    then (fs, failure)
    else let (fs1, inode) = allocate_inode fs in
      if inode == no_index
      then (fs1, failure)
      else let (fs2, block) = allocate_block (set_type_dir fs1 inode parent) in
        if block == no_index
        then (free_inode fs2 inode, failure)
        else let fs3 = set_block fs2 inode 0 block in
          let fs4 = write_dir fs3 block (new_dir inode parent) in
          elim (link fs4 parent name inode) [
            | none ↦ (free_inode fs4 inode, failure)
            | some fs5 ↦ (sync_block_bitmap (sync_inode_table fs5), success)
          ]

abbrev pub bad_name : Bytes → Bool
bad_name name = length name == 0 || leb max_filename (length name)

-- Behind the recursive call for the parent.
unfoldable pub make_in_parent : Bytes → Bytes → Fs × Status → Fs × Status
unfolding make_dir
make_in_parent parent_path name (fs, success) =
    let parent = find_inode_by_path fs parent_path in
    if parent == no_index then (fs, failure) else make_dir fs parent name
make_in_parent parent_path name (fs, failure) = (fs, failure)
make_in_parent parent_path name (fs, out_of_fuel) = (fs, out_of_fuel)

unfoldable pub create_dir_fuel : ℕ → Fs → Bytes → Fs × Status
unfolding make_in_parent str_eq
create_dir_fuel zero fs path = (fs, out_of_fuel)
create_dir_fuel (suc fuel) fs path =
    let parent_path = (split_path path).0 in
    let dir_name = (split_path path).1 in
    let parent = find_inode_by_path fs parent_path in
    let made = make_in_parent parent_path dir_name (create_dir_fuel fuel fs parent_path) in
    if bad_name dir_name
    then (fs, failure)
    else if not (find_inode_by_path fs path == no_index)
    then (fs, success)
    else if not (parent == no_index)
    then make_dir fs parent dir_name
    else if not (str_eq parent_path (slash ∷ []))
    then made
    else (fs, failure)

unfoldable pub fs_create_dir : Fs → Bytes → Fs × Status
unfolding create_dir_fuel
fs_create_dir fs path = create_dir_fuel (suc (length path)) fs path

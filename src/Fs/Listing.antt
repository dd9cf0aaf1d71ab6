-- ===== src/Fs/Listing.antt =====
-- fs/filesystem.c: `fs_list_dir` and `fs_change_dir`.
pub mod Bounds
use ephemeral_os.Base.{
  ℕ, ◌+◌, not, ◌&&◌, ◌||◌, Bool, [], ◌∷◌, ◌++◌, ltb, leb, ◌==◌, if◌then◌else◌, length, take, Bytes,
  codes, str_eq, Option, none, some, no_index,
}
use ephemeral_os.Fs.State.{Fs, max_inodes, max_blocks, type_dir, inode_at, first_block}
use ephemeral_os.Fs.Path.{slash, last_slash}
use ephemeral_os.Fs.Dir.{DirEntry, DirBlock, c_str, read_dir}
use ephemeral_os.Fs.Lookup.{find_inode_by_path, fs_dir_exists}

-- The inner loop: the length of a name whose bytes are all printable, and 0 for any other.
-- `c < 32 || c > 126` is also true of a byte above 127, a negative `char`.
unfoldable pub name_length : ℕ → Bytes → ℕ
name_length n [] = n
name_length n (c ∷ cs) =
    let rest = name_length (n + 1) cs in if ltb c 32 || ltb 126 c then 0 else rest

abbrev pub is_dot : Bytes → Bool
is_dot name = str_eq name (codes ".") || str_eq name (codes "..")

-- The line that is written for an entry.
unfoldable pub listed : Fs → DirEntry → Bytes
listed fs e =
    if ltb e.inode max_inodes && (inode_at fs e.inode).type == type_dir
    then c_str e.name ++ slash ∷ b'\n' ∷ []
    else c_str e.name ++ b'\n' ∷ []

-- The outer loop, with what is written so far. `written < max_size - 64` is a test of `int`s.
unfoldable pub list_entries : Fs → ℕ → Bytes → DirBlock → Bytes
unfolding name_length listed str_eq c_str
list_entries fs max_size out [] = out
list_entries fs max_size out (e ∷ d) =
    let name = c_str e.name in
    let skipped = list_entries fs max_size out d in
    let taken = list_entries fs max_size (out ++ listed fs e) d in
    if not (ltb (length out + 64) max_size)
    then out
    else if not (e.in_use == 1)
    then skipped
    else if is_dot name
    then skipped
    else if name_length 0 name == 0
    then skipped
    else if leb max_size (length out + name_length 0 name + 2)
    then out
    else taken

-- `none` is the result -1; otherwise the text in `buffer`, whose length is the result.
unfoldable pub fs_list_dir : Fs → Bytes → ℕ → Option Bytes
unfolding list_entries
fs_list_dir fs path max_size =
    let inode = find_inode_by_path fs path in
    let block = first_block fs inode in
    if inode == no_index || leb max_inodes inode
    then none
    else if not ((inode_at fs inode).type == type_dir)
    then none
    else if block == 0 || leb max_blocks block
    then none
    else some (list_entries fs max_size [] (read_dir fs block))

-- `..`
unfoldable pub change_up : Bytes → Bytes
unfolding str_eq last_slash
change_up current_dir =
    if str_eq current_dir (slash ∷ [])
    then current_dir
    else let at = last_slash 0 0 current_dir in if at == 0 then slash ∷ [] else take at current_dir

-- A path against the current directory, as `fs_change_dir` and the commands of bin/ build it.
unfoldable pub absolute_path : Bytes → Bytes → Bytes
unfolding str_eq
absolute_path current_dir [] =
    if str_eq current_dir (slash ∷ []) then slash ∷ [] else current_dir ++ slash ∷ []
absolute_path current_dir (c ∷ cs) =
    if c == slash
    then c ∷ cs
    else if str_eq current_dir (slash ∷ [])
    then slash ∷ c ∷ cs
    else current_dir ++ slash ∷ c ∷ cs

-- The new current directory, or `none` for -1.
unfoldable pub fs_change_dir : Fs → Bytes → Bytes → Option Bytes
unfolding change_up absolute_path
fs_change_dir fs path current_dir =
    if str_eq path (codes "..")
    then some (change_up current_dir)
    else let new_path = absolute_path current_dir path in
      if fs_dir_exists fs new_path then some new_path else none

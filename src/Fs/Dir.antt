-- ===== src/Fs/Dir.antt =====
-- fs/filesystem.h, fs/filesystem.c: a directory block, `fs_dir_block_t`, as it lies in memory and on
-- the drive. An entry takes 36 bytes: 28 of name, 4 of inode number with the lowest first, `in_use`,
-- and 3 of padding, which `memset` leaves zero. Fifteen entries take 540 bytes, and a sector holds
-- 512 of them.
pub mod RoundTrip
pub mod Entries
use ephemeral_os.Base.{
  ℕ, zero, suc, ◌+◌, ◌*◌, ◌/◌, ◌%◌, ◌&&◌, not, List, [], ◌∷◌, ◌++◌, Option, none, some, ◌==◌,
  if◌then◌else◌, get_or, length, take, drop, replicate, Bytes, str_eq, no_index,
}
use ephemeral_os.Fs.State.{
  Fs, block_size, max_filename, max_dir_entries, read_inode_block, write_inode_block,
}

pub record DirEntry : Type 0 where
  pub name : Bytes
  pub inode : ℕ
  pub in_use : ℕ

abbrev pub DirBlock : Type 0
DirBlock = List DirEntry

abbrev pub zero_entry : DirEntry
zero_entry = record { name = replicate max_filename 0; inode = 0; in_use = 0 }

-- What `memset(&dir_block, 0, sizeof(fs_dir_block_t))` leaves.
abbrev pub zero_dir : DirBlock
zero_dir = replicate max_dir_entries zero_entry

abbrev pub entry_bytes : ℕ
entry_bytes = 36

-- A `uint32_t` in memory, lowest byte first, and back.
abbrev pub le_bytes : ℕ → Bytes
le_bytes n = n % 256 ∷ (n / 256 % 256) ∷ (n / 65536 % 256) ∷ (n / 16777216 % 256) ∷ []

abbrev pub le_value : Bytes → ℕ
le_value bs = get_or bs 0 0 + 256 * get_or bs 1 0 + 65536 * get_or bs 2 0 + 16777216 * get_or bs 3 0

unfoldable pub encode_entry : DirEntry → Bytes
encode_entry e = e.name ++ (le_bytes e.inode ++ e.in_use ∷ 0 ∷ 0 ∷ 0 ∷ [])

unfoldable pub encode_dir : DirBlock → Bytes
unfolding encode_entry
encode_dir [] = []
encode_dir (e ∷ d) = encode_entry e ++ encode_dir d

unfoldable pub decode_entry : Bytes → DirEntry
decode_entry bs = record {
  name = take max_filename bs;
  inode = le_value (drop max_filename bs);
  in_use = get_or (drop max_filename bs) 4 0;
}

unfoldable pub decode_dir : ℕ → Bytes → DirBlock
unfolding decode_entry
decode_dir zero bs = []
decode_dir (suc n) bs = decode_entry bs ∷ decode_dir n (drop entry_bytes bs)

-- `memset(&dir, 0, sizeof dir); read_inode_block(block, (uint8_t*)&dir)`
unfoldable pub read_dir : Fs → ℕ → DirBlock
read_dir fs block =
    decode_dir max_dir_entries (take block_size (read_inode_block fs block) ++ replicate 28 0)

-- `write_inode_block(block, (uint8_t*)&dir)`
unfoldable pub write_dir : Fs → ℕ → DirBlock → Fs
write_dir fs block d = write_inode_block fs block (encode_dir d)

-- The string in a `char` array.
unfoldable pub c_str : Bytes → Bytes
c_str [] = []
c_str (c ∷ cs) = if c == 0 then [] else c ∷ c_str cs

-- `strcpy(entry.name, name)`
unfoldable pub store_name : Bytes → Bytes → Bytes
store_name old name = name ++ 0 ∷ drop (suc (length name)) old

-- The loop that looks a component up.
unfoldable pub find_entry : DirBlock → Bytes → ℕ
unfolding c_str str_eq
find_entry [] component = no_index
find_entry (e ∷ d) component =
    if e.in_use == 1 && str_eq (c_str e.name) component then e.inode else find_entry d component

-- The loop that takes the first entry not in use; `none` is `!added`.
unfoldable pub add_entry : DirBlock → Bytes → ℕ → Option DirBlock
unfolding store_name
add_entry [] name inode = none
add_entry (e ∷ d) name inode =
    if not (e.in_use == 1)
    then some (record { name = store_name e.name name; inode = inode; in_use = 1 } ∷ d)
    else elim (add_entry d name inode) [ none ↦ none | some d' ↦ some (e ∷ d') ]

-- The loop of `fs_delete_file` over the parent's entries.
unfoldable pub remove_entry : DirBlock → ℕ → DirBlock
remove_entry [] inode = []
remove_entry (e ∷ d) inode =
    if e.in_use == 1 && e.inode == inode
    then record e { in_use = 0; name = replicate max_filename 0 } ∷ d
    else e ∷ remove_entry d inode

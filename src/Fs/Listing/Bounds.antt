-- ===== src/Fs/Listing/Bounds.antt =====
-- fs/filesystem.c: `fs_list_dir` stays inside its buffer.
use ephemeral_os.Base.{
  ℕ, ◌+◌, ◌≤◌, ◌<◌, ◌≡◌, ◌⊎◌, inr, some, [], ◌∷◌, ◌++◌, arith, Bytes, length, length-append,
}
use ephemeral_os.Fs.State.{Fs, first_block}
use ephemeral_os.Fs.Lookup.{find_inode_by_path}
use ephemeral_os.Fs.Dir.{read_dir, DirBlock, DirEntry, c_str}
use ephemeral_os.Fs.Listing.{name_length, listed, list_entries, fs_list_dir}

name_length-le : (s : Bytes) (n : ℕ) → (name_length n s ≡ 0) ⊎ (name_length n s ≡ n + length s)
unfolding name_length
name_length-le [] n = inr (omega arith)
name_length-le (c ∷ s) n = ground (arith, name_length-le s (n + 1))

length-listed : (fs : Fs) (e : DirEntry) → length (listed fs e) ≤ length (c_str e.name) + 2
unfolding listed
length-listed fs e = ground (
  arith,
  length-append {0} (c_str e.name) (47 ∷ 10 ∷ []),
  length-append {0} (c_str e.name) (10 ∷ []),
)

length-list_entries :
    (d : DirBlock) (fs : Fs) (max_size : ℕ) (out : Bytes)
    → length out < max_size
    → length (list_entries fs max_size out d) < max_size
unfolding list_entries
length-list_entries [] fs max_size out h = h
length-list_entries (e ∷ d) fs max_size out h = ground (
  arith,
  length-list_entries d fs max_size out h,
  length-list_entries d fs max_size (out ++ listed fs e),
  length-append out (listed fs e),
  length-listed fs e,
  name_length-le (c_str e.name) 0,
)

-- Into a buffer of at least one byte, `fs_list_dir` writes a text that leaves room for its NUL.
pub length-fs_list_dir :
    (fs : Fs) (path : Bytes) (max_size : ℕ) {text : Bytes}
    → 0 < max_size
    → fs_list_dir fs path max_size ≡ some text
    → length text < max_size
unfolding fs_list_dir
length-fs_list_dir fs path max_size h e =
    let inode : ℕ = find_inode_by_path fs path in
    ground (arith, length-list_entries (read_dir fs (first_block fs inode)) fs max_size [] h)

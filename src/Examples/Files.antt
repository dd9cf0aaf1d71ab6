-- ===== src/Examples/Files.antt =====
-- The theorems of Fs at concrete drives.
use ephemeral_os.Fs.Path.{normalize_path}
use ephemeral_os.Fs.Lookup.{find_component, find_inode_by_path}
use ephemeral_os.Base.{
  ℕ, zero, suc, ◌≤◌, ◌≡◌, refl, ◌↔◌, true, some, [], ◌∷◌, ◌++◌, arith, Bytes, All, codes, str_eq,
  length, set, replicate,
}
use ephemeral_os.Fs.State.{type_file, type_dir, Fs, zero_inode, read_inode_block}
use ephemeral_os.Fs.Bitmap.{allocate_block}
use ephemeral_os.Fs.Bitmap.Allocate.{Outcome, allocate_block-Outcome}
use ephemeral_os.Fs.Dir.{
  DirEntry, zero_entry, read_dir, write_dir, find_entry, encode_dir, decode_dir,
}
use ephemeral_os.Fs.Dir.RoundTrip.{IsEntry, stump, read_dir-write_dir}
use ephemeral_os.Fs.Dir.Entries.{AllInUse}
use ephemeral_os.Fs.Lookup.Resolve.{resolve, find_inode_by_path_lem}
use ephemeral_os.Fs.Path.Components.{components}
use ephemeral_os.Fs.Create.{fs_create_dir, link}
use ephemeral_os.Fs.Create.Made.{HasDir, link-lost}
use ephemeral_os.Fs.Create.Total.{Returns, fs_create_dir-Returns}
use ephemeral_os.Fs.File.{fs_read_file}
use ephemeral_os.Fs.File.Contents.{length-fs_read_file}
use ephemeral_os.Fs.Install.{hash_bytes, fs_verify_password}
use ephemeral_os.Fs.Install.Password.{fs_verify_password-fs_install}
use ephemeral_os.Examples.Drive.{blank, installed, entry, full, with_dir}

find_inode_by_path_lem_example :
    find_inode_by_path installed (codes "/home/ana")
    ≡ resolve installed (installed.superblock).root_inode (components (codes "/home/ana"))
find_inode_by_path_lem_example = find_inode_by_path_lem installed (codes "/home/ana")

allocate_block-Outcome_example : Outcome blank 0 512 (allocate_block blank)
allocate_block-Outcome_example = allocate_block-Outcome blank

fs_create_dir-Returns_example : Returns (fs_create_dir blank (codes "/a/b"))
fs_create_dir-Returns_example = fs_create_dir-Returns blank (codes "/a/b")

fs_verify_password-fs_install_example :
    (fs_verify_password installed (codes "secret") ≡ true)
    ↔ (hash_bytes (codes "secret") ≡ hash_bytes (codes "secret"))
fs_verify_password-fs_install_example =
    fs_verify_password-fs_install blank (codes "host") (codes "ana") (codes "secret")
      (codes "secret")

entries-IsEntry : (letter : ℕ) → IsEntry (entry letter 7)
entries-IsEntry letter = record { name = refl; inode = omega arith }

zero_entry-IsEntry : IsEntry zero_entry
zero_entry-IsEntry = record { name = refl; inode = omega arith }

All-replicate : (n : ℕ) (x : DirEntry) → IsEntry x → All IsEntry (replicate n x)
All-replicate zero x h = tt
All-replicate (suc n) x h = (h, All-replicate n x h)

full-IsEntry : All IsEntry full
full-IsEntry = All-replicate 14 (entry b'a' 7) (entries-IsEntry b'a')

full-HasDir : HasDir (with_dir full) 0 full zero_entry
unfolding read_dir read_inode_block encode_dir decode_dir
full-HasDir = record {
  block_ne = λ e. omega arith;
  block_lt = omega arith;
  reads = refl;
  size = refl;
  entries = full-IsEntry;
  last_entry = zero_entry-IsEntry;
  last_free = refl;
}

read_dir-write_dir_example :
    read_dir (write_dir blank 5 (full ++ entry b'z' 9 ∷ [])) 5 ≡ full ++ stump (entry b'z' 9) ∷ []
read_dir-write_dir_example =
    read_dir-write_dir full (entry b'z' 9) refl full-IsEntry
      (record { name = refl; inode = omega arith }) blank 5 (λ e. omega arith) (omega arith)

all_in_use : (n : ℕ) → AllInUse (replicate n (entry b'a' 7))
all_in_use zero = tt
all_in_use (suc n) = (refl, all_in_use n)

link-lost_example :
    (fs' : Fs) × (link (with_dir full) 0 (codes "b") 8 ≡ some fs')
    × ((other : Bytes) → find_entry (read_dir fs' 1) other ≡ find_entry full other)
link-lost_example =
    link-lost (with_dir full) 0 full zero_entry full-HasDir (codes "b") 8 (omega arith)
      (omega arith) (all_in_use 14)

-- A drive with a file a of three bytes.
abbrev one_file : Fs
one_file = record (with_dir (entry b'a' 1 ∷ replicate 13 zero_entry)) {
  inode_table =
      record zero_inode { type = type_dir; blocks = set zero_inode.blocks 0 1 }
      ∷ record zero_inode { type = type_file; size = 3; blocks = set zero_inode.blocks 0 2 }
      ∷ [];
}

a_read : fs_read_file one_file (codes "/a") 100 ≡ some (3, codes "a" ++ 0 ∷ 0 ∷ [])
unfolding fs_read_file find_inode_by_path str_eq normalize_path find_component find_entry read_dir
    decode_dir read_inode_block encode_dir
a_read = refl

length-fs_read_file_example : length (codes "a" ++ 0 ∷ 0 ∷ []) ≤ 6144
length-fs_read_file_example = length-fs_read_file one_file (codes "/a") 100 a_read

-- ===== src/Examples/Trees.antt =====
-- fs/filesystem.c: the theorems on new files and directories, at a drive just installed.
use ephemeral_os.Fs.Restart.{restart, restart-fs_create_file}
use ephemeral_os.Fs.Sound.Installed.{fs_install-IsSound}
use ephemeral_os.Base.{
  ap, some, true, ◌≤◌, zero, suc, ◌≢◌, ◌^◌, false, ◌<◌, ◌≡◌, ℕ, ◌-◌, refl, ◌∷◌, ◌++◌, arith, Bytes,
  All, codes, str_eq, length, replicate,
}
use ephemeral_os.Fs.Tree.{Room}
use ephemeral_os.Fs.Dir.Entries.{Absent}
use ephemeral_os.Fs.Tree.Enough.{fs_create_file_enough, fs_create_dir_enough}
use ephemeral_os.Fs.Lookup.{fs_dir_exists, find_component, find_inode_by_path}
use ephemeral_os.Fs.File.{fs_create_file, fs_read_file, blocks_needed}
use ephemeral_os.Fs.Create.{success, fs_create_dir}
use ephemeral_os.Fs.State.{Fs, inode_at, read_inode_block, write_inode_block}
use ephemeral_os.Fs.Bitmap.{set_bit, mark_block_used, is_block_free, allocate_from, allocate_block}
use ephemeral_os.Fs.Dir.{
  c_str, add_entry, encode_dir, decode_dir, read_dir, find_entry, DirBlock, DirEntry, zero_entry,
}
use ephemeral_os.Fs.Inodes.{allocate_inode_from, allocate_inode}
use ephemeral_os.Fs.Path.{split_path, normalize_path}
use ephemeral_os.Fs.Install.{fs_install}
use ephemeral_os.Fs.Dir.RoundTrip.{IsEntry}
use ephemeral_os.Fs.Create.Made.{HasDir}
use ephemeral_os.Examples.Drive.{blank, installed}

-- A name of the installation, with its inode.
abbrev named : Bytes → ℕ → DirEntry
named name inode = record {
  name = name ++ replicate (28 - length name) 0;
  inode = inode;
  in_use = 1;
}

-- The root directory after the installation, less its last entry.
abbrev root_entries : DirBlock
root_entries =
    named (codes ".") 0
    ∷ named (codes "..") 0
    ∷ named (codes "bin") 1
    ∷ named (codes "home") 2
    ∷ named (codes "tmp") 3
    ∷ named (codes "etc") 4
    ∷ named (codes "var") 5
    ∷ replicate 7 zero_entry

named-IsEntry :
    (name : Bytes) (inode : ℕ)
    → length (name ++ replicate (28 - length name) 0) ≡ 28
    → inode < 2 ^ 32
    → IsEntry (named name inode)
named-IsEntry name inode l k = record { name = l; inode = k }

zeros-IsEntry : (n : ℕ) → All IsEntry (replicate n zero_entry)
zeros-IsEntry zero = tt
zeros-IsEntry (suc n) = (record { name = refl; inode = omega arith }, zeros-IsEntry n)

root_entries-IsEntry : All IsEntry root_entries
root_entries-IsEntry = (
  named-IsEntry (codes ".") 0 refl (omega arith),
  (
    named-IsEntry (codes "..") 0 refl (omega arith),
    (
      named-IsEntry (codes "bin") 1 refl (omega arith),
      (
        named-IsEntry (codes "home") 2 refl (omega arith),
        (
          named-IsEntry (codes "tmp") 3 refl (omega arith),
          (
            named-IsEntry (codes "etc") 4 refl (omega arith),
            (named-IsEntry (codes "var") 5 refl (omega arith), zeros-IsEntry 7),
          ),
        ),
      ),
    ),
  ),
)

root-HasDir : HasDir installed 0 root_entries zero_entry
unfolding fs_install find_inode_by_path normalize_path find_component split_path write_inode_block
    find_entry read_dir decode_dir read_inode_block encode_dir allocate_inode allocate_inode_from
    allocate_block allocate_from is_block_free add_entry mark_block_used set_bit str_eq c_str
root-HasDir = record {
  block_ne = λ e. omega arith;
  block_lt = omega arith;
  reads = refl;
  size = refl;
  entries = root_entries-IsEntry;
  last_entry = record { name = refl; inode = omega arith };
  last_free = refl;
}

Absent-zeros : (n : ℕ) → Absent (codes "notes") (replicate n zero_entry)
Absent-zeros zero = tt
Absent-zeros (suc n) = (refl, Absent-zeros n)

notes-Absent : Absent (codes "notes") root_entries
unfolding c_str str_eq
notes-Absent = (refl, (refl, (refl, (refl, (refl, (refl, (refl, Absent-zeros 7)))))))

ne : (c : ℕ) → 0 < c → c ≢ 0
ne c l e = omega arith

installed-Room : Room installed (codes "/notes") 0 (codes "notes") root_entries zero_entry
unfolding fs_install find_inode_by_path normalize_path find_component split_path write_inode_block
    find_entry read_dir decode_dir read_inode_block encode_dir allocate_inode allocate_inode_from
    allocate_block allocate_from is_block_free add_entry mark_block_used set_bit str_eq c_str
installed-Room = record {
  sound = fs_install-IsSound blank (codes "host") (codes "ana") (codes "secret");
  table = refl;
  parent = refl;
  name = refl;
  parent_lt = omega arith;
  parent_dir = refl;
  dir = root-HasDir;
  short = omega arith;
  non_empty = λ e. cc;
  nul_free = (
    ne b'n' (omega arith),
    (
      ne b'o' (omega arith),
      (ne b't' (omega arith), (ne b'e' (omega arith), (ne b's' (omega arith), tt))),
    ),
  );
  absent = notes-Absent;
  open_entry = refl;
}

zero_block_used : is_block_free installed.block_bitmap 0 ≡ false
unfolding fs_install find_inode_by_path normalize_path find_component split_path write_inode_block
    find_entry read_dir decode_dir read_inode_block encode_dir allocate_inode allocate_inode_from
    allocate_block allocate_from is_block_free add_entry mark_block_used set_bit str_eq c_str
zero_block_used = refl

inode_100_free : (inode_at installed 100).type ≡ 0
unfolding fs_install find_inode_by_path normalize_path find_component split_path write_inode_block
    find_entry read_dir decode_dir read_inode_block encode_dir allocate_inode allocate_inode_from
    allocate_block allocate_from is_block_free add_entry mark_block_used set_bit str_eq c_str
inode_100_free = refl

blocks_left : installed.superblock.free_blocks ≡ 503
unfolding fs_install find_inode_by_path normalize_path find_component split_path write_inode_block
    find_entry read_dir decode_dir read_inode_block encode_dir allocate_inode allocate_inode_from
    allocate_block allocate_from is_block_free add_entry mark_block_used set_bit str_eq c_str
blocks_left = refl

blocks_enough : blocks_needed (length (codes "hi")) ≤ installed.superblock.free_blocks
blocks_enough = omega (arith, blocks_left)

fs_create_file_enough_example :
    (fs' : Fs) × (fs_create_file installed (codes "/notes") (codes "hi") ≡ (fs', success))
    × ((max_size : ℕ)
        → 2 ≤ max_size
        → fs_read_file fs' (codes "/notes") max_size ≡ some (2, codes "hi"))
    × ((other : Bytes) (max_size : ℕ) (r : ℕ × Bytes)
        → fs_read_file installed other max_size ≡ some r
        → fs_read_file fs' other max_size ≡ some r)
fs_create_file_enough_example =
    fs_create_file_enough installed (codes "/notes") 0 (codes "notes") root_entries zero_entry
      installed-Room zero_block_used (codes "hi") (omega arith) 100 (omega arith) inode_100_free
      blocks_enough

fs_create_dir_enough_example :
    (fs' : Fs) × (fs_create_dir installed (codes "/notes") ≡ (fs', success))
    × (fs_dir_exists fs' (codes "/notes") ≡ true)
    × ((other : Bytes) (max_size : ℕ) (r : ℕ × Bytes)
        → fs_read_file installed other max_size ≡ some r
        → fs_read_file fs' other max_size ≡ some r)
fs_create_dir_enough_example =
    fs_create_dir_enough installed (codes "/notes") 0 (codes "notes") root_entries zero_entry
      installed-Room zero_block_used 100 (omega arith) inode_100_free (omega (arith, blocks_left))

notes_made : (fs_create_file installed (codes "/notes") (codes "hi")).1 ≡ success
notes_made =
    let (fs', e, back, others) =
      fs_create_file_enough installed (codes "/notes") 0 (codes "notes") root_entries zero_entry
        installed-Room zero_block_used (codes "hi") (omega arith) 100 (omega arith) inode_100_free
        blocks_enough in
    ap (λ r. r.1) e

restart-fs_create_file_example :
    restart blank (fs_create_file installed (codes "/notes") (codes "hi")).0
    ≡ (fs_create_file installed (codes "/notes") (codes "hi")).0
restart-fs_create_file_example =
    restart-fs_create_file blank installed (codes "/notes") (codes "hi") notes_made

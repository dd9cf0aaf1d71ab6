-- ===== src/Fs/Install.antt =====
-- fs/filesystem.c: the installation, the password and the start of the file system.
pub mod Password
use ephemeral_os.Base.{
  ℕ, zero, suc, ◌+◌, ◌*◌, ◌/◌, ◌%◌, ◌^◌, ◌&&◌, Bool, [], ◌∷◌, ◌++◌, ltb, ◌==◌, if◌then◌else◌, set,
  replicate, Bytes, codes, str_eq, u32,
}
use ephemeral_os.Fs.State.{
  Superblock, Fs, fs_magic, fs_version, max_inodes, max_blocks, type_dir, zero_superblock,
  zero_inode, sync_superblock, sync_inode_table, sync_block_bitmap, load_superblock,
  load_inode_table, load_block_bitmap,
}
use ephemeral_os.Fs.Bitmap.{set_bit}
use ephemeral_os.Fs.Dir.{write_dir}
use ephemeral_os.Fs.Create.{new_dir, fs_create_dir}

-- A `char` is signed: a byte above 127 adds its value less 256.
abbrev pub char_value : ℕ → ℕ
char_value c = if ltb c 128 then c else c + 0xffff_ff00

unfoldable pub hash_from : ℕ → Bytes → ℕ
hash_from hash [] = hash
hash_from hash (c ∷ cs) = hash_from (u32 (hash * 32 + hash + char_value c)) cs

unfoldable pub simple_hash : Bytes → ℕ
unfolding hash_from
simple_hash str = hash_from 5381 str

-- `(hash >> (i % 32)) & 0xFF` for `i` from `i` on.
unfoldable pub hash_bytes_from : ℕ → ℕ → ℕ → Bytes
hash_bytes_from hash zero i = []
hash_bytes_from hash (suc n) i = (hash / 2 ^ (i % 32) % 256) ∷ hash_bytes_from hash n (i + 1)

unfoldable pub hash_bytes : Bytes → Bytes
unfolding hash_bytes_from simple_hash
hash_bytes password = hash_bytes_from (simple_hash password) 32 0

-- `memcmp(hash_bytes, superblock.password_hash, 32) == 0`
unfoldable pub fs_verify_password : Fs → Bytes → Bool
unfolding hash_bytes str_eq
fs_verify_password fs password = str_eq (hash_bytes password) fs.superblock.password_hash

abbrev pub fs_get_hostname : Fs → Bytes
fs_get_hostname fs = fs.superblock.hostname

abbrev pub fs_get_username : Fs → Bytes
fs_get_username fs = fs.superblock.username

unfoldable pub fs_init : Fs → Fs
unfolding load_superblock load_inode_table load_block_bitmap
fs_init fs = load_block_bitmap (load_inode_table (load_superblock fs))

unfoldable pub fs_check_installed : Fs → Fs × Bool
unfolding load_superblock
fs_check_installed fs =
    let s = (load_superblock fs).superblock in
    (load_superblock fs, s.magic == fs_magic && (s.version == fs_version && s.installed == 1))

unfoldable pub sync_all : Fs → Fs
unfolding sync_superblock sync_inode_table sync_block_bitmap
sync_all fs = sync_block_bitmap (sync_inode_table (sync_superblock fs))

-- The superblock that both `fs_format` and `fs_install` start from.
abbrev pub empty_superblock : Superblock
empty_superblock = record zero_superblock {
  magic = fs_magic;
  version = fs_version;
  total_inodes = max_inodes;
  total_blocks = max_blocks;
  free_inodes = max_inodes;
  free_blocks = max_blocks;
}

unfoldable pub fs_format : Fs → Fs
unfolding sync_all
fs_format fs = sync_all (record fs {
  superblock = empty_superblock;
  inode_table = replicate max_inodes zero_inode;
  block_bitmap = replicate 64 0;
})

-- `fs_install` up to the first writes: the root directory, inode 0, in block 1.
unfoldable pub install_root : Fs → Bytes → Bytes → Bytes → Fs
unfolding hash_bytes set_bit write_dir sync_all
install_root fs hostname username password =
    let root = record zero_inode { type = type_dir; blocks = set zero_inode.blocks 0 1 } in
    let fs1 = record fs {
      superblock = record empty_superblock {
        hostname = hostname;
        username = username;
        password_hash = hash_bytes password;
        free_inodes = 199;
        free_blocks = 511;
      };
      inode_table = set (replicate max_inodes zero_inode) 0 root;
      block_bitmap = set_bit (replicate 64 0) 1;
    } in
    let fs2 = write_dir fs1 1 (new_dir 0 0) in
    let fs3 = record fs2 { superblock = record (fs2.superblock) { installed = 1 } } in
    fs_init (sync_all fs3)

-- `fs_create_dir` where its result is not looked at.
abbrev pub make : Bytes → Fs → Fs
make path fs = (fs_create_dir fs path).0

unfoldable pub fs_install : Fs → Bytes → Bytes → Bytes → Fs
unfolding install_root fs_create_dir sync_all fs_init
fs_install fs hostname username password =
    let fs1 = install_root fs hostname username password in
    let fs2 = make (codes "/bin") fs1 in
    let fs3 = make (codes "/home") fs2 in
    let fs4 = make (codes "/tmp") fs3 in
    let fs5 = make (codes "/etc") fs4 in
    let fs6 = make (codes "/var") fs5 in
    let user_home = codes "/home/" ++ username in
    let fs7 = make user_home fs6 in
    let fs8 = make (user_home ++ codes "/documents") fs7 in
    let fs9 = make (user_home ++ codes "/downloads") fs8 in sync_all fs9

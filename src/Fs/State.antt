-- ===== src/Fs/State.antt =====
-- fs/filesystem.h and the static state of fs/filesystem.c. The drive keeps the superblock, the inode
-- table and the bitmap as the values that were last written to their sectors, and every data sector
-- as its 512 bytes. The drive answers each request; its time-outs belong to drivers/disk.c.
pub mod Blocks
use ephemeral_os.Base.{
  ℕ, ◌+◌, ◌||◌, List, [], leb, ◌==◌, if◌then◌else◌, get_or, set, take, replicate, Bytes,
}

abbrev pub fs_magic : ℕ
fs_magic = 0x45504853

abbrev pub fs_version : ℕ
fs_version = 2

abbrev pub data_start_sector : ℕ
data_start_sector = 201

abbrev pub max_inodes : ℕ
max_inodes = 200

abbrev pub max_blocks : ℕ
max_blocks = 512

abbrev pub block_size : ℕ
block_size = 512

abbrev pub max_filename : ℕ
max_filename = 28

abbrev pub max_file_size : ℕ
max_file_size = 16384

abbrev pub direct_blocks : ℕ
direct_blocks = 12

abbrev pub max_dir_entries : ℕ
max_dir_entries = 15

-- INODE_TYPE_FREE, INODE_TYPE_FILE, INODE_TYPE_DIR
abbrev pub type_free : ℕ
type_free = 0

abbrev pub type_file : ℕ
type_file = 1

abbrev pub type_dir : ℕ
type_dir = 2

pub record Superblock : Type 0 where
  pub magic : ℕ
  pub version : ℕ
  pub total_inodes : ℕ
  pub total_blocks : ℕ
  pub free_inodes : ℕ
  pub free_blocks : ℕ
  pub root_inode : ℕ
  pub installed : ℕ
  pub hostname : Bytes
  pub username : Bytes
  pub password_hash : Bytes

pub record Inode : Type 0 where
  pub type : ℕ
  pub size : ℕ
  pub blocks : List ℕ
  pub parent_inode : ℕ

pub record Disk : Type 0 where
  pub superblock : Superblock
  pub inode_table : List Inode
  pub block_bitmap : Bytes
  pub sectors : ℕ → Bytes

pub record Fs : Type 0 where
  pub superblock : Superblock
  pub inode_table : List Inode
  pub block_bitmap : Bytes
  pub disk : Disk

-- What `memset` leaves.
abbrev pub zero_superblock : Superblock
zero_superblock = record {
  magic = 0;
  version = 0;
  total_inodes = 0;
  total_blocks = 0;
  free_inodes = 0;
  free_blocks = 0;
  root_inode = 0;
  installed = 0;
  hostname = [];
  username = [];
  password_hash = replicate 32 0;
}

abbrev pub zero_inode : Inode
zero_inode = record {
  type = type_free;
  size = 0;
  blocks = replicate direct_blocks 0;
  parent_inode = 0;
}

-- `inode_table[i]`. The C code reads outside the table when `i` is out of range; here that is a free
-- inode, and a write there is lost.
abbrev pub inode_at : Fs → ℕ → Inode
inode_at fs i = get_or fs.inode_table i zero_inode

abbrev pub set_inode : Fs → ℕ → Inode → Fs
set_inode fs i n = record fs { inode_table = set fs.inode_table i n }

-- `inode_table[i].blocks[0]`
abbrev pub first_block : Fs → ℕ → ℕ
first_block fs i = get_or (inode_at fs i).blocks 0 0

unfoldable pub sync_superblock : Fs → Fs
sync_superblock fs = record fs { disk = record (fs.disk) { superblock = fs.superblock } }

unfoldable pub sync_inode_table : Fs → Fs
sync_inode_table fs = record fs { disk = record (fs.disk) { inode_table = fs.inode_table } }

unfoldable pub sync_block_bitmap : Fs → Fs
sync_block_bitmap fs = record fs { disk = record (fs.disk) { block_bitmap = fs.block_bitmap } }

unfoldable pub load_superblock : Fs → Fs
load_superblock fs = record fs { superblock = fs.disk.superblock }

unfoldable pub load_inode_table : Fs → Fs
load_inode_table fs = record fs { inode_table = fs.disk.inode_table }

unfoldable pub load_block_bitmap : Fs → Fs
load_block_bitmap fs = record fs { block_bitmap = fs.disk.block_bitmap }

-- `disk_read_sectors` and `disk_write_sectors` of one data sector. A buffer longer than a sector
-- gives its first 512 bytes.
abbrev pub write_sector : Disk → ℕ → Bytes → Disk
write_sector d lba buffer = record d {
  sectors = λ l. if l == lba then take block_size buffer else d.sectors l;
}

unfoldable pub read_inode_block : Fs → ℕ → Bytes
read_inode_block fs block_num =
    if block_num == 0 || leb max_blocks block_num
    then replicate block_size 0
    else fs.disk.sectors (data_start_sector + block_num)

unfoldable pub write_inode_block : Fs → ℕ → Bytes → Fs
write_inode_block fs block_num buffer =
    if block_num == 0 || leb max_blocks block_num
    then fs
    else record fs { disk = write_sector fs.disk (data_start_sector + block_num) buffer }

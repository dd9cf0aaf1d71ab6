-- ===== src/Fs/Inodes.antt =====
-- fs/filesystem.c: `allocate_inode` and `free_inode`.
pub mod Laws
use ephemeral_os.Base.{
  ℕ, zero, suc, ◌+◌, List, [], ◌∷◌, leb, ◌==◌, if◌then◌else◌, replicate, u32, no_index,
}
use ephemeral_os.Fs.State.{
  Fs, Inode, max_inodes, direct_blocks, type_free, type_file, inode_at, set_inode,
}
use ephemeral_os.Fs.Bitmap.{mark_block_free}

-- A fresh file with no block.
abbrev pub new_inode : Inode
new_inode = record {
  type = type_file;
  size = 0;
  blocks = replicate direct_blocks 0;
  parent_inode = 0;
}

unfoldable pub take_inode : Fs → ℕ → Fs
take_inode fs i =
    let fs' = set_inode fs i new_inode in
    record fs' {
      superblock = record (fs'.superblock) {
        free_inodes = u32 (fs'.superblock.free_inodes + 0xffff_ffff);
      };
    }

-- The loop of `allocate_inode`, with the rounds that are left and the inode that it looks at.
unfoldable pub allocate_inode_from : Fs → ℕ → ℕ → Fs × ℕ
unfolding take_inode
allocate_inode_from fs zero i = (fs, no_index)
allocate_inode_from fs (suc n) i =
    let rest = allocate_inode_from fs n (i + 1) in
    if (inode_at fs i).type == type_free then (take_inode fs i, i) else rest

unfoldable pub allocate_inode : Fs → Fs × ℕ
allocate_inode fs = allocate_inode_from fs max_inodes 0

-- The loop of `free_inode` over the block pointers: the state, and the pointers that are left.
unfoldable pub free_blocks_of : Fs → List ℕ → Fs × List ℕ
free_blocks_of fs [] = (fs, [])
free_blocks_of fs (b ∷ bs) =
    let r = free_blocks_of (if b == 0 then fs else mark_block_free fs b) bs in (r.0, 0 ∷ r.1)

unfoldable pub free_inode : Fs → ℕ → Fs
unfolding free_blocks_of
free_inode fs i =
    if leb max_inodes i
    then fs
    else let n = inode_at fs i in
      let r = free_blocks_of fs n.blocks in
      let fs' = set_inode r.0 i (record n { type = type_free; size = 0; blocks = r.1 }) in
      record fs' {
        superblock = record (fs'.superblock) { free_inodes = u32 (fs'.superblock.free_inodes + 1) };
      }

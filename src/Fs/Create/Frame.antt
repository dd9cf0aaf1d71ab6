-- ===== src/Fs/Create/Frame.antt =====
-- fs/filesystem.c: what `fs_create_dir` leaves alone in the superblock.
use ephemeral_os.Fs.Stable.{Stable, retyped, fs_create_dir-Stable}
use ephemeral_os.Fs.State.{
  sync_superblock, sync_inode_table, sync_block_bitmap, Fs, Superblock, zero_inode,
  write_inode_block,
}
use ephemeral_os.Base.{
  ℕ, zero, suc, ◌+◌, ◌≡◌, refl, ◌∙◌, List, [], ◌∷◌, arith, Bytes, ◌==◌, if◌then◌else◌, get_or,
}
use ephemeral_os.Fs.Create.{fs_create_dir, set_block}
use ephemeral_os.Fs.Bitmap.{mark_block_used, mark_block_free, allocate_from, allocate_block}
use ephemeral_os.Fs.Inodes.{allocate_inode_from, allocate_inode, free_blocks_of, free_inode}

-- The superblock but for its two counts.
unfoldable pub identity : Fs → ℕ × ℕ × ℕ × ℕ × ℕ × ℕ × Bytes × Bytes × Bytes
identity fs = (
  s.magic, s.version, s.total_inodes, s.total_blocks, s.root_inode, s.installed, s.hostname,
  s.username, s.password_hash,
)
  where
    s : Superblock
    s = fs.superblock

mark_block_used-identity : (fs : Fs) (n : ℕ) → identity (mark_block_used fs n) ≡ identity fs
unfolding mark_block_used identity
mark_block_used-identity fs n = ground arith

mark_block_free-identity : (fs : Fs) (n : ℕ) → identity (mark_block_free fs n) ≡ identity fs
unfolding mark_block_free identity
mark_block_free-identity fs n = ground arith

allocate_from-identity : (fs : Fs) (n i : ℕ) → identity (allocate_from fs n i).0 ≡ identity fs
unfolding allocate_from
allocate_from-identity fs zero i = refl
allocate_from-identity fs (suc n) i =
    ground (arith, allocate_from-identity fs n (i + 1), mark_block_used-identity fs i)

allocate_block-identity : (fs : Fs) → identity (allocate_block fs).0 ≡ identity fs
unfolding allocate_block
allocate_block-identity fs = allocate_from-identity fs 512 0

allocate_inode_from-identity :
    (fs : Fs) (n i : ℕ) → identity (allocate_inode_from fs n i).0 ≡ identity fs
unfolding allocate_inode_from identity
allocate_inode_from-identity fs zero i = refl
allocate_inode_from-identity fs (suc n) i =
    ground (arith, allocate_inode_from-identity fs n (i + 1))

allocate_inode-identity : (fs : Fs) → identity (allocate_inode fs).0 ≡ identity fs
unfolding allocate_inode
allocate_inode-identity fs = allocate_inode_from-identity fs 200 0

free_blocks_of-identity : (fs : Fs) (bs : List ℕ) → identity (free_blocks_of fs bs).0 ≡ identity fs
unfolding free_blocks_of
free_blocks_of-identity fs [] = refl
free_blocks_of-identity fs (b ∷ bs) =
    free_blocks_of-identity (if b == 0 then fs else mark_block_free fs b) bs
    ∙ ground (arith, mark_block_free-identity fs b)

free_inode-identity : (fs : Fs) (i : ℕ) → identity (free_inode fs i) ≡ identity fs
unfolding free_inode identity
free_inode-identity fs i =
    ground (arith, free_blocks_of-identity fs (get_or fs.inode_table i zero_inode).blocks)

-- The superblock has that identity.
abbrev pub Identified : ℕ × ℕ × ℕ × ℕ × ℕ × ℕ × Bytes × Bytes × Bytes → Fs → Type 0
Identified t fs = identity fs ≡ t

describe-identity :
    (fs : Fs) (i type size parent : ℕ) → identity (retyped fs i type size parent) ≡ identity fs
unfolding identity
describe-identity fs i type size parent = refl

set_block-identity : (fs : Fs) (i k b : ℕ) → identity (set_block fs i k b) ≡ identity fs
unfolding set_block identity
set_block-identity fs i k b = refl

write_inode_block-identity :
    (fs : Fs) (b : ℕ) (buffer : Bytes) → identity (write_inode_block fs b buffer) ≡ identity fs
unfolding write_inode_block identity
write_inode_block-identity fs b buffer = ground arith

pub Identified-Stable : (t : ℕ × ℕ × ℕ × ℕ × ℕ × ℕ × Bytes × Bytes × Bytes) → Stable (Identified t)
unfolding identity sync_inode_table sync_block_bitmap sync_superblock
Identified-Stable t = record {
  take = λ fs h. allocate_inode-identity fs ∙ h;
  describe = λ fs i type size parent h. describe-identity fs i type size parent ∙ h;
  release = λ fs i h. free_inode-identity fs i ∙ h;
  give = λ fs i k e h.
      set_block-identity (allocate_block fs).0 i k (allocate_block fs).1
      ∙ allocate_block-identity fs
      ∙ h;
  write = λ fs b buffer h. write_inode_block-identity fs b buffer ∙ h;
  sync_table = λ fs h. h;
  sync_bitmap = λ fs h. h;
  sync_super = λ fs h. h;
}

-- `fs_create_dir` changes nothing of the superblock in memory but its two counts.
pub fs_create_dir-identity :
    (fs : Fs) (path : Bytes) → identity (fs_create_dir fs path).0 ≡ identity fs
fs_create_dir-identity fs path =
    fs_create_dir-Stable (Identified (identity fs)) (Identified-Stable (identity fs)) fs path refl

-- ===== src/Fs/State/Blocks.antt =====
-- fs/filesystem.c: a block that is written, read back.
use ephemeral_os.Base.{ℕ, ◌<◌, ◌≡◌, refl, ◌≢◌, arith, Bytes, ◌==◌, if◌then◌else◌, take, replicate}
use ephemeral_os.Fs.State.{Fs, read_inode_block, write_inode_block}

-- A block of the data area other than block 0 reads as the sector that was written to it last, and
-- the other blocks read as before.
pub read-write_inode_block :
    (fs : Fs) (block other : ℕ) (buffer : Bytes)
    → block ≢ 0
    → block < 512
    → read_inode_block (write_inode_block fs block buffer) other
      ≡ (if block == other then take 512 buffer else read_inode_block fs other)
unfolding read_inode_block write_inode_block
read-write_inode_block fs block other buffer nz l = ground arith

-- Block 0 is never written: it reads as zeros, whatever is stored in it.
pub write_zero_lost :
    (fs : Fs) (buffer : Bytes)
    → (write_inode_block fs 0 buffer ≡ fs)
      × (read_inode_block (write_inode_block fs 0 buffer) 0 ≡ replicate 512 0)
unfolding read_inode_block write_inode_block
write_zero_lost fs buffer = (refl, refl)

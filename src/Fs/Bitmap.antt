-- ===== src/Fs/Bitmap.antt =====
-- fs/filesystem.c: the block bitmap, `is_block_free`, `mark_block_used`, `mark_block_free` and
-- `allocate_block`.
pub mod Bits
pub mod Allocate
use ephemeral_os.Base.{
  ℕ, zero, suc, ◌+◌, ◌-◌, ◌/◌, ◌%◌, ◌^◌, Bool, false, leb, ◌==◌, if◌then◌else◌, get_or, set,
  bit_and, bit_or, Bytes, u32, no_index,
}
use ephemeral_os.Fs.State.{Fs, max_blocks}

unfoldable pub is_block_free : Bytes → ℕ → Bool
is_block_free bitmap n =
    if leb max_blocks n then false else bit_and (get_or bitmap (n / 8) 0) (2 ^ (n % 8)) == 0

-- `block_bitmap[byte_index] |= (1 << bit_index)`
unfoldable pub set_bit : Bytes → ℕ → Bytes
set_bit bitmap n = set bitmap (n / 8) (bit_or (get_or bitmap (n / 8) 0) (2 ^ (n % 8)))

-- `block_bitmap[byte_index] &= ~(1 << bit_index)`
unfoldable pub clear_bit : Bytes → ℕ → Bytes
clear_bit bitmap n = set bitmap (n / 8) (bit_and (get_or bitmap (n / 8) 0) (255 - 2 ^ (n % 8)))

unfoldable pub mark_block_used : Fs → ℕ → Fs
mark_block_used fs n = if leb max_blocks n then fs else record fs {
  block_bitmap = set_bit fs.block_bitmap n;
  superblock = record (fs.superblock) {
    free_blocks = u32 (fs.superblock.free_blocks + 0xffff_ffff);
  };
}

unfoldable pub mark_block_free : Fs → ℕ → Fs
mark_block_free fs n = if leb max_blocks n then fs else record fs {
  block_bitmap = clear_bit fs.block_bitmap n;
  superblock = record (fs.superblock) { free_blocks = u32 (fs.superblock.free_blocks + 1) };
}

-- The loop of `allocate_block`, with the rounds that are left and the block that it looks at.
unfoldable pub allocate_from : Fs → ℕ → ℕ → Fs × ℕ
allocate_from fs zero i = (fs, no_index)
allocate_from fs (suc n) i =
    let rest = allocate_from fs n (i + 1) in
    if is_block_free fs.block_bitmap i then (mark_block_used fs i, i) else rest

unfoldable pub allocate_block : Fs → Fs × ℕ
allocate_block fs = allocate_from fs max_blocks 0

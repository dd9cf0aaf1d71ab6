-- ===== src/Fs/Bitmap/Allocate.antt =====
-- fs/filesystem.c: which block `allocate_block` gives out, and the count of free blocks.
use ephemeral_os.Base.{
  ℕ, zero, suc, ◌+◌, ◌<◌, ◌≤◌, ◌≡◌, refl, true, false, inl, inr, leb, Bool-cases, Bytes, arith,
  no_index, count_below, count_below-le, count_below-none, count_below_drop,
}
use ephemeral_os.Fs.Bitmap.{
  is_block_free, set_bit, mark_block_used, mark_block_free, clear_bit, allocate_from,
  allocate_block,
}
use ephemeral_os.Fs.Bitmap.Bits.{
  IsBitmap, set_bit-IsBitmap, is_block_free-set_bit, clear_bit-IsBitmap, is_block_free-clear_bit,
}
use native.Mathlib.Decide.{ℕ_discrete}
use ephemeral_os.Fs.State.{Fs}

-- Every block from `i` up to, and without, `j` is in use.
abbrev pub AllUsed : Fs → ℕ → ℕ → Type 0
AllUsed fs i j = (m : ℕ) → i ≤ m → m < j → is_block_free fs.block_bitmap m ≡ false

-- What an allocation that looks at the blocks from `i` up to `j` comes to.
pub data Outcome (fs : Fs) (i j : ℕ) (r : Fs × ℕ) : Type 0 where
  disk_full : AllUsed fs i j → r ≡ (fs, no_index) → Outcome fs i j r
  found :
      (b : ℕ)
      → i ≤ b
      → b < j
      → is_block_free fs.block_bitmap b ≡ true
      → AllUsed fs i b
      → r ≡ (mark_block_used fs b, b)
      → Outcome fs i j r

AllUsed-step :
    (fs : Fs) (i j : ℕ)
    → is_block_free fs.block_bitmap i ≡ false
    → AllUsed fs (i + 1) j
    → AllUsed fs i j
AllUsed-step fs i j e u m l k = elim (ℕ_discrete i m) [
  | yes p ↦ rw (← p) e
  | no ne ↦ u m (omega arith) k
]

Outcome-step :
    (fs : Fs) (i j : ℕ) (r : Fs × ℕ)
    → is_block_free fs.block_bitmap i ≡ false
    → Outcome fs (i + 1) j r
    → Outcome fs i j r
Outcome-step fs i j r e (disk_full u p) = disk_full (AllUsed-step fs i j e u) p
Outcome-step fs i j r e (found b l k f u p) = found b (omega arith) k f (AllUsed-step fs i b e u) p

allocate_from-Outcome : (fs : Fs) (n i j : ℕ) → i + n ≡ j → Outcome fs i j (allocate_from fs n i)
unfolding allocate_from
allocate_from-Outcome fs zero i j e = disk_full (λ m l k. absurd (omega arith)) refl
allocate_from-Outcome fs (suc n) i j e = elim (Bool-cases (is_block_free fs.block_bitmap i)) [
  | inl free ↦ found i (omega arith) (omega arith) free (λ m l k. absurd (omega arith)) (rw free)
  | inr used ↦
      rw used (Outcome-step fs i j _ used (allocate_from-Outcome fs n (i + 1) j (omega arith)))
]

-- `allocate_block` either finds every one of the 512 blocks in use, and then changes nothing and
-- answers 0xFFFFFFFF, or answers the lowest free block and marks it used.
pub allocate_block-Outcome : (fs : Fs) → Outcome fs 0 512 (allocate_block fs)
unfolding allocate_block
allocate_block-Outcome fs = allocate_from-Outcome fs 512 0 512 refl

ge : {n : ℕ} → n < 512 → leb 512 n ≡ false
ge h = ground arith

abbrev pub free_count : Bytes → ℕ
free_count bitmap = count_below 512 (is_block_free bitmap)

pub AllUsed-free_count : (fs : Fs) → AllUsed fs 0 512 → free_count fs.block_bitmap ≡ 0
AllUsed-free_count fs u =
    count_below-none 512 (is_block_free fs.block_bitmap) (λ m l. u m (omega arith) l)

-- The bitmap has its 64 bytes, and the superblock counts its free blocks.
pub record IsCounted (fs : Fs) : Type 0 where
  pub bitmap : IsBitmap fs.block_bitmap
  pub counted : fs.superblock.free_blocks ≡ free_count fs.block_bitmap

pub free_count-set_bit :
    (bitmap : Bytes) (n : ℕ)
    → IsBitmap bitmap
    → n < 512
    → is_block_free bitmap n ≡ true
    → free_count bitmap ≡ free_count (set_bit bitmap n) + 1
free_count-set_bit bitmap n w l free =
    count_below_drop 512 n (is_block_free bitmap) (is_block_free (set_bit bitmap n)) l free
      (ground (arith, is_block_free-set_bit bitmap n w l n l))
      (λ m lm ne. ground (arith, is_block_free-set_bit bitmap n w l m lm))

free_count-clear_bit :
    (bitmap : Bytes) (n : ℕ)
    → IsBitmap bitmap
    → n < 512
    → is_block_free bitmap n ≡ false
    → free_count (clear_bit bitmap n) ≡ free_count bitmap + 1
free_count-clear_bit bitmap n w l used =
    count_below_drop 512 n (is_block_free (clear_bit bitmap n)) (is_block_free bitmap) l
      (ground (arith, is_block_free-clear_bit bitmap n w l n l)) used
      (λ m lm ne. ground (arith, is_block_free-clear_bit bitmap n w l m lm))

-- Marking a free block used keeps the count.
pub mark_block_used-IsCounted :
    (fs : Fs) (n : ℕ)
    → is_block_free fs.block_bitmap n ≡ true
    → n < 512
    → IsCounted fs
    → IsCounted (mark_block_used fs n)
unfolding mark_block_used
mark_block_used-IsCounted fs n free l w = rw (ge l) (record {
  bitmap = set_bit-IsBitmap fs.block_bitmap n w.bitmap l;
  counted = omega (
    arith,
    free_count-set_bit fs.block_bitmap n w.bitmap l free,
    count_below-le 512 (is_block_free fs.block_bitmap),
    w.counted,
  );
})

-- Marking a used block free keeps the count.
pub mark_block_free-IsCounted :
    (fs : Fs) (n : ℕ)
    → is_block_free fs.block_bitmap n ≡ false
    → n < 512
    → IsCounted fs
    → IsCounted (mark_block_free fs n)
unfolding mark_block_free
mark_block_free-IsCounted fs n used l w = rw (ge l) (record {
  bitmap = clear_bit-IsBitmap fs.block_bitmap n w.bitmap l;
  counted = omega (
    arith,
    free_count-clear_bit fs.block_bitmap n w.bitmap l used,
    count_below-le 512 (is_block_free (clear_bit fs.block_bitmap n)),
    w.counted,
  );
})

-- `allocate_block` keeps the bitmap's size and the superblock's count of free blocks right.
pub allocate_block-IsCounted : (fs : Fs) → IsCounted fs → IsCounted (allocate_block fs).0
allocate_block-IsCounted fs w = step (allocate_block fs) (allocate_block-Outcome fs)
  where
    step : (r : Fs × ℕ) → Outcome fs 0 512 r → IsCounted r.0
    step r (disk_full u p) = rw p w
    step r (found b l k f u p) = rw p (mark_block_used-IsCounted fs b f k w)

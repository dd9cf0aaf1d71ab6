-- ===== src/Fs/File/Contents.antt =====
-- fs/filesystem.c: what the loop of `fs_create_file` stores, the loop of `fs_read_file` reads back.
use mathlib.Core.Path.{ap₂}
use ephemeral_os.Fs.Lookup.{find_inode_by_path}
use ephemeral_os.Fs.File.{fs_read_file, sector_of, store_blocks, load_blocks, blocks_needed}
use ephemeral_os.Base.{
  subst, take-append_past, ℕ, zero, suc, ◌+◌, ◌-◌, ◌*◌, ◌≤◌, ◌<◌, min, ◌≡◌, refl, ap, ◌∙◌, ◌≢◌,
  true, false, some, List, [], ◌∷◌, ◌++◌, arith, Bytes, ◌==◌, if◌then◌else◌, length, get_or, set,
  take, drop, replicate, length-append, length-set, length-take, length-drop, take-append,
  take-append-drop, get_or-set_self, get_or-set_ne,
}
use ephemeral_os.Fs.State.{Fs, Inode, zero_inode, inode_at, read_inode_block, write_inode_block}
use ephemeral_os.Fs.State.Blocks.{read-write_inode_block}
use ephemeral_os.Fs.Bitmap.{is_block_free, set_bit, mark_block_used, allocate_block}
use ephemeral_os.Fs.Bitmap.Bits.{IsBitmap, set_bit-IsBitmap, is_block_free-set_bit}
use ephemeral_os.Fs.Bitmap.Allocate.{Outcome, disk_full, found, allocate_block-Outcome}
use ephemeral_os.Fs.Create.{set_block}

-- The inode is in the table and has its twelve pointers, the bitmap is one, and block 0 is in use.
pub record IsReady (fs : Fs) (inode : ℕ) : Type 0 where
  pub bitmap : IsBitmap fs.block_bitmap
  pub zero_used : is_block_free fs.block_bitmap 0 ≡ false
  pub in_table : inode < length fs.inode_table
  pub pointers : length (inode_at fs inode).blocks ≡ 12

-- One round of the loop, once block `b` is found.
unfoldable pub place : Fs → ℕ → ℕ → ℕ → Bytes → Fs
place fs inode k b rest =
    write_inode_block (set_block (mark_block_used fs b) inode k b) b (sector_of rest)

module _ (fs : Fs) (inode k b : ℕ) (rest : Bytes) (lt : b < 512) where
  pub place-bitmap : (place fs inode k b rest).block_bitmap ≡ set_bit fs.block_bitmap b
  unfolding place write_inode_block set_block mark_block_used
  place-bitmap = ground arith

  pub place-inode_table :
      (place fs inode k b rest).inode_table
      ≡ set fs.inode_table inode
          (record (inode_at fs inode) { blocks = set (inode_at fs inode).blocks k b })
  unfolding place write_inode_block set_block mark_block_used
  place-inode_table = ground arith

  place-read :
      b ≢ 0
      → (c : ℕ)
      → read_inode_block (place fs inode k b rest) c
        ≡ (if b == c then take 512 (sector_of rest) else read_inode_block fs c)
  unfolding place set_block mark_block_used read_inode_block
  place-read nz c =
      read-write_inode_block (set_block (mark_block_used fs b) inode k b) b c (sector_of rest) nz lt
      ∙ ground arith

module _ (fs : Fs) (inode k b : ℕ) (rest : Bytes) (lt : b < 512)
    (free : is_block_free fs.block_bitmap b ≡ true) (w : IsReady fs inode) where
  free_ne_zero : b ≢ 0
  free_ne_zero e = ground (arith, w.zero_used)

  pub place-inode :
      inode_at (place fs inode k b rest) inode
      ≡ record (inode_at fs inode) { blocks = set (inode_at fs inode).blocks k b }
  place-inode =
      rw (place-inode_table fs inode k b rest lt)
        (get_or-set_self fs.inode_table inode _ zero_inode w.in_table)

  pub place-IsReady : IsReady (place fs inode k b rest) inode
  place-IsReady = record {
    bitmap =
        rw (place-bitmap fs inode k b rest lt) (set_bit-IsBitmap fs.block_bitmap b w.bitmap lt);
    zero_used = rw (place-bitmap fs inode k b rest lt) (
        ground (
          arith,
          is_block_free-set_bit fs.block_bitmap b w.bitmap lt 0,
          w.zero_used,
          free_ne_zero,
        ));
    in_table =
        rw (place-inode_table fs inode k b rest lt)
          (omega (arith, length-set {0} fs.inode_table inode _, w.in_table));
    pointers = rw place-inode (length-set (inode_at fs inode).blocks k b ∙ w.pointers);
  }

-- A loop that runs to its end found a block for its first round.
pub data Round (fs : Fs) (inode n k : ℕ) (rest : Bytes) (fs' : Fs) : Type 0 where
  round :
      (b : ℕ)
      → b < 512
      → is_block_free fs.block_bitmap b ≡ true
      → store_blocks (place fs inode k b rest) inode n (k + 1) (drop 512 rest) ≡ (fs', true)
      → Round fs inode n k rest fs'

pub store_blocks-Round :
    (fs : Fs) (inode n k : ℕ) (rest : Bytes) (fs' : Fs)
    → store_blocks fs inode (suc n) k rest ≡ (fs', true)
    → Round fs inode n k rest fs'
unfolding store_blocks place
store_blocks-Round fs inode n k rest fs' e = go (allocate_block fs) refl (allocate_block-Outcome fs)
  where
    go : (r : Fs × ℕ) → allocate_block fs ≡ r → Outcome fs 0 512 r → Round fs inode n k rest fs'
    go r q (disk_full u p) = absurd (ground (arith, q, p))
    go r q (found b l lt f u p) = round b lt f (ground (arith, q, p))

-- What the rest of the loop leaves alone: the blocks in use, and the pointers before `k`.
pub record Kept (fs fs' : Fs) (inode k : ℕ) : Type 0 where
  pub reads :
      (c : ℕ)
      → c < 512
      → is_block_free fs.block_bitmap c ≡ false
      → read_inode_block fs' c ≡ read_inode_block fs c
  pub earlier :
      (j : ℕ)
      → j < k
      → get_or (inode_at fs' inode).blocks j 0 ≡ get_or (inode_at fs inode).blocks j 0

Kept-place :
    (fs fs' : Fs) (inode k b : ℕ) (rest : Bytes)
    → b < 512
    → is_block_free fs.block_bitmap b ≡ true
    → IsReady fs inode
    → Kept (place fs inode k b rest) fs' inode (k + 1)
    → Kept fs fs' inode k
Kept-place fs fs' inode k b rest lt f w ih = record {
  reads = λ c l u.
      ih.reads c l (
        ground (
          arith,
          place-bitmap fs inode k b rest lt,
          is_block_free-set_bit fs.block_bitmap b w.bitmap lt c l,
        ))
      ∙ ground (arith, place-read fs inode k b rest lt (free_ne_zero fs inode k b rest lt f w) c);
  earlier = λ j l.
      ih.earlier j (omega arith)
      ∙ ground (
        arith,
        place-inode fs inode k b rest lt f w,
        get_or-set_ne (inode_at fs inode).blocks k j b 0,
      );
}

Kept-refl : (fs : Fs) (inode k : ℕ) → Kept fs fs inode k
Kept-refl fs inode k = record { reads = λ c l u. refl; earlier = λ j l. refl }

pub store_blocks-zero :
    (fs fs' : Fs) (inode k : ℕ) (rest : Bytes)
    → store_blocks fs inode zero k rest ≡ (fs', true)
    → fs ≡ fs'
unfolding store_blocks
store_blocks-zero fs fs' inode k rest e = ap (λ r. r.0) e

pub store_blocks-Kept :
    (n k : ℕ) (fs : Fs) (inode : ℕ) (rest : Bytes) (fs' : Fs)
    → IsReady fs inode
    → store_blocks fs inode n k rest ≡ (fs', true)
    → Kept fs fs' inode k
store_blocks-Kept zero k fs inode rest fs' w e =
    subst (λ s. Kept fs s inode k) (store_blocks-zero fs fs' inode k rest e) (Kept-refl fs inode k)
store_blocks-Kept (suc n) k fs inode rest fs' w e =
    elim (store_blocks-Round fs inode n k rest fs' e) [
      | round b lt f later ↦ Kept-place fs fs' inode k b rest lt f w (
          store_blocks-Kept n (k + 1) (place fs inode k b rest) inode (drop 512 rest) fs'
            (place-IsReady fs inode k b rest lt f w) later)
    ]

-- The sector of the data that remains begins with its first 512 bytes, or all of it.
take-sector_of :
    (rest : Bytes) → take (min 512 (length rest)) (take 512 (sector_of rest)) ≡ take 512 rest
take-sector_of rest =
    let zeros : Bytes = replicate (512 - length rest) 0 in
    let fits : length (take 512 rest) ≤ 512 = omega (arith, length-take {0} 512 rest) in
    subst (λ m. take m (take 512 (take 512 rest ++ zeros)) ≡ take 512 rest) (length-take 512 rest)
      (ap (take (length (take 512 rest))) (take-append_past 512 (take 512 rest) zeros fits)
        ∙ take-append (take 512 rest) (take (512 - length (take 512 rest)) zeros))

-- What one round stores, once the loop is over.
read-round :
    (fs fs' : Fs) (inode k b : ℕ) (rest : Bytes)
    → b < 512
    → k < 12
    → is_block_free fs.block_bitmap b ≡ true
    → IsReady fs inode
    → Kept (place fs inode k b rest) fs' inode (k + 1)
    → read_inode_block fs' (get_or (inode_at fs' inode).blocks k 0) ≡ take 512 (sector_of rest)
read-round fs fs' inode k b rest lt kl f w kept =
    ap (read_inode_block fs') pointer
    ∙ kept.reads b lt used
    ∙ ground (arith, place-read fs inode k b rest lt (free_ne_zero fs inode k b rest lt f w) b)
  where
    pointer : get_or (inode_at fs' inode).blocks k 0 ≡ b
    pointer =
        kept.earlier k (omega arith)
        ∙ ap (λ n. get_or n.blocks k 0) (place-inode fs inode k b rest lt f w)
        ∙ get_or-set_self (inode_at fs inode).blocks k b 0 (omega (arith, w.pointers))

    used : is_block_free (place fs inode k b rest).block_bitmap b ≡ false
    used = ground (
      arith,
      place-bitmap fs inode k b rest lt,
      is_block_free-set_bit fs.block_bitmap b w.bitmap lt b lt,
    )

-- Run to its end on at most `512 * n` bytes, the loop that stores them leaves the inode with pointers
-- from which the loop that reads gives the same bytes.
load-store_blocks :
    (n k : ℕ) (fs : Fs) (inode : ℕ) (rest : Bytes) (fs' : Fs)
    → k + n ≤ 12
    → length rest ≤ 512 * n
    → IsReady fs inode
    → store_blocks fs inode n k rest ≡ (fs', true)
    → load_blocks fs' (inode_at fs' inode).blocks n k (length rest) ≡ rest
unfolding load_blocks
load-store_blocks zero k fs inode [] fs' kn l w e = refl
load-store_blocks zero k fs inode (c ∷ cs) fs' kn l w e = absurd (omega arith)
load-store_blocks (suc n) k fs inode rest fs' kn l w e =
    elim (store_blocks-Round fs inode n k rest fs' e) [
      | round b lt f later ↦
          let ready = place-IsReady fs inode k b rest lt f w in
          let kept =
            store_blocks-Kept n (k + 1) (place fs inode k b rest) inode (drop 512 rest) fs' ready
              later in
          let left : length rest - min 512 (length rest) ≡ length (drop 512 rest) =
            omega (arith, length-drop {0} 512 rest) in
          let fits : length (drop 512 rest) ≤ 512 * n = omega (arith, length-drop {0} 512 rest) in
          ap₂ ◌++◌
            (ap (take (min 512 (length rest)))
                (read-round fs fs' inode k b rest lt (omega arith) f w kept)
              ∙ take-sector_of rest)
            (ap (load_blocks fs' (inode_at fs' inode).blocks n (k + 1)) left
              ∙ load-store_blocks n (k + 1) (place fs inode k b rest) inode (drop 512 rest) fs'
                  (omega arith) fits ready later)
          ∙ take-append-drop 512 rest
    ]

-- From a state where the inode is in the table and has its twelve pointers, the bitmap has its 64
-- bytes and block 0 is in use: data of at most 6144 bytes, twelve blocks, that the loop of
-- `fs_create_file` has stored to its end comes back whole from the loop of `fs_read_file`.
pub load-store :
    (fs fs' : Fs) (inode : ℕ) (file : Bytes)
    → length file ≤ 6144
    → IsReady fs inode
    → store_blocks fs inode (blocks_needed (length file)) 0 file ≡ (fs', true)
    → load_blocks fs' (inode_at fs' inode).blocks (blocks_needed (length file)) 0 (length file)
      ≡ file
load-store fs fs' inode file l w e =
    load-store_blocks (blocks_needed (length file)) 0 fs inode file fs' (omega arith) (omega arith)
      w e

length-load_blocks :
    (n k left : ℕ) (fs : Fs) (blocks : List ℕ) → length (load_blocks fs blocks n k left) ≤ 512 * n
unfolding load_blocks
length-load_blocks zero k left fs blocks = omega arith
length-load_blocks (suc n) k left fs blocks = omega (
  arith,
  length-append {0} (take (min 512 left) (read_inode_block fs (get_or blocks k 0)))
      (load_blocks fs blocks n (k + 1) (left - min 512 left)),
  length-take {0} (min 512 left) (read_inode_block fs (get_or blocks k 0)),
  length-load_blocks n (k + 1) (left - min 512 left) fs blocks,
)

-- Whatever size it answers, `fs_read_file` fills in at most 6144 bytes.
pub length-fs_read_file :
    (fs : Fs) (path : Bytes) (max_size : ℕ) {size : ℕ} {file : Bytes}
    → fs_read_file fs path max_size ≡ some (size, file)
    → length file ≤ 6144
unfolding fs_read_file
length-fs_read_file fs path max_size e =
    let n : Inode = inode_at fs (find_inode_by_path fs path) in
    let size : ℕ = min n.size max_size in
    ground (arith, length-load_blocks (blocks_needed size) 0 size fs n.blocks)

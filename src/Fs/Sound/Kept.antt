-- ===== src/Fs/Sound/Kept.antt =====
-- fs/filesystem.c: the operations on paths keep the ownership of blocks sound.
use ephemeral_os.Base.{
  subst, ℕ, ◌<◌, ◌≡◌, refl, sym, ap, ◌∙◌, ◌≢◌, ◌⊎◌, inl, inr, true, false, ◌||◌, List, arith, Bytes,
  no_index, leb, ◌==◌, if◌then◌else◌, Bool-cases, get_or, set,
}
use ephemeral_os.Fs.State.{
  Fs, Inode, inode_at, set_inode, zero_inode, write_inode_block, sync_inode_table,
  sync_block_bitmap, sync_superblock,
}
use ephemeral_os.Fs.Bitmap.{is_block_free, mark_block_used, set_bit, allocate_block}
use ephemeral_os.Fs.Bitmap.Bits.{is_block_free-set_bit, get_or-replicate}
use ephemeral_os.Fs.Bitmap.Allocate.{
  IsCounted, Outcome, disk_full, found, allocate_block-Outcome, mark_block_used-IsCounted,
}
use ephemeral_os.Fs.Inodes.{allocate_inode, take_inode, new_inode}
use ephemeral_os.Fs.Inodes.Laws.{InodeOutcome, table_full, taken, allocate_inode-InodeOutcome}
use ephemeral_os.Fs.Create.{set_block, fs_create_dir}
use ephemeral_os.Fs.File.{fs_create_file, fs_delete_file}
use ephemeral_os.Fs.Stable.{
  Stable, fs_create_dir-Stable, fs_create_file-Stable, fs_delete_file-Stable,
}
use ephemeral_os.Fs.Sound.{pointer, IsSound, Fewer, Fewer-IsSound, get_or-set_cases}
use ephemeral_os.Fs.Sound.Release.{free_inode-IsSound}

-- A table in which one inode was replaced by one whose pointers are its old ones, or none.
set_inode-Fewer :
    (fs : Fs) (i : ℕ) (n : Inode)
    → ((k : ℕ) → (get_or n.blocks k 0 ≡ pointer fs i k) ⊎ (get_or n.blocks k 0 ≡ 0))
    → Fewer fs (set_inode fs i n)
set_inode-Fewer fs i n h j k = elim (get_or-set_cases fs.inode_table i j n zero_inode) [
  | inl p ↦ inl (ap blocks_at p)
  | inr (e, p) ↦ elim (h k) [
    | inl q ↦ inl (ap blocks_at p ∙ q ∙ ap (λ j. pointer fs j k) e)
    | inr z ↦ inr (ap blocks_at p ∙ z)
  ]
]
  where
    blocks_at : Inode → ℕ
    blocks_at n = get_or n.blocks k 0

module _ (fs : Fs) (b : ℕ) (l : b < 512) where
  mark_block_used-parts :
      ((mark_block_used fs b).block_bitmap ≡ set_bit fs.block_bitmap b)
      × ((mark_block_used fs b).inode_table ≡ fs.inode_table)
  unfolding mark_block_used
  mark_block_used-parts = ground arith

module _ (fs : Fs) (i k b : ℕ) (l : b < 512) (free : is_block_free fs.block_bitmap b ≡ true)
    (w : IsSound fs) where
  unfoldable pub given : Fs
  unfolding set_block
  given = set_block (mark_block_used fs b) i k b

  given-pointer :
      (j m : ℕ)
      → (pointer given j m ≡ pointer fs j m) ⊎ ((i ≡ j) × (k ≡ m) × (pointer given j m ≡ b))
  unfolding given
  given-pointer j m =
      elim (get_or-set_cases (mark_block_used fs b).inode_table i j pointed zero_inode) [
        | inl p ↦ inl (ap blocks_at p ∙ before j)
        | inr (e, p) ↦ elim (get_or-set_cases (inode_at (mark_block_used fs b) i).blocks k m b 0) [
          | inl q ↦ inl (ap blocks_at p ∙ q ∙ before i ∙ ap (λ j. pointer fs j m) e)
          | inr (f, q) ↦ inr (e, f, ap blocks_at p ∙ q)
        ]
      ]
    where
      blocks_at : Inode → ℕ
      blocks_at n = get_or n.blocks m 0

      pointed : Inode
      pointed = record (inode_at (mark_block_used fs b) i) {
        blocks = set (inode_at (mark_block_used fs b) i).blocks k b;
      }

      before : (j : ℕ) → pointer (mark_block_used fs b) j m ≡ pointer fs j m
      before j =
          ap (λ (t : List Inode). get_or (get_or t j zero_inode).blocks m 0)
            (mark_block_used-parts fs b l).1

  given_free :
      (m : ℕ)
      → m < 512
      → is_block_free given.block_bitmap m
        ≡ (if b == m then false else is_block_free fs.block_bitmap m)
  unfolding given
  given_free m h =
      rw (mark_block_used-parts fs b l).0
        (is_block_free-set_bit fs.block_bitmap b w.counted.bitmap l m h)

  -- The block was not owned.
  fresh : (j m : ℕ) → pointer fs j m ≢ 0 → pointer fs j m ≢ b
  fresh j m ne e =
      let u : is_block_free fs.block_bitmap b ≡ false =
        ap (is_block_free fs.block_bitmap) (sym e) ∙ w.used j m ne in
      cc

  pub given-IsSound : IsSound given
  unfolding given
  given-IsSound = record {
    counted =
        let c : IsCounted (mark_block_used fs b) =
          mark_block_used-IsCounted fs b free l w.counted in
        record { bitmap = c.bitmap; counted = c.counted };
    lt = λ j m. elim (given-pointer j m) [ inl p ↦ rw p (w.lt j m) | inr (e, f, p) ↦ rw p l ];
    used = λ j m ne. elim (given-pointer j m) [
      | inl p ↦
          rw p
            (given_free (pointer fs j m) (w.lt j m) ∙ ground (arith, w.used j m (λ z. ne (p ∙ z))))
      | inr (e, f, p) ↦ rw p (given_free b l ∙ ground arith)
    ];
    distinct = λ j m j' m' ne e. apart j m j' m' ne e (given-pointer j m) (given-pointer j' m');
  }
    where
      apart :
          (j m j' m' : ℕ)
          → pointer given j m ≢ 0
          → pointer given j m ≡ pointer given j' m'
          → (pointer given j m ≡ pointer fs j m) ⊎ ((i ≡ j) × (k ≡ m) × (pointer given j m ≡ b))
          → (pointer given j' m' ≡ pointer fs j' m')
            ⊎ ((i ≡ j') × (k ≡ m') × (pointer given j' m' ≡ b))
          → (j ≡ j') × (m ≡ m')
      apart j m j' m' ne e (inl p) (inl q) = w.distinct j m j' m' (λ z. ne (p ∙ z)) (sym p ∙ e ∙ q)
      apart j m j' m' ne e (inl p) (inr (f, g, q)) =
          absurd (fresh j m (λ z. ne (p ∙ z)) (sym p ∙ e ∙ q))
      apart j m j' m' ne e (inr (f, g, p)) (inl q) =
          absurd (fresh j' m' (λ z. ne (e ∙ q ∙ z)) (sym q ∙ sym e ∙ p))
      apart j m j' m' ne e (inr (f, g, p)) (inr (f', g', q)) = (sym f ∙ f', sym g ∙ g')

give_lem :
    (fs : Fs) (i k : ℕ)
    → ((allocate_block fs).1 == no_index) ≡ false
    → IsSound fs
    → IsSound (set_block (allocate_block fs).0 i k (allocate_block fs).1)
unfolding given
give_lem fs i k e w = go (allocate_block fs) (allocate_block-Outcome fs) e
  where
    go :
        (r : Fs × ℕ)
        → Outcome fs 0 512 r
        → (r.1 == no_index) ≡ false
        → IsSound (set_block r.0 i k r.1)
    go r (disk_full u p) n = let q : r.1 ≡ no_index = ap (λ r. r.1) p in absurd (ground arith)
    go r (found b _ l f u p) n =
        subst (λ r. IsSound (set_block r.0 i k r.1)) (sym p) (given-IsSound fs i k b l f w)

pub take_inode_lem : (fs : Fs) (n : ℕ) → IsSound fs → IsSound (take_inode fs n)
unfolding take_inode
take_inode_lem fs n w =
    Fewer-IsSound fs _ w refl refl
      (set_inode-Fewer fs n new_inode (λ k. inr (get_or-replicate 12 k)))

take_lem : (fs : Fs) → IsSound fs → IsSound (allocate_inode fs).0
take_lem fs w = go (allocate_inode fs) (allocate_inode-InodeOutcome fs)
  where
    go : (r : Fs × ℕ) → InodeOutcome fs 0 200 r → IsSound r.0
    go r (table_full u p) = rw p w
    go r (taken n _ l f u p) = rw p (take_inode_lem fs n w)

write_lem :
    (fs : Fs) (b : ℕ) (buffer : Bytes) → IsSound fs → IsSound (write_inode_block fs b buffer)
unfolding write_inode_block
write_lem fs b buffer w = elim (Bool-cases (b == 0 || leb 512 b)) [
  | inl out ↦ rw out w
  | inr within ↦ rw within (Fewer-IsSound fs _ w refl refl (λ i k. inl refl))
]

pub IsSound-Stable : Stable IsSound
unfolding sync_inode_table sync_block_bitmap sync_superblock
IsSound-Stable = record {
  take = take_lem;
  describe = λ fs i type size parent w.
      Fewer-IsSound fs _ w refl refl (set_inode-Fewer fs i _ (λ k. inl refl));
  release = free_inode-IsSound;
  give = give_lem;
  write = write_lem;
  sync_table = λ fs w. Fewer-IsSound fs _ w refl refl (λ i k. inl refl);
  sync_bitmap = λ fs w. Fewer-IsSound fs _ w refl refl (λ i k. inl refl);
  sync_super = λ fs w. Fewer-IsSound fs _ w refl refl (λ i k. inl refl);
}

-- `fs_create_dir`, `fs_create_file` and `fs_delete_file`, whether they succeed or fail, keep a sound
-- ownership of blocks: every block of an inode is marked used, no block belongs to two inodes or to
-- one twice, and the superblock counts the free blocks.
pub operations-IsSound :
    (fs : Fs) (path file : Bytes)
    → IsSound fs
    → IsSound (fs_create_dir fs path).0
      × IsSound (fs_create_file fs path file).0
      × IsSound (fs_delete_file fs path).0
operations-IsSound fs path file w = (
  fs_create_dir-Stable IsSound IsSound-Stable fs path w,
  fs_create_file-Stable IsSound IsSound-Stable fs path file w,
  fs_delete_file-Stable IsSound IsSound-Stable fs path w,
)

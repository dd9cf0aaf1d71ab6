-- ===== src/Fs/Sound/Installed.antt =====
-- fs/filesystem.c: an installation leaves a sound ownership of blocks.
use ephemeral_os.Base.{
  ℕ, zero, suc, ◌≡◌, refl, ap, ◌∙◌, inl, true, arith, Bytes, get_or, replicate, count_below,
}
use ephemeral_os.Fs.State.{write_inode_block, Fs, zero_inode, zero_superblock}
use ephemeral_os.Fs.Bitmap.{is_block_free, mark_block_used}
use ephemeral_os.Fs.Bitmap.Bits.{zeros-IsBitmap, get_or-replicate}
use ephemeral_os.Fs.Create.{set_block}
use ephemeral_os.Fs.Install.{fs_install, install_root, make, sync_all, fs_init}
use ephemeral_os.Fs.Stable.{retyped, fs_create_dir-Stable}
use ephemeral_os.Fs.Sound.{pointer, IsSound, Fewer-IsSound}
use ephemeral_os.Fs.Sound.Kept.{IsSound-Stable, given, given-IsSound}
use ephemeral_os.Fs.Bitmap.Allocate.{free_count}

-- The tables before anything is made, with whatever is on the drive.
emptied : Fs → Fs
emptied fs = record fs {
  superblock = record zero_superblock { free_blocks = 512 };
  inode_table = replicate 200 zero_inode;
  block_bitmap = replicate 64 0;
}

get_or-zeros : (n i : ℕ) → get_or (replicate n zero_inode) i zero_inode ≡ zero_inode
get_or-zeros zero i = refl
get_or-zeros (suc n) zero = refl
get_or-zeros (suc n) (suc i) = get_or-zeros n i

pointer-emptied : (fs : Fs) (i k : ℕ) → pointer (emptied fs) i k ≡ 0
unfolding emptied
pointer-emptied fs i k = ap (λ n. get_or n.blocks k 0) (get_or-zeros 200 i) ∙ get_or-replicate 12 k

zeros_counted : 512 ≡ free_count (replicate 64 0)
unfolding count_below is_block_free
zeros_counted = refl

emptied-IsSound : (fs : Fs) → IsSound (emptied fs)
unfolding emptied
emptied-IsSound fs = record {
  counted = record { bitmap = zeros-IsBitmap; counted = zeros_counted };
  lt = λ i k. rw (pointer-emptied fs i k) (omega arith);
  used = λ i k ne. absurd (ne (pointer-emptied fs i k));
  distinct = λ i k j l ne e. absurd (ne (pointer-emptied fs i k));
}

one_free : is_block_free (replicate 64 0) 1 ≡ true
unfolding is_block_free
one_free = refl

install_root-IsSound :
    (fs : Fs) (hostname username password : Bytes)
    → IsSound (install_root fs hostname username password)
unfolding install_root emptied given set_block mark_block_used fs_init write_inode_block
install_root-IsSound fs hostname username password =
    Fewer-IsSound
      (retyped (given (emptied fs) 0 0 1 (omega arith) one_free (emptied-IsSound fs)) 0 2 0 0) _
      (IsSound-Stable.describe _ 0 2 0 0
        (given-IsSound (emptied fs) 0 0 1 (omega arith) one_free (emptied-IsSound fs)))
      refl refl (λ i k. inl refl)

make-IsSound : (path : Bytes) (fs : Fs) → IsSound fs → IsSound (make path fs)
make-IsSound path fs w = fs_create_dir-Stable IsSound IsSound-Stable fs path w

sync_all-IsSound : (fs : Fs) → IsSound fs → IsSound (sync_all fs)
unfolding sync_all
sync_all-IsSound fs w =
    IsSound-Stable.sync_bitmap _ (IsSound-Stable.sync_table _ (IsSound-Stable.sync_super fs w))

-- Whatever was on the drive and in memory before, `fs_install` leaves a sound ownership of blocks:
-- every block of an inode is marked used, no block belongs to two inodes or to one twice, and the
-- superblock counts the free blocks.
pub fs_install-IsSound :
    (fs : Fs) (hostname username password : Bytes)
    → IsSound (fs_install fs hostname username password)
unfolding fs_install
fs_install-IsSound fs hostname username password = sync_all-IsSound _ (
    make-IsSound _ _ (
      make-IsSound _ _ (
        make-IsSound _ _ (
          make-IsSound _ _ (
            make-IsSound _ _ (
              make-IsSound _ _ (
                make-IsSound _ _
                  (make-IsSound _ _ (install_root-IsSound fs hostname username password)))))))))

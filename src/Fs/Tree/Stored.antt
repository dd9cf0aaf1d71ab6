-- ===== src/Fs/Tree/Stored.antt =====
-- fs/filesystem.c: what the loop of `fs_create_file` that stores the data touches.
use ephemeral_os.Base.{
  subst, ℕ, zero, suc, ◌+◌, ◌<◌, ◌≡◌, refl, sym, ap, ◌∙◌, ◌≢◌, true, arith, Bytes, get_or, drop,
  get_or-set_ne,
}
use ephemeral_os.Fs.State.{Fs, zero_inode, inode_at, write_inode_block}
use ephemeral_os.Fs.Bitmap.{is_block_free, mark_block_used}
use ephemeral_os.Fs.Create.{set_block}
use ephemeral_os.Fs.File.{store_blocks}
use ephemeral_os.Fs.File.Contents.{
  IsReady, round, place, place-inode_table, place-inode, place-IsReady, store_blocks-Round,
  store_blocks-zero,
}

-- Every inode but one, the type and the size of that one, and the root are as they were.
pub record Frame (fs fs' : Fs) (inode : ℕ) : Type 0 where
  pub root : fs'.superblock.root_inode ≡ fs.superblock.root_inode
  pub others : (j : ℕ) → j ≢ inode → inode_at fs' j ≡ inode_at fs j
  pub type : (inode_at fs' inode).type ≡ (inode_at fs inode).type
  pub size : (inode_at fs' inode).size ≡ (inode_at fs inode).size

module _ (fs : Fs) (inode k b : ℕ) (rest : Bytes) (lt : b < 512) where
  place-root : (place fs inode k b rest).superblock.root_inode ≡ fs.superblock.root_inode
  unfolding place write_inode_block set_block mark_block_used
  place-root = ground arith

  place-Frame :
      is_block_free fs.block_bitmap b ≡ true
      → IsReady fs inode
      → Frame fs (place fs inode k b rest) inode
  place-Frame f w = record {
    root = place-root;
    others = λ j ne.
        ap (λ t. get_or t j zero_inode) (place-inode_table fs inode k b rest lt)
        ∙ get_or-set_ne fs.inode_table inode j _ zero_inode (λ e. ne (sym e));
    type = ap (λ i. i.type) (place-inode fs inode k b rest lt f w);
    size = ap (λ i. i.size) (place-inode fs inode k b rest lt f w);
  }

Frame-refl : (fs : Fs) (inode : ℕ) → Frame fs fs inode
Frame-refl fs inode = record { root = refl; others = λ j ne. refl; type = refl; size = refl }

Frame-trans :
    {fs fs2 fs3 : Fs} {inode : ℕ} → Frame fs fs2 inode → Frame fs2 fs3 inode → Frame fs fs3 inode
Frame-trans a b = record {
  root = b.root ∙ a.root;
  others = λ j ne. b.others j ne ∙ a.others j ne;
  type = b.type ∙ a.type;
  size = b.size ∙ a.size;
}

pub store_blocks-Frame :
    (n k : ℕ) (fs : Fs) (inode : ℕ) (rest : Bytes) (fs' : Fs)
    → IsReady fs inode
    → store_blocks fs inode n k rest ≡ (fs', true)
    → Frame fs fs' inode
store_blocks-Frame zero k fs inode rest fs' w e =
    subst (λ s. Frame fs s inode) (store_blocks-zero fs fs' inode k rest e) (Frame-refl fs inode)
store_blocks-Frame (suc n) k fs inode rest fs' w e =
    elim (store_blocks-Round fs inode n k rest fs' e) [
      | round b lt f later ↦ Frame-trans (place-Frame fs inode k b rest lt f w) (
          store_blocks-Frame n (k + 1) (place fs inode k b rest) inode (drop 512 rest) fs'
            (place-IsReady fs inode k b rest lt f w) later)
    ]

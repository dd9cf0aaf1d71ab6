-- ===== src/Fs/Tree/Others.antt =====
-- fs/filesystem.c: the files that were there read as before.
use native.Mathlib.Decide.{ℕ_discrete}
use ephemeral_os.Base.{
  ℕ, ◌≤◌, ◌<◌, min, ◌≡◌, refl, sym, ap, ◌∙◌, ◌≢◌, inl, inr, false, ◌||◌, Option, none, some, arith,
  Bytes, no_index, leb, ◌==◌, Bool-cases, length,
}
use ephemeral_os.Fs.State.{Fs, inode_at, read_inode_block}
use ephemeral_os.Fs.Bitmap.{is_block_free}
use ephemeral_os.Fs.Lookup.{find_inode_by_path}
use ephemeral_os.Fs.Dir.{DirBlock, DirEntry}
use ephemeral_os.Fs.Create.{success}
use ephemeral_os.Fs.File.{fs_create_file, fs_read_file, load_blocks, blocks_needed}
use ephemeral_os.Fs.Sound.{pointer}
use ephemeral_os.Fs.Tree.{Added, Room}
use ephemeral_os.Fs.Tree.Paths.{find_inode_by_path-Added}
use ephemeral_os.Fs.Tree.ReadBack.{read_file_of, load_blocks-same, created}

-- What a read that succeeds has found.
record IsRead (fs : Fs) (path : Bytes) : Type 0 where
  ne : find_inode_by_path fs path ≢ no_index
  lt : find_inode_by_path fs path < 200
  type : (inode_at fs (find_inode_by_path fs path)).type ≡ 1

fs_read_file-IsRead :
    (fs : Fs) (path : Bytes) (max_size : ℕ) {r : ℕ × Bytes}
    → fs_read_file fs path max_size ≡ some r
    → IsRead fs path
unfolding fs_read_file
fs_read_file-IsRead fs path max_size {r} e =
    elim (Bool-cases
      (find_inode_by_path fs path == no_index || leb 200 (find_inode_by_path fs path))) [
        | inl y ↦ absurd (none_ne (rw y at e))
        | inr z ↦ elim (Bool-cases ((inode_at fs (find_inode_by_path fs path)).type == 1)) [
          | inr t ↦ absurd (none_ne (rw (z, t) at e))
          | inl t ↦ record { ne = ground arith; lt = ground arith; type = ground arith }
        ]
      ]
  where
    none_ne : {s : ℕ × Bytes} → ◌≢◌ {A = Option (ℕ × Bytes)} none (some s)
    none_ne h = cc

no_block : (a b : Fs) → read_inode_block a 0 ≡ read_inode_block b 0
unfolding read_inode_block
no_block a b = refl

module _ (fs fs' : Fs) (path : Bytes) (p n : ℕ) (w : Bytes) (d : DirBlock) (last : DirEntry)
    (room : Room fs path p w d last) (added : Added fs fs' p n w d) where
  -- The inode of a file is not the directory, nor the new inode.
  kept_file : (o : ℕ) → (inode_at fs o).type ≡ 1 → inode_at fs' o ≡ inode_at fs o
  kept_file o t =
      added.inodes o (λ e. one_ne (sym t ∙ ap (λ i. (inode_at fs i).type) e ∙ added.was_free))
    where
      one_ne : ◌≢◌ {A = ℕ} 1 0
      one_ne h = omega arith

  o_ne_p : (o : ℕ) → (inode_at fs o).type ≡ 1 → o ≢ p
  o_ne_p o t e = two_ne (sym room.parent_dir ∙ ap (λ i. (inode_at fs i).type) (sym e) ∙ t)
    where
      two_ne : ◌≢◌ {A = ℕ} 2 1
      two_ne h = omega arith

  kept_block :
      (o k : ℕ)
      → (inode_at fs o).type ≡ 1
      → read_inode_block fs' (pointer fs o k) ≡ read_inode_block fs (pointer fs o k)
  kept_block o k t = elim (ℕ_discrete (pointer fs o k) 0) [
    | yes z ↦ rw z (no_block fs' fs)
    | no nz ↦
        added.reads (pointer fs o k) (room.sound.lt o k) (room.sound.used o k nz)
          (λ e. o_ne_p o t (room.sound.distinct o k p 0 nz e).0)
  ]

  pub fs_read_file-Added :
      (other : Bytes) (max_size : ℕ) {r : ℕ × Bytes}
      → fs_read_file fs other max_size ≡ some r
      → fs_read_file fs' other max_size ≡ some r
  fs_read_file-Added other max_size {r} e =
      let found = fs_read_file-IsRead fs other max_size e in
      let o = find_inode_by_path fs other in
      let same = kept_file o found.type in
      read_file_of fs' other o max_size
        (find_inode_by_path-Added fs fs' path p n w d last room added other found.ne) found.lt
        (ap (λ i. i.type) same ∙ found.type)
      ∙ ap
          (λ i. some (
            i.size,
            load_blocks fs' i.blocks (blocks_needed (min i.size max_size)) 0 (min i.size max_size),
          ))
          same
      ∙ ap (λ c. some ((inode_at fs o).size, c))
          (load_blocks-same fs fs' (inode_at fs o).blocks
            (blocks_needed (min (inode_at fs o).size max_size)) 0
            (min (inode_at fs o).size max_size) (λ k. kept_block o k found.type))
      ∙ sym (read_file_of fs other o max_size refl found.lt found.type)
      ∙ e

-- In a sound state where block 0 is in use, with a path whose parent directory has a free entry and
-- none of the name, and a file of at most 6144 bytes: when `fs_create_file` returns 0, every path
-- that `fs_read_file` read before it reads as before.
pub fs_read_file-other_created :
    (fs : Fs) (path : Bytes) (p : ℕ) (w : Bytes) (d : DirBlock) (last : DirEntry)
    → Room fs path p w d last
    → is_block_free fs.block_bitmap 0 ≡ false
    → (file : Bytes) → length file ≤ 6144
    → {fs' : Fs} (other : Bytes) (max_size : ℕ) {r : ℕ × Bytes}
    → fs_create_file fs path file ≡ (fs', success)
    → fs_read_file fs other max_size ≡ some r
    → fs_read_file fs' other max_size ≡ some r
fs_read_file-other_created fs path p w d last room z file short {fs'} other max_size e read =
    let made = created fs path p w d last room z file short e in
    fs_read_file-Added fs fs' path p made.n w d last room made.added other max_size read

-- ===== src/Fs/Tree/Enough.antt =====
-- fs/filesystem.c: with a free inode and enough free blocks, `fs_create_file` and `fs_create_dir`
-- succeed.
use ephemeral_os.Fs.Tree.Others.{fs_read_file-other_created}
use ephemeral_os.Base.{
  ap, ℕ, zero, suc, ◌+◌, ◌≤◌, ◌<◌, ◌≡◌, refl, ◌∙◌, true, false, some, arith, Bytes, no_index, ◌==◌,
  length, drop,
}
use ephemeral_os.Fs.State.{Fs, inode_at, sync_block_bitmap, sync_inode_table}
use ephemeral_os.Fs.Bitmap.{mark_block_used, is_block_free, allocate_block}
use ephemeral_os.Fs.Bitmap.Allocate.{
  disk_full, found, allocate_block-Outcome, AllUsed-free_count, free_count, free_count-set_bit,
}
use ephemeral_os.Fs.Inodes.{allocate_inode, take_inode}
use ephemeral_os.Fs.Inodes.Laws.{InodeOutcome, table_full, taken, allocate_inode-InodeOutcome}
use ephemeral_os.Fs.Dir.{DirBlock, DirEntry}
use ephemeral_os.Fs.Create.{success, link, set_type_dir, make_dir, fs_create_dir}
use ephemeral_os.Fs.File.{make_file, store_blocks, blocks_needed, fs_create_file, fs_read_file}
use ephemeral_os.Fs.File.Contents.{IsReady, place, place-IsReady, place-bitmap}
use ephemeral_os.Fs.Tree.Dirs.{
  after, make_dir-after, blocked, linked, filled_in, filled_in-Untouched, fs_create_dir-make_dir,
  fs_dir_exists-fs_create_dir,
}
use ephemeral_os.Fs.Lookup.{fs_dir_exists}
use ephemeral_os.Fs.Tree.{Room}
use ephemeral_os.Fs.Tree.Linked.{link-open}
use ephemeral_os.Fs.Tree.Files.{typed, finish, typed-bitmap, typed-IsReady}
use ephemeral_os.Fs.Tree.ReadBack.{
  stored-Untouched, fs_create_file-make_file, fs_read_file-fs_create_file,
}

store_blocks_step :
    (n k : ℕ) (fs : Fs) (inode b : ℕ) (rest : Bytes) {fs' : Fs}
    → b < 512
    → allocate_block fs ≡ (mark_block_used fs b, b)
    → store_blocks (place fs inode k b rest) inode n (k + 1) (drop 512 rest) ≡ (fs', true)
    → store_blocks fs inode (suc n) k rest ≡ (fs', true)
unfolding store_blocks place
store_blocks_step n k fs inode b rest lt q later =
    let z : (b == no_index) ≡ false = ground arith in rw (q, z) later

-- While the count of free blocks is not 0, `allocate_block` finds one.
record Found (fs : Fs) : Type 0 where
  b : ℕ
  lt : b < 512
  free : is_block_free fs.block_bitmap b ≡ true
  answer : allocate_block fs ≡ (mark_block_used fs b, b)

allocate_block-Found : (fs : Fs) → 0 < free_count fs.block_bitmap → Found fs
allocate_block-Found fs l = elim (allocate_block-Outcome fs) [
  | disk_full u p ↦ absurd (omega (arith, AllUsed-free_count fs u))
  | found b _ lt f u p ↦ record { b = b; lt = lt; free = f; answer = p }
]

-- The loop runs to its end when there are enough free blocks.
store_blocks_enough :
    (n k : ℕ) (fs : Fs) (inode : ℕ) (rest : Bytes)
    → IsReady fs inode
    → n ≤ free_count fs.block_bitmap
    → (fs' : Fs) × (store_blocks fs inode n k rest ≡ (fs', true))
unfolding store_blocks
store_blocks_enough zero k fs inode rest w l = (fs, refl)
store_blocks_enough (suc n) k fs inode rest w l =
    let r = allocate_block-Found fs (omega arith) in
    let (fs', later) =
      store_blocks_enough n (k + 1) (place fs inode k r.b rest) inode (drop 512 rest)
        (place-IsReady fs inode k r.b rest r.lt r.free w)
        (rw (place-bitmap fs inode k r.b rest r.lt)
          (omega (arith, free_count-set_bit fs.block_bitmap r.b w.bitmap r.lt r.free))) in
    (fs', store_blocks_step n k fs inode r.b rest r.lt r.answer later)

module _ (fs : Fs) (path : Bytes) (p : ℕ) (w : Bytes) (d : DirBlock) (last : DirEntry)
    (room : Room fs path p w d last) (zero_used : is_block_free fs.block_bitmap 0 ≡ false)
    (file : Bytes) (short : length file ≤ 6144) (i : ℕ) (in_table : i < 200)
    (free : (inode_at fs i).type ≡ 0)
    (enough : blocks_needed (length file) ≤ fs.superblock.free_blocks) where
  make_file_step :
      (n : ℕ) (fs2 fs3 : Fs)
      → n < 200
      → allocate_inode fs ≡ (take_inode fs n, n)
      → store_blocks (typed fs p n file) n (blocks_needed (length file)) 0 file ≡ (fs2, true)
      → link fs2 p w n ≡ some fs3
      → make_file fs p w file ≡ (finish fs3, success)
  unfolding make_file
  make_file_step n fs2 fs3 lt a s l =
      let z : (n == no_index) ≡ false = ground arith in rw (a, z, s, l) refl

  make_file_enough : (fs' : Fs) × (make_file fs p w file ≡ (fs', success))
  make_file_enough = go (allocate_inode fs) refl (allocate_inode-InodeOutcome fs)
    where
      go :
          (r : Fs × ℕ)
          → allocate_inode fs ≡ r
          → InodeOutcome fs 0 200 r
          → (fs' : Fs) × (make_file fs p w file ≡ (fs', success))
      go r q (table_full u _) = absurd (u i (omega arith) in_table free)
      go r q (taken n _ lt f u e) =
          let (fs2, s) =
            store_blocks_enough (blocks_needed (length file)) 0 (typed fs p n file) n file
              (typed-IsReady fs p n file room.table lt room.sound zero_used)
              (rw (typed-bitmap fs p n file room.table lt)
                (omega (arith, room.sound.counted.counted))) in
          let (fs3, l) =
            link-open fs path p w d last room fs2 n f lt
              (stored-Untouched fs path p w d last room zero_used file short n fs2 lt s) in
          (finish fs3, make_file_step n fs2 fs3 lt (q ∙ e) s l)

  -- In a sound state where block 0 is in use and an inode is free, with a path whose parent directory
  -- has a free entry and none of the name, and a file of at most 6144 bytes that the count of free
  -- blocks has room for: `fs_create_file` returns 0; then `fs_read_file` of the path with a buffer
  -- that is large enough gives the file's size and its bytes, and every path that `fs_read_file` read
  -- before it reads as before.
  pub fs_create_file_enough :
      (fs' : Fs) × (fs_create_file fs path file ≡ (fs', success))
      × ((max_size : ℕ)
          → length file ≤ max_size
          → fs_read_file fs' path max_size ≡ some (length file, file))
      × ((other : Bytes) (max_size : ℕ) (r : ℕ × Bytes)
          → fs_read_file fs other max_size ≡ some r
          → fs_read_file fs' other max_size ≡ some r)
  fs_create_file_enough =
      let (fs', e) = make_file_enough in
      let made = fs_create_file-make_file fs path p w d last room zero_used file short ∙ e in
      (
        fs',
        made,
        λ max_size l.
            fs_read_file-fs_create_file fs path p w d last room zero_used file short max_size made
              l,
        λ other max_size r.
            fs_read_file-other_created fs path p w d last room zero_used file short other max_size
              made,
      )

module _ (fs : Fs) (path : Bytes) (p : ℕ) (w : Bytes) (d : DirBlock) (last : DirEntry)
    (room : Room fs path p w d last) (zero_used : is_block_free fs.block_bitmap 0 ≡ false) (i : ℕ)
    (in_table : i < 200) (free : (inode_at fs i).type ≡ 0)
    (enough : 1 ≤ fs.superblock.free_blocks) where
  make_dir_step :
      (n b : ℕ) (fs3 : Fs)
      → n < 200
      → b < 512
      → allocate_inode fs ≡ (take_inode fs n, n)
      → allocate_block (set_type_dir (take_inode fs n) n p)
        ≡ (mark_block_used (set_type_dir (take_inode fs n) n p) b, b)
      → link (filled_in fs p n b) p w n ≡ some fs3
      → make_dir fs p w ≡ (sync_block_bitmap (sync_inode_table fs3), success)
  make_dir_step n b fs3 lt lb a s l =
      let z : (n == no_index) ≡ false = ground arith in
      let y : (b == no_index) ≡ false = ground arith in
      make_dir-after fs p w room.parent_dir
      ∙ ap (after p w) a
      ∙ rw z refl
      ∙ ap (blocked p w n) s
      ∙ rw y refl
      ∙ ap (linked n (filled_in fs p n b)) l

  make_dir_enough : (fs' : Fs) × (make_dir fs p w ≡ (fs', success))
  unfolding set_type_dir take_inode
  make_dir_enough = go (allocate_inode fs) refl (allocate_inode-InodeOutcome fs)
    where
      go :
          (r : Fs × ℕ)
          → allocate_inode fs ≡ r
          → InodeOutcome fs 0 200 r
          → (fs' : Fs) × (make_dir fs p w ≡ (fs', success))
      go r q (table_full u _) = absurd (u i (omega arith) in_table free)
      go r q (taken n _ lt f u e) =
          let o =
            allocate_block-Found (set_type_dir (take_inode fs n) n p)
              (omega (arith, room.sound.counted.counted)) in
          let (fs3, l) =
            link-open fs path p w d last room (filled_in fs p n o.b) n f lt
              (filled_in-Untouched fs p n o.b o.lt o.free zero_used) in
          (
            sync_block_bitmap (sync_inode_table fs3),
            make_dir_step n o.b fs3 lt o.lt (q ∙ e) o.answer l,
          )

  -- In a sound state where block 0 is in use, an inode is free and the count of free blocks is not 0,
  -- with a path whose parent directory has a free entry and none of the name: `fs_create_dir` returns
  -- 0, `fs_dir_exists` then finds the directory, and every path that `fs_read_file` read before it
  -- reads as before.
  pub fs_create_dir_enough :
      (fs' : Fs) × (fs_create_dir fs path ≡ (fs', success))
      × (fs_dir_exists fs' path ≡ true)
      × ((other : Bytes) (max_size : ℕ) (r : ℕ × Bytes)
          → fs_read_file fs other max_size ≡ some r
          → fs_read_file fs' other max_size ≡ some r)
  fs_create_dir_enough =
      let (fs', e) = make_dir_enough in
      let made = fs_create_dir-make_dir fs path p w d last room zero_used ∙ e in
      let (exists, others) = fs_dir_exists-fs_create_dir fs path p w d last room zero_used made in
      (fs', made, exists, others)

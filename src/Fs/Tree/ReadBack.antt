-- ===== src/Fs/Tree/ReadBack.antt =====
-- fs/filesystem.c: what `fs_read_file` reads after `fs_create_file`.
use mathlib.Core.Path.{ap₂}
use ephemeral_os.Base.{
  true, [], ◌∷◌, refl, ◌≢◌, ltb, leb, ◌==◌, ◌||◌, not, some, no_index, false, min, subst, ℕ, zero,
  suc, ◌+◌, ◌-◌, ◌≤◌, ◌<◌, ◌≡◌, sym, ap, ◌∙◌, List, ◌++◌, arith, Bytes, length, get_or, take,
}
use ephemeral_os.Fs.State.{
  Fs, zero_inode, inode_at, first_block, read_inode_block, sync_inode_table, sync_block_bitmap,
  sync_superblock,
}
use ephemeral_os.Fs.Bitmap.{is_block_free}
use ephemeral_os.Fs.Inodes.{new_inode}
use ephemeral_os.Fs.Lookup.{find_inode_by_path}
use ephemeral_os.Fs.Dir.{DirBlock, DirEntry}
use ephemeral_os.Fs.Path.{split_path}
use ephemeral_os.Fs.Create.{success}
use ephemeral_os.Fs.File.{
  make_file, replace_file, fs_create_file, fs_read_file, load_blocks, blocks_needed, store_blocks,
}
use ephemeral_os.Fs.File.Contents.{IsReady, store_blocks-Kept, load-store}
use ephemeral_os.Fs.Stable.{store_blocks-Stable}
use ephemeral_os.Fs.Sound.{IsSound, pointer}
use ephemeral_os.Fs.Sound.Kept.{IsSound-Stable}
use ephemeral_os.Fs.Tree.{Added, Room}
use ephemeral_os.Fs.Tree.Paths.{find_inode_by_path-new, find_inode_by_path-Room}
use ephemeral_os.Fs.Tree.Linked.{
  Untouched, Linked, link-Linked, link-Added, Added-sync, Added-sync_superblock, p_ne_n, same_block,
}
use ephemeral_os.Fs.Tree.Stored.{Frame, store_blocks-Frame}
use ephemeral_os.Fs.Tree.Files.{
  typed, finish, MadeFile, made, make_file-MadeFile, typed-own, typed-other, typed-IsReady,
  typed-IsSound, typed-root, typed-bitmap, typed-read,
}

-- An answer of `fs_read_file`, from what the path leads to.
pub read_file_of :
    (fs : Fs) (path : Bytes) (n max_size : ℕ)
    → find_inode_by_path fs path ≡ n
    → n < 200
    → (inode_at fs n).type ≡ 1
    → fs_read_file fs path max_size
      ≡ some (
        (inode_at fs n).size,
        load_blocks fs
            (inode_at fs n).blocks
            (blocks_needed (min (inode_at fs n).size max_size))
            0
            (min (inode_at fs n).size max_size),
      )
unfolding fs_read_file
read_file_of fs path n max_size e lt t = rw (e, there, is_file) refl
  where
    there : (n == no_index || leb 200 n) ≡ false
    there = ground arith

    is_file : not ((inode_at fs n).type == 1) ≡ false
    is_file = ground arith

pub length_ne : (w : Bytes) → w ≢ [] → length w ≢ 0
length_ne [] h e = h refl
length_ne (c ∷ w) h e = omega arith

pub load_blocks-same :
    (fs fs' : Fs) (blocks : List ℕ) (n i left : ℕ)
    → ((k : ℕ) → read_inode_block fs' (get_or blocks k 0) ≡ read_inode_block fs (get_or blocks k 0))
    → load_blocks fs' blocks n i left ≡ load_blocks fs blocks n i left
unfolding load_blocks
load_blocks-same fs fs' blocks zero i left h = refl
load_blocks-same fs fs' blocks (suc n) i left h =
    ap₂ ◌++◌ (ap (take (min 512 left)) (h i))
      (load_blocks-same fs fs' blocks n (i + 1) (left - min 512 left) h)

-- What a call that made the file has done.
pub record Read (fs fs' : Fs) (p : ℕ) (w : Bytes) (d : DirBlock) (file : Bytes) : Type 0 where
  pub n : ℕ
  lt : n < 200
  pub added : Added fs fs' p n w d
  type : (inode_at fs' n).type ≡ 1
  size : (inode_at fs' n).size ≡ length file
  contents :
      load_blocks fs' (inode_at fs' n).blocks (blocks_needed (length file)) 0 (length file) ≡ file

-- The inode table and the blocks at the end.
finish-inode : (fs : Fs) (j : ℕ) → inode_at (finish fs) j ≡ inode_at fs j
unfolding sync_superblock sync_block_bitmap sync_inode_table
finish-inode fs j = refl

finish-read : (fs : Fs) (c : ℕ) → read_inode_block (finish fs) c ≡ read_inode_block fs c
unfolding sync_superblock sync_block_bitmap sync_inode_table read_inode_block
finish-read fs c = refl

module _ (fs : Fs) (path : Bytes) (p : ℕ) (w : Bytes) (d : DirBlock) (last : DirEntry)
    (room : Room fs path p w d last) (zero_used : is_block_free fs.block_bitmap 0 ≡ false)
    (file : Bytes) (short : length file ≤ 6144) where
  pub stored-Untouched :
      (n : ℕ) (fs2 : Fs)
      → n < 200
      → store_blocks (typed fs p n file) n (blocks_needed (length file)) 0 file ≡ (fs2, true)
      → Untouched fs fs2 n
  stored-Untouched n fs2 lt s =
      let ready = typed-IsReady fs p n file room.table lt room.sound zero_used in
      let frame =
        store_blocks-Frame (blocks_needed (length file)) 0 (typed fs p n file) n file fs2 ready s in
      let kept =
        store_blocks-Kept (blocks_needed (length file)) 0 (typed fs p n file) n file fs2 ready s in
      record {
        root = frame.root ∙ typed-root fs p n file room.table lt;
        inodes = λ j ne. frame.others j ne ∙ typed-other fs p n file room.table lt j ne;
        reads = λ c k g.
            kept.reads c k
              (ap (λ b. is_block_free b c) (typed-bitmap fs p n file room.table lt) ∙ g)
            ∙ typed-read fs p n file room.table lt c;
      }

  MadeFile-Read : {fs' : Fs} → MadeFile fs p w file fs' → Read fs fs' p w d file
  MadeFile-Read {fs'} (made n fs2 fs3 lt f s l q) =
      subst (λ t. Read fs t p w d file) (sym q)
        (record {
          n = n;
          lt = lt;
          added =
              Added-sync_superblock
                (Added-sync (link-Added fs path p w d last room fs2 n f lt u l));
          type = ap (λ i. i.type) same ∙ frame.type ∙ ap (λ i. i.type) own;
          size = ap (λ i. i.size) same ∙ frame.size ∙ ap (λ i. i.size) own;
          contents =
              ap
                (λ i.
                  load_blocks (finish fs3) i.blocks (blocks_needed (length file)) 0 (length file))
                same
              ∙ load_blocks-same fs2 (finish fs3) (inode_at fs2 n).blocks
                  (blocks_needed (length file)) 0 (length file)
                  (λ k.
                    finish-read fs3 (pointer fs2 n k)
                    ∙ linked.reads (pointer fs2 n k) (elsewhere k))
              ∙ load-store (typed fs p n file) fs2 n file short ready s;
        })
    where
      ready : IsReady (typed fs p n file) n
      ready = typed-IsReady fs p n file room.table lt room.sound zero_used

      frame : Frame (typed fs p n file) fs2 n
      frame =
          store_blocks-Frame (blocks_needed (length file)) 0 (typed fs p n file) n file fs2 ready s

      own :
          inode_at (typed fs p n file) n
          ≡ record new_inode { type = 1; size = length file; parent_inode = p }
      own = typed-own fs p n file room.table lt

      u : Untouched fs fs2 n
      u = stored-Untouched n fs2 lt s

      home : first_block fs2 p ≡ first_block fs p
      home = same_block fs path p w d last room fs2 n f lt u

      linked : Linked fs2 fs3 p
      linked =
          link-Linked fs2 p w n (λ z. room.dir.block_ne (sym home ∙ z)) (rw home room.dir.block_lt)
            l

      same : inode_at (finish fs3) n ≡ inode_at fs2 n
      same = finish-inode fs3 n ∙ ap (λ t. get_or t n zero_inode) linked.table

      sound2 : IsSound fs2
      sound2 = subst IsSound (ap (λ r. r.0) s) (
          store_blocks-Stable IsSound IsSound-Stable (blocks_needed (length file)) 0
            (typed fs p n file) n file (typed-IsSound fs p n file room.table lt room.sound))

      elsewhere : (k : ℕ) → first_block fs2 p ≢ pointer fs2 n k
      elsewhere k e =
          p_ne_n fs path p w d last room fs2 n f lt u
            (sound2.distinct p 0 n k (λ z. room.dir.block_ne (sym home ∙ z)) e).0

  pub replace_file-make_file : replace_file fs p path w file ≡ make_file fs p w file
  unfolding replace_file
  replace_file-make_file = rw (is_dir, find_inode_by_path-Room fs path p w d last room) refl
    where
      is_dir : not ((inode_at fs p).type == 2) ≡ false
      is_dir = ground (arith, room.parent_dir)

  pub fs_create_file-make_file : fs_create_file fs path file ≡ make_file fs p w file
  unfolding fs_create_file
  fs_create_file-make_file =
      rw (fits, named, there) refl
      ∙ ap (λ q. replace_file fs q path (split_path path).1 file) room.parent
      ∙ ap (λ v. replace_file fs p path v file) room.name
      ∙ replace_file-make_file
    where
      fits : ltb 16384 (length file) ≡ false
      fits = ground arith

      named : (length (split_path path).1 == 0 || leb 28 (length (split_path path).1)) ≡ false
      named = rw room.name (ground (arith, length_ne w room.non_empty, room.short))

      there : (find_inode_by_path fs (split_path path).0 == no_index) ≡ false
      there = rw room.parent (ground (arith, room.parent_lt))

  pub created : {fs' : Fs} → fs_create_file fs path file ≡ (fs', success) → Read fs fs' p w d file
  created e = MadeFile-Read (make_file-MadeFile fs p w file (sym fs_create_file-make_file ∙ e))

  -- In a sound state where block 0 is in use, with a path whose parent directory has a free entry and
  -- none of the name, and a file of at most 6144 bytes: when `fs_create_file` returns 0,
  -- `fs_read_file` of the path with a buffer that is large enough gives the file's size and its bytes.
  pub fs_read_file-fs_create_file :
      {fs' : Fs} (max_size : ℕ)
      → fs_create_file fs path file ≡ (fs', success)
      → length file ≤ max_size
      → fs_read_file fs' path max_size ≡ some (length file, file)
  fs_read_file-fs_create_file {fs'} max_size e l =
      let r = created e in
      read_file_of fs' path r.n max_size
        (find_inode_by_path-new fs fs' path p r.n w d last room r.added) r.lt r.type
      ∙ ap
          (λ s. some (
            s,
            load_blocks fs' (inode_at fs' r.n).blocks (blocks_needed (min s max_size)) 0
                (min s max_size),
          ))
          r.size
      ∙ ap
          (λ s. some (length file, load_blocks fs' (inode_at fs' r.n).blocks (blocks_needed s) 0 s))
          (min_left (length file) max_size l)
      ∙ ap (λ c. some (length file, c)) r.contents
    where
      min_left : (a b : ℕ) → a ≤ b → min a b ≡ a
      min_left a b h = omega arith

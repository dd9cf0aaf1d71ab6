-- ===== src/Fs/Stable.antt =====
-- fs/filesystem.c: what every change of the inode table, the bitmap and the drive keeps, the
-- operations on paths keep, whatever they come to.
use ephemeral_os.Base.{
  ℕ, zero, suc, ◌+◌, ◌≡◌, sym, ap, true, false, Option, none, some, arith, Bytes, no_index, ◌==◌,
  length, drop,
}
use ephemeral_os.Fs.State.{
  Fs, inode_at, set_inode, write_inode_block, sync_inode_table, sync_block_bitmap, sync_superblock,
  first_block,
}
use ephemeral_os.Fs.Bitmap.{allocate_block}
use ephemeral_os.Fs.Bitmap.Allocate.{Outcome, disk_full, found, allocate_block-Outcome}
use ephemeral_os.Fs.Inodes.{allocate_inode, free_inode}
use ephemeral_os.Fs.Dir.{remove_entry, DirBlock, write_dir, read_dir, add_entry}
use ephemeral_os.Fs.Path.{split_path}
use ephemeral_os.Fs.Lookup.{find_inode_by_path}
use ephemeral_os.Fs.Create.{
  new_dir, Status, success, failure, out_of_fuel, link, set_type_dir, set_block, make_dir,
  make_in_parent, create_dir_fuel, fs_create_dir,
}
use ephemeral_os.Fs.File.{
  sector_of, fs_delete_file, store_blocks, set_type_file, make_file, replace_file, create_in_parent,
  fs_create_file, blocks_needed,
}

abbrev pub retyped : Fs → ℕ → ℕ → ℕ → ℕ → Fs
retyped fs i type size parent =
    set_inode fs i (record (inode_at fs i) { type = type; size = size; parent_inode = parent })

-- A predicate that each of the changes keeps: an inode is taken, described or freed, a free block is
-- given to an inode, a block is written, and the three tables are written to the drive.
pub record Stable (P : Fs → Type 0) : Type 0 where
  pub take : (fs : Fs) → P fs → P (allocate_inode fs).0
  pub describe : (fs : Fs) (i type size parent : ℕ) → P fs → P (retyped fs i type size parent)
  pub release : (fs : Fs) (i : ℕ) → P fs → P (free_inode fs i)
  pub give :
      (fs : Fs) (i k : ℕ)
      → ((allocate_block fs).1 == no_index) ≡ false
      → P fs
      → P (set_block (allocate_block fs).0 i k (allocate_block fs).1)
  pub write : (fs : Fs) (b : ℕ) (buffer : Bytes) → P fs → P (write_inode_block fs b buffer)
  pub sync_table : (fs : Fs) → P fs → P (sync_inode_table fs)
  pub sync_bitmap : (fs : Fs) → P fs → P (sync_block_bitmap fs)
  pub sync_super : (fs : Fs) → P fs → P (sync_superblock fs)

-- A search that finds no block changes nothing.
allocate_block_full :
    (fs : Fs) → ((allocate_block fs).1 == no_index) ≡ true → (allocate_block fs).0 ≡ fs
allocate_block_full fs h = go (allocate_block fs) (allocate_block-Outcome fs) h
  where
    go : (r : Fs × ℕ) → Outcome fs 0 512 r → (r.1 == no_index) ≡ true → r.0 ≡ fs
    go r (disk_full u p) e = ap (λ r. r.0) p
    go r (found b l k f u p) e = let q : b ≡ r.1 = sym (ap (λ r. r.1) p) in absurd (ground arith)

module _ (P : Fs → Type 0) (s : Stable P) where
  abbrev Holds : Fs × Status → Type 0
  Holds r = P r.0

  abbrev SomeHolds : Option Fs → Type 0
  SomeHolds none = Unit
  SomeHolds (some fs) = P fs

  write_dir_lem : (fs : Fs) (b : ℕ) (d : DirBlock) → P fs → P (write_dir fs b d)
  unfolding write_dir
  write_dir_lem fs b d h = s.write fs b _ h

  full_lem : (fs : Fs) → ((allocate_block fs).1 == no_index) ≡ true → P fs → P (allocate_block fs).0
  full_lem fs e h = rw (allocate_block_full fs e) h

  link_lem :
      (fs : Fs) (parent : ℕ) (name : Bytes) (i : ℕ) → P fs → SomeHolds (link fs parent name i)
  unfolding link
  link_lem fs parent name i h = go (add_entry (read_dir fs (first_block fs parent)) name i)
    where
      go :
          (o : Option DirBlock)
          → SomeHolds
              (elim o [ none ↦ none | some d ↦ some (write_dir fs (first_block fs parent) d) ])
      go none = tt
      go (some d) = write_dir_lem fs _ d h

  -- Behind the entry for the inode in its parent's block.
  linked : (Fs → Fs) → Fs → ℕ → Option Fs → Fs × Status
  linked finish fs inode none = (free_inode fs inode, failure)
  linked finish fs inode (some fs') = (finish fs', success)

  linked_lem :
      (finish : Fs → Fs) (fs : Fs) (inode : ℕ) (o : Option Fs)
      → ((fs' : Fs) → P fs' → P (finish fs'))
      → P fs
      → SomeHolds o
      → Holds (linked finish fs inode o)
  unfolding linked
  linked_lem finish fs inode none f h k = s.release fs inode h
  linked_lem finish fs inode (some fs') f h k = f fs' k

  made : Fs → Fs
  made fs = sync_block_bitmap (sync_inode_table fs)

  make_dir_lem : (fs : Fs) (parent : ℕ) (name : Bytes) → P fs → Holds (make_dir fs parent name)
  unfolding make_dir linked made
  make_dir_lem fs parent name h = ground (arith, h, taken, blocked, done)
    where
      inode : ℕ
      inode = (allocate_inode fs).1

      taken : P (allocate_inode fs).0
      taken = s.take fs h

      typed : Fs
      typed = set_type_dir (allocate_inode fs).0 inode parent

      described : P typed
      described = unfold set_type_dir in s.describe (allocate_inode fs).0 inode 2 0 parent taken

      fs2 : Fs
      fs2 = (allocate_block typed).0

      block : ℕ
      block = (allocate_block typed).1

      fs4 : Fs
      fs4 = write_dir (set_block fs2 inode 0 block) block (new_dir inode parent)

      blocked : (block == no_index) ≡ true → P (free_inode fs2 inode)
      blocked e = s.release fs2 inode (full_lem typed e described)

      done :
          (block == no_index) ≡ false → Holds (linked made fs4 inode (link fs4 parent name inode))
      done e =
          let written : P fs4 = write_dir_lem _ block _ (s.give typed inode 0 e described) in
          linked_lem made fs4 inode (link fs4 parent name inode)
            (λ fs' k. s.sync_bitmap _ (s.sync_table fs' k)) written
            (link_lem fs4 parent name inode written)

  make_in_parent_lem :
      (path name : Bytes) (r : Fs × Status) → Holds r → Holds (make_in_parent path name r)
  unfolding make_in_parent
  make_in_parent_lem path name (fs, success) h =
      ground (arith, h, make_dir_lem fs (find_inode_by_path fs path) name h)
  make_in_parent_lem path name (fs, failure) h = h
  make_in_parent_lem path name (fs, out_of_fuel) h = h

  create_dir_fuel_lem :
      (fuel : ℕ) (fs : Fs) (path : Bytes) → P fs → Holds (create_dir_fuel fuel fs path)
  unfolding create_dir_fuel
  create_dir_fuel_lem zero fs path h = h
  create_dir_fuel_lem (suc fuel) fs path h =
      let parent_path : Bytes = (split_path path).0 in
      let name : Bytes = (split_path path).1 in
      ground (
        arith,
        h,
        make_dir_lem fs (find_inode_by_path fs parent_path) name h,
        make_in_parent_lem parent_path name (create_dir_fuel fuel fs parent_path)
            (create_dir_fuel_lem fuel fs parent_path h),
      )

  -- What the changes keep, `fs_create_dir` keeps.
  pub fs_create_dir-Stable : (fs : Fs) (path : Bytes) → P fs → P (fs_create_dir fs path).0
  unfolding fs_create_dir
  fs_create_dir-Stable fs path h = create_dir_fuel_lem (suc (length path)) fs path h

  -- What the changes keep, `fs_delete_file` keeps.
  pub fs_delete_file-Stable : (fs : Fs) (path : Bytes) → P fs → P (fs_delete_file fs path).0
  unfolding fs_delete_file made
  fs_delete_file-Stable fs path h =
      let parent : ℕ = find_inode_by_path fs (split_path path).0 in
      let file : ℕ = find_inode_by_path fs path in
      let fs1 : Fs = free_inode fs file in
      let block : ℕ = first_block fs1 parent in
      let fs2 : Fs = write_dir fs1 block (remove_entry (read_dir fs1 block) file) in
      let done : P (made fs2) =
        s.sync_bitmap _ (s.sync_table fs2 (write_dir_lem fs1 block _ (s.release fs file h))) in
      ground (arith, h, done)

  -- What the changes keep, the loop of `fs_create_file` keeps.
  pub store_blocks-Stable :
      (n i : ℕ) (fs : Fs) (inode : ℕ) (rest : Bytes) → P fs → P (store_blocks fs inode n i rest).0
  unfolding store_blocks
  store_blocks-Stable zero i fs inode rest h = h
  store_blocks-Stable (suc n) i fs inode rest h =
      let fs1 : Fs = (allocate_block fs).0 in
      let block : ℕ = (allocate_block fs).1 in
      let fs2 : Fs = write_inode_block (set_block fs1 inode i block) block (sector_of rest) in
      let more : (block == no_index) ≡ false
          → P (store_blocks fs2 inode n (i + 1) (drop 512 rest)).0 =
        λ e.
          store_blocks-Stable n (i + 1) fs2 inode (drop 512 rest)
            (s.write _ block _ (s.give fs inode i e h)) in
      let none_left : (block == no_index) ≡ true → P fs1 = λ e. full_lem fs e h in
      ground (arith, more, none_left)

  stored_fully : Fs → Fs
  stored_fully fs = sync_superblock (sync_block_bitmap (sync_inode_table fs))

  make_file_lem :
      (fs : Fs) (parent : ℕ) (name file : Bytes) → P fs → Holds (make_file fs parent name file)
  unfolding make_file linked stored_fully
  make_file_lem fs parent name file h = ground (arith, taken, s.release fs2 inode stored, done)
    where
      inode : ℕ
      inode = (allocate_inode fs).1

      taken : P (allocate_inode fs).0
      taken = s.take fs h

      typed : Fs
      typed = set_type_file (allocate_inode fs).0 inode (length file) parent

      described : P typed
      described =
          unfold set_type_file in
          s.describe (allocate_inode fs).0 inode 1 (length file) parent taken

      fs2 : Fs
      fs2 = (store_blocks typed inode (blocks_needed (length file)) 0 file).0

      stored : P fs2
      stored = store_blocks-Stable (blocks_needed (length file)) 0 typed inode file described

      done : Holds (linked stored_fully fs2 inode (link fs2 parent name inode))
      done =
          linked_lem stored_fully fs2 inode (link fs2 parent name inode)
            (λ fs' k. s.sync_super _ (s.sync_bitmap _ (s.sync_table fs' k))) stored
            (link_lem fs2 parent name inode stored)

  replace_file_lem :
      (fs : Fs) (parent : ℕ) (path name file : Bytes)
      → P fs
      → Holds (replace_file fs parent path name file)
  unfolding replace_file
  replace_file_lem fs parent path name file h =
      let deleted : P (fs_delete_file fs path).0 = fs_delete_file-Stable fs path h in
      ground (
        arith,
        h,
        make_file_lem (fs_delete_file fs path).0 parent name file deleted,
        make_file_lem fs parent name file h,
      )

  create_in_parent_lem :
      (path parent_path name file : Bytes) (r : Fs × Status)
      → Holds r
      → Holds (create_in_parent path parent_path name file r)
  unfolding create_in_parent
  create_in_parent_lem path parent_path name file (fs, success) h =
      ground (arith, h, replace_file_lem fs (find_inode_by_path fs parent_path) path name file h)
  create_in_parent_lem path parent_path name file (fs, failure) h = h
  create_in_parent_lem path parent_path name file (fs, out_of_fuel) h = h

  -- What the changes keep, `fs_create_file` keeps.
  pub fs_create_file-Stable :
      (fs : Fs) (path file : Bytes) → P fs → P (fs_create_file fs path file).0
  unfolding fs_create_file
  fs_create_file-Stable fs path file h =
      let parent_path : Bytes = (split_path path).0 in
      let name : Bytes = (split_path path).1 in
      ground (
        arith,
        h,
        create_in_parent_lem path parent_path name file (fs_create_dir fs parent_path)
            (fs_create_dir-Stable fs parent_path h),
        replace_file_lem fs (find_inode_by_path fs parent_path) path name file h,
      )

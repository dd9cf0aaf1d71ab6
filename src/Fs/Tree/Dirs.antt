-- ===== src/Fs/Tree/Dirs.antt =====
-- fs/filesystem.c: what `fs_create_dir` makes under a directory that is there.
use ephemeral_os.Base.{
  subst, ℕ, ◌<◌, ◌≡◌, refl, sym, ap, ◌∙◌, ◌≢◌, true, false, not, ◌||◌, Option, none, some, arith,
  Bytes, no_index, leb, ◌==◌, if◌then◌else◌, ==_false, length, get_or, set, length-set,
  get_or-set_self, get_or-set_ne,
}
use ephemeral_os.Fs.State.{
  Fs, zero_inode, inode_at, read_inode_block, sync_inode_table, sync_block_bitmap,
}
use ephemeral_os.Fs.State.Blocks.{read-write_inode_block}
use ephemeral_os.Fs.Bitmap.{is_block_free, mark_block_used, allocate_block}
use ephemeral_os.Fs.Bitmap.Allocate.{Outcome, disk_full, found, allocate_block-Outcome}
use ephemeral_os.Fs.Inodes.{free_inode, take_inode, new_inode, allocate_inode}
use ephemeral_os.Fs.Inodes.Laws.{InodeOutcome, table_full, taken, allocate_inode-InodeOutcome}
use ephemeral_os.Fs.Lookup.{find_inode_by_path, fs_dir_exists}
use ephemeral_os.Fs.Path.{split_path}
use ephemeral_os.Fs.Dir.{DirBlock, DirEntry, encode_dir, write_dir}
use ephemeral_os.Fs.Create.{
  Status, success, failure, new_dir, link, set_type_dir, set_block, make_dir, fs_create_dir,
}
use ephemeral_os.Fs.File.{fs_read_file}
use ephemeral_os.Fs.Tree.{Added, Room}
use ephemeral_os.Fs.Tree.Paths.{find_inode_by_path-new, find_inode_by_path-Room}
use ephemeral_os.Fs.Tree.Linked.{
  Untouched, link-Linked, link-Added, Added-sync, same_block, write_table, write_super,
}
use ephemeral_os.Fs.Tree.ReadBack.{length_ne}
use ephemeral_os.Fs.Tree.Others.{fs_read_file-Added}

-- The state in which the directory has its block.
abbrev based : Fs → ℕ → ℕ → ℕ → Fs
based fs p n b = set_block (mark_block_used (set_type_dir (take_inode fs n) n p) b) n 0 b

abbrev pub filled_in : Fs → ℕ → ℕ → ℕ → Fs
filled_in fs p n b = write_dir (based fs p n b) b (new_dir n p)

abbrev pub finish : Fs → Fs
finish fs = sync_block_bitmap (sync_inode_table fs)

finish-inode : (fs : Fs) (j : ℕ) → (inode_at (finish fs) j).type ≡ (inode_at fs j).type
unfolding sync_block_bitmap sync_inode_table
finish-inode fs j = refl

-- The steps of a call that makes a directory.
data MadeDir (fs : Fs) (p : ℕ) (w : Bytes) (fs' : Fs) : Type 0 where
  made :
      (n b : ℕ) (fs3 : Fs)
      → n < 200
      → b < 512
      → (inode_at fs n).type ≡ 0
      → is_block_free fs.block_bitmap b ≡ true
      → link (filled_in fs p n b) p w n ≡ some fs3
      → fs' ≡ finish fs3
      → MadeDir fs p w fs'

abbrev pub linked : ℕ → Fs → Option Fs → Fs × Status
linked n fs2 o = elim o [ none ↦ (free_inode fs2 n, failure) | some fs3 ↦ (finish fs3, success) ]

success_ne : {a b : Fs} → ◌≢◌ {A = Fs × Status} (a, failure) (b, success)
success_ne e = cc

linked-success :
    (n : ℕ) (fs2 : Fs) (o : Option Fs) {fs' : Fs}
    → linked n fs2 o ≡ (fs', success)
    → (fs3 : Fs) × (o ≡ some fs3) × (fs' ≡ finish fs3)
linked-success n fs2 none e = absurd (success_ne e)
linked-success n fs2 (some fs3) e = (fs3, refl, ap (λ r. r.0) (sym e))

-- Behind the call of `allocate_block`, and behind the call of `allocate_inode`.
abbrev pub blocked : ℕ → Bytes → ℕ → Fs × ℕ → Fs × Status
blocked p w n r =
    if r.1 == no_index
    then (free_inode r.0 n, failure)
    else let fs4 = write_dir (set_block r.0 n 0 r.1) r.1 (new_dir n p) in
      linked n fs4 (link fs4 p w n)

blocked-success :
    (fs : Fs) (p : ℕ) (w : Bytes) (n : ℕ) {fs' : Fs}
    → n < 200
    → (inode_at fs n).type ≡ 0
    → (r : Fs × ℕ) → Outcome (set_type_dir (take_inode fs n) n p) 0 512 r
    → blocked p w n r ≡ (fs', success)
    → MadeDir fs p w fs'
unfolding set_type_dir take_inode
blocked-success fs p w n lt f r (disk_full u q) e =
    absurd (success_ne (ap (blocked p w n) (sym q) ∙ e))
blocked-success fs p w n lt f r (found b _ l g u q) e =
    let z : (b == no_index) ≡ false = ground arith in
    let (fs3, k, h) =
      linked-success n (filled_in fs p n b) (link (filled_in fs p n b) p w n)
        (rw z at (ap (blocked p w n) (sym q) ∙ e)) in
    made n b fs3 lt l f g k h

abbrev pub after : ℕ → Bytes → Fs × ℕ → Fs × Status
after p w r =
    if r.1 == no_index
    then (r.0, failure)
    else blocked p w r.1 (allocate_block (set_type_dir r.0 r.1 p))

pub make_dir-after :
    (fs : Fs) (p : ℕ) (w : Bytes)
    → (inode_at fs p).type ≡ 2
    → make_dir fs p w ≡ after p w (allocate_inode fs)
unfolding make_dir
make_dir-after fs p w t =
    let is_dir : not ((inode_at fs p).type == 2) ≡ false = ground arith in rw is_dir refl

make_dir-MadeDir :
    (fs : Fs) (p : ℕ) (w : Bytes) {fs' : Fs}
    → (inode_at fs p).type ≡ 2
    → make_dir fs p w ≡ (fs', success)
    → MadeDir fs p w fs'
make_dir-MadeDir fs p w {fs'} t e =
    go (allocate_inode fs) (allocate_inode-InodeOutcome fs) (sym (make_dir-after fs p w t) ∙ e)
  where
    go : (r : Fs × ℕ) → InodeOutcome fs 0 200 r → after p w r ≡ (fs', success) → MadeDir fs p w fs'
    go r (table_full u q) e = absurd (success_ne (ap (after p w) (sym q) ∙ e))
    go r (taken n _ lt f u q) e =
        let z : (n == no_index) ≡ false = ground arith in
        blocked-success fs p w n lt f _ (allocate_block-Outcome _)
          (rw z at (ap (after p w) (sym q) ∙ e))

mark_same : (t : Fs) (b : ℕ) → (mark_block_used t b).inode_table ≡ t.inode_table
unfolding mark_block_used
mark_same t b = ground arith

module _ (fs : Fs) (p n b : ℕ) (lt : b < 512) (free : is_block_free fs.block_bitmap b ≡ true)
    (zero_used : is_block_free fs.block_bitmap 0 ≡ false) where
  b_ne : (c : ℕ) → is_block_free fs.block_bitmap c ≡ false → b ≢ c
  b_ne c u e = ground arith

  root_same : (based fs p n b).superblock.root_inode ≡ fs.superblock.root_inode
  unfolding set_block mark_block_used set_type_dir take_inode
  root_same = ground arith

  other_same : (j : ℕ) → j ≢ n → inode_at (based fs p n b) j ≡ inode_at fs j
  unfolding set_block set_type_dir take_inode
  other_same j ne =
      get_or-set_ne (mark_block_used (set_type_dir (take_inode fs n) n p) b).inode_table n j _
        zero_inode (λ e. ne (sym e))
      ∙ ap (λ t. get_or t j zero_inode) (mark_same (set_type_dir (take_inode fs n) n p) b)
      ∙ get_or-set_ne (take_inode fs n).inode_table n j _ zero_inode (λ e. ne (sym e))
      ∙ get_or-set_ne fs.inode_table n j new_inode zero_inode (λ e. ne (sym e))

  read_same : (c : ℕ) → read_inode_block (based fs p n b) c ≡ read_inode_block fs c
  unfolding set_block mark_block_used set_type_dir take_inode read_inode_block
  read_same c = ground arith

  pub filled_in-Untouched : Untouched fs (filled_in fs p n b) n
  unfolding write_dir
  filled_in-Untouched = record {
    root =
        ap (λ s. s.root_inode) (write_super (based fs p n b) b (encode_dir (new_dir n p)))
        ∙ root_same;
    inodes = λ j ne.
        ap (λ t. get_or t j zero_inode) (write_table (based fs p n b) b (encode_dir (new_dir n p)))
        ∙ other_same j ne;
    reads = λ c l u.
        read-write_inode_block (based fs p n b) b c (encode_dir (new_dir n p)) (b_ne 0 zero_used) lt
        ∙ rw (==_false b c (b_ne c u)) (read_same c);
  }

module _ (fs : Fs) (path : Bytes) (p : ℕ) (w : Bytes) (d : DirBlock) (last : DirEntry)
    (room : Room fs path p w d last) (zero_used : is_block_free fs.block_bitmap 0 ≡ false) where
  own_type : (n b : ℕ) → n < 200 → b < 512 → (inode_at (filled_in fs p n b) n).type ≡ 2
  unfolding write_dir set_block set_type_dir take_inode
  own_type n b l lt =
      ap (λ t. (get_or t n zero_inode).type)
        (write_table (based fs p n b) b (encode_dir (new_dir n p)))
      ∙ ap (λ i. i.type)
          (get_or-set_self (mark_block_used (set_type_dir (take_inode fs n) n p) b).inode_table n _
            zero_inode long)
      ∙ ap (λ t. (get_or t n zero_inode).type) (mark_same (set_type_dir (take_inode fs n) n p) b)
      ∙ ap (λ i. i.type) (get_or-set_self (take_inode fs n).inode_table n _ zero_inode taken_long)
    where
      taken_long : n < length (set fs.inode_table n new_inode)
      taken_long = omega (arith, room.table, length-set {0} fs.inode_table n new_inode)

      long : n < length (mark_block_used (set_type_dir (take_inode fs n) n p) b).inode_table
      long = rw (mark_same (set_type_dir (take_inode fs n) n p) b) (
          omega (
            arith,
            room.table,
            length-set {0} fs.inode_table n new_inode,
            length-set {0} (set fs.inode_table n new_inode) n _,
          ))

  pub fs_create_dir-make_dir : fs_create_dir fs path ≡ make_dir fs p w
  unfolding fs_create_dir
  fs_create_dir-make_dir =
      rw (named, absent, there) refl
      ∙ ap (λ q. make_dir fs q (split_path path).1) room.parent
      ∙ ap (λ v. make_dir fs p v) room.name
    where
      named : (length (split_path path).1 == 0 || leb 28 (length (split_path path).1)) ≡ false
      named = rw room.name (ground (arith, length_ne w room.non_empty, room.short))

      absent : not (find_inode_by_path fs path == no_index) ≡ false
      absent = rw (find_inode_by_path-Room fs path p w d last room) refl

      there : not (find_inode_by_path fs (split_path path).0 == no_index) ≡ true
      there = rw room.parent (ground (arith, room.parent_lt))

  -- In a sound state where block 0 is in use, with a path whose parent directory has a free entry and
  -- none of the name: when `fs_create_dir` returns 0, `fs_dir_exists` finds the directory, and every
  -- path that `fs_read_file` read before it reads as before.
  pub fs_dir_exists-fs_create_dir :
      {fs' : Fs}
      → fs_create_dir fs path ≡ (fs', success)
      → (fs_dir_exists fs' path ≡ true)
        × ((other : Bytes) (max_size : ℕ) (r : ℕ × Bytes)
            → fs_read_file fs other max_size ≡ some r
            → fs_read_file fs' other max_size ≡ some r)
  unfolding fs_dir_exists
  fs_dir_exists-fs_create_dir {fs'} e =
      go (make_dir-MadeDir fs p w room.parent_dir (sym fs_create_dir-make_dir ∙ e))
    where
      exists :
          (n : ℕ)
          → n < 200
          → find_inode_by_path fs' path ≡ n
          → (inode_at fs' n).type ≡ 2
          → fs_dir_exists fs' path ≡ true
      exists n lt q t = ground arith

      go :
          MadeDir fs p w fs'
          → (fs_dir_exists fs' path ≡ true)
            × ((other : Bytes) (max_size : ℕ) (r : ℕ × Bytes)
                → fs_read_file fs other max_size ≡ some r
                → fs_read_file fs' other max_size ≡ some r)
      go (made n b fs3 lt l f g k h) =
          let u = filled_in-Untouched fs p n b l g zero_used in
          let t = link-Added fs path p w d last room (filled_in fs p n b) n f lt u k in
          let home = same_block fs path p w d last room (filled_in fs p n b) n f lt u in
          let linked =
            link-Linked (filled_in fs p n b) p w n (λ z. room.dir.block_ne (sym home ∙ z))
              (rw home room.dir.block_lt) k in
          let added = subst (λ x. Added fs x p n w d) (sym h) (Added-sync t) in
          (
            exists n lt (find_inode_by_path-new fs fs' path p n w d last room added) (
                ap (λ x. (inode_at x n).type) h
                ∙ finish-inode fs3 n
                ∙ ap (λ t. (get_or t n zero_inode).type) linked.table
                ∙ own_type n b lt l),
            λ other max_size r.
                fs_read_file-Added fs fs' path p n w d last room added other max_size,
          )

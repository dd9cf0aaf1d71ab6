-- ===== src/Fs/Tree/Linked.antt =====
-- fs/filesystem.c: the entry in the parent's block makes a new inode known, and touches nothing else.
use ephemeral_os.Base.{
  get_or, take, replicate, ◌++◌, sym, ap, ◌∙◌, ◌<◌, arith, subst, ℕ, ◌≡◌, refl, ◌≢◌, inl, inr, true,
  false, Option, none, some, [], ◌∷◌, Bytes, ◌==◌, ==_false, Bool-cases,
}
use ephemeral_os.Fs.State.{
  zero_inode, Fs, inode_at, first_block, read_inode_block, write_inode_block, sync_inode_table,
  sync_block_bitmap, sync_superblock,
}
use ephemeral_os.Fs.State.Blocks.{read-write_inode_block}
use ephemeral_os.Fs.Bitmap.{is_block_free}
use ephemeral_os.Fs.Dir.{
  decode_dir, read_dir, find_entry, DirBlock, DirEntry, write_dir, add_entry, encode_dir,
}
use ephemeral_os.Fs.Create.{link}
use ephemeral_os.Fs.Create.Made.{HasDir, link_lem}
use ephemeral_os.Fs.Dir.Entries.{filled}
use ephemeral_os.Fs.Tree.{Added, Room, any_open}

-- What was done before the entry is made touches the inode `n` and free blocks alone.
pub record Untouched (fs fs2 : Fs) (n : ℕ) : Type 0 where
  pub root : fs2.superblock.root_inode ≡ fs.superblock.root_inode
  pub inodes : (j : ℕ) → j ≢ n → inode_at fs2 j ≡ inode_at fs j
  pub reads :
      (c : ℕ)
      → c < 512
      → is_block_free fs.block_bitmap c ≡ false
      → read_inode_block fs2 c ≡ read_inode_block fs c

add_entry-open :
    (d : DirBlock) (w : Bytes) (n : ℕ)
    → any_open d ≡ true
    → (d' : DirBlock) × (add_entry d w n ≡ some d')
unfolding add_entry
add_entry-open [] w n h = cc
add_entry-open (e ∷ d) w n h = elim (Bool-cases (e.in_use == 1)) [
  | inr z ↦ (filled e w n ∷ d, rw z refl)
  | inl y ↦ let (d', q) = add_entry-open d w n (rw y at h) in (e ∷ d', rw (y, q) refl)
]

-- What `link` leaves: the same tables, and every block but the directory's.
pub record Linked (fs fs3 : Fs) (p : ℕ) : Type 0 where
  pub table : fs3.inode_table ≡ fs.inode_table
  pub super : fs3.superblock ≡ fs.superblock
  pub reads : (c : ℕ) → first_block fs p ≢ c → read_inode_block fs3 c ≡ read_inode_block fs c

pub write_table :
    (fs : Fs) (b : ℕ) (buffer : Bytes)
    → (write_inode_block fs b buffer).inode_table ≡ fs.inode_table
unfolding write_inode_block
write_table fs b buffer = ground arith

pub write_super :
    (fs : Fs) (b : ℕ) (buffer : Bytes) → (write_inode_block fs b buffer).superblock ≡ fs.superblock
unfolding write_inode_block
write_super fs b buffer = ground arith

pub link-Linked :
    (fs : Fs) (p : ℕ) (w : Bytes) (n : ℕ) {fs3 : Fs}
    → first_block fs p ≢ 0
    → first_block fs p < 512
    → link fs p w n ≡ some fs3
    → Linked fs fs3 p
unfolding link write_dir
link-Linked fs p w n {fs3} nz lt e = go (add_entry (read_dir fs (first_block fs p)) w n) e
  where
    some_injective : {x y : Fs} → some x ≡ some y → x ≡ y
    some_injective h = cc

    written : (d : DirBlock) → Linked fs (write_inode_block fs (first_block fs p) (encode_dir d)) p
    written d = record {
      table = write_table fs (first_block fs p) (encode_dir d);
      super = write_super fs (first_block fs p) (encode_dir d);
      reads = λ c ne.
          read-write_inode_block fs (first_block fs p) c (encode_dir d) nz lt
          ∙ (rw (==_false (first_block fs p) c ne) refl);
    }

    go :
        (o : Option DirBlock)
        → elim o [ none ↦ none | some d ↦ some (write_dir fs (first_block fs p) d) ] ≡ some fs3
        → Linked fs fs3 p
    go none h = cc
    go (some d) h = subst (λ t. Linked fs t p) (some_injective h) (written d)

module _ (fs : Fs) (path : Bytes) (p : ℕ) (w : Bytes) (d : DirBlock) (last : DirEntry)
    (room : Room fs path p w d last) (fs2 : Fs) (n : ℕ) (free : (inode_at fs n).type ≡ 0)
    (lt : n < 200) (u : Untouched fs fs2 n) where
  pub p_ne_n : p ≢ n
  p_ne_n e = two_ne (sym room.parent_dir ∙ ap (λ i. (inode_at fs i).type) e ∙ free)
    where
      two_ne : ◌≢◌ {A = ℕ} 2 0
      two_ne h = omega arith

  pub same_block : first_block fs2 p ≡ first_block fs p
  same_block = ap (λ i. get_or i.blocks 0 0) (u.inodes p p_ne_n)

  HasDir-Untouched : HasDir fs2 p d last
  unfolding read_dir
  HasDir-Untouched = record {
    block_ne = rw same_block room.dir.block_ne;
    block_lt = rw same_block room.dir.block_lt;
    reads =
        ap (λ b. read_dir fs2 b) same_block
        ∙ ap (λ t. decode_dir 15 (take 512 t ++ replicate 28 0))
            (u.reads (first_block fs p) room.dir.block_lt (room.sound.used p 0 room.dir.block_ne))
        ∙ room.dir.reads;
    size = room.dir.size;
    entries = room.dir.entries;
    last_entry = room.dir.last_entry;
    last_free = room.dir.last_free;
  }

  -- The entry can be made.
  pub link-open : (fs3 : Fs) × (link fs2 p w n ≡ some fs3)
  link-open =
      let (d', a) = add_entry-open d w n room.open_entry in
      let l =
        link_lem fs2 p d last HasDir-Untouched w n room.short (omega arith) room.nul_free
          room.absent a in
      (l.0, l.1)

  -- Once the entry is made, the new inode is in the directory.
  pub link-Added : {fs3 : Fs} → link fs2 p w n ≡ some fs3 → Added fs fs3 p n w d
  link-Added {fs3} e =
      let k = link-Linked fs2 p w n HasDir-Untouched.block_ne HasDir-Untouched.block_lt e in
      let (d', a) = add_entry-open d w n room.open_entry in
      let l =
        link_lem fs2 p d last HasDir-Untouched w n room.short (omega arith) room.nul_free
          room.absent a in
      let same : fs3 ≡ l.0 = some_injective (sym e ∙ l.1) in
      record {
        root = ap (λ s. s.root_inode) k.super ∙ u.root;
        was_free = free;
        inodes = λ j ne. ap (λ t. get_or t j zero_inode) k.table ∙ u.inodes j ne;
        reads = λ c l f ne. k.reads c (λ z. ne (sym z ∙ same_block)) ∙ u.reads c l f;
        entry = λ other.
            ap (λ b. find_entry (read_dir fs3 b) other) (sym same_block)
            ∙ ap (λ t. find_entry (read_dir t (first_block fs2 p)) other) same
            ∙ l.2 other;
      }
    where
      some_injective : {x y : Fs} → some x ≡ some y → x ≡ y
      some_injective h = cc

-- The tables that are written to the drive at the end change nothing of this.
pub Added-sync :
    {fs fs' : Fs} {p n : ℕ} {w : Bytes} {d : DirBlock}
    → Added fs fs' p n w d
    → Added fs (sync_block_bitmap (sync_inode_table fs')) p n w d
unfolding sync_block_bitmap sync_inode_table read_dir read_inode_block
Added-sync a = record {
  root = a.root;
  was_free = a.was_free;
  inodes = a.inodes;
  reads = a.reads;
  entry = a.entry;
}

pub Added-sync_superblock :
    {fs fs' : Fs} {p n : ℕ} {w : Bytes} {d : DirBlock}
    → Added fs fs' p n w d
    → Added fs (sync_superblock fs') p n w d
unfolding sync_superblock read_dir read_inode_block
Added-sync_superblock a = record {
  root = a.root;
  was_free = a.was_free;
  inodes = a.inodes;
  reads = a.reads;
  entry = a.entry;
}

-- ===== src/Fs/Tree/Files.antt =====
-- fs/filesystem.c: a file that `fs_create_file` makes, read by `fs_read_file`.
use ephemeral_os.Base.{
  ℕ, ◌<◌, ◌≡◌, refl, sym, ap, ◌∙◌, ◌≢◌, Bool, true, false, not, Option, none, some, arith, Bytes,
  no_index, ◌==◌, if◌then◌else◌, length, set, length-set, get_or-set_self, get_or-set_ne,
}
use ephemeral_os.Fs.State.{
  Fs, Inode, zero_inode, inode_at, read_inode_block, sync_inode_table, sync_block_bitmap,
  sync_superblock,
}
use ephemeral_os.Fs.Bitmap.{is_block_free}
use ephemeral_os.Fs.Inodes.{free_inode, take_inode, new_inode, allocate_inode}
use ephemeral_os.Fs.Inodes.Laws.{InodeOutcome, table_full, taken, allocate_inode-InodeOutcome}
use ephemeral_os.Fs.Create.{Status, success, failure, link}
use ephemeral_os.Fs.File.{make_file, store_blocks, blocks_needed, set_type_file}
use ephemeral_os.Fs.File.Contents.{IsReady}
use ephemeral_os.Fs.Sound.{IsSound}
use ephemeral_os.Fs.Sound.Kept.{take_inode_lem, IsSound-Stable}

-- The state from which the data is stored.
abbrev pub typed : Fs → ℕ → ℕ → Bytes → Fs
typed fs p n file = set_type_file (take_inode fs n) n (length file) p

abbrev pub finish : Fs → Fs
finish fs = sync_superblock (sync_block_bitmap (sync_inode_table fs))

-- The steps of a call that makes a file.
pub data MadeFile (fs : Fs) (p : ℕ) (w file : Bytes) (fs' : Fs) : Type 0 where
  made :
      (n : ℕ) (fs2 fs3 : Fs)
      → n < 200
      → (inode_at fs n).type ≡ 0
      → store_blocks (typed fs p n file) n (blocks_needed (length file)) 0 file ≡ (fs2, true)
      → link fs2 p w n ≡ some fs3
      → fs' ≡ finish fs3
      → MadeFile fs p w file fs'

-- Behind the loop, and behind the call of `allocate_inode`.
abbrev linked : ℕ → Fs → Option Fs → Fs × Status
linked n fs2 o = elim o [ none ↦ (free_inode fs2 n, failure) | some fs3 ↦ (finish fs3, success) ]

abbrev stored : ℕ → Bytes → ℕ → Fs × Bool → Fs × Status
stored p w n r = if not r.1 then (free_inode r.0 n, failure) else linked n r.0 (link r.0 p w n)

success_ne : {a b : Fs} → ◌≢◌ {A = Fs × Status} (a, failure) (b, success)
success_ne e = cc

linked-success :
    (n : ℕ) (fs2 : Fs) (o : Option Fs) {fs' : Fs}
    → linked n fs2 o ≡ (fs', success)
    → (fs3 : Fs) × (o ≡ some fs3) × (fs' ≡ finish fs3)
linked-success n fs2 none e = absurd (success_ne e)
linked-success n fs2 (some fs3) e = (fs3, refl, ap (λ r. r.0) (sym e))

stored-success :
    (fs : Fs) (p : ℕ) (w file : Bytes) (n : ℕ) (r : Fs × Bool) {fs' : Fs}
    → n < 200
    → (inode_at fs n).type ≡ 0
    → store_blocks (typed fs p n file) n (blocks_needed (length file)) 0 file ≡ r
    → stored p w n r ≡ (fs', success)
    → MadeFile fs p w file fs'
stored-success fs p w file n (fs2, false) lt f s e = absurd (success_ne e)
stored-success fs p w file n (fs2, true) lt f s e =
    let (fs3, l, q) = linked-success n fs2 (link fs2 p w n) e in made n fs2 fs3 lt f s l q

pub make_file-MadeFile :
    (fs : Fs) (p : ℕ) (w file : Bytes) {fs' : Fs}
    → make_file fs p w file ≡ (fs', success)
    → MadeFile fs p w file fs'
unfolding make_file
make_file-MadeFile fs p w file {fs'} e = go (allocate_inode fs) (allocate_inode-InodeOutcome fs) e
  where
    after : Fs × ℕ → Fs × Status
    after r =
        if r.1 == no_index
        then (r.0, failure)
        else stored p w r.1 (
            store_blocks (set_type_file r.0 r.1 (length file) p) r.1 (blocks_needed (length file)) 0
              file)

    go :
        (r : Fs × ℕ) → InodeOutcome fs 0 200 r → after r ≡ (fs', success) → MadeFile fs p w file fs'
    go r (table_full u q) e = absurd (success_ne (ap after (sym q) ∙ e))
    go r (taken n _ lt f u q) e =
        let z : (n == no_index) ≡ false = ground arith in
        stored-success fs p w file n _ lt f refl (rw z at (ap after (sym q) ∙ e))

module _ (fs : Fs) (p n : ℕ) (file : Bytes) (table : length fs.inode_table ≡ 200)
    (lt : n < 200) where
  pub typed-own :
      inode_at (typed fs p n file) n
      ≡ record new_inode { type = 1; size = length file; parent_inode = p }
  unfolding set_type_file take_inode
  typed-own =
      get_or-set_self (take_inode fs n).inode_table n _ zero_inode long
      ∙ ap (λ (i : Inode). record i { type = 1; size = length file; parent_inode = p })
          (get_or-set_self fs.inode_table n new_inode zero_inode (omega arith))
    where
      long : n < length (set fs.inode_table n new_inode)
      long = omega (arith, length-set {0} fs.inode_table n new_inode)

  pub typed-other : (j : ℕ) → j ≢ n → inode_at (typed fs p n file) j ≡ inode_at fs j
  unfolding set_type_file take_inode
  typed-other j ne =
      get_or-set_ne (take_inode fs n).inode_table n j _ zero_inode (λ e. ne (sym e))
      ∙ get_or-set_ne fs.inode_table n j new_inode zero_inode (λ e. ne (sym e))

  pub typed-IsReady :
      IsSound fs → is_block_free fs.block_bitmap 0 ≡ false → IsReady (typed fs p n file) n
  unfolding set_type_file take_inode
  typed-IsReady sound z = record {
    bitmap = sound.counted.bitmap;
    zero_used = z;
    in_table = omega (
      arith,
      length-set {0} fs.inode_table n new_inode,
      length-set {0} (set fs.inode_table n new_inode) n (record (inode_at (take_inode fs n) n) {
        type = 1;
        size = length file;
        parent_inode = p;
      }),
    );
    pointers = ap (λ i. length i.blocks) typed-own;
  }

  pub typed-IsSound : IsSound fs → IsSound (typed fs p n file)
  unfolding set_type_file
  typed-IsSound sound =
      IsSound-Stable.describe (take_inode fs n) n 1 (length file) p (take_inode_lem fs n sound)

  pub typed-root : (typed fs p n file).superblock.root_inode ≡ fs.superblock.root_inode
  unfolding set_type_file take_inode
  typed-root = refl

  pub typed-bitmap : (typed fs p n file).block_bitmap ≡ fs.block_bitmap
  unfolding set_type_file take_inode
  typed-bitmap = refl

  pub typed-read : (c : ℕ) → read_inode_block (typed fs p n file) c ≡ read_inode_block fs c
  unfolding set_type_file take_inode read_inode_block
  typed-read c = refl

-- ===== src/Fs/Tree.antt =====
-- fs/filesystem.c: what a new entry in a directory means for the paths. `Added` says what the calls
-- that make a directory or a file have in common.
pub mod Paths
pub mod Linked
pub mod Stored
pub mod Files
pub mod ReadBack
pub mod Others
pub mod Dirs
pub mod Enough
use ephemeral_os.Base.{
  not, true, false, ℕ, ◌<◌, ◌≢◌, ◌||◌, ◌∷◌, [], length, ◌≡◌, refl, inl, inr, Bool, Bytes, no_index,
  str_eq, leb, ◌==◌, if◌then◌else◌, Bool-cases,
}
use ephemeral_os.Fs.State.{Fs, inode_at, first_block, read_inode_block}
use ephemeral_os.Fs.Dir.{DirBlock, DirEntry, read_dir, find_entry}
use ephemeral_os.Text.Compare.{NulFree}
use ephemeral_os.Fs.Dir.Entries.{Absent}
use ephemeral_os.Fs.Bitmap.{is_block_free}
use ephemeral_os.Fs.Lookup.{find_component, find_inode_by_path}
use ephemeral_os.Fs.Path.{split_path}
use ephemeral_os.Fs.Create.Made.{HasDir}
use ephemeral_os.Fs.Sound.{IsSound}

-- The new state has the inode `n`, free before, under the name `w` in the directory `p`, whose entries
-- were `d`; every block in use but the directory's and every other inode are as they were.
pub record Added (fs fs' : Fs) (p n : ℕ) (w : Bytes) (d : DirBlock) : Type 0 where
  pub root : fs'.superblock.root_inode ≡ fs.superblock.root_inode
  pub was_free : (inode_at fs n).type ≡ 0
  pub inodes : (j : ℕ) → j ≢ n → inode_at fs' j ≡ inode_at fs j
  pub reads :
      (c : ℕ)
      → c < 512
      → is_block_free fs.block_bitmap c ≡ false
      → c ≢ first_block fs p
      → read_inode_block fs' c ≡ read_inode_block fs c
  pub entry :
      (other : Bytes)
      → find_entry (read_dir fs' (first_block fs p)) other
        ≡ (if str_eq w other then n else find_entry d other)

pub find_entry-Absent : (d : DirBlock) (w : Bytes) → Absent w d → find_entry d w ≡ no_index
unfolding find_entry
find_entry-Absent [] w h = refl
find_entry-Absent (e ∷ d) w (h, hs) = rw h (find_entry-Absent d w hs)

-- What a search that finds something has passed.
pub record Passed (fs : Fs) (current : ℕ) (name : Bytes) : Type 0 where
  pub short : leb 28 (length name) ≡ false
  pub in_table : leb 200 current ≡ false
  pub is_dir : ((inode_at fs current).type == 2) ≡ true
  pub in_data : (first_block fs current == 0 || leb 512 (first_block fs current)) ≡ false

pub find_component-Passed :
    (fs : Fs) (current : ℕ) (name : Bytes)
    → find_component fs current name ≢ no_index
    → Passed fs current name
unfolding find_component
find_component-Passed fs current name h = elim (Bool-cases (leb 28 (length name))) [
  | inl y ↦ absurd (h (rw y refl))
  | inr short ↦ elim (Bool-cases (leb 200 current)) [
    | inl y ↦ absurd (h (rw (short, y) refl))
    | inr in_table ↦ elim (Bool-cases ((inode_at fs current).type == 2)) [
      | inr z ↦ absurd (h (rw (short, in_table, z) refl))
      | inl is_dir ↦
          elim (Bool-cases (first_block fs current == 0 || leb 512 (first_block fs current))) [
            | inl y ↦ absurd (h (rw (short, in_table, is_dir, y) refl))
            | inr in_data ↦ record {
              short = short;
              in_table = in_table;
              is_dir = is_dir;
              in_data = in_data;
            }
          ]
    ]
  ]
]

pub Passed-find_component :
    (fs : Fs) (current : ℕ) (name : Bytes)
    → Passed fs current name
    → find_component fs current name ≡ find_entry (read_dir fs (first_block fs current)) name
unfolding find_component
Passed-find_component fs current name w = rw (w.short, w.in_table, w.is_dir, w.in_data) refl

-- Some entry is not in use.
abbrev pub any_open : DirBlock → Bool
any_open [] = false
any_open (e ∷ d) = not (e.in_use == 1) || any_open d

-- The directory `p` that a path leads to up to its last component `w`, with room for an entry of that
-- name, in a sound state with the whole inode table.
pub record Room (fs : Fs) (path : Bytes) (p : ℕ) (w : Bytes) (d : DirBlock) (last : DirEntry)
    : Type 0 where
  pub sound : IsSound fs
  pub table : length fs.inode_table ≡ 200
  pub parent : find_inode_by_path fs (split_path path).0 ≡ p
  pub name : (split_path path).1 ≡ w
  pub parent_lt : p < 200
  pub parent_dir : (inode_at fs p).type ≡ 2
  pub dir : HasDir fs p d last
  pub short : length w < 28
  pub non_empty : w ≢ []
  pub nul_free : NulFree w
  pub absent : Absent w d
  pub open_entry : any_open d ≡ true

-- ===== src/Fs/Create/Made.antt =====
-- fs/filesystem.c: the entry that `fs_create_dir` and `fs_create_file` put into the parent's block.
use ephemeral_os.Base.{
  arith, ℕ, ◌^◌, ◌<◌, ◌≡◌, refl, ◌∙◌, ◌≢◌, false, some, [], ◌∷◌, ◌++◌, Bytes, All, str_eq, ◌==◌,
  if◌then◌else◌, length,
}
use ephemeral_os.Text.Compare.{NulFree}
use ephemeral_os.Fs.State.{Fs, first_block}
use ephemeral_os.Fs.Dir.{DirEntry, DirBlock, read_dir, write_dir, find_entry, add_entry}
use ephemeral_os.Fs.Dir.RoundTrip.{IsEntry, stump, read_dir-write_dir}
use ephemeral_os.Fs.Dir.Entries.{
  Absent, AllInUse, filled, filled-IsEntry, find_entry-add_entry, add_entry-last, add_entry-append,
  add_entry-IsEntry, find_entry-append,
}
use ephemeral_os.Fs.Create.{link}

-- The parent's first block lies in the data area, and reads as fourteen entries and a fifteenth that
-- is not in use.
pub record HasDir (fs : Fs) (parent : ℕ) (d : DirBlock) (last : DirEntry) : Type 0 where
  pub block_ne : first_block fs parent ≢ 0
  pub block_lt : first_block fs parent < 512
  pub reads : read_dir fs (first_block fs parent) ≡ d ++ last ∷ []
  pub size : length d ≡ 14
  pub entries : All IsEntry d
  pub last_entry : IsEntry last
  pub last_free : (last.in_use == 1) ≡ false

module _ (fs : Fs) (parent : ℕ) (d : DirBlock) (last : DirEntry) (w : HasDir fs parent d last)
    (name : Bytes) (inode : ℕ) (short : length name < 28) (word : inode < 2 ^ 32) where
  link_eq :
      {d' : DirBlock}
      → add_entry (d ++ last ∷ []) name inode ≡ some d'
      → link fs parent name inode ≡ some (write_dir fs (first_block fs parent) d')
  unfolding link
  link_eq {d'} e = ground (arith, w.reads, e)

  -- In a parent whose first block is on the drive, is not block 0, and reads as fourteen entries as C
  -- can hold them and a fifteenth that is not in use, with a name of fewer than 28 bytes, none NUL, and a 32-bit inode number: when
  -- one of the fourteen entries is free, and no entry in use has the name, the entry is made; the
  -- parent's block then gives the new inode for the name, and for every other name what it gave before.
  pub link_lem :
      NulFree name
      → Absent name d
      → {d' : DirBlock} → add_entry d name inode ≡ some d'
      → (fs' : Fs) × (link fs parent name inode ≡ some fs')
        × ((other : Bytes)
            → find_entry (read_dir fs' (first_block fs parent)) other
              ≡ (if str_eq name other then inode else find_entry d other))
  link_lem h a {d'} e = (
    write_dir fs (first_block fs parent) (d' ++ last ∷ []),
    link_eq (add_entry-append d (last ∷ []) name inode e),
    found,
  )
    where
      entry : All IsEntry d' × (length d' ≡ length d)
      entry = add_entry-IsEntry d name inode short word w.entries e

      found :
          (other : Bytes)
          → find_entry
              (read_dir
                (write_dir fs (first_block fs parent) (d' ++ last ∷ []))
                (first_block fs parent))
              other
            ≡ (if str_eq name other then inode else find_entry d other)
      found other =
          rw
            (read_dir-write_dir d' last (entry.1 ∙ w.size) entry.0 w.last_entry fs
              (first_block fs parent) w.block_ne w.block_lt)
            (find_entry-append d' (stump last) other refl
              ∙ find_entry-add_entry d name other inode h a e)

  -- In a parent whose first block is on the drive, is not block 0, and reads as fourteen entries as C
  -- can hold them and a fifteenth that is not in use,
  -- with a name of fewer than 28 bytes and a 32-bit inode number: when the fourteen are all in use, the call that makes the entry still reports that it
  -- did, and the parent's block then gives for every name what it gave before: the entry is lost.
  pub link-lost :
      AllInUse d
      → (fs' : Fs) × (link fs parent name inode ≡ some fs')
        × ((other : Bytes)
            → find_entry (read_dir fs' (first_block fs parent)) other ≡ find_entry d other)
  link-lost u = (
    write_dir fs (first_block fs parent) (d ++ filled last name inode ∷ []),
    link_eq (add_entry-last d last name inode u w.last_free),
    found,
  )
    where
      found :
          (other : Bytes)
          → find_entry
              (read_dir
                (write_dir fs (first_block fs parent) (d ++ filled last name inode ∷ []))
                (first_block fs parent))
              other
            ≡ find_entry d other
      found other =
          rw
            (read_dir-write_dir d (filled last name inode) w.size w.entries
              (filled-IsEntry last name inode short word w.last_entry) fs (first_block fs parent)
              w.block_ne w.block_lt)
            (find_entry-append d (stump (filled last name inode)) other refl)

-- ===== src/Examples/Drive.antt =====
-- Drives to run the file system on.
use ephemeral_os.Base.{ℕ, [], ◌∷◌, ◌++◌, codes, set, take, replicate}
use ephemeral_os.Fs.State.{Fs, zero_superblock, zero_inode, type_dir}
use ephemeral_os.Fs.Dir.{DirBlock, DirEntry, zero_entry, encode_dir}
use ephemeral_os.Fs.Install.{fs_install}

abbrev pub blank : Fs
blank = record {
  superblock = zero_superblock;
  inode_table = [];
  block_bitmap = replicate 64 0;
  disk = record {
    superblock = zero_superblock;
    inode_table = [];
    block_bitmap = [];
    sectors = λ l. replicate 512 0;
  };
}

abbrev pub installed : Fs
installed = fs_install blank (codes "host") (codes "ana") (codes "secret")

-- A name in its 28 bytes, with an inode.
abbrev pub entry : ℕ → ℕ → DirEntry
entry letter inode = record { name = letter ∷ replicate 27 0; inode = inode; in_use = 1 }

abbrev pub roomy : DirBlock
roomy = entry b'a' 7 ∷ replicate 13 zero_entry

abbrev pub full : DirBlock
full = replicate 14 (entry b'a' 7)

-- A drive whose inode 0 is a directory in block 1, with these entries and a free one.
abbrev pub with_dir : DirBlock → Fs
with_dir d = record blank {
  inode_table =
      record zero_inode { type = type_dir; blocks = set zero_inode.blocks 0 1 } ∷ zero_inode ∷ [];
  block_bitmap = 3 ∷ replicate 63 0;
  disk = record (blank.disk) { sectors = λ l. take 512 (encode_dir (d ++ zero_entry ∷ [])) };
}

-- ===== src/Fs/Restart.antt =====
-- fs/filesystem.c: what a start of the machine, `fs_check_installed` and `fs_init`, finds on the drive.
use ephemeral_os.Base.{
  subst, ℕ, ◌≡◌, refl, sym, ap, Bool, true, false, not, ◌||◌, ◌++◌, Bytes, codes, no_index, ltb,
  leb, ◌==◌, if◌then◌else◌, length,
}
use ephemeral_os.Fs.State.{Fs, inode_at, sync_superblock, sync_inode_table, sync_block_bitmap}
use ephemeral_os.Fs.Lookup.{find_inode_by_path}
use ephemeral_os.Fs.Path.{split_path}
use ephemeral_os.Fs.Create.{Status, success, failure, out_of_fuel, fs_create_dir}
use ephemeral_os.Fs.File.{fs_delete_file, make_file, replace_file, create_in_parent, fs_create_file}
use ephemeral_os.Fs.Install.{fs_init, fs_check_installed, sync_all, fs_install, install_root, make}
use ephemeral_os.Fs.Install.Password.{fs_install_lem}
use ephemeral_os.Fs.Create.Frame.{identity}
use ephemeral_os.Fs.Tree.Files.{MadeFile, made, finish, make_file-MadeFile}

-- A machine whose memory holds anything, with the drive of `fs`, after `fs_init`.
abbrev pub restart : Fs → Fs → Fs
restart memory fs = fs_init (record memory { disk = fs.disk })

restart-sync_all : (memory fs : Fs) → restart memory (sync_all fs) ≡ sync_all fs
unfolding fs_init sync_all
restart-sync_all memory fs = refl

restart-finish : (memory fs : Fs) → restart memory (finish fs) ≡ finish fs
unfolding fs_init sync_superblock sync_inode_table sync_block_bitmap
restart-finish memory fs = refl

-- `fs_install` up to its last writes.
abbrev before_sync : Fs → Bytes → Bytes → Bytes → Fs
before_sync fs hostname username password =
    let user_home = codes "/home/" ++ username in
    make (user_home ++ codes "/downloads") (
      make (user_home ++ codes "/documents") (
        make user_home (
          make (codes "/var") (
            make (codes "/etc") (
              make (codes "/tmp") (
                make (codes "/home")
                  (make (codes "/bin") (install_root fs hostname username password))))))))

fs_install-restart :
    (memory fs : Fs) (hostname username password : Bytes)
    → restart memory (fs_install fs hostname username password)
      ≡ fs_install fs hostname username password
unfolding fs_install
fs_install-restart memory fs hostname username password =
    restart-sync_all memory (before_sync fs hostname username password)

-- A call that came back with 0 left a state that a restart brings back.
record Survives (memory : Fs) (r : Fs × Status) : Type 0 where
  kept : r.1 ≡ success → restart memory r.0 ≡ r.0

module _ (memory : Fs) where
  failed : (fs : Fs) → Survives memory (fs, failure)
  failed fs = record { kept = λ e. cc }

  if-Survives :
      (b : Bool) {x y : Fs × Status}
      → Survives memory x
      → Survives memory y
      → Survives memory (if b then x else y)
  if-Survives true hx hy = hx
  if-Survives false hx hy = hy

  make_file-Survives : (fs : Fs) (p : ℕ) (w file : Bytes) → Survives memory (make_file fs p w file)
  make_file-Survives fs p w file = record {
    kept = λ e. go (make_file-MadeFile fs p w file (pair e));
  }
    where
      pair :
          (make_file fs p w file).1 ≡ success
          → make_file fs p w file ≡ ((make_file fs p w file).0, success)
      pair q = ap (λ s. ((make_file fs p w file).0, s)) q

      go : {fs' : Fs} → MadeFile fs p w file fs' → restart memory fs' ≡ fs'
      go (made n fs2 fs3 lt f s l q) =
          subst (λ t. restart memory t ≡ t) (sym q) (restart-finish memory fs3)

  replace_file-Survives :
      (fs : Fs) (p : ℕ) (path w file : Bytes) → Survives memory (replace_file fs p path w file)
  unfolding replace_file
  replace_file-Survives fs p path w file =
      if-Survives (not ((inode_at fs p).type == 2)) (failed fs) (
        if-Survives (not (find_inode_by_path fs path == no_index))
          (make_file-Survives (fs_delete_file fs path).0 p w file) (make_file-Survives fs p w file))

  create_in_parent-Survives :
      (path parent_path w file : Bytes) (r : Fs × Status)
      → Survives memory (create_in_parent path parent_path w file r)
  unfolding create_in_parent
  create_in_parent-Survives path parent_path w file (fs, success) =
      if-Survives (find_inode_by_path fs parent_path == no_index) (failed fs)
        (replace_file-Survives fs (find_inode_by_path fs parent_path) path w file)
  create_in_parent-Survives path parent_path w file (fs, failure) = failed fs
  create_in_parent-Survives path parent_path w file (fs, out_of_fuel) = record { kept = λ e. cc }

  fs_create_file-Survives :
      (fs : Fs) (path file : Bytes) → Survives memory (fs_create_file fs path file)
  unfolding fs_create_file
  fs_create_file-Survives fs path file =
      let (front, w) = split_path path in
      if-Survives (ltb 16384 (length file)) (failed fs) (
        if-Survives (length w == 0 || leb 28 (length w)) (failed fs) (
          if-Survives (find_inode_by_path fs front == no_index)
            (create_in_parent-Survives path front w file (fs_create_dir fs front))
            (replace_file-Survives fs (find_inode_by_path fs front) path w file)))

  -- Whatever the state, the path and the data: when `fs_create_file` returns 0, a machine that starts
  -- with the drive as it is then, whatever its memory held, has after `fs_init` the whole state that
  -- `fs_create_file` left.
  pub restart-fs_create_file :
      (fs : Fs) (path file : Bytes)
      → (fs_create_file fs path file).1 ≡ success
      → restart memory (fs_create_file fs path file).0 ≡ (fs_create_file fs path file).0
  restart-fs_create_file fs path file = (fs_create_file-Survives fs path file).kept

  -- A machine that starts with the drive that `fs_install` left, whatever its memory held, finds the
  -- system installed, has after `fs_init` the whole state of the installation, and names the system as
  -- it was told.
  pub restart-fs_install :
      (fs : Fs) (hostname username password : Bytes)
      → ((fs_check_installed
            (record memory { disk = (fs_install fs hostname username password).disk })).1
          ≡ true)
        × (restart memory (fs_install fs hostname username password)
            ≡ fs_install fs hostname username password)
  unfolding fs_check_installed identity fs_init
  restart-fs_install fs hostname username password =
      let kept = fs_install-restart memory fs hostname username password in
      let named = fs_install_lem fs hostname username password in
      (
        rw
            (
              ap (λ t. t.superblock) kept,
              ap (λ t. t.0) named,
              ap (λ t. t.1) named,
              ap (λ t. t.5) named,
            )
            refl,
        kept,
      )

-- ===== src/Fs/Install/Password.antt =====
-- fs/filesystem.c: what an installation leaves in the superblock, and the password check.
use ephemeral_os.Base.{◌≡◌, refl, sym, ap, ◌∙◌, ◌↔◌, true, Bytes, str_eq, str_eq→eq, str_eq_refl}
use ephemeral_os.Fs.State.{Fs, write_inode_block}
use ephemeral_os.Fs.Create.Frame.{identity, fs_create_dir-identity}
use ephemeral_os.Fs.Install.{
  fs_init, hash_bytes, fs_verify_password, install_root, fs_install, make, sync_all,
}

make-identity :
    (path : Bytes) (fs fs' : Fs)
    → identity fs ≡ identity fs'
    → identity (make path fs) ≡ identity fs'
make-identity path fs fs' h = fs_create_dir-identity fs path ∙ h

sync_all-identity : (fs : Fs) → identity (sync_all fs) ≡ identity fs
unfolding sync_all identity
sync_all-identity fs = refl

fs_install-identity :
    (fs : Fs) (hostname username password : Bytes)
    → identity (fs_install fs hostname username password)
      ≡ identity (install_root fs hostname username password)
unfolding fs_install
fs_install-identity fs hostname username password =
    sync_all-identity _
    ∙ make-identity _ _ root (
        make-identity _ _ root (
          make-identity _ _ root (
            make-identity _ _ root (
              make-identity _ _ root (
                make-identity _ _ root
                  (make-identity _ _ root (make-identity _ root root refl)))))))
  where
    root : Fs
    root = install_root fs hostname username password

install_root-identity :
    (fs : Fs) (hostname username password : Bytes)
    → identity (install_root fs hostname username password)
      ≡ (0x45504853, 2, 200, 512, 0, 1, hostname, username, hash_bytes password)
unfolding install_root identity fs_init write_inode_block
install_root-identity fs hostname username password = refl

-- After `fs_install` the superblock in memory names the system as given, carries the magic number,
-- version and installed flag that `fs_check_installed` asks for, and has inode 0 as its root.
pub fs_install_lem :
    (fs : Fs) (hostname username password : Bytes)
    → identity (fs_install fs hostname username password)
      ≡ (0x45504853, 2, 200, 512, 0, 1, hostname, username, hash_bytes password)
fs_install_lem fs hostname username password =
    fs_install-identity fs hostname username password
    ∙ install_root-identity fs hostname username password

fs_verify_password-identity :
    (fs : Fs) (q : Bytes) → fs_verify_password fs q ≡ str_eq (hash_bytes q) (identity fs).8
unfolding fs_verify_password identity
fs_verify_password-identity fs q = refl

-- After `fs_install` with a password, `fs_verify_password` accepts a password exactly when its 32
-- hash bytes are those of the one given; so it accepts the one given.
pub fs_verify_password-fs_install :
    (fs : Fs) (hostname username password q : Bytes)
    → (fs_verify_password (fs_install fs hostname username password) q ≡ true)
      ↔ (hash_bytes q ≡ hash_bytes password)
fs_verify_password-fs_install fs hostname username password q =
    (λ h. str_eq→eq _ _ (sym e ∙ h), λ h. e ∙ rw h (str_eq_refl (hash_bytes password)))
  where
    e :
        fs_verify_password (fs_install fs hostname username password) q
        ≡ str_eq (hash_bytes q) (hash_bytes password)
    e =
        fs_verify_password-identity (fs_install fs hostname username password) q
        ∙ ap (λ t. str_eq (hash_bytes q) t.8) (fs_install_lem fs hostname username password)

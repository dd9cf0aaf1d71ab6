-- ===== src/Kernel/Installer/Account.antt =====
-- installer/installer.c with kernel/kernel.c: the account that an installation makes can log in.
use ephemeral_os.Base.{
  ℕ, zero, suc, ◌<◌, ◌≡◌, refl, ap, ◌∙◌, Bool, true, false, Option, none, some, List, arith, Bytes,
  codes, str_eq, str_eq_refl, if◌then◌else◌, length,
}
use ephemeral_os.Fs.State.{Fs}
use ephemeral_os.Fs.Install.{fs_get_username, fs_verify_password, fs_install, hash_bytes}
use ephemeral_os.Fs.Create.Frame.{identity}
use ephemeral_os.Fs.Install.Password.{fs_install_lem, fs_verify_password-fs_install}
use ephemeral_os.Drivers.Keyboard.{Typed, keyboard_getline, keyboard_getline_password}
use ephemeral_os.Drivers.Keyboard.Rest.{getline-shorter}
use ephemeral_os.Kernel.Login.{Console, console_of, ask_username, ask_password, do_login}
use ephemeral_os.Kernel.Login.Sound.{accepted, do_login_iff}
use ephemeral_os.Kernel.Installer.{
  line_after, password_after, mismatch, ask_passwords, welcome, before_install, after_install,
  install_account, installer_run,
}

-- The choice of a password: pairs of lines that differ, and at last one that was given twice.
pub data Chooses : Console → Bytes → Console → Type 0 where
  differ :
      {c d : Console} {password : Bytes} (p q : Typed × Bool × List ℕ)
      → password_after (codes "Enter password: ") c ≡ some p
      → password_after (codes "Confirm password: ") (console_of p) ≡ some q
      → str_eq p.0.buffer q.0.buffer ≡ false
      → Chooses (mismatch (console_of q)) password d
      → Chooses c password d
  agree :
      {c : Console} (p q : Typed × Bool × List ℕ)
      → password_after (codes "Enter password: ") c ≡ some p
      → password_after (codes "Confirm password: ") (console_of p) ≡ some q
      → str_eq p.0.buffer q.0.buffer ≡ true
      → Chooses c p.0.buffer (console_of q)

line_after-shorter :
    (text : Bytes) (c : Console) (u : Typed × Bool × List ℕ)
    → line_after text c ≡ some u
    → length u.2 < length c.2
unfolding keyboard_getline
line_after-shorter text c (t, shift, rest) e = getline-shorter c.2 _ 64 c.1 _ e

password_after-shorter :
    (text : Bytes) (c : Console) (u : Typed × Bool × List ℕ)
    → password_after text c ≡ some u
    → length u.2 < length c.2
unfolding keyboard_getline_password
password_after-shorter text c (t, shift, rest) e = getline-shorter c.2 _ 64 c.1 _ e

-- Behind the second line of a pair.
abbrev compared : ℕ → Typed × Bool × List ℕ → Typed × Bool × List ℕ → Option (Bytes × Console)
compared fuel p q =
    if str_eq p.0.buffer q.0.buffer
    then some (p.0.buffer, console_of q)
    else ask_passwords fuel (mismatch (console_of q))

abbrev confirmed :
    ℕ → Typed × Bool × List ℕ → Option (Typed × Bool × List ℕ) → Option (Bytes × Console)
confirmed fuel p o = elim o [ none ↦ none | some q ↦ compared fuel p q ]

ask_passwords-pair :
    (fuel : ℕ) (c : Console) (p q : Typed × Bool × List ℕ)
    → password_after (codes "Enter password: ") c ≡ some p
    → password_after (codes "Confirm password: ") (console_of p) ≡ some q
    → ask_passwords (suc fuel) c ≡ compared fuel p q
unfolding ask_passwords
ask_passwords-pair fuel c p q a b =
    ap
      (λ o. elim o [
        | none ↦ none
        | some p ↦ confirmed fuel p (password_after (codes "Confirm password: ") (console_of p))
      ])
      a
    ∙ ap (λ o. confirmed fuel p o) b

ask_passwords-Chooses :
    (fuel : ℕ) {c d : Console} {password : Bytes}
    → Chooses c password d
    → length c.2 < fuel
    → ask_passwords fuel c ≡ some (password, d)
unfolding mismatch
ask_passwords-Chooses zero l h = absurd (omega arith)
ask_passwords-Chooses (suc fuel) {c} (differ p q a b n r) h =
    ask_passwords-pair fuel c p q a b
    ∙ rw n (
        ask_passwords-Chooses fuel r (
          omega
            (arith, password_after-shorter _ c p a, password_after-shorter _ (console_of p) q b)))
ask_passwords-Chooses (suc fuel) {c} (agree p q a b n) h =
    ask_passwords-pair fuel c p q a b ∙ rw n refl

-- What `installer_run` leaves on the screen, behind the passwords.
abbrev pub installed_console : Console → Console
installed_console d = (after_install (before_install d.0), d.1, d.2)

install_account-Chooses :
    (fuel : ℕ) (fs : Fs) (hostname username : Bytes) {c d : Console} {password : Bytes}
    → Chooses c password d
    → length c.2 < fuel
    → install_account fuel fs hostname username c
      ≡ some (fs_install fs hostname username password, installed_console d)
unfolding install_account
install_account-Chooses fuel fs hostname username l h =
    ap
      (λ o. elim o [
        | none ↦ none
        | some (password, d) ↦ some (fs_install fs hostname username password, installed_console d)
      ])
      (ask_passwords-Chooses fuel l h)

installer_run-Chooses :
    (fs : Fs) (c : Console) (h u : Typed × Bool × List ℕ) {d : Console} {password : Bytes}
    → line_after (codes "Enter device hostname: ") (welcome c.0, c.1, c.2) ≡ some h
    → line_after (codes "Enter username: ") (console_of h) ≡ some u
    → Chooses (console_of u) password d
    → installer_run (length c.2) fs c
      ≡ some (fs_install fs h.0.buffer u.0.buffer password, installed_console d)
unfolding installer_run
installer_run-Chooses fs c h u a b l =
    ap
      (λ o. elim o [
        | none ↦ none
        | some h ↦ elim (line_after (codes "Enter username: ") (console_of h)) [
          | none ↦ none
          | some u ↦ install_account (length c.2) fs h.0.buffer u.0.buffer (console_of u)
        ]
      ])
      a
    ∙ ap
        (λ o. elim o [
          | none ↦ none
          | some u ↦ install_account (length c.2) fs h.0.buffer u.0.buffer (console_of u)
        ])
        b
    ∙ install_account-Chooses (length c.2) fs h.0.buffer u.0.buffer l (
        omega (
          arith,
          line_after-shorter _ (welcome c.0, c.1, c.2) h a,
          line_after-shorter _ (console_of h) u b,
        ))

fs_get_username-fs_install :
    (fs : Fs) (hostname username password : Bytes)
    → fs_get_username (fs_install fs hostname username password) ≡ username
unfolding identity
fs_get_username-fs_install fs hostname username password =
    ap (λ t. t.7) (fs_install_lem fs hostname username password)

-- When the keys give a hostname, a username and, after any number of pairs that differ, a password
-- twice, `installer_run` ends, with as much fuel as there are scancodes, and leaves what `fs_install`
-- makes of them; and on that system `do_login` then takes that username with that password at the
-- first attempt.
pub do_login-installer_run :
    (fs : Fs) (c e : Console) (h u n w : Typed × Bool × List ℕ) {d : Console} {password : Bytes}
    → line_after (codes "Enter device hostname: ") (welcome c.0, c.1, c.2) ≡ some h
    → line_after (codes "Enter username: ") (console_of h) ≡ some u
    → Chooses (console_of u) password d
    → ask_username e ≡ some n
    → n.0.buffer ≡ u.0.buffer
    → ask_password (console_of n) ≡ some w
    → w.0.buffer ≡ password
    → (installer_run (length c.2) fs c
        ≡ some (fs_install fs h.0.buffer u.0.buffer password, installed_console d))
      × (do_login (suc (length e.2)) (fs_install fs h.0.buffer u.0.buffer password) e
          ≡ some (console_of w))
do_login-installer_run fs c e h u n w {d} {password} a b l x y z v = (
  installer_run-Chooses fs c h u a b l,
  (do_login_iff fs' e (console_of w)).1 (accepted n w x name z pass refl),
)
  where
    fs' : Fs
    fs' = fs_install fs h.0.buffer u.0.buffer password

    name : str_eq n.0.buffer (fs_get_username fs') ≡ true
    name =
        rw (fs_get_username-fs_install fs h.0.buffer u.0.buffer password, y)
          (str_eq_refl u.0.buffer)

    pass : fs_verify_password fs' w.0.buffer ≡ true
    pass =
        (fs_verify_password-fs_install fs h.0.buffer u.0.buffer password w.0.buffer).1
          (ap hash_bytes v)

-- ===== src/Kernel/Main/Gate.antt =====
-- kernel/kernel.c: the way to the shell on a machine that was installed leads through a login.
use ephemeral_os.Base.{
  suc, ◌≡◌, refl, sym, ap, ◌∙◌, ◌↔◌, true, Option, none, some, arith, Bytes, length,
}
use ephemeral_os.Fs.State.{Fs}
use ephemeral_os.Fs.Install.{fs_init, fs_check_installed, fs_install}
use ephemeral_os.Fs.Restart.{restart-fs_install}
use ephemeral_os.Kernel.Login.{Console, do_login}
use ephemeral_os.Kernel.Login.Sound.{Logs, do_login_iff}
use ephemeral_os.Kernel.Main.Entry.{Enters, Logs-iff}
use ephemeral_os.Kernel.Main.{
  Machine, Kernel, Boot, start_up, configure, at_login, enter_shell, normal_run, from_check,
  kernel_main,
}

configure-fs : (k : Kernel) → (configure k).fs ≡ k.fs
unfolding configure
configure-fs k = ground arith

start_up-fs : (m : Machine) (k : Kernel) → (start_up m k).fs ≡ k.fs
unfolding start_up
start_up-fs m k = configure-fs _

-- Behind `fs_init`.
abbrev login_from : Machine → Kernel → Option Boot
login_from m k = elim (do_login (suc (length (at_login m k).2)) k.fs (at_login m k)) [
  | none ↦ none
  | some c ↦ some (enter_shell m k c)
]

normal_run-login_from :
    (m : Machine) (k : Kernel) (fs : Fs)
    → fs_init k.fs ≡ fs
    → normal_run m k ≡ login_from m (record k { fs = fs })
unfolding normal_run
normal_run-login_from m k fs e = ap (λ t. login_from m (record k { fs = t })) e

from_check-installed :
    (m : Machine) (k : Kernel)
    → (fs_check_installed k.fs).1 ≡ true
    → from_check m k ≡ normal_run m (record k { fs = (fs_check_installed k.fs).0 })
unfolding from_check
from_check-installed m k e = rw e refl

kernel_main-from_check : (m : Machine) (k : Kernel) → kernel_main m k ≡ from_check m (start_up m k)
unfolding kernel_main
kernel_main-from_check m k = refl

check-init : (fs : Fs) → fs_init (fs_check_installed fs).0 ≡ fs_init fs
unfolding fs_init fs_check_installed
check-init fs = refl

login_from_iff :
    (m : Machine) (k : Kernel) (b : Boot)
    → (login_from m k ≡ some b)
      ↔ ((c : Console) × Logs k.fs (at_login m k) c × (b ≡ enter_shell m k c))
login_from_iff m k b = (
  go (do_login (suc (length (at_login m k).2)) k.fs (at_login m k)) refl,
  λ (c, l, e).
      ap (λ o. elim o [ none ↦ none | some c ↦ some (enter_shell m k c) ])
        ((do_login_iff k.fs (at_login m k) c).1 l)
      ∙ ap some (sym e),
)
  where
    some_injective : {x y : Boot} → some x ≡ some y → x ≡ y
    some_injective h = cc

    go :
        (o : Option Console)
        → do_login (suc (length (at_login m k).2)) k.fs (at_login m k) ≡ o
        → elim o [ none ↦ none | some c ↦ some (enter_shell m k c) ] ≡ some b
        → (c : Console) × Logs k.fs (at_login m k) c × (b ≡ enter_shell m k c)
    go none q h = cc
    go (some c) q h = (c, (do_login_iff k.fs (at_login m k) c).0 q, sym (some_injective h))

-- On a machine whose drive is as `fs_install` left it, whatever its memory held and whatever the
-- hardware answers, `kernel_main` gets as far as the shell exactly when the keys that are left enter:
-- behind any number of attempts that are turned down, they give the username of the installation and a
-- password with the same 32 hash bytes as the one of the installation. What the shell is then handed
-- is the state of the installation.
pub kernel_main_iff :
    (m : Machine) (k : Kernel) (fs : Fs) (hostname username password : Bytes) (b : Boot)
    → k.fs.disk ≡ (fs_install fs hostname username password).disk
    → (kernel_main m k ≡ some b) ↔ (
        (c : Console) × Enters hostname username password
          (at_login m (record (start_up m k) { fs = fs_install fs hostname username password }))
          c
        × (b
            ≡ enter_shell m
                (record (start_up m k) { fs = fs_install fs hostname username password })
                c))
kernel_main_iff m k fs hostname username password b e =
    let (there, back) = login_from_iff m installed b in
    (
      λ h.
          let (c, l, q) = there (sym same ∙ h) in
          (c, (Logs-iff fs hostname username password (at_login m installed) c).0 l, q),
      λ (c, l, q).
          same ∙ back (c, (Logs-iff fs hostname username password (at_login m installed) c).1 l, q),
    )
  where
    installed : Kernel
    installed = record (start_up m k) { fs = fs_install fs hostname username password }

    found :
        (start_up m k).fs ≡ record (k.fs) { disk = (fs_install fs hostname username password).disk }
    found = start_up-fs m k ∙ ap (λ d. record (k.fs) { disk = d }) e

    same : kernel_main m k ≡ login_from m installed
    same =
        let (checked, kept) = restart-fs_install k.fs fs hostname username password in
        kernel_main-from_check m k
        ∙ from_check-installed m (start_up m k) (ap (λ t. (fs_check_installed t).1) found ∙ checked)
        ∙ normal_run-login_from m _ (fs_install fs hostname username password)
            (check-init (start_up m k).fs ∙ ap fs_init found ∙ kept)

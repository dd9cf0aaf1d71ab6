-- ===== src/Kernel/Installer.antt =====
-- installer/installer.c: the questions of the installation. The keyboard is the list of the scancodes
-- that it will deliver.
pub mod Account
use ephemeral_os.Base.{
  ℕ, zero, suc, ◌-◌, ◌/◌, Bool, not, Option, none, some, List, [], ◌∷◌, Bytes, codes, str_eq, ◌==◌,
  if◌then◌else◌, set,
}
use ephemeral_os.Fs.State.{Fs}
use ephemeral_os.Fs.Install.{fs_install}
use ephemeral_os.Drivers.Screen.{Screen, screen_print, screen_set_color}
use ephemeral_os.Drivers.Keyboard.{Typed, keyboard_getline, keyboard_getline_password}
use ephemeral_os.Kernel.Login.{Console, say, console_of}

abbrev pub line_after : Bytes → Console → Option (Typed × Bool × List ℕ)
line_after text c = keyboard_getline 64 c.1 (screen_print c.0 text) c.2

abbrev pub password_after : Bytes → Console → Option (Typed × Bool × List ℕ)
password_after text c = keyboard_getline_password 64 c.1 (screen_print c.0 text) c.2

unfoldable pub mismatch : Console → Console
mismatch c = (
  screen_set_color 0x0f 0 (
      screen_print (screen_set_color 0x0c 0 c.0)
        (codes "Passwords do not match. Please try again.\n\n")),
  c.1,
  c.2,
)

-- The `while` loop: the password that was given twice. `none` is a loop still waiting for keys, or one
-- without fuel.
unfoldable pub ask_passwords : ℕ → Console → Option (Bytes × Console)
ask_passwords zero c = none
ask_passwords (suc fuel) c = elim (password_after (codes "Enter password: ") c) [
  | none ↦ none
  | some p ↦ elim (password_after (codes "Confirm password: ") (console_of p)) [
    | none ↦ none
    | some q ↦
        let again = ask_passwords fuel (mismatch (console_of q)) in
        if str_eq p.0.buffer q.0.buffer then some (p.0.buffer, console_of q) else again
  ]
]

abbrev pub coloured : ℕ → List Bytes → Screen → Screen
coloured foreground texts s = say texts (screen_set_color foreground 0 s)

unfoldable pub welcome : Screen → Screen
welcome s = coloured 0x0f (codes "Welcome! Let's set up your system.\n\n" ∷ []) (
    coloured 0x0b
      (codes "===================================\n"
        ∷ codes "   EphemeralOS Installation\n"
        ∷ codes "===================================\n\n"
        ∷ [])
      s)

unfoldable pub before_install : Screen → Screen
before_install s =
    coloured 0x0f
      (codes "- Creating file system...\n"
        ∷ codes "- Setting up /bin directory...\n"
        ∷ codes "- Configuring system...\n"
        ∷ [])
      (coloured 0x0a (codes "Installing EphemeralOS...\n" ∷ []) (screen_print s (codes "\n")))

unfoldable pub after_install : Screen → Screen
after_install s = screen_set_color 0x0f 0 (
    coloured 0x0a (codes "\nInstallation successful!\n" ∷ [])
      (screen_print s (codes "- Writing configuration to disk...\n")))

-- Behind the names; `fuel` is for the passwords.
unfoldable pub install_account : ℕ → Fs → Bytes → Bytes → Console → Option (Fs × Console)
install_account fuel fs hostname username c = elim (ask_passwords fuel c) [
  | none ↦ none
  | some (password, d) ↦
      some
        (fs_install fs hostname username password, (after_install (before_install d.0), d.1, d.2))
]

unfoldable pub installer_run : ℕ → Fs → Console → Option (Fs × Console)
unfolding install_account
installer_run fuel fs c =
    elim (line_after (codes "Enter device hostname: ") (welcome c.0, c.1, c.2)) [
      | none ↦ none
      | some h ↦ elim (line_after (codes "Enter username: ") (console_of h)) [
        | none ↦ none
        | some u ↦ install_account fuel fs h.0.buffer u.0.buffer (console_of u)
      ]
    ]

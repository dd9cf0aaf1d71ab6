-- ===== src/Kernel/Login.antt =====
-- kernel/kernel.c: `do_login`. The keyboard is the list of the scancodes that it will deliver.
pub mod Sound
use ephemeral_os.Base.{
  ℕ, zero, suc, Bool, not, Option, none, some, List, [], ◌∷◌, Bytes, codes, str_eq, if◌then◌else◌,
}
use ephemeral_os.Fs.State.{Fs}
use ephemeral_os.Fs.Install.{fs_get_username, fs_get_hostname, fs_verify_password}
use ephemeral_os.Drivers.Screen.{Screen, screen_print, screen_set_color}
use ephemeral_os.Drivers.Keyboard.{Typed, keyboard_getline, keyboard_getline_password}

-- The screen, `shift_pressed`, and the scancodes that are left.
abbrev pub Console : Type 0
Console = Screen × Bool × List ℕ

abbrev pub say : List Bytes → Screen → Screen
say [] s = s
say (text ∷ texts) s = say texts (screen_print s text)

-- What stands before the recursive calls.
unfoldable pub incorrect : Fs → Screen → Screen
incorrect fs s = say (codes "Login incorrect\n" ∷ fs_get_hostname fs ∷ codes " login: " ∷ []) s

abbrev pub console_of : Typed × Bool × List ℕ → Console
console_of r = (r.0.screen, r.1, r.2)

abbrev pub ask_username : Console → Option (Typed × Bool × List ℕ)
ask_username c =
    keyboard_getline 64 c.1 (screen_print (screen_set_color 0x0f 0 c.0) (codes "login: ")) c.2

abbrev pub ask_password : Console → Option (Typed × Bool × List ℕ)
ask_password c = keyboard_getline_password 64 c.1 (screen_print c.0 (codes "Password: ")) c.2

-- The call again, with the complaint before it.
abbrev pub with_complaint : Fs → Console → Console
with_complaint fs c = (incorrect fs c.0, c.1, c.2)

-- Behind the password: `again` is the call of `do_login` in tail position.
unfoldable pub check_password :
    Fs → (Console → Option Console) → Typed × Bool × List ℕ → Option Console
check_password fs again r =
    if fs_verify_password fs r.0.buffer
    then some (console_of r)
    else again (with_complaint fs (console_of r))

-- Behind the name.
unfoldable pub check_username :
    Fs → (Console → Option Console) → Typed × Bool × List ℕ → Option Console
unfolding check_password
check_username fs again r =
    if not (str_eq r.0.buffer (fs_get_username fs))
    then again (with_complaint fs (console_of r))
    else elim (ask_password (console_of r)) [ none ↦ none | some p ↦ check_password fs again p ]

unfoldable pub login_round : Fs → (Console → Option Console) → Console → Option Console
unfolding check_username
login_round fs again c = elim (ask_username c) [ none ↦ none | some r ↦ check_username fs again r ]

-- `none` is a login still waiting for keys, or one without fuel.
unfoldable pub do_login : ℕ → Fs → Console → Option Console
unfolding login_round
do_login zero fs c = none
do_login (suc fuel) fs c = login_round fs (do_login fuel fs) c

-- ===== src/Examples/Sessions.antt =====
-- The theorems of Fs.Sound, Shell, Bin and Kernel at concrete states.
use ephemeral_os.Base.{
  str_eq, zero, Bool, suc, ℕ, ◌≤◌, ◌≡◌, refl, ◌↔◌, false, none, some, List, [], ◌∷◌, arith, Bytes,
  All, codes, length, pos,
}
use ephemeral_os.Fs.Install.{fs_install}
use ephemeral_os.Fs.Create.{fs_create_dir}
use ephemeral_os.Fs.Create.Frame.{identity}
use ephemeral_os.Fs.File.{fs_create_file, fs_delete_file}
use ephemeral_os.Fs.Sound.{IsSound}
use ephemeral_os.Fs.Sound.Kept.{operations-IsSound}
use ephemeral_os.Fs.Sound.Installed.{fs_install-IsSound}
use ephemeral_os.Drivers.Screen.{screen_set_color, screen_print, Screen, screen_print_char}
use ephemeral_os.Drivers.Keyboard.{
  keyboard_getline_password, Typed, keyboard_getline, getline, scancode_step, type_char,
}
use ephemeral_os.Text.{atoi}
use ephemeral_os.Bin.World.{World}
use ephemeral_os.Bin.Numbers.{int_to_str}
use ephemeral_os.Bin.Numbers.Decimal.{atoi-int_to_str}
use ephemeral_os.Shell.Parse.{parse_command, parse_from, finish}
use ephemeral_os.Shell.Parse.Words.{
  IsArgument, IsWord, line_of_words, parse_command_bounds, parse_command-line_of_words,
}
use ephemeral_os.Shell.Session.{Session, print, print_prompt}
use ephemeral_os.Shell.Run.{Rounds, start, next, round, run_line, run_command}
use ephemeral_os.Shell.Run.Commands.{IsSafe}
use ephemeral_os.Shell.Run.Safe.{Rounds-IsSafe}
use ephemeral_os.Kernel.Login.{console_of, do_login}
use ephemeral_os.Kernel.Installer.{line_after, password_after, installer_run, welcome}
use ephemeral_os.Kernel.Installer.Account.{
  Chooses, agree, installed_console, do_login-installer_run,
}
use ephemeral_os.Kernel.Login.Sound.{Logs, do_login_iff}
use ephemeral_os.Examples.Drive.{blank, installed}
use ephemeral_os.Examples.Devices.{dark, dark-IsShown}

fs_install-IsSound_example :
    IsSound (fs_install blank (codes "host") (codes "ana") (codes "secret"))
fs_install-IsSound_example = fs_install-IsSound blank (codes "host") (codes "ana") (codes "secret")

installed-IsSound : IsSound installed
installed-IsSound = fs_install-IsSound blank (codes "host") (codes "ana") (codes "secret")

operations-IsSound_example :
    IsSound (fs_create_dir installed (codes "/home/ana/x")).0
    × IsSound (fs_create_file installed (codes "/home/ana/x") (codes "text")).0
    × IsSound (fs_delete_file installed (codes "/home/ana/x")).0
operations-IsSound_example =
    operations-IsSound installed (codes "/home/ana/x") (codes "text") installed-IsSound

parse_command_bounds_example :
    (length (parse_command (codes "ls -l")) ≤ 20) × All IsArgument (parse_command (codes "ls -l"))
parse_command_bounds_example = parse_command_bounds (codes "ls -l")

abbrev two_words : List Bytes
two_words = codes "ls" ∷ codes "-l" ∷ []

two_words-IsWord : All IsWord two_words
two_words-IsWord = ground arith

parse_command-line_of_words_example : parse_command (line_of_words two_words) ≡ two_words
parse_command-line_of_words_example =
    parse_command-line_of_words two_words (omega arith) two_words-IsWord

atoi-int_to_str_example : atoi (int_to_str 42 4) ≡ pos 42
atoi-int_to_str_example = atoi-int_to_str 42 4

-- A session, and the one after the keys a and enter, which name no command.
abbrev session : Session
session = record { fs = installed; screen = dark; current_dir = codes "/"; username = codes "ana" }

abbrev still : World
still = record {
  cmos = λ n. 0;
  stack = λ n. 0;
  ready = false;
  ip = 0;
  resolve = λ n. none;
  replies = λ n. false;
}

abbrev line_of_a : (ℕ → ℕ) → ℕ → Screen → Typed
line_of_a echo max_length s =
    let t = type_char echo max_length (record { buffer = []; screen = s }) b'a' in
    record t { screen = screen_print_char t.screen b'\n' }

abbrev behind_a : Session
behind_a = print (codes "a" ∷ codes ": command not found\n" ∷ []) (record (print_prompt session) {
  screen = (line_of_a (λ c. c) 256 (print_prompt session).screen).screen;
})

one_round : Rounds session behind_a
unfolding keyboard_getline getline scancode_step run_line run_command parse_command parse_from
    finish type_char
one_round = next start (
    round still (0x1e ∷ 0x1c ∷ []) [] false false
      (line_of_a (λ c. c) 256 (print_prompt session).screen) refl refl)

session-IsSafe : IsSafe (identity installed) session
session-IsSafe = record { shown = dark-IsShown; sound = installed-IsSound; same = refl }

Rounds-IsSafe_example : IsSafe (identity installed) behind_a
Rounds-IsSafe_example = Rounds-IsSafe (identity installed) one_round session-IsSafe

-- A console with the key enter to come.
do_login_iff_example :
    (do_login 2 installed (dark, false, 0x1c ∷ []) ≡ some (dark, false, []))
    ↔ Logs installed (dark, false, 0x1c ∷ []) (dark, false, [])
do_login_iff_example = do_login_iff installed (dark, false, 0x1c ∷ []) (dark, false, [])

-- The keys a and enter, a number of times.
abbrev pub keys : ℕ → List ℕ
keys zero = []
keys (suc n) = 0x1e ∷ 0x1c ∷ keys n

abbrev pub answer : (ℕ → ℕ) → Bytes → Screen → ℕ → Typed × Bool × List ℕ
answer echo text s n = (
  record {
    buffer = codes "a";
    screen = screen_print_char (screen_print_char (screen_print s text) (echo b'a')) b'\n';
  },
  false,
  keys n,
)

abbrev pub plain : ℕ → ℕ
plain c = c

abbrev pub starred : ℕ → ℕ
starred c = b'*'

pub answered :
    (s : Screen) (text : Bytes) (n : ℕ)
    → line_after text (s, false, keys (suc n)) ≡ some (answer plain text s n)
unfolding keyboard_getline getline scancode_step type_char
answered s text n = refl

pub answered_password :
    (s : Screen) (text : Bytes) (n : ℕ)
    → password_after text (s, false, keys (suc n)) ≡ some (answer starred text s n)
unfolding keyboard_getline_password getline scancode_step type_char
answered_password s text n = refl

-- The four answers of an installation, and the two of a login.
abbrev hostname_typed : Typed × Bool × List ℕ
hostname_typed = answer plain (codes "Enter device hostname: ") (welcome dark) 3

abbrev username_typed : Typed × Bool × List ℕ
username_typed = answer plain (codes "Enter username: ") hostname_typed.0.screen 2

abbrev password_typed : Typed × Bool × List ℕ
password_typed = answer starred (codes "Enter password: ") username_typed.0.screen 1

abbrev password_confirmed : Typed × Bool × List ℕ
password_confirmed = answer starred (codes "Confirm password: ") password_typed.0.screen 0

abbrev login_typed : Typed × Bool × List ℕ
login_typed = answer plain (codes "login: ") (screen_set_color 0x0f 0 dark) 1

abbrev login_password : Typed × Bool × List ℕ
login_password = answer starred (codes "Password: ") login_typed.0.screen 0

password_chosen : Chooses (console_of username_typed) (codes "a") (console_of password_confirmed)
unfolding str_eq
password_chosen =
    agree password_typed password_confirmed
      (answered_password username_typed.0.screen (codes "Enter password: ") 1)
      (answered_password password_typed.0.screen (codes "Confirm password: ") 0) refl

do_login-installer_run_example :
    (installer_run 8 blank (dark, false, keys 4)
      ≡ some (
        fs_install blank (codes "a") (codes "a") (codes "a"),
        installed_console (console_of password_confirmed),
      ))
    × (do_login 5 (fs_install blank (codes "a") (codes "a") (codes "a")) (dark, false, keys 2)
        ≡ some (console_of login_password))
do_login-installer_run_example =
    do_login-installer_run blank (dark, false, keys 4) (dark, false, keys 2) hostname_typed
      username_typed login_typed login_password
      (answered (welcome dark) (codes "Enter device hostname: ") 3)
      (answered hostname_typed.0.screen (codes "Enter username: ") 2) password_chosen
      (answered (screen_set_color 0x0f 0 dark) (codes "login: ") 1) refl
      (answered_password login_typed.0.screen (codes "Password: ") 0) refl

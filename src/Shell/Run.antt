-- ===== src/Shell/Run.antt =====
-- shell/shell.c: the table of commands and the loop of the shell.
pub mod Commands
pub mod Safe
use ephemeral_os.Base.{
  ℕ, ◌≡◌, Bool, not, some, List, [], ◌∷◌, Bytes, codes, str_eq, ◌==◌, if◌then◌else◌, length,
}
use ephemeral_os.Drivers.Keyboard.{Typed, keyboard_getline}
use ephemeral_os.Shell.Parse.{parse_command}
use ephemeral_os.Shell.Session.{Session, print, print_prompt}
use ephemeral_os.Bin.World.{World}
use ephemeral_os.Bin.Show.{cmd_help, cmd_clear, cmd_pwd, cmd_whoami, cmd_uname, cmd_date}
use ephemeral_os.Bin.Files.{arg, cmd_mkdir, cmd_touch, cmd_rm, cmd_cat, cmd_ls, cmd_cd, cmd_echo}
use ephemeral_os.Bin.Ping.{cmd_ping}

-- A command returns to the shell, or halts the machine.
pub data Outcome : Type 0 where
  running halted : Session → Outcome

abbrev pub Command : Type 0
Command = List Bytes → Session → Outcome

unfoldable pub cmd_shutdown : Session → Outcome
cmd_shutdown s = halted (print (codes "Shutting down...\n" ∷ []) s)

unfoldable pub cmd_reboot : Session → Outcome
cmd_reboot s = halted (print (codes "Rebooting...\n" ∷ []) s)

abbrev pub commands : World → List (Bytes × Command)
commands w =
    (codes "help", λ argv s. running (cmd_help s))
    ∷ (codes "clear", λ argv s. running (cmd_clear s))
    ∷ (codes "ls", λ argv s. running (cmd_ls s))
    ∷ (codes "cd", λ argv s. running (cmd_cd argv s))
    ∷ (codes "mkdir", λ argv s. running (cmd_mkdir argv s))
    ∷ (codes "cat", λ argv s. running (cmd_cat w argv s))
    ∷ (codes "echo", λ argv s. running (cmd_echo argv s))
    ∷ (codes "touch", λ argv s. running (cmd_touch argv s))
    ∷ (codes "rm", λ argv s. running (cmd_rm argv s))
    ∷ (codes "pwd", λ argv s. running (cmd_pwd s))
    ∷ (codes "whoami", λ argv s. running (cmd_whoami s))
    ∷ (codes "uname", λ argv s. running (cmd_uname s))
    ∷ (codes "date", λ argv s. running (cmd_date w s))
    ∷ (codes "shutdown", λ argv s. cmd_shutdown s)
    ∷ (codes "reboot", λ argv s. cmd_reboot s)
    ∷ (codes "ping", λ argv s. running (cmd_ping w argv s))
    ∷ []

-- The loop over the table.
unfoldable pub run_command : List (Bytes × Command) → Command
unfolding str_eq
run_command [] argv s = running (print (arg argv 0 ∷ codes ": command not found\n" ∷ []) s)
run_command ((name, func) ∷ rest) argv s =
    if str_eq name (arg argv 0) then func argv s else run_command rest argv s

-- What the loop of `shell_run` does with a line.
unfoldable pub run_line : World → Bytes → Session → Outcome
unfolding run_command
run_line w line s =
    let argv = parse_command line in
    if length line == 0
    then running s
    else if length argv == 0
    then running s
    else run_command (commands w) argv s

-- One round of the loop of `shell_run`: the prompt, a line from the keyboard, whatever keys bring it,
-- and the command, whatever the machine answers.
pub data Round (s s' : Session) : Type 0 where
  round :
      (w : World) (keys rest : List ℕ) (shift shift' : Bool) (t : Typed)
      → keyboard_getline 256 shift (print_prompt s).screen keys ≡ some (t, shift', rest)
      → run_line w t.buffer (record (print_prompt s) { screen = t.screen }) ≡ running s'
      → Round s s'

-- Any number of rounds.
pub data Rounds (s : Session) : Session → Type 0 where
  start : Rounds s s
  next : {t u : Session} → Rounds s t → Round t u → Rounds s u

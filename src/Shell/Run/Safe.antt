-- ===== src/Shell/Run/Safe.antt =====
-- shell/shell.c, bin/: what no command line can do.
use ephemeral_os.Base.{
  subst, inl, inr, List, [], ◌∷◌, arith, Bytes, All, str_eq, ◌==◌, Bool-cases, length,
}
use ephemeral_os.Drivers.Keyboard.Line.{IsLine, keyboard_getline-IsLine}
use ephemeral_os.Shell.Parse.{parse_command}
use ephemeral_os.Shell.Session.{Session, print_prompt}
use ephemeral_os.Shell.Run.{
  Outcome, running, halted, Command, commands, run_command, run_line, Round, round, Rounds, start,
  next, cmd_shutdown, cmd_reboot,
}
use ephemeral_os.Shell.Run.Commands.{
  Identity, IsSafe, print-IsSafe, prompt-IsSafe, mkdir-IsSafe, touch-IsSafe, rm-IsSafe, cat-IsSafe,
  ls-IsSafe, cd-IsSafe, echo-IsSafe, ping-IsSafe, clear-IsSafe,
}
use ephemeral_os.Bin.World.{World}
use ephemeral_os.Bin.Show.{cmd_help, cmd_pwd, cmd_whoami, cmd_uname, cmd_date}
use ephemeral_os.Bin.Files.{arg}

module _ (t : Identity) where
  -- The session that the command leaves, whether it returns or halts.
  abbrev SafeOutcome : Outcome → Type 0
  SafeOutcome (running s) = IsSafe t s
  SafeOutcome (halted s) = IsSafe t s

  abbrev SafeCommand : Bytes × Command → Type 0
  SafeCommand c = (argv : List Bytes) (s : Session) → IsSafe t s → SafeOutcome (c.1 argv s)

  commands-IsSafe : (w : World) → All SafeCommand (commands w)
  unfolding cmd_help cmd_pwd cmd_whoami cmd_uname cmd_date cmd_shutdown cmd_reboot
  commands-IsSafe w = (
    λ argv s h. print-IsSafe t _ s h,
    (
      λ argv s h. clear-IsSafe t s h,
      (
        λ argv s h. ls-IsSafe t s h,
        (
          cd-IsSafe t,
          (
            mkdir-IsSafe t,
            (
              cat-IsSafe t w,
              (
                echo-IsSafe t,
                (
                  touch-IsSafe t,
                  (
                    rm-IsSafe t,
                    (
                      λ argv s h. print-IsSafe t _ s h,
                      (
                        λ argv s h. print-IsSafe t _ s h,
                        (
                          λ argv s h. print-IsSafe t _ s h,
                          (
                            λ argv s h. print-IsSafe t _ s h,
                            (
                              λ argv s h. print-IsSafe t _ s h,
                              (λ argv s h. print-IsSafe t _ s h, (ping-IsSafe t w, tt)),
                            ),
                          ),
                        ),
                      ),
                    ),
                  ),
                ),
              ),
            ),
          ),
        ),
      ),
    ),
  )

  run_command-IsSafe :
      (table : List (Bytes × Command)) (argv : List Bytes) (s : Session)
      → All SafeCommand table
      → IsSafe t s
      → SafeOutcome (run_command table argv s)
  unfolding run_command
  run_command-IsSafe [] argv s cs h = print-IsSafe t _ s h
  run_command-IsSafe ((name, func) ∷ table) argv s cs h =
      elim (Bool-cases (str_eq name (arg argv 0))) [
        | inl e ↦ rw e (cs.0 argv s h)
        | inr e ↦ rw e (run_command-IsSafe table argv s cs.1 h)
      ]

  run_line-IsSafe :
      (w : World) (line : Bytes) (s : Session) → IsSafe t s → SafeOutcome (run_line w line s)
  unfolding run_line
  run_line-IsSafe w line s h = elim (Bool-cases (length line == 0)) [
    | inl e ↦ rw e h
    | inr e ↦ elim (Bool-cases (length (parse_command line) == 0)) [
      | inl f ↦ rw (e, f) h
      | inr f ↦
          rw (e, f) (run_command-IsSafe (commands w) (parse_command line) s (commands-IsSafe w) h)
    ]
  ]

  Round-IsSafe : {s s' : Session} → Round s s' → IsSafe t s → IsSafe t s'
  Round-IsSafe {s} {s'} (round w keys rest shift shift' typed e r) h =
      let p : IsSafe t (print_prompt s) = prompt-IsSafe t s h in
      let line : IsLine 256 typed =
        keyboard_getline-IsLine keys 256 shift (print_prompt s).screen (omega arith) p.shown e in
      subst SafeOutcome r (
        run_line-IsSafe w typed.buffer _
          (record { shown = line.shown; sound = p.sound; same = p.same }))

-- After any number of command lines, whatever is typed and whatever the clock and the network answer:
-- if it was so before, the cursor is shown on the screen, no block has two owners and the count of free
-- blocks is right; and the superblock has the magic number, root, host, user and password hash that it
-- had.
pub Rounds-IsSafe : (t : Identity) {s s' : Session} → Rounds s s' → IsSafe t s → IsSafe t s'
Rounds-IsSafe t start h = h
Rounds-IsSafe t (next r k) h = Round-IsSafe t k (Rounds-IsSafe t r h)

-- ===== src/Shell/Run/Commands.antt =====
-- bin/: every command, and what the shell shows, keeps the session safe.
use mathlib.Core.Bool.{true, false}
use ephemeral_os.Base.{
  not, ℕ, ◌-◌, ◌≡◌, inl, inr, Bool, ◌&&◌, Option, none, some, List, [], ◌∷◌, ◌++◌, arith, Bytes,
  codes, ltb, ◌==◌, if◌then◌else◌, Bool-cases, length, get_or, take, drop,
}
use ephemeral_os.Fs.State.{Fs}
use ephemeral_os.Fs.Create.{Status, fs_create_dir}
use ephemeral_os.Fs.Create.Frame.{identity, Identified, Identified-Stable}
use ephemeral_os.Fs.Stable.{
  Stable, fs_create_dir-Stable, fs_create_file-Stable, fs_delete_file-Stable,
}
use ephemeral_os.Fs.Sound.{IsSound}
use ephemeral_os.Fs.Sound.Kept.{IsSound-Stable}
use ephemeral_os.Fs.File.{fs_create_file, fs_delete_file, fs_read_file}
use ephemeral_os.Fs.Listing.{fs_list_dir, fs_change_dir, absolute_path}
use ephemeral_os.Drivers.Screen.{screen_set_color}
use ephemeral_os.Drivers.Screen.Inv.{
  IsShown, screen_print-IsShown, screen_print_char-IsShown, screen_clear-IsShown,
}
use ephemeral_os.Shell.Session.{Session, print, colour, print_prompt, home}
use ephemeral_os.Bin.World.{World}
use ephemeral_os.Bin.Show.{cmd_clear}
use ephemeral_os.Bin.Files.{
  arg, attempt, cmd_mkdir, cmd_touch, cmd_rm, print_bytes, cat_buffer, from_stack, cmd_cat,
  print_line, print_lines, cmd_ls, cmd_cd, echo_content, echo_words, cmd_echo,
}
use ephemeral_os.Bin.Ping.{ping_resolved, cmd_ping}

abbrev pub Identity : Type 0
Identity = ℕ × ℕ × ℕ × ℕ × ℕ × ℕ × Bytes × Bytes × Bytes

-- The cursor is shown, no block has two owners and the count of free blocks is right, and the
-- superblock identifies the system as it did.
pub record IsSafe (t : Identity) (s : Session) : Type 0 where
  pub shown : IsShown s.screen
  pub sound : IsSound s.fs
  pub same : identity s.fs ≡ t

module _ (t : Identity) where
  pub print-IsSafe : (texts : List Bytes) (s : Session) → IsSafe t s → IsSafe t (print texts s)
  unfolding print
  print-IsSafe [] s h = h
  print-IsSafe (text ∷ texts) s h = print-IsSafe texts _ (record {
    shown = screen_print-IsShown text s.screen h.shown;
    sound = h.sound;
    same = h.same;
  })

  pub colour-IsSafe : (f b : ℕ) (s : Session) → IsSafe t s → IsSafe t (colour f b s)
  unfolding colour screen_set_color
  colour-IsSafe f b s h = record {
    shown = record {
      on_screen = record {
        column = h.shown.on_screen.column;
        row = h.shown.on_screen.row;
        cells = h.shown.on_screen.cells;
      };
      shown = h.shown.shown;
    };
    sound = h.sound;
    same = h.same;
  }

  pub part :
      (f : ℕ) (texts : List Bytes) (s : Session)
      → IsSafe t s
      → IsSafe t (print texts (colour f 0 s))
  part f texts s h = print-IsSafe texts (colour f 0 s) (colour-IsSafe f 0 s h)

  pub prompt-IsSafe : (s : Session) → IsSafe t s → IsSafe t (print_prompt s)
  unfolding print_prompt
  prompt-IsSafe s h = part _ _ _ (part _ _ _ (part _ _ _ (part _ _ _ (part _ _ _ (part _ _ _ h)))))

  -- A call that keeps what is stable, and the complaint if it fails.
  pub attempt-IsSafe :
      (call : Fs → Fs × Status) (complaint : List Bytes) (s : Session)
      → ((P : Fs → Type 0) → Stable P → (fs : Fs) → P fs → P (call fs).0)
      → IsSafe t s
      → IsSafe t (attempt call complaint s)
  unfolding attempt
  attempt-IsSafe call complaint s k h =
      let done : IsSafe t (record s { fs = (call s.fs).0 }) = record {
        shown = h.shown;
        sound = k IsSound IsSound-Stable s.fs h.sound;
        same = k (Identified t) (Identified-Stable t) s.fs h.same;
      } in
      ground (arith, done, print-IsSafe complaint (record s { fs = (call s.fs).0 }) done)

  pub mkdir-IsSafe : (argv : List Bytes) (s : Session) → IsSafe t s → IsSafe t (cmd_mkdir argv s)
  unfolding cmd_mkdir
  mkdir-IsSafe argv s h = ground (
    arith,
    print-IsSafe (codes "Usage: mkdir <directory>\n" ∷ []) s h,
    attempt-IsSafe (λ fs. fs_create_dir fs (absolute_path s.current_dir (arg argv 1)))
        (codes "mkdir: cannot create directory '" ∷ arg argv 1 ∷ codes "': Error\n" ∷ []) s
        (λ P st fs. fs_create_dir-Stable P st fs _) h,
  )

  pub touch-IsSafe : (argv : List Bytes) (s : Session) → IsSafe t s → IsSafe t (cmd_touch argv s)
  unfolding cmd_touch
  touch-IsSafe argv s h = ground (
    arith,
    print-IsSafe (codes "Usage: touch <filename>\n" ∷ []) s h,
    attempt-IsSafe (λ fs. fs_create_file fs (absolute_path s.current_dir (arg argv 1)) [])
        (codes "touch: cannot touch '" ∷ arg argv 1 ∷ codes "'\n" ∷ []) s
        (λ P st fs. fs_create_file-Stable P st fs _ []) h,
  )

  pub rm-IsSafe : (argv : List Bytes) (s : Session) → IsSafe t s → IsSafe t (cmd_rm argv s)
  unfolding cmd_rm
  rm-IsSafe argv s h = ground (
    arith,
    print-IsSafe (codes "Usage: rm <filename>\n" ∷ []) s h,
    attempt-IsSafe (λ fs. fs_delete_file fs (absolute_path s.current_dir (arg argv 1)))
        (codes "rm: cannot remove '" ∷ arg argv 1 ∷ codes "': No such file or directory\n" ∷ []) s
        (λ P st fs. fs_delete_file-Stable P st fs _) h,
  )

  pub print_bytes-IsSafe : (cs : Bytes) (s : Session) → IsSafe t s → IsSafe t (print_bytes cs s)
  unfolding print_bytes
  print_bytes-IsSafe [] s h = h
  print_bytes-IsSafe (c ∷ cs) s h = print_bytes-IsSafe cs _ (record {
    shown = screen_print_char-IsShown s.screen c h.shown.on_screen;
    sound = h.sound;
    same = h.same;
  })

  pub cat_buffer-IsSafe :
      (w : World) (size : ℕ) (file : Bytes) (s : Session)
      → IsSafe t s
      → IsSafe t (cat_buffer w size file s)
  unfolding cat_buffer
  cat_buffer-IsSafe w size file s h =
      let shown : Bytes = file ++ from_stack w (length file) (size - length file) in
      let s' : IsSafe t (print_bytes shown s) = print_bytes-IsSafe shown s h in
      ground (arith, s', print-IsSafe (codes "\n" ∷ []) (print_bytes shown s) s')

  pub cat-IsSafe :
      (w : World) (argv : List Bytes) (s : Session) → IsSafe t s → IsSafe t (cmd_cat w argv s)
  unfolding cmd_cat
  cat-IsSafe w argv s h = elim (Bool-cases (ltb (length argv) 2)) [
    | inl e ↦ rw e (print-IsSafe _ s h)
    | inr e ↦ rw e (go (fs_read_file s.fs (absolute_path s.current_dir (arg argv 1)) 16384))
  ]
    where
      go :
          (o : Option (ℕ × Bytes))
          → IsSafe t (elim o [
            | none ↦
                print (codes "cat: " ∷ arg argv 1 ∷ codes ": No such file or directory\n" ∷ []) s
            | some (size, file) ↦ cat_buffer w size file s
          ])
      go none = print-IsSafe _ s h
      go (some (size, file)) = cat_buffer-IsSafe w size file s h

  pub print_line-IsSafe : (line : Bytes) (s : Session) → IsSafe t s → IsSafe t (print_line line s)
  unfolding print_line
  print_line-IsSafe line s h =
      let is_dir : Bool = ltb 0 (length line) && get_or line (length line - 1) 0 == 47 in
      let first : IsSafe t (if is_dir then colour 0x0b 0 s else s) =
        ground (arith, h, colour-IsSafe 0x0b 0 s h) in
      part _ _ _ (print-IsSafe (line ∷ []) _ first)

  pub print_lines-IsSafe :
      (line cs : Bytes) (s : Session) → IsSafe t s → IsSafe t (print_lines line cs s)
  unfolding print_lines
  print_lines-IsSafe line [] s h = ground (arith, h, print_line-IsSafe line s h)
  print_lines-IsSafe line (c ∷ cs) s h = ground (
    arith,
    print_lines-IsSafe [] cs (print_line line s) (print_line-IsSafe line s h),
    print_lines-IsSafe (line ++ c ∷ []) cs s h,
  )

  pub ls-IsSafe : (s : Session) → IsSafe t s → IsSafe t (cmd_ls s)
  unfolding cmd_ls
  ls-IsSafe s h = go (fs_list_dir s.fs s.current_dir 2048)
    where
      go :
          (o : Option Bytes)
          → IsSafe t (elim o [
            | none ↦
                print
                  (codes "ls: cannot access '"
                    ∷ s.current_dir
                    ∷ codes "': No such file or directory\n"
                    ∷ [])
                  s
            | some text ↦ print_lines [] text s
          ])
      go none = print-IsSafe _ s h
      go (some text) = print_lines-IsSafe [] text s h

  pub changed-IsSafe :
      (o : Option Bytes) (other s : Session)
      → IsSafe t other
      → IsSafe t s
      → IsSafe t (elim o [ none ↦ other | some dir ↦ record s { current_dir = dir } ])
  changed-IsSafe none other s k h = k
  changed-IsSafe (some dir) other s k h = record { shown = h.shown; sound = h.sound; same = h.same }

  pub cd-IsSafe : (argv : List Bytes) (s : Session) → IsSafe t s → IsSafe t (cmd_cd argv s)
  unfolding cmd_cd
  cd-IsSafe argv s h = elim (Bool-cases (ltb (length argv) 2)) [
    | inl e ↦ rw e (changed-IsSafe (fs_change_dir s.fs (home s.username) (home s.username)) s s h h)
    | inr e ↦
        rw e (
          changed-IsSafe (fs_change_dir s.fs (arg argv 1) s.current_dir) _ s (print-IsSafe _ s h) h)
  ]

  pub echo-IsSafe : (argv : List Bytes) (s : Session) → IsSafe t s → IsSafe t (cmd_echo argv s)
  unfolding cmd_echo
  echo-IsSafe argv s h = ground (
    arith,
    print-IsSafe (codes "\n" ∷ []) s h,
    attempt-IsSafe
        (λ fs.
          fs_create_file fs (absolute_path s.current_dir (arg argv (length argv - 1)))
            (echo_content [] (take (length argv - 3) (drop 1 argv))))
        (codes "echo: write error\n" ∷ []) s (λ P st fs. fs_create_file-Stable P st fs _ _) h,
    print-IsSafe (echo_words (drop 1 argv)) s h,
  )

  pub resolved-IsSafe :
      (w : World) (host : Bytes) (s : Session) (o : Option ℕ)
      → IsSafe t s
      → IsSafe t (ping_resolved w host s o)
  unfolding ping_resolved
  resolved-IsSafe w host s none h = print-IsSafe _ s h
  resolved-IsSafe w host s (some ip) h = print-IsSafe _ _ (print-IsSafe _ _ (print-IsSafe _ s h))

  pub ping-IsSafe :
      (w : World) (argv : List Bytes) (s : Session) → IsSafe t s → IsSafe t (cmd_ping w argv s)
  unfolding cmd_ping
  ping-IsSafe w argv s h = elim (Bool-cases (ltb (length argv) 2)) [
    | inl e ↦ rw e (print-IsSafe _ s h)
    | inr e ↦ rw e (
        choose (not w.ready) _ _ (print-IsSafe _ s h) (
          choose (w.ip == 0) _ _ (print-IsSafe _ s h)
            (resolved-IsSafe w (arg argv 1) s (w.resolve (arg argv 1)) h)))
  ]
    where
      choose : (b : Bool) (x y : Session) → IsSafe t x → IsSafe t y → IsSafe t (if b then x else y)
      choose true x y p q = p
      choose false x y p q = q

  pub clear-IsSafe : (s : Session) → IsSafe t s → IsSafe t (cmd_clear s)
  unfolding cmd_clear
  clear-IsSafe s h = record {
    shown = screen_clear-IsShown s.screen h.shown.on_screen.cells;
    sound = h.sound;
    same = h.same;
  }

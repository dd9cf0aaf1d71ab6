-- ===== src/Bin/Files.antt =====
-- bin/: the commands on files and directories. `argv` holds `argc` arguments, the command's name
-- first.
use ephemeral_os.Base.{
  ℕ, zero, suc, ◌+◌, ◌-◌, Bool, true, false, not, ◌&&◌, none, some, List, [], ◌∷◌, ◌++◌, Bytes,
  codes, str_eq, ltb, leb, ◌==◌, if◌then◌else◌, length, get_or, take, drop,
}
use ephemeral_os.Drivers.Screen.{screen_print_char}
use ephemeral_os.Fs.State.{Fs, max_file_size}
use ephemeral_os.Fs.Path.{slash}
use ephemeral_os.Fs.Create.{Status, success, failure, out_of_fuel, fs_create_dir}
use ephemeral_os.Fs.File.{fs_create_file, fs_read_file, fs_delete_file}
use ephemeral_os.Fs.Listing.{fs_list_dir, fs_change_dir, absolute_path}
use ephemeral_os.Shell.Session.{Session, print, colour, home}
use ephemeral_os.Bin.World.{World}

abbrev pub arg : List Bytes → ℕ → Bytes
arg argv i = get_or argv i []

abbrev pub succeeded : Status → Bool
succeeded success = true
succeeded failure = false
succeeded out_of_fuel = false

-- A call of the file system that changes it, and what is printed if it does not return 0.
unfoldable pub attempt : (Fs → Fs × Status) → List Bytes → Session → Session
attempt call complaint s =
    let r = call s.fs in
    let s' = record s { fs = r.0 } in if succeeded r.1 then s' else print complaint s'

unfoldable pub cmd_mkdir : List Bytes → Session → Session
cmd_mkdir argv s =
    if ltb (length argv) 2
    then print (codes "Usage: mkdir <directory>\n" ∷ []) s
    else attempt (λ fs. fs_create_dir fs (absolute_path s.current_dir (arg argv 1)))
        (codes "mkdir: cannot create directory '" ∷ arg argv 1 ∷ codes "': Error\n" ∷ []) s

unfoldable pub cmd_touch : List Bytes → Session → Session
cmd_touch argv s =
    if ltb (length argv) 2
    then print (codes "Usage: touch <filename>\n" ∷ []) s
    else attempt (λ fs. fs_create_file fs (absolute_path s.current_dir (arg argv 1)) [])
        (codes "touch: cannot touch '" ∷ arg argv 1 ∷ codes "'\n" ∷ []) s

unfoldable pub cmd_rm : List Bytes → Session → Session
cmd_rm argv s =
    if ltb (length argv) 2
    then print (codes "Usage: rm <filename>\n" ∷ []) s
    else attempt (λ fs. fs_delete_file fs (absolute_path s.current_dir (arg argv 1)))
        (codes "rm: cannot remove '" ∷ arg argv 1 ∷ codes "': No such file or directory\n" ∷ []) s

-- `buffer[i]` for the `n` indexes from `i` on: the file, and behind it what the stack held.
unfoldable pub from_stack : World → ℕ → ℕ → Bytes
from_stack w i zero = []
from_stack w i (suc n) = w.stack i ∷ from_stack w (i + 1) n

unfoldable pub print_bytes : Bytes → Session → Session
print_bytes [] s = s
print_bytes (c ∷ cs) s = print_bytes cs (record s { screen = screen_print_char s.screen c })

unfoldable pub cat_buffer : World → ℕ → Bytes → Session → Session
cat_buffer w size file s =
    let shown = file ++ from_stack w (length file) (size - length file) in
    let s' = print_bytes shown s in
    if ltb 0 size && not (get_or shown (size - 1) 0 == b'\n')
    then print (codes "\n" ∷ []) s'
    else s'

unfoldable pub cmd_cat : World → List Bytes → Session → Session
cmd_cat w argv s =
    if ltb (length argv) 2
    then print (codes "Usage: cat <filename>\n" ∷ []) s
    else elim (fs_read_file s.fs (absolute_path s.current_dir (arg argv 1)) max_file_size) [
      | none ↦ print (codes "cat: " ∷ arg argv 1 ∷ codes ": No such file or directory\n" ∷ []) s
      | some (size, file) ↦ cat_buffer w size file s
    ]

-- A line of the listing; the name of a directory ends with a slash.
unfoldable pub print_line : Bytes → Session → Session
print_line line s =
    let is_dir = ltb 0 (length line) && get_or line (length line - 1) 0 == slash in
    let s1 = if is_dir then colour 0x0b 0 s else s in
    print (codes "\n" ∷ []) (colour 0x0f 0 (print (line ∷ []) s1))

-- The loop over the lines of the listing, with the line so far.
unfoldable pub print_lines : Bytes → Bytes → Session → Session
print_lines line [] s = if length line == 0 then s else print_line line s
print_lines line (c ∷ cs) s =
    if c == b'\n' then print_lines [] cs (print_line line s) else print_lines (line ++ c ∷ []) cs s

unfoldable pub cmd_ls : Session → Session
cmd_ls s = elim (fs_list_dir s.fs s.current_dir 2048) [
  | none ↦
      print
        (codes "ls: cannot access '" ∷ s.current_dir ∷ codes "': No such file or directory\n" ∷ [])
        s
  | some text ↦ print_lines [] text s
]

unfoldable pub cmd_cd : List Bytes → Session → Session
cmd_cd argv s =
    if ltb (length argv) 2
    then elim (fs_change_dir s.fs (home s.username) (home s.username)) [
      | none ↦ s
      | some dir ↦ record s { current_dir = dir }
    ]
    else elim (fs_change_dir s.fs (arg argv 1) s.current_dir) [
      | none ↦ print (codes "cd: " ∷ arg argv 1 ∷ codes ": No such file or directory\n" ∷ []) s
      | some dir ↦ record s { current_dir = dir }
    ]

-- The loop that builds the text of a file from the arguments that are left.
unfoldable pub echo_content : Bytes → List Bytes → Bytes
echo_content out [] = out
echo_content out (a ∷ as') =
    echo_content
      (if ltb (length out + length a + 1) max_file_size
        then (if ltb 0 (length as') then (out ++ a) ++ b' ' ∷ [] else out ++ a)
        else out)
      as'

-- The loop that prints the arguments that are left.
unfoldable pub echo_words : List Bytes → List Bytes
echo_words [] = codes "\n" ∷ []
echo_words (a ∷ as') =
    if ltb 0 (length as') then a ∷ codes " " ∷ echo_words as' else a ∷ echo_words as'

unfoldable pub cmd_echo : List Bytes → Session → Session
cmd_echo argv s =
    let argc = length argv in
    if ltb argc 2
    then print (codes "\n" ∷ []) s
    else if leb 4 argc && str_eq (arg argv (argc - 2)) (codes ">")
    then attempt
        (λ fs.
          fs_create_file fs (absolute_path s.current_dir (arg argv (argc - 1)))
            (echo_content [] (take (argc - 3) (drop 1 argv))))
        (codes "echo: write error\n" ∷ []) s
    else print (echo_words (drop 1 argv)) s

-- ===== src/Shell/Session.antt =====
-- shell/shell.c: the state of the shell, and what it shows. The commands of bin/ work on this state.
use ephemeral_os.Base.{
  ℕ, ◌&&◌, List, [], ◌∷◌, ◌++◌, Bytes, codes, str_eq, ltb, ◌==◌, if◌then◌else◌, length, get_or,
  take, drop,
}
use ephemeral_os.Fs.State.{Fs}
use ephemeral_os.Fs.Path.{slash}
use ephemeral_os.Fs.Lookup.{fs_dir_exists}
use ephemeral_os.Fs.Install.{fs_get_username, fs_get_hostname}
use ephemeral_os.Drivers.Screen.{Screen, screen_print, screen_set_color}

pub record Session : Type 0 where
  pub fs : Fs
  pub screen : Screen
  pub current_dir : Bytes
  pub username : Bytes

-- Calls of `screen_print`, one after the other.
unfoldable pub print : List Bytes → Session → Session
print [] s = s
print (text ∷ texts) s = print texts (record s { screen = screen_print s.screen text })

unfoldable pub colour : ℕ → ℕ → Session → Session
colour foreground background s = record s {
  screen = screen_set_color foreground background s.screen;
}

abbrev pub home : Bytes → Bytes
home username = codes "/home/" ++ username

-- The user's home directory shown as `~`.
unfoldable pub get_display_path : Bytes → Bytes → Bytes
get_display_path username current_dir =
    let user_home = home username in
    let home_len = length user_home in
    if str_eq current_dir user_home
    then codes "~"
    else if ltb home_len (length current_dir)
        && (get_or current_dir home_len 0 == slash && str_eq (take home_len current_dir) user_home)
    then codes "~" ++ drop home_len current_dir
    else current_dir

unfoldable pub print_prompt : Session → Session
print_prompt s =
    let s1 = print (s.username ∷ []) (colour 0x0a 0 s) in
    let s2 = print (codes "@" ∷ []) (colour 0x0f 0 s1) in
    let s3 = print (fs_get_hostname s.fs ∷ []) (colour 0x0b 0 s2) in
    let s4 = print (codes ":" ∷ []) (colour 0x0f 0 s3) in
    let s5 = print (get_display_path s.username s.current_dir ∷ []) (colour 0x0e 0 s4) in
    print (codes "$ " ∷ []) (colour 0x0f 0 s5)

unfoldable pub shell_init : Session → Session
shell_init s =
    let username = fs_get_username s.fs in
    record s {
      username = username;
      current_dir = if fs_dir_exists s.fs (home username) then home username else slash ∷ [];
    }

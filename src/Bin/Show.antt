-- ===== src/Bin/Show.antt =====
-- bin/: the commands that only show something.
use ephemeral_os.Base.{
  ℕ, ◌-◌, ◌&&◌, List, [], ◌∷◌, ◌++◌, Bytes, codes, leb, ◌==◌, if◌then◌else◌, length, get_or,
}
use ephemeral_os.Drivers.Screen.{screen_clear}
use ephemeral_os.Drivers.Rtc.{RtcTime, rtc_get_time}
use ephemeral_os.Shell.Session.{Session, print}
use ephemeral_os.Bin.World.{World}
use ephemeral_os.Bin.Numbers.{int_to_str}

unfoldable pub cmd_help : Session → Session
cmd_help = print (
    codes "\nEphemeralOS Available Commands:\n"
    ∷ codes "================================\n"
    ∷ codes "help      - Show this help message\n"
    ∷ codes "clear     - Clear the screen\n"
    ∷ codes "ls        - List files and directories\n"
    ∷ codes "cd        - Change directory\n"
    ∷ codes "mkdir     - Create directory\n"
    ∷ codes "cat       - Display file contents\n"
    ∷ codes "echo      - Print text or create file\n"
    ∷ codes "touch     - Create empty file\n"
    ∷ codes "rm        - Remove file\n"
    ∷ codes "pwd       - Print working directory\n"
    ∷ codes "whoami    - Print current user\n"
    ∷ codes "uname     - Show system information\n"
    ∷ codes "date      - Show current date/time\n"
    ∷ codes "shutdown  - Power off the system\n"
    ∷ codes "reboot    - Restart the system\n\n"
    ∷ codes "ping      - Test network connectivity\n"
    ∷ [])

unfoldable pub cmd_clear : Session → Session
cmd_clear s = record s { screen = screen_clear s.screen }

unfoldable pub cmd_pwd : Session → Session
cmd_pwd s = print (s.current_dir ∷ codes "\n" ∷ []) s

unfoldable pub cmd_whoami : Session → Session
cmd_whoami s = print (s.username ∷ codes "\n" ∷ []) s

unfoldable pub cmd_uname : Session → Session
cmd_uname = print (codes "EphemeralOS\n" ∷ [])

abbrev pub weekday_names : List Bytes
weekday_names =
    codes "Sun"
    ∷ codes "Mon"
    ∷ codes "Tue"
    ∷ codes "Wed"
    ∷ codes "Thu"
    ∷ codes "Fri"
    ∷ codes "Sat"
    ∷ []

abbrev pub month_names : List Bytes
month_names =
    codes "Jan"
    ∷ codes "Feb"
    ∷ codes "Mar"
    ∷ codes "Apr"
    ∷ codes "May"
    ∷ codes "Jun"
    ∷ codes "Jul"
    ∷ codes "Aug"
    ∷ codes "Sep"
    ∷ codes "Oct"
    ∷ codes "Nov"
    ∷ codes "Dec"
    ∷ []

-- `if (n >= 1 && n <= count) names[n - 1]`, and the first name else.
unfoldable pub name_of : List Bytes → ℕ → Bytes
name_of names n = get_or names (if leb 1 n && leb n (length names) then n - 1 else 0) []

-- `int_to_str(n, num_str, 2)`, behind a zero if that has one byte.
unfoldable pub two : ℕ → Bytes
unfolding int_to_str
two n = let text = int_to_str n 2 in if length text == 1 then b'0' ∷ text else text

-- The text that `cmd_date` builds.
unfoldable pub date_text : RtcTime → Bytes
unfolding name_of two int_to_str
date_text t =
    name_of weekday_names t.weekday
    ++ (b' ' ∷ name_of month_names t.month
        ++ (b' ' ∷ int_to_str t.day 2
            ++ (b' ' ∷ two t.hour
                ++ (b':' ∷ two t.minute
                    ++ (b':' ∷ two t.second
                        ++ (codes " UTC " ++ (int_to_str t.year 4 ++ b'\n' ∷ [])))))))

unfoldable pub cmd_date : World → Session → Session
cmd_date w s = print (date_text (rtc_get_time w.cmos) ∷ []) s

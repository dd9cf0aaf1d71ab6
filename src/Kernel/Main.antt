-- ===== src/Kernel/Main.antt =====
-- kernel/kernel.c: `kernel_main`, from the start of the machine to the shell. The waits are left out.
-- `none` is a machine that waits for more keys.
pub mod Entry
pub mod Gate
use ephemeral_os.Base.{
  ℕ, suc, ◌+◌, ◌-◌, ◌/◌, ◌%◌, min, Bool, false, not, ◌&&◌, Option, none, some, List, [], ◌∷◌, Bytes,
  codes, ltb, leb, ◌==◌, if◌then◌else◌, length, get_or, drop,
}
use ephemeral_os.Drivers.Screen.{
  Screen, screen_init, screen_clear, screen_print, screen_print_char, screen_set_color,
}
use ephemeral_os.Drivers.Rtc.{RtcTime, rtc_get_time, rtc_init}
use ephemeral_os.Drivers.Network.Start.{
  Bus, Nic, network_init, network_is_ready, network_set_ip, network_get_mac,
}
use ephemeral_os.Fs.State.{Fs}
use ephemeral_os.Fs.Path.{slash}
use ephemeral_os.Fs.Install.{fs_init, fs_check_installed, fs_get_hostname}
use ephemeral_os.Net.Arp.{arp_init}
use ephemeral_os.Net.Icmp.{icmp_init}
use ephemeral_os.Net.Udp.{udp_init, udp_register_handler}
use ephemeral_os.Net.Stack.{Stack}
use ephemeral_os.Shell.Session.{Session, shell_init}
use ephemeral_os.Kernel.Login.{Console, say, do_login}
use ephemeral_os.Kernel.Menu.{show_continue_menu}
use ephemeral_os.Kernel.Installer.{installer_run, coloured}

-- What the hardware answers: the ports of the card and of the bus, the clock's registers, and how many
-- scancodes have arrived when the loops that empty the keyboard run, before the menu and before the
-- login.
pub record Machine : Type 0 where
  pub bus : Bus
  pub cmos : ℕ → ℕ
  pub before_menu : ℕ
  pub before_login : ℕ

pub record Kernel : Type 0 where
  pub fs : Fs
  pub screen : Screen
  pub shift : Bool
  pub keys : List ℕ
  pub nic : Nic
  pub stack : Stack
  pub dns_server : ℕ

-- The numbers that stand for `dns_response_handler` and `ntp_response_handler`.
abbrev pub dns_callback : ℕ
dns_callback = 1

abbrev pub ntp_callback : ℕ
ntp_callback = 2

-- The calls from `eth_init` to `ntp_init`.
unfoldable pub init_stack : Nic → Stack → Stack
init_stack n s = record s {
  local_mac = network_get_mac n;
  arp = arp_init s.arp;
  ident = 1;
  icmp = icmp_init s.icmp;
  handlers = udp_register_handler (udp_register_handler udp_init 53 dns_callback) 123 ntp_callback;
}

-- The address of the machine, which the network stack asks the card for, and that of its DNS server.
unfoldable pub configure : Kernel → Kernel
configure k =
    if network_is_ready k.nic
    then record k {
      nic = network_set_ip 0x0a00_020f k.nic;
      stack = record (k.stack) { local_ip = 0x0a00_020f };
      dns_server = 0x0a00_0203;
      screen =
          say
            (codes "[NET] Network stack initialized\n"
              ∷ codes "[NET] IP configured: 10.0.2.15\n"
              ∷ codes "[NET] DNS server: 10.0.2.3\n"
              ∷ [])
            k.screen;
    }
    else k

-- Up to the test of the installation.
unfoldable pub start_up : Machine → Kernel → Kernel
start_up m k =
    let s1 =
      say
        (codes "EphemeralOS v1.0\n"
          ∷ codes "================\n\n"
          ∷ codes "[RTC] Real Time Clock initialized\n"
          ∷ codes "[PCI] PCI bus initialized\n"
          ∷ [])
        (screen_clear (screen_init k.screen)) in
    let (nic, s2) = network_init m.bus (k.nic, s1) in
    let k1 = configure (record k { nic = nic; screen = s2; stack = init_stack nic k.stack }) in
    record k1 { screen = screen_print k1.screen (codes "\n") }

-- Where a start ends: the machine is off, it starts again, or the shell has it.
pub data Boot : Type 0 where
  halted rebooted : Kernel → Boot
  in_shell : Kernel → Session → Boot

-- `shutdown_system`, or the reboot, by what was chosen.
unfoldable pub leave : ℕ → Kernel → Boot
leave choice k =
    if choice == 1
    then halted (record k { screen = screen_print k.screen (codes "\nShutting down...\n") })
    else rebooted
        (record k { screen = screen_print (screen_clear k.screen) (codes "Rebooting...\n") })

-- Behind `installer_run`. Up to a hundred scancodes that have arrived are lost before the menu.
unfoldable pub after_installer : Machine → Kernel → Fs → Console → Option Boot
after_installer m k fs c =
    let s1 =
      screen_set_color 0x0f 0
        (coloured 0x0a (codes "Installation complete!\n" ∷ []) (screen_print c.0 (codes "\n"))) in
    elim (show_continue_menu s1 (drop (min 100 m.before_menu) c.2)) [
      | none ↦ none
      | some (choice, s2, keys) ↦
          some (leave choice (record k { fs = fs; screen = s2; shift = c.1; keys = keys }))
    ]

unfoldable pub first_run : Machine → Kernel → Option Boot
first_run m k = elim (installer_run (length k.keys) k.fs (k.screen, k.shift, k.keys)) [
  | none ↦ none
  | some (fs, c) ↦ after_installer m k fs c
]

abbrev pub two_digits : ℕ → Bytes
two_digits n = (b'0' + n / 10) ∷ (b'0' + n % 10) ∷ []

abbrev pub weekdays : List Bytes
weekdays =
    codes "Sun"
    ∷ codes "Mon"
    ∷ codes "Tue"
    ∷ codes "Wed"
    ∷ codes "Thu"
    ∷ codes "Fri"
    ∷ codes "Sat"
    ∷ []

abbrev pub months : List Bytes
months =
    codes "Jan"
    ∷ codes "Feb"
    ∷ codes "Mar"
    ∷ codes "Apr"
    ∷ codes "May"
    ∷ codes "Jun"
    ∷ codes "Jul"
    ∷ codes "Aug"
    ∷ codes "Sep"
    ∷ codes "Oct"
    ∷ codes "Nov"
    ∷ codes "Dec"
    ∷ []

-- A name of a table that counts from 1; nothing out of range.
abbrev pub print_name : List Bytes → ℕ → Screen → Screen
print_name names n s =
    if leb 1 n && leb n (length names) then screen_print s (get_or names (n - 1) []) else s

unfoldable pub print_day : ℕ → Screen → Screen
print_day day s =
    let s1 = if ltb day 10 then screen_print s (codes " ") else s in
    let tens = b'0' + day / 10 in
    let s2 = if not (tens == b'0') then screen_print_char s1 tens else s1 in
    screen_print_char s2 (b'0' + day % 10)

-- The line with the time of the login.
unfoldable pub print_login_time : RtcTime → Screen → Screen
print_login_time t s =
    let s1 = print_name weekdays t.weekday (screen_print s (codes "Last login: ")) in
    let s2 = print_name months t.month (screen_print s1 (codes " ")) in
    let s3 = print_day t.day (screen_print s2 (codes " ")) in
    say
      (codes " "
        ∷ two_digits t.hour
        ∷ codes ":"
        ∷ two_digits t.minute
        ∷ codes ":"
        ∷ two_digits t.second
        ∷ codes " "
        ∷ ((b'0' + t.year / 1000)
            ∷ (b'0' + t.year / 100 % 10)
            ∷ (b'0' + t.year / 10 % 10)
            ∷ (b'0' + t.year % 10)
            ∷ [])
        ∷ codes "\n\n"
        ∷ [])
      s3

-- Behind `do_login`: the welcome, and the start of the shell.
unfoldable pub enter_shell : Machine → Kernel → Console → Boot
enter_shell m k c =
    let s1 = say (codes "\n" ∷ codes "Welcome to " ∷ fs_get_hostname k.fs ∷ codes "!\n" ∷ []) c.0 in
    let s2 = print_login_time (rtc_get_time (rtc_init m.cmos)) s1 in
    let k1 = record k { screen = s2; shift = c.1; keys = c.2 } in
    in_shell k1
      (shell_init (record { fs = k.fs; screen = s2; current_dir = slash ∷ []; username = [] }))

-- What `do_login` starts from. Up to fifty scancodes that have arrived are lost before it.
abbrev pub at_login : Machine → Kernel → Console
at_login m k = (
  say (fs_get_hostname k.fs ∷ codes " " ∷ [])
      (screen_set_color 0x0f 0 (screen_init (screen_clear k.screen))),
  false,
  drop (min 50 m.before_login) k.keys,
)

-- With a system that is installed, from `keyboard_init` on.
unfoldable pub normal_run : Machine → Kernel → Option Boot
normal_run m k =
    let k1 = record k { fs = fs_init k.fs } in
    elim (do_login (suc (length (at_login m k1).2)) k1.fs (at_login m k1)) [
      | none ↦ none
      | some c ↦ some (enter_shell m k1 c)
    ]

-- From the test of the installation on.
unfoldable pub from_check : Machine → Kernel → Option Boot
from_check m k =
    let (fs, is_installed) = fs_check_installed k.fs in
    let k1 = record k { fs = fs } in if not is_installed then first_run m k1 else normal_run m k1

unfoldable pub kernel_main : Machine → Kernel → Option Boot
kernel_main m k = from_check m (start_up m k)

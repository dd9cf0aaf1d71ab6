-- ===== src/Examples/Boots.antt =====
-- kernel/kernel.c: the theorems on a start, on a machine with an installed drive and no network card.
use ephemeral_os.Base.{
  Bool, List, ℕ, sym, ap, subst, arith, ◌≡◌, refl, ◌↔◌, false, some, [], codes, replicate,
}
use ephemeral_os.Kernel.Login.{Console, console_of}
use ephemeral_os.Kernel.Main.Entry.{Enters, same_hash}
use ephemeral_os.Fs.State.{Fs}
use ephemeral_os.Fs.Install.{fs_install}
use ephemeral_os.Drivers.Screen.{Screen, screen_set_color}
use ephemeral_os.Drivers.Keyboard.{Typed}
use ephemeral_os.Examples.Sessions.{keys, answer, plain, starred, answered, answered_password}
use ephemeral_os.Kernel.Main.{
  Machine, Kernel, configure, start_up, at_login, enter_shell, kernel_main,
}
use ephemeral_os.Kernel.Main.Gate.{kernel_main_iff}
use ephemeral_os.Examples.Drive.{blank}
use ephemeral_os.Examples.Devices.{dark}
use ephemeral_os.Examples.Stacks.{machine}

-- A bus with no device, a clock at 0, and a keyboard on which nobody has typed yet.
abbrev quiet : Machine
quiet = record {
  bus = record { config = λ a. 0xffff_ffff; inb = λ port. 0; rx_address = 0 };
  cmos = λ n. 0;
  before_menu = 0;
  before_login = 0;
}

-- What an installation with the letter a for each answer leaves.
abbrev system_of_a : Fs
system_of_a = fs_install blank (codes "a") (codes "a") (codes "a")

-- Memory as on a blank machine, with the drive of the installation, and keys to come.
abbrev started : Kernel
started = record {
  fs = record blank { disk = system_of_a.disk };
  screen = dark;
  shift = false;
  keys = keys 2;
  nic = record {
    io_base = 0;
    mac_address = replicate 6 0;
    ip_address = 0;
    card = record { initialized = false; rx_buffer = []; rx_offset = 0; capr = 0; tx_port = 0 };
    out = [];
  };
  stack = machine;
  dns_server = 0;
}

configure-keys : (k : Kernel) → (configure k).keys ≡ k.keys
unfolding configure
configure-keys k = ground arith

start_up-keys : (m : Machine) (k : Kernel) → (start_up m k).keys ≡ k.keys
unfolding start_up
start_up-keys m k = configure-keys _

-- The machine behind its start.
abbrev awake : Kernel
awake = record (start_up quiet started) { fs = system_of_a }

-- The screen before the login, the name, and the password.
abbrev greeted : Screen
greeted = (at_login quiet awake).0

abbrev name_typed : Typed × Bool × List ℕ
name_typed = answer plain (codes "login: ") (screen_set_color 0x0f 0 greeted) 1

abbrev secret_typed : Typed × Bool × List ℕ
secret_typed = answer starred (codes "Password: ") name_typed.0.screen 0

kernel_main_iff_example :
    (kernel_main quiet started ≡ some (enter_shell quiet awake (console_of secret_typed))) ↔ (
      (c : Console) × Enters (codes "a") (codes "a") (codes "a") (at_login quiet awake) c
      × (enter_shell quiet awake (console_of secret_typed) ≡ enter_shell quiet awake c))
kernel_main_iff_example =
    kernel_main_iff quiet started blank (codes "a") (codes "a") (codes "a")
      (enter_shell quiet awake (console_of secret_typed)) refl

ready : at_login quiet awake ≡ (greeted, false, keys 2)
ready = ap (λ ks. (greeted, false, ks)) (start_up-keys quiet started)

enters : Enters (codes "a") (codes "a") (codes "a") (at_login quiet awake) (console_of secret_typed)
enters =
    subst (λ c. Enters (codes "a") (codes "a") (codes "a") c (console_of secret_typed)) (sym ready)
      (same_hash name_typed secret_typed
        (answered (screen_set_color 0x0f 0 greeted) (codes "login: ") 1) refl
        (answered_password name_typed.0.screen (codes "Password: ") 0) refl refl)

-- The keys a, enter, a and enter lead to the shell.
reaches_shell : kernel_main quiet started ≡ some (enter_shell quiet awake (console_of secret_typed))
reaches_shell =
    (kernel_main_iff quiet started blank (codes "a") (codes "a") (codes "a")
        (enter_shell quiet awake (console_of secret_typed)) refl).1
      (console_of secret_typed, enters, refl)

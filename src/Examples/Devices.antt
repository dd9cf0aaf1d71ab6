-- ===== src/Examples/Devices.antt =====
-- The theorems of Drivers at concrete states.
use ephemeral_os.Base.{
  true, take, drop, ℕ, ◌+◌, ◌-◌, ◌*◌, ◌≡◌, refl, false, some, [], ◌∷◌, arith, codes, get_or,
  replicate, length-replicate,
}
use ephemeral_os.Drivers.Network.{Card, packet, network_receive_packet}
use ephemeral_os.Drivers.Network.Ring.{network_receive_packet_lag}
use ephemeral_os.Drivers.Pci.{PciDevice, describe, pci_find_device}
use ephemeral_os.Drivers.Pci.Find.{pci_find_device_complete}
use ephemeral_os.Drivers.Screen.{Screen, screen_print, screen_print_char}
use ephemeral_os.Drivers.Screen.Inv.{IsShown, screen_print-IsShown}
use ephemeral_os.Drivers.Keyboard.{scancode_step, getline, type_char, Typed, keyboard_getline}
use ephemeral_os.Drivers.Keyboard.Line.{IsLine, keyboard_getline-IsLine}
use ephemeral_os.Drivers.Rtc.{RtcTime, days_since_1970, rtc_get_time, is_leap}
use ephemeral_os.Drivers.Rtc.Calendar.{leaps_before, before, days_since_1970_lem}
use ephemeral_os.Drivers.Rtc.Bcd.{rtc_get_time_pm}

abbrev pub dark : Screen
dark = record {
  cursor_x = 3;
  cursor_y = 2;
  foreground = 15;
  background = 0;
  video = replicate 2000 0;
  high = 0;
  low = 163;
}

pub dark-IsShown : IsShown dark
dark-IsShown = record {
  on_screen = record {
    column = omega arith;
    row = omega arith;
    cells = length-replicate {A = ℕ} 2000 0;
  };
  shown = refl;
}

screen_print-IsShown_example : IsShown (screen_print dark (codes "ok\n"))
screen_print-IsShown_example = screen_print-IsShown (codes "ok\n") dark dark-IsShown

-- The line that the key a makes, and what enter makes of it.
abbrev with_a : Typed
with_a = type_char (λ c. c) 8 (record { buffer = []; screen = dark }) b'a'

abbrev entered : Typed
entered = record with_a { screen = screen_print_char with_a.screen b'\n' }

-- The keys a and enter.
typed_a : keyboard_getline 8 false dark (0x1e ∷ 0x1c ∷ []) ≡ some (entered, false, [])
unfolding keyboard_getline getline scancode_step
typed_a = refl

keyboard_getline-IsLine_example : IsLine 8 entered
keyboard_getline-IsLine_example =
    keyboard_getline-IsLine (0x1e ∷ 0x1c ∷ []) 8 false dark (omega arith) dark-IsShown typed_a

abbrev leap_day : RtcTime
leap_day = record {
  second = 5;
  minute = 4;
  hour = 15;
  day = 29;
  month = 2;
  year = 2024;
  weekday = 4;
}

days_since_1970_lem_example :
    days_since_1970 leap_day + leaps_before 1970 + 1
    ≡ 365 * (2024 - 1970) + leaps_before 2024 + before (is_leap 2024) (2 - 1) + 29
days_since_1970_lem_example =
    days_since_1970_lem leap_day (omega arith) (omega arith) (omega arith) (omega arith)

-- The registers of a clock in decimal mode, with this register B and this hour.
abbrev registers : ℕ → ℕ → ℕ → ℕ
registers b h n = get_or (0x05 ∷ 0 ∷ 0x04 ∷ 0 ∷ h ∷ 0 ∷ 0x04 ∷ 0x29 ∷ 0x02 ∷ 0x24 ∷ 0 ∷ b ∷ []) n 0

rtc_get_time_pm_example : (rtc_get_time (registers 0 0x83)).hour ≡ 80 + 3
rtc_get_time_pm_example =
    rtc_get_time_pm (registers 0 0x83) 3 refl refl (omega arith) (omega arith) refl

-- A card with a packet of 60 bytes and its CRC at the beginning of the ring.
abbrev card : Card
card = record {
  initialized = true;
  rx_buffer = 1 ∷ 0 ∷ 64 ∷ 0 ∷ replicate 9000 7;
  rx_offset = 0;
  capr = 65520;
  tx_port = 0;
}

network_receive_packet_lag_example :
    ((network_receive_packet card false 1518).1
      ≡ packet (take 60 (drop 4 (1 ∷ 0 ∷ 64 ∷ 0 ∷ replicate 9000 7))))
    × ((network_receive_packet card false 1518).0.rx_offset + 4 ≡ 68)
network_receive_packet_lag_example =
    network_receive_packet_lag card 64 1518 refl refl refl (omega arith) (omega arith) (omega arith)
      (omega arith)

-- A bus with the ids 0x10EC and 0x8139 everywhere.
abbrev bus : ℕ → ℕ
bus address = 0x8139_10ec

pci_find_device_complete_example :
    (x : PciDevice) × (pci_find_device bus 0x10ec 0x8139 ≡ some x)
    × (x.vendor_id ≡ 0x10ec)
    × (x.device_id ≡ 0x8139)
unfolding describe
pci_find_device_complete_example =
    pci_find_device_complete bus 0x10ec 0x8139 0 3 0 (omega arith) (omega arith) (omega arith)
      (λ e. omega arith) refl refl

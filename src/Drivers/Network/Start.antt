-- ===== src/Drivers/Network/Start.antt =====
-- drivers/network.c, drivers/pci.c: `network_init` and the addresses that the kernel asks for. The
-- loop of `rtl8139_reset` waits for the card and changes nothing.
use ephemeral_os.Base.{
  ℕ, zero, suc, ◌+◌, ◌-◌, ◌*◌, ◌/◌, ◌%◌, bit_or, Bool, true, not, none, some, List, [], ◌∷◌, Bytes,
  codes, ltb, ◌==◌, if◌then◌else◌,
}
use ephemeral_os.Drivers.Screen.{Screen, screen_print}
use ephemeral_os.Drivers.Pci.{PciDevice, pci_address, pci_read_config, pci_find_device}
use ephemeral_os.Drivers.Network.{Card}

-- A write to a port: its width, the port and the value.
pub data Out : Type 0 where
  outb outw outl : ℕ → ℕ → Out

-- The static state of the file besides that of `Card`, and the writes to ports, the last one first.
pub record Nic : Type 0 where
  pub io_base : ℕ
  pub mac_address : Bytes
  pub ip_address : ℕ
  pub card : Card
  pub out : List Out

-- The ports that answer: the configuration space, and the bytes at a port. The address of the
-- receive buffer is the linker's.
pub record Bus : Type 0 where
  pub config : ℕ → ℕ
  pub inb : ℕ → ℕ
  pub rx_address : ℕ

abbrev pub write : List Out → Nic → Nic
write [] n = n
write (o ∷ os) n = write os (record n { out = o ∷ n.out })

unfoldable pub pci_write_config : ℕ → ℕ → ℕ → ℕ → ℕ → Nic → Nic
pci_write_config bus device function offset value =
    write (outl 0xcf8 (pci_address bus device function offset) ∷ outl 0xcfc value ∷ [])

unfoldable pub read_mac : Bus → ℕ → ℕ → ℕ → Bytes
read_mac b io_base i zero = []
read_mac b io_base i (suc n) = b.inb (io_base + i) ∷ read_mac b io_base (i + 1) n

unfoldable pub rtl8139_init : Bus → ℕ → Nic → Nic
unfolding read_mac
rtl8139_init b bar0 n =
    let base = bar0 / 4 * 4 in
    let n1 = write (outb (base + 0x37) 0x10 ∷ []) (record n { io_base = base }) in
    let n2 = record n1 { mac_address = read_mac b base 0 6 } in
    let n3 =
      write
        (outl (base + 0x30) b.rx_address
          ∷ outw (base + 0x3c) 0x0005
          ∷ outl (base + 0x44) 0x0000_070f
          ∷ outl (base + 0x40) 0x0300_0000
          ∷ outb (base + 0x37) 0x0c
          ∷ [])
        n2 in
    record n3 { card = record (n3.card) { rx_offset = 0; initialized = true } }

-- `"0123456789ABCDEF"[n]`
unfoldable pub hex_digit : ℕ → ℕ
hex_digit n = if ltb n 10 then b'0' + n else b'A' + (n - 10)

-- The loop that prints the address, a colon between two bytes.
unfoldable pub print_mac : Bytes → Screen → Screen
unfolding hex_digit
print_mac [] s = s
print_mac (b ∷ []) s = screen_print s (hex_digit (b / 16) ∷ hex_digit (b % 16) ∷ [])
print_mac (b ∷ c ∷ bs) s =
    print_mac (c ∷ bs)
      (screen_print (screen_print s (hex_digit (b / 16) ∷ hex_digit (b % 16) ∷ [])) (codes ":"))

-- What the card is sent once it is found: bus mastering and the ports, and its start.
unfoldable pub start_card : Bus → PciDevice → Nic → Nic
unfolding pci_write_config rtl8139_init
start_card b d n =
    let command = pci_read_config b.config d.bus d.device d.function 0x04 % 65536 in
    let enabled = bit_or command 5 in
    rtl8139_init b d.bar0 (pci_write_config d.bus d.device d.function 0x04 enabled n)

unfoldable pub network_init : Bus → Nic × Screen → Nic × Screen
unfolding start_card print_mac
network_init b (n, s) = elim (pci_find_device b.config 0x10ec 0x8139) [
  | none ↦ (n, screen_print s (codes "[NET] No supported network card found\n"))
  | some d ↦
      let n' = start_card b d n in
      let s1 =
        screen_print (screen_print s (codes "[NET] Found RTL8139 NIC\n")) (codes "[NET] MAC: ") in
      (n', screen_print (print_mac n'.mac_address s1) (codes "\n"))
]

abbrev pub network_is_ready : Nic → Bool
network_is_ready n = n.card.initialized

-- `network_info_t`
pub record NetworkInfo : Type 0 where
  pub mac : Bytes
  pub ip : ℕ
  pub link_up : Bool
  pub dhcp_configured : Bool

abbrev pub network_get_info : Nic → NetworkInfo
network_get_info n = record {
  mac = n.mac_address;
  ip = n.ip_address;
  link_up = n.card.initialized;
  dhcp_configured = not (n.ip_address == 0);
}

abbrev pub network_set_mac : Bytes → Nic → Nic
network_set_mac mac n = record n { mac_address = mac }

abbrev pub network_get_mac : Nic → Bytes
network_get_mac n = n.mac_address

abbrev pub network_set_ip : ℕ → Nic → Nic
network_set_ip ip n = record n { ip_address = ip }

abbrev pub network_get_ip : Nic → ℕ
network_get_ip n = n.ip_address

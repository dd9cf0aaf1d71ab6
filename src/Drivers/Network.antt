-- ===== src/Drivers/Network.antt =====
-- drivers/network.c: the packets that the card sends and receives.
pub mod Ring
pub mod Start
use ephemeral_os.Base.{
  ℕ, ◌+◌, ◌-◌, ◌*◌, ◌/◌, ◌%◌, min, Bool, not, ◌||◌, Option, none, some, ◌++◌, Bytes, ltb, leb, ◌==◌,
  if◌then◌else◌, length, take, drop, replicate,
}
use ephemeral_os.Net.Order.{load16}

-- `initialized`, `rx_buffer`, `rx_offset`, the last value that was written to the register CAPR, and
-- `tx_port`.
pub record Card : Type 0 where
  pub initialized : Bool
  pub rx_buffer : Bytes
  pub rx_offset : ℕ
  pub capr : ℕ
  pub tx_port : ℕ

-- The ports, from `io_base` on, and what goes to them.
pub record Transmission : Type 0 where
  pub address_port : ℕ
  pub status_port : ℕ
  pub length : ℕ
  pub tx_buffer : Bytes

unfoldable pub network_send_packet : Card → Bytes → Card × Option Transmission
network_send_packet c packet =
    let padded = packet ++ replicate (60 - length packet) 0 in
    if not c.initialized || ltb 2048 (length packet) then (c, none) else (
      record c { tx_port = (c.tx_port + 1) % 4 },
      some (record {
        address_port = 0x20 + c.tx_port * 4;
        status_port = 0x10 + c.tx_port * 4;
        length = length padded % 8192;
        tx_buffer = padded;
      }),
    )

-- The results -1 and 0, and the bytes that were copied to the buffer.
pub data Received : Type 0 where
  invalid nothing : Received
  packet : Bytes → Received

-- `rx_offset`, a `uint16_t`, behind so many bytes and the header, and what goes to CAPR.
abbrev pub advance : Card → ℕ → Card
advance c bytes =
    let aligned = (c.rx_offset + bytes + 4 + 3) / 4 * 4 % 65536 in
    let offset = if leb 8192 aligned then aligned - 8192 else aligned in
    record c { rx_offset = offset; capr = (offset + 65536 - 16) % 65536 }

-- `empty` is bit 0 of the command register.
unfoldable pub network_receive_packet : Card → Bool → ℕ → Card × Received
network_receive_packet c empty max_length =
    let status = load16 c.rx_buffer c.rx_offset in
    let size = load16 c.rx_buffer (c.rx_offset + 2) in
    let copied = min (size - 4) max_length in
    if not c.initialized
    then (c, invalid)
    else if empty
    then (c, nothing)
    else if status % 2 == 0
    then (record c { rx_offset = 0 }, invalid)
    else if ltb size 60 || ltb 1518 size
    then (advance c size, nothing)
    else (advance c copied, packet (take copied (drop (c.rx_offset + 4) c.rx_buffer)))

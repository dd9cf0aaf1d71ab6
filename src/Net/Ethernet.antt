-- ===== src/Net/Ethernet.antt =====
-- net/ethernet.c: frames. `local_mac` is the state that `eth_init` fetches from the card.
pub mod Frames
use ephemeral_os.Base.{
  ℕ, ◌+◌, ◌-◌, Option, none, some, ◌++◌, Bytes, ltb, ◌==◌, if◌then◌else◌, length, drop, replicate,
}
use ephemeral_os.Net.Order.{htons, ntohs, store16, load16}

-- The frame that is handed to `network_send_packet`, if the payload is not too long: the header, the
-- payload, and zeros up to 60 bytes.
unfoldable pub eth_send_frame : Bytes → Bytes → ℕ → Bytes → Option Bytes
eth_send_frame local_mac dest_mac eth_type payload =
    if ltb 1500 (length payload)
    then none
    else some (
        dest_mac
        ++ (local_mac
            ++ (store16 (htons eth_type) ++ (payload ++ replicate (60 - (14 + length payload)) 0))))

pub data Delivery : Type 0 where
  to_arp to_ip : Bytes → Delivery
  ignored : Delivery

unfoldable pub eth_receive_frame : Bytes → Delivery
eth_receive_frame frame =
    let eth_type = ntohs (load16 frame 12) in
    if ltb (length frame) 14
    then ignored
    else if eth_type == 0x0806
    then to_arp (drop 14 frame)
    else if eth_type == 0x0800
    then to_ip (drop 14 frame)
    else ignored

-- ===== src/Net/Udp.antt =====
-- net/udp.c: the table of handlers, and the packets. A callback is the number of a function; 0 is the
-- null pointer.
pub mod Deliver
use ephemeral_os.Base.{
  ℕ, ◌+◌, ◌-◌, ◌%◌, not, ◌&&◌, ◌||◌, Option, none, some, List, [], ◌∷◌, ◌++◌, Bytes, ltb, ◌==◌,
  if◌then◌else◌, length, take, drop, replicate,
}
use ephemeral_os.Net.Order.{htons, ntohs, store16, load16}

pub record Handler : Type 0 where
  pub port : ℕ
  pub callback : ℕ

abbrev pub no_handler : Handler
no_handler = record { port = 0; callback = 0 }

abbrev pub udp_init : List Handler
udp_init = replicate 8 no_handler

unfoldable pub udp_register_handler : List Handler → ℕ → ℕ → List Handler
udp_register_handler [] port callback = []
udp_register_handler (h ∷ hs) port callback =
    if h.port == 0
    then record { port = port; callback = callback } ∷ hs
    else h ∷ udp_register_handler hs port callback

-- The packet that is handed to `ip_send`, if it is not too long: its first `total_length` bytes,
-- where `total_length` is a `uint16_t`.
unfoldable pub udp_send : ℕ → ℕ → Bytes → Option Bytes
udp_send src_port dest_port payload =
    let total_length = (8 + length payload) % 65536 in
    if ltb 1500 total_length
    then none
    else some (
        take total_length (
          store16 (htons src_port)
          ++ (store16 (htons dest_port)
              ++ (store16 (htons total_length) ++ (store16 0 ++ payload)))))

-- The call of a handler: which one, the source's address and port, and the payload.
pub record Call : Type 0 where
  pub callback : ℕ
  pub src_ip : ℕ
  pub src_port : ℕ
  pub payload : Bytes

unfoldable pub dispatch : List Handler → ℕ → ℕ → ℕ → Bytes → Option Call
dispatch [] dest_port src_ip src_port payload = none
dispatch (h ∷ hs) dest_port src_ip src_port payload =
    if h.port == dest_port && not (h.callback == 0)
    then some
        (record { callback = h.callback; src_ip = src_ip; src_port = src_port; payload = payload })
    else dispatch hs dest_port src_ip src_port payload

unfoldable pub udp_receive : List Handler → ℕ → Bytes → Option Call
unfolding dispatch
udp_receive handlers src_ip packet =
    let udp_length = ntohs (load16 packet 4) in
    if ltb (length packet) 8
    then none
    else if ltb (length packet) udp_length || ltb udp_length 8
    then none
    else dispatch handlers (ntohs (load16 packet 2)) src_ip (ntohs (load16 packet 0))
        (take (udp_length - 8) (drop 8 packet))

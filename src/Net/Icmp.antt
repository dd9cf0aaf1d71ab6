-- ===== src/Net/Icmp.antt =====
-- net/icmp.c: the requests that wait for an answer, and the packets.
pub mod Echo
use ephemeral_os.Base.{
  ℕ, zero, suc, ◌+◌, ◌-◌, ◌%◌, Bool, false, not, ◌&&◌, ◌||◌, Option, none, some, List, [], ◌∷◌,
  ◌++◌, map, Bytes, ltb, ◌==◌, if◌then◌else◌, length, get_or, drop,
}
use ephemeral_os.Net.Order.{htons, ntohs, store16, load16}
use ephemeral_os.Net.Ip.{ip_checksum}

pub record PingState : Type 0 where
  pub ip : ℕ
  pub sequence : ℕ
  pub timestamp : ℕ
  pub received : ℕ

-- `ping_states` and `icmp_timer`.
pub record Icmp : Type 0 where
  pub states : List PingState
  pub timer : ℕ

unfoldable pub icmp_init : Icmp → Icmp
icmp_init c = record {
  states = map (λ (p : PingState). record p { received = 0 }) c.states;
  timer = 0;
}

-- The bytes `0x41 + i % 26`, for `n` values of `i` from the one given on.
unfoldable pub letters : ℕ → ℕ → Bytes
letters i zero = []
letters i (suc n) = (0x41 + i % 26) ∷ letters (i + 1) n

-- An `icmp_header_t` in memory, behind its type, and the data.
abbrev pub message : ℕ → ℕ → Bytes → Bytes
message kind checksum rest = kind ∷ 0 ∷ (store16 checksum ++ rest)

unfoldable pub echo_request : ℕ → ℕ → Bytes
unfolding letters
echo_request id sequence =
    let rest = store16 (htons id) ++ (store16 (htons sequence) ++ letters 0 56) in
    message 8 (htons (ip_checksum (message 8 0 rest))) rest

-- A place that may be taken: the subtraction of the times is one of 32-bit words.
abbrev pub is_available : ℕ → PingState → Bool
is_available timer p = p.received == 0 || ltb 5000 ((timer + 4294967296 - p.timestamp) % 4294967296)

unfoldable pub await_reply : ℕ → ℕ → ℕ → List PingState → List PingState
await_reply timer dest_ip sequence [] = []
await_reply timer dest_ip sequence (p ∷ ps) =
    if is_available timer p
    then record { ip = dest_ip; sequence = sequence; timestamp = timer; received = 0 } ∷ ps
    else p ∷ await_reply timer dest_ip sequence ps

-- The new state, and the packet for `ip_send`.
unfoldable pub icmp_send_echo_request : Icmp → ℕ → ℕ → ℕ → Icmp × Bytes
unfolding await_reply echo_request
icmp_send_echo_request c dest_ip id sequence =
    (record c { states = await_reply c.timer dest_ip sequence c.states }, echo_request id sequence)

abbrev pub is_for : ℕ → ℕ → PingState → Bool
is_for ip sequence p = p.ip == ip && p.sequence == sequence

unfoldable pub note_reply : ℕ → ℕ → List PingState → List PingState
note_reply src_ip sequence [] = []
note_reply src_ip sequence (p ∷ ps) =
    if is_for src_ip sequence p && p.received == 0
    then record p { received = 1 } ∷ ps
    else p ∷ note_reply src_ip sequence ps

unfoldable pub echo_reply : Bytes → Bytes
echo_reply packet =
    let rest = drop 4 packet in message 0 (htons (ip_checksum (message 0 0 rest))) rest

-- The new state, and the reply for `ip_send` to the source, if there is one. The packet is one that a
-- frame holds, so that it fits into the 1500 bytes of `reply`.
unfoldable pub icmp_receive : Icmp → ℕ → Bytes → Icmp × Option Bytes
unfolding note_reply echo_reply
icmp_receive c src_ip packet =
    let kind = get_or packet 0 0 in
    if ltb (length packet) 8
    then (c, none)
    else if kind == 8
    then (c, some (echo_reply packet))
    else if kind == 0
    then (record c { states = note_reply src_ip (ntohs (load16 packet 6)) c.states }, none)
    else (c, none)

-- The test that ends `icmp_wait_reply`.
unfoldable pub is_answered : ℕ → ℕ → List PingState → Bool
is_answered dest_ip sequence [] = false
is_answered dest_ip sequence (p ∷ ps) =
    (is_for dest_ip sequence p && not (p.received == 0)) || is_answered dest_ip sequence ps

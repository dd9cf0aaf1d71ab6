-- ===== src/Net/Stack.antt =====
-- net/ip.c, net/icmp.c, net/ethernet.c: the network stack as a whole. To send a packet `ip_send` may
-- have to wait for the hardware address, and while it waits it receives frames, whose handlers may
-- send packets. `none` is a stack that reads past the end of a packet, or one without fuel.
pub mod Steady
pub mod Fuel
pub mod Ends
use ephemeral_os.Base.{
  ℕ, zero, suc, ◌+◌, ◌%◌, Bool, true, false, Option, none, some, List, [], ◌∷◌, Bytes, ltb,
  if◌then◌else◌, length,
}
use ephemeral_os.Net.Arp.{Arp, arp_resolve, arp_send_request, arp_receive}
use ephemeral_os.Net.Ethernet.{Delivery, to_arp, to_ip, ignored, eth_send_frame, eth_receive_frame}
use ephemeral_os.Net.Udp.{Handler, Call, udp_send, udp_receive}
use ephemeral_os.Net.Ip.{
  Datagram, to_icmp, to_udp, dropped, overrun, ip_packet, ip_receive, next_hop,
}
use ephemeral_os.Net.Icmp.{Icmp, icmp_receive, icmp_send_echo_request, is_answered}

-- The static state of the files, the calls of UDP handlers that were made, the frames that
-- `network_receive_packet` will return, poll by poll, an empty one where there is none, and the frames
-- that were sent; the last call and the last frame stand first.
pub record Stack : Type 0 where
  pub local_ip : ℕ
  pub local_mac : Bytes
  pub ident : ℕ
  pub arp : Arp
  pub icmp : Icmp
  pub handlers : List Handler
  pub calls : List Call
  pub arrivals : List Bytes
  pub sent : List Bytes

-- `eth_receive_frame`, where a function calls it.
abbrev pub Receive : Type 0
Receive = Stack → Bytes → Option Stack

abbrev pub and_then {ℓ κ} : {A : Type ℓ} {B : Type κ} → Option A → (A → Option B) → Option B
and_then none f = none
and_then (some a) f = f a

-- A frame that is too long is not sent.
unfoldable pub send_frame : Stack → Bytes → ℕ → Bytes → Stack
send_frame s dest_mac eth_type payload =
    elim (eth_send_frame s.local_mac dest_mac eth_type payload) [
      | none ↦ s
      | some frame ↦ record s { sent = frame ∷ s.sent }
    ]

abbrev pub poll_from : Receive → Stack → List Bytes → Option Stack
poll_from receive s [] = some s
poll_from receive s (frame ∷ frames) =
    if ltb 0 (length frame)
    then receive (record s { arrivals = frames }) frame
    else some (record s { arrivals = frames })

-- A call of `network_receive_packet`, and of `eth_receive_frame` if a frame was there.
unfoldable pub poll : Receive → Stack → Option Stack
poll receive s = poll_from receive s s.arrivals

-- The loop of `ip_send`: polls until the address is known.
unfoldable pub await_mac : Receive → ℕ → ℕ → Stack → Option Stack
unfolding poll
await_mac receive target_ip zero s = some s
await_mac receive target_ip (suc retries) s = and_then (poll receive s) (λ s'.
    elim (arp_resolve s'.arp target_ip) [
      | none ↦ await_mac receive target_ip retries s'
      | some mac ↦ some s'
    ])

unfoldable pub request_mac : Stack → ℕ → Stack
unfolding send_frame
request_mac s target_ip =
    let m = arp_send_request s.local_mac s.local_ip target_ip in
    send_frame s m.dest m.eth_type m.payload

unfoldable pub find_mac : Receive → ℕ → Stack → Option Stack
unfolding await_mac request_mac
find_mac receive target_ip s = elim (arp_resolve s.arp target_ip) [
  | none ↦ await_mac receive target_ip 10 (request_mac s target_ip)
  | some mac ↦ some s
]

-- The end of `ip_send`: without an address the packet is not sent.
unfoldable pub send_packet : ℕ → Bytes → Stack → Stack
unfolding send_frame
send_packet target_ip packet s = elim (arp_resolve s.arp target_ip) [
  | none ↦ s
  | some mac ↦ send_frame s mac 0x0800 packet
]

unfoldable pub ip_send : Receive → Stack → ℕ → ℕ → Bytes → Option Stack
unfolding find_mac send_packet
ip_send receive s dest_ip protocol payload =
    elim (ip_packet s.ident s.local_ip dest_ip protocol payload) [
      | none ↦ some s
      | some packet ↦
          and_then
            (find_mac receive (next_hop s.local_ip dest_ip)
              (record s { ident = (s.ident + 1) % 65536 }))
            (λ s'. some (send_packet (next_hop s.local_ip dest_ip) packet s'))
    ]

-- The handlers of what a frame holds.
unfoldable pub icmp_arrives : Receive → Stack → ℕ → Bytes → Option Stack
unfolding ip_send
icmp_arrives receive s src_ip packet =
    let r = icmp_receive s.icmp src_ip packet in
    elim r.1 [
      | none ↦ some (record s { icmp = r.0 })
      | some reply ↦ ip_send receive (record s { icmp = r.0 }) src_ip 1 reply
    ]

unfoldable pub udp_arrives : Stack → ℕ → Bytes → Stack
udp_arrives s src_ip packet = elim (udp_receive s.handlers src_ip packet) [
  | none ↦ s
  | some call ↦ record s { calls = call ∷ s.calls }
]

unfoldable pub arp_arrives : Stack → Bytes → Stack
unfolding send_frame
arp_arrives s packet =
    let r = arp_receive s.local_mac s.local_ip s.arp packet in
    elim r.1 [
      | none ↦ record s { arp = r.0 }
      | some m ↦ send_frame (record s { arp = r.0 }) m.dest m.eth_type m.payload
    ]

unfoldable pub ip_arrives : Receive → Stack → Datagram → Option Stack
unfolding icmp_arrives udp_arrives
ip_arrives receive s (to_icmp src_ip packet) = icmp_arrives receive s src_ip packet
ip_arrives receive s (to_udp src_ip packet) = some (udp_arrives s src_ip packet)
ip_arrives receive s dropped = some s
ip_arrives receive s overrun = none

unfoldable pub frame_arrives : Receive → Stack → Delivery → Option Stack
unfolding ip_arrives arp_arrives
frame_arrives receive s (to_arp packet) = some (arp_arrives s packet)
frame_arrives receive s (to_ip packet) = ip_arrives receive s (ip_receive s.local_ip packet)
frame_arrives receive s ignored = some s

-- Each call inside another has taken a frame from those to come, so that as many rounds as there are
-- frames, and one more, are enough.
unfoldable pub receive_frame : ℕ → Receive
unfolding frame_arrives
receive_frame zero s frame = none
receive_frame (suc fuel) s frame = frame_arrives (receive_frame fuel) s (eth_receive_frame frame)

unfoldable pub send_echo_request : Receive → Stack → ℕ → ℕ → ℕ → Option Stack
unfolding ip_send
send_echo_request receive s dest_ip id sequence =
    let r = icmp_send_echo_request s.icmp dest_ip id sequence in
    ip_send receive (record s { icmp = r.0 }) dest_ip 1 r.1

-- The loop adds one to `icmp_timer` in each round, so that there are `timeout_ms` rounds.
unfoldable pub icmp_wait_reply : Receive → ℕ → ℕ → ℕ → Stack → Option (Stack × Bool)
unfolding poll
icmp_wait_reply receive dest_ip sequence zero s = some (s, false)
icmp_wait_reply receive dest_ip sequence (suc timeout_ms) s = and_then (poll receive s) (λ s'.
    if is_answered dest_ip sequence s'.icmp.states
    then some (s', true)
    else icmp_wait_reply receive dest_ip sequence timeout_ms
        (record s' { icmp = record (s'.icmp) { timer = (s'.icmp.timer + 1) % 4294967296 } }))

-- `udp_send` hands its packet to `ip_send`.
unfoldable pub send_datagram : Receive → Stack → ℕ → ℕ → ℕ → Bytes → Option Stack
unfolding ip_send
send_datagram receive s dest_ip src_port dest_port payload =
    elim (udp_send src_port dest_port payload) [
      | none ↦ some s
      | some packet ↦ ip_send receive s dest_ip 17 packet
    ]

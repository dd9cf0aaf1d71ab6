-- ===== src/Examples/Stacks.antt =====
-- The theorems of Net.Ip, Net.Icmp and Net.Stack at concrete packets and states.
use ephemeral_os.Base.{
  Bool, false, ◌≢◌, sym, ap, ◌∙◌, drop, ℕ, ◌≡◌, refl, ◌↔◌, true, some, [], ◌∷◌, ◌++◌, arith, Bytes,
  codes, replicate,
}
use ephemeral_os.Net.Order.{htons, htonl}
use ephemeral_os.Net.Udp.{udp_init}
use ephemeral_os.Net.Ip.{
  header, ip_checksum, ip_packet, ip_receive, Datagram, to_udp, to_icmp, dropped, overrun,
}
use ephemeral_os.Net.Ip.Checksum.{ip_checksum-header}
use ephemeral_os.Net.Ip.Packets.{ip_receive-ip_packet}
use ephemeral_os.Net.Icmp.{
  Icmp, icmp_receive, icmp_send_echo_request, is_answered, echo_request, echo_reply,
}
use ephemeral_os.Net.Icmp.Echo.{
  icmp_receive-icmp_send_echo_request, is_answered-icmp_send_echo_request, reply-request,
}
use ephemeral_os.Net.Stack.{Stack, receive_frame}
use ephemeral_os.Net.Stack.Ends.{Inside, receive_frame_enough}
use ephemeral_os.Net.Ethernet.{Delivery, to_arp, to_ip, ignored, eth_receive_frame}

-- The checksum of the header of a UDP packet of 29 bytes from 10.0.2.15 to 10.0.2.3.
abbrev sum : ℕ
sum = ip_checksum (header 29 1 17 0 0x0a00020f 0x0a000203)

ip_checksum-header_example :
    (ip_checksum (header 29 1 17 sum 0x0a00020f 0x0a000203) ≡ 0)
    × ((ip_checksum (header 29 1 17 (htons sum) 0x0a00020f 0x0a000203) ≡ 0) ↔ (htons sum ≡ sum))
ip_checksum-header_example = ip_checksum-header 29 1 17 0x0a00020f 0x0a000203 sum (omega arith) refl

abbrev packet_of_x : Bytes
packet_of_x =
    header 21 1 17 (htons (ip_checksum (header 21 1 17 0 0x0a00020f 0x0a000203))) 0x0a00020f
      0x0a000203
    ++ codes "x"

x_sent : ip_packet 1 0x0a00020f 0x0a000203 17 (codes "x") ≡ some packet_of_x
unfolding ip_packet
x_sent = refl

ip_receive-ip_packet_example :
    ip_receive 0x0a000203 (packet_of_x ++ 0 ∷ 0 ∷ []) ≡ to_udp 0x0a00020f (codes "x")
ip_receive-ip_packet_example =
    ip_receive-ip_packet 0x0a000203 1 17 0x0a00020f 0x0a000203 (codes "x") (0 ∷ 0 ∷ [])
      (omega arith) (omega arith) (omega arith) x_sent

-- A place that was answered a moment ago, and a free one.
abbrev pings : Icmp
pings = record {
  states =
      record { ip = 9; sequence = 1; timestamp = 3; received = 1 }
      ∷ record { ip = 0; sequence = 0; timestamp = 0; received = 0 }
      ∷ [];
  timer = 4;
}

icmp_receive-icmp_send_echo_request_example :
    is_answered 9 2
      (icmp_receive
        (icmp_send_echo_request pings 9 1234 2).0
        9
        (echo_reply (echo_request 1234 2))).0.states
    ≡ true
unfolding icmp_send_echo_request echo_request echo_reply
icmp_receive-icmp_send_echo_request_example =
    icmp_receive-icmp_send_echo_request pings pings 9 8 1234 2 (omega arith) refl
      (reply-request pings 8 1234 2)

is_answered-icmp_send_echo_request_example :
    is_answered 9 1 (icmp_send_echo_request pings 9 1234 1).0.states ≡ true
is_answered-icmp_send_echo_request_example = is_answered-icmp_send_echo_request pings 9 1234 1 refl

-- A machine that one more frame will reach.
abbrev pub machine : Stack
machine = record {
  local_ip = 9;
  local_mac = 2 ∷ 0 ∷ 0 ∷ 0 ∷ 0 ∷ 1 ∷ [];
  ident = 1;
  arp = record { cache = []; timer = 0 };
  icmp = pings;
  handlers = udp_init;
  calls = [];
  arrivals = replicate 60 0 ∷ [];
  sent = [];
}

-- An echo request from 8 for the machine, which does not know the hardware address of 8.
abbrev asking : Bytes
asking = replicate 12 2 ++ (0x08 ∷ 0 ∷ (header 84 1 1 0 8 9 ++ echo_request 1234 2))

abbrev ip_payload : Delivery → Bytes
ip_payload (to_ip payload) = payload
ip_payload (to_arp payload) = []
ip_payload ignored = []

abbrev is_overrun : Datagram → Bool
is_overrun overrun = true
is_overrun (to_udp src packet) = false
is_overrun (to_icmp src packet) = false
is_overrun dropped = false

pub Inside-by_test :
    (address : ℕ) (frame : Bytes)
    → is_overrun (ip_receive address (ip_payload (eth_receive_frame frame))) ≡ false
    → Inside address frame
Inside-by_test address frame h payload e f =
    tests_differ
      (sym h ∙ ap (λ d. is_overrun (ip_receive address (ip_payload d))) e ∙ ap is_overrun f)
  where
    tests_differ : ◌≢◌ {A = Bool} false true
    tests_differ k = cc

asking-Inside : Inside 9 asking
unfolding eth_receive_frame ip_receive ip_checksum htons htonl echo_request
asking-Inside = Inside-by_test 9 asking refl

empty-Inside : Inside 9 (replicate 60 0)
unfolding eth_receive_frame ip_receive ip_checksum htons htonl
empty-Inside = Inside-by_test 9 (replicate 60 0) refl

receive_frame_enough_example :
    (s : Stack) × (receive_frame 5 machine asking ≡ some s)
    × (receive_frame 2 machine asking ≡ some s)
    × ((taken : ℕ) × (s.arrivals ≡ drop taken (replicate 60 0 ∷ [])))
receive_frame_enough_example =
    receive_frame_enough 5 machine asking (omega arith) asking-Inside (empty-Inside, tt)

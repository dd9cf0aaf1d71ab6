-- ===== src/Examples/Names.antt =====
-- net/dns.c: the theorem on `dns_resolve` at a machine that the server's answer reaches.
use ephemeral_os.Base.{
  Bool, true, arith, ℕ, ◌≡◌, refl, sym, ap, ◌∙◌, ◌≢◌, false, [], ◌∷◌, ◌++◌, Bytes, codes, replicate,
}
use ephemeral_os.Net.Order.{htonl, ntohs, load16, htons}
use ephemeral_os.Net.Ethernet.{Delivery, to_arp, to_ip, ignored, eth_receive_frame}
use ephemeral_os.Net.Ip.{
  Datagram, to_udp, to_icmp, dropped, overrun, header, ip_receive, ip_checksum,
}
use ephemeral_os.Net.Dns.{is_ip_address}
use ephemeral_os.Net.Stack.{Stack, receive_frame}
use ephemeral_os.Net.Resolve.{dns_resolve}
use ephemeral_os.Net.Resolve.Quiet.{Quiet, Elsewhere, handlers_of_start}
use ephemeral_os.Net.Resolve.Unanswered.{Unresolved, dns_resolve-none}
use ephemeral_os.Examples.Stacks.{machine}

-- A datagram from port 53 of 8 to port 12345 of the machine, with no payload.
abbrev datagram : Bytes
datagram = 0 ∷ 53 ∷ 0x30 ∷ 0x39 ∷ 0 ∷ 8 ∷ 0 ∷ 0 ∷ []

abbrev answer_packet : Bytes
answer_packet = header 28 1 17 (htons (ip_checksum (header 28 1 17 0 8 9))) 8 9 ++ datagram

abbrev answer_frame : Bytes
answer_frame = replicate 12 2 ++ (0x08 ∷ 0 ∷ answer_packet)

abbrev ip_payload : Delivery → Bytes
ip_payload (to_ip payload) = payload
ip_payload (to_arp payload) = []
ip_payload ignored = []

abbrev udp_packet : Datagram → Bytes
udp_packet (to_udp src packet) = packet
udp_packet (to_icmp src packet) = []
udp_packet dropped = []
udp_packet overrun = []

answer_framed : ip_payload (eth_receive_frame answer_frame) ≡ answer_packet
unfolding eth_receive_frame htons
answer_framed = refl

answer_read : udp_packet (ip_receive 9 answer_packet) ≡ datagram
unfolding ip_receive ip_checksum htons htonl
answer_read = refl

answer_port : ntohs (load16 datagram 2) ≡ 12345
unfolding htons
answer_port = refl

abbrev is_overrun : Datagram → Bool
is_overrun overrun = true
is_overrun (to_udp src packet) = false
is_overrun (to_icmp src packet) = false
is_overrun dropped = false

answer_inside : is_overrun (ip_receive 9 answer_packet) ≡ false
unfolding ip_receive ip_checksum htons htonl
answer_inside = refl

answer-Elsewhere : Elsewhere 9 answer_frame
answer-Elsewhere payload e = (
  λ f.
      tests_differ
        (sym answer_inside ∙ ap (λ p. is_overrun (ip_receive 9 p)) framed ∙ ap is_overrun f),
  λ packet src f k. ports_differ (
      sym answer_port
      ∙ ap (λ p. ntohs (load16 p 2))
          (sym answer_read ∙ ap (λ p. udp_packet (ip_receive 9 p)) framed ∙ ap udp_packet f)
      ∙ k),
)
  where
    tests_differ : ◌≢◌ {A = Bool} false true
    tests_differ h = cc

    ports_differ : ◌≢◌ {A = ℕ} 12345 53
    ports_differ h = omega arith

    framed : answer_packet ≡ payload
    framed = sym answer_framed ∙ ap ip_payload e

-- The machine, with the handlers of `kernel_main` and the answer to come.
abbrev asking : Stack
asking = record machine { handlers = handlers_of_start; arrivals = answer_frame ∷ [] }

asking-Quiet : Quiet 9 1 asking
asking-Quiet = record {
  local_ip = refl;
  handlers = refl;
  calls = tt;
  arrivals = (answer-Elsewhere, tt);
  few = omega arith;
}

a_name : is_ip_address (codes "a.bc") ≡ false
unfolding is_ip_address
a_name = refl

dns_resolve-none_example : Unresolved (
    dns_resolve
      (receive_frame 3)
      8
      1
      (codes "a.bc")
      (record { resolved_ip = 0; resolution_complete = 0 })
      asking)
dns_resolve-none_example =
    dns_resolve-none 9 1 3 (omega arith) 8 1 (codes "a.bc")
      (record { resolved_ip = 0; resolution_complete = 0 }) asking a_name asking-Quiet

-- ===== src/Examples/Packets.antt =====
-- The theorems of Net at concrete packets and caches.
use ephemeral_os.Net.Dns.{Resolver}
use ephemeral_os.Net.Dns.Compressed.{label_bytes, question_and_answer}
use ephemeral_os.Base.{
  ◌≤◌, ◌≡◌, refl, ap, ◌↔◌, ◌≢◌, false, some, List, [], ◌∷◌, ◌++◌, arith, Bytes, codes, length,
  get_or, replicate,
}
use ephemeral_os.Net.Order.{htons}
use ephemeral_os.Net.Arp.{is_for, slot_from, slot, Arp, zero_arp_entry, arp_add_entry, arp_resolve}
use ephemeral_os.Net.Arp.Cache.{arp_resolve-arp_add_entry}
use ephemeral_os.Net.Udp.{no_handler, Handler, udp_receive, udp_send, udp_register_handler}
use ephemeral_os.Net.Udp.Deliver.{Serves, first, IsFree, udp_receive-udp_send}
use ephemeral_os.Net.Ethernet.{eth_receive_frame, eth_send_frame}
use ephemeral_os.Net.Ethernet.Frames.{six, delivered, eth_receive_frame-eth_send_frame}

abbrev mac : Bytes
mac = 2 ∷ 0 ∷ 0 ∷ 0 ∷ 0 ∷ 1 ∷ []

abbrev cache : Arp
cache = record {
  cache =
      record { ip = 8; mac = replicate 6 7; timestamp = 0; valid = 1 }
      ∷ record { ip = 0; mac = replicate 6 0; timestamp = 0; valid = 0 }
      ∷ [];
  timer = 0;
}

arp_resolve-arp_add_entry_example : arp_resolve (arp_add_entry cache 9 mac) 9 ≡ some mac
arp_resolve-arp_add_entry_example = arp_resolve-arp_add_entry cache 9 mac (omega arith)

free_slot : is_for (get_or cache.cache (slot cache 9) zero_arp_entry) 8 ≡ false
unfolding slot slot_from
free_slot = refl

abbrev table : List Handler
table = record { port = 53; callback = 1 } ∷ record { port = 0; callback = 0 } ∷ []

abbrev packet : Bytes
packet = 4 ∷ 210 ∷ 0 ∷ 53 ∷ 0 ∷ 9 ∷ 0 ∷ 0 ∷ codes "q"

sent : udp_send 1234 53 (codes "q") ≡ some packet
unfolding udp_send htons
sent = refl

udp_receive-udp_send_example : Serves 53 table (some 1) ↔ (
    udp_receive table 77 (packet ++ 7 ∷ [])
    ≡ some (record { callback = 1; src_ip = 77; src_port = 1234; payload = codes "q" }))
udp_receive-udp_send_example =
    udp_receive-udp_send table 77 1234 53 (codes "q") (7 ∷ []) (some 1) (omega arith) (omega arith)
      (omega arith) sent

-- The first place of the table is the one for port 53.
table-Serves : Serves 53 table (some 1)
table-Serves = first [] _ _ refl tt refl (λ e. omega arith)

table-IsFree : IsFree 123 table
table-IsFree = (refl, (refl, tt))

registered : udp_register_handler table 123 2 ≢ table
unfolding udp_register_handler
registered e = ground (arith, ap (λ hs. (get_or hs 1 no_handler).port) e)

abbrev broadcast : Bytes
broadcast = replicate 6 255

abbrev frame : Bytes
frame = broadcast ++ mac ++ 8 ∷ 6 ∷ 1 ∷ 2 ∷ replicate 44 0

framed : eth_send_frame mac broadcast 0x0806 (1 ∷ 2 ∷ []) ≡ some frame
unfolding eth_send_frame htons
framed = refl

eth_receive_frame-eth_send_frame_example :
    (eth_receive_frame frame ≡ delivered 0x0806 ((1 ∷ 2 ∷ []) ++ replicate 44 0))
    × (60 ≤ length frame)
    × (length frame ≤ 1514)
eth_receive_frame-eth_send_frame_example =
    eth_receive_frame-eth_send_frame mac broadcast 0x0806 (1 ∷ 2 ∷ []) (six 2 0 0 0 0 1)
      (six 255 255 255 255 255 255) (omega arith) framed

abbrev waiting : Resolver
waiting = record { resolved_ip = 0; resolution_complete = 0 }

-- A response for a.bc, with the address 10.0.2.3 under a compressed name.
abbrev dns_header : Bytes
dns_header = 0 ∷ 1 ∷ 0x81 ∷ 0x80 ∷ 0 ∷ 1 ∷ 0 ∷ 1 ∷ 0 ∷ 0 ∷ 0 ∷ 0 ∷ []

abbrev labels_of_host : List Bytes
labels_of_host = codes "a" ∷ codes "bc" ∷ []

abbrev dns_response : Bytes
dns_response =
    dns_header
    ++ (label_bytes labels_of_host
        ++ question_and_answer 0 1 0 1 12 0 1 0 0 0 60 (10 ∷ 0 ∷ 2 ∷ 3 ∷ []))

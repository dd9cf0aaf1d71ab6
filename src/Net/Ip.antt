-- ===== src/Net/Ip.antt =====
-- net/ip.c: the checksum, the packets, and the choice of the next hop. `ident` is `ip_id_counter`.
pub mod Checksum
pub mod Packets
use ephemeral_os.Base.{
  ℕ, zero, suc, ◌+◌, ◌-◌, ◌*◌, ◌/◌, ◌%◌, not, ◌&&◌, ◌||◌, Option, none, some, [], ◌∷◌, ◌++◌, Bytes,
  ltb, ◌==◌, if◌then◌else◌, length, get_or, take, drop,
}
use ephemeral_os.Net.Order.{htons, ntohs, htonl, ntohl, store16, store32, load16, load32}

-- The sum of the 16-bit words; a last odd byte counts as it is. A packet has less than 65536 bytes, so
-- `sum` stays below 2 ^ 32.
unfoldable pub word_sum : Bytes → ℕ
word_sum [] = 0
word_sum (a ∷ []) = a
word_sum (a ∷ b ∷ bs) = a + 256 * b + word_sum bs

abbrev pub fold_carry : ℕ → ℕ
fold_carry sum = sum % 65536 + sum / 65536

-- The second loop. A `uint32_t` has no bits above the lower 16 after two rounds.
unfoldable pub carries : ℕ → ℕ → ℕ
carries zero sum = sum
carries (suc fuel) sum =
    let rest = carries fuel (fold_carry sum) in if sum / 65536 == 0 then sum else rest

unfoldable pub ip_checksum : Bytes → ℕ
unfolding word_sum carries
ip_checksum bytes = 65535 - carries 2 (word_sum bytes)

-- The 20 bytes of the header in two parts, up to the checksum and behind it.
abbrev pub header_front : ℕ → ℕ → ℕ → Bytes
header_front total_length ident protocol =
    0x45
    ∷ 0
    ∷ (store16 (htons total_length)
        ++ (store16 (htons ident) ++ (store16 (htons 0x4000) ++ (64 ∷ protocol ∷ []))))

abbrev pub addresses : ℕ → ℕ → Bytes
addresses src_ip dest_ip = store32 (htonl src_ip) ++ store32 (htonl dest_ip)

abbrev pub header : ℕ → ℕ → ℕ → ℕ → ℕ → ℕ → Bytes
header total_length ident protocol checksum src_ip dest_ip =
    header_front total_length ident protocol ++ (store16 checksum ++ addresses src_ip dest_ip)

-- The packet that `ip_send` makes, if it is not too long; `total_length` is a `uint16_t`.
unfoldable pub ip_packet : ℕ → ℕ → ℕ → ℕ → Bytes → Option Bytes
unfolding ip_checksum
ip_packet ident local_ip dest_ip protocol payload =
    let total_length = (20 + length payload) % 65536 in
    let checksum = ip_checksum (header total_length ident protocol 0 local_ip dest_ip) in
    if ltb 1500 total_length
    then none
    else some (
        take total_length
          (header total_length ident protocol (htons checksum) local_ip dest_ip ++ payload))

-- Whose hardware address the frame goes to: `& 0xFFFFFF00` and `| 0x01` are written as arithmetic.
unfoldable pub next_hop : ℕ → ℕ → ℕ
next_hop local_ip dest_ip =
    if dest_ip / 256 == local_ip / 256 then dest_ip else local_ip / 256 * 256 + 1

-- Where `ip_receive` hands a packet: the source's address and the payload. `overrun` is a total length
-- below that of the header, for which `payload_length` wraps and the handlers read past the packet.
pub data Datagram : Type 0 where
  to_icmp to_udp : ℕ → Bytes → Datagram
  dropped overrun : Datagram

abbrev pub by_protocol : ℕ → ℕ → Bytes → Datagram
by_protocol protocol src_ip payload =
    if protocol == 1
    then to_icmp src_ip payload
    else if protocol == 17
    then to_udp src_ip payload
    else dropped

unfoldable pub ip_receive : ℕ → Bytes → Datagram
ip_receive local_ip packet =
    let first = get_or packet 0 0 in
    let ihl = first % 16 * 4 in
    let total_length = ntohs (load16 packet 2) in
    let dest_ip = ntohl (load32 packet 16) in
    let src_ip = ntohl (load32 packet 12) in
    let protocol = get_or packet 9 0 in
    if ltb (length packet) 20
    then dropped
    else if not (first / 16 == 4)
    then dropped
    else if ltb ihl 20 || ltb (length packet) ihl
    then dropped
    else if ltb (length packet) total_length
    then dropped
    else if not (dest_ip == local_ip) && not (dest_ip == 0xffff_ffff)
    then dropped
    else if ltb total_length ihl && (protocol == 1 || protocol == 17)
    then overrun
    else by_protocol protocol src_ip (take (total_length - ihl) (drop ihl packet))

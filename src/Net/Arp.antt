-- ===== src/Net/Arp.antt =====
-- net/arp.c: the cache of hardware addresses, and the packets. `arp_timer` is a field of the state;
-- only `arp_init` sets it.
pub mod Cache
use ephemeral_os.Base.{
  ℕ, ◌+◌, Bool, not, ◌&&◌, ◌||◌, Option, none, some, List, [], ◌∷◌, ◌++◌, map, Bytes, ltb, ◌==◌,
  if◌then◌else◌, length, get_or, set, take, drop, replicate,
}
use ephemeral_os.Net.Order.{htons, htonl, ntohs, ntohl, store16, store32, load16, load32}

abbrev pub cache_size : ℕ
cache_size = 32

pub record ArpEntry : Type 0 where
  pub ip : ℕ
  pub mac : Bytes
  pub timestamp : ℕ
  pub valid : ℕ

pub record Arp : Type 0 where
  pub cache : List ArpEntry
  pub timer : ℕ

unfoldable pub arp_init : Arp → Arp
arp_init a = record { cache = map (λ (e : ArpEntry). record e { valid = 0 }) a.cache; timer = 0 }

abbrev pub is_for : ArpEntry → ℕ → Bool
is_for e ip = not (e.valid == 0) && e.ip == ip

-- The loop of `arp_add_entry`: the index that is to be written, with `oldest_index`, `oldest_time`
-- and the index of the entries that are left.
unfoldable pub slot_from : ℕ → ℕ → ℕ → ℕ → List ArpEntry → ℕ
slot_from ip oldest_index oldest_time i [] = oldest_index
slot_from ip oldest_index oldest_time i (e ∷ es) =
    let older = ltb e.timestamp oldest_time in
    let rest =
      slot_from ip (if older then i else oldest_index) (if older then e.timestamp else oldest_time)
        (i + 1) es in
    if is_for e ip then i else if e.valid == 0 then i else rest

-- What the function leaves in the entry that it picks: an entry for the address keeps `valid`.
abbrev pub refreshed : Arp → ℕ → Bytes → ArpEntry → ArpEntry
refreshed a ip mac e =
    if is_for e ip
    then record e { mac = mac; timestamp = a.timer }
    else record { ip = ip; mac = mac; timestamp = a.timer; valid = 1 }

abbrev pub zero_arp_entry : ArpEntry
zero_arp_entry = record { ip = 0; mac = replicate 6 0; timestamp = 0; valid = 0 }

-- The index that `arp_add_entry` writes.
unfoldable pub slot : Arp → ℕ → ℕ
unfolding slot_from
slot a ip = slot_from ip 0 0xffff_ffff 0 a.cache

unfoldable pub arp_add_entry : Arp → ℕ → Bytes → Arp
unfolding slot
arp_add_entry a ip mac = record a {
  cache = set a.cache (slot a ip) (refreshed a ip mac (get_or a.cache (slot a ip) zero_arp_entry));
}

-- `none` is the result 0.
unfoldable pub resolve_in : List ArpEntry → ℕ → Option Bytes
resolve_in [] ip = none
resolve_in (e ∷ es) ip = if is_for e ip then some e.mac else resolve_in es ip

unfoldable pub arp_resolve : Arp → ℕ → Option Bytes
unfolding resolve_in
arp_resolve a ip = resolve_in a.cache ip

-- The 28 bytes of an `arp_packet_t`; the numbers are given in host order.
unfoldable pub arp_packet : ℕ → Bytes → ℕ → Bytes → ℕ → Bytes
arp_packet oper sha spa tha tpa =
    store16 (htons 1)
    ++ (store16 (htons 0x0800)
        ++ (6
            ∷ 4
            ∷ (store16 (htons oper)
                ++ (sha ++ (store32 (htonl spa) ++ (tha ++ store32 (htonl tpa)))))))

-- A frame that is handed to `eth_send_frame`.
pub record Sent : Type 0 where
  pub dest : Bytes
  pub eth_type : ℕ
  pub payload : Bytes

unfoldable pub arp_send_request : Bytes → ℕ → ℕ → Sent
unfolding arp_packet
arp_send_request local_mac local_ip target_ip = record {
  dest = replicate 6 0xff;
  eth_type = 0x0806;
  payload = arp_packet 1 local_mac local_ip (replicate 6 0) target_ip;
}

-- The new cache and the reply, if one is sent.
unfoldable pub arp_receive : Bytes → ℕ → Arp → Bytes → Arp × Option Sent
unfolding arp_add_entry arp_packet
arp_receive local_mac local_ip a packet =
    let sender_ip = ntohl (load32 packet 14) in
    let target_ip = ntohl (load32 packet 24) in
    let sha = take 6 (drop 8 packet) in
    let a' = arp_add_entry a sender_ip sha in
    if ltb (length packet) 28
    then (a, none)
    else if not (ntohs (load16 packet 0) == 1) || not (ntohs (load16 packet 2) == 0x0800)
    then (a, none)
    else if ntohs (load16 packet 6) == 1 && target_ip == local_ip
    then (
      a',
      some (record {
        dest = sha;
        eth_type = 0x0806;
        payload = arp_packet 2 local_mac local_ip sha sender_ip;
      }),
    )
    else (a', none)

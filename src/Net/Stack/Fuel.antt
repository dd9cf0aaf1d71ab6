-- ===== src/Net/Stack/Fuel.antt =====
-- net/ip.c, net/icmp.c: frames that are received while a packet is sent end with those that arrive.
use ephemeral_os.Base.{
  ℕ, zero, suc, ◌≤◌, ◌<◌, ◌≡◌, refl, Bool, true, false, Option, none, some, List, [], ◌∷◌, arith,
  Bytes, ltb, if◌then◌else◌, length,
}
use mathlib.Core.Bool.{true, false}
use ephemeral_os.Net.Arp.{arp_resolve, arp_receive, Sent}
use ephemeral_os.Net.Ethernet.{Delivery, to_arp, to_ip, ignored, eth_send_frame, eth_receive_frame}
use ephemeral_os.Net.Udp.{Call, udp_receive}
use ephemeral_os.Net.Ip.{
  Datagram, to_icmp, to_udp, dropped, overrun, ip_packet, ip_receive, next_hop,
}
use ephemeral_os.Net.Icmp.{icmp_receive}
use ephemeral_os.Net.Stack.{
  Stack, Receive, and_then, send_frame, poll_from, poll, await_mac, request_mac, find_mac,
  send_packet, ip_send, icmp_arrives, udp_arrives, arp_arrives, ip_arrives, frame_arrives,
  receive_frame,
}

abbrev left : Stack → ℕ
left s = length s.arrivals

-- The same result from two stacks, with at most `k` frames left to come.
data Within (k : ℕ) : Option Stack → Option Stack → Type 0 where
  ends : Within k none none
  goes : (s : Stack) → left s ≤ k → Within k (some s) (some s)

-- Two ways to receive a frame that agree while fewer than `n` frames are to come.
Agrees : ℕ → Receive → Receive → Type 0
Agrees n r r' = (s : Stack) (frame : Bytes) → left s < n → Within (left s) (r s frame) (r' s frame)

Within-eq : {k : ℕ} {o o' : Option Stack} → Within k o o' → o ≡ o'
Within-eq ends = refl
Within-eq (goes s h) = refl

weaken : {k m : ℕ} {o o' : Option Stack} → Within k o o' → k ≤ m → Within m o o'
weaken ends h = ends
weaken (goes s l) h = goes s (omega arith)

and_then-Within :
    {k : ℕ} {o o' : Option Stack} {f g : Stack → Option Stack}
    → Within k o o'
    → ((s : Stack) → left s ≤ k → Within k (f s) (g s))
    → Within k (and_then o f) (and_then o' g)
and_then-Within ends h = ends
and_then-Within (goes s l) h = h s l

if-Within :
    {k : ℕ} (b : Bool) {x y z w : Option Stack}
    → Within k x y
    → Within k z w
    → Within k (if b then x else z) (if b then y else w)
if-Within true p q = p
if-Within false p q = q

-- A test of an option on both sides.
either-Within {ℓ} :
    {A : Type ℓ} {k : ℕ} (o : Option A) {x y : Option Stack} {f g : A → Option Stack}
    → Within k x y
    → ((a : A) → Within k (f a) (g a))
    → Within k (elim o [ none ↦ x | some a ↦ f a ]) (elim o [ none ↦ y | some a ↦ g a ])
either-Within none w h = w
either-Within (some a) w h = h a

left-send_frame :
    (s : Stack) (dest_mac : Bytes) (eth_type : ℕ) (payload : Bytes)
    → left (send_frame s dest_mac eth_type payload) ≡ left s
unfolding send_frame
left-send_frame s dest_mac eth_type payload =
    go (eth_send_frame s.local_mac dest_mac eth_type payload)
  where
    go :
        (o : Option Bytes)
        → left
            (elim o as (λ _. Stack) [ none ↦ s | some frame ↦ record s { sent = frame ∷ s.sent } ])
          ≡ left s
    go none = refl
    go (some frame) = refl

left-send_packet :
    (target_ip : ℕ) (packet : Bytes) (s : Stack) → left (send_packet target_ip packet s) ≡ left s
unfolding send_packet
left-send_packet target_ip packet s = go (arp_resolve s.arp target_ip)
  where
    go :
        (o : Option Bytes)
        → left (elim o as (λ _. Stack) [ none ↦ s | some mac ↦ send_frame s mac 0x0800 packet ])
          ≡ left s
    go none = refl
    go (some mac) = left-send_frame s mac 0x0800 packet

left-arp_arrives : (s : Stack) (packet : Bytes) → left (arp_arrives s packet) ≡ left s
unfolding arp_arrives
left-arp_arrives s packet = go (arp_receive s.local_mac s.local_ip s.arp packet).1
  where
    s' : Stack
    s' = record s { arp = (arp_receive s.local_mac s.local_ip s.arp packet).0 }

    go :
        (o : Option Sent)
        → left (elim o as (λ _. Stack) [
          | none ↦ s'
          | some m ↦ send_frame s' m.dest m.eth_type m.payload
        ])
          ≡ left s
    go none = refl
    go (some m) = left-send_frame s' m.dest m.eth_type m.payload

left-udp_arrives :
    (s : Stack) (src_ip : ℕ) (packet : Bytes) → left (udp_arrives s src_ip packet) ≡ left s
unfolding udp_arrives
left-udp_arrives s src_ip packet = go (udp_receive s.handlers src_ip packet)
  where
    go :
        (o : Option Call)
        → left
            (elim o as (λ _. Stack) [ none ↦ s | some call ↦ record s { calls = call ∷ s.calls } ])
          ≡ left s
    go none = refl
    go (some call) = refl

module _ (n : ℕ) (r r' : Receive) (a : Agrees n r r') where
  poll-Within : (k : ℕ) (s : Stack) → k ≤ n → left s ≤ k → Within k (poll r s) (poll r' s)
  unfolding poll Agrees
  poll-Within k s m h = go s.arrivals h
    where
      go :
          (frames : List Bytes)
          → length frames ≤ k
          → Within k (poll_from r s frames) (poll_from r' s frames)
      go [] l = goes s h
      go (frame ∷ frames) l =
          if-Within (ltb 0 (length frame))
            (weaken (a (record s { arrivals = frames }) frame (omega arith)) (omega arith))
            (goes (record s { arrivals = frames }) (omega arith))

  await_mac-Within :
      (target_ip retries k : ℕ) (s : Stack)
      → k ≤ n
      → left s ≤ k
      → Within k (await_mac r target_ip retries s) (await_mac r' target_ip retries s)
  unfolding await_mac
  await_mac-Within target_ip zero k s m h = goes s h
  await_mac-Within target_ip (suc retries) k s m h = and_then-Within (poll-Within k s m h) (λ t l.
      either-Within (arp_resolve t.arp target_ip) (await_mac-Within target_ip retries k t m l)
        (λ mac. goes t l))

  find_mac-Within :
      (target_ip k : ℕ) (s : Stack)
      → k ≤ n
      → left s ≤ k
      → Within k (find_mac r target_ip s) (find_mac r' target_ip s)
  unfolding find_mac request_mac
  find_mac-Within target_ip k s m h =
      either-Within (arp_resolve s.arp target_ip)
        (await_mac-Within target_ip 10 k (request_mac s target_ip) m
          (rw (left-send_frame s _ _ _) h))
        (λ mac. goes s h)

  ip_send-Within :
      (dest_ip protocol : ℕ) (payload : Bytes) (k : ℕ) (s : Stack)
      → k ≤ n
      → left s ≤ k
      → Within k (ip_send r s dest_ip protocol payload) (ip_send r' s dest_ip protocol payload)
  unfolding ip_send
  ip_send-Within dest_ip protocol payload k s m h =
      either-Within (ip_packet s.ident s.local_ip dest_ip protocol payload) (goes s h) (λ packet.
        and_then-Within (find_mac-Within (next_hop s.local_ip dest_ip) k _ m h)
          (λ t l. goes _ (rw (left-send_packet (next_hop s.local_ip dest_ip) packet t) l)))

  icmp_arrives-Within :
      (src_ip : ℕ) (packet : Bytes) (k : ℕ) (s : Stack)
      → k ≤ n
      → left s ≤ k
      → Within k (icmp_arrives r s src_ip packet) (icmp_arrives r' s src_ip packet)
  unfolding icmp_arrives
  icmp_arrives-Within src_ip packet k s m h =
      either-Within (icmp_receive s.icmp src_ip packet).1 (goes _ h)
        (λ reply. ip_send-Within src_ip 1 reply k _ m h)

  ip_arrives-Within :
      (d : Datagram) (k : ℕ) (s : Stack)
      → k ≤ n
      → left s ≤ k
      → Within k (ip_arrives r s d) (ip_arrives r' s d)
  unfolding ip_arrives
  ip_arrives-Within (to_icmp src_ip packet) k s m h = icmp_arrives-Within src_ip packet k s m h
  ip_arrives-Within (to_udp src_ip packet) k s m h =
      goes _ (rw (left-udp_arrives s src_ip packet) h)
  ip_arrives-Within dropped k s m h = goes s h
  ip_arrives-Within overrun k s m h = ends

  frame_arrives-Within :
      (d : Delivery) (k : ℕ) (s : Stack)
      → k ≤ n
      → left s ≤ k
      → Within k (frame_arrives r s d) (frame_arrives r' s d)
  unfolding frame_arrives
  frame_arrives-Within (to_arp packet) k s m h = goes _ (rw (left-arp_arrives s packet) h)
  frame_arrives-Within (to_ip packet) k s m h =
      ip_arrives-Within (ip_receive s.local_ip packet) k s m h
  frame_arrives-Within ignored k s m h = goes s h

receive_frame-Agrees : (a b n : ℕ) → n ≤ a → n ≤ b → Agrees n (receive_frame a) (receive_frame b)
unfolding receive_frame Agrees
receive_frame-Agrees zero b n h k s frame l = absurd (omega arith)
receive_frame-Agrees (suc a) zero n h k s frame l = absurd (omega arith)
receive_frame-Agrees (suc a) (suc b) n h k s frame l =
    frame_arrives-Within (left s) (receive_frame a) (receive_frame b)
      (receive_frame-Agrees a b (left s) (omega arith) (omega arith)) (eth_receive_frame frame)
      (left s) s (omega arith) (omega arith)

-- With more fuel than there are frames to come, the result of a frame does not depend on the fuel.
pub receive_frame_fuel :
    (fuel : ℕ) (s : Stack) (frame : Bytes)
    → length s.arrivals < fuel
    → receive_frame fuel s frame ≡ receive_frame (suc (length s.arrivals)) s frame
unfolding Agrees
receive_frame_fuel fuel s frame h = Within-eq (
    receive_frame-Agrees fuel (suc (left s)) (suc (left s)) (omega arith) (omega arith) s frame
      (omega arith))

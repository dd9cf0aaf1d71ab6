-- ===== src/Net/Stack/Steady/Run.antt =====
-- net/ip.c, net/icmp.c, net/udp.c, net/ethernet.c: receiving a good frame ends, and keeps a steady
-- property.
use ephemeral_os.Base.{
  ℕ, zero, suc, ◌+◌, ◌%◌, ◌<◌, ◌≡◌, refl, inl, inr, List, [], ◌∷◌, arith, Bytes, ltb, Bool-cases,
  length,
}
use ephemeral_os.Net.Arp.{arp_resolve, arp_receive}
use ephemeral_os.Net.Ethernet.{Delivery, to_arp, to_ip, ignored, eth_receive_frame}
use ephemeral_os.Net.Ip.{
  Datagram, to_icmp, to_udp, dropped, overrun, ip_receive, ip_packet, next_hop,
}
use ephemeral_os.Net.Icmp.{icmp_receive}
use ephemeral_os.Net.Stack.{
  Stack, Receive, poll_from, poll, await_mac, request_mac, find_mac, ip_send, icmp_arrives,
  arp_arrives, ip_arrives, frame_arrives, receive_frame,
}
use ephemeral_os.Net.Stack.Steady.{
  Steady, Holds, Holds-map, and_then-Holds, elim-steady, elim-Holds, send_frame_steady,
  request_mac_steady, send_packet_steady,
}

-- What is asked of `eth_receive_frame`, where a function calls it.
abbrev Receives : (Bytes → Type 0) → (ℕ → Stack → Type 0) → ℕ → Receive → Type 0
Receives Good P b receive =
    (s : Stack) (frame : Bytes) → P b s → Good frame → Holds (P b) (receive s frame)

module _ {Good : Bytes → Type 0} {P : ℕ → Stack → Type 0} (w : Steady Good P) (b : ℕ)
    (receive : Receive) (receives : (c : ℕ) → c < b → Receives Good P c receive) where
  poll_from-Holds :
      (s : Stack) (frames : List Bytes)
      → s.arrivals ≡ frames
      → P b s
      → Holds (P b) (poll_from receive s frames)
  poll_from-Holds s [] e q = q
  poll_from-Holds s (frame ∷ frames) e q =
      let (here, rest) = w.arrived b s frame frames e q in
      let (c, fewer, t) = rest in
      elim (Bool-cases (ltb 0 (length frame))) [
        | inl y ↦ rw y (
            Holds-map (P c) (P b) (receive (record s { arrivals = frames }) frame)
              (λ s' h. w.wider c b s' (omega arith) h)
              (receives c fewer (record s { arrivals = frames }) frame t here))
        | inr z ↦ rw z (w.wider c b (record s { arrivals = frames }) (omega arith) t)
      ]

  pub poll-Holds : (s : Stack) → P b s → Holds (P b) (poll receive s)
  unfolding poll
  poll-Holds s q = poll_from-Holds s s.arrivals refl q

  await_mac-Holds :
      (ip retries : ℕ) (s : Stack) → P b s → Holds (P b) (await_mac receive ip retries s)
  unfolding await_mac
  await_mac-Holds ip zero s q = q
  await_mac-Holds ip (suc retries) s q =
      and_then-Holds (P b) (poll receive s) _ (poll-Holds s q) (λ s' q'.
        elim-Holds (P b) (arp_resolve s'.arp ip) _ _ (await_mac-Holds ip retries s' q') (λ mac. q'))

  find_mac-Holds : (ip : ℕ) (s : Stack) → P b s → Holds (P b) (find_mac receive ip s)
  unfolding find_mac
  find_mac-Holds ip s q =
      elim-Holds (P b) (arp_resolve s.arp ip) _ _
        (await_mac-Holds ip 10 (request_mac s ip) (request_mac_steady w b s ip q)) (λ mac. q)

  pub ip_send-Holds :
      (s : Stack) (dest_ip protocol : ℕ) (payload : Bytes)
      → P b s
      → Holds (P b) (ip_send receive s dest_ip protocol payload)
  unfolding ip_send
  ip_send-Holds s dest_ip protocol payload q =
      elim-Holds (P b) (ip_packet s.ident s.local_ip dest_ip protocol payload) _ _ q (λ packet.
        and_then-Holds (P b)
          (find_mac receive (next_hop s.local_ip dest_ip)
            (record s { ident = (s.ident + 1) % 65536 }))
          _
          (find_mac-Holds (next_hop s.local_ip dest_ip) (record s { ident = (s.ident + 1) % 65536 })
            (w.retained b s _ refl refl refl refl q))
          (λ s' q'. send_packet_steady w b (next_hop s.local_ip dest_ip) packet s' q'))

  icmp_arrives-Holds :
      (s : Stack) (src_ip : ℕ) (packet : Bytes)
      → P b s
      → Holds (P b) (icmp_arrives receive s src_ip packet)
  unfolding icmp_arrives
  icmp_arrives-Holds s src_ip packet q =
      elim-Holds (P b) (icmp_receive s.icmp src_ip packet).1 _ _
        (w.retained b s _ refl refl refl refl q)
        (λ reply.
          ip_send-Holds (record s { icmp = (icmp_receive s.icmp src_ip packet).0 }) src_ip 1 reply
            (w.retained b s _ refl refl refl refl q))

  arp_arrives_steady : (s : Stack) (packet : Bytes) → P b s → P b (arp_arrives s packet)
  unfolding arp_arrives
  arp_arrives_steady s packet q =
      elim-steady (P b) (arp_receive s.local_mac s.local_ip s.arp packet).1
        (w.retained b s _ refl refl refl refl q)
        (λ m. send_frame_steady w b _ _ _ _ (w.retained b s _ refl refl refl refl q))

  ip_arrives-Holds :
      (s : Stack) (frame payload : Bytes)
      → Good frame
      → eth_receive_frame frame ≡ to_ip payload
      → P b s
      → Holds (P b) (ip_arrives receive s (ip_receive s.local_ip payload))
  unfolding ip_arrives
  ip_arrives-Holds s frame payload g e q = go (ip_receive s.local_ip payload) refl
    where
      go : (d : Datagram) → ip_receive s.local_ip payload ≡ d → Holds (P b) (ip_arrives receive s d)
      go (to_icmp src packet) f = icmp_arrives-Holds s src packet q
      go (to_udp src packet) f = w.udp b s frame payload packet src g e f q
      go dropped f = q
      go overrun f = absurd (w.inside b s frame payload g e q f)

  frame_arrives-Holds :
      (s : Stack) (frame : Bytes)
      → P b s
      → Good frame
      → Holds (P b) (frame_arrives receive s (eth_receive_frame frame))
  unfolding frame_arrives
  frame_arrives-Holds s frame q g = go (eth_receive_frame frame) refl
    where
      go : (d : Delivery) → eth_receive_frame frame ≡ d → Holds (P b) (frame_arrives receive s d)
      go (to_arp packet) e = arp_arrives_steady s packet q
      go (to_ip payload) e = ip_arrives-Holds s frame payload g e q
      go ignored e = q

-- With more fuel than frames to come, it ends.
pub receive_frame-Holds :
    {Good : Bytes → Type 0} {P : ℕ → Stack → Type 0} (w : Steady Good P) (fuel b : ℕ)
    → b < fuel
    → Receives Good P b (receive_frame fuel)
unfolding receive_frame
receive_frame-Holds w zero b l s frame q g = absurd (omega arith)
receive_frame-Holds w (suc fuel) b l s frame q g =
    frame_arrives-Holds w b (receive_frame fuel) (λ c k. receive_frame-Holds w fuel c (omega arith))
      s frame q g

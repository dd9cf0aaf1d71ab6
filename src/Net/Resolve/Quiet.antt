-- ===== src/Net/Resolve/Quiet.antt =====
-- net/udp.c with net/ethernet.c: while no datagram for port 53 arrives, the handler of `dns.c` is not
-- called.
use ephemeral_os.Base.{
  ◌∷◌, none, some, ◌∙◌, sym, ap, subst, Option, length, ◌≤◌, ◌≢◌, ℕ, ◌-◌, ◌≡◌, List, arith, Bytes,
  All, take, drop,
}
use ephemeral_os.Net.Stack.{udp_arrives, Stack}
use ephemeral_os.Net.Stack.Steady.{Steady}
use ephemeral_os.Net.Ip.{overrun, to_udp, ip_receive}
use ephemeral_os.Net.Order.{ntohs, load16}
use ephemeral_os.Net.Ethernet.{to_ip, eth_receive_frame}
use ephemeral_os.Net.Udp.{Handler, Call, udp_init, udp_register_handler, dispatch, udp_receive}

-- The table of handlers as `dns_init` and `ntp_init` leave it.
abbrev pub handlers_of_start : List Handler
handlers_of_start = udp_register_handler (udp_register_handler udp_init 53 1) 123 2

-- As a machine with this address reads it, the frame holds no UDP datagram for port 53, and no packet
-- whose header points past its end.
abbrev pub Elsewhere : ℕ → Bytes → Type 0
Elsewhere local_ip frame =
    (payload : Bytes)
    → eth_receive_frame frame ≡ to_ip payload
    → (ip_receive local_ip payload ≢ overrun)
      × ((packet : Bytes) (src : ℕ)
          → ip_receive local_ip payload ≡ to_udp src packet
          → ntohs (load16 packet 2) ≢ 53)

-- A stack with this table and address that has recorded no call of the DNS handler, and to which at
-- most so many frames will come, with no datagram for port 53.
pub record Quiet (address bound : ℕ) (s : Stack) : Type 0 where
  pub local_ip : s.local_ip ≡ address
  pub handlers : s.handlers ≡ handlers_of_start
  pub calls : All (λ (c : Call). c.callback ≢ 1) s.calls
  pub arrivals : All (Elsewhere address) s.arrivals
  pub few : length s.arrivals ≤ bound

dispatch_elsewhere :
    (port src src_port : ℕ) (payload : Bytes) {c : Call}
    → port ≢ 53
    → dispatch handlers_of_start port src src_port payload ≡ some c
    → c.callback ≢ 1
unfolding dispatch udp_register_handler
dispatch_elsewhere port src src_port payload {c} ne e h = ground arith

pub udp_receive_elsewhere :
    (src : ℕ) (packet : Bytes) {c : Call}
    → ntohs (load16 packet 2) ≢ 53
    → udp_receive handlers_of_start src packet ≡ some c
    → c.callback ≢ 1
unfolding udp_receive
udp_receive_elsewhere src packet {c} ne e = ground (
  arith,
  dispatch_elsewhere (ntohs (load16 packet 2)) src (ntohs (load16 packet 0))
      (take (ntohs (load16 packet 4) - 8) (drop 8 packet)) {c = c} ne,
)

module _ (address : ℕ) where
  udp_arrives-Quiet :
      (b : ℕ) (s : Stack) (src_ip : ℕ) (packet : Bytes)
      → ntohs (load16 packet 2) ≢ 53
      → Quiet address b s
      → Quiet address b (udp_arrives s src_ip packet)
  unfolding udp_arrives
  udp_arrives-Quiet b s src_ip packet ne q =
      go (udp_receive s.handlers src_ip packet) (ap (λ h. udp_receive h src_ip packet) q.handlers)
    where
      go :
          (o : Option Call)
          → o ≡ udp_receive handlers_of_start src_ip packet
          → Quiet address b (elim o [ none ↦ s | some call ↦ record s { calls = call ∷ s.calls } ])
      go none e = q
      go (some call) e = record {
        local_ip = q.local_ip;
        handlers = q.handlers;
        calls = (udp_receive_elsewhere src_ip packet ne (sym e), q.calls);
        arrivals = q.arrivals;
        few = q.few;
      }

  pub Quiet-Steady : Steady (Elsewhere address) (Quiet address)
  Quiet-Steady = record {
    retained = λ b s t i h c a q. record {
      local_ip = i ∙ q.local_ip;
      handlers = h ∙ q.handlers;
      calls = rw c q.calls;
      arrivals = rw a q.arrivals;
      few = rw a q.few;
    };
    wider = λ b c s l q. record {
      local_ip = q.local_ip;
      handlers = q.handlers;
      calls = q.calls;
      arrivals = q.arrivals;
      few = omega (arith, q.few);
    };
    arrived = λ b s frame frames e q.
        let (here, later) = subst (All (Elsewhere address)) e q.arrivals in
        (
          here,
          (
            length frames,
            omega (arith, ap length e, q.few),
            record {
              local_ip = q.local_ip;
              handlers = q.handlers;
              calls = q.calls;
              arrivals = later;
              few = omega arith;
            },
          ),
        );
    udp = λ b s frame payload packet src g e f q.
        udp_arrives-Quiet b s src packet
          ((g payload e).1 packet src (ap (λ i. ip_receive i payload) (sym q.local_ip) ∙ f)) q;
    inside = λ b s frame payload g e q f.
        (g payload e).0 (ap (λ i. ip_receive i payload) (sym q.local_ip) ∙ f);
  }

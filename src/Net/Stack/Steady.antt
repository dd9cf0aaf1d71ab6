-- ===== src/Net/Stack/Steady.antt =====
-- net/ip.c, net/icmp.c, net/ethernet.c: what keeps a property of the stack while frames are received.
-- The bound is on the frames to come.
pub mod Run
use ephemeral_os.Base.{ℕ, ◌-◌, ◌≤◌, ◌<◌, ◌≡◌, refl, ◌≢◌, Option, none, some, List, ◌∷◌, Bytes}
use ephemeral_os.Net.Arp.{arp_resolve}
use ephemeral_os.Net.Ethernet.{eth_send_frame, eth_receive_frame, to_ip}
use ephemeral_os.Net.Ip.{ip_receive, to_udp, overrun}
use ephemeral_os.Net.Stack.{Stack, and_then, send_frame, request_mac, send_packet, udp_arrives}

-- The stack is as `P` says with at most so many frames to come, each of them `Good`. Only the address,
-- the table, the calls and the frames to come matter; a frame that is taken leaves fewer; a UDP
-- datagram may be handed to its handler; and no good frame holds a packet that is read past its end.
pub record Steady (Good : Bytes → Type 0) (P : ℕ → Stack → Type 0) : Type 0 where
  pub retained :
      (b : ℕ) (s t : Stack)
      → t.local_ip ≡ s.local_ip
      → t.handlers ≡ s.handlers
      → t.calls ≡ s.calls
      → t.arrivals ≡ s.arrivals
      → P b s
      → P b t
  pub wider : (b c : ℕ) (s : Stack) → b ≤ c → P b s → P c s
  pub arrived :
      (b : ℕ) (s : Stack) (frame : Bytes) (frames : List Bytes)
      → s.arrivals ≡ frame ∷ frames
      → P b s
      → Good frame × ((c : ℕ) × (c < b) × P c (record s { arrivals = frames }))
  pub udp :
      (b : ℕ) (s : Stack) (frame payload packet : Bytes) (src : ℕ)
      → Good frame
      → eth_receive_frame frame ≡ to_ip payload
      → ip_receive s.local_ip payload ≡ to_udp src packet
      → P b s
      → P b (udp_arrives s src packet)
  pub inside :
      (b : ℕ) (s : Stack) (frame payload : Bytes)
      → Good frame
      → eth_receive_frame frame ≡ to_ip payload
      → P b s
      → ip_receive s.local_ip payload ≢ overrun

-- A computation ends, and leaves the stack as required.
abbrev pub Holds : (Stack → Type 0) → Option Stack → Type 0
Holds P none = ⊥
Holds P (some s) = P s

pub Holds-ends :
    (P : Stack → Type 0) (o : Option Stack) → Holds P o → (s : Stack) × (o ≡ some s) × P s
Holds-ends P none h = absurd h
Holds-ends P (some s) h = (s, refl, h)

pub Holds-map :
    (P Q : Stack → Type 0) (o : Option Stack) → ((s : Stack) → P s → Q s) → Holds P o → Holds Q o
Holds-map P Q none f h = h
Holds-map P Q (some s) f h = f s h

pub and_then-Holds :
    (P : Stack → Type 0) (o : Option Stack) (f : Stack → Option Stack)
    → Holds P o
    → ((s : Stack) → P s → Holds P (f s))
    → Holds P (and_then o f)
and_then-Holds P none f h k = absurd h
and_then-Holds P (some s) f h k = k s h

pub elim-steady :
    (P : Stack → Type 0) {A : Type 0} (o : Option A) {t : Stack} {f : A → Stack}
    → P t
    → ((a : A) → P (f a))
    → P (elim o [ none ↦ t | some a ↦ f a ])
elim-steady P none h k = h
elim-steady P (some a) h k = k a

pub elim-Holds :
    (P : Stack → Type 0) {A : Type 0} (o : Option A) (t : Option Stack) (f : A → Option Stack)
    → Holds P t
    → ((a : A) → Holds P (f a))
    → Holds P (elim o [ none ↦ t | some a ↦ f a ])
elim-Holds P none t f h k = h
elim-Holds P (some a) t f h k = k a

module _ {Good : Bytes → Type 0} {P : ℕ → Stack → Type 0} (w : Steady Good P) (b : ℕ) where
  pub send_frame_steady :
      (s : Stack) (dest : Bytes) (eth_type : ℕ) (payload : Bytes)
      → P b s
      → P b (send_frame s dest eth_type payload)
  unfolding send_frame
  send_frame_steady s dest eth_type payload q =
      elim-steady (P b) (eth_send_frame s.local_mac dest eth_type payload) q
        (λ frame. w.retained b s _ refl refl refl refl q)

  pub request_mac_steady : (s : Stack) (ip : ℕ) → P b s → P b (request_mac s ip)
  unfolding request_mac
  request_mac_steady s ip q = send_frame_steady s _ _ _ q

  pub send_packet_steady :
      (ip : ℕ) (packet : Bytes) (s : Stack) → P b s → P b (send_packet ip packet s)
  unfolding send_packet
  send_packet_steady ip packet s q =
      elim-steady (P b) (arp_resolve s.arp ip) q (λ mac. send_frame_steady s mac 0x0800 packet q)

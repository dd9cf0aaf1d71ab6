-- ===== src/Net/Stack/Ends.antt =====
-- net/ethernet.c, net/ip.c, net/icmp.c: `eth_receive_frame` returns, although the handlers it calls may
-- send packets, and `ip_send` receives frames while it waits.
use ephemeral_os.Base.{
  ℕ, zero, suc, ◌≤◌, ◌<◌, ◌≡◌, refl, sym, ap, ◌∙◌, ◌≢◌, some, List, [], ◌∷◌, arith, Bytes, All,
  length, drop, subst,
}
use ephemeral_os.Net.Ethernet.{to_ip, eth_receive_frame}
use ephemeral_os.Net.Ip.{overrun, ip_receive}
use ephemeral_os.Net.Udp.{udp_receive}
use ephemeral_os.Net.Stack.{Stack, udp_arrives, receive_frame}
use ephemeral_os.Net.Stack.Fuel.{receive_frame_fuel}
use ephemeral_os.Net.Stack.Steady.{Steady, Holds-ends, elim-steady}
use ephemeral_os.Net.Stack.Steady.Run.{receive_frame-Holds}

-- As a machine with this address reads it, the frame holds no packet whose header points past its end.
abbrev pub Inside : ℕ → Bytes → Type 0
Inside local_ip frame =
    (payload : Bytes)
    → eth_receive_frame frame ≡ to_ip payload
    → ip_receive local_ip payload ≢ overrun

module _ (address : ℕ) (all : List Bytes) where
  -- The frames to come are at most so many, all of them inside, and are those of `all` from a place on.
  record Ahead (bound : ℕ) (s : Stack) : Type 0 where
    local_ip : s.local_ip ≡ address
    arrivals : All (Inside address) s.arrivals
    few : length s.arrivals ≤ bound
    taken : ℕ
    rest : s.arrivals ≡ drop taken all

  udp_arrives-Ahead :
      (b : ℕ) (s : Stack) (src_ip : ℕ) (packet : Bytes)
      → Ahead b s
      → Ahead b (udp_arrives s src_ip packet)
  unfolding udp_arrives
  udp_arrives-Ahead b s src_ip packet q =
      elim-steady (Ahead b) (udp_receive s.handlers src_ip packet) q (λ call. record {
        local_ip = q.local_ip;
        arrivals = q.arrivals;
        few = q.few;
        taken = q.taken;
        rest = q.rest;
      })

  drop-next :
      (n : ℕ) (frames : List Bytes) {frame : Bytes} {later : List Bytes}
      → frame ∷ later ≡ drop n frames
      → later ≡ drop (suc n) frames
  drop-next zero [] e = cc
  drop-next zero (f ∷ fs) e = cc
  drop-next (suc n) [] e = cc
  drop-next (suc n) (f ∷ fs) e = drop-next n fs e

  Ahead-Steady : Steady (Inside address) Ahead
  Ahead-Steady = record {
    retained = λ b s t i h c a q. record {
      local_ip = i ∙ q.local_ip;
      arrivals = rw a q.arrivals;
      few = rw a q.few;
      taken = q.taken;
      rest = a ∙ q.rest;
    };
    wider = λ b c s l q. record {
      local_ip = q.local_ip;
      arrivals = q.arrivals;
      few = omega (arith, q.few);
      taken = q.taken;
      rest = q.rest;
    };
    arrived = λ b s frame frames e q.
        let (here, later) = subst (All (Inside address)) e q.arrivals in
        (
          here,
          (
            length frames,
            omega (arith, ap length e, q.few),
            record {
              local_ip = q.local_ip;
              arrivals = later;
              few = omega arith;
              taken = suc q.taken;
              rest = drop-next q.taken all (sym e ∙ q.rest);
            },
          ),
        );
    udp = λ b s frame payload packet src g e f q. udp_arrives-Ahead b s src packet q;
    inside = λ b s frame payload g e q f.
        g payload e (ap (λ i. ip_receive i payload) (sym q.local_ip) ∙ f);
  }

-- Where no packet that arrives is read past its end, and with more fuel than there are frames to come,
-- `eth_receive_frame` returns, also when its handlers send packets and these wait for a hardware
-- address. What it returns does not depend on the fuel, and the frames still to come are those that
-- were to come, less some of the first.
pub receive_frame_enough :
    (fuel : ℕ) (s : Stack) (frame : Bytes)
    → length s.arrivals < fuel
    → Inside s.local_ip frame
    → All (Inside s.local_ip) s.arrivals
    → (s' : Stack) × (receive_frame fuel s frame ≡ some s')
      × (receive_frame (suc (length s.arrivals)) s frame ≡ some s')
      × ((taken : ℕ) × (s'.arrivals ≡ drop taken s.arrivals))
receive_frame_enough fuel s frame h g gs =
    let (s', e, q) =
      Holds-ends (Ahead s.local_ip s.arrivals (length s.arrivals)) (receive_frame fuel s frame) (
        receive_frame-Holds (Ahead-Steady s.local_ip s.arrivals) fuel (length s.arrivals) h s frame
          (record { local_ip = refl; arrivals = gs; few = omega arith; taken = 0; rest = refl })
          g) in
    (s', e, sym (receive_frame_fuel fuel s frame h) ∙ e, (q.taken, q.rest))

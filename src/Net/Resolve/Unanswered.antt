-- ===== src/Net/Resolve/Unanswered.antt =====
-- net/dns.c: `dns_resolve` asks from port 12345, and its handler is registered for port 53.
use ephemeral_os.Base.{
  ◌<◌, arith, not, ◌==◌, false, subst, ℕ, zero, suc, ◌≡◌, refl, sym, ap, ◌∙◌, ◌≢◌, Option, none,
  some, List, [], ◌∷◌, Bytes, All, ==_false,
}
use ephemeral_os.Net.Udp.{Call, udp_send}
use ephemeral_os.Net.Dns.{Resolver, is_ip_address}
use ephemeral_os.Net.Dns.Query.{Asked, known, asked, ask, resolved, dns_query}
use ephemeral_os.Net.Stack.{Stack, and_then, poll, ip_send, receive_frame}
use ephemeral_os.Net.Resolve.{note_answers, fresh, await_answer, answer, dns_resolve}
use ephemeral_os.Net.Resolve.Quiet.{Quiet, Quiet-Steady}
use ephemeral_os.Net.Stack.Steady.{Holds}
use ephemeral_os.Net.Stack.Steady.Run.{poll-Holds, ip_send-Holds, receive_frame-Holds}

-- The calls of the other handlers change nothing of the resolver.
note_answers-same :
    (calls : List Call) (r : Resolver)
    → All (λ (c : Call). c.callback ≢ 1) calls
    → note_answers calls r ≡ r
note_answers-same [] r h = refl
note_answers-same (c ∷ calls) r (h, hs) =
    rw (==_false c.callback 1 h) (note_answers-same calls r hs)

resolved-none : (r : Resolver) → r.resolution_complete ≡ 0 → resolved r ≡ none
unfolding resolved
resolved-none r e = rw e refl

ask_name :
    (r : Resolver) (id : ℕ) (hostname : Bytes)
    → is_ip_address hostname ≡ false
    → ask r id hostname
      ≡ asked
          (record r { resolved_ip = 0; resolution_complete = 0 })
          (udp_send 12345 53 (dns_query id hostname))
unfolding ask
ask_name r id hostname n = rw n refl

-- The wait ends, with nothing noted.
abbrev pub Unresolved : Option (Stack × Resolver × Option ℕ) → Type 0
Unresolved none = ⊥
Unresolved (some r) = r.2 ≡ none

abbrev Waited : Option (Stack × Resolver) → Type 0
Waited none = ⊥
Waited (some r) = r.1.resolution_complete ≡ 0

module _ (address bound fuel : ℕ) (enough : bound < fuel) where
  fresh-Quiet : (s : Stack) → Quiet address bound s → Quiet address bound (fresh s)
  fresh-Quiet s q = record {
    local_ip = q.local_ip;
    handlers = q.handlers;
    calls = tt;
    arrivals = q.arrivals;
    few = q.few;
  }

  await_answer-Waited :
      (timeout : ℕ) (r : Resolver) (s : Stack)
      → r.resolution_complete ≡ 0
      → Quiet address bound s
      → Waited (await_answer (receive_frame fuel) timeout r s)
  unfolding await_answer
  await_answer-Waited zero r s e q = e
  await_answer-Waited (suc timeout) r s e q =
      let open_yet : not (r.resolution_complete == 0) ≡ false = ground arith in
      rw open_yet (
        go (λ r' s' z h. await_answer-Waited timeout r' s' z h)
          (poll (receive_frame fuel) (fresh s))
          (poll-Holds (Quiet-Steady address) bound (receive_frame fuel)
            (λ c l. receive_frame-Holds (Quiet-Steady address) fuel c (omega arith)) (fresh s)
            (fresh-Quiet s q)))
    where
      go :
          ((r' : Resolver) (s' : Stack)
            → r'.resolution_complete ≡ 0
            → Quiet address bound s'
            → Waited (await_answer (receive_frame fuel) timeout r' s'))
          → (o : Option Stack) → Holds (Quiet address bound) o
          → Waited (
              and_then o
                (λ s'. await_answer (receive_frame fuel) timeout (note_answers s'.calls r) s'))
      go again none h = absurd h
      go again (some s') h =
          again (note_answers s'.calls r) s'
            (ap (λ t. t.resolution_complete) (note_answers-same s'.calls r h.calls) ∙ e) h

  answer-Unresolved :
      (r : Resolver) (s : Stack)
      → r.resolution_complete ≡ 0
      → Quiet address bound s
      → Unresolved (answer (receive_frame fuel) r s)
  unfolding answer
  answer-Unresolved r s e q =
      go (await_answer (receive_frame fuel) 5000 (note_answers s.calls r) s) (
        await_answer-Waited 5000 (note_answers s.calls r) s
          (ap (λ t. t.resolution_complete) (note_answers-same s.calls r q.calls) ∙ e) q)
    where
      go :
          (o : Option (Stack × Resolver))
          → Waited o
          → Unresolved (and_then o (λ (s', r'). some (s', r', resolved r')))
      go none h = absurd h
      go (some (s', r')) h = resolved-none r' h

  -- Behind the question.
  abbrev resolve_from : ℕ → Resolver → Stack → Asked → Option (Stack × Resolver × Option ℕ)
  resolve_from server r s a = elim a [
    | known ip ↦ some (s, r, some ip)
    | asked r0 none ↦ answer (receive_frame fuel) r0 (fresh s)
    | asked r0 (some packet) ↦
        and_then (ip_send (receive_frame fuel) (fresh s) server 17 packet)
          (answer (receive_frame fuel) r0)
  ]

  resolve_from-Unresolved :
      (server : ℕ) (r r0 : Resolver) (s : Stack) (o : Option Bytes)
      → r0.resolution_complete ≡ 0
      → Quiet address bound s
      → Unresolved (resolve_from server r s (asked r0 o))
  resolve_from-Unresolved server r r0 s none e q =
      answer-Unresolved r0 (fresh s) e (fresh-Quiet s q)
  resolve_from-Unresolved server r r0 s (some packet) e q =
      arrived (ip_send (receive_frame fuel) (fresh s) server 17 packet) (
        ip_send-Holds (Quiet-Steady address) bound (receive_frame fuel)
          (λ c l. receive_frame-Holds (Quiet-Steady address) fuel c (omega arith)) (fresh s) server
          17 packet (fresh-Quiet s q))
    where
      arrived :
          (o : Option Stack)
          → Holds (Quiet address bound) o
          → Unresolved (and_then o (answer (receive_frame fuel) r0))
      arrived none h = absurd h
      arrived (some s') h = answer-Unresolved r0 s' e h

  -- On a machine with the handlers that `kernel_main` sets, to which no UDP datagram for port 53 will
  -- come, nor a packet whose header points past its end: `dns_resolve` of a text that is no address
  -- returns, with more fuel than frames to come, and finds no address, whatever else comes, the
  -- answers of the server to port 12345 included.
  pub dns_resolve-none :
      (server id : ℕ) (hostname : Bytes) (r : Resolver) (s : Stack)
      → is_ip_address hostname ≡ false
      → Quiet address bound s
      → Unresolved (dns_resolve (receive_frame fuel) server id hostname r s)
  unfolding dns_resolve
  dns_resolve-none server id hostname r s n q =
      subst (λ a. Unresolved (resolve_from server r s a)) (sym (ask_name r id hostname n))
        (resolve_from-Unresolved server r _ s (udp_send 12345 53 (dns_query id hostname)) refl q)

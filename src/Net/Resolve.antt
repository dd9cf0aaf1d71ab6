-- ===== src/Net/Resolve.antt =====
-- net/dns.c, net/ntp.c: `dns_resolve` and `ntp_sync_time`, with their waits. The handlers that they
-- wait for are called while the stack receives frames, and share no state with it; so a call is
-- recorded first, and its handler works on it behind the poll.
pub mod Quiet
pub mod Unanswered
use ephemeral_os.Base.{
  ℕ, zero, suc, not, ◌&&◌, Option, none, some, List, [], ◌∷◌, Bytes, ◌==◌, if◌then◌else◌,
}
use ephemeral_os.Net.Udp.{Call}
use ephemeral_os.Net.Dns.{Resolver, dns_response_handler}
use ephemeral_os.Net.Dns.Query.{known, asked, ask, resolved}
use ephemeral_os.Net.Ntp.{Sync, ntp_response_handler, ntp_request}
use ephemeral_os.Net.Stack.{Stack, Receive, and_then, poll, ip_send, send_datagram}

-- The calls of one handler, the last one first, each with its payload.
abbrev pub handle {ℓ} : {A : Type ℓ} → ℕ → (A → Bytes → A) → List Call → A → A
handle number handler [] a = a
handle number handler (call ∷ calls) a =
    let earlier = handle number handler calls a in
    if call.callback == number then handler earlier call.payload else earlier

-- `dns_response_handler` has the number 1, and `ntp_response_handler` the number 2.
abbrev pub note_answers : List Call → Resolver → Resolver
note_answers calls r = handle 1 dns_response_handler calls r

abbrev pub note_times : List Call → Sync → Sync
note_times calls t = handle 2 ntp_response_handler calls t

-- A stack in which no call is recorded yet.
abbrev pub fresh : Stack → Stack
fresh s = record s { calls = [] }

-- The loop of `dns_resolve`, with `timeout` left.
unfoldable pub await_answer : Receive → ℕ → Resolver → Stack → Option (Stack × Resolver)
await_answer receive zero r s = some (s, r)
await_answer receive (suc timeout) r s =
    if not (r.resolution_complete == 0)
    then some (s, r)
    else and_then (poll receive (fresh s))
        (λ s'. await_answer receive timeout (note_answers s'.calls r) s')

-- Behind the call of `udp_send`: what the stack has recorded, the wait, and the result.
unfoldable pub answer : Receive → Resolver → Stack → Option (Stack × Resolver × Option ℕ)
answer receive r s =
    and_then (await_answer receive 5000 (note_answers s.calls r) s)
      (λ (s', r'). some (s', r', resolved r'))

unfoldable pub dns_resolve :
    Receive → ℕ → ℕ → Bytes → Resolver → Stack → Option (Stack × Resolver × Option ℕ)
dns_resolve receive server id hostname r s = elim (ask r id hostname) [
  | known ip ↦ some (s, r, some ip)
  | asked r0 none ↦ answer receive r0 (fresh s)
  | asked r0 (some packet) ↦
      and_then (ip_send receive (fresh s) server 17 packet) (answer receive r0)
]

-- The loop of `ntp_sync_time`, with `timeout` left.
unfoldable pub await_time : Receive → ℕ → Sync → Stack → Option (Stack × Sync)
await_time receive zero t s = some (s, t)
await_time receive (suc timeout) t s =
    if not (t.sync_complete == 0)
    then some (s, t)
    else and_then (poll receive (fresh s))
        (λ s'. await_time receive timeout (note_times s'.calls t) s')

-- The end of `ntp_sync_time`: the time, if one was noted and is not 0.
unfoldable pub synced : Sync → Option ℕ
synced t =
    if not (t.sync_complete == 0) && not (t.synced_timestamp == 0)
    then some t.synced_timestamp
    else none

unfoldable pub ntp_sync_time : Receive → ℕ → ℕ → Stack → Option (Stack × Sync × Option ℕ)
ntp_sync_time receive server local_time s =
    and_then (send_datagram receive (fresh s) server 123 123 (ntp_request local_time)) (λ s1.
      and_then
        (await_time receive 5000
          (note_times s1.calls (record { synced_timestamp = 0; sync_complete = 0 })) s1)
        (λ (s2, t). some (s2, t, synced t)))

-- ===== src/Net/Icmp/Echo.antt =====
-- net/icmp.c: a request, its reply, and the request that the reply answers.
use ephemeral_os.Net.Order.{ntohs-htons, htons-lt, htons, ntohs}
use ephemeral_os.Base.{
  ◌<◌, ap, ◌∙◌, sym, some, ◌+◌, ◌*◌, ◌%◌, ◌/◌, arith, Bytes, ℕ, ◌≡◌, refl, inl, inr, Bool, true,
  false, not, ◌&&◌, ◌||◌, List, [], ◌∷◌, ◌==◌, ==_refl, Bool-cases,
}
use mathlib.Core.Bool.{true, false}
use ephemeral_os.Net.Icmp.{
  letters, echo_reply, Icmp, echo_request, icmp_send_echo_request, icmp_receive, PingState,
  await_reply, is_available, note_reply, is_answered, is_for,
}

abbrev pub has_room : ℕ → List PingState → Bool
has_room timer [] = false
has_room timer (p ∷ ps) = is_available timer p || has_room timer ps

is_for_refl :
    (ip sequence timer received : ℕ)
    → is_for ip sequence
        (record { ip = ip; sequence = sequence; timestamp = timer; received = received })
      ≡ true
is_for_refl ip sequence timer received = rw (==_refl ip, ==_refl sequence) refl

or_left : (a b : Bool) → (a || b) ≡ false → a ≡ false
or_left true b h = cc
or_left false b h = refl

unavailable : (timer : ℕ) (p : PingState) → is_available timer p ≡ false → (p.received == 0) ≡ false
unavailable timer p n = or_left (p.received == 0) _ n

-- A reply makes the request that it answers an answered one.
note_reply-await_reply :
    (timer ip sequence : ℕ) (ps : List PingState)
    → has_room timer ps ≡ true
    → is_answered ip sequence (note_reply ip sequence (await_reply timer ip sequence ps)) ≡ true
unfolding await_reply note_reply is_answered
note_reply-await_reply timer ip sequence [] h = cc
note_reply-await_reply timer ip sequence (p ∷ ps) h = elim (Bool-cases (is_available timer p)) [
  | inl y ↦ rw (y, ==_refl ip, ==_refl sequence) (rw (==_refl ip, ==_refl sequence) refl)
  | inr n ↦ elim (Bool-cases (is_for ip sequence p)) [
    | inl f ↦ rw (n, f, unavailable timer p n) (rw f (rw (unavailable timer p n) refl))
    | inr f ↦ rw n (rw f (rw f (note_reply-await_reply timer ip sequence ps (rw n at h))))
  ]
]

-- An answered place that a new request for the same address and number may not take.
abbrev pub is_stale : ℕ → ℕ → ℕ → PingState → Bool
is_stale timer ip sequence p = is_for ip sequence p && not (is_available timer p)

abbrev pub has_stale : ℕ → ℕ → ℕ → List PingState → Bool
has_stale timer ip sequence [] = false
has_stale timer ip sequence (p ∷ ps) =
    is_stale timer ip sequence p || has_stale timer ip sequence ps

or_true : (a : Bool) {b : Bool} → b ≡ true → (a || b) ≡ true
or_true true h = refl
or_true false h = h

rest_stale : (a : Bool) {b : Bool} → ((a && false) || b) ≡ true → b ≡ true
rest_stale true h = h
rest_stale false h = h

stale_answered :
    (timer ip sequence : ℕ) (ps : List PingState)
    → has_stale timer ip sequence ps ≡ true
    → is_answered ip sequence ps ≡ true
unfolding is_answered
stale_answered timer ip sequence [] h = cc
stale_answered timer ip sequence (p ∷ ps) h = elim (Bool-cases (is_available timer p)) [
  | inl y ↦
      or_true _
        (stale_answered timer ip sequence ps (rest_stale (is_for ip sequence p) (rw y at h)))
  | inr n ↦ elim (Bool-cases (is_for ip sequence p)) [
    | inl f ↦ rw (f, unavailable timer p n) refl
    | inr f ↦ rw f (stale_answered timer ip sequence ps (rw (n, f) at h))
  ]
]

is_answered-stale :
    (timer ip sequence : ℕ) (ps : List PingState)
    → has_stale timer ip sequence ps ≡ true
    → is_answered ip sequence (await_reply timer ip sequence ps) ≡ true
unfolding await_reply is_answered
is_answered-stale timer ip sequence [] h = cc
is_answered-stale timer ip sequence (p ∷ ps) h = elim (Bool-cases (is_available timer p)) [
  | inl y ↦ rw y (
      or_true _
        (stale_answered timer ip sequence ps (rest_stale (is_for ip sequence p) (rw y at h))))
  | inr n ↦ elim (Bool-cases (is_for ip sequence p)) [
    | inl f ↦ rw n (rw (f, unavailable timer p n) refl)
    | inr f ↦ rw n (rw f (is_answered-stale timer ip sequence ps (rw (n, f) at h)))
  ]
]

pub reply-request :
    (peer : Icmp) (src_ip id sequence : ℕ)
    → (icmp_receive peer src_ip (echo_request id sequence)).1
      ≡ some (echo_reply (echo_request id sequence))
unfolding icmp_receive echo_request letters
reply-request peer src_ip id sequence = refl

read16 : (n : ℕ) → n < 65536 → ntohs (htons n % 256 + 256 * (htons n / 256 % 256)) ≡ n
read16 n h = ap ntohs (omega (arith, htons-lt n)) ∙ ntohs-htons n h

receive-reply :
    (c : Icmp) (ip id sequence : ℕ)
    → sequence < 65536
    → (icmp_receive c ip (echo_reply (echo_request id sequence))).0.states
      ≡ note_reply ip sequence c.states
unfolding icmp_receive echo_request echo_reply letters
receive-reply c ip id sequence h = ap (λ n. note_reply ip n c.states) (read16 sequence h)

-- When there is room for a request, the reply that a machine makes of the request, received from the
-- address that the request went to, makes it an answered one, so that `icmp_wait_reply` ends. The
-- sequence number has 16 bits.
pub icmp_receive-icmp_send_echo_request :
    (c peer : Icmp) (ip src_ip id sequence : ℕ) {reply : Bytes}
    → sequence < 65536
    → has_room c.timer c.states ≡ true
    → (icmp_receive peer src_ip (icmp_send_echo_request c ip id sequence).1).1 ≡ some reply
    → is_answered ip sequence
        (icmp_receive (icmp_send_echo_request c ip id sequence).0 ip reply).0.states
      ≡ true
unfolding icmp_send_echo_request
icmp_receive-icmp_send_echo_request c peer ip src_ip id sequence {reply} h r e =
    ap (λ p. is_answered ip sequence (icmp_receive sent ip p).0.states) same
    ∙ ap (is_answered ip sequence) (receive-reply sent ip id sequence h)
    ∙ note_reply-await_reply c.timer ip sequence c.states r
  where
    sent : Icmp
    sent = (icmp_send_echo_request c ip id sequence).0

    some_injective : {x y : Bytes} → some x ≡ some y → x ≡ y
    some_injective z = cc

    same : reply ≡ echo_reply (echo_request id sequence)
    same = some_injective (sym e ∙ reply-request peer src_ip id sequence)

-- When an answered place for the same address and number is too new to be taken, the test of
-- `icmp_wait_reply` holds as soon as the request is sent, before any reply.
pub is_answered-icmp_send_echo_request :
    (c : Icmp) (ip id sequence : ℕ)
    → has_stale c.timer ip sequence c.states ≡ true
    → is_answered ip sequence (icmp_send_echo_request c ip id sequence).0.states ≡ true
unfolding icmp_send_echo_request
is_answered-icmp_send_echo_request c ip id sequence h =
    is_answered-stale c.timer ip sequence c.states h

-- ===== src/Net/Dns/Answer.antt =====
-- net/dns.c: an answer that the resolver reads, and the end of a name.
use ephemeral_os.Base.{
  ℕ, zero, suc, ◌+◌, ◌*◌, ◌≤◌, ◌<◌, bit_and, ◌≡◌, refl, inl, inr, Bool, true, false, not, ◌||◌, [],
  ◌∷◌, arith, Bytes, ltb, ◌==◌, if◌then◌else◌, Bool-cases, length, get_or,
}
use ephemeral_os.Net.Order.{htons}
use ephemeral_os.Net.Dns.{Resolver, skip_labels, dns_response_handler}

-- The bytes behind a name in a record of type A and class IN: type, class, time to live, length 4
-- and the address `a.b.c.d`.
abbrev pub address_record : ℕ → ℕ → ℕ → ℕ → ℕ → ℕ → ℕ → ℕ → Bytes
address_record t1 t2 t3 t4 a b c d = 0 ∷ 1 ∷ 0 ∷ 1 ∷ t1 ∷ t2 ∷ t3 ∷ t4 ∷ 0 ∷ 4 ∷ a ∷ b ∷ c ∷ d ∷ []

-- A response with one question, for the host whose name is the byte `x`, and one answer.
abbrev pub response : ℕ → ℕ → ℕ → Bytes → Bytes
response id1 id2 x answer =
    id1 ∷ id2 ∷ 0x81 ∷ 0x80 ∷ 0 ∷ 1 ∷ 0 ∷ 1 ∷ 0 ∷ 0 ∷ 0 ∷ 0 ∷ 1 ∷ x ∷ 0 ∷ 0 ∷ 1 ∷ 0 ∷ 1 ∷ answer

-- The host's name in full.
abbrev pub full_name : ℕ → Bytes → Bytes
full_name x rest = 1 ∷ x ∷ 0 ∷ rest

-- What the loop over a name comes to: the end of the answer, a zero byte, or the byte behind a
-- pointer.
pub data NameEnd (packet : Bytes) (p : ℕ) : Type 0 where
  past_end : length packet ≤ p → NameEnd packet p
  at_zero : get_or packet p 0 ≡ 0 → NameEnd packet p
  behind_pointer : (q : ℕ) → p ≡ q + 2 → bit_and (get_or packet q 0) 0xc0 ≡ 0xc0 → NameEnd packet p

if-NameEnd :
    (packet : Bytes) (b : Bool) (x y : ℕ)
    → (b ≡ true → NameEnd packet x)
    → (b ≡ false → NameEnd packet y)
    → NameEnd packet (if b then x else y)
if-NameEnd packet true x y h k = h refl
if-NameEnd packet false x y h k = k refl

stopped :
    (packet : Bytes) (ptr : ℕ)
    → (not (ltb ptr (length packet)) || get_or packet ptr 0 == 0) ≡ true
    → NameEnd packet ptr
stopped packet ptr h = elim (Bool-cases (ltb ptr (length packet))) [
  | inl e ↦ at_zero (ground arith)
  | inr e ↦ past_end (ground arith)
]

-- The fuel is enough: from any byte of an answer, or past it, with as much fuel as the answer has
-- bytes and one more, the loop over a name ends by one of its tests.
pub skip_labels-NameEnd :
    (fuel : ℕ) (packet : Bytes) (ptr : ℕ)
    → length packet < ptr + fuel
    → NameEnd packet (skip_labels fuel packet ptr)
unfolding skip_labels
skip_labels-NameEnd zero packet ptr h = past_end (omega arith)
skip_labels-NameEnd (suc fuel) packet ptr h =
    if-NameEnd packet (not (ltb ptr (length packet)) || get_or packet ptr 0 == 0) ptr _
      (stopped packet ptr)
      (λ _.
        if-NameEnd packet (bit_and (get_or packet ptr 0) 0xc0 == 0xc0) (ptr + 2)
          (skip_labels fuel packet (ptr + get_or packet ptr 0 + 1))
          (λ e. behind_pointer ptr refl (ground arith))
          (λ _. skip_labels-NameEnd fuel packet (ptr + get_or packet ptr 0 + 1) (omega arith)))

-- When a response with one question, for a name of one byte, and one answer, an address, gives the
-- name in the answer in full, the handler takes the address and is done.
pub dns_response_handler_full :
    (r : Resolver) (id1 id2 x t1 t2 t3 t4 a b c d : ℕ)
    → dns_response_handler r (response id1 id2 x (full_name x (address_record t1 t2 t3 t4 a b c d)))
      ≡ record { resolved_ip = a * 16777216 + b * 65536 + c * 256 + d; resolution_complete = 1 }
unfolding dns_response_handler htons
dns_response_handler_full r id1 id2 x t1 t2 t3 t4 a b c d = refl

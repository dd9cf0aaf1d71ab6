-- ===== src/Net/Dns/Query.antt =====
-- net/dns.c: the question that `dns_resolve` asks.
use ephemeral_os.Base.{
  ℕ, suc, ◌+◌, ◌%◌, ◌≡◌, ap, not, ◌&&◌, Option, none, some, [], ◌∷◌, ◌++◌, arith, Bytes, ◌==◌,
  if◌then◌else◌, length, replicate, length-append,
}
use ephemeral_os.Net.Order.{htons, store16}
use ephemeral_os.Net.Udp.{udp_send}
use ephemeral_os.Net.Dns.{Resolver, is_ip_address, parse_ip}

-- The loop over the name, with the bytes of the label so far: a label stands behind its length, a
-- `uint8_t`.
unfoldable pub labels : Bytes → Bytes → Bytes
labels label [] = (length label % 256) ∷ label
labels label (c ∷ cs) =
    let ended = labels [] cs in
    let longer = labels (label ++ c ∷ []) cs in
    if c == b'.' then (length label % 256) ∷ label ++ ended else longer

-- `id` is `dns_transaction_id`; the query fits its buffer.
unfoldable pub dns_query : ℕ → Bytes → Bytes
unfolding labels
dns_query id hostname =
    store16 (htons id)
    ++ (store16 (htons 0x0100)
        ++ (store16 (htons 1)
            ++ (replicate 6 0
                ++ (labels [] hostname ++ 0 ∷ (store16 (htons 1) ++ store16 (htons 1))))))

-- What `dns_resolve` does before it waits: the address that the text is, or the datagram for the
-- server, to port 53, with no answer noted yet.
pub data Asked : Type 0 where
  known : ℕ → Asked
  asked : Resolver → Option Bytes → Asked

unfoldable pub ask : Resolver → ℕ → Bytes → Asked
unfolding dns_query
ask r id hostname =
    if is_ip_address hostname
    then known (parse_ip hostname)
    else asked (record r { resolved_ip = 0; resolution_complete = 0 })
        (udp_send 12345 53 (dns_query id hostname))

-- The end: the address, if one was noted and is not 0.
unfoldable pub resolved : Resolver → Option ℕ
resolved r =
    if not (r.resolution_complete == 0) && not (r.resolved_ip == 0)
    then some r.resolved_ip
    else none

-- The labels of a name hold one byte more than the name.
length-labels : (label name : Bytes) → length (labels label name) ≡ suc (length label + length name)
unfolding labels
length-labels label [] = ap suc (omega arith)
length-labels label (c ∷ cs) = ground (
  arith,
  length-labels [] cs,
  length-labels (label ++ c ∷ []) cs,
  length-append label (labels [] cs),
  length-append label (c ∷ []),
)

-- A query is 18 bytes longer than the name that it asks for.
length-dns_query :
    (id : ℕ) (hostname : Bytes) → length (dns_query id hostname) ≡ 18 + length hostname
unfolding dns_query
length-dns_query id hostname = omega (
  arith,
  length-append (labels [] hostname) (0 ∷ (store16 (htons 1) ++ store16 (htons 1))),
  length-labels [] hostname,
)

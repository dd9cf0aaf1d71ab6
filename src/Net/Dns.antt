-- ===== src/Net/Dns.antt =====
-- net/dns.c: the answer of a name server. A pointer into the answer is
-- an index; `end` is its length.
pub mod Answer
pub mod Compressed
pub mod Query
use ephemeral_os.Base.{
  ℕ, zero, suc, ◌+◌, ◌-◌, ◌*◌, ◌^◌, bit_and, bit_or, Bool, false, not, ◌&&◌, ◌||◌, Option, none,
  some, [], ◌∷◌, Bytes, u32, ltb, leb, ◌==◌, if◌then◌else◌, length, get_or,
}
use ephemeral_os.Net.Order.{ntohs, load16}

-- `resolved_ip` and `resolution_complete`
pub record Resolver : Type 0 where
  pub resolved_ip : ℕ
  pub resolution_complete : ℕ

-- The loop over a name, with fuel; each round moves on by a byte at least.
unfoldable pub skip_labels : ℕ → Bytes → ℕ → ℕ
skip_labels zero packet ptr = ptr
skip_labels (suc fuel) packet ptr =
    let next = skip_labels fuel packet (ptr + get_or packet ptr 0 + 1) in
    if not (ltb ptr (length packet)) || get_or packet ptr 0 == 0
    then ptr
    else if bit_and (get_or packet ptr 0) 0xc0 == 0xc0
    then ptr + 2
    else next

-- `if (*ptr == 0) ptr++`, behind either way out of the loop; `none` is `ptr >= end`.
unfoldable pub skip_name : Bytes → ℕ → Option ℕ
unfolding skip_labels
skip_name packet start =
    let ptr = skip_labels (suc (length packet)) packet start in
    if leb (length packet) ptr
    then none
    else if get_or packet ptr 0 == 0
    then some (ptr + 1)
    else some ptr

abbrev pub word_at : Bytes → ℕ → ℕ
word_at packet i = get_or packet i 0 * 256 + get_or packet (i + 1) 0

-- The loop over the answers, with the answers left.
unfoldable pub read_answers : ℕ → Bytes → ℕ → Resolver → Resolver
unfolding skip_name
read_answers zero packet ptr r = r
read_answers (suc n) packet ptr r =
    if leb (length packet) ptr then r else elim (skip_name packet ptr) [
      | none ↦ r
      | some p ↦
          let rdlength = word_at packet (p + 8) in
          let next = read_answers n packet (p + 10 + rdlength) r in
          if ltb (length packet) (p + 10)
          then r
          else if (word_at packet p == 1 && rdlength == 4) && leb (p + 14) (length packet)
          then record {
            resolved_ip =
                get_or packet (p + 10) 0 * 16777216
                + get_or packet (p + 11) 0 * 65536
                + get_or packet (p + 12) 0 * 256
                + get_or packet (p + 13) 0;
            resolution_complete = 1;
          }
          else next
    ]

-- From the first name on, behind the header's twelve bytes.
unfoldable pub read_body : Bytes → ℕ → Resolver → Resolver
unfolding read_answers skip_name
read_body packet ancount r = elim (skip_name packet 12) [
  | none ↦ r
  | some p ↦ read_answers ancount packet (p + 4) r
]

unfoldable pub dns_response_handler : Resolver → Bytes → Resolver
unfolding read_body
dns_response_handler r packet =
    let flags = ntohs (load16 packet 2) in
    let ancount = ntohs (load16 packet 6) in
    if ltb (length packet) 12
    then r
    else if bit_and flags 0x8000 == 0
    then r
    else if ancount == 0
    then r
    else read_body packet ancount r

-- The loop of `is_ip_address`, with `dots` and `digits`.
unfoldable pub dotted_from : ℕ → ℕ → Bytes → Bool
dotted_from dots digits [] = dots == 3 && (ltb 0 digits && leb digits 3)
dotted_from dots digits (c ∷ cs) =
    let after_dot = dotted_from (dots + 1) 0 cs in
    let after_digit = dotted_from dots (digits + 1) cs in
    if c == b'.'
    then (if digits == 0 || ltb 3 digits then false else after_dot)
    else if leb b'0' c && leb c b'9'
    then after_digit
    else false

unfoldable pub is_ip_address : Bytes → Bool
unfolding dotted_from
is_ip_address str = dotted_from 0 0 str

-- The loop of `parse_ip`. Only strings that `is_ip_address` takes come here, so `shift` does not go
-- below 0, and `octet << shift` is cut to 32 bits when it goes into `ip`.
unfoldable pub parse_from : ℕ → ℕ → ℕ → Bytes → ℕ
parse_from ip octet shift [] = bit_or ip (u32 (octet * 2 ^ shift))
parse_from ip octet shift (c ∷ cs) =
    let after_dot = parse_from (bit_or ip (u32 (octet * 2 ^ shift))) 0 (shift - 8) cs in
    let after_digit = parse_from ip (octet * 10 + (c - b'0')) shift cs in
    if c == b'.' then after_dot else after_digit

unfoldable pub parse_ip : Bytes → ℕ
unfolding parse_from
parse_ip str = parse_from 0 0 24 str

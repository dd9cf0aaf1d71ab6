-- ===== src/Net/Ip/Packets.antt =====
-- net/ip.c: a packet that is sent, received.
use ephemeral_os.Base.{
  take_all, ℕ, suc, ◌+◌, ◌-◌, ◌*◌, ◌/◌, ◌%◌, ◌≤◌, ◌<◌, ◌≡◌, refl, sym, ap, ◌∙◌, Bool, false, not,
  ◌&&◌, none, some, ◌++◌, arith, Bytes, ltb, ◌==◌, if◌then◌else◌, length, take, length-append,
  take-append,
}
use mathlib.Core.Bool.{true, false}
use ephemeral_os.Net.Order.{
  htons, ntohs, htonl, ntohl, ntohs-htons, ntohl-htonl, htons-lt, htonl-lt,
}
use ephemeral_os.Net.Ip.{header, ip_checksum, ip_packet, ip_receive, by_protocol, dropped}

read16 : (n : ℕ) → n < 65536 → ntohs (htons n % 256 + 256 * (htons n / 256 % 256)) ≡ n
read16 n h = ap ntohs (omega (arith, htons-lt n)) ∙ ntohs-htons n h

read32 :
    (n : ℕ)
    → n < 4294967296
    → ntohl (
        htonl n % 256
        + 256 * (htonl n / 256 % 256)
        + 65536 * (htonl n / 65536 % 256)
        + 16777216 * (htonl n / 16777216 % 256))
      ≡ n
read32 n h = ap ntohl (omega (arith, htonl-lt n)) ∙ ntohl-htonl n h

abbrev wire : ℕ → ℕ → ℕ → ℕ → ℕ → Bytes → Bytes
wire ident protocol checksum src_ip dest_ip payload =
    header (20 + length payload) ident protocol checksum src_ip dest_ip ++ payload

abbrev sealed : ℕ → ℕ → ℕ → ℕ → Bytes → Bytes
sealed ident local_ip dest_ip protocol payload =
    wire ident protocol
      (htons (ip_checksum (header (20 + length payload) ident protocol 0 local_ip dest_ip)))
      local_ip dest_ip payload

-- A payload whose length does not wrap is sent whole.
ip_packet_whole :
    (ident local_ip dest_ip protocol : ℕ) (payload : Bytes)
    → length payload < 65516
    → ip_packet ident local_ip dest_ip protocol payload ≡ (
        if ltb 1500 (20 + length payload)
        then none
        else some (sealed ident local_ip dest_ip protocol payload))
unfolding ip_packet
ip_packet_whole ident local_ip dest_ip protocol payload l =
    ap
      (λ t.
        if ltb 1500 t
        then none
        else some (
            take t (
              header t ident protocol
                (htons (ip_checksum (header t ident protocol 0 local_ip dest_ip))) local_ip dest_ip
              ++ payload)))
      wrapped
    ∙ ap (λ p. if ltb 1500 (20 + length payload) then none else some p)
        (take_all (20 + length payload) (sealed ident local_ip dest_ip protocol payload)
          (omega arith))
  where
    wrapped : (20 + length payload) % 65536 ≡ 20 + length payload
    wrapped = omega arith

unless_some :
    {b : Bool} {x y : Bytes} → (if b then none else some x) ≡ some y → (b ≡ false) × (y ≡ x)
unless_some {b = true} e = cc
unless_some {b = false} e = (refl, cc)

ip_packet-cases :
    (ident local_ip dest_ip protocol : ℕ) (payload : Bytes) {packet : Bytes}
    → length payload < 65516
    → ip_packet ident local_ip dest_ip protocol payload ≡ some packet
    → (packet ≡ sealed ident local_ip dest_ip protocol payload) × (length payload ≤ 1480)
ip_packet-cases ident local_ip dest_ip protocol payload l e =
    let u = unless_some (sym (ip_packet_whole ident local_ip dest_ip protocol payload l) ∙ e) in
    (u.1, short u.0)
  where
    short : ltb 1500 (20 + length payload) ≡ false → length payload ≤ 1480
    short h = ground arith

ip_receive-wire :
    (local_ip ident protocol checksum src_ip dest_ip : ℕ) (payload rest : Bytes)
    → length payload ≤ 1480
    → src_ip < 4294967296
    → dest_ip < 4294967296
    → ip_receive local_ip (wire ident protocol checksum src_ip dest_ip payload ++ rest) ≡ (
        if not (dest_ip == local_ip) && not (dest_ip == 0xffff_ffff)
        then dropped
        else by_protocol protocol src_ip payload)
unfolding ip_receive
ip_receive-wire local_ip ident protocol checksum src_ip dest_ip payload rest l s d =
    rw
      (
        long,
        read16 (20 + length payload) (omega arith),
        read32 src_ip s,
        read32 dest_ip d,
        fits,
        over,
        ap (λ n. take n (payload ++ rest)) whole,
        take-append payload rest,
      )
      refl
  where
    long :
        ltb
          (suc (
            suc (
              suc (
                suc (
                  suc (
                    suc (
                      suc (
                        suc (
                          suc (
                            suc (
                              suc (
                                suc (
                                  suc (
                                    suc (
                                      suc (
                                        suc (
                                          suc (
                                            suc (
                                              suc
                                                (suc (length (payload ++ rest))))))))))))))))))))))
          20
        ≡ false
    long = ground arith

    fits :
        ltb
          (suc (
            suc (
              suc (
                suc (
                  suc (
                    suc (
                      suc (
                        suc (
                          suc (
                            suc (
                              suc (
                                suc (
                                  suc (
                                    suc (
                                      suc (
                                        suc (
                                          suc (
                                            suc (
                                              suc
                                                (suc (length (payload ++ rest))))))))))))))))))))))
          (20 + length payload)
        ≡ false
    fits = ground (arith, length-append payload rest)

    over : ltb (20 + length payload) 20 ≡ false
    over = ground arith

    whole : 20 + length payload - 20 ≡ length payload
    whole = omega arith

-- A packet that `ip_send` makes between 32-bit addresses, of a payload of less than 65516 bytes, is
-- handed on by `ip_receive`, whatever follows it in the frame, to the protocol that it was sent for,
-- with the sender's address and the whole payload, if it is for this address or for all of them, and
-- is dropped otherwise.
pub ip_receive-ip_packet :
    (local_ip ident protocol src_ip dest_ip : ℕ) (payload rest : Bytes) {packet : Bytes}
    → src_ip < 4294967296
    → dest_ip < 4294967296
    → length payload < 65516
    → ip_packet ident src_ip dest_ip protocol payload ≡ some packet
    → ip_receive local_ip (packet ++ rest) ≡ (
        if not (dest_ip == local_ip) && not (dest_ip == 0xffff_ffff)
        then dropped
        else by_protocol protocol src_ip payload)
ip_receive-ip_packet local_ip ident protocol src_ip dest_ip payload rest s d l e =
    let w = ip_packet-cases ident src_ip dest_ip protocol payload l e in
    ap (λ p. ip_receive local_ip (p ++ rest)) w.0
    ∙ ip_receive-wire local_ip ident protocol _ src_ip dest_ip payload rest w.1 s d

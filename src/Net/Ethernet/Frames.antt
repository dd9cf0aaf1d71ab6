-- ===== src/Net/Ethernet/Frames.antt =====
-- net/ethernet.c: a frame that is sent, received.
use ephemeral_os.Base.{
  ℕ, suc, ◌+◌, ◌-◌, ◌*◌, ◌/◌, ◌%◌, ◌≤◌, ◌<◌, ◌≡◌, ap, ◌∙◌, false, some, [], ◌∷◌, ◌++◌, arith, Bytes,
  ltb, ◌==◌, if◌then◌else◌, length, replicate, length-append, length-replicate,
}
use ephemeral_os.Net.Order.{ntohs, store16, htons, ntohs-htons, htons-lt}
use ephemeral_os.Net.Ethernet.{eth_send_frame, Delivery, to_arp, to_ip, ignored, eth_receive_frame}

abbrev pub delivered : ℕ → Bytes → Delivery
delivered eth_type payload =
    if eth_type == 0x0806
    then to_arp payload
    else if eth_type == 0x0800
    then to_ip payload
    else ignored

-- Six bytes, as a list with its elements.
pub data Six : Bytes → Type 0 where
  six : (a b c d e f : ℕ) → Six (a ∷ b ∷ c ∷ d ∷ e ∷ f ∷ [])

abbrev padding : Bytes → Bytes
padding payload = replicate (60 - (14 + length payload)) 0

read16 : (n : ℕ) → n < 65536 → ntohs (htons n % 256 + 256 * (htons n / 256 % 256)) ≡ n
read16 n h = ap ntohs (omega (arith, htons-lt n)) ∙ ntohs-htons n h

eth_send_frame-cases :
    (local_mac dest_mac : Bytes) (eth_type : ℕ) (payload : Bytes) {frame : Bytes}
    → eth_send_frame local_mac dest_mac eth_type payload ≡ some frame
    → (frame
        ≡ dest_mac ++ (local_mac ++ (store16 (htons eth_type) ++ (payload ++ padding payload))))
      × (length payload ≤ 1500)
unfolding eth_send_frame
eth_send_frame-cases local_mac dest_mac eth_type payload e = ground arith

eth_receive_wire :
    (local_mac dest_mac : Bytes) (eth_type : ℕ) (body : Bytes)
    → Six local_mac
    → Six dest_mac
    → eth_type < 65536
    → (eth_receive_frame (dest_mac ++ (local_mac ++ (store16 (htons eth_type) ++ body)))
        ≡ delivered eth_type body)
      × (length (dest_mac ++ (local_mac ++ (store16 (htons eth_type) ++ body))) ≡ 14 + length body)
unfolding eth_receive_frame
eth_receive_wire local_mac dest_mac eth_type body (six a b c d e f) (six g h i j k l) t =
    (rw (long, read16 eth_type t), omega arith)
  where
    long :
        ltb
          (suc (
            suc (
              suc (suc (suc (suc (suc (suc (suc (suc (suc (suc (suc (suc (length body)))))))))))))))
          14
        ≡ false
    long = ground arith

-- A frame that `eth_send_frame` makes is handed on by `eth_receive_frame` to the protocol of its type
-- with its payload, which zeros fill up to 46 bytes; the frame has from 60 to 1514 bytes.
pub eth_receive_frame-eth_send_frame :
    (local_mac dest_mac : Bytes) (eth_type : ℕ) (payload : Bytes) {frame : Bytes}
    → Six local_mac
    → Six dest_mac
    → eth_type < 65536
    → eth_send_frame local_mac dest_mac eth_type payload ≡ some frame
    → (eth_receive_frame frame
        ≡ delivered eth_type (payload ++ replicate (60 - (14 + length payload)) 0))
      × (60 ≤ length frame)
      × (length frame ≤ 1514)
eth_receive_frame-eth_send_frame local_mac dest_mac eth_type payload {frame} l d h e =
    let w = eth_send_frame-cases local_mac dest_mac eth_type payload e in
    let r = eth_receive_wire local_mac dest_mac eth_type (payload ++ padding payload) l d h in
    let n : length frame ≡ 14 + length (payload ++ padding payload) = ap length w.0 ∙ r.1 in
    let m : length (payload ++ padding payload) ≡ length payload + (60 - (14 + length payload)) =
      length-append payload (padding payload)
      ∙ ap (λ k. length payload + k) (length-replicate (60 - (14 + length payload)) 0) in
    (ap eth_receive_frame w.0 ∙ r.0, omega arith, omega arith)

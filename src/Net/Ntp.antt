-- ===== src/Net/Ntp.antt =====
-- net/ntp.c: the answer of a time server, and the request.
use ephemeral_os.Base.{
  ℕ, ◌+◌, ◌-◌, ◌*◌, ◌%◌, ◌≤◌, ◌<◌, ◌≡◌, ◌≢◌, not, ◌∷◌, ◌++◌, arith, Bytes, u32, ltb, ◌==◌,
  if◌then◌else◌, length, get_or, replicate,
}
use ephemeral_os.Net.Order.{htonl, ntohl, load32, store32}

-- `synced_timestamp` and `sync_complete`
pub record Sync : Type 0 where
  pub synced_timestamp : ℕ
  pub sync_complete : ℕ

abbrev pub ntp_timestamp_delta : ℕ
ntp_timestamp_delta = 2208988800

unfoldable pub ntp_response_handler : Sync → Bytes → Sync
ntp_response_handler s packet =
    let trans_sec = ntohl (load32 packet 40) in
    if ltb (length packet) 48
    then s
    else if not (get_or packet 0 0 % 8 == 4)
    then s
    else if ltb ntp_timestamp_delta trans_sec
    then record { synced_timestamp = trans_sec - ntp_timestamp_delta; sync_complete = 1 }
    else s

-- The request: version 4, mode 3, and the local time as the server counts it.
unfoldable pub ntp_request : ℕ → Bytes
ntp_request local_time =
    (4 * 8 + 3) ∷ replicate 39 0
    ++ store32 (htonl (u32 (local_time + ntp_timestamp_delta)))
    ++ replicate 4 0

-- The answer of a server in mode 4 whose transmit time is later than 1970 sets the time since 1970,
-- and one in another mode changes nothing.
pub ntp_response_handler_lem :
    (s : Sync) (packet : Bytes)
    → 48 ≤ length packet
    → (get_or packet 0 0 % 8 ≡ 4
        → ntp_timestamp_delta < ntohl (load32 packet 40)
        → ((ntp_response_handler s packet).synced_timestamp + ntp_timestamp_delta
            ≡ ntohl (load32 packet 40))
          × ((ntp_response_handler s packet).sync_complete ≡ 1))
      × (get_or packet 0 0 % 8 ≢ 4 → ntp_response_handler s packet ≡ s)
unfolding ntp_response_handler
ntp_response_handler_lem s packet h = (λ m d. ground arith, λ m. ground arith)

-- ===== src/Bin/Ping.antt =====
-- bin/ping.c: what `ping` shows of what the network answers.
use ephemeral_os.Base.{
  Option, ℕ, zero, suc, ◌+◌, ◌-◌, not, none, some, List, [], ◌∷◌, Bytes, codes, ltb, ◌==◌,
  if◌then◌else◌, length,
}
use ephemeral_os.Shell.Session.{Session, print}
use ephemeral_os.Bin.World.{World}
use ephemeral_os.Bin.Numbers.{print_ip}
use ephemeral_os.Bin.Files.{arg}

-- The loop over the requests, from sequence number `i + 1` on: what is printed, and `received`.
unfoldable pub ping_from : World → ℕ → ℕ → ℕ → List Bytes × ℕ
ping_from w ip i zero = ([], 0)
ping_from w ip i (suc n) =
    let r = ping_from w ip (i + 1) n in
    if w.replies (i + 1)
    then (codes "Reply from " ∷ print_ip ip ∷ codes ": bytes=64 time<1ms TTL=64\n" ∷ r.0, r.1 + 1)
    else (codes "Request timed out.\n" ∷ r.0, r.1)

unfoldable pub statistics : ℕ → ℕ → List Bytes
statistics ip received =
    codes "\nPing statistics for "
    ∷ print_ip ip
    ∷ codes ":\n"
    ∷ codes "    Packets: Sent = "
    ∷ ((b'0' + 4) ∷ [])
    ∷ codes ", Received = "
    ∷ ((b'0' + received) ∷ [])
    ∷ codes ", Lost = "
    ∷ ((b'0' + (4 - received)) ∷ [])
    ∷ codes "\n"
    ∷ []

-- Behind the answer of `dns_resolve`.
unfoldable pub ping_resolved : World → Bytes → Session → Option ℕ → Session
ping_resolved w host s none =
    print
      (codes "PING " ∷ host ∷ codes "\n" ∷ codes "ping: cannot resolve " ∷ host ∷ codes "\n" ∷ []) s
ping_resolved w host s (some ip) =
    let r = ping_from w ip 0 4 in
    print (statistics ip r.1) (
      print r.0 (
        print
          (codes "PING "
            ∷ host
            ∷ codes "\n"
            ∷ codes "Pinging "
            ∷ print_ip ip
            ∷ codes " with 64 bytes of data:\n\n"
            ∷ [])
          s))

unfoldable pub cmd_ping : World → List Bytes → Session → Session
cmd_ping w argv s =
    if ltb (length argv) 2
    then print (codes "Usage: ping <hostname or IP>\n" ∷ []) s
    else if not w.ready
    then print (codes "ping: network not initialized\n" ∷ []) s
    else if w.ip == 0
    then print (codes "ping: no IP address configured\n" ∷ []) s
    else ping_resolved w (arg argv 1) s (w.resolve (arg argv 1))

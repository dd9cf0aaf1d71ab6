-- ===== src/Net/Order.antt =====
-- The byte order helpers that each file of net/ has for itself (net/ip.c), and the fields of a packet
-- in memory. The processor stores the low byte first. Masks and shifts of disjoint fields are written
-- as `%`, `/`, `*` and `+`.
use ephemeral_os.Base.{ℕ, ◌+◌, ◌*◌, ◌/◌, ◌%◌, ◌<◌, ◌≡◌, [], ◌∷◌, arith, Bytes, get_or}

-- `((n & 0xFF) << 8) | ((n & 0xFF00) >> 8)`
unfoldable pub htons : ℕ → ℕ
htons n = n % 256 * 256 + n / 256 % 256

abbrev pub ntohs : ℕ → ℕ
ntohs n = htons n

unfoldable pub htonl : ℕ → ℕ
htonl n = n % 256 * 16777216 + n / 256 % 256 * 65536 + n / 65536 % 256 * 256 + n / 16777216 % 256

abbrev pub ntohl : ℕ → ℕ
ntohl n = htonl n

-- A `uint16_t` and a `uint32_t` as the processor stores and loads them.
abbrev pub store16 : ℕ → Bytes
store16 n = n % 256 ∷ (n / 256 % 256) ∷ []

abbrev pub store32 : ℕ → Bytes
store32 n = n % 256 ∷ (n / 256 % 256) ∷ (n / 65536 % 256) ∷ (n / 16777216 % 256) ∷ []

abbrev pub load16 : Bytes → ℕ → ℕ
load16 bs i = get_or bs i 0 + 256 * get_or bs (i + 1) 0

abbrev pub load32 : Bytes → ℕ → ℕ
load32 bs i =
    get_or bs i 0
    + 256 * get_or bs (i + 1) 0
    + 65536 * get_or bs (i + 2) 0
    + 16777216 * get_or bs (i + 3) 0

-- `ntohs` undoes `htons` on every 16-bit number, and `ntohl` undoes `htonl` on every 32-bit one.
pub ntohs-htons : (n : ℕ) → n < 65536 → ntohs (htons n) ≡ n
unfolding htons
ntohs-htons n h = omega arith

pub ntohl-htonl : (n : ℕ) → n < 4294967296 → ntohl (htonl n) ≡ n
unfolding htonl
ntohl-htonl n h = omega arith

-- For a number of 32 bits, `htons` of its low 16 bits and `htonl` of it, stored, lie in memory with
-- the high byte first.
pub store-network_order :
    (n : ℕ)
    → n < 4294967296
    → (store16 (htons (n % 65536)) ≡ (n / 256 % 256) ∷ n % 256 ∷ [])
      × (store32 (htonl n) ≡ (n / 16777216) ∷ (n / 65536 % 256) ∷ (n / 256 % 256) ∷ n % 256 ∷ [])
unfolding htons htonl
store-network_order n h = ground arith

pub htons-lt : (n : ℕ) → htons n < 65536
unfolding htons
htons-lt n = omega arith

pub htonl-lt : (n : ℕ) → htonl n < 4294967296
unfolding htonl
htonl-lt n = omega arith

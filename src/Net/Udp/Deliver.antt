-- ===== src/Net/Udp/Deliver.antt =====
-- net/udp.c: which handler a packet reaches, and with what.
use ephemeral_os.Base.{
  subst, sym, append-nil, Bool-cases, inl, inr, ◌⊎◌, ◌↔◌, Option, take_all, none, suc, ℕ, ◌+◌, ◌-◌,
  ◌*◌, ◌/◌, ◌%◌, ◌≤◌, ◌<◌, ◌≡◌, refl, ap, ◌∙◌, ◌≢◌, false, ◌||◌, some, List, [], ◌∷◌, ◌++◌, arith,
  Bytes, All, ltb, ◌==◌, if◌then◌else◌, length, take, length-append, take-append,
}
use ephemeral_os.Net.Order.{ntohs, store16, htons, ntohs-htons, htons-lt}
use ephemeral_os.Net.Udp.{Call, Handler, udp_register_handler, udp_send, dispatch, udp_receive}

load-htons : (n : ℕ) → htons n % 256 + 256 * (htons n / 256 % 256) ≡ htons n
load-htons n = omega (arith, htons-lt n)

abbrev wire : ℕ → ℕ → Bytes → Bytes
wire src_port dest_port payload =
    store16 (htons src_port)
    ++ (store16 (htons dest_port)
        ++ (store16 (htons (8 + length payload)) ++ (store16 0 ++ payload)))

-- A payload whose length does not wrap is sent whole.
udp_send_whole :
    (src_port dest_port : ℕ) (payload : Bytes)
    → length payload < 65528
    → udp_send src_port dest_port payload
      ≡ (if ltb 1500 (8 + length payload) then none else some (wire src_port dest_port payload))
unfolding udp_send
udp_send_whole src_port dest_port payload l =
    let e : (8 + length payload) % 65536 ≡ 8 + length payload = omega arith in
    rw e (
      ap (λ p. if ltb 1500 (8 + length payload) then none else some p)
        (take_all (8 + length payload) (wire src_port dest_port payload) (omega arith)))

udp_send-cases :
    (src_port dest_port : ℕ) (payload : Bytes) {packet : Bytes}
    → length payload < 65528
    → udp_send src_port dest_port payload ≡ some packet
    → (packet ≡ wire src_port dest_port payload) × (length payload ≤ 1492)
udp_send-cases src_port dest_port payload l e =
    ground (arith, udp_send_whole src_port dest_port payload l)

read16 : (n : ℕ) → n < 65536 → ntohs (htons n % 256 + 256 * (htons n / 256 % 256)) ≡ n
read16 n h = ap ntohs (load-htons n) ∙ ntohs-htons n h

udp_receive-wire :
    (handlers : List Handler) (src_ip src_port dest_port : ℕ) (payload rest : Bytes)
    → src_port < 65536
    → dest_port < 65536
    → length payload ≤ 1492
    → udp_receive handlers src_ip (wire src_port dest_port payload ++ rest)
      ≡ dispatch handlers dest_port src_ip src_port payload
unfolding udp_receive
udp_receive-wire handlers src_ip src_port dest_port payload rest hs hd l = rw (
  long,
  read16 src_port hs,
  read16 dest_port hd,
  read16 (8 + length payload) (omega arith),
  fits,
  ap (λ n. take n (payload ++ rest)) whole,
  take-append payload rest,
)
  where
    long : ltb (suc (suc (suc (suc (suc (suc (suc (suc (length (payload ++ rest)))))))))) 8 ≡ false
    long = ground arith

    fits :
        (ltb
            (suc (suc (suc (suc (suc (suc (suc (suc (length (payload ++ rest))))))))))
            (8 + length payload)
          || ltb (8 + length payload) 8)
        ≡ false
    fits = ground (arith, length-append payload rest)

    whole : 8 + length payload - 8 ≡ length payload
    whole = omega arith

-- A place of the table that does not get the packets for a port: it is for another one, or its callback
-- is null.
abbrev pub Passes : ℕ → Handler → Type 0
Passes port h = (h.port ≢ port) ⊎ (h.callback ≡ 0)

-- Who gets the packets for a port: nobody, or the callback of the first place that is for it and has
-- one.
pub data Serves (port : ℕ) (handlers : List Handler) : Option ℕ → Type 0 where
  nobody : All (Passes port) handlers → Serves port handlers none
  first :
      (before : List Handler) (h : Handler) (after : List Handler)
      → handlers ≡ before ++ h ∷ after
      → All (Passes port) before
      → h.port ≡ port
      → h.callback ≢ 0
      → Serves port handlers (some h.callback)

module _ (port src_ip src_port : ℕ) (payload : Bytes) where
  -- The call of who is served.
  abbrev call_of : Option ℕ → Option Call
  call_of none = none
  call_of (some callback) =
      some (record { callback = callback; src_ip = src_ip; src_port = src_port; payload = payload })

  call_of-injective : (o o' : Option ℕ) → call_of o ≡ call_of o' → o ≡ o'
  call_of-injective none none e = refl
  call_of-injective none (some c) e = cc
  call_of-injective (some c) none e = cc
  call_of-injective (some c) (some c') e =
      ap (λ o. elim o as (λ _. Option ℕ) [ none ↦ none | some call ↦ some (call.callback) ]) e

  dispatch-passed :
      (h : Handler) (hs : List Handler)
      → Passes port h
      → dispatch (h ∷ hs) port src_ip src_port payload ≡ dispatch hs port src_ip src_port payload
  unfolding dispatch
  dispatch-passed h hs p = ground arith

  dispatch-first :
      (h : Handler) (hs : List Handler)
      → h.port ≡ port
      → h.callback ≢ 0
      → dispatch (h ∷ hs) port src_ip src_port payload ≡ call_of (some h.callback)
  unfolding dispatch
  dispatch-first h hs e n = ground arith

  dispatch-past :
      (before hs : List Handler)
      → All (Passes port) before
      → dispatch (before ++ hs) port src_ip src_port payload
        ≡ dispatch hs port src_ip src_port payload
  dispatch-past [] hs q = refl
  dispatch-past (h ∷ before) hs (p, q) =
      dispatch-passed h (before ++ hs) p ∙ dispatch-past before hs q

  dispatch-empty : dispatch [] port src_ip src_port payload ≡ none
  unfolding dispatch
  dispatch-empty = refl

  dispatch-Serves :
      (handlers : List Handler) (served : Option ℕ)
      → Serves port handlers served
      → dispatch handlers port src_ip src_port payload ≡ call_of served
  dispatch-Serves handlers served (nobody q) =
      ap (λ hs. dispatch hs port src_ip src_port payload) (sym (append-nil handlers))
      ∙ dispatch-past handlers [] q
      ∙ dispatch-empty
  dispatch-Serves handlers served (first before h after e q p n) =
      ap (λ hs. dispatch hs port src_ip src_port payload) e
      ∙ dispatch-past before (h ∷ after) q
      ∙ dispatch-first h after p n

Serves-behind :
    {port : ℕ} {h : Handler} {hs : List Handler} {served : Option ℕ}
    → Passes port h
    → Serves port hs served
    → Serves port (h ∷ hs) served
Serves-behind p (nobody q) = nobody (p, q)
Serves-behind {h = h} p (first before g after e q i n) =
    first (h ∷ before) g after (ap (λ t. h ∷ t) e) (p, q) i n

Serves-total :
    (port : ℕ) (handlers : List Handler) → (served : Option ℕ) × Serves port handlers served
Serves-total port [] = (none, nobody tt)
Serves-total port (h ∷ hs) =
    let (served, rest) = Serves-total port hs in
    elim (Bool-cases (h.port == port)) [
      | inr z ↦ (served, Serves-behind (inl (λ e. ground arith)) rest)
      | inl y ↦ elim (Bool-cases (h.callback == 0)) [
        | inl v ↦ (served, Serves-behind (inr (ground arith)) rest)
        | inr v ↦ (some h.callback, first [] h hs refl tt (ground arith) (λ e. ground arith))
      ]
    ]

-- A packet that `udp_send` makes of 16-bit ports and a payload of less than 65528 bytes: whatever
-- follows it in the buffer, `udp_receive` calls a handler with the sender's address, the source port
-- and the whole payload exactly when the first place of the table that is for the destination port and
-- whose callback is not null has that callback, and calls nobody exactly when there is no such place.
pub udp_receive-udp_send :
    (handlers : List Handler) (src_ip src_port dest_port : ℕ) (payload rest : Bytes)
    (served : Option ℕ) {packet : Bytes}
    → src_port < 65536
    → dest_port < 65536
    → length payload < 65528
    → udp_send src_port dest_port payload ≡ some packet
    → Serves dest_port handlers served ↔ (
        udp_receive handlers src_ip (packet ++ rest) ≡ elim served [
          | none ↦ none
          | some callback ↦ some (record {
            callback = callback;
            src_ip = src_ip;
            src_port = src_port;
            payload = payload;
          })
        ])
udp_receive-udp_send handlers src_ip src_port dest_port payload rest served {packet} hs hd l e = (
  λ s.
      received
      ∙ dispatch-Serves dest_port src_ip src_port payload handlers served s
      ∙ called served,
  λ r.
      let (other, s) = Serves-total dest_port handlers in
      subst (Serves dest_port handlers)
        (call_of-injective dest_port src_ip src_port payload other served (
          sym (dispatch-Serves dest_port src_ip src_port payload handlers other s)
          ∙ sym received
          ∙ r
          ∙ sym (called served)))
        s,
)
  where
    received :
        udp_receive handlers src_ip (packet ++ rest)
        ≡ dispatch handlers dest_port src_ip src_port payload
    received =
        let w = udp_send-cases src_port dest_port payload l e in
        ap (λ p. udp_receive handlers src_ip (p ++ rest)) w.0
        ∙ udp_receive-wire handlers src_ip src_port dest_port payload rest hs hd w.1

    called :
        (o : Option ℕ)
        → call_of dest_port src_ip src_port payload o ≡ elim o [
          | none ↦ none
          | some callback ↦ some (record {
            callback = callback;
            src_ip = src_ip;
            src_port = src_port;
            payload = payload;
          })
        ]
    called none = refl
    called (some callback) = refl

abbrev pub IsFree : ℕ → List Handler → Type 0
IsFree port = All (λ h. (h.port == port) ≡ false)

-- A callback, not null, that is registered for a port other than 0 which no place of the table has,
-- in a table that the call changes, gets the packets for the port; those for every other port but 0
-- go where they went before.
pub dispatch-udp_register_handler :
    (handlers : List Handler) (port callback other src_ip src_port : ℕ) (payload : Bytes)
    → port ≢ 0
    → callback ≢ 0
    → other ≢ 0
    → IsFree port handlers
    → (udp_register_handler handlers port callback ≢ handlers)
    → dispatch (udp_register_handler handlers port callback) other src_ip src_port payload ≡ (
        if port == other
        then some (record {
          callback = callback;
          src_ip = src_ip;
          src_port = src_port;
          payload = payload;
        })
        else dispatch handlers other src_ip src_port payload)
unfolding dispatch udp_register_handler
dispatch-udp_register_handler [] port callback other src_ip src_port payload p c o f g =
    absurd (g refl)
dispatch-udp_register_handler (h ∷ hs) port callback other src_ip src_port payload p c o f g =
    ground (
      arith,
      dispatch-udp_register_handler hs port callback other src_ip src_port payload p c o f.1,
    )

-- ===== src/Net/Ip/Checksum.antt =====
-- net/ip.c: what a checksum is good for.
use ephemeral_os.Base.{
  ◌≢◌, ◌↔◌, ℕ, ◌+◌, ◌-◌, ◌*◌, ◌/◌, ◌≤◌, ◌<◌, ◌≡◌, refl, sym, ap, ◌∙◌, ◌⊎◌, inl, inr, true, arith,
  Bytes, ◌==◌, Bool-cases,
}
use ephemeral_os.Net.Order.{htons-lt, htons}
use ephemeral_os.Net.Ip.{header, fold_carry, word_sum, carries, ip_checksum}

fold_carry-small : (sum : ℕ) → (sum / 65536 == 0) ≡ true → fold_carry sum ≡ sum
fold_carry-small sum h = ground arith

carries-fold_carry : (sum : ℕ) → sum < 4294967296 → carries 2 sum ≡ fold_carry (fold_carry sum)
unfolding carries
carries-fold_carry sum h = elim (Bool-cases (sum / 65536 == 0)) [
  | inl y ↦ rw y (sym (ap fold_carry (fold_carry-small sum y) ∙ fold_carry-small sum y))
  | inr n ↦ rw n (elim (Bool-cases (fold_carry sum / 65536 == 0)) [
    | inl y ↦ rw y (sym (fold_carry-small (fold_carry sum) y))
    | inr z ↦ rw z refl
  ])
]

-- The remainder by 65535, except that it is 65535 in place of 0 for a sum that is not 0.
carries_lem :
    (sum : ℕ)
    → sum < 4294967296
    → (carries 2 sum ≤ 65535)
      × (sum ≡ 65535 * (sum / 65536 + fold_carry sum / 65536) + carries 2 sum)
      × (carries 2 sum ≡ 0 → sum ≡ 0)
carries_lem sum h = let e = carries-fold_carry sum h in (omega arith, omega arith, λ z. omega arith)

complement :
    (sum r q t p : ℕ)
    → r ≤ 65535
    → sum ≡ 65535 * q + r
    → t ≤ 65535
    → sum + (65535 - r) ≡ 65535 * p + t
    → (t ≡ 0 → sum + (65535 - r) ≡ 0)
    → t ≡ 65535
complement sum r q t p h e k d z = ground arith

unique :
    (sum r q c p : ℕ)
    → r ≤ 65535
    → sum ≡ 65535 * q + r
    → sum + c ≡ 65535 * p + 65535
    → c < 65536
    → (c ≡ 65535 - r) ⊎ (c ≡ 65535 × r ≡ 65535) ⊎ (r ≡ 0)
unique sum r q c p h e d k = ground arith

-- A word that makes the carried sum 65535.
carries-complement :
    (sum : ℕ) → sum < 4294901760 → carries 2 (sum + (65535 - carries 2 sum)) ≡ 65535
carries-complement sum h =
    let a = carries_lem sum (omega arith) in
    let b = carries_lem (sum + (65535 - carries 2 sum)) (omega arith) in
    complement sum (carries 2 sum) _ (carries 2 (sum + (65535 - carries 2 sum))) _ a.0 a.1 b.0 b.1
      b.2

carries_unique :
    (sum c : ℕ)
    → sum < 4294901760
    → c < 65536
    → carries 2 (sum + c) ≡ 65535
    → (c ≡ 65535 - carries 2 sum) ⊎ (c ≡ 65535 × carries 2 sum ≡ 65535) ⊎ (carries 2 sum ≡ 0)
carries_unique sum c h k e =
    let a = carries_lem sum (omega arith) in
    let b = carries_lem (sum + c) (omega arith) in
    unique sum (carries 2 sum) _ c _ a.0 a.1
      (b.1 ∙ ap (λ t. 65535 * ((sum + c) / 65536 + fold_carry (sum + c) / 65536) + t) e) k

word_sum-header :
    (total_length ident protocol checksum src_ip dest_ip : ℕ)
    → checksum < 65536
    → word_sum (header total_length ident protocol checksum src_ip dest_ip)
      ≡ word_sum (header total_length ident protocol 0 src_ip dest_ip) + checksum
unfolding word_sum
word_sum-header total_length ident protocol checksum src_ip dest_ip h = omega arith

word_sum-bounds :
    (total_length ident protocol src_ip dest_ip : ℕ)
    → protocol < 256
    → (0 < word_sum (header total_length ident protocol 0 src_ip dest_ip))
      × (word_sum (header total_length ident protocol 0 src_ip dest_ip) < 4294901760)
unfolding word_sum
word_sum-bounds total_length ident protocol src_ip dest_ip h = (omega arith, omega arith)

ip_checksum-word :
    (bs cs : Bytes) (c : ℕ)
    → c < 65536
    → 0 < word_sum bs
    → word_sum bs < 4294901760
    → word_sum cs ≡ word_sum bs + c
    → (c ≡ ip_checksum bs → ip_checksum cs ≡ 0)
      × (ip_checksum cs ≡ 0 → (c ≡ ip_checksum bs) ⊎ (c ≡ 65535 × ip_checksum bs ≡ 0))
unfolding ip_checksum
ip_checksum-word bs cs c k p h e =
    let a = carries_lem (word_sum bs) (omega arith) in
    let b = carries_lem (word_sum cs) (omega arith) in
    (
      λ y.
          ap (λ t. 65535 - t)
            (ap (carries 2) (e ∙ ap (λ t. word_sum bs + t) y) ∙ carries-complement (word_sum bs) h),
      λ z. elim (carries_unique (word_sum bs) c h k (ap (carries 2) (sym e) ∙ (omega arith))) [
        | inl x ↦ inl x
        | inr (inl x) ↦ inr (x.0, omega arith)
        | inr (inr x) ↦ absurd (omega arith)
      ],
    )

ip_checksum-lt : (bs : Bytes) → ip_checksum bs < 65536
unfolding ip_checksum
ip_checksum-lt bs = omega arith

htons-zero : (c : ℕ) → c ≡ 0 → htons c ≢ 65535
unfolding htons
htons-zero c z = omega arith

-- For a header with an 8-bit protocol and `c` the checksum of it with a checksum field of 0: with `c`
-- stored in the field as a `uint16_t` of the processor, the checksum of the header is 0, which is what
-- a receiver asks for; with `htons(c)` stored, as `ip_send` has it, it is 0 exactly if the two bytes
-- of `c` are the same.
pub ip_checksum-header :
    (total_length ident protocol src_ip dest_ip c : ℕ)
    → protocol < 256
    → c ≡ ip_checksum (header total_length ident protocol 0 src_ip dest_ip)
    → (ip_checksum (header total_length ident protocol c src_ip dest_ip) ≡ 0)
      × ((ip_checksum (header total_length ident protocol (htons c) src_ip dest_ip) ≡ 0)
          ↔ (htons c ≡ c))
ip_checksum-header total_length ident protocol src_ip dest_ip c p e =
    let h = word_sum-bounds total_length ident protocol src_ip dest_ip p in
    let k : c < 65536 =
      rw e (ip_checksum-lt (header total_length ident protocol 0 src_ip dest_ip)) in
    let own =
      ip_checksum-word (header total_length ident protocol 0 src_ip dest_ip)
        (header total_length ident protocol c src_ip dest_ip) c k h.0 h.1
        (word_sum-header total_length ident protocol c src_ip dest_ip k) in
    let swapped =
      ip_checksum-word (header total_length ident protocol 0 src_ip dest_ip)
        (header total_length ident protocol (htons c) src_ip dest_ip) (htons c) (htons-lt c) h.0 h.1
        (word_sum-header total_length ident protocol (htons c) src_ip dest_ip (htons-lt c)) in
    (
      own.0 e,
      (
        λ z. elim (swapped.1 z) [ inl x ↦ x ∙ sym e | inr x ↦ absurd (htons-zero c (e ∙ x.1) x.0) ],
        λ y. swapped.0 (y ∙ e),
      ),
    )

-- ===== src/Net/Arp/Cache.antt =====
-- net/arp.c: `arp_add_entry` and `arp_resolve` as a map from addresses to hardware addresses.
use ephemeral_os.Base.{
  subst, ℕ, zero, suc, ◌+◌, ◌<◌, ◌≡◌, refl, sym, ap, ◌≢◌, inl, inr, Bool, true, false, none, some,
  List, [], ◌∷◌, arith, Bytes, ltb, ◌==◌, if◌then◌else◌, Bool-cases, length, get_or, set,
}
use ephemeral_os.Net.Arp.{
  ArpEntry, Arp, is_for, slot_from, slot, refreshed, zero_arp_entry, arp_add_entry, resolve_in,
  arp_resolve,
}

refreshed-is_for :
    (a : Arp) (ip : ℕ) (mac : Bytes) (e : ArpEntry)
    → (is_for (refreshed a ip mac e) ip ≡ true) × ((refreshed a ip mac e).mac ≡ mac)
refreshed-is_for a ip mac e = elim (Bool-cases (is_for e ip)) [
  | inl y ↦ rw y (y, refl)
  | inr n ↦ rw n (ground arith, refl)
]

abbrev write : Arp → ℕ → Bytes → List ArpEntry → ℕ → List ArpEntry
write a ip mac es j = set es j (refreshed a ip mac (get_or es j zero_arp_entry))

-- What the loop over the entries `es` from index `i` on comes to.
data Picked (a : Arp) (ip : ℕ) (mac : Bytes) (oldest i : ℕ) (es : List ArpEntry) (s : ℕ)
    : Type 0 where
  inside :
      (j : ℕ)
      → s ≡ i + j
      → resolve_in (write a ip mac es j) ip ≡ some mac
      → Picked a ip mac oldest i es s
  before : s ≡ oldest → resolve_in es ip ≡ none → Picked a ip mac oldest i es s

module _ (a : Arp) (ip : ℕ) (mac : Bytes) where
  resolve-head :
      (e : ArpEntry) (es : List ArpEntry) → resolve_in (write a ip mac (e ∷ es) 0) ip ≡ some mac
  unfolding resolve_in
  resolve-head e es = rw (refreshed-is_for a ip mac e).0 (ap some (refreshed-is_for a ip mac e).1)

  Picked-cons :
      (e : ArpEntry) (es : List ArpEntry) (older : Bool) (oldest i s : ℕ)
      → is_for e ip ≡ false
      → Picked a ip mac (if older then i else oldest) (i + 1) es s
      → Picked a ip mac oldest i (e ∷ es) s
  unfolding resolve_in
  Picked-cons e es older oldest i s n (inside j p q) = inside (suc j) (omega arith) (rw n q)
  Picked-cons e es true oldest i s n (before p q) = inside 0 (omega arith) (resolve-head e es)
  Picked-cons e es false oldest i s n (before p q) = before p (rw n q)

  slot_from-Picked :
      (es : List ArpEntry) (oldest time i : ℕ)
      → Picked a ip mac oldest i es (slot_from ip oldest time i es)
  unfolding slot_from
  slot_from-Picked [] oldest time i = before refl resolve-nil
    where
      resolve-nil : resolve_in [] ip ≡ none
      resolve-nil = unfold resolve_in in refl
  slot_from-Picked (e ∷ es) oldest time i =
      let older : Bool = ltb e.timestamp time in
      let here : Picked a ip mac oldest i (e ∷ es) i = inside 0 (omega arith) (resolve-head e es) in
      let rest : ℕ =
        slot_from ip (if older then i else oldest) (if older then e.timestamp else time) (i + 1)
          es in
      choose (is_for e ip) i (if e.valid == 0 then i else rest) (λ y. here)
        (λ n.
          choose (e.valid == 0) i rest (λ y. here)
            (λ m. Picked-cons e es older oldest i rest n (
              slot_from-Picked es (if older then i else oldest)
                (if older then e.timestamp else time) (i + 1))))
    where
      choose :
          (b : Bool) (x y : ℕ)
          → (b ≡ true → Picked a ip mac oldest i (e ∷ es) x)
          → (b ≡ false → Picked a ip mac oldest i (e ∷ es) y)
          → Picked a ip mac oldest i (e ∷ es) (if b then x else y)
      choose true x y h k = h refl
      choose false x y h k = k refl

  -- In a cache with an entry at all, an address that has just been added resolves to the hardware
  -- address that it was added with, whatever the cache held before.
  pub arp_resolve-arp_add_entry :
      0 < length a.cache → arp_resolve (arp_add_entry a ip mac) ip ≡ some mac
  unfolding arp_resolve arp_add_entry slot
  arp_resolve-arp_add_entry h = go a.cache h (slot_from-Picked a.cache 0 0xffff_ffff 0)
    where
      same : {s j : ℕ} → s ≡ 0 + j → j ≡ s
      same p = omega arith

      go :
          (es : List ArpEntry)
          → 0 < length es
          → {s : ℕ} → Picked a ip mac 0 0 es s
          → resolve_in (write a ip mac es s) ip ≡ some mac
      go es l {s} (inside j p q) =
          subst (λ k. resolve_in (write a ip mac es k) ip ≡ some mac) (same p) q
      go [] l (before p q) = absurd (omega arith)
      go (e ∷ es) l {s} (before p q) =
          subst (λ k. resolve_in (write a ip mac (e ∷ es) k) ip ≡ some mac) (sym p)
            (resolve-head e es)

resolve_in-set :
    (es : List ArpEntry) (i ip : ℕ) (e : ArpEntry)
    → is_for (get_or es i zero_arp_entry) ip ≡ false
    → is_for e ip ≡ false
    → resolve_in (set es i e) ip ≡ resolve_in es ip
unfolding resolve_in
resolve_in-set [] i ip e h k = refl
resolve_in-set (x ∷ es) zero ip e h k = ground arith
resolve_in-set (x ∷ es) (suc i) ip e h k = ground (arith, resolve_in-set es i ip e)

refreshed-other :
    (a : Arp) (ip other : ℕ) (mac : Bytes) (e : ArpEntry)
    → ip ≢ other
    → is_for e other ≡ false
    → is_for (refreshed a ip mac e) other ≡ false
refreshed-other a ip other mac e ne h = ground arith

-- Adding an address leaves the answer for every other address alone, unless the entry that is
-- overwritten was for that other address.
pub arp_resolve-other :
    (a : Arp) (ip other : ℕ) (mac : Bytes)
    → ip ≢ other
    → is_for (get_or a.cache (slot a ip) zero_arp_entry) other ≡ false
    → arp_resolve (arp_add_entry a ip mac) other ≡ arp_resolve a other
unfolding arp_resolve arp_add_entry
arp_resolve-other a ip other mac ne h =
    resolve_in-set a.cache (slot a ip) other
      (refreshed a ip mac (get_or a.cache (slot a ip) zero_arp_entry)) h
      (refreshed-other a ip other mac (get_or a.cache (slot a ip) zero_arp_entry) ne h)

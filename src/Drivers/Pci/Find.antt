-- ===== src/Drivers/Pci/Find.antt =====
-- drivers/pci.c: what a search of the bus finds.
use ephemeral_os.Base.{
  ℕ, zero, suc, ◌+◌, ◌≤◌, ◌<◌, ◌≡◌, refl, sym, ap, ◌∙◌, ◌≢◌, inl, inr, true, ◌&&◌, Option, none,
  some, arith, ◌==◌, if◌then◌else◌, ==_refl, ==_false, Bool-cases,
}
use native.Mathlib.Decide.{ℕ_discrete}
use ephemeral_os.Drivers.Pci.{PciDevice, describe, first, probe, pci_scan, pci_find_device}

first-none {ℓ} :
    {A : Type ℓ} (f : ℕ → Option A) (i n k : ℕ)
    → first f i n ≡ none
    → i ≤ k
    → k < i + n
    → f k ≡ none
unfolding first
first-none f i zero k e a b = absurd (omega arith)
first-none {A = A} f i (suc n) k e a b =
    go (f i) refl e (λ h l. first-none f (i + 1) n k h l (omega arith))
  where
    go :
        (o : Option A)
        → f i ≡ o
        → elim o [ none ↦ first f (i + 1) n | some x ↦ some x ] ≡ none
        → (first f (i + 1) n ≡ none → i + 1 ≤ k → f k ≡ none)
        → f k ≡ none
    go none y e r = elim (ℕ_discrete k i) [ yes p ↦ ap f p ∙ y | no q ↦ r e (omega arith) ]
    go (some x) y e r = cc

first-some {ℓ} :
    {A : Type ℓ} (f : ℕ → Option A) (i n : ℕ) {x : A}
    → first f i n ≡ some x
    → (k : ℕ) × (f k ≡ some x)
unfolding first
first-some f i zero e = cc
first-some {A = A} f i (suc n) {x} e = go (f i) refl e (λ h. first-some f (i + 1) n h)
  where
    go :
        (o : Option A)
        → f i ≡ o
        → elim o [ none ↦ first f (i + 1) n | some y ↦ some y ] ≡ some x
        → (first f (i + 1) n ≡ some x → (k : ℕ) × (f k ≡ some x))
        → (k : ℕ) × (f k ≡ some x)
    go none y e r = r e
    go (some z) y e r = (i, y ∙ e)

-- What is taken has the ids.
taken :
    (d : PciDevice) (vendor_id device_id : ℕ) {x : PciDevice}
    → (if d.vendor_id == 0xffff
        then none
        else if d.vendor_id == vendor_id && d.device_id == device_id
        then some d
        else none)
      ≡ some x
    → (x.vendor_id ≡ vendor_id) × (x.device_id ≡ device_id)
taken d vendor_id device_id {x} e = elim (Bool-cases (d.vendor_id == 0xffff)) [
  | inl y ↦ absurd (none_ne (rw y at e))
  | inr n ↦ elim (Bool-cases (d.vendor_id == vendor_id && d.device_id == device_id)) [
    | inr z ↦ absurd (none_ne (rw (n, z) at e))
    | inl z ↦
        let p : d ≡ x = some_injective (rw (n, z) at e) in
        (sym (ap (λ t. t.vendor_id) p) ∙ (ids z).0, sym (ap (λ t. t.device_id) p) ∙ (ids z).1)
  ]
]
  where
    none_ne : {y : PciDevice} → none ≢ some y
    none_ne h = cc

    some_injective : {y z : PciDevice} → some y ≡ some z → y ≡ z
    some_injective h = cc

    ids :
        (d.vendor_id == vendor_id && d.device_id == device_id) ≡ true
        → (d.vendor_id ≡ vendor_id) × (d.device_id ≡ device_id)
    ids h = ground arith

-- A device that answers with ids other than 0xFFFF is taken.
probe-ids :
    (config : ℕ → ℕ) (vendor_id device_id bus device function : ℕ)
    → vendor_id ≢ 0xffff
    → (describe config bus device function).vendor_id ≡ vendor_id
    → (describe config bus device function).device_id ≡ device_id
    → probe config (λ d. d.vendor_id == vendor_id && d.device_id == device_id) bus device function
      ≢ none
unfolding probe
probe-ids config vendor_id device_id bus device function n v w h =
    some_ne (describe config bus device function) (sym made ∙ h)
  where
    some_ne : (y : PciDevice) → some y ≢ none
    some_ne y h = cc

    made :
        probe config (λ d. d.vendor_id == vendor_id && d.device_id == device_id) bus device function
        ≡ some (describe config bus device function)
    made = rw (v, w, ==_refl vendor_id, ==_refl device_id, ==_false vendor_id 0xffff n) refl

abbrev by_ids : (ℕ → ℕ) → ℕ → ℕ → ℕ → ℕ → ℕ → Option PciDevice
by_ids config vendor_id device_id =
    probe config (λ d. d.vendor_id == vendor_id && d.device_id == device_id)

abbrev at_device : (ℕ → ℕ) → ℕ → ℕ → ℕ → ℕ → Option PciDevice
at_device config vendor_id device_id bus device =
    first (by_ids config vendor_id device_id bus device) 0 8

abbrev at_bus : (ℕ → ℕ) → ℕ → ℕ → ℕ → Option PciDevice
at_bus config vendor_id device_id bus = first (at_device config vendor_id device_id bus) 0 32

by_ids-taken :
    (config : ℕ → ℕ) (vendor_id device_id bus device function : ℕ) {x : PciDevice}
    → by_ids config vendor_id device_id bus device function ≡ some x
    → (x.vendor_id ≡ vendor_id) × (x.device_id ≡ device_id)
unfolding probe
by_ids-taken config vendor_id device_id bus device function e =
    taken (describe config bus device function) vendor_id device_id e

-- When a device on the bus has the vendor and the device asked for, and the vendor is not 0xFFFF,
-- `pci_find_device` finds a device with these ids.
pub pci_find_device_complete :
    (config : ℕ → ℕ) (vendor_id device_id bus device function : ℕ)
    → bus < 256
    → device < 32
    → function < 8
    → vendor_id ≢ 0xffff
    → (describe config bus device function).vendor_id ≡ vendor_id
    → (describe config bus device function).device_id ≡ device_id
    → (x : PciDevice) × (pci_find_device config vendor_id device_id ≡ some x)
      × (x.vendor_id ≡ vendor_id)
      × (x.device_id ≡ device_id)
unfolding pci_find_device pci_scan
pci_find_device_complete config vendor_id device_id bus device function hb hd hf n v w =
    go (pci_find_device config vendor_id device_id) refl
  where
    go :
        (o : Option PciDevice)
        → pci_find_device config vendor_id device_id ≡ o
        → (x : PciDevice) × (o ≡ some x) × (x.vendor_id ≡ vendor_id) × (x.device_id ≡ device_id)
    go none e =
        let b =
          first-none (at_bus config vendor_id device_id) 0 256 bus e (omega arith) (omega arith) in
        let d =
          first-none (at_device config vendor_id device_id bus) 0 32 device b (omega arith)
            (omega arith) in
        absurd (
          probe-ids config vendor_id device_id bus device function n v w (
            first-none (by_ids config vendor_id device_id bus device) 0 8 function d (omega arith)
              (omega arith)))
    go (some x) e =
        let b = first-some (at_bus config vendor_id device_id) 0 256 e in
        let d = first-some (at_device config vendor_id device_id b.0) 0 32 b.1 in
        let f = first-some (by_ids config vendor_id device_id b.0 d.0) 0 8 d.1 in
        let t = by_ids-taken config vendor_id device_id b.0 d.0 f.0 f.1 in (x, refl, t.0, t.1)

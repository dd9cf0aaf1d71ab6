-- ===== src/Drivers/Disk/Device.antt =====
-- drivers/disk.c: what a drive that works does at its ports.
use ephemeral_os.Base.{
  zero, ℕ, suc, ◌+◌, ◌^◌, ◌<◌, ◌≡◌, refl, true, false, Bytes, ◌==◌, if◌then◌else◌, length,
}
use ephemeral_os.Drivers.Rtc.{bit}
use ephemeral_os.Drivers.Disk.{Ata, command, wait_bsy_from, wait_drq_from}

module _ {S : Type 0} (a : Ata S) where
  -- Within so many reads of its status, the drive is not busy any more, and then `P` holds.
  pub data Settles (P : S → Type 0) : ℕ → S → Type 0 where
    settled :
        {n : ℕ} {s : S} → bit (a.status s).0 7 ≡ false → P (a.status s).1 → Settles P (suc n) s
    busy :
        {n : ℕ} {s : S}
        → bit (a.status s).0 7 ≡ true
        → Settles P n (a.status s).1
        → Settles P (suc n) s

  -- Within so many reads of its status, without an error, the drive asks for data, and then `P` holds.
  pub data Offers (P : S → Type 0) : ℕ → S → Type 0 where
    offered : {n : ℕ} {s : S} → bit (a.status s).0 3 ≡ true → P (a.status s).1 → Offers P (suc n) s
    pending :
        {n : ℕ} {s : S}
        → bit (a.status s).0 3 ≡ false
        → bit (a.status s).0 0 ≡ false
        → Offers P n (a.status s).1
        → Offers P (suc n) s

  pub wait_bsy-Settles :
      {P : S → Type 0} (n : ℕ) (s : S)
      → Settles P n s
      → ((wait_bsy_from a n s).0 ≡ true) × P (wait_bsy_from a n s).1
  unfolding wait_bsy_from
  wait_bsy-Settles {P} zero s h = elim h [ ]
  wait_bsy-Settles {P} (suc n) s (settled e p) = rw (wait_bsy_from, e) (refl, p)
  wait_bsy-Settles {P} (suc n) s (busy e h) =
      rw (wait_bsy_from, e) (wait_bsy-Settles n (a.status s).1 h)

  pub wait_drq-Offers :
      {P : S → Type 0} (n : ℕ) (s : S)
      → Offers P n s
      → ((wait_drq_from a n s).0 ≡ true) × P (wait_drq_from a n s).1
  unfolding wait_drq_from
  wait_drq-Offers {P} zero s h = elim h [ ]
  wait_drq-Offers {P} (suc n) s (offered e p) = rw (wait_drq_from, e) (refl, p)
  wait_drq-Offers {P} (suc n) s (pending e f h) =
      rw (wait_drq_from, e, f) (wait_drq-Offers n (a.status s).1 h)

-- The protocol of a drive whose sectors are `m`: it is at rest; it has so many sectors to give, or to
-- take, from an address on; and the next one is at the port. No wait takes more than the driver's
-- rounds.
pub record Protocol {S : Type 0} (a : Ata S) : Type 1 where
  pub Idle : (ℕ → Bytes) → S → Type 0
  pub Reading : (ℕ → Bytes) → ℕ → ℕ → S → Type 0
  pub DataIn : (ℕ → Bytes) → ℕ → ℕ → S → Type 0
  pub Writing : (ℕ → Bytes) → ℕ → ℕ → S → Type 0
  pub DataOut : (ℕ → Bytes) → ℕ → ℕ → S → Type 0
  pub idle : (m : ℕ → Bytes) (s : S) → Idle m s → Settles a (Idle m) 10000000 s
  pub read_command :
      (m : ℕ → Bytes) (lba n : ℕ) (s : S)
      → lba < 2 ^ 28
      → 0 < n
      → n < 256
      → Idle m s
      → Reading m lba n (command a 0x20 lba n s)
  pub reading :
      (m : ℕ → Bytes) (lba n : ℕ) (s : S)
      → Reading m lba (suc n) s
      → Settles a (Offers a (DataIn m lba n) 10000000) 10000000 s
  pub data_in :
      (m : ℕ → Bytes) (lba n : ℕ) (s : S)
      → DataIn m lba n s
      → ((a.insw s).0 ≡ m lba) × Reading m (lba + 1) n (a.insw s).1
  pub read_over : (m : ℕ → Bytes) (lba : ℕ) (s : S) → Reading m lba 0 s → Idle m s
  pub write_command :
      (m : ℕ → Bytes) (lba n : ℕ) (s : S)
      → lba < 2 ^ 28
      → 0 < n
      → n < 256
      → Idle m s
      → Writing m lba n (command a 0x30 lba n s)
  pub writing :
      (m : ℕ → Bytes) (lba n : ℕ) (s : S)
      → Writing m lba (suc n) s
      → Settles a (Offers a (DataOut m lba n) 10000000) 10000000 s
  pub data_out :
      (m : ℕ → Bytes) (lba n : ℕ) (s : S) (sector : Bytes)
      → length sector ≡ 512
      → DataOut m lba n s
      → Writing (λ l. if l == lba then sector else m l) (lba + 1) n (a.outsw sector s)
  pub write_over : (m : ℕ → Bytes) (lba : ℕ) (s : S) → Writing m lba 0 s → Idle m s
  pub flushed : (m : ℕ → Bytes) (s : S) → Idle m s → Idle m (a.outb 0x1f7 0xe7 s)

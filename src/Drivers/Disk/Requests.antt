-- ===== src/Drivers/Disk/Requests.antt =====
-- drivers/disk.c: what the two requests come to on a drive that works.
use ephemeral_os.Base.{
  ==_refl, true, false, zero, suc, replicate, length-take, length-drop, take-append-drop, drop,
  take, ◌⊎◌, inl, inr, ◌∙◌, ◌++◌, ◌*◌, ◌^◌, ℕ, ◌+◌, ◌≤◌, ◌<◌, ◌≡◌, refl, Bool, [], ◌∷◌, arith,
  Bytes, ◌==◌, if◌then◌else◌, length,
}
use ephemeral_os.Drivers.Rtc.{bit}
use mathlib.Core.Path.{ap₂}
use ephemeral_os.Drivers.Disk.{
  Ata, wait_bsy_from, ata_wait_bsy, command, wait_data, read_from, disk_read_sectors, write_from,
  flush, disk_write_sectors,
}
use ephemeral_os.Drivers.Disk.Device.{Settles, Offers, wait_bsy-Settles, wait_drq-Offers, Protocol}

-- So many sectors from an address on.
abbrev pub sectors : (ℕ → Bytes) → ℕ → ℕ → Bytes
sectors m lba zero = []
sectors m lba (suc n) = m lba ++ sectors m (lba + 1) n

-- The sectors once a buffer is written from an address on.
abbrev pub store : (ℕ → Bytes) → ℕ → ℕ → Bytes → ℕ → Bytes
store m lba zero buffer = m
store m lba (suc n) buffer =
    store (λ l. if l == lba then take 512 buffer else m l) (lba + 1) n (drop 512 buffer)

outside_suc : (l lba n : ℕ) → (l < lba) ⊎ (lba + suc n ≤ l) → (l < lba + 1) ⊎ (lba + 1 + n ≤ l)
outside_suc l lba n (inl h) = inl (omega arith)
outside_suc l lba n (inr h) = inr (omega arith)

outside_ne : (l lba n : ℕ) → (l < lba) ⊎ (lba + suc n ≤ l) → (l == lba) ≡ false
outside_ne l lba n (inl h) = ground arith
outside_ne l lba n (inr h) = ground arith

store_other :
    (n lba : ℕ) (m : ℕ → Bytes) (buffer : Bytes) (l : ℕ)
    → (l < lba) ⊎ (lba + n ≤ l)
    → store m lba n buffer l ≡ m l
store_other zero lba m buffer l h = refl
store_other (suc n) lba m buffer l h =
    store_other n (lba + 1) _ (drop 512 buffer) l (outside_suc l lba n h)
    ∙ rw (outside_ne l lba n h) refl

sectors-store :
    (n lba : ℕ) (m : ℕ → Bytes) (buffer : Bytes)
    → length buffer ≡ n * 512
    → sectors (store m lba n buffer) lba n ≡ buffer
sectors-store zero lba m [] e = refl
sectors-store zero lba m (c ∷ cs) e = absurd (omega arith)
sectors-store (suc n) lba m buffer e =
    ap₂ ◌++◌
      (store_other n (lba + 1) _ (drop 512 buffer) lba (inl (omega arith)) ∙ rw (==_refl lba) refl)
      (sectors-store n (lba + 1) _ (drop 512 buffer) (omega (arith, length-drop {0} 512 buffer)))
    ∙ take-append-drop 512 buffer

module _ {S : Type 0} (a : Ata S) (p : Protocol a) where
  abbrev Ready : (S → Type 0) → S → Type 0
  Ready P s = Settles a (Offers a P 10000000) 10000000 s

  wait_data-Ready :
      {P : S → Type 0} (s : S) → Ready P s → ((wait_data a s).0 ≡ true) × P (wait_data a s).1
  wait_data-Ready {P} s h =
      let (free, offers) = wait_bsy-Settles a 10000000 s h in
      rw (wait_data, free) (wait_drq-Offers a 10000000 (ata_wait_bsy a s).1 offers)

  read_from_lem :
      (n lba : ℕ) (m : ℕ → Bytes) (s : S)
      → p.Reading m lba n s
      → ((read_from a n s).0 ≡ sectors m lba n) × p.Idle m (read_from a n s).1
  unfolding read_from
  read_from_lem zero lba m s r = (refl, p.read_over m lba s r)
  read_from_lem (suc n) lba m s r =
      let (ready, offered) = wait_data-Ready s (p.reading m lba n s r) in
      let (sector, next) = p.data_in m lba n (wait_data a s).1 offered in
      let (rest, idle) = read_from_lem n (lba + 1) m (a.insw (wait_data a s).1).1 next in
      rw (read_from, ready) (ap₂ ◌++◌ sector rest, idle)

  pub disk_read_sectors_lem :
      (m : ℕ → Bytes) (lba n : ℕ) (s : S)
      → lba < 2 ^ 28
      → 0 < n
      → n < 256
      → p.Idle m s
      → ((disk_read_sectors a lba n s).0 ≡ sectors m lba n)
        × p.Idle m (disk_read_sectors a lba n s).1
  unfolding disk_read_sectors
  disk_read_sectors_lem m lba n s l g k i =
      let (free, idle) = wait_bsy-Settles a 10000000 s (p.idle m s i) in
      rw (disk_read_sectors, free)
        (read_from_lem n lba m (command a 0x20 lba n (ata_wait_bsy a s).1)
          (p.read_command m lba n (ata_wait_bsy a s).1 l g k idle))

  write_from_lem :
      (n lba : ℕ) (m : ℕ → Bytes) (buffer : Bytes) (s : S)
      → length buffer ≡ n * 512
      → p.Writing m lba n s
      → ((write_from a n buffer s).0 ≡ true)
        × p.Idle (store m lba n buffer) (write_from a n buffer s).1
  unfolding write_from
  write_from_lem zero lba m buffer s e w = (refl, p.write_over m lba s w)
  write_from_lem (suc n) lba m buffer s e w =
      let (ready, offered) = wait_data-Ready s (p.writing m lba n s w) in
      let next =
        p.data_out m lba n (wait_data a s).1 (take 512 buffer)
          (omega (arith, length-take {0} 512 buffer)) offered in
      rw (write_from, ready)
        (write_from_lem n (lba + 1) _ (drop 512 buffer)
          (a.outsw (take 512 buffer) (wait_data a s).1) (omega (arith, length-drop {0} 512 buffer))
          next)

  flush-Idle : (m : ℕ → Bytes) (r : Bool × S) → p.Idle m r.1 → p.Idle m (flush a r)
  flush-Idle m (false, s) i = i
  flush-Idle m (true, s) i =
      let (free, idle) = wait_bsy-Settles a 10000000 s (p.idle m s i) in
      rw (flush, free)
        (wait_bsy-Settles a 10000000 _ (p.idle m _ (p.flushed m (ata_wait_bsy a s).1 idle))).1

  pub disk_write_sectors_lem :
      (m : ℕ → Bytes) (lba n : ℕ) (buffer : Bytes) (s : S)
      → lba < 2 ^ 28
      → 0 < n
      → n < 256
      → length buffer ≡ n * 512
      → p.Idle m s
      → p.Idle (store m lba n buffer) (disk_write_sectors a lba n buffer s)
  unfolding disk_write_sectors
  disk_write_sectors_lem m lba n buffer s l g k e i =
      let (free, idle) = wait_bsy-Settles a 10000000 s (p.idle m s i) in
      rw (disk_write_sectors, free)
        (flush-Idle (store m lba n buffer)
          (write_from a n buffer (command a 0x30 lba n (ata_wait_bsy a s).1))
          (write_from_lem n lba m buffer _ e
            (p.write_command m lba n (ata_wait_bsy a s).1 l g k idle)).1)

  -- On a drive at rest that follows the protocol: once `disk_write_sectors` has written whole sectors
  -- at an address of 28 bits, `disk_read_sectors` of the same sectors gives the same bytes, the drive
  -- is at rest again, and every other sector is as it was.
  pub disk_read_sectors-disk_write_sectors :
      (m : ℕ → Bytes) (lba n : ℕ) (buffer : Bytes) (s : S)
      → lba < 2 ^ 28
      → 0 < n
      → n < 256
      → length buffer ≡ n * 512
      → p.Idle m s
      → (m' : ℕ → Bytes) × ((disk_read_sectors a lba n (disk_write_sectors a lba n buffer s)).0
          ≡ buffer)
        × p.Idle m' (disk_read_sectors a lba n (disk_write_sectors a lba n buffer s)).1
        × ((l : ℕ) → (l < lba) ⊎ (lba + n ≤ l) → m' l ≡ m l)
  disk_read_sectors-disk_write_sectors m lba n buffer s l g k e i =
      let written = disk_write_sectors_lem m lba n buffer s l g k e i in
      let (read, idle) =
        disk_read_sectors_lem (store m lba n buffer) lba n (disk_write_sectors a lba n buffer s) l g
          k written in
      (
        store m lba n buffer,
        read ∙ sectors-store n lba m buffer e,
        idle,
        store_other n lba m buffer,
      )

-- A drive that stays busy: nothing is written to its ports, the buffer is filled with 0, and the
-- caller is not told.
module _ {S : Type 0} (a : Ata S) (Stuck : S → Type 0)
    (stuck : (s : S) → Stuck s → (bit (a.status s).0 7 ≡ true) × Stuck (a.status s).1) where
  wait_bsy-Stuck :
      (n : ℕ) (s : S) → Stuck s → ((wait_bsy_from a n s).0 ≡ false) × Stuck (wait_bsy_from a n s).1
  unfolding wait_bsy_from
  wait_bsy-Stuck zero s h = (refl, h)
  wait_bsy-Stuck (suc n) s h =
      let (b, next) = stuck s h in rw (wait_bsy_from, b) (wait_bsy-Stuck n (a.status s).1 next)

  -- While a drive stays busy, whatever it is asked, `disk_read_sectors` fills the buffer with 0, and
  -- `disk_write_sectors` ends too; neither writes to a port, so the drive stays as it is.
  pub disk_requests_stuck :
      (lba n : ℕ) (buffer : Bytes) (s : S)
      → Stuck s
      → ((disk_read_sectors a lba n s).0 ≡ replicate (n * 512) 0)
        × Stuck (disk_read_sectors a lba n s).1
        × Stuck (disk_write_sectors a lba n buffer s)
  unfolding disk_read_sectors disk_write_sectors
  disk_requests_stuck lba n buffer s h =
      let (b, next) = wait_bsy-Stuck 10000000 s h in
      (
        rw (disk_read_sectors, b) refl,
        rw (disk_read_sectors, b) next,
        rw (disk_write_sectors, b) next,
      )

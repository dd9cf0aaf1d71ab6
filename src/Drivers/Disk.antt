-- ===== src/Drivers/Disk.antt =====
-- drivers/disk.c: the requests to the drive. `io_wait` is left out. What the drive does at its ports is
-- a parameter.
pub mod Device
pub mod Requests
use ephemeral_os.Base.{
  ℕ, zero, suc, ◌+◌, ◌*◌, ◌/◌, ◌%◌, Bool, true, false, [], ◌++◌, Bytes, take, drop, replicate,
}
use ephemeral_os.Drivers.Rtc.{bit}

-- The ports of a drive in the state `S`: `inb(0x1F7)`, `outb`, and 256 words from and to port 0x1F0.
pub record Ata (S : Type 0) : Type 0 where
  pub status : S → ℕ × S
  pub outb : ℕ → ℕ → S → S
  pub insw : S → Bytes × S
  pub outsw : Bytes → S → S

-- The rounds of `ata_wait_bsy` and `ata_wait_drq`.
abbrev pub max_rounds : ℕ
max_rounds = 10000000

module _ {S : Type 0} (a : Ata S) where
  unfoldable pub wait_bsy_from : ℕ → S → Bool × S
  wait_bsy_from zero s = (false, s)
  wait_bsy_from (suc n) s =
      let (value, s1) = a.status s in
      elim (bit value 7) [ false ↦ (true, s1) | true ↦ wait_bsy_from n s1 ]

  abbrev pub ata_wait_bsy : S → Bool × S
  ata_wait_bsy s = wait_bsy_from max_rounds s

  unfoldable pub wait_drq_from : ℕ → S → Bool × S
  wait_drq_from zero s = (false, s)
  wait_drq_from (suc n) s =
      let (value, s1) = a.status s in
      elim (bit value 3) [
        | true ↦ (true, s1)
        | false ↦ elim (bit value 0) [ true ↦ (false, s1) | false ↦ wait_drq_from n s1 ]
      ]

  abbrev pub ata_wait_drq : S → Bool × S
  ata_wait_drq s = wait_drq_from max_rounds s

  -- The address, the count and the command, register by register.
  abbrev pub command : ℕ → ℕ → ℕ → S → S
  command kind lba sector_count s = a.outb 0x1f7 kind (
      a.outb 0x1f5 (lba / 65536 % 256) (
        a.outb 0x1f4 (lba / 256 % 256) (
          a.outb 0x1f3 (lba % 256)
            (a.outb 0x1f2 sector_count (a.outb 0x1f6 (0xe0 + lba / 16777216 % 16) s)))))

  -- Both waits, as the loops make them.
  abbrev pub wait_data : S → Bool × S
  wait_data s =
      let (free, s1) = ata_wait_bsy s in elim free [ true ↦ ata_wait_drq s1 | false ↦ (false, s1) ]

  -- The loop of `disk_read_sectors`, with the sectors left; a wait that fails fills the rest with 0.
  unfoldable pub read_from : ℕ → S → Bytes × S
  read_from zero s = ([], s)
  read_from (suc n) s =
      let (ready, s1) = wait_data s in
      elim ready [
        | false ↦ (replicate (suc n * 512) 0, s1)
        | true ↦
            let (sector, s2) = a.insw s1 in let (rest, s3) = read_from n s2 in (sector ++ rest, s3)
      ]

  unfoldable pub disk_read_sectors : ℕ → ℕ → S → Bytes × S
  disk_read_sectors lba sector_count s =
      let (free, s1) = ata_wait_bsy s in
      elim free [
        | false ↦ (replicate (sector_count * 512) 0, s1)
        | true ↦ read_from sector_count (command 0x20 lba sector_count s1)
      ]

  -- The loop of `disk_write_sectors`, with the sectors left: whether it ran to its end.
  unfoldable pub write_from : ℕ → Bytes → S → Bool × S
  write_from zero buffer s = (true, s)
  write_from (suc n) buffer s =
      let (ready, s1) = wait_data s in
      elim ready [
        | false ↦ (false, s1)
        | true ↦ write_from n (drop 512 buffer) (a.outsw (take 512 buffer) s1)
      ]

  -- The command 0xE7, behind the loop.
  abbrev pub flush : Bool × S → S
  flush (false, s) = s
  flush (true, s) =
      let (free, s1) = ata_wait_bsy s in
      elim free [ true ↦ (ata_wait_bsy (a.outb 0x1f7 0xe7 s1)).1 | false ↦ s1 ]

  unfoldable pub disk_write_sectors : ℕ → ℕ → Bytes → S → S
  disk_write_sectors lba sector_count buffer s =
      let (free, s1) = ata_wait_bsy s in
      elim free [
        | false ↦ s1
        | true ↦ flush (write_from sector_count buffer (command 0x30 lba sector_count s1))
      ]

-- ===== src/Examples/Drives.antt =====
-- drivers/disk.c: the theorems on the requests, at a drive that works and at one that is stuck.
use ephemeral_os.Base.{
  ℕ, zero, suc, ◌+◌, ◌*◌, ◌/◌, ◌%◌, ◌^◌, ◌≤◌, ◌<◌, ◌≡◌, refl, ap, ◌∙◌, ◌⊎◌, true, false, [], arith,
  Bytes, ◌==◌, if◌then◌else◌, replicate,
}
use ephemeral_os.Drivers.Rtc.{bit}
use ephemeral_os.Drivers.Disk.{Ata, disk_read_sectors, disk_write_sectors}
use ephemeral_os.Drivers.Disk.Device.{Settles, settled, Offers, offered, Protocol}
use ephemeral_os.Drivers.Disk.Requests.{disk_read_sectors-disk_write_sectors, disk_requests_stuck}

-- At rest, or with one more than so many sectors to give or to take from an address on.
data Mode : Type 0 where
  at_rest : Mode
  giving taking : ℕ → ℕ → Mode

record Model : Type 0 where
  media : ℕ → Bytes
  mode : Mode
  count : ℕ
  low : ℕ
  middle : ℕ
  high : ℕ
  top : ℕ

abbrev start : (ℕ → ℕ → Mode) → ℕ → ℕ → Mode
start f lba zero = at_rest
start f lba (suc n) = f lba n

abbrev address : Model → ℕ
address s = s.low + 256 * s.middle + 65536 * s.high + 16777216 * (s.top % 16)

abbrev obey : ℕ → Model → Model
obey value s =
    if value == 0x20
    then record s { mode = start giving (address s) s.count }
    else if value == 0x30
    then record s { mode = start taking (address s) s.count }
    else s

abbrev set_register : ℕ → ℕ → Model → Model
set_register port value s =
    if port == 0x1f2
    then record s { count = value }
    else if port == 0x1f3
    then record s { low = value }
    else if port == 0x1f4
    then record s { middle = value }
    else if port == 0x1f5
    then record s { high = value }
    else if port == 0x1f6
    then record s { top = value }
    else obey value s

abbrev status_of : Mode → ℕ
status_of at_rest = 0x40
status_of (giving lba n) = 0x48
status_of (taking lba n) = 0x48

abbrev give : Model → Mode → Bytes × Model
give s at_rest = ([], s)
give s (giving lba n) = (s.media lba, record s { mode = start giving (lba + 1) n })
give s (taking lba n) = ([], s)

abbrev take_in : Bytes → Model → Mode → Model
take_in sector s at_rest = s
take_in sector s (giving lba n) = s
take_in sector s (taking lba n) = record s {
  media = λ l. if l == lba then sector else s.media l;
  mode = start taking (lba + 1) n;
}

abbrev drive : Ata Model
drive = record {
  status = λ s. (status_of s.mode, s);
  outb = set_register;
  insw = λ s. give s s.mode;
  outsw = λ sector s. take_in sector s s.mode;
}

address_lem :
    (lba : ℕ)
    → lba < 2 ^ 28
    → lba % 256
        + 256 * (lba / 256 % 256)
        + 65536 * (lba / 65536 % 256)
        + 16777216 * ((0xe0 + lba / 16777216 % 16) % 16)
      ≡ lba
address_lem lba l = omega arith

abbrev In : (ℕ → Bytes) → Mode → Model → Type 0
In m mode s = (s.media ≡ m) × (s.mode ≡ mode)

In-Settles :
    (m : ℕ → Bytes) (mode : Mode) (s : Model)
    → bit (status_of mode) 7 ≡ false
    → In m mode s
    → Settles drive (In m mode) 10000000 s
In-Settles m mode s b (e, f) = settled (rw f b) (e, f)

In-Offers :
    (m : ℕ → Bytes) (mode : Mode) (s : Model)
    → bit (status_of mode) 3 ≡ true
    → In m mode s
    → Offers drive (In m mode) 10000000 s
In-Offers m mode s b (e, f) = offered (rw f b) (e, f)

In-Ready :
    (m : ℕ → Bytes) (mode : Mode) (s : Model)
    → bit (status_of mode) 7 ≡ false
    → bit (status_of mode) 3 ≡ true
    → In m mode s
    → Settles drive (Offers drive (In m mode) 10000000) 10000000 s
In-Ready m mode s b c (e, f) = settled (rw f b) (In-Offers m mode s c (e, f))

abbrev drive_protocol : Protocol drive
drive_protocol = record {
  Idle = λ m s. In m at_rest s;
  Reading = λ m lba n s. In m (start giving lba n) s;
  DataIn = λ m lba n s. In m (giving lba n) s;
  Writing = λ m lba n s. In m (start taking lba n) s;
  DataOut = λ m lba n s. In m (taking lba n) s;
  idle = λ m s i. In-Settles m at_rest s refl i;
  read_command = λ m lba n s l g k i. (i.0, ap (λ x. start giving x n) (address_lem lba l));
  reading = λ m lba n s i. In-Ready m (giving lba n) s refl refl i;
  data_in = λ m lba n s i. (
    ap (λ t. (give s t).0) i.1 ∙ ap (λ f. f lba) i.0,
    (ap (λ t. (give s t).1.media) i.1 ∙ i.0, ap (λ t. (give s t).1.mode) i.1),
  );
  read_over = λ m lba s i. i;
  write_command = λ m lba n s l g k i. (i.0, ap (λ x. start taking x n) (address_lem lba l));
  writing = λ m lba n s i. In-Ready m (taking lba n) s refl refl i;
  data_out = λ m lba n s sector e i. (
    ap (λ t. (take_in sector s t).media) i.1 ∙ ap (λ f l. if l == lba then sector else f l) i.0,
    ap (λ t. (take_in sector s t).mode) i.1,
  );
  write_over = λ m lba s i. i;
  flushed = λ m s i. i;
}

-- At rest, with every sector empty.
abbrev fresh : Model
fresh = record {
  media = λ l. replicate 512 0;
  mode = at_rest;
  count = 0;
  low = 0;
  middle = 0;
  high = 0;
  top = 0;
}

disk_read_sectors-disk_write_sectors_example :
    (m' : ℕ → Bytes) × ((disk_read_sectors drive 300 1
        (disk_write_sectors drive 300 1 (replicate 512 7) fresh)).0
      ≡ replicate 512 7)
    × In m' at_rest
        (disk_read_sectors drive 300 1 (disk_write_sectors drive 300 1 (replicate 512 7) fresh)).1
    × ((l : ℕ) → (l < 300) ⊎ (301 ≤ l) → m' l ≡ replicate 512 0)
disk_read_sectors-disk_write_sectors_example =
    disk_read_sectors-disk_write_sectors drive drive_protocol (fresh.media) 300 1 (replicate 512 7)
      fresh (omega arith) (omega arith) (omega arith) refl (refl, refl)

-- A drive that stays busy, with the number of writes to its ports.
abbrev broken : Ata ℕ
broken = record {
  status = λ s. (0x80, s);
  outb = λ port value s. s + 1;
  insw = λ s. ([], s);
  outsw = λ sector s. s + 1;
}

disk_requests_stuck_example :
    ((disk_read_sectors broken 300 2 0).0 ≡ replicate 1024 0)
    × ((disk_read_sectors broken 300 2 0).1 ≡ 0)
    × (disk_write_sectors broken 300 2 (replicate 1024 7) 0 ≡ 0)
disk_requests_stuck_example =
    disk_requests_stuck broken (λ s. s ≡ 0) (λ s e. (refl, e)) 300 2 (replicate 1024 7) 0 refl

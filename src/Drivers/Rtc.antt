-- ===== src/Drivers/Rtc.antt =====
-- drivers/rtc.c: the clock. The CMOS registers, once `is_updating` has answered no, are a function of
-- their number into bytes.
pub mod Calendar
pub mod Bcd
use ephemeral_os.Base.{
  bit_or, ℕ, zero, suc, ◌+◌, ◌-◌, ◌*◌, ◌/◌, ◌%◌, ◌^◌, Bool, not, ◌&&◌, ◌||◌, List, [], ◌∷◌, u32,
  ◌==◌, if◌then◌else◌, get_or,
}

pub record RtcTime : Type 0 where
  pub second : ℕ
  pub minute : ℕ
  pub hour : ℕ
  pub day : ℕ
  pub month : ℕ
  pub year : ℕ
  pub weekday : ℕ

-- `((bcd >> 4) * 10) + (bcd & 0x0F)`, a `uint8_t`
unfoldable pub bcd_to_binary : ℕ → ℕ
bcd_to_binary bcd = (bcd / 16 * 10 + bcd % 16) % 256

abbrev pub bit : ℕ → ℕ → Bool
bit n k = n / 2 ^ k % 2 == 1

-- What a register holds behind `rtc_init`, which sets bit 1 of register B, for 24 hours.
unfoldable pub rtc_init : (ℕ → ℕ) → ℕ → ℕ
rtc_init cmos n = if n == 0x0b then bit_or (cmos 0x0b) 2 else cmos n

-- The registers as they are read, before any conversion.
abbrev pub raw_time : (ℕ → ℕ) → RtcTime
raw_time cmos = record {
  second = cmos 0x00;
  minute = cmos 0x02;
  hour = cmos 0x04;
  day = cmos 0x07;
  month = cmos 0x08;
  year = cmos 0x09;
  weekday = cmos 0x06;
}

unfoldable pub time_from_bcd : RtcTime → RtcTime
unfolding bcd_to_binary
time_from_bcd t = record {
  second = bcd_to_binary t.second;
  minute = bcd_to_binary t.minute;
  hour = bcd_to_binary t.hour;
  day = bcd_to_binary t.day;
  month = bcd_to_binary t.month;
  year = bcd_to_binary t.year;
  weekday = bcd_to_binary t.weekday;
}

-- `if (!(registerB & 0x02) && (hour & 0x80)) hour = ((hour & 0x7F) + 12) % 24`
unfoldable pub to_24_hours : ℕ → ℕ → ℕ
to_24_hours register_b hour =
    if not (bit register_b 1) && bit hour 7 then (hour % 128 + 12) % 24 else hour

unfoldable pub rtc_get_time : (ℕ → ℕ) → RtcTime
unfolding time_from_bcd to_24_hours
rtc_get_time cmos =
    let register_b = cmos 0x0b in
    let t = if not (bit register_b 2) then time_from_bcd (raw_time cmos) else raw_time cmos in
    record t { year = t.year + 2000; hour = to_24_hours register_b t.hour }

unfoldable pub is_leap : ℕ → Bool
is_leap y = (y % 4 == 0 && not (y % 100 == 0)) || y % 400 == 0

-- The loop over the years from `y` on.
unfoldable pub year_days : ℕ → ℕ → ℕ → ℕ
unfolding is_leap
year_days zero y days = days
year_days (suc n) y days = year_days n (y + 1) (days + (if is_leap y then 366 else 365))

abbrev pub days_in_month : Bool → List ℕ
days_in_month leap =
    31 ∷ (if leap then 29 else 28) ∷ 31 ∷ 30 ∷ 31 ∷ 30 ∷ 31 ∷ 31 ∷ 30 ∷ 31 ∷ 30 ∷ 31 ∷ []

-- The loop over the months from `m` on. The table has twelve; a read past them counts nothing here.
unfoldable pub month_days : ℕ → ℕ → Bool → ℕ → ℕ
month_days zero m leap days = days
month_days (suc n) m leap days = month_days n (m + 1) leap (days + get_or (days_in_month leap) m 0)

-- The months of a clock that counts them from 1. `days += time.day - 1` takes one away on the day 0.
unfoldable pub days_since_1970 : RtcTime → ℕ
days_since_1970 t =
    let days = month_days (t.month - 1) 0 (is_leap t.year) (year_days (t.year - 1970) 1970 0) in
    if t.day == 0 then u32 (days + 4294967295) else days + (t.day - 1)

unfoldable pub rtc_get_unix_timestamp : RtcTime → ℕ
rtc_get_unix_timestamp t =
    u32 (days_since_1970 t * 86400 + t.hour * 3600 + t.minute * 60 + t.second)

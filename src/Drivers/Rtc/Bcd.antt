-- ===== src/Drivers/Rtc/Bcd.antt =====
-- drivers/rtc.c: the conversion from binary-coded decimal, and the 12-hour clock.
use ephemeral_os.Base.{ℕ, ◌+◌, ◌-◌, ◌*◌, ◌/◌, ◌%◌, ◌≤◌, ◌<◌, ◌≡◌, true, false, arith}
use ephemeral_os.Drivers.Rtc.{RtcTime, bcd_to_binary, bit, time_from_bcd, to_24_hours, rtc_get_time}

-- The two decimal digits of a number, a half byte each.
abbrev pub to_bcd : ℕ → ℕ
to_bcd n = n / 10 * 16 + n % 10

-- `bcd_to_binary` undoes the coding of every number below 100.
pub bcd_to_binary-to_bcd : (n : ℕ) → n < 100 → bcd_to_binary (to_bcd n) ≡ n
unfolding bcd_to_binary
bcd_to_binary-to_bcd n h = omega arith

-- The registers of a clock that shows the time in decimal code and counts 24 hours.
pub record Shows24 (cmos : ℕ → ℕ) (t : RtcTime) : Type 0 where
  pub decimal : bit (cmos 0x0b) 2 ≡ false
  pub full_day : bit (cmos 0x0b) 1 ≡ true
  pub second : (cmos 0x00 ≡ to_bcd t.second) × (t.second < 60)
  pub minute : (cmos 0x02 ≡ to_bcd t.minute) × (t.minute < 60)
  pub hour : (cmos 0x04 ≡ to_bcd t.hour) × (t.hour < 24)
  pub day : (cmos 0x07 ≡ to_bcd t.day) × (t.day < 32)
  pub month : (cmos 0x08 ≡ to_bcd t.month) × (t.month < 13)
  pub weekday : (cmos 0x06 ≡ to_bcd t.weekday) × (t.weekday < 8)
  pub year : (cmos 0x09 ≡ to_bcd (t.year - 2000)) × (2000 ≤ t.year) × (t.year < 2100)

-- From a clock in 24-hour decimal mode `rtc_get_time` reads the time that it shows.
pub rtc_get_time_24 : (cmos : ℕ → ℕ) (t : RtcTime) → Shows24 cmos t → rtc_get_time cmos ≡ t
unfolding rtc_get_time time_from_bcd to_24_hours bcd_to_binary
rtc_get_time_24 cmos t w = ground arith

-- From a clock in 12-hour decimal mode, which marks an afternoon hour by the top bit, `rtc_get_time`
-- reads every afternoon hour as a number from 81 on: the bit is lost in the conversion from
-- decimal code, before it is tested.
pub rtc_get_time_pm :
    (cmos : ℕ → ℕ) (h : ℕ)
    → bit (cmos 0x0b) 2 ≡ false
    → bit (cmos 0x0b) 1 ≡ false
    → 1 ≤ h
    → h ≤ 12
    → cmos 0x04 ≡ 128 + to_bcd h
    → (rtc_get_time cmos).hour ≡ 80 + h
unfolding rtc_get_time time_from_bcd to_24_hours bcd_to_binary
rtc_get_time_pm cmos h d f lo hi e = ground arith

-- ===== src/Drivers/Rtc/Calendar.antt =====
-- drivers/rtc.c: the loops over years and months against closed forms.
use ephemeral_os.Base.{
  ℕ, zero, suc, ◌+◌, ◌-◌, ◌*◌, ◌/◌, ◌≤◌, ◌<◌, ◌≡◌, refl, Bool, true, false, ◌&&◌, List, [], ◌∷◌,
  arith, ltb, ◌==◌, if◌then◌else◌, ==_iff, ltb→lt, all_below, all_below_sound, get_or,
}
use ephemeral_os.Drivers.Rtc.{
  rtc_get_unix_timestamp, RtcTime, is_leap, year_days, month_days, days_in_month, days_since_1970,
}

-- The leap years of the Gregorian calendar before the year `y`, counted from year 1.
abbrev pub leaps_before : ℕ → ℕ
leaps_before y = (y - 1) / 4 + (y - 1) / 400 - (y - 1) / 100

leaps_step : (y : ℕ) → 1 ≤ y → leaps_before (y + 1) ≡ leaps_before y + (if is_leap y then 1 else 0)
unfolding is_leap
leaps_step y h = ground arith

year_days_lem :
    (n y z days : ℕ)
    → 1 ≤ y
    → y + n ≡ z
    → year_days n y days + leaps_before y ≡ days + 365 * n + leaps_before z
unfolding year_days
year_days_lem zero y z days h e = let e' : y ≡ z = omega arith in rw e' (omega arith)
year_days_lem (suc n) y z days h e =
    ground
      (arith, year_days_lem n (y + 1) z (days + (if is_leap y then 366 else 365)), leaps_step y h)

-- The days of a common year before the month that is counted from 0.
abbrev pub common_before : List ℕ
common_before = 0 ∷ 31 ∷ 59 ∷ 90 ∷ 120 ∷ 151 ∷ 181 ∷ 212 ∷ 243 ∷ 273 ∷ 304 ∷ 334 ∷ []

month_days_shift :
    (n m days : ℕ) (leap : Bool) → month_days n m leap days ≡ days + month_days n m leap 0
unfolding month_days
month_days_shift zero m days leap = omega arith
month_days_shift (suc n) m days leap = omega (
  arith,
  month_days_shift n (m + 1) (days + get_or (days_in_month leap) m 0) leap,
  month_days_shift n (m + 1) (0 + get_or (days_in_month leap) m 0) leap,
)

-- The days of a year before that month.
abbrev pub before : Bool → ℕ → ℕ
before leap m = get_or common_before m 0 + (if leap && ltb 1 m then 1 else 0)

abbrev months_agree : Bool → ℕ → Bool
months_agree leap m = month_days m 0 leap 0 == before leap m

months_table : (leap : Bool) → all_below 12 (months_agree leap) ≡ true
unfolding month_days all_below
months_table true = refl
months_table false = refl

short_table : (leap : Bool) → all_below 12 (λ m. ltb (before leap m) 336) ≡ true
unfolding all_below
short_table true = refl
short_table false = refl

before-lt : (leap : Bool) (m : ℕ) → m < 12 → before leap m < 336
before-lt leap m h =
    ltb→lt _ _ (all_below_sound 12 (λ m. ltb (before leap m) 336) m (short_table leap) h)

month_days_lem :
    (m days : ℕ) (leap : Bool) → m < 12 → month_days m 0 leap days ≡ days + before leap m
month_days_lem m days leap h = omega (
  arith,
  month_days_shift m 0 days leap,
  (==_iff _ _).0 (all_below_sound 12 (months_agree leap) m (months_table leap) h),
)

days_since_1970_def :
    (t : RtcTime)
    → 1 ≤ t.day
    → days_since_1970 t
      ≡ month_days (t.month - 1) 0 (is_leap t.year) (year_days (t.year - 1970) 1970 0) + (t.day - 1)
unfolding days_since_1970
days_since_1970_def t h = let e : (t.day == 0) ≡ false = ground arith in rw e refl

-- From 1970 on, for a month from 1 to 12 and a day from 1, the days that the loops count are those of
-- the whole years, with one for each leap year, of the whole months, and of the month so far.
pub days_since_1970_lem :
    (t : RtcTime)
    → 1970 ≤ t.year
    → 1 ≤ t.month
    → t.month ≤ 12
    → 1 ≤ t.day
    → days_since_1970 t + leaps_before 1970 + 1
      ≡ 365 * (t.year - 1970) + leaps_before t.year + before (is_leap t.year) (t.month - 1) + t.day
days_since_1970_lem t hy hm hm' hd = omega (
  arith,
  days_since_1970_def t hd,
  month_days_lem (t.month - 1) (year_days (t.year - 1970) 1970 0) (is_leap t.year) (omega arith),
  year_days_lem (t.year - 1970) 1970 t.year 0 (omega arith) (omega arith),
)

-- For such a time before the year 2100, `rtc_get_unix_timestamp` is those days in seconds and the time of day,
-- with no wrap.
pub rtc_get_unix_timestamp_lem :
    (t : RtcTime)
    → 1970 ≤ t.year
    → t.year < 2100
    → 1 ≤ t.month
    → t.month ≤ 12
    → 1 ≤ t.day
    → t.day ≤ 31
    → t.hour < 24
    → t.minute < 60
    → t.second < 60
    → rtc_get_unix_timestamp t
      ≡ days_since_1970 t * 86400 + t.hour * 3600 + t.minute * 60 + t.second
unfolding rtc_get_unix_timestamp
rtc_get_unix_timestamp_lem t hy hy' hm hm' hd hd' hh hmi hs = omega (
  arith,
  days_since_1970_lem t hy hm hm' hd,
  before-lt (is_leap t.year) (t.month - 1) (omega arith),
)

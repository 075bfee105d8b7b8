-- ===== src/Time.antt =====
-- kernel/core/time-core.c: the calibration arithmetic, the calendar and the RTC decoder. The timer
-- heap of that file is in Timers.
pub mod Scale
pub mod Calendar
pub mod Rtc
pub mod Timers
pub mod Order
mod Tests
use bongos.Common.{
  ℕ, ◌+◌, ◌-◌, ◌*◌, ◌/◌, ◌%◌, ◌^◌, Bool, true, false, not, ◌&&◌, ◌||◌, Option, none, some, ltb, leb,
  ◌==◌, if◌then◌else◌, add64, mul64, sub32, sub64, u64_mod,
}
use bongos.Common.Bits.{test_bit, and_bits}

abbrev pub time_shift : ℕ
time_shift = 32

-- The product is of 128 bits and does not wrap; the cast keeps the low 64 bits.
pub scale : ℕ → ℕ → ℕ
scale v mult = v * mult / 2 ^ time_shift % u64_mod

-- `none` is STATUS_ERR_INVALID, here and below.
pub make_mult : ℕ → ℕ → Option ℕ
make_mult from to =
    let whole = to / from in
    let rem = to % from in
    if from == 0
    then none
    else if leb (2 ^ 32) whole || leb (2 ^ 32) rem
    then none
    else some (add64 (mul64 whole (2 ^ 32)) (mul64 rem (2 ^ 32) / from))

pub calc_hz : ℕ → ℕ → ℕ → Option ℕ
calc_hz ticks ref_ticks ref_hz =
    if ref_ticks == 0 || leb u64_mod (ticks * ref_hz)
    then none
    else some (ticks * ref_hz / ref_ticks)

abbrev ordered_median : ℕ → ℕ → ℕ → ℕ
ordered_median a b c = let b' = if ltb c b then c else b in if ltb b' a then a else b'

-- The first test swaps `a` and `b`.
pub median3 : ℕ → ℕ → ℕ → ℕ
median3 a b c = if ltb b a then ordered_median b a c else ordered_median a b c

pub ref_delta : ℕ → ℕ → ℕ → ℕ
ref_delta now then_ mask = and_bits 32 (sub32 now then_) mask

pub is_leap : ℕ → Bool
is_leap y = y % 4 == 0 && not (y % 100 == 0) || y % 400 == 0

-- The table `days`, read at `mon - 1`.
abbrev month_days : ℕ → ℕ
month_days mon =
    if mon == 2 then 28 else if mon == 4 || mon == 6 || mon == 9 || mon == 11 then 30 else 31

pub days_in_month : ℕ → ℕ → ℕ
days_in_month year mon =
    if ltb mon 1 || ltb 12 mon
    then 0
    else month_days mon + (if mon == 2 && is_leap year then 1 else 0)

pub record TimeCivil : Type 0 where
  pub year : ℕ
  pub mon : ℕ
  pub day : ℕ
  pub hour : ℕ
  pub min : ℕ
  pub sec : ℕ

-- The `days` of timeCivilToEpoch.
pub civil_days : ℕ → ℕ → ℕ → ℕ
civil_days year mon day =
    let y = sub32 year (if leb mon 2 then 1 else 0) in
    let era = y / 400 in
    let yoe = y - era * 400 in
    let doy = sub64 ((153 * (if ltb 2 mon then mon - 3 else mon + 9) + 2) / 5 + day) 1 in
    let doe = add64 (yoe * 365 + yoe / 4 - yoe / 100) doy in sub64 (add64 (era * 146097) doe) 719468

pub civil_to_epoch : TimeCivil → ℕ
civil_to_epoch c =
    add64 (add64 (add64 (mul64 (civil_days c.year c.mon c.day) 86400) (c.hour * 3600)) (c.min * 60))
      c.sec

-- The raw CMOS registers, a byte each.
pub record TimeRtcRaw : Type 0 where
  pub sec : ℕ
  pub min : ℕ
  pub hour : ℕ
  pub day : ℕ
  pub mon : ℕ
  pub year : ℕ
  pub century : ℕ
  pub reg_b : ℕ
  pub has_century : Bool

pub rtc_field : ℕ → Bool → Option ℕ
rtc_field v binary =
    if binary
    then some v
    else if ltb 9 (v % 16) || ltb 9 (v / 16)
    then none
    else some (v / 16 * 10 + v % 16)

infixl 5 ◌>>=◌
abbrev ◌>>=◌ : {A B : Type 0} → Option A → (A → Option B) → Option B
none >>= f = none
some a >>= f = f a

-- In 12-hour mode bit 7 of the hour register is PM, and 12 stands for 0.
rtc_hour : Bool → Bool → ℕ → Option ℕ
rtc_hour h24 pm hour =
    if h24
    then some hour
    else if ltb hour 1 || ltb 12 hour
    then none
    else some (hour % 12 + (if pm then 12 else 0))

-- `yy`, with the century where there is one and it decodes to 19-29.
rtc_year : Option ℕ → ℕ → ℕ
rtc_year none yy = 2000 + yy
rtc_year (some cent) yy = if leb 19 cent && leb cent 29 then cent * 100 + yy else 2000 + yy

abbrev century_of : TimeRtcRaw → Bool → Option ℕ
century_of raw binary = if raw.has_century then rtc_field raw.century binary else none

check_civil : TimeCivil → Option TimeCivil
check_civil c =
    if ltb c.year 1970
      || ltb 59 c.sec
      || ltb 59 c.min
      || ltb 23 c.hour
      || ltb c.mon 1
      || ltb 12 c.mon
      || ltb c.day 1
      || ltb (days_in_month c.year c.mon) c.day
    then none
    else some c

-- The decoded `*civil`; `*epoch` is its civil_to_epoch.
pub rtc_civil : TimeRtcRaw → Option TimeCivil
rtc_civil raw = do
  let binary = test_bit raw.reg_b 2
  let h24 = test_bit raw.reg_b 1
  let pm = not h24 && test_bit raw.hour 7
  sec ← rtc_field raw.sec binary
  min ← rtc_field raw.min binary
  hour_reg ← rtc_field (if h24 then raw.hour else raw.hour % 128) binary
  day ← rtc_field raw.day binary
  mon ← rtc_field raw.mon binary
  yy ← rtc_field raw.year binary
  hour ← rtc_hour h24 pm hour_reg
  year ← if ltb 99 yy then none else some (rtc_year (century_of raw binary) yy)
  check_civil (record { year = year; mon = mon; day = day; hour = hour; min = min; sec = sec })

pub rtc_decode : TimeRtcRaw → Option (ℕ × TimeCivil)
rtc_decode raw = rtc_civil raw >>= λ c. some (civil_to_epoch c, c)

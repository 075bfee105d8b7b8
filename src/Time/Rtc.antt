-- ===== src/Time/Rtc.antt =====
-- timeRtcDecode: what it accepts, and that it reads back what a clock holds.
use bongos.Common.{
  ℕ, ◌+◌, ◌*◌, ◌/◌, ◌%◌, ◌≤◌, ◌<◌, ◌≡◌, refl, Bool, true, false, not, ◌&&◌, inl, inr, arith, ltb,
  leb, ◌==◌, if◌then◌else◌, Bool-cases, Option, none, some,
}
use bongos.Common.Bits.{test_bit, test_bit-div}
use bongos.Time.{
  TimeCivil, TimeRtcRaw, days_in_month, civil_to_epoch, rtc_field, rtc_hour, rtc_year, check_civil,
  rtc_civil, rtc_decode, century_of, ◌>>=◌,
}
use bongos.Time.Calendar.{IsDate, days_in_month-le}

check_civil-some :
    (c d : TimeCivil)
    → check_civil c ≡ some d
    → (d ≡ c)
      × (1970 ≤ c.year)
      × (1 ≤ c.mon)
      × (c.mon ≤ 12)
      × (1 ≤ c.day)
      × (c.day ≤ days_in_month c.year c.mon)
      × (c.hour < 24)
      × (c.min < 60)
      × (c.sec < 60)
unfolding check_civil
check_civil-some c d h = ground arith

-- What a clock's registers hold for a date, in each of its four modes.
bcd : ℕ → ℕ
bcd x = x / 10 * 16 + x % 10

pub register : Bool → ℕ → ℕ
register binary x = if binary then x else bcd x

hour_12 : ℕ → ℕ
hour_12 hour = if hour % 12 == 0 then 12 else hour % 12

pub hour_register : Bool → Bool → ℕ → ℕ
hour_register binary h24 hour =
    if h24
    then register binary hour
    else register binary (hour_12 hour) + (if leb 12 hour then 128 else 0)

abbrev pub registers : Bool → Bool → TimeCivil → TimeRtcRaw
registers binary h24 c = record {
  sec = register binary c.sec;
  min = register binary c.min;
  hour = hour_register binary h24 c.hour;
  day = register binary c.day;
  mon = register binary c.mon;
  year = register binary (c.year % 100);
  century = register binary (c.year / 100);
  reg_b = (if binary then 4 else 0) + (if h24 then 2 else 0);
  has_century = true;
}

rtc_field-register :
    (x : ℕ) (binary : Bool) → x < 100 → rtc_field (register binary x) binary ≡ some x
unfolding rtc_field register bcd
rtc_field-register x binary h = ground arith

rtc_hour-register :
    (hour : ℕ) (binary h24 : Bool)
    → hour < 24
    → (v : ℕ) × (rtc_field
          (if h24 then hour_register binary h24 hour else hour_register binary h24 hour % 128)
          binary
        ≡ some v)
      × (rtc_hour h24 (not h24 && test_bit (hour_register binary h24 hour) 7) v ≡ some hour)
unfolding rtc_field rtc_hour hour_register register bcd hour_12
rtc_hour-register hour binary true h = (hour, ground arith, refl)
rtc_hour-register hour binary false h =
    let r = hour_register binary false hour in
    (hour_12 hour, ground (arith, test_bit-div r 7), ground (arith, test_bit-div r 7))

check_civil-IsDate : (c : TimeCivil) → IsDate c → check_civil c ≡ some c
unfolding check_civil
check_civil-IsDate c v = ground (arith, v.year_range, v.mon_range, v.day_range, v.time_range)

mode_bits :
    (binary h24 : Bool)
    → let b = (if binary then 4 else 0) + (if h24 then 2 else 0) in
      (test_bit b 2 ≡ binary) × (test_bit b 1 ≡ h24)
unfolding test_bit
mode_bits true true = (refl, refl)
mode_bits true false = (refl, refl)
mode_bits false true = (refl, refl)
mode_bits false false = (refl, refl)

rtc_year-split :
    (year : ℕ) → 1970 ≤ year → year < 3000 → rtc_year (some (year / 100)) (year % 100) ≡ year
unfolding rtc_year
rtc_year-split year h k = ground arith

rtc_civil-registers :
    (c : TimeCivil) (binary h24 : Bool)
    → IsDate c
    → c.year < 3000
    → rtc_civil (registers binary h24 c) ≡ some c
unfolding rtc_civil
rtc_civil-registers c binary h24 v small =
    let (mode, mode') = mode_bits binary h24 in
    let (hour_reg, read, hour) = rtc_hour-register c.hour binary h24 v.time_range.0 in
    let day = days_in_month-le c.year c.mon in
    let sec_field = rtc_field-register c.sec binary (omega arith) in
    let min_field = rtc_field-register c.min binary (omega arith) in
    let day_field = rtc_field-register c.day binary (omega arith) in
    let mon_field = rtc_field-register c.mon binary (omega arith) in
    let year_field = rtc_field-register (c.year % 100) binary (omega arith) in
    let century_field = rtc_field-register (c.year / 100) binary (omega arith) in
    let two_digits : ltb 99 (c.year % 100) ≡ false = ground arith in
    rw (mode, mode', sec_field, min_field, read, day_field, mon_field, year_field, hour)
      (rw (two_digits, century_field, rtc_year-split c.year v.year_range.0 small)
        (check_civil-IsDate c v))

rtc_year_bound : (cent : Option ℕ) (yy : ℕ) → yy < 100 → rtc_year cent yy < 3000
unfolding rtc_year
rtc_year_bound none yy h = omega arith
rtc_year_bound (some cent) yy h = ground arith

>>=-eq-some :
    {A B : Type 0} (m : Option A) (f : A → Option B) {b : B}
    → (m >>= f) ≡ some b
    → (a : A) × (m ≡ some a) × (f a ≡ some b)
>>=-eq-some none f h = absurd (cc)
>>=-eq-some (some a) f h = (a, refl, h)

-- Every date that the decoder lets through has been checked.
abbrev Checked : Option TimeCivil → Type 0
Checked o = (c : TimeCivil) → o ≡ some c → (check_civil c ≡ some c) × (c.year < 3000)

bind-Checked :
    {A : Type 0} (m : Option A) (f : A → Option TimeCivil)
    → ((a : A) → Checked (f a))
    → Checked (m >>= f)
bind-Checked none f h c e = absurd (cc)
bind-Checked (some a) f h c e = h a c e

check_civil-Checked : (d : TimeCivil) → d.year < 3000 → Checked (check_civil d)
unfolding check_civil
check_civil-Checked d h c e = ground arith

year-Checked :
    (cent : Option ℕ) (sec min hour day mon yy : ℕ)
    → Checked (
        (if ltb 99 yy then none else some (rtc_year cent yy)) >>= λ year.
        check_civil
          (record { year = year; mon = mon; day = day; hour = hour; min = min; sec = sec }))
year-Checked cent sec min hour day mon yy = elim (Bool-cases (ltb 99 yy)) [
  | inl big ↦ rw (big, Checked) (λ c e. absurd (cc))
  | inr small ↦ rw (small, Checked) (check_civil-Checked _ (rtc_year_bound cent yy (ground arith)))
]

rtc_civil-Checked : (raw : TimeRtcRaw) → Checked (rtc_civil raw)
unfolding rtc_civil
rtc_civil-Checked raw =
    let binary = test_bit raw.reg_b 2 in
    let h24 = test_bit raw.reg_b 1 in
    bind-Checked (rtc_field raw.sec binary) _ λ sec.
      bind-Checked (rtc_field raw.min binary) _ λ min.
        bind-Checked (rtc_field (if h24 then raw.hour else raw.hour % 128) binary) _ λ hour_reg.
          bind-Checked (rtc_field raw.day binary) _ λ day.
            bind-Checked (rtc_field raw.mon binary) _ λ mon.
              bind-Checked (rtc_field raw.year binary) _ λ yy.
                bind-Checked (rtc_hour h24 (not h24 && test_bit raw.hour 7) hour_reg) _
                  λ hour. year-Checked (century_of raw binary) sec min hour day mon yy

decode-civil :
    (raw : TimeRtcRaw) (epoch : ℕ) (c : TimeCivil)
    → rtc_decode raw ≡ some (epoch, c)
    → (rtc_civil raw ≡ some c) × (epoch ≡ civil_to_epoch c)
unfolding rtc_decode
decode-civil raw epoch c h = ground arith

-- Whatever the registers hold, a date that timeRtcDecode accepts is a date of the calendar between
-- 1970 and 2999, and the epoch beside it is that of the date.
pub rtc_decode-IsDate :
    (raw : TimeRtcRaw) (epoch : ℕ) (c : TimeCivil)
    → rtc_decode raw ≡ some (epoch, c)
    → IsDate c × (c.year < 3000) × (epoch ≡ civil_to_epoch c)
rtc_decode-IsDate raw epoch c h =
    let (civil, e) = decode-civil raw epoch c h in
    let (checked, small) = rtc_civil-Checked raw c civil in
    let facts = check_civil-some c c checked in
    (
      record {
        year_range = (facts.1, omega arith);
        mon_range = (facts.2, facts.3);
        day_range = (facts.4, facts.5);
        time_range = (facts.6, facts.7, facts.8);
      },
      small,
      e,
    )

-- The registers that hold a date between 1970 and 2999, with its century, in binary or BCD and in
-- 24-hour or 12-hour mode, decode to that date and its epoch.
pub rtc_decode-registers :
    (c : TimeCivil) (binary h24 : Bool)
    → IsDate c
    → c.year < 3000
    → rtc_decode (registers binary h24 c) ≡ some (civil_to_epoch c, c)
unfolding rtc_decode
rtc_decode-registers c binary h24 v small = rw (rtc_civil-registers c binary h24 v small)

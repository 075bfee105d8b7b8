-- ===== src/Time/Tests.antt =====
-- The time core at small inputs.
use bongos.Common.{◌+◌, ◌*◌, ◌^◌, ◌≤◌, ◌≡◌, refl, true, false, none, some, ltb, arith}
use bongos.Common.Bits.{test_bit}
use bongos.Time.{
  TimeCivil, TimeRtcRaw, is_leap, days_in_month, civil_days, civil_to_epoch, make_mult, scale,
  rtc_field, rtc_hour, rtc_year, check_civil, rtc_civil, rtc_decode, calc_hz,
}
use bongos.Time.Calendar.{IsDate, next_day, civil_to_epoch-next_day}
use bongos.Time.Scale.{scale-make_mult}
use bongos.Time.Rtc.{registers, rtc_decode-registers}
use bongos.Time.Order.{earlier, rtc_decode-order}

abbrev leap_day : TimeCivil
leap_day = record { year = 2024; mon = 2; day = 29; hour = 23; min = 59; sec = 58 }

epoch_is_zero :
    civil_to_epoch (record { year = 1970; mon = 1; day = 1; hour = 0; min = 0; sec = 0 }) ≡ 0
unfolding civil_to_epoch civil_days
epoch_is_zero = refl

leap_day_epoch : civil_to_epoch leap_day ≡ 1709251198
unfolding civil_to_epoch civil_days
leap_day_epoch = refl

leap_day-IsDate : IsDate leap_day
unfolding days_in_month is_leap
leap_day-IsDate = omega arith

pm_timer_mult : make_mult 3579545 1000000000 ≡ some 1199864031881
unfolding make_mult
pm_timer_mult = refl

hz : calc_hz 2_000_000 1000 5 ≡ some 10_000
unfolding calc_hz
hz = refl

civil_to_epoch-next_day_example :
    civil_to_epoch (next_day leap_day) ≡ civil_to_epoch leap_day + 86400
civil_to_epoch-next_day_example = civil_to_epoch-next_day leap_day leap_day-IsDate

scale-make_mult_example :
    (scale 1000 1199864031881 * 3579545 ≤ 1000 * 1000000000)
    × (1000 * 1000000000 * 2 ^ 32 ≤ (scale 1000 1199864031881 * 2 ^ 32 + 2 ^ 32 + 1000) * 3579545)
scale-make_mult_example =
    scale-make_mult 3579545 1000000000 1199864031881 1000 (omega arith) (omega arith) pm_timer_mult
      (omega arith)

-- 11:59:58 PM on 29 February, BCD, 12-hour mode.
abbrev cmos : TimeRtcRaw
cmos = record {
  sec = 0x58;
  min = 0x59;
  hour = 0x91;
  day = 0x29;
  mon = 0x02;
  year = 0x24;
  century = 0x20;
  reg_b = 0;
  has_century = true;
}

cmos_decodes : rtc_decode cmos ≡ some (1709251198, leap_day)
unfolding rtc_decode rtc_civil rtc_field rtc_hour rtc_year check_civil test_bit civil_to_epoch
    civil_days days_in_month is_leap
cmos_decodes = refl

-- Midnight on 1 March 2100, binary, 24-hour mode. The year is no leap year.
abbrev cmos_2100 : TimeRtcRaw
cmos_2100 = record {
  sec = 0;
  min = 0;
  hour = 0;
  day = 1;
  mon = 3;
  year = 0;
  century = 21;
  reg_b = 6;
  has_century = true;
}

abbrev first_march : TimeCivil
first_march = record { year = 2100; mon = 3; day = 1; hour = 0; min = 0; sec = 0 }

cmos_2100_decodes : rtc_decode cmos_2100 ≡ some (4107542400, first_march)
unfolding rtc_decode rtc_civil rtc_field rtc_hour rtc_year check_civil test_bit civil_to_epoch
    civil_days days_in_month is_leap
cmos_2100_decodes = refl

refuses_leap_day_2100 : rtc_decode (record cmos_2100 { day = 29; mon = 2 }) ≡ none
unfolding rtc_decode rtc_civil rtc_field rtc_hour rtc_year check_civil test_bit civil_to_epoch
    civil_days days_in_month is_leap
refuses_leap_day_2100 = refl

rtc_decode-order_example : ltb 1709251198 4107542400 ≡ earlier leap_day first_march
rtc_decode-order_example =
    rtc_decode-order cmos cmos_2100 1709251198 4107542400 leap_day first_march cmos_decodes
      cmos_2100_decodes

rtc_decode-registers_example :
    rtc_decode (registers false false leap_day) ≡ some (civil_to_epoch leap_day, leap_day)
rtc_decode-registers_example =
    rtc_decode-registers leap_day false false leap_day-IsDate (omega arith)

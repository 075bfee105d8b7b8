-- ===== src/Time/Order.antt =====
-- timeRtcDecode and the order of dates: two readings of the clock compare as their dates do.
use bongos.Common.{
  ℕ, zero, suc, ◌+◌, ◌-◌, ◌*◌, ◌/◌, ◌%◌, ◌≤◌, ◌<◌, ◌≡◌, Bool, ap, ◌∙◌, inl, inr, arith, ltb, ◌==◌,
  if◌then◌else◌, Bool-cases, ltb→lt, some, u32_mod,
}
use bongos.Time.{TimeCivil, TimeRtcRaw, days_in_month, civil_days, civil_to_epoch, rtc_decode}
use bongos.Time.Calendar.{
  IsDate, days_of, days_in_month-le, days_in_month_pos, december, civil_days_bound,
  civil_to_epoch-linear, civil_days-linear, civil_days-next_month, civil_days-next_year,
}
use bongos.Time.Rtc.{rtc_decode-IsDate}

-- The order of dates: by the year, then the month, and so on.
abbrev pub earlier : TimeCivil → TimeCivil → Bool
earlier c d =
    if c.year == d.year
    then if c.mon == d.mon
      then if c.day == d.day
        then if c.hour == d.hour
          then if c.min == d.min then ltb c.sec d.sec else ltb c.min d.min
          else ltb c.hour d.hour
        else ltb c.day d.day
      else ltb c.mon d.mon
    else ltb c.year d.year

-- The months are counted from year 0, and the first day of each has a number.
abbrev month_of : TimeCivil → ℕ
month_of c = 12 * c.year + (c.mon - 1)

first : ℕ → ℕ
first m = civil_days (m / 12) (m % 12 + 1) 1

month_end :
    (year mon : ℕ)
    → 1970 ≤ year
    → year < u32_mod - 1
    → 1 ≤ mon
    → mon ≤ 12
    → civil_days year mon (days_in_month year mon) + 1
      ≡ civil_days year mon 1 + days_in_month year mon
month_end year mon h1 h2 h3 h4 =
    let pos = days_in_month_pos year mon h3 h4 in
    let le = days_in_month-le year mon in
    omega (
      arith,
      civil_days-linear year mon (days_in_month year mon) h1 (omega arith) h3 h4 pos le,
      civil_days-linear year mon 1 h1 (omega arith) h3 h4 (omega arith) (omega arith),
    )

-- A month is as long as its days.
first-suc :
    (m : ℕ)
    → 1970 * 12 ≤ m
    → m / 12 < u32_mod - 1
    → first (m + 1) ≡ first m + days_in_month (m / 12) (m % 12 + 1)
unfolding first
first-suc m h1 h2 =
    let year : 1970 ≤ m / 12 = omega arith in
    let end = month_end (m / 12) (m % 12 + 1) year h2 (omega arith) (omega arith) in
    let pos = days_in_month_pos (m / 12) (m % 12 + 1) (omega arith) (omega arith) in
    elim (Bool-cases (ltb (m % 12 + 1) 12)) [
      | inl inner ↦
          let below = ltb→lt _ _ inner in
          let y : (m + 1) / 12 ≡ m / 12 = omega arith in
          let n : (m + 1) % 12 ≡ m % 12 + 1 = omega arith in
          rw (y, n)
            (civil_days-next_month (m / 12) (m % 12 + 1) year h2 (omega arith) below pos ∙ end)
      | inr turn ↦
          let last : m % 12 + 1 ≡ 12 = ground arith in
          let y : (m + 1) / 12 ≡ m / 12 + 1 = omega arith in
          let n : (m + 1) % 12 ≡ 0 = omega arith in
          rw (y, n, last, december (m / 12))
            (civil_days-next_year (m / 12) year h2 ∙ (rw (last, december (m / 12)) at end))
    ]

first-le : (d m : ℕ) → 1970 * 12 ≤ m → (m + d) / 12 < u32_mod - 1 → first m ≤ first (m + d)
first-le zero m h1 h2 = let e : m + 0 ≡ m = omega arith in rw e (omega arith)
first-le (suc d) m h1 h2 =
    let e : m + suc d ≡ m + d + 1 = omega arith in
    rw e
      (omega (arith, first-le d m h1 (omega arith), first-suc (m + d) (omega arith) (omega arith)))

days_of-first : (c : TimeCivil) → IsDate c → days_of c + 1 ≡ first (month_of c) + c.day
unfolding first
days_of-first c v =
    let y : month_of c / 12 ≡ c.year = omega (arith, v.mon_range) in
    let n : month_of c % 12 + 1 ≡ c.mon = omega (arith, v.mon_range) in
    let le = days_in_month-le c.year c.mon in
    rw (y, n)
      (omega (
        arith,
        v.day_range,
        civil_days-linear c.year c.mon c.day v.year_range.0 (omega (arith, v.year_range))
            v.mon_range.0 v.mon_range.1 v.day_range.0 (omega (arith, v.day_range)),
        civil_days-linear c.year c.mon 1 v.year_range.0 (omega (arith, v.year_range)) v.mon_range.0
            v.mon_range.1 (omega arith) (omega arith),
      ))

module _ (c d : TimeCivil) (v : IsDate c) (w : IsDate d) where
  days_of-later_month : month_of c < month_of d → days_of c < days_of d
  days_of-later_month h =
      let y : month_of c / 12 ≡ c.year = omega (arith, v.mon_range) in
      let n : month_of c % 12 + 1 ≡ c.mon = omega (arith, v.mon_range) in
      let next : first (month_of c + 1) ≡ first (month_of c) + days_in_month c.year c.mon =
        rw (y, n) at
          (first-suc (month_of c) (omega (arith, v.year_range)) (omega (arith, y, v.year_range))) in
      let gap = month_of d - (month_of c + 1) in
      let e : month_of c + 1 + gap ≡ month_of d = omega (arith, h) in
      let mono : first (month_of c + 1) ≤ first (month_of d) = rw e at (
        first-le gap (month_of c + 1) (omega (arith, v.year_range))
          (omega (arith, h, w.year_range, w.mon_range))) in
      omega (arith, next, mono, days_of-first c v, days_of-first d w, v.day_range, w.day_range)

  days_of-same_month : month_of c ≡ month_of d → days_of c + d.day ≡ days_of d + c.day
  days_of-same_month h = omega (arith, ap first h, days_of-first c v, days_of-first d w)

civil_to_epoch-order :
    (c d : TimeCivil)
    → IsDate c
    → IsDate d
    → ltb (civil_to_epoch c) (civil_to_epoch d) ≡ earlier c d
civil_to_epoch-order c d v w =
    let a = civil_days_bound c v in
    let b = civil_days_bound d w in
    let e = civil_to_epoch-linear c (omega arith) v.time_range in
    let f = civil_to_epoch-linear d (omega arith) w.time_range in
    elim (Bool-cases (ltb (month_of c) (month_of d))) [
      | inl before ↦
          let later = days_of-later_month c d v w (ltb→lt _ _ before) in
          ground (arith, later, e, f, v.mon_range, w.mon_range, v.time_range, w.time_range)
      | inr not_before ↦ elim (Bool-cases (ltb (month_of d) (month_of c))) [
        | inl after ↦
            let sooner = days_of-later_month d c w v (ltb→lt _ _ after) in
            ground (arith, sooner, e, f, v.mon_range, w.mon_range, v.time_range, w.time_range)
        | inr not_after ↦
            let same : month_of c ≡ month_of d = ground arith in
            let days = days_of-same_month c d v w same in
            ground (arith, days, e, f, v.mon_range, w.mon_range, v.time_range, w.time_range)
      ]
    ]

-- Of two readings that timeRtcDecode accepts, one has the smaller epoch just when its date comes
-- before the other's, by the year, the month, the day, the hour, the minute and the second.
pub rtc_decode-order :
    (raw raw' : TimeRtcRaw) (epoch epoch' : ℕ) (c d : TimeCivil)
    → rtc_decode raw ≡ some (epoch, c)
    → rtc_decode raw' ≡ some (epoch', d)
    → ltb epoch epoch' ≡ earlier c d
rtc_decode-order raw raw' epoch epoch' c d h k =
    let (v, small, e) = rtc_decode-IsDate raw epoch c h in
    let (w, small', f) = rtc_decode-IsDate raw' epoch' d k in
    rw (e, f) (civil_to_epoch-order c d v w)

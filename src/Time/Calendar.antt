-- ===== src/Time/Calendar.antt =====
-- timeCivilToEpoch against the calendar: the day after is 86400 seconds later.
use bongos.Common.{
  ℕ, ◌+◌, ◌-◌, ◌*◌, ◌/◌, ◌^◌, ◌≤◌, ◌<◌, ◌≡◌, refl, inl, inr, arith, ltb, leb, ◌≢◌, ◌==◌,
  if◌then◌else◌, Bool-cases, ltb→lt, sym, u32_mod, ◌∙◌, ap,
}
use bongos.Time.{TimeCivil, is_leap, days_in_month, civil_days, civil_to_epoch}

-- The date after a date: the next day of the month, or the first of the next month.
abbrev pub next_day : TimeCivil → TimeCivil
next_day c =
    if ltb c.day (days_in_month c.year c.mon)
    then record c { day = c.day + 1 }
    else if ltb c.mon 12
    then record c { mon = c.mon + 1; day = 1 }
    else record c { year = c.year + 1; mon = 1; day = 1 }

pub record IsDate (c : TimeCivil) : Type 0 where
  pub year_range : (1970 ≤ c.year) × (c.year < u32_mod - 1)
  pub mon_range : (1 ≤ c.mon) × (c.mon ≤ 12)
  pub day_range : (1 ≤ c.day) × (c.day ≤ days_in_month c.year c.mon)
  pub time_range : (c.hour < 24) × (c.min < 60) × (c.sec < 60)

-- Days before March 1st of year `y`, and before each month of a year that starts in March.
abbrev year_start : ℕ → ℕ
year_start y = y * 365 + y / 4 - y / 100 + y / 400

abbrev month_start : ℕ → ℕ
month_start mon = (153 * (if ltb 2 mon then mon - 3 else mon + 9) + 2) / 5

abbrev march_year : ℕ → ℕ → ℕ
march_year year mon = year - (if leb mon 2 then 1 else 0)

pub days_in_month-le : (year mon : ℕ) → days_in_month year mon ≤ 31
unfolding days_in_month
days_in_month-le year mon = ground arith

era_days :
    (y : ℕ)
    → y / 400 * 146097
        + ((y - y / 400 * 400) * 365 + (y - y / 400 * 400) / 4 - (y - y / 400 * 400) / 100)
      ≡ year_start y
era_days y = omega arith

-- The era arithmetic in one line.
pub civil_days-linear :
    (year mon day : ℕ)
    → 1970 ≤ year
    → year < u32_mod
    → 1 ≤ mon
    → mon ≤ 12
    → 1 ≤ day
    → day ≤ 31
    → civil_days year mon day + 719468 + 1
      ≡ year_start (march_year year mon) + month_start mon + day
unfolding civil_days
civil_days-linear year mon day h1 h2 h3 h4 h5 h6 = ground (arith, era_days (march_year year mon))

year_start-suc :
    (y : ℕ) → year_start (y + 1) ≡ year_start y + 365 + (if is_leap (y + 1) then 1 else 0)
unfolding is_leap
year_start-suc y = ground arith

-- Days of a month that is not February, and the months around the turn of February.
month_start-suc :
    (year mon : ℕ)
    → 1 ≤ mon
    → mon < 12
    → mon ≢ 2
    → month_start (mon + 1) ≡ month_start mon + days_in_month year mon
unfolding days_in_month
month_start-suc year mon h1 h2 h3 = ground arith

february :
    (year : ℕ)
    → 1970 ≤ year
    → year < u32_mod - 1
    → civil_days year 3 1 ≡ civil_days year 2 (days_in_month year 2) + 1
unfolding days_in_month
february year h1 h2 =
    let back : year - 1 + 1 ≡ year = omega arith in
    let turn = year_start-suc (year - 1) in
    let turn' : year_start year ≡ year_start (year - 1) + 365 + (if is_leap year then 1 else 0) =
      rw back at turn in
    let last : (if is_leap year then 1 else 0) ≤ 1 = ground arith in
    let a =
      civil_days-linear year 2 (28 + (if is_leap year then 1 else 0)) h1 (omega arith) (omega arith)
        (omega arith) (omega arith) (omega arith) in
    let b =
      civil_days-linear year 3 1 h1 (omega arith) (omega arith) (omega arith) (omega arith)
        (omega arith) in
    omega arith

month_start_bound : (mon : ℕ) → mon ≤ 12 → month_start mon < 400
month_start_bound mon h = ground arith

module _ (year mon : ℕ) (h1 : 1970 ≤ year) (h2 : year < u32_mod - 1) (h3 : 1 ≤ mon) where
  civil_days-next_day :
      (day : ℕ)
      → mon ≤ 12
      → 1 ≤ day
      → day < days_in_month year mon
      → civil_days year mon (day + 1) ≡ civil_days year mon day + 1
  civil_days-next_day day h4 h5 h6 =
      let b = days_in_month-le year mon in
      omega (
        arith,
        civil_days-linear year mon day h1 (omega arith) h3 h4 h5 (omega arith),
        civil_days-linear year mon (day + 1) h1 (omega arith) h3 h4 (omega arith) (omega arith),
      )

  pub civil_days-next_month :
      mon < 12
      → 1 ≤ days_in_month year mon
      → civil_days year (mon + 1) 1 ≡ civil_days year mon (days_in_month year mon) + 1
  civil_days-next_month h4 h5 =
      let a =
        civil_days-linear year mon (days_in_month year mon) h1 (omega arith) h3 (omega arith) h5
          (days_in_month-le year mon) in
      let b =
        civil_days-linear year (mon + 1) 1 h1 (omega arith) (omega arith) (omega arith)
          (omega arith) (omega arith) in
      elim (Bool-cases (mon == 2)) [
        | inl feb ↦
            let m : mon ≡ 2 = ground arith in
            let m' : mon + 1 ≡ 3 = omega arith in rw (m', m) (february year h1 h2)
        | inr ne ↦ ground (arith, month_start-suc year mon h3 h4 (ground arith))
      ]

pub civil_days-next_year :
    (year : ℕ)
    → 1970 ≤ year
    → year < u32_mod - 1
    → civil_days (year + 1) 1 1 ≡ civil_days year 12 31 + 1
civil_days-next_year year h1 h2 =
    let a =
      civil_days-linear year 12 31 h1 (omega arith) (omega arith) (omega arith) (omega arith)
        (omega arith) in
    let b =
      civil_days-linear (year + 1) 1 1 (omega arith) (omega arith) (omega arith) (omega arith)
        (omega arith) (omega arith) in
    ground arith

pub days_in_month_pos : (year mon : ℕ) → 1 ≤ mon → mon ≤ 12 → 1 ≤ days_in_month year mon
unfolding days_in_month
days_in_month_pos year mon h k = ground arith

pub december : (year : ℕ) → days_in_month year 12 ≡ 31
unfolding days_in_month
december year = refl

pub civil_days_bound : (c : TimeCivil) → IsDate c → civil_days c.year c.mon c.day < 2 ^ 41
civil_days_bound c v =
    let small = days_in_month-le c.year c.mon in
    let a =
      civil_days-linear c.year c.mon c.day v.year_range.0 (omega arith) v.mon_range.0 v.mon_range.1
        v.day_range.0 (omega arith) in
    omega (arith, month_start_bound c.mon v.mon_range.1)

abbrev pub days_of : TimeCivil → ℕ
days_of c = civil_days c.year c.mon c.day

days_of-next : (c : TimeCivil) → IsDate c → days_of (next_day c) ≡ days_of c + 1
days_of-next c v = elim (Bool-cases (ltb c.day (days_in_month c.year c.mon))) [
  | inl same ↦ rw same (
      civil_days-next_day c.year c.mon v.year_range.0 v.year_range.1 v.mon_range.0 c.day
        v.mon_range.1 v.day_range.0 (ltb→lt _ _ same))
  | inr last ↦
      let e : c.day ≡ days_in_month c.year c.mon = ground arith in
      elim (Bool-cases (ltb c.mon 12)) [
        | inl inner ↦
            rw (last, inner, e)
              (civil_days-next_month c.year c.mon v.year_range.0 v.year_range.1 v.mon_range.0
                (ltb→lt _ _ inner) (days_in_month_pos c.year c.mon v.mon_range.0 v.mon_range.1))
        | inr turn ↦
            let m : c.mon ≡ 12 = ground arith in
            let d : c.day ≡ 31 = e ∙ ap (days_in_month c.year) m ∙ december c.year in
            rw (last, turn)
              (civil_days-next_year c.year v.year_range.0 v.year_range.1
                ∙ ap (λ t. t + 1)
                    (ap (λ t. civil_days c.year t 31) (sym m)
                      ∙ ap (civil_days c.year c.mon) (sym d)))
      ]
]

pub civil_to_epoch-linear :
    (c : TimeCivil)
    → days_of c ≤ 2 ^ 41
    → (c.hour < 24) × (c.min < 60) × (c.sec < 60)
    → civil_to_epoch c ≡ days_of c * 86400 + c.hour * 3600 + c.min * 60 + c.sec
unfolding civil_to_epoch
civil_to_epoch-linear c h t = omega arith

next_day-time :
    (c : TimeCivil)
    → ((next_day c).hour ≡ c.hour) × ((next_day c).min ≡ c.min) × ((next_day c).sec ≡ c.sec)
next_day-time c = ground arith

-- From each valid date, the same time on the next calendar day is 86400 seconds later, across the
-- ends of months, of years and of leap Februaries.
pub civil_to_epoch-next_day :
    (c : TimeCivil) → IsDate c → civil_to_epoch (next_day c) ≡ civil_to_epoch c + 86400
civil_to_epoch-next_day c v =
    let next = days_of-next c v in
    let bound = civil_days_bound c v in
    let time = next_day-time c in
    omega (
      arith,
      civil_to_epoch-linear c (omega arith) v.time_range,
      civil_to_epoch-linear (next_day c) (omega arith) (omega arith),
      v.time_range,
    )

-- ===== src/Fake/Log/Civil.antt =====
-- lightr-cri-fake: the calendar of `epoch_to_ymd_hms`.
use lightr_cri.Prelude.{
  ℕ, zero, suc, ◌+◌, ◌-◌, ◌*◌, ◌/◌, ◌%◌, ◌≤◌, ◌<◌, ◌==◌, ◌≡◌, refl, Bool, true, false, leb, ltb,
  ◌&&◌, arith, not, ◌||◌, if◌then◌else◌, ap, ap₂, ◌∙◌, sym, Bool-cases, inl, inr,
}
use lightr_cri.Fake.Log.{year_of_era, day_of_year, month_shifted, civil}

lt_of_ltb : {a b : ℕ} → ltb a b ≡ true → a < b
lt_of_ltb e = ground arith

le_of_ltb : {a b : ℕ} → ltb a b ≡ false → b ≤ a
le_of_ltb e = ground arith

-- The day of the era on which a year of the era, from March on, begins.
start : ℕ → ℕ
start y = 365 * y + y / 4 - y / 100 + y / 400

year_of_era_lt : (doe : ℕ) → doe < 146097 → year_of_era doe < 400
unfolding year_of_era
year_of_era_lt doe h = omega arith

start_le : (doe : ℕ) → doe < 146097 → start (year_of_era doe) ≤ doe
unfolding year_of_era start
start_le doe h = omega arith

lt_start : (doe : ℕ) → doe < 146097 → doe < start (year_of_era doe + 1)
unfolding year_of_era start
lt_start doe h = omega arith

start_mono : (a b : ℕ) → a < b → start (a + 1) ≤ start b
unfolding start
start_mono a b h = omega arith

year_of_era_unique :
    (doe y : ℕ) → doe < 146097 → start y ≤ doe → doe < start (y + 1) → year_of_era doe ≡ y
year_of_era_unique doe y h a b = ground (
  arith,
  start_mono (year_of_era doe) y,
  start_mono y (year_of_era doe),
  start_le doe h,
  lt_start doe h,
)

abbrev pub is_leap : ℕ → Bool
is_leap y = (y % 4 == 0) && (not (y % 100 == 0) || (y % 400 == 0))

abbrev pub days_in : ℕ → ℕ → ℕ
days_in y m =
    if m == 2
    then (if is_leap y then 29 else 28)
    else if (m == 4) || ((m == 6) || ((m == 9) || (m == 11)))
    then 30
    else 31

-- The day after a date of the Gregorian calendar.
unfoldable pub next_day : ℕ × ℕ × ℕ → ℕ × ℕ × ℕ
next_day (y, m, d) =
    if ltb d (days_in y m) then (y, m, d + 1) else if ltb m 12 then (y, m + 1, 1) else (y + 1, 1, 1)

-- The length of the year that begins in March of `y`: with the February of the next year.
march_year : ℕ → ℕ
march_year y = if is_leap (y + 1) then 366 else 365

start_next : (y : ℕ) → start (y + 1) ≡ start y + march_year y
unfolding start march_year
start_next y = ground arith

day_of_year_eq : (doe : ℕ) → doe < 146097 → day_of_year doe ≡ doe - start (year_of_era doe)
unfolding day_of_year start
day_of_year_eq doe h = omega (arith, year_of_era_lt doe h)

-- The date of a day of the year that begins in March of `y`.
date_of : ℕ → ℕ → ℕ × ℕ × ℕ
date_of y doy =
    let mp = month_shifted doy in
    let mo = if ltb mp 10 then mp + 3 else mp - 9 in
    (if leb mo 2 then y + 1 else y, mo, doy - (153 * mp + 2) / 5 + 1)

date_of_early : (y doy : ℕ) → doy < 306 → date_of y (doy + 1) ≡ next_day (date_of y doy)
unfolding date_of next_day month_shifted
date_of_early y doy h = ground arith

date_of_late :
    (y doy : ℕ)
    → 306 ≤ doy
    → doy + 1 < march_year y
    → date_of y (doy + 1) ≡ next_day (date_of y doy)
unfolding date_of next_day march_year month_shifted
date_of_late y doy k h = ground arith

date_of_last : (y doy : ℕ) → doy + 1 ≡ march_year y → date_of (y + 1) 0 ≡ next_day (date_of y doy)
unfolding date_of next_day march_year month_shifted
date_of_last y doy h = ground arith

-- The date of a day of an era.
era_date : ℕ → ℕ → ℕ × ℕ × ℕ
era_date era doe = date_of (year_of_era doe + era * 400) (day_of_year doe)

civil_eq : (days : ℕ) → civil days ≡ era_date ((days + 719468) / 146097) ((days + 719468) % 146097)
unfolding civil date_of era_date
civil_eq days = refl

march_year_era : (y e : ℕ) → march_year (y + e * 400) ≡ march_year y
unfolding march_year
march_year_era y e = ground arith

-- The day of the era behind a day, in the same year or on the first of the next.
same_year :
    (doe : ℕ)
    → doe + 1 < start (year_of_era doe + 1)
    → doe < 146096
    → (year_of_era (doe + 1) ≡ year_of_era doe) × (day_of_year (doe + 1) ≡ day_of_year doe + 1)
same_year doe h k =
    let y = year_of_era doe in
    let le = start_le doe (omega arith) in
    let same = year_of_era_unique (doe + 1) y (omega arith) (omega arith) h in
    (
      same,
      ground (
        arith,
        same,
        le,
        day_of_year_eq doe (omega arith),
        day_of_year_eq (doe + 1) (omega arith),
      ),
    )

year_of_era_succ :
    (doe : ℕ)
    → doe + 1 ≡ start (year_of_era doe + 1)
    → doe < 146096
    → (year_of_era (doe + 1) ≡ year_of_era doe + 1) × (day_of_year (doe + 1) ≡ 0)
unfolding start
year_of_era_succ doe h k =
    let y = year_of_era doe in
    let after = start_mono y (y + 1) in
    let same =
      year_of_era_unique (doe + 1) (y + 1) (omega arith) (omega arith)
        (omega (arith, h, start_mono (y + 1) (y + 2) (omega arith), start_next (y + 1))) in
    (same, ground (arith, same, h, day_of_year_eq (doe + 1) (omega arith)))

civil_zero : civil 0 ≡ (1970, 1, 1)
unfolding civil year_of_era day_of_year month_shifted
civil_zero = refl

last_of_era : (era : ℕ) → era_date (era + 1) 0 ≡ next_day (era_date era 146096)
unfolding era_date year_of_era day_of_year march_year
last_of_era era =
    ap (λ y. date_of y 0) (omega arith) ∙ date_of_last (399 + era * 400) 365 (ground arith)

date_of_next : (y doy : ℕ) → doy + 1 < march_year y → date_of y (doy + 1) ≡ next_day (date_of y doy)
date_of_next y doy h = elim (Bool-cases (ltb doy 306)) [
  | inl e ↦ date_of_early y doy (ground arith)
  | inr e ↦ date_of_late y doy (ground arith) h
]

era_date_next : (era doe : ℕ) → doe < 146096 → era_date era (doe + 1) ≡ next_day (era_date era doe)
unfolding era_date
era_date_next era doe h =
    let y = year_of_era doe in
    let len = march_year_era y era in
    let le = start_le doe (omega arith) in
    let eq = day_of_year_eq doe (omega arith) in
    let total = start_next y in
    elim (Bool-cases (ltb (doe + 1) (start (y + 1)))) [
      | inl e ↦
          let s = same_year doe (ground arith) h in
          ap₂ date_of (ap (λ n. n + era * 400) s.0) s.1
          ∙ date_of_next (y + era * 400) (day_of_year doe) (ground (arith, len, le, eq, total))
      | inr e ↦
          let at_end : doe + 1 ≡ start (y + 1) = ground (arith, lt_start doe (omega arith)) in
          let s = year_of_era_succ doe at_end h in
          ap₂ date_of (ap (λ n. n + era * 400) s.0 ∙ omega arith) s.1
          ∙ date_of_last (y + era * 400) (day_of_year doe) (ground (arith, len, le, eq, total))
    ]

civil_next : (days : ℕ) → civil (suc days) ≡ next_day (civil days)
civil_next days =
    let z = days + 719468 in
    civil_eq (suc days)
    ∙ elim (Bool-cases (ltb (z % 146097) 146096)) [
      | inl e ↦
          ap₂ era_date (omega (arith, lt_of_ltb e)) (omega (arith, lt_of_ltb e))
          ∙ era_date_next (z / 146097) (z % 146097) (lt_of_ltb e)
      | inr e ↦
          ap₂ era_date (omega (arith, le_of_ltb e)) (omega (arith, le_of_ltb e))
          ∙ last_of_era (z / 146097)
          ∙ ap (λ n. next_day (era_date (z / 146097) n)) (omega (arith, le_of_ltb e))
    ]
    ∙ ap next_day (sym (civil_eq days))

-- The n-th day after 1970-01-01, counted day by day on the Gregorian calendar.
unfoldable pub day_after_epoch : ℕ → ℕ × ℕ × ℕ
day_after_epoch zero = (1970, 1, 1)
day_after_epoch (suc n) = next_day (day_after_epoch n)

-- The arithmetic of `epoch_to_ymd_hms` on days is the Gregorian calendar: the date of every count
-- of days is what one gets by stepping from 1970-01-01 a day at a time, with the lengths of the
-- months and the leap years of the calendar.
pub civil-day_after_epoch : (days : ℕ) → civil days ≡ day_after_epoch days
unfolding day_after_epoch
civil-day_after_epoch zero = civil_zero
civil-day_after_epoch (suc n) = civil_next n ∙ ap next_day (civil-day_after_epoch n)

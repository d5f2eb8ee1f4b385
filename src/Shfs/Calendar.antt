-- ===== src/Shfs/Calendar.antt =====
-- The date that strctime (shfs.c) finds is the right one.
pub mod Months
use mathlib.Core.Path.{subst}
use okfs.Base.{
  ℕ, zero, suc, ◌+◌, ◌-◌, ◌*◌, ◌/◌, ◌%◌, ◌<◌, ◌≤◌, ◌≡◌, refl, ap, ◌∙◌, Bool, true, false, ◌&&◌,
  ◌||◌, some, ◌==◌, ltb, leb, if◌then◌else◌, arith, Bool-cases, inl, inr,
}
use okfs.Shfs.Clock.{
  isleap, spm, spd, Date, year_days, year_loop, month_loop, month_and_day, strctime,
}
use okfs.Shfs.Calendar.Months.{month_days, before_month, month_and_day-days}

-- The leap years of the calendar: those that 400 divides, and those that 4 divides but 100 does not.
abbrev pub leap_year : ℕ → Bool
leap_year year = if year % 400 == 0 then true else if year % 100 == 0 then false else year % 4 == 0

abbrev pub days_in : ℕ → ℕ
days_in year = if leap_year year then 366 else 365

isleap-leap_year : (year : ℕ) → isleap year ≡ leap_year year
isleap-leap_year year = ground arith

year_days-days_in : (year : ℕ) → year_days year ≡ days_in year
year_days-days_in year = ap (λ b. if b then 366 else 365) (isleap-leap_year year)

-- The days of n years from a year on
pub days_from : (i n : ℕ) → ℕ
days_from i zero = 0
days_from i (suc n) = days_in i + days_from (i + 1) n

-- The seconds from the beginning of 1970 to a date
pub seconds_of : Date → ℕ
seconds_of d =
    (days_from 1970 (d.year - 1970) + before_month (leap_year d.year) (d.month - 1) + (d.day - 1))
      * 86400
    + d.hour * 3600
    + d.min * 60
    + d.sec

pub IsDate : Date → Type 0
IsDate d =
    (1970 ≤ d.year)
    × (0 < d.month)
    × (d.month ≤ 12)
    × (0 < d.day)
    × (d.day ≤ month_days (leap_year d.year) d.month)
    × (d.hour < 24)
    × (d.min < 60)
    × (d.sec < 60)

no_years : (i : ℕ) → i ≡ i + 0
no_years i = omega arith

one_year : (i n : ℕ) → i + 1 + n ≡ i + suc n
one_year i n = omega arith

-- The loop over the years ends with a year that the days that are left fit into.
year_loop-days :
    (fuel i work : ℕ)
    → work < fuel
    → (n : ℕ) × (w : ℕ) × (year_loop fuel i work ≡ some (i + n, w))
      × (days_from i n + w ≡ work)
      × (w < year_days (i + n))
unfolding year_loop days_from
year_loop-days zero i work h = absurd (omega arith)
year_loop-days (suc fuel) i work h = elim (Bool-cases (leb (year_days i) work)) [
  | inl e ↦
      let (n, w, runs, sum, fits) = year_loop-days fuel (i + 1) (work - year_days i) (enough e) in
      (
        suc n,
        w,
        rw e (runs ∙ ap (λ y. some (y, w)) (omega arith)),
        whole_year (days_from (i + 1) n) w e sum,
        subst (λ y. w < year_days y) (one_year i n) fits,
      )
  | inr e ↦ (0, work, rw e (ap (λ y. some (y, work)) (omega arith)), omega arith, fits_here e)
]
  where
    whole_year :
        (days w : ℕ)
        → leb (year_days i) work ≡ true
        → days + w ≡ work - year_days i
        → days_in i + days + w ≡ work
    whole_year days w e sum =
        subst (λ y. y + days + w ≡ work) (year_days-days_in i) (go (year_days i) e sum)
      where
        go : (y : ℕ) → leb y work ≡ true → days + w ≡ work - y → y + days + w ≡ work
        go y e sum = ground arith

    enough : leb (year_days i) work ≡ true → work - year_days i < fuel
    enough e = ground arith

    fits_here : leb (year_days i) work ≡ false → work < year_days (i + 0)
    fits_here e = subst (λ y. work < year_days y) (no_years i) (ground arith)

year_fits : (year w : ℕ) → w < year_days year → w < (if isleap year then 366 else 365)
year_fits year w h = h

all_seconds :
    (years months days w time : ℕ)
    → years + w ≡ time / spd
    → months + days ≡ w
    → (years + months + days) * 86400
        + time % spd / 60 / 60 * 3600
        + time % spd / 60 % 60 * 60
        + time % spd % 60
      ≡ time
all_seconds years months days w time h e = omega arith

strctime-runs :
    (time year w month day : ℕ)
    → year_loop (time / spd + 1) 1970 (time / spd) ≡ some (year, w)
    → month_and_day (isleap year) w ≡ (month, day)
    → strctime time
      ≡ some (record {
        year = year;
        month = month;
        day = day;
        hour = time % spd / 60 / 60;
        min = time % spd / 60 % 60;
        sec = time % spd % 60;
      })
unfolding strctime
strctime-runs time year w month day runs finds =
    rw (runs, strctime)
      (ap
        (λ (md : ℕ × ℕ). some (record {
          year = year;
          month = md.0;
          day = md.1;
          hour = time % spd / 60 / 60;
          min = time % spd / 60 % 60;
          sec = time % spd % 60;
        }))
        finds)

-- Every time from the beginning of 1970 on, of whatever size, has a date: strctime finds it, it is one
-- of the calendar with its leap years, and it is that number of seconds after the beginning of 1970.
-- Times before 1970, which time_t also has, are not among those that are meant.
pub seconds_of-strctime :
    (time : ℕ) → (d : Date) × (strctime time ≡ some d) × IsDate d × (seconds_of d ≡ time)
unfolding seconds_of IsDate
seconds_of-strctime time =
    let (n, w, runs, years, fits) =
      year_loop-days (time / spd + 1) 1970 (time / spd) (omega arith) in
    let (m, d, finds, l, positive, days, in_it) =
      month_and_day-days (isleap (1970 + n)) w (year_fits (1970 + n) w fits) in
    let same = isleap-leap_year (1970 + n) in
    (
      record {
        year = 1970 + n;
        month = m + 1;
        day = d;
        hour = time % spd / 60 / 60;
        min = time % spd / 60 % 60;
        sec = time % spd % 60;
      },
      strctime-runs time (1970 + n) w (m + 1) d runs finds,
      (
        omega arith,
        omega arith,
        omega arith,
        positive,
        subst (λ b. d ≤ month_days b (m + 1)) same in_it,
        omega arith,
        omega arith,
        omega arith,
      ),
      ap
            (λ y.
              (days_from 1970 y + before_month (leap_year (1970 + n)) (m + 1 - 1) + (d - 1)) * 86400
              + time % spd / 60 / 60 * 3600
              + time % spd / 60 % 60 * 60
              + time % spd % 60)
            (omega arith)
          ∙ ap
              (λ y.
                (days_from 1970 n + before_month (leap_year (1970 + n)) y + (d - 1)) * 86400
                + time % spd / 60 / 60 * 3600
                + time % spd / 60 % 60 * 60
                + time % spd % 60)
              (omega arith)
          ∙ all_seconds (days_from 1970 n) (before_month (leap_year (1970 + n)) m) (d - 1) w time
              years (subst (λ b. before_month b m + (d - 1) ≡ w) same days),
    )

-- ===== src/Shfs/Clock.antt =====
-- strctime of shfs.c: the date and the time of day of a number of seconds from the beginning of 1970
-- on. For a negative time_t, which utime() passes as well, C rounds towards 0 and keeps negative
-- remainders, which is not modelled.
use okfs.Base.{
  ℕ, zero, suc, ◌+◌, ◌-◌, ◌/◌, ◌%◌, Bool, not, ◌&&◌, ◌||◌, Option, none, some, ◌==◌, ltb, leb,
  if◌then◌else◌, List, [], ◌∷◌, get_elem?,
}

-- isleap
abbrev pub isleap : ℕ → Bool
isleap year = year % 4 == 0 && (not (year % 100 == 0) || year % 400 == 0)

-- __spm, the days in front of each month of a year that is no leap year; the last entry is not read.
abbrev pub spm_table : List ℕ
spm_table = 0 ∷ 31 ∷ 59 ∷ 90 ∷ 120 ∷ 151 ∷ 181 ∷ 212 ∷ 243 ∷ 273 ∷ 304 ∷ 334 ∷ 365 ∷ []

-- __spm[i]
abbrev pub spm : ℕ → ℕ
spm i = elim (get_elem? spm_table i) [ none ↦ 0 | some d ↦ d ]

-- SPD
abbrev pub spd : ℕ
spd = 86400

-- What strctime prints: the month counts from 1.
pub record Date : Type 0 where
  pub year : ℕ
  pub month : ℕ
  pub day : ℕ
  pub hour : ℕ
  pub min : ℕ
  pub sec : ℕ

abbrev pub year_days : ℕ → ℕ
year_days year = if isleap year then 366 else 365

-- The loop over the years, with the days that are left; `none`: out of fuel.
unfoldable pub year_loop : (fuel i work : ℕ) → Option (ℕ × ℕ)
year_loop zero i work = none
year_loop (suc fuel) i work =
    let next = year_loop fuel (i + 1) (work - year_days i) in
    if leb (year_days i) work then next else some (i, work)

-- The loop over the months, down to 0.
unfoldable pub month_loop : (i work : ℕ) → ℕ
month_loop zero work = 0
month_loop (suc i) work =
    let next = month_loop i work in if ltb work (spm (suc i)) then next else suc i

-- The month and the day, from the day of the year; a leap year's days from 29 February on are counted
-- one less.
unfoldable pub month_and_day : (leap : Bool) → (work : ℕ) → ℕ × ℕ
unfolding month_loop
month_and_day leap work =
    let late = leap && ltb 58 work in
    let work' = if late then work - 1 else work in
    let day = if late && work == 59 then 2 else 1 in
    let month = month_loop 11 work' in (month + 1, day + work' - spm month)

-- strctime of a time that is not negative, with as much fuel as there are days
unfoldable pub strctime : ℕ → Option Date
unfolding year_loop month_and_day
strctime time = elim (year_loop (time / spd + 1) 1970 (time / spd)) [
  | none ↦ none
  | some r ↦
      let md = month_and_day (isleap r.0) r.1 in
      some (record {
        year = r.0;
        month = md.0;
        day = md.1;
        hour = time % spd / 60 / 60;
        min = time % spd / 60 % 60;
        sec = time % spd % 60;
      })
]

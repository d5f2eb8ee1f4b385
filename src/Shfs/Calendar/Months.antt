-- ===== src/Shfs/Calendar/Months.antt =====
-- The month and the day that strctime (shfs.c) takes from the day of the year
use okfs.Base.{
  ℕ, zero, suc, ◌+◌, ◌-◌, ◌<◌, ◌≤◌, ◌≡◌, refl, Bool, true, false, ◌&&◌, ◌||◌, ◌==◌, ltb, leb,
  if◌then◌else◌, arith, Bool-cases, inl, inr,
}
use okfs.Shfs.Clock.{spm, month_loop, month_and_day}

-- The days of a month, which counts from 1
abbrev pub month_days : (leap : Bool) → ℕ → ℕ
month_days leap m =
    if m == 2
    then (if leap then 29 else 28)
    else if m == 4 || m == 6 || m == 9 || m == 11
    then 30
    else 31

-- The days of a year in front of the month m + 1
pub before_month : (leap : Bool) → ℕ → ℕ
before_month leap zero = 0
before_month leap (suc m) = before_month leap m + month_days leap (suc m)

before_month-spm :
    (m : ℕ) (leap : Bool)
    → m ≤ 12
    → before_month leap m ≡ (if leap && ltb 1 m then spm m + 1 else spm m)
unfolding before_month
before_month-spm zero leap l = ground arith
before_month-spm (suc zero) leap l = ground arith
before_month-spm (suc (suc zero)) leap l = ground arith
before_month-spm (suc (suc (suc zero))) leap l = ground arith
before_month-spm (suc (suc (suc (suc zero)))) leap l = ground arith
before_month-spm (suc (suc (suc (suc (suc zero))))) leap l = ground arith
before_month-spm (suc (suc (suc (suc (suc (suc zero)))))) leap l = ground arith
before_month-spm (suc (suc (suc (suc (suc (suc (suc zero))))))) leap l = ground arith
before_month-spm (suc (suc (suc (suc (suc (suc (suc (suc zero)))))))) leap l = ground arith
before_month-spm (suc (suc (suc (suc (suc (suc (suc (suc (suc zero))))))))) leap l = ground arith
before_month-spm (suc (suc (suc (suc (suc (suc (suc (suc (suc (suc zero)))))))))) leap l =
    ground arith
before_month-spm (suc (suc (suc (suc (suc (suc (suc (suc (suc (suc (suc zero))))))))))) leap l =
    ground arith
before_month-spm (suc (suc (suc (suc (suc (suc (suc (suc (suc (suc (suc (suc zero)))))))))))) leap
      l =
    ground arith
before_month-spm (suc (suc (suc (suc (suc (suc (suc (suc (suc (suc (suc (suc (suc m)))))))))))))
      leap l =
    absurd (omega arith)

month_loop-spm :
    (i work : ℕ)
    → i ≤ 11
    → work < spm (suc i)
    → (m : ℕ) × (month_loop i work ≡ m) × (m ≤ 11) × (spm m ≤ work) × (work < spm (suc m))
unfolding month_loop
month_loop-spm zero work l h = (0, refl, omega arith, omega arith, h)
month_loop-spm (suc i) work l h = elim (Bool-cases (ltb work (spm (suc i)))) [
  | inl e ↦
      (let (m, runs, l', lower, upper) = month_loop-spm i work (omega arith) (ground arith) in
        (m, rw e runs, l', lower, upper))
  | inr e ↦ (suc i, rw e refl, l, ground arith, h)
]

late_month : (m : ℕ) → m ≤ 12 → ltb 1 m ≡ leb 59 (spm m)
late_month zero l = refl
late_month (suc zero) l = refl
late_month (suc (suc zero)) l = refl
late_month (suc (suc (suc zero))) l = refl
late_month (suc (suc (suc (suc zero)))) l = refl
late_month (suc (suc (suc (suc (suc zero))))) l = refl
late_month (suc (suc (suc (suc (suc (suc zero)))))) l = refl
late_month (suc (suc (suc (suc (suc (suc (suc zero))))))) l = refl
late_month (suc (suc (suc (suc (suc (suc (suc (suc zero)))))))) l = refl
late_month (suc (suc (suc (suc (suc (suc (suc (suc (suc zero))))))))) l = refl
late_month (suc (suc (suc (suc (suc (suc (suc (suc (suc (suc zero)))))))))) l = refl
late_month (suc (suc (suc (suc (suc (suc (suc (suc (suc (suc (suc zero))))))))))) l = refl
late_month (suc (suc (suc (suc (suc (suc (suc (suc (suc (suc (suc (suc zero)))))))))))) l = refl
late_month (suc (suc (suc (suc (suc (suc (suc (suc (suc (suc (suc (suc (suc m))))))))))))) l =
    absurd (omega arith)

in_month :
    (leap : Bool) (work m : ℕ)
    → m ≤ 11
    → spm m ≤ work - 1
    → work - 1 < spm (suc m)
    → (leap && ltb 58 work) ≡ true
    → (0 < (if work == 59 then 2 else 1) + (work - 1) - spm m)
      × (before_month leap m + ((if work == 59 then 2 else 1) + (work - 1) - spm m - 1) ≡ work)
      × ((if work == 59 then 2 else 1) + (work - 1) - spm m ≤ month_days leap (m + 1))
unfolding before_month
in_month leap work m l lower upper e = ground (
  arith,
  before_month-spm m leap (omega arith),
  before_month-spm (suc m) leap (omega arith),
  late_month m (omega arith),
  late_month (suc m) (omega arith),
)

in_early_month :
    (leap : Bool) (work m : ℕ)
    → m ≤ 11
    → spm m ≤ work
    → work < spm (suc m)
    → (leap && ltb 58 work) ≡ false
    → (0 < 1 + work - spm m)
      × (before_month leap m + (1 + work - spm m - 1) ≡ work)
      × (1 + work - spm m ≤ month_days leap (m + 1))
unfolding before_month
in_early_month leap work m l lower upper e = ground (
  arith,
  before_month-spm m leap (omega arith),
  before_month-spm (suc m) leap (omega arith),
  late_month m (omega arith),
  late_month (suc m) (omega arith),
)

-- The month and the day of a day of the year
pub month_and_day-days :
    (leap : Bool) (work : ℕ)
    → work < (if leap then 366 else 365)
    → (m : ℕ) × (d : ℕ) × (month_and_day leap work ≡ (m + 1, d))
      × (m ≤ 11)
      × (0 < d)
      × (before_month leap m + (d - 1) ≡ work)
      × (d ≤ month_days leap (m + 1))
unfolding month_and_day
month_and_day-days leap work h = go (leap && ltb 58 work) refl
  where
    Goal : Type 0
    Goal =
        (m : ℕ) × (d : ℕ) × (month_and_day leap work ≡ (m + 1, d))
        × (m ≤ 11)
        × (0 < d)
        × (before_month leap m + (d - 1) ≡ work)
        × (d ≤ month_days leap (m + 1))

    go : (late : Bool) → (leap && ltb 58 work) ≡ late → Goal
    go true e =
        let (m, runs, l, lower, upper) =
          month_loop-spm 11 (work - 1) (omega arith) (ground arith) in
        let day = if work == 59 then 2 else 1 in
        let (positive, sum, fits) = in_month leap work m l lower upper e in
        (m, day + (work - 1) - spm m, rw (e, month_and_day, runs) refl, l, positive, sum, fits)
    go false e =
        let (m, runs, l, lower, upper) = month_loop-spm 11 work (omega arith) (ground arith) in
        let (positive, sum, fits) = in_early_month leap work m l lower upper e in
        (m, 1 + work - spm m, rw (e, month_and_day, runs) refl, l, positive, sum, fits)

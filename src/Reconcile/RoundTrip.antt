-- ===== src/Reconcile/RoundTrip.antt =====
-- Dates of src-tauri/src/reconcile.rs: `civil_from_days` gives back what `days_from_civil` counted.
use duegood.Base.{
  ℕ, zero, suc, ◌+◌, ◌-◌, ◌*◌, ◌/◌, ◌%◌, ◌≤◌, ◌<◌, true, ◌&&◌, leb, ◌==◌, Bool-cases, ◌≡◌, ◌∙◌, ◌⊎◌,
  ◌≢◌, refl, ap, inl, inr, if◌then◌else◌, arith,
}
use duegood.Reconcile.Int.{pos, ◌+ℤ◌, ◌-ℤ◌}
use duegood.Reconcile.Time.{
  is_leap_year, days_in_month, from_march, to_march, days_from_civil, civil_from_days,
}

-- the days of the years of an era in front of one, and a day of it
abbrev day_of_era : ℕ → ℕ → ℕ
day_of_era y d = y * 365 + y / 4 - y / 100 + d

-- the formula for the year
abbrev year_at : ℕ → ℕ
year_at n = (n - n / 1460 + n / 36524 - n / 146096) / 365

year_lem : (y d : ℕ) → y ≤ 399 → d ≤ 364 → year_at (day_of_era y d) ≡ y
year_lem y d h k = omega arith

-- the last day of a long year
leap_lem : (y : ℕ) → y ≤ 399 → y % 4 ≡ 3 → y % 100 < 99 → year_at (day_of_era y 365) ≡ y
leap_lem y h k l = omega arith

leap_era_lem : year_at (day_of_era 399 365) ≡ 399
leap_era_lem = refl

-- a day that its month, counted from March, has
abbrev Fits : ℕ → ℕ → Type 0
Fits m d = (153 * m + 2) / 5 + d ≤ (153 * (m + 1) + 2) / 5

month_lem : (m d : ℕ) → m ≤ 11 → Fits m d → 1 ≤ d → (((153 * m + 2) / 5 + d - 1) * 5 + 2) / 153 ≡ m
month_lem m d h k l = omega arith

days-Fits : (y m d : ℕ) → 1 ≤ m → m ≤ 12 → d ≤ days_in_month y m → Fits (from_march m) d
unfolding days_in_month
days-Fits y m d h k l = ground arith

minus_lem : (a b : ℕ) → b ≤ a → pos a -ℤ pos b ≡ pos (a - b)
minus_lem a zero h = ground arith
minus_lem a (suc b) h = ground arith

shift_lem : (a : ℕ) → pos a -ℤ pos 719468 +ℤ pos 719468 ≡ pos a
shift_lem a = ground arith

-- the year that starts in March, and the day of it
abbrev march_year : ℕ → ℕ → ℕ
march_year y m = y - (if leb m 2 then 1 else 0)

abbrev day_of_year : ℕ → ℕ → ℕ
day_of_year m d = (153 * from_march m + 2) / 5 + d - 1

-- the days since the start of the first era
abbrev era_days : ℕ → ℕ → ℕ
era_days y n = y / 400 * 146097 + day_of_era (y % 400) n

forward_lem :
    (y m d : ℕ)
    → 1 ≤ y
    → days_from_civil y m d ≡ pos (era_days (march_year y m) (day_of_year m d)) -ℤ pos 719468
unfolding days_from_civil
forward_lem y m d h =
    let k = march_year y m in
    let n = k % 400 in
    let year = minus_lem y (if leb m 2 then 1 else 0) (ground arith) in
    let rest : pos k -ℤ pos (k / 400 * 400) ≡ pos n =
      minus_lem k (k / 400 * 400) (omega arith) ∙ ap pos (omega arith) in
    let sum : pos (n * 365 + n / 4) -ℤ pos (n / 100) ≡ pos (n * 365 + n / 4 - n / 100) =
      minus_lem (n * 365 + n / 4) (n / 100) (omega arith) in
    rw (year, days_from_civil) (rw (rest) (rw (sum) refl))

backward_lem :
    (k n month : ℕ)
    → n ≤ 365
    → year_at (day_of_era (k % 400) n) ≡ k % 400
    → (n * 5 + 2) / 153 ≡ month
    → (month * 153 + 2) / 5 ≤ n
    → civil_from_days (pos (era_days k n) -ℤ pos 719468) ≡ (
      pos (k + (if leb (to_march month) 2 then 1 else 0)),
      (to_march month, n - (month * 153 + 2) / 5 + 1),
    )
unfolding civil_from_days
backward_lem k n month h y m l =
    let e = era_days k n in
    let c = k % 400 in
    let w = day_of_era c n in
    let era : e / 146097 ≡ k / 400 = omega arith in
    let day : pos e -ℤ pos (k / 400 * 146097) ≡ pos w =
      minus_lem e (k / 400 * 146097) (omega arith) ∙ ap pos (omega arith) in
    let one : pos w -ℤ pos (w / 1460) ≡ pos (w - w / 1460) = minus_lem w (w / 1460) (omega arith) in
    let two : pos (w - w / 1460 + w / 36524) -ℤ pos (w / 146096)
        ≡ pos (w - w / 1460 + w / 36524 - w / 146096) =
      minus_lem (w - w / 1460 + w / 36524) (w / 146096) (omega arith) in
    let three : pos (c * 365 + c / 4) -ℤ pos (c / 100) ≡ pos (c * 365 + c / 4 - c / 100) =
      minus_lem (c * 365 + c / 4) (c / 100) (omega arith) in
    let four : pos w -ℤ pos (c * 365 + c / 4 - c / 100) ≡ pos n =
      minus_lem w (c * 365 + c / 4 - c / 100) (omega arith) ∙ ap pos (omega arith) in
    let five : pos n -ℤ pos ((month * 153 + 2) / 5) ≡ pos (n - (month * 153 + 2) / 5) =
      minus_lem n ((month * 153 + 2) / 5) l in
    let six : c + k / 400 * 400 ≡ k = omega arith in
    rw (shift_lem e, civil_from_days)
      (rw (era) (
        rw (day) (
          rw (one)
            (rw (two) (rw (y) (rw (three) (rw (four) (rw (m) (rw (five) (rw (six) refl))))))))))

-- the last day of a long year is the 29th of February of a leap year
last-IsLeap :
    (y m d : ℕ)
    → 1 ≤ m
    → m ≤ 12
    → d ≤ days_in_month y m
    → (day_of_year m d ≤ 364) ⊎ ((day_of_year m d ≡ 365) × (is_leap_year y ≡ true) × (m ≡ 2))
unfolding days_in_month
last-IsLeap y m d h k l = elim (Bool-cases (m == 2 && is_leap_year y && d == 29)) [
  | inl e ↦ inr (ground (arith, e), ground (arith, e), ground (arith, e))
  | inr e ↦ inl (ground (arith, e))
]

era_end : (y : ℕ) → 1 ≤ y → y % 400 ≡ 0 → (y - 1) % 400 ≡ 399
era_end y h k = omega arith

leap_before : (y : ℕ) → 1 ≤ y → y % 4 ≡ 0 → (y - 1) % 400 % 4 ≡ 3
leap_before y h k = omega arith

century_before : (y : ℕ) → 1 ≤ y → y % 4 ≡ 0 → y % 100 ≢ 0 → (y - 1) % 400 % 100 < 99
century_before y h k l = omega arith

year_at_date :
    (y m d : ℕ)
    → 1 ≤ y
    → 1 ≤ m
    → m ≤ 12
    → d ≤ days_in_month y m
    → year_at (day_of_era (march_year y m % 400) (day_of_year m d)) ≡ march_year y m % 400
unfolding is_leap_year
year_at_date y m d g h k l = elim (last-IsLeap y m d h k l) [
  | inl n ↦ year_lem (march_year y m % 400) (day_of_year m d) (omega arith) n
  | inr (n, leap, q) ↦
      let c = march_year y m % 400 in
      let before : march_year y m ≡ y - 1 = rw (q) refl in
      rw (n) (elim (Bool-cases (y % 400 == 0)) [
        | inl e ↦
            let r : c ≡ 399 = rw (before) (era_end y g (ground (arith, e))) in rw (r) leap_era_lem
        | inr e ↦
            leap_lem c (omega arith) (rw (before) (leap_before y g (ground (arith, leap))))
              (rw (before) (century_before y g (ground (arith, leap)) (ground (arith, leap, e))))
      ])
]

-- A date of a year from 1 on, of a month from 1 to 12 and of a day that the month has, is what its
-- count of days is converted back to.
pub civil_from_days-days_from_civil :
    (year month day : ℕ)
    → 1 ≤ year
    → 1 ≤ month
    → month ≤ 12
    → 1 ≤ day
    → day ≤ days_in_month year month
    → civil_from_days (days_from_civil year month day) ≡ (pos year, (month, day))
civil_from_days-days_from_civil year month day g h k a l =
    let fit = days-Fits year month day h k l in
    let m = from_march month in
    let n = day_of_year month day in
    let back =
      backward_lem (march_year year month) n m (ground (arith, last-IsLeap year month day h k l))
        (year_at_date year month day g h k l) (month_lem m day (ground arith) fit a)
        (omega arith) in
    let same_month : to_march m ≡ month = ground arith in
    let same_year : march_year year month + (if leb (to_march m) 2 then 1 else 0) ≡ year =
      rw (same_month) (ground arith) in
    let same_day : n - (m * 153 + 2) / 5 + 1 ≡ day = ground arith in
    rw (forward_lem year month day g) (back ∙ rw (same_year, same_month, same_day) refl)

-- ===== src/Reconcile/Time.antt =====
-- Dates and New York time in src-tauri/src/reconcile.rs.
use duegood.Base.{
  ℕ, zero, suc, ◌+◌, ◌-◌, ◌*◌, ◌/◌, ◌%◌, ◌^◌, Bool, not, ◌&&◌, ◌||◌, ltb, leb, ◌==◌, [], ◌∷◌, ◌++◌,
  Bytes, codes, length, Result, ok, if◌then◌else◌,
}
use duegood.Reconcile.Values.{ReconcileError}
use duegood.Reconcile.Int.{
  ℤ, pos, negsuc, neg, ◌+ℤ◌, ◌-ℤ◌, ◌*ℤ◌, ◌/ℤ◌, div_euclid, rem_euclid, is_negative, less, wrap,
  as_u32,
}

unfoldable pub is_leap_year : ℕ → Bool
is_leap_year year = year % 4 == 0 && (not (year % 100 == 0) || year % 400 == 0)

unfoldable pub days_in_month : ℕ → ℕ → ℕ
days_in_month year month =
    if month == 2
    then (if is_leap_year year then 29 else 28)
    else if month == 4 || month == 6 || month == 9 || month == 11
    then 30
    else 31

-- a month counted from March
abbrev pub from_march : ℕ → ℕ
from_march month = if ltb 2 month then month - 3 else month + 9

unfoldable pub days_from_civil : ℕ → ℕ → ℕ → ℤ
days_from_civil y month day =
    let year = pos y -ℤ pos (if leb month 2 then 1 else 0) in
    let era = (if is_negative year then year -ℤ pos 399 else year) /ℤ 400 in
    let year_of_era = year -ℤ era *ℤ 400 in
    let day_of_year = (153 * from_march month + 2) / 5 + day - 1 in
    let day_of_era =
      year_of_era *ℤ 365 +ℤ year_of_era /ℤ 4 -ℤ year_of_era /ℤ 100 +ℤ pos day_of_year in
    era *ℤ 146097 +ℤ day_of_era -ℤ pos 719468

abbrev pub to_march : ℕ → ℕ
to_march m = if ltb m 10 then m + 3 else m - 9

-- the number that is not negative, cast to an unsigned one
abbrev magnitude : ℤ → ℕ
magnitude (pos n) = n
magnitude (negsuc n) = 0

unfoldable pub civil_from_days : ℤ → ℤ × (ℕ × ℕ)
civil_from_days days_since_epoch =
    let z = days_since_epoch +ℤ pos 719468 in
    let era = (if is_negative z then z -ℤ pos 146096 else z) /ℤ 146097 in
    let day_of_era = z -ℤ era *ℤ 146097 in
    let year_of_era =
      (day_of_era -ℤ day_of_era /ℤ 1460 +ℤ day_of_era /ℤ 36524 -ℤ day_of_era /ℤ 146096) /ℤ 365 in
    let day_of_year =
      day_of_era -ℤ (year_of_era *ℤ 365 +ℤ year_of_era /ℤ 4 -ℤ year_of_era /ℤ 100) in
    let month_prime = (day_of_year *ℤ 5 +ℤ pos 2) /ℤ 153 in
    let day = magnitude (day_of_year -ℤ (month_prime *ℤ 153 +ℤ pos 2) /ℤ 5 +ℤ pos 1) in
    let month = to_march (magnitude month_prime) in
    let year = year_of_era +ℤ era *ℤ 400 in
    (year +ℤ pos (if leb month 2 then 1 else 0), (month, day))

unfoldable pub weekday : ℤ → ℕ
weekday days_since_epoch = rem_euclid (days_since_epoch +ℤ pos 4) 7

unfoldable pub nth_sunday : ℕ → ℕ → ℕ → ℕ
nth_sunday year month occurrence =
    let first_weekday = weekday (days_from_civil year month 1) in
    1 + (7 - first_weekday) % 7 + 7 * (occurrence - 1)

abbrev standard_offset : ℤ
standard_offset = negsuc 17999

abbrev daylight_offset : ℤ
daylight_offset = negsuc 14399

unfoldable pub new_york_offset : ℤ → ℤ
new_york_offset timestamp =
    let year = as_u32 (civil_from_days (div_euclid timestamp 86400)).0 in
    let starts_at = days_from_civil year 3 (nth_sunday year 3 2) *ℤ 86400 +ℤ pos (7 * 3600) in
    let ends_at = days_from_civil year 11 (nth_sunday year 11 1) *ℤ 86400 +ℤ pos (6 * 3600) in
    if ltb year 2007
    then standard_offset
    else if not (less timestamp starts_at) && less timestamp ends_at
    then daylight_offset
    else standard_offset

-- the decimal digits of a number below 10 to the power of the fuel
unfoldable pub decimal : ℕ → ℕ → Bytes
decimal zero n = []
decimal (suc fuel) n =
    let rest = decimal fuel (n / 10) in
    if ltb n 10 then (b'0' + n) ∷ [] else rest ++ ((b'0' + n % 10) ∷ [])

-- zeros in front, up to a width
unfoldable pub pad : ℕ → Bytes → Bytes
pad zero s = s
pad (suc width) s =
    let more = pad width s in if ltb (length s) (suc width) then b'0' ∷ more else more

-- `{n:02}` and `{year:04}`
abbrev two_digits : ℕ → Bytes
two_digits n = pad 2 (decimal 20 n)

abbrev four_digits : ℤ → Bytes
four_digits (pos n) = pad 4 (decimal 20 n)
four_digits (negsuc n) = codes "-" ++ pad 3 (decimal 20 (n + 1))

abbrev date_text : ℤ × (ℕ × ℕ) → Bytes
date_text (year, (month, day)) =
    four_digits year ++ (codes "-" ++ (two_digits month ++ (codes "-" ++ two_digits day)))

-- the end of `utc_to_new_york`, from the parsed timestamp on
unfoldable pub local_text : ℤ → Bytes
local_text timestamp =
    let local = wrap (timestamp +ℤ new_york_offset timestamp) in
    let within_day = rem_euclid local 86400 in
    date_text (civil_from_days (div_euclid local 86400))
    ++ (codes "T"
        ++ (two_digits (within_day / 3600) ++ (codes ":" ++ two_digits (within_day % 3600 / 60))))

-- A time as whole seconds since the epoch, or before it.
pub data SystemTime : Type 0 where
  since before : ℕ → SystemTime

abbrev clamp : ℕ → ℕ
clamp n = if ltb n (2 ^ 63) then n else 2 ^ 63 - 1

unfoldable pub timestamp_of : SystemTime → ℤ
timestamp_of (since seconds) = pos (clamp seconds)
timestamp_of (before seconds) = neg (pos (clamp seconds))

unfoldable pub new_york_date : SystemTime → Result ReconcileError Bytes
new_york_date time =
    let timestamp = timestamp_of time in
    let local = wrap (timestamp +ℤ new_york_offset timestamp) in
    ok (date_text (civil_from_days (div_euclid local 86400)))

-- ===== src/Reconcile/TimeExamples.antt =====
-- Runs of the time conversions of src-tauri/src/reconcile.rs.
use duegood.Base.{codes, split_once, split_on, all_digits, is_digit, ok, ◌≡◌, refl, arith}
use duegood.Reconcile.Int.{pos, negsuc, wrap}
use duegood.Reconcile.Time.{
  days_in_month, is_leap_year, days_from_civil, civil_from_days, weekday, nth_sunday,
  new_york_offset, decimal, pad, local_text,
}
use duegood.Reconcile.Rfc3339.{
  digits_from, parse_digits, parse_u32, parse_i64, parse_component, parse_date, split_zone,
  parse_clock, sign_of, parse_offset, parse_rfc3339, utc_to_new_york,
}
use duegood.Reconcile.RoundTrip.{civil_from_days-days_from_civil}

leap_day : days_in_month 2024 2 ≡ 29
unfolding days_in_month is_leap_year
leap_day = refl

civil_from_days-days_from_civil_example :
    civil_from_days (days_from_civil 2024 2 29) ≡ (pos 2024, (2, 29))
civil_from_days-days_from_civil_example =
    civil_from_days-days_from_civil 2024 2 29 (omega arith) (omega arith) (omega arith)
      (omega arith) (omega (arith, leap_day))

-- The wall clock in summer, of an offset east of UTC.
summer-clock : utc_to_new_york (codes "2026-07-01T05:00:00.5+02:00") ≡ ok (codes "2026-06-30T23:00")
unfolding utc_to_new_york parse_rfc3339 parse_date parse_component parse_u32 parse_digits
    digits_from split_zone parse_clock parse_offset parse_i64 sign_of local_text wrap days_in_month
    is_leap_year days_from_civil civil_from_days weekday nth_sunday new_york_offset decimal pad
    split_once split_on all_digits is_digit
summer-clock = refl

-- An offset of hours with a second sign is accepted.
double-sign : parse_offset (codes "+-05:00") ≡ ok (negsuc 17999)
unfolding parse_offset parse_i64 parse_digits digits_from sign_of wrap split_once all_digits
    is_digit
double-sign = refl

-- ===== src/Ical/Date.antt =====
-- src-tauri/src/ical_date.rs: strict DTSTART lines.
use duegood.Base.{
  ℕ, ◌+◌, Bool, false, not, ◌&&◌, ◌||◌, ltb, leb, ◌==◌, Option, none, some, List, [], ◌∷◌, Bytes,
  codes, starts_with, split_once, split_on, eq_ignore_case, to_upper, any, length, get_elem?, last?,
  some_and, is_some, Result, ok, err, ok_or, if◌then◌else◌, ◌>>=◌, reverse,
}
use duegood.Ical.Types.{
  IcalError, malformed_calendar, unresolved_timezone, Clock, LocalTime, single,
}
use duegood.Ical.Lines.{find_tzid, is_semicolon}

-- `StartTime`, over the date-times of the clock
pub data StartTime (DateTime : Type 0) : Type 0 where
  all_day : Bytes → StartTime DateTime
  timed : Option DateTime → Option Bytes → StartTime DateTime

abbrev is_date_param : Bytes → Bool
is_date_param p = eq_ignore_case p (codes "VALUE=DATE")

unfoldable pub count_date_params : List Bytes → ℕ
count_date_params [] = 0
count_date_params (p ∷ params) = (if is_date_param p then 1 else 0) + count_date_params params

-- `date_params > 0 && date_params == params.len() && (1..=2).contains(&date_params)`
unfoldable pub is_date : List Bytes → Bool
unfolding count_date_params
is_date params =
    let n = count_date_params params in ltb 0 n && n == length params && leb 1 n && leb n 2

unfoldable pub bad_params : List Bytes → Bool
bad_params params =
    (ltb 0 (count_date_params params) && not (is_date params))
    || (not (is_date params)
        && (ltb 1 (length params)
            || any (λ p. not (starts_with (codes "TZID=") (to_upper p))) params))

abbrev pub ends_in_z : Bytes → Bool
ends_in_z value = some_and (λ b. b == b'Z') (last? value)

-- the test on the shape of a date-time
unfoldable pub bad_shape : Bytes → Bool → Bool
bad_shape value zoned =
    (not (length value == 15) && not (length value == 16))
    || not (some_and (λ b. b == b'T') (get_elem? value 8))
    || (length value == 16 && not (ends_in_z value))
    || (length value == 15 && ends_in_z value)
    || (zoned && ends_in_z value)

-- `trim_end_matches('Z')`, on the reversed text
unfoldable pub drop_zs : Bytes → Bytes
drop_zs [] = []
drop_zs (c ∷ s) = let rest = drop_zs s in if c == b'Z' then rest else c ∷ s

unfoldable pub trim_zs : Bytes → Bytes
unfolding drop_zs
trim_zs value = reverse (drop_zs (reverse value))

-- the name in front of the first semicolon is DTSTART
unfoldable pub names_start : List Bytes → Bool
names_start [] = false
names_start (name ∷ _) = eq_ignore_case name (codes "DTSTART")

abbrev pub params_of : List Bytes → List Bytes
params_of [] = []
params_of (_ ∷ params) = params

module _ (clock : Clock) where
  open clock use {
    Zone, DateTime, parse_zone, zone_name, parse_date, format_date, parse_date_time, from_local,
  }

  unfoldable pub zone_of : Option Bytes → Result IcalError (Option Zone)
  zone_of none = ok none
  zone_of (some name) = do z ← ok_or unresolved_timezone (parse_zone name); ok (some z)

  unfoldable pub date_start : Option Zone → Bytes → Result IcalError (StartTime DateTime)
  date_start (some _) value = err malformed_calendar
  date_start none value = do
    d ← ok_or malformed_calendar (parse_date value (codes "%Y%m%d"))
    ok (all_day (format_date d (codes "%Y-%m-%d")))

  -- the one instant of a local time, if it has one
  unfoldable pub utc_of : LocalTime DateTime → Option DateTime
  utc_of (single t) = some t
  utc_of _ = none

  unfoldable pub zoned_start : Option Zone → Bytes → DateTime → StartTime DateTime
  unfolding utc_of
  zoned_start (some zone) value t = timed (utc_of (from_local zone t)) (some (zone_name zone))
  zoned_start none value t =
      if ends_in_z value then timed (some t) (some (codes "UTC")) else timed none none

  unfoldable pub timed_start : Option Zone → Bytes → Result IcalError (StartTime DateTime)
  timed_start zone value = if bad_shape value (is_some zone) then err malformed_calendar else do
    t ← ok_or malformed_calendar (parse_date_time (trim_zs value) (codes "%Y%m%dT%H%M%S"))
    ok (zoned_start zone value t)

  -- the line behind its first colon has been split off
  unfoldable pub start_of : Bytes → Bytes → Result IcalError (StartTime DateTime)
  start_of head value =
      let parts = split_on is_semicolon head in
      let params = params_of parts in
      if not (names_start parts) || bad_params params then err malformed_calendar else do
        zone ← zone_of (find_tzid params)
        if is_date params then date_start zone value else timed_start zone value

  unfoldable pub start_parts : Option (Bytes × Bytes) → Result IcalError (StartTime DateTime)
  start_parts none = err malformed_calendar
  start_parts (some (head, value)) = start_of head value

  unfoldable pub parse_start : Bytes → Result IcalError (StartTime DateTime)
  parse_start raw = start_parts (split_once b':' raw)

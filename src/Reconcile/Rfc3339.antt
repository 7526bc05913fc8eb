-- ===== src/Reconcile/Rfc3339.antt =====
-- The parser of RFC 3339 texts of src-tauri/src/reconcile.rs, and `utc_to_new_york`.
use duegood.Base.{
  ℕ, ◌+◌, ◌-◌, ◌*◌, ◌^◌, Bool, true, false, not, ◌&&◌, ◌||◌, ltb, leb, ◌==◌, Option, none, some,
  List, [], ◌∷◌, Bytes, codes, same, split_once, split_on, reverse, all_digits, Result, ok, err,
  ok_or, ensure, ◌>>=◌, ◌>>◌, if◌then◌else◌,
}
use duegood.Reconcile.Values.{ReconcileError, invalid, Clock}
use duegood.Reconcile.Int.{ℤ, pos, neg, ◌+ℤ◌, ◌-ℤ◌, ◌*ℤ◌, less, wrap}
use duegood.Reconcile.Time.{days_in_month, days_from_civil, local_text, SystemTime, new_york_date}

-- a digit's value behind those in front of it
unfoldable pub digits_from : ℕ → Bytes → ℕ
digits_from n [] = n
digits_from n (c ∷ s) = digits_from (n * 10 + (c - b'0')) s

-- digits, at least one
unfoldable pub parse_digits : Bytes → Option ℕ
unfolding digits_from
parse_digits [] = none
parse_digits (c ∷ s) = if all_digits (c ∷ s) then some (digits_from 0 (c ∷ s)) else none

abbrev below : ℕ → Option ℕ → Option ℕ
below limit none = none
below limit (some n) = if ltb n limit then some n else none

abbrev drop_plus : Bytes → Bytes
drop_plus [] = []
drop_plus (c ∷ s) = if c == b'+' then s else c ∷ s

-- `str::parse::<u32>`
unfoldable pub parse_u32 : Bytes → Option ℕ
parse_u32 s = below (2 ^ 32) (parse_digits (drop_plus s))

abbrev negated : Option ℕ → Option ℤ
negated none = none
negated (some n) = some (neg (pos n))

abbrev positive : Option ℕ → Option ℤ
positive none = none
positive (some n) = some (pos n)

-- `str::parse::<i64>`
unfoldable pub parse_i64 : Bytes → Option ℤ
parse_i64 [] = none
parse_i64 (c ∷ s) =
    if c == b'-'
    then negated (below (2 ^ 63 + 1) (parse_digits s))
    else positive (below (2 ^ 63) (parse_digits (drop_plus (c ∷ s))))

unfoldable pub parse_component : Option Bytes → Result ReconcileError ℕ
parse_component none = err (invalid "Canvas due_at has an invalid date or time component")
parse_component (some text) =
    ok_or (invalid "Canvas due_at has an invalid date or time component") (parse_u32 text)

-- the parts of an iterator: the first and what is behind it
abbrev pub first_of : List Bytes → Option Bytes
first_of [] = none
first_of (s ∷ _) = some s

abbrev pub rest_of : List Bytes → List Bytes
rest_of [] = []
rest_of (_ ∷ parts) = parts

abbrev pub at_end : List Bytes → Bool
at_end [] = true
at_end (_ ∷ _) = false

abbrev pub is_dash : ℕ → Bool
is_dash c = c == b'-'

abbrev pub is_colon : ℕ → Bool
is_colon c = c == b':'

abbrev is_point : ℕ → Bool
is_point c = c == b'.'

unfoldable pub parse_date : Bytes → Result ReconcileError (ℕ × (ℕ × ℕ))
parse_date date = do
  let parts = split_on is_dash date
  year ← parse_component (first_of parts)
  month ← parse_component (first_of (rest_of parts))
  day ← parse_component (first_of (rest_of (rest_of parts)))
  ensure
      (at_end (rest_of (rest_of (rest_of parts)))
        && leb 1 month
        && leb month 12
        && leb 1 day
        && leb day (days_in_month year month))
      (invalid "Canvas due_at has an invalid date")
  ok (year, (month, day))

-- the clock and the zone, which starts at the first Z, plus or minus
unfoldable pub split_zone : Bytes → Option (Bytes × Bytes)
split_zone [] = none
split_zone (c ∷ s) =
    let rest = split_zone s in
    if c == b'Z' || c == b'+' || c == b'-'
    then some ([], c ∷ s)
    else elim rest [ none ↦ none | some (time, zone) ↦ some (c ∷ time, zone) ]

-- `strip_suffix('.')`, on the reversed text
abbrev pub drop_point : Bytes → Bytes
drop_point [] = []
drop_point (c ∷ s) = if is_point c then s else c ∷ s

-- the seconds in front of a fraction
abbrev pub parse_second : Bytes → Option ℕ
parse_second text = elim (first_of (split_on is_point text)) [ none ↦ none | some s ↦ parse_u32 s ]

unfoldable pub parse_clock : Bytes → Result ReconcileError ℕ
parse_clock time = do
  let parts = split_on is_colon (reverse (drop_point (reverse time)))
  hour ← parse_component (first_of parts)
  minute ← parse_component (first_of (rest_of parts))
  second_text ← ok_or (invalid "Canvas due_at has no seconds") (first_of (rest_of (rest_of parts)))
  second ← ok_or (invalid "Canvas due_at has invalid seconds") (parse_second second_text)
  ensure
      (at_end (rest_of (rest_of (rest_of parts))) && leb hour 23 && leb minute 59 && leb second 59)
      (invalid "Canvas due_at has an invalid time")
  ok (hour * 3600 + minute * 60 + second)

abbrev bad_offset : ReconcileError
bad_offset = invalid "Canvas due_at has an invalid timezone offset"

-- the sign of a zone
unfoldable pub sign_of : Bytes → Result ReconcileError Bool
sign_of [] = err (invalid "Canvas due_at has an invalid timezone")
sign_of (c ∷ _) =
    if c == b'+'
    then ok false
    else if c == b'-'
    then ok true
    else err (invalid "Canvas due_at has an invalid timezone")

abbrev pub tail_of : Bytes → Bytes
tail_of [] = []
tail_of (_ ∷ s) = s

abbrev pub exceeds : ℤ → ℕ → Bool
exceeds a n = less (pos n) a

-- the offset in seconds; the products and sums wrap around, as in a release build
unfoldable pub parse_offset : Bytes → Result ReconcileError ℤ
parse_offset zone = if same zone (codes "Z") || same zone (codes "z") then ok (pos 0) else (do
  minus ← sign_of zone
  (hours_text, minutes_text) ← ok_or bad_offset (split_once b':' (tail_of zone))
  hours ← ok_or bad_offset (parse_i64 hours_text)
  minutes ← ok_or bad_offset (parse_i64 minutes_text)
  ensure (not (exceeds hours 23) && not (exceeds minutes 59)) bad_offset
  let seconds = wrap (wrap (hours *ℤ 3600) +ℤ wrap (minutes *ℤ 60))
  ok (if minus then wrap (neg seconds) else seconds))

unfoldable pub parse_rfc3339 : Bytes → Result ReconcileError ℤ
parse_rfc3339 input = do
  (date, time_and_zone) ← ok_or (invalid "Canvas due_at is not RFC 3339") (split_once b'T' input)
  (year, (month, day)) ← parse_date date
  (time, zone) ← ok_or (invalid "Canvas due_at has no timezone") (split_zone time_and_zone)
  seconds ← parse_clock time
  offset ← parse_offset zone
  ok (wrap (days_from_civil year month day *ℤ 86400 +ℤ pos seconds -ℤ offset))

unfoldable pub utc_to_new_york : Bytes → Result ReconcileError Bytes
utc_to_new_york input = do timestamp ← parse_rfc3339 input; ok (local_text timestamp)

-- The clock of the program; the UTC stamp of store.rs is a parameter.
abbrev pub new_york_clock : (SystemTime → Bytes) → Clock
new_york_clock stamp = record {
  SystemTime = SystemTime;
  utc_stamp = stamp;
  new_york_date = new_york_date;
  utc_to_new_york = utc_to_new_york;
}

-- ===== src/Reconcile/SafeTime.antt =====
-- The clock of src-tauri/src/reconcile.rs never panics, and so neither does `reconcile_coursework`.
use duegood.Base.{
  false, not, ◌&&◌, ◌||◌, leb, Option, none, some, List, [], ◌∷◌, Bytes, codes, same, split_once,
  split_on, reverse, Bool-cases, Option-cases, Result-cases, ◌≡◌, refl, inl, inr, arith,
}
use duegood.Reconcile.Values.{Values, IsLawful, CourseAssignments}
use duegood.Reconcile.Time.{SystemTime, new_york_date, days_in_month}
use duegood.Reconcile.Rfc3339.{
  parse_u32, parse_i64, parse_component, parse_date, split_zone, parse_second, parse_clock, sign_of,
  parse_offset, parse_rfc3339, utc_to_new_york, new_york_clock, first_of, rest_of, at_end, is_dash,
  is_colon, drop_point, tail_of, exceeds,
}
use duegood.Reconcile.Coursework.{reconcile_coursework}
use duegood.Reconcile.Safe.{panics}
use duegood.Reconcile.NoPanic.{any_clock-safe}

component-safe : (s : Option Bytes) → panics (parse_component s) ≡ false
unfolding panics parse_component
component-safe none = refl
component-safe (some s) = elim (Option-cases (parse_u32 s)) [
  | inl e ↦ ground (arith, e)
  | inr (n, e) ↦ ground (arith, e)
]

date-safe : (s : Bytes) → panics (parse_date s) ≡ false
unfolding panics parse_date
date-safe s =
    let parts = split_on is_dash s in
    let one = first_of parts in
    let two = first_of (rest_of parts) in
    let three = first_of (rest_of (rest_of parts)) in
    elim (Result-cases (parse_component one)) [
      | inr (x, a) ↦ ground (arith, a, component-safe one)
      | inl (year, a) ↦ elim (Result-cases (parse_component two)) [
        | inr (x, b) ↦ ground (arith, a, b, component-safe two)
        | inl (month, b) ↦ elim (Result-cases (parse_component three)) [
          | inr (x, c) ↦ ground (arith, a, b, c, component-safe three)
          | inl (day, c) ↦
              elim (Bool-cases (
                at_end (rest_of (rest_of (rest_of parts)))
                && leb 1 month
                && leb month 12
                && leb 1 day
                && leb day (days_in_month year month))) [
                  | inl t ↦ ground (arith, a, b, c, t)
                  | inr t ↦ ground (arith, a, b, c, t)
                ]
        ]
      ]
    ]

clock-safe : (s : Bytes) → panics (parse_clock s) ≡ false
unfolding panics parse_clock
clock-safe s =
    let parts = split_on is_colon (reverse (drop_point (reverse s))) in
    let one = first_of parts in
    let two = first_of (rest_of parts) in
    elim (Result-cases (parse_component one)) [
      | inr (x, a) ↦ ground (arith, a, component-safe one)
      | inl (hour, a) ↦ elim (Result-cases (parse_component two)) [
        | inr (x, b) ↦ ground (arith, a, b, component-safe two)
        | inl (minute, b) ↦ elim (Option-cases (first_of (rest_of (rest_of parts)))) [
          | inl c ↦ ground (arith, a, b, c)
          | inr (text, c) ↦ elim (Option-cases (parse_second text)) [
            | inl d ↦ ground (arith, a, b, c, d)
            | inr (second, d) ↦
                elim (Bool-cases (
                  at_end (rest_of (rest_of (rest_of parts)))
                  && leb hour 23
                  && leb minute 59
                  && leb second 59)) [
                    | inl t ↦ ground (arith, a, b, c, d, t)
                    | inr t ↦ ground (arith, a, b, c, d, t)
                  ]
          ]
        ]
      ]
    ]

sign-safe : (s : Bytes) → panics (sign_of s) ≡ false
unfolding panics sign_of
sign-safe [] = refl
sign-safe (c ∷ s) = ground arith

offset-safe : (s : Bytes) → panics (parse_offset s) ≡ false
unfolding panics parse_offset
offset-safe s = elim (Bool-cases (same s (codes "Z") || same s (codes "z"))) [
  | inl z ↦ ground (arith, z)
  | inr z ↦ elim (Result-cases (sign_of s)) [
    | inr (x, a) ↦ ground (arith, z, a, sign-safe s)
    | inl (minus, a) ↦ elim (Option-cases (split_once b':' (tail_of s))) [
      | inl b ↦ ground (arith, z, a, b)
      | inr ((hours_text, minutes_text), b) ↦ elim (Option-cases (parse_i64 hours_text)) [
        | inl c ↦ ground (arith, z, a, b, c)
        | inr (hours, c) ↦ elim (Option-cases (parse_i64 minutes_text)) [
          | inl d ↦ ground (arith, z, a, b, c, d)
          | inr (minutes, d) ↦
              elim (Bool-cases (not (exceeds hours 23) && not (exceeds minutes 59))) [
                | inl t ↦ ground (arith, z, a, b, c, d, t)
                | inr t ↦ ground (arith, z, a, b, c, d, t)
              ]
        ]
      ]
    ]
  ]
]

rfc3339-safe : (s : Bytes) → panics (parse_rfc3339 s) ≡ false
unfolding panics parse_rfc3339
rfc3339-safe s = elim (Option-cases (split_once b'T' s)) [
  | inl a ↦ ground (arith, a)
  | inr ((date, rest), a) ↦ elim (Result-cases (parse_date date)) [
    | inr (x, b) ↦ ground (arith, a, b, date-safe date)
    | inl ((year, (month, day)), b) ↦ elim (Option-cases (split_zone rest)) [
      | inl c ↦ ground (arith, a, b, c)
      | inr ((time, zone), c) ↦ elim (Result-cases (parse_clock time)) [
        | inr (x, d) ↦ ground (arith, a, b, c, d, clock-safe time)
        | inl (seconds, d) ↦ elim (Result-cases (parse_offset zone)) [
          | inr (x, e) ↦ ground (arith, a, b, c, d, e, offset-safe zone)
          | inl (offset, e) ↦ ground (arith, a, b, c, d, e)
        ]
      ]
    ]
  ]
]

utc_to_new_york-safe : (s : Bytes) → panics (utc_to_new_york s) ≡ false
unfolding panics utc_to_new_york
utc_to_new_york-safe s = elim (Result-cases (parse_rfc3339 s)) [
  | inr (x, a) ↦ ground (arith, a, rfc3339-safe s)
  | inl (t, a) ↦ ground (arith, a)
]

new_york_date-safe : (time : SystemTime) → panics (new_york_date time) ≡ false
unfolding panics new_york_date
new_york_date-safe time = refl

-- Whatever the document and the captures are, `reconcile_coursework` runs into none of its
-- `expect`s: it returns a document or one of its errors.
pub reconcile_coursework-safe :
    (json : Values) (lawful : IsLawful json) (stamp : SystemTime → Bytes)
    (tokens : Bytes → List Bytes) (captured_at : SystemTime) (base : json.Value)
    (courses : List (CourseAssignments json))
    → panics (reconcile_coursework json (new_york_clock stamp) tokens captured_at base courses)
      ≡ false
reconcile_coursework-safe json lawful stamp tokens captured_at base courses =
    any_clock-safe json lawful (new_york_clock stamp) tokens captured_at utc_to_new_york-safe
      (new_york_date-safe captured_at) base courses

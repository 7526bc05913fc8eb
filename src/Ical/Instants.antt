-- ===== src/Ical/Instants.antt =====
-- Where the start of an event in src-tauri/src/ical_date.rs comes from.
use duegood.Base.{
  true, Option, none, some, List, Bytes, codes, split_once, split_on, ok, Result-cases,
  Option-cases, Bool-cases, ◌≡◌, ◌≢◌, refl, if◌then◌else◌, ◌⊎◌, inl, inr, arith,
}
use duegood.Ical.Types.{Clock, LocalTime, single, ambiguous, skipped}
use duegood.Ical.Lines.{find_tzid, is_semicolon}
use duegood.Ical.Date.{
  StartTime, timed, ends_in_z, trim_zs, params_of, is_date, zone_of, date_start, utc_of,
  zoned_start, timed_start, start_of, start_parts, parse_start,
}

module _ (clock : Clock) where
  open clock use {
    Zone, Date, DateTime, parse_zone, zone_name, parse_date, format_date, parse_date_time,
    from_local,
  }

  abbrev params : Bytes → List Bytes
  params head = params_of (split_on is_semicolon head)

  -- An instant in UTC: the value ends in Z, and no zone is named.
  abbrev pub IsUtc : Bytes → Bytes → DateTime → Option Bytes → Type 0
  IsUtc head value t zone =
      (find_tzid (params head) ≡ none)
      × (ends_in_z value ≡ true)
      × (parse_date_time (trim_zs value) (codes "%Y%m%dT%H%M%S") ≡ some t)
      × (zone ≡ some (codes "UTC"))

  -- The one instant of a local time in the zone that TZID names.
  abbrev pub IsZoned : Bytes → Bytes → DateTime → Option Bytes → Type 0
  IsZoned head value t zone =
      (name : Bytes) × (z : Zone) × (local : DateTime) × (find_tzid (params head) ≡ some name)
      × (parse_zone name ≡ some z)
      × (parse_date_time (trim_zs value) (codes "%Y%m%dT%H%M%S") ≡ some local)
      × (from_local z local ≡ single t)
      × (zone ≡ some (zone_name z))

  start_of-parts :
      (head value : Bytes) (s : StartTime DateTime)
      → start_of clock head value ≡ ok s
      → (zone : Option Zone) × (zone_of clock (find_tzid (params head)) ≡ ok zone)
        × ((if is_date (params head)
              then date_start clock zone value
              else timed_start clock zone value)
            ≡ ok s)
  unfolding start_of
  start_of-parts head value s h = elim (Result-cases (zone_of clock (find_tzid (params head)))) [
    | inr (x, k) ↦ ground (arith, k)
    | inl (zone, k) ↦ (zone, k, ground (arith, k))
  ]

  utc_of-single : (l : LocalTime DateTime) (t : DateTime) → utc_of clock l ≡ some t → l ≡ single t
  unfolding utc_of
  utc_of-single (single u) t h = ground arith
  utc_of-single ambiguous t h = cc
  utc_of-single skipped t h = cc

  zone_of-name :
      (o : Option Bytes) (z : Zone)
      → zone_of clock o ≡ ok (some z)
      → (name : Bytes) × (o ≡ some name) × (parse_zone name ≡ some z)
  unfolding zone_of
  zone_of-name none z h = cc
  zone_of-name (some name) z h = (name, refl, ground arith)

  zone_of-none : (o : Option Bytes) → zone_of clock o ≡ ok none → o ≡ none
  unfolding zone_of
  zone_of-none none h = refl
  zone_of-none (some name) h = ground arith

  timed_start-instant :
      (head value : Bytes) (zone : Option Zone) (t : DateTime) (name : Option Bytes)
      → zone_of clock (find_tzid (params head)) ≡ ok zone
      → timed_start clock zone value ≡ ok (timed (some t) name)
      → IsUtc head value t name ⊎ IsZoned head value t name
  unfolding timed_start zoned_start
  timed_start-instant head value none t name h e =
      inl (zone_of-none (find_tzid (params head)) h, ground arith, ground arith, ground arith)
  timed_start-instant head value (some z) t name h e =
      elim (Option-cases (parse_date_time (trim_zs value) (codes "%Y%m%dT%H%M%S"))) [
        | inl k ↦ ground (arith, k)
        | inr (local, k) ↦
            let (n, p, q) = zone_of-name (find_tzid (params head)) z h in
            let u : utc_of clock (from_local z local) ≡ some t = ground (arith, k) in
            inr (n, z, local, p, q, k, utc_of-single (from_local z local) t u, ground (arith, k))
      ]

  date_start-no_instant :
      (zone : Option Zone) (value : Bytes) (t : DateTime) (name : Option Bytes)
      → date_start clock zone value ≢ ok (timed (some t) name)
  unfolding date_start
  date_start-no_instant none value t name h = ground arith
  date_start-no_instant (some z) value t name h = cc

  -- A start that has an instant either ends in Z, names no time zone and is read as UTC, or names a
  -- known time zone in which its local time has exactly one instant, which is the result.
  pub parse_start-instant :
      (raw : Bytes) (t : DateTime) (zone : Option Bytes)
      → parse_start clock raw ≡ ok (timed (some t) zone)
      → (head : Bytes) × (value : Bytes) × (split_once b':' raw ≡ some (head, value))
        × (IsUtc head value t zone ⊎ IsZoned head value t zone)
  unfolding parse_start start_parts
  parse_start-instant raw t zone h = elim (Option-cases (split_once b':' raw)) [
    | inl k ↦ ground (arith, k)
    | inr ((head, value), k) ↦
        let (z, l, m) = start_of-parts head value (timed (some t) zone) (ground (arith, k)) in
        (
          head,
          value,
          k,
          elim (Bool-cases (is_date (params head))) [
            | inl d ↦ absurd (date_start-no_instant z value t zone (ground (arith, d)))
            | inr d ↦ timed_start-instant head value z t zone l (ground (arith, d))
          ],
        )
  ]

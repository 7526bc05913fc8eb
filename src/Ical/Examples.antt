-- ===== src/Ical/Examples.antt =====
-- A small calendar feed: tests of src-tauri/src/ical*.rs, and the theorems at its events.
use duegood.Base.{
  ◌≡◌, ◌≤◌, refl, ◌⊎◌, Option, none, some, List, [], ◌∷◌, Bytes, codes, same, ok, if◌then◌else◌,
  split_on, split_once, strip_prefix, starts_with, eq_ignore_case, to_lower, to_upper, is_digit,
  all_digits,
}
use duegood.Ical.Types.{Urls, Clock, single}
use duegood.Ical.Lines.{unescape_text, join_lines, is_blank, utf16_len, find_tzid}
use duegood.Ical.Escapes.{escape_text, unescape_text-escape_text}
use duegood.Ical.Folding.{Folded, IsPlain, physical, logical, join_lines-physical}
use duegood.Ical.Links.{
  CanvasLink, assignment, link, canvas_link, link_of, direct_link, path_id, five_parts, path_kind,
  numeric_id, canonical_url,
}
use duegood.Ical.LinksSound.{IsCanonical, canvas_link-IsCanonical}
use duegood.Ical.Date.{
  timed, parse_start, start_parts, start_of, names_start, bad_params, is_date, zone_of, timed_start,
  bad_shape, trim_zs, zoned_start, count_date_params,
}
use duegood.Ical.Instants.{parse_start-instant, IsUtc, IsZoned}

-- The feed's own URLs.
pub data Address : Type 0 where
  canvas work : Address

abbrev pub site : Bytes
site = codes "https://canvas.test"

abbrev pub work_url : Bytes
work_url = codes "https://canvas.test/courses/12/assignments/34"

abbrev pub address : Bytes → Option Address
address s = if same s site then some canvas else if same s work_url then some work else none

abbrev pub nothing : Bytes
nothing = []

abbrev pub no_text : Option Bytes
no_text = none

abbrev pub path_of : Address → Bytes
path_of canvas = codes "/"
path_of work = codes "/courses/12/assignments/34"

abbrev pub urls : Urls
urls = record {
  Url = Address;
  parse = address;
  scheme = λ _. codes "https";
  username = λ _. nothing;
  password = λ _. no_text;
  path = path_of;
  query = λ _. none;
  fragment = λ _. none;
  query_pairs = λ _. [];
  host = λ _. some (codes "canvas.test");
  origin = λ _. site;
}

-- Dates and times as their texts.
abbrev pub clock : Clock
clock = record {
  Zone = Bytes;
  Date = Bytes;
  DateTime = Bytes;
  parse_zone = some;
  zone_name = λ z. z;
  parse_date = λ s f. some s;
  format_date = λ d f. d;
  parse_date_time = λ s f. some s;
  format_date_time = λ d f. d;
  from_local = λ z t. single t;
}

unescape_text-escape_text_example :
    unescape_text (escape_text (codes "a;b\\n\n")) ≡ codes "a;b\\n\n"
unescape_text-escape_text_example = unescape_text-escape_text (codes "a;b\\n\n")

abbrev folded : List Folded
folded =
    record { first = b'S'; head = codes "UMMARY:a"; pieces = codes " b" ∷ codes "c" ∷ [] }
    ∷ record { first = b'U'; head = codes "ID:1"; pieces = [] }
    ∷ []

folded-IsPlain : IsPlain folded
unfolding is_blank
folded-IsPlain = (refl, (refl, tt))

join_lines-physical_example : join_lines [] (physical folded) ≡ ok (logical folded)
join_lines-physical_example = join_lines-physical folded folded-IsPlain

abbrev pub work_link : CanvasLink
work_link = link site (codes "12") assignment (codes "34")

work-links : canvas_link urls (some work_url) (codes "event-assignment-34") site ≡ some work_link
unfolding canvas_link utf16_len link_of direct_link path_id five_parts path_kind numeric_id
    canonical_url split_on all_digits is_digit
work-links = refl

canvas_link-IsCanonical_example :
    IsCanonical site work_link
    × ((raw : Bytes) × (u : Address) × (some work_url ≡ some raw)
        × (utf16_len raw ≤ 2048)
        × (address raw ≡ some u)
        × (site ≡ site)
        × (nothing ≡ [])
        × (no_text ≡ none))
canvas_link-IsCanonical_example =
    canvas_link-IsCanonical urls (some work_url) (codes "event-assignment-34") site work_link
      work-links

abbrev start_line : Bytes
start_line = codes "DTSTART;TZID=Europe/Paris:20260904T101500"

abbrev local_time : Bytes
local_time = codes "20260904T101500"

zoned-start :
    parse_start clock start_line ≡ ok (timed (some local_time) (some (codes "Europe/Paris")))
unfolding parse_start start_parts start_of names_start bad_params is_date count_date_params zone_of
    find_tzid timed_start bad_shape trim_zs zoned_start split_on split_once eq_ignore_case to_lower
    to_upper starts_with strip_prefix
zoned-start = refl

parse_start-instant_example :
    (head : Bytes) × (value : Bytes) × (split_once b':' start_line ≡ some (head, value))
    × (IsUtc clock head value local_time (some (codes "Europe/Paris"))
        ⊎ IsZoned clock head value local_time (some (codes "Europe/Paris")))
parse_start-instant_example =
    parse_start-instant clock start_line local_time (some (codes "Europe/Paris")) zoned-start

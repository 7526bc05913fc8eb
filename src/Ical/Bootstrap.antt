-- ===== src/Ical/Bootstrap.antt =====
-- `bootstrap_options` of src-tauri/src/ical_bootstrap.rs: a first scope from a feed's own links.
use duegood.Base.{
  ℕ, Bool, true, false, not, ltb, Option, none, some, List, [], ◌∷◌, ◌++◌, Bytes, codes, same, any,
  map, length, sort_by, Result, ok, err, ok_or, ensure, ◌>>=◌, ◌>>◌, if◌then◌else◌,
}
use duegood.Base.Utf8.{Utf8, valid, from_utf8}
use duegood.Ical.Types.{
  IcalError, invalid_input, too_large, malformed_calendar, RawEvent, Clock, Urls, CourseIdentity,
  Options, max_ical_bytes,
}
use duegood.Ical.Events.{parse_events}
use duegood.Ical.Links.{CanvasLink, origin, canvas_link}
use duegood.Ical.Courses.{uid_of}

abbrev pub canvas_origin_text : Bytes
canvas_origin_text = codes "https://marymount.instructure.com"

abbrev pub max_courses : ℕ
max_courses = 500

-- `HashSet::insert`, on a list without repetitions
unfoldable pub insert_id : Bytes → List Bytes → List Bytes
insert_id id ids = if any (same id) ids then ids else id ∷ ids

abbrev pub course_of : Bytes → CourseIdentity
course_of id = record { key = codes "canvas-" ++ id; canvas_course_id = id }

unfoldable pub is_text : Utf8 → Bool
is_text valid = true
is_text _ = false

abbrev pub is_nil : List Bytes → Bool
is_nil [] = true
is_nil (_ ∷ _) = false

unfoldable pub add_link : Option CanvasLink → List Bytes → Result IcalError (List Bytes)
unfolding insert_id
add_link none ids = ok ids
add_link (some l) ids =
    let more = insert_id l.course_id ids in
    if ltb max_courses (length more) then err invalid_input else ok more

unfoldable pub scope_of : Bytes → List Bytes → Options
unfolding sort_by
scope_of institution ids = record {
  institution = institution;
  canvas_origin = canvas_origin_text;
  courses = sort_by (λ c. c.key) (map course_of ids);
  verified_events = λ _. none;
  explicit_uid_mappings = λ _. none;
}

module _ (urls : Urls) where
  -- the loop over the events
  unfoldable pub collect_ids : Bytes → List RawEvent → List Bytes → Result IcalError (List Bytes)
  collect_ids expected [] ids = ok ids
  collect_ids expected (e ∷ es) ids = do
    more ← add_link (canvas_link urls e.url (uid_of e) expected) ids
    collect_ids expected es more

  unfoldable pub bootstrap_options : Clock → Bytes → Result IcalError Options
  bootstrap_options clock input = do
    ensure (not (ltb max_ical_bytes (length input))) too_large
    ensure (is_text (from_utf8 input)) malformed_calendar
    (u, expected) ← origin urls canvas_origin_text
    institution ← ok_or invalid_input (urls.host u)
    (events, _) ← parse_events clock input
    ids ← collect_ids expected events []
    ensure (not (is_nil ids)) invalid_input
    ok (scope_of institution ids)

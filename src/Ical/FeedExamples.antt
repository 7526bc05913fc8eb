-- ===== src/Ical/FeedExamples.antt =====
-- A small calendar feed through src-tauri/src/ical_parse.rs, ical_normalize.rs and
-- ical_bootstrap.rs: tests, and the theorems at it.
use duegood.Base.{
  ◌+◌, ◌≡◌, ◌≤◌, ◌<◌, refl, Bool, true, false, none, some, List, [], ◌∷◌, ◌++◌, Bytes, codes, same,
  ok, all, length, All, count, sort_by, dedup, text_le, if◌then◌else◌, split_on, split_once,
  strip_prefix, starts_with, eq_ignore_case, to_lower, to_upper, is_digit, all_digits,
}
use duegood.Base.Utf8.{from_utf8, scan, after_lead}
use duegood.Ical.Types.{DateKind, assignment_parent, Urls, RawEvent, Options, max_ical_events}
use duegood.Ical.Lines.{
  unescape_text, join_lines, is_blank, is_break, has_envelope, unfold_lines, safe_text, utf16_len,
  is_control, property_value, validate_tzid, find_tzid,
}
use duegood.Ical.Reader.{
  begin_component, end_component, open_event, open_calendar, close_event, pop_component,
}
use duegood.Ical.Events.{
  read_lines, read_line, into_event, property_line, set_once, set_property, finish_event,
  finish_events, is_safe, parse_events,
}
use duegood.Ical.Bounds.{parse_events-bounded}
use duegood.Ical.Links.{
  canvas_link, origin, link_of, direct_link, path_id, five_parts, path_kind, numeric_id,
  canonical_url,
}
use duegood.Ical.Date.{
  parse_start, start_parts, start_of, names_start, bad_params, is_date, zone_of, timed_start,
  bad_shape, trim_zs, zoned_start, count_date_params,
}
use duegood.Ical.Observation.{
  cancelled_event, NormalizedEvent, Normalization, Hashing, identifier, fields_kind,
}
use duegood.Ical.Courses.{
  candidates, courses_with, is_cancelled, is_ambiguous, agrees, one_course, key_count,
}
use duegood.Ical.Classify.{classify, with_fields, dated, date_value, placed, place_in, link_place}
use duegood.Ical.Normalize.{
  record_verdict, normalized, read_event, read_events, result_of, valid_course, is_valid,
  normalize_canvas_ical, held_event,
}
use duegood.Ical.Conserved.{event_count, held_count, raw_count, is_at, normalize_canvas_ical-count}
use duegood.Ical.Accepted.{IsAccepted, normalize_canvas_ical-IsAccepted}
use duegood.Ical.Distinct.{normalize_canvas_ical-distinct}
use duegood.Ical.Bootstrap.{
  canvas_origin_text, bootstrap_options, is_text, collect_ids, add_link, insert_id, scope_of,
  max_courses,
}
use duegood.Ical.Scopes.{IsBootstrapped, bootstrap_options-scope}
use duegood.Ical.Examples.{canvas, site, work_url, address, urls, clock}

-- One assignment, and the same event cancelled.
abbrev feed : Bytes
feed =
    codes "BEGIN:VCALENDAR\nVERSION:2.0\nBEGIN:VEVENT\nUID:a\nSUMMARY:Essay\n"
    ++ (codes "DTSTART:20260904T101500Z\nURL:https://canvas.test/courses/12/assignments/34\n"
        ++ codes "END:VEVENT\nBEGIN:VEVENT\nUID:b\nSTATUS:CANCELLED\nEND:VEVENT\nEND:VCALENDAR\n")

abbrev essay : RawEvent
essay = record {
  uid = some (codes "a");
  summary = some (codes "Essay");
  start = some (codes "DTSTART:20260904T101500Z");
  url = some work_url;
  status = none;
  method_cancel = false;
  method_seen = false;
  recurrence_id = none;
}

abbrev called_off : RawEvent
called_off = record {
  uid = some (codes "b");
  summary = none;
  start = none;
  url = none;
  status = some (codes "CANCELLED");
  method_cancel = false;
  method_seen = false;
  recurrence_id = none;
}

feed-parses : parse_events clock feed ≡ ok (essay ∷ called_off ∷ [], false)
unfolding parse_events unfold_lines join_lines is_break is_blank has_envelope split_on split_once
    strip_prefix read_lines read_line begin_component end_component property_line into_event
    set_property set_once open_event open_calendar close_event pop_component validate_tzid find_tzid
    finish_events finish_event property_value unescape_text is_safe safe_text utf16_len is_control
feed-parses = refl

parse_events-bounded_example :
    (length (essay ∷ called_off ∷ []) ≤ max_ical_events)
    × (all is_safe (essay ∷ called_off ∷ []) ≡ true)
parse_events-bounded_example =
    parse_events-bounded clock feed (essay ∷ called_off ∷ []) false feed-parses

abbrev hashing : Hashing
hashing = record { json_array = λ parts. []; sha256 = λ b. 1 ∷ 171 ∷ [] }

abbrev scope : Options
scope = record {
  institution = codes "canvas.test";
  canvas_origin = site;
  courses = record { key = codes "math"; canvas_course_id = codes "12" } ∷ [];
  verified_events = λ _. none;
  explicit_uid_mappings = λ _. none;
}

abbrev accepted : NormalizedEvent
accepted = record {
  kind = assignment_parent;
  uid = codes "a";
  course = codes "math";
  canvas_course_id = some (codes "12");
  calendar_identity = codes "assignment:34";
  title = codes "Essay";
  at = record {
    kind = DateKind.timed;
    value = codes "20260904T101500Z";
    zone = some (codes "UTC");
  };
  observation = record {
    local_id = codes "ical-01ab";
    course = codes "math";
    institution = codes "canvas.test";
    reference_id = codes "assignment:34";
    fields_kind = codes "assignment";
    title = codes "Essay";
    at = codes "20260904T101500Z";
    url = some work_url;
  };
}

abbrev result : Normalization
result = record {
  events = accepted ∷ [];
  observations = accepted.observation ∷ [];
  held =
      record {
        uid = codes "b";
        reason = cancelled_event;
        canvas_course_id = none;
        candidate_courses = [];
        cancelled = true;
      }
      ∷ [];
  deletions = 0;
}

feed-normalizes : normalize_canvas_ical urls clock hashing scope feed ≡ ok result
unfolding normalize_canvas_ical is_valid valid_course read_events read_event record_verdict
    normalized held_event identifier fields_kind result_of text_le classify is_cancelled
    is_ambiguous candidates courses_with sort_by dedup with_fields agrees dated date_value placed
    one_course key_count place_in link_place parse_start start_parts start_of names_start bad_params
    is_date count_date_params zone_of find_tzid timed_start bad_shape trim_zs zoned_start split_on
    split_once eq_ignore_case to_lower to_upper starts_with strip_prefix unfold_lines join_lines
    is_break is_blank has_envelope read_lines read_line begin_component end_component property_line
    into_event set_property set_once open_event open_calendar close_event pop_component
    validate_tzid finish_events finish_event property_value unescape_text is_safe safe_text
    utf16_len is_control from_utf8 scan after_lead origin parse_events canvas_link link_of
    direct_link path_id five_parts path_kind numeric_id canonical_url all_digits is_digit
feed-normalizes = refl

normalize_canvas_ical-count_example :
    (raw : List RawEvent) × (cancelled : Bool) × (parse_events clock feed ≡ ok (raw, cancelled))
    × ((uid : Bytes)
        → event_count uid result.events + held_count uid result.held ≡ raw_count uid raw)
normalize_canvas_ical-count_example =
    normalize_canvas_ical-count urls clock hashing scope feed result feed-normalizes

normalize_canvas_ical-IsAccepted_example :
    (raw : List RawEvent) × (cancelled : Bool) × (parse_events clock feed ≡ ok (raw, cancelled))
    × All (IsAccepted raw cancelled) result.events
normalize_canvas_ical-IsAccepted_example =
    normalize_canvas_ical-IsAccepted urls clock hashing scope feed result feed-normalizes

normalize_canvas_ical-distinct_example :
    count (is_at (codes "math") (codes "assignment:34")) result.events ≤ 1
normalize_canvas_ical-distinct_example =
    normalize_canvas_ical-distinct urls clock hashing scope feed result (codes "math")
      (codes "assignment:34") feed-normalizes

-- The same feed where every URL is on the one Canvas site.
abbrev home : Urls
home = record urls { parse = λ s. if same s canvas_origin_text then some canvas else address s }

abbrev first_scope : Options
first_scope = record {
  institution = codes "canvas.test";
  canvas_origin = canvas_origin_text;
  courses = record { key = codes "canvas-12"; canvas_course_id = codes "12" } ∷ [];
  verified_events = λ _. none;
  explicit_uid_mappings = λ _. none;
}

feed-bootstraps : bootstrap_options home clock feed ≡ ok first_scope
unfolding bootstrap_options is_text collect_ids add_link insert_id scope_of sort_by text_le split_on
    split_once find_tzid eq_ignore_case to_lower strip_prefix unfold_lines join_lines is_break
    is_blank has_envelope read_lines read_line begin_component end_component property_line
    into_event set_property set_once open_event open_calendar close_event pop_component
    validate_tzid finish_events finish_event property_value unescape_text is_safe safe_text
    utf16_len is_control from_utf8 scan after_lead origin parse_events canvas_link link_of
    direct_link path_id five_parts path_kind numeric_id canonical_url all_digits is_digit
feed-bootstraps = refl

bootstrap_options-scope_example :
    All (IsBootstrapped) first_scope.courses
    × ((id : Bytes) → key_count first_scope.courses (codes "canvas-" ++ id) ≤ 1)
    × (0 < length first_scope.courses)
    × (length first_scope.courses ≤ max_courses)
bootstrap_options-scope_example =
    bootstrap_options-scope home clock feed first_scope feed-bootstraps

-- ===== src/Ical/Normalize.antt =====
-- `normalize_canvas_ical` of src-tauri/src/ical_normalize.rs: the loop over the events, and its result.
use duegood.Base.{
  Bool, true, false, not, ◌&&◌, ltb, Option, none, some, List, [], ◌∷◌, ◌++◌, Bytes, codes, same,
  all, any, map, length, sort_by, Result, ok, ensure, ◌>>=◌, ◌>>◌, if◌then◌else◌,
}
use duegood.Base.Utf8.{Utf8, valid, from_utf8}
use duegood.Ical.Types.{
  IcalError, invalid_input, too_large, malformed_calendar, RawEvent, Clock, Urls, CourseIdentity,
  Options, max_ical_bytes,
}
use duegood.Ical.Lines.{safe_text}
use duegood.Ical.Events.{parse_events}
use duegood.Ical.Links.{CanvasLink, numeric_id, origin, canvas_link}
use duegood.Ical.Observation.{
  Reason, ambiguous_event, is_cancelled_event, HeldEvent, NormalizedEvent, Normalization, Hashing,
  identifier, fields_kind,
}
use duegood.Ical.Courses.{uid_of}
use duegood.Ical.Classify.{Place, Verdict, hold, keep, classify}

-- `link.map(|item| item.course_id.clone())`
abbrev pub link_course : Option CanvasLink → Option Bytes
link_course none = none
link_course (some l) = some l.course_id

abbrev link_url : Option CanvasLink → Option Bytes
link_url none = none
link_url (some l) = some l.url

-- `add_held`, the entry
unfoldable pub held_event : RawEvent → Option CanvasLink → Reason → List Bytes → HeldEvent
held_event e link reason cs = record {
  uid = uid_of e;
  reason = reason;
  canvas_course_id = link_course link;
  candidate_courses = cs;
  cancelled = is_cancelled_event reason;
}

-- The variables of the loop; a key is the institution, the course and the identity.
abbrev pub Key : Type 0
Key = Bytes × Bytes × Bytes

pub record Found : Type 0 where
  pub events : List NormalizedEvent
  pub held : List HeldEvent
  pub identities : List Key

abbrev pub nothing_found : Found
nothing_found = record { events = []; held = []; identities = [] }

abbrev pub key_of : Bytes → Place → Key
key_of institution p = (institution, p.course, p.identity)

abbrev pub same_key : Key → Key → Bool
same_key (a, b, c) (x, y, z) = same a x && (same b y && same c z)

-- the event at the first position with this course and identity, and the others
unfoldable pub take_out :
    Bytes → Bytes → List NormalizedEvent → Option (NormalizedEvent × List NormalizedEvent)
take_out course identity [] = none
take_out course identity (e ∷ es) =
    let later = take_out course identity es in
    if same e.calendar_identity identity && same e.course course
    then some (e, es)
    else elim later [ none ↦ none | some (p, rest) ↦ some (p, e ∷ rest) ]

-- the entry of an event that has to go again
unfoldable pub previous_held : NormalizedEvent → Option CanvasLink → HeldEvent
previous_held previous link = record {
  uid = previous.uid;
  reason = ambiguous_event;
  canvas_course_id = link_course link;
  candidate_courses = [];
  cancelled = false;
}

-- A second event with an identity: the first one, if it is still there, is held as well.
unfoldable pub hold_both : Found → RawEvent → Option CanvasLink → Place → Found
unfolding take_out held_event previous_held
hold_both f e link p = elim (take_out p.course p.identity f.events) [
  | none ↦ record f { held = f.held ++ held_event e link ambiguous_event [] ∷ [] }
  | some (previous, rest) ↦ record f {
    events = rest;
    held = f.held ++ previous_held previous link ∷ held_event e link ambiguous_event [] ∷ [];
  }
]

module _ (hashing : Hashing) (institution : Bytes) where
  unfoldable pub normalized : RawEvent → Option CanvasLink → Place → NormalizedEvent
  unfolding fields_kind identifier
  normalized e link p = record {
    kind = p.kind;
    uid = uid_of e;
    course = p.course;
    canvas_course_id = link_course link;
    calendar_identity = p.identity;
    title = p.title;
    at = p.at;
    observation = record {
      local_id = codes "ical-" ++ identifier hashing (institution ∷ p.course ∷ p.identity ∷ []);
      course = p.course;
      institution = institution;
      reference_id = p.identity;
      fields_kind = fields_kind p.kind;
      title = p.title;
      at = p.at.value;
      url = link_url link;
    };
  }

  -- what the loop does with the verdict on an event
  unfoldable pub record_verdict : Found → RawEvent → Option CanvasLink → Verdict → Found
  unfolding hold_both normalized held_event
  record_verdict f e link (hold reason cs) = record f {
    held = f.held ++ held_event e link reason cs ∷ [];
  }
  record_verdict f e link (keep p) =
      if any (same_key (key_of institution p)) f.identities
      then hold_both f e link p
      else record f {
        events = f.events ++ normalized e link p ∷ [];
        identities = key_of institution p ∷ f.identities;
      }

-- the tests on the scope's courses
unfoldable pub valid_course : CourseIdentity → Bool
unfolding safe_text numeric_id
valid_course c = safe_text c.key 160 && numeric_id c.canvas_course_id

-- the sorted result
unfoldable pub result_of : Found → Normalization
result_of f =
    let events = sort_by (λ e. e.observation.local_id) f.events in
    record {
      events = events;
      observations = map (λ e. e.observation) events;
      held = sort_by (λ h. h.uid) f.held;
      deletions = 0;
    }

unfoldable pub is_valid : Utf8 → Bool
is_valid valid = true
is_valid _ = false

module _ (urls : Urls) (clock : Clock) (hashing : Hashing) (options : Options) where
  module _ (expected : Bytes) (raw : List RawEvent) (calendar_cancelled : Bool) where
    unfoldable pub read_event : Found → RawEvent → Result IcalError Found
    unfolding record_verdict classify canvas_link
    read_event f e = do
      let link = canvas_link urls e.url (uid_of e) expected
      verdict ← classify clock options raw calendar_cancelled e link
      ok (record_verdict hashing options.institution f e link verdict)

    unfoldable pub read_events : Found → List RawEvent → Result IcalError Found
    unfolding read_event
    read_events f [] = ok f
    read_events f (e ∷ es) = do f' ← read_event f e; read_events f' es

  unfoldable pub normalize_canvas_ical : Bytes → Result IcalError Normalization
  normalize_canvas_ical input = do
    ensure (not (ltb max_ical_bytes (length input))) too_large
    ensure (safe_text options.institution 160) invalid_input
    ensure (is_valid (from_utf8 input)) malformed_calendar
    (u, expected) ← origin urls options.canvas_origin
    (raw, calendar_cancelled) ← parse_events clock input
    ensure (all valid_course options.courses) invalid_input
    f ← read_events expected raw calendar_cancelled nothing_found raw
    ok (result_of f)

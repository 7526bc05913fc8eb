-- ===== src/Ical/Types.antt =====
-- The data of src-tauri/src/ical.rs, and the third-party code that the normaliser calls.
use duegood.Base.{ℕ, Bool, Option, List, Bytes}

-- `IcalNormalizationError`
pub data IcalError : Type 0 where
  invalid_input too_large too_many_events malformed_calendar unresolved_timezone : IcalError

pub data EventKind : Type 0 where
  assignment_parent discussion_post_checkpoint discussion_reply_checkpoint other_event : EventKind

abbrev pub max_ical_bytes : ℕ
max_ical_bytes = 5242880

abbrev pub max_ical_events : ℕ
max_ical_events = 2000

-- `IcalCourseIdentity`
pub record CourseIdentity : Type 0 where
  pub key : Bytes
  pub canvas_course_id : Bytes

-- `VerifiedCalendarEvent`
pub record VerifiedEvent : Type 0 where
  pub kind : EventKind
  pub course_id : Bytes
  pub parent_assignment_id : Option Bytes

-- `ExplicitFeedIdentity`
pub record ExplicitIdentity : Type 0 where
  pub course_key : Bytes
  pub stable_identity : Bytes
  pub kind : EventKind
  pub expected_date : Option Bytes

-- `IcalNormalizeOptions`; the two maps are their lookups.
pub record Options : Type 0 where
  pub institution : Bytes
  pub canvas_origin : Bytes
  pub courses : List CourseIdentity
  pub verified_events : Bytes → Option VerifiedEvent
  pub explicit_uid_mappings : Bytes → Option ExplicitIdentity

-- `IcalDateValue`, with the two static names of its kind as a data type
pub data DateKind : Type 0 where
  date timed : DateKind

pub record DateValue : Type 0 where
  pub kind : DateKind
  pub value : Bytes
  pub zone : Option Bytes

-- `RawEvent`
pub record RawEvent : Type 0 where
  pub uid : Option Bytes
  pub summary : Option Bytes
  pub start : Option Bytes
  pub url : Option Bytes
  pub status : Option Bytes
  pub method_cancel : Bool
  pub method_seen : Bool
  pub recurrence_id : Option Bytes

-- The `url` crate: a parsed URL through its accessors.
pub record Urls : Type 1 where
  pub Url : Type 0
  pub parse : Bytes → Option Url
  pub scheme : Url → Bytes
  pub username : Url → Bytes
  pub password : Url → Option Bytes
  pub path : Url → Bytes
  pub query : Url → Option Bytes
  pub fragment : Url → Option Bytes
  pub query_pairs : Url → List (Bytes × Bytes)
  pub host : Url → Option Bytes
  pub origin : Url → Bytes

-- `chrono::LocalResult`
pub data LocalTime (A : Type 0) : Type 0 where
  single : A → LocalTime A
  ambiguous skipped : LocalTime A

-- `chrono` and `chrono_tz`: parsing and printing by a format, and a zone's local times.
pub record Clock : Type 1 where
  pub Zone : Type 0
  pub Date : Type 0
  pub DateTime : Type 0
  pub parse_zone : Bytes → Option Zone
  pub zone_name : Zone → Bytes
  pub parse_date : Bytes → Bytes → Option Date
  pub format_date : Date → Bytes → Bytes
  pub parse_date_time : Bytes → Bytes → Option DateTime
  pub format_date_time : DateTime → Bytes → Bytes
  pub from_local : Zone → DateTime → LocalTime DateTime

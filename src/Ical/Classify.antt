-- ===== src/Ical/Classify.antt =====
-- The loop body of `normalize_canvas_ical` in src-tauri/src/ical_normalize.rs, up to the event's
-- identity: which events are held and why, which are placed, and which refuse the feed.
use duegood.Base.{
  Bool, true, false, not, ◌&&◌, ◌||◌, ◌==◌, Option, none, some, List, ◌++◌, Bytes, codes, same,
  some_and, Result, ok, err, ◌>>=◌, if◌then◌else◌,
}
use duegood.Ical.Types.{
  IcalError, invalid_input, RawEvent, Clock, Options, ExplicitIdentity, VerifiedEvent, DateValue,
  date, timed, EventKind, assignment_parent, discussion_post_checkpoint,
  discussion_reply_checkpoint,
}
use duegood.Ical.Links.{CanvasLink, assignment, event, numeric_id}
use duegood.Ical.Date.{StartTime, parse_start}
use duegood.Ical.Observation.{
  Reason, cancelled_event, ambiguous_event, unsupported_event, floating_time, unknown_course,
  ambiguous_course, valid_identity, valid_date, assignment_id, event_id,
}
use duegood.Ical.Courses.{
  text_of, uid_of, key_count, candidates, is_cancelled, is_ambiguous, agrees, filter_some,
  one_course,
}

-- What becomes of an event: it is held with its candidate courses, or it has a place.
pub record Place : Type 0 where
  pub course : Bytes
  pub kind : EventKind
  pub identity : Bytes
  pub title : Bytes
  pub at : DateValue

pub data Verdict : Type 0 where
  hold : Reason → List Bytes → Verdict
  keep : Place → Verdict

abbrev pub is_checkpoint : EventKind → Bool
is_checkpoint discussion_post_checkpoint = true
is_checkpoint discussion_reply_checkpoint = true
is_checkpoint _ = false

abbrev pub is_assignment : EventKind → Bool
is_assignment assignment_parent = true
is_assignment _ = false

-- the identity of a verified event; the kind `assignment_parent` has been refused
unfoldable pub verified_identity : EventKind → Option Bytes → Bytes → Bytes
verified_identity discussion_post_checkpoint parent id =
    assignment_id (text_of parent ++ codes ":checkpoint:discussion-post-checkpoint")
verified_identity discussion_reply_checkpoint parent id =
    assignment_id (text_of parent ++ codes ":checkpoint:discussion-reply-checkpoint")
verified_identity _ parent id = event_id id

module _ (clock : Clock) (options : Options) where
  unfoldable pub date_value : StartTime (clock.DateTime) → Result Reason DateValue
  date_value (StartTime.all_day value) = ok (record { kind = date; value = value; zone = none })
  date_value (StartTime.timed none none) = err floating_time
  date_value (StartTime.timed none (some _)) = err ambiguous_event
  date_value (StartTime.timed (some t) zone) = ok (record {
    kind = timed;
    value = clock.format_date_time t (codes "%Y-%m-%dT%H:%M:%S.000") ++ codes "Z";
    zone = zone;
  })

  abbrev pub has_date : StartTime (clock.DateTime) → Bytes → Bool
  has_date (StartTime.all_day value) expected = same value expected
  has_date (StartTime.timed _ _) expected = false

  abbrev pub breaks_date : Option ExplicitIdentity → StartTime (clock.DateTime) → Bool
  breaks_date none start = false
  breaks_date (some m) start = some_and (λ d. not (has_date start d)) m.expected_date

  -- the place of an explicit mapping
  unfoldable pub explicit_place :
      ExplicitIdentity → List Bytes → Bytes → DateValue → Result IcalError Verdict
  explicit_place m cs title at =
      let n = key_count options.courses m.course_key in
      if n == 0
      then ok (hold unknown_course cs)
      else if not (n == 1)
      then ok (hold ambiguous_course cs)
      else if not (valid_identity m.kind m.stable_identity)
      then err invalid_input
      else if some_and (λ d. not (valid_date clock d)) m.expected_date
      then err invalid_input
      else ok (
          keep (record {
            course = m.course_key;
            kind = m.kind;
            identity = m.stable_identity;
            title = title;
            at = at;
          }))

  unfoldable pub verified_place :
      Option VerifiedEvent
      → CanvasLink
      → Bytes
      → List Bytes
      → Bytes
      → DateValue
      → Result IcalError Verdict
  verified_place none l course cs title at = ok (hold ambiguous_event cs)
  verified_place (some v) l course cs title at =
      if is_assignment v.kind
        || (is_checkpoint v.kind && not (some_and numeric_id v.parent_assignment_id))
      then err invalid_input
      else ok (
          keep (record {
            course = course;
            kind = v.kind;
            identity = verified_identity v.kind v.parent_assignment_id l.id;
            title = title;
            at = at;
          }))

  -- the place of a link without an explicit mapping
  unfoldable pub link_place :
      CanvasLink → Bytes → List Bytes → Bytes → DateValue → Result IcalError Verdict
  link_place l course cs title at = elim (l.kind) [
    | assignment ↦ ok (
        keep (record {
          course = course;
          kind = assignment_parent;
          identity = assignment_id l.id;
          title = title;
          at = at;
        }))
    | event ↦
        verified_place
          (filter_some (λ v. same v.course_id l.course_id) (options.verified_events l.id)) l course
          cs title at
  ]

  unfoldable pub place_in :
      Option ExplicitIdentity
      → CanvasLink
      → List Bytes
      → Bytes
      → DateValue
      → Bytes
      → Result IcalError Verdict
  place_in (some m) l cs title at course = explicit_place m cs title at
  place_in none l cs title at course = link_place l course cs title at

  -- an event that has its date
  unfoldable pub placed :
      Option CanvasLink
      → Option ExplicitIdentity
      → List Bytes
      → Bytes
      → DateValue
      → Result IcalError Verdict
  placed none none cs title at = ok (hold unsupported_event cs)
  placed none (some m) cs title at = explicit_place m cs title at
  placed (some l) explicit cs title at = elim (one_course options.courses cs) [
    | err reason ↦ ok (hold reason cs)
    | ok course ↦ place_in explicit l cs title at course
  ]

  unfoldable pub dated :
      Option CanvasLink
      → Option ExplicitIdentity
      → List Bytes
      → Bytes
      → StartTime (clock.DateTime)
      → Result IcalError Verdict
  dated link explicit cs title start =
      if breaks_date explicit start then ok (hold ambiguous_event cs) else elim (date_value start) [
        | err reason ↦ ok (hold reason cs)
        | ok at ↦ placed link explicit cs title at
      ]

  unfoldable pub with_fields :
      RawEvent
      → Option CanvasLink
      → List Bytes
      → Option Bytes
      → Option Bytes
      → Result IcalError Verdict
  with_fields e link cs (some title) (some start) = do
    let explicit = filter_some (agrees e.url link cs) (options.explicit_uid_mappings (uid_of e))
    parsed ← parse_start clock start
    dated link explicit cs title parsed
  with_fields e link cs _ _ = ok (hold unsupported_event cs)

  -- One event, with its link, in the feed of all events.
  unfoldable pub classify :
      List RawEvent → Bool → RawEvent → Option CanvasLink → Result IcalError Verdict
  classify raw calendar_cancelled e link =
      let cs = candidates options.courses link in
      if is_cancelled calendar_cancelled e
      then ok (hold cancelled_event cs)
      else if is_ambiguous raw e
      then ok (hold ambiguous_event cs)
      else with_fields e link cs e.summary e.start

-- ===== src/Ical/Courses.antt =====
-- The scope's courses and the tests on one event, in src-tauri/src/ical_normalize.rs.
use duegood.Base.{
  ℕ, Bool, true, false, not, ◌&&◌, ◌||◌, ltb, ◌==◌, Option, none, some, List, [], ◌∷◌, Bytes, codes,
  same, eq_ignore_case, any, count, dedup, sort_by, some_and, is_some, Result, ok, err,
  if◌then◌else◌,
}
use duegood.Ical.Types.{RawEvent, CourseIdentity, ExplicitIdentity, EventKind, other_event}
use duegood.Ical.Links.{CanvasLink, LinkKind, assignment, event}
use duegood.Ical.Observation.{Reason, unknown_course, ambiguous_course, event_id}

abbrev pub text_of : Option Bytes → Bytes
text_of none = []
text_of (some s) = s

abbrev pub uid_of : RawEvent → Bytes
uid_of e = text_of e.uid

-- `course_key_count.get(key)`, a missing key counting 0
unfoldable pub key_count : List CourseIdentity → Bytes → ℕ
key_count courses key = count (λ c. same c.key key) courses

keys_with : List CourseIdentity → Bytes → List Bytes
keys_with [] id = []
keys_with (c ∷ cs) id =
    let rest = keys_with cs id in if same c.canvas_course_id id then c.key ∷ rest else rest

-- `course_by_canvas.get(id)`, a missing key giving no course
unfoldable pub courses_with : List CourseIdentity → Bytes → List Bytes
unfolding keys_with sort_by dedup
courses_with courses id = dedup (sort_by (λ k. k) (keys_with courses id))

unfoldable pub candidates : List CourseIdentity → Option CanvasLink → List Bytes
unfolding courses_with
candidates courses none = []
candidates courses (some l) = dedup (sort_by (λ k. k) (courses_with courses l.course_id))

unfoldable pub is_cancelled : Bool → RawEvent → Bool
unfolding eq_ignore_case
is_cancelled calendar_cancelled e =
    calendar_cancelled
    || e.method_cancel
    || some_and (λ s. eq_ignore_case s (codes "CANCELLED")) e.status

abbrev has_uid : Bytes → RawEvent → Bool
has_uid uid e = some_and (same uid) e.uid

-- the test on a recurrence, and on a UID that stands more than once
unfoldable pub is_ambiguous : List RawEvent → RawEvent → Bool
is_ambiguous raw e =
    is_some e.recurrence_id
    || (ltb 1 (count (λ r. same (uid_of r) (uid_of e)) raw)
        && not (any (λ r. has_uid (uid_of e) r && is_some r.recurrence_id) raw))

abbrev is_other : EventKind → Bool
is_other other_event = true
is_other _ = false

abbrev is_event : LinkKind → Bool
is_event event = true
is_event assignment = false

abbrev is_single : List Bytes → Bytes → Bool
is_single (c ∷ []) key = same c key
is_single _ key = false

-- the filter on an explicit mapping
unfoldable pub agrees : Option Bytes → Option CanvasLink → List Bytes → ExplicitIdentity → Bool
agrees none link cs m = true
agrees (some _) none cs m = false
agrees (some _) (some l) cs m =
    is_event l.kind
    && is_other m.kind
    && same m.stable_identity (event_id l.id)
    && is_single cs m.course_key

abbrev pub filter_some {ℓ} : {A : Type ℓ} → (A → Bool) → Option A → Option A
filter_some p none = none
filter_some p (some a) = if p a then some a else none

-- the two tests on a link's candidate courses
unfoldable pub one_course : List CourseIdentity → List Bytes → Result Reason Bytes
unfolding key_count
one_course courses [] = err unknown_course
one_course courses (c ∷ []) = if key_count courses c == 1 then ok c else err ambiguous_course
one_course courses (_ ∷ _ ∷ _) = err ambiguous_course

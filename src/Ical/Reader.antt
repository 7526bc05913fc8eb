-- ===== src/Ical/Reader.antt =====
-- The loop state of `parse_events` in src-tauri/src/ical_parse.rs, and its BEGIN and END lines.
use duegood.Base.{
  ℕ, Bool, true, false, not, ◌&&◌, ◌||◌, leb, ◌==◌, Option, none, some, List, [], ◌∷◌, ◌++◌, Bytes,
  codes, same, is_digit, all, length, is_some, Result, ok, err, if◌then◌else◌, ◌>>=◌,
}
use duegood.Ical.Types.{IcalError, malformed_calendar, too_many_events, RawEvent, max_ical_events}
use duegood.Ical.Lines.{is_empty}

-- The local variables of the loop: the open components, innermost first, the events so far, the
-- event that is being read, and the two flags.
pub record Reader : Type 0 where
  pub stack : List Bytes
  pub events : List RawEvent
  pub current : Option RawEvent
  pub cancelled : Bool
  pub seen_calendar : Bool

abbrev pub initial : Reader
initial = record {
  stack = [];
  events = [];
  current = none;
  cancelled = false;
  seen_calendar = false;
}

-- `RawEvent::default()`
abbrev pub empty_event : RawEvent
empty_event = record {
  uid = none;
  summary = none;
  start = none;
  url = none;
  status = none;
  method_cancel = false;
  method_seen = false;
  recurrence_id = none;
}

abbrev pub vcalendar : Bytes
vcalendar = codes "VCALENDAR"

abbrev pub vevent : Bytes
vevent = codes "VEVENT"

-- `stack.last()` is this component
abbrev pub on_top : Bytes → List Bytes → Bool
on_top c [] = false
on_top c (t ∷ _) = same t c

abbrev pub is_nil : List Bytes → Bool
is_nil [] = true
is_nil (_ ∷ _) = false

component_byte : ℕ → Bool
component_byte b = (leb b'A' b && leb b b'Z') || is_digit b || b == b'-'

bad_component : List Bytes → Bytes → Bool
unfolding component_byte
bad_component stack c =
    is_empty c
    || not (all component_byte c)
    || (not (is_nil stack) && same c vcalendar)
    || (is_nil stack && not (same c vcalendar))

-- the tests for VEVENT, and the event that it starts
unfoldable pub open_event : Reader → Bytes → Result IcalError Reader
open_event r c =
    if not (same c vevent)
    then ok r
    else if not (on_top vcalendar r.stack)
    then err malformed_calendar
    else if leb max_ical_events (length r.events)
    then err too_many_events
    else ok (record r { current = some empty_event })

unfoldable pub open_calendar : Reader → Bytes → Result IcalError Reader
open_calendar r c =
    if not (same c vcalendar)
    then ok r
    else if r.seen_calendar
    then err malformed_calendar
    else ok (record r { seen_calendar = true })

-- a line `BEGIN:c`
unfoldable pub begin_component : Reader → Bytes → Result IcalError Reader
unfolding bad_component open_event open_calendar
begin_component r c =
    if bad_component r.stack c
    then err malformed_calendar
    else do r1 ← open_calendar r c; r2 ← open_event r1 c; ok (record r2 { stack = c ∷ r2.stack })

-- END:VEVENT with the event taken out of `current`
unfoldable pub close_event : Reader → Option RawEvent → Result IcalError Reader
close_event r none = err malformed_calendar
close_event r (some e) =
    if is_some e.uid
    then ok (record r { current = none; events = r.events ++ e ∷ [] })
    else err malformed_calendar

unfoldable pub pop_component : Reader → Bytes → List Bytes → Result IcalError Reader
pop_component r c [] = err malformed_calendar
pop_component r c (t ∷ stack) =
    if same t c then ok (record r { stack = stack }) else err malformed_calendar

-- a line `END:c`
unfoldable pub end_component : Reader → Bytes → Result IcalError Reader
unfolding close_event pop_component
end_component r c = do
  r1 ← pop_component r c r.stack
  if same c vevent then close_event r1 r1.current else ok r1

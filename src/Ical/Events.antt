-- ===== src/Ical/Events.antt =====
-- `parse_events` of src-tauri/src/ical_parse.rs: components, properties, limits.
use duegood.Base.{
  Bool, true, not, ◌&&◌, ◌||◌, Option, none, some, List, [], ◌∷◌, Bytes, codes, same, strip_prefix,
  split_once, split_on, all, some_and, Result, ok, err, ok_or, if◌then◌else◌, ◌>>=◌, ◌>>◌, ensure,
}
use duegood.Ical.Types.{IcalError, malformed_calendar, RawEvent, Clock}
use duegood.Ical.Lines.{
  safe_text, unfold_lines, property_value, validate_tzid, unescape_text, is_semicolon,
}
use duegood.Ical.Reader.{
  Reader, initial, vcalendar, vevent, on_top, is_nil, begin_component, end_component,
}

-- `set_once`
unfoldable pub set_once : Option Bytes → Bytes → Result IcalError (Option Bytes)
set_once none line = ok (some line)
set_once (some _) line = err malformed_calendar

-- the match on the property's name
unfoldable pub set_property : RawEvent → Bytes → Bytes → Result IcalError RawEvent
unfolding set_once
set_property e name line =
    if same name (codes "UID")
    then (do v ← set_once e.uid line; ok (record e { uid = v }))
    else if same name (codes "SUMMARY")
    then (do v ← set_once e.summary line; ok (record e { summary = v }))
    else if same name (codes "DTSTART")
    then (do v ← set_once e.start line; ok (record e { start = v }))
    else if same name (codes "URL")
    then (do v ← set_once e.url line; ok (record e { url = v }))
    else if same name (codes "STATUS")
    then (do v ← set_once e.status line; ok (record e { status = v }))
    else if same name (codes "RECURRENCE-ID")
    then (do v ← set_once e.recurrence_id line; ok (record e { recurrence_id = v }))
    else if same name (codes "METHOD")
    then (if e.method_seen
        then err malformed_calendar
        else ok
            (record e { method_seen = true; method_cancel = same line (codes "METHOD:CANCEL") }))
    else ok e

abbrev first_or_empty : List Bytes → Bytes
first_or_empty [] = []
first_or_empty (p ∷ _) = p

-- The property goes into the current event, if VEVENT is the innermost component.
unfoldable pub into_event : Reader → Option RawEvent → Bytes → Bytes → Result IcalError Reader
into_event r none head line = ok r
into_event r (some e) head line = if not (on_top vevent r.stack) then ok r else do
  e' ← set_property e (first_or_empty (split_on is_semicolon head)) line
  ok (record r { current = some e' })

abbrev head_part : Option (Bytes × Bytes) → Option Bytes
head_part none = none
head_part (some (h, _)) = some h

-- The conversions of the second loop: a line that was kept becomes its value.
property : Option Bytes → Result IcalError (Option Bytes)
property none = ok none
property (some line) = do v ← property_value line; ok (some v)

text_property : Option Bytes → Result IcalError (Option Bytes)
text_property none = ok none
text_property (some line) = do v ← property_value line; ok (some (unescape_text v))

unfoldable pub finish_event : RawEvent → Result IcalError RawEvent
unfolding property text_property
finish_event e = do
  uid ← property e.uid
  summary ← text_property e.summary
  url ← property e.url
  status ← property e.status
  recurrence_id ← property e.recurrence_id
  ok (record e {
    uid = uid;
    summary = summary;
    url = url;
    status = status;
    recurrence_id = recurrence_id;
  })

unfoldable pub finish_events : List RawEvent → Result IcalError (List RawEvent)
unfolding finish_event
finish_events [] = ok []
finish_events (e ∷ es) = do e' ← finish_event e; rest ← finish_events es; ok (e' ∷ rest)

-- the summary, if any, is safe
abbrev none_or : (Bytes → Bool) → Option Bytes → Bool
none_or p none = true
none_or p (some v) = p v

unfoldable pub is_safe : RawEvent → Bool
unfolding safe_text
is_safe e = some_and (λ uid. safe_text uid 500) e.uid && none_or (λ s. safe_text s 1000) e.summary

module _ (clock : Clock) where
  -- a line that is neither BEGIN nor END
  unfoldable pub property_line : Reader → Bytes → Result IcalError Reader
  unfolding into_event
  property_line r line = if is_nil r.stack then err malformed_calendar else do
    head ← ok_or malformed_calendar (head_part (split_once b':' line))
    validate_tzid clock head
    let cancel = on_top vcalendar r.stack && same line (codes "METHOD:CANCEL")
    let r' = record r { cancelled = r.cancelled || cancel }
    into_event r' r'.current head line

  -- one round of the loop
  unfoldable pub read_line : Reader → Bytes → Result IcalError Reader
  unfolding strip_prefix begin_component end_component property_line
  read_line r line = elim (strip_prefix (codes "BEGIN:") line) [
    | some c ↦ begin_component r c
    | none ↦ elim (strip_prefix (codes "END:") line) [
      | some c ↦ end_component r c
      | none ↦ property_line r line
    ]
  ]

  unfoldable pub read_lines : Reader → List Bytes → Result IcalError Reader
  unfolding read_line
  read_lines r [] = ok r
  read_lines r (line ∷ lines) = do r' ← read_line r line; read_lines r' lines

  unfoldable pub parse_events : Bytes → Result IcalError (List RawEvent × Bool)
  unfolding read_lines finish_events is_safe unfold_lines
  parse_events input = do
    lines ← unfold_lines input
    r ← read_lines initial lines
    ensure (is_nil r.stack && r.seen_calendar) malformed_calendar
    events ← finish_events r.events
    ensure (all is_safe events) malformed_calendar
    ok (events, r.cancelled)

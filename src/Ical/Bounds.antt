-- ===== src/Ical/Bounds.antt =====
-- The limits that `parse_events` of src-tauri/src/ical_parse.rs keeps.
use duegood.Base.{
  Bool, true, ◌≤◌, ◌<◌, List, [], ◌∷◌, Bytes, all, length, length-append, is_some, ok, >>=-ok, ◌≡◌,
  Option-cases, inl, inr, arith, strip_prefix, codes, Result-cases,
}
use duegood.Ical.Types.{RawEvent, Clock, max_ical_events}
use duegood.Ical.Lines.{unfold_lines}
use duegood.Ical.Reader.{
  Reader, initial, open_calendar, open_event, begin_component, pop_component, close_event,
  end_component,
}
use duegood.Ical.Events.{
  into_event, property_line, read_line, read_lines, finish_event, finish_events, is_safe,
  parse_events,
}

-- There is room for the event that is being read.
abbrev IsBounded : Reader → Type 0
IsBounded r =
    (length r.events ≤ max_ical_events)
    × (is_some r.current ≡ true → length r.events < max_ical_events)

open_event-IsBounded :
    (r r' : Reader) (c : Bytes) → IsBounded r → open_event r c ≡ ok r' → IsBounded r'
unfolding open_event
open_event-IsBounded r r' c h e = ground arith

open_calendar-IsBounded :
    (r r' : Reader) (c : Bytes) → IsBounded r → open_calendar r c ≡ ok r' → IsBounded r'
unfolding open_calendar
open_calendar-IsBounded r r' c h e = ground arith

begin_component-IsBounded :
    (r r' : Reader) (c : Bytes) → IsBounded r → begin_component r c ≡ ok r' → IsBounded r'
unfolding begin_component
begin_component-IsBounded r r' c h e = elim (Result-cases (open_calendar r c)) [
  | inr (x, k) ↦ ground (arith, k)
  | inl (r1, k) ↦ elim (Result-cases (open_event r1 c)) [
    | inr (x, l) ↦ ground (arith, k, l)
    | inl (r2, l) ↦
        ground (arith, k, l, open_event-IsBounded r1 r2 c (open_calendar-IsBounded r r1 c h k) l)
  ]
]

close_event-IsBounded :
    (r r' : Reader) → IsBounded r → close_event r r.current ≡ ok r' → IsBounded r'
unfolding close_event
close_event-IsBounded r r' h e = elim (Option-cases r.current) [
  | inl k ↦ ground (arith, k)
  | inr (v, k) ↦ ground (arith, k, length-append r.events (v ∷ []))
]

pop_component-IsBounded :
    (r r' : Reader) (c : Bytes) (stack : List Bytes)
    → IsBounded r
    → pop_component r c stack ≡ ok r'
    → IsBounded r'
unfolding pop_component
pop_component-IsBounded r r' c [] h e = cc
pop_component-IsBounded r r' c (t ∷ stack) h e = ground arith

end_component-IsBounded :
    (r r' : Reader) (c : Bytes) → IsBounded r → end_component r c ≡ ok r' → IsBounded r'
unfolding end_component pop_component
end_component-IsBounded r r' c h e = elim (Result-cases (pop_component r c r.stack)) [
  | inr (x, k) ↦ ground (arith, k)
  | inl (r1, k) ↦
      let h1 : IsBounded r1 = pop_component-IsBounded r r1 c r.stack h k in
      ground (arith, k, close_event-IsBounded r1 r' h1)
]

into_event-IsBounded :
    (r r' : Reader) (head line : Bytes)
    → IsBounded r
    → into_event r r.current head line ≡ ok r'
    → IsBounded r'
unfolding into_event
into_event-IsBounded r r' head line h e = elim (Option-cases r.current) [
  | inl k ↦ ground (arith, k)
  | inr (v, k) ↦ ground (arith, k)
]

module _ (clock : Clock) where
  property_line-IsBounded :
      (r r' : Reader) (line : Bytes)
      → IsBounded r
      → property_line clock r line ≡ ok r'
      → IsBounded r'
  unfolding property_line
  property_line-IsBounded r r' line h e = ground arith

  read_line-IsBounded :
      (r r' : Reader) (line : Bytes) → IsBounded r → read_line clock r line ≡ ok r' → IsBounded r'
  unfolding read_line
  read_line-IsBounded r r' line h e = elim (Option-cases (strip_prefix (codes "BEGIN:") line)) [
    | inr (c, k) ↦ begin_component-IsBounded r r' c h (ground (arith, k))
    | inl k ↦ elim (Option-cases (strip_prefix (codes "END:") line)) [
      | inr (c, l) ↦ end_component-IsBounded r r' c h (ground (arith, k, l))
      | inl l ↦ property_line-IsBounded r r' line h (ground (arith, k, l))
    ]
  ]

  read_lines-IsBounded :
      (r r' : Reader) (lines : List Bytes)
      → IsBounded r
      → read_lines clock r lines ≡ ok r'
      → IsBounded r'
  unfolding read_lines
  read_lines-IsBounded r r' [] h e = ground arith
  read_lines-IsBounded r r' (line ∷ lines) h e =
      let (r1, l, k) = >>=-ok (λ x. read_lines clock x lines) (read_line clock r line) e in
      read_lines-IsBounded r1 r' lines (read_line-IsBounded r r1 line h k) l

finish_events-length : (es es' : List RawEvent) → finish_events es ≡ ok es' → length es' ≡ length es
unfolding finish_events
finish_events-length [] es' e = ground arith
finish_events-length (v ∷ es) es' e = elim (Result-cases (finish_event v)) [
  | inr (x, k) ↦ ground (arith, k)
  | inl (v', k) ↦ elim (Result-cases (finish_events es)) [
    | inr (x, l) ↦ ground (arith, k, l)
    | inl (rest, l) ↦ ground (arith, k, l, finish_events-length es rest l)
  ]
]

module _ (clock : Clock) where
  -- A feed that parses has at most 2000 events, and each has a safe UID and, if any, a safe summary.
  pub parse_events-bounded :
      (input : Bytes) (events : List RawEvent) (cancelled : Bool)
      → parse_events clock input ≡ ok (events, cancelled)
      → (length events ≤ max_ical_events) × (all is_safe events ≡ true)
  unfolding parse_events
  parse_events-bounded input events cancelled h = elim (Result-cases (unfold_lines input)) [
    | inr (x, k) ↦ ground (arith, k)
    | inl (lines, k) ↦ elim (Result-cases (read_lines clock initial lines)) [
      | inr (x, l) ↦ ground (arith, k, l)
      | inl (r, l) ↦ elim (Result-cases (finish_events r.events)) [
        | inr (x, m) ↦ ground (arith, k, l, m)
        | inl (es, m) ↦
            let bound = (read_lines-IsBounded clock initial r lines (omega arith, λ e. cc) l).0 in
            ground (arith, k, l, m, finish_events-length r.events es m, bound)
      ]
    ]
  ]

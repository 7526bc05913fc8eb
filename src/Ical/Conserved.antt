-- ===== src/Ical/Conserved.antt =====
-- What `normalize_canvas_ical` of src-tauri/src/ical_normalize.rs keeps of the feed's events.
use duegood.Base.{
  ℕ, ◌+◌, Bool, ◌&&◌, Option, some, List, [], ◌∷◌, Bytes, same, any, count, count-append,
  count-sort_by, ok, Result-cases, Bool-cases, Option-cases, ◌≡◌, inl, inr, arith,
}
use duegood.Ical.Types.{RawEvent, Clock, Urls, Options}
use duegood.Ical.Events.{parse_events}
use duegood.Ical.Links.{CanvasLink, origin, canvas_link}
use duegood.Ical.Observation.{ambiguous_event, HeldEvent, NormalizedEvent, Normalization, Hashing}
use duegood.Ical.Courses.{uid_of}
use duegood.Ical.Classify.{Place, Verdict, hold, keep, classify}
use duegood.Ical.Normalize.{
  Found, nothing_found, take_out, hold_both, previous_held, held_event, normalized, record_verdict,
  read_event, read_events, result_of, normalize_canvas_ical, key_of, same_key,
}

-- how many entries have a UID
abbrev pub raw_count : Bytes → List RawEvent → ℕ
raw_count uid = count (λ e. same uid (uid_of e))

abbrev pub event_count : Bytes → List NormalizedEvent → ℕ
event_count uid = count (λ e. same uid e.uid)

abbrev pub held_count : Bytes → List HeldEvent → ℕ
held_count uid = count (λ h. same uid h.uid)

-- how many events have a course and an identity
abbrev pub is_at : Bytes → Bytes → NormalizedEvent → Bool
is_at course identity e = same course e.course && same identity e.calendar_identity

pub take_out-count :
    (p : NormalizedEvent → Bool) (course identity : Bytes) (es rest : List NormalizedEvent)
    (e : NormalizedEvent)
    → take_out course identity es ≡ some (e, rest)
    → count p es ≡ count p (e ∷ rest)
unfolding take_out
take_out-count p course identity [] rest e h = cc
take_out-count p course identity (x ∷ es) rest e h =
    elim (Bool-cases (same x.calendar_identity identity && same x.course course)) [
      | inl t ↦ ground (arith, t)
      | inr t ↦ elim (Option-cases (take_out course identity es)) [
        | inl k ↦ ground (arith, t, k)
        | inr ((y, ys), k) ↦ ground (arith, t, k, take_out-count p course identity es ys y k)
      ]
    ]

found_count : Bytes → Found → ℕ
found_count uid f = event_count uid f.events + held_count uid f.held

hold_both-count :
    (uid : Bytes) (f : Found) (e : RawEvent) (link : Option CanvasLink) (p : Place)
    → found_count uid (hold_both f e link p) ≡ found_count uid f + raw_count uid (e ∷ [])
unfolding hold_both held_event previous_held found_count
hold_both-count uid f e link p = elim (Option-cases (take_out p.course p.identity f.events)) [
  | inl k ↦
      let h = held_event e link ambiguous_event [] in
      rw (k, hold_both) (omega (arith, count-append (λ x. same uid x.uid) f.held (h ∷ [])))
  | inr ((x, rest), k) ↦
      let hs = previous_held x link ∷ held_event e link ambiguous_event [] ∷ [] in
      rw (k, hold_both)
        (omega (
          arith,
          count-append (λ y. same uid y.uid) f.held hs,
          take_out-count (λ y. same uid y.uid) p.course p.identity f.events rest x k,
        ))
]

module _ (hashing : Hashing) (institution : Bytes) where
  record_verdict-count :
      (uid : Bytes) (f : Found) (e : RawEvent) (link : Option CanvasLink) (v : Verdict)
      → found_count uid (record_verdict hashing institution f e link v)
        ≡ found_count uid f + raw_count uid (e ∷ [])
  unfolding record_verdict held_event normalized found_count
  record_verdict-count uid f e link (hold reason cs) =
      omega (arith, count-append (λ x. same uid x.uid) f.held (held_event e link reason cs ∷ []))
  record_verdict-count uid f e link (keep p) =
      elim (Bool-cases (any (same_key (key_of institution p)) f.identities)) [
        | inl k ↦ rw (k) (hold_both-count uid f e link p)
        | inr k ↦ rw (k) (
            omega (
              arith,
              count-append (λ x. same uid x.uid) f.events
                  (normalized hashing institution e link p ∷ []),
            ))
      ]

module _ (urls : Urls) (clock : Clock) (hashing : Hashing) (options : Options) where
  module _ (expected : Bytes) (raw : List RawEvent) (calendar_cancelled : Bool) where
    read_events-count :
        (uid : Bytes) (f f' : Found) (es : List RawEvent)
        → read_events urls clock hashing options expected raw calendar_cancelled f es ≡ ok f'
        → found_count uid f' ≡ found_count uid f + raw_count uid es
    unfolding read_events read_event
    read_events-count uid f f' [] h = ground arith
    read_events-count uid f f' (e ∷ es) h =
        elim (Result-cases (
          classify clock options raw calendar_cancelled e
            (canvas_link urls e.url (uid_of e) expected))) [
              | inr (x, k) ↦ ground (arith, k)
              | inl (v, k) ↦
                  let link = canvas_link urls e.url (uid_of e) expected in
                  let f1 = record_verdict hashing options.institution f e link v in
                  let l : read_events urls clock hashing options expected raw calendar_cancelled f1
                        es
                      ≡ ok f' =
                    ground (arith, k) in
                  omega (
                    arith,
                    record_verdict-count hashing options.institution uid f e link v,
                    read_events-count uid f1 f' es l,
                  )
            ]

  -- The steps of a run that returns a result.
  pub normalize_canvas_ical-found :
      (input : Bytes) (n : Normalization)
      → normalize_canvas_ical urls clock hashing options input ≡ ok n
      → (expected : Bytes) × (raw : List RawEvent) × (cancelled : Bool) × (f : Found)
        × (parse_events clock input ≡ ok (raw, cancelled))
        × (read_events urls clock hashing options expected raw cancelled nothing_found raw ≡ ok f)
        × (n ≡ result_of f)
  unfolding normalize_canvas_ical
  normalize_canvas_ical-found input n h = elim (Result-cases (origin urls options.canvas_origin)) [
    | inr (x, k) ↦ ground (arith, k)
    | inl ((u, expected), k) ↦ elim (Result-cases (parse_events clock input)) [
      | inr (x, l) ↦ ground (arith, k, l)
      | inl ((raw, c), l) ↦
          elim (Result-cases
            (read_events urls clock hashing options expected raw c nothing_found raw)) [
              | inr (x, m) ↦ ground (arith, k, l, m)
              | inl (f, m) ↦ (expected, raw, c, f, l, m, ground (arith, k, l, m))
            ]
    ]
  ]

  -- Where normalisation succeeds, every event of the parsed feed ends up in exactly one place: for
  -- each UID, the accepted and the held events with it are together as many as the parsed ones.
  pub normalize_canvas_ical-count :
      (input : Bytes) (n : Normalization)
      → normalize_canvas_ical urls clock hashing options input ≡ ok n
      → (raw : List RawEvent) × (cancelled : Bool) × (parse_events clock input
          ≡ ok (raw, cancelled))
        × ((uid : Bytes) → event_count uid n.events + held_count uid n.held ≡ raw_count uid raw)
  unfolding result_of found_count
  normalize_canvas_ical-count input n h =
      let (expected, raw, c, f, k, l, m) = normalize_canvas_ical-found input n h in
      (
        raw,
        c,
        k,
        λ uid. rw (m) (
            omega (
              arith,
              count-sort_by (λ x. same uid x.uid) (λ e. e.observation.local_id) f.events,
              count-sort_by (λ x. same uid x.uid) (λ y. y.uid) f.held,
              read_events-count expected raw c uid nothing_found f raw l,
            )),
      )

-- ===== src/Ical/Accepted.antt =====
-- The events that `normalize_canvas_ical` of src-tauri/src/ical_normalize.rs accepts.
use duegood.Base.{
  Bool, true, false, ◌&&◌, Option, none, some, List, [], ◌∷◌, Bytes, same, any, All, All-append, ok,
  Result-cases, Bool-cases, Option-cases, ◌≡◌, refl, sym, subst, All-sort_by, All-Mem, inl, inr,
  arith,
}
use mathlib.Core.List.{Mem}
use duegood.Ical.Types.{RawEvent, Clock, Urls, Options, ExplicitIdentity}
use duegood.Ical.Events.{parse_events}
use duegood.Ical.Date.{StartTime, parse_start}
use duegood.Ical.Links.{CanvasLink, canvas_link, numeric_id}
use duegood.Ical.LinksSound.{canvas_link-IsCanonical}
use duegood.Ical.Observation.{NormalizedEvent, Normalization, Hashing, valid_identity}
use duegood.Ical.Courses.{uid_of, candidates, is_cancelled, is_ambiguous, filter_some, agrees}
use duegood.Ical.Classify.{Place, Verdict, hold, keep, classify, with_fields, dated, date_value}
use duegood.Ical.Identities.{placed-valid}
use duegood.Ical.Normalize.{
  Found, nothing_found, take_out, hold_both, normalized, record_verdict, read_event, read_events,
  result_of, normalize_canvas_ical, key_of, same_key,
}
use duegood.Ical.Conserved.{normalize_canvas_ical-found}

abbrev IsNumeric : Option CanvasLink → Type 0
IsNumeric link = (l : CanvasLink) → link ≡ some l → numeric_id l.id ≡ true

module _ (clock : Clock) (options : Options) where
  dated-keep :
      (link : Option CanvasLink) (explicit : Option ExplicitIdentity) (cs : List Bytes)
      (title : Bytes) (start : StartTime (clock.DateTime)) (p : Place)
      → IsNumeric link
      → dated clock options link explicit cs title start ≡ ok (keep p)
      → (valid_identity p.kind p.identity ≡ true) × (p.title ≡ title)
  unfolding dated
  dated-keep link explicit cs title start p n h =
      elim (Result-cases (date_value clock options start)) [
        | inr (x, k) ↦ ground (arith, k)
        | inl (at, k) ↦
            let (v, t, _) =
              placed-valid clock options link explicit cs title at p n (ground (arith, k)) in
            (v, t)
      ]

  -- Why an event has a place.
  abbrev pub IsKept : List RawEvent → Bool → RawEvent → Place → Type 0
  IsKept raw cancelled e p =
      (is_cancelled cancelled e ≡ false)
      × (is_ambiguous raw e ≡ false)
      × (e.summary ≡ some p.title)
      × (valid_identity p.kind p.identity ≡ true)

  with_fields-keep :
      (e : RawEvent) (link : Option CanvasLink) (cs : List Bytes) (summary start : Option Bytes)
      (p : Place)
      → IsNumeric link
      → with_fields clock options e link cs summary start ≡ ok (keep p)
      → (summary ≡ some p.title) × (valid_identity p.kind p.identity ≡ true)
  unfolding with_fields
  with_fields-keep e link cs none start p n h = cc
  with_fields-keep e link cs (some title) none p n h = cc
  with_fields-keep e link cs (some title) (some start) p n h =
      elim (Result-cases (parse_start clock start)) [
        | inr (x, k) ↦ ground (arith, k)
        | inl (t, k) ↦
            let explicit =
              filter_some (agrees e.url link cs) (options.explicit_uid_mappings (uid_of e)) in
            let (v, w) = dated-keep link explicit cs title t p n (ground (arith, k)) in
            (ground (arith, w), v)
      ]

  classify-keep :
      (raw : List RawEvent) (cancelled : Bool) (e : RawEvent) (link : Option CanvasLink) (p : Place)
      → IsNumeric link
      → classify clock options raw cancelled e link ≡ ok (keep p)
      → IsKept raw cancelled e p
  unfolding classify
  classify-keep raw cancelled e link p n h =
      ground
        (arith, with_fields-keep e link (candidates options.courses link) e.summary e.start p n)

take_out-All :
    (P : NormalizedEvent → Type 0) (course identity : Bytes) (es rest : List NormalizedEvent)
    (e : NormalizedEvent)
    → All P es
    → take_out course identity es ≡ some (e, rest)
    → All P rest
unfolding take_out
take_out-All P course identity [] rest e a h = cc
take_out-All P course identity (x ∷ es) rest e (p, a) h =
    elim (Bool-cases (same x.calendar_identity identity && same x.course course)) [
      | inl t ↦ let q : es ≡ rest = ground (arith, t) in subst (All P) q a
      | inr t ↦ elim (Option-cases (take_out course identity es)) [
        | inl k ↦ ground (arith, t, k)
        | inr ((y, ys), k) ↦
            let q : x ∷ ys ≡ rest = ground (arith, t, k) in
            subst (All P) q (p, take_out-All P course identity es ys y a k)
      ]
    ]

-- Where an accepted event comes from.
abbrev pub IsAccepted : List RawEvent → Bool → NormalizedEvent → Type 0
IsAccepted raw cancelled n =
    (r : RawEvent) × Mem r raw
    × (uid_of r ≡ n.uid)
    × (is_cancelled cancelled r ≡ false)
    × (is_ambiguous raw r ≡ false)
    × (r.summary ≡ some n.title)
    × (valid_identity n.kind n.calendar_identity ≡ true)

module _ (urls : Urls) (clock : Clock) (hashing : Hashing) (options : Options) where
  canvas_link-IsNumeric :
      (url : Option Bytes) (uid expected : Bytes) → IsNumeric (canvas_link urls url uid expected)
  canvas_link-IsNumeric url uid expected l h =
      (canvas_link-IsCanonical urls url uid expected l h).0.1

  module _ (expected : Bytes) (raw : List RawEvent) (cancelled : Bool) where
    hold_both-IsAccepted :
        (f : Found) (e : RawEvent) (link : Option CanvasLink) (p : Place)
        → All (IsAccepted raw cancelled) f.events
        → All (IsAccepted raw cancelled) (hold_both f e link p).events
    unfolding hold_both
    hold_both-IsAccepted f e link p h =
        elim (Option-cases (take_out p.course p.identity f.events)) [
          | inl k ↦ rw (k, All, hold_both) h
          | inr ((x, rest), k) ↦
              rw (k, All, hold_both)
                (take_out-All (IsAccepted raw cancelled) p.course p.identity f.events rest x h k)
        ]

    record_verdict-IsAccepted :
        (f : Found) (e : RawEvent) (link : Option CanvasLink) (v : Verdict)
        → IsNumeric link
        → Mem e raw
        → classify clock options raw cancelled e link ≡ ok v
        → All (IsAccepted raw cancelled) f.events
        → All
            (IsAccepted raw cancelled)
            (record_verdict hashing options.institution f e link v).events
    unfolding record_verdict
    record_verdict-IsAccepted f e link (hold reason cs) n m k h = h
    record_verdict-IsAccepted f e link (keep p) n m k h =
        elim (Bool-cases (any (same_key (key_of options.institution p)) f.identities)) [
          | inl b ↦ rw (b) (hold_both-IsAccepted f e link p h)
          | inr b ↦
              let (c, a, s, v) = classify-keep clock options raw cancelled e link p n k in
              rw (b) (
                All-append (IsAccepted raw cancelled) f.events
                  (normalized hashing options.institution e link p ∷ []) h
                  ((e, m, refl, c, a, s, v), tt))
        ]

    read_events-IsAccepted :
        (f f' : Found) (es : List RawEvent)
        → All (λ e. Mem e raw) es
        → All (IsAccepted raw cancelled) f.events
        → read_events urls clock hashing options expected raw cancelled f es ≡ ok f'
        → All (IsAccepted raw cancelled) f'.events
    unfolding read_events read_event
    read_events-IsAccepted f f' [] m h k =
        let q : f ≡ f' = ground arith in
        subst (λ (x : Found). All (IsAccepted raw cancelled) x.events) q h
    read_events-IsAccepted f f' (e ∷ es) (m, ms) h k =
        let link = canvas_link urls e.url (uid_of e) expected in
        elim (Result-cases (classify clock options raw cancelled e link)) [
          | inr (x, l) ↦ ground (arith, l)
          | inl (v, l) ↦
              let f1 = record_verdict hashing options.institution f e link v in
              let n = canvas_link-IsNumeric e.url (uid_of e) expected in
              read_events-IsAccepted f1 f' es ms (record_verdict-IsAccepted f e link v n m l h)
                (ground (arith, l))
        ]

  -- Where normalisation succeeds, every accepted event comes from an event of the parsed feed with
  -- the same UID and title that is neither cancelled nor ambiguous, and its identity is a valid one
  -- for its kind.
  pub normalize_canvas_ical-IsAccepted :
      (input : Bytes) (n : Normalization)
      → normalize_canvas_ical urls clock hashing options input ≡ ok n
      → (raw : List RawEvent) × (cancelled : Bool) × (parse_events clock input
          ≡ ok (raw, cancelled))
        × All (IsAccepted raw cancelled) n.events
  unfolding result_of
  normalize_canvas_ical-IsAccepted input n h =
      let (expected, raw, c, f, k, l, m) =
        normalize_canvas_ical-found urls clock hashing options input n h in
      let accepted = read_events-IsAccepted expected raw c nothing_found f raw (All-Mem raw) tt l in
      (
        raw,
        c,
        k,
        subst (λ (x : Normalization). All (IsAccepted raw c) x.events) (sym m)
            (All-sort_by (IsAccepted raw c) (λ e. e.observation.local_id) f.events accepted),
      )

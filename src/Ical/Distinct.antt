-- ===== src/Ical/Distinct.antt =====
-- The identities of the accepted events of src-tauri/src/ical_normalize.rs.
use duegood.Base.{
  ◌≤◌, Bool, true, false, ◌&&◌, Option, List, [], ◌∷◌, Bytes, same, same_iff, same_refl, any, count,
  count-append, count-sort_by, ok, Result-cases, Bool-cases, Option-cases, ◌≡◌, subst,
  if◌then◌else◌, ◌⊎◌, inl, inr, arith,
}
use duegood.Ical.Types.{RawEvent, Clock, Urls, Options}
use duegood.Ical.Links.{CanvasLink, canvas_link}
use duegood.Ical.Observation.{Normalization, Hashing}
use duegood.Ical.Courses.{uid_of}
use duegood.Ical.Classify.{Place, Verdict, hold, keep, classify}
use duegood.Ical.Normalize.{
  Found, nothing_found, take_out, hold_both, normalized, record_verdict, read_event, read_events,
  result_of, normalize_canvas_ical, key_of, same_key,
}
use duegood.Ical.Conserved.{normalize_canvas_ical-found, is_at, take_out-count}

module _ (institution course identity : Bytes) where
  -- At most one event has the key, and only if the key has been seen.
  abbrev IsSingle : Found → Type 0
  IsSingle f =
      count (is_at course identity) f.events
      ≤ (if any (same_key (institution, course, identity)) f.identities then 1 else 0)

  hold_both-IsSingle :
      (f : Found) (e : RawEvent) (link : Option CanvasLink) (p : Place)
      → IsSingle f
      → IsSingle (hold_both f e link p)
  unfolding hold_both
  hold_both-IsSingle f e link p h = elim (Option-cases (take_out p.course p.identity f.events)) [
    | inl k ↦ rw (k, hold_both) h
    | inr ((x, rest), k) ↦
        rw (k, hold_both)
          (omega
            (arith, take_out-count (is_at course identity) p.course p.identity f.events rest x k))
  ]

  -- A new key is another one than those that have been seen.
  key-cases :
      (p : Place)
      → (((same course p.course && same identity p.identity) ≡ true)
          × (course ≡ p.course)
          × (identity ≡ p.identity))
        ⊎ ((same course p.course && same identity p.identity) ≡ false)
  key-cases p = elim (Bool-cases (same course p.course && same identity p.identity)) [
    | inl e ↦ inl (
      e,
      ground (arith, e, same_iff course p.course),
      ground (arith, e, same_iff identity p.identity),
    )
    | inr e ↦ inr e
  ]

  module _ (hashing : Hashing) where
    record_verdict-IsSingle :
        (f : Found) (e : RawEvent) (link : Option CanvasLink) (v : Verdict)
        → IsSingle f
        → IsSingle (record_verdict hashing institution f e link v)
    unfolding record_verdict normalized
    record_verdict-IsSingle f e link (hold reason cs) h = h
    record_verdict-IsSingle f e link (keep p) h =
        elim (Bool-cases (any (same_key (key_of institution p)) f.identities)) [
          | inl b ↦ rw (b) (hold_both-IsSingle f e link p h)
          | inr b ↦
              let new = normalized hashing institution e link p ∷ [] in
              let sum = count-append (is_at course identity) f.events new in
              let seen = any (same_key (institution, course, identity)) f.identities in
              rw (b) (elim (key-cases p) [
                | inl (e, c, i) ↦
                    let fresh : seen ≡ false = rw (c, i) b in
                    ground (arith, sum, e, fresh, same_refl institution)
                | inr e ↦ ground (arith, sum, e)
              ])
        ]

module _ (urls : Urls) (clock : Clock) (hashing : Hashing) (options : Options) where
  read_events-IsSingle :
      (expected : Bytes) (raw : List RawEvent) (cancelled : Bool) (course identity : Bytes)
      (f f' : Found) (es : List RawEvent)
      → IsSingle options.institution course identity f
      → read_events urls clock hashing options expected raw cancelled f es ≡ ok f'
      → IsSingle options.institution course identity f'
  unfolding read_events read_event
  read_events-IsSingle expected raw cancelled course identity f f' [] h k =
      let q : f ≡ f' = ground arith in subst (IsSingle options.institution course identity) q h
  read_events-IsSingle expected raw cancelled course identity f f' (e ∷ es) h k =
      let link = canvas_link urls e.url (uid_of e) expected in
      elim (Result-cases (classify clock options raw cancelled e link)) [
        | inr (x, l) ↦ ground (arith, l)
        | inl (v, l) ↦
            let f1 = record_verdict hashing options.institution f e link v in
            let h1 =
              record_verdict-IsSingle options.institution course identity hashing f e link v h in
            read_events-IsSingle expected raw cancelled course identity f1 f' es h1
              (ground (arith, l))
      ]

  -- Where normalisation succeeds, at most one accepted event has a given course and identity.
  pub normalize_canvas_ical-distinct :
      (input : Bytes) (n : Normalization) (course identity : Bytes)
      → normalize_canvas_ical urls clock hashing options input ≡ ok n
      → count (is_at course identity) n.events ≤ 1
  unfolding result_of
  normalize_canvas_ical-distinct input n course identity h =
      let (expected, raw, c, f, k, l, m) =
        normalize_canvas_ical-found urls clock hashing options input n h in
      let single =
        read_events-IsSingle expected raw c course identity nothing_found f raw (omega arith) l in
      let seen = any (same_key (options.institution, course, identity)) f.identities in
      rw (m) (elim (Bool-cases seen) [
        | inl s ↦ ground (
          arith,
          s,
          single,
          count-sort_by (is_at course identity) (λ e. e.observation.local_id) f.events,
        )
        | inr s ↦ ground (
          arith,
          s,
          single,
          count-sort_by (is_at course identity) (λ e. e.observation.local_id) f.events,
        )
      ])

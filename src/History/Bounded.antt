-- ===== src/History/Bounded.antt =====
-- What the ledger of src-tauri/src/history.rs holds after an append.
use duegood.Base.{
  ltb, ◌<◌, ◌≤◌, none, some, List, [], ◌∷◌, ◌++◌, length, last?, ok, ◌≡◌, refl, ◌∙◌, subst, ltb→lt,
  ◌⊎◌, inl, inr, if◌then◌else◌, Bool-cases, Option-cases, Result-cases, arith,
}
use duegood.History.Ledger.{
  fresh, LedgerJson, Shelf, present, existed, quarantine, events_of, existing_history, trim_events,
  write_ledger, push_event, start_ledger, append_event, max_history_events, max_history_bytes,
}

module _ (json : LedgerJson) where
  open json use {Text, Value, with_events, size, text}

  abbrev IsFitting : Value → List Value → Type 0
  IsFitting value es =
      (length es ≤ max_history_events) × (size (with_events value es) ≤ max_history_bytes)

  -- The events that stay are the longest end of the list that fits.
  pub data Kept (value : Value) : List Value → List Value → Type 0 where
    all_fit : {es : List Value} → IsFitting value es → Kept value es es
    oldest_goes :
        {e : Value} {es kept : List Value}
        → (max_history_events < length (e ∷ es))
          ⊎ (max_history_bytes < size (with_events value (e ∷ es)))
        → Kept value es kept
        → Kept value (e ∷ es) kept

  trim_events-Kept :
      (value : Value) (es kept : List Value)
      → trim_events json value es ≡ ok kept
      → Kept value es kept
  unfolding trim_events
  trim_events-Kept value [] kept h =
      let q : [] ≡ kept = ground arith in
      subst (Kept value []) q (all_fit (omega arith, ground arith))
  trim_events-Kept value (e ∷ es) kept h =
      elim (Bool-cases (ltb max_history_events (length (e ∷ es)))) [
        | inl c ↦
            oldest_goes (inl (ltb→lt max_history_events (length (e ∷ es)) c))
              (trim_events-Kept value es kept (ground (arith, c)))
        | inr c ↦ elim (Bool-cases (ltb max_history_bytes (size (with_events value (e ∷ es))))) [
          | inl b ↦
              oldest_goes (inr (ltb→lt max_history_bytes (size (with_events value (e ∷ es))) b))
                (trim_events-Kept value es kept (ground (arith, c, b)))
          | inr b ↦
              let q : e ∷ es ≡ kept = ground (arith, c, b) in
              subst (Kept value (e ∷ es)) q (all_fit (ground (arith, c), ground (arith, b)))
        ]
      ]

  last?-snoc : (es : List Value) (x : Value) → last? (es ++ x ∷ []) ≡ some x
  last?-snoc [] x = refl
  last?-snoc (e ∷ []) x = refl
  last?-snoc (e ∷ f ∷ es) x = last?-snoc (f ∷ es) x

  -- The newest event is never one of those that go.
  trim_events-last? :
      (value : Value) (es kept : List Value) (x : Value)
      → trim_events json value (es ++ x ∷ []) ≡ ok kept
      → last? kept ≡ some x
  unfolding trim_events
  trim_events-last? value [] kept x h = ground arith
  trim_events-last? value (e ∷ es) kept x h =
      elim (Bool-cases (ltb max_history_events (length (e ∷ es ++ x ∷ [])))) [
        | inl c ↦ trim_events-last? value es kept x (ground (arith, c))
        | inr c ↦
            elim (Bool-cases
              (ltb max_history_bytes (size (with_events value (e ∷ es ++ x ∷ []))))) [
                | inl b ↦ trim_events-last? value es kept x (ground (arith, c, b))
                | inr b ↦
                    let q : e ∷ es ++ x ∷ [] ≡ kept = ground (arith, c, b) in
                    subst (λ ks. last? ks ≡ some x) q (last?-snoc (e ∷ es) x)
              ]
      ]

  -- The ledger that a push has stored.
  abbrev pub IsPushed : Shelf Text → Value → Value → Type 0
  IsPushed s history event =
      (events : List Value) × (kept : List Value) × (events_of json history ≡ some events)
      × Kept history (events ++ event ∷ []) kept
      × (last? kept ≡ some event)
      × (s.file ≡ present (text (with_events history kept)))

  push_event-IsPushed :
      (s : Shelf Text) (history event : Value)
      → (push_event json s history event).0 ≡ ok tt
      → IsPushed (push_event json s history event).1 history event
        × ((push_event json s history event).1.quarantined ≡ s.quarantined)
  unfolding push_event write_ledger
  push_event-IsPushed s history event h = elim (Option-cases (events_of json history)) [
    | inl k ↦ ground (arith, k)
    | inr (events, k) ↦ elim (Result-cases (trim_events json history (events ++ event ∷ []))) [
      | inr (e, l) ↦ ground (arith, k, l)
      | inl (kept, l) ↦ (
        (
          events,
          kept,
          k,
          trim_events-Kept history (events ++ event ∷ []) kept l,
          trim_events-last? history events kept event l,
          ground (arith, k, l),
        ),
        ground (arith, k, l),
      )
    ]
  ]

  -- The history that an append extends, and what it puts aside.
  abbrev pub Extends : Shelf Text → Shelf Text → Value → Type 0
  Extends s s' history =
      ((existing_history json s.file ≡ ok (some history)) × (s'.quarantined ≡ s.quarantined))
      ⊎ ((existing_history json s.file ≡ ok none)
          × (history ≡ fresh json)
          × (s'.quarantined ≡ (if existed s.file then s.file ∷ s.quarantined else s.quarantined)))

  -- What a start of a new ledger leaves.
  start_ledger-IsPushed :
      (s : Shelf Text) (event : Value)
      → (start_ledger json s event).0 ≡ ok tt
      → IsPushed (start_ledger json s event).1 (fresh json) event
        × ((start_ledger json s event).1.quarantined
            ≡ (if existed s.file then s.file ∷ s.quarantined else s.quarantined))
  start_ledger-IsPushed s event h = elim (Bool-cases (existed s.file)) [
    | inr e ↦
        let q : start_ledger json s event ≡ push_event json s (fresh json) event =
          unfold start_ledger in rw (e) refl in
        let (p, k) = push_event-IsPushed s (fresh json) event (rw (← q) h) in
        (rw (q) p, rw (q, e) k)
    | inl e ↦ elim (Result-cases (quarantine s).0) [
      | inr (x, l) ↦ absurd (unfold start_ledger in ground (arith, e, l))
      | inl (_, l) ↦
          let moved = (quarantine s).1 in
          let q : start_ledger json s event ≡ push_event json moved (fresh json) event =
            unfold start_ledger in rw (e, l) refl in
          let (p, k) = push_event-IsPushed moved (fresh json) event (rw (← q) h) in
          let aside : moved.quarantined ≡ s.file ∷ s.quarantined =
            unfold quarantine in ground (arith, l) in
          (rw (q) p, rw (q, e) (k ∙ aside))
    ]
  ]

  extends_valid :
      (s : Shelf Text) (event history : Value)
      → existing_history json s.file ≡ ok (some history)
      → append_event json s event ≡ push_event json s history event
  unfolding append_event
  extends_valid s event history k = ground (arith, k)

  starts_new :
      (s : Shelf Text) (event : Value)
      → existing_history json s.file ≡ ok none
      → append_event json s event ≡ start_ledger json s event
  unfolding append_event
  starts_new s event k = ground (arith, k)

  -- Where an append goes through, the stored ledger extends the valid history that was there and the
  -- quarantine is unchanged, or there was none, a fresh ledger is extended, and the file that was
  -- there, if any, is added to the quarantine. The stored events end with the new one, and of those
  -- before it only the oldest are left out, each because there were more than 100 events or the
  -- text was longer than 32 MiB; what is stored has at most 100 events and at most 32 MiB.
  pub append_event-kept :
      (s : Shelf Text) (event : Value)
      → (append_event json s event).0 ≡ ok tt
      → (history : Value) × Extends s (append_event json s event).1 history
        × IsPushed (append_event json s event).1 history event
  append_event-kept s event h = elim (Result-cases (existing_history json s.file)) [
    | inr (e, k) ↦ absurd (unfold append_event in ground (arith, k))
    | inl (some history, k) ↦
        let q : append_event json s event ≡ push_event json s history event =
          extends_valid s event history k in
        let (p, l) = push_event-IsPushed s history event (rw (← q) h) in
        (history, rw (q) (inl (k, l)), rw (q) p)
    | inl (none, k) ↦
        let q : append_event json s event ≡ start_ledger json s event = starts_new s event k in
        let (p, l) = start_ledger-IsPushed s event (rw (← q) h) in
        (fresh json, rw (q) (inr (k, refl, l)), rw (q) p)
  ]

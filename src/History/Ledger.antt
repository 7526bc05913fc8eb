-- ===== src/History/Ledger.antt =====
-- `append_event` of src-tauri/src/history.rs: the bounded ledger of refresh events.
use duegood.Base.{
  ℕ, ◌==◌, ltb, leb, Bool, true, false, ◌&&◌, Option, none, some, List, [], ◌∷◌, ◌++◌, Bytes, codes,
  length, is_some, Result, ok, err, if◌then◌else◌,
}
use duegood.CaptureRun.State.{IoError}
use duegood.CaptureRun.Disk.{Outcome, written, refused, unsynced}

-- The JSON values of a ledger: parsing, the accessors, the value with other events, and the length
-- of its text (`node_json_bytes`); and the values that `json!` builds.
pub record LedgerJson : Type 1 where
  pub Text : Type 0
  pub Value : Type 0
  pub parse : Text → Option Value
  pub is_object : Value → Bool
  pub get : Bytes → Value → Option Value
  pub as_array : Value → Option (List Value)
  pub as_u64 : Value → Option ℕ
  pub with_events : Value → List Value → Value
  pub size : Value → ℕ
  pub text : Value → Text
  pub object : List (Bytes × Value) → Value
  pub array : List Value → Value
  pub number : ℕ → Value

pub data LedgerError : Type 0 where
  too_large malformed_history : LedgerError
  io : IoError → LedgerError

abbrev pub max_history_bytes : ℕ
max_history_bytes = 33554432

abbrev pub max_history_events : ℕ
max_history_events = 100

-- What `read_capped` finds: no file, a text, a file over the cap, an unsafe file, another error.
pub data Stored (Text : Type 0) : Type 0 where
  absent oversized unsafe : Stored Text
  present : Text → Stored Text
  failing : IoError → Stored Text

-- The ledger's path, the files under quarantine names, and what becomes of the rename into
-- quarantine and of the atomic write.
pub record Shelf (Text : Type 0) : Type 0 where
  pub file : Stored Text
  pub quarantined : List (Stored Text)
  pub renaming : Outcome
  pub writing : Outcome

abbrev pub existed : {Text : Type 0} → Stored Text → Bool
existed absent = false
existed _ = true

unfoldable pub quarantine :
    {Text : Type 0} → Shelf Text → Result LedgerError (Unit {0}) × Shelf Text
quarantine s =
    let moved = record s { file = absent; quarantined = s.file ∷ s.quarantined } in
    elim (s.renaming) [
      | written ↦ (ok tt, moved)
      | refused e ↦ (err (io e), s)
      | unsynced e ↦ (err (io e), moved)
    ]

module _ (json : LedgerJson) where
  open json use {
    Text, Value, parse, is_object, get, as_array, as_u64, with_events, size, text, object, array,
    number,
  }

  unfoldable pub events_of : Value → Option (List Value)
  events_of value = elim (get (codes "events") value) [ none ↦ none | some v ↦ as_array v ]

  abbrev is_one : Option ℕ → Bool
  is_one none = false
  is_one (some n) = n == 1

  unfoldable pub valid_history : Value → Bool
  valid_history value =
      is_object value
      && (is_some (events_of value) && elim (get (codes "schema") value) [
        | none ↦ true
        | some schema ↦ is_one (as_u64 schema)
      ])

  unfoldable pub parsed_history : Text → Option Value
  parsed_history t = elim (parse t) [
    | none ↦ none
    | some v ↦ if valid_history v then some v else none
  ]

  -- the match on `read_capped`
  unfoldable pub existing_history : Stored Text → Result LedgerError (Option Value)
  existing_history absent = ok none
  existing_history oversized = ok none
  existing_history unsafe = ok none
  existing_history (present t) = ok (parsed_history t)
  existing_history (failing e) = err (io e)

  -- The loop: the oldest events go until the ledger fits.
  unfoldable pub trim_events : Value → List Value → Result LedgerError (List Value)
  trim_events value [] =
      if ltb max_history_bytes (size (with_events value [])) then err too_large else ok []
  trim_events value (e ∷ es) =
      let later = trim_events value es in
      if ltb max_history_events (length (e ∷ es))
      then later
      else if ltb max_history_bytes (size (with_events value (e ∷ es)))
      then (if leb (length (e ∷ es)) 1 then err too_large else later)
      else ok (e ∷ es)

  -- the atomic write of a ledger
  unfoldable pub write_ledger : Shelf Text → Value → Result LedgerError (Unit {0}) × Shelf Text
  write_ledger s value =
      let stored = record s { file = present (text value) } in
      elim (s.writing) [
        | written ↦ (ok tt, stored)
        | refused e ↦ (err (io e), s)
        | unsynced e ↦ (err (io e), stored)
      ]

  unfoldable pub push_event :
      Shelf Text → Value → Value → Result LedgerError (Unit {0}) × Shelf Text
  push_event s history event = elim (events_of history) [
    | none ↦ (err malformed_history, s)
    | some events ↦ elim (trim_events history (events ++ event ∷ [])) [
      | err e ↦ (err e, s)
      | ok kept ↦ write_ledger s (with_events history kept)
    ]
  ]

  -- `{ "schema": 1, "events": [] }`
  abbrev pub fresh : Value
  fresh = object ((codes "schema", number 1) ∷ (codes "events", array []) ∷ [])

  -- no usable history: what was there is put aside first
  unfoldable pub start_ledger : Shelf Text → Value → Result LedgerError (Unit {0}) × Shelf Text
  start_ledger s event =
      if existed s.file
      then (let (r, s') = quarantine s in
          elim r [ err e ↦ (err e, s') | ok _ ↦ push_event s' fresh event ])
      else push_event s fresh event

  unfoldable pub append_event : Shelf Text → Value → Result LedgerError (Unit {0}) × Shelf Text
  append_event s event = elim (existing_history s.file) [
    | err e ↦ (err e, s)
    | ok (some history) ↦ push_event s history event
    | ok none ↦ start_ledger s event
  ]

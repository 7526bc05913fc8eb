-- ===== src/Ical/Observation.antt =====
-- The results of src-tauri/src/ical.rs, and the identity helpers of src-tauri/src/ical_normalize.rs.
use duegood.Base.{
  ℕ, ◌+◌, ◌/◌, ◌%◌, Bool, true, false, ◌&&◌, ltb, Option, none, some, List, [], ◌∷◌, ◌++◌, Bytes,
  codes, same, strip_prefix, take, some_and, if◌then◌else◌,
}
use duegood.Ical.Types.{
  EventKind, assignment_parent, discussion_post_checkpoint, discussion_reply_checkpoint,
  other_event, DateValue, Clock,
}
use duegood.Ical.Links.{numeric_id}

-- The static names of a held event's reason.
pub data Reason : Type 0 where
  cancelled_event ambiguous_event unsupported_event floating_time unknown_course ambiguous_course :
      Reason

abbrev pub is_cancelled_event : Reason → Bool
is_cancelled_event cancelled_event = true
is_cancelled_event _ = false

-- `HeldIcalEvent`
pub record HeldEvent : Type 0 where
  pub uid : Bytes
  pub reason : Reason
  pub canvas_course_id : Option Bytes
  pub candidate_courses : List Bytes
  pub cancelled : Bool

-- The JSON object of an observation: `reference` and `fields` are flattened, and `source` is
-- always "ical".
pub record Observation : Type 0 where
  pub local_id : Bytes
  pub course : Bytes
  pub institution : Bytes
  pub reference_id : Bytes
  pub fields_kind : Bytes
  pub title : Bytes
  pub at : Bytes
  pub url : Option Bytes

-- `NormalizedIcalEvent`
pub record NormalizedEvent : Type 0 where
  pub kind : EventKind
  pub uid : Bytes
  pub course : Bytes
  pub canvas_course_id : Option Bytes
  pub calendar_identity : Bytes
  pub title : Bytes
  pub at : DateValue
  pub observation : Observation

-- `IcalNormalization`
pub record Normalization : Type 0 where
  pub events : List NormalizedEvent
  pub observations : List Observation
  pub held : List HeldEvent
  pub deletions : ℕ

-- `serde_json::to_vec` on an array of strings, and SHA-256.
pub record Hashing : Type 0 where
  pub json_array : List Bytes → Bytes
  pub sha256 : Bytes → Bytes

-- the part in front of the first occurrence of a text, and the part behind it
unfoldable pub cut_before : Bytes → Bytes → Option (Bytes × Bytes)
unfolding strip_prefix
cut_before p [] = elim (strip_prefix p []) [ none ↦ none | some r ↦ some ([], r) ]
cut_before p (c ∷ s) =
    let rest = cut_before p s in
    elim (strip_prefix p (c ∷ s)) [
      | some r ↦ some ([], r)
      | none ↦ elim rest [ none ↦ none | some (h, t) ↦ some (c ∷ h, t) ]
    ]

abbrev pub checkpoint_parts : Option (Bytes × Bytes) → Bytes → Bool
checkpoint_parts none kind = false
checkpoint_parts (some (assignment, suffix)) kind = numeric_id assignment && same suffix kind

unfoldable pub checkpoint : Bytes → Bytes → Bool
unfolding cut_before strip_prefix
checkpoint id kind =
    some_and (λ rest. checkpoint_parts (cut_before (codes ":checkpoint:") rest) kind)
      (strip_prefix (codes "assignment:") id)

unfoldable pub valid_identity : EventKind → Bytes → Bool
unfolding checkpoint numeric_id strip_prefix
valid_identity assignment_parent id = some_and numeric_id (strip_prefix (codes "assignment:") id)
valid_identity other_event id = some_and numeric_id (strip_prefix (codes "event:") id)
valid_identity discussion_post_checkpoint id = checkpoint id (codes "discussion-post-checkpoint")
valid_identity discussion_reply_checkpoint id = checkpoint id (codes "discussion-reply-checkpoint")

unfoldable pub valid_date : Clock → Bytes → Bool
valid_date clock value =
    some_and (λ d. same (clock.format_date d (codes "%Y-%m-%d")) value)
      (clock.parse_date value (codes "%Y-%m-%d"))

abbrev hex_digit : ℕ → ℕ
hex_digit d = if ltb d 10 then b'0' + d else 87 + d

abbrev hex : Bytes → Bytes
hex [] = []
hex (b ∷ bs) = hex_digit (b / 16) ∷ hex_digit (b % 16) ∷ hex bs

-- the hexadecimal form of the digest's first sixteen bytes
unfoldable pub identifier : Hashing → List Bytes → Bytes
identifier hashing parts = hex (take 16 (hashing.sha256 (hashing.json_array parts)))

abbrev pub assignment_id : Bytes → Bytes
assignment_id id = codes "assignment:" ++ id

abbrev pub event_id : Bytes → Bytes
event_id id = codes "event:" ++ id

-- the name of an observation's kind
unfoldable pub fields_kind : EventKind → Bytes
fields_kind assignment_parent = codes "assignment"
fields_kind other_event = codes "event"
fields_kind _ = codes "discussion-checkpoint"

-- ===== src/Freshness/Sections.antt =====
-- The data of src-tauri/src/browser_freshness.rs, and the sections of an import.
use duegood.Base.{
  ℕ, ◌+◌, ◌-◌, ◌*◌, ◌^◌, Bool, true, false, ◌&&◌, ◌||◌, ltb, leb, ◌==◌, Option, none, some, List,
  [], ◌∷◌, Bytes, codes, same, all, any, length, is_digit, all_digits, Result, ok, err, ok_or,
  ◌>>=◌, if◌then◌else◌,
}

-- A JSON value as the receipts are read: a field, a number of 64 bits, a text, an array, null; and
-- whether chrono parses a text as RFC 3339
pub record Receipts : Type 1 where
  pub Value : Type 0
  pub get : Bytes → Value → Option Value
  pub as_u64 : Value → Option ℕ
  pub as_str : Value → Option Bytes
  pub as_array : Value → Option (List Value)
  pub is_null : Value → Bool
  pub is_rfc3339 : Bytes → Bool

-- the reasons of a freshness
pub data Reason : Type 0 where
  verified_import not_imported attempt_unavailable invalid_import_receipt invalid_run : Reason
  newer_or_inconsistent_attempt capture_unverified identity_or_generation_mismatch : Reason
  invalid_observation invalid_coverage duplicate_coverage : Reason

-- `SectionFreshness`
pub record SectionFreshness : Type 0 where
  pub course_id : Option ℕ
  pub endpoint : Bytes
  pub current : Bool

-- `CaptureAvailability`; its reason is a text
pub record CaptureAvailability : Type 0 where
  pub available : Bool
  pub reason : Bytes
  pub run_id : Option ℕ
  pub observed_at : Option Bytes
  pub active_course_count : Option ℕ
  pub resource_count : Option ℕ
  pub item_count : Option ℕ
  pub blob_count : Option ℕ
  pub blob_bytes : Option ℕ
  pub account_confirmation_needed : Bool

-- `BrowserFreshness`
pub record BrowserFreshness : Type 0 where
  pub current : Bool
  pub reason : Reason
  pub run_id : Option ℕ
  pub observed_at : Option Bytes
  pub sections : List SectionFreshness
  pub capture_availability : Option CaptureAvailability

abbrev pub filter_some {ℓ} : {A : Type ℓ} → (A → Bool) → Option A → Option A
filter_some p none = none
filter_some p (some a) = if p a then some a else none

-- `str::parse::<u64>` of a text of digits that is not empty
unfoldable pub digits_value : ℕ → Bytes → ℕ
digits_value n [] = n
digits_value n (c ∷ s) = digits_value (n * 10 + (c - b'0')) s

unfoldable pub parse_u64 : Bytes → Option ℕ
unfolding digits_value
parse_u64 s = let n = digits_value 0 s in if ltb n (2 ^ 64) then some n else none

abbrev pub is_number_text : Bytes → Bool
is_number_text s = ltb 0 (length s) && leb (length s) 20 && all_digits s

abbrev pub is_letter : ℕ → Bool
is_letter c = (leb b'a' c && leb c b'z') || (leb b'A' c && leb c b'Z')

unfoldable pub valid_endpoint : Bytes → Bool
valid_endpoint s = ltb 0 (length s) && leb (length s) 80 && all (λ c. is_digit c || is_letter c) s

unfoldable pub valid_generation : Bytes → Bool
valid_generation s = length s == 32 && all (λ c. is_digit c || (leb b'a' c && leb c b'f')) s

unfoldable pub known_status : Bytes → Bool
known_status s = same s (codes "complete") || same s (codes "incomplete") || same s (codes "gap")

abbrev pub same_number : Option ℕ → Option ℕ → Bool
same_number none none = true
same_number (some a) (some b) = a == b
same_number _ _ = false

abbrev pub same_text : Option Bytes → Option Bytes → Bool
same_text none none = true
same_text (some a) (some b) = same a b
same_text _ _ = false

-- a course, if any, and an endpoint
abbrev pub Section : Type 0
Section = Option ℕ × Bytes

abbrev pub same_section : Section → Section → Bool
same_section (course, endpoint) (course', endpoint') =
    same_number course course' && same endpoint endpoint'

abbrev pub or_else : {A : Type 0} → Option A → Option A → Option A
or_else (some a) other = some a
or_else none other = other

module _ (receipts : Receipts) where
  open receipts use {Value, get, as_u64, as_str, as_array, is_null, is_rfc3339}

  abbrev pub text_of : Option Value → Option Bytes
  text_of none = none
  text_of (some v) = as_str v

  abbrev pub number_of : Option Value → Option ℕ
  number_of none = none
  number_of (some v) = elim (as_u64 v) [
    | some n ↦ some n
    | none ↦ elim (filter_some is_number_text (as_str v)) [ none ↦ none | some s ↦ parse_u64 s ]
  ]

  unfoldable pub positive : Option Value → Option ℕ
  positive value = filter_some (λ id. ltb 0 id) (number_of value)

  abbrev pub is_value : Option Value → Bytes → Bool
  is_value v text = same_text (text_of v) (some text)

  -- `value["version"] != 1`
  abbrev pub is_one : Option Value → Bool
  is_one none = false
  is_one (some v) = same_number (as_u64 v) (some 1)

  -- the course of a record
  unfoldable pub record_course : Value → Result Reason (Option ℕ)
  record_course row = elim (get (codes "courseId") row) [
    | none ↦ err invalid_coverage
    | some v ↦
        if is_null v
        then ok none
        else (do id ← ok_or invalid_coverage (positive (some v)); ok (some id))
  ]

  -- one record of the loop: its section, and whether it is complete
  unfoldable pub read_section : Value → List Section → Result Reason SectionFreshness
  read_section row identities = do
    endpoint ←
        ok_or invalid_coverage (filter_some valid_endpoint (text_of (get (codes "endpoint") row)))
    course_id ← record_course row
    if any (same_section (course_id, endpoint)) identities then err duplicate_coverage else (do
      status ←
          ok_or invalid_coverage (filter_some known_status (text_of (get (codes "status") row)))
      ok (record {
        course_id = course_id;
        endpoint = endpoint;
        current = same status (codes "complete");
      }))

  -- the loop over the records
  unfoldable pub read_sections : List Value → List Section → Result Reason (List SectionFreshness)
  read_sections [] identities = ok []
  read_sections (row ∷ rows) identities = do
    section ← read_section row identities
    sections ← read_sections rows ((section.course_id, section.endpoint) ∷ identities)
    ok (section ∷ sections)

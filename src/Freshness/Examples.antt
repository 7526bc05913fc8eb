-- ===== src/Freshness/Examples.antt =====
-- Runs of src-tauri/src/browser_freshness.rs on one import and one attempt.
use duegood.Base.{
  ℕ, Bool, true, false, Option, none, some, List, [], ◌∷◌, Bytes, codes, same, is_digit, all_digits,
  some_and, ◌≡◌, ◌≤◌, refl, if◌then◌else◌,
}
use duegood.CaptureRun.State.{captured, Attempt}
use duegood.CaptureRun.Guard.{Summary}
use duegood.Freshness.Sections.{
  Receipts, Section, BrowserFreshness, positive, record_course, read_section, read_sections,
  valid_endpoint, valid_generation, known_status,
}
use duegood.Freshness.Project.{verify_import, project_freshness}
use duegood.Freshness.Available.{bound, is_summary_of, with_capture_availability}
use duegood.Freshness.Sound.{IsLatest, section_count, project_freshness-IsLatest}
use duegood.Freshness.Offers.{
  offers, is_offered, with_capture_availability-offers, with_capture_availability-current,
}

data Value : Type 0 where
  nothing receipt attempt : Value
  number : ℕ → Value
  word : Bytes → Value
  listing : List Bytes → Value
  row : Bytes → Value

abbrev generation : Bytes
generation = codes "0123456789abcdef0123456789abcdef"

abbrev field : Bytes → Value → Option Value
field name receipt =
    if same name (codes "format")
    then some (word (codes "duegood-browser-import"))
    else if same name (codes "version")
    then some (number 1)
    else if same name (codes "runId")
    then some (number 4)
    else if same name (codes "userId")
    then some (number 7)
    else if same name (codes "generationId")
    then some (word generation)
    else if same name (codes "observedAt")
    then some (word (codes "2026-02-01T00:00:00Z"))
    else if same name (codes "sections")
    then some (listing (codes "assignments" ∷ codes "files" ∷ []))
    else none
field name attempt =
    if same name (codes "status")
    then some (word (codes "captured"))
    else if same name (codes "run_id")
    then some (number 4)
    else if same name (codes "user_id")
    then some (number 7)
    else if same name (codes "generation_id")
    then some (word generation)
    else none
field name (row endpoint) =
    if same name (codes "endpoint")
    then some (word endpoint)
    else if same name (codes "courseId")
    then some nothing
    else if same name (codes "status")
    then some (word (codes "complete"))
    else none
field name _ = none

abbrev rows : List Bytes → List Value
rows [] = []
rows (endpoint ∷ endpoints) = row endpoint ∷ rows endpoints

abbrev number_in : Value → Option ℕ
number_in (number n) = some n
number_in _ = none

abbrev word_in : Value → Option Bytes
word_in (word s) = some s
word_in _ = none

abbrev rows_in : Value → Option (List Value)
rows_in (listing endpoints) = some (rows endpoints)
rows_in _ = none

abbrev is_nothing : Value → Bool
is_nothing nothing = true
is_nothing _ = false

abbrev receipts : Receipts
receipts = record {
  Value = Value;
  get = field;
  as_u64 = number_in;
  as_str = word_in;
  as_array = rows_in;
  is_null = is_nothing;
  is_rfc3339 = λ s. true;
}

current : (project_freshness receipts (some receipt) (some attempt)).current ≡ true
unfolding project_freshness verify_import positive read_sections read_section record_course
    valid_endpoint valid_generation known_status is_digit all_digits
current = refl

project_freshness-IsLatest_example :
    (i : Value) × (a : Value) × (some receipt ≡ some i)
    × (some attempt ≡ some a)
    × IsLatest receipts i a
    × ((key : Section)
        → section_count key (project_freshness receipts (some receipt) (some attempt)).sections ≤ 1)
project_freshness-IsLatest_example =
    project_freshness-IsLatest receipts (some receipt) (some attempt) current

abbrev latest : Attempt
latest = record {
  run_id = 4;
  status = captured;
  generation_id = some generation;
  snapshot_sha256 = none;
  user_id = some 7;
}

abbrev summary : Summary
summary = record {
  generation_id = generation;
  user_id = 7;
  captured_at = codes "2026-02-01T00:00:00Z";
  active_course_count = 1;
  resource_count = 2;
  item_count = 3;
  blob_count = 0;
  blob_bytes = 0;
}

abbrev freshness : BrowserFreshness
freshness = project_freshness receipts (some receipt) (some attempt)

with_capture_availability-offers_example :
    offers (with_capture_availability freshness true (some latest) (some summary) (bound 8))
    ≡ is_offered true (some latest) (some summary) (bound 8)
with_capture_availability-offers_example =
    with_capture_availability-offers freshness true (some latest) (some summary) (bound 8)

still-current :
    (with_capture_availability freshness true (some latest) (some summary) (bound 7)).current ≡ true
unfolding with_capture_availability project_freshness verify_import positive read_sections
    read_section record_course valid_endpoint valid_generation known_status is_digit all_digits
still-current = refl

with_capture_availability-current_example :
    (freshness.current ≡ true) × (some_and (is_summary_of latest) (some summary) ≡ true)
with_capture_availability-current_example =
    with_capture_availability-current freshness latest (some summary) (bound 7) refl still-current

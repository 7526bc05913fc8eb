-- ===== src/Freshness/Available.antt =====
-- `with_capture_availability` of src-tauri/src/browser_freshness.rs.
use duegood.Base.{
  ℕ, Bool, true, false, not, ◌&&◌, ◌==◌, Option, none, some, [], Bytes, codes, if◌then◌else◌,
}
use duegood.CaptureRun.State.{is_captured, Attempt}
use duegood.CaptureRun.Guard.{Summary}
use duegood.Freshness.Sections.{
  CaptureAvailability, BrowserFreshness, capture_unverified, filter_some, same_number, same_text,
}

-- `ExistingAccountBinding`
pub data ExistingAccountBinding : Type 0 where
  unbound unverifiable : ExistingAccountBinding
  bound : ℕ → ExistingAccountBinding

unfoldable pub unavailable : Bytes → CaptureAvailability
unavailable reason = record {
  available = false;
  reason = reason;
  run_id = none;
  observed_at = none;
  active_course_count = none;
  resource_count = none;
  item_count = none;
  blob_count = none;
  blob_bytes = none;
  account_confirmation_needed = false;
}

-- the availability into the freshness
abbrev pub with_availability : BrowserFreshness → CaptureAvailability → BrowserFreshness
with_availability freshness availability = record freshness {
  capture_availability = some availability;
}

-- a summary of the attempt's user and generation
abbrev pub is_summary_of : Attempt → Summary → Bool
is_summary_of attempt summary =
    same_number (some summary.user_id) attempt.user_id
    && same_text attempt.generation_id (some summary.generation_id)

-- whether it is available, the reason, and whether the account must be confirmed
unfoldable pub bound_state : ExistingAccountBinding → ℕ → Bool × (Bytes × Bool)
bound_state unbound user_id = (true, (codes "confirmation-required", true))
bound_state unverifiable user_id = (false, (codes "account-binding-unverified", false))
bound_state (bound id) user_id =
    if id == user_id
    then (true, (codes "already-bound", false))
    else (false, (codes "account-mismatch", false))

unfoldable pub summarized : Attempt → Summary → ExistingAccountBinding → CaptureAvailability
unfolding bound_state
summarized attempt summary binding =
    let state = bound_state binding summary.user_id in
    record {
      available = state.0;
      reason = state.1.0;
      run_id = some attempt.run_id;
      observed_at = some summary.captured_at;
      active_course_count = some summary.active_course_count;
      resource_count = some summary.resource_count;
      item_count = some summary.item_count;
      blob_count = some summary.blob_count;
      blob_bytes = some summary.blob_bytes;
      account_confirmation_needed = state.1.1;
    }

-- the branch without a summary of the attempt
unfoldable pub unverified : BrowserFreshness → BrowserFreshness
unverified freshness = record {
  current = false;
  reason = capture_unverified;
  run_id = none;
  observed_at = none;
  sections = [];
  capture_availability = some (unavailable (codes "archive-unverified"));
}

unfoldable pub with_capture_availability :
    BrowserFreshness
    → Bool
    → Option Attempt
    → Option Summary
    → ExistingAccountBinding
    → BrowserFreshness
with_capture_availability freshness false attempt summary binding =
    with_availability freshness (unavailable (codes "attempt-unavailable"))
with_capture_availability freshness true none summary binding =
    with_availability freshness (unavailable (codes "no-capture"))
with_capture_availability freshness true (some attempt) summary binding =
    if not (is_captured attempt.status)
    then with_availability freshness (unavailable (codes "capture-unverified"))
    else (elim (filter_some (is_summary_of attempt) summary) [
      | none ↦ unverified freshness
      | some s ↦ with_availability freshness (summarized attempt s binding)
    ])

-- ===== src/Freshness/Project.antt =====
-- `project_freshness` of src-tauri/src/browser_freshness.rs.
use duegood.Base.{
  ℕ, Bool, true, false, ◌&&◌, leb, Option, none, some, List, [], Bytes, codes, length, is_some,
  Result, ok, err, ok_or, ensure, ◌>>=◌, ◌>>◌,
}
use duegood.Freshness.Sections.{
  Receipts, Reason, BrowserFreshness, filter_some, valid_generation, same_number, same_text,
  or_else, text_of, positive, is_value, is_one, read_sections, verified_import, not_imported,
  attempt_unavailable, invalid_import_receipt, invalid_run, newer_or_inconsistent_attempt,
  capture_unverified, identity_or_generation_mismatch, invalid_observation, invalid_coverage,
}

module _ (receipts : Receipts) where
  open receipts use {Value, get, as_u64, as_str, as_array, is_null, is_rfc3339}

  -- the generation of an import
  abbrev pub import_generation : Value → Option Bytes
  import_generation imported =
      filter_some valid_generation (text_of receipts (get (codes "generationId") imported))

  -- a field of the attempt, by either of its names
  abbrev pub attempt_field : Bytes → Bytes → Value → Option Value
  attempt_field camel snake attempt = or_else (get camel attempt) (get snake attempt)

  abbrev pub attempt_generation : Value → Option Bytes
  attempt_generation attempt =
      text_of receipts (attempt_field (codes "generationId") (codes "generation_id") attempt)

  abbrev pub attempt_user : Value → Option ℕ
  attempt_user attempt =
      positive receipts (attempt_field (codes "userId") (codes "user_id") attempt)

  abbrev pub attempt_run : Value → Option ℕ
  attempt_run attempt = positive receipts (attempt_field (codes "runId") (codes "run_id") attempt)

  -- the test of the format and the version
  abbrev pub is_receipt : Value → Bool
  is_receipt imported =
      is_value receipts (get (codes "format") imported) (codes "duegood-browser-import")
      && is_one receipts (get (codes "version") imported)

  -- the test on the generation and the user
  abbrev pub same_identity : Value → Value → Bool
  same_identity imported attempt =
      is_some (import_generation imported)
      && same_text (import_generation imported) (attempt_generation attempt)
      && is_some (positive receipts (get (codes "userId") imported))
      && same_number (positive receipts (get (codes "userId") imported)) (attempt_user attempt)

  abbrev pub few_rows : List Value → Bool
  few_rows rows = leb (length rows) 20000

  abbrev pub rows_of : Value → Option (List Value)
  rows_of imported =
      filter_some few_rows
        (elim (get (codes "sections") imported) [ none ↦ none | some v ↦ as_array v ])

  abbrev pub is_stamp : Bytes → Bool
  is_stamp s = leb (length s) 80 && is_rfc3339 s

  abbrev pub observation_of : Value → Option Bytes
  observation_of imported =
      filter_some is_stamp (text_of receipts (get (codes "observedAt") imported))

  -- the two runs are valid
  abbrev pub has_runs : Value → Value → Bool
  has_runs imported attempt =
      is_some (positive receipts (get (codes "runId") imported)) && is_some (attempt_run attempt)

  -- the early returns, and the freshness of an import that passes them all
  unfoldable pub verify_import : Value → Value → Result Reason BrowserFreshness
  verify_import imported attempt = do
    ensure (is_receipt imported) invalid_import_receipt
    ensure (has_runs imported attempt) invalid_run
    ensure (same_number (positive receipts (get (codes "runId") imported)) (attempt_run attempt))
        newer_or_inconsistent_attempt
    ensure (is_value receipts (get (codes "status") attempt) (codes "captured")) capture_unverified
    ensure (same_identity imported attempt) identity_or_generation_mismatch
    observed_at ← ok_or invalid_observation (observation_of imported)
    rows ← ok_or invalid_coverage (rows_of imported)
    sections ← read_sections receipts rows []
    ok (record {
      current = true;
      reason = verified_import;
      run_id = positive receipts (get (codes "runId") imported);
      observed_at = some observed_at;
      sections = sections;
      capture_availability = none;
    })

unfoldable pub unknown : Reason → BrowserFreshness
unknown reason = record {
  current = false;
  reason = reason;
  run_id = none;
  observed_at = none;
  sections = [];
  capture_availability = none;
}

-- `return unknown(reason)`
abbrev pub or_unknown : Result Reason BrowserFreshness → BrowserFreshness
or_unknown (ok freshness) = freshness
or_unknown (err reason) = unknown reason

module _ (receipts : Receipts) where
  open receipts use {Value}

  unfoldable pub project_freshness : Option Value → Option Value → BrowserFreshness
  project_freshness none attempt = unknown not_imported
  project_freshness (some imported) none = unknown attempt_unavailable
  project_freshness (some imported) (some attempt) =
      or_unknown (verify_import receipts imported attempt)

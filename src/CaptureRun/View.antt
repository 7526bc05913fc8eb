-- ===== src/CaptureRun/View.antt =====
-- The registry that a store of src-tauri/src/capture_run.rs stands for, and what the operations
-- leave of the files it is read from.
use duegood.Base.{
  ℕ, ◌<◌, ◌≤◌, ◌≡◌, refl, ◌⊎◌, inl, inr, true, Option, none, some, Bytes, Result, ok, err, arith,
  Result-cases,
}
use duegood.CaptureRun.State.{
  IoError, RunCounter, Attempt, AttemptFile, file_of, finished, with_status, failed, is_running,
  acceptable,
}
use duegood.CaptureRun.Disk.{Serde, World, regular, read_counter, read_attempt_file, write_attempt}
use duegood.CaptureRun.Guard.{
  Archive, Summary, last_id, read_attempt_consistent, fail, complete, settle, validate_published,
  validate_generation, well_formed, max_snapshot_bytes,
}
use duegood.CaptureRun.Storage.{stored_id}
use duegood.CaptureRun.Ends.{read-acceptable}
use duegood.CaptureRun.Registry.{Registry, registry}

abbrev pub visible : Result IoError (Option Attempt) → Option Attempt
visible (ok o) = o
visible (err _) = none

module _ (serde : Serde) where
  open serde use {Text, attempt_text}

  -- the registry that a store stands for
  unfoldable pub view : World Text → Registry
  view w = registry (stored_id serde w.counter) (visible (read_attempt_consistent serde w))

  pub view-files :
      (w w' : World Text) → w'.counter ≡ w.counter → w'.attempt ≡ w.attempt → view w' ≡ view w
  unfolding view read_attempt_consistent
  view-files w w' c a = rw (c, a) refl

  pub view_of :
      (w : World Text) {i : ℕ} {o : Option Attempt}
      → stored_id serde w.counter ≡ i
      → read_attempt_consistent serde w ≡ ok o
      → view w ≡ registry i o
  unfolding view
  view_of w e h = rw (e, h) refl

  -- Where every status that can be read is behind the counter, none is visible.
  pub view-behind :
      (w : World Text) (c : RunCounter)
      → read_counter serde w.counter ≡ ok (some c)
      → ((g : AttemptFile)
          → read_attempt_file serde w.attempt ≡ ok (some g)
          → g.run_id < c.last_run_id)
      → view w ≡ registry c.last_run_id none
  unfolding view read_attempt_consistent stored_id
  view-behind w c h k = elim (Result-cases (read_attempt_file serde w.attempt)) [
    | inr (e, r) ↦ ground (arith, h, r)
    | inl (none, r) ↦ ground (arith, h, r)
    | inl (some g, r) ↦ ground (arith, h, r, k g r)
  ]

  -- What `settle` leaves of the status of `f`.
  pub settle-wrote :
      (p : ℕ) (f : AttemptFile) (w : World Text)
      → ((settle serde p (some f) w).1.attempt ≡ w.attempt)
        ⊎ (((settle serde p (some f) w).1.attempt
              ≡ regular (attempt_text (file_of (with_status f.attempt failed))))
            × (f.run_id ≡ p)
            × (is_running f.status ≡ true))
  unfolding settle write_attempt
  settle-wrote p f w = ground arith

  pub settle-le :
      (p : ℕ) (f : AttemptFile) (w : World Text)
      → (settle serde p (some f) w).0 ≡ ok tt
      → f.run_id ≤ p
  unfolding settle
  settle-le p f w h = ground arith

  -- The status of the counter's run is the one that a consistent read gives.
  pub consistent-current :
      (w : World Text) (c : Option RunCounter) (f : AttemptFile)
      → read_counter serde w.counter ≡ ok c
      → read_attempt_file serde w.attempt ≡ ok (some f)
      → f.run_id ≡ last_id c
      → read_attempt_consistent serde w ≡ ok (some f.attempt)
  unfolding read_attempt_consistent acceptable
  consistent-current w none f hc hr e = ground (arith, read-acceptable serde w.attempt f hr)
  consistent-current w (some c) f hc hr e = ground (arith, hc, hr)

  pub fail-rewrote :
      (id : ℕ) (w : World Text) (a : Attempt)
      → read_attempt_consistent serde w ≡ ok (some a)
      → ((fail serde id w).1.attempt ≡ w.attempt)
        ⊎ (((fail serde id w).1.attempt ≡ regular (attempt_text (file_of (with_status a failed))))
            × (is_running a.status ≡ true))
  unfolding fail write_attempt
  fail-rewrote id w a h = ground arith

  pub fail-unwritten :
      (id : ℕ) (w : World Text)
      → visible (read_attempt_consistent serde w) ≡ none
      → (fail serde id w).1.attempt ≡ w.attempt
  unfolding fail write_attempt
  fail-unwritten id w h = ground arith

  module _ (archive : Archive) where
    pub complete-rewrote :
        (id : ℕ) (g d : Bytes) (u : ℕ) (w : World Text)
        → ((complete serde archive id g d u w).1.attempt ≡ w.attempt)
          ⊎ (((complete serde archive id g d u w).1.attempt
                ≡ regular (attempt_text (file_of (finished id g d u))))
              × ((a : Attempt) × (read_attempt_consistent serde w ≡ ok (some a))
                  × (is_running a.status ≡ true)
                  × (a.run_id ≡ id))
              × ((s : Summary) × (archive.check id g d u max_snapshot_bytes ≡ ok s))
              × (well_formed id g d u ≡ true))
    unfolding complete write_attempt validate_published validate_generation
    complete-rewrote id g d u w = ground arith

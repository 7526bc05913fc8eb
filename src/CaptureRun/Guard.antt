-- ===== src/CaptureRun/Guard.antt =====
-- `CaptureRunGuard` of src-tauri/src/capture_run.rs. The files of the archive
-- (`capture_run_archive.rs`) enter as the parameter `archive`.
use duegood.Base.{
  ℕ, ◌==◌, ltb, Bool, true, false, not, ◌&&◌, ◌||◌, Option, none, some, Bytes, Result, ok, err,
  ok_or, if◌then◌else◌,
}
use duegood.CaptureRun.State.{
  IoError, would_block, invalid_data, failed, is_running, Attempt, RunCounter, AttemptFile, started,
  finished, with_status, checked_next, is_captured, valid_generation_id, valid_hash,
}
use duegood.CaptureRun.Disk.{
  Node, irregular, failing, regular, Directory, directory, not_directory, no_access, Serde, World,
  Io, pure, raise, lift, ◌>>=◌, ◌>>◌, read_counter, read_attempt_file, write_counter, write_attempt,
}

-- `PublishedGenerationSummary`
pub record Summary : Type 0 where
  pub generation_id : Bytes
  pub user_id : ℕ
  pub captured_at : Bytes
  pub active_course_count : ℕ
  pub resource_count : ℕ
  pub item_count : ℕ
  pub blob_count : ℕ
  pub blob_bytes : ℕ

-- The archive root: `available` is whether it can be named, `check` what `validate_generation`
-- reads there once the identity is well formed, at the limit on the snapshot's bytes.
pub record Archive : Type 0 where
  pub available : Bool
  pub check : ℕ → Bytes → Bytes → ℕ → ℕ → Result IoError Summary

abbrev pub max_snapshot_bytes : ℕ
max_snapshot_bytes = 268435456

abbrev max_availability_snapshot_bytes : ℕ
max_availability_snapshot_bytes = 33554432

-- The first test of `validate_generation`.
unfoldable pub well_formed : ℕ → Bytes → Bytes → ℕ → Bool
well_formed run_id generation_id digest user_id =
    not (run_id == 0)
    && not (user_id == 0)
    && valid_generation_id generation_id
    && valid_hash digest

unfoldable pub validate_generation : Archive → ℕ → Bytes → Bytes → ℕ → ℕ → Result IoError Summary
unfolding well_formed
validate_generation archive run_id generation_id digest user_id limit =
    if well_formed run_id generation_id digest user_id
    then archive.check run_id generation_id digest user_id limit
    else err (invalid_data "terminal archive identity is invalid")

unfoldable pub validate_published : Archive → ℕ → Bytes → Bytes → ℕ → Result IoError Summary
unfolding validate_generation
validate_published archive run_id generation_id digest user_id =
    if archive.available
    then validate_generation archive run_id generation_id digest user_id max_snapshot_bytes
    else err (invalid_data "fixed capture archive is unavailable")

abbrev pub last_id : Option RunCounter → ℕ
last_id none = 0
last_id (some c) = c.last_run_id

-- `counter.is_none_or(|value| value.last_run_id != run_id)`, the other way round
abbrev pub counts : Option RunCounter → ℕ → Bool
counts none id = false
counts (some c) id = c.last_run_id == id

abbrev ensure_private_root : Directory → Result IoError (Unit {0})
ensure_private_root directory = ok tt
ensure_private_root not_directory = err (invalid_data "capture data root is not a directory")
ensure_private_root (no_access e) = err e

abbrev reject_non_regular : Node (Unit {0}) → Result IoError (Unit {0})
reject_non_regular (failing e) = err e
reject_non_regular irregular = err (invalid_data "capture lock is not a regular file")
reject_non_regular _ = ok tt

module _ {Text : Type 0} where
  -- Opening the lock file creates it. The lock is refused while another process holds it.
  try_lock : Io Text (Unit {0})
  try_lock w =
      if w.held then (err would_block, record w { lock = regular tt }) else elim (w.lock_error) [
        | some e ↦ (err e, record w { lock = regular tt })
        | none ↦ (ok tt, record w { lock = regular tt; held = true })
      ]

  -- Where the mode cannot be set the lock file is closed, and the lock is free again.
  set_private_file_mode : Io Text (Unit {0})
  set_private_file_mode w = elim (w.mode_error) [
    | none ↦ (ok tt, w)
    | some e ↦ (err e, record w { held = false })
  ]

  unfoldable pub acquire : Io Text (Unit {0})
  unfolding try_lock set_private_file_mode
  acquire w =
      (do
        lift (ensure_private_root w.root)
        lift (reject_non_regular w.lock)
        try_lock
        set_private_file_mode)
        w

  -- `Drop for CaptureRunGuard`
  unfoldable pub release : World Text → World Text
  release w = record w { held = false }

module _ (serde : Serde) where
  open serde use {Text}

  consistent : Option RunCounter → Option AttemptFile → Result IoError (Option Attempt)
  consistent none none = ok none
  consistent (some c) (some f) =
      if c.last_run_id == f.run_id
      then ok (some f.attempt)
      else err (invalid_data "capture counter and attempt are inconsistent")
  consistent _ _ = err (invalid_data "capture counter and attempt are inconsistent")

  unfoldable pub read_attempt_consistent : World Text → Result IoError (Option Attempt)
  unfolding consistent
  read_attempt_consistent w = elim (read_counter serde w.counter) [
    | err e ↦ err e
    | ok c ↦ elim (read_attempt_file serde w.attempt) [ err e ↦ err e | ok f ↦ consistent c f ]
  ]

  abbrev attempt : Io Text (Option Attempt)
  attempt w = (read_attempt_consistent w, w)

  -- `read_attempt`, under the lock, which is given back behind the read. `read_attempt_unlocked` is
  -- `read_attempt_consistent`.
  unfoldable pub read_attempt : Io Text (Option Attempt)
  unfolding acquire read_attempt_consistent release
  read_attempt w =
      let (r, w') = acquire w in
      elim r [ err e ↦ (err e, w') | ok _ ↦ (read_attempt_consistent w', release w') ]

  -- The first half of `begin`: a prior run that still runs is marked failed.
  unfoldable pub settle : ℕ → Option AttemptFile → Io Text (Unit {0})
  settle previous none = pure tt
  settle previous (some prior) =
      if ltb previous prior.run_id
      then raise (invalid_data "capture state is inconsistent")
      else if prior.run_id == previous && is_running prior.status
      then write_attempt serde (with_status prior.attempt failed)
      else pure tt

  -- The second half of `begin`: the next run, its counter first.
  unfoldable pub allocate : ℕ → Io Text Attempt
  allocate previous = do
    run_id ← lift (ok_or (invalid_data "run counter is exhausted") (checked_next previous))
    write_counter serde run_id
    write_attempt serde (started run_id)
    pure (started run_id)

  unfoldable pub begin : Io Text Attempt
  begin w =
      (do
        counter ← lift (read_counter serde w.counter)
        prior ← lift (read_attempt_file serde w.attempt)
        settle (last_id counter) prior
        allocate (last_id counter))
        w

  fail_current : Attempt → Io Text Attempt
  fail_current a =
      if is_running a.status
      then (do write_attempt serde (with_status a failed); pure (with_status a failed))
      else pure a

  -- `fail` of the current attempt, once it is read.
  fail_read : ℕ → Option RunCounter → Option Attempt → Io Text Attempt
  unfolding fail_current
  fail_read run_id counter none = raise (invalid_data "capture attempt does not exist")
  fail_read run_id counter (some a) =
      if (run_id == 0) || not (a.run_id == run_id) || not (counts counter run_id)
      then raise (invalid_data "run ID does not match the current attempt")
      else fail_current a

  unfoldable pub fail : ℕ → Io Text Attempt
  unfolding fail_read
  fail run_id w =
      (do
        counter ← lift (read_counter serde w.counter)
        current ← attempt
        fail_read run_id counter current)
        w

  module _ (archive : Archive) where
    complete_read : ℕ → Bytes → Bytes → ℕ → Option Attempt → Io Text Attempt
    unfolding validate_published
    complete_read run_id generation_id digest user_id none =
        raise (invalid_data "capture attempt does not exist")
    complete_read run_id generation_id digest user_id (some current) =
        if not (is_running current.status) || not (current.run_id == run_id)
        then raise (invalid_data "run ID does not match the running attempt")
        else (do
          lift (validate_published archive run_id generation_id digest user_id)
          write_attempt serde (finished run_id generation_id digest user_id)
          pure (finished run_id generation_id digest user_id))

    unfoldable pub complete : ℕ → Bytes → Bytes → ℕ → Io Text Attempt
    unfolding complete_read
    complete run_id generation_id digest user_id w =
        (do current ← attempt; complete_read run_id generation_id digest user_id current) w

    -- `summarize_current_capture`
    unfoldable pub summarize_current_capture : Attempt → Result IoError Summary
    unfolding validate_generation
    summarize_current_capture a =
        if not (is_captured a.status)
        then err (invalid_data "capture attempt is not captured")
        else elim a.generation_id [
          | none ↦ err (invalid_data "capture generation is missing")
          | some g ↦ elim a.snapshot_sha256 [
            | none ↦ err (invalid_data "capture snapshot hash is missing")
            | some h ↦ elim a.user_id [
              | none ↦ err (invalid_data "capture user is missing")
              | some u ↦
                  if archive.available
                  then validate_generation archive a.run_id g h u max_availability_snapshot_bytes
                  else err (invalid_data "fixed capture archive is unavailable")
            ]
          ]
        ]

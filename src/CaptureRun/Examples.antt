-- ===== src/CaptureRun/Examples.antt =====
-- Runs of the capture state at concrete stores: tests, and the theorems at concrete inputs.
use duegood.Base.{
  ℕ, ◌+◌, ◌<◌, ◌≤◌, ◌≡◌, refl, true, false, Option, none, some, [], ◌∷◌, Bytes, codes, All, ok, err,
  arith,
}
use duegood.CaptureRun.State.{
  os, would_block, RunCounter, Attempt, AttemptFile, counter_at, file_of, started, finished,
  with_status, failed, is_running, checked_next, acceptable, acceptable_counter,
  valid_generation_id, valid_hash,
}
use duegood.CaptureRun.Disk.{
  Node, missing, regular, directory, Outcome, refused, Serde, World, read_counter,
  read_attempt_file, write_counter, write_attempt,
}
use duegood.CaptureRun.Guard.{
  Summary, Archive, well_formed, validate_generation, validate_published, read_attempt_consistent,
  settle, allocate, begin, fail, complete, max_snapshot_bytes, acquire, release, read_attempt,
}
use duegood.CaptureRun.Lease.{Request}
use duegood.CaptureRun.Storage.{IsFaithful, IsCompact, stored_id}
use duegood.CaptureRun.Order.{IsOrdered}
use duegood.CaptureRun.Begin.{begin_next}
use duegood.CaptureRun.Runs.{
  FallsBelow, begins, none_yet, gives, Runs-fresh, begin_recovers, Runs-IsOrdered,
}
use duegood.CaptureRun.Retired.{Retired, begin-Retired}
use duegood.CaptureRun.Cycle.{IsCaptured, begin-complete-IsCaptured}
use duegood.CaptureRun.Ends.{fail-stored, fail-fail, complete-ok, complete-stored}

-- JSON texts as the documents that they stand for
pub data Document : Type 0 where
  counter_document : RunCounter → Document
  attempt_document : AttemptFile → Document
  failure_request : ℕ → Document

abbrev counter_in : Document → Option RunCounter
counter_in (counter_document c) = some c
counter_in _ = none

abbrev attempt_in : Document → Option AttemptFile
attempt_in (attempt_document f) = some f
attempt_in _ = none

abbrev pub request_in : Document → Option Request
request_in (failure_request id) = some (record {
  status = codes "failed";
  run_id = id;
  generation_id = none;
  snapshot_sha256 = none;
  user_id = none;
})
request_in _ = none

abbrev pub documents : Serde
documents = record {
  Text = Document;
  Json = Document;
  size = λ _. 100;
  parse = some;
  counter_of = counter_in;
  attempt_of = attempt_in;
  counter_text = counter_document;
  attempt_text = attempt_document;
}

pub documents-faithful : IsFaithful documents
documents-faithful = record {
  counter_back = λ id. (counter_document (counter_at id), refl, refl);
  attempt_back = λ a. (attempt_document (file_of a), refl, refl);
  counter_fits = λ id h. omega arith;
  attempt_fits = λ a h. omega arith;
}

abbrev summary : Summary
summary = record {
  generation_id = [];
  user_id = 7;
  captured_at = [];
  active_course_count = 1;
  resource_count = 0;
  item_count = 0;
  blob_count = 0;
  blob_bytes = 0;
}

abbrev pub archive : Archive
archive = record { available = true; check = λ _ _ _ _ _. ok summary }

abbrev store : Node Document → Node Document → World Document
store counter attempt = record {
  root = directory;
  lock = missing;
  held = false;
  lock_error = none;
  mode_error = none;
  counter = counter;
  attempt = attempt;
  outcomes = [];
  output = [];
  pipe = [];
}

-- nothing stored; run 1 under way; run 1 failed
abbrev fresh : World Document
fresh = store missing missing

abbrev pub first_running : World Document
first_running =
    store (regular (counter_document (counter_at 1)))
      (regular (attempt_document (file_of (started 1))))

abbrev first_failed : World Document
first_failed =
    store (regular (counter_document (counter_at 1)))
      (regular (attempt_document (file_of (with_status (started 1) failed))))

fresh-begins : (begin documents fresh).0 ≡ ok (started 1)
unfolding begin read_counter read_attempt_file settle allocate checked_next write_counter
    write_attempt
fresh-begins = refl

pub running-begins : (begin documents first_running).0 ≡ ok (started 2)
unfolding begin read_counter read_attempt_file settle allocate checked_next write_counter
    write_attempt acceptable acceptable_counter
running-begins = refl

-- The status cannot be written: the counter has moved on all the same.
abbrev stuck : World Document
stuck = record first_failed { outcomes = Outcome.written ∷ refused (os 28) ∷ [] }

stuck-begins : (begin documents stuck).0 ≡ err (os 28)
unfolding begin read_counter read_attempt_file settle allocate checked_next write_counter
    write_attempt acceptable acceptable_counter
stuck-begins = refl

running-current : read_attempt_consistent documents first_running ≡ ok (some (started 1))
unfolding read_attempt_consistent read_counter read_attempt_file acceptable acceptable_counter
running-current = refl

-- A read under the lock creates the lock file and leaves the lock free.
running-read :
    read_attempt documents first_running
    ≡ (ok (some (started 1)), record first_running { lock = regular tt })
unfolding read_attempt acquire release read_attempt_consistent read_counter read_attempt_file
    acceptable acceptable_counter
running-read = refl

held-read :
    read_attempt documents (record first_running { held = true })
    ≡ (err would_block, record first_running { lock = regular tt; held = true })
unfolding read_attempt acquire
held-read = refl

Runs-fresh_example :
    FallsBelow (stored_id documents (begin documents first_running).1.counter + 1) (2 ∷ [])
    × All (λ id. stored_id documents first_running.counter < id) (2 ∷ [])
    × (stored_id documents first_running.counter
        ≤ stored_id documents (begin documents first_running).1.counter)
Runs-fresh_example =
    Runs-fresh documents archive documents-faithful (gives none_yet (begins running-begins))

running-IsOrdered : IsOrdered documents first_running
unfolding read_attempt_file stored_id read_counter acceptable acceptable_counter
running-IsOrdered = record { ordered = λ f h. ground arith }

running-counter : read_counter documents first_running.counter ≡ ok (some (counter_at 1))
unfolding read_counter acceptable_counter
running-counter = refl

running-attempt :
    read_attempt_file documents first_running.attempt ≡ ok (some (file_of (started 1)))
unfolding read_attempt_file acceptable
running-attempt = refl

begin_recovers_example : (begin documents first_running).0 ≡ ok (started 2)
begin_recovers_example =
    begin_recovers documents archive documents-faithful (some (counter_at 1))
      (some (file_of (started 1))) running-IsOrdered none_yet running-counter running-attempt
      (omega arith) refl

Runs-IsOrdered_example : IsOrdered documents (begin documents first_running).1
Runs-IsOrdered_example =
    Runs-IsOrdered documents archive documents-faithful (gives none_yet (begins running-begins))
      running-IsOrdered

begin_next_example :
    (started 2 ≡ started (stored_id documents first_running.counter + 1))
    × (read_attempt_consistent documents (begin documents first_running).1 ≡ ok (some (started 2)))
    × (stored_id documents (begin documents first_running).1.counter
        ≡ stored_id documents first_running.counter + 1)
begin_next_example = begin_next documents documents-faithful first_running running-begins

-- a valid generation and a valid hash
abbrev generation : Bytes
generation = codes "0123456789abcdef0123456789abcdef"

abbrev digest : Bytes
digest = codes "0123456789abcdef0123456789abcdef0123456789abcdef0123456789abcdef"

second-well_formed : well_formed 2 generation digest 7 ≡ true
unfolding well_formed valid_generation_id valid_hash
second-well_formed = refl

running-completes :
    (complete documents archive 1 generation digest 7 first_running).0
    ≡ ok (finished 1 generation digest 7)
unfolding complete read_attempt_consistent read_counter read_attempt_file acceptable
    acceptable_counter validate_published validate_generation well_formed valid_generation_id
    valid_hash write_attempt
running-completes = refl

complete-ok_example :
    (finished 1 generation digest 7 ≡ finished 1 generation digest 7)
    × ((b : Attempt) × (read_attempt_consistent documents first_running ≡ ok (some b))
        × (is_running b.status ≡ true)
        × (b.run_id ≡ 1))
    × ((s : Summary) × (archive.check 1 generation digest 7 max_snapshot_bytes ≡ ok s))
    × (well_formed 1 generation digest 7 ≡ true)
complete-ok_example =
    complete-ok documents archive 1 generation digest 7 first_running running-completes

begin-complete-IsCaptured_example :
    ((complete documents archive 2 generation digest 7 (begin documents first_running).1).0
      ≡ ok (finished 2 generation digest 7))
    × IsCaptured documents archive 2 generation digest 7
        (complete documents archive 2 generation digest 7 (begin documents first_running).1).1
begin-complete-IsCaptured_example =
    begin-complete-IsCaptured documents archive documents-faithful first_running (started 2)
      generation digest 7 summary running-begins refl refl second-well_formed (omega arith)
      (omega arith) refl

complete-stored_example :
    read_attempt_consistent documents
      (complete documents archive 1 generation digest 7 first_running).1
    ≡ ok (some (finished 1 generation digest 7))
complete-stored_example =
    complete-stored documents archive 1 generation digest 7 first_running documents-faithful
      (omega arith) (omega arith) running-completes

running-fails : (fail documents 1 first_running).0 ≡ ok (with_status (started 1) failed)
unfolding fail read_attempt_consistent read_counter read_attempt_file acceptable acceptable_counter
    write_attempt
running-fails = refl

failed-IsCompact : IsCompact (with_status (started 1) failed)
failed-IsCompact = record { run = omega arith; generation = tt; digest = tt; user = tt }

-- Run 2 is given out and retired by run 3.
second_running : (begin documents (begin documents first_running).1).0 ≡ ok (started 3)
unfolding begin read_counter read_attempt_file settle allocate checked_next write_counter
    write_attempt acceptable acceptable_counter
second_running = refl

begin-Retired_example :
    All (Retired documents archive (begin documents (begin documents first_running).1).1) (2 ∷ [])
begin-Retired_example =
    begin-Retired documents archive documents-faithful (gives none_yet (begins running-begins))
      second_running

fail-stored_example :
    read_attempt_consistent documents (fail documents 1 first_running).1
    ≡ ok (some (with_status (started 1) failed))
fail-stored_example =
    fail-stored documents documents-faithful 1 first_running failed-IsCompact running-fails

fail-fail_example :
    fail documents 1 (fail documents 1 first_running).1
    ≡ (ok (with_status (started 1) failed), (fail documents 1 first_running).1)
fail-fail_example =
    fail-fail documents documents-faithful 1 first_running failed-IsCompact running-fails

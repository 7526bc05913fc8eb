-- ===== src/CaptureRun/LeaseExamples.antt =====
-- Leases of src-tauri/src/capture_run_lease.rs at concrete stores: tests, and the theorems there.
use duegood.Base.{◌+◌, ◌≡◌, ◌≢◌, refl, true, false, some, ok, arith}
use duegood.CaptureRun.State.{started, checked_next, acceptable, acceptable_counter}
use duegood.CaptureRun.Disk.{World, read_counter, read_attempt_file, write_counter, write_attempt}
use duegood.CaptureRun.Guard.{acquire, settle, allocate, begin}
use duegood.CaptureRun.Lease.{Request, Input, sent, run_lease}
use duegood.CaptureRun.Storage.{ShortId, stored_id}
use duegood.CaptureRun.Lives.{Over}
use duegood.CaptureRun.Leases.{run_lease-held, run_lease_ends}
use duegood.CaptureRun.Examples.{
  Document, counter_document, attempt_document, failure_request, documents, documents-faithful,
  archive, request_in, first_running,
}

-- the peer reports the failure of run 2
abbrev report : Input Document
report = sent (failure_request 2)

request_in-u64 : (t : Document) (q : Request) → request_in t ≡ some q → ShortId q.user_id
request_in-u64 (counter_document c) q h = cc
request_in-u64 (attempt_document f) q h = cc
request_in-u64 (failure_request id) q h = ground arith

running-acquires : (acquire first_running).0 ≡ ok tt
unfolding acquire
running-acquires = refl

acquired-begins : (begin documents (acquire first_running).1).0 ≡ ok (started 2)
unfolding acquire begin read_counter read_attempt_file settle allocate checked_next write_counter
    write_attempt acceptable acceptable_counter
acquired-begins = refl

run_lease_ends_example :
    Over documents
      (stored_id documents first_running.counter + 1)
      (run_lease documents request_in archive report first_running).1
    × ((run_lease documents request_in archive report first_running).1.held ≡ false)
run_lease_ends_example =
    run_lease_ends documents request_in archive documents-faithful request_in-u64 report
      first_running refl running-acquires acquired-begins

abbrev locked : World Document
locked = record first_running { held = true }

run_lease-held_example :
    ((run_lease documents request_in archive report locked).0 ≢ ok (started 2))
    × ((run_lease documents request_in archive report locked).1.counter ≡ locked.counter)
    × ((run_lease documents request_in archive report locked).1.attempt ≡ locked.attempt)
    × ((run_lease documents request_in archive report locked).1.held ≡ true)
run_lease-held_example = run_lease-held documents request_in archive report locked (started 2) refl

-- ===== src/CaptureRun/Leases.antt =====
-- `run_lease` of src-tauri/src/capture_run_lease.rs as a whole.
use duegood.Base.{ℕ, ◌+◌, ◌≡◌, ◌≢◌, refl, subst, ◌∙◌, true, false, Option, some, [], ok, arith}
use duegood.CaptureRun.State.{Attempt}
use duegood.CaptureRun.Disk.{Serde, World}
use duegood.CaptureRun.Guard.{Archive, read_attempt_consistent, acquire, release, begin}
use duegood.CaptureRun.Storage.{IsFaithful, ShortId, stored_id}
use duegood.CaptureRun.Lease.{Request, Input, hold, run_lease}
use duegood.CaptureRun.Lives.{Over}
use duegood.CaptureRun.LeaseEnds.{hold-Over}

module _ {Text : Type 0} where
  -- Taking the lock touches neither status file.
  acquire-files :
      (w : World Text)
      → ((acquire w).1.counter ≡ w.counter)
        × ((acquire w).1.attempt ≡ w.attempt)
        × ((acquire w).1.outcomes ≡ w.outcomes)
  unfolding acquire
  acquire-files w = ground arith

  -- A held lock refuses the next guard, whatever the root and the lock file are.
  pub acquire-held : (w : World Text) → w.held ≡ true → (acquire w).0 ≢ ok tt
  unfolding acquire
  acquire-held w h e = ground arith

module _ (serde : Serde) where
  open serde use {Text}

  release-Over : {id : ℕ} {w : World Text} → Over serde id w → Over serde id (release w)
  unfolding release read_attempt_consistent
  release-Over o = record {
    last = o.last;
    stored = o.stored;
    ended = o.ended;
    same_run = o.same_run;
  }

  module _ (request_of : Text → Option Request) (archive : Archive) where
    -- While another guard holds the lock, a lease returns no attempt, leaves both status files alone
    -- and leaves the lock held.
    pub run_lease-held :
        (input : Input Text) (w : World Text) (a : Attempt)
        → w.held ≡ true
        → ((run_lease serde request_of archive input w).0 ≢ ok a)
          × ((run_lease serde request_of archive input w).1.counter ≡ w.counter)
          × ((run_lease serde request_of archive input w).1.attempt ≡ w.attempt)
          × ((run_lease serde request_of archive input w).1.held ≡ true)
    unfolding run_lease acquire
    run_lease-held input w a h = ground arith

    -- Where the lock is free, `begin` goes through and every write to the store succeeds, a lease
    -- leaves the next run over (failed or captured) in the store and the lock free, whatever the peer
    -- sends or fails to send and whatever fails in the archive or the output. It is assumed that the
    -- peer's user IDs are 64-bit numbers and that serde_json is faithful.
    pub run_lease_ends :
        (faithful : IsFaithful serde)
        (u64_users : (t : Text) (q : Request) → request_of t ≡ some q → ShortId q.user_id)
        (input : Input Text) (w : World Text) {a : Attempt}
        → w.outcomes ≡ []
        → (acquire w).0 ≡ ok tt
        → (begin serde (acquire w).1).0 ≡ ok a
        → Over serde (stored_id serde w.counter + 1) (run_lease serde request_of archive input w).1
          × ((run_lease serde request_of archive input w).1.held ≡ false)
    unfolding run_lease
    run_lease_ends faithful u64_users input w os h b =
        let (c, _, o) = acquire-files w in
        let held = hold-Over serde faithful request_of archive u64_users input _ (o ∙ os) b in
        let run = hold serde request_of archive input (acquire w).1 in
        let moved = subst (λ n. Over serde (stored_id serde n + 1) run.1) c held in
        (rw (h, run_lease) (release-Over moved), rw (h, run_lease) (unfold release in refl))

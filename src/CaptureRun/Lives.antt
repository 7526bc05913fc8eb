-- ===== src/CaptureRun/Lives.antt =====
-- A run under way and a run that is over, in the store of src-tauri/src/capture_run.rs.
use duegood.Base.{ℕ, ◌+◌, ◌<◌, ◌≡◌, ◌≢◌, refl, ◌∙◌, false, some, [], ok, arith}
use duegood.CaptureRun.State.{Attempt, started, with_status, failed, is_running}
use duegood.CaptureRun.Disk.{Serde, World, Line, print, write_counter, write_attempt}
use duegood.CaptureRun.Guard.{read_attempt_consistent, begin, fail, settle, allocate}
use duegood.CaptureRun.Storage.{IsFaithful, u64_mod, stored_id}
use duegood.CaptureRun.Begin.{begin-ok, begin_next}
use duegood.CaptureRun.Ends.{fail-stored}

module _ (serde : Serde) where
  open serde use {Text}

  -- Run `id` is under way, and all writes will succeed.
  pub record Live (id : ℕ) (w : World Text) : Type 0 where
    pub current : read_attempt_consistent serde w ≡ ok (some (started id))
    pub bounded : id < u64_mod
    pub nonzero : id ≢ 0
    pub writes : w.outcomes ≡ []

  -- Run `id` is the last one, and it is over.
  pub record Over (id : ℕ) (w : World Text) : Type 0 where
    pub last : Attempt
    pub stored : read_attempt_consistent serde w ≡ ok (some last)
    pub ended : is_running last.status ≡ false
    pub same_run : last.run_id ≡ id

  pub fail-goes :
      {id : ℕ} {w : World Text}
      → Live id w
      → (fail serde id w).0 ≡ ok (with_status (started id) failed)
  unfolding fail write_attempt read_attempt_consistent
  fail-goes l = ground (arith, l.current)

  pub print-reads :
      (l : Line) (w : World Text)
      → (read_attempt_consistent serde (print l w).1 ≡ read_attempt_consistent serde w)
        × ((print l w).1.outcomes ≡ w.outcomes)
  unfolding print read_attempt_consistent
  print-reads l w = ground arith

  pub print-Over : {id : ℕ} {w : World Text} (l : Line) → Over id w → Over id (print l w).1
  print-Over {w = w} l o = record {
    last = o.last;
    stored = (print-reads l w).0 ∙ o.stored;
    ended = o.ended;
    same_run = o.same_run;
  }

  pub print-Live : {id : ℕ} {w : World Text} (l : Line) → Live id w → Live id (print l w).1
  print-Live {w = w} l o = record {
    current = (print-reads l w).0 ∙ o.current;
    bounded = o.bounded;
    nonzero = o.nonzero;
    writes = (print-reads l w).1 ∙ o.writes;
  }

  module _ (faithful : IsFaithful serde) where
    pub fail-Over : {id : ℕ} {w : World Text} → Live id w → Over id (fail serde id w).1
    fail-Over {id} {w} l = record {
      last = with_status (started id) failed;
      stored =
          fail-stored serde faithful id w {a = with_status (started id) failed}
            (record { run = l.bounded; generation = tt; digest = tt; user = tt }) (fail-goes l);
      ended = refl;
      same_run = refl;
    }

    pub begin-outcomes : (w : World Text) → w.outcomes ≡ [] → (begin serde w).1.outcomes ≡ []
    unfolding begin settle allocate write_counter write_attempt
    begin-outcomes w h = ground arith

    pub begin-Live :
        (w : World Text) {a : Attempt}
        → w.outcomes ≡ []
        → (begin serde w).0 ≡ ok a
        → Live (stored_id serde w.counter + 1) (begin serde w).1
    begin-Live w os h =
        let (e, c, _) = begin_next serde faithful w h in
        let (_, lt, _, _) = begin-ok serde w h in
        record {
          current = rw e at c;
          bounded = lt;
          nonzero = omega arith;
          writes = begin-outcomes w os;
        }

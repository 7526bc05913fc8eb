-- ===== src/CaptureRun/Cycle.antt =====
-- The life of a run of src-tauri/src/capture_run.rs that is captured, from `begin` to the next one.
use duegood.Base.{ℕ, ◌+◌, ◌<◌, ◌≡◌, refl, subst, true, some, [], Bytes, ok, err, ap, sym, arith}
use duegood.CaptureRun.State.{Attempt, invalid_data, started, finished}
use duegood.CaptureRun.Disk.{Serde, World, write_attempt}
use duegood.CaptureRun.Guard.{
  Archive, Summary, read_attempt_consistent, begin, fail, complete, well_formed, max_snapshot_bytes,
}
use duegood.CaptureRun.Storage.{IsFaithful, u64_mod, stored_id}
use duegood.CaptureRun.Order.{IsOrdered}
use duegood.CaptureRun.Begin.{begin-goes, begin-ok, stored_id_ok}
use duegood.CaptureRun.Lives.{Live, begin-Live}
use duegood.CaptureRun.Ends.{consistent-parts, fail-kept, complete-goes, complete-stored}

module _ (serde : Serde) where
  open serde use {Text}

  -- A store that reads consistently is in order, and the next `begin` follows its run.
  consistent-begins :
      (w : World Text) (b : Attempt)
      → read_attempt_consistent serde w ≡ ok (some b)
      → b.run_id + 1 < u64_mod
      → w.outcomes ≡ []
      → (begin serde w).0 ≡ ok (started (b.run_id + 1))
  consistent-begins w b h lt os =
      let (c, f, hc, hf, ef, k) = consistent-parts serde w b h in
      let i : IsOrdered serde w = record {
        ordered = λ g hg. ground (arith, hf, ef, k, stored_id_ok serde w.counter (some c) hc);
      } in
      rw (← k) (begin-goes serde w (some c) (some f) i hc hf (omega arith) os)

  module _ (archive : Archive) where
    complete-outcomes :
        (id : ℕ) (g d : Bytes) (u : ℕ) (w : World Text)
        → w.outcomes ≡ []
        → (complete serde archive id g d u w).1.outcomes ≡ []
    unfolding complete write_attempt
    complete-outcomes id g d u w h = ground arith

    -- a captured run cannot be completed again
    complete-again :
        (id : ℕ) (g d g' d' : Bytes) (u u' : ℕ) (w : World Text)
        → read_attempt_consistent serde w ≡ ok (some (finished id g d u))
        → complete serde archive id g' d' u' w
          ≡ (err (invalid_data "run ID does not match the running attempt"), w)
    unfolding complete
    complete-again id g d g' d' u u' w h = ground (arith, h)

    -- What is true once run `id` is captured: both files hold it, failing it changes nothing, it
    -- cannot be completed again, and the next `begin` opens the next run.
    pub record IsCaptured (id : ℕ) (g d : Bytes) (u : ℕ) (w : World Text) : Type 0 where
      pub stored : read_attempt_consistent serde w ≡ ok (some (finished id g d u))
      pub fail_keeps : fail serde id w ≡ (ok (finished id g d u), w)
      pub complete_refuses :
          (g' d' : Bytes) (u' : ℕ)
          → complete serde archive id g' d' u' w
            ≡ (err (invalid_data "run ID does not match the running attempt"), w)
      pub next_run : (begin serde w).0 ≡ ok (started (id + 1))

    -- Where `begin` goes through for a run that is not the last possible one, and the writes succeed,
    -- a well-formed identity of a 64-bit user that the archive validates is accepted for the run:
    -- `complete` returns the finished attempt, both files hold it, a later `fail` returns it and
    -- changes nothing, a later `complete` is refused and changes nothing, and the next `begin` opens
    -- the next run, serde_json being faithful.
    pub begin-complete-IsCaptured :
        IsFaithful serde
        → (w : World Text) (a : Attempt) (g d : Bytes) (u : ℕ) (s : Summary)
        → (begin serde w).0 ≡ ok a
        → w.outcomes ≡ []
        → archive.available ≡ true
        → well_formed a.run_id g d u ≡ true
        → u < u64_mod
        → a.run_id + 1 < u64_mod
        → archive.check a.run_id g d u max_snapshot_bytes ≡ ok s
        → ((complete serde archive a.run_id g d u (begin serde w).1).0
            ≡ ok (finished a.run_id g d u))
          × IsCaptured a.run_id g d u (complete serde archive a.run_id g d u (begin serde w).1).1
    begin-complete-IsCaptured faithful w a g d u s h os av wf bu more ch =
        let id = stored_id serde w.counter + 1 in
        let (e, lt, _, _) = begin-ok serde w h in
        let same_run : a.run_id ≡ id = ap (λ (x : Attempt). x.run_id) e in
        let live : Live serde a.run_id (begin serde w).1 =
          subst (λ n. Live serde n (begin serde w).1) (sym same_run)
            (begin-Live serde faithful w os h) in
        let goes =
          complete-goes serde archive a.run_id g d u (begin serde w).1 (started a.run_id) s
            live.current refl refl av wf ch live.writes in
        let back =
          complete-stored serde archive a.run_id g d u (begin serde w).1 faithful live.bounded bu
            goes in
        (
          goes,
          record {
            stored = back;
            fail_keeps = fail-kept serde a.run_id _ back refl refl live.nonzero;
            complete_refuses = λ g' d' u'. complete-again a.run_id g d g' d' u u' _ back;
            next_run =
                consistent-begins _ (finished a.run_id g d u) back more
                  (complete-outcomes a.run_id g d u (begin serde w).1 live.writes);
          },
        )

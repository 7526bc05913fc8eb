-- ===== src/CaptureRun/Retired.antt =====
-- A run of src-tauri/src/capture_run.rs that a later `begin` has retired.
use duegood.Base.{
  ℕ, ◌+◌, ◌<◌, ◌≤◌, ◌≡◌, ◌≢◌, List, [], ◌∷◌, Bytes, All, All-map, some, ok, err, arith,
}
use duegood.CaptureRun.State.{Attempt, invalid_data, started}
use duegood.CaptureRun.Disk.{Serde, World}
use duegood.CaptureRun.Guard.{Archive, read_attempt_consistent, begin, fail, complete}
use duegood.CaptureRun.Storage.{IsFaithful, stored_id}
use duegood.CaptureRun.Begin.{begin_next}
use duegood.CaptureRun.Ends.{fail_mismatch}
use duegood.CaptureRun.Runs.{FallsBelow, Runs, Runs-fresh}

FallsBelow-All : (b c : ℕ) (ids : List ℕ) → b ≤ c → FallsBelow b ids → All (λ id. id < c) ids
FallsBelow-All b c [] h f = tt
FallsBelow-All b c (x ∷ xs) h (k, f) = (omega arith, FallsBelow-All x c xs (omega arith) f)

module _ (serde : Serde) (archive : Archive) where
  open serde use {Text}

  complete_mismatch :
      (id : ℕ) (g d : Bytes) (u : ℕ) (w : World Text) (b : Attempt)
      → read_attempt_consistent serde w ≡ ok (some b)
      → b.run_id ≢ id
      → complete serde archive id g d u w
        ≡ (err (invalid_data "run ID does not match the running attempt"), w)
  unfolding complete
  complete_mismatch id g d u w b h k = ground (arith, h)

  -- Run `id` can be neither failed nor completed in `w`, and trying to changes nothing.
  abbrev pub Retired : World Text → ℕ → Type 0
  Retired w id =
      (fail serde id w ≡ (err (invalid_data "run ID does not match the current attempt"), w))
      × ((g d : Bytes) (u : ℕ)
          → complete serde archive id g d u w
            ≡ (err (invalid_data "run ID does not match the running attempt"), w))

  -- Behind any steps, whatever fails in them, a `begin` that goes through retires every run that was
  -- given out in them: it can be neither failed nor completed, and trying to changes nothing,
  -- serde_json being faithful.
  pub begin-Retired :
      IsFaithful serde
      → {w w' : World Text} {ids : List ℕ} → Runs serde archive w w' ids
      → {a : Attempt} → (begin serde w').0 ≡ ok a
      → All (Retired (begin serde w').1) ids
  begin-Retired faithful {w' = w'} {ids} r {a} h =
      let (e, back, _) = begin_next serde faithful w' h in
      let current = rw e at back in
      let (f, _, _) = Runs-fresh serde archive faithful r in
      let n = stored_id serde w'.counter + 1 in
      let older = FallsBelow-All n n ids (omega arith) f in
      All-map (λ id. id < n) (Retired (begin serde w').1) ids
        (λ id lt. (
          fail_mismatch serde id _ (started n) current (λ k. omega arith),
          λ g d u. complete_mismatch id g d u _ (started n) current (λ k. omega arith),
        ))
        older

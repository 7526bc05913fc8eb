-- ===== src/CaptureRun/Ends.antt =====
-- `fail` and `complete` of src-tauri/src/capture_run.rs: when they go through, and what is stored.
use duegood.Base.{
  ℕ, ◌<◌, ◌≡◌, ◌≢◌, refl, sym, inl, inr, true, false, some, [], Bytes, ok, err, arith, Bool-cases,
  if◌then◌else◌, same_refl,
}
use duegood.CaptureRun.State.{
  IoError, invalid_data, Attempt, AttemptFile, RunCounter, file_of, finished, with_status, failed,
  is_running, acceptable, is_complete, valid_generation_id, valid_hash, state_format,
}
use duegood.CaptureRun.Disk.{
  Serde, World, Node, regular, read_counter, read_attempt_file, write_attempt,
}
use duegood.CaptureRun.Guard.{
  Archive, Summary, read_attempt_consistent, fail, complete, validate_published,
  validate_generation, well_formed, max_snapshot_bytes,
}
use duegood.CaptureRun.Storage.{IsFaithful, IsCompact, u64_mod, read_attempt_file-back}

-- the attempt that `fail` makes of the current one
abbrev pub ended : Attempt → Attempt
ended a = if is_running a.status then with_status a failed else a

pub failed-acceptable :
    (f : AttemptFile)
    → acceptable f ≡ true
    → is_running f.status ≡ true
    → acceptable (file_of (with_status f.attempt failed)) ≡ true
unfolding acceptable
failed-acceptable f h r = ground (arith, same_refl state_format)

pub finished-acceptable :
    (id : ℕ) (g d : Bytes) (u : ℕ)
    → well_formed id g d u ≡ true
    → acceptable (file_of (finished id g d u)) ≡ true
unfolding acceptable is_complete well_formed
finished-acceptable id g d u h = ground (arith, same_refl state_format)

-- A valid generation and a valid hash are as long as they should be.
pub finished-IsCompact :
    (id : ℕ) (g d : Bytes) (u : ℕ)
    → id < u64_mod
    → u < u64_mod
    → well_formed id g d u ≡ true
    → IsCompact (finished id g d u)
unfolding well_formed valid_generation_id valid_hash
finished-IsCompact id g d u hi hu h = ground arith

module _ (serde : Serde) where
  open serde use {Text, attempt_text}

  pub read-acceptable :
      (n : Node Text) (f : AttemptFile)
      → read_attempt_file serde n ≡ ok (some f)
      → acceptable f ≡ true
  unfolding read_attempt_file
  read-acceptable n f h = ground arith

  -- What a consistent read says of the two files.
  pub consistent-parts :
      (w : World Text) (a : Attempt)
      → read_attempt_consistent serde w ≡ ok (some a)
      → (c : RunCounter) × (f : AttemptFile) × (read_counter serde w.counter ≡ ok (some c))
        × (read_attempt_file serde w.attempt ≡ ok (some f))
        × (f.attempt ≡ a)
        × (c.last_run_id ≡ a.run_id)
  unfolding read_attempt_consistent
  consistent-parts w a h = ground arith

  -- `fail` goes through only for the current run, and returns it ended.
  pub fail-ok :
      (id : ℕ) (w : World Text) {a : Attempt}
      → (fail serde id w).0 ≡ ok a
      → (b : Attempt) × (read_attempt_consistent serde w ≡ ok (some b))
        × (b.run_id ≡ id)
        × (id ≢ 0)
        × (a ≡ ended b)
  unfolding fail write_attempt
  fail-ok id w h = ground arith

  -- Where the stored attempt is of another run, `fail` is refused, and nothing is written.
  pub fail_mismatch :
      (id : ℕ) (w : World Text) (b : Attempt)
      → read_attempt_consistent serde w ≡ ok (some b)
      → b.run_id ≢ id
      → fail serde id w ≡ (err (invalid_data "run ID does not match the current attempt"), w)
  unfolding fail
  fail_mismatch id w b h k = let (c, f, hc, _, _, _) = consistent-parts w b h in ground (arith, hc)

  -- What the write of `a` over the status of the same run makes of the two files.
  pub stored-back :
      IsFaithful serde
      → (w w' : World Text) (a b : Attempt) → read_attempt_consistent serde w ≡ ok (some b)
      → a.run_id ≡ b.run_id
      → acceptable (file_of a) ≡ true
      → IsCompact a
      → w'.counter ≡ w.counter
      → w'.attempt ≡ regular (attempt_text (file_of a))
      → read_attempt_consistent serde w' ≡ ok (some a)
  stored-back faithful w w' a b h r ac co c t =
      let (k, f, hk, _, _, e) = consistent-parts w b h in
      unfold read_attempt_consistent in
      ground (arith, hk, c, t, read_attempt_file-back serde faithful a ac co)

  fail-wrote :
      (id : ℕ) (w : World Text) {a b : Attempt}
      → read_attempt_consistent serde w ≡ ok (some b)
      → is_running b.status ≡ true
      → (fail serde id w).0 ≡ ok a
      → ((fail serde id w).1.counter ≡ w.counter)
        × ((fail serde id w).1.attempt ≡ regular (attempt_text (file_of (with_status b failed))))
  unfolding fail write_attempt
  fail-wrote id w h r k = ground arith

  -- On a run that has ended `fail` writes nothing.
  pub fail-kept :
      (id : ℕ) (w : World Text) {b : Attempt}
      → read_attempt_consistent serde w ≡ ok (some b)
      → is_running b.status ≡ false
      → b.run_id ≡ id
      → id ≢ 0
      → fail serde id w ≡ (ok b, w)
  unfolding fail
  fail-kept id w {b} h r e z =
      let (c, f, hc, _, _, k) = consistent-parts w b h in ground (arith, hc, k)

  module _ (faithful : IsFaithful serde) (id : ℕ) (w : World Text) where
    -- What `fail` returns, if it is compact, is what the files then hold, serde_json being faithful.
    pub fail-stored :
        {a : Attempt}
        → IsCompact a
        → (fail serde id w).0 ≡ ok a
        → read_attempt_consistent serde (fail serde id w).1 ≡ ok (some a)
    fail-stored {a} co h =
        let (b, hb, e, z, ea) = fail-ok id w h in
        elim (Bool-cases (is_running b.status)) [
          | inl r ↦
              let (c, t) = fail-wrote id w hb r h in
              let (_, f, _, hf, ef, _) = consistent-parts w b hb in
              let ac : acceptable (file_of (with_status b failed)) ≡ true =
                rw (← ef) (failed-acceptable f (read-acceptable w.attempt f hf) (rw (← ef) at r)) in
              let same_attempt : a ≡ with_status b failed = ground arith in
              rw same_attempt (
                stored-back faithful w _ (with_status b failed) b hb refl ac (rw same_attempt at co)
                  c t)
          | inr r ↦ rw (fail-kept id w hb r e z) (ground arith)
        ]

    -- A repeated `fail` returns the same compact attempt and writes nothing more, serde_json being
    -- faithful.
    pub fail-fail :
        {a : Attempt}
        → IsCompact a
        → (fail serde id w).0 ≡ ok a
        → fail serde id (fail serde id w).1 ≡ (ok a, (fail serde id w).1)
    fail-fail {a} co h =
        let (b, hb, e, z, ea) = fail-ok id w h in
        fail-kept id (fail serde id w).1 (fail-stored co h) (ground arith) (ground arith) z

  module _ (archive : Archive) (id : ℕ) (g d : Bytes) (u : ℕ) (w : World Text) where
    -- Where `complete` goes through it returns the finished attempt, the stored attempt was this run
    -- and running, the identity is well formed, and the archive's check of it succeeded.
    pub complete-ok :
        {a : Attempt}
        → (complete serde archive id g d u w).0 ≡ ok a
        → (a ≡ finished id g d u)
          × ((b : Attempt) × (read_attempt_consistent serde w ≡ ok (some b))
              × (is_running b.status ≡ true)
              × (b.run_id ≡ id))
          × ((s : Summary) × (archive.check id g d u max_snapshot_bytes ≡ ok s))
          × (well_formed id g d u ≡ true)
    unfolding complete write_attempt validate_published
    complete-ok h = ground arith

    complete-wrote :
        {a : Attempt}
        → (complete serde archive id g d u w).0 ≡ ok a
        → ((complete serde archive id g d u w).1.counter ≡ w.counter)
          × ((complete serde archive id g d u w).1.attempt
              ≡ regular (attempt_text (file_of (finished id g d u))))
    unfolding complete write_attempt
    complete-wrote h = ground arith

    -- Where the stored attempt is this run and running, the archive is available, the identity is well
    -- formed, the archive's check succeeds and so do the writes, `complete` returns the finished attempt.
    pub complete-goes :
        (b : Attempt) (s : Summary)
        → read_attempt_consistent serde w ≡ ok (some b)
        → is_running b.status ≡ true
        → b.run_id ≡ id
        → archive.available ≡ true
        → well_formed id g d u ≡ true
        → archive.check id g d u max_snapshot_bytes ≡ ok s
        → w.outcomes ≡ []
        → (complete serde archive id g d u w).0 ≡ ok (finished id g d u)
    unfolding complete write_attempt validate_published validate_generation
    complete-goes b s h r e av wf ch os = ground arith

    -- A refused completion writes nothing: the outcome of the write is not even asked for.
    pub complete-refused :
        {e : IoError}
        → validate_published archive id g d u ≡ err e
        → (complete serde archive id g d u w).1 ≡ w
    unfolding complete
    complete-refused h = ground arith

    -- What `complete` returns, for a run and a user of 64 bits, is what the files then hold, serde_json
    -- being faithful.
    pub complete-stored :
        IsFaithful serde
        → id < u64_mod
        → u < u64_mod
        → {a : Attempt} → (complete serde archive id g d u w).0 ≡ ok a
        → read_attempt_consistent serde (complete serde archive id g d u w).1 ≡ ok (some a)
    complete-stored faithful hi hu {a} h =
        let (ea, (b, hb, _, eb), _, wf) = complete-ok h in
        let (c, t) = complete-wrote h in
        rw ea (
          stored-back faithful w _ (finished id g d u) b hb (sym eb)
            (finished-acceptable id g d u wf) (finished-IsCompact id g d u hi hu wf) c t)

-- ===== src/CaptureRun/Effects.antt =====
-- What `begin`, `fail` and `complete` leave in the two status files, whatever becomes of the writes.
use duegood.Base.{
  ℕ, ◌+◌, ◌<◌, ◌≡◌, ◌≢◌, ◌⊎◌, inl, inr, Option, none, some, Bytes, ok, arith, Result-cases,
}
use duegood.CaptureRun.State.{
  Attempt, AttemptFile, counter_at, file_of, started, finished, with_status, failed, checked_next,
}
use duegood.CaptureRun.Disk.{
  Serde, World, Node, regular, read_attempt_file, write_counter, write_attempt,
}
use duegood.CaptureRun.Guard.{
  Archive, read_attempt_consistent, begin, fail, complete, settle, allocate,
}
use duegood.CaptureRun.Storage.{u64_mod, stored_id}

module _ (serde : Serde) where
  open serde use {Text, counter_text, attempt_text}

  -- `n'` is `n`, or the file of the counter behind the one stored in `n`.
  abbrev pub Bumped : Node Text → Node Text → Type 0
  Bumped n n' =
      (n' ≡ n)
      ⊎ ((stored_id serde n + 1 < u64_mod)
          × (n' ≡ regular (counter_text (counter_at (stored_id serde n + 1)))))

  -- `w'` holds the files of a new run behind `p`.
  abbrev pub Started : ℕ → World Text → Type 0
  Started p w' =
      (w'.attempt ≡ regular (attempt_text (file_of (started (p + 1)))))
      × (w'.counter ≡ regular (counter_text (counter_at (p + 1))))
      × (p + 1 < u64_mod)

  pub allocate-files :
      (p : ℕ) (w : World Text)
      → Started p (allocate serde p w).1
        ⊎ (((allocate serde p w).1.attempt ≡ w.attempt)
            × (((allocate serde p w).1.counter ≡ w.counter)
                ⊎ (((allocate serde p w).1.counter ≡ regular (counter_text (counter_at (p + 1))))
                    × (p + 1 < u64_mod))))
  unfolding allocate write_counter write_attempt checked_next
  allocate-files p w = ground arith

  pub settle-counter :
      (p : ℕ) (o : Option AttemptFile) (w : World Text) → (settle serde p o w).1.counter ≡ w.counter
  unfolding settle write_attempt
  settle-counter p o w = ground arith

  pub settle-attempt :
      (p : ℕ) (f : AttemptFile) (w : World Text)
      → ((settle serde p (some f) w).1.attempt ≡ w.attempt)
        ⊎ ((settle serde p (some f) w).1.attempt
            ≡ regular (attempt_text (file_of (with_status f.attempt failed))))
  unfolding settle write_attempt
  settle-attempt p f w = ground arith

  pub begin-counters : (w : World Text) → Bumped w.counter (begin serde w).1.counter
  unfolding begin stored_id settle allocate write_counter write_attempt checked_next
  begin-counters w = ground arith

  -- The attempt that a consistent read gives is that of the status file.
  pub consistent-reads :
      (w : World Text) (a : Attempt)
      → read_attempt_consistent serde w ≡ ok (some a)
      → (f : AttemptFile) × (read_attempt_file serde w.attempt ≡ ok (some f)) × (f.attempt ≡ a)
  unfolding read_attempt_consistent
  consistent-reads w a h = ground arith

  pub fail-counter : (id : ℕ) (w : World Text) → (fail serde id w).1.counter ≡ w.counter
  unfolding fail write_attempt
  fail-counter id w = ground arith

  pub fail-attempt :
      (id : ℕ) (w : World Text) (a : Attempt)
      → read_attempt_consistent serde w ≡ ok (some a)
      → ((fail serde id w).1.attempt ≡ w.attempt)
        ⊎ ((fail serde id w).1.attempt ≡ regular (attempt_text (file_of (with_status a failed))))
  unfolding fail write_attempt
  fail-attempt id w a h = ground arith

  -- Where no attempt can be read, `fail` and `complete` write nothing.
  pub fail-unread :
      (id : ℕ) (w : World Text)
      → ((a : Attempt) → read_attempt_consistent serde w ≢ ok (some a))
      → (fail serde id w).1.attempt ≡ w.attempt
  unfolding fail write_attempt
  fail-unread id w h = elim (Result-cases (read_attempt_consistent serde w)) [
    | inr (e, k) ↦ ground arith
    | inl (none, k) ↦ ground arith
    | inl (some a, k) ↦ absurd (h a k)
  ]

  module _ (archive : Archive) (id : ℕ) (g d : Bytes) (u : ℕ) (w : World Text) where
    pub complete-counter : (complete serde archive id g d u w).1.counter ≡ w.counter
    unfolding complete write_attempt
    complete-counter = ground arith

    -- `complete` writes only over the running status of its own run.
    pub complete-attempt :
        ((complete serde archive id g d u w).1.attempt ≡ w.attempt)
        ⊎ (((complete serde archive id g d u w).1.attempt
              ≡ regular (attempt_text (file_of (finished id g d u))))
            × ((a : Attempt) × (read_attempt_consistent serde w ≡ ok (some a)) × (a.run_id ≡ id)))
    unfolding complete write_attempt
    complete-attempt = ground arith

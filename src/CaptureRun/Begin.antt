-- ===== src/CaptureRun/Begin.antt =====
-- `begin` of src-tauri/src/capture_run.rs: what it returns and stores, and when it goes through.
use duegood.Base.{ℕ, ◌+◌, ◌<◌, ◌≡◌, inl, inr, true, Option, none, some, [], ok, arith, Result-cases}
use duegood.CaptureRun.State.{
  RunCounter, Attempt, AttemptFile, counter_at, file_of, started, checked_next, acceptable,
}
use duegood.CaptureRun.Disk.{
  Serde, World, Node, regular, read_counter, read_attempt_file, write_counter, write_attempt,
}
use duegood.CaptureRun.Guard.{last_id, read_attempt_consistent, begin, settle, allocate}
use duegood.CaptureRun.Storage.{
  IsFaithful, IsCompact, u64_mod, stored_id, read_counter-back, read_attempt_file-back,
}
use duegood.CaptureRun.Order.{IsOrdered, stored_id-back}

started-acceptable : (id : ℕ) → 0 < id → acceptable (file_of (started id)) ≡ true
unfolding acceptable
started-acceptable id h = ground arith

pub started-IsCompact : (id : ℕ) → id < u64_mod → IsCompact (started id)
started-IsCompact id h = record { run = h; generation = tt; digest = tt; user = tt }

module _ (serde : Serde) where
  open serde use {Text, counter_text, attempt_text}

  allocate-ok :
      (p : ℕ) (w : World Text) {a : Attempt}
      → (allocate serde p w).0 ≡ ok a
      → (a ≡ started (p + 1))
        × (p + 1 < u64_mod)
        × ((allocate serde p w).1.counter ≡ regular (counter_text (counter_at (p + 1))))
        × ((allocate serde p w).1.attempt ≡ regular (attempt_text (file_of (started (p + 1)))))
  unfolding allocate write_counter write_attempt checked_next
  allocate-ok p w h = ground arith

  begin-allocate :
      (w : World Text) (c : Option RunCounter) (o : Option AttemptFile) {a : Attempt}
      → read_counter serde w.counter ≡ ok c
      → read_attempt_file serde w.attempt ≡ ok o
      → (begin serde w).0 ≡ ok a
      → begin serde w ≡ allocate serde (last_id c) (settle serde (last_id c) o w).1
  unfolding begin
  begin-allocate w c o hc ho h = ground arith

  pub stored_id_ok :
      (n : Node Text) (o : Option RunCounter)
      → read_counter serde n ≡ ok o
      → stored_id serde n ≡ last_id o
  unfolding stored_id
  stored_id_ok n o h = rw (h, stored_id)

  -- A successful `begin` is the allocation of the next identifier.
  pub begin-ok :
      (w : World Text) {a : Attempt}
      → (begin serde w).0 ≡ ok a
      → (a ≡ started (stored_id serde w.counter + 1))
        × (stored_id serde w.counter + 1 < u64_mod)
        × ((begin serde w).1.counter
            ≡ regular (counter_text (counter_at (stored_id serde w.counter + 1))))
        × ((begin serde w).1.attempt
            ≡ regular (attempt_text (file_of (started (stored_id serde w.counter + 1)))))
  begin-ok w h = elim (Result-cases (read_counter serde w.counter)) [
    | inr (e, c) ↦ absurd (unfold begin in ground arith)
    | inl (o, c) ↦ elim (Result-cases (read_attempt_file serde w.attempt)) [
      | inr (e, r) ↦ absurd (unfold begin in ground arith)
      | inl (f, r) ↦
          let e = begin-allocate w o f c r h in
          rw (stored_id_ok w.counter o c, e) (allocate-ok (last_id o) _ (rw e at h))
    ]
  ]

  -- Where the status is in order and every write succeeds, `begin` goes through.
  pub begin-goes :
      (w : World Text) (c : Option RunCounter) (o : Option AttemptFile)
      → IsOrdered serde w
      → read_counter serde w.counter ≡ ok c
      → read_attempt_file serde w.attempt ≡ ok o
      → last_id c + 1 < u64_mod
      → w.outcomes ≡ []
      → (begin serde w).0 ≡ ok (started (last_id c + 1))
  unfolding stored_id begin settle allocate write_counter write_attempt checked_next
  begin-goes w c none i hc ho h e = ground arith
  begin-goes w c (some f) i hc ho h e = ground (arith, i.ordered f ho)

  module _ (faithful : IsFaithful serde) where
    pub stored-started :
        (w : World Text) (id : ℕ)
        → id < u64_mod
        → 0 < id
        → w.counter ≡ regular (counter_text (counter_at id))
        → w.attempt ≡ regular (attempt_text (file_of (started id)))
        → read_attempt_consistent serde w ≡ ok (some (started id))
    unfolding read_attempt_consistent
    stored-started w id h p c a = ground (
      arith,
      c,
      a,
      read_counter-back serde faithful id h,
      read_attempt_file-back serde faithful (started id) (started-acceptable id p)
          (started-IsCompact id h),
    )

    -- What a `begin` that goes through returns is the next run, running, and it is what the files then
    -- hold, serde_json being faithful.
    pub begin_next :
        (w : World Text) {a : Attempt}
        → (begin serde w).0 ≡ ok a
        → (a ≡ started (stored_id serde w.counter + 1))
          × (read_attempt_consistent serde (begin serde w).1 ≡ ok (some a))
          × (stored_id serde (begin serde w).1.counter ≡ stored_id serde w.counter + 1)
    begin_next w h =
        let (e, lt, c, t) = begin-ok w h in
        (
          e,
          rw e (stored-started (begin serde w).1 _ lt (omega arith) c t),
          rw c (stored_id-back serde faithful _ lt),
        )

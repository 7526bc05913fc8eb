-- ===== src/CaptureRun/Order.antt =====
-- Run identifiers: what an operation leaves on disk, whatever becomes of its writes.
use duegood.Base.{
  ℕ, ◌+◌, ◌<◌, ◌≤◌, ◌≡◌, refl, ap, ◌⊎◌, inl, inr, Option, none, some, Bytes, Result, ok, err, arith,
  Result-cases,
}
use duegood.CaptureRun.State.{
  IoError, RunCounter, Attempt, AttemptFile, counter_at, file_of, started, finished, with_status,
  failed,
}
use duegood.CaptureRun.Disk.{Serde, World, Node, regular, read_counter, read_attempt_file}
use duegood.CaptureRun.Guard.{
  Archive, last_id, read_attempt_consistent, begin, fail, complete, settle, allocate,
}
use duegood.CaptureRun.Effects.{
  Bumped, Started, begin-counters, allocate-files, settle-counter, settle-attempt, consistent-reads,
  fail-counter, fail-attempt, fail-unread, complete-counter, complete-attempt,
}
use duegood.CaptureRun.Storage.{
  IsFaithful, u64_mod, stored_id, read_counter-back, read_attempt_file-only,
}

module _ (serde : Serde) where
  open serde use {Text, counter_text, attempt_text}

  -- No status is ahead of the counter.
  pub record IsOrdered (w : World Text) : Type 0 where
    pub ordered :
        (f : AttemptFile)
        → read_attempt_file serde w.attempt ≡ ok (some f)
        → f.run_id ≤ stored_id serde w.counter

  module _ (faithful : IsFaithful serde) where
    pub stored_id-back :
        (id : ℕ) → id < u64_mod → stored_id serde (regular (counter_text (counter_at id))) ≡ id
    unfolding stored_id
    stored_id-back id h = rw (read_counter-back serde faithful id h, stored_id)

    Bumped-le : (n n' : Node Text) → Bumped serde n n' → stored_id serde n ≤ stored_id serde n'
    Bumped-le n n' (inl e) = rw e (omega arith)
    Bumped-le n n' (inr (h, e)) = rw (e, stored_id-back (stored_id serde n + 1) h) (omega arith)

    -- Whatever becomes of the writes of `begin`, the stored counter does not go back.
    pub begin-le :
        (w : World Text) → stored_id serde w.counter ≤ stored_id serde (begin serde w).1.counter
    begin-le w = Bumped-le _ _ (begin-counters serde w)

    Started-reads :
        (p : ℕ) (w : World Text) (g : AttemptFile)
        → Started serde p w
        → read_attempt_file serde w.attempt ≡ ok (some g)
        → g.run_id ≤ stored_id serde w.counter
    Started-reads p w g (e, c, h) k = ground (
      arith,
      stored_id-back (p + 1) h,
      read_attempt_file-only serde faithful (started (p + 1)) g (rw e at k),
    )

    allocate-reads :
        (p : ℕ) (w : World Text) (g : AttemptFile)
        → stored_id serde w.counter ≡ p
        → IsOrdered w
        → read_attempt_file serde (allocate serde p w).1.attempt ≡ ok (some g)
        → g.run_id ≤ stored_id serde (allocate serde p w).1.counter
    allocate-reads p w g e o k = elim (allocate-files serde p w) [
      | inl s ↦ Started-reads p (allocate serde p w).1 g s k
      | inr (a, inl c) ↦ rw c (o.ordered g (rw a at k))
      | inr (a, inr (c, h)) ↦
          rw (c, stored_id-back (p + 1) h) (omega (arith, o.ordered g (rw a at k)))
    ]

    -- Where the run recorded in `w` is restated by `a`, the order stays.
    restated-IsOrdered :
        (w w' : World Text) (f : AttemptFile) (a : Attempt)
        → read_attempt_file serde w.attempt ≡ ok (some f)
        → a.run_id ≡ f.run_id
        → w'.counter ≡ w.counter
        → (w'.attempt ≡ w.attempt) ⊎ (w'.attempt ≡ regular (attempt_text (file_of a)))
        → IsOrdered w
        → IsOrdered w'
    restated-IsOrdered w w' f a h r c (inl e) o = record {
      ordered = λ g k. rw c (o.ordered g (rw e at k));
    }
    restated-IsOrdered w w' f a h r c (inr e) o = record {
      ordered = λ g k. rw c (
          omega (
            arith,
            o.ordered f h,
            ap (λ (x : AttemptFile). x.run_id)
                (read_attempt_file-only serde faithful a g (rw e at k)),
          ));
    }

    settle-IsOrdered :
        (p : ℕ) (f : AttemptFile) (w : World Text)
        → read_attempt_file serde w.attempt ≡ ok (some f)
        → IsOrdered w
        → IsOrdered (settle serde p (some f) w).1
    settle-IsOrdered p f w h o =
        restated-IsOrdered w _ f (with_status f.attempt failed) h refl
          (settle-counter serde p (some f) w) (settle-attempt serde p f w) o

    allocate-IsOrdered :
        (p : ℕ) (w : World Text)
        → stored_id serde w.counter ≡ p
        → IsOrdered w
        → IsOrdered (allocate serde p w).1
    allocate-IsOrdered p w e o = record { ordered = λ g k. allocate-reads p w g e o k }

    begin_read :
        (w : World Text) (c : Option RunCounter) (r : Result IoError (Option AttemptFile))
        → read_counter serde w.counter ≡ ok c
        → read_attempt_file serde w.attempt ≡ r
        → IsOrdered w
        → IsOrdered (begin serde w).1
    unfolding stored_id
    begin_read w c (err e) hc hr o = unfold begin in rw (hc, hr) o
    begin_read w c (ok none) hc hr o =
        unfold begin settle in rw (hc, hr) (allocate-IsOrdered (last_id c) w (rw (hc, stored_id)) o)
    begin_read w c (ok (some f)) hc hr o =
        let s = settle serde (last_id c) (some f) w in
        let next : IsOrdered s.1 = settle-IsOrdered (last_id c) f w hr o in
        elim (Result-cases s.0) [
          | inr (e, h) ↦ unfold begin in rw (hc, hr, h) next
          | inl (_, h) ↦
              unfold begin in
              rw (hc, hr, h)
                (allocate-IsOrdered (last_id c) s.1 (rw (settle-counter serde, hc, stored_id)) next)
        ]

    -- Whatever becomes of its writes, `begin` leaves no status ahead of the counter.
    pub begin-IsOrdered : (w : World Text) → IsOrdered w → IsOrdered (begin serde w).1
    begin-IsOrdered w o = elim (Result-cases (read_counter serde w.counter)) [
      | inr (e, h) ↦ unfold begin in rw h o
      | inl (c, h) ↦ begin_read w c (read_attempt_file serde w.attempt) h refl o
    ]

    kept-IsOrdered :
        (w w' : World Text)
        → w'.counter ≡ w.counter
        → w'.attempt ≡ w.attempt
        → IsOrdered w
        → IsOrdered w'
    kept-IsOrdered w w' c a o = record { ordered = λ g k. rw c (o.ordered g (rw a at k)) }

    -- So does `fail`.
    pub fail-IsOrdered : (id : ℕ) (w : World Text) → IsOrdered w → IsOrdered (fail serde id w).1
    fail-IsOrdered id w o = elim (Result-cases (read_attempt_consistent serde w)) [
      | inr (e, h) ↦
          kept-IsOrdered w _ (fail-counter serde id w) (fail-unread serde id w (λ a k. cc)) o
      | inl (none, h) ↦
          kept-IsOrdered w _ (fail-counter serde id w) (fail-unread serde id w (λ a k. cc)) o
      | inl (some a, h) ↦
          let (f, r, e) = consistent-reads serde w a h in
          restated-IsOrdered w _ f (with_status a failed) r (rw e) (fail-counter serde id w)
            (fail-attempt serde id w a h) o
    ]

    -- So does `complete`.
    pub complete-IsOrdered :
        (archive : Archive) (id : ℕ) (g d : Bytes) (u : ℕ) (w : World Text)
        → IsOrdered w
        → IsOrdered (complete serde archive id g d u w).1
    complete-IsOrdered archive id g d u w o =
        let c = complete-counter serde archive id g d u w in
        elim (complete-attempt serde archive id g d u w) [
          | inl e ↦ kept-IsOrdered w _ c e o
          | inr (e, (a, h, same_run)) ↦
              let (f, r, k) = consistent-reads serde w a h in
              restated-IsOrdered w _ f (finished id g d u) r (cc (same_run, k)) c (inr e) o
        ]

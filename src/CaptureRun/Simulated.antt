-- ===== src/CaptureRun/Simulated.antt =====
-- The operations of src-tauri/src/capture_run.rs are each a move of the registry, or a
-- sequence of moves, whatever becomes of their writes.
use duegood.Base.{
  ℕ, ◌+◌, ◌<◌, ◌≤◌, ◌≡◌, refl, sym, subst, ◌⊎◌, inl, inr, true, Option, none, some, List, Bytes, ok,
  arith, Result-cases,
}
use duegood.CaptureRun.State.{
  RunCounter, Attempt, AttemptFile, file_of, finished, with_status, failed, is_running, acceptable,
  counter_at,
}
use duegood.CaptureRun.Disk.{Serde, World, regular, read_counter, read_attempt_file}
use duegood.CaptureRun.Guard.{
  Archive, last_id, read_attempt_consistent, begin, fail, complete, settle, allocate,
}
use duegood.CaptureRun.Effects.{allocate-files, settle-counter, fail-counter, complete-counter}
use duegood.CaptureRun.Storage.{
  IsFaithful, IsCompact, u64_mod, stored_id, read_counter-back, read_attempt_file-only,
}
use duegood.CaptureRun.Order.{stored_id-back}
use duegood.CaptureRun.Begin.{stored-started, stored_id_ok}
use duegood.CaptureRun.Ends.{
  failed-acceptable, finished-acceptable, finished-IsCompact, stored-back, read-acceptable,
  consistent-parts,
}
use duegood.CaptureRun.Registry.{
  Registry, Moves, opens_unseen, skips, gives_up, captures, stays, Traces, unreported, IsTidy,
}
use duegood.CaptureRun.View.{
  view, view-files, view_of, view-behind, settle-wrote, settle-le, consistent-current, fail-rewrote,
  fail-unwritten, complete-rewrote,
}

abbrev LastId : Option AttemptFile → ℕ → Type 0
LastId none p = Unit
LastId (some f) p = f.run_id ≤ p

module _ (serde : Serde) (archive : Archive) (faithful : IsFaithful serde) where
  open serde use {Text, attempt_text}

  kept :
      (w w' : World Text)
      → w'.counter ≡ w.counter
      → w'.attempt ≡ w.attempt
      → Moves archive (view serde w) (view serde w') none
  kept w w' c a = rw (view-files serde w w' c a) (stays (view serde w))

  -- An allocation in a store whose statuses are no newer than its counter.
  allocate-view :
      (w : World Text)
      → ((g : AttemptFile)
          → read_attempt_file serde w.attempt ≡ ok (some g)
          → g.run_id ≤ stored_id serde w.counter)
      → Moves archive
          (view serde w)
          (view serde (allocate serde (stored_id serde w.counter) w).1)
          none
  unfolding view
  allocate-view w k =
      let p = stored_id serde w.counter in
      let w' = (allocate serde p w).1 in
      elim (allocate-files serde p w) [
        | inl (a, c, h) ↦
            let next : stored_id serde w'.counter ≡ p + 1 =
              rw c (stored_id-back serde faithful (p + 1) h) in
            let back = stored-started serde faithful w' (p + 1) h (omega arith) c a in
            rw (view_of serde w' next back) (opens_unseen p _ h)
        | inr (a, inl c) ↦ kept w w' c a
        | inr (a, inr (c, h)) ↦
            let back : read_counter serde w'.counter ≡ ok (some (counter_at (p + 1))) =
              rw c (read_counter-back serde faithful (p + 1) h) in
            let e =
              view-behind serde w' (counter_at (p + 1)) back
                (λ g r. omega (arith, k g (rw a at r))) in
            rw e (skips p _ h)
      ]

  -- Marking the current run failed, where it is, gives it up.
  given_up :
      (w w' : World Text) (a : Attempt) (f : AttemptFile)
      → IsTidy (view serde w)
      → read_attempt_consistent serde w ≡ ok (some a)
      → read_attempt_file serde w.attempt ≡ ok (some f)
      → f.attempt ≡ a
      → is_running a.status ≡ true
      → w'.counter ≡ w.counter
      → w'.attempt ≡ regular (attempt_text (file_of (with_status a failed)))
      → Moves archive (view serde w) (view serde w') none
  given_up w w' a f t h hf ef r c e =
      let k : IsCompact a = t.compact a (rw (view_of serde w refl h) refl) in
      let compact : IsCompact (with_status a failed) = record {
        run = k.run;
        generation = k.generation;
        digest = k.digest;
        user = k.user;
      } in
      let ac : acceptable (file_of (with_status a failed)) ≡ true =
        rw (← ef) (failed-acceptable f (read-acceptable serde w.attempt f hf) (rw (← ef) at r)) in
      let back = stored-back serde faithful w w' (with_status a failed) a h refl ac compact c e in
      rw
        (
          view_of serde w' {i = stored_id serde w.counter} (rw c refl) back,
          view_of serde w {i = stored_id serde w.counter} refl h,
        )
        (gives_up _ a r)

  settle-view :
      (w : World Text) (c : Option RunCounter) (f : AttemptFile)
      → IsTidy (view serde w)
      → read_counter serde w.counter ≡ ok c
      → read_attempt_file serde w.attempt ≡ ok (some f)
      → (view serde (settle serde (last_id c) (some f) w).1 ≡ view serde w)
        ⊎ Moves archive (view serde w) (view serde (settle serde (last_id c) (some f) w).1) none
  settle-view w c f t hc hf =
      let k = settle-counter serde (last_id c) (some f) w in
      elim (settle-wrote serde (last_id c) f w) [
        | inl e ↦ inl (view-files serde w _ k e)
        | inr (e, same_run, r) ↦ inr (
            given_up w _ f.attempt f t (consistent-current serde w c f hc hf same_run) hf refl r k
              e)
      ]

  settle-behind :
      (w : World Text) (p : ℕ) (f : AttemptFile)
      → read_attempt_file serde w.attempt ≡ ok (some f)
      → (settle serde p (some f) w).0 ≡ ok tt
      → (g : AttemptFile)
      → read_attempt_file serde (settle serde p (some f) w).1.attempt ≡ ok (some g)
      → g.run_id ≤ p
  settle-behind w p f hf h g hg = elim (settle-wrote serde p f w) [
    | inl e ↦
        let same_file : some f ≡ some g = cc (hf, rw e at hg) in
        subst (λ (x : Option AttemptFile). LastId x p) same_file (settle-le serde p f w h)
    | inr (e, _, _) ↦
        rw (read_attempt_file-only serde faithful (with_status f.attempt failed) g (rw e at hg))
          (settle-le serde p f w h)
  ]

  module _ {r : Registry} {ids : List ℕ} where
    allocated :
        (s : World Text) (p : ℕ)
        → Traces archive r (view serde s) ids
        → p ≡ stored_id serde s.counter
        → ((g : AttemptFile) → read_attempt_file serde s.attempt ≡ ok (some g) → g.run_id ≤ p)
        → Traces archive r (view serde (allocate serde p s).1) ids
    allocated s p ts e k = rw e (unreported ts (allocate-view s (λ g h. omega (arith, e, k g h))))

    pub begin-view :
        (w : World Text)
        → IsTidy (view serde w)
        → Traces archive r (view serde w) ids
        → Traces archive r (view serde (begin serde w).1) ids
    begin-view w t ts = elim (Result-cases (read_counter serde w.counter)) [
      | inr (e, h) ↦ unfold begin in rw h ts
      | inl (c, h) ↦ elim (Result-cases (read_attempt_file serde w.attempt)) [
        | inr (e, hf) ↦ unfold begin in rw (h, hf) ts
        | inl (none, hf) ↦
            unfold begin settle in
            rw (h, hf)
              (allocated w (last_id c) ts (sym (stored_id_ok serde w.counter c h)) (λ g k. cc))
        | inl (some f, hf) ↦
            let s = settle serde (last_id c) (some f) w in
            let next : Traces archive r (view serde s.1) ids = elim (settle-view w c f t h hf) [
              | inl e ↦ rw e ts
              | inr m ↦ unreported ts m
            ] in
            elim (Result-cases s.0) [
              | inr (e, k) ↦ unfold begin in rw (h, hf, k) next
              | inl (_, k) ↦
                  let same_id : last_id c ≡ stored_id serde s.1.counter =
                    rw (settle-counter serde (last_id c) (some f) w)
                      (sym (stored_id_ok serde w.counter c h)) in
                  unfold begin in
                  rw (h, hf, k)
                    (allocated s.1 (last_id c) next same_id (settle-behind w (last_id c) f hf k))
            ]
      ]
    ]

  module _ (w : World Text) where
    pub fail-view :
        (id : ℕ)
        → IsTidy (view serde w)
        → Moves archive (view serde w) (view serde (fail serde id w).1) none
    fail-view id t = elim (Result-cases (read_attempt_consistent serde w)) [
      | inr (e, h) ↦ kept w _ (fail-counter serde id w) (fail-unwritten serde id w (rw h refl))
      | inl (none, h) ↦ kept w _ (fail-counter serde id w) (fail-unwritten serde id w (rw h refl))
      | inl (some a, h) ↦ elim (fail-rewrote serde id w a h) [
        | inl e ↦ kept w _ (fail-counter serde id w) e
        | inr (e, k) ↦
            let (_, f, _, hf, ef, _) = consistent-parts serde w a h in
            given_up w _ a f t h hf ef k (fail-counter serde id w) e
      ]
    ]

    pub complete-view :
        (id : ℕ) (g d : Bytes) (u : ℕ)
        → u < u64_mod
        → IsTidy (view serde w)
        → Moves archive (view serde w) (view serde (complete serde archive id g d u w).1) none
    complete-view id g d u b t =
        let w' = (complete serde archive id g d u w).1 in
        let c : w'.counter ≡ w.counter = complete-counter serde archive id g d u w in
        elim (complete-rewrote serde archive id g d u w) [
          | inl e ↦ kept w w' c e
          | inr (e, (a, h, k, same_run), (s, hs), wf) ↦
              let i = stored_id serde w.counter in
              let compact : IsCompact a = t.compact a (rw (view_of serde w {i = i} refl h) refl) in
              let fits : id < u64_mod = omega (arith, compact.run, same_run) in
              let back =
                stored-back serde faithful w w' (finished id g d u) a h (sym same_run)
                  (finished-acceptable id g d u wf) (finished-IsCompact id g d u fits b wf) c e in
              rw
                (
                  view_of serde w' {i = i} (rw c refl) back,
                  view_of serde w {i = i} refl h,
                  ← same_run,
                )
                (captures i a g d u s k b (rw same_run wf) (rw same_run hs))
        ]

-- ===== src/CaptureRun/LeaseEnds.antt =====
-- The branches of `run_lease` in src-tauri/src/capture_run_lease.rs, and what each leaves in the store.
use duegood.Base.{
  ℕ, ◌+◌, ◌<◌, ◌≡◌, refl, ◌⊎◌, inl, inr, Option, none, some, [], Bytes, ok, err, arith,
  Result-cases, Bool-cases, ◌==◌, same, codes,
}
use duegood.CaptureRun.State.{IoError, invalid_data, Attempt, started, finished, failed}
use duegood.CaptureRun.Disk.{
  Serde, World, Line, status_line, lease_line, print, pure, ◌>>=◌, ◌>>◌, write_attempt,
}
use duegood.CaptureRun.Guard.{Archive, begin, complete}
use duegood.CaptureRun.Storage.{IsFaithful, ShortId, u64_mod, stored_id}
use duegood.CaptureRun.Begin.{begin_next}
use duegood.CaptureRun.Ends.{complete-ok, complete-stored}
use duegood.CaptureRun.Lease.{
  Request, is_failure, Input, sent, abandon, announce, finish, terminate, await, serve, hold,
  receive,
}
use duegood.CaptureRun.Lives.{Live, Over, print-Over, print-Live, fail-Over, begin-Live}

module _ (serde : Serde) where
  open serde use {Text}

  module _ (faithful : IsFaithful serde) where
    module _ (request_of : Text → Option Request) (archive : Archive) where
      abandon-Over :
          {id : ℕ} {w : World Text} (e : IoError)
          → Live serde id w
          → Over serde id (abandon serde request_of archive {A = Attempt} id e w).1
      unfolding abandon
      abandon-Over {id = id} {w} e l =
          print-Over serde (status_line id failed) (fail-Over serde faithful l)

      complete-unmoved :
          (id : ℕ) (g d : Bytes) (u : ℕ) (w : World Text) {e : IoError}
          → w.outcomes ≡ []
          → (complete serde archive id g d u w).0 ≡ err e
          → (complete serde archive id g d u w).1 ≡ w
      unfolding complete write_attempt
      complete-unmoved id g d u w os h = ground arith

      complete-Over :
          (id : ℕ) (g d : Bytes) (u : ℕ) (w : World Text) {a : Attempt}
          → Live serde id w
          → u < u64_mod
          → (complete serde archive id g d u w).0 ≡ ok a
          → Over serde id (complete serde archive id g d u w).1
      complete-Over id g d u w {a} l hu h =
          let (e, _, _, _) = complete-ok serde archive id g d u w h in
          record {
            last = finished id g d u;
            stored = rw e at (complete-stored serde archive id g d u w faithful l.bounded hu h);
            ended = refl;
            same_run = refl;
          }

      finish-Over :
          (id : ℕ) (g d : Option Bytes) (u : Option ℕ) (w : World Text)
          → Live serde id w
          → ShortId u
          → Over serde id (finish serde request_of archive id g d u w).1
      unfolding finish
      finish-Over id (some g) (some d) (some u) w l hu =
          elim (Result-cases (complete serde archive id g d u w).0) [
            | inl (a, h) ↦ rw (h, finish) (complete-Over id g d u w l hu h)
            | inr (e, h) ↦ rw (h, finish, complete-unmoved id g d u w l.writes h) (abandon-Over e l)
          ]
      finish-Over id none d u w l hu =
          abandon-Over (invalid_data "terminal request identity is incomplete") l
      finish-Over id (some g) none u w l hu =
          abandon-Over (invalid_data "terminal request identity is incomplete") l
      finish-Over id (some g) (some d) none w l hu =
          abandon-Over (invalid_data "terminal request identity is incomplete") l

      terminate-Over :
          (id : ℕ) (q : Request) (w : World Text)
          → Live serde id w
          → ShortId q.user_id
          → Over serde id (terminate serde request_of archive id q w).1
      unfolding terminate
      terminate-Over id q w l hu = elim (Bool-cases (q.run_id == id)) [
        | inr r ↦
            rw (r, terminate)
              (abandon-Over (invalid_data "terminal request run ID does not match") l)
        | inl r ↦ elim (Bool-cases (is_failure q)) [
          | inl f ↦ rw (r, f, terminate) (fail-Over serde faithful l)
          | inr f ↦ elim (Bool-cases (same q.status (codes "captured"))) [
            | inl c ↦
                rw (r, f, c, terminate)
                  (finish-Over id q.generation_id q.snapshot_sha256 q.user_id w l hu)
            | inr c ↦
                rw (r, f, c, terminate)
                  (abandon-Over (invalid_data "terminal request status is invalid") l)
          ]
        ]
      ]

      -- serde_json reads a `user_id` into a `u64`
      module _
          (u64_users : (t : Text) (q : Request) → request_of t ≡ some q → ShortId q.user_id) where
        receive-ShortId :
            (input : Input Text) (q : Request)
            → receive serde request_of archive input ≡ ok q
            → ShortId q.user_id
        unfolding receive
        receive-ShortId (sent t) q h = u64_users t q (ground arith)
        receive-ShortId _ q h = ground arith

        await-Over :
            (id : ℕ) (input : Input Text) (w : World Text)
            → Live serde id w
            → Over serde id (await serde request_of archive id input w).1
        unfolding await
        await-Over id input w l = elim (Result-cases (receive serde request_of archive input)) [
          | inl (q, h) ↦ rw (h, await) (terminate-Over id q w l (receive-ShortId input q h))
          | inr (e, h) ↦ rw (h, await) (abandon-Over e l)
        ]

        announce-ok :
            (id : ℕ) (w : World Text)
            → Live serde id w
            → (Live serde id (announce serde request_of archive id w).1
                × ((announce serde request_of archive id w).0 ≡ ok tt))
              ⊎ (Over serde id (announce serde request_of archive id w).1
                  × ((e : IoError) × ((announce serde request_of archive id w).0 ≡ err e)))
        unfolding announce
        announce-ok id w l = elim (Result-cases (print (lease_line id) w).0) [
          | inl (tt, h) ↦
              inl (rw (h, announce) (print-Live serde (lease_line id) l), rw (h, announce))
          | inr (e, h) ↦ inr (
            rw (h, announce) (fail-Over serde faithful (print-Live serde (lease_line id) l)),
            (e, rw (h, announce)),
          )
        ]

        print-pure :
            (l : Line) (a : Attempt) (w : World Text) → ((print l >> pure a) w).1 ≡ (print l w).1
        unfolding print
        print-pure l a w = ground arith

        report-Over :
            (id : ℕ) (input : Input Text) (w : World Text)
            → Live serde id w
            → Over serde id
                ((await serde request_of archive id input >>= λ a.
                    (print (status_line a.run_id a.status) >> pure a))
                  w).1
        report-Over id input w l =
            let o = await-Over id input w l in
            elim (Result-cases (await serde request_of archive id input w).0) [
              | inr (e, h) ↦ rw h o
              | inl (a, h) ↦
                  rw (h, print-pure (status_line a.run_id a.status) a) (print-Over serde _ o)
            ]

        serve-Over :
            (id : ℕ) (input : Input Text) (w : World Text)
            → Live serde id w
            → Over serde id (serve serde request_of archive input (started id) w).1
        unfolding serve
        serve-Over id input w l = elim (announce-ok id w l) [
          | inl (live, h) ↦ rw (h, serve) (report-Over id input _ live)
          | inr (over, (e, h)) ↦ rw (h, serve) over
        ]

        pub hold-Over :
            (input : Input Text) (w : World Text) {a : Attempt}
            → w.outcomes ≡ []
            → (begin serde w).0 ≡ ok a
            → Over serde (stored_id serde w.counter + 1) (hold serde request_of archive input w).1
        unfolding hold
        hold-Over input w {a} os h =
            let (e, _, _) = begin_next serde faithful w h in
            rw (h, hold, e) (serve-Over _ input _ (begin-Live serde faithful w os h))

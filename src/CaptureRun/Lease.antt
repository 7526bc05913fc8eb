-- ===== src/CaptureRun/Lease.antt =====
-- src-tauri/src/capture_run_lease.rs: allocate a run, print its ID, await one bounded terminal
-- message, check it, and record the run's end before the lock is given up.
use duegood.Base.{
  ℕ, ◌==◌, ltb, Bool, not, ◌&&◌, ◌||◌, Option, none, some, Bytes, codes, same, Result, ok, err,
  is_some, if◌then◌else◌,
}
use duegood.CaptureRun.State.{IoError, timed_out, invalid_data, failed, Attempt}
use duegood.CaptureRun.Disk.{
  Serde, Io, pure, raise, ignore, ◌>>=◌, ◌>>◌, lease_line, status_line, print,
}
use duegood.CaptureRun.Guard.{Archive, acquire, release, begin, fail, complete}

-- `TerminalRequest`
pub record Request : Type 0 where
  pub status : Bytes
  pub run_id : ℕ
  pub generation_id : Option Bytes
  pub snapshot_sha256 : Option Bytes
  pub user_id : Option ℕ

-- What comes from the peer before the lease expires: nothing, a read error, or some text.
pub data Input (Text : Type 0) : Type 0 where
  expired : Input Text
  broken : IoError → Input Text
  sent : Text → Input Text

abbrev max_terminal_request_bytes : ℕ
max_terminal_request_bytes = 4096

-- the guard of the arm for "failed"
unfoldable pub is_failure : Request → Bool
is_failure q =
    same q.status (codes "failed")
    && not (is_some q.generation_id)
    && not (is_some q.snapshot_sha256)
    && not (is_some q.user_id)

checked_request : Option Request → Result IoError Request
checked_request none = err (invalid_data "terminal request is invalid")
checked_request (some r) =
    if r.run_id == 0 then err (invalid_data "terminal request run ID is invalid") else ok r

module _ (serde : Serde) (request_of : serde.Text → Option Request) (archive : Archive) where
  open serde use {Text, size}

  -- `read_terminal_request` in the reader thread, and `recv_timeout`
  unfoldable pub receive : Input Text → Result IoError Request
  unfolding checked_request
  receive expired = err timed_out
  receive (broken e) = err e
  receive (sent t) =
      if (size t == 0) || ltb max_terminal_request_bytes (size t)
      then err (invalid_data "terminal request is empty or too large")
      else checked_request (request_of t)

  -- `let _ = guard.fail(..); let _ = writeln!(..); return Err(error)`
  unfoldable pub abandon : {A : Type 0} → ℕ → IoError → Io Text A
  abandon run_id e = do
    ignore (fail serde run_id)
    ignore (print (status_line run_id failed))
    raise e

  -- `announced` is the result of printing the ID.
  unfoldable pub announce : ℕ → Io Text (Unit {0})
  announce run_id w =
      let (r, w') = print (lease_line run_id) w in
      elim r [ ok _ ↦ (ok tt, w') | err e ↦ (do ignore (fail serde run_id); raise e) w' ]

  -- the arm for "captured"
  unfoldable pub finish : ℕ → Option Bytes → Option Bytes → Option ℕ → Io Text Attempt
  unfolding abandon
  finish run_id (some generation_id) (some digest) (some user_id) w =
      let (r, w') = complete serde archive run_id generation_id digest user_id w in
      elim r [ ok a ↦ (ok a, w') | err e ↦ abandon run_id e w' ]
  finish run_id _ _ _ w = abandon run_id (invalid_data "terminal request identity is incomplete") w

  unfoldable pub terminate : ℕ → Request → Io Text Attempt
  unfolding abandon finish
  terminate run_id q =
      if not (q.run_id == run_id)
      then abandon run_id (invalid_data "terminal request run ID does not match")
      else if is_failure q
      then fail serde run_id
      else if same q.status (codes "captured")
      then finish run_id q.generation_id q.snapshot_sha256 q.user_id
      else abandon run_id (invalid_data "terminal request status is invalid")

  unfoldable pub await : ℕ → Input Text → Io Text Attempt
  unfolding terminate receive
  await run_id input = elim (receive input) [ err e ↦ abandon run_id e | ok q ↦ terminate run_id q ]

  -- what follows `begin`
  unfoldable pub serve : Input Text → Attempt → Io Text Attempt
  serve input a = do
    announce a.run_id
    terminal ← await a.run_id input
    print (status_line terminal.run_id terminal.status)
    pure terminal

  -- the lease under the lock
  unfoldable pub hold : Input Text → Io Text Attempt
  unfolding announce await serve
  hold input = do a ← begin serde; serve input a

  unfoldable pub run_lease : Input Text → Io Text Attempt
  unfolding hold
  run_lease input w =
      let (r, w') = acquire w in
      elim r [ err e ↦ (err e, w') | ok _ ↦ let (r', w'') = hold input w' in (r', release w'') ]

-- ===== src/CaptureRun/Disk.antt =====
-- The files of src-tauri/src/capture_run.rs: what a path holds, bounded reads, atomic writes.
use duegood.Base.{
  ℕ, Bool, Option, none, some, List, [], ◌∷◌, ◌++◌, Result, ok, err, ltb, if◌then◌else◌,
}
use duegood.CaptureRun.State.{
  IoError, invalid_data, Status, os, RunCounter, AttemptFile, Attempt, acceptable,
  acceptable_counter, counter_at, file_of, max_state_bytes,
}

-- What a path leads to. `changing` is a file whose identity changes while it is opened.
pub data Node (A : Type 0) : Type 0 where
  missing irregular changing : Node A
  failing : IoError → Node A
  regular : A → Node A

pub data Directory : Type 0 where
  directory not_directory : Directory
  no_access : IoError → Directory

-- What the operating system makes of one atomic write: the file is replaced; it is left alone;
-- it is replaced, and the directory cannot be synced.
pub data Outcome : Type 0 where
  written : Outcome
  refused unsynced : IoError → Outcome

-- serde_json as the program uses it: JSON text, its parse, and the two derived codecs.
pub record Serde : Type 1 where
  pub Text : Type 0
  pub Json : Type 0
  pub size : Text → ℕ
  pub parse : Text → Option Json
  pub counter_of : Json → Option RunCounter
  pub attempt_of : Json → Option AttemptFile
  pub counter_text : RunCounter → Text
  pub attempt_text : AttemptFile → Text

-- A line on the process's output: "lease run=ID status=running", "run=ID status=STATUS".
pub data Line : Type 0 where
  lease_line : ℕ → Line
  status_line : ℕ → Status → Line

-- The data root: the lock file, whether it is held, and what else locking it or setting its mode
-- fails with; the two status files, and the outcomes of the
-- writes to come (`written` behind the end); the process's output, and which of the writes to it
-- will fail.
pub record World (Text : Type 0) : Type 0 where
  pub root : Directory
  pub lock : Node (Unit {0})
  pub held : Bool
  pub lock_error : Option IoError
  pub mode_error : Option IoError
  pub counter : Node Text
  pub attempt : Node Text
  pub outcomes : List Outcome
  pub output : List Line
  pub pipe : List (Option IoError)

-- An action that may fail; what was written before a failure stays written.
abbrev pub Io : Type 0 → Type 0 → Type 0
Io Text A = World Text → Result IoError A × World Text

module _ {Text A : Type 0} where
  abbrev pub pure : A → Io Text A
  pure a w = (ok a, w)

  abbrev pub raise : IoError → Io Text A
  raise e w = (err e, w)

  abbrev pub lift : Result IoError A → Io Text A
  lift r w = (r, w)

module _ {Text A B : Type 0} where
  abbrev continue : Result IoError A → (A → Io Text B) → Io Text B
  continue (ok a) f w = f a w
  continue (err e) f w = (err e, w)

  infixl 5 ◌>>=◌ ◌>>◌
  abbrev pub ◌>>=◌ : Io Text A → (A → Io Text B) → Io Text B
  ◌>>=◌ m f w = let (r, w') = m w in continue r f w'

  abbrev pub ◌>>◌ : Io Text A → Io Text B → Io Text B
  m >> n = m >>= λ _. n

-- `let _ = action;`
abbrev pub ignore : {Text A : Type 0} → Io Text A → Io Text (Unit {0})
ignore m w = let (r, w') = m w in (ok tt, w')

abbrev next_failure : List (Option IoError) → Option IoError × List (Option IoError)
next_failure [] = (none, [])
next_failure (e ∷ rest) = (e, rest)

-- `writeln!` and `flush` of one line
unfoldable pub print : {Text : Type 0} → Line → Io Text (Unit {0})
print l w =
    let (failure, rest) = next_failure w.pipe in
    elim failure [
      | none ↦ (ok tt, record w { output = w.output ++ l ∷ []; pipe = rest })
      | some e ↦ (err e, record w { pipe = rest })
    ]

module _ {A : Type 0} (size : A → ℕ) where
  unfoldable pub read_file_bounded : Node A → ℕ → Result IoError A
  read_file_bounded missing max = err (os 2)
  read_file_bounded irregular max = err (invalid_data "capture file is unsafe or too large")
  read_file_bounded changing max = err (invalid_data "capture file changed while opening")
  read_file_bounded (failing e) max = err e
  read_file_bounded (regular t) max =
      if ltb max (size t) then err (invalid_data "capture file is unsafe or too large") else ok t

module _ (serde : Serde) where
  open serde use {Text, Json, size, parse, counter_of, attempt_of, counter_text, attempt_text}

  parsed : Option Json → Result IoError Json
  parsed none = err (invalid_data "capture JSON is invalid")
  parsed (some j) = ok j

  unfoldable pub read_json_file : Node Text → ℕ → Result IoError Json
  unfolding read_file_bounded parsed
  read_json_file n max = elim (read_file_bounded size n max) [
    | err e ↦ err e
    | ok t ↦ parsed (parse t)
  ]

  present : Result IoError Json → Result IoError (Option Json)
  present (ok j) = ok (some j)
  present (err e) = err e

  unfoldable pub read_json_optional : Node Text → Result IoError (Option Json)
  unfolding read_json_file present
  read_json_optional missing = ok none
  read_json_optional (failing e) = err e
  read_json_optional irregular = err (invalid_data "capture state is not a regular file")
  read_json_optional changing = present (read_json_file changing max_state_bytes)
  read_json_optional (regular t) = present (read_json_file (regular t) max_state_bytes)

  checked_counter : Option RunCounter → Result IoError (Option RunCounter)
  checked_counter none = err (invalid_data "capture counter is invalid")
  checked_counter (some c) =
      if acceptable_counter c
      then ok (some c)
      else err (invalid_data "unsupported capture counter format")

  unfoldable pub read_counter : Node Text → Result IoError (Option RunCounter)
  unfolding read_json_optional checked_counter
  read_counter n = elim (read_json_optional n) [
    | err e ↦ err e
    | ok none ↦ ok none
    | ok (some j) ↦ checked_counter (counter_of j)
  ]

  checked_attempt : Option AttemptFile → Result IoError (Option AttemptFile)
  checked_attempt none = err (invalid_data "capture attempt is invalid")
  checked_attempt (some f) =
      if acceptable f then ok (some f) else err (invalid_data "unsupported capture attempt format")

  unfoldable pub read_attempt_file : Node Text → Result IoError (Option AttemptFile)
  unfolding read_json_optional checked_attempt
  read_attempt_file n = elim (read_json_optional n) [
    | err e ↦ err e
    | ok none ↦ ok none
    | ok (some j) ↦ checked_attempt (attempt_of j)
  ]

  -- `atomic_write` of a new node over an old one: the outcome, what the path holds then.
  unfoldable pub atomic_write :
      List Outcome → Node Text → Text → Result IoError (Unit {0}) × Node Text
  atomic_write [] old t = (ok tt, regular t)
  atomic_write (written ∷ _) old t = (ok tt, regular t)
  atomic_write (refused e ∷ _) old t = (err e, old)
  atomic_write (unsynced e ∷ _) old t = (err e, regular t)

  abbrev later : List Outcome → List Outcome
  later [] = []
  later (_ ∷ rest) = rest

  unfoldable pub write_counter : ℕ → Io Text (Unit {0})
  unfolding atomic_write
  write_counter id w =
      let (r, n) = atomic_write w.outcomes w.counter (counter_text (counter_at id)) in
      (r, record w { counter = n; outcomes = later w.outcomes })

  unfoldable pub write_attempt : Attempt → Io Text (Unit {0})
  unfolding atomic_write
  write_attempt a w =
      let (r, n) = atomic_write w.outcomes w.attempt (attempt_text (file_of a)) in
      (r, record w { attempt = n; outcomes = later w.outcomes })

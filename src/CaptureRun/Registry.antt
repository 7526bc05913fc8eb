-- ===== src/CaptureRun/Registry.antt =====
-- What the two status files of src-tauri/src/capture_run.rs stand for, without files: a registry of
-- runs, and the moves that it may make.
use duegood.Base.{ℕ, ◌+◌, ◌<◌, ◌≡◌, refl, true, Option, none, some, List, [], ◌∷◌, Bytes, ok, subst}
use duegood.CaptureRun.State.{Attempt, started, finished, with_status, failed, is_running}
use duegood.CaptureRun.Guard.{Archive, Summary, well_formed, max_snapshot_bytes}
use duegood.CaptureRun.Storage.{u64_mod, IsCompact}
use duegood.CaptureRun.Begin.{started-IsCompact}
use duegood.CaptureRun.Ends.{finished-IsCompact}

-- The last identifier that is used up, and the attempt of that run, where there is one to be seen.
pub record Registry : Type 0 where
  pub issued : ℕ
  pub current : Option Attempt

abbrev pub registry : ℕ → Option Attempt → Registry
registry i c = record { issued = i; current = c }

-- The text of the current attempt is sure to fit the limit of its file.
pub record IsTidy (r : Registry) : Type 0 where
  pub compact : (a : Attempt) → r.current ≡ some a → IsCompact a

pub registry-IsTidy : {i : ℕ} {a : Attempt} → IsCompact a → IsTidy (registry i (some a))
registry-IsTidy {i} {a} c = record { compact = λ b e. subst IsCompact (some_value e) c }
  where
    some_value : {b : Attempt} → some a ≡ some b → a ≡ b
    some_value e = cc

module _ (archive : Archive) where
  -- A run is opened, with or without the caller learning of it; its identifier is used up and no
  -- run is opened; the current run is given up, or its capture is finished; or nothing happens.
  pub data Moves : Registry → Registry → Option ℕ → Type 0 where
    opens :
        (i : ℕ) (c : Option Attempt)
        → i + 1 < u64_mod
        → Moves (registry i c) (registry (i + 1) (some (started (i + 1)))) (some (i + 1))
    opens_unseen :
        (i : ℕ) (c : Option Attempt)
        → i + 1 < u64_mod
        → Moves (registry i c) (registry (i + 1) (some (started (i + 1)))) none
    skips :
        (i : ℕ) (c : Option Attempt)
        → i + 1 < u64_mod
        → Moves (registry i c) (registry (i + 1) none) none
    gives_up :
        (i : ℕ) (a : Attempt)
        → is_running a.status ≡ true
        → Moves (registry i (some a)) (registry i (some (with_status a failed))) none
    captures :
        (i : ℕ) (a : Attempt) (g d : Bytes) (u : ℕ) (s : Summary)
        → is_running a.status ≡ true
        → u < u64_mod
        → well_formed a.run_id g d u ≡ true
        → archive.check a.run_id g d u max_snapshot_bytes ≡ ok s
        → Moves (registry i (some a)) (registry i (some (finished a.run_id g d u))) none
    stays : (r : Registry) → Moves r r none

  -- sequences of moves, and the identifiers that were given out in them, the latest first
  pub data Traces (r : Registry) : Registry → List ℕ → Type 0 where
    still : Traces r r []
    reports :
        {q p : Registry} {ids : List ℕ} {id : ℕ}
        → Traces r q ids
        → Moves q p (some id)
        → Traces r p (id ∷ ids)
    unreported : {q p : Registry} {ids : List ℕ} → Traces r q ids → Moves q p none → Traces r p ids

  Moves-IsTidy : {r q : Registry} {o : Option ℕ} → Moves r q o → IsTidy r → IsTidy q
  Moves-IsTidy (opens i c h) t = registry-IsTidy (started-IsCompact (i + 1) h)
  Moves-IsTidy (opens_unseen i c h) t = registry-IsTidy (started-IsCompact (i + 1) h)
  Moves-IsTidy (skips i c h) t = record { compact = λ b e. cc }
  Moves-IsTidy (gives_up i a h) t =
      let k = t.compact a refl in
      registry-IsTidy
        (record { run = k.run; generation = k.generation; digest = k.digest; user = k.user })
  Moves-IsTidy (captures i a g d u s h b w k) t =
      registry-IsTidy (finished-IsCompact a.run_id g d u ((t.compact a refl).run) b w)
  Moves-IsTidy (stays r) t = t

  pub Traces-IsTidy : {r q : Registry} {ids : List ℕ} → Traces r q ids → IsTidy r → IsTidy q
  Traces-IsTidy still t = t
  Traces-IsTidy (reports ts m) t = Moves-IsTidy m (Traces-IsTidy ts t)
  Traces-IsTidy (unreported ts m) t = Moves-IsTidy m (Traces-IsTidy ts t)

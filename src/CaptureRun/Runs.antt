-- ===== src/CaptureRun/Runs.antt =====
-- Sequences of the operations of a capture run, each of which may fail half-way.
use duegood.Base.{
  ℕ, ◌+◌, ◌<◌, ◌≤◌, ◌≡◌, Option, none, some, List, [], ◌∷◌, Bytes, All, ok, err, arith,
}
use duegood.CaptureRun.State.{IoError, Attempt, AttemptFile, RunCounter, started}
use duegood.CaptureRun.Disk.{Serde, World, read_counter, read_attempt_file}
use duegood.CaptureRun.Guard.{Archive, last_id, begin, fail, complete}
use duegood.CaptureRun.Effects.{fail-counter, complete-counter}
use duegood.CaptureRun.Storage.{IsFaithful, u64_mod, stored_id}
use duegood.CaptureRun.Order.{
  IsOrdered, begin-le, begin-IsOrdered, fail-IsOrdered, complete-IsOrdered,
}
use duegood.CaptureRun.Begin.{begin_next, begin-goes}

-- a strictly falling list below a bound
abbrev pub FallsBelow : ℕ → List ℕ → Type 0
FallsBelow b [] = Unit
FallsBelow b (x ∷ xs) = (x < b) × FallsBelow x xs

FallsBelow-le : (b c : ℕ) (xs : List ℕ) → b ≤ c → FallsBelow b xs → FallsBelow c xs
FallsBelow-le b c [] h f = tt
FallsBelow-le b c (x ∷ xs) h (k, f) = (omega arith, f)

module _ (serde : Serde) (archive : Archive) where
  open serde use {Text}

  -- The environment calls the operations one after the other. A step that gives out an
  -- identifier is a `begin` that succeeds.
  pub data Step (w : World Text) : World Text → Option ℕ → Type 0 where
    begins : {a : Attempt} → (begin serde w).0 ≡ ok a → Step w (begin serde w).1 (some a.run_id)
    stumbles : {e : IoError} → (begin serde w).0 ≡ err e → Step w (begin serde w).1 none
    fails : (id : ℕ) → Step w (fail serde id w).1 none
    completes : (id : ℕ) (g d : Bytes) (u : ℕ) → Step w (complete serde archive id g d u w).1 none

  -- The identifiers that a sequence of steps has given out, the latest first.
  pub data Runs (w : World Text) : World Text → List ℕ → Type 0 where
    none_yet : Runs w w []
    gives :
        {w' w'' : World Text} {ids : List ℕ} {id : ℕ}
        → Runs w w' ids
        → Step w' w'' (some id)
        → Runs w w'' (id ∷ ids)
    passes :
        {w' w'' : World Text} {ids : List ℕ} → Runs w w' ids → Step w' w'' none → Runs w w'' ids

  module _ (faithful : IsFaithful serde) where
    -- what a step does to the stored counter
    abbrev Advances : World Text → World Text → Option ℕ → Type 0
    Advances w w' none = stored_id serde w.counter ≤ stored_id serde w'.counter
    Advances w w' (some id) =
        (id ≡ stored_id serde w.counter + 1) × (stored_id serde w'.counter ≡ id)

    Step-Advances : {w w' : World Text} {o : Option ℕ} → Step w w' o → Advances w w' o
    Step-Advances {w} (begins h) =
        let (e, _, c) = begin_next serde faithful w h in ground (arith, e, c)
    Step-Advances {w} (stumbles h) = begin-le serde faithful w
    Step-Advances {w} (fails id) = rw fail-counter (omega arith)
    Step-Advances {w} (completes id g d u) = rw complete-counter (omega arith)

    -- Over any sequence of `begin`, `fail` and `complete`, whatever fails in them, the identifiers
    -- given out rise, each is above the counter stored before and none above the one stored after,
    -- serde_json being faithful.
    pub Runs-fresh :
        {w w' : World Text} {ids : List ℕ}
        → Runs w w' ids
        → FallsBelow (stored_id serde w'.counter + 1) ids
          × All (λ id. stored_id serde w.counter < id) ids
          × (stored_id serde w.counter ≤ stored_id serde w'.counter)
    Runs-fresh none_yet = (tt, tt, omega arith)
    Runs-fresh (gives r s) =
        let (f, a, le) = Runs-fresh r in
        let (e, k) = Step-Advances s in ((omega arith, rw e f), (omega arith, a), omega arith)
    Runs-fresh (passes r s) =
        let (f, a, le) = Runs-fresh r in
        let k = Step-Advances s in (FallsBelow-le _ _ _ (omega arith) f, a, omega arith)

    Step-IsOrdered :
        {w w' : World Text} {o : Option ℕ} → Step w w' o → IsOrdered serde w → IsOrdered serde w'
    Step-IsOrdered {w} (begins h) i = begin-IsOrdered serde faithful w i
    Step-IsOrdered {w} (stumbles h) i = begin-IsOrdered serde faithful w i
    Step-IsOrdered {w} (fails id) i = fail-IsOrdered serde faithful id w i
    Step-IsOrdered {w} (completes id g d u) i =
        complete-IsOrdered serde faithful archive id g d u w i

    -- From a store whose status is not ahead of its counter, any sequence of steps, whatever fails in
    -- them, leads to a store of which the same is true, serde_json being faithful.
    pub Runs-IsOrdered :
        {w w' : World Text} {ids : List ℕ} → Runs w w' ids → IsOrdered serde w → IsOrdered serde w'
    Runs-IsOrdered none_yet i = i
    Runs-IsOrdered (gives r s) i = Step-IsOrdered s (Runs-IsOrdered r i)
    Runs-IsOrdered (passes r s) i = Step-IsOrdered s (Runs-IsOrdered r i)

    -- After any steps from a store whose status is not ahead of its counter, if the two files can be
    -- read, the counter is not exhausted and the writes succeed, `begin` returns the next run,
    -- serde_json being faithful.
    pub begin_recovers :
        {w w' : World Text} {ids : List ℕ} (c : Option RunCounter) (o : Option AttemptFile)
        → IsOrdered serde w
        → Runs w w' ids
        → read_counter serde w'.counter ≡ ok c
        → read_attempt_file serde w'.attempt ≡ ok o
        → last_id c + 1 < u64_mod
        → w'.outcomes ≡ []
        → (begin serde w').0 ≡ ok (started (last_id c + 1))
    begin_recovers c o i r hc ho h e = begin-goes serde _ c o (Runs-IsOrdered r i) hc ho h e

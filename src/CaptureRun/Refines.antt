-- ===== src/CaptureRun/Refines.antt =====
-- The operations of src-tauri/src/capture_run.rs refine the moves of a registry, whatever becomes
-- of their writes.
use duegood.Base.{ℕ, ◌<◌, ◌≡◌, Option, none, some, List, ok}
use duegood.CaptureRun.State.{Attempt}
use duegood.CaptureRun.Disk.{Serde, World}
use duegood.CaptureRun.Guard.{Archive, begin}
use duegood.CaptureRun.Storage.{IsFaithful, u64_mod}
use duegood.CaptureRun.Begin.{begin_next, begin-ok}
use duegood.CaptureRun.Runs.{
  Step, begins, stumbles, fails, completes, Runs, none_yet, gives, passes,
}
use duegood.CaptureRun.Registry.{
  Registry, Moves, opens, Traces, still, reports, unreported, IsTidy, Traces-IsTidy,
}
use duegood.CaptureRun.View.{view, view_of}
use duegood.CaptureRun.Simulated.{begin-view, fail-view, complete-view}

module _ (serde : Serde) (archive : Archive) (faithful : IsFaithful serde) where
  open serde use {Text}

  -- The users of `complete` are 64-bit.
  abbrev Fits : {w w' : World Text} {o : Option ℕ} → Step serde archive w w' o → Type 0
  Fits (completes id g d u) = u < u64_mod
  Fits (begins h) = Unit
  Fits (stumbles h) = Unit
  Fits (fails id) = Unit

  abbrev AllFit : {w w' : World Text} {ids : List ℕ} → Runs serde archive w w' ids → Type 0
  AllFit none_yet = Unit
  AllFit (gives r s) = AllFit r × Fits s
  AllFit (passes r s) = AllFit r × Fits s

  begins-Moves :
      (w : World Text) {a : Attempt}
      → (begin serde w).0 ≡ ok a
      → Moves archive (view serde w) (view serde (begin serde w).1) (some a.run_id)
  unfolding view
  begins-Moves w h =
      let (e, c, i) = begin_next serde faithful w h in
      let (_, lt, _, _) = begin-ok serde w h in
      rw (view_of serde (begin serde w).1 i (rw e at c), e) (opens _ _ lt)

  Step-Traces :
      {r : Registry} {ids : List ℕ} {w w' : World Text} (s : Step serde archive w w' none)
      → Fits s
      → IsTidy (view serde w)
      → Traces archive r (view serde w) ids
      → Traces archive r (view serde w') ids
  Step-Traces (stumbles h) b t ts = begin-view serde archive faithful _ t ts
  Step-Traces (fails id) b t ts = unreported ts (fail-view serde archive faithful _ id t)
  Step-Traces (completes id g d u) b t ts =
      unreported ts (complete-view serde archive faithful _ id g d u b t)

  -- Every sequence of begin, fail and complete, whatever fails in them, is a sequence of moves of
  -- the registry that the store stands for, with the same identifiers given out, where the
  -- current attempt is at first of a size that is sure to fit its file (IsCompact) and the users
  -- given are 64-bit, serde_json being faithful.
  pub Runs-Traces :
      {w w' : World Text} {ids : List ℕ} (r : Runs serde archive w w' ids)
      → AllFit r
      → IsTidy (view serde w)
      → Traces archive (view serde w) (view serde w') ids
  Runs-Traces none_yet f t = still
  Runs-Traces (gives r (begins h)) (f, g) t = reports (Runs-Traces r f t) (begins-Moves _ h)
  Runs-Traces (passes r s) (f, g) t =
      let ts = Runs-Traces r f t in Step-Traces s g (Traces-IsTidy archive ts t) ts

-- ===== src/CaptureRun/RegistryExamples.antt =====
-- The registry of a concrete store.
use duegood.Base.{[], ◌∷◌, arith}
use duegood.CaptureRun.State.{acceptable, acceptable_counter}
use duegood.CaptureRun.Disk.{read_counter, read_attempt_file}
use duegood.CaptureRun.Guard.{read_attempt_consistent, begin, fail}
use duegood.CaptureRun.Storage.{stored_id}
use duegood.CaptureRun.Begin.{started-IsCompact}
use duegood.CaptureRun.Runs.{begins, fails, none_yet, gives, passes}
use duegood.CaptureRun.Registry.{Traces, IsTidy, registry-IsTidy}
use duegood.CaptureRun.View.{view}
use duegood.CaptureRun.Refines.{Runs-Traces}
use duegood.CaptureRun.Examples.{
  documents, documents-faithful, archive, first_running, running-begins,
}

running-IsTidy : IsTidy (view documents first_running)
unfolding view read_attempt_consistent read_counter read_attempt_file acceptable acceptable_counter
    stored_id
running-IsTidy = registry-IsTidy (started-IsCompact 1 (omega arith))

-- A second run is begun over the first, and given up.
Runs-Traces_example :
    Traces archive
      (view documents first_running)
      (view documents (fail documents 2 (begin documents first_running).1).1)
      (2 ∷ [])
Runs-Traces_example =
    Runs-Traces documents archive documents-faithful
      (passes (gives none_yet (begins running-begins)) (fails 2)) ((tt, tt), tt) running-IsTidy

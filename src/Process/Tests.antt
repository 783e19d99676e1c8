-- ===== src/Process/Tests.antt =====
-- Runs of the processes, and instances of their theorems.
use xlib.Common.{true, none, some, [], ◌∷◌, ◌++◌}
use xlib.FilePath.{posix, windows}
use xlib.Ledger.{Resource, memory}
use xlib.Ledger.Triple.{Triple}
use xlib.Process.Balance.{process_holdings}
use xlib.Process.Start.{no_options, process_start}
use xlib.Process.Start.Balance.{process_start-Balanced}
use xlib.Process.Pipeline.{run_pipeline}
use xlib.Process.Pipeline.Balance.{run_pipeline-Balanced}

abbrev other : Resource
other = record { kind = memory; id = 9 }

process_start-Balanced_example :
    Triple
      (other ∷ [])
      (other ∷ [])
      (λ p. process_holdings p ++ other ∷ [])
      (process_start windows true
        (some (record no_options { stdin_path = some []; environment = some [] })))
process_start-Balanced_example =
    process_start-Balanced windows true
      (some (record no_options { stdin_path = some []; environment = some [] })) (other ∷ [])

run_pipeline-Balanced_example :
    Triple (other ∷ []) (other ∷ []) (λ _. other ∷ []) (run_pipeline posix 2 true none)
run_pipeline-Balanced_example = run_pipeline-Balanced posix 2 true none (other ∷ [])

-- ===== src/Wrapper/Tests.antt =====
-- Two files that are opened, moved and closed.
use xlib.Common.{none, List, [], ◌∷◌}
use xlib.FilePath.{posix}
use xlib.Ledger.{Resource, memory}
use xlib.Ledger.Triple.{Triple}
use xlib.Wrapper.{Op, declares, opens, closes, moves, constructs, run_files}
use xlib.Wrapper.Balance.{wrappers-Freed}

abbrev other : Resource
other = record { kind = memory; id = 9 }

abbrev program : List Op
program =
    declares
    ∷ opens 0 1
    ∷ declares
    ∷ opens 1 2
    ∷ moves 0 1
    ∷ moves 0 0
    ∷ constructs 0
    ∷ closes 1
    ∷ []

wrappers-Freed_example : Triple (other ∷ []) [] (λ _. other ∷ []) (run_files posix (λ k. k) program)
wrappers-Freed_example =
    (wrappers-Freed posix (λ k. k) (λ k. k) (λ k. none) program (other ∷ []) []).0

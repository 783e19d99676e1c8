-- ===== src/Hooks/Tests.antt =====
-- A program that logs before, behind and between two hooks, and changes its allocator.
use xlib.Common.{◌≡◌, refl, none, some, List, [], ◌∷◌, true}
use xlib.Clock.{time_ns}
use xlib.Hooks.{
  default_function, custom, Allocator, Seen, timestamp_of, logged, diagnosed, traced, log_hook_is,
  malloc, realloc, free, allocated_by, freed_by, initial, HookCall, sets_log, sets_diag, sets_trace,
  gets_log, emits_log, emits_diag, emits_trace, sets_allocator, resets_allocator, allocs, reallocs,
  frees, run_hooks,
}
use xlib.Hooks.Latest.{all_seen, run_hooks_lem}

abbrev pool : Allocator
pool = record { alloc = custom 1; realloc = default_function; free = custom 2; user_data = 9 }

abbrev program : List HookCall
program =
    emits_log 1 none (some (65 ∷ []))
    ∷ sets_log (some 7) 3
    ∷ emits_log 1 none (some (65 ∷ []))
    ∷ emits_log 1 none none
    ∷ sets_log (some 8) 4
    ∷ emits_log 2 (some (66 ∷ [])) (some (65 ∷ []))
    ∷ gets_log
    ∷ sets_log none 0
    ∷ emits_log 2 none (some (65 ∷ []))
    ∷ sets_diag (some 5) 6
    ∷ emits_diag (some (66 ∷ [])) 0 none
    ∷ emits_diag (some (66 ∷ [])) 22 none
    ∷ sets_trace (some 5) 6
    ∷ emits_trace 1 (some (67 ∷ [])) (0, 2, 500)
    ∷ allocs 16
    ∷ sets_allocator (some pool)
    ∷ allocs 16
    ∷ reallocs 100 32
    ∷ frees 100
    ∷ resets_allocator
    ∷ frees 100
    ∷ []

abbrev seen : List Seen
seen =
    logged 7 1 (120 ∷ 108 ∷ 105 ∷ 98 ∷ []) (65 ∷ []) 3
    ∷ logged 8 2 (66 ∷ []) (65 ∷ []) 4
    ∷ log_hook_is (some 8)
    ∷ diagnosed 5 (66 ∷ []) 22 none 6
    ∷ traced 5 1 (67 ∷ []) (timestamp_of (time_ns true (0, 2, 500))) 6
    ∷ malloc 16
    ∷ allocated_by 1 16 9
    ∷ realloc 100 32
    ∷ freed_by 2 100 9
    ∷ free 100
    ∷ []

messages_and_blocks : all_seen [] program ≡ seen
messages_and_blocks = refl

run_hooks_lem_example : run_hooks initial program ≡ all_seen [] program
run_hooks_lem_example = run_hooks_lem program

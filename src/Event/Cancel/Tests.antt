-- ===== src/Event/Cancel/Tests.antt =====
-- A loop that waits, and a request to stop.
use xlib.Common.{ℕ, ◌<◌, ◌≡◌, refl, ◌⊎◌, true, false, some, arith}
use xlib.Event.Cancel.{
  Shared, waiting, draining, LoopMove, clears, enters, waits, wakes, Reach, start, loop_moves,
  other_moves, requests, sends, moves_left, wake_callback, queued, cancel-Heard, cancel_ends,
}

abbrev shared : (queue unsent : ℕ) → Shared
shared queue unsent = record { stop_requested = true; queue = queue; unsent = unsent; failed = 0 }

-- Behind the test of the loop, another thread asks for the end and sends its datagram; then the loop waits.
requested-Reach : Reach (shared 1 0) waiting
requested-Reach =
    loop_moves
      (other_moves
        (other_moves
          (loop_moves
            (loop_moves
              (start (record { stop_requested = false; queue = 0; unsent = 0; failed = 0 }) refl
                refl)
              clears)
            (enters refl))
          requests)
        (sends 0 refl))
      waits

cancel-Heard_example : LoopMove (shared 1 0) waiting (shared 1 0) draining ⊎ (0 < 0)
cancel-Heard_example = cancel-Heard (shared 1 0) requested-Reach refl refl

cancel_ends_example :
    ((true ≡ true) × (moves_left (shared 1 0) draining < moves_left (shared 1 0) waiting))
    × (wake_callback 2 (queued 1 λ n. 1) 0 ≡ some 0)
cancel_ends_example =
    cancel_ends (shared 1 0) (shared 1 0) waiting draining (λ n. 1) (wakes (omega arith))
      (λ e. ground (arith, e)) refl λ n e. absurd (omega (arith, e))

-- ===== src/Semaphore/Tests.antt =====
-- Two threads on one semaphore.
use xlib.Common.{ℕ, ◌≡◌, refl, true, some, [], ◌∷◌, arith}
use xlib.Semaphore.{
  Shared, Pc, idle, sleeping, waking, signalling, WaitMove, PostMove, System, Step, in_wait,
  in_post, signal, Reach, start, later, call_wait, sleep, room, call_post, add,
}
use xlib.Semaphore.Invariant.{Inv, Reach-Inv}
use xlib.Semaphore.Counter.{added, counter_run, Reach-counter_run}

abbrev shared : (count posted : ℕ) → Shared
shared count posted = record { locked = true; count = count; posted = posted; taken = 0; lost = 0 }

-- The first thread waits and sleeps; the second one posts, and has not signalled yet.
abbrev posted_once : System
posted_once = record { threads = sleeping ∷ signalling ∷ []; shared = shared 1 1 }

abbrev posted_once-Reach : Reach 2 0 posted_once
posted_once-Reach =
    later
      (later
        (later
          (later
            (later
              (later (later start (in_wait [] (idle ∷ []) call_wait))
                (in_wait [] (idle ∷ []) (WaitMove.lock refl)))
              (in_wait [] (idle ∷ []) (sleep refl)))
            (in_post (sleeping ∷ []) [] call_post))
          (in_post (sleeping ∷ []) [] (PostMove.lock refl)))
        (in_post (sleeping ∷ []) [] (room (λ e. absurd (omega (arith, e))))))
      (in_post (sleeping ∷ []) [] add)

Reach-Inv_example : Inv 0 (sleeping ∷ signalling ∷ []) (shared 1 1)
Reach-Inv_example = Reach-Inv 2 0 posted_once (omega arith) posted_once-Reach

Reach-counter_run_example : counter_run 0 (added ∷ []) ≡ some 1
Reach-counter_run_example = Reach-counter_run 2 0 posted_once (omega arith) posted_once-Reach

-- The signal wakes up the thread that sleeps.
signal_wakes :
    Step posted_once (record { threads = waking ∷ Pc.leaving 0 ∷ []; shared = shared 1 1 })
signal_wakes = signal (sleeping ∷ []) [] [] (Pc.leaving 0 ∷ []) refl

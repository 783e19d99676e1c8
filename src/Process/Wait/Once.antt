-- ===== src/Process/Wait/Once.antt =====
-- A child is waited for once, and what it reported is reported again.
use xlib.Common.{
  ℕ, zero, suc, ◌+◌, ◌*◌, ◌≤◌, ◌<◌, ◌≡◌, ◌≢◌, ◌⊎◌, inl, inr, refl, subst, Bool, true, false, Option,
  none, some, ◌==◌, eintr, ℤ, pos, arith,
}
use xlib.Ledger.{Oracle, World, Result, ok, err, fault, counted, bind_result, ask}
use xlib.Process.{Process}
use xlib.Process.Wait.{
  exit_status, waitpid_loop, completed_with, wait_for_child, wait_unless, process_wait, poll_child,
  poll_unless, process_poll, polled,
}

-- The loop returns the first answer that is not EINTR, after as many calls: where that answer comes
-- within the fuel, the loop has ended.
pub waitpid_loop_lem :
    (o : Oracle) (w : World) (fuel k : ℕ)
    → k < fuel
    → ((j : ℕ) → j < k → o.status (w.calls + j) ≡ eintr)
    → o.status (w.calls + k) ≢ eintr
    → waitpid_loop fuel o w ≡ ask o (record w { calls = w.calls + k })
unfolding waitpid_loop
waitpid_loop_lem o w zero k h e n = absurd (omega arith)
waitpid_loop_lem o w (suc fuel) zero h e n = ground arith
waitpid_loop_lem o w (suc fuel) (suc k) h e n = rw (
  test,
  waitpid_loop,
  waitpid_loop_lem o (counted w) fuel k (omega (arith, h)) before here,
  shift k,
)
  where
    shift : (j : ℕ) → w.calls + 1 + j ≡ w.calls + suc j
    shift j = omega arith

    before : (j : ℕ) → j < k → o.status (w.calls + 1 + j) ≡ eintr
    before j l = rw (shift j) (e (suc j) (omega (arith, l)))

    here : o.status (w.calls + 1 + k) ≢ eintr
    here = rw (shift k) n

    test : (o.status (w.calls) == eintr) ≡ true
    test = rw (subst (λ x. o.status x ≡ eintr) {y = w.calls} (omega arith) (e 0 (omega arith))) refl

pub exit_status-roundtrip :
    (n core : ℕ)
    → core ≤ 1
    → (n < 256 → exit_status (n * 256) ≡ pos n)
      × (1 ≤ n → n < 127 → exit_status (n + core * 128) ≡ pos (128 + n))
unfolding exit_status
exit_status-roundtrip n core h = (λ k. ground arith, λ k l. ground arith)

-- What a program gives where it succeeds.
abbrev Gives : {A : Type 0} → (A → Type 0) → Result A × World → Type 0
Gives P (ok a, v) = P a
Gives P (err e, v) = Unit
Gives P (fault, v) = Unit

wait-Gives :
    (t : Bool) (fuel : ℕ) (p : Process) (o : Oracle) (w : World)
    → p.waited ≡ t
    → Gives (λ q. q.waited ≡ true) (wait_unless t fuel p o w)
unfolding wait_unless
wait-Gives true fuel p o w e = e
wait-Gives false fuel p o w e = after (wait_for_child fuel (p.child) o w)
  where
    after :
        (r : Result ℤ × World)
        → Gives
            (λ q. q.waited ≡ true)
            (bind_result r o (λ code o w. (ok (completed_with p code), w)))
    after (ok a, v) = refl
    after (err n, v) = tt
    after (fault, v) = tt

poll-Gives :
    (t : Bool) (fuel : ℕ) (p : Process) (o : Oracle) (w : World)
    → p.waited ≡ t
    → Gives (λ q. q.1.waited ≡ q.0) (poll_unless t fuel p o w)
unfolding poll_unless
poll-Gives true fuel p o w e = e
poll-Gives false fuel p o w e = after (poll_child fuel (p.child) o w)
  where
    after :
        (r : Result (Option ℤ) × World)
        → Gives (λ q. q.1.waited ≡ q.0) (bind_result r o (λ answer o w. (ok (polled p answer), w)))
    after (ok none, v) = e
    after (ok (some code), v) = refl
    after (err n, v) = tt
    after (fault, v) = tt

-- The later calls on a process that has been waited for.
abbrev pub Settled : Process → Type 0
Settled q =
    (q.waited ≡ true)
    × ((fuel : ℕ) (o : Oracle) (w : World)
        → (process_wait fuel q o w ≡ (ok q, w)) × (process_poll fuel q o w ≡ (ok (true, q), w)))

waited-Settled : (q : Process) → q.waited ≡ true → Settled q
unfolding process_wait process_poll wait_unless poll_unless
waited-Settled q e = (e, λ fuel o w. (rw e refl, rw e refl))

-- Once `x_process_wait` has succeeded, or `x_process_poll` has said that the child has completed, every
-- later wait and poll succeeds without a call of the system, reports completion and the same exit
-- code, and leaves the process as it is.
pub wait_once :
    (fuel : ℕ) (p q : Process) (o : Oracle) (w v : World)
    → (process_wait fuel p o w ≡ (ok q, v)) ⊎ (process_poll fuel p o w ≡ (ok (true, q), v))
    → Settled q
unfolding process_wait process_poll
wait_once fuel p q o w v (inl h) =
    waited-Settled q
      (subst (Gives (λ q. q.waited ≡ true)) h (wait-Gives (p.waited) fuel p o w refl))
wait_once fuel p q o w v (inr h) =
    waited-Settled q
      (subst (Gives (λ q. q.1.waited ≡ q.0)) h (poll-Gives (p.waited) fuel p o w refl))

-- ===== src/Process/Wait/Balance.antt =====
-- Waiting for a child takes nothing and gives nothing back.
use xlib.Common.{ℕ, zero, suc, Bool, true, false, List, ◌==◌, eintr}
use xlib.Ledger.{Resource, counted}
use xlib.Ledger.Triple.{
  Triple, on_test, Triple-bind, Triple-call, Triple-ask, Triple-pure, Triple-translated,
}
use xlib.Process.{Process, Child, posix_child, windows_child}
use xlib.Process.Wait.{waitpid_loop, wait_for_child, wait_unless, process_wait}

waitpid_loop-Triple :
    {pre : List Resource} (fuel : ℕ) → Triple pre pre (λ _. pre) (waitpid_loop fuel)
unfolding waitpid_loop
waitpid_loop-Triple zero = record { run = λ o w e. e }
waitpid_loop-Triple {pre = pre} (suc fuel) = record {
  run = λ o w e.
      on_test pre (λ (_ : ℕ). pre) (o.status (w.calls) == eintr) _ _
        ((waitpid_loop-Triple {pre = pre} fuel).run o (counted w) e) (Triple-ask.run o w e);
}

wait_for_child-Triple :
    {pre : List Resource} (fuel : ℕ) (child : Child)
    → Triple pre pre (λ _. pre) (wait_for_child fuel child)
unfolding wait_for_child
wait_for_child-Triple fuel (posix_child pid) =
    Triple-bind (waitpid_loop-Triple fuel) λ _. Triple-pure
wait_for_child-Triple fuel (windows_child process thread) =
    Triple-bind (Triple-translated _ Triple-call)
      λ _. Triple-bind (Triple-translated _ Triple-ask) λ _. Triple-pure

wait_unless-Triple :
    {pre : List Resource} (t : Bool) (fuel : ℕ) (p : Process)
    → Triple pre pre (λ _. pre) (wait_unless t fuel p)
unfolding wait_unless
wait_unless-Triple true fuel p = Triple-pure
wait_unless-Triple false fuel p =
    Triple-bind (wait_for_child-Triple fuel (p.child)) λ _. Triple-pure

pub process_wait-Triple :
    {pre : List Resource} (fuel : ℕ) (p : Process) → Triple pre pre (λ _. pre) (process_wait fuel p)
unfolding process_wait
process_wait-Triple fuel p = wait_unless-Triple (p.waited) fuel p

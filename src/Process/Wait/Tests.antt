-- ===== src/Process/Wait/Tests.antt =====
-- A child that is waited for, and instances of the theorems.
use xlib.Common.{◌≡◌, inl, refl, false, [], ◌==◌, if◌then◌else◌, eintr, pos}
use xlib.Ledger.{Oracle, World, memory, ok, ask}
use xlib.Process.{Process, posix_child}
use xlib.Process.Wait.{
  exit_status, waitpid_loop, process_wait, wait_unless, wait_for_child, completed_with,
}
use xlib.Process.Wait.Once.{Settled, wait_once}

-- Every call of the system succeeds, apart from the first one, which is interrupted; each gives the
-- status word of a child that has exited with 3.
abbrev system : Oracle
system = record { status = λ k. if k == 0 then eintr else 0; value = λ k. 768 }

abbrev quiet : World
quiet = record { held = []; calls = 0 }

abbrev child : Process
child = record {
  created = record { kind = memory; id = 1 };
  child = posix_child 77;
  waited = false;
  exit_code = pos 0;
}

wait_runs :
    process_wait 2 child system quiet
    ≡ (ok (completed_with child (pos 3)), record { held = []; calls = 2 })
unfolding process_wait wait_unless wait_for_child waitpid_loop ask exit_status
wait_runs = refl

wait_once_example : Settled (completed_with child (pos 3))
wait_once_example =
    wait_once 2 child (completed_with child (pos 3)) system quiet (record { held = []; calls = 2 })
      (inl wait_runs)

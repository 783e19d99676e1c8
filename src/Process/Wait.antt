-- ===== src/Process/Wait.antt =====
-- Waiting for a child: `x_process_wait`, `x_process_poll` and `x_process_terminate` of
-- src/x_process.c.
pub mod Once
pub mod Balance
mod Tests
use xlib.Common.{
  ℕ, zero, suc, ◌+◌, ◌/◌, ◌%◌, ◌≡◌, Bool, true, false, Option, none, some, ◌^◌, ltb, ◌==◌, ◌&&◌,
  if◌then◌else◌, eintr, ℤ, pos, negsuc, to_int,
}
use xlib.FilePath.{Platform, posix, windows}
use xlib.Ledger.{M, Oracle, World, Result, counted, ◌>>=◌, ◌>>◌, call, ask, translated, pure, fail}
use xlib.Process.{error_from_windows, Child, posix_child, windows_child, Process}

-- `x_process_set_exit_status`, of the status word of Linux: its low seven bits are the signal, 0 for
-- a child that has exited and 127 for one that is stopped; the next byte is the exit status.
pub exit_status : ℕ → ℤ
exit_status status =
    let signal = status % 128 in
    if signal == 0
    then pos (status / 256 % 256)
    else if signal == 127
    then negsuc 0
    else pos (128 + signal)

-- `do { result = waitpid(...); } while (result < 0 && errno == EINTR);`, at most `fuel` times.
pub waitpid_loop : ℕ → M ℕ
waitpid_loop zero o w = (Result.err eintr, w)
waitpid_loop (suc fuel) o w =
    let again = waitpid_loop fuel o (counted w) in
    if o.status (w.calls) == eintr then again else ask o w

-- The child is not asked about again.
abbrev pub completed_with : Process → ℤ → Process
completed_with process code = record process { waited = true; exit_code = code }

wait_for_child : ℕ → Child → M ℤ
wait_for_child fuel (posix_child pid) = do status ← waitpid_loop fuel; pure (exit_status status)
wait_for_child fuel (windows_child process thread) = do
  translated error_from_windows call
  code ← translated error_from_windows ask
  pure (to_int (code % 2 ^ 32))

wait_unless : Bool → ℕ → Process → M Process
wait_unless true fuel process = pure process
wait_unless false fuel process = do
  code ← wait_for_child fuel (process.child)
  pure (completed_with process code)

-- `x_process_wait`, of a process that is not NULL: the process afterwards, whose `exit_code` is what
-- the call reports.
pub process_wait : ℕ → Process → M Process
process_wait fuel process = wait_unless (process.waited) fuel process

-- What `waitpid` with `WNOHANG` answers: 0, or the status word of the child that is gone.
abbrev pub gone : ℕ → Option ℤ
gone zero = none
gone (suc status) = some (exit_status status)

-- What `WaitForSingleObject` with no time to wait answers when it does not fail: WAIT_TIMEOUT, or
-- WAIT_OBJECT_0, after which the exit code is asked for.
code_unless : Bool → M (Option ℤ)
code_unless true = pure none
code_unless false = do
  code ← translated error_from_windows ask
  pure (some (to_int (code % 2 ^ 32)))

poll_child : ℕ → Child → M (Option ℤ)
poll_child fuel (posix_child pid) = do answer ← waitpid_loop fuel; pure (gone answer)
poll_child fuel (windows_child process thread) = do
  answer ← translated error_from_windows ask
  code_unless (answer == 258)

abbrev polled : Process → Option ℤ → Bool × Process
polled process none = (false, process)
polled process (some code) = (true, completed_with process code)

poll_unless : Bool → ℕ → Process → M (Bool × Process)
poll_unless true fuel process = pure (true, process)
poll_unless false fuel process = do
  answer ← poll_child fuel (process.child)
  pure (polled process answer)

-- `x_process_poll`, of pointers that are not NULL: whether the child has completed, and the process
-- afterwards.
pub process_poll : ℕ → Process → M (Bool × Process)
process_poll fuel process = poll_unless (process.waited) fuel process

-- `x_process_terminate`, of a process that is not NULL.
pub process_terminate : Platform → M (Unit {0})
process_terminate posix = call
process_terminate windows = translated error_from_windows call

-- ===== src/Process/Pipeline.antt =====
-- `x_process_run_pipeline` of src/x_process.c.
pub mod Balance
use xlib.Common.{ℕ, Bool, true, false, Option, none, some, einval, ℤ, is_zero, if◌then◌else◌}
use xlib.FilePath.{Platform}
use xlib.Ledger.{M, Status, gave, gave_error, tried, ◌>>=◌, ◌>>◌, guard, ignored, pure, fail}
use xlib.Process.{Pipe, Process, Options, pipe_create, pipe_close, process_destroy}
use xlib.Process.Start.{no_options, process_start}
use xlib.Process.Wait.{process_wait}

-- The options of the first process: its output is the pipe.
pub first_options : Option Options → Pipe → Options
first_options none pipe_write = record no_options { stdout_pipe = some pipe_write }
first_options (some options) pipe_write = record no_options {
  working_directory = options.working_directory;
  stdin_path = options.stdin_path;
  stderr_path = options.stderr_path;
  environment = options.environment;
  stdin_pipe = options.stdin_pipe;
  stderr_pipe = options.stderr_pipe;
  stdout_pipe = some pipe_write;
}

-- The options of the second process: its input is the pipe.
pub second_options : Option Options → Pipe → Options
second_options none pipe_read = record no_options { stdin_pipe = some pipe_read }
second_options (some options) pipe_read = record no_options {
  working_directory = options.working_directory;
  stdout_path = options.stdout_path;
  stderr_path = options.stderr_path;
  environment = options.environment;
  stdout_pipe = options.stdout_pipe;
  stderr_pipe = options.stderr_pipe;
  stdin_pipe = some pipe_read;
}

-- `first`, `second` and `error` once the processes have been started.
pub data Started : Type 0 where
  both_started : (first second : Process) → Started
  first_started : (first : Process) → ℕ → Started
  none_started : ℕ → Started

abbrev started_with : Process → Status Process → Started
started_with first (gave second) = both_started first second
started_with first (gave_error e) = first_started first e

-- The second process is started only where the first one has been.
start_second : Platform → Options → Status Process → M Started
start_second platform options (gave first) = do
  second ← tried (process_start platform true (some options))
  pure (started_with first second)
start_second platform options (gave_error e) = pure (none_started e)

-- What is done when one of the two has not been started.
check_started : ℕ → Started → M (Process × Process)
check_started fuel (both_started first second) = pure (first, second)
check_started fuel (first_started first e) = do
  ignored
  _ ← tried (process_wait fuel first)
  process_destroy first
  fail e
check_started fuel (none_started e) = fail e

-- The pipe is made, both processes are started, and both ends of the pipe are closed.
pub start_both : Platform → ℕ → Option Options → M (Process × Process)
start_both platform fuel options = do
  pipes ← pipe_create platform true
  first ← tried (process_start platform true (some (first_options options (pipes.1))))
  started ← start_second platform (second_options options (pipes.0)) first
  pipe_close (pipes.1)
  pipe_close (pipes.0)
  check_started fuel started

-- The exit code that is reported: that of the second process, unless it is 0.
abbrev pub reported : ℤ → ℤ → ℤ
reported first second = if is_zero second then first else second

conclude : Status Process → Status Process → M ℤ
conclude (gave first) (gave second) = pure (reported (first.exit_code) (second.exit_code))
conclude (gave first) (gave_error e) = fail e
conclude (gave_error e) second = fail e

-- Both processes are waited for, whether or not the first wait fails, and destroyed.
pub wait_both : ℕ → Process × Process → M ℤ
wait_both fuel both = do
  first ← tried (process_wait fuel (both.0))
  second ← tried (process_wait fuel (both.1))
  process_destroy (both.0)
  process_destroy (both.1)
  conclude first second

-- `x_process_run_pipeline`; `given` says that the two paths are not NULL.
pub run_pipeline : Platform → ℕ → Bool → Option Options → M ℤ
run_pipeline platform fuel given options = do
  guard given einval
  both ← start_both platform fuel options
  wait_both fuel both

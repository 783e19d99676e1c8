-- ===== src/Process/Start.antt =====
-- `x_process_start` of src/x_process.c in both builds, and the functions it is made of.
pub mod Balance
use xlib.Common.{
  ℕ, ◌+◌, ◌≡◌, Bool, true, false, not, ◌&&◌, ◌||◌, Option, none, some, List, [], ◌∷◌, ◌==◌, einval,
  pos, CString, length,
}
use xlib.FilePath.{Platform, posix, windows}
use xlib.Ledger.{
  Resource, M, process_handle, thread_handle, file_handle, ◌>>=◌, ◌>>◌, guard, call, ask, acquire,
  acquire_two, allocate, release, ◌or_after◌, translated, pure, optional, release_option,
}
use xlib.Process.{
  error_from_windows, Pipe, Child, posix_child, windows_child, Process, Options, is_some,
  redirected_twice,
}

-- `x_process_utf8_to_wide`, of pointers that are `given`: the number of characters, the memory, and
-- the conversion.
pub utf8_to_wide : Bool → M Resource
utf8_to_wide given = do
  guard given einval
  count ← translated error_from_windows ask
  converted ← allocate
  translated error_from_windows call or_after release converted
  pure converted

-- `x_process_build_command_line`: the quoted text is memory of its own while it is converted.
pub build_command_line : Bool → M Resource
build_command_line given = do
  guard given einval
  utf8_command ← allocate
  command_line ← utf8_to_wide true or_after release utf8_command
  release utf8_command
  pure command_line

-- A conversion for each string of the list, to count it and to write it.
convert_each : List CString → M (Unit {0})
convert_each [] = pure tt
convert_each (value ∷ environment) = do translated error_from_windows call; convert_each environment

-- `x_process_build_environment_block`, of an environment that is not NULL.
pub build_environment_block : List CString → M Resource
build_environment_block environment = do
  convert_each environment
  created ← allocate
  convert_each environment or_after release created
  pure created

-- `x_process_open_redirect`.
pub open_redirect : Bool → M Resource
open_redirect given = do
  guard given einval
  wide_path ← utf8_to_wide true
  handle ← translated error_from_windows (acquire file_handle) or_after release wide_path
  release wide_path
  pure handle

-- `x_process_duplicate_pipe_for_child`.
pub duplicate_pipe_for_child : Bool → M Resource
duplicate_pipe_for_child given = do
  guard given einval
  translated error_from_windows (acquire file_handle)

-- The handle of a standard stream: of a path, of a pipe, or none.
pub redirected : Option CString → Option Pipe → M (Option Resource)
redirected (some path) pipe = optional true (open_redirect true)
redirected none (some pipe) = optional true (duplicate_pipe_for_child true)
redirected none none = optional false (duplicate_pipe_for_child true)

converted_directory : Option CString → M (Option Resource)
converted_directory directory = optional (is_some directory) (utf8_to_wide true)

environment_block : Option (List CString) → M (Option Resource)
environment_block none = pure none
environment_block (some environment) = optional true (build_environment_block environment)

-- `free(environment_block); free(working_directory); free(command_line);`
free_texts : Option Resource → Option Resource → Resource → M (Unit {0})
free_texts block directory command_line = do
  release_option block
  release_option directory
  release command_line

-- The three handles of the child's streams are closed in their order, then the texts are freed.
close_streams : Option Resource → Option Resource → Option Resource → M (Unit {0}) → M (Unit {0})
close_streams stdin_handle stdout_handle stderr_handle rest = do
  release_option stdin_handle
  release_option stdout_handle
  release_option stderr_handle
  rest

-- The child is started with its streams, which are closed in this process whatever the outcome.
start_child :
    Resource
    → (stdin_handle stdout_handle stderr_handle : Option Resource) → M (Unit {0})
    → M Process
start_child created stdin_handle stdout_handle stderr_handle free_all = do
  handles ←
      translated error_from_windows (acquire_two process_handle thread_handle)
      or_after (do close_streams stdin_handle stdout_handle stderr_handle free_all; release created)
  close_streams stdin_handle stdout_handle stderr_handle free_all
  pure (record {
    created = created;
    child = windows_child (handles.0) (handles.1);
    waited = false;
    exit_code = pos 0;
  })

-- The streams of the options are opened; `free_all` frees the texts.
open_streams : Resource → Options → M (Unit {0}) → M Process
open_streams created options free_all = do
  stdin_handle ←
      redirected (options.stdin_path) (options.stdin_pipe) or_after (do free_all; release created)
  stdout_handle ←
      redirected (options.stdout_path) (options.stdout_pipe)
      or_after (do release_option stdin_handle; free_all; release created)
  stderr_handle ← redirected (options.stderr_path) (options.stderr_pipe) or_after (do
    release_option stdin_handle
    release_option stdout_handle
    free_all
    release created)
  start_child created stdin_handle stdout_handle stderr_handle free_all

-- The Windows build of `x_process_start`, once the memory of the process is there.
start_windows : Resource → Options → M Process
start_windows created options = do
  command_line ← build_command_line true or_after release created
  directory ←
      converted_directory (options.working_directory)
      or_after (do release command_line; release created)
  block ←
      environment_block (options.environment)
      or_after (do release_option directory; release command_line; release created)
  open_streams created options (free_texts block directory command_line)

-- The POSIX build of `x_process_start` in the parent: the vector of the child's arguments, and
-- `fork`.
start_posix : Resource → M Process
start_posix created = do
  child_arguments ← allocate or_after release created
  pid ← ask or_after (do release child_arguments; release created)
  release child_arguments
  pure (record { created = created; child = posix_child pid; waited = false; exit_code = pos 0 })

-- `options == NULL`.
abbrev pub no_options : Options
no_options = record {
  working_directory = none;
  stdin_path = none;
  stdout_path = none;
  stderr_path = none;
  environment = none;
  stdin_pipe = none;
  stdout_pipe = none;
  stderr_pipe = none;
}

abbrev pub options_or_none : Option Options → Options
options_or_none none = no_options
options_or_none (some options) = options

start_on : Platform → Resource → Options → M Process
start_on posix created options = start_posix created
start_on windows created options = start_windows created options

-- No stream of the options is redirected to a path and to a pipe at once.
redirected_once : Options → Bool
redirected_once options = not (
    redirected_twice (options.stdin_path) (options.stdin_pipe)
    || (redirected_twice (options.stdout_path) (options.stdout_pipe)
        || redirected_twice (options.stderr_path) (options.stderr_pipe)))

-- `x_process_start`; `given` says that `process` and `path` are not NULL.
pub process_start : Platform → Bool → Option Options → M Process
process_start platform given options = do
  guard given einval
  guard (redirected_once (options_or_none options)) einval
  created ← allocate
  start_on platform created (options_or_none options)

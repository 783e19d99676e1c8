-- ===== src/Process.antt =====
-- Child processes and pipes of src/x_process.c: the handles, what they are made of, and the calls
-- that take them and give them back.
pub mod Balance
pub mod Environment
pub mod Pipeline
pub mod Redirect
pub mod Search
pub mod Start
pub mod Transfer
pub mod Wait
mod Tests
use xlib.Common.{
  ℕ, ◌+◌, ◌≡◌, Bool, true, false, not, ◌&&◌, ◌||◌, Option, none, some, List, [], ◌∷◌, ◌==◌,
  if◌then◌else◌, einval, ℤ, pos, enoent, eacces, enomem, eio, CString,
}
use xlib.FilePath.{Platform, posix, windows}
use xlib.Ledger.{
  Resource, M, Status, gave, gave_error, fail, tried, Kind, memory, descriptor, read_end, write_end,
  process_handle, thread_handle, file_handle, ◌>>=◌, ◌>>◌, guard, call, ask, acquire, acquire_two,
  allocate, release, ignored, ◌or_after◌, translated, pure, optional, release_option,
}

-- `x_process_error_from_windows`.
pub error_from_windows : ℕ → ℕ
error_from_windows error =
    if error == 0
    then 0
    else if error == 2
    then enoent
    else if error == 3
    then enoent
    else if error == 5
    then eacces
    else if error == 87
    then einval
    else if error == 123
    then einval
    else if error == 8
    then enomem
    else if error == 14
    then enomem
    else eio

-- `struct x_pipe`: its memory, and the descriptor or the handle of one end.
pub record Pipe : Type 0 where
  pub created : Resource
  pub end : Resource

-- What `struct x_process` keeps of the child: its number, or the handles of `PROCESS_INFORMATION`.
pub data Child : Type 0 where
  posix_child : ℕ → Child
  windows_child : (process thread : Resource) → Child

-- `struct x_process` of a child that has been started.
pub record Process : Type 0 where
  pub created : Resource
  pub child : Child
  pub waited : Bool
  pub exit_code : ℤ

-- `x_process_options_t`.
pub record Options : Type 0 where
  pub working_directory : Option CString
  pub stdin_path : Option CString
  pub stdout_path : Option CString
  pub stderr_path : Option CString
  pub environment : Option (List CString)
  pub stdin_pipe : Option Pipe
  pub stdout_pipe : Option Pipe
  pub stderr_pipe : Option Pipe

abbrev pub is_some : {A : Type 0} → Option A → Bool
is_some none = false
is_some (some a) = true

-- A stream that is redirected to a path and to a pipe at once.
abbrev pub redirected_twice : Option CString → Option Pipe → Bool
redirected_twice path pipe = is_some path && is_some pipe

-- The pointer that a `calloc` whose failure is looked at later has given.
abbrev pub pointer_of : Status Resource → Option Resource
pointer_of (gave r) = some r
pointer_of (gave_error e) = none

-- The test of both pointers.
both_pointers : Option Resource → Option Resource → M (Resource × Resource)
both_pointers (some r) (some w) = pure (r, w)
both_pointers r w = do release_option r; release_option w; fail enomem

-- `pipe`, with the flags that are set after it, and `CreatePipe`.
take_ends : Platform → M (Resource × Resource)
take_ends posix = do ends ← acquire_two read_end write_end; ignored; ignored; pure ends
take_ends windows = translated error_from_windows (acquire_two read_end write_end)

-- `x_pipe_create`, of pointers that are `given` (not NULL): the end to read and the end to write.
pub pipe_create : Platform → Bool → M (Pipe × Pipe)
pipe_create platform given = do
  guard given einval
  first ← tried allocate
  second ← tried allocate
  created ← both_pointers (pointer_of first) (pointer_of second)
  ends ← take_ends platform or_after (do release (created.0); release (created.1))
  pure (record { created = created.0; end = ends.0 }, record { created = created.1; end = ends.1 })

-- `x_pipe_close`, of a pipe of `x_pipe_create`, whose end is there.
pub pipe_close : Pipe → M (Unit {0})
pipe_close pipe = do release (pipe.end); release (pipe.created)

destroy_child : Child → M (Unit {0})
destroy_child (posix_child pid) = pure tt
destroy_child (windows_child process thread) = do release thread; release process

-- `x_process_destroy`.
pub process_destroy : Process → M (Unit {0})
process_destroy process = do destroy_child (process.child); release (process.created)

-- ===== src/Files/Watcher.antt =====
-- The file watcher of src/x_filesystem.c: `x_file_watcher_snapshot` and `x_file_watcher_poll`.
pub mod Replay
mod Tests
use xlib.Common.{
  ℕ, ◌+◌, ◌%◌, ◌^◌, Bool, true, false, not, ◌&&◌, ◌||◌, Option, none, some, List, [], ◌∷◌, ◌++◌,
  ◌==◌, if◌then◌else◌, word, enoent,
}
use xlib.FilePath.{Platform, posix, windows}
use xlib.Ledger.{Status, gave, gave_error}
use xlib.Files.{error_from_windows}

-- `struct x_file_watcher_state`
pub record WatcherState : Type 0 where
  pub exists : Bool
  pub is_directory : Bool
  pub size : ℕ
  pub modified : ℕ

-- What `stat` or `GetFileAttributesExW` tells of a path.
pub record FileStatus : Type 0 where
  pub is_directory : Bool
  pub size : ℕ
  pub modified : ℕ

abbrev pub absent : WatcherState
absent = record { exists = false; is_directory = false; size = 0; modified = 0 }

present : FileStatus → WatcherState
present status = record {
  exists = true;
  is_directory = status.is_directory;
  size = if status.is_directory then 0 else status.size % word;
  modified = status.modified % word;
}

-- A path that is not there is no error.
missing : Platform → ℕ → Bool
missing posix error = error == enoent
missing windows error = (error == 2) || (error == 3)

reported_status : Platform → ℕ → ℕ
reported_status posix error = error
reported_status windows error = error_from_windows error

-- `x_file_watcher_snapshot`, by the answer of the system.
pub snapshot : Platform → Status FileStatus → Status WatcherState
snapshot platform (gave status) = gave (present status)
snapshot platform (gave_error error) =
    if missing platform error then gave absent else gave_error (reported_status platform error)

same_flag : Bool → Bool → Bool
same_flag true b = b
same_flag false b = not b

-- The tests for a modification.
differs : WatcherState → WatcherState → Bool
differs old current =
    not (same_flag old.is_directory current.is_directory)
    || (not (old.size == current.size) || not (old.modified == current.modified))

-- X_FILE_WATCH_CREATED, X_FILE_WATCH_MODIFIED and X_FILE_WATCH_DELETED
abbrev pub created : ℕ
created = 1

abbrev pub changed : ℕ
changed = 2

abbrev pub deleted : ℕ
deleted = 4

-- The flags of `x_file_watcher_poll`.
pub watch_events : WatcherState → WatcherState → ℕ
watch_events old current =
    if not old.exists && current.exists
    then created
    else if old.exists && not current.exists
    then deleted
    else if (old.exists && current.exists) && differs old current
    then changed
    else 0

-- A poll: the status, the flags that the callback is called with, if it is called, and the state that
-- is kept.
pub record Polled : Type 0 where
  pub status : ℕ
  pub called : List ℕ
  pub state : WatcherState

polled_state : WatcherState → Status WatcherState → Polled
polled_state old (gave_error error) = record { status = error; called = []; state = old }
polled_state old (gave current) =
    let events = watch_events old current in
    record { status = 0; called = if events == 0 then [] else events ∷ []; state = current }

-- `x_file_watcher_poll`, of a watcher and a callback that are not NULL.
pub watcher_poll : Platform → WatcherState → Status FileStatus → Polled
watcher_poll platform old answer = polled_state old (snapshot platform answer)

-- Polls in a row: all calls of the callback, and the last state.
pub polls : Platform → WatcherState → List (Status FileStatus) → List ℕ × WatcherState
polls platform state [] = ([], state)
polls platform state (answer ∷ answers) =
    let first = watcher_poll platform state answer in
    let rest = polls platform first.state answers in (first.called ++ rest.0, rest.1)

-- ===== src/Files/Watcher/Tests.antt =====
-- A watcher whose file is made, changed, unreadable for a while, and removed.
use xlib.Common.{ℕ, ◌≡◌, refl, false, some, List, [], ◌∷◌, enoent, eacces}
use xlib.FilePath.{posix}
use xlib.Ledger.{Status, gave, gave_error}
use xlib.Files.Watcher.{
  FileStatus, absent, present, missing, reported_status, snapshot, same_flag, differs, created,
  changed, deleted, watch_events, polled_state, watcher_poll, polls,
}
use xlib.Files.Watcher.Replay.{follow_on, polls-follow}

abbrev file_of : ℕ → Status FileStatus
file_of size = gave (record { is_directory = false; size = size; modified = 5 })

abbrev history : List (Status FileStatus)
history = file_of 1 ∷ file_of 1 ∷ file_of 2 ∷ gave_error eacces ∷ gave_error enoent ∷ []

history_runs : polls posix absent history ≡ (created ∷ changed ∷ deleted ∷ [], absent)
unfolding polls watcher_poll polled_state snapshot present missing reported_status watch_events
    differs same_flag
history_runs = refl

polls-follow_example :
    follow_on (some false) (polls posix absent history).0
    ≡ some (polls posix absent history).1.exists
polls-follow_example = polls-follow posix absent history

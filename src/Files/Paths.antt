-- ===== src/Files/Paths.antt =====
-- Removing files and making and removing directories: `x_file_remove`, `x_directory_create` and
-- `x_directory_remove` of src/x_filesystem.c.
use xlib.Common.{CString, ℕ, Bool, List, ◌==◌, if◌then◌else◌, einval, eexist}
use xlib.FilePath.{Platform, posix, windows}
use xlib.Ledger.{
  Resource, M, Status, gave, gave_error, tried, ◌>>=◌, ◌>>◌, guard, call, release, ◌or_after◌,
  translated, pure, fail,
}
use xlib.Ledger.Triple.{
  Balanced, Frees, Triple, Triple-if, Triple-bind, Triple-or_after, Triple-call, Triple-guard,
  Triple-release, Triple-translated, Triple-tried_same, Triple-pure, Triple-fail,
}
use xlib.Files.{
  error_from_windows, take_wide, File, file_open, file_close, Directory, directory_open,
  directory_close,
}
use xlib.Files.Balance.{take_wide-Triple, Usable, file_holdings, directory_holdings, files-Balanced}

-- `unlink` and `DeleteFileW`, or `rmdir` and `RemoveDirectoryW`: both functions make the same calls.
removal : Platform → M (Unit {0})
removal posix = call
removal windows = do
  wide_path ← take_wide
  translated error_from_windows call or_after release wide_path
  release wide_path

-- `x_file_remove`; `given` says that the path is not NULL.
pub file_remove : Platform → Bool → M (Unit {0})
file_remove platform given = do guard given einval; removal platform

-- `x_directory_remove`
pub directory_remove : Platform → Bool → M (Unit {0})
directory_remove platform given = do guard given einval; removal platform

-- A directory that is there is no error: EEXIST, or ERROR_ALREADY_EXISTS.
made : Platform → Status (Unit {0}) → M (Unit {0})
made platform (gave u) = pure tt
made posix (gave_error e) = if e == eexist then pure tt else fail e
made windows (gave_error e) = if e == 183 then pure tt else fail (error_from_windows e)

creation : Platform → M (Unit {0})
creation posix = do status ← tried call; made posix status
creation windows = do
  wide_path ← take_wide
  status ← tried call
  release wide_path
  made windows status

-- `x_directory_create`
pub directory_create : Platform → Bool → M (Unit {0})
directory_create platform given = do guard given einval; creation platform

removal-Triple :
    (platform : Platform) (base : List Resource) → Triple base base (λ _. base) (removal platform)
unfolding removal
removal-Triple posix base = Triple-call
removal-Triple windows base = Triple-bind take_wide-Triple λ wide_path.
    Triple-bind (Triple-or_after (Triple-translated _ Triple-call) Triple-release)
      λ _. Triple-release

made-Triple :
    (platform : Platform) (base : List Resource) (status : Status (Unit {0}))
    → Triple base base (λ _. base) (made platform status)
unfolding made
made-Triple platform base (gave u) = Triple-pure
made-Triple posix base (gave_error e) = Triple-if (e == eexist) Triple-pure Triple-fail
made-Triple windows base (gave_error e) = Triple-if (e == 183) Triple-pure Triple-fail

creation-Triple :
    (platform : Platform) (base : List Resource) → Triple base base (λ _. base) (creation platform)
unfolding creation
creation-Triple posix base = Triple-bind (Triple-tried_same Triple-call) (made-Triple posix base)
creation-Triple windows base = Triple-bind take_wide-Triple λ wide_path.
    Triple-bind (Triple-tried_same Triple-call)
      λ status. Triple-bind Triple-release λ _. made-Triple windows base status

-- In either build, whatever the system answers, for a path that is a string and the 4096 bytes in which the
-- Windows build joins a pattern: `x_file_open` and `x_directory_open` give back nothing twice and write
-- inside that array; when they fail, at whichever step, they leak nothing, and when they succeed they hold
-- exactly what `x_file_close` and `x_directory_close` give back. `x_file_remove`, `x_directory_create` and
-- `x_directory_remove` hold nothing that they did not hold before, whether they succeed or fail.
pub paths-Balanced :
    (platform : Platform) (given : Bool) (mode : ℕ) (path : CString) (buffer : List ℕ)
    (held : List Resource)
    → Usable path buffer
    → (Balanced file_holdings (file_open platform given mode)
        × Balanced directory_holdings (directory_open platform given path buffer)
        × ((f : File) → Frees (file_holdings f) (file_close f))
        × ((d : Directory) → Frees (directory_holdings d) (directory_close d)))
      × (Triple held held (λ _. held) (file_remove platform given)
          × (Triple held held (λ _. held) (directory_create platform given)
              × Triple held held (λ _. held) (directory_remove platform given)))
unfolding file_remove directory_create directory_remove
paths-Balanced platform given mode path buffer held u = (
  files-Balanced platform given mode path buffer u,
  (
    Triple-bind (Triple-guard given einval) λ _. removal-Triple platform held,
    (
      Triple-bind (Triple-guard given einval) λ _. creation-Triple platform held,
      Triple-bind (Triple-guard given einval) λ _. removal-Triple platform held,
    ),
  ),
)

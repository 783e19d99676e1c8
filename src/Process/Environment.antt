-- ===== src/Process/Environment.antt =====
-- The environment of the process: `x_environment_get`, `x_environment_set` and
-- `x_environment_unset` of src/x_process.c.
pub mod Balance
use xlib.Common.{
  ℕ, ◌+◌, Bool, true, false, not, ◌&&◌, Option, none, some, List, ◌==◌, ltb, if◌then◌else◌, length,
  einval, enoent, enametoolong, add_word, CString, terminated, memcpy,
}
use xlib.FilePath.{Platform, posix, windows}
use xlib.Ledger.{
  M, Resource, Status, gave, gave_error, tried, ◌>>=◌, ◌>>◌, guard, call, ask, allocate, release,
  ◌or_after◌, translated, pure, fail,
}
use xlib.Process.{error_from_windows}
use xlib.Process.Start.{utf8_to_wide}

-- The result and the buffer. `none` is a write outside the buffer.
copied : Option (List ℕ) → Option (ℕ × List ℕ)
copied none = none
copied (some buffer) = some (0, buffer)

-- `x_environment_get` in the POSIX build, of a name that is not NULL: `value` is what `getenv` gives.
pub environment_get_posix : Option CString → List ℕ → ℕ → Option (ℕ × List ℕ)
environment_get_posix value buffer size = if size == 0 then some (einval, buffer) else elim value [
  | none ↦ some (enoent, buffer)
  | some text ↦
      if ltb size (add_word (length text) 1)
      then some (enametoolong, buffer)
      else copied (memcpy buffer 0 (terminated text))
]

-- ERROR_ENVVAR_NOT_FOUND and ERROR_INSUFFICIENT_BUFFER have their own statuses.
abbrev get_error : ℕ → ℕ
get_error e = if e == 203 then enoent else error_from_windows e

abbrev conversion_error : ℕ → ℕ
conversion_error e = if e == 122 then enametoolong else error_from_windows e

abbrev finished : Status ℕ → M (Unit {0})
finished (gave n) = pure tt
finished (gave_error e) = fail (conversion_error e)

-- `x_environment_get` in the Windows build.
pub environment_get_windows : Bool → M (Unit {0})
environment_get_windows given = do
  guard given einval
  wide_name ← utf8_to_wide true
  required ← translated get_error ask or_after release wide_name
  wide_value ← allocate or_after release wide_name
  translated error_from_windows call or_after (do release wide_value; release wide_name)
  converted ← tried ask
  release wide_value
  release wide_name
  finished converted

set_on : Platform → M (Unit {0})
set_on posix = call
set_on windows = do
  wide_name ← utf8_to_wide true
  wide_value ← utf8_to_wide true or_after release wide_name
  translated error_from_windows call or_after (do release wide_value; release wide_name)
  release wide_value
  release wide_name

-- `x_environment_set`; `given` says that its pointers are not NULL.
pub environment_set : Platform → Bool → M (Unit {0})
environment_set platform given = do guard given einval; set_on platform

-- To remove what is not there is no error.
abbrev removed : Status (Unit {0}) → M (Unit {0})
removed (gave u) = pure tt
removed (gave_error e) = if e == 203 then pure tt else fail (error_from_windows e)

unset_on : Platform → M (Unit {0})
unset_on posix = call
unset_on windows = do
  wide_name ← utf8_to_wide true
  status ← tried call
  release wide_name
  removed status

-- `x_environment_unset`; `given` says that the name is not NULL.
pub environment_unset : Platform → Bool → M (Unit {0})
environment_unset platform given = do guard given einval; unset_on platform

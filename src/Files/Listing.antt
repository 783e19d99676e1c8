-- ===== src/Files/Listing.antt =====
-- The entries of a directory: `x_directory_next` of src/x_filesystem.c in the POSIX build, and a caller
-- of it.
pub mod Whole
pub mod Windows
mod Tests
use xlib.Common.{
  ℕ, zero, suc, Bool, true, false, not, ◌&&◌, ◌||◌, Option, none, some, List, [], ◌∷◌, ◌%◌, ◌^◌,
  ◌+◌, ◌==◌, ltb, if◌then◌else◌, length, word, enametoolong, CString, read_string,
}
use xlib.FilePath.{posix, path_join}
use xlib.Ledger.{Status, gave, gave_error}
use xlib.Files.{path_max}
use xlib.Files.Watcher.{FileStatus}

-- XLIB_NAME_MAX
abbrev pub name_max : ℕ
name_max = 1024

-- `x_directory_entry_t`, its name as a string.
pub record DirectoryEntry : Type 0 where
  pub name : CString
  pub is_directory : Bool
  pub size : ℕ

-- `strcmp(a, b) == 0`
abbrev pub same_string : CString → CString → Bool
same_string [] [] = true
same_string [] (b ∷ others) = false
same_string (a ∷ more) [] = false
same_string (a ∷ more) (b ∷ others) = (a == b) && same_string more others

-- `x_filesystem_is_dot_entry`
pub is_dot_entry : CString → Bool
is_dot_entry name = same_string name (46 ∷ []) || same_string name (46 ∷ 46 ∷ [])

-- What `stat` answers for a path.
abbrev pub Stats : Type 0
Stats = CString → Status FileStatus

-- What a call of `x_directory_next` leaves: its status, the entry where `*has_entry` is 1, and what
-- later calls read from.
pub record Next (S : Type 0) : Type 0 where
  pub status : ℕ
  pub entry : Option DirectoryEntry
  pub after : S

abbrev pub without_entry : {S : Type 0} → ℕ → S → Next S
without_entry status after = record { status = status; entry = none; after = after }

pub entry_of : CString → FileStatus → DirectoryEntry
entry_of name status = record {
  name = name;
  is_directory = status.is_directory;
  size = if status.is_directory then 0 else status.size % word;
}

with_status : CString → List CString → Status FileStatus → Next (List CString)
with_status name names (gave_error e) = without_entry e names
with_status name names (gave status) = record {
  status = 0;
  entry = some (entry_of name status);
  after = names;
}

-- `none` is a write outside of `full_path`.
with_path :
    Stats → CString → List CString → Option (ℕ × Option (List ℕ)) → Option (Next (List CString))
with_path stats name names none = none
with_path stats name names (some (status, none)) = none
with_path stats name names (some (status, some full_path)) = some (
    if status == 0
    then with_status name names (stats (read_string full_path))
    else without_entry status names)

-- A name that is no dot entry.
read_entry : Stats → CString → List ℕ → CString → List CString → Option (Next (List CString))
read_entry stats path buffer name names =
    if not (ltb (length name) name_max)
    then some (without_entry enametoolong names)
    else with_path stats name names (path_join posix (some buffer) path_max (some path) (some name))

-- `x_directory_next` in the POSIX build, of the directory `path`, of which `readdir` gives `names` and
-- then ends with `ended` in errno; `buffer` is its `full_path`.
pub directory_next : Stats → CString → List ℕ → ℕ → List CString → Option (Next (List CString))
directory_next stats path buffer ended [] = some (without_entry ended [])
directory_next stats path buffer ended (name ∷ names) =
    let rest = directory_next stats path buffer ended names in
    if is_dot_entry name then rest else read_entry stats path buffer name names

-- The entries that a caller has read, and the last status.
abbrev pub Listed : Type 0
Listed = Option (List DirectoryEntry × ℕ)

pub put_first : DirectoryEntry → Listed → Listed
put_first entry none = none
put_first entry (some (entries, status)) = some (entry ∷ entries, status)

pub go_on : {S : Type 0} → (S → Listed) → ℕ → Option DirectoryEntry → S → Listed
go_on again status none after = some ([], status)
go_on again status (some entry) after = put_first entry (again after)

pub listing_on : {S : Type 0} → (S → Listed) → Option (Next S) → Listed
listing_on again none = none
listing_on again (some next) = go_on again next.status next.entry next.after

-- A caller that reads entries until there is none. The fuel bounds its calls.
pub listing : {S : Type 0} → (S → Option (Next S)) → ℕ → S → Listed
listing next zero state = none
listing next (suc fuel) state = listing_on (listing next fuel) (next state)

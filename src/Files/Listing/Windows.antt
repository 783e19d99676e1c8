-- ===== src/Files/Listing/Windows.antt =====
-- `x_directory_next` of src/x_filesystem.c in the Windows build.
mod Tests
use xlib.Common.{
  ℕ, zero, suc, ◌+◌, ◌*◌, ◌^◌, ◌<◌, ◌≡◌, refl, inl, inr, Bool, true, false, ◌||◌, Option, none,
  some, List, [], ◌∷◌, ◌==◌, if◌then◌else◌, length, CString, enametoolong, arith, Bool-cases,
}
use xlib.Ledger.{Status, gave, gave_error}
use xlib.Files.{error_from_windows}
use xlib.Files.Listing.{
  DirectoryEntry, Next, Listed, without_entry, is_dot_entry, put_first, go_on, listing_on, listing,
}

-- WIN32_FIND_DATAW, as far as it is used; the name as what WideCharToMultiByte answers for it.
pub record FindData : Type 0 where
  pub name : Status CString
  pub is_directory : Bool
  pub size_high : ℕ
  pub size_low : ℕ

-- `data` where `has_pending_entry` is 1, `pending_error`, and what FindNextFileW gives later on.
pub record Reading : Type 0 where
  pub pending : Option FindData
  pub pending_error : ℕ
  pub coming : List FindData

-- ERROR_NO_MORE_FILES
abbrev pub no_more_files : ℕ
no_more_files = 18

-- The call of FindNextFileW, which ends with the error `ended`.
find_next : ℕ → ℕ → List FindData → Reading
find_next ended error [] = record {
  pending = none;
  pending_error = if ended == no_more_files then error else error_from_windows ended;
  coming = [];
}
find_next ended error (data_next ∷ coming) = record {
  pending = some data_next;
  pending_error = error;
  coming = coming;
}

pub found_entry : CString → FindData → DirectoryEntry
found_entry name found = record {
  name = name;
  is_directory = found.is_directory;
  size = found.size_high * 2 ^ 32 + found.size_low;
}

-- The error of `x_filesystem_wide_to_utf8`; 122 is ERROR_INSUFFICIENT_BUFFER.
pub wide_error : ℕ → ℕ
wide_error error = if error == 122 then enametoolong else error_from_windows error

-- The rest of a round; `again` is what the later rounds leave.
round_end : FindData → Status CString → Reading → Next Reading → Next Reading
round_end found (gave_error e) after again = without_entry (wide_error e) after
round_end found (gave name) after again =
    if is_dot_entry name
    then again
    else record { status = 0; entry = some (found_entry name found); after = after }

-- The loop, from a pending entry on.
find_loop : ℕ → ℕ → FindData → List FindData → Next Reading
find_loop ended error found [] =
    let after = find_next ended error [] in round_end found found.name after (without_entry 0 after)
find_loop ended error found (data_next ∷ coming) =
    let again = find_loop ended error data_next coming in
    round_end found found.name (find_next ended error (data_next ∷ coming)) again

next_of : ℕ → Option FindData → ℕ → List FindData → Next Reading
next_of ended none error coming =
    without_entry error (record { pending = none; pending_error = 0; coming = coming })
next_of ended (some found) error coming = find_loop ended error found coming

-- `x_directory_next` in the Windows build.
pub directory_next_windows : ℕ → Reading → Option (Next Reading)
directory_next_windows ended state =
    some (next_of ended state.pending state.pending_error state.coming)

-- What `x_directory_open` leaves.
abbrev pub opened_on : FindData → List FindData → Reading
opened_on found coming = record { pending = some found; pending_error = 0; coming = coming }

abbrev pub found_on :
    FindData
    → Status CString
    → List DirectoryEntry × ℕ
    → List DirectoryEntry × ℕ
    → List DirectoryEntry × ℕ
found_on found (gave_error e) dot rest = ([], wide_error e)
found_on found (gave name) dot rest =
    if is_dot_entry name then dot else (found_entry name found ∷ rest.0, rest.1)

-- The entries of the data without the dot entries, in order, up to a name that cannot be converted. The
-- error with which FindNextFileW ends is not reported behind a dot entry.
pub found_entries : ℕ → Bool → List FindData → List DirectoryEntry × ℕ
found_entries ended behind_dot [] =
    ([], if behind_dot || (ended == no_more_files) then 0 else error_from_windows ended)
found_entries ended behind_dot (found ∷ coming) =
    found_on found found.name (found_entries ended true coming) (found_entries ended false coming)

last_lem :
    (fuel ended : ℕ) (found : FindData) (name : Status CString)
    → listing_on (listing (directory_next_windows ended) (suc fuel)) (
        some (round_end found name (find_next ended 0 []) (without_entry 0 (find_next ended 0 []))))
      ≡ some (found_on found name (found_entries ended true []) (found_entries ended false []))
unfolding listing_on listing go_on directory_next_windows next_of find_next round_end put_first
    found_entries
last_lem fuel ended found (gave_error e) = refl
last_lem fuel ended found (gave name) = ground arith

round_lem :
    (again : Reading → Listed) (found : FindData) (name : Status CString) (after : Reading)
    (loop : Next Reading) (rest : List DirectoryEntry × ℕ)
    → listing_on again (some loop) ≡ some rest
    → again after ≡ some rest
    → listing_on again (some (round_end found name after loop))
      ≡ some (found_on found name rest rest)
unfolding round_end listing_on go_on put_first
round_lem again found (gave_error e) after loop rest h k = refl
round_lem again found (gave name) after loop rest h k = elim (Bool-cases (is_dot_entry name)) [
  | inl e ↦ rw e h
  | inr e ↦ rw (e, k) refl
]

-- For a directory that `x_directory_open` has opened in the Windows build: a caller that calls
-- `x_directory_next` until there is no entry, at most once more than there are data, reads
-- exactly the names without the dot entries, in order, each with its kind and its 64-bit size, up to the
-- first that cannot be converted; the last status is the error of that name, else that with which
-- FindNextFileW has ended, but 0 where it has ended behind a dot entry.
pub listing_windows_lem :
    (coming : List FindData) (fuel ended : ℕ) (found : FindData)
    → length coming + 1 < fuel
    → listing (directory_next_windows ended) fuel (opened_on found coming)
      ≡ some (found_entries ended false (found ∷ coming))
unfolding listing directory_next_windows next_of find_loop found_entries find_next
listing_windows_lem coming zero ended found h = absurd (omega arith)
listing_windows_lem [] (suc zero) ended found h = absurd (omega arith)
listing_windows_lem [] (suc (suc fuel)) ended found h = last_lem fuel ended found found.name
listing_windows_lem (data_next ∷ coming) (suc fuel) ended found h =
    round_lem (listing (directory_next_windows ended) fuel) found found.name _ _ _
      (listing_windows_lem coming (suc fuel) ended data_next (omega arith))
      (listing_windows_lem coming fuel ended data_next (omega arith))

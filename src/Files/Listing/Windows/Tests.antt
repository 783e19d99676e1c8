-- ===== src/Files/Listing/Windows/Tests.antt =====
-- A directory that cannot be read on.
use xlib.Common.{ℕ, ◌≡◌, refl, false, some, [], ◌∷◌, eacces, CString, arith}
use xlib.Ledger.{gave}
use xlib.Files.{error_from_windows}
use xlib.Files.Listing.{listing, is_dot_entry}
use xlib.Files.Listing.Windows.{
  FindData, opened_on, directory_next_windows, found_entries, found_entry, listing_windows_lem,
}

abbrev named : CString → FindData
named name = record { name = gave name; is_directory = false; size_high = 1; size_low = 7 }

-- ERROR_ACCESS_DENIED
abbrev denied : ℕ
denied = 5

-- The error behind the two dot entries is not reported.
found_nothing : found_entries denied false (named (46 ∷ []) ∷ named (46 ∷ 46 ∷ []) ∷ []) ≡ ([], 0)
unfolding found_entries is_dot_entry
found_nothing = refl

-- The error behind a file is.
found_file :
    found_entries denied false (named (46 ∷ []) ∷ named (97 ∷ []) ∷ [])
    ≡ ((record { name = 97 ∷ []; is_directory = false; size = 4294967303 }) ∷ [], eacces)
unfolding found_entries is_dot_entry found_entry error_from_windows
found_file = refl

listing_windows_lem_example :
    listing (directory_next_windows denied) 3 (opened_on (named (46 ∷ [])) (named (97 ∷ []) ∷ []))
    ≡ some (found_entries denied false (named (46 ∷ []) ∷ named (97 ∷ []) ∷ []))
listing_windows_lem_example =
    listing_windows_lem (named (97 ∷ []) ∷ []) 3 denied (named (46 ∷ [])) (omega arith)

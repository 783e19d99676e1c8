-- ===== src/Files/Listing/Tests.antt =====
-- A directory with a file and a directory besides the dot entries.
use xlib.Common.{All, ◌≡◌, some, List, [], ◌∷◌, ◌==◌, CString, arith, zeros, length-zeros}
use xlib.FilePath.{byte_at}
use xlib.Ledger.{gave}
use xlib.Files.Listing.{Stats, directory_next, listing}
use xlib.Files.Listing.Whole.{IsName, entries_of, listing_lem}

-- "." "a" ".." "b"
abbrev names : List CString
names = (46 ∷ []) ∷ (97 ∷ []) ∷ (46 ∷ 46 ∷ []) ∷ (98 ∷ []) ∷ []

-- "d"
abbrev path : CString
path = 100 ∷ []

-- What ends in "b" is a directory.
abbrev stats : Stats
stats full = gave (record { is_directory = byte_at full 2 == 98; size = 7; modified = 0 })

names-IsName : All (IsName path) names
names-IsName = (
  ((omega arith, tt), omega arith),
  (
    ((omega arith, tt), omega arith),
    (((omega arith, (omega arith, tt)), omega arith), (((omega arith, tt), omega arith), tt)),
  ),
)

listing_lem_example :
    listing (directory_next stats path (zeros 4096) 0) 5 names
    ≡ some (entries_of stats path 0 names)
listing_lem_example =
    (listing_lem 5 stats path (zeros 4096) 0 names (omega arith, tt) names-IsName
      (omega (arith, length-zeros 4096)) (omega arith)).0

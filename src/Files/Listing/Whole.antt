-- ===== src/Files/Listing/Whole.antt =====
-- What a caller of `x_directory_next` has read when there are no more entries.
use xlib.Common.{
  ◌↔◌, ◌⊎◌, true, refl, ℕ, zero, suc, ◌+◌, ◌<◌, ◌≤◌, ◌≡◌, refl, inl, inr, Bool, ◌&&◌, some, List,
  [], ◌∷◌, ltb, if◌then◌else◌, length, All, word, enametoolong, CString, IsString, arith,
  Bool-cases,
}
use xlib.FilePath.{posix}
use xlib.FilePath.Join.{joined, path_join_lem}
use xlib.Ledger.{Status, gave, gave_error}
use xlib.Files.{path_max}
use xlib.Files.Watcher.{FileStatus}
use xlib.Files.Listing.{
  same_string, DirectoryEntry, Stats, Listed, name_max, is_dot_entry, without_entry, entry_of,
  with_status, with_path, read_entry, directory_next, listing, listing_on, go_on, put_first,
}

-- Whether the name and the path of an entry fit in their arrays.
pub fits : CString → CString → Bool
fits path name = ltb (length name) name_max && ltb (length (joined posix path name)) path_max

abbrev pub entry_and :
    CString → List DirectoryEntry × ℕ → Status FileStatus → List DirectoryEntry × ℕ
entry_and name rest (gave_error e) = ([], e)
entry_and name rest (gave status) = (entry_of name status ∷ rest.0, rest.1)

-- The names without the dot entries, in order, each with what `stat` answers for the joined path, up to
-- the first that does not fit or for which `stat` fails.
pub entries_of : Stats → CString → ℕ → List CString → List DirectoryEntry × ℕ
entries_of stats path ended [] = ([], ended)
entries_of stats path ended (name ∷ names) =
    let rest = entries_of stats path ended names in
    if is_dot_entry name
    then rest
    else if fits path name
    then entry_and name rest (stats (joined posix path name))
    else ([], enametoolong)

-- A string whose length leaves room in a `size_t`.
abbrev pub IsName : CString → CString → Type 0
IsName path name = IsString name × (length path + length name + 2 < word)

same_string_iff : (a b : CString) → (same_string a b ≡ true) ↔ (a ≡ b)
same_string_iff [] [] = (λ e. refl, λ e. refl)
same_string_iff [] (y ∷ ys) = ground arith
same_string_iff (x ∷ xs) [] = ground arith
same_string_iff (x ∷ xs) (y ∷ ys) = ground (arith, same_string_iff xs ys)

is_dot_entry_iff :
    (name : CString) → (is_dot_entry name ≡ true) ↔ ((name ≡ 46 ∷ []) ⊎ (name ≡ 46 ∷ 46 ∷ []))
unfolding is_dot_entry
is_dot_entry_iff name =
    ground (arith, same_string_iff name (46 ∷ []), same_string_iff name (46 ∷ 46 ∷ []))

read_entry_lem :
    (stats : Stats) (path : CString) (buffer : List ℕ) (name : CString) (names : List CString)
    → IsString path
    → IsName path name
    → path_max ≤ length buffer
    → read_entry stats path buffer name names
      ≡ some (
          if fits path name
          then with_status name names (stats (joined posix path name))
          else without_entry enametoolong names)
unfolding read_entry with_path fits
read_entry_lem stats path buffer name names hp hn hb =
    let w = path_join_lem posix buffer path name path_max hp hn.0 (omega arith) hb hn.1 in
    rw w.0 (ground (arith, w.1))

put_entry_lem :
    (again : List CString → Listed) (name : CString) (names : List CString)
    (answer : Status FileStatus) (rest : List DirectoryEntry × ℕ)
    → again names ≡ some rest
    → listing_on again (some (with_status name names answer)) ≡ some (entry_and name rest answer)
unfolding listing_on go_on put_first with_status
put_entry_lem again name names (gave_error e) rest h = refl
put_entry_lem again name names (gave status) rest h = rw h refl

listing-entries_of :
    (fuel : ℕ) (stats : Stats) (path : CString) (buffer : List ℕ) (ended : ℕ) (names : List CString)
    → IsString path
    → All (IsName path) names
    → path_max ≤ length buffer
    → length names < fuel
    → listing (directory_next stats path buffer ended) fuel names
      ≡ some (entries_of stats path ended names)
unfolding listing listing_on go_on directory_next entries_of
listing-entries_of zero stats path buffer ended names hp hn hb hf = absurd (omega arith)
listing-entries_of (suc fuel) stats path buffer ended [] hp hn hb hf = refl
listing-entries_of (suc fuel) stats path buffer ended (name ∷ names) hp hn hb hf =
    elim (Bool-cases (is_dot_entry name)) [
      | inl e ↦
          rw e
            (listing-entries_of (suc fuel) stats path buffer ended names hp hn.1 hb (omega arith))
      | inr e ↦
          rw (e, read_entry_lem stats path buffer name names hp hn.0 hb)
            (elim (Bool-cases (fits path name)) [
              | inl f ↦ rw f (
                  put_entry_lem (listing (directory_next stats path buffer ended) fuel) name names
                    (stats (joined posix path name)) _
                    (listing-entries_of fuel stats path buffer ended names hp hn.1 hb
                      (omega arith)))
              | inr f ↦ rw f refl
            ])
    ]

-- For a directory whose path and names are strings, with lengths that add up to less than 2^64 - 2, and a
-- `full_path` of the announced size: a caller that calls `x_directory_next` until there is no entry, at
-- most once more than there are names, never writes outside `full_path`; it reads exactly the names
-- other than "." and "..", in the order of `readdir`, each with what `stat` answers for the joined path, up to
-- the first that does not fit or for which `stat` fails; and the last status is ENAMETOOLONG or the
-- error of `stat` there, else that of `readdir` at its end.
pub listing_lem :
    (fuel : ℕ) (stats : Stats) (path : CString) (buffer : List ℕ) (ended : ℕ) (names : List CString)
    → IsString path
    → All (IsName path) names
    → path_max ≤ length buffer
    → length names < fuel
    → (listing (directory_next stats path buffer ended) fuel names
        ≡ some (entries_of stats path ended names))
      × ((name : CString) → (is_dot_entry name ≡ true) ↔ ((name ≡ 46 ∷ []) ⊎ (name ≡ 46 ∷ 46 ∷ [])))
listing_lem fuel stats path buffer ended names hp hn hb hf =
    (listing-entries_of fuel stats path buffer ended names hp hn hb hf, is_dot_entry_iff)

-- ===== src/FilePath/Tests.antt =====
-- Runs of the path functions, and instances of their theorems.
use xlib.Common.{
  ℕ, ◌≡◌, refl, true, some, List, [], ◌∷◌, ◌++◌, drop, enametoolong, CString, IsString, read_string,
  memcpy, arith,
}
use xlib.FilePath.{
  posix, windows, path_join, path_basename, path_is_absolute, is_absolute, separator, has_separator,
  needs_separator, put_separator, write_joined, join_strings, copy_joined,
}
use xlib.FilePath.Join.{joined, join_result, written, path_join_lem}
use xlib.FilePath.Laws.{Joins, path_join_assoc}
use xlib.FilePath.Basename.{path_basename-path_join}

abbrev usr : CString
usr = b'/' ∷ b'u' ∷ []

abbrev lib : CString
lib = b'l' ∷ []

abbrev name : CString
name = b'x' ∷ []

abbrev blank : List ℕ
blank = 1 ∷ 1 ∷ 1 ∷ 1 ∷ 1 ∷ 1 ∷ 1 ∷ 1 ∷ 1 ∷ 1 ∷ []

abbrev usr_lib : CString
usr_lib = b'/' ∷ b'u' ∷ b'/' ∷ b'l' ∷ []

abbrev lib_name : CString
lib_name = b'l' ∷ b'/' ∷ b'x' ∷ []

abbrev full : CString
full = b'/' ∷ b'u' ∷ b'/' ∷ b'l' ∷ b'/' ∷ b'x' ∷ []

join_runs :
    path_join posix (some blank) 5 (some usr) (some lib)
    ≡ some (0, some (usr_lib ++ 0 ∷ 1 ∷ 1 ∷ 1 ∷ 1 ∷ 1 ∷ []))
unfolding path_join join_strings is_absolute copy_joined write_joined needs_separator has_separator
    put_separator separator memcpy
join_runs = refl

join_too_long :
    path_join windows (some blank) 4 (some usr) (some lib) ≡ some (enametoolong, some blank)
unfolding path_join join_strings is_absolute copy_joined needs_separator has_separator
join_too_long = refl

basename_runs : path_basename windows (some (b'c' ∷ b':' ∷ 92 ∷ b'a' ∷ [])) true ≡ (0, some 3)
unfolding path_basename
basename_runs = refl

drive_is_absolute : path_is_absolute windows (some (b'c' ∷ b':' ∷ 92 ∷ [])) ≡ true
unfolding path_is_absolute
drive_is_absolute = refl

strings : IsString usr × IsString lib × IsString name
strings = omega arith

path_join_lem_example :
    path_join posix (some blank) 5 (some usr) (some lib)
    ≡ join_result (joined posix usr lib) blank 5
path_join_lem_example =
    (path_join_lem posix blank usr lib 5 strings.0 strings.1 (omega arith) (omega arith)
      (omega arith)).0

path_basename-path_join_example :
    (m n : ℕ) × (path_basename posix
        (some (read_string (usr_lib ++ 0 ∷ 1 ∷ 1 ∷ 1 ∷ 1 ∷ 1 ∷ [])))
        true
      ≡ (0, some m))
    × (path_basename posix (some lib) true ≡ (0, some n))
    × (drop m (read_string (usr_lib ++ 0 ∷ 1 ∷ 1 ∷ 1 ∷ 1 ∷ 1 ∷ [])) ≡ drop n lib)
path_basename-path_join_example =
    path_basename-path_join posix blank usr lib (usr_lib ++ 0 ∷ 1 ∷ 1 ∷ 1 ∷ 1 ∷ 1 ∷ []) 5 strings.0
      strings.1 (omega arith) (omega arith) (omega arith) (λ e. cc) join_runs

-- The buffer that a call leaves in ten bytes of ones.
abbrev filled : CString → List ℕ
filled path = written path blank

Joins-usr_lib : Joins posix usr lib usr_lib
unfolding path_join join_strings is_absolute copy_joined write_joined needs_separator has_separator
    put_separator separator memcpy read_string
Joins-usr_lib = record {
  buffer = blank;
  size = 10;
  after = filled usr_lib;
  some_room = omega arith;
  in_buffer = omega arith;
  returns = refl;
  reads = refl;
}

Joins-usr_lib_name : Joins posix usr_lib name full
unfolding path_join join_strings is_absolute copy_joined write_joined needs_separator has_separator
    put_separator separator memcpy read_string
Joins-usr_lib_name = record {
  buffer = blank;
  size = 10;
  after = filled full;
  some_room = omega arith;
  in_buffer = omega arith;
  returns = refl;
  reads = refl;
}

Joins-lib_name : Joins posix lib name lib_name
unfolding path_join join_strings is_absolute copy_joined write_joined needs_separator has_separator
    put_separator separator memcpy read_string
Joins-lib_name = record {
  buffer = blank;
  size = 10;
  after = filled lib_name;
  some_room = omega arith;
  in_buffer = omega arith;
  returns = refl;
  reads = refl;
}

Joins-usr_rest : Joins posix usr lib_name full
unfolding path_join join_strings is_absolute copy_joined write_joined needs_separator has_separator
    put_separator separator memcpy read_string
Joins-usr_rest = record {
  buffer = blank;
  size = 10;
  after = filled full;
  some_room = omega arith;
  in_buffer = omega arith;
  returns = refl;
  reads = refl;
}

path_join_assoc_example : ◌≡◌ {A = CString} full full
path_join_assoc_example =
    path_join_assoc strings.0 strings.1 strings.2 (omega arith) Joins-usr_lib Joins-usr_lib_name
      Joins-lib_name Joins-usr_rest

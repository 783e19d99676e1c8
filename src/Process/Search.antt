-- ===== src/Process/Search.antt =====
-- How the child of `x_process_start` finds its program: `x_process_environment_value` and
-- `x_process_exec_environment` of src/x_process.c.
pub mod Split
mod Tests
use xlib.Common.{
  ℕ, zero, suc, ◌+◌, ◌≡◌, Bool, true, false, Option, none, some, List, [], ◌∷◌, ◌++◌, ◌==◌, ltb,
  if◌then◌else◌, length, CString, terminated, read_string, memcpy, add_word,
}
use xlib.FilePath.{slash}

abbrev pub colon : ℕ
colon = 58

abbrev pub equals : ℕ
equals = 61

-- `strchr(text, c) != NULL`.
unfoldable pub contains : ℕ → CString → Bool
contains c [] = false
contains c (x ∷ text) = let rest = contains c text in if x == c then true else rest

-- What stands behind `name` in an entry, where `strncmp` finds the name at its start.
behind_name : CString → CString → Option CString
behind_name [] entry = some entry
behind_name (c ∷ name) [] = none
behind_name (c ∷ name) (x ∷ entry) =
    let rest = behind_name name entry in if c == x then rest else none

-- The value, where the next byte is the sign of equality.
behind_equals : Option CString → Option CString
behind_equals none = none
behind_equals (some []) = none
behind_equals (some (c ∷ value)) = if c == equals then some value else none

abbrev pub first_some : Option CString → Option CString → Option CString
first_some none y = y
first_some (some x) y = some x

-- `x_process_environment_value`, of an environment that is not NULL.
pub environment_value : List CString → CString → Option CString
environment_value [] name = none
environment_value (entry ∷ environment) name =
    first_some (behind_equals (behind_name name entry)) (environment_value environment name)

-- "/bin:/usr/bin"
abbrev pub default_path : CString
default_path = 47 ∷ 98 ∷ 105 ∷ 110 ∷ 58 ∷ 47 ∷ 117 ∷ 115 ∷ 114 ∷ 47 ∷ 98 ∷ 105 ∷ 110 ∷ []

-- The value that is searched: the default where PATH is missing or empty.
abbrev pub searched : Option CString → CString
searched none = default_path
searched (some []) = default_path
searched (some (c ∷ value)) = c ∷ value

-- The bytes before the next colon, and what stands behind it, if there is one: `strchr(start, ':')`.
pub next_directory : CString → CString × Option CString
next_directory [] = ([], none)
next_directory (c ∷ start) =
    let rest = next_directory start in if c == colon then ([], some start) else (c ∷ rest.0, rest.1)

-- The separator that is put behind a directory, unless it is empty.
abbrev pub directory_separator : CString → CString
directory_separator [] = []
directory_separator (c ∷ directory) = slash ∷ []

-- A write that follows another.
abbrev and_then : Option (List ℕ) → (List ℕ → Option (List ℕ)) → Option (List ℕ)
and_then none f = none
and_then (some b) f = f b

put_directory_separator : CString → List ℕ → Option (List ℕ)
put_directory_separator [] buffer = some buffer
put_directory_separator (c ∷ directory) buffer = memcpy buffer (length (c ∷ directory)) (slash ∷ [])

-- The three writes to a candidate. `none` is a write outside the block.
put_candidate : CString → CString → List ℕ → Option (List ℕ)
put_candidate directory path block = and_then (memcpy block 0 directory) λ b.
    and_then (put_directory_separator directory b)
      λ c. memcpy c (length directory + length (directory_separator directory)) (terminated path)

-- The size that is asked for.
candidate_size : CString → CString → ℕ
candidate_size directory path =
    add_word
      (add_word (add_word (length directory) (length (directory_separator directory)))
        (length path))
      1

-- A call of the system that starts a program; it returns only where it fails.
pub data Exec : Type 0 where
  execv execvp execve : CString → Exec

abbrev before : Option (List ℕ) → Option (List Exec) → Option (List Exec)
before none rest = none
before (some b) none = none
before (some b) (some rest) = some (execve (read_string b) ∷ rest)

abbrev tried_first : Option (List ℕ) → CString → CString → Option (List Exec) → Option (List Exec)
tried_first none directory path rest = rest
tried_first (some block) directory path rest = before (put_candidate directory path block) rest

-- What `malloc` gives: the i-th call, for so many bytes.
abbrev pub Malloc : Type 0
Malloc = ℕ → ℕ → Option (List ℕ)

-- The loop over the directories: the calls it makes while each of them fails. `none` is a write
-- outside a block, or fuel that is used up.
search_loop : ℕ → Malloc → ℕ → CString → CString → Option (List Exec)
search_loop zero malloc i start path = none
search_loop (suc fuel) malloc i start path =
    let next = next_directory start in
    tried_first (malloc i (candidate_size next.0 path)) next.0 path
      (elim next.1 [ none ↦ some [] | some behind ↦ search_loop fuel malloc (i + 1) behind path ])

-- `x_process_exec_environment`: the calls it makes while each of them fails.
pub exec_environment : Malloc → Option (List CString) → CString → Option (List Exec)
exec_environment malloc none path =
    if contains slash path then some (execv path ∷ []) else some (execvp path ∷ [])
exec_environment malloc (some environment) path =
    let value = searched (environment_value environment (80 ∷ 65 ∷ 84 ∷ 72 ∷ [])) in
    if contains slash path
    then some (execve path ∷ [])
    else search_loop (length value + 1) malloc 0 value path

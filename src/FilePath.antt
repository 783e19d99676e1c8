-- ===== src/FilePath.antt =====
-- The path functions of src/x_filesystem.c, in both builds: what `#ifdef _WIN32` selects is a
-- test of the platform. A pointer that may be NULL is an option.
pub mod Join
pub mod Laws
pub mod Basename
mod Tests
use xlib.Common.{
  ℕ, ◌+◌, ◌-◌, ◌≡◌, Bool, true, false, ◌&&◌, ◌||◌, Option, none, some, List, [], ◌∷◌, ltb, leb,
  ◌==◌, if◌then◌else◌, length, get_or, einval, enametoolong, add_word, CString, terminated, memcpy,
}

pub data Platform : Type 0 where
  posix windows : Platform

abbrev pub slash : ℕ
slash = b'/'

abbrev pub backslash : ℕ
backslash = 92

-- A separator: '/' everywhere, '\' on Windows too.
pub is_separator : Platform → ℕ → Bool
is_separator posix c = c == slash
is_separator windows c = c == slash || c == backslash

-- `const char separator` of `x_path_join`.
pub separator : Platform → ℕ
separator posix = slash
separator windows = backslash

is_letter : ℕ → Bool
is_letter c = (leb b'A' c && leb c b'Z') || (leb b'a' c && leb c b'z')

-- A byte of a string, its terminator included.
abbrev pub byte_at : CString → ℕ → ℕ
byte_at s i = get_or s i 0

-- The part of `x_path_is_absolute` under `#ifdef _WIN32`: a UNC path, or a drive with a separator.
windows_absolute : CString → Bool
unfolding is_letter is_separator
windows_absolute s =
    (byte_at s 0 == backslash && byte_at s 1 == backslash)
    || (is_letter (byte_at s 0) && byte_at s 1 == b':' && is_separator windows (byte_at s 2))

non_empty_absolute : Platform → CString → Bool
unfolding windows_absolute
non_empty_absolute posix s = byte_at s 0 == slash
non_empty_absolute windows s = byte_at s 0 == slash || windows_absolute s

-- `x_path_is_absolute` of a string.
pub is_absolute : Platform → CString → Bool
unfolding non_empty_absolute
is_absolute p s = if byte_at s 0 == 0 then false else non_empty_absolute p s

-- `x_path_is_absolute`, NULL included.
pub path_is_absolute : Platform → Option CString → Bool
unfolding is_absolute
path_is_absolute p none = false
path_is_absolute p (some s) = is_absolute p s

-- `x_filesystem_has_separator` of a string: it ends in a separator.
pub has_separator : Platform → CString → Bool
unfolding is_separator
has_separator p s = ltb 0 (length s) && is_separator p (byte_at s (length s - 1))

-- What a call leaves: its status and the caller's buffer. `none` is a write outside the buffer.
abbrev pub Outcome : Type 0
Outcome = Option (ℕ × Option (List ℕ))

abbrev finish : ℕ → Option (List ℕ) → Outcome
finish status none = none
finish status (some b) = some (status, some b)

-- `memcpy(buffer, right, right_length + 1U)` behind its length check.
copy_right : List ℕ → ℕ → CString → Outcome
copy_right buffer size right =
    if ltb size (add_word (length right) 1)
    then some (enametoolong, some buffer)
    else finish 0 (memcpy buffer 0 (terminated right))

needs_separator : Platform → CString → CString → ℕ
needs_separator p left right = if has_separator p left || byte_at right 0 == 0 then 0 else 1

-- `if (needs_separator) buffer[left_length] = separator;`
put_separator : Platform → ℕ → ℕ → List ℕ → Option (List ℕ)
put_separator p needs left_length buffer =
    if needs == 0 then some buffer else memcpy buffer left_length (separator p ∷ [])

abbrev then_write : Option (List ℕ) → (List ℕ → Option (List ℕ)) → Option (List ℕ)
then_write none f = none
then_write (some b) f = f b

-- The three writes of the general case.
write_joined : Platform → List ℕ → CString → CString → Option (List ℕ)
write_joined p buffer left right =
    let needs = needs_separator p left right in
    then_write (memcpy buffer 0 left) λ b.
      then_write (put_separator p needs (length left) b)
        λ c. memcpy c (length left + needs) (terminated right)

copy_joined : Platform → List ℕ → ℕ → CString → CString → Outcome
copy_joined p buffer size left right =
    let total = add_word (add_word (length left) (needs_separator p left right)) (length right) in
    if ltb size (add_word total 1)
    then some (enametoolong, some buffer)
    else finish 0 (write_joined p buffer left right)

-- `x_path_join` once no argument is NULL.
join_strings : Platform → List ℕ → ℕ → CString → CString → Outcome
join_strings p buffer size left right =
    if is_absolute p right || byte_at left 0 == 0
    then copy_right buffer size right
    else copy_joined p buffer size left right

-- `x_path_join`.
pub path_join : Platform → Option (List ℕ) → ℕ → Option CString → Option CString → Outcome
path_join p (some buffer) size (some left) (some right) =
    if size == 0 then some (einval, some buffer) else join_strings p buffer size left right
path_join p buffer size left right = some (einval, buffer)

-- The loop of `x_path_basename`: `cursor` and `last` are offsets into the path.
basename_loop : Platform → CString → ℕ → ℕ → ℕ
unfolding is_separator
basename_loop p [] cursor last = last
basename_loop p (c ∷ rest) cursor last =
    basename_loop p rest (cursor + 1) (if is_separator p c then cursor + 1 else last)

-- `x_path_basename`: the status, and the offset of `*basename` where it is set.
pub path_basename : Platform → Option CString → Bool → ℕ × Option ℕ
unfolding basename_loop
path_basename p (some path) true = (0, some (basename_loop p path 0 0))
path_basename p path out = (einval, none)

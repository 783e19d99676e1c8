-- ===== src/FilePath/Join.antt =====
-- `x_path_join` of src/x_filesystem.c writes the joined path, and nothing past its terminator.
use xlib.Common.{
  ℕ, ◌+◌, ◌<◌, ◌≤◌, ◌≡◌, ap, ◌∙◌, inl, inr, some, List, [], ◌∷◌, ◌++◌, ltb, if◌then◌else◌, length,
  length-append, length-drop, length-terminated, drop, drop-drop, enametoolong, word, CString,
  IsString, All-append, ◌≢◌, terminated, read_string, read_string-append, memcpy, memcpy-append,
  arith, Bool-cases, append_assoc,
}
use xlib.FilePath.{
  Platform, posix, windows, Outcome, is_absolute, has_separator, separator, needs_separator,
  path_join, write_joined, put_separator, copy_right, copy_joined, join_strings,
}

-- What stands between the two parts.
abbrev pub glue : Platform → CString → CString → CString
glue p left [] = []
glue p left (c ∷ right) = if has_separator p left then [] else separator p ∷ []

-- The joined path as a string.
unfoldable pub joined : Platform → CString → CString → CString
joined p [] right = right
joined p (c ∷ left) right =
    if is_absolute p right then right else (c ∷ left) ++ (glue p (c ∷ left) right ++ right)

-- The buffer after a call that returns 0: the path, its terminator, and the old bytes past it.
abbrev pub written : CString → List ℕ → List ℕ
written path buffer = path ++ (0 ∷ drop (length path + 1) buffer)

length-glue :
    (p : Platform) (left right : CString)
    → IsString right
    → length (glue p left right) ≡ needs_separator p left right
unfolding needs_separator
length-glue p left [] h = ground arith
length-glue p left (c ∷ right) h = ground arith

put_separator_lem :
    (p : Platform) (left right tail : CString)
    → IsString right
    → 1 ≤ length tail
    → let g = glue p left right in
      put_separator p (needs_separator p left right) (length left) (left ++ tail)
      ≡ some (left ++ (g ++ drop (length g) tail))
unfolding needs_separator put_separator
put_separator_lem p left [] tail h s = ground arith
put_separator_lem p left (c ∷ right) tail h s =
    ground (arith, memcpy-append left (separator p ∷ []) tail)

-- The last write, of the right part after the left one and the separator.
write_right :
    (xs right buffer : CString)
    → length xs + (length right + 1) ≤ length buffer
    → memcpy (xs ++ drop (length xs) buffer) (length xs) (terminated right)
      ≡ some (written (xs ++ right) buffer)
write_right xs right buffer h =
    memcpy-append xs (terminated right) (drop (length xs) buffer)
      (omega (arith, length-terminated right, length-drop (length xs) buffer))
    ∙ ap some regroup
  where
    past :
        drop (length (terminated right)) (drop (length xs) buffer)
        ≡ drop (length (xs ++ right) + 1) buffer
    past =
        drop-drop (length (terminated right)) (length xs) buffer
        ∙ ap (λ k. drop k buffer) {y = length (xs ++ right) + 1}
            (omega (arith, length-terminated right, length-append xs right))

    regroup :
        xs ++ (terminated right ++ drop (length (terminated right)) (drop (length xs) buffer))
        ≡ written (xs ++ right) buffer
    regroup = simp (past, append_assoc)

-- The buffer after the first two writes.
abbrev with_glue : Platform → CString → CString → CString
with_glue p left right = left ++ glue p left right

write_left :
    (p : Platform) (left right buffer : CString)
    → IsString right
    → length left + 1 ≤ length buffer
    → let xs = with_glue p left right in
      put_separator p
        (needs_separator p left right)
        (length left)
        (left ++ drop (length left) buffer)
      ≡ some (xs ++ drop (length xs) buffer)
write_left p left right buffer h fits =
    put_separator_lem p left right (drop (length left) buffer) h
      (omega (arith, length-drop (length left) buffer))
    ∙ ap some regroup
  where
    g : CString
    g = glue p left right

    past : drop (length g) (drop (length left) buffer) ≡ drop (length (left ++ g)) buffer
    past =
        drop-drop (length g) (length left) buffer
        ∙ ap (λ k. drop k buffer) {y = length (left ++ g)} (omega (arith, length-append left g))

    regroup :
        left ++ (g ++ drop (length g) (drop (length left) buffer))
        ≡ with_glue p left right ++ drop (length (with_glue p left right)) buffer
    regroup = simp (past, append_assoc)

write_joined_lem :
    (p : Platform) (left right buffer : CString)
    → IsString right
    → length left + length (glue p left right) + (length right + 1) ≤ length buffer
    → write_joined p buffer left right
      ≡ some (written (left ++ (glue p left right ++ right)) buffer)
unfolding write_joined
write_joined_lem p left right buffer h fits = ground (
  arith,
  memcpy-append [] left buffer,
  write_left p left right buffer h,
  write_right (with_glue p left right) right buffer,
  length-append left (glue p left right),
  length-glue p left right h,
  append_assoc left (glue p left right) right,
)

length-joined_general :
    (p : Platform) (left right : CString)
    → IsString right
    → length (left ++ (glue p left right ++ right))
      ≡ length left + needs_separator p left right + length right
length-joined_general p left right h = omega (
  arith,
  length-append left (glue p left right ++ right),
  length-append (glue p left right) right,
  length-glue p left right h,
)

needs_separator-le : (p : Platform) (left right : CString) → needs_separator p left right ≤ 1
unfolding needs_separator
needs_separator-le p left right = ground arith

-- What a call of `x_path_join` is meant to leave in a buffer of `size` bytes.
abbrev pub join_result : CString → List ℕ → ℕ → Outcome
join_result path buffer size =
    if ltb (length path) size
    then some (0, some (written path buffer))
    else some (enametoolong, some buffer)

copy_right_lem :
    (buffer right : CString) (size : ℕ)
    → size ≤ length buffer
    → length right + 2 < word
    → copy_right buffer size right ≡ join_result right buffer size
unfolding copy_right
copy_right_lem buffer right size fits small = ground (arith, write_right [] right buffer)

copy_joined_lem :
    (p : Platform) (buffer left right : CString) (size : ℕ)
    → IsString right
    → size ≤ length buffer
    → length left + length right + 2 < word
    → copy_joined p buffer size left right
      ≡ join_result (left ++ (glue p left right ++ right)) buffer size
unfolding copy_joined
copy_joined_lem p buffer left right size h fits small = ground (
  arith,
  write_joined_lem p left right buffer h,
  length-joined_general p left right h,
  needs_separator-le p left right,
  length-glue p left right h,
)

join_strings_lem :
    (p : Platform) (buffer left right : CString) (size : ℕ)
    → IsString left
    → IsString right
    → size ≤ length buffer
    → length left + length right + 2 < word
    → join_strings p buffer size left right ≡ join_result (joined p left right) buffer size
unfolding join_strings joined
join_strings_lem p buffer [] right size hl hr fits small = elim (Bool-cases (is_absolute p right)) [
  | inl e ↦ ground (arith, e, copy_right_lem buffer right size fits)
  | inr e ↦ ground (arith, e, copy_right_lem buffer right size fits)
]
join_strings_lem p buffer (c ∷ left) right size hl hr fits small =
    elim (Bool-cases (is_absolute p right)) [
      | inl e ↦ ground (arith, e, copy_right_lem buffer right size fits)
      | inr e ↦ ground (arith, e, copy_joined_lem p buffer (c ∷ left) right size hr fits)
    ]

glue-IsString : (p : Platform) (left right : CString) → IsString (glue p left right)
unfolding separator
glue-IsString p left [] = tt
glue-IsString posix left (c ∷ right) = ground arith
glue-IsString windows left (c ∷ right) = ground arith

pub joined-IsString :
    (p : Platform) (left right : CString)
    → IsString left
    → IsString right
    → IsString (joined p left right)
unfolding joined
joined-IsString p [] right hl hr = hr
joined-IsString p (c ∷ left) right hl hr = elim (Bool-cases (is_absolute p right)) [
  | inl e ↦ rw e hr
  | inr e ↦ rw e (
      All-append (λ x. x ≢ 0) (c ∷ left) _ hl
        (All-append (λ x. x ≢ 0) (glue p (c ∷ left) right) right (glue-IsString p (c ∷ left) right)
          hr))
]

length-written :
    (path buffer : CString)
    → length path < length buffer
    → length (written path buffer) ≡ length buffer
length-written path buffer h = omega (
  arith,
  length-append path (0 ∷ drop (length path + 1) buffer),
  length-drop (length path + 1) buffer,
)

-- In either build, for two strings whose lengths add up to less than 2^64 - 2 and a buffer that
-- holds the `size > 0` bytes announced, `x_path_join` writes inside the buffer only. If the joined
-- path and its terminator fit in `size` bytes it returns 0 and leaves them, read back as a string,
-- at the start of the buffer, whose length and whose bytes past the terminator stay; otherwise it
-- returns ENAMETOOLONG and leaves the buffer as it was.
pub path_join_lem :
    (p : Platform) (buffer left right : CString) (size : ℕ)
    → IsString left
    → IsString right
    → 0 < size
    → size ≤ length buffer
    → length left + length right + 2 < word
    → (path_join p (some buffer) size (some left) (some right)
        ≡ join_result (joined p left right) buffer size)
      × (read_string (written (joined p left right) buffer) ≡ joined p left right)
      × (length (joined p left right) < size
          → length (written (joined p left right) buffer) ≡ length buffer)
unfolding path_join
path_join_lem p buffer left right size hl hr pos fits small = (
  ground (arith, join_strings_lem p buffer left right size hl hr fits small),
  read_string-append (joined p left right) _ (joined-IsString p left right hl hr),
  λ h. length-written (joined p left right) buffer (omega arith),
)

-- What a successful call has left reads back as the joined path.
pub path_join-read :
    (p : Platform) (buffer left right after : CString) (size : ℕ)
    → IsString left
    → IsString right
    → 0 < size
    → size ≤ length buffer
    → length left + length right + 2 < word
    → path_join p (some buffer) size (some left) (some right) ≡ some (0, some after)
    → read_string after ≡ joined p left right
path_join-read p buffer left right after size hl hr pos fits small e =
    let w = path_join_lem p buffer left right size hl hr pos fits small in ground (arith, w.0, w.1)

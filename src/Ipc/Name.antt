-- ===== src/Ipc/Name.antt =====
-- The names of POSIX objects that src/x_ipc.c makes.
use xlib.Common.{
  ℕ, ◌+◌, ◌≤◌, ◌<◌, ◌≡◌, refl, ap, ◌∙◌, true, false, Option, none, some, List, [], ◌∷◌, ◌++◌,
  length, length-terminated, drop, ltb, ltb→lt, ◌==◌, if◌then◌else◌, CString, IsString, terminated,
  read_string, read_string-append, memcpy, memcpy-append, length-memcpy, append_assoc, enametoolong,
  word, arith, Bool-cases, inl, inr, add_word,
}
use xlib.FilePath.{byte_at, slash}
use xlib.Ipc.{make_posix_name, finish, put_behind_slash}

-- A name with one slash before it, unless it begins with one.
abbrev pub rooted : CString → CString
rooted name = if byte_at name 0 == slash then name else slash ∷ name

-- A call that has left `target` in the buffer if it fits there with its terminator, and has refused
-- otherwise.
abbrev pub Made : CString → List ℕ → ℕ → Option (ℕ × List ℕ) → Type 0
Made target buffer size none = ⊥
Made target buffer size (some (status, after)) =
    if ltb (length target) size
    then (status ≡ 0) × (read_string after ≡ target) × (length after ≡ length buffer)
    else (status ≡ enametoolong) × (after ≡ buffer)

not_long : (size n k : ℕ) → n + k ≤ size → n + k < word → ltb size (add_word n k) ≡ false
not_long size n k h small = ground arith

long : (size n k : ℕ) → size < n + k → n + k < word → ltb size (add_word n k) ≡ true
long size n k h small = ground arith

not_below : (a b : ℕ) → ltb a b ≡ false → b ≤ a
not_below a b e = ground arith

write_name :
    (name front tail : CString)
    → IsString name
    → length name + 1 ≤ length tail
    → (after : List ℕ) × (memcpy (front ++ tail) (length front) (terminated name)
        ≡ some (front ++ after))
      × (read_string after ≡ name)
write_name name front tail s fits = (
  terminated name ++ drop (length (terminated name)) tail,
  memcpy-append front (terminated name) tail (omega (arith, length-terminated name)),
  ap read_string (append_assoc name (0 ∷ []) (drop (length (terminated name)) tail))
      ∙ read_string-append name _ s,
)

Made-plain :
    (name : CString) (buffer : List ℕ) (size : ℕ)
    → IsString name
    → size ≤ length buffer
    → length name + 2 < word
    → Made name buffer size (
        if ltb size (add_word (length name) 1)
        then some (enametoolong, buffer)
        else finish (memcpy buffer 0 (terminated name)))
Made-plain name buffer size s fits small = elim (Bool-cases (ltb (length name) size)) [
  | inl e ↦
      let (after, writes, reads) = write_name name [] buffer s (omega (arith, ltb→lt _ _ e)) in
      rw (not_long size (length name) 1 (omega (arith, ltb→lt _ _ e)) (omega arith), writes, e)
        (refl, reads, length-memcpy buffer 0 (terminated name) after writes)
  | inr e ↦
      rw (long size (length name) 1 (omega (arith, not_below _ _ e)) (omega arith), e) (refl, refl)
]

Made-slash :
    (name : CString) (c : ℕ) (rest : List ℕ) (size : ℕ)
    → IsString name
    → size ≤ length (c ∷ rest)
    → length name + 2 < word
    → Made (slash ∷ name) (c ∷ rest) size (
        if ltb size (add_word (length name) 2)
        then some (enametoolong, c ∷ rest)
        else finish (put_behind_slash (c ∷ rest) name))
unfolding put_behind_slash read_string
Made-slash name c rest size s fits small = elim (Bool-cases (ltb (length (slash ∷ name)) size)) [
  | inl e ↦
      let (after, writes, reads) =
        write_name name (slash ∷ []) rest s (omega (arith, ltb→lt _ _ e)) in
      rw
        (
          not_long size (length name) 2 (omega (arith, ltb→lt _ _ e)) (omega arith),
          first,
          put_behind_slash,
          writes,
          e,
        )
        (
          refl,
          ap (λ r. slash ∷ r) reads,
          length-memcpy (slash ∷ rest) 1 (terminated name) (slash ∷ after) writes,
        )
  | inr e ↦
      rw (long size (length name) 2 (omega (arith, not_below _ _ e)) (omega arith), e) (refl, refl)
]
  where
    first : memcpy (c ∷ rest) 0 (slash ∷ []) ≡ some (slash ∷ rest)
    first = memcpy-append [] (slash ∷ []) (c ∷ rest) (omega arith)

-- A name of a POSIX object, in a buffer of at least the `size > 0` bytes announced:
-- `x_ipc_make_posix_name` never writes outside the buffer; if the name, with a slash before
-- it unless it begins with one, fits with its terminator, it returns 0 and leaves that name, else it
-- returns ENAMETOOLONG and leaves the buffer as it was. Names are shorter than 2^64 - 2 bytes.
pub make_posix_name_lem :
    (name : CString) (buffer : List ℕ) (size : ℕ)
    → IsString name
    → 0 < size
    → size ≤ length buffer
    → length name + 2 < word
    → Made (rooted name) buffer size (make_posix_name name buffer size)
unfolding make_posix_name
make_posix_name_lem name [] size s pos fits small = absurd (omega arith)
make_posix_name_lem name (c ∷ rest) size s pos fits small =
    elim (Bool-cases (byte_at name 0 == slash)) [
      | inl r ↦ rw (some_room, r) (Made-plain name (c ∷ rest) size s fits small)
      | inr r ↦ rw (some_room, r) (Made-slash name c rest size s fits small)
    ]
  where
    some_room : (size == 0) ≡ false
    some_room = ground arith

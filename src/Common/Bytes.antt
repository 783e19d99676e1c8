-- ===== src/Common/Bytes.antt =====
-- C strings and byte buffers. A string is the list of its bytes before the terminating zero; a
-- buffer is the list of all its bytes.
use Prim.Native.Nat.{ℕ, zero, suc, ◌+◌, ◌≤◌}
use mathlib.Core.Path.{◌≡◌, refl}
use mathlib.Core.Logic.{◌≢◌}
use mathlib.Core.List.{List, [], ◌∷◌, ◌++◌}
use mathlib.Core.Option.{Option, none, some}
use native.Mathlib.Omega.{arith}
use xlib.Common.Bools.{leb, ◌==◌, if◌then◌else◌}
use xlib.Common.Lists.{
  length, take, drop, All, length-append, length-take, length-drop, take-append, drop-append_add,
}

abbrev pub CString : Type 0
CString = List ℕ

-- No byte of a string is the terminator.
abbrev pub IsString : CString → Type 0
IsString s = All (λ c. c ≢ 0) s

-- The bytes of a string in memory.
abbrev pub terminated : CString → List ℕ
terminated s = s ++ 0 ∷ []

-- The string that stands at the start of a buffer.
unfoldable pub read_string : List ℕ → CString
read_string [] = []
read_string (c ∷ cs) = if c == 0 then [] else c ∷ read_string cs

-- `memcpy(buffer + offset, bytes, length bytes)`: `none` is a write outside the buffer.
unfoldable pub memcpy : List ℕ → ℕ → List ℕ → Option (List ℕ)
memcpy buffer offset bytes =
    if leb (offset + length bytes) (length buffer)
    then some (take offset buffer ++ (bytes ++ drop (offset + length bytes) buffer))
    else none

-- A buffer of zeros.
abbrev pub zeros : ℕ → List ℕ
zeros zero = []
zeros (suc n) = 0 ∷ zeros n

pub length-zeros : (n : ℕ) → length (zeros n) ≡ n
length-zeros zero = refl
length-zeros (suc n) = omega (arith, length-zeros n)

pub length-terminated : (s : CString) → length (terminated s) ≡ length s + 1
length-terminated s = omega (arith, length-append s (0 ∷ []))

pub read_string-append : (s rest : CString) → IsString s → read_string (s ++ 0 ∷ rest) ≡ s
unfolding read_string
read_string-append [] rest h = refl
read_string-append (c ∷ s) rest h = ground (arith, read_string-append s rest h.1)

-- A write inside the buffer succeeds and keeps the length.
pub memcpy-fits :
    (buffer : List ℕ) (offset : ℕ) (bytes : List ℕ)
    → offset + length bytes ≤ length buffer
    → memcpy buffer offset bytes
      ≡ some (take offset buffer ++ (bytes ++ drop (offset + length bytes) buffer))
unfolding memcpy
memcpy-fits buffer offset bytes h = ground arith

pub length-memcpy :
    (buffer : List ℕ) (offset : ℕ) (bytes after : List ℕ)
    → memcpy buffer offset bytes ≡ some after
    → length after ≡ length buffer
unfolding memcpy
length-memcpy buffer offset bytes after h = ground (
  arith,
  length-append (take offset buffer) (bytes ++ drop (offset + length bytes) buffer),
  length-append bytes (drop (offset + length bytes) buffer),
  length-take offset buffer,
  length-drop (offset + length bytes) buffer,
)

-- A write just past `xs` replaces the bytes that stand there.
pub memcpy-append :
    (xs bytes tail : List ℕ)
    → length bytes ≤ length tail
    → memcpy (xs ++ tail) (length xs) bytes ≡ some (xs ++ (bytes ++ drop (length bytes) tail))
unfolding memcpy
memcpy-append xs bytes tail h =
    ground
      (arith, length-append xs tail, take-append xs tail, drop-append_add xs tail (length bytes))

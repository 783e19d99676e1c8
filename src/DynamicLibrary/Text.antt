-- ===== src/DynamicLibrary/Text.antt =====
-- What `x_dynamic_library_set_error_text` leaves in the text of the last error.
use xlib.Common.{
  ℕ, zero, suc, ◌+◌, ◌≤◌, ◌<◌, ◌≡◌, refl, sym, ap, ◌∙◌, Option, none, some, List, [], ◌∷◌, ◌++◌,
  length, take, drop, length-append, length-drop, append_assoc, IsString, CString, terminated,
  length-terminated, ltb, if◌then◌else◌, enametoolong, read_string, memcpy, memcpy-append, arith,
  subst,
}
use xlib.DynamicLibrary.{strncpy, text_size, end_at, set_error_text, dynamic_library_last_error}

-- The zeros that `strncpy` puts behind a message.
padding : ℕ → CString → List ℕ
padding zero message = []
padding (suc count) [] = 0 ∷ padding count []
padding (suc count) (c ∷ message) = padding count message

strncpy_lem :
    (buffer : List ℕ) (message : CString) (count : ℕ)
    → count ≤ length buffer
    → strncpy buffer message count
      ≡ some (take count message ++ (padding count message ++ drop count buffer))
unfolding strncpy padding
strncpy_lem buffer message zero h = refl
strncpy_lem [] message (suc count) h = absurd (omega arith)
strncpy_lem (b ∷ buffer) [] (suc count) h =
    rw (strncpy_lem buffer [] count (omega arith)) (cut count)
  where
    cut :
        (n : ℕ)
        → some (0 ∷ (take n [] ++ (padding n [] ++ drop n buffer)))
          ≡ some (0 ∷ (padding n [] ++ drop n buffer))
    cut zero = refl
    cut (suc n) = refl
strncpy_lem (b ∷ buffer) (c ∷ message) (suc count) h =
    rw (strncpy_lem buffer message count (omega arith)) refl

length-padding :
    (count : ℕ) (message : CString)
    → length (take count message) + length (padding count message) ≡ count
unfolding padding
length-padding zero message = refl
length-padding (suc zero) [] = refl
length-padding (suc (suc count)) [] = omega (arith, length-padding (suc count) [])
length-padding (suc count) (c ∷ message) = omega (arith, length-padding count message)

read-padding :
    (count : ℕ) (message : CString) (rest : List ℕ)
    → IsString message
    → read_string (take count message ++ (padding count message ++ 0 ∷ rest)) ≡ take count message
unfolding padding read_string
read-padding zero message rest h = refl
read-padding (suc count) [] rest h = refl
read-padding (suc count) (c ∷ message) rest h = ground (arith, read-padding count message rest h.1)

-- The message, cut at 511 bytes.
abbrev pub said : Option CString → CString
said none = []
said (some message) = take 511 message

abbrev pub IsMessage : Option CString → Type 0
IsMessage none = Unit
IsMessage (some message) = IsString message

-- A text of the announced size that reads as a string.
abbrev pub Reads : CString → List ℕ → Type 0
Reads s text = (length text ≡ text_size) × (read_string text ≡ s)

-- What `strncpy` and the byte behind it leave.
end_lem :
    (n : ℕ) (message : CString) (text : List ℕ)
    → IsString message
    → n < length text
    → (after : List ℕ) × (end_at n (strncpy text message n) ≡ some after)
      × ((length after ≡ length text) × (read_string after ≡ take n message))
end_lem n message text h fits =
    let front = take n message ++ padding n message in
    let rest = drop n text in
    let size : length front ≡ n =
      length-append (take n message) (padding n message) ∙ length-padding n message in
    (
      front ++ (0 ∷ drop 1 rest),
      ap (end_at n) (strncpy_lem text message n (omega arith))
          ∙ ap (λ xs. memcpy xs n (0 ∷ []))
              (sym (append_assoc (take n message) (padding n message) rest))
          ∙ subst (λ k. memcpy (front ++ rest) k (0 ∷ []) ≡ some (front ++ (0 ∷ drop 1 rest))) size
              (memcpy-append front (0 ∷ []) rest (omega (arith, length-drop n text))),
      (
        omega (
          arith,
          length-append front (0 ∷ drop 1 rest),
          size,
          length-drop 1 rest,
          length-drop n text,
        ),
        ap read_string (append_assoc (take n message) (padding n message) (0 ∷ drop 1 rest))
            ∙ read-padding n message (drop 1 rest) h,
      ),
    )

pub set_error_text_lem :
    (message : Option CString) (text : List ℕ)
    → IsMessage message
    → length text ≡ text_size
    → (after : List ℕ) × (set_error_text message text ≡ some after) × Reads (said message) after
unfolding set_error_text read_string
set_error_text_lem none text h n =
    (_, memcpy-append [] (0 ∷ []) text (omega arith), (omega (arith, length-drop 1 text), refl))
set_error_text_lem (some message) text h n =
    let e = end_lem 511 message text h (omega arith) in (e.0, e.1, (e.2.0 ∙ n, e.2.1))

length-read_string : (text : List ℕ) → length (read_string text) ≤ length text
unfolding read_string
length-read_string [] = omega arith
length-read_string (c ∷ text) = ground (arith, length-read_string text)

-- For a text of 512 bytes that reads `s`, and a buffer of the announced size that is not 0: if `s` and its
-- terminator fit, `x_dynamic_library_last_error` returns 0 and leaves them at the start of the buffer; else
-- it returns ENAMETOOLONG and leaves the buffer.
last_error_lem :
    (text buffer : List ℕ) (size : ℕ) (s : CString)
    → Reads s text
    → 0 < size
    → size ≤ length buffer
    → dynamic_library_last_error text buffer size ≡ (
        if ltb (length s) size
        then some (0, terminated s ++ drop (length (terminated s)) buffer)
        else some (enametoolong, buffer))
unfolding dynamic_library_last_error
last_error_lem text buffer size s h p f =
    rw (h.1) (ground (arith, small, length-terminated s, memcpy-append [] (terminated s) buffer))
  where
    small : length s ≤ 512
    small =
        subst (λ k. length k ≤ 512) h.1
          (subst (λ n. length (read_string text) ≤ n) h.0 (length-read_string text))

-- ===== src/Process/Environment/Balance.antt =====
-- The calls on the environment give back all that they take, and the POSIX read fits its buffer.
use xlib.Common.{
  ℕ, ◌+◌, ◌<◌, ◌≡◌, ◌≢◌, ◌⊎◌, inl, inr, refl, Bool, true, false, Option, none, some, List, [], ◌∷◌,
  ◌++◌, ◌==◌, ltb, if◌then◌else◌, length, drop, read_string, einval, enoent, enametoolong, word,
  CString, IsString, terminated, memcpy, memcpy-append, length-terminated, read_string-append,
  Bool-cases, arith, ltb→lt, add_word, ◌≤◌, ap, ◌∙◌, append_assoc,
}
use xlib.FilePath.{Platform, posix, windows}
use xlib.Ledger.{Resource, Status, gave, gave_error}
use xlib.Ledger.Triple.{
  Balanced, Triple, Triple-bind, Triple-or_after, Triple-allocate, Triple-call, Triple-ask,
  Triple-guard, Triple-release, Triple-release_two, Triple-pure, Triple-fail, Triple-translated,
  Triple-tried_same, Triple-if,
}
use xlib.Process.Start.Balance.{utf8_to_wide-Triple}
use xlib.Process.Environment.{
  environment_get_posix, copied, environment_get_windows, finished, environment_set, set_on,
  environment_unset, unset_on, removed,
}

Triple-finished : {pre : List Resource} (x : Status ℕ) → Triple pre pre (λ _. pre) (finished x)
Triple-finished (gave n) = Triple-pure
Triple-finished (gave_error e) = Triple-fail

Triple-removed :
    {pre : List Resource} (x : Status (Unit {0})) → Triple pre pre (λ _. pre) (removed x)
Triple-removed (gave u) = Triple-pure
Triple-removed (gave_error e) = Triple-if (e == 203) Triple-pure Triple-fail

environment_get-Balanced : (given : Bool) → Balanced (λ _. []) (environment_get_windows given)
unfolding environment_get_windows
environment_get-Balanced given base = Triple-bind (Triple-guard given einval) λ _.
    Triple-bind (utf8_to_wide-Triple true) λ wide_name.
      Triple-bind (Triple-or_after (Triple-translated _ Triple-ask) Triple-release) λ _.
        Triple-bind (Triple-or_after Triple-allocate Triple-release) λ wide_value.
          Triple-bind (Triple-or_after (Triple-translated _ Triple-call) Triple-release_two) λ _.
            Triple-bind (Triple-tried_same Triple-ask) λ converted.
              Triple-bind Triple-release
                λ _. Triple-bind Triple-release λ _. Triple-finished converted

set_on-Triple :
    {pre : List Resource} (platform : Platform) → Triple pre pre (λ _. pre) (set_on platform)
unfolding set_on
set_on-Triple posix = Triple-call
set_on-Triple windows = Triple-bind (utf8_to_wide-Triple true) λ wide_name.
    Triple-bind (Triple-or_after (utf8_to_wide-Triple true) Triple-release) λ wide_value.
      Triple-bind (Triple-or_after (Triple-translated _ Triple-call) Triple-release_two)
        λ _. Triple-release_two

unset_on-Triple :
    {pre : List Resource} (platform : Platform) → Triple pre pre (λ _. pre) (unset_on platform)
unfolding unset_on
unset_on-Triple posix = Triple-call
unset_on-Triple windows = Triple-bind (utf8_to_wide-Triple true) λ wide_name.
    Triple-bind (Triple-tried_same Triple-call)
      λ status. Triple-bind Triple-release λ _. Triple-removed status

-- Whatever the system answers, `x_environment_get` in the Windows build, and `x_environment_set` and
-- `x_environment_unset` in either build, give back nothing twice and hold afterwards what they held before, whether they succeed or fail.
pub environment-Balanced :
    (platform : Platform) (given : Bool)
    → Balanced (λ _. []) (environment_get_windows given)
      × Balanced (λ _. []) (environment_set platform given)
      × Balanced (λ _. []) (environment_unset platform given)
unfolding environment_set environment_unset
environment-Balanced platform given = (
  environment_get-Balanced given,
  λ base. Triple-bind (Triple-guard given einval) λ _. set_on-Triple platform,
  λ base. Triple-bind (Triple-guard given einval) λ _. unset_on-Triple platform,
)

-- What the POSIX build of `x_environment_get` leaves.
abbrev pub Got : Option CString → List ℕ → ℕ → Option (ℕ × List ℕ) → Type 0
Got value buffer size none = ⊥
Got none buffer size (some (status, after)) = (status ≡ enoent) × (after ≡ buffer)
Got (some text) buffer size (some (status, after)) =
    ((length text < size) × (status ≡ 0) × (read_string after ≡ text))
    ⊎ ((size < length text + 1) × (status ≡ enametoolong) × (after ≡ buffer))

-- For a buffer of the announced size that is not 0, and a value that is a string whose length leaves
-- room for its terminator in 64 bits: `x_environment_get` in the POSIX build never writes outside
-- the buffer; it leaves the whole value and returns 0 if it fits with its terminator, returns
-- ENAMETOOLONG and leaves the buffer if it does not, and ENOENT for a name that has no value.
pub environment_get-Got :
    (value : Option CString) (buffer : List ℕ) (size : ℕ)
    → size ≢ 0
    → length buffer ≡ size
    → ((text : CString) → value ≡ some text → IsString text × (length text + 1 < word))
    → Got value buffer size (environment_get_posix value buffer size)
unfolding environment_get_posix copied
environment_get-Got none buffer size n l h = ground arith
environment_get-Got (some text) buffer size n l h =
    rw (is_zero, total) (chosen (Bool-cases (ltb size (length text + 1))))
  where
    is_zero : (size == 0) ≡ false
    is_zero = ground arith

    total : add_word (length text) 1 ≡ length text + 1
    total = omega (arith, (h text refl).1)

    fits : ltb size (length text + 1) ≡ false → length (terminated text) ≤ length buffer
    fits e = ground (arith, length-terminated text)

    written :
        ltb size (length text + 1) ≡ false
        → memcpy buffer 0 (terminated text)
          ≡ some (terminated text ++ drop (length (terminated text)) buffer)
    written e = memcpy-append [] (terminated text) buffer (fits e)

    chosen :
        (ltb size (length text + 1) ≡ true) ⊎ (ltb size (length text + 1) ≡ false)
        → Got (some text) buffer size (
            if ltb size (length text + 1)
            then some (enametoolong, buffer)
            else copied (memcpy buffer 0 (terminated text)))
    chosen (inl e) = rw e (inr (ltb→lt size (length text + 1) e, refl, refl))
    chosen (inr e) =
        rw (e, written e)
          (inl (
            ground arith,
            refl,
            ap read_string (append_assoc text (0 ∷ []) _)
                ∙ read_string-append text _ (h text refl).0,
          ))

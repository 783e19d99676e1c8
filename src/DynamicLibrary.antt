-- ===== src/DynamicLibrary.antt =====
-- The dynamic libraries of src/x_dynamic_library.c in both builds, with the text of the last error
-- that each thread keeps.
pub mod Text
pub mod Balance
pub mod Said
mod Tests
use xlib.Common.{
  ℕ, zero, suc, ◌+◌, Bool, true, false, not, ◌&&◌, Option, none, some, List, [], ◌∷◌, ◌==◌, ltb,
  if◌then◌else◌, length, CString, read_string, terminated, memcpy, add_word, einval, enoent, eacces,
  enomem, eio, enametoolong,
}
use xlib.FilePath.{Platform, posix, windows}
use xlib.Ledger.{
  M, Result, Resource, Status, gave, gave_error, library_handle, tried, ◌>>=◌, ◌>>◌, call, ask,
  acquire, allocate, release, pure, counted,
}

-- What the system says of errors: `strerror`; the text that `dlerror` gives of a failure, and the one that
-- it still has from before; for the n-th call, what `FormatMessageA` gives of an error, which is no
-- text when it fails, and `GetLastError` behind a call of `free`, of the error before.
pub record Messages : Type 0 where
  pub strerror : ℕ → CString
  pub pending : Option CString
  pub dlerror : ℕ → Option CString
  pub format : ℕ → ℕ → Option CString
  pub after_free : ℕ → ℕ → ℕ

-- `dlerror()`: the text that it has, and what it has afterwards.
abbrev dlerror_call : Option CString → Option CString × Option CString
dlerror_call pending = (pending, none)

-- What `dlerror` has behind a call of `dlopen` or `dlsym`.
abbrev pub pending_after : {A : Type 0} → Messages → Status A → Option CString → Option CString
pending_after messages (gave a) pending = pending
pending_after messages (gave_error e) pending = messages.dlerror e

abbrev put_byte : ℕ → Option (List ℕ) → Option (List ℕ)
put_byte c none = none
put_byte c (some rest) = some (c ∷ rest)

-- `strncpy(buffer, message, count)`: `none` is a write outside the buffer.
strncpy : List ℕ → CString → ℕ → Option (List ℕ)
strncpy buffer message zero = some buffer
strncpy [] message (suc count) = none
strncpy (b ∷ buffer) [] (suc count) = put_byte 0 (strncpy buffer [] count)
strncpy (b ∷ buffer) (c ∷ message) (suc count) = put_byte c (strncpy buffer message count)

-- The size of `x_dynamic_library_error`.
abbrev pub text_size : ℕ
text_size = 512

abbrev pub end_at : ℕ → Option (List ℕ) → Option (List ℕ)
end_at i none = none
end_at i (some text) = memcpy text i (0 ∷ [])

-- `x_dynamic_library_set_error_text`
pub set_error_text : Option CString → List ℕ → Option (List ℕ)
set_error_text none text = memcpy text 0 (0 ∷ [])
set_error_text (some message) text = end_at 511 (strncpy text message 511)

-- `x_dynamic_library_error_from_windows`
pub error_from_windows : ℕ → ℕ
error_from_windows error =
    if error == 0
    then 0
    else if error == 2
    then enoent
    else if error == 3
    then enoent
    else if error == 126
    then enoent
    else if error == 127
    then enoent
    else if error == 5
    then eacces
    else if error == 87
    then einval
    else if error == 193
    then einval
    else if error == 8
    then enomem
    else if error == 14
    then enomem
    else eio

-- What a call leaves: its status, the text of the last error, and the result where there is one.
pub record Report (A : Type 0) : Type 0 where
  pub status : ℕ
  pub text : List ℕ
  pub result : Option A

-- The text has been written; `none` was a write outside.
written : {A : Type 0} → ℕ → Option A → Option (List ℕ) → M (Report A)
written status result none o w = (Result.fault, w)
written status result (some text) o w =
    (Result.ok (record { status = status; text = text; result = result }), w)

failed : {A : Type 0} → Option CString → ℕ → List ℕ → M (Report A)
failed message status text = written status none (set_error_text message text)

-- `x_dynamic_library_set_error_code`, and the return of the code.
failed_code : {A : Type 0} → Messages → ℕ → List ℕ → M (Report A)
failed_code messages error text = failed (some (messages.strerror error)) error text

abbrev formatted : Messages → ℕ → Option CString → Option CString
formatted messages error none = some (messages.strerror (error_from_windows error))
formatted messages error (some message) = some message

-- `x_dynamic_library_set_windows_error`, and the return of the code.
failed_windows : {A : Type 0} → Messages → ℕ → List ℕ → M (Report A)
failed_windows messages error text o w =
    failed (formatted messages error (messages.format w.calls error)) (error_from_windows error)
      text o (counted w)

-- `x_dynamic_library_error[0] = '\0';` and success.
succeeded : {A : Type 0} → A → List ℕ → M (Report A)
succeeded a text = written 0 (some a) (memcpy text 0 (0 ∷ []))

-- The second conversion of `x_dynamic_library_utf8_to_wide`.
converted_to : Messages → List ℕ → Resource → Status (Unit {0}) → M (Report Resource)
converted_to messages text converted (gave u) =
    pure (record { status = 0; text = text; result = some converted })
converted_to messages text converted (gave_error e) = do
  release converted
  failed_windows messages e text

allocated_for : Messages → List ℕ → Status Resource → M (Report Resource)
allocated_for messages text (gave_error e) = failed_code messages enomem text
allocated_for messages text (gave converted) = do
  status ← tried call
  converted_to messages text converted status

counted_for : Messages → List ℕ → Status ℕ → M (Report Resource)
counted_for messages text (gave_error e) = failed_windows messages e text
counted_for messages text (gave count) = do
  allocated ← tried allocate
  allocated_for messages text allocated

-- `x_dynamic_library_utf8_to_wide`, of pointers that are not NULL.
pub utf8_to_wide : Messages → List ℕ → M (Report Resource)
utf8_to_wide messages text = do count ← tried ask; counted_for messages text count

-- `struct x_dynamic_library`, with its own memory.
pub record DynamicLibrary : Type 0 where
  pub created : Resource
  pub handle : Resource

-- `GetLastError()`
last_error : Messages → ℕ → M (Status Resource)
last_error messages e o w = (Result.ok (gave_error (messages.after_free w.calls e)), counted w)

loaded : Messages → List ℕ → Resource → Status Resource → M (Report DynamicLibrary)
loaded messages text created (gave handle) =
    succeeded (record { created = created; handle = handle }) text
loaded messages text created (gave_error e) = do release created; failed_windows messages e text

-- `free(wide_path)`, and what `GetLastError` gives behind it where `LoadLibraryW` has failed.
error_behind_free : Messages → Status Resource → M (Status Resource)
error_behind_free messages (gave handle) = pure (gave handle)
error_behind_free messages (gave_error e) = last_error messages e

load : Messages → Resource → ℕ → List ℕ → Option Resource → M (Report DynamicLibrary)
load messages created status text none = do
  release created
  pure (record { status = status; text = text; result = none })
load messages created status text (some wide_path) = do
  opened ← tried (acquire library_handle)
  release wide_path
  looked_at ← error_behind_free messages opened
  loaded messages text created looked_at

dlopened : Option CString → List ℕ → Resource → Status Resource → M (Report DynamicLibrary)
dlopened pending text created (gave handle) =
    succeeded (record { created = created; handle = handle }) text
dlopened pending text created (gave_error e) = do
  release created
  failed (dlerror_call pending).0 enoent text

open_created : Platform → Messages → List ℕ → Status Resource → M (Report DynamicLibrary)
open_created platform messages text (gave_error e) = failed_code messages enomem text
open_created posix messages text (gave created) = do
  opened ← tried (acquire library_handle)
  dlopened (pending_after messages opened (dlerror_call messages.pending).1) text created opened
open_created windows messages text (gave created) = do
  wide ← utf8_to_wide messages text
  load messages created wide.status wide.text wide.result

-- `x_dynamic_library_open`; `given` says that its pointers are not NULL.
pub dynamic_library_open : Platform → Messages → Bool → List ℕ → M (Report DynamicLibrary)
dynamic_library_open platform messages false text = failed_code messages einval text
dynamic_library_open platform messages true text = do
  allocated ← tried allocate
  open_created platform messages text allocated

-- `x_dynamic_library_close`, of a library that is not NULL.
pub dynamic_library_close : DynamicLibrary → M (Unit {0})
dynamic_library_close library = do release (library.handle); release (library.created)

-- The message of `dlerror` behind `dlsym`.
symbol_or : ℕ → List ℕ → Option CString → M (Report ℕ)
symbol_or symbol text none = succeeded symbol text
symbol_or symbol text (some message) = failed (some message) enoent text

found_address : Messages → List ℕ → Status ℕ → M (Report ℕ)
found_address messages text (gave address) = succeeded address text
found_address messages text (gave_error e) = failed_windows messages e text

abbrev pub address_of : Status ℕ → ℕ
address_of (gave address) = address
address_of (gave_error e) = 0

dlsym : Messages → List ℕ → M (Report ℕ)
dlsym messages text = do
  found ← tried ask
  symbol_or (address_of found) text
      (dlerror_call (pending_after messages found (dlerror_call messages.pending).1)).0

symbol_on : Platform → Messages → List ℕ → M (Report ℕ)
symbol_on posix messages text = dlsym messages text
symbol_on windows messages text = do address ← tried ask; found_address messages text address

-- `x_dynamic_library_symbol`; `given` says that its pointers are not NULL.
pub dynamic_library_symbol : Platform → Messages → Bool → List ℕ → M (Report ℕ)
dynamic_library_symbol platform messages false text = failed_code messages einval text
dynamic_library_symbol platform messages true text = symbol_on platform messages text

abbrev copied : Option (List ℕ) → Option (ℕ × List ℕ)
copied none = none
copied (some buffer) = some (0, buffer)

-- `x_dynamic_library_last_error`, of a buffer that is not NULL: the status and the buffer; `none` is a
-- write outside.
pub dynamic_library_last_error : List ℕ → List ℕ → ℕ → Option (ℕ × List ℕ)
dynamic_library_last_error text buffer size =
    let message = read_string text in
    if size == 0
    then some (einval, buffer)
    else if ltb size (add_word (length message) 1)
    then some (enametoolong, buffer)
    else copied (memcpy buffer 0 (terminated message))

-- ===== src/DynamicLibrary/Balance.antt =====
-- Dynamic libraries keep account of what they hold, and never write outside the text of the last error.
use xlib.Common.{
  ℕ, ◌≡◌, Bool, true, false, Option, none, some, List, [], ◌∷◌, ◌++◌, length, CString, enoent,
  enomem, einval,
}
use xlib.FilePath.{Platform, posix, windows}
use xlib.Ledger.{
  Resource, Status, gave, gave_error, library_handle, Oracle, listed, release, counted, ◌>>=◌, ◌>>◌,
}
use xlib.Ledger.Opening.{opened, Triple-open_over}
use xlib.Ledger.Yields.{Yields, Triple-bind_yields}
use xlib.Ledger.Triple.{
  Triple, Frees, Triple-bind, Triple-pure, Triple-acquire, Triple-allocate, Triple-call, Triple-ask,
  Triple-tried, Triple-tried_same, settled, Triple-release, Triple-release_two,
}
use xlib.DynamicLibrary.{
  Messages, text_size, set_error_text, error_from_windows, written, failed, failed_code, formatted,
  failed_windows, succeeded, pending_after, last_error, error_behind_free, address_of, converted_to,
  allocated_for, counted_for, utf8_to_wide, DynamicLibrary, loaded, load, dlopened, open_created,
  dynamic_library_open, dynamic_library_close, symbol_or, found_address, dlsym, symbol_on,
  dynamic_library_symbol,
}
use xlib.DynamicLibrary.Text.{IsMessage, set_error_text_lem}
use xlib.DynamicLibrary.Said.{
  IsMessages, dynamic_library-Told, Sized, Told, Tells, utf8_to_wide-Told,
}

-- What a library holds.
abbrev pub library_parts : Option DynamicLibrary → List Resource
library_parts none = []
library_parts (some library) = library.handle ∷ library.created ∷ []

failed-Triple :
    {A : Type 0} {errs : List Resource} (own : Option A → List Resource) (message : Option CString)
    (status : ℕ) (text : List ℕ)
    → IsMessage message
    → Sized text
    → Triple (own none) errs (λ r. own r.result) (failed message status text)
unfolding failed written
failed-Triple own message status text h n =
    let t = set_error_text_lem message text h n in record { run = λ o w e. rw (t.1) e }

succeeded-Triple :
    {A : Type 0} {errs : List Resource} (own : Option A → List Resource) (a : A) (text : List ℕ)
    → Sized text
    → Triple (own (some a)) errs (λ r. own r.result) (succeeded a text)
unfolding succeeded written set_error_text
succeeded-Triple own a text n =
    let t = set_error_text_lem none text tt n in record { run = λ o w e. rw (t.1) e }

module _ (messages : Messages) (strings : IsMessages messages) (text : List ℕ)
    (sized : Sized text) where
  failed_code-Triple :
      {A : Type 0} {errs : List Resource} (own : Option A → List Resource) (e : ℕ)
      → Triple (own none) errs (λ r. own r.result) (failed_code messages e text)
  unfolding failed_code
  failed_code-Triple own e = failed-Triple own _ e text (strings.strerror e) sized

  failed_windows-Triple :
      {A : Type 0} {errs : List Resource} (own : Option A → List Resource) (e : ℕ)
      → Triple (own none) errs (λ r. own r.result) (failed_windows messages e text)
  unfolding failed_windows
  failed_windows-Triple own e = record {
    run = λ o w h.
        (failed-Triple own _ (error_from_windows e) text
            (formatted-IsMessage (messages.format w.calls e) (strings.format w.calls e)) sized).run
          o (counted w) h;
  }
    where
      formatted-IsMessage :
          (message : Option CString) → IsMessage message → IsMessage (formatted messages e message)
      formatted-IsMessage none h = strings.strerror _
      formatted-IsMessage (some message) h = h

  utf8_to_wide-Triple :
      {base errs : List Resource}
      → Triple base errs (λ r. listed r.result ++ base) (utf8_to_wide messages text)
  unfolding utf8_to_wide counted_for allocated_for converted_to
  utf8_to_wide-Triple {base = base} {errs = errs} =
      Triple-bind (Triple-tried_same Triple-ask) counting
    where
      own : Option Resource → List Resource
      own x = listed x ++ base

      second :
          (converted : Resource) (s : Status (Unit {0}))
          → Triple
              (converted ∷ base)
              errs
              (λ r. own r.result)
              (converted_to messages text converted s)
      second converted (gave u) = Triple-pure
      second converted (gave_error e) = Triple-bind Triple-release λ _. failed_windows-Triple own e

      buffer :
          (s : Status Resource)
          → Triple
              (settled base (λ r. r ∷ base) s)
              errs
              (λ r. own r.result)
              (allocated_for messages text s)
      buffer (gave converted) = Triple-bind (Triple-tried_same Triple-call) (second converted)
      buffer (gave_error e) = failed_code-Triple own enomem

      counting : (s : Status ℕ) → Triple base errs (λ r. own r.result) (counted_for messages text s)
      counting (gave n) = Triple-bind (Triple-tried Triple-allocate) buffer
      counting (gave_error e) = failed_windows-Triple own e

  module _ (base errs : List Resource) where
    abbrev held : Option DynamicLibrary → List Resource
    held x = library_parts x ++ base

    dlopened-Triple :
        (created : Resource) (s : Status Resource)
        → Triple
            (settled (created ∷ base) (λ r. r ∷ created ∷ base) s)
            errs
            (λ r. held r.result)
            (dlopened (pending_after messages s none) text created s)
    unfolding dlopened
    dlopened-Triple created (gave handle) = succeeded-Triple held _ text sized
    dlopened-Triple created (gave_error e) =
        Triple-bind Triple-release
          λ _. failed-Triple held (messages.dlerror e) enoent text (strings.dlerror e) sized

    loaded-Triple :
        (created : Resource) (s : Status Resource)
        → Triple
            (opened s ++ created ∷ base)
            errs
            (λ r. held r.result)
            (error_behind_free messages s >>= λ looked_at. loaded messages text created looked_at)
    unfolding loaded error_behind_free last_error
    loaded-Triple created (gave handle) = record { run = (succeeded-Triple held _ text sized).run }
    loaded-Triple created (gave_error e) = record {
      run = λ o w h. (then_failed (messages.after_free w.calls e)).run o (counted w) h;
    }
      where
        then_failed :
            (f : ℕ)
            → Triple
                (created ∷ base)
                errs
                (λ r. held r.result)
                (release created >> failed_windows messages f text)
        then_failed f = Triple-bind Triple-release λ _. failed_windows-Triple held f

abbrev held_on : List Resource → Option DynamicLibrary → List Resource
held_on base x = library_parts x ++ base

load-Triple :
    (o : Oracle) (messages : Messages) (strings : IsMessages messages) (created : Resource)
    (base errs : List Resource) (status : ℕ) (text : List ℕ) (wide : Option Resource)
    → Tells Sized o messages status text wide
    → Triple
        (listed wide ++ created ∷ base)
        errs
        (λ r. held_on base r.result)
        (load messages created status text wide)
unfolding load
load-Triple o messages strings created base errs status text none h =
    Triple-bind Triple-release λ _. Triple-pure
load-Triple o messages strings created base errs status text (some wide_path) h =
    Triple-open_over _ wide_path (created ∷ base) (λ any. Triple-acquire library_handle)
      (loaded-Triple messages strings text h.1 base errs created)

open_created-Triple :
    (platform : Platform) (messages : Messages) (strings : IsMessages messages) (text : List ℕ)
    (base errs : List Resource) (s : Status Resource)
    → Sized text
    → Triple
        (settled base (λ r. r ∷ base) s)
        errs
        (λ r. held_on base r.result)
        (open_created platform messages text s)
unfolding open_created
open_created-Triple platform messages strings text base errs (gave_error e) n =
    failed_code-Triple messages strings text n (held_on base) enomem
open_created-Triple posix messages strings text base errs (gave created) n =
    Triple-bind (Triple-tried (Triple-acquire library_handle))
      (dlopened-Triple messages strings text n base errs created)
open_created-Triple windows messages strings text base errs (gave created) n =
    Triple-bind_yields (utf8_to_wide-Triple messages strings text n)
      (λ o. utf8_to_wide-Told messages strings text n)
      λ o r h. load-Triple o messages strings created base errs r.status r.text r.result h

symbol-Triple :
    (platform : Platform) (messages : Messages) (strings : IsMessages messages) (text : List ℕ)
    (base errs : List Resource)
    → Sized text
    → Triple base errs (λ _. base) (symbol_on platform messages text)
unfolding symbol_on dlsym symbol_or found_address
symbol-Triple posix messages strings text base errs n =
    Triple-bind (Triple-tried_same Triple-ask) by_status
  where
    by_text :
        (address : ℕ) (message : Option CString)
        → IsMessage message
        → Triple base errs (λ _. base) (symbol_or address text message)
    by_text address none h = succeeded-Triple (λ _. base) address text n
    by_text address (some message) h = failed-Triple (λ _. base) (some message) enoent text h n

    by_status :
        (s : Status ℕ)
        → Triple base errs
            (λ _. base)
            (symbol_or (address_of s) text (pending_after messages s none))
    by_status (gave address) = by_text address none tt
    by_status (gave_error e) = by_text 0 (messages.dlerror e) (strings.dlerror e)
symbol-Triple windows messages strings text base errs n =
    Triple-bind (Triple-tried_same Triple-ask) found
  where
    found : (s : Status ℕ) → Triple base errs (λ _. base) (found_address messages text s)
    found (gave address) = succeeded-Triple (λ _. base) address text n
    found (gave_error e) = failed_windows-Triple messages strings text n (λ _. base) e

symbol_given-Triple :
    (platform : Platform) (messages : Messages) (given : Bool) (text : List ℕ)
    (base errs : List Resource)
    → IsMessages messages
    → Sized text
    → Triple base errs (λ _. base) (dynamic_library_symbol platform messages given text)
unfolding dynamic_library_symbol
symbol_given-Triple platform messages false text base errs strings n =
    failed_code-Triple messages strings text n (λ _. base) einval
symbol_given-Triple platform messages true text base errs strings n =
    symbol-Triple platform messages strings text base errs n

open-Triple :
    (platform : Platform) (messages : Messages) (given : Bool) (text : List ℕ)
    (base errs : List Resource)
    → IsMessages messages
    → Sized text
    → Triple base errs
        (λ r. held_on base r.result)
        (dynamic_library_open platform messages given text)
unfolding dynamic_library_open
open-Triple platform messages false text base errs strings n =
    failed_code-Triple messages strings text n (held_on base) einval
open-Triple platform messages true text base errs strings n =
    Triple-bind (Triple-tried Triple-allocate)
      λ s. open_created-Triple platform messages strings text base errs s n

-- In either build, whatever the system answers, if its messages are strings and the text of the last error
-- has its 512 bytes: `x_dynamic_library_open` and `x_dynamic_library_symbol` always return, write inside
-- the text only and give back nothing twice. When opening fails, it leaks nothing; when it succeeds, it holds
-- exactly the memory and the handle of the library, which `x_dynamic_library_close` gives back. After
-- success the text is the empty string. After an error the text is the first 511 bytes of the message for
-- it: that of `strerror` for EINVAL and ENOMEM; that of `dlerror`, with ENOENT, for a failure that the system
-- has answered, never one that `dlerror` still had from before; or that of `FormatMessageA`, else of
-- `strerror`, for a Windows error that the system has answered, or for what the `free` before `GetLastError`
-- has made of it. The status is not 0, unless that `free` has made the error 0.
pub dynamic_library-Reports :
    (platform : Platform) (messages : Messages) (given : Bool) (text : List ℕ)
    (base errs : List Resource) (o : Oracle)
    → IsMessages messages
    → length text ≡ text_size
    → (Triple base errs
          (λ r. library_parts r.result ++ base)
          (dynamic_library_open platform messages given text)
        × Yields o (Told o messages) (dynamic_library_open platform messages given text))
      × ((Triple base errs (λ _. base) (dynamic_library_symbol platform messages given text)
            × Yields o (Told o messages) (dynamic_library_symbol platform messages given text))
          × ((library : DynamicLibrary)
              → Frees (library_parts (some library)) (dynamic_library_close library)))
unfolding dynamic_library_close
dynamic_library-Reports platform messages given text base errs o strings n =
    let told = dynamic_library-Told messages strings platform given text n in
    (
      (open-Triple platform messages given text base errs strings n, told.0),
      (
        (symbol_given-Triple platform messages given text base errs strings n, told.1),
        λ library b e. Triple-release_two,
      ),
    )

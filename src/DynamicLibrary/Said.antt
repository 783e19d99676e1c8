-- ===== src/DynamicLibrary/Said.antt =====
-- The text of the last error tells of the last call.
use xlib.Common.{
  ℕ, ◌≡◌, ◌≢◌, ◌⊎◌, inl, inr, refl, subst, Bool, true, false, Bool-cases, ◌==◌, ==_iff, Option,
  none, some, List, [], length, CString, IsString, enoent, enomem, einval, arith,
}
use xlib.FilePath.{Platform, posix, windows}
use xlib.Ledger.{
  Resource, Status, gave, gave_error, library_handle, release, counted, Oracle, World, ◌>>=◌, ◌>>◌,
  pure,
}
use xlib.Ledger.Yields.{
  Yields, Satisfies, Answered, Failing, Yields-bind, Yields-pure, Yields-any, Yields-then,
  Yields-call, Yields-ask, Yields-acquire,
}
use xlib.DynamicLibrary.{
  Messages, text_size, set_error_text, error_from_windows, Report, written, failed, failed_code,
  formatted, failed_windows, succeeded, pending_after, converted_to, allocated_for, counted_for,
  utf8_to_wide, last_error, error_behind_free, DynamicLibrary, loaded, load, dlopened, open_created,
  dynamic_library_open, symbol_or, found_address, address_of, dlsym, symbol_on,
  dynamic_library_symbol,
}
use xlib.DynamicLibrary.Text.{said, IsMessage, Reads, set_error_text_lem}

-- The texts of the system are strings; what `dlerror` has from before is left open.
pub record IsMessages (messages : Messages) : Type 0 where
  pub strerror : (e : ℕ) → IsString (messages.strerror e)
  pub dlerror : (e : ℕ) → IsMessage (messages.dlerror e)
  pub format : (n e : ℕ) → IsMessage (messages.format n e)

-- What `GetLastError` gives: an error that a call of the system has answered, as it is or as a `free`
-- has left it.
pub data LastError (o : Oracle) (messages : Messages) : ℕ → Type 0 where
  answered : (e : ℕ) → Answered o e → LastError o messages e
  behind_free : (n e : ℕ) → Answered o e → LastError o messages (messages.after_free n e)

-- The message for a status, of a system that answers as `o` does.
pub data From (o : Oracle) (messages : Messages) : ℕ → Option CString → Type 0 where
  of_einval : From o messages einval (some (messages.strerror einval))
  of_enomem : From o messages enomem (some (messages.strerror enomem))
  of_dlerror : (e : ℕ) → Answered o e → From o messages enoent (messages.dlerror e)
  of_windows :
      (e n : ℕ) (message : CString)
      → LastError o messages e
      → messages.format n e ≡ some message
      → From o messages (error_from_windows e) (some message)
  not_formatted :
      (e n : ℕ)
      → LastError o messages e
      → messages.format n e ≡ none
      → From o messages (error_from_windows e) (some (messages.strerror (error_from_windows e)))

-- A `free` has set the error of a failed call to 0.
abbrev pub Lost : Oracle → Messages → Type 0
Lost o messages = (n : ℕ) × (e : ℕ) × Answered o e × (messages.after_free n e ≡ 0)

-- An error has a text; success has the text `Q`.
abbrev pub Tells :
    (List ℕ → Type 0) → {A : Type 0} → Oracle → Messages → ℕ → List ℕ → Option A → Type 0
Tells Q o messages status text none =
    ((status ≢ 0) ⊎ Lost o messages)
    × ((message : Option CString) × From o messages status message × Reads (said message) text)
Tells Q o messages status text (some a) = (status ≡ 0) × Q text

abbrev pub Told : {A : Type 0} → Oracle → Messages → Report A → Type 0
Told o messages r = Tells (Reads []) o messages r.status r.text r.result

abbrev pub Sized : List ℕ → Type 0
Sized text = length text ≡ text_size

module _ {o : Oracle} where
  failed-Told :
      {A : Type 0} (Q : List ℕ → Type 0) (messages : Messages) (message : Option CString)
      (status : ℕ) (text : List ℕ)
      → IsMessage message
      → Sized text
      → (status ≢ 0) ⊎ Lost o messages
      → From o messages status message
      → Yields {A = Report A} o
          (λ r. Tells Q o messages r.status r.text r.result)
          (failed message status text)
  unfolding failed written
  failed-Told Q messages message status text h n s f =
      let t = set_error_text_lem message text h n in
      record { run = λ w. rw (t.1) (s, (message, f, t.2)) }

  succeeded-Told :
      {A : Type 0} (messages : Messages) (a : A) (text : List ℕ)
      → Sized text
      → Yields o (λ r. Told o messages r) (succeeded a text)
  unfolding succeeded written set_error_text
  succeeded-Told messages a text n =
      let t = set_error_text_lem none text tt n in record { run = λ w. rw (t.1) (refl, t.2) }

error_from_windows-pos : (e : ℕ) → e ≢ 0 → error_from_windows e ≢ 0
unfolding error_from_windows
error_from_windows-pos e h = ground (arith, h)

-- The status of an error is not 0, unless a `free` has set the error to 0.
windows-Lost :
    (o : Oracle) (messages : Messages) (e : ℕ)
    → LastError o messages e
    → (error_from_windows e ≢ 0) ⊎ Lost o messages
windows-Lost o messages _ (answered e (n, q, h)) = inl (error_from_windows-pos e h)
windows-Lost o messages _ (behind_free k e h) = elim (Bool-cases (messages.after_free k e == 0)) [
  | inl z ↦ inr (k, e, h, (==_iff _ 0).0 z)
  | inr z ↦ inl (error_from_windows-pos _ λ q. ground (arith, q, z))
]

module _ {o : Oracle} (messages : Messages) (strings : IsMessages messages) (text : List ℕ)
    (sized : Sized text) where
  failed_windows-Told :
      {A : Type 0} (Q : List ℕ → Type 0) (e : ℕ)
      → LastError o messages e
      → Yields {A = Report A} o
          (λ r. Tells Q o messages r.status r.text r.result)
          (failed_windows messages e text)
  unfolding failed_windows
  failed_windows-Told {A = A} Q e h = record {
    run = λ w. by_format w.calls w (messages.format w.calls e) refl;
  }
    where
      by_format :
          (n : ℕ) (w : World) (message : Option CString)
          → messages.format n e ≡ message
          → Satisfies
              (λ r. Tells Q o messages r.status r.text r.result)
              (failed {A = A}
                (formatted messages e message)
                (error_from_windows e)
                text
                o
                (counted w))
      by_format n w none q =
          (failed-Told Q messages _ (error_from_windows e) text (strings.strerror _) sized
              (windows-Lost o messages e h) (not_formatted e n h q)).run
            (counted w)
      by_format n w (some message) q =
          (failed-Told Q messages _ (error_from_windows e) text
              (subst IsMessage q (strings.format n e)) sized (windows-Lost o messages e h)
              (of_windows e n message h q)).run
            (counted w)

  failed_einval-Told :
      {A : Type 0} → Yields {A = Report A} o (Told o messages) (failed_code messages einval text)
  unfolding failed_code
  failed_einval-Told =
      failed-Told (Reads []) messages _ einval text (strings.strerror einval) sized
        (inl (omega arith)) of_einval

  failed_enomem-Told :
      {A : Type 0} (Q : List ℕ → Type 0)
      → Yields {A = Report A} o
          (λ r. Tells Q o messages r.status r.text r.result)
          (failed_code messages enomem text)
  unfolding failed_code
  failed_enomem-Told Q =
      failed-Told Q messages _ enomem text (strings.strerror enomem) sized (inl (omega arith))
        of_enomem

  pub utf8_to_wide-Told :
      Yields o (λ r. Tells Sized o messages r.status r.text r.result) (utf8_to_wide messages text)
  unfolding utf8_to_wide counted_for allocated_for converted_to
  utf8_to_wide-Told = Yields-bind Yields-ask counting
    where
      second :
          (converted : Resource) (s : Status (Unit {0}))
          → Failing o s
          → Yields o
              (λ r. Tells Sized o messages r.status r.text r.result)
              (converted_to messages text converted s)
      second converted (gave u) h = Yields-pure (refl, sized)
      second converted (gave_error e) h = Yields-then _ (failed_windows-Told Sized e (answered e h))

      buffer :
          (s : Status Resource)
          → Yields o
              (λ r. Tells Sized o messages r.status r.text r.result)
              (allocated_for messages text s)
      buffer (gave converted) = Yields-bind Yields-call (second converted)
      buffer (gave_error e) = failed_enomem-Told Sized

      counting :
          (s : Status ℕ)
          → Failing o s
          → Yields o
              (λ r. Tells Sized o messages r.status r.text r.result)
              (counted_for messages text s)
      counting (gave n) h = Yields-bind Yields-any λ s _. buffer s
      counting (gave_error e) h = failed_windows-Told Sized e (answered e h)

  dlopened-Told :
      (created : Resource) (s : Status Resource)
      → Failing o s
      → Yields o (Told o messages) (dlopened (pending_after messages s none) text created s)
  unfolding dlopened
  dlopened-Told created (gave handle) h = succeeded-Told messages _ text sized
  dlopened-Told created (gave_error e) h = Yields-then _ (
      failed-Told (Reads []) messages _ enoent text (strings.dlerror e) sized (inl (omega arith))
        (of_dlerror e h))

  loaded-Told :
      (created : Resource) (s : Status Resource)
      → Failing o s
      → Yields o
          (Told o messages)
          (error_behind_free messages s >>= λ looked_at. loaded messages text created looked_at)
  unfolding loaded error_behind_free last_error
  loaded-Told created (gave handle) h = Yields-then (pure tt) (succeeded-Told messages _ text sized)
  loaded-Told created (gave_error e) h = record {
    run = λ w. (then_failed (behind_free w.calls e h)).run (counted w);
  }
    where
      then_failed :
          {f : ℕ}
          → LastError o messages f
          → Yields {A = Report DynamicLibrary} o
              (Told o messages)
              (release created >> failed_windows messages f text)
      then_failed l = Yields-then (release created) (failed_windows-Told (Reads []) _ l)

  symbol_or-Told :
      (s : Status ℕ)
      → Failing o s
      → Yields o (Told o messages) (symbol_or (address_of s) text (pending_after messages s none))
  unfolding symbol_or
  symbol_or-Told (gave address) h = succeeded-Told messages address text sized
  symbol_or-Told (gave_error e) h = by_text (messages.dlerror e) refl
    where
      by_text :
          (message : Option CString)
          → messages.dlerror e ≡ message
          → Yields o (Told o messages) (symbol_or 0 text message)
      by_text none q = succeeded-Told messages _ text sized
      by_text (some message) q =
          failed-Told (Reads []) messages (some message) enoent text
            (subst IsMessage q (strings.dlerror e)) sized (inl (omega arith))
            (subst (From o messages enoent) q (of_dlerror e h))

  symbol_on-Told :
      (platform : Platform) → Yields o (Told o messages) (symbol_on platform messages text)
  unfolding symbol_on dlsym found_address
  symbol_on-Told posix = Yields-bind Yields-ask symbol_or-Told
  symbol_on-Told windows = Yields-bind Yields-ask found
    where
      found :
          (s : Status ℕ) → Failing o s → Yields o (Told o messages) (found_address messages text s)
      found (gave address) h = succeeded-Told messages address text sized
      found (gave_error e) h = failed_windows-Told (Reads []) e (answered e h)

module _ {o : Oracle} (messages : Messages) (strings : IsMessages messages) where
  load-Told :
      (created : Resource) (status : ℕ) (text : List ℕ) (wide : Option Resource)
      → Tells Sized o messages status text wide
      → Yields o (Told o messages) (load messages created status text wide)
  unfolding load
  load-Told created status text none h = Yields-then _ (Yields-pure h)
  load-Told created status text (some wide_path) h =
      Yields-bind (Yields-acquire library_handle)
        λ s f. Yields-then _ (loaded-Told messages strings text h.1 created s f)

  open_created-Told :
      (platform : Platform) (text : List ℕ) (s : Status Resource)
      → Sized text
      → Yields o (Told o messages) (open_created platform messages text s)
  unfolding open_created
  open_created-Told platform text (gave_error e) n =
      failed_enomem-Told messages strings text n (Reads [])
  open_created-Told posix text (gave created) n =
      Yields-bind (Yields-acquire library_handle) (dlopened-Told messages strings text n created)
  open_created-Told windows text (gave created) n =
      Yields-bind (utf8_to_wide-Told messages strings text n)
        λ r h. load-Told created r.status r.text r.result h

  -- The two calls, for `Balance`.
  pub dynamic_library-Told :
      (platform : Platform) (given : Bool) (text : List ℕ)
      → length text ≡ text_size
      → Yields o (Told o messages) (dynamic_library_open platform messages given text)
        × Yields o (Told o messages) (dynamic_library_symbol platform messages given text)
  unfolding dynamic_library_open dynamic_library_symbol
  dynamic_library-Told platform false text n =
      (failed_einval-Told messages strings text n, failed_einval-Told messages strings text n)
  dynamic_library-Told platform true text n = (
    Yields-bind Yields-any λ s _. open_created-Told platform text s n,
    symbol_on-Told messages strings text n platform,
  )

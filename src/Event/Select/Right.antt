-- ===== src/Event/Select/Right.antt =====
-- What is asked of `select` and told to the sources, for `x_event_loop_wait_sockets` of src/x_event.c in
-- the build with `select`.
use xlib.Common.{
  ℕ, ◌+◌, ◌<◌, ◌*◌, ◌/◌, ◌%◌, ◌≡◌, refl, sym, ap, subst, ◌∙◌, Bool, true, false, ◌&&◌, Option, none,
  some, List, [], ◌∷◌, ltb, leb, ◌==◌, if◌then◌else◌, arith, Bool-cases, inl, inr,
}
use xlib.FilePath.{Platform, posix, windows}
use xlib.Event.{Source, event_read, event_write}
use xlib.Event.Valid.{is_watched}
use xlib.Event.Select.{
  is_set, Sets, empty_sets, watch_all, select_sets, Timeout, timeout_of_ms, SelectWait, returns,
  sleeps, selects, without_sockets, waiting_of, select_flags, any, asks_on, Fits,
}
use xlib.Event.Select.Asked.{
  watch_all-sets, after_sources-member, Fits-filled, watch_all-inside, watch_all-inside_windows,
  watch_all-has, watch_all-max,
}

any-true :
    (p q : Source → Bool) (xs : List Source)
    → ((x : Source) → p x ≡ true → q x ≡ true)
    → any p xs ≡ true
    → any q xs ≡ true
any-true p q [] h e = e
any-true p q (x ∷ xs) h e = ground (arith, h x, any-true p q xs h)

any-false : (p : Source → Bool) (xs : List Source) → ((x : Source) → p x ≡ false) → any p xs ≡ false
any-false p [] h = refl
any-false p (x ∷ xs) h = ground (arith, h x, any-false p xs h)

-- A source of the descriptor that is told that it can be read, or written.
abbrev pub told_read : Sets → ℕ → Source → Bool
told_read ready h x = (x.native_handle == h) && (select_flags ready x % 2 == 1)

abbrev pub told_write : Sets → ℕ → Source → Bool
told_write ready h x = (x.native_handle == h) && (select_flags ready x / 2 == 1)

-- `select` takes descriptors out of the sets and puts none in.
pub record IsLeft (asked ready : Sets) : Type 0 where
  pub read : (h : ℕ) → is_set h ready.read_set ≡ true → is_set h asked.read_set ≡ true
  pub write : (h : ℕ) → is_set h ready.write_set ≡ true → is_set h asked.write_set ≡ true

module _ (xs : List Source) (ready : Sets) (h : ℕ) where
  reads :
      (is_set h ready.read_set ≡ true → any (asks_on event_read h) xs ≡ true)
      → is_set h ready.read_set ≡ any (told_read ready h) xs
  unfolding select_flags
  reads asked = elim (Bool-cases (is_set h ready.read_set)) [
    | inl e ↦
        e
        ∙ sym (
            any-true (asks_on event_read h) (told_read ready h) xs (λ x a. ground (arith, e, a))
              (asked e))
    | inr e ↦ e ∙ sym (any-false (told_read ready h) xs (λ x. ground (arith, e)))
  ]

  writes :
      (is_set h ready.write_set ≡ true → any (asks_on event_write h) xs ≡ true)
      → is_set h ready.write_set ≡ any (told_write ready h) xs
  unfolding select_flags
  writes asked = elim (Bool-cases (is_set h ready.write_set)) [
    | inl e ↦
        e
        ∙ sym (
            any-true (asks_on event_write h) (told_write ready h) xs (λ x a. ground (arith, e, a))
              (asked e))
    | inr e ↦ e ∙ sym (any-false (told_write ready h) xs (λ x. ground (arith, e)))
  ]

-- A timeout in seconds and microseconds that lasts so many milliseconds, or none.
abbrev pub Lasts : Option ℕ → Option Timeout → Type 0
Lasts none none = Unit
Lasts (some ms) (some t) = (t.tv_sec * 1_000_000 + t.tv_usec ≡ ms * 1000) × (t.tv_usec < 1_000_000)
Lasts ms t = ⊥

-- The function returns at once, or sleeps so many milliseconds.
abbrev pub Rests : Option ℕ → SelectWait → Type 0
Rests none wait = wait ≡ returns
Rests (some ms) wait = wait ≡ sleeps ms

-- A call of `select`, on POSIX for a number of descriptors that is above every socket's.
abbrev pub Selects : Platform → List Source → Sets → Option ℕ → SelectWait → Type 0
Selects platform xs sets timeout returns = ⊥
Selects platform xs sets timeout (sleeps ms) = ⊥
Selects windows xs sets timeout (selects nfds asked t) = (asked ≡ sets) × Lasts timeout t
Selects posix xs sets timeout (selects nfds asked t) =
    ((asked ≡ sets) × Lasts timeout t)
    × (any (λ x. is_watched x && leb nfds x.native_handle) xs ≡ false)

-- With a socket and without.
abbrev pub Waits :
    Platform → List Source → Sets → Option ℕ → (any_socket : Bool) → SelectWait → Type 0
Waits platform xs sets timeout true wait = Selects platform xs sets timeout wait
Waits platform xs sets timeout false wait = Rests timeout wait

timeout_of_ms-Lasts : (timeout : Option ℕ) → Lasts timeout (timeout_of_ms timeout)
timeout_of_ms-Lasts none = tt
timeout_of_ms-Lasts (some ms) = (omega arith, omega arith)

above_all :
    (n : ℕ) (xs : List Source)
    → any (λ x. is_watched x && ltb n x.native_handle) xs ≡ false
    → any (λ x. is_watched x && leb (n + 1) x.native_handle) xs ≡ false
above_all n [] e = refl
above_all n (x ∷ xs) e = ground (arith, e, above_all n xs)

without_sockets-Rests : (timeout : Option ℕ) → Rests timeout (without_sockets timeout)
without_sockets-Rests none = refl
without_sockets-Rests (some ms) = refl

selects-Selects :
    (platform : Platform) (xs : List Source) (timeout : Option ℕ)
    → let sets = watch_all platform xs empty_sets in
      Selects platform xs sets timeout (selects (sets.max_fd + 1) sets (timeout_of_ms timeout))
selects-Selects windows xs timeout = (refl, timeout_of_ms-Lasts timeout)
selects-Selects posix xs timeout =
    ((refl, timeout_of_ms-Lasts timeout), above_all _ xs (watch_all-max xs empty_sets))

waiting_of-Waits :
    (platform : Platform) (xs : List Source) (timeout : Option ℕ)
    → Waits platform xs
        (select_sets platform xs)
        timeout
        (any is_watched xs)
        (waiting_of platform xs timeout)
unfolding waiting_of select_sets
waiting_of-Waits platform xs timeout =
    subst (λ b. Waits platform xs sets timeout b (waiting_of platform xs timeout))
      (watch_all-has platform xs empty_sets) (either sets.has_socket)
  where
    sets : Sets
    sets = watch_all platform xs empty_sets

    either :
        (b : Bool)
        → Waits platform xs sets timeout b (
            if b
            then selects (sets.max_fd + 1) sets (timeout_of_ms timeout)
            else without_sockets timeout)
    either true = selects-Selects platform xs timeout
    either false = without_sockets-Rests timeout

-- In the build with `select`, for sources whose sockets fit in its sets (on POSIX each descriptor is below
-- 1024, on Windows there are at most 64), and sets that it leaves of those that it is given: no write is
-- outside the sets; a descriptor is asked for in a set just when an active socket source asks for that
-- flag on it, and it is left in the set just when a source of it is told so by its flags, so that nothing that
-- is ready is lost, and nobody is told what is not. Where there is an active socket source, `select`
-- is called with these sets, for the time that was given, and in the POSIX build with a number of
-- descriptors above each of theirs; else the function returns without a timeout, or sleeps for it.
pub select-Right :
    (platform : Platform) (xs : List Source) (ready : Sets) (h : ℕ) (timeout : Option ℕ)
    → Fits platform xs
    → IsLeft (select_sets platform xs) ready
    → (((is_set h (select_sets platform xs).read_set ≡ any (asks_on event_read h) xs)
          × (is_set h (select_sets platform xs).write_set ≡ any (asks_on event_write h) xs))
        × ((is_set h ready.read_set ≡ any (told_read ready h) xs)
            × (is_set h ready.write_set ≡ any (told_write ready h) xs)))
      × (((select_sets platform xs).outside ≡ false)
          × Waits platform xs
              (select_sets platform xs)
              timeout
              (any is_watched xs)
              (waiting_of platform xs timeout))
unfolding select_sets
select-Right platform xs ready h timeout fits left =
    let sets = watch_all-sets platform xs empty_sets in
    let room = Fits-filled platform xs fits in
    let read = ap (is_set h) sets.0 ∙ after_sources-member platform event_read h xs [] room in
    let write = ap (is_set h) sets.1 ∙ after_sources-member platform event_write h xs [] room in
    (
      (
        (read, write),
        (
          reads xs ready h (λ e. sym read ∙ left.read h e),
          writes xs ready h (λ e. sym write ∙ left.write h e),
        ),
      ),
      (inside platform fits, waiting_of-Waits platform xs timeout),
    )
  where
    inside : (p : Platform) → Fits p xs → (watch_all p xs empty_sets).outside ≡ false
    inside posix f = watch_all-inside xs empty_sets f refl
    inside windows f = watch_all-inside_windows xs empty_sets refl

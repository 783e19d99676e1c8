-- ===== src/Ledger.antt =====
-- The resources that the calls of src/x_memory.c, src/x_ipc.c, src/x_thread.c and src/x_event.c take from the system and give
-- back, and the programs that make such calls.
pub mod Bag
pub mod Opening
pub mod Triple
pub mod Yields
use xlib.Common.{
  ℕ, zero, suc, ◌+◌, ◌≡◌, refl, Bool, true, false, not, ◌&&◌, Option, none, some, List, [], ◌∷◌,
  ◌++◌, ◌==◌, if◌then◌else◌, enomem, einval,
}

-- What a call may take from the system.
pub data Kind : Type 0 where
  memory descriptor section view semaphore_handle thread_handle mutex_attributes mutex_handle
        condition_handle tls_handle socket_handle process_handle read_end write_end file_handle
        address_list directory_handle library_handle :
      Kind

abbrev pub code : Kind → ℕ
code memory = 0
code descriptor = 1
code section = 2
code view = 3
code semaphore_handle = 4
code thread_handle = 5
code mutex_attributes = 6
code mutex_handle = 7
code condition_handle = 8
code tls_handle = 9
code socket_handle = 10
code process_handle = 11
code read_end = 12
code write_end = 13
code file_handle = 14
code address_list = 15
code directory_handle = 16
code library_handle = 17

-- A resource is named after the call that took it.
pub record Resource : Type 0 where
  pub kind : Kind
  pub id : ℕ

-- What the n-th call of the system answers: 0 or `errno`, and a value.
pub record Oracle : Type 0 where
  pub status : ℕ → ℕ
  pub value : ℕ → ℕ

-- The resources that are held, the last one first, and the number of calls so far.
pub record World : Type 0 where
  pub held : List Resource
  pub calls : ℕ

-- `fault` is a resource that is given back but not held: a double free, or a double close.
pub data Result {ℓ} (A : Type ℓ) : Type ℓ where
  ok : A → Result A
  err : ℕ → Result A
  fault : Result A

abbrev pub M : Type 0 → Type 0
M A = Oracle → World → Result A × World

abbrev pub pure : {A : Type 0} → A → M A
pure a o w = (ok a, w)

abbrev pub fail : {A : Type 0} → ℕ → M A
fail e o w = (err e, w)

abbrev pub bind_result : {A B : Type 0} → Result A × World → Oracle → (A → M B) → Result B × World
bind_result (ok a, w) o f = f a o w
bind_result (err e, w) o f = (err e, w)
bind_result (fault, w) o f = (fault, w)

infixl 5 ◌>>=◌ ◌>>◌
abbrev pub ◌>>=◌ : {A B : Type 0} → M A → (A → M B) → M B
◌>>=◌ m f o w = bind_result (m o w) o f

abbrev pub ◌>>◌ : {B : Type 0} → M (Unit {0}) → M B → M B
m >> k = m >>= λ _. k

abbrev pub guard : Bool → ℕ → M (Unit {0})
guard true e o w = (ok tt, w)
guard false e o w = (err e, w)

abbrev pub counted : World → World
counted w = record w { calls = w.calls + 1 }

-- A call that only succeeds or fails.
unfoldable pub call : M (Unit {0})
call o w = if o.status w.calls == 0 then (ok tt, counted w) else (err (o.status w.calls), counted w)

-- A call that gives a value when it succeeds.
unfoldable pub ask : M ℕ
ask o w =
    if o.status w.calls == 0
    then (ok (o.value w.calls), counted w)
    else (err (o.status w.calls), counted w)

-- A call that takes a resource when it succeeds.
unfoldable pub acquire : Kind → M Resource
acquire kind o w =
    let taken : Resource = record { kind = kind; id = w.calls } in
    if o.status w.calls == 0
    then (ok taken, record { held = taken ∷ w.held; calls = w.calls + 1 })
    else (err (o.status w.calls), counted w)

-- `calloc(1, sizeof(*created))`, and what all its callers return when it gives NULL.
unfoldable pub allocate : M Resource
allocate o w =
    let taken : Resource = record { kind = memory; id = w.calls } in
    if o.status w.calls == 0
    then (ok taken, record { held = taken ∷ w.held; calls = w.calls + 1 })
    else (err enomem, counted w)

-- A call that takes two resources when it succeeds.
unfoldable pub acquire_two : Kind → Kind → M (Resource × Resource)
acquire_two first second o w =
    let a : Resource = record { kind = first; id = w.calls } in
    let b : Resource = record { kind = second; id = w.calls } in
    if o.status w.calls == 0
    then (ok (a, b), record { held = a ∷ b ∷ w.held; calls = w.calls + 1 })
    else (err (o.status w.calls), counted w)

abbrev pub is_same : Resource → Resource → Bool
is_same r x = (code r.kind == code x.kind) && (r.id == x.id)

abbrev kept : Resource → Result (List Resource) → Result (List Resource)
kept x (ok xs) = ok (x ∷ xs)
kept x (err e) = err e
kept x fault = fault

-- The list without the first entry for a resource, or nothing where it has none.
unfoldable pub without : Resource → List Resource → Result (List Resource)
without r [] = fault
without r (x ∷ xs) = let rest = without r xs in if is_same r x then ok xs else kept x rest

abbrev put_held : Result (List Resource) → World → Result (Unit {0}) × World
put_held (ok held) w = (ok tt, record { held = held; calls = w.calls + 1 })
put_held (err e) w = (fault, w)
put_held fault w = (fault, w)

-- `free`, `close`, `munmap` and their like, whose result the source does not read.
unfoldable pub release : Resource → M (Unit {0})
unfolding without
release r o w = put_held (without r w.held) w

-- A call whose result is not read.
abbrev pub ignored : M (Unit {0})
ignored o w = (ok tt, counted w)

abbrev pub after_cleanup : {A : Type 0} → ℕ → Result (Unit {0}) × World → Result A × World
after_cleanup e (ok u, v) = (err e, v)
after_cleanup e (err d, v) = (err e, v)
after_cleanup e (fault, v) = (fault, v)

abbrev pub after_step : {A : Type 0} → M (Unit {0}) → Oracle → Result A × World → Result A × World
after_step cleanup o (ok a, v) = (ok a, v)
after_step cleanup o (err e, v) = after_cleanup e (cleanup o v)
after_step cleanup o (fault, v) = (fault, v)

-- A step, and what is done before its error is returned.
infixl 6 ◌or_after◌
abbrev pub ◌or_after◌ : {A : Type 0} → M A → M (Unit {0}) → M A
◌or_after◌ m cleanup o w = after_step cleanup o (m o w)

abbrev pub report : {A : Type 0} → (ℕ → ℕ) → Result A × World → Result A × World
report f (ok a, v) = (ok a, v)
report f (err e, v) = (err (f e), v)
report f (fault, v) = (fault, v)

-- A step whose error is reported as another.
abbrev pub translated : {A : Type 0} → (ℕ → ℕ) → M A → M A
translated f m o w = report f (m o w)

-- What a step has returned, when the code goes on either way.
pub data Status {ℓ} (A : Type ℓ) : Type ℓ where
  gave : A → Status A
  gave_error : ℕ → Status A

abbrev pub settle : {A : Type 0} → Result A × World → Result (Status A) × World
settle (ok a, v) = (ok (gave a), v)
settle (err e, v) = (ok (gave_error e), v)
settle (fault, v) = (fault, v)

-- A step whose error is a value that the code goes on with.
abbrev pub tried : {A : Type 0} → M A → M (Status A)
tried m o w = settle (m o w)

abbrev pub listed : Option Resource → List Resource
listed none = []
listed (some r) = r ∷ []

-- A step that is taken only where its test holds.
abbrev pub optional : Bool → M Resource → M (Option Resource)
optional true m = m >>= λ r. pure (some r)
optional false m = pure none

-- `if (handle != NULL) close(handle);`, and `free` of a pointer that may be NULL.
abbrev pub release_option : Option Resource → M (Unit {0})
release_option none = pure tt
release_option (some r) = release r

-- ===== src/Ipc/Balance.antt =====
-- The calls of src/x_ipc.c keep account of what they hold.
use xlib.Common.{
  ℕ, ◌+◌, ◌<◌, ◌≡◌, Bool, Option, none, some, List, [], ◌∷◌, ◌++◌, ◌==◌, not, ◌&&◌, einval, length,
  CString, IsString, word, arith,
}
use xlib.FilePath.{Platform, posix, windows}
use xlib.Ledger.{Resource, M, descriptor, section, view, semaphore_handle, ignored, pure}
use xlib.Ledger.Triple.{
  on_test, Balanced, Frees, Triple, Triple-bind, Triple-or_after, Triple-acquire, Triple-allocate,
  Triple-call, Triple-ask, Triple-guard, Triple-release, Triple-release_two, Triple-release_three,
  Triple-pure, Triple-translated, Triple-ignored, Triple-give,
}
use xlib.Ipc.{
  SharedMemory, posix_memory, windows_memory, NamedSemaphore, posix_name_of, named, map_shared,
  create_posix, create_windows, create_on, shared_memory_create, open_posix, open_windows, open_on,
  shared_memory_open, shared_memory_close, take_semaphore, named_semaphore_create,
  named_semaphore_close,
}
use xlib.Ipc.Name.{Made, rooted, make_posix_name_lem}

-- What an object of shared memory holds.
abbrev pub holdings : SharedMemory → List Resource
holdings (posix_memory created data_view size) = data_view ∷ created ∷ []
holdings (windows_memory created handle data_view size) = data_view ∷ handle ∷ created ∷ []

-- A name, and the buffer of 256 bytes for it.
abbrev pub Usable : CString → List ℕ → Type 0
Usable name buffer = IsString name × (length buffer ≡ 256) × (length name + 2 < word)

Triple-named :
    {pre : List Resource} (name : CString) (buffer : List ℕ) (made : Option (ℕ × List ℕ))
    → Made (rooted name) buffer 256 made
    → Triple pre pre (λ _. pre) (named made)
Triple-named name buffer none h = absurd h
Triple-named {pre = pre} name buffer (some (status, b)) h = record {
  run = λ o w k. on_test pre (λ (_ : CString). pre) (status == 0) _ _ k k;
}

Triple-posix_name_of :
    {pre : List Resource} (name : CString) (buffer : List ℕ)
    → Usable name buffer
    → Triple pre pre (λ _. pre) (posix_name_of name buffer)
unfolding posix_name_of
Triple-posix_name_of name buffer u =
    Triple-named name buffer _
      (make_posix_name_lem name buffer 256 u.0 (omega arith) (omega (arith, u.1)) u.2)

Triple-map_shared :
    (created fd : Resource) (base : List Resource) (undo : M (Unit {0}))
    → ((pre errs : List Resource) → Triple pre errs (λ _. pre) undo)
    → Triple (fd ∷ created ∷ base) base (λ v. v ∷ created ∷ base) (map_shared created fd undo)
unfolding map_shared
Triple-map_shared created fd base undo u =
    Triple-bind
      (Triple-or_after (Triple-acquire view)
        (Triple-bind Triple-release λ _. Triple-bind (u _ _) λ _. Triple-release))
      λ v. Triple-bind (Triple-give (record { counts = λ x. omega arith })) λ _. Triple-pure

create_posix-Triple :
    (created : Resource) (name : CString) (buffer : List ℕ) (size : ℕ) (base : List Resource)
    → Usable name buffer
    → Triple (created ∷ base) base (λ s. holdings s ++ base) (create_posix created name buffer size)
unfolding create_posix
create_posix-Triple created name buffer size base u =
    Triple-bind (Triple-or_after (Triple-posix_name_of name buffer u) Triple-release) λ _.
      Triple-bind (Triple-or_after (Triple-acquire descriptor) Triple-release) λ fd.
        Triple-bind
          (Triple-or_after Triple-call (Triple-bind Triple-ignored λ _. Triple-release_two))
          λ _.
            Triple-bind (Triple-map_shared created fd base ignored λ _ _. Triple-ignored)
              λ _. Triple-pure

create_windows-Triple :
    (created : Resource) (size : ℕ) (base : List Resource)
    → Triple (created ∷ base) base (λ s. holdings s ++ base) (create_windows created size)
unfolding create_windows
create_windows-Triple created size base =
    Triple-bind (Triple-or_after (Triple-translated _ (Triple-acquire section)) Triple-release) λ _.
      Triple-bind (Triple-or_after (Triple-translated _ (Triple-acquire view)) Triple-release_two)
        λ _. Triple-pure

open_posix-Triple :
    (created : Resource) (name : CString) (buffer : List ℕ) (base : List Resource)
    → Usable name buffer
    → Triple (created ∷ base) base (λ s. holdings s ++ base) (open_posix created name buffer)
unfolding open_posix
open_posix-Triple created name buffer base u =
    Triple-bind (Triple-or_after (Triple-posix_name_of name buffer u) Triple-release) λ _.
      Triple-bind (Triple-or_after (Triple-acquire descriptor) Triple-release) λ fd.
        Triple-bind (Triple-or_after Triple-ask Triple-release_two) λ _.
          Triple-bind (Triple-or_after (Triple-guard _ _) Triple-release_two) λ _.
            Triple-bind (Triple-map_shared created fd base (pure tt) λ _ _. Triple-pure)
              λ _. Triple-pure

open_windows-Triple :
    (created : Resource) (base : List Resource)
    → Triple (created ∷ base) base (λ s. holdings s ++ base) (open_windows created)
unfolding open_windows
open_windows-Triple created base =
    Triple-bind (Triple-or_after (Triple-translated _ (Triple-acquire section)) Triple-release) λ _.
      Triple-bind (Triple-or_after (Triple-translated _ (Triple-acquire view)) Triple-release_two)
        λ _.
          Triple-bind (Triple-or_after (Triple-translated _ Triple-ask) Triple-release_three)
            λ _. Triple-pure

create_on-Triple :
    (platform : Platform) (created : Resource) (name : CString) (buffer : List ℕ) (size : ℕ)
    (base : List Resource)
    → Usable name buffer
    → Triple
        (created ∷ base)
        base
        (λ s. holdings s ++ base)
        (create_on platform created name buffer size)
unfolding create_on
create_on-Triple posix created name buffer size base u =
    create_posix-Triple created name buffer size base u
create_on-Triple windows created name buffer size base u = create_windows-Triple created size base

open_on-Triple :
    (platform : Platform) (created : Resource) (name : CString) (buffer : List ℕ)
    (base : List Resource)
    → Usable name buffer
    → Triple (created ∷ base) base (λ s. holdings s ++ base) (open_on platform created name buffer)
unfolding open_on
open_on-Triple posix created name buffer base u = open_posix-Triple created name buffer base u
open_on-Triple windows created name buffer base u = open_windows-Triple created base

-- In either build, for a name that is a string and the 256 bytes of the name's buffer, whatever the
-- system answers: `x_shared_memory_create` gives back nothing twice and writes inside the buffer;
-- when it fails it holds nothing that it did not hold before, and when it succeeds it
-- holds besides exactly the memory of the object and its mapping.
pub shared_memory_create-Balanced :
    (platform : Platform) (given : Bool) (name : CString) (buffer : List ℕ) (size : ℕ)
    → Usable name buffer
    → Balanced holdings (shared_memory_create platform given name buffer size)
unfolding shared_memory_create
shared_memory_create-Balanced platform given name buffer size u base =
    Triple-bind (Triple-guard (given && not (size == 0)) einval) λ _.
      Triple-bind Triple-allocate
        λ created. create_on-Triple platform created name buffer size base u

-- In either build, for a name that is a string and the 256 bytes of the name's buffer, whatever the
-- system answers: `x_shared_memory_open` gives back nothing twice and writes inside the buffer; when
-- it fails it holds nothing that it did not hold before, and when it succeeds it holds
-- besides exactly the memory of the object and its mapping.
pub shared_memory_open-Balanced :
    (platform : Platform) (given : Bool) (name : CString) (buffer : List ℕ)
    → Usable name buffer
    → Balanced holdings (shared_memory_open platform given name buffer)
unfolding shared_memory_open
shared_memory_open-Balanced platform given name buffer u base =
    Triple-bind (Triple-guard given einval)
      λ _. Triple-bind Triple-allocate λ created. open_on-Triple platform created name buffer base u

-- `x_shared_memory_close` gives back exactly what an object holds, and reports no error.
pub shared_memory_close-Frees : (s : SharedMemory) → Frees (holdings s) (shared_memory_close s)
unfolding shared_memory_close
shared_memory_close-Frees (posix_memory created data_view size) base errs = Triple-release_two
shared_memory_close-Frees (windows_memory created handle data_view size) base errs =
    Triple-release_three

-- What a named semaphore holds.
abbrev pub semaphore_holdings : NamedSemaphore → List Resource
semaphore_holdings s = s.handle ∷ s.created ∷ []

take_semaphore-Triple :
    (platform : Platform) (created : Resource) (name : CString) (buffer : List ℕ)
    (base : List Resource)
    → Usable name buffer
    → Triple
        (created ∷ base)
        base
        (λ s. semaphore_holdings s ++ base)
        (take_semaphore platform created name buffer)
unfolding take_semaphore
take_semaphore-Triple posix created name buffer base u =
    Triple-bind (Triple-or_after (Triple-posix_name_of name buffer u) Triple-release) λ _.
      Triple-bind (Triple-or_after (Triple-acquire semaphore_handle) Triple-release)
        λ _. Triple-pure
take_semaphore-Triple windows created name buffer base u =
    Triple-bind
      (Triple-or_after (Triple-translated _ (Triple-acquire semaphore_handle)) Triple-release)
      λ _. Triple-pure

-- In either build, for a name that is a string and the 256 bytes of the name's buffer, whatever the
-- system answers: `x_named_semaphore_create` and `x_named_semaphore_open` give back nothing twice and
-- write inside the buffer; when they fail they hold nothing that they did not hold before, and
-- when they succeed they hold besides exactly what `x_named_semaphore_close` gives back without an error.
pub named_semaphore_create-Balanced :
    (platform : Platform) (given : Bool) (name : CString) (buffer : List ℕ)
    → Usable name buffer
    → Balanced semaphore_holdings (named_semaphore_create platform given name buffer)
      × ((s : NamedSemaphore) → Frees (semaphore_holdings s) (named_semaphore_close s))
unfolding named_semaphore_create named_semaphore_close
named_semaphore_create-Balanced platform given name buffer u = (
  λ base. Triple-bind (Triple-guard given einval) λ _.
      Triple-bind Triple-allocate
        λ created. take_semaphore-Triple platform created name buffer base u,
  λ s base errs. Triple-release_two,
)

-- In either build, for a name that is a string and the 256 bytes of the name's buffer, whatever the
-- system answers: `x_shared_memory_create`, `x_shared_memory_open`, `x_named_semaphore_create` and
-- `x_named_semaphore_open` give back nothing twice and write inside the buffer; when they fail they hold
-- nothing that they did not hold before, and when they succeed they hold besides exactly what
-- `x_shared_memory_close` and `x_named_semaphore_close` give back without an error.
pub ipc-Balanced :
    (platform : Platform) (given : Bool) (name : CString) (buffer : List ℕ) (size : ℕ)
    → Usable name buffer
    → Balanced holdings (shared_memory_create platform given name buffer size)
      × Balanced holdings (shared_memory_open platform given name buffer)
      × ((s : SharedMemory) → Frees (holdings s) (shared_memory_close s))
      × Balanced semaphore_holdings (named_semaphore_create platform given name buffer)
      × ((s : NamedSemaphore) → Frees (semaphore_holdings s) (named_semaphore_close s))
ipc-Balanced platform given name buffer size u =
    let semaphore = named_semaphore_create-Balanced platform given name buffer u in
    (
      shared_memory_create-Balanced platform given name buffer size u,
      shared_memory_open-Balanced platform given name buffer u,
      shared_memory_close-Frees,
      semaphore.0,
      semaphore.1,
    )

-- ===== src/Ipc.antt =====
-- Shared memory and named semaphores of src/x_ipc.c, in the POSIX and the Windows build.
pub mod Name
pub mod Balance
mod Tests
use xlib.Common.{
  ℕ, zero, suc, ◌+◌, ◌≡◌, refl, Bool, true, false, not, ◌&&◌, Option, none, some, List, [], ◌∷◌,
  length, ltb, ◌==◌, if◌then◌else◌, CString, terminated, read_string, memcpy, add_word, enoent,
  enomem, einval, eacces, eexist, eio, enametoolong,
}
use xlib.FilePath.{Platform, posix, windows, byte_at, slash}
use xlib.Ledger.{
  Resource, M, Kind, Result, ok, err, fault, memory, descriptor, section, view, semaphore_handle,
  ◌>>=◌, ◌>>◌, guard, call, ask, acquire, allocate, release, ignored, ◌or_after◌, translated, pure,
  fail,
}

-- `x_ipc_error_from_windows`.
pub error_from_windows : ℕ → ℕ
error_from_windows error =
    if error == 0
    then 0
    else if error == 2
    then enoent
    else if error == 3
    then enoent
    else if error == 183
    then eexist
    else if error == 5
    then eacces
    else if error == 87
    then einval
    else if error == 123
    then einval
    else if error == 8
    then enomem
    else if error == 14
    then enomem
    else eio

-- The write of the slash, then that of the name behind it.
put_behind_slash : List ℕ → CString → Option (List ℕ)
put_behind_slash buffer name = elim (memcpy buffer 0 (slash ∷ [])) [
  | none ↦ none
  | some b ↦ memcpy b 1 (terminated name)
]

abbrev finish : Option (List ℕ) → Option (ℕ × List ℕ)
finish none = none
finish (some b) = some (0, b)

-- `x_ipc_make_posix_name`, of a name and a buffer that are not NULL: the status and the buffer.
-- `none` is a write outside the buffer.
pub make_posix_name : CString → List ℕ → ℕ → Option (ℕ × List ℕ)
unfolding put_behind_slash
make_posix_name name buffer size =
    if size == 0
    then some (einval, buffer)
    else if byte_at name 0 == slash
    then if ltb size (add_word (length name) 1)
      then some (enametoolong, buffer)
      else finish (memcpy buffer 0 (terminated name))
    else if ltb size (add_word (length name) 2)
    then some (enametoolong, buffer)
    else finish (put_behind_slash buffer name)

abbrev named : Option (ℕ × List ℕ) → M CString
named none o w = (fault, w)
named (some (status, b)) o w = if status == 0 then (ok (read_string b), w) else (err status, w)

-- `char posix_name[256]`, filled by `x_ipc_make_posix_name`; `buffer` is what stands in it before.
posix_name_of : CString → List ℕ → M CString
unfolding make_posix_name
posix_name_of name buffer = named (make_posix_name name buffer 256)

-- `struct x_shared_memory`, with its own memory.
pub data SharedMemory : Type 0 where
  posix_memory : (created data_view : Resource) (size : ℕ) → SharedMemory
  windows_memory : (created handle data_view : Resource) (size : ℕ) → SharedMemory

-- What follows the `mmap` of a shared object: its descriptor is closed in any case.
map_shared : Resource → Resource → M (Unit {0}) → M Resource
map_shared created fd undo = do
  data_view ← acquire view or_after (do release fd; undo; release created)
  release fd
  pure data_view

create_posix : Resource → CString → List ℕ → ℕ → M SharedMemory
unfolding posix_name_of map_shared
create_posix created name buffer size = do
  path ← posix_name_of name buffer or_after release created
  fd ← acquire descriptor or_after release created
  call or_after (do ignored; release fd; release created)
  data_view ← map_shared created fd ignored
  pure (posix_memory created data_view size)

create_windows : Resource → ℕ → M SharedMemory
create_windows created size = do
  handle ← translated error_from_windows (acquire section) or_after release created
  data_view ←
      translated error_from_windows (acquire view) or_after (do release handle; release created)
  pure (windows_memory created handle data_view size)

create_on : Platform → Resource → CString → List ℕ → ℕ → M SharedMemory
unfolding create_posix create_windows
create_on posix created name buffer size = create_posix created name buffer size
create_on windows created name buffer size = create_windows created size

-- `x_shared_memory_create`; `given` says that neither pointer is NULL. The calls of `shm_unlink` on
-- its error paths have no result that it reads.
pub shared_memory_create : Platform → Bool → CString → List ℕ → ℕ → M SharedMemory
unfolding create_on
shared_memory_create platform given name buffer size = do
  guard (given && not (size == 0)) einval
  created ← allocate
  create_on platform created name buffer size

open_posix : Resource → CString → List ℕ → M SharedMemory
unfolding posix_name_of map_shared
open_posix created name buffer = do
  path ← posix_name_of name buffer or_after release created
  fd ← acquire descriptor or_after release created
  size ← ask or_after (do release fd; release created)
  guard (not (size == 0)) einval or_after (do release fd; release created)
  data_view ← map_shared created fd (pure tt)
  pure (posix_memory created data_view size)

open_windows : Resource → M SharedMemory
open_windows created = do
  handle ← translated error_from_windows (acquire section) or_after release created
  data_view ←
      translated error_from_windows (acquire view) or_after (do release handle; release created)
  size ← translated (λ _. eio) ask or_after (do release data_view; release handle; release created)
  pure (windows_memory created handle data_view size)

open_on : Platform → Resource → CString → List ℕ → M SharedMemory
unfolding open_posix open_windows
open_on posix created name buffer = open_posix created name buffer
open_on windows created name buffer = open_windows created

-- `x_shared_memory_open`.
pub shared_memory_open : Platform → Bool → CString → List ℕ → M SharedMemory
unfolding open_on
shared_memory_open platform given name buffer = do
  guard given einval
  created ← allocate
  open_on platform created name buffer

-- `x_shared_memory_size` of an object that is not NULL.
pub shared_memory_size : SharedMemory → ℕ
shared_memory_size (posix_memory created data_view size) = size
shared_memory_size (windows_memory created handle data_view size) = size

-- `x_shared_memory_close` of an object that is not NULL.
pub shared_memory_close : SharedMemory → M (Unit {0})
shared_memory_close (posix_memory created data_view size) = do release data_view; release created
shared_memory_close (windows_memory created handle data_view size) = do
  release data_view
  release handle
  release created

-- `x_shared_memory_unlink` and `x_named_semaphore_unlink` of a name that is not NULL.
pub unlink : Platform → CString → List ℕ → M (Unit {0})
unfolding posix_name_of
unlink posix name buffer = do path ← posix_name_of name buffer; call
unlink windows name buffer = pure tt

-- `struct x_named_semaphore`, with its own memory.
pub record NamedSemaphore : Type 0 where
  pub created : Resource
  pub handle : Resource

-- `sem_open`, behind the name that it is given in the POSIX build.
take_semaphore : Platform → Resource → CString → List ℕ → M NamedSemaphore
unfolding posix_name_of
take_semaphore posix created name buffer = do
  path ← posix_name_of name buffer or_after release created
  handle ← acquire semaphore_handle or_after release created
  pure (record { created = created; handle = handle })
take_semaphore windows created name buffer = do
  handle ← translated error_from_windows (acquire semaphore_handle) or_after release created
  pure (record { created = created; handle = handle })

-- `x_named_semaphore_create`, and `x_named_semaphore_open`: they differ in the flags of `sem_open`.
pub named_semaphore_create : Platform → Bool → CString → List ℕ → M NamedSemaphore
unfolding take_semaphore
named_semaphore_create platform given name buffer = do
  guard given einval
  created ← allocate
  take_semaphore platform created name buffer

-- `x_named_semaphore_close` of a semaphore that is not NULL.
pub named_semaphore_close : NamedSemaphore → M (Unit {0})
named_semaphore_close semaphore = do release semaphore.handle; release semaphore.created

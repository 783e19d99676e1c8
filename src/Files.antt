-- ===== src/Files.antt =====
-- Files, directories and asynchronous reads of src/x_filesystem.c: what they take and give back, in
-- both builds.
pub mod Balance
pub mod Access
pub mod Paths
pub mod ReadAll
pub mod Listing
pub mod Watcher
mod Tests
use xlib.Common.{
  ℕ, ◌+◌, ◌/◌, ◌%◌, Bool, true, false, not, ◌&&◌, ◌||◌, Option, none, some, List, [], ◌∷◌, ◌==◌,
  ltb, if◌then◌else◌, length, CString, einval, enoent, eexist, eacces, enomem, eio, enametoolong,
}
use xlib.FilePath.{Platform, posix, windows, path_join}
use xlib.Ledger.{
  Result, Resource, M, Status, gave, gave_error, file_handle, directory_handle, tried, ◌>>=◌, ◌>>◌,
  guard, call, ask, acquire, allocate, release, ◌or_after◌, translated, pure, fail, optional,
  release_option,
}
use xlib.Thread.{Thread, thread_create, thread_join, thread_destroy}

-- `x_filesystem_error_from_windows`
pub error_from_windows : ℕ → ℕ
error_from_windows error =
    if error == 0
    then 0
    else if error == 2
    then enoent
    else if error == 3
    then enoent
    else if error == 183
    then eexist
    else if error == 80
    then eexist
    else if error == 5
    then eacces
    else if error == 87
    then einval
    else if error == 123
    then einval
    else if error == 8
    then enomem
    else if error == 14
    then enomem
    else eio

-- `x_filesystem_utf8_to_wide`, of pointers that are not NULL.
pub take_wide : M Resource
take_wide = do
  count ← translated error_from_windows ask
  converted ← allocate
  translated error_from_windows call or_after release converted
  pure converted

-- A flag of a mode: `(mode & flag) != 0`, for a flag that is a power of 2.
abbrev pub has_flag : ℕ → ℕ → Bool
has_flag mode flag = mode / flag % 2 == 1

abbrev can_read : ℕ → Bool
can_read mode = has_flag mode 1

abbrev can_write : ℕ → Bool
can_write mode = has_flag mode 2 || has_flag mode 16

-- The access that is asked of `open`, without the flags that are added: O_RDONLY, O_WRONLY or O_RDWR.
pub access_of : ℕ → ℕ
access_of mode = if can_read mode && can_write mode then 2 else if can_write mode then 1 else 0

-- The disposition that is asked of `CreateFileW`: CREATE_ALWAYS, OPEN_EXISTING, OPEN_ALWAYS or
-- TRUNCATE_EXISTING.
pub disposition_of : ℕ → ℕ
disposition_of mode =
    if has_flag mode 8 then (if has_flag mode 4 then 2 else 5) else if has_flag mode 4 then 4 else 3

-- `struct x_file`, with its own memory.
pub record File : Type 0 where
  pub created : Resource
  pub handle : Resource

-- A file that is appended to is placed at its end.
seek_end : Bool → Resource → Resource → M (Unit {0})
seek_end true handle created =
    translated error_from_windows call or_after (do release handle; release created)
seek_end false handle created = pure tt

opened_handle : Status Resource → M Resource
opened_handle (gave handle) = pure handle
opened_handle (gave_error e) = fail (error_from_windows e)

open_on : Platform → ℕ → Resource → M File
open_on posix mode created = do
  handle ← acquire file_handle or_after release created
  pure (record { created = created; handle = handle })
open_on windows mode created = do
  wide_path ← take_wide or_after release created
  opened ← tried (acquire file_handle)
  release wide_path
  handle ← opened_handle opened or_after release created
  seek_end (has_flag mode 16) handle created
  pure (record { created = created; handle = handle })

-- `x_file_open`; `given` says that its pointers are not NULL.
pub file_open : Platform → Bool → ℕ → M File
file_open platform given mode = do
  guard (given && (can_read mode || can_write mode)) einval
  created ← allocate
  open_on platform mode created

-- `x_file_close`, of a file that is not NULL.
pub file_close : File → M (Unit {0})
file_close file = do release (file.handle); release (file.created)

-- XLIB_PATH_MAX
abbrev pub path_max : ℕ
path_max = 4096

-- `x_filesystem_make_search_pattern`, and the conversion of what it has joined.
joined_ok : Option (ℕ × Option (List ℕ)) → M (Unit {0})
joined_ok none o w = (Result.fault, w)
joined_ok (some (status, buffer)) o w =
    if status == 0 then (Result.ok tt, w) else (Result.err status, w)

search_pattern : CString → List ℕ → M Resource
search_pattern path buffer = do
  joined_ok (path_join windows (some buffer) path_max (some path) (some (42 ∷ [])))
  take_wide

-- `struct x_directory`, with its own memory.
pub record Directory : Type 0 where
  pub created : Resource
  pub handle : Resource

open_directory_on : Platform → CString → List ℕ → Resource → M Directory
open_directory_on posix path buffer created = do
  handle ← acquire directory_handle or_after release created
  guard (ltb (length path) path_max) enametoolong or_after (do release handle; release created)
  pure (record { created = created; handle = handle })
open_directory_on windows path buffer created = do
  pattern ← search_pattern path buffer or_after release created
  opened ← tried (acquire directory_handle)
  release pattern
  handle ← opened_handle opened or_after release created
  pure (record { created = created; handle = handle })

-- `x_directory_open`; `given` says that its pointers are not NULL, and `buffer` is the array in which
-- the Windows build joins the pattern.
pub directory_open : Platform → Bool → CString → List ℕ → M Directory
directory_open platform given path buffer = do
  guard given einval
  created ← allocate
  open_directory_on platform path buffer created

-- `x_directory_close`, of a directory of `x_directory_open`, whose handle is there.
pub directory_close : Directory → M (Unit {0})
directory_close directory = do release (directory.handle); release (directory.created)

-- `struct x_async_file_read`: its own memory, the copy of the path, the thread that reads, and the
-- data that the thread has read.
pub record AsyncFileRead : Type 0 where
  pub created : Resource
  pub path : Resource
  pub thread : Thread
  pub joined : Bool

-- `x_async_file_read_all`; `given` says that its pointers are not NULL.
pub async_file_read_all : Platform → Bool → M AsyncFileRead
async_file_read_all platform given = do
  guard given einval
  created ← allocate
  path ← allocate or_after release created
  thread ← thread_create platform true or_after (do release path; release created)
  pure (record { created = created; path = path; thread = thread; joined = false })

-- `x_async_file_read_wait`, of an operation that is not NULL: the operation afterwards. What it returns
-- besides is the status that the thread has stored.
wait_operation : Bool → Platform → AsyncFileRead → M AsyncFileRead
wait_operation true platform operation = pure operation
wait_operation false platform operation = do
  thread ← thread_join platform (operation.thread)
  pure (record operation { thread = thread; joined = true })

pub async_file_read_wait : Platform → AsyncFileRead → M AsyncFileRead
async_file_read_wait platform operation = wait_operation (operation.joined) platform operation

-- The operation after a wait whose status is not read.
abbrev waited : AsyncFileRead → Status AsyncFileRead → AsyncFileRead
waited operation (gave after) = after
waited operation (gave_error e) = operation

-- What is given back once the wait is over.
free_async : Platform → AsyncFileRead → Option Resource → M (Unit {0})
free_async platform operation left = do
  thread_destroy platform (operation.thread)
  release_option left
  release (operation.path)
  release (operation.created)

-- `x_async_file_read_destroy`, of an operation that is not NULL; `left` is the memory that the thread
-- has left in it, if any.
pub async_file_read_destroy : Platform → AsyncFileRead → Option Resource → M (Unit {0})
async_file_read_destroy platform operation left = do
  status ← tried (async_file_read_wait platform operation)
  free_async platform (waited operation status) left

-- ===== src/Memory.antt =====
-- Virtual memory and mapped files of src/x_memory.c, in the POSIX and the Windows build.
pub mod Protection
pub mod Balance
mod Tests
use xlib.Common.{
  ℕ, zero, suc, ◌-◌, ◌^◌, ◌≡◌, refl, Bool, true, false, not, ◌&&◌, List, [], ◌∷◌, ◌++◌, ltb, ◌==◌,
  if◌then◌else◌, enoent, enomem, einval, eacces, eio, eoverflow,
}
use Prim.Native.Nat.{bit_and, bit_or}
use xlib.FilePath.{Platform, posix, windows}
use xlib.Ledger.{
  Resource, M, Kind, memory, descriptor, section, view, ◌>>=◌, ◌>>◌, guard, call, ask, acquire,
  allocate, release, ignored, ◌or_after◌, translated, pure, fail,
}

-- `x_memory_error_from_windows`.
pub error_from_windows : ℕ → ℕ
error_from_windows error =
    if error == 8
    then enomem
    else if error == 14
    then enomem
    else if error == 5
    then eacces
    else if error == 2
    then enoent
    else if error == 3
    then enoent
    else if error == 87
    then einval
    else eio

abbrev pub has : ℕ → ℕ → Bool
has protection bit = not (bit_and protection bit == 0)

-- `x_memory_virtual_protection`: the PAGE_ constants of Windows.
pub virtual_protection : ℕ → ℕ
virtual_protection protection =
    if protection == 0
    then 0x01
    else if has protection 4 && has protection 2
    then 0x40
    else if has protection 4 && has protection 1
    then 0x20
    else if has protection 4
    then 0x10
    else if has protection 2
    then 0x04
    else if has protection 1
    then 0x02
    else 0x01

-- `x_memory_posix_protection`: PROT_READ is 1, PROT_WRITE 2 and PROT_EXEC 4.
pub posix_protection : ℕ → ℕ
posix_protection protection =
    let readable = if has protection 1 then 1 else 0 in
    let writable = if has protection 2 then bit_or readable 2 else readable in
    if has protection 4 then bit_or writable 4 else writable

-- `x_memory_validate_protection`, for the bits of an `int`.
pub validate_protection : ℕ → ℕ
validate_protection protection = if bit_and protection (2 ^ 32 - 1 - 7) == 0 then 0 else einval

-- The errors of a call of the system in each build.
reported : {A : Type 0} → Platform → M A → M A
reported posix m = m
reported windows m = translated error_from_windows m

-- `x_virtual_memory_alloc`; `given` says that the pointer argument is not NULL.
pub virtual_memory_alloc : Platform → Bool → ℕ → ℕ → M Resource
unfolding validate_protection reported
virtual_memory_alloc platform given size protection = do
  guard (given && not (size == 0)) einval
  guard (validate_protection protection == 0) einval
  reported platform (acquire view)

-- `x_virtual_memory_protect`.
pub virtual_memory_protect : Platform → Bool → ℕ → ℕ → M (Unit {0})
unfolding validate_protection reported
virtual_memory_protect platform given size protection = do
  guard (given && not (size == 0)) einval
  guard (validate_protection protection == 0) einval
  reported platform call

-- `x_virtual_memory_free` of an address that is not NULL.
pub virtual_memory_free : Resource → M (Unit {0})
virtual_memory_free address = release address

-- `struct x_mapped_file`, with its own memory.
pub data MappedFile : Type 0 where
  posix_file : (created fd data_view : Resource) (size : ℕ) → MappedFile
  windows_file : (created file handle data_view : Resource) (size : ℕ) → MappedFile

create_posix : Resource → ℕ → M MappedFile
create_posix created size = do
  fd ← acquire descriptor or_after release created
  call or_after (do release fd; release created)
  data_view ← acquire view or_after (do release fd; release created)
  pure (posix_file created fd data_view size)

create_windows : Resource → ℕ → M MappedFile
create_windows created size = do
  guard (ltb size (2 ^ 63)) eoverflow or_after release created
  file ← translated error_from_windows (acquire descriptor) or_after release created
  translated error_from_windows call or_after (do release file; release created)
  translated error_from_windows call or_after (do release file; release created)
  handle ←
      translated error_from_windows (acquire section) or_after (do release file; release created)
  data_view ←
      translated error_from_windows (acquire view)
      or_after (do release handle; release file; release created)
  pure (windows_file created file handle data_view size)

create_on : Platform → Resource → ℕ → M MappedFile
unfolding create_posix create_windows
create_on posix created size = create_posix created size
create_on windows created size = create_windows created size

-- `x_mapped_file_create`; `given` says that neither pointer is NULL.
pub mapped_file_create : Platform → Bool → ℕ → M MappedFile
unfolding create_on
mapped_file_create platform given size = do
  guard (given && not (size == 0)) einval
  created ← allocate
  create_on platform created size

open_posix : Resource → M MappedFile
open_posix created = do
  fd ← acquire descriptor or_after release created
  size ← ask or_after (do release fd; release created)
  guard (not (size == 0)) einval or_after (do release fd; release created)
  data_view ← acquire view or_after (do release fd; release created)
  pure (posix_file created fd data_view size)

open_windows : Resource → M MappedFile
open_windows created = do
  file ← translated error_from_windows (acquire descriptor) or_after release created
  size ← translated error_from_windows ask or_after (do release file; release created)
  guard (not (size == 0)) einval or_after (do release file; release created)
  handle ←
      translated error_from_windows (acquire section) or_after (do release file; release created)
  data_view ←
      translated error_from_windows (acquire view)
      or_after (do release handle; release file; release created)
  pure (windows_file created file handle data_view size)

open_on : Platform → Resource → M MappedFile
unfolding open_posix open_windows
open_on posix created = open_posix created
open_on windows created = open_windows created

-- `x_mapped_file_open`.
pub mapped_file_open : Platform → Bool → ℕ → M MappedFile
unfolding open_on validate_protection
mapped_file_open platform given protection = do
  guard given einval
  guard (has protection 1) einval
  guard (validate_protection protection == 0) einval
  created ← allocate
  open_on platform created

-- `x_mapped_file_size` of a mapping that is not NULL.
pub mapped_file_size : MappedFile → ℕ
mapped_file_size (posix_file created fd data_view size) = size
mapped_file_size (windows_file created file handle data_view size) = size

-- `x_mapped_file_flush` of a mapping that is not NULL.
pub mapped_file_flush : MappedFile → M (Unit {0})
mapped_file_flush (posix_file created fd data_view size) = call
mapped_file_flush (windows_file created file handle data_view size) = do
  translated error_from_windows call
  translated error_from_windows call

-- `x_mapped_file_destroy` of a mapping that is not NULL.
pub mapped_file_destroy : MappedFile → M (Unit {0})
mapped_file_destroy (posix_file created fd data_view size) = do
  release data_view
  release fd
  release created
mapped_file_destroy (windows_file created file handle data_view size) = do
  release data_view
  release handle
  release file
  release created

-- ===== src/Files/Access.antt =====
-- Writing, reading, seeking in and measuring a file: `x_file_read`, `x_file_write`, `x_file_seek` and
-- `x_file_size` of src/x_filesystem.c.
use xlib.Common.{
  ℕ, ◌%◌, ◌≤◌, ◌≡◌, inl, inr, refl, Bool, true, false, Option, none, some, ltb, ◌==◌, if◌then◌else◌,
  einval, word, arith, ℤ,
}
use xlib.FilePath.{Platform}
use xlib.Ledger.{Status, gave, gave_error}
use xlib.Files.ReadAll.{file_chunk, file_chunk_max, file_error}
use xlib.Process.Transfer.{Transferred, IsTransfer, Within}

transferred : Platform → Status ℕ → Transferred
transferred platform (gave count) = record { status = 0; bytes = count }
transferred platform (gave_error e) = record { status = file_error platform e; bytes = 0 }

-- `x_file_read`, of pointers that are not NULL; `system` is what `read` or `ReadFile` answers when it is
-- asked for so many bytes.
pub file_read : Platform → ℕ → (ℕ → Status ℕ) → Transferred
file_read platform size system = transferred platform (system (file_chunk platform size))

-- `x_file_write`, likewise.
pub file_write : Platform → ℕ → (ℕ → Status ℕ) → Transferred
file_write platform size system = transferred platform (system (file_chunk platform size))

-- SEEK_SET, SEEK_CUR or SEEK_END, or FILE_BEGIN, FILE_CURRENT or FILE_END.
whence_of : ℕ → Option ℕ
whence_of origin =
    if origin == 0
    then some 0
    else if origin == 1
    then some 1
    else if origin == 2
    then some 2
    else none

status_of : {A : Type 0} → Platform → Status A → ℕ
status_of platform (gave a) = 0
status_of platform (gave_error e) = file_error platform e

seek_to : Platform → ℤ → (ℤ → ℕ → Status ℕ) → Option ℕ → ℕ
seek_to platform offset system none = einval
seek_to platform offset system (some whence) = status_of platform (system offset whence)

-- `x_file_seek`; `given` says that the file is not NULL, and `system` is what `lseek` or
-- `SetFilePointerEx` answers.
pub file_seek : Platform → Bool → ℤ → ℕ → (ℤ → ℕ → Status ℕ) → ℕ
file_seek platform false offset origin system = einval
file_seek platform true offset origin system = seek_to platform offset system (whence_of origin)

measured : Platform → ℕ → Status ℕ → ℕ × ℕ
measured platform before (gave size) = (0, size % word)
measured platform before (gave_error e) = (file_error platform e, before)

-- `x_file_size`: the status and `*size`, which was `before`.
pub file_size : Platform → Bool → ℕ → Status ℕ → ℕ × ℕ
file_size platform false before answer = (einval, before)
file_size platform true before answer = measured platform before answer

file_chunk-fits :
    (platform : Platform) (size : ℕ)
    → (file_chunk platform size ≤ size) × (file_chunk platform size ≤ file_chunk_max platform)
unfolding file_chunk
file_chunk-fits platform size = ground arith

transferred-Within :
    (platform : Platform) (size : ℕ) (answer : Status ℕ)
    → ((count : ℕ) → answer ≡ gave count → count ≤ size)
    → Within size (transferred platform answer)
unfolding transferred
transferred-Within platform size (gave count) h = (h count refl, inl refl)
transferred-Within platform size (gave_error e) h = (omega arith, inr refl)

pub file_transfer-Within :
    (platform : Platform) (size : ℕ) (system : ℕ → Status ℕ)
    → IsTransfer system
    → Within size (file_read platform size system)
      × (Within size (file_write platform size system)
          × (file_chunk platform size ≤ file_chunk_max platform))
unfolding file_read file_write
file_transfer-Within platform size system h = (
  transferred-Within platform size _ within,
  (transferred-Within platform size _ within, (file_chunk-fits platform size).1),
)
  where
    within : (count : ℕ) → system (file_chunk platform size) ≡ gave count → count ≤ size
    within count e = omega (arith, h.within _ count e, (file_chunk-fits platform size).0)

-- `x_file_seek` asks the system only for the three origins that the header names.
file_seek-origin :
    (platform : Platform) (offset : ℤ) (origin : ℕ) (system : ℤ → ℕ → Status ℕ)
    → file_seek platform true offset origin system
      ≡ (if ltb 2 origin then einval else status_of platform (system offset origin))
unfolding file_seek seek_to whence_of
file_seek-origin platform offset origin system = ground arith

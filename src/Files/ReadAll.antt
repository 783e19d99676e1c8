-- ===== src/Files/ReadAll.antt =====
-- The thread of an asynchronous read of a whole file: `x_async_file_read_worker` of
-- src/x_filesystem.c, and `x_file_read` that it calls.
pub mod Whole
mod Tests
use xlib.Common.{
  ℕ, zero, suc, ◌+◌, ◌-◌, ◌^◌, Bool, true, false, Option, none, some, List, [], ◌∷◌, ◌++◌, ltb,
  if◌then◌else◌, length, memcpy, add_word, word, uint64_max, eoverflow, enomem,
}
use xlib.FilePath.{Platform, posix, windows}
use xlib.Ledger.{Status, gave, gave_error}
use xlib.Files.{error_from_windows}

-- What `read` puts into a buffer: the number of the call, the place in the file, and how many bytes
-- are asked for.
abbrev pub Reader : Type 0
Reader = ℕ → ℕ → ℕ → Status (List ℕ)

-- The most that `x_file_read` asks for at once.
abbrev pub file_chunk_max : Platform → ℕ
file_chunk_max posix = 2 ^ 63 - 1
file_chunk_max windows = 2 ^ 32 - 1

unfoldable pub file_chunk : Platform → ℕ → ℕ
file_chunk platform size =
    if ltb (file_chunk_max platform) size then file_chunk_max platform else size

pub file_error : Platform → ℕ → ℕ
file_error posix error = error
file_error windows error = error_from_windows error

-- The error, the number of bytes that have been read, and the block they are in.
pub record Progress : Type 0 where
  pub error : ℕ
  pub total : ℕ
  pub block : List ℕ

-- The loop of the worker. `none` is a write outside the block, or fuel that is used up.
read_loop : Platform → Reader → ℕ → ℕ → ℕ → ℕ → List ℕ → Option Progress
read_loop platform reader zero call size total block =
    if ltb total size then none else some (record { error = 0; total = total; block = block })
read_loop platform reader (suc fuel) call size total block =
    if ltb total size
    then elim (reader call total (file_chunk platform (size - total))) [
      | gave_error e ↦ some (record { error = file_error platform e; total = total; block = block })
      | gave bytes ↦ elim bytes [
        | [] ↦ some (record { error = 0; total = total; block = block })
        | c ∷ cs ↦ elim (memcpy block total (c ∷ cs)) [
          | none ↦ none
          | some after ↦
              read_loop platform reader fuel (call + 1) size (total + length (c ∷ cs)) after
        ]
      ]
    ]
    else some (record { error = 0; total = total; block = block })

-- What the worker stores, and gives to the callback.
pub record Done : Type 0 where
  pub error : ℕ
  pub size : ℕ
  pub contents : Option (List ℕ)

abbrev failed : ℕ → Done
failed error = record { error = error; size = 0; contents = none }

-- `operation->data[total] = '\0'`
abbrev ended : Progress → Option (List ℕ) → Option Done
ended progress none = none
ended progress (some block) =
    some (record { error = progress.error; size = progress.total; contents = some block })

terminate : Option Progress → Option Done
terminate none = none
terminate (some progress) = ended progress (memcpy progress.block progress.total (0 ∷ []))

-- `x_async_file_read_worker`: `opened` is what opening the file and asking for its size gives, and
-- `malloc` what `malloc` gives for so many bytes.
pub read_worker : Platform → ℕ → Status ℕ → (ℕ → Option (List ℕ)) → Reader → Option Done
read_worker platform fuel (gave_error e) malloc reader = some (failed e)
read_worker platform fuel (gave size) malloc reader =
    if ltb (uint64_max - 1) size then some (failed eoverflow) else elim (malloc (add_word size 1)) [
      | none ↦ some (failed enomem)
      | some block ↦ terminate (read_loop platform reader fuel 0 size 0 block)
    ]

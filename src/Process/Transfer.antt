-- ===== src/Process/Transfer.antt =====
-- `x_pipe_read` and `x_pipe_write` of src/x_process.c.
use xlib.Common.{ℕ, ◌-◌, ◌^◌, ◌≤◌, ◌≡◌, ◌⊎◌, inl, inr, refl, ltb, ◌==◌, if◌then◌else◌, arith}
use xlib.FilePath.{Platform, posix, windows}
use xlib.Ledger.{Status, gave, gave_error}
use xlib.Process.{error_from_windows}

-- The most that one call of the system is asked for: `SSIZE_MAX`, or what a `DWORD` holds.
abbrev pub chunk_max : Platform → ℕ
chunk_max posix = 2 ^ 63 - 1
chunk_max windows = 2 ^ 32 - 1

pub pipe_chunk : Platform → ℕ → ℕ
pipe_chunk platform size = if ltb (chunk_max platform) size then chunk_max platform else size

-- What is returned, and what is stored as the number of bytes.
pub record Transferred : Type 0 where
  pub status : ℕ
  pub bytes : ℕ

-- The answer of `read` or `ReadFile`: a pipe whose other end is closed is no error on Windows.
read_outcome : Platform → Status ℕ → Transferred
read_outcome platform (gave count) = record { status = 0; bytes = count }
read_outcome posix (gave_error e) = record { status = e; bytes = 0 }
read_outcome windows (gave_error e) = record {
  status = if e == 109 then 0 else error_from_windows e;
  bytes = 0;
}

write_outcome : Platform → Status ℕ → Transferred
write_outcome platform (gave count) = record { status = 0; bytes = count }
write_outcome posix (gave_error e) = record { status = e; bytes = 0 }
write_outcome windows (gave_error e) = record { status = error_from_windows e; bytes = 0 }

-- `x_pipe_read`, of pointers that are not NULL; `system` is what the system answers when it is
-- asked for so many bytes.
pub pipe_read : Platform → ℕ → (ℕ → Status ℕ) → Transferred
pipe_read platform size system = read_outcome platform (system (pipe_chunk platform size))

-- `x_pipe_write`, likewise.
pub pipe_write : Platform → ℕ → (ℕ → Status ℕ) → Transferred
pipe_write platform size system = write_outcome platform (system (pipe_chunk platform size))

-- The system transfers no more than it is asked for.
pub record IsTransfer (system : ℕ → Status ℕ) : Type 0 where
  pub within : (asked count : ℕ) → system asked ≡ gave count → count ≤ asked

-- What is right about a transfer.
abbrev pub Within : ℕ → Transferred → Type 0
Within size t = (t.bytes ≤ size) × ((t.status ≡ 0) ⊎ (t.bytes ≡ 0))

pipe_chunk-fits : (platform : Platform) (size : ℕ) → pipe_chunk platform size ≤ size
unfolding pipe_chunk
pipe_chunk-fits platform size = ground arith

read_outcome-Within :
    (platform : Platform) (size : ℕ) (answer : Status ℕ)
    → ((count : ℕ) → answer ≡ gave count → count ≤ size)
    → Within size (read_outcome platform answer)
unfolding read_outcome
read_outcome-Within platform size (gave count) h = (h count refl, inl refl)
read_outcome-Within posix size (gave_error e) h = (omega arith, inr refl)
read_outcome-Within windows size (gave_error e) h = (omega arith, inr refl)

write_outcome-Within :
    (platform : Platform) (size : ℕ) (answer : Status ℕ)
    → ((count : ℕ) → answer ≡ gave count → count ≤ size)
    → Within size (write_outcome platform answer)
unfolding write_outcome
write_outcome-Within platform size (gave count) h = (h count refl, inl refl)
write_outcome-Within posix size (gave_error e) h = (omega arith, inr refl)
write_outcome-Within windows size (gave_error e) h = (omega arith, inr refl)

-- In either build, for every size, with a system that transfers no more than it is asked for:
-- `x_pipe_read` and `x_pipe_write` ask for no more bytes than the type of the count holds, store a
-- number of bytes within the size, and store 0 when they report an error.
pub pipe_transfer-Within :
    (platform : Platform) (size : ℕ) (system : ℕ → Status ℕ)
    → IsTransfer system
    → Within size (pipe_read platform size system)
      × Within size (pipe_write platform size system)
      × (pipe_chunk platform size ≤ chunk_max platform)
unfolding pipe_read pipe_write pipe_chunk
pipe_transfer-Within platform size system h = (
  read_outcome-Within platform size _ within,
  write_outcome-Within platform size _ within,
  ground arith,
)
  where
    within : (count : ℕ) → system (pipe_chunk platform size) ≡ gave count → count ≤ size
    within count e = omega (arith, h.within _ count e, pipe_chunk-fits platform size)

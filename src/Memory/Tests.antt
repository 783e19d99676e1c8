-- ===== src/Memory/Tests.antt =====
-- Runs of the mapped files, and instances of their theorems.
use xlib.Common.{ℕ, ◌≡◌, refl, true, ◌==◌, [], ◌∷◌, ◌++◌, if◌then◌else◌, enomem}
use xlib.FilePath.{posix, windows}
use xlib.Ledger.{
  Resource, Oracle, World, memory, descriptor, view, call, acquire, allocate, release, without, err,
}
use xlib.Ledger.Triple.{Triple}
use xlib.Memory.{
  MappedFile, posix_file, mapped_file_create, create_on, create_posix, create_windows,
  error_from_windows,
}
use xlib.Memory.Balance.{holdings, mapped_file-Balanced}

-- A system where the call of a number fails with an error.
abbrev fails_at : ℕ → ℕ → Oracle
fails_at n error = record { status = λ k. if k == n then error else 0; value = λ k. 4096 }

abbrev start : World
start = record { held = []; calls = 0 }

-- `mmap` fails: the descriptor is closed and the memory freed.
create_fails :
    mapped_file_create posix true 100 (fails_at 3 enomem) start
    ≡ (err enomem, record { held = []; calls = 6 })
unfolding mapped_file_create create_on create_posix call acquire allocate release without
create_fails = refl

windows_error :
    mapped_file_create windows true 100 (fails_at 4 8) start
    ≡ (err enomem, record { held = []; calls = 7 })
unfolding mapped_file_create create_on create_windows call acquire allocate release without
    error_from_windows
windows_error = refl

abbrev piece : ℕ → Resource
piece n = record { kind = memory; id = n }

abbrev some_file : MappedFile
some_file =
    posix_file (piece 1) (record { kind = descriptor; id = 2 }) (record { kind = view; id = 3 }) 100

mapped_file-Balanced_example :
    Triple
      (piece 9 ∷ [])
      (piece 9 ∷ [])
      (λ f. holdings f ++ piece 9 ∷ [])
      (mapped_file_create windows true 100)
mapped_file-Balanced_example = (mapped_file-Balanced windows true 100 3).0 (piece 9 ∷ [])

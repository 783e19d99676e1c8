-- ===== src/Ipc/Tests.antt =====
-- Runs of the shared objects, and instances of their theorems.
use xlib.Common.{
  ℕ, zero, suc, ◌≡◌, refl, true, some, List, [], ◌∷◌, ◌++◌, CString, enametoolong, memcpy, arith,
}
use xlib.FilePath.{posix}
use xlib.Ledger.{Resource, memory, view}
use xlib.Ledger.Triple.{Triple}
use xlib.Ipc.{SharedMemory, posix_memory, make_posix_name, put_behind_slash, shared_memory_create}
use xlib.Ipc.Balance.{Usable, holdings, ipc-Balanced}

abbrev name : CString
name = b'm' ∷ b'q' ∷ []

abbrev zeros : ℕ → List ℕ
zeros zero = []
zeros (suc n) = 0 ∷ zeros n

name_runs :
    make_posix_name name (7 ∷ 7 ∷ 7 ∷ 7 ∷ 7 ∷ []) 4 ≡ some (0, b'/' ∷ b'm' ∷ b'q' ∷ 0 ∷ 7 ∷ [])
unfolding make_posix_name put_behind_slash memcpy
name_runs = refl

name_too_long : make_posix_name name (7 ∷ 7 ∷ 7 ∷ []) 3 ≡ some (enametoolong, 7 ∷ 7 ∷ 7 ∷ [])
unfolding make_posix_name
name_too_long = refl

usable : Usable name (zeros 256)
usable = ((omega arith, (omega arith, tt)), refl, omega arith)

abbrev other : Resource
other = record { kind = memory; id = 9 }

abbrev some_memory : SharedMemory
some_memory = posix_memory (record { kind = memory; id = 1 }) (record { kind = view; id = 2 }) 64

ipc-Balanced_example :
    Triple
      (other ∷ [])
      (other ∷ [])
      (λ s. holdings s ++ other ∷ [])
      (shared_memory_create posix true name (zeros 256) 64)
ipc-Balanced_example = (ipc-Balanced posix true name (zeros 256) 64 usable).0 (other ∷ [])

-- ===== src/Files/Tests.antt =====
-- Instances of the theorems on files, directories and asynchronous reads.
use xlib.Common.{◌≡◌, refl, true, [], ◌∷◌, ◌++◌, arith, zeros, length-zeros}
use xlib.FilePath.{posix, windows}
use xlib.Ledger.{Resource, memory}
use xlib.Ledger.Triple.{Triple}
use xlib.Files.{file_open, async_file_read_all, access_of, disposition_of}
use xlib.Files.Paths.{paths-Balanced}
use xlib.Files.Balance.{file_holdings, async_holdings, async_file_read-Balanced}

abbrev other : Resource
other = record { kind = memory; id = 9 }

paths-Balanced_example :
    Triple
      (other ∷ [])
      (other ∷ [])
      (λ f. file_holdings f ++ other ∷ [])
      (file_open windows true 18)
paths-Balanced_example =
    (paths-Balanced windows true 18 (97 ∷ []) (zeros 4096) (other ∷ [])
        ((omega arith, tt), length-zeros 4096, omega arith)).0.0
      (other ∷ [])

async_file_read-Balanced_example :
    Triple
      (other ∷ [])
      (other ∷ [])
      (λ a. async_holdings posix a ++ other ∷ [])
      (async_file_read_all posix true)
async_file_read-Balanced_example = (async_file_read-Balanced posix true).0 (other ∷ [])

-- Read and append, and create and truncate.
modes : (access_of 17 ≡ 2) × (disposition_of 14 ≡ 2) × (disposition_of 2 ≡ 3)
unfolding access_of disposition_of
modes = (refl, refl, refl)

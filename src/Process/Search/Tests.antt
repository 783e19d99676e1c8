-- ===== src/Process/Search/Tests.antt =====
-- A search of PATH, and instances of the theorem.
use xlib.Common.{
  ℕ, zero, suc, ◌≡◌, refl, none, some, List, [], ◌∷◌, ◌==◌, if◌then◌else◌, length, CString, arith,
}
use xlib.FilePath.{slash}
use xlib.Process.Search.{
  Malloc, execve, exec_environment, environment_value, behind_name, behind_equals, contains,
}
use xlib.Process.Search.Split.{IsMalloc, calls_for, parts, exec_environment_lem}

abbrev filler : ℕ → List ℕ
filler zero = []
filler (suc n) = 7 ∷ filler n

length-filler : (n : ℕ) → length (filler n) ≡ n
length-filler zero = refl
length-filler (suc n) = omega (arith, length-filler n)

-- The second call of `malloc` fails.
abbrev some_malloc : Malloc
some_malloc i n = if i == 1 then none else some (filler n)

-- PATH=a::b, in an environment with another variable.
abbrev environment : List CString
environment = (65 ∷ 61 ∷ []) ∷ (80 ∷ 65 ∷ 84 ∷ 72 ∷ 61 ∷ 97 ∷ 58 ∷ 58 ∷ 98 ∷ []) ∷ []

some_malloc-IsMalloc : IsMalloc some_malloc
some_malloc-IsMalloc = record { gives = λ i n block e. ground (arith, length-filler n) }

-- The program x is looked for as a/x, not in the current directory, for which there is no memory, and as b/x.
exec_environment_lem_example :
    exec_environment some_malloc (some environment) (120 ∷ [])
    ≡ some (calls_for some_malloc 0 (120 ∷ []) (parts (97 ∷ 58 ∷ 58 ∷ 98 ∷ [])))
unfolding environment_value behind_name behind_equals contains
exec_environment_lem_example =
    exec_environment_lem some_malloc environment (120 ∷ []) some_malloc-IsMalloc (ground arith)
      (ground arith) (omega arith) refl

candidates :
    calls_for some_malloc 0 (120 ∷ []) (parts (97 ∷ 58 ∷ 58 ∷ 98 ∷ []))
    ≡ execve (97 ∷ slash ∷ 120 ∷ []) ∷ execve (98 ∷ slash ∷ 120 ∷ []) ∷ []
candidates = refl

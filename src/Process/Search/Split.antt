-- ===== src/Process/Search/Split.antt =====
-- The search of PATH, compared with splitting it at its colons.
use xlib.Common.{
  ℕ, zero, suc, ◌+◌, ◌<◌, ◌≤◌, ◌≡◌, refl, sym, ap, ◌∙◌, false, Option, none, some, List, [], ◌∷◌,
  ◌++◌, ◌==◌, if◌then◌else◌, length, drop, append-nil, subst, drop-length, All-append, CString,
  IsString, terminated, memcpy, word, arith, append_assoc, memcpy-append, Bool-cases, inl, inr,
  length-append, length-drop, read_string-append,
}
use xlib.FilePath.{slash}
use xlib.Process.Search.{
  colon, next_directory, directory_separator, put_directory_separator, put_candidate,
  candidate_size, Exec, execve, Malloc, search_loop, tried_first, exec_environment, contains,
  searched, environment_value,
}

abbrev on_head : ℕ → List CString → List CString
on_head c [] = []
on_head c (part ∷ parts) = (c ∷ part) ∷ parts

-- The parts of a text between its colons.
abbrev pub parts : CString → List CString
parts [] = [] ∷ []
parts (c ∷ text) = let rest = parts text in if c == colon then [] ∷ rest else on_head c rest

-- A program in a directory, which is the current one where it is empty.
abbrev pub candidate : CString → CString → CString
candidate path directory = directory ++ (directory_separator directory ++ path)

abbrev when_given : Option (List ℕ) → Exec → List Exec → List Exec
when_given none x xs = xs
when_given (some b) x xs = x ∷ xs

-- The candidates for which there was memory.
abbrev pub calls_for : Malloc → ℕ → CString → List CString → List Exec
calls_for malloc i path [] = []
calls_for malloc i path (directory ∷ rest) =
    when_given (malloc i (length (candidate path directory) + 1))
      (execve (candidate path directory)) (calls_for malloc (i + 1) path rest)

-- `malloc` gives as many bytes as it is asked for, or none.
pub record IsMalloc (malloc : Malloc) : Type 0 where
  pub gives : (i n : ℕ) (block : List ℕ) → malloc i n ≡ some block → length block ≡ n

-- The writes fill the block.
memcpy_start :
    (xs block : List ℕ)
    → length xs ≤ length block
    → memcpy block 0 xs ≡ some (xs ++ drop (length xs) block)
memcpy_start xs block h = memcpy-append [] xs block h

-- The last write, behind what the block has at its start.
memcpy_end :
    (xs bytes tail : List ℕ) (n : ℕ)
    → length xs ≡ n
    → length bytes ≡ length tail
    → memcpy (xs ++ tail) n bytes ≡ some (xs ++ bytes)
memcpy_end xs bytes tail n k h =
    subst (λ m. memcpy (xs ++ tail) m bytes ≡ some (xs ++ bytes)) k filled
  where
    filled : memcpy (xs ++ tail) (length xs) bytes ≡ some (xs ++ bytes)
    filled =
        rw (memcpy-append xs bytes tail (omega (arith, h)), h, drop-length tail, append-nil) refl

-- The two writes before the last.
put_directory :
    (directory : CString) (block : List ℕ)
    → length directory + 1 ≤ length block
    → memcpy (directory ++ drop (length directory) block) (length directory) (slash ∷ [])
      ≡ some ((directory ++ slash ∷ []) ++ drop 1 (drop (length directory) block))
put_directory directory block h =
    memcpy-append directory (slash ∷ []) (drop (length directory) block)
      (omega (arith, h, length-drop (length directory) block))
    ∙ ap some (sym (append_assoc directory (slash ∷ []) _))

put_candidate_lem :
    (directory path : CString) (block : List ℕ)
    → length block ≡ length (candidate path directory) + 1
    → put_candidate directory path block ≡ some (terminated (candidate path directory))
unfolding put_candidate put_directory_separator
put_candidate_lem [] path block h =
    rw (memcpy_start [] block (omega arith), put_candidate)
      (memcpy_end [] (terminated path) block 0 refl (omega (arith, h, length-append path (0 ∷ []))))
put_candidate_lem (c ∷ directory) path block h =
    let dir : CString = c ∷ directory in
    rw (memcpy_start dir block fits, put_directory dir block fits', put_candidate)
      (memcpy_end (dir ++ slash ∷ []) (terminated path) (drop 1 (drop (length dir) block)) _
          (omega (arith, length-append dir (slash ∷ [])))
          (omega (
            arith,
            total,
            length-append path (0 ∷ []),
            length-drop 1 (drop (length dir) block),
            length-drop (length dir) block,
          ))
        ∙ ap some (
            append_assoc dir (slash ∷ []) (terminated path)
            ∙ sym (append_assoc dir (slash ∷ path) (0 ∷ []))))
  where
    total : length block ≡ length (c ∷ directory) + (length path + 2)
    total = omega (arith, h, length-append (c ∷ directory) (slash ∷ path))

    fits : length (c ∷ directory) ≤ length block
    fits = omega (arith, total)

    fits' : length (c ∷ directory) + 1 ≤ length block
    fits' = omega (arith, total)

-- A directory and what is behind it are a split of a text.
abbrev Cuts : CString → CString × Option CString → Type 0
Cuts start (directory, none) =
    (parts start ≡ directory ∷ [])
    × (length directory ≤ length start)
    × (IsString start → IsString directory)
Cuts start (directory, some behind) =
    (parts start ≡ directory ∷ parts behind)
    × (length directory + length behind < length start)
    × (IsString start → IsString directory × IsString behind)

next_directory-Cuts : (start : CString) → Cuts start (next_directory start)
unfolding next_directory
next_directory-Cuts [] = (refl, omega arith, λ h. h)
next_directory-Cuts (c ∷ start) = elim (Bool-cases (c == colon)) [
  | inl e ↦ rw e (rw e refl, omega arith, λ h. (tt, h.1))
  | inr e ↦ rw e (longer e (next_directory start) (next_directory-Cuts start))
]
  where
    longer :
        (c == colon) ≡ false
        → (next : CString × Option CString) → Cuts start next
        → Cuts (c ∷ start) (c ∷ next.0, next.1)
    longer e (directory, none) h = (rw (e, h.0) refl, omega (arith, h.1), λ k. (k.0, h.2 k.1))
    longer e (directory, some behind) h =
        (rw (e, h.0) refl, omega (arith, h.1), λ k. ((k.0, (h.2 k.1).0), (h.2 k.1).1))

-- Loop.
candidate_size_lem :
    (directory path : CString)
    → length directory + length path + 2 < word
    → candidate_size directory path ≡ length (candidate path directory) + 1
unfolding candidate_size
candidate_size_lem [] path h = omega (arith, h)
candidate_size_lem (c ∷ directory) path h = omega (arith, h, length-append directory (slash ∷ path))

-- One candidate: where there is memory, the program is started by its path.
attempt :
    (malloc : Malloc) (i : ℕ) (directory path : CString) (rest : Option (List Exec))
    (xs : List Exec)
    → IsMalloc malloc
    → IsString directory
    → IsString path
    → length directory + length path + 2 < word
    → rest ≡ some xs
    → tried_first (malloc i (candidate_size directory path)) directory path rest
      ≡ some (
          when_given
            (malloc i (length (candidate path directory) + 1))
            (execve (candidate path directory))
            xs)
attempt malloc i directory path rest xs m d p h e =
    rw (candidate_size_lem directory path h, e)
      (made (malloc i (length (candidate path directory) + 1)) λ b g. m.gives i _ b g)
  where
    of_separator : (d : CString) → IsString (directory_separator d)
    of_separator [] = tt
    of_separator (c ∷ d) = (λ e. absurd (omega (arith, e)), tt)

    is_string : IsString (candidate path directory)
    is_string =
        All-append _ directory (directory_separator directory ++ path) d
          (All-append _ (directory_separator directory) path (of_separator directory) p)

    made :
        (given : Option (List ℕ))
        → ((b : List ℕ) → given ≡ some b → length b ≡ length (candidate path directory) + 1)
        → tried_first given directory path (some xs)
          ≡ some (when_given given (execve (candidate path directory)) xs)
    made none k = refl
    made (some b) k =
        rw
          (
            put_candidate_lem directory path b (k b refl),
            read_string-append (candidate path directory) [] is_string,
          )
          refl

search_loop_lem :
    (malloc : Malloc) (path : CString)
    → IsMalloc malloc
    → IsString path
    → (fuel i : ℕ) (start : CString) → length start < fuel
    → IsString start
    → length start + length path + 2 < word
    → search_loop fuel malloc i start path ≡ some (calls_for malloc i path (parts start))
unfolding search_loop
search_loop_lem malloc path m p zero i start f s h = absurd (omega (arith, f))
search_loop_lem malloc path m p (suc fuel) i start f s h =
    along (next_directory start) (next_directory-Cuts start)
      λ behind. search_loop_lem malloc path m p fuel (i + 1) behind
  where
    along :
        (next : CString × Option CString)
        → Cuts start next
        → ((behind : CString)
            → length behind < fuel
            → IsString behind
            → length behind + length path + 2 < word
            → search_loop fuel malloc (i + 1) behind path
              ≡ some (calls_for malloc (i + 1) path (parts behind)))
        → tried_first (malloc i (candidate_size next.0 path)) next.0 path (elim next.1 [
          | none ↦ some []
          | some behind ↦ search_loop fuel malloc (i + 1) behind path
        ])
          ≡ some (calls_for malloc i path (parts start))
    along (directory, none) k again =
        rw k.0 (attempt malloc i directory path _ [] m (k.2 s) p (omega (arith, k.1, h)) refl)
    along (directory, some behind) k again = rw k.0 (
        attempt malloc i directory path _ _ m (k.2 s).0 p (omega (arith, k.1, h))
          (again behind (omega (arith, k.1, f)) (k.2 s).1 (omega (arith, k.1, h))))

-- Def.
pub exec_environment_lem :
    (malloc : Malloc) (environment : List CString) (path : CString)
    → let value = searched (environment_value environment (80 ∷ 65 ∷ 84 ∷ 72 ∷ [])) in
      IsMalloc malloc
      → IsString value
      → IsString path
      → length value + length path + 2 < word
      → contains slash path ≡ false
      → exec_environment malloc (some environment) path
        ≡ some (calls_for malloc 0 path (parts value))
unfolding exec_environment
exec_environment_lem malloc environment path m v p h c =
    rw c (search_loop_lem malloc path m p _ 0 _ (omega arith) v h)

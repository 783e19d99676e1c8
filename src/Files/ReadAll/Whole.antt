-- ===== src/Files/ReadAll/Whole.antt =====
-- The worker reads the whole file, inside its block.
use xlib.Common.{
  ℕ, zero, suc, ◌+◌, ◌-◌, ◌<◌, ◌≤◌, ◌≡◌, ◌≢◌, ◌⊎◌, inl, inr, refl, sym, ap, ◌∙◌, subst, min, false,
  Option, none, some, List, [], ◌∷◌, ◌++◌, ltb, length, take, drop, memcpy, memcpy-append, add_word,
  word, uint64_max, enomem, arith, Bool-cases, ltb→lt, append_assoc, length-append, length-take,
  length-drop, take-add, take-append,
}
use xlib.FilePath.{Platform, posix, windows}
use xlib.Ledger.{Status, gave, gave_error}
use xlib.Files.{error_from_windows}
use xlib.Files.ReadAll.{
  Reader, file_chunk, file_error, Progress, read_loop, Done, failed, terminate, read_worker,
}

-- `read` gives bytes of the file, no more than it is asked for, and none only at the end.
pub record IsReader (contents : List ℕ) (reader : Reader) : Type 0 where
  pub within :
      (call place asked : ℕ) (bytes : List ℕ)
      → reader call place asked ≡ gave bytes
      → length bytes ≤ asked
  pub bytes_of :
      (call place asked : ℕ) (bytes : List ℕ)
      → reader call place asked ≡ gave bytes
      → bytes ≡ take (length bytes) (drop place contents)
  pub ends :
      (call place asked : ℕ)
      → reader call place asked ≡ gave []
      → (asked ≡ 0) ⊎ (length contents ≤ place)
  pub fails : (call place asked e : ℕ) → reader call place asked ≡ gave_error e → e ≢ 0

-- The block while the file is read: what has been read, and the rest.
record At (contents : List ℕ) (size total : ℕ) (block : List ℕ) : Type 0 where
  rest : List ℕ
  shape : block ≡ take total contents ++ rest
  room : total + length rest ≡ size + 1
  below : total ≤ size
  within : total ≤ length contents

-- One more piece.
At-piece :
    (contents : List ℕ) (size total : ℕ) (block bytes : List ℕ)
    → At contents size total block
    → bytes ≡ take (length bytes) (drop total contents)
    → length bytes ≤ size - total
    → (after : List ℕ) × (memcpy block total bytes ≡ some after)
      × At contents size (total + length bytes) after
At-piece contents size total block bytes at e h = (
  _,
  written,
  record {
    rest = drop (length bytes) at.rest;
    shape = shaped;
    room = omega (arith, length-drop (length bytes) at.rest, at.room, h);
    below = omega (arith, h, at.below);
    within = omega (
      arith,
      ap length e,
      length-take (length bytes) (drop total contents),
      length-drop total contents,
      at.within,
    );
  },
)
  where
    count : length (take total contents) ≡ total
    count = omega (arith, length-take total contents, at.within)

    written :
        memcpy block total bytes
        ≡ some (take total contents ++ (bytes ++ drop (length bytes) at.rest))
    written =
        subst
          (λ b.
            memcpy b total bytes
            ≡ some (take total contents ++ (bytes ++ drop (length bytes) at.rest)))
          (sym at.shape)
          (subst
            (λ n.
              memcpy (take total contents ++ at.rest) n bytes
              ≡ some (take total contents ++ (bytes ++ drop (length bytes) at.rest)))
            count (memcpy-append (take total contents) bytes at.rest (omega (arith, at.room, h))))

    shaped :
        take total contents ++ (bytes ++ drop (length bytes) at.rest)
        ≡ take (total + length bytes) contents ++ drop (length bytes) at.rest
    shaped =
        sym (append_assoc (take total contents) bytes _)
        ∙ ap (λ x. x ++ drop (length bytes) at.rest)
            (ap (λ b. take total contents ++ b) e ∙ sym (take-add total (length bytes) contents))

-- What is right about the end of the loop.
abbrev Good : List ℕ → ℕ → Progress → Type 0
Good contents size p =
    At contents size p.total p.block × (p.error ≡ 0 → p.total ≡ min size (length contents))

-- The loop ends well.
abbrev Ends : List ℕ → ℕ → Option Progress → Type 0
Ends contents size none = ⊥
Ends contents size (some p) = Good contents size p

file_chunk-pos :
    (platform : Platform) (n : ℕ)
    → (file_chunk platform n ≤ n) × (1 ≤ n → 1 ≤ file_chunk platform n)
unfolding file_chunk
file_chunk-pos posix n = (ground arith, λ h. ground arith)
file_chunk-pos windows n = (ground arith, λ h. ground arith)

file_error-pos : (platform : Platform) (e : ℕ) → e ≢ 0 → file_error platform e ≢ 0
unfolding file_error error_from_windows
file_error-pos posix e h = h
file_error-pos windows e h = ground arith

-- One round, for each answer of the system.
round-Ends :
    (platform : Platform) (contents : List ℕ) (size total : ℕ) (block : List ℕ)
    (next : ℕ → List ℕ → Option Progress) (answer : Status (List ℕ))
    → At contents size total block
    → total < size
    → ((bytes : List ℕ)
        → answer ≡ gave bytes
        → (length bytes ≤ size - total) × (bytes ≡ take (length bytes) (drop total contents)))
    → (answer ≡ gave [] → length contents ≤ total)
    → ((e : ℕ) → answer ≡ gave_error e → e ≢ 0)
    → ((n : ℕ) (after : List ℕ)
        → 1 ≤ n
        → At contents size (total + n) after
        → Ends contents size (next (total + n) after))
    → Ends contents size (elim answer [
      | gave_error e ↦ some (record { error = file_error platform e; total = total; block = block })
      | gave bytes ↦ elim bytes [
        | [] ↦ some (record { error = 0; total = total; block = block })
        | c ∷ cs ↦ elim (memcpy block total (c ∷ cs)) [
          | none ↦ none
          | some after ↦ next (total + length (c ∷ cs)) after
        ]
      ]
    ])
round-Ends platform contents size total block next (gave_error e) at l h z f again =
    (at, λ k. absurd (file_error-pos platform e (f e refl) k))
round-Ends platform contents size total block next (gave []) at l h z f again =
    (at, λ k. omega (arith, z refl, at.below, at.within, l))
round-Ends platform contents size total block next (gave (c ∷ cs)) at l h z f again =
    let piece = At-piece contents size total block (c ∷ cs) at (h _ refl).1 (h _ refl).0 in
    rw piece.1 (again (length (c ∷ cs)) piece.0 (omega arith) piece.2)

read_loop-Ends :
    (platform : Platform) (contents : List ℕ) (reader : Reader)
    → IsReader contents reader
    → (fuel call size total : ℕ) (block : List ℕ) → At contents size total block
    → size - total < fuel
    → Ends contents size (read_loop platform reader fuel call size total block)
unfolding read_loop
read_loop-Ends platform contents reader r zero call size total block at f =
    absurd (omega (arith, f))
read_loop-Ends platform contents reader r (suc fuel) call size total block at f =
    elim (Bool-cases (ltb total size)) [
      | inl e ↦ rw e (
          let l : total < size = ltb→lt total size e in
          let asked : ℕ = file_chunk platform (size - total) in
          let chunk = file_chunk-pos platform (size - total) in
          round-Ends platform contents size total block
            (read_loop platform reader fuel (call + 1) size) (reader call total asked) at l
            (λ bytes g. (
              omega (arith, r.within call total asked bytes g, chunk.0),
              r.bytes_of call total asked bytes g,
            ))
            (λ g. ground (arith, r.ends call total asked g, chunk.1))
            (λ e g. r.fails call total asked e g)
            λ n after one more.
              read_loop-Ends platform contents reader r fuel (call + 1) size (total + n) after more
                (omega (arith, f, one, l, more.below)))
      | inr e ↦ rw e (at, λ z. ground (arith, at.below, at.within))
    ]

-- What is stored, by the size that was asked for and the block.
abbrev pub Stored : List ℕ → ℕ → Done → Option (List ℕ) → Type 0
Stored contents size done none = (done.error ≢ 0) × (done.size ≡ 0)
Stored contents size done (some block) =
    (length block ≡ size + 1)
    × (done.size ≤ size)
    × (take (done.size + 1) block ≡ take done.size contents ++ 0 ∷ [])
    × ((done.error ≢ 0) ⊎ (done.size ≡ min size (length contents)))

-- What is right about the operation when its callback is called.
abbrev pub Right : List ℕ → Status ℕ → Option Done → Type 0
Right contents opened none = ⊥
Right contents (gave_error e) (some done) = (done.error ≡ e) × (done.contents ≡ none)
Right contents (gave size) (some done) = Stored contents size done done.contents

zero_or : (n : ℕ) → (n ≢ 0) ⊎ (n ≡ 0)
zero_or zero = inr refl
zero_or (suc n) = inl λ e. omega (arith, e)

-- The terminator is written inside the block.
terminate-Right :
    (contents : List ℕ) (size : ℕ) (ending : Option Progress)
    → Ends contents size ending
    → Right contents (gave size) (terminate ending)
unfolding terminate
terminate-Right contents size none h = elim h [ ]
terminate-Right contents size (some p) (at, whole) = rw written (
  omega (
    arith,
    length-append (take p.total contents) (0 ∷ drop 1 at.rest),
    count,
    at.room,
    length-drop 1 at.rest,
  ),
  at.below,
  ends_with_zero,
  elim (zero_or p.error) [ inl e ↦ inl e | inr e ↦ inr (whole e) ],
)
  where
    count : length (take p.total contents) ≡ p.total
    count = omega (arith, length-take p.total contents, at.within)

    written : memcpy p.block p.total (0 ∷ []) ≡ some (take p.total contents ++ (0 ∷ drop 1 at.rest))
    written =
        subst
          (λ b. memcpy b p.total (0 ∷ []) ≡ some (take p.total contents ++ (0 ∷ drop 1 at.rest)))
          (sym at.shape)
          (subst
            (λ n.
              memcpy (take p.total contents ++ at.rest) n (0 ∷ [])
              ≡ some (take p.total contents ++ (0 ∷ drop 1 at.rest)))
            count
            (memcpy-append (take p.total contents) (0 ∷ []) at.rest
              (omega (arith, at.room, at.below))))

    ends_with_zero :
        take (p.total + 1) (take p.total contents ++ (0 ∷ drop 1 at.rest))
        ≡ take p.total contents ++ 0 ∷ []
    ends_with_zero =
        subst
          (λ n.
            take n (take p.total contents ++ (0 ∷ drop 1 at.rest))
            ≡ take p.total contents ++ 0 ∷ [])
          (omega (arith, count, length-append (take p.total contents) (0 ∷ [])))
          (ap (take (length (take p.total contents ++ 0 ∷ [])))
              (sym (append_assoc (take p.total contents) (0 ∷ []) _))
            ∙ take-append (take p.total contents ++ 0 ∷ []) (drop 1 at.rest))

-- In either build, for a `malloc` that gives as many bytes as it is asked for or none, and a `read` that
-- gives bytes of the file in order, no more than it is asked for and none only at the end, errors
-- included; with fuel above the size that was asked for: the worker of an asynchronous read returns,
-- and never writes outside its block. Where the file cannot be opened it reports that error; where there
-- is no block it reports an error and no bytes; otherwise the block ends in a zero behind as many of the
-- first bytes of the file as it reports, and it reports an error or has read all of the file, up to
-- the size.
pub read_worker-Right :
    (platform : Platform) (fuel : ℕ) (contents : List ℕ) (opened : Status ℕ)
    (malloc : ℕ → Option (List ℕ)) (reader : Reader)
    → IsReader contents reader
    → ((n : ℕ) (block : List ℕ) → malloc n ≡ some block → length block ≡ n)
    → ((size : ℕ) → opened ≡ gave size → size < fuel)
    → ((size : ℕ) → opened ≡ gave size → size < word)
    → Right contents opened (read_worker platform fuel opened malloc reader)
unfolding read_worker
read_worker-Right platform fuel contents (gave_error e) malloc reader r m f w = (refl, refl)
read_worker-Right platform fuel contents (gave size) malloc reader r m f w =
    elim (Bool-cases (ltb (uint64_max - 1) size)) [
      | inl e ↦ rw e (λ z. absurd (omega (arith, z)), refl)
      | inr e ↦ rw (e, fits e) (given (malloc (size + 1)) λ block g. m (size + 1) block g)
    ]
  where
    fits : ltb (uint64_max - 1) size ≡ false → add_word size 1 ≡ size + 1
    fits e = ground arith

    given :
        (block : Option (List ℕ))
        → ((b : List ℕ) → block ≡ some b → length b ≡ size + 1)
        → Right contents (gave size) (elim block [
          | none ↦ some (failed enomem)
          | some b ↦ terminate (read_loop platform reader fuel 0 size 0 b)
        ])
    given none k = (λ z. absurd (omega (arith, z)), refl)
    given (some b) k = terminate-Right contents size _ (
        read_loop-Ends platform contents reader r fuel 0 size 0 b
          (record {
            rest = b;
            shape = refl;
            room = omega (arith, k b refl);
            below = omega arith;
            within = omega arith;
          })
          (omega (arith, f size refl)))

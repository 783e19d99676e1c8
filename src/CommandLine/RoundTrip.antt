-- ===== src/CommandLine/RoundTrip.antt =====
-- A reader of quoted arguments, by the documented rules of Windows programs, gets back what
-- `x_process_build_command_line` quoted.
use xlib.Common.{
  ℕ, zero, suc, ◌+◌, ◌/◌, ◌%◌, ◌≡◌, refl, ap, ap₂, subst, sym, ◌∙◌, List, [], ◌∷◌, ◌++◌, ◌==◌,
  if◌then◌else◌, Bool, ◌||◌, false, ==_iff, CString, arith, Option, none, some, append_assoc,
  append-nil, Bool-cases, inl, inr,
}
use xlib.CommandLine.{
  put_backslashes, put_byte, count_backslash, quoted_rest, append_quoted, append_arguments,
  utf8_command, given, quote, backslash, space,
}

abbrev before : CString → Option (CString × CString) → Option (CString × CString)
before s none = none
before s (some (a, rest)) = some (s ++ a, rest)

-- The argument behind an opening quote, with `n` backslashes just read, and what follows its
-- closing quote. 2n backslashes and a quote are n backslashes and the end; 2n + 1 and a quote are n
-- backslashes and a quote; other backslashes stand for themselves.
pub unquote : CString → ℕ → Option (CString × CString)
unquote [] n = none
unquote (c ∷ s) n =
    let rest = unquote s (count_backslash c n) in
    if c == backslash
    then rest
    else if c == quote
    then if n % 2 == 0
      then some (put_backslashes (n / 2), s)
      else before (put_backslashes (n / 2) ++ quote ∷ []) rest
    else before (put_backslashes n ++ c ∷ []) rest

unquote-put_backslashes :
    (m n : ℕ) (rest : CString) → unquote (put_backslashes m ++ rest) n ≡ unquote rest (m + n)
unfolding unquote put_backslashes count_backslash
unquote-put_backslashes zero n rest = ap (unquote rest) (omega arith)
unquote-put_backslashes (suc m) n rest =
    unquote-put_backslashes m (n + 1) rest ∙ ap (unquote rest) (omega arith)

put_backslashes-snoc :
    (n : ℕ) (s : CString) → put_backslashes (n + 1) ++ s ≡ put_backslashes n ++ backslash ∷ s
unfolding put_backslashes
put_backslashes-snoc zero s = refl
put_backslashes-snoc (suc n) s =
    ap (λ k. put_backslashes k ++ s) {y = suc (n + 1)} (omega arith)
    ∙ ap (◌∷◌ backslash) (put_backslashes-snoc n s)

unquote-quote_even :
    (n : ℕ) (s : CString) → unquote (quote ∷ s) (n + n) ≡ some (put_backslashes n, s)
unfolding unquote
unquote-quote_even n s =
    let half : (n + n) / 2 ≡ n = omega arith in
    let even : (n + n) % 2 ≡ 0 = omega arith in rw (even, half)

unquote-quote_odd :
    (n : ℕ) (s : CString)
    → unquote (quote ∷ s) (n + n + 1) ≡ before (put_backslashes n ++ quote ∷ []) (unquote s 0)
unfolding unquote count_backslash
unquote-quote_odd n s =
    let half : (n + n + 1) / 2 ≡ n = omega arith in
    let odd : (n + n + 1) % 2 ≡ 1 = omega arith in rw (odd, half)

unquote-backslash : (n : ℕ) (s : CString) → unquote (backslash ∷ s) n ≡ unquote s (n + 1)
unfolding unquote count_backslash
unquote-backslash n s = refl

unquote-plain :
    (c n : ℕ) (s : CString)
    → (c == backslash) ≡ false
    → (c == quote) ≡ false
    → unquote (c ∷ s) n ≡ before (put_backslashes n ++ c ∷ []) (unquote s 0)
unfolding unquote count_backslash
unquote-plain c n s h k = rw (h, k)

-- What the quoting of one byte is read as, with `n` backslashes before it.
unquote-put_byte :
    (c n : ℕ) (s value rest : CString)
    → unquote s (count_backslash c n) ≡ some (put_backslashes (count_backslash c n) ++ value, rest)
    → unquote (put_byte c n ++ s) n ≡ some (put_backslashes n ++ c ∷ value, rest)
unfolding put_byte count_backslash
unquote-put_byte c n s value rest ih = elim (Bool-cases (c == backslash)) [
  | inl b ↦
      let e : c ≡ backslash = (==_iff c backslash).0 b in
      rw e (
        unquote-backslash n s
        ∙ (rw e at ih)
        ∙ ap (λ v. some (v, rest)) (put_backslashes-snoc n value))
  | inr b ↦
      let ih' : unquote s 0 ≡ some (value, rest) = rw (b, put_backslashes) at ih in
      elim (Bool-cases (c == quote)) [
        | inl q ↦
            let e : c ≡ quote = (==_iff c quote).0 q in
            rw (e, append_assoc)
              (unquote-put_backslashes n n (backslash ∷ quote ∷ s)
                ∙ unquote-backslash (n + n) (quote ∷ s)
                ∙ unquote-quote_odd n s
                ∙ ap (before (put_backslashes n ++ quote ∷ [])) ih'
                ∙ (simp append_assoc))
        | inr q ↦ rw q (
            unquote-plain c n s b q
            ∙ ap (before (put_backslashes n ++ c ∷ [])) ih'
            ∙ (simp append_assoc))
      ]
]

unquote-quoted_rest :
    (value rest : CString) (n : ℕ)
    → unquote (quoted_rest value n ++ rest) n ≡ some (put_backslashes n ++ value, rest)
unfolding quoted_rest
unquote-quoted_rest [] rest n =
    rw (append_assoc, unquote-put_backslashes, append-nil) (unquote-quote_even n rest)
unquote-quoted_rest (c ∷ value) rest n = rw append_assoc (
    unquote-put_byte c n (quoted_rest value (count_backslash c n) ++ rest) value rest
      (unquote-quoted_rest value rest (count_backslash c n)))

-- The program behind an opening quote, and what follows its closing quote: everything to the next quote,
-- where a backslash is a byte like any other.
pub unquote_program : CString → Option (CString × CString)
unquote_program [] = none
unquote_program (c ∷ s) = if c == quote then some ([], s) else before (c ∷ []) (unquote_program s)

-- How many backslashes a string ends in, with `n` just before it.
abbrev pub last_backslashes : CString → ℕ → ℕ
last_backslashes [] n = n
last_backslashes (c ∷ s) n = last_backslashes s (count_backslash c n)

abbrev pub has_quote : CString → Bool
has_quote [] = false
has_quote (c ∷ s) = (c == quote) || has_quote s

quoted_rest-plain :
    (value : CString) (n : ℕ)
    → has_quote value ≡ false
    → quoted_rest value n ≡ value ++ put_backslashes (last_backslashes value n) ++ quote ∷ []
unfolding quoted_rest put_byte
quoted_rest-plain [] n h = refl
quoted_rest-plain (c ∷ value) n h = elim (Bool-cases (c == quote)) [
  | inl q ↦ absurd (ground (arith, q, h))
  | inr q ↦ rw q (ap (◌∷◌ c) (quoted_rest-plain value (count_backslash c n) (rw q at h)))
]

unquote_program-plain :
    (value rest : CString)
    → has_quote value ≡ false
    → unquote_program (value ++ quote ∷ rest) ≡ some (value, rest)
unfolding unquote_program
unquote_program-plain [] rest h = refl
unquote_program-plain (c ∷ value) rest h = elim (Bool-cases (c == quote)) [
  | inl q ↦ absurd (ground (arith, q, h))
  | inr q ↦ rw q (ap (before (c ∷ [])) (unquote_program-plain value rest (rw q at h)))
]

has_quote-append : (a b : CString) → has_quote (a ++ b) ≡ (has_quote a || has_quote b)
has_quote-append [] b = refl
has_quote-append (c ∷ a) b = ground (arith, has_quote-append a b)

has_quote-put_backslashes : (n : ℕ) → has_quote (put_backslashes n) ≡ false
unfolding put_backslashes
has_quote-put_backslashes zero = refl
has_quote-put_backslashes (suc n) = has_quote-put_backslashes n

-- What the program of a command line is read as: its last backslashes have been doubled.
abbrev pub read_as : CString → CString
read_as path = path ++ put_backslashes (last_backslashes path 0)

unquote_program-quoted_rest :
    (path rest : CString)
    → has_quote path ≡ false
    → unquote_program (quoted_rest path 0 ++ rest) ≡ some (read_as path, rest)
unquote_program-quoted_rest path rest h =
    ap (λ s. unquote_program (s ++ rest)) (quoted_rest-plain path 0 h)
    ∙ ap unquote_program (simp append_assoc)
    ∙ unquote_program-plain (read_as path) rest
        (has_quote-append path _ ∙ rw (h, has_quote-put_backslashes) refl)

-- The arguments behind a program as a reader sees them: a space before each, and quotes around it.
pub data Arguments : CString → List CString → Type 0 where
  no_more : Arguments [] []
  argument :
      {line : CString} {arguments : List CString} (body a rest : CString)
      → line ≡ space ∷ quote ∷ body
      → unquote body 0 ≡ some (a, rest)
      → Arguments rest arguments
      → Arguments line (a ∷ arguments)

-- A command line as a reader sees it, by the documented rules of Windows programs: the program in quotes,
-- and the arguments.
pub data Splits : CString → List CString → Type 0 where
  program :
      {line : CString} {arguments : List CString} (body a rest : CString)
      → line ≡ quote ∷ body
      → unquote_program body ≡ some (a, rest)
      → Arguments rest arguments
      → Splits line (a ∷ arguments)

-- What `append_arguments` adds to a target.
added : List CString → CString
added [] = []
added (a ∷ arguments) = space ∷ quote ∷ (quoted_rest a 0 ++ added arguments)

append_arguments_lem :
    (target : CString) (arguments : List CString)
    → append_arguments target arguments ≡ target ++ added arguments
unfolding append_arguments append_quoted added
append_arguments_lem target [] = sym (append-nil target)
append_arguments_lem target (a ∷ arguments) =
    append_arguments_lem ((target ++ space ∷ []) ++ quote ∷ quoted_rest a 0) arguments
    ∙ (simp append_assoc)

Arguments-added : (arguments : List CString) → Arguments (added arguments) arguments
unfolding added put_backslashes
Arguments-added [] = no_more
Arguments-added (a ∷ arguments) =
    argument _ a _ refl (unquote-quoted_rest a (added arguments) 0) (Arguments-added arguments)

Splits-command :
    (path : CString) (arguments : List CString)
    → has_quote path ≡ false
    → Splits (append_arguments (append_quoted [] path) arguments) (read_as path ∷ arguments)
unfolding append_quoted
Splits-command path arguments h =
    program _ (read_as path) _ (append_arguments_lem (quote ∷ quoted_rest path 0) arguments)
      (unquote_program-quoted_rest path (added arguments) h) (Arguments-added arguments)

-- What is read from one line is the same.
same_read :
    {line body body' a a' rest rest' : CString} (read : CString → Option (CString × CString))
    → line ≡ body
    → line ≡ body'
    → read body ≡ some (a, rest)
    → read body' ≡ some (a', rest')
    → (a ≡ a') × (rest' ≡ rest)
same_read read l l' u u' = (cc, cc)

behind : {c : ℕ} {s t : CString} → c ∷ s ≡ c ∷ t → s ≡ t
behind e = cc

Arguments-unique :
    {line : CString} {xs ys : List CString} → Arguments line xs → Arguments line ys → xs ≡ ys
Arguments-unique no_more no_more = refl
Arguments-unique no_more (argument b a r l u s) = absurd cc
Arguments-unique (argument b a r l u s) no_more = absurd cc
Arguments-unique (argument b a r l u s) (argument {arguments = others} b' a' r' l' u' s') =
    let same = same_read (λ t. unquote t 0) refl (behind (behind (sym l ∙ l'))) u u' in
    ap₂ ◌∷◌ same.0 (Arguments-unique s (subst (λ t. Arguments t others) same.1 s'))

-- A command line is read in one way only.
Splits-unique : {line : CString} {xs ys : List CString} → Splits line xs → Splits line ys → xs ≡ ys
Splits-unique (program b a r l u s) (program {arguments = others} b' a' r' l' u' s') =
    let same = same_read unquote_program refl (behind (sym l ∙ l')) u u' in
    ap₂ ◌∷◌ same.0 (Arguments-unique s (subst (λ t. Arguments t others) same.1 s'))

-- For a program without a quote, which a Windows path cannot have, and all arguments: a reader that follows
-- the documented rules, where a backslash in the program stands for itself and in an argument may escape a
-- quote, splits the command line that `x_process_build_command_line` makes in one way only: into the program,
-- with the backslashes doubled that it ends in, if any, and exactly the arguments that were given.
pub Splits-utf8_command :
    (path : CString) (arguments : Option (List CString)) (read : List CString)
    → has_quote path ≡ false
    → Splits (utf8_command path arguments) (read_as path ∷ given arguments)
      × (Splits (utf8_command path arguments) read → read ≡ read_as path ∷ given arguments)
unfolding utf8_command
Splits-utf8_command path arguments read h =
    let s = Splits-command path (given arguments) h in (s, λ t. Splits-unique t s)

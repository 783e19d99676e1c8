-- ===== src/CommandLine.antt =====
-- The Windows command line that src/x_process.c builds from a program and its arguments:
-- `x_process_quoted_length`, `x_process_append_quoted` and `x_process_build_command_line`.
pub mod Length
pub mod RoundTrip
mod Tests
use xlib.Common.{
  ℕ, zero, suc, ◌+◌, Bool, true, false, Option, none, some, List, [], ◌∷◌, ◌++◌, ◌==◌,
  if◌then◌else◌, einval, enomem, add_word, CString,
}

abbrev pub quote : ℕ
quote = 34

abbrev pub backslash : ℕ
backslash = 92

abbrev pub space : ℕ
space = 32

-- How many backslashes stand just before the next byte.
pub count_backslash : ℕ → ℕ → ℕ
count_backslash c backslashes = if c == backslash then backslashes + 1 else 0

-- What `x_process_quoted_length` adds for one byte.
byte_length : ℕ → ℕ → ℕ
byte_length c backslashes = if c == quote then backslashes + 2 else 1

length_loop : CString → ℕ → ℕ → ℕ
unfolding count_backslash byte_length
length_loop [] length backslashes = add_word (add_word length backslashes) 1
length_loop (c ∷ value) length backslashes =
    length_loop value (add_word length (byte_length c backslashes)) (count_backslash c backslashes)

-- `x_process_quoted_length`, in `size_t`.
pub quoted_length : CString → ℕ
unfolding length_loop
quoted_length value = length_loop value 2 0

-- `while (backslashes-- > 0U) target[(*offset)++] = '\\';`
pub put_backslashes : ℕ → CString
put_backslashes zero = []
put_backslashes (suc n) = backslash ∷ put_backslashes n

-- What the loop of `x_process_append_quoted` writes for one byte.
pub put_byte : ℕ → ℕ → CString
unfolding put_backslashes
put_byte c backslashes =
    if c == quote then put_backslashes backslashes ++ backslash ∷ quote ∷ [] else c ∷ []

-- The bytes that `x_process_append_quoted` writes behind the opening quote, in order.
pub quoted_rest : CString → ℕ → CString
unfolding put_byte count_backslash
quoted_rest [] backslashes = put_backslashes backslashes ++ quote ∷ []
quoted_rest (c ∷ value) backslashes =
    put_byte c backslashes ++ quoted_rest value (count_backslash c backslashes)

-- `x_process_append_quoted`: the target holds the bytes written before, `*offset` many.
pub append_quoted : CString → CString → CString
unfolding quoted_rest
append_quoted target value = target ++ quote ∷ quoted_rest value 0

-- The two loops over the arguments of `x_process_build_command_line`.
pub arguments_length : ℕ → List CString → ℕ
arguments_length length [] = length
arguments_length length (a ∷ arguments) =
    arguments_length (add_word length (add_word 1 (quoted_length a))) arguments

pub append_arguments : CString → List CString → CString
append_arguments target [] = target
append_arguments target (a ∷ arguments) =
    append_arguments (append_quoted (target ++ space ∷ []) a) arguments

-- The number of bytes that are allocated, and the bytes written before the terminator. `none` for
-- the arguments is NULL.
abbrev given : Option (List CString) → List CString
given none = []
given (some arguments) = arguments

pub allocated : CString → Option (List CString) → ℕ
allocated path arguments = add_word (arguments_length (quoted_length path) (given arguments)) 1

pub utf8_command : CString → Option (List CString) → CString
utf8_command path arguments = append_arguments (append_quoted [] path) (given arguments)

-- `x_process_build_command_line`: `calloc` says whether an allocation of so many bytes succeeds,
-- and `to_wide` is the status of `x_process_utf8_to_wide` on the command.
pub build_command_line :
    (ℕ → Bool) → (CString → ℕ) → Option CString → Option (List CString) → Bool → ℕ
build_command_line calloc to_wide (some path) arguments true =
    if calloc (allocated path arguments) then to_wide (utf8_command path arguments) else enomem
build_command_line calloc to_wide path arguments command_line = einval

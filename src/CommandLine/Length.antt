-- ===== src/CommandLine/Length.antt =====
-- The buffer of the Windows command line is large enough.
use xlib.Common.{
  ℕ, zero, suc, ◌+◌, ◌%◌, ◌≤◌, ◌<◌, ◌≡◌, refl, ap, ◌∙◌, List, [], ◌∷◌, ◌++◌, add_word, word,
  CString, length, length-append, arith, Option,
}
use xlib.CommandLine.{
  put_backslashes, put_byte, byte_length, count_backslash, quoted_rest, append_quoted, length_loop,
  quoted_length, arguments_length, append_arguments, allocated, utf8_command, given, quote,
  backslash, space,
}

length-put_backslashes : (n : ℕ) → length (put_backslashes n) ≡ n
unfolding put_backslashes
length-put_backslashes zero = refl
length-put_backslashes (suc n) = ap suc (length-put_backslashes n)

length-put_byte : (c n : ℕ) → length (put_byte c n) ≡ byte_length c n
unfolding put_byte byte_length
length-put_byte c n =
    ground
      (arith, length-append (put_backslashes n) (backslash ∷ quote ∷ []), length-put_backslashes n)

-- The length that is counted is that of the bytes that are written, and one more.
length_loop-quoted_rest :
    (value : CString) (n backslashes : ℕ)
    → length_loop value (n % word) backslashes ≡ (n + length (quoted_rest value backslashes)) % word
unfolding length_loop quoted_rest
length_loop-quoted_rest [] n b =
    omega (arith, length-append (put_backslashes b) (quote ∷ []), length-put_backslashes b)
length_loop-quoted_rest (c ∷ value) n b =
    ap (λ k. length_loop value k (count_backslash c b)) (omega (arith, length-put_byte c b))
    ∙ length_loop-quoted_rest value (n + byte_length c b) (count_backslash c b)
    ∙ omega (
      arith,
      length-append (put_byte c b) (quoted_rest value (count_backslash c b)),
      length-put_byte c b,
    )

quoted_size : CString → ℕ
quoted_size value = suc (length (quoted_rest value 0))

quoted_length-quoted_size : (value : CString) → quoted_length value ≡ (quoted_size value + 1) % word
unfolding quoted_length quoted_size
quoted_length-quoted_size value = length_loop-quoted_rest value 2 0 ∙ omega arith

length-append_quoted :
    (target value : CString)
    → length (append_quoted target value) ≡ length target + quoted_size value
unfolding append_quoted quoted_size
length-append_quoted target value =
    omega (arith, length-append target (quote ∷ quoted_rest value 0))

arguments_size : List CString → ℕ
arguments_size [] = 0
arguments_size (a ∷ arguments) = 1 + quoted_size a + arguments_size arguments

length-append_arguments :
    (target : CString) (arguments : List CString)
    → length (append_arguments target arguments) ≡ length target + arguments_size arguments
unfolding append_arguments arguments_size
length-append_arguments target [] = omega arith
length-append_arguments target (a ∷ arguments) = omega (
  arith,
  length-append_arguments (append_quoted (target ++ space ∷ []) a) arguments,
  length-append_quoted (target ++ space ∷ []) a,
  length-append target (space ∷ []),
)

arguments_length-arguments_size :
    (n : ℕ) (arguments : List CString)
    → arguments_length (n % word) arguments
      ≡ (n + arguments_size arguments + length arguments) % word
unfolding arguments_length arguments_size
arguments_length-arguments_size n [] = omega arith
arguments_length-arguments_size n (a ∷ arguments) =
    ap (λ k. arguments_length k arguments) (omega (arith, quoted_length-quoted_size a))
    ∙ arguments_length-arguments_size (n + quoted_size a + 2) arguments
    ∙ omega arith

-- As long as the size of the command stays below 2^64, `x_process_build_command_line` allocates
-- exactly two bytes and one for each argument more than it writes before the terminator, so every
-- write, the terminator's included, is inside the allocation.
pub allocated-utf8_command :
    (path : CString) (arguments : Option (List CString))
    → length (utf8_command path arguments) + length (given arguments) + 2 < word
    → (allocated path arguments
        ≡ length (utf8_command path arguments) + length (given arguments) + 2)
      × (length (utf8_command path arguments) + 1 ≤ allocated path arguments)
unfolding allocated utf8_command
allocated-utf8_command path arguments h = omega (arith, exact)
  where
    exact :
        add_word (arguments_length (quoted_length path) (given arguments)) 1
        ≡ length (append_arguments (append_quoted [] path) (given arguments))
          + length (given arguments)
          + 2
    exact =
        ap (λ k. add_word (arguments_length k (given arguments)) 1) (quoted_length-quoted_size path)
        ∙ omega (
          arith,
          arguments_length-arguments_size (quoted_size path + 1) (given arguments),
          length-append_arguments (append_quoted [] path) (given arguments),
          length-append_quoted [] path,
        )

-- ===== src/CommandLine/Tests.antt =====
-- Runs of the command line functions, and instances of their theorems.
use xlib.Common.{
  ◌+◌, ◌≤◌, ◌≡◌, refl, true, false, some, none, [], ◌∷◌, length, CString, arith, enomem,
}
use xlib.CommandLine.{
  quoted_length, append_quoted, utf8_command, allocated, build_command_line, append_arguments,
  given, put_backslashes, count_backslash,
}
use xlib.CommandLine.Length.{allocated-utf8_command}
use xlib.CommandLine.RoundTrip.{Splits, Splits-utf8_command}

-- a\"b\
abbrev tricky : CString
tricky = b'a' ∷ 92 ∷ 34 ∷ b'b' ∷ 92 ∷ []

abbrev program : CString
program = b'p' ∷ []

quoted_runs : append_quoted [] tricky ≡ 34 ∷ b'a' ∷ 92 ∷ 92 ∷ 92 ∷ 34 ∷ b'b' ∷ 92 ∷ 92 ∷ 34 ∷ []
unfolding append_quoted
quoted_runs = refl

quoted_length_runs : quoted_length tricky ≡ 11
unfolding quoted_length
quoted_length_runs = refl

command_runs :
    utf8_command program (some (program ∷ [])) ≡ 34 ∷ b'p' ∷ 34 ∷ 32 ∷ 34 ∷ b'p' ∷ 34 ∷ []
unfolding utf8_command append_arguments append_quoted
command_runs = refl

out_of_memory : build_command_line (λ n. false) (λ c. 0) (some program) none true ≡ enomem
unfolding build_command_line
out_of_memory = refl

allocated-utf8_command_example :
    (allocated program (some (tricky ∷ []))
      ≡ length (utf8_command program (some (tricky ∷ [])))
        + length (given (some (tricky ∷ [])))
        + 2)
    × (length (utf8_command program (some (tricky ∷ []))) + 1
        ≤ allocated program (some (tricky ∷ [])))
unfolding utf8_command append_arguments append_quoted
allocated-utf8_command_example = allocated-utf8_command program (some (tricky ∷ [])) (omega arith)

-- a\b
abbrev folder : CString
folder = b'a' ∷ 92 ∷ b'b' ∷ []

Splits-utf8_command_example :
    Splits (utf8_command folder (some (tricky ∷ []))) (folder ∷ tricky ∷ [])
unfolding put_backslashes count_backslash
Splits-utf8_command_example =
    (Splits-utf8_command folder (some (tricky ∷ [])) (folder ∷ tricky ∷ []) refl).0

-- ===== src/Process/Start/Balance.antt =====
-- Starting a child process keeps account of what it holds.
use xlib.Common.{Bool, true, false, Option, none, some, List, [], ◌∷◌, ◌++◌, arith, einval, CString}
use xlib.FilePath.{Platform, posix, windows}
use xlib.Ledger.{Resource, M, ◌>>◌, release, listed, file_handle, process_handle, thread_handle}
use xlib.Ledger.Bag.{SameBag, SameBag-refl, count-append}
use xlib.Ledger.Triple.{
  Balanced, Triple, Triple-bind, Triple-or_after, Triple-acquire, Triple-acquire_two,
  Triple-allocate, Triple-call, Triple-ask, Triple-guard, Triple-release, Triple-release_two,
  Triple-pure, Triple-translated, Triple-give, Triple-give_option, Triple-optional, Triple-reorder,
}
use xlib.Process.{Pipe, Options, is_some}
use xlib.Process.Balance.{process_holdings}
use xlib.Process.Start.{
  utf8_to_wide, build_command_line, convert_each, build_environment_block, open_redirect,
  duplicate_pipe_for_child, redirected, converted_directory, environment_block, free_texts,
  close_streams, start_child, open_streams, start_windows, start_posix, start_on, process_start,
  redirected_once, options_or_none,
}

pub utf8_to_wide-Triple :
    {pre : List Resource} → (given : Bool) → Triple pre pre (λ r. r ∷ pre) (utf8_to_wide given)
unfolding utf8_to_wide
utf8_to_wide-Triple given = Triple-bind (Triple-guard given einval) λ _.
    Triple-bind (Triple-translated _ Triple-ask) λ _. Triple-bind Triple-allocate λ converted.
      Triple-bind (Triple-or_after (Triple-translated _ Triple-call) Triple-release)
        λ _. Triple-pure

build_command_line-Triple :
    {pre : List Resource}
    → (given : Bool) → Triple pre pre (λ r. r ∷ pre) (build_command_line given)
unfolding build_command_line
build_command_line-Triple {pre = pre} given = Triple-bind (Triple-guard given einval) λ _.
    Triple-bind Triple-allocate λ utf8_command.
      Triple-bind (Triple-or_after (utf8_to_wide-Triple true) Triple-release) λ command_line.
        Triple-bind (Triple-give {rest = command_line ∷ pre} (record { counts = λ x. omega arith }))
          λ _. Triple-pure

convert_each-Triple :
    {pre : List Resource}
    → (environment : List CString) → Triple pre pre (λ _. pre) (convert_each environment)
unfolding convert_each
convert_each-Triple [] = Triple-pure
convert_each-Triple (value ∷ environment) =
    Triple-bind (Triple-translated _ Triple-call) λ _. convert_each-Triple environment

open_redirect-Triple :
    {pre : List Resource} → (given : Bool) → Triple pre pre (λ r. r ∷ pre) (open_redirect given)
unfolding open_redirect
open_redirect-Triple {pre = pre} given = Triple-bind (Triple-guard given einval) λ _.
    Triple-bind (utf8_to_wide-Triple true) λ wide_path.
      Triple-bind
        (Triple-or_after (Triple-translated _ (Triple-acquire file_handle)) Triple-release)
        λ handle.
          Triple-bind (Triple-give {rest = handle ∷ pre} (record { counts = λ x. omega arith }))
            λ _. Triple-pure

duplicate-Triple :
    {pre : List Resource}
    → (given : Bool) → Triple pre pre (λ r. r ∷ pre) (duplicate_pipe_for_child given)
unfolding duplicate_pipe_for_child
duplicate-Triple given =
    Triple-bind (Triple-guard given einval) λ _. Triple-translated _ (Triple-acquire file_handle)

redirected-Triple :
    {pre : List Resource}
    → (path : Option CString) (pipe : Option Pipe)
    → Triple pre pre (λ x. listed x ++ pre) (redirected path pipe)
unfolding redirected
redirected-Triple (some path) pipe = Triple-optional true (open_redirect-Triple true)
redirected-Triple none (some pipe) = Triple-optional true (duplicate-Triple true)
redirected-Triple none none = Triple-optional false (duplicate-Triple true)

converted_directory-Triple :
    {pre : List Resource}
    → (directory : Option CString)
    → Triple pre pre (λ x. listed x ++ pre) (converted_directory directory)
unfolding converted_directory
converted_directory-Triple directory =
    Triple-optional (is_some directory) (utf8_to_wide-Triple true)

build_environment_block-Triple :
    {pre : List Resource} (environment : List CString)
    → Triple pre pre (λ r. r ∷ pre) (build_environment_block environment)
unfolding build_environment_block
build_environment_block-Triple environment = Triple-bind (convert_each-Triple environment) λ _.
    Triple-bind Triple-allocate λ created.
      Triple-bind (Triple-or_after (convert_each-Triple environment) Triple-release)
        λ _. Triple-pure

environment_block-Triple :
    {pre : List Resource} (environment : Option (List CString))
    → Triple pre pre (λ x. listed x ++ pre) (environment_block environment)
unfolding environment_block
environment_block-Triple none = Triple-pure
environment_block-Triple (some environment) =
    Triple-optional true (build_environment_block-Triple environment)

module _ (block directory : Option Resource) (command_line : Resource) where
  -- The texts of a start, above what it holds besides.
  abbrev texts : List Resource → List Resource
  texts base = listed block ++ (listed directory ++ command_line ∷ base)

  free_texts-Triple :
      {base errs : List Resource}
      → Triple (texts base) errs (λ _. base) (free_texts block directory command_line)
  unfolding free_texts
  free_texts-Triple =
      Triple-bind (Triple-give_option block (SameBag-refl _))
        λ _. Triple-bind (Triple-give_option directory (SameBag-refl _)) λ _. Triple-release

-- Three handles may be named in the other order.
reverse_three :
    (a b c : Option Resource) (base : List Resource)
    → SameBag
        (listed c ++ (listed b ++ (listed a ++ base)))
        (listed a ++ (listed b ++ (listed c ++ base)))
reverse_three a b c base = record {
  counts = λ x. omega (
    arith,
    count-append x (listed c) (listed b ++ (listed a ++ base)),
    count-append x (listed b) (listed a ++ base),
    count-append x (listed a) base,
    count-append x (listed a) (listed b ++ (listed c ++ base)),
    count-append x (listed b) (listed c ++ base),
    count-append x (listed c) base,
  );
}

close_streams-Triple :
    (stdin_handle stdout_handle stderr_handle : Option Resource) {base left errs : List Resource}
    {rest : M (Unit {0})}
    → Triple base errs (λ _. left) rest
    → Triple
        (listed stderr_handle ++ (listed stdout_handle ++ (listed stdin_handle ++ base)))
        errs
        (λ _. left)
        (close_streams stdin_handle stdout_handle stderr_handle rest)
unfolding close_streams
close_streams-Triple a b c {base = base} h = Triple-reorder (reverse_three a b c base) (
    Triple-bind (Triple-give_option a (SameBag-refl _)) λ _.
      Triple-bind (Triple-give_option b (SameBag-refl _))
        λ _. Triple-bind (Triple-give_option c (SameBag-refl _)) λ _. h)

-- The handles of the child may be named below three other lists.
below :
    (p t : Resource) (xs ys zs base : List Resource)
    → SameBag (p ∷ t ∷ xs ++ (ys ++ (zs ++ base))) (xs ++ (ys ++ (zs ++ p ∷ t ∷ base)))
below p t xs ys zs base = record {
  counts = λ x. omega (
    arith,
    count-append x xs (ys ++ (zs ++ base)),
    count-append x ys (zs ++ base),
    count-append x zs base,
    count-append x xs (ys ++ (zs ++ p ∷ t ∷ base)),
    count-append x ys (zs ++ p ∷ t ∷ base),
    count-append x zs (p ∷ t ∷ base),
  );
}

-- What is freed besides the streams: it stands just above the rest, wherever that is.
module _ (created : Resource) (block directory : Option Resource) (command_line : Resource)
    (base : List Resource) where
  start_child-Triple :
      (a b c : Option Resource)
      → Triple
          (listed c
            ++ (listed b ++ (listed a ++ texts block directory command_line (created ∷ base))))
          base
          (λ p. process_holdings p ++ base)
          (start_child created a b c (free_texts block directory command_line))
  unfolding start_child
  start_child-Triple a b c =
      Triple-bind
        (Triple-or_after (Triple-translated _ (Triple-acquire_two process_handle thread_handle)) (
          Triple-bind (close_streams-Triple a b c (free_texts-Triple block directory command_line))
            λ _. Triple-release))
        λ handles.
          Triple-bind
            (Triple-reorder
              (below (handles.0) (handles.1) (listed c) (listed b) (listed a)
                (texts block directory command_line (created ∷ base)))
              (close_streams-Triple a b c (
                Triple-reorder
                  (below (handles.0) (handles.1) (listed block) (listed directory)
                    (command_line ∷ []) (created ∷ base))
                  (free_texts-Triple block directory command_line))))
            λ _. Triple-pure

  open_streams-Triple :
      (options : Options)
      → Triple
          (texts block directory command_line (created ∷ base))
          base
          (λ p. process_holdings p ++ base)
          (open_streams created options (free_texts block directory command_line))
  unfolding open_streams
  open_streams-Triple options =
      Triple-bind
        (Triple-or_after (redirected-Triple (options.stdin_path) (options.stdin_pipe)) freed)
        λ stdin_handle.
          Triple-bind
            (Triple-or_after (redirected-Triple (options.stdout_path) (options.stdout_pipe))
              (Triple-bind (Triple-give_option stdin_handle (SameBag-refl _)) λ _. freed))
            λ stdout_handle.
              Triple-bind
                (Triple-or_after (redirected-Triple (options.stderr_path) (options.stderr_pipe)) (
                  Triple-bind
                    (Triple-give_option stdin_handle
                      (reverse_three stdin_handle stdout_handle none _))
                    λ _.
                      Triple-bind (Triple-give_option stdout_handle (SameBag-refl _)) λ _. freed))
                λ stderr_handle. start_child-Triple stdin_handle stdout_handle stderr_handle
    where
      freed :
          Triple
            (texts block directory command_line (created ∷ base))
            base
            (λ _. base)
            (free_texts block directory command_line >> release created)
      freed = Triple-bind (free_texts-Triple block directory command_line) λ _. Triple-release

start_windows-Triple :
    (created : Resource) (options : Options) (base : List Resource)
    → Triple (created ∷ base) base (λ p. process_holdings p ++ base) (start_windows created options)
unfolding start_windows
start_windows-Triple created options base =
    Triple-bind (Triple-or_after (build_command_line-Triple true) Triple-release) λ command_line.
      Triple-bind
        (Triple-or_after (converted_directory-Triple (options.working_directory))
          Triple-release_two)
        λ directory.
          Triple-bind
            (Triple-or_after (environment_block-Triple (options.environment))
              (Triple-bind (Triple-give_option directory (SameBag-refl _)) λ _. Triple-release_two))
            λ block. open_streams-Triple created block directory command_line base options

start_posix-Triple :
    (created : Resource) (base : List Resource)
    → Triple (created ∷ base) base (λ p. process_holdings p ++ base) (start_posix created)
unfolding start_posix
start_posix-Triple created base =
    Triple-bind (Triple-or_after Triple-allocate Triple-release) λ child_arguments.
      Triple-bind (Triple-or_after Triple-ask Triple-release_two)
        λ pid. Triple-bind Triple-release λ _. Triple-pure

start_on-Triple :
    (platform : Platform) (created : Resource) (options : Options) (base : List Resource)
    → Triple
        (created ∷ base)
        base
        (λ p. process_holdings p ++ base)
        (start_on platform created options)
unfolding start_on
start_on-Triple posix created options base = start_posix-Triple created base
start_on-Triple windows created options base = start_windows-Triple created options base

-- In either build, for all options, whatever the system answers, `x_process_start` gives back nothing
-- twice; when it fails, at whichever step, it holds nothing that it did not hold before, and when it
-- succeeds it holds besides exactly the memory of the process, and in the Windows build the two
-- handles of the child: no text, no stream and no vector of arguments.
pub process_start-Balanced :
    (platform : Platform) (given : Bool) (options : Option Options)
    → Balanced process_holdings (process_start platform given options)
unfolding process_start
process_start-Balanced platform given options base = Triple-bind (Triple-guard given einval) λ _.
    Triple-bind (Triple-guard (redirected_once (options_or_none options)) einval) λ _.
      Triple-bind Triple-allocate
        λ created. start_on-Triple platform created (options_or_none options) base

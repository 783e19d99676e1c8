-- ===== src/Process/Balance.antt =====
-- What the pipes and the processes of src/x_process.c hold, and that creating and destroying them
-- keeps account of it.
use xlib.Common.{Bool, Option, none, some, List, [], ◌∷◌, ◌++◌, arith, einval, enomem}
use xlib.FilePath.{Platform, posix, windows}
use xlib.Ledger.{
  Resource, tried, Status, gave, gave_error, allocate, read_end, write_end, ◌>>◌, release, listed,
}
use xlib.Ledger.Bag.{SameBag, SameBag-refl}
use xlib.Ledger.Triple.{
  Balanced, Frees, Triple, Triple-bind, Triple-or_after, Triple-acquire_two, Triple-allocate,
  Triple-tried, settled, Triple-weaken, Triple-guard, Triple-release, Triple-release_two,
  Triple-pure, Triple-translated, Triple-ignored, Triple-give, Triple-give_option, Triple-reorder,
  Triple-fail,
}
use xlib.Process.{
  Pipe, Child, posix_child, windows_child, Process, pointer_of, both_pointers, take_ends,
  pipe_create, pipe_close, destroy_child, process_destroy,
}

-- What a pipe holds.
abbrev pub pipe_holdings : Pipe → List Resource
pipe_holdings p = p.end ∷ p.created ∷ []

abbrev pub child_holdings : Child → List Resource
child_holdings (posix_child pid) = []
child_holdings (windows_child process thread) = process ∷ thread ∷ []

-- What a process holds.
abbrev pub process_holdings : Process → List Resource
process_holdings p = child_holdings (p.child) ++ p.created ∷ []

-- A pointer that is asked for, and looked at later.
Triple-tried_pointer :
    (pre : List Resource) {errs : List Resource}
    → Triple pre errs (λ x. listed (pointer_of x) ++ pre) (tried allocate)
Triple-tried_pointer pre = Triple-weaken named (Triple-tried Triple-allocate)
  where
    named :
        (x : Status Resource)
        → SameBag (settled pre (λ r. r ∷ pre) x) (listed (pointer_of x) ++ pre)
    named (gave r) = SameBag-refl _
    named (gave_error e) = SameBag-refl _

Triple-both_pointers :
    (x y : Option Resource) (base : List Resource)
    → Triple (listed y ++ (listed x ++ base)) base (λ c. c.1 ∷ c.0 ∷ base) (both_pointers x y)
unfolding both_pointers
Triple-both_pointers (some r) (some w) base = Triple-pure
Triple-both_pointers (some r) none base =
    Triple-bind Triple-release
      λ _. Triple-bind (Triple-pure {a = tt} {oks = λ _. base}) λ _. Triple-fail {e = enomem}
Triple-both_pointers none y base =
    Triple-bind (Triple-pure {a = tt} {oks = λ _. listed y ++ base})
      λ _. Triple-bind (Triple-give_option y (SameBag-refl _)) λ _. Triple-fail {e = enomem}

take_ends-Triple :
    {pre : List Resource} (platform : Platform)
    → Triple pre pre (λ r. r.0 ∷ r.1 ∷ pre) (take_ends platform)
unfolding take_ends
take_ends-Triple posix =
    Triple-bind (Triple-acquire_two read_end write_end)
      λ _. Triple-bind Triple-ignored λ _. Triple-bind Triple-ignored λ _. Triple-pure
take_ends-Triple windows = Triple-translated _ (Triple-acquire_two read_end write_end)

pub pipe_create-Balanced :
    (platform : Platform) (given : Bool)
    → Balanced (λ p. pipe_holdings (p.1) ++ pipe_holdings (p.0)) (pipe_create platform given)
unfolding pipe_create
pipe_create-Balanced platform given base = Triple-bind (Triple-guard given einval) λ _.
    Triple-bind (Triple-tried_pointer base) λ first.
      Triple-bind (Triple-tried_pointer (listed (pointer_of first) ++ base)) λ second.
        Triple-bind (Triple-both_pointers (pointer_of first) (pointer_of second) base) λ created.
          Triple-bind
            (Triple-or_after (take_ends-Triple platform) (
              Triple-bind (Triple-give (record { counts = λ x. omega arith })) λ _. Triple-release))
            λ ends. Triple-reorder (record { counts = λ x. omega arith }) Triple-pure

pub pipe_close-Frees : (p : Pipe) → Frees (pipe_holdings p) (pipe_close p)
unfolding pipe_close
pipe_close-Frees p base errs = Triple-release_two

destroy_child-Frees : (child : Child) → Frees (child_holdings child) (destroy_child child)
unfolding destroy_child
destroy_child-Frees (posix_child pid) base errs = Triple-pure
destroy_child-Frees (windows_child process thread) base errs =
    Triple-bind (Triple-give {rest = process ∷ base} (record { counts = λ x. omega arith }))
      λ _. Triple-release

destroy_parts :
    (child : Child) (created : Resource)
    → Frees (child_holdings child ++ created ∷ []) (destroy_child child >> release created)
destroy_parts (posix_child pid) created base errs =
    Triple-bind (destroy_child-Frees (posix_child pid) _ _) λ _. Triple-release
destroy_parts (windows_child process thread) created base errs =
    Triple-bind (destroy_child-Frees (windows_child process thread) _ _) λ _. Triple-release

pub process_destroy-Frees : (p : Process) → Frees (process_holdings p) (process_destroy p)
unfolding process_destroy
process_destroy-Frees p = destroy_parts p.child p.created

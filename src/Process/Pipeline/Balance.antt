-- ===== src/Process/Pipeline/Balance.antt =====
-- A pipeline gives back all that it takes.
use xlib.Common.{ℕ, ap, sym, append_assoc, Bool, true, Option, List, [], ◌++◌, arith, einval}
use xlib.FilePath.{Platform}
use xlib.Ledger.{Resource, Status, gave, gave_error, tried}
use xlib.Ledger.Bag.{SameBag, SameBag-refl, count, count-append}
use xlib.Ledger.Triple.{
  Balanced, Triple, Triple-bind, Triple-tried, settled, Triple-guard, Triple-pure, Triple-fail,
  Triple-ignored, Triple-reorder, Triple-weaken, Triple-tried_same,
}
use xlib.Process.{Process, Options}
use xlib.Process.Balance.{
  process_holdings, pipe_holdings, pipe_create-Balanced, pipe_close-Frees, process_destroy-Frees,
}
use xlib.Process.Start.{process_start}
use xlib.Process.Start.Balance.{process_start-Balanced}
use xlib.Process.Wait.Balance.{process_wait-Triple}
use xlib.Process.Pipeline.{
  Started, both_started, first_started, none_started, started_with, start_second, check_started,
  start_both, conclude, wait_both, run_pipeline,
}

-- What is held for the first process, if it has been started.
abbrev first_holdings : Status Process → List Resource
first_holdings (gave p) = process_holdings p
first_holdings (gave_error e) = []

abbrev holdings : Started → List Resource
holdings (both_started p q) = process_holdings q ++ process_holdings p
holdings (first_started p e) = process_holdings p
holdings (none_started e) = []

Triple-tried_start :
    (pre : List Resource) {errs : List Resource} (platform : Platform) (options : Option Options)
    → Triple pre errs (λ x. first_holdings x ++ pre) (tried (process_start platform true options))
Triple-tried_start pre platform options =
    Triple-weaken named (Triple-tried (process_start-Balanced platform true options pre))
  where
    named :
        (x : Status Process)
        → SameBag (settled pre (λ p. process_holdings p ++ pre) x) (first_holdings x ++ pre)
    named (gave p) = SameBag-refl _
    named (gave_error e) = SameBag-refl _

start_second-Triple :
    (pre : List Resource) {errs : List Resource} (platform : Platform) (options : Options)
    (first : Status Process)
    → Triple
        (first_holdings first ++ pre)
        errs
        (λ x. holdings x ++ pre)
        (start_second platform options first)
unfolding start_second
start_second-Triple pre platform options (gave_error e) = Triple-pure
start_second-Triple pre platform options (gave p) =
    Triple-bind (Triple-tried_start _ platform _)
      λ second. Triple-reorder (named second) Triple-pure
  where
    named :
        (x : Status Process)
        → SameBag
            (first_holdings x ++ (process_holdings p ++ pre))
            (holdings (started_with p x) ++ pre)
    named (gave q) = record {
      counts = λ r. ap (count r) (sym (append_assoc (process_holdings q) (process_holdings p) pre));
    }
    named (gave_error e) = SameBag-refl _

-- What stands below a list may be named above it.
raise : (xs ys base : List Resource) → SameBag (xs ++ (ys ++ base)) (ys ++ (xs ++ base))
raise xs ys base = record {
  counts = λ x. omega (
    arith,
    count-append x xs (ys ++ base),
    count-append x ys base,
    count-append x ys (xs ++ base),
    count-append x xs base,
  );
}

raise_in : (xs ys base : List Resource) → SameBag ((xs ++ ys) ++ base) (ys ++ (xs ++ base))
raise_in xs ys base = record {
  counts = λ x. omega (
    arith,
    count-append x (xs ++ ys) base,
    count-append x xs ys,
    count-append x ys (xs ++ base),
    count-append x xs base,
  );
}

-- What two processes hold.
abbrev pub both_holdings : Process × Process → List Resource
both_holdings both = process_holdings (both.1) ++ process_holdings (both.0)

check_started-Triple :
    (fuel : ℕ) (x : Started) (base : List Resource)
    → Triple (holdings x ++ base) base (λ both. both_holdings both ++ base) (check_started fuel x)
unfolding check_started
check_started-Triple fuel (both_started p q) base = Triple-pure
check_started-Triple fuel (first_started p e) base = Triple-bind Triple-ignored λ _.
    Triple-bind (Triple-tried_same (process_wait-Triple fuel p))
      λ _. Triple-bind (process_destroy-Frees p base _) λ _. Triple-fail {e = e}
check_started-Triple fuel (none_started e) base = Triple-fail

-- Closed.
pub start_both-Balanced :
    (platform : Platform) (fuel : ℕ) (options : Option Options)
    → Balanced both_holdings (start_both platform fuel options)
unfolding start_both
start_both-Balanced platform fuel options base =
    Triple-bind (pipe_create-Balanced platform true base) λ pipes.
      Triple-bind (Triple-tried_start _ platform _) λ first.
        Triple-bind (start_second-Triple _ platform _ first) λ started.
          Triple-bind
            (Triple-reorder
              (raise (holdings started) (pipe_holdings (pipes.1) ++ pipe_holdings (pipes.0)) base)
              (pipe_close-Frees (pipes.1) _ _))
            λ _.
              Triple-bind (pipe_close-Frees (pipes.0) _ _)
                λ _. check_started-Triple fuel started base

conclude-Triple :
    {pre : List Resource} (first second : Status Process)
    → Triple pre pre (λ _. pre) (conclude first second)
unfolding conclude
conclude-Triple (gave p) (gave q) = Triple-pure
conclude-Triple (gave p) (gave_error e) = Triple-fail
conclude-Triple (gave_error e) second = Triple-fail

wait_both-Triple :
    (fuel : ℕ) (both : Process × Process) (base : List Resource)
    → Triple (both_holdings both ++ base) base (λ _. base) (wait_both fuel both)
unfolding wait_both
wait_both-Triple fuel both base =
    Triple-bind (Triple-tried_same (process_wait-Triple fuel (both.0))) λ first.
      Triple-bind (Triple-tried_same (process_wait-Triple fuel (both.1))) λ second.
        Triple-bind
          (Triple-reorder (raise_in (process_holdings (both.1)) (process_holdings (both.0)) base)
            (process_destroy-Frees (both.0) (process_holdings (both.1) ++ base) _))
          λ _. Triple-bind (process_destroy-Frees (both.1) base _) λ _. conclude-Triple first second

-- Balanced.
pub run_pipeline-Balanced :
    (platform : Platform) (fuel : ℕ) (given : Bool) (options : Option Options)
    → Balanced (λ _. []) (run_pipeline platform fuel given options)
unfolding run_pipeline
run_pipeline-Balanced platform fuel given options base =
    Triple-bind (Triple-guard given einval) λ _.
      Triple-bind (start_both-Balanced platform fuel options base)
        λ both. wait_both-Triple fuel both base

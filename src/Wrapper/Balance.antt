-- ===== src/Wrapper/Balance.antt =====
-- However its objects are opened, closed and moved, a program with the classes of xlib.hpp frees each
-- thing once.
use xlib.Common.{
  ℕ, zero, suc, ◌+◌, ◌<◌, ◌≡◌, refl, ap, true, false, not, ◌&&◌, ◌||◌, Option, none, some, List, [],
  ◌∷◌, ◌++◌, ◌==◌, length, arith, Bool-cases, inl, inr, append_assoc, ltb→lt,
}
use xlib.FilePath.{Platform}
use xlib.Ledger.{Resource, M, Status, gave, gave_error, pure}
use xlib.Ledger.Bag.{SameBag, count, count-append}
use xlib.Ledger.Triple.{
  Balanced, Frees, Triple, Triple-bind, Triple-pure, Triple-tried, settled, Triple-reorder,
}
use xlib.Wrapper.{
  Op, declares, opens, closes, moves, constructs, var_at, put_var, close_var, opened_as, open_var,
  move_var, is_var, exec, destroy_all, run_ops, run_files, run_mapped_files, run_processes,
}
use xlib.Files.{file_open, file_close}
use xlib.Files.Balance.{file_holdings, file_open-Balanced, file_close-Frees}
use xlib.Memory.{mapped_file_open, mapped_file_destroy}
use xlib.Memory.Balance as Memory
use xlib.Memory.Balance.{mapped_file-Balanced}
use xlib.Process.{Options, process_destroy}
use xlib.Process.Balance.{process_holdings, process_destroy-Frees}
use xlib.Process.Start.{process_start}
use xlib.Process.Start.Balance.{process_start-Balanced}

-- What the library promises of a thing: it is made without a leak, and given back without an error.
pub record IsHandle {A : Type 0} (own : A → List Resource) (make : ℕ → M A)
    (close : A → M (Unit {0})) : Type 0 where
  pub makes : (k : ℕ) → Balanced own (make k)
  pub frees : (a : A) → Frees (own a) (close a)

module _ {A : Type 0} (own : A → List Resource) where
  abbrev owns : Option A → List Resource
  owns none = []
  owns (some a) = own a

  -- What the variables own.
  abbrev owned : List (Option A) → List Resource
  owned [] = []
  owned (x ∷ xs) = owns x ++ owned xs

  count-put_var :
      (r : Resource) (i : ℕ) (x : Option A) (vars : List (Option A))
      → i < length vars
      → count r (owned (put_var i x vars)) + count r (owns (var_at vars i))
        ≡ count r (owned vars) + count r (owns x)
  count-put_var r i x [] h = absurd (omega arith)
  count-put_var r zero x (y ∷ ys) h =
      omega (arith, count-append r (owns x) (owned ys), count-append r (owns y) (owned ys))
  count-put_var r (suc i) x (y ∷ ys) h = omega (
    arith,
    count-append r (owns y) (owned (put_var i x ys)),
    count-append r (owns y) (owned ys),
    count-put_var r i x ys (omega arith),
  )

  -- A variable that is not there owns nothing.
  count-put_none :
      (r : Resource) (i : ℕ) (vars : List (Option A))
      → count r (owned (put_var i none vars)) + count r (owns (var_at vars i))
        ≡ count r (owned vars)
  count-put_none r i [] = omega arith
  count-put_none r zero (y ∷ ys) = omega (arith, count-append r (owns y) (owned ys))
  count-put_none r (suc i) (y ∷ ys) = omega (
    arith,
    count-append r (owns y) (owned (put_var i none ys)),
    count-append r (owns y) (owned ys),
    count-put_none r i ys,
  )

  count-snoc :
      (r : Resource) (x : Option A) (vars : List (Option A))
      → count r (owned (vars ++ x ∷ [])) ≡ count r (owned vars) + count r (owns x)
  count-snoc r x [] = omega (arith, count-append r (owns x) [])
  count-snoc r x (y ∷ ys) = omega (
    arith,
    count-append r (owns y) (owned (ys ++ x ∷ [])),
    count-append r (owns y) (owned ys),
    count-snoc r x ys,
  )

  var_at-put_other :
      (i j : ℕ) (x : Option A) (vars : List (Option A))
      → (i == j) ≡ false
      → var_at (put_var i x vars) j ≡ var_at vars j
  var_at-put_other i j x [] h = refl
  var_at-put_other zero zero x (y ∷ ys) h = absurd (ground (arith, h))
  var_at-put_other zero (suc j) x (y ∷ ys) h = refl
  var_at-put_other (suc i) zero x (y ∷ ys) h = refl
  var_at-put_other (suc i) (suc j) x (y ∷ ys) h = var_at-put_other i j x ys (ground (arith, h))

  length-put_var :
      (i : ℕ) (x : Option A) (vars : List (Option A)) → length (put_var i x vars) ≡ length vars
  length-put_var i x [] = refl
  length-put_var zero x (y ∷ ys) = refl
  length-put_var (suc i) x (y ∷ ys) = ap suc (length-put_var i x ys)

  module _ (make : ℕ → M A) (close : A → M (Unit {0})) (handle : IsHandle own make close) where
    close_var-Triple :
        {pre rest errs : List Resource} (x : Option A)
        → SameBag pre (owns x ++ rest)
        → Triple pre errs (λ _. rest) (close_var close x)
    unfolding close_var
    close_var-Triple none h = Triple-reorder h Triple-pure
    close_var-Triple (some a) h = Triple-reorder h (handle.frees a _ _)

    -- The variable is closed, and owns nothing.
    close_at-Triple :
        (v : ℕ) (vars : List (Option A)) (base errs : List Resource)
        → Triple
            (owned vars ++ base)
            errs
            (λ _. owned (put_var v none vars) ++ base)
            (close_var close (var_at vars v))
    close_at-Triple v vars base errs = close_var-Triple (var_at vars v) (record {
      counts = λ r. omega (
        arith,
        count-append r (owned vars) base,
        count-append r (owns (var_at vars v)) (owned (put_var v none vars) ++ base),
        count-append r (owned (put_var v none vars)) base,
        count-put_none r v vars,
      );
    })

    -- What the variables own may be told otherwise.
    renamed-Triple :
        {errs : List Resource} (old : List Resource) (vars : List (Option A)) (base : List Resource)
        → ((r : Resource) → count r old ≡ count r (owned vars) + count r base)
        → Triple old errs (λ v. owned v ++ base) (pure vars)
    renamed-Triple old vars base h =
        Triple-reorder
          (record { counts = λ r. omega (arith, h r, count-append r (owned vars) base) })
          Triple-pure

    open_var-Triple :
        (v k : ℕ) (vars : List (Option A)) (base errs : List Resource)
        → v < length vars
        → Triple (owned vars ++ base) errs (λ w. owned w ++ base) (open_var make close v k vars)
    unfolding open_var
    open_var-Triple v k vars base errs h = Triple-bind (close_at-Triple v vars base errs) λ _.
        Triple-bind (Triple-tried (handle.makes k (owned (put_var v none vars) ++ base))) stored
      where
        stored :
            (s : Status A)
            → Triple
                (settled
                  (owned (put_var v none vars) ++ base)
                  (λ a. own a ++ (owned (put_var v none vars) ++ base))
                  s)
                errs
                (λ w. owned w ++ base)
                (pure (put_var v (opened_as s) vars))
        stored (gave_error e) = Triple-pure
        stored (gave a) = renamed-Triple _ (put_var v (some a) vars) base λ r. omega (
          arith,
          count-append r (own a) (owned (put_var v none vars) ++ base),
          count-append r (owned (put_var v none vars)) base,
          count-put_none r v vars,
          count-put_var r v (some a) vars h,
        )

    move_var-Triple :
        (to from : ℕ) (vars : List (Option A)) (base errs : List Resource)
        → (to == from) ≡ false
        → to < length vars
        → Triple (owned vars ++ base) errs (λ w. owned w ++ base) (move_var close to from vars)
    unfolding move_var
    move_var-Triple to from vars base errs apart h =
        Triple-bind (close_at-Triple to vars base errs) λ _.
          renamed-Triple _ (put_var from none (put_var to (var_at vars from) vars)) base λ r.
            omega (
              arith,
              count-append r (owned (put_var to none vars)) base,
              count-put_none r to vars,
              count-put_var r to (var_at vars from) vars h,
              count-put_none r from (put_var to (var_at vars from) vars),
              ap (λ x. count r (owns x)) (var_at-put_other to from (var_at vars from) vars apart),
            )

    exec-Triple :
        (op : Op) (vars : List (Option A)) (base errs : List Resource)
        → Triple (owned vars ++ base) errs (λ w. owned w ++ base) (exec make close op vars)
    unfolding exec
    exec-Triple declares vars base errs =
        renamed-Triple _ (vars ++ none ∷ []) base
          λ r. omega (arith, count-append r (owned vars) base, count-snoc r none vars)
    exec-Triple (opens v k) vars base errs = elim (Bool-cases (is_var vars v)) [
      | inl e ↦ rw e (open_var-Triple v k vars base errs (ltb→lt v (length vars) e))
      | inr e ↦ rw e Triple-pure
    ]
    exec-Triple (closes v) vars base errs =
        Triple-bind (close_at-Triple v vars base errs) λ _. Triple-pure
    exec-Triple (moves to from) vars base errs =
        elim (Bool-cases ((to == from) || not (is_var vars to && is_var vars from))) [
          | inl e ↦ rw e Triple-pure
          | inr e ↦
              rw e (move_var-Triple to from vars base errs (ground (arith, e)) (ground (arith, e)))
        ]
    exec-Triple (constructs from) vars base errs =
        renamed-Triple _ (put_var from none vars ++ var_at vars from ∷ []) base λ r. omega (
          arith,
          count-append r (owned vars) base,
          count-snoc r (var_at vars from) (put_var from none vars),
          count-put_none r from vars,
        )

    destroy_all-Triple :
        (vars : List (Option A)) (base errs : List Resource)
        → Triple (owned vars ++ base) errs (λ _. base) (destroy_all close vars)
    unfolding destroy_all
    destroy_all-Triple [] base errs = Triple-pure
    destroy_all-Triple (x ∷ xs) base errs =
        Triple-bind
          (close_var-Triple {rest = owned xs ++ base} x
            (record { counts = λ r. ap (count r) (append_assoc (owns x) (owned xs) base) }))
          λ _. destroy_all-Triple xs base errs

    -- Whatever the system answers, and whatever a program does with its variables, opens that fail, moves to
    -- the same variable and moves from empty ones included: at its end everything that its variables have
    -- owned has been given back exactly once, and what was held before is held.
    pub run_ops-Triple :
        (ops : List Op) (vars : List (Option A)) (base errs : List Resource)
        → Triple (owned vars ++ base) errs (λ _. base) (run_ops make close ops vars)
    unfolding run_ops
    run_ops-Triple [] vars base errs = destroy_all-Triple vars base errs
    run_ops-Triple (op ∷ ops) vars base errs =
        Triple-bind (exec-Triple op vars base errs) λ w. run_ops-Triple ops w base errs

file-IsHandle :
    (platform : Platform) (mode : ℕ → ℕ)
    → IsHandle file_holdings (λ k. file_open platform true (mode k)) file_close
file-IsHandle platform mode = record {
  makes = λ k. file_open-Balanced platform true (mode k);
  frees = file_close-Frees;
}

mapped_file-IsHandle :
    (platform : Platform) (protection : ℕ → ℕ)
    → IsHandle Memory.holdings
        (λ k. mapped_file_open platform true (protection k))
        mapped_file_destroy
mapped_file-IsHandle platform protection = record {
  makes = λ k. (mapped_file-Balanced platform true 0 (protection k)).1;
  frees = (mapped_file-Balanced platform true 0 0).2;
}

process-IsHandle :
    (platform : Platform) (options : ℕ → Option Options)
    → IsHandle process_holdings (λ k. process_start platform true (options k)) process_destroy
process-IsHandle platform options = record {
  makes = λ k. process_start-Balanced platform true (options k);
  frees = process_destroy-Frees;
}

-- In either build, whatever the system answers, for every program that declares, opens, closes, moves and
-- move-constructs variables of one of the classes `file`, `mapped_file` and `process`, opens that fail
-- and moves to the same variable included: when its variables have been destroyed, everything that they
-- have owned has been given back exactly once, and what was held before is still held.
pub wrappers-Freed :
    (platform : Platform) (mode protection : ℕ → ℕ) (options : ℕ → Option Options) (ops : List Op)
    (base errs : List Resource)
    → Triple base errs (λ _. base) (run_files platform mode ops)
      × (Triple base errs (λ _. base) (run_mapped_files platform protection ops)
          × Triple base errs (λ _. base) (run_processes platform options ops))
unfolding run_files run_mapped_files run_processes
wrappers-Freed platform mode protection options ops base errs = (
  run_ops-Triple file_holdings _ _ (file-IsHandle platform mode) ops [] base errs,
  (
    run_ops-Triple Memory.holdings _ _ (mapped_file-IsHandle platform protection) ops [] base errs,
    run_ops-Triple process_holdings _ _ (process-IsHandle platform options) ops [] base errs,
  ),
)

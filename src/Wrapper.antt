-- ===== src/Wrapper.antt =====
-- The classes of include/xlib/xlib.hpp that own what the library gives them: `file`,
-- `mapped_file` and `process`, whose members for owning are alike.
pub mod Balance
mod Tests
use xlib.Common.{
  ℕ, zero, suc, Bool, true, false, not, ◌&&◌, ◌||◌, Option, none, some, List, [], ◌∷◌, ◌++◌, ltb,
  ◌==◌, if◌then◌else◌, length,
}
use xlib.FilePath.{Platform}
use xlib.Ledger.{M, Status, gave, gave_error, tried, ◌>>=◌, ◌>>◌, pure}
use xlib.Files.{File, file_open, file_close}
use xlib.Memory.{MappedFile, mapped_file_open, mapped_file_destroy}
use xlib.Process.{Process, Options, process_destroy}
use xlib.Process.Start.{process_start}

-- What a program does with its variables, which are numbered; `k` stands for the arguments of an open.
pub data Op : Type 0 where
  -- `T v;`
  declares : Op
  -- `v.open(...)`, whose exception is caught.
  opens : (v k : ℕ) → Op
  -- `v.close()`
  closes : (v : ℕ) → Op
  -- `to = std::move(from);`
  moves : (to from : ℕ) → Op
  -- `T w(std::move(from));`
  constructs : (from : ℕ) → Op

module _ {A : Type 0} where
  -- The pointer that a variable owns, or NULL.
  abbrev pub var_at : List (Option A) → ℕ → Option A
  var_at [] i = none
  var_at (x ∷ xs) zero = x
  var_at (x ∷ xs) (suc i) = var_at xs i

  abbrev pub put_var : ℕ → Option A → List (Option A) → List (Option A)
  put_var i x [] = []
  put_var zero x (y ∷ ys) = x ∷ ys
  put_var (suc i) x (y ∷ ys) = y ∷ put_var i x ys

  -- `close`, but for `file_ = nullptr;`
  close_var : (A → M (Unit {0})) → Option A → M (Unit {0})
  close_var close none = pure tt
  close_var close (some a) = close a

  abbrev opened_as : Status A → Option A
  opened_as (gave a) = some a
  opened_as (gave_error e) = none

  -- `open`
  open_var : (ℕ → M A) → (A → M (Unit {0})) → ℕ → ℕ → List (Option A) → M (List (Option A))
  open_var make close v k vars = do
    close_var close (var_at vars v)
    opened ← tried (make k)
    pure (put_var v (opened_as opened) vars)

  -- The move assignment, and its test for the same object.
  move_var : (A → M (Unit {0})) → ℕ → ℕ → List (Option A) → M (List (Option A))
  move_var close to from vars = do
    close_var close (var_at vars to)
    pure (put_var from none (put_var to (var_at vars from) vars))

  abbrev pub is_var : List (Option A) → ℕ → Bool
  is_var vars v = ltb v (length vars)

  -- An operation on variables that are not there is none.
  exec : (ℕ → M A) → (A → M (Unit {0})) → Op → List (Option A) → M (List (Option A))
  exec make close declares vars = pure (vars ++ none ∷ [])
  exec make close (opens v k) vars =
      if is_var vars v then open_var make close v k vars else pure vars
  exec make close (closes v) vars = do close_var close (var_at vars v); pure (put_var v none vars)
  exec make close (moves to from) vars =
      if (to == from) || not (is_var vars to && is_var vars from)
      then pure vars
      else move_var close to from vars
  exec make close (constructs from) vars = pure (put_var from none vars ++ var_at vars from ∷ [])

  -- The destructors, at the end of the program.
  destroy_all : (A → M (Unit {0})) → List (Option A) → M (Unit {0})
  destroy_all close [] = pure tt
  destroy_all close (x ∷ xs) = close_var close x >> destroy_all close xs

  pub run_ops : (ℕ → M A) → (A → M (Unit {0})) → List Op → List (Option A) → M (Unit {0})
  run_ops make close [] vars = destroy_all close vars
  run_ops make close (op ∷ ops) vars = do
    after ← exec make close op vars
    run_ops make close ops after

-- Programs on files; `mode` gives the modes of the opens.
pub run_files : Platform → (ℕ → ℕ) → List Op → M (Unit {0})
run_files platform mode ops = run_ops (λ k. file_open platform true (mode k)) file_close ops []

pub run_mapped_files : Platform → (ℕ → ℕ) → List Op → M (Unit {0})
run_mapped_files platform protection ops =
    run_ops (λ k. mapped_file_open platform true (protection k)) mapped_file_destroy ops []

pub run_processes : Platform → (ℕ → Option Options) → List Op → M (Unit {0})
run_processes platform options ops =
    run_ops (λ k. process_start platform true (options k)) process_destroy ops []

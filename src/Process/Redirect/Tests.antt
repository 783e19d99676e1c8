-- ===== src/Process/Redirect/Tests.antt =====
-- A child that reads a file and writes to a pipe.
use xlib.Common.{
  ℕ, ◌≡◌, ◌+◌, refl, subst, true, false, Option, none, some, [], ◌∷◌, ltb, if◌then◌else◌, CString,
  arith, sym,
}
use xlib.Ledger.{Status, gave, gave_error}
use xlib.Process.Redirect.{
  Entry, Table, Open, Redirections, redirect_all, redirect_fd, redirect_pipe, opened_to, closing,
  dup2, dup_entry,
}
use xlib.Process.Redirect.Streams.{IsOpen, Reached, wanted, redirect_all-Reached}

-- The descriptors 0 to 5 are open.
abbrev table : Table
table k = if ltb k 6 then some (record { description = 100 + k; close_on_exec = true }) else none

-- What is at a path, by its first byte.
abbrev file_at : CString → ℕ
file_at [] = 0
file_at (c ∷ path) = c

abbrev open_nine : CString → Option Entry → Status (ℕ × ℕ)
open_nine path none = gave (9, file_at path)
open_nine path (some entry) = gave_error 24

-- The system gives the descriptor 9, once.
abbrev opens : Open
opens path table = open_nine path (table 9)

abbrev redirections : Redirections
redirections = record {
  stdin_path = some (47 ∷ []);
  stdout_path = none;
  stderr_path = none;
  stdin_pipe = none;
  stdout_pipe = some 5;
  stderr_pipe = none;
}

-- The descriptor of a stream, of the answer.
abbrev stands_for : ℕ → Status Table → Option Entry
stands_for k (gave table) = table k
stands_for k (gave_error e) = none

stdout_is_pipe :
    stands_for 1 (redirect_all opens redirections table)
    ≡ some (record { description = 105; close_on_exec = false })
unfolding redirect_all redirect_fd redirect_pipe opened_to closing dup2 dup_entry
stdout_is_pipe = refl

open_nine-free :
    (path : CString) (entry : Option Entry) (fd n : ℕ)
    → open_nine path entry ≡ gave (fd, n)
    → (9 ≡ fd) × (entry ≡ none) × (file_at path ≡ n)
open_nine-free path none fd n e = (grind (arith, e), refl, grind (arith, e))
open_nine-free path (some entry) fd n e = grind (arith, e)

opens-IsOpen : IsOpen file_at opens
opens-IsOpen = record {
  free = λ path table fd n e.
      subst (λ k. table k ≡ none) ((open_nine-free path (table 9) fd n e).0)
        ((open_nine-free path (table 9) fd n e).1);
  finds = λ path table fd n e. sym ((open_nine-free path (table 9) fd n e).2);
}

redirect_all-Reached_example :
    Reached opens (wanted file_at redirections table) (redirect_all opens redirections table)
redirect_all-Reached_example =
    redirect_all-Reached file_at opens redirections table opens-IsOpen (λ e. grind (arith, e))
      (λ e. grind (arith, e)) (λ e. grind (arith, e)) tt (omega arith, λ e. grind (arith, e)) tt

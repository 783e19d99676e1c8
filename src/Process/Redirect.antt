-- ===== src/Process/Redirect.antt =====
-- The descriptors of a child: `x_process_redirect_fd`, `x_process_redirect_pipe` and what the child of
-- `x_process_start` does with them before it starts its program, in the POSIX build.
pub mod Streams
mod Tests
use xlib.Common.{ℕ, Bool, true, false, Option, none, some, ◌==◌, if◌then◌else◌, CString}
use xlib.Ledger.{Status, gave, gave_error}

-- What a descriptor stands for, by a number of the system's, and whether it is closed when a program
-- is started.
pub record Entry : Type 0 where
  pub description : ℕ
  pub close_on_exec : Bool

-- The open descriptors of a process.
abbrev pub Table : Type 0
Table = ℕ → Option Entry

abbrev pub put : ℕ → Option Entry → Table → Table
put fd entry table k = if k == fd then entry else table k

abbrev pub inherited : Entry → Entry
inherited entry = record entry { close_on_exec = false }

-- EBADF
abbrev pub ebadf : ℕ
ebadf = 9

-- `dup2(fd, target)`, of the entry of `fd`: nothing happens where they are the same.
dup_entry : Option Entry → ℕ → ℕ → Table → Status Table
dup_entry none fd target table = gave_error ebadf
dup_entry (some entry) fd target table =
    if fd == target then gave table else gave (put target (some (inherited entry)) table)

dup2 : ℕ → ℕ → Table → Status Table
dup2 fd target table = dup_entry (table fd) fd target table

-- The system's `open`: the descriptor that it gives, and what it stands for.
abbrev pub Open : Type 0
Open = CString → Table → Status (ℕ × ℕ)

-- `close(fd)`, whether `dup2` has succeeded or not.
closing : ℕ → Status Table → Status Table
closing fd (gave table) = gave (put fd none table)
closing fd (gave_error e) = gave_error e

opened_to : ℕ → Table → Status (ℕ × ℕ) → Status Table
opened_to target table (gave_error e) = gave_error e
opened_to target table (gave (fd, description)) = closing fd (
    dup2 fd target
      (put fd (some (record { description = description; close_on_exec = true })) table))

-- `x_process_redirect_fd`
pub redirect_fd : Open → Option CString → ℕ → Table → Status Table
redirect_fd opens none target table = gave table
redirect_fd opens (some path) target table = opened_to target table (opens path table)

-- `x_process_redirect_pipe`, of the descriptor of the pipe.
pub redirect_pipe : Option ℕ → ℕ → Table → Status Table
redirect_pipe none target table = gave table
redirect_pipe (some fd) target table = dup2 fd target table

abbrev pub and_then_fd : Status Table → (Table → Status Table) → Status Table
and_then_fd (gave table) f = f table
and_then_fd (gave_error e) f = gave_error e

-- The paths and the descriptors of the pipes of the options.
pub record Redirections : Type 0 where
  pub stdin_path : Option CString
  pub stdout_path : Option CString
  pub stderr_path : Option CString
  pub stdin_pipe : Option ℕ
  pub stdout_pipe : Option ℕ
  pub stderr_pipe : Option ℕ

-- The six redirections of the child; it exits with 127 where one of them fails.
pub redirect_all : Open → Redirections → Table → Status Table
redirect_all opens r table =
    let a = redirect_fd opens r.stdin_path 0 table in
    let b = and_then_fd a (redirect_fd opens r.stdout_path 1) in
    let c = and_then_fd b (redirect_fd opens r.stderr_path 2) in
    let d = and_then_fd c (redirect_pipe r.stdin_pipe 0) in
    let e = and_then_fd d (redirect_pipe r.stdout_pipe 1) in
    and_then_fd e (redirect_pipe r.stderr_pipe 2)

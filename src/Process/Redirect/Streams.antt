-- ===== src/Process/Redirect/Streams.antt =====
-- The child's streams are what the options ask for.
use xlib.Common.{
  ℕ, ◌≤◌, ◌<◌, ◌≡◌, ◌≢◌, refl, false, Option, none, some, ◌==◌, ==_refl, if◌then◌else◌, CString,
  arith, ◌∙◌, subst, sym,
}
use xlib.Ledger.{Status, gave, gave_error}
use xlib.Process.Redirect.{
  Entry, Table, put, inherited, dup_entry, dup2, Open, closing, opened_to, redirect_fd,
  redirect_pipe, and_then_fd, Redirections, redirect_all,
}

-- `open` gives a descriptor that is free, for what is at the path.
pub record IsOpen (file_at : CString → ℕ) (opens : Open) : Type 0 where
  pub free :
      (path : CString) (table : Table) (fd n : ℕ)
      → opens path table ≡ gave (fd, n)
      → table fd ≡ none
  pub finds :
      (path : CString) (table : Table) (fd n : ℕ)
      → opens path table ≡ gave (fd, n)
      → n ≡ file_at path

-- The table is as expected, or the system has failed to open a path.
abbrev pub Reached : Open → Table → Status Table → Type 0
Reached opens expected (gave table) = (k : ℕ) → table k ≡ expected k
Reached opens expected (gave_error e) =
    (path : CString) × (table : Table) × (opens path table ≡ gave_error e)

-- A pipe whose descriptor is open and is none of the streams.
abbrev pub Ready : Table → Option ℕ → Type 0
Ready table none = Unit
Ready table (some fd) = (2 < fd) × (table fd ≢ none)

-- A table by what its first three descriptors stand for.
abbrev pub Streams : Option Entry → Option Entry → Option Entry → Table → Table
Streams a b c table k = if k == 0 then a else if k == 1 then b else if k == 2 then c else table k

abbrev pub inherit : Option Entry → Option Entry
inherit none = none
inherit (some entry) = some (inherited entry)

-- What a stream is to stand for, by its path, by its pipe, and before.
abbrev pub by_path : (CString → ℕ) → Option CString → Option Entry → Option Entry
by_path file_at none before = before
by_path file_at (some path) before =
    some (record { description = file_at path; close_on_exec = false })

abbrev pub by_pipe : Option ℕ → Table → Option Entry → Option Entry
by_pipe none table before = before
by_pipe (some fd) table before = inherit (table fd)

Reached-map :
    (opens : Open) (expected after : Table) (before : Status Table)
    → ((k : ℕ) → expected k ≡ after k)
    → Reached opens expected before
    → Reached opens after before
Reached-map opens expected after (gave table) g h = λ k. h k ∙ g k
Reached-map opens expected after (gave_error e) g h = h

opened_to-Reached :
    (opens : Open) (target : ℕ) (expected table : Table) (fd n : ℕ)
    → ((k : ℕ) → table k ≡ expected k)
    → table fd ≡ none
    → expected target ≢ none
    → Reached opens
        (put target (some (record { description = n; close_on_exec = false })) expected)
        (opened_to target table (gave (fd, n)))
unfolding opened_to dup2 dup_entry closing
opened_to-Reached opens target expected table fd n h f t =
    rw (==_refl fd, apart) λ k. ground (arith, h k, h fd)
  where
    other : fd ≢ target
    other e = t (sym (h target) ∙ subst (λ k. table k ≡ none) e f)

    apart : (fd == target) ≡ false
    apart = ground (arith, other)

redirect_fd-Reached :
    (file_at : CString → ℕ) (opens : Open) (path : Option CString) (target : ℕ)
    (expected after : Table) (before : Status Table)
    → IsOpen file_at opens
    → expected target ≢ none
    → ((k : ℕ) → put target (by_path file_at path (expected target)) expected k ≡ after k)
    → Reached opens expected before
    → Reached opens after (and_then_fd before (redirect_fd opens path target))
unfolding redirect_fd opened_to
redirect_fd-Reached file_at opens path target expected after (gave_error e) o t g h = h
redirect_fd-Reached file_at opens none target expected after (gave table) o t g h =
    λ k. h k ∙ unchanged k ∙ g k
  where
    unchanged : (k : ℕ) → expected k ≡ put target (expected target) expected k
    unchanged k = ground arith
redirect_fd-Reached file_at opens (some path) target expected after (gave table) o t g h =
    answered (opens path table) refl
  where
    answered :
        (answer : Status (ℕ × ℕ))
        → opens path table ≡ answer
        → Reached opens after (opened_to target table answer)
    answered (gave_error e) q = (path, table, q)
    answered (gave (fd, n)) q =
        Reached-map opens _ after (opened_to target table (gave (fd, n)))
          (λ k.
            subst
              (λ m.
                put target (some (record { description = m; close_on_exec = false })) expected k
                ≡ after k)
              (sym (o.finds path table fd n q)) (g k))
          (opened_to-Reached opens target expected table fd n h (o.free path table fd n q) t)

redirect_pipe-Reached :
    (opens : Open) (table : Table) (pipe : Option ℕ) (target : ℕ) (expected after : Table)
    (before : Status Table)
    → Ready table pipe
    → ((k : ℕ) → 2 < k → expected k ≡ table k)
    → target ≤ 2
    → ((k : ℕ) → put target (by_pipe pipe table (expected target)) expected k ≡ after k)
    → Reached opens expected before
    → Reached opens after (and_then_fd before (redirect_pipe pipe target))
unfolding redirect_pipe dup2 dup_entry
redirect_pipe-Reached opens table pipe target expected after (gave_error e) x f t g h = h
redirect_pipe-Reached opens table none target expected after (gave now) x f t g h =
    λ k. h k ∙ unchanged k ∙ g k
  where
    unchanged : (k : ℕ) → expected k ≡ put target (expected target) expected k
    unchanged k = ground arith
redirect_pipe-Reached opens table (some fd) target expected after (gave now) x f t g h =
    found (table fd) refl
  where
    apart : (fd == target) ≡ false
    apart = ground (arith, x.0, t)

    replaced :
        (entry : Entry)
        → table fd ≡ some entry
        → (k : ℕ)
        → put target (some (inherited entry)) expected k
          ≡ put target (inherit (table fd)) expected k
    replaced entry q k = rw q refl

    set :
        (now : Table) (target : ℕ) (entry : Entry) (k : ℕ)
        → now k ≡ expected k
        → put target (some (inherited entry)) now k ≡ put target (some (inherited entry)) expected k
    set now target entry k e = ground (arith, e)

    found :
        (entry : Option Entry)
        → table fd ≡ entry
        → Reached opens after (dup_entry (now fd) fd target now)
    found none q = absurd (x.1 q)
    found (some entry) q =
        rw (h fd ∙ f fd x.0 ∙ q, apart) λ k. set now target entry k (h k) ∙ replaced entry q k ∙ g k

-- What the child's three streams are to stand for; the other descriptors stay.
abbrev pub wanted : (CString → ℕ) → Redirections → Table → Table
wanted file_at r table =
    Streams (by_pipe r.stdin_pipe table (by_path file_at r.stdin_path (table 0)))
      (by_pipe r.stdout_pipe table (by_path file_at r.stdout_path (table 1)))
      (by_pipe r.stderr_pipe table (by_path file_at r.stderr_path (table 2))) table

put-0 :
    (x a b c : Option Entry) (table : Table) (k : ℕ)
    → put 0 x (Streams a b c table) k ≡ Streams x b c table k
put-0 x a b c table k = ground arith

put-1 :
    (x a b c : Option Entry) (table : Table) (k : ℕ)
    → put 1 x (Streams a b c table) k ≡ Streams a x c table k
put-1 x a b c table k = ground arith

put-2 :
    (x a b c : Option Entry) (table : Table) (k : ℕ)
    → put 2 x (Streams a b c table) k ≡ Streams a b x table k
put-2 x a b c table k = ground arith

Streams-above :
    (a b c : Option Entry) (table : Table) (k : ℕ) → 2 < k → Streams a b c table k ≡ table k
Streams-above a b c table k h = ground (arith, h)

Streams-same : (table : Table) (k : ℕ) → table k ≡ Streams (table 0) (table 1) (table 2) table k
Streams-same table k = ground arith

-- For an `open` of the system that gives free descriptors, a child whose three streams are open, and
-- pipes whose descriptors are open and are not those of the streams: the redirections of
-- `x_process_start` fail only where the system fails to open a path; else each stream stands for its
-- pipe, or else for the file at its path, or else for what it stood for, kept when a program is
-- started if it was redirected, and all other descriptors are as they were.
pub redirect_all-Reached :
    (file_at : CString → ℕ) (opens : Open) (r : Redirections) (table : Table)
    → IsOpen file_at opens
    → table 0 ≢ none
    → table 1 ≢ none
    → table 2 ≢ none
    → Ready table r.stdin_pipe
    → Ready table r.stdout_pipe
    → Ready table r.stderr_pipe
    → Reached opens (wanted file_at r table) (redirect_all opens r table)
unfolding redirect_all
redirect_all-Reached file_at opens r table o n0 n1 n2 x0 x1 x2 =
    redirect_pipe-Reached opens table r.stderr_pipe 2 (Streams q0 q1 p2 table)
      (Streams q0 q1 q2 table) _ x2 (Streams-above q0 q1 p2 table) (omega arith)
      (put-2 q2 q0 q1 p2 table)
      (redirect_pipe-Reached opens table r.stdout_pipe 1 (Streams q0 p1 p2 table)
        (Streams q0 q1 p2 table) _ x1 (Streams-above q0 p1 p2 table) (omega arith)
        (put-1 q1 q0 p1 p2 table)
        (redirect_pipe-Reached opens table r.stdin_pipe 0 (Streams p0 p1 p2 table)
          (Streams q0 p1 p2 table) _ x0 (Streams-above p0 p1 p2 table) (omega arith)
          (put-0 q0 p0 p1 p2 table)
          (redirect_fd-Reached file_at opens r.stderr_path 2 (Streams p0 p1 t2 table)
            (Streams p0 p1 p2 table) _ o n2 (put-2 p2 p0 p1 t2 table)
            (redirect_fd-Reached file_at opens r.stdout_path 1 (Streams p0 t1 t2 table)
              (Streams p0 p1 t2 table) _ o n1 (put-1 p1 p0 t1 t2 table)
              (redirect_fd-Reached file_at opens r.stdin_path 0 (Streams t0 t1 t2 table)
                (Streams p0 t1 t2 table) (gave table) o n0 (put-0 p0 t0 t1 t2 table)
                (Streams-same table))))))
  where
    t0 : Option Entry
    t0 = table 0

    t1 : Option Entry
    t1 = table 1

    t2 : Option Entry
    t2 = table 2

    p0 : Option Entry
    p0 = by_path file_at r.stdin_path t0

    p1 : Option Entry
    p1 = by_path file_at r.stdout_path t1

    p2 : Option Entry
    p2 = by_path file_at r.stderr_path t2

    q0 : Option Entry
    q0 = by_pipe r.stdin_pipe table p0

    q1 : Option Entry
    q1 = by_pipe r.stdout_pipe table p1

    q2 : Option Entry
    q2 = by_pipe r.stderr_pipe table p2

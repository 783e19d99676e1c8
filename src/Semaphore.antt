-- ===== src/Semaphore.antt =====
-- Any number of threads that wait on and post one `x_semaphore` of src/x_thread.c, an access to its
-- fields at a time: `x_semaphore_wait` and `x_semaphore_post` in both builds. The mutex and the
-- condition are the system's; what POSIX documents of them is written into the moves.
pub mod Counter
pub mod Invariant
mod Tests
use xlib.Common.{
  ℕ, zero, suc, ◌+◌, ◌%◌, ◌^◌, ◌≡◌, ◌≢◌, Bool, true, false, List, [], ◌∷◌, ◌++◌, uint_max,
  eoverflow,
}

-- The semaphore, and what has been done to it so far: how often it was posted and taken, and how
-- often the signal of a post failed.
pub record Shared : Type 0 where
  pub locked : Bool
  pub count : ℕ  -- unsigned int
  pub posted : ℕ
  pub taken : ℕ
  pub lost : ℕ

-- Where a thread stands. A thread that is `idle` is in neither function.
pub data Pc : Type 0 where
  idle : Pc
  wait_entering : Pc  -- before the lock of `x_semaphore_wait`
  testing : Pc  -- at the test of its loop, with the lock
  sleeping : Pc  -- in the wait of the condition, without the lock
  waking : Pc  -- woken up, before it has the lock again
  taking : Pc  -- behind the loop, before `--count`
  post_entering : Pc  -- before the lock of `x_semaphore_post`
  checking : Pc  -- at its test, with the lock
  adding : Pc  -- before `++count`
  signalling : Pc  -- before the signal
  leaving : ℕ → Pc  -- before the unlock, with the status that is returned

abbrev with_lock : Bool → Shared → Shared
with_lock locked m = record m { locked = locked }

-- A step of a thread inside `x_semaphore_wait`. A thread may wake up without a signal.
pub data WaitMove (m : Shared) : Pc → Shared → Pc → Type 0 where
  call_wait : WaitMove m idle m wait_entering
  refused : WaitMove m wait_entering m idle
  lock : m.locked ≡ false → WaitMove m wait_entering (with_lock true m) testing
  sleep : m.count ≡ 0 → WaitMove m testing (with_lock false m) sleeping
  not_slept : {e : ℕ} → m.count ≡ 0 → e ≢ 0 → WaitMove m testing m (leaving e)
  wake : WaitMove m sleeping m waking
  relock : m.locked ≡ false → WaitMove m waking (with_lock true m) testing
  pass : m.count ≢ 0 → WaitMove m testing m taking
  take :
      WaitMove m taking
        (record m { count = (m.count + uint_max) % 2 ^ 32; taken = m.taken + 1 })
        (leaving 0)
  unlock : {e : ℕ} → WaitMove m (leaving e) (with_lock false m) idle

-- A step of a thread inside `x_semaphore_post`, other than its signal.
pub data PostMove (m : Shared) : Pc → Shared → Pc → Type 0 where
  call_post : PostMove m idle m post_entering
  refused : PostMove m post_entering m idle
  lock : m.locked ≡ false → PostMove m post_entering (with_lock true m) checking
  full : m.count ≡ uint_max → PostMove m checking m (leaving eoverflow)
  room : m.count ≢ uint_max → PostMove m checking m adding
  add :
      PostMove m adding
        (record m { count = (m.count + 1) % 2 ^ 32; posted = m.posted + 1 })
        signalling
  not_signalled :
      {e : ℕ} → e ≢ 0 → PostMove m signalling (record m { lost = m.lost + 1 }) (leaving e)

-- The threads, and the semaphore that they share.
pub record System : Type 0 where
  pub threads : List Pc
  pub shared : Shared

-- A number for each thread, added up.
abbrev pub total : (Pc → ℕ) → List Pc → ℕ
total w [] = 0
total w (p ∷ threads) = w p + total w threads

abbrev pub asleep : Pc → ℕ
asleep sleeping = 1
asleep _ = 0

-- One step of one thread; a signal wakes up one of the threads that sleep, if there are any.
pub data Step : System → System → Type 0 where
  in_wait :
      (xs ys : List Pc) {p q : Pc} {m n : Shared}
      → WaitMove m p n q
      → Step
          (record { threads = xs ++ p ∷ ys; shared = m })
          (record { threads = xs ++ q ∷ ys; shared = n })
  in_post :
      (xs ys : List Pc) {p q : Pc} {m n : Shared}
      → PostMove m p n q
      → Step
          (record { threads = xs ++ p ∷ ys; shared = m })
          (record { threads = xs ++ q ∷ ys; shared = n })
  signal :
      (xs ys us vs : List Pc) {m : Shared}
      → xs ++ leaving 0 ∷ ys ≡ us ++ sleeping ∷ vs
      → Step
          (record { threads = xs ++ signalling ∷ ys; shared = m })
          (record { threads = us ++ waking ∷ vs; shared = m })
  signal_nobody :
      (xs ys : List Pc) {m : Shared}
      → total asleep (xs ++ ys) ≡ 0
      → Step
          (record { threads = xs ++ signalling ∷ ys; shared = m })
          (record { threads = xs ++ leaving 0 ∷ ys; shared = m })

-- `n` threads outside of a semaphore that `x_semaphore_create` has made.
abbrev pub all_idle : ℕ → List Pc
all_idle zero = []
all_idle (suc n) = idle ∷ all_idle n

abbrev pub init : ℕ → ℕ → System
init n initial_count = record {
  threads = all_idle n;
  shared = record { locked = false; count = initial_count; posted = 0; taken = 0; lost = 0 };
}

pub data Reach (n initial_count : ℕ) : System → Type 0 where
  start : Reach n initial_count (init n initial_count)
  later : {s t : System} → Reach n initial_count s → Step s t → Reach n initial_count t

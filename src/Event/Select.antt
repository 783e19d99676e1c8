-- ===== src/Event/Select.antt =====
-- `x_event_loop_wait_sockets` of src/x_event.c in the build with `select`: what is asked of `select`, and
-- what each source is told of its answer.
pub mod Asked
pub mod Right
mod Tests
use xlib.Common.{
  ℕ, ◌+◌, ◌<◌, ◌*◌, ◌/◌, ◌%◌, ◌≤◌, ◌≡◌, refl, sym, ap, subst, ◌∙◌, Bool, true, false, not, ◌&&◌,
  ◌||◌, Option, none, some, List, [], ◌∷◌, ltb, leb, length, ==_iff, ◌==◌, if◌then◌else◌, eintr,
  eio, arith, Bool-cases, inl, inr,
}
use Prim.Native.Nat.{bit_and, bit_or}
use xlib.FilePath.{Platform, posix, windows}
use xlib.Ledger.{Status, gave, gave_error}
use xlib.Event.{Source, event_read, event_write}
use xlib.Event.Valid.{is_watched}

-- `FD_ISSET`, of a set as the list of its members.
abbrev pub is_set : ℕ → List ℕ → Bool
is_set h [] = false
is_set h (x ∷ xs) = (x == h) || is_set h xs

abbrev pub asks : ℕ → Source → Bool
asks flag source = not (bit_and source.events flag == 0)

-- `FD_SET`: on Windows a set holds each of at most 64 sockets once, and another one is dropped; on POSIX it
-- holds the descriptors below 1024.
abbrev fd_set : Platform → ℕ → List ℕ → List ℕ
fd_set posix h set = h ∷ set
fd_set windows h set = if is_set h set || leb 64 (length set) then set else h ∷ set

-- `FD_SET` writes outside the set.
abbrev outside_set : Platform → ℕ → Bool
outside_set posix h = leb 1024 h
outside_set windows h = false

-- The sets, `max_fd` and `has_socket`, and whether a write was outside the sets.
pub record Sets : Type 0 where
  pub read_set : List ℕ
  pub write_set : List ℕ
  pub max_fd : ℕ
  pub has_socket : Bool
  pub outside : Bool

abbrev empty_sets : Sets
empty_sets = record {
  read_set = [];
  write_set = [];
  max_fd = 0;
  has_socket = false;
  outside = false;
}

abbrev larger_fd : Platform → ℕ → ℕ → ℕ
larger_fd posix handle max_fd = if ltb max_fd handle then handle else max_fd
larger_fd windows handle max_fd = max_fd

-- The first loop, for one source.
watch : Platform → Source → Sets → Sets
watch platform source sets =
    if is_watched source
    then record {
      read_set =
          if asks event_read source
          then fd_set platform source.native_handle sets.read_set
          else sets.read_set;
      write_set =
          if asks event_write source
          then fd_set platform source.native_handle sets.write_set
          else sets.write_set;
      max_fd = larger_fd platform source.native_handle sets.max_fd;
      has_socket = true;
      outside =
          sets.outside
          || ((asks event_read source || asks event_write source)
              && outside_set platform source.native_handle);
    }
    else sets

pub watch_all : Platform → List Source → Sets → Sets
watch_all platform [] sets = sets
watch_all platform (x ∷ xs) sets = watch_all platform xs (watch platform x sets)

pub select_sets : Platform → List Source → Sets
select_sets platform sources = watch_all platform sources empty_sets

-- `struct timeval`
pub record Timeout : Type 0 where
  pub tv_sec : ℕ
  pub tv_usec : ℕ

abbrev timeout_of_ms : Option ℕ → Option Timeout
timeout_of_ms none = none
timeout_of_ms (some ms) = some (record { tv_sec = ms / 1000; tv_usec = (ms % 1000) * 1000 })

-- What the function does behind the first loop: it returns 0, sleeps, or calls `select`. The
-- timeout is none where `timeout_ms` is negative.
pub data SelectWait : Type 0 where
  returns : SelectWait
  sleeps : (milliseconds : ℕ) → SelectWait
  selects : (nfds : ℕ) (sets : Sets) (timeout : Option Timeout) → SelectWait

abbrev without_sockets : Option ℕ → SelectWait
without_sockets none = returns
without_sockets (some ms) = sleeps ms

pub waiting_of : Platform → List Source → Option ℕ → SelectWait
waiting_of platform sources timeout =
    let sets = select_sets platform sources in
    if sets.has_socket
    then selects (sets.max_fd + 1) sets (timeout_of_ms timeout)
    else without_sockets timeout

-- The status of a failed `select`.
pub select_error : Platform → ℕ → ℕ
select_error posix e = if e == eintr then 0 else e
select_error windows e = eio

-- The flags of a source in the second loop, of the sets that `select` has left.
pub select_flags : Sets → Source → ℕ
select_flags ready source =
    let readable =
      if asks event_read source && is_set source.native_handle ready.read_set
      then event_read
      else 0 in
    let flags =
      if asks event_write source && is_set source.native_handle ready.write_set
      then bit_or readable event_write
      else readable in
    if is_watched source then flags else 0

abbrev pub any : (Source → Bool) → List Source → Bool
any test [] = false
any test (x ∷ xs) = test x || any test xs

-- An active socket that asks for a flag on a descriptor.
abbrev pub asks_on : ℕ → ℕ → Source → Bool
asks_on flag h x = is_watched x && (asks flag x && (x.native_handle == h))

-- How many active sockets there are.
abbrev pub watched : List Source → ℕ
watched [] = 0
watched (x ∷ xs) = if is_watched x then watched xs + 1 else watched xs

-- The sets have room for all: on POSIX every descriptor is below FD_SETSIZE, and on Windows there are at
-- most as many sockets.
abbrev pub Fits : Platform → List Source → Type 0
Fits posix xs = any (λ x. is_watched x && leb 1024 x.native_handle) xs ≡ false
Fits windows xs = watched xs ≤ 64

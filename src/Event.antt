-- ===== src/Event.antt =====
-- The event loop of src/x_event.c in its Linux build: the sources, the calls that add and remove
-- them, and the calls of the system that they make.
pub mod Valid
pub mod Remove
pub mod Follows
pub mod Reserve
pub mod Add
pub mod Dispatch
pub mod Create
pub mod Destroy
pub mod Cancel
pub mod Select
use xlib.Common.{
  ℕ, zero, suc, ◌+◌, ◌-◌, ◌*◌, ◌/◌, ◌%◌, ◌^◌, ◌≤◌, ◌<◌, ◌≡◌, Bool, true, false, not, ◌&&◌, ◌||◌,
  Option, none, some, List, [], ◌∷◌, ◌++◌, map, ltb, leb, ◌==◌, if◌then◌else◌, length, einval,
  enomem, add_word, mul_word, uint64_max, word,
}
use Prim.Native.Nat.{bit_and, bit_or}

-- `enum x_event_source_type`.
pub data Kind : Type 0 where
  socket timer process file : Kind

-- `struct x_event_source`. `address` is the pointer; `callback` stands for the function and its
-- `user_data`, and `object` for the pointer to the socket, the process or the watcher.
pub record Source : Type 0 where
  pub address : ℕ
  pub kind : Kind
  pub active : Bool
  pub internal : Bool
  pub events : ℕ
  pub native_handle : ℕ
  pub object : ℕ
  pub due_ns : ℕ
  pub interval_ns : ℕ
  pub callback : ℕ

-- An entry of the epoll instance: a descriptor, and the pointer that it reports.
pub record Registration : Type 0 where
  pub handle : ℕ
  pub owner : ℕ

-- What `epoll_wait` reports of an entry: its pointer, and whether it can be read (EPOLLIN, EPOLLHUP
-- or EPOLLERR) and written (EPOLLOUT).
pub record Ready : Type 0 where
  pub owner : ℕ
  pub readable : Bool
  pub writable : Bool

-- `struct x_event_loop`, with the entries of its epoll instance. `count` is the length of `sources`.
pub record Loop : Type 0 where
  pub sources : List Source
  pub capacity : ℕ
  pub running : Bool
  pub stop_requested : Bool
  pub registered : List Registration

abbrev pub addresses : List Source → List ℕ
addresses = map λ s. s.address

-- What a callback may do to the loop that calls it.
pub data Action : Type 0 where
  adds_socket : (handle events callback object : ℕ) → Action
  adds_timer : (delay_ms interval_ms callback : ℕ) → Action
  adds_process : (object interval_ms callback : ℕ) → Action
  adds_file_watcher : (object interval_ms callback : ℕ) → Action
  removes : (address : ℕ) → Action
  stops : Action

-- The system, the objects that are polled and the callbacks. The first argument counts the calls
-- made so far, so that each call may have an answer of its own.
pub record Env : Type 0 where
  -- `calloc` of a source, beside the sources that are live: an address, or NULL.
  pub calloc : ℕ → List ℕ → Option ℕ
  -- `realloc` of the array to so many bytes.
  pub realloc_succeeds : ℕ → ℕ → Bool
  -- `x_time_monotonic_ns`: a status, and the time.
  pub clock : ℕ → ℕ × ℕ
  -- `epoll_ctl` with EPOLL_CTL_ADD: 0, or `errno`.
  pub epoll_add : ℕ → List Registration → ℕ → ℕ
  -- `x_process_poll`: a status, and whether the process has completed.
  pub process_poll : ℕ → ℕ → ℕ × Bool
  -- `x_file_watcher_poll`: a status, and the events that it reports.
  pub watcher_poll : ℕ → ℕ → ℕ × ℕ
  -- `epoll_wait`: a status, and the entries that are ready.
  pub epoll_wait : ℕ → List Registration → Option ℕ → ℕ × List Ready
  -- A callback sees the loop, its source and the events; it acts on the loop and returns a status.
  pub run_callback : ℕ → Loop → Source → ℕ → List Action × ℕ

pub record State : Type 0 where
  pub loop : Loop
  pub calls : ℕ

-- A function that returns `int`: 0 with a value, another status, no return at all, or a
-- read of a source that has been freed.
pub data Result {ℓ} (A : Type ℓ) : Type ℓ where
  ok : A → Result A
  err : ℕ → Result A
  endless : Result A
  fault : Result A

-- A failed call keeps what it has done to the state.
abbrev pub M : Type 0 → Type 0
M A = State → Result A × State

abbrev pub pure : {A : Type 0} → A → M A
pure a s = (ok a, s)

abbrev pub fail : {A : Type 0} → ℕ → M A
fail e s = (err e, s)

abbrev pub bind_result : {A B : Type 0} → Result A × State → (A → M B) → Result B × State
bind_result (ok a, s) f = f a s
bind_result (err e, s) f = (err e, s)
bind_result (endless, s) f = (endless, s)
bind_result (fault, s) f = (fault, s)

infixl 5 ◌>>=◌ ◌>>◌
abbrev pub ◌>>=◌ : {A B : Type 0} → M A → (A → M B) → M B
◌>>=◌ m f s = bind_result (m s) f

abbrev pub ◌>>◌ : {B : Type 0} → M (Unit {0}) → M B → M B
m >> k = m >>= λ _. k

abbrev pub guard : Bool → ℕ → M (Unit {0})
guard true e s = (ok tt, s)
guard false e s = (err e, s)

-- A call of the system or of a callback counts.
abbrev pub counted : State → State
counted s = record s { calls = s.calls + 1 }

abbrev pub with_loop : State → Loop → State
with_loop s l = record s { loop = l }

-- `x_event_ms_to_ns`.
pub ms_to_ns : ℕ → ℕ
ms_to_ns milliseconds =
    if ltb (uint64_max / 1_000_000) milliseconds
    then uint64_max
    else mul_word milliseconds 1_000_000

-- `while (capacity < needed) capacity *= 2U;` on fuel: `none` when it runs out.
pub grow : ℕ → ℕ → ℕ → Option ℕ
grow zero capacity needed = none
grow (suc fuel) capacity needed =
    let larger = grow fuel (mul_word capacity 2) needed in
    if ltb capacity needed then larger else some capacity

-- The capacity that the loop starts from.
pub first_capacity : ℕ → ℕ
first_capacity capacity = if capacity == 0 then 8 else mul_word capacity 2

-- Enough rounds for any capacity of 64 bits.
abbrev pub grow_fuel : ℕ
grow_fuel = 65

abbrev or_capacity : ℕ → Option ℕ → ℕ
or_capacity needed none = needed
or_capacity needed (some capacity) = capacity

-- `x_event_loop_reserve`.
pub reserve : Env → ℕ → M (Unit {0})
reserve env needed s =
    if leb needed s.loop.capacity
    then (ok tt, s)
    else let capacity =
        or_capacity needed (grow grow_fuel (first_capacity s.loop.capacity) needed) in
      if env.realloc_succeeds s.calls (mul_word capacity 8)
      then (ok tt, counted (with_loop s (record (s.loop) { capacity = capacity })))
      else (err enomem, counted s)

pub monotonic_ns : Env → M ℕ
monotonic_ns env s =
    let (status, now) = env.clock s.calls in
    if status == 0 then (ok now, counted s) else (err status, counted s)

-- `calloc(1, sizeof(*created))`.
pub allocate : Env → M ℕ
allocate env s = elim (env.calloc s.calls (addresses s.loop.sources)) [
  | none ↦ (err enomem, counted s)
  | some a ↦ (ok a, counted s)
]

-- `x_event_backend_add_socket`: the flags passed to `epoll_ctl` do not come back to the loop.
pub backend_add_socket : Env → Source → M (Unit {0})
backend_add_socket env source s =
    let status = env.epoll_add s.calls s.loop.registered source.native_handle in
    if status == 0
    then (
      ok tt,
      counted (
          with_loop s (record (s.loop) {
            registered =
                s.loop.registered
                ++ record { handle = source.native_handle; owner = source.address } ∷ [];
          })),
    )
    else (err status, counted s)

-- The entries but those of a descriptor.
pub without_handle : ℕ → List Registration → List Registration
without_handle h [] = []
without_handle h (r ∷ rs) =
    let rest = without_handle h rs in if r.handle == h then rest else r ∷ rest

-- `x_event_backend_remove_socket`.
pub backend_remove_socket : Source → State → State
unfolding without_handle
backend_remove_socket source s = counted (
    with_loop s
      (record (s.loop) { registered = without_handle source.native_handle s.loop.registered }))

-- `loop->sources[loop->count++] = created; *source = created;`
pub append_source : Source → M ℕ
append_source source s =
    (ok source.address, with_loop s (record (s.loop) { sources = s.loop.sources ++ source ∷ [] }))

-- A source as `calloc` leaves it, with the fields that every kind sets.
abbrev created : Kind → ℕ → ℕ → ℕ → Source
created kind address events callback = record {
  address = address;
  kind = kind;
  active = true;
  internal = false;
  events = events;
  native_handle = 0;
  object = 0;
  due_ns = 0;
  interval_ns = 0;
  callback = callback;
}

abbrev pub event_read : ℕ
event_read = 1

abbrev pub event_write : ℕ
event_write = 2

abbrev pub event_timer : ℕ
event_timer = 4

abbrev pub event_process : ℕ
event_process = 8

abbrev pub event_file : ℕ
event_file = 16

abbrev next_count : State → ℕ
next_count s = add_word (length s.loop.sources) 1

abbrev new_socket : ℕ → ℕ → ℕ → ℕ → ℕ → Source
new_socket handle object events callback address = record (created socket address events callback) {
  native_handle = handle;
  object = object;
}

-- The end of `x_event_loop_add_socket`: the entry is made first, then the source is appended.
install_socket : Env → Source → M ℕ
install_socket env source = do backend_add_socket env source; append_source source

-- `x_event_loop_add_socket` behind its tests of the arguments.
add_checked_socket : Env → ℕ → ℕ → ℕ → ℕ → M ℕ
unfolding install_socket
add_checked_socket env handle object events callback s =
    (do
      reserve env (next_count s)
      address ← allocate env
      install_socket env (new_socket handle object events callback address))
      s

abbrev is_watchable : ℕ → Bool
is_watchable events = not (bit_and events (bit_or event_read event_write) == 0)

-- `x_event_loop_add_socket`; `given` says that no pointer argument is NULL, and `handle` is
-- `x_socket_native_handle(socket)`. The value is `*source`.
pub add_socket : Env → Bool → ℕ → ℕ → ℕ → ℕ → M ℕ
add_socket env given handle object events callback = do
  guard given einval
  guard (is_watchable events) einval
  add_checked_socket env handle object events callback

-- `x_event_loop_add_timer`.
pub add_timer : Env → Bool → ℕ → ℕ → ℕ → M ℕ
unfolding ms_to_ns
add_timer env given delay_ms interval_ms callback s =
    (do
      guard given einval
      reserve env (next_count s)
      now ← monotonic_ns env
      address ← allocate env
      append_source (record (created timer address event_timer callback) {
        due_ns = add_word now (ms_to_ns delay_ms);
        interval_ns = ms_to_ns interval_ms;
      }))
      s

abbrev or_default : ℕ → ℕ → ℕ
or_default interval_ms default_ms = if interval_ms == 0 then default_ms else interval_ms

-- What `x_event_loop_add_process` and `x_event_loop_add_file_watcher` have in common.
add_polled : Env → Bool → Kind → ℕ → ℕ → ℕ → ℕ → M ℕ
unfolding ms_to_ns
add_polled env given kind object events interval_ms callback s =
    (do
      guard given einval
      reserve env (next_count s)
      now ← monotonic_ns env
      address ← allocate env
      append_source (record (created kind address events callback) {
        object = object;
        due_ns = now;
        interval_ns = ms_to_ns interval_ms;
      }))
      s

-- `x_event_loop_add_process`.
pub add_process : Env → Bool → ℕ → ℕ → ℕ → M ℕ
unfolding add_polled
add_process env given object interval_ms callback =
    add_polled env given process object event_process (or_default interval_ms 10) callback

-- `x_event_loop_add_file_watcher`.
pub add_file_watcher : Env → Bool → ℕ → ℕ → ℕ → M ℕ
unfolding add_polled
add_file_watcher env given object interval_ms callback =
    add_polled env given file object event_file (or_default interval_ms 100) callback

pub find : ℕ → List Source → Option Source
find address [] = none
find address (x ∷ xs) = if x.address == address then some x else find address xs

-- `source->active = 0;`
pub deactivate : ℕ → List Source → List Source
deactivate address [] = []
deactivate address (x ∷ xs) =
    let rest = deactivate address xs in
    if x.address == address then record x { active = false } ∷ xs else x ∷ rest

abbrev pub is_socket : Kind → Bool
is_socket socket = true
is_socket timer = false
is_socket process = false
is_socket file = false

-- `x_event_source_remove` of an active source.
remove_active : Source → State → State
unfolding backend_remove_socket deactivate
remove_active source s =
    let t = if is_socket source.kind then backend_remove_socket source s else s in
    with_loop t (record (t.loop) { sources = deactivate source.address t.loop.sources })

-- `x_event_source_remove`: the pointer is NULL, of a source that is not active, or of an active one.
-- `none` for a pointer that is in no array is a call on a freed source.
pub source_remove : Option ℕ → State → Option State
unfolding find remove_active
source_remove none s = some s
source_remove (some address) s = elim (find address s.loop.sources) [
  | none ↦ none
  | some source ↦ if source.active then some (remove_active source s) else some s
]

-- `x_event_loop_compact`: the sources that are not active are freed.
pub compact_sources : List Source → List Source
compact_sources [] = []
compact_sources (x ∷ xs) = let rest = compact_sources xs in if x.active then x ∷ rest else rest

pub compact : State → State
unfolding compact_sources
compact s = with_loop s (record (s.loop) { sources = compact_sources s.loop.sources })

-- `x_event_loop_active_user_sources`.
pub active_user_sources : List Source → ℕ
active_user_sources [] = 0
active_user_sources (x ∷ xs) =
    (if x.active && not x.internal then 1 else 0) + active_user_sources xs

-- `x_event_loop_stop`, less its wake-up message.
pub loop_stop : State → State
loop_stop s = with_loop s (record (s.loop) { stop_requested = true })

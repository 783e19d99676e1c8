-- ===== src/Event/Dispatch.antt =====
-- The part of src/x_event.c that runs: timers, ready sockets, and the loop itself.
pub mod Callbacks
pub mod Keeps
pub mod Timeout
pub mod Advance
pub mod Run
pub mod Ends
mod Tests
use xlib.Common.{
  ℕ, zero, suc, ◌+◌, ◌-◌, ◌*◌, ◌/◌, ◌%◌, ◌^◌, ◌≤◌, ◌<◌, ◌≡◌, Bool, true, false, not, ◌&&◌, ◌||◌,
  Option, none, some, List, [], ◌∷◌, ◌++◌, map, ltb, leb, ◌==◌, if◌then◌else◌, length, get_elem?,
  eintr, add_word, mul_word, uint64_max, int_max, word,
}
use Prim.Native.Nat.{bit_and, bit_or}
use xlib.Event.{
  Source, Kind, socket, timer, process, file, Loop, Registration, Ready, Action, adds_socket,
  adds_timer, adds_process, adds_file_watcher, removes, stops, Env, State, M, Result, ok, err,
  endless, fault, bind_result, ◌>>=◌, ◌>>◌, pure, counted, with_loop, add_socket, add_timer,
  add_process, add_file_watcher, source_remove, loop_stop, compact, active_user_sources,
  monotonic_ns, find, event_timer, event_process, event_file, event_read, event_write,
}

-- What one call of a callback does; the statuses of its calls are its own affair. Removing a source
-- that is in no array is undefined in the source, and leaves the state here.
perform : Env → Action → State → State
perform env (adds_socket handle events callback object) s =
    (add_socket env true handle object events callback s).1
perform env (adds_timer delay_ms interval_ms callback) s =
    (add_timer env true delay_ms interval_ms callback s).1
perform env (adds_process object interval_ms callback) s =
    (add_process env true object interval_ms callback s).1
perform env (adds_file_watcher object interval_ms callback) s =
    (add_file_watcher env true object interval_ms callback s).1
perform env (removes address) s = elim (source_remove (some address) s) [ none ↦ s | some t ↦ t ]
perform env stops s = loop_stop s

pub perform_all : Env → List Action → State → State
unfolding perform
perform_all env [] s = s
perform_all env (a ∷ actions) s = perform_all env actions (perform env a s)

abbrev of_status : ℕ → Result (Unit {0})
of_status status = if status == 0 then ok tt else err status

-- `x_event_source_dispatch`.
pub dispatch : Env → Source → ℕ → M (Unit {0})
unfolding perform_all
dispatch env source events s =
    let (actions, status) = env.run_callback s.calls s.loop source events in
    if source.active then (of_status status, perform_all env actions (counted s)) else (ok tt, s)

-- A write to a field of the source at an address.
pub set_due : ℕ → ℕ → List Source → List Source
set_due address due [] = []
set_due address due (x ∷ xs) =
    let rest = set_due address due xs in
    if x.address == address then record x { due_ns = due } ∷ xs else x ∷ rest

put_due : ℕ → ℕ → State → State
unfolding set_due
put_due address due s =
    with_loop s (record (s.loop) { sources = set_due address due s.loop.sources })

-- `source->active`, read again after a callback.
is_active : ℕ → State → Bool
is_active address s = elim (find address s.loop.sources) [ none ↦ false | some x ↦ x.active ]

remove_if_active : ℕ → State → State
remove_if_active address s = elim (source_remove (some address) s) [ none ↦ s | some t ↦ t ]

-- `do { due += interval; } while (due <= now);` on fuel: `none` when it runs out.
pub advance : ℕ → ℕ → ℕ → ℕ → Option ℕ
advance zero due interval now = none
advance (suc fuel) due interval now =
    let next = add_word due interval in
    let later = advance fuel next interval now in if leb next now then later else some next

-- The end of a round for a timer that is still active.
rearm : Source → ℕ → M (Unit {0})
unfolding advance put_due remove_if_active
rearm source now s =
    if source.interval_ns == 0
    then (ok tt, remove_if_active source.address s)
    else elim (advance (suc now) source.due_ns source.interval_ns now) [
      | none ↦ (endless, s)
      | some due ↦ (ok tt, put_due source.address due s)
    ]

run_timer : Env → Source → ℕ → M (Unit {0})
unfolding dispatch is_active rearm
run_timer env source now s =
    bind_result (dispatch env source event_timer s)
      λ _ t. if is_active source.address t then rearm source now t else (ok tt, t)

run_process : Env → Source → ℕ → M (Unit {0})
unfolding dispatch put_due remove_if_active
run_process env source now s =
    let (status, completed) = env.process_poll s.calls source.object in
    if status == 0
    then if completed
      then bind_result (dispatch env source event_process (counted s))
          (λ _ t. (ok tt, remove_if_active source.address t))
      else (ok tt, put_due source.address (add_word now source.interval_ns) (counted s))
    else (err status, counted s)

-- `x_event_file_flags`.
pub file_flags : ℕ → ℕ
file_flags watch_events =
    let created = if bit_and watch_events 1 == 0 then event_file else bit_or event_file 32 in
    let modified = if bit_and watch_events 2 == 0 then created else bit_or created 64 in
    if bit_and watch_events 4 == 0 then modified else bit_or modified 128

-- The polling of a watcher has succeeded: the callback runs if it has reported something.
abbrev reported : Env → Source → M (Unit {0})
reported env source s =
    let pending = (env.watcher_poll s.calls source.object).1 in
    if pending == 0
    then (ok tt, counted s)
    else dispatch env source (file_flags pending) (counted s)

run_file : Env → Source → ℕ → M (Unit {0})
unfolding dispatch is_active put_due file_flags
run_file env source now s =
    let status = (env.watcher_poll s.calls source.object).0 in
    if status == 0
    then bind_result (reported env source s) (λ _ t. (
      ok tt,
      if is_active source.address t
          then put_due source.address (add_word now source.interval_ns) t
          else t,
    ))
    else (err status, counted s)

run_due : Env → Source → ℕ → M (Unit {0})
unfolding run_timer run_process run_file
run_due env source now s = elim source.kind [
  | socket ↦ (ok tt, s)
  | timer ↦ run_timer env source now s
  | process ↦ run_process env source now s
  | file ↦ run_file env source now s
]

-- The kinds that have a due time.
abbrev pub is_timed : Kind → Bool
is_timed socket = false
is_timed timer = true
is_timed process = true
is_timed file = true

-- The test at the head of a round of `x_event_loop_dispatch_timers`.
pub is_due : Source → ℕ → Bool
is_due source now = source.active && is_timed source.kind && leb source.due_ns now

pub timers_step : Env → ℕ → ℕ → M (Unit {0})
unfolding is_due run_due
timers_step env i now s = elim (get_elem? s.loop.sources i) [
  | none ↦ (ok tt, s)
  | some source ↦ if is_due source now then run_due env source now s else (ok tt, s)
]

-- The rounds of `x_event_loop_dispatch_timers`, on fuel: a callback may append sources.
timers_loop : Env → ℕ → ℕ → ℕ → M (Unit {0})
unfolding timers_step
timers_loop env zero i now s = (endless, s)
timers_loop env (suc fuel) i now s = elim (ltb i (length s.loop.sources)) [
  | true ↦ bind_result (timers_step env i now s) λ _. timers_loop env fuel (i + 1) now
  | false ↦ (ok tt, s)
]

-- `x_event_loop_dispatch_timers`.
pub dispatch_timers : Env → ℕ → M (Unit {0})
unfolding timers_loop
dispatch_timers env fuel s = bind_result (monotonic_ns env s) λ now. timers_loop env fuel 0 now

-- What the loop of `x_event_loop_next_timeout_ms` finds: whether some source is timed, whether one is
-- due, and the least time left.
pub data Scan : Type 0 where
  due_now : Scan
  least : (has_timeout : Bool) (best_delta : ℕ) → Scan

pub scan : ℕ → List Source → Bool → ℕ → Scan
scan now [] has best = least has best
scan now (x ∷ xs) has best =
    let skipped = scan now xs has best in
    let left = x.due_ns - now in
    let nearer = scan now xs true (if ltb left best then left else best) in
    if x.active && is_timed x.kind then if leb x.due_ns now then due_now else nearer else skipped

-- `(best_delta + 999999ULL) / 1000000ULL`, cut off at INT_MAX.
pub round_up_ms : ℕ → ℕ
round_up_ms delta =
    let milliseconds = add_word delta 999_999 / 1_000_000 in
    if ltb int_max milliseconds then int_max else milliseconds

-- `*timeout_ms` where `*has_timeout` is set, and `none` where it is not.
pub timeout_of : Scan → Option ℕ
unfolding round_up_ms
timeout_of due_now = some 0
timeout_of (least true delta) = some (round_up_ms delta)
timeout_of (least false delta) = none

-- `x_event_loop_next_timeout_ms`.
pub next_timeout_ms : Env → M (Option ℕ)
unfolding scan timeout_of
next_timeout_ms env s =
    bind_result (monotonic_ns env s)
      λ now t. (ok (timeout_of (scan now t.loop.sources false uint64_max)), t)

-- The flags of a ready entry.
pub ready_flags : Ready → ℕ
ready_flags r =
    let readable = if r.readable then event_read else 0 in
    if r.writable then bit_or readable event_write else readable

-- The loop over the ready entries: an entry whose pointer is of no live source is a fault.
pub dispatch_ready : Env → List Ready → M (Unit {0})
unfolding ready_flags
dispatch_ready env [] s = (ok tt, s)
dispatch_ready env (r ∷ rs) s = elim (find r.owner s.loop.sources) [
  | none ↦ (fault, s)
  | some source ↦ elim (source.active && not (ready_flags r == 0)) [
    | false ↦ dispatch_ready env rs s
    | true ↦ bind_result (dispatch env source (ready_flags r) s) λ _. dispatch_ready env rs
  ]
]

-- `x_event_loop_wait_sockets`.
pub wait_sockets : Env → Option ℕ → M (Unit {0})
unfolding dispatch_ready
wait_sockets env timeout s =
    let (status, ready) = env.epoll_wait s.calls s.loop.registered timeout in
    if status == 0
    then dispatch_ready env ready (counted s)
    else if status == eintr
    then (ok tt, counted s)
    else (err status, counted s)

-- How a round of the loop goes on: `break`, or the next test.
pub data Turn : Type 0 where
  stops_here goes_on : Turn

-- The second half of a round of `x_event_loop_run`, after the array has been compacted.
wait_and_dispatch : Env → ℕ → M Turn
unfolding dispatch_timers next_timeout_ms wait_sockets
wait_and_dispatch env fuel s = bind_result (next_timeout_ms env s) λ timeout t.
    bind_result (wait_sockets env timeout t)
      λ _ u. bind_result (dispatch_timers env fuel u) λ _ v. (ok goes_on, compact v)

after_timers : Env → ℕ → M Turn
unfolding wait_and_dispatch
after_timers env fuel s =
    if s.loop.stop_requested
    then (ok stops_here, s)
    else if active_user_sources (compact s).loop.sources == 0
    then (ok stops_here, compact s)
    else wait_and_dispatch env fuel (compact s)

-- The body of the `while` of `x_event_loop_run`; `fuel` is that of the timers' loops.
loop_body : Env → ℕ → M Turn
unfolding after_timers dispatch_timers
loop_body env fuel s = bind_result (dispatch_timers env fuel s) λ _. after_timers env fuel

abbrev next_round : Turn → M (Unit {0}) → M (Unit {0})
next_round stops_here rounds s = (ok tt, s)
next_round goes_on rounds s = rounds s

-- The test of the `while`.
pub keeps_running : Loop → Bool
keeps_running l = not l.stop_requested && not (active_user_sources l.sources == 0)

loop_rounds : Env → ℕ → ℕ → M (Unit {0})
unfolding loop_body keeps_running
loop_rounds env zero fuel s = (endless, s)
loop_rounds env (suc rounds) fuel s = elim (keeps_running s.loop) [
  | false ↦ (ok tt, s)
  | true ↦ bind_result (loop_body env fuel s) λ turn. next_round turn (loop_rounds env rounds fuel)
]

-- `loop->running = 0; return error;`
finished : Result (Unit {0}) × State → Result (Unit {0}) × State
finished (r, s) = (r, with_loop s (record (s.loop) { running = false }))

-- `x_event_loop_run` of a loop that is not NULL.
pub loop_run : Env → ℕ → ℕ → M (Unit {0})
unfolding loop_rounds finished
loop_run env rounds fuel s = finished (
    loop_rounds env rounds fuel
      (with_loop s (record (s.loop) { running = true; stop_requested = false })))

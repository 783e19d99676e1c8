-- ===== src/Event/Dispatch/Tests.antt =====
-- A system, runs of the event loop on it, and instances of the theorems.
use xlib.Common.{
  ℕ, ◌+◌, ◌*◌, ◌^◌, ◌≤◌, ◌<◌, ◌≡◌, refl, Bool, true, false, some, List, [], ◌∷◌, ◌++◌, ltb, ◌==◌,
  if◌then◌else◌, All, All-map, arith, ltb→lt, uint64_max,
}
use xlib.Event.{
  Source, socket, timer, process, file, Loop, Registration, Ready, Action, adds_process, removes,
  stops, Env, State, ok, reserve, ms_to_ns, add_socket, add_timer, add_process, source_remove,
  addresses, find, grow, first_capacity, compact, compact_sources, active_user_sources, deactivate,
  without_handle, backend_remove_socket, append_source, allocate, monotonic_ns, remove_active,
}
use mathlib.Core.Option.{some-injective}
use xlib.Event.Valid.{NotIn, handles, owners, expected, IsValid, IsSystem}
use xlib.Event.Follows.{Post, Follows}
use xlib.Event.Add.{add-Follows}
use xlib.Event.Remove.{source_remove-IsValid}
use xlib.Event.Dispatch.{
  advance, scan, round_up_ms, timeout_of, loop_run, dispatch_timers, perform, perform_all, dispatch,
  set_due, put_due, is_active, remove_if_active, rearm, run_timer, run_process, run_file, run_due,
  is_due, timers_step, timers_loop, next_timeout_ms, ready_flags, dispatch_ready, wait_sockets,
  wait_and_dispatch, after_timers, loop_body, keeps_running, loop_rounds, finished,
}
use xlib.Event.Dispatch.Advance.{IsNext, advance-IsNext, advance_ends}
use xlib.Event.Dispatch.Ends.{Returns, dispatch_timers-Returns}
use xlib.Event.Create.{NewLoop, loop_create}
use xlib.Event.Destroy.{loop_holdings, loop-Balanced}
use xlib.Ledger.{Resource, memory}
use xlib.Ledger.Triple.{Triple}
use xlib.Event.Dispatch.Timeout.{IsTimeout, timeout_of-IsTimeout}
use xlib.Event.Dispatch.Run.{Rests, Ended, loop_run-Rests}

-- An address above all of the live ones.
above : List ℕ → ℕ
above [] = 1
above (a ∷ live) = a + above live

below_above : (live : List ℕ) → (1 ≤ above live) × All (λ x. x < above live) live
unfolding above
below_above [] = (omega arith, tt)
below_above (a ∷ live) = (
  omega (arith, (below_above live).0),
  (omega (arith, (below_above live).0), All-map live (λ x h. omega arith) (below_above live).1),
)

is_entry : ℕ → List Registration → Bool
is_entry handle [] = false
is_entry handle (r ∷ rs) = if r.handle == handle then true else is_entry handle rs

not_entry :
    (handle : ℕ) (rs : List Registration) → is_entry handle rs ≡ false → NotIn handle (handles rs)
unfolding is_entry
not_entry handle [] e = tt
not_entry handle (r ∷ rs) e = (ground arith, not_entry handle rs (ground arith))

first_ready : List Registration → List Ready
first_ready [] = []
first_ready (r ∷ rs) = record { owner = r.owner; readable = true; writable = false } ∷ []

first_ready_lem :
    (rs : List Registration) → All (λ r. ¬ NotIn (r.owner) (owners rs)) (first_ready rs)
unfolding first_ready
first_ready_lem [] = tt
first_ready_lem (r ∷ rs) = (λ k. k.0 refl, tt)

-- A timer's callback adds a process; the others remove their source.
abbrev acts : Source → List Action
acts x = elim x.kind [
  | socket ↦ removes x.address ∷ []
  | timer ↦ adds_process 5 0 1 ∷ []
  | process ↦ removes x.address ∷ []
  | file ↦ stops ∷ []
]

abbrev system : Env
system = record {
  calloc = λ n live. some (above live);
  realloc_succeeds = λ n bytes. ltb bytes (2 ^ 63);
  clock = λ n. (0, n * 1_000_000);
  epoll_add = λ n entries handle. if is_entry handle entries then 17 else 0;
  process_poll = λ n object. (0, true);
  watcher_poll = λ n object. (0, 1);
  epoll_wait = λ n entries timeout. (0, first_ready entries);
  run_callback = λ n l source events. (acts source, 0);
}

above-fresh : (live : List ℕ) (a : ℕ) → above live ≡ a → NotIn a live
above-fresh live a e = All-map live (λ x h. omega arith) (below_above live).1

system-IsSystem : IsSystem system
system-IsSystem = record {
  limits = λ n bytes e. ltb→lt _ _ e;
  fresh = λ n live a e. above-fresh live a (some-injective _ _ e);
  refuses = λ n entries handle e. not_entry handle entries (ground arith);
  reports = λ n entries timeout. first_ready_lem entries;
}

abbrev empty : Loop
empty = record {
  sources = [];
  capacity = 0;
  running = false;
  stop_requested = false;
  registered = [];
}

abbrev timer_at : ℕ → ℕ → Source
timer_at due interval = record {
  address = 64;
  kind = timer;
  active = true;
  internal = false;
  events = 4;
  native_handle = 0;
  object = 0;
  due_ns = due;
  interval_ns = interval;
  callback = 1;
}

abbrev connection : Source
connection = record {
  address = 80;
  kind = socket;
  active = true;
  internal = false;
  events = 1;
  native_handle = 7;
  object = 3;
  due_ns = 0;
  interval_ns = 0;
  callback = 2;
}

abbrev both : List Source
both = timer_at 3_000_000 0 ∷ connection ∷ []

-- A loop with a timer and a socket.
abbrev busy : State
busy = record {
  loop = record empty {
    sources = both;
    capacity = 8;
    registered = record { handle = 7; owner = 80 } ∷ [];
  };
  calls = 0;
}

empty-IsValid : IsValid empty
unfolding expected
empty-IsValid = record {
  fits = omega arith;
  small = omega arith;
  distinct = tt;
  registrations = refl;
  exclusive = tt;
  words = tt;
}

busy-IsValid : IsValid busy.loop
unfolding expected
busy-IsValid = record {
  fits = omega arith;
  small = omega arith;
  distinct = ((omega arith, tt), (tt, tt));
  registrations = refl;
  exclusive = (tt, tt);
  words = (omega arith, (omega arith, tt));
}

abbrev started : State
started = record { loop = empty; calls = 0 }

-- The timer runs, its process completes and the socket's callback removes it: the loop ends by itself.
loop_runs : (loop_run system 4 9 busy).0 ≡ ok tt
unfolding loop_run loop_rounds finished loop_body keeps_running after_timers wait_and_dispatch
    wait_sockets dispatch_ready ready_flags next_timeout_ms timeout_of scan round_up_ms
    dispatch_timers timers_loop timers_step is_due run_due run_timer run_process run_file rearm
    dispatch perform_all perform put_due set_due is_active remove_if_active advance
    active_user_sources compact compact_sources source_remove remove_active find deactivate
    backend_remove_socket without_handle add_process reserve grow first_capacity monotonic_ns
    allocate append_source ms_to_ns first_ready above
loop_runs = refl

huge_delay : (add_timer system true (2 ^ 60) 0 1 started).0 ≡ ok 1
unfolding add_timer reserve grow first_capacity monotonic_ns allocate append_source above
huge_delay = refl

loop_run-Rests_example : Post Rests (λ _ t. Rests t × Ended t) (loop_run system 4 9 busy)
loop_run-Rests_example = loop_run-Rests system 4 9 busy system-IsSystem busy-IsValid

-- The same loop without the socket's entry.
abbrev removed : State
removed = record {
  loop = record empty {
    sources = timer_at 3_000_000 0 ∷ record connection { active = false } ∷ [];
    capacity = 8;
  };
  calls = 1;
}

remove_runs : source_remove (some 80) busy ≡ some removed
unfolding source_remove remove_active find deactivate backend_remove_socket without_handle
remove_runs = refl

source_remove-IsValid_example :
    IsValid removed.loop × (addresses removed.loop.sources ≡ addresses both)
source_remove-IsValid_example =
    source_remove-IsValid (some 80) busy removed remove_runs busy-IsValid

advance-IsNext_example : (n : ℕ) × (advance 100 10 7 40 ≡ some n) × IsNext 10 7 40 n
advance-IsNext_example =
    advance-IsNext 100 10 7 40 (omega arith) (omega arith) (omega arith) (omega arith)

advance_ends_example : (n : ℕ) × (advance 41 10 7 40 ≡ some n) × (40 < n)
advance_ends_example = advance_ends 10 7 40 (omega arith) (omega arith) (omega arith) (omega arith)

timeout_of-IsTimeout_example :
    IsTimeout 1_000_000 both (timeout_of (scan 1_000_000 both false uint64_max))
timeout_of-IsTimeout_example = timeout_of-IsTimeout 1_000_000 both (omega arith)

abbrev held_before : List Resource
held_before = record { kind = memory; id = 9 } ∷ []

abbrev parts : NewLoop
parts =
    let part : ℕ → Resource = λ n. record { kind = memory; id = n } in
    record {
      created = part 1;
      backend = part 2;
      receiver = part 3;
      sender = part 4;
      sources = part 5;
      wake_source = part 6;
    }

loop-Balanced_example :
    Triple held_before held_before
      (λ l. loop_holdings (l.wake_source ∷ []) l ++ held_before)
      (loop_create true)
loop-Balanced_example = (loop-Balanced true busy [] parts busy-IsValid).0 held_before

-- The same system with a clock that stands still.
abbrev frozen : Env
frozen = record system { clock = λ n. (0, 5_000_000) }

frozen-IsSystem : IsSystem frozen
frozen-IsSystem = record {
  limits = system-IsSystem.limits;
  fresh = system-IsSystem.fresh;
  refuses = system-IsSystem.refuses;
  reports = system-IsSystem.reports;
}

dispatch_timers-Returns_example : Returns (dispatch_timers frozen (2 ^ 60 + 1) busy)
dispatch_timers-Returns_example =
    dispatch_timers-Returns frozen (2 ^ 60 + 1) busy frozen-IsSystem busy-IsValid (λ n. omega arith)
      (omega arith)

add-Follows_example :
    Post (Follows busy) (λ _ t. Follows busy t) (add_socket system true 9 4 3 5 busy)
add-Follows_example = (add-Follows system true 9 4 3 5 busy system-IsSystem busy-IsValid).0

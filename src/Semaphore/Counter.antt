-- ===== src/Semaphore/Counter.antt =====
-- What a semaphore promises: a counter that is taken from and added to one at a time, and that refuses
-- to be added to when it is full.
use xlib.Common.{
  ℕ, ◌+◌, ◌-◌, ◌≤◌, ◌≡◌, refl, ap, ◌∙◌, Option, none, some, List, [], ◌∷◌, ◌++◌, ltb, ◌==◌,
  if◌then◌else◌, uint_max, arith,
}
use xlib.Semaphore.{
  Shared, Pc, WaitMove, take, PostMove, full, add, System, Step, in_wait, in_post, signal,
  signal_nobody, Reach, start, later,
}
use xlib.Semaphore.Invariant.{Inv, Reach-Inv, Others, to_Others}

-- What a thread does with the semaphore: `x_semaphore_wait` takes one off, `x_semaphore_post` adds one,
-- or returns EOVERFLOW.
pub data Event : Type 0 where
  took added overflowed : Event

-- The counter, for one event; `none` where the event is not the counter's.
abbrev pub counter_event : Event → ℕ → Option ℕ
counter_event took count = if count == 0 then none else some (count - 1)
counter_event added count = if ltb count uint_max then some (count + 1) else none
counter_event overflowed count = if count == uint_max then some count else none

abbrev pub then_event : Option ℕ → List Event → Option ℕ
then_event count [] = count
then_event none (e ∷ events) = none
then_event (some count) (e ∷ events) = then_event (counter_event e count) events

-- The counter from its initial count, for the events in their order.
abbrev pub counter_run : ℕ → List Event → Option ℕ
counter_run count events = then_event (some count) events

abbrev wait_events : {m n : Shared} {p q : Pc} → WaitMove m p n q → List Event
wait_events take = took ∷ []
wait_events move = []

abbrev post_events : {m n : Shared} {p q : Pc} → PostMove m p n q → List Event
post_events add = added ∷ []
post_events (full e) = overflowed ∷ []
post_events move = []

abbrev step_events : {s t : System} → Step s t → List Event
step_events (in_wait xs ys move) = wait_events move
step_events (in_post xs ys move) = post_events move
step_events (signal xs ys us vs e) = []
step_events (signal_nobody xs ys e) = []

-- The events of a run, the first one first.
abbrev pub run_events : {n c : ℕ} {s : System} → Reach n c s → List Event
run_events start = []
run_events (later r step) = run_events r ++ step_events step

wait_events-counted :
    {xs ys : List Pc} {p q : Pc} {c : ℕ} {m n : Shared} (move : WaitMove m p n q)
    → Others xs ys p c m
    → counter_run m.count (wait_events move) ≡ some n.count
wait_events-counted take f = ground (arith, f.passed_p, f.fits_p)
wait_events-counted move f = refl

post_events-counted :
    {xs ys : List Pc} {p q : Pc} {c : ℕ} {m n : Shared} (move : PostMove m p n q)
    → Others xs ys p c m
    → counter_run m.count (post_events move) ≡ some n.count
post_events-counted add f = ground (arith, f.fits_p)
post_events-counted (full e) f = ground (arith, e)
post_events-counted move f = refl

step_events-counted :
    {c : ℕ} {s t : System} (step : Step s t)
    → Inv c s.threads s.shared
    → counter_run s.shared.count (step_events step) ≡ some t.shared.count
step_events-counted (in_wait xs ys {p} move) f = wait_events-counted move (to_Others xs ys p f)
step_events-counted (in_post xs ys {p} move) f = post_events-counted move (to_Others xs ys p f)
step_events-counted (signal xs ys us vs e) f = refl
step_events-counted (signal_nobody xs ys e) f = refl

then_event-append :
    (count : Option ℕ) (xs ys : List Event)
    → then_event count (xs ++ ys) ≡ then_event (then_event count xs) ys
then_event-append count [] ys = refl
then_event-append none (x ∷ xs) [] = refl
then_event-append none (x ∷ xs) (y ∷ ys) = refl
then_event-append (some count) (x ∷ xs) ys = then_event-append (counter_event x count) xs ys

-- For an initial count that is an `unsigned int`, every interleaved run of the threads is, by what they
-- do, in its order, a run of a counter: from the initial count, taking one off succeeds only where the
-- counter is not 0, adding one only below UINT_MAX, and EOVERFLOW comes only at UINT_MAX; and what the
-- counter is at the end of these events is the count of the semaphore.
pub Reach-counter_run :
    (n c : ℕ) (s : System)
    → c ≤ uint_max
    → (r : Reach n c s) → counter_run c (run_events r) ≡ some s.shared.count
Reach-counter_run n c s h start = refl
Reach-counter_run n c s h (later {s = before} r step) =
    then_event-append (some c) (run_events r) (step_events step)
    ∙ ap (λ count. then_event count (step_events step)) (Reach-counter_run n c before h r)
    ∙ step_events-counted step (Reach-Inv n c before h r)

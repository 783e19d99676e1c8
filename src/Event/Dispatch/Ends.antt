-- ===== src/Event/Dispatch/Ends.antt =====
-- The timers of src/x_event.c end: `x_event_loop_dispatch_timers` returns.
use xlib.Common.{
  ℕ, zero, suc, ◌+◌, ◌^◌, ◌≤◌, ◌<◌, ◌≡◌, subst, Bool, true, false, some, List, [], ◌∷◌, ltb, ltb→lt,
  ◌==◌, if◌then◌else◌, length, get_elem?, word, arith, Bool-cases, Option-cases, inl, inr,
}
use mathlib.Core.Option.{some-injective}
use xlib.Event.{
  Source, Kind, socket, timer, process, file, Env, State, M, Result, ok, err, endless, fault,
  bind_result, counted, monotonic_ns, event_timer, event_process,
}
use xlib.Event.Valid.{IsValid, IsSystem, Words}
use xlib.Event.Follows.{Post, Follows}
use xlib.Event.Dispatch.{
  dispatch, of_status, is_active, rearm, run_timer, run_process, reported, run_file, file_flags,
  run_due, is_due, timers_step, timers_loop, dispatch_timers,
}
use xlib.Event.Dispatch.Keeps.{timers_step-Goes}
use xlib.Event.Dispatch.Advance.{advance_ends}

-- A call that returns, with 0 or another status, and reads no freed source.
abbrev pub Returns : {A : Type 0} → Result A × State → Type 0
Returns (ok a, s) = Unit
Returns (err e, s) = Unit
Returns (endless, s) = ⊥
Returns (fault, s) = ⊥

Returns-bind :
    {A B : Type 0} (m : Result A × State) (f : A → M B)
    → Returns m
    → ((a : A) (t : State) → Returns (f a t))
    → Returns (bind_result m f)
Returns-bind (ok a, s) f h k = k a s
Returns-bind (err e, s) f h k = tt
Returns-bind (endless, s) f h k = elim h [ ]
Returns-bind (fault, s) f h k = elim h [ ]

-- What follows a call may use what the call leaves.
Returns-after :
    {A B : Type 0} (E : State → Type 0) (Q : A → State → Type 0) (m : Result A × State)
    (f : A → M B)
    → Post E Q m
    → Returns m
    → ((a : A) (t : State) → Q a t → Returns (f a t))
    → Returns (bind_result m f)
Returns-after E Q (ok a, t) f p r k = k a t p
Returns-after E Q (err n, t) f p r k = tt
Returns-after E Q (endless, t) f p r k = elim r [ ]
Returns-after E Q (fault, t) f p r k = elim r [ ]

Returns-if :
    {A : Type 0} (test : Bool) (m n : Result A × State)
    → Returns m
    → Returns n
    → Returns (if test then m else n)
Returns-if true m n h k = h
Returns-if false m n h k = k

dispatch-Returns :
    (env : Env) (source : Source) (events : ℕ) (s : State) → Returns (dispatch env source events s)
unfolding dispatch
dispatch-Returns env source events s =
    Returns-if source.active _ (ok tt, s) (of_status-Returns _ _) tt
  where
    of_status-Returns : (status : ℕ) (t : State) → Returns (of_status status, t)
    of_status-Returns status t = elim (Bool-cases (status == 0)) [
      | inl e ↦ rw e tt
      | inr e ↦ rw e tt
    ]

rearm-Returns :
    (source : Source) (now : ℕ) (s : State)
    → source.interval_ns < word
    → source.due_ns ≤ now
    → now < 2 ^ 63
    → Returns (rearm source now s)
unfolding rearm
rearm-Returns source now s short late early = elim (Bool-cases (source.interval_ns == 0)) [
  | inl e ↦ rw e tt
  | inr e ↦
      let (next, found, after) =
        advance_ends source.due_ns source.interval_ns now (ground arith) short early late in
      rw (e, found, rearm) tt
]

run_due-Returns :
    (env : Env) (source : Source) (now : ℕ) (s : State)
    → source.interval_ns < word
    → source.due_ns ≤ now
    → now < 2 ^ 63
    → Returns (run_due env source now s)
unfolding run_due run_timer run_process run_file
run_due-Returns env source now s short late early = by_kind source.kind
  where
    by_kind :
        (k : Kind)
        → Returns {A = Unit {0}} (elim k [
          | socket ↦ (ok tt, s)
          | timer ↦ run_timer env source now s
          | process ↦ run_process env source now s
          | file ↦ run_file env source now s
        ])
    by_kind socket = tt
    by_kind timer =
        Returns-bind (dispatch env source event_timer s) _
          (dispatch-Returns env source event_timer s)
          λ _ t.
            Returns-if (is_active source.address t) (rearm source now t) (ok tt, t)
              (rearm-Returns source now t short late early) tt
    by_kind process =
        Returns-if ((env.process_poll s.calls source.object).0 == 0) _ (err _, counted s)
          (Returns-if ((env.process_poll s.calls source.object).1) _ (ok tt, _)
            (Returns-bind (dispatch env source event_process (counted s)) _
              (dispatch-Returns env source event_process (counted s)) λ _ t. tt)
            tt)
          tt
    by_kind file =
        Returns-if ((env.watcher_poll s.calls source.object).0 == 0) _ (err _, counted s)
          (Returns-bind (reported env source s) _
            (Returns-if ((env.watcher_poll s.calls source.object).1 == 0) (ok tt, counted s) _ tt
              (dispatch-Returns env source (file_flags (env.watcher_poll s.calls source.object).1)
                (counted s)))
            λ _ t. tt)
          tt

get_elem?-Words :
    (xs : List Source) (i : ℕ) (x : Source)
    → Words xs
    → get_elem? xs i ≡ some x
    → x.interval_ns < word
get_elem?-Words [] i x w e = absurd (cc e)
get_elem?-Words (y ∷ ys) zero x w e = subst (λ z. z.interval_ns < word) (some-injective _ _ e) w.0
get_elem?-Words (y ∷ ys) (suc i) x w e = get_elem?-Words ys i x w.1 e

is_due-late : (source : Source) (now : ℕ) → is_due source now ≡ true → source.due_ns ≤ now
unfolding is_due
is_due-late source now d = ground arith

timers_step-Returns :
    (env : Env) (i now : ℕ) (s : State)
    → IsValid s.loop
    → now < 2 ^ 63
    → Returns (timers_step env i now s)
unfolding timers_step
timers_step-Returns env i now s v early = elim (Option-cases (get_elem? s.loop.sources i)) [
  | inl e ↦ rw (e, timers_step) tt
  | inr (source, e) ↦ elim (Bool-cases (is_due source now)) [
    | inl d ↦
        rw (e, d, timers_step)
          (run_due-Returns env source now s (get_elem?-Words s.loop.sources i source v.words e)
            (is_due-late source now d) early)
    | inr d ↦ rw (e, d, timers_step) tt
  ]
]

timers_loop-Returns :
    (env : Env) (fuel i now : ℕ) (s : State)
    → IsSystem env
    → IsValid s.loop
    → now < 2 ^ 63
    → i ≤ 2 ^ 60
    → 2 ^ 60 < fuel + i
    → Returns (timers_loop env fuel i now s)
unfolding timers_loop
timers_loop-Returns env zero i now s sys v early small enough = absurd (omega arith)
timers_loop-Returns env (suc fuel) i now s sys v early small enough =
    elim (Bool-cases (ltb i (length s.loop.sources))) [
      | inl e ↦
          rw (e, timers_loop)
            (Returns-after (Follows s) (λ _ t. Follows s t) (timers_step env i now s)
              (λ _. timers_loop env fuel (i + 1) now) (timers_step-Goes env i now s sys v)
              (timers_step-Returns env i now s v early)
              λ _ t f.
                timers_loop-Returns env fuel (i + 1) now t sys f.valid early
                  (omega (arith, ltb→lt _ _ e, v.fits, v.small)) (omega arith))
      | inr e ↦ rw (e, timers_loop) tt
    ]

-- On a valid loop, with a system as assumed whose clock shows less than 2^63 ns: whatever the callbacks
-- do, sources that they add included, `x_event_loop_dispatch_timers` returns; fuel of more than 2^60
-- rounds, the largest array there is, is enough.
pub dispatch_timers-Returns :
    (env : Env) (fuel : ℕ) (s : State)
    → IsSystem env
    → IsValid s.loop
    → ((n : ℕ) → (env.clock n).1 < 2 ^ 63)
    → 2 ^ 60 < fuel
    → Returns (dispatch_timers env fuel s)
unfolding dispatch_timers monotonic_ns
dispatch_timers-Returns env fuel s sys v early enough =
    elim (Bool-cases ((env.clock s.calls).0 == 0)) [
      | inl e ↦
          rw (e, dispatch_timers)
            (timers_loop-Returns env fuel 0 (env.clock s.calls).1 (counted s) sys v (early s.calls)
              (omega arith) (omega arith))
      | inr e ↦ rw (e, dispatch_timers) tt
    ]

-- ===== src/Event/Dispatch/Keeps.antt =====
-- The timers of src/x_event.c keep the invariant of the loop, and take no source out of the array.
use xlib.Common.{
  ℕ, zero, suc, ◌+◌, ◌≡◌, refl, sym, ◌∙◌, Bool, some, List, [], ◌∷◌, ltb, ◌==◌, if◌then◌else◌,
  length, get_elem?, add_word, arith, Bool-cases, Option-cases, inl, inr,
}
use xlib.Event.{
  Source, Kind, socket, timer, process, file, Env, State, Result, ok, err, addresses, source_remove,
  counted, monotonic_ns, event_timer, event_process,
}
use xlib.Event.Valid.{Words, expected, IsValid, IsSystem}
use xlib.Event.Follows.{Post, Post-bind, Post-map, Follows, Follows-refl, Follows-trans}
use xlib.Event.Dispatch.{
  dispatch, set_due, put_due, is_active, remove_if_active, advance, rearm, run_timer, run_process,
  file_flags, run_file, reported, run_due, timers_step, is_due, timers_loop, dispatch_timers,
}
use xlib.Event.Dispatch.Callbacks.{Post-if, source_remove-Follows, from_counted, dispatch-Follows}

addresses-set_due : (a due : ℕ) (xs : List Source) → addresses (set_due a due xs) ≡ addresses xs
unfolding set_due
addresses-set_due a due [] = refl
addresses-set_due a due (x ∷ xs) = ground (arith, addresses-set_due a due xs)

expected-set_due : (a due : ℕ) (xs : List Source) → expected (set_due a due xs) ≡ expected xs
unfolding set_due expected
expected-set_due a due [] = refl
expected-set_due a due (x ∷ xs) = ground (arith, expected-set_due a due xs)

length-set_due : (a due : ℕ) (xs : List Source) → length (set_due a due xs) ≡ length xs
unfolding set_due
length-set_due a due [] = refl
length-set_due a due (x ∷ xs) = ground (arith, length-set_due a due xs)

Words-set_due : (a due : ℕ) (xs : List Source) → Words xs → Words (set_due a due xs)
unfolding set_due
Words-set_due a due [] h = tt
Words-set_due a due (x ∷ xs) h = elim (Bool-cases (x.address == a)) [
  | inl e ↦ simp e h
  | inr e ↦ simp e (h.0, Words-set_due a due xs h.1)
]

put_due-Follows : (a due : ℕ) (s : State) → IsValid s.loop → Follows s (put_due a due s)
unfolding put_due
put_due-Follows a due s v = record {
  valid = record {
    fits = rw (length-set_due a due s.loop.sources) v.fits;
    small = v.small;
    distinct = rw (addresses-set_due a due s.loop.sources) v.distinct;
    registrations = v.registrations ∙ sym (expected-set_due a due s.loop.sources);
    exclusive = v.exclusive;
    words = Words-set_due a due s.loop.sources v.words;
  };
  keeps = λ b h. rw (addresses-set_due a due s.loop.sources) at h;
}

remove_if_active-Follows : (a : ℕ) (s : State) → IsValid s.loop → Follows s (remove_if_active a s)
unfolding remove_if_active
remove_if_active-Follows a s v = elim (Option-cases (source_remove (some a) s)) [
  | inl e ↦ rw (e, remove_if_active) (Follows-refl s v)
  | inr (t, e) ↦ rw (e, remove_if_active) (source_remove-Follows a s t e v)
]

-- The state that a part of a round is in, against the state before.
abbrev Goes : State → Result (Unit {0}) × State → Type 0
Goes s = Post (Follows s) (λ _ t. Follows s t)

Goes-after : (s t : State) (m : Result (Unit {0}) × State) → Follows s t → Goes t m → Goes s m
Goes-after s t m f g =
    Post-map (Follows t) (Follows s) (λ _ u. Follows t u) (λ _ u. Follows s u) m g
      (λ u h. Follows-trans s t u f h) (λ _ u h. Follows-trans s t u f h)

rearm-Goes : (source : Source) (now : ℕ) (s : State) → IsValid s.loop → Goes s (rearm source now s)
unfolding rearm
rearm-Goes source now s v = elim (Bool-cases (source.interval_ns == 0)) [
  | inl e ↦ simp e (remove_if_active-Follows source.address s v)
  | inr e ↦ elim (Option-cases (advance (suc now) source.due_ns source.interval_ns now)) [
    | inl f ↦ rw (e, f, rearm) (Follows-refl s v)
    | inr (due, f) ↦ rw (e, f, rearm) (put_due-Follows source.address due s v)
  ]
]

run_timer-Goes :
    (env : Env) (source : Source) (now : ℕ) (s : State)
    → IsSystem env
    → IsValid s.loop
    → Goes s (run_timer env source now s)
unfolding run_timer
run_timer-Goes env source now s sys v =
    Post-bind (Follows s) (λ _ t. Follows s t) (λ _ t. Follows s t)
      (dispatch env source event_timer s) _ (dispatch-Follows env source event_timer s sys v)
      λ _ t f. elim (Bool-cases (is_active source.address t)) [
        | inl e ↦ rw e (Goes-after s t _ f (rearm-Goes source now t f.valid))
        | inr e ↦ rw e f
      ]

pub counted-Follows : (s : State) → IsValid s.loop → Follows s (counted s)
counted-Follows s v = record { valid = v; keeps = λ a h. h }

run_process-Goes :
    (env : Env) (source : Source) (now : ℕ) (s : State)
    → IsSystem env
    → IsValid s.loop
    → Goes s (run_process env source now s)
unfolding run_process
run_process-Goes env source now s sys v = elim (Bool-cases (answer.0 == 0)) [
  | inl e ↦ elim (Bool-cases (answer.1)) [
    | inl done ↦
        rw (e, done)
          (Post-bind (Follows s) (λ _ t. Follows s t) (λ _ t. Follows s t)
            (dispatch env source event_process (counted s))
            (λ _ t. (ok tt, remove_if_active source.address t))
            (Goes-after s (counted s) _ (counted-Follows s v)
              (dispatch-Follows env source event_process (counted s) sys v))
            λ _ t f. Follows-trans s t _ f (remove_if_active-Follows source.address t f.valid))
    | inr waits ↦
        rw (e, waits)
          (from_counted s _
            (put_due-Follows source.address (add_word now source.interval_ns) (counted s) v))
  ]
  | inr e ↦ rw e (counted-Follows s v)
]
  where
    answer : ℕ × Bool
    answer = env.process_poll s.calls source.object

-- The callback of a watcher runs, or nothing has been reported.
reported-Goes :
    (env : Env) (source : Source) (s : State)
    → IsSystem env
    → IsValid s.loop
    → Goes s (reported env source s)
reported-Goes env source s sys v =
    elim (Bool-cases ((env.watcher_poll s.calls source.object).1 == 0)) [
      | inl e ↦ rw e (counted-Follows s v)
      | inr e ↦ rw e (
          Goes-after s (counted s) _ (counted-Follows s v) (
            dispatch-Follows env source (file_flags (env.watcher_poll s.calls source.object).1)
              (counted s) sys v))
    ]

run_file-Goes :
    (env : Env) (source : Source) (now : ℕ) (s : State)
    → IsSystem env
    → IsValid s.loop
    → Goes s (run_file env source now s)
unfolding run_file
run_file-Goes env source now s sys v =
    elim (Bool-cases ((env.watcher_poll s.calls source.object).0 == 0)) [
      | inl e ↦ rw e (
          Post-bind (Follows s) (λ _ t. Follows s t) (λ _ t. Follows s t) (reported env source s)
            (λ _ t. (
              ok tt,
              if is_active source.address t
                  then put_due source.address (add_word now source.interval_ns) t
                  else t,
            ))
            (reported-Goes env source s sys v)
            λ _ t f. elim (Bool-cases (is_active source.address t)) [
              | inl a ↦ rw a (
                  Follows-trans s t _ f
                    (put_due-Follows source.address (add_word now source.interval_ns) t f.valid))
              | inr a ↦ rw a f
            ])
      | inr e ↦ rw e (counted-Follows s v)
    ]

run_due-Goes :
    (env : Env) (source : Source) (now : ℕ) (s : State)
    → IsSystem env
    → IsValid s.loop
    → Goes s (run_due env source now s)
unfolding run_due
run_due-Goes env source now s sys v = by_kind source.kind
  where
    by_kind :
        (k : Kind)
        → Goes s (elim k [
          | socket ↦ (ok tt, s)
          | timer ↦ run_timer env source now s
          | process ↦ run_process env source now s
          | file ↦ run_file env source now s
        ])
    by_kind socket = Follows-refl s v
    by_kind timer = run_timer-Goes env source now s sys v
    by_kind process = run_process-Goes env source now s sys v
    by_kind file = run_file-Goes env source now s sys v

pub timers_step-Goes :
    (env : Env) (i now : ℕ) (s : State)
    → IsSystem env
    → IsValid s.loop
    → Goes s (timers_step env i now s)
unfolding timers_step
timers_step-Goes env i now s sys v = elim (Option-cases (get_elem? s.loop.sources i)) [
  | inl e ↦ rw (e, timers_step) (Follows-refl s v)
  | inr (source, e) ↦
      rw (e, timers_step)
        (Post-if (Follows s) (λ _ t. Follows s t) (is_due source now) (run_due env source now s)
          (ok tt, s) (run_due-Goes env source now s sys v) (Follows-refl s v))
]

timers_loop-Goes :
    (env : Env) (fuel i now : ℕ) (s : State)
    → IsSystem env
    → IsValid s.loop
    → Goes s (timers_loop env fuel i now s)
unfolding timers_loop
timers_loop-Goes env zero i now s sys v = Follows-refl s v
timers_loop-Goes env (suc fuel) i now s sys v = elim (Bool-cases (ltb i (length s.loop.sources))) [
  | inl e ↦
      rw (e, timers_loop)
        (Post-bind (Follows s) (λ _ t. Follows s t) _ (timers_step env i now s)
          (λ _. timers_loop env fuel (i + 1) now) (timers_step-Goes env i now s sys v)
          λ _ t f. Goes-after s t _ f (timers_loop-Goes env fuel (i + 1) now t sys f.valid))
  | inr e ↦ rw (e, timers_loop) (Follows-refl s v)
]

-- A call of `x_event_loop_dispatch_timers`, whatever the callbacks do.
pub dispatch_timers-Goes :
    (env : Env) (fuel : ℕ) (s : State)
    → IsSystem env
    → IsValid s.loop
    → Post (Follows s) (λ _ t. Follows s t) (dispatch_timers env fuel s)
unfolding dispatch_timers monotonic_ns
dispatch_timers-Goes env fuel s sys v =
    Post-bind (Follows s) (λ _ t. Follows s t) _ (monotonic_ns env s)
      (λ now. timers_loop env fuel 0 now)
      (Post-if (Follows s) (λ _ t. Follows s t) ((env.clock s.calls).0 == 0)
        (ok (env.clock s.calls).1, counted s) (err (env.clock s.calls).0, counted s)
        (counted-Follows s v) (counted-Follows s v))
      λ now t f. Goes-after s t _ f (timers_loop-Goes env fuel 0 now t sys f.valid)

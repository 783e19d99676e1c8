-- ===== src/Event/Dispatch/Run.antt =====
-- `x_event_loop_run` of src/x_event.c: no read of a freed source, and when it returns.
use xlib.Common.{
  ℕ, zero, suc, ◌≡◌, ◌⊎◌, refl, sym, ◌∙◌, Bool, true, false, not, ◌&&◌, Option, none, List, [], ◌∷◌,
  ◌==◌, if◌then◌else◌, All, arith, Bool-cases, Option-cases, inl, inr, eintr, ==_iff,
}
use xlib.Event.{
  Source, Env, Loop, State, M, Result, ok, err, endless, fault, bind_result, Ready, addresses, find,
  counted, monotonic_ns, compact, active_user_sources,
}
use xlib.Event.Valid.{
  Words-compact_sources, NotIn, owners, expected, is_watched, IsValid, IsSystem,
  expected-compact_sources, length-compact_sources, Distinct-compact_sources,
}
use xlib.Event.Follows.{Post, Post-bind, Post-map, Follows, Follows-refl, Follows-trans}
use xlib.Event.Dispatch.{
  dispatch, dispatch_ready, wait_sockets, ready_flags, next_timeout_ms, dispatch_timers,
  wait_and_dispatch, after_timers, next_round, loop_body, loop_rounds, loop_run, finished, Turn,
  stops_here, goes_on, keeps_running,
}
use xlib.Event.Dispatch.Callbacks.{dispatch-Follows, from_counted}
use xlib.Event.Dispatch.Keeps.{dispatch_timers-Goes, counted-Follows}

-- Whatever owns an entry is in the array.
NotIn-owners : (a : ℕ) (xs : List Source) → NotIn a (addresses xs) → NotIn a (owners (expected xs))
unfolding expected
NotIn-owners a [] h = tt
NotIn-owners a (x ∷ xs) h = elim (Bool-cases (is_watched x)) [
  | inl e ↦ simp e (h.0, NotIn-owners a xs h.1)
  | inr e ↦ simp e (NotIn-owners a xs h.1)
]

find-NotIn : (a : ℕ) (xs : List Source) → find a xs ≡ none → NotIn a (addresses xs)
unfolding find
find-NotIn a [] e = tt
find-NotIn a (x ∷ xs) e = (ground arith, find-NotIn a xs (ground arith))

-- The entries that are reported belong to sources of the array.
abbrev AllKnown : State → List Ready → Type 0
AllKnown s = All λ r. ¬ NotIn (r.owner) (addresses s.loop.sources)

AllKnown-Follows : (s t : State) (rs : List Ready) → Follows s t → AllKnown s rs → AllKnown t rs
AllKnown-Follows s t [] f h = tt
AllKnown-Follows s t (r ∷ rs) f h = (λ k. h.0 (f.keeps r.owner k), AllKnown-Follows s t rs f h.1)

AllKnown-entries :
    (s : State) (rs : List Ready)
    → IsValid s.loop
    → All (λ r. ¬ NotIn (r.owner) (owners s.loop.registered)) rs
    → AllKnown s rs
AllKnown-entries s [] v h = tt
AllKnown-entries s (r ∷ rs) v h = (
  λ k. h.0 (rw v.registrations (NotIn-owners r.owner s.loop.sources k)),
  AllKnown-entries s rs v h.1,
)

dispatch_ready-Follows :
    (env : Env) (rs : List Ready) (s : State)
    → IsSystem env
    → IsValid s.loop
    → AllKnown s rs
    → Post (Follows s) (λ _ t. Follows s t) (dispatch_ready env rs s)
unfolding dispatch_ready
dispatch_ready-Follows env [] s sys v h = Follows-refl s v
dispatch_ready-Follows env (r ∷ rs) s sys v h = elim (Option-cases (find r.owner s.loop.sources)) [
  | inl e ↦ absurd (h.0 (find-NotIn r.owner s.loop.sources e))
  | inr (x, e) ↦ elim (Bool-cases (x.active && not (ready_flags r == 0))) [
    | inl a ↦
        rw (e, a, dispatch_ready)
          (Post-bind (Follows s) (λ _ t. Follows s t) (λ _ t. Follows s t)
            (dispatch env x (ready_flags r) s) (λ _. dispatch_ready env rs)
            (dispatch-Follows env x (ready_flags r) s sys v)
            λ _ t f.
              Post-map (Follows t) (Follows s) (λ _ u. Follows t u) (λ _ u. Follows s u)
                (dispatch_ready env rs t)
                (dispatch_ready-Follows env rs t sys f.valid (AllKnown-Follows s t rs f h.1))
                (λ u k. Follows-trans s t u f k) (λ _ u k. Follows-trans s t u f k))
    | inr a ↦ rw (e, a, dispatch_ready) (dispatch_ready-Follows env rs s sys v h.1)
  ]
]

wait_sockets-Follows :
    (env : Env) (timeout : Option ℕ) (s : State)
    → IsSystem env
    → IsValid s.loop
    → Post (Follows s) (λ _ t. Follows s t) (wait_sockets env timeout s)
unfolding wait_sockets
wait_sockets-Follows env timeout s sys v = elim (Bool-cases (answer.0 == 0)) [
  | inl e ↦ rw e (
      Post-map (Follows (counted s)) (Follows s) (λ _ u. Follows (counted s) u) (λ _ u. Follows s u)
        (dispatch_ready env answer.1 (counted s))
        (dispatch_ready-Follows env answer.1 (counted s) sys v
          (AllKnown-entries s answer.1 v (sys.reports s.calls s.loop.registered timeout)))
        (λ u k. from_counted s u k) (λ _ u k. from_counted s u k))
  | inr e ↦ elim (Bool-cases (answer.0 == eintr)) [
    | inl i ↦ rw (e, i) (counted-Follows s v)
    | inr i ↦ rw (e, i) (counted-Follows s v)
  ]
]
  where
    answer : ℕ × List Ready
    answer = env.epoll_wait s.calls s.loop.registered timeout

compact-IsValid : (s : State) → IsValid s.loop → IsValid (compact s).loop
unfolding compact
compact-IsValid s v = record {
  fits = omega (arith, length-compact_sources s.loop.sources, v.fits);
  small = v.small;
  distinct = Distinct-compact_sources s.loop.sources v.distinct;
  registrations = v.registrations ∙ sym (expected-compact_sources s.loop.sources);
  exclusive = v.exclusive;
  words = Words-compact_sources s.loop.sources v.words;
}

abbrev Valid : State → Type 0
Valid s = IsValid s.loop

of_Follows :
    {A : Type 0} (s : State) (m : Result A × State)
    → Post (Follows s) (λ _ t. Follows s t) m
    → Post Valid (λ _ t. Valid t) m
of_Follows s m h =
    Post-map (Follows s) Valid (λ _ t. Follows s t) (λ _ t. Valid t) m h (λ t f. f.valid)
      (λ _ t f. f.valid)

next_timeout_ms-Valid :
    (env : Env) (s : State) → Valid s → Post Valid (λ _ t. Valid t) (next_timeout_ms env s)
unfolding next_timeout_ms monotonic_ns
next_timeout_ms-Valid env s v = elim (Bool-cases ((env.clock s.calls).0 == 0)) [
  | inl e ↦ rw e v
  | inr e ↦ rw e v
]

-- Why the loop ends without an error.
abbrev pub Ended : State → Type 0
Ended t = (t.loop.stop_requested ≡ true) ⊎ (active_user_sources t.loop.sources ≡ 0)

abbrev Ends : Turn → State → Type 0
Ends stops_here t = Valid t × Ended t
Ends goes_on t = Valid t

wait_and_dispatch-Ends :
    (env : Env) (fuel : ℕ) (s : State)
    → IsSystem env
    → Valid s
    → Post Valid Ends (wait_and_dispatch env fuel s)
unfolding wait_and_dispatch
wait_and_dispatch-Ends env fuel s sys v =
    Post-bind Valid (λ _ t. Valid t) Ends (next_timeout_ms env s)
      (λ timeout u.
        bind_result (wait_sockets env timeout u)
          λ _ v. bind_result (dispatch_timers env fuel v) λ _ w. (ok goes_on, compact w))
      (next_timeout_ms-Valid env s v)
      λ timeout u vu.
        Post-bind Valid (λ _ t. Valid t) Ends (wait_sockets env timeout u)
          (λ _ v. bind_result (dispatch_timers env fuel v) λ _ w. (ok goes_on, compact w))
          (of_Follows u _ (wait_sockets-Follows env timeout u sys vu))
          λ _ x vx.
            Post-bind Valid (λ _ t. Valid t) Ends (dispatch_timers env fuel x)
              (λ _ w. (ok goes_on, compact w))
              (of_Follows x _ (dispatch_timers-Goes env fuel x sys vx))
              λ _ w vw. compact-IsValid w vw

Post-cases :
    {A : Type 0} (E : State → Type 0) (Q : A → State → Type 0) (test : Bool)
    (m n : Result A × State)
    → (test ≡ true → Post E Q m)
    → (test ≡ false → Post E Q n)
    → Post E Q (if test then m else n)
Post-cases E Q true m n h k = h refl
Post-cases E Q false m n h k = k refl

after_timers-Ends :
    (env : Env) (fuel : ℕ) (s : State)
    → IsSystem env
    → Valid s
    → Post Valid Ends (after_timers env fuel s)
unfolding after_timers
after_timers-Ends env fuel s sys v =
    Post-cases Valid Ends s.loop.stop_requested (ok stops_here, s)
      (if active_user_sources (compact s).loop.sources == 0
        then (ok stops_here, compact s)
        else wait_and_dispatch env fuel (compact s))
      (λ e. (v, inl e))
      λ _.
        Post-cases Valid Ends (active_user_sources (compact s).loop.sources == 0)
          (ok stops_here, compact s) (wait_and_dispatch env fuel (compact s))
          (λ z. (compact-IsValid s v, inr ((==_iff _ 0).0 z)))
          λ _. wait_and_dispatch-Ends env fuel (compact s) sys (compact-IsValid s v)

loop_body-Ends :
    (env : Env) (fuel : ℕ) (s : State)
    → IsSystem env
    → Valid s
    → Post Valid Ends (loop_body env fuel s)
unfolding loop_body
loop_body-Ends env fuel s sys v =
    Post-bind Valid (λ _ t. Valid t) Ends (dispatch_timers env fuel s) (λ _. after_timers env fuel)
      (of_Follows s _ (dispatch_timers-Goes env fuel s sys v))
      λ _ t vt. after_timers-Ends env fuel t sys vt

abbrev Finishes : Result (Unit {0}) × State → Type 0
Finishes = Post Valid (λ _ t. Valid t × Ended t)

next_round-Finishes :
    (turn : Turn) (rounds : M (Unit {0})) (t : State)
    → Ends turn t
    → (Valid t → Finishes (rounds t))
    → Finishes (next_round turn rounds t)
next_round-Finishes stops_here rounds t h k = h
next_round-Finishes goes_on rounds t h k = k h

not_running-Ended : (s : State) → keeps_running s.loop ≡ false → Ended s
unfolding keeps_running
not_running-Ended s e = ground arith

loop_rounds-Finishes :
    (env : Env) (rounds fuel : ℕ) (s : State)
    → IsSystem env
    → Valid s
    → Finishes (loop_rounds env rounds fuel s)
unfolding loop_rounds
loop_rounds-Finishes env zero fuel s sys v = v
loop_rounds-Finishes env (suc rounds) fuel s sys v = elim (Bool-cases (keeps_running s.loop)) [
  | inl e ↦
      rw (e, loop_rounds)
        (Post-bind Valid Ends (λ _ t. Valid t × Ended t) (loop_body env fuel s)
          (λ turn. next_round turn (loop_rounds env rounds fuel)) (loop_body-Ends env fuel s sys v)
          λ turn t h.
            next_round-Finishes turn (loop_rounds env rounds fuel) t h
              λ vt. loop_rounds-Finishes env rounds fuel t sys vt)
  | inr e ↦ rw (e, loop_rounds) (v, not_running-Ended s e)
]

-- What `x_event_loop_run` leaves: a valid loop that no longer counts as running.
abbrev pub Rests : State → Type 0
Rests t = IsValid t.loop × (t.loop.running ≡ false)

-- The invariant does not read the flags.
with_flags :
    (l : Loop) (running stop : Bool)
    → IsValid l
    → IsValid (record l { running = running; stop_requested = stop })
with_flags l running stop v = record {
  fits = v.fits;
  small = v.small;
  distinct = v.distinct;
  registrations = v.registrations;
  exclusive = v.exclusive;
  words = v.words;
}

finished-Rests :
    (m : Result (Unit {0}) × State)
    → Finishes m
    → Post Rests (λ _ t. Rests t × Ended t) (finished m)
unfolding finished
finished-Rests (ok a, s) h = ((with_flags s.loop _ _ h.0, refl), h.1)
finished-Rests (err e, s) h = (with_flags s.loop _ _ h, refl)
finished-Rests (endless, s) h = (with_flags s.loop _ _ h, refl)
finished-Rests (fault, s) h = h

-- Started on a valid loop, whatever the callbacks and the system do within what is assumed of the
-- system, `x_event_loop_run` reads no freed source (a fault is excluded), leaves a valid loop that is
-- not running, and when it returns 0 a stop was requested or no active user source is left. Within
-- the fuel for the rounds; a run that exceeds it has kept the invariant so far.
pub loop_run-Rests :
    (env : Env) (rounds fuel : ℕ) (s : State)
    → IsSystem env
    → IsValid s.loop
    → Post Rests (λ _ t. Rests t × Ended t) (loop_run env rounds fuel s)
unfolding loop_run
loop_run-Rests env rounds fuel s sys v =
    finished-Rests _ (loop_rounds-Finishes env rounds fuel _ sys (with_flags s.loop true false v))

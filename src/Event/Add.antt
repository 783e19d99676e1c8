-- ===== src/Event/Add.antt =====
-- The calls of src/x_event.c that add a source keep the invariant, on every path.
use xlib.Common.{
  word, ℕ, ◌<◌, ◌≡◌, refl, ap, subst, ◌∙◌, Bool, true, false, List, [], ◌∷◌, ◌++◌, ◌==◌,
  length-append, ==_iff, arith, Bool-cases, Option-cases, inl, inr,
}
use xlib.Event.{
  ms_to_ns, Source, Kind, process, file, Env, Loop, State, addresses, reserve, monotonic_ns,
  allocate, backend_add_socket, append_source, next_count, is_socket, add_socket,
  add_checked_socket, install_socket, new_socket, is_watchable, add_timer, add_process,
  add_file_watcher, add_polled,
}
use xlib.Event.Valid.{
  Words-append, NotIn, Distinct, Distinct-snoc, handles, entry, is_watched, expected,
  expected-append, addresses-append, handles-append, IsValid, IsSystem,
}
use mathlib.Core.List.{append-nil}
use xlib.Event.Follows.{
  Post, Post-bind, Post-map, Follows, Follows-refl, Same, Same-Follows, guard_bind,
}
use xlib.Event.Reserve.{HasRoom, reserve-Same}

-- Calls that leave the loop alone.
monotonic_ns-Post :
    (env : Env) (s : State)
    → Post (λ t. t.loop ≡ s.loop) (λ _ t. t.loop ≡ s.loop) (monotonic_ns env s)
unfolding monotonic_ns
monotonic_ns-Post env s = elim (Bool-cases ((env.clock s.calls).0 == 0)) [
  | inl e ↦ rw e refl
  | inr e ↦ rw e refl
]

allocate-Post :
    (env : Env) (s : State)
    → IsSystem env
    → Post
        (λ t. t.loop ≡ s.loop)
        (λ a t. (t.loop ≡ s.loop) × NotIn a (addresses s.loop.sources))
        (allocate env s)
unfolding allocate
allocate-Post env s sys = elim (Option-cases (env.calloc s.calls (addresses s.loop.sources))) [
  | inl e ↦ rw (e, allocate) refl
  | inr (a, e) ↦ rw (e, allocate) (refl, sys.fresh _ _ a e)
]

NotIn-append_left : (a : ℕ) (xs ys : List ℕ) → NotIn a (xs ++ ys) → NotIn a xs
NotIn-append_left a [] ys h = tt
NotIn-append_left a (x ∷ xs) ys h = (h.0, NotIn-append_left a xs ys h.1)

-- A new source at the end of the array, with its entry where it is an active socket.
Follows-append :
    (s t u : State) (x : Source)
    → Same s t
    → HasRoom t
    → NotIn (x.address) (addresses t.loop.sources)
    → u.loop ≡ record (t.loop) {
      sources = t.loop.sources ++ x ∷ [];
      registered = t.loop.registered ++ expected (x ∷ []);
    }
    → Distinct (handles (t.loop.registered ++ expected (x ∷ [])))
    → x.interval_ns < word
    → Follows s u
Follows-append s t u x m room new e distinct short = rw e (record {
  valid = record {
    fits = omega (arith, length-append t.loop.sources (x ∷ []));
    small = m.valid.small;
    distinct =
        rw (addresses-append t.loop.sources (x ∷ []))
          (Distinct-snoc (addresses t.loop.sources) (x.address) m.valid.distinct new);
    registrations =
        rw (expected-append t.loop.sources (x ∷ []))
          (ap (λ r. r ++ expected (x ∷ [])) m.valid.registrations);
    exclusive = distinct;
    words = Words-append t.loop.sources (x ∷ []) m.valid.words (short, tt);
  };
  keeps = λ a h.
      subst (λ xs. NotIn a (addresses xs)) m.same
        (NotIn-append_left a (addresses t.loop.sources) (x.address ∷ [])
          (rw (addresses-append t.loop.sources (x ∷ [])) at h));
})

-- After `reserve`: the sources are those of before, and there is room for one more.
abbrev Roomy : State → State → Type 0
Roomy s t = Same s t × HasRoom t

Roomy-loop : (s t u : State) → u.loop ≡ t.loop → Roomy s t → Roomy s u
Roomy-loop s t u e r =
    (record { valid = rw e r.0.valid; same = ap (λ (l : Loop). l.sources) e ∙ r.0.same }, rw e r.1)

Roomy-Follows : (s t u : State) → u.loop ≡ t.loop → Roomy s t → Follows s u
Roomy-Follows s t u e r = Same-Follows s u (Roomy-loop s t u e r).0

reserve-Roomy :
    (env : Env) (s : State)
    → IsSystem env
    → IsValid s.loop
    → Post (Follows s) (λ _ t. Roomy s t) (reserve env (next_count s) s)
reserve-Roomy env s sys v =
    Post-map _ _ _ _ (reserve env (next_count s) s) (reserve-Same env s sys v)
      (λ t m. Same-Follows s t m) (λ _ t q. q)

monotonic_ns-Roomy :
    (env : Env) (s t : State) → Roomy s t → Post (Follows s) (λ _ u. Roomy s u) (monotonic_ns env t)
monotonic_ns-Roomy env s t r =
    Post-map _ _ _ _ (monotonic_ns env t) (monotonic_ns-Post env t) (λ u e. Roomy-Follows s t u e r)
      (λ _ u e. Roomy-loop s t u e r)

allocate-Roomy :
    (env : Env) (s t : State)
    → IsSystem env
    → Roomy s t
    → Post (Follows s) (λ a u. Roomy s u × NotIn a (addresses u.loop.sources)) (allocate env t)
allocate-Roomy env s t sys r =
    Post-map _ _ _ _ (allocate env t) (allocate-Post env t sys) (λ u e. Roomy-Follows s t u e r)
      (λ a u q. (Roomy-loop s t u q.0 r, rw (q.0) q.1))

ms_to_ns-word : (ms : ℕ) → ms_to_ns ms < word
unfolding ms_to_ns
ms_to_ns-word ms = ground arith

append_source-Follows :
    (s t : State) (x : Source)
    → Roomy s t
    → NotIn (x.address) (addresses t.loop.sources)
    → is_watched x ≡ false
    → x.interval_ns < word
    → Post (Follows s) (λ _ u. Follows s u) (append_source x t)
unfolding append_source expected
append_source-Follows s t x r new plain short =
    Follows-append s t _ x r.0 r.1 new (rw (plain, append-nil))
      (rw (plain, append-nil) r.0.valid.exclusive) short

add_polled-Follows :
    (env : Env) (given : Bool) (kind : Kind) (object events interval_ms callback : ℕ) (s : State)
    → IsSystem env
    → IsValid s.loop
    → is_socket kind ≡ false
    → Post
        (Follows s)
        (λ _ t. Follows s t)
        (add_polled env given kind object events interval_ms callback s)
unfolding add_polled
add_polled-Follows env given kind object events interval_ms callback s sys v k =
    guard_bind (Follows s) _ given _ s _ (Follows-refl s v) (
      Post-bind (Follows s) (λ _ t. Roomy s t) _ (reserve env (next_count s) s) _
        (reserve-Roomy env s sys v)
        λ _ t r.
          Post-bind (Follows s) (λ _ u. Roomy s u) _ (monotonic_ns env t) _
            (monotonic_ns-Roomy env s t r)
            λ now u q.
              Post-bind (Follows s) (λ a w. Roomy s w × NotIn a (addresses w.loop.sources)) _
                (allocate env u) _ (allocate-Roomy env s u sys q)
                λ a w p. append_source-Follows s w _ p.0 p.1 k (ms_to_ns-word _))

-- On a valid loop, with a system as assumed: whether `x_event_loop_add_timer` succeeds or fails, and
-- whatever its arguments, the loop that it leaves is valid and has every source that it had before.
pub add_timer-Follows :
    (env : Env) (given : Bool) (delay_ms interval_ms callback : ℕ) (s : State)
    → IsSystem env
    → IsValid s.loop
    → Post (Follows s) (λ _ t. Follows s t) (add_timer env given delay_ms interval_ms callback s)
unfolding add_timer
add_timer-Follows env given delay_ms interval_ms callback s sys v =
    guard_bind (Follows s) _ given _ s _ (Follows-refl s v) (
      Post-bind (Follows s) (λ _ t. Roomy s t) _ (reserve env (next_count s) s) _
        (reserve-Roomy env s sys v)
        λ _ t r.
          Post-bind (Follows s) (λ _ u. Roomy s u) _ (monotonic_ns env t) _
            (monotonic_ns-Roomy env s t r)
            λ now u q.
              Post-bind (Follows s) (λ a w. Roomy s w × NotIn a (addresses w.loop.sources)) _
                (allocate env u) _ (allocate-Roomy env s u sys q)
                λ a w p. append_source-Follows s w _ p.0 p.1 refl (ms_to_ns-word _))

-- On a valid loop, with a system as assumed: whether `x_event_loop_add_process` succeeds or fails, and
-- whatever its arguments, the loop that it leaves is valid and has every source that it had before.
pub add_process-Follows :
    (env : Env) (given : Bool) (object interval_ms callback : ℕ) (s : State)
    → IsSystem env
    → IsValid s.loop
    → Post (Follows s) (λ _ t. Follows s t) (add_process env given object interval_ms callback s)
unfolding add_process
add_process-Follows env given object interval_ms callback s sys v =
    add_polled-Follows env given process object _ _ callback s sys v refl

-- On a valid loop, with a system as assumed: whether `x_event_loop_add_file_watcher` succeeds or fails, and
-- whatever its arguments, the loop that it leaves is valid and has every source that it had before.
pub add_file_watcher-Follows :
    (env : Env) (given : Bool) (object interval_ms callback : ℕ) (s : State)
    → IsSystem env
    → IsValid s.loop
    → Post
        (Follows s)
        (λ _ t. Follows s t)
        (add_file_watcher env given object interval_ms callback s)
unfolding add_file_watcher
add_file_watcher-Follows env given object interval_ms callback s sys v =
    add_polled-Follows env given file object _ _ callback s sys v refl

-- A socket's entry is made before its source is in the array.
install_socket-Follows :
    (env : Env) (s t : State) (x : Source)
    → IsSystem env
    → Roomy s t
    → NotIn (x.address) (addresses t.loop.sources)
    → is_watched x ≡ true
    → x.interval_ns < word
    → Post (Follows s) (λ _ u. Follows s u) (install_socket env x t)
unfolding append_source expected backend_add_socket install_socket
install_socket-Follows env s t x sys r new w short =
    elim (Bool-cases (env.epoll_add t.calls t.loop.registered x.native_handle == 0)) [
      | inl e ↦
          let absent = sys.refuses _ _ _ ((==_iff _ 0).0 e) in
          rw (e, backend_add_socket)
            (Follows-append s t _ x r.0 r.1 new (rw w refl)
              (rw (w, handles-append t.loop.registered (entry x ∷ []))
                (Distinct-snoc (handles t.loop.registered) (x.native_handle) r.0.valid.exclusive
                  absent))
              short)
      | inr e ↦ rw (e, backend_add_socket) (Roomy-Follows s t _ refl r)
    ]

add_checked_socket-Follows :
    (env : Env) (handle object events callback : ℕ) (s : State)
    → IsSystem env
    → IsValid s.loop
    → Post (Follows s) (λ _ t. Follows s t) (add_checked_socket env handle object events callback s)
unfolding add_checked_socket
add_checked_socket-Follows env handle object events callback s sys v =
    Post-bind (Follows s) (λ _ t. Roomy s t) _ (reserve env (next_count s) s) _
      (reserve-Roomy env s sys v)
      λ _ t r.
        Post-bind (Follows s) (λ a w. Roomy s w × NotIn a (addresses w.loop.sources)) _
          (allocate env t) (λ a. install_socket env (new_socket handle object events callback a))
          (allocate-Roomy env s t sys r)
          λ a w p. install_socket-Follows env s w _ sys p.0 p.1 refl (omega arith)

-- On a valid loop, with a system as assumed: whether `x_event_loop_add_socket` succeeds or fails, and
-- whatever its arguments, the loop that it leaves is valid and has every source that it had before.
pub add_socket-Follows :
    (env : Env) (given : Bool) (handle object events callback : ℕ) (s : State)
    → IsSystem env
    → IsValid s.loop
    → Post (Follows s) (λ _ t. Follows s t) (add_socket env given handle object events callback s)
unfolding add_socket
add_socket-Follows env given handle object events callback s sys v =
    guard_bind (Follows s) _ given _ s _ (Follows-refl s v) (
      guard_bind (Follows s) _ (is_watchable events) _ s
        (λ _. add_checked_socket env handle object events callback) (Follows-refl s v)
        (add_checked_socket-Follows env handle object events callback s sys v))

-- On a valid loop, with a system as assumed: whether `x_event_loop_add_socket`,
-- `x_event_loop_add_timer`, `x_event_loop_add_process` or `x_event_loop_add_file_watcher` succeeds or
-- fails, and whatever its arguments, the loop that it leaves is valid and has every source that it had
-- before.
pub add-Follows :
    (env : Env) (given : Bool) (object a b callback : ℕ) (s : State)
    → IsSystem env
    → IsValid s.loop
    → Post (Follows s) (λ _ t. Follows s t) (add_socket env given object a b callback s)
      × Post (Follows s) (λ _ t. Follows s t) (add_timer env given a b callback s)
      × Post (Follows s) (λ _ t. Follows s t) (add_process env given object a callback s)
      × Post (Follows s) (λ _ t. Follows s t) (add_file_watcher env given object a callback s)
add-Follows env given object a b callback s sys v = (
  add_socket-Follows env given object a b callback s sys v,
  add_timer-Follows env given a b callback s sys v,
  add_process-Follows env given object a callback s sys v,
  add_file_watcher-Follows env given object a callback s sys v,
)

-- ===== src/Event/Dispatch/Callbacks.antt =====
-- The callbacks of src/x_event.c keep the invariant of the loop, and take no source out of the array.
use xlib.Common.{
  ℕ, ◌≡◌, refl, subst, Bool, true, false, some, List, [], ◌∷◌, ◌==◌, if◌then◌else◌, Bool-cases,
  Option-cases, inl, inr,
}
use xlib.Event.{
  Source, Env, State, Result, ok, err, endless, fault, Action, adds_socket, adds_timer,
  adds_process, adds_file_watcher, removes, stops, addresses, source_remove, loop_stop, counted,
  add_socket, add_timer, add_process, add_file_watcher,
}
use xlib.Event.Valid.{NotIn, IsValid, IsSystem}
use xlib.Event.Remove.{source_remove-IsValid}
use xlib.Event.Follows.{Post, Follows, Follows-refl, Follows-trans}
use xlib.Event.Add.{
  add_socket-Follows, add_timer-Follows, add_process-Follows, add_file_watcher-Follows,
}
use xlib.Event.Dispatch.{perform, perform_all, of_status, dispatch}

pub Post-if :
    {A : Type 0} (E : State → Type 0) (Q : A → State → Type 0) (test : Bool)
    (m n : Result A × State)
    → Post E Q m
    → Post E Q n
    → Post E Q (if test then m else n)
Post-if E Q true m n h k = h
Post-if E Q false m n h k = k

Post-state :
    {A : Type 0} (E : State → Type 0) (m : Result A × State) → Post E (λ _ t. E t) m → E m.1
Post-state E (ok a, s) h = h
Post-state E (err e, s) h = h
Post-state E (endless, s) h = h
Post-state E (fault, s) h = elim h [ ]

-- The same sources and entries under other flags.
pub Follows-loop :
    (s t : State)
    → IsValid s.loop
    → t.loop.sources ≡ s.loop.sources
    → t.loop.registered ≡ s.loop.registered
    → t.loop.capacity ≡ s.loop.capacity
    → Follows s t
Follows-loop s t v e f g = record {
  valid = record {
    fits = rw (e, g) v.fits;
    small = rw g v.small;
    distinct = rw e v.distinct;
    registrations = rw (e, f) v.registrations;
    exclusive = rw f v.exclusive;
    words = rw e v.words;
  };
  keeps = λ a h. subst (λ xs. NotIn a (addresses xs)) e h;
}

pub source_remove-Follows :
    (a : ℕ) (s t : State) → source_remove (some a) s ≡ some t → IsValid s.loop → Follows s t
source_remove-Follows a s t e v =
    let (valid, same) = source_remove-IsValid (some a) s t e v in
    record { valid = valid; keeps = λ b h. subst (NotIn b) same h }

perform-Follows :
    (env : Env) (action : Action) (s : State)
    → IsSystem env
    → IsValid s.loop
    → Follows s (perform env action s)
unfolding perform loop_stop
perform-Follows env (adds_socket h e c o) s sys v =
    Post-state (Follows s) (add_socket env true h o e c s)
      (add_socket-Follows env true h o e c s sys v)
perform-Follows env (adds_timer d i c) s sys v =
    Post-state (Follows s) (add_timer env true d i c s) (add_timer-Follows env true d i c s sys v)
perform-Follows env (adds_process o i c) s sys v =
    Post-state (Follows s) (add_process env true o i c s)
      (add_process-Follows env true o i c s sys v)
perform-Follows env (adds_file_watcher o i c) s sys v =
    Post-state (Follows s) (add_file_watcher env true o i c s)
      (add_file_watcher-Follows env true o i c s sys v)
perform-Follows env (removes a) s sys v = elim (Option-cases (source_remove (some a) s)) [
  | inl e ↦ rw (e, perform) (Follows-refl s v)
  | inr (t, e) ↦ rw (e, perform) (source_remove-Follows a s t e v)
]
perform-Follows env stops s sys v = Follows-loop s _ v refl refl refl

perform_all-Follows :
    (env : Env) (actions : List Action) (s : State)
    → IsSystem env
    → IsValid s.loop
    → Follows s (perform_all env actions s)
unfolding perform_all
perform_all-Follows env [] s sys v = Follows-refl s v
perform_all-Follows env (a ∷ actions) s sys v =
    let one = perform-Follows env a s sys v in
    Follows-trans s (perform env a s) _ one
      (perform_all-Follows env actions (perform env a s) sys one.valid)

of_status-Post :
    (status : ℕ) (s t : State)
    → Follows s t
    → Post (Follows s) (λ _ u. Follows s u) (of_status status, t)
of_status-Post status s t f = elim (Bool-cases (status == 0)) [ inl e ↦ rw e f | inr e ↦ rw e f ]

pub from_counted : (s t : State) → Follows (counted s) t → Follows s t
from_counted s t f = record { valid = f.valid; keeps = f.keeps }

pub dispatch-Follows :
    (env : Env) (source : Source) (events : ℕ) (s : State)
    → IsSystem env
    → IsValid s.loop
    → Post (Follows s) (λ _ t. Follows s t) (dispatch env source events s)
unfolding dispatch
dispatch-Follows env source events s sys v =
    Post-if (Follows s) (λ _ t. Follows s t) source.active
      (
        of_status (env.run_callback s.calls s.loop source events).1,
        perform_all env (env.run_callback s.calls s.loop source events).0 (counted s),
      )
      (ok tt, s)
      (of_status-Post _ s _ (
        from_counted s _ (
          perform_all-Follows env (env.run_callback s.calls s.loop source events).0 (counted s) sys
            v)))
      (Follows-refl s v)

-- ===== src/Event/Follows.antt =====
-- What the calls of the event loop of src/x_event.c leave, on every path.
use xlib.Common.{ℕ, ◌≡◌, subst, Bool, true, false}
use xlib.Event.{State, M, Result, ok, err, endless, fault, bind_result, guard, addresses}
use xlib.Event.Valid.{NotIn, IsValid}

-- What holds after a call: `Q` of its value and the state, `E` of the state where it gives none.
-- A fault is excluded.
abbrev pub Post : {A : Type 0} → (State → Type 0) → (A → State → Type 0) → Result A × State → Type 0
Post E Q (ok a, s) = Q a s
Post E Q (err e, s) = E s
Post E Q (endless, s) = E s
Post E Q (fault, s) = ⊥

pub Post-bind :
    {A B : Type 0} (E : State → Type 0) (Q : A → State → Type 0) (R : B → State → Type 0)
    (m : Result A × State) (f : A → M B)
    → Post E Q m
    → ((a : A) (s : State) → Q a s → Post E R (f a s))
    → Post E R (bind_result m f)
Post-bind E Q R (ok a, s) f h k = k a s h
Post-bind E Q R (err e, s) f h k = h
Post-bind E Q R (endless, s) f h k = h
Post-bind E Q R (fault, s) f h k = h

pub Post-map :
    {A : Type 0} (E F : State → Type 0) (Q R : A → State → Type 0) (m : Result A × State)
    → Post E Q m
    → ((s : State) → E s → F s)
    → ((a : A) (s : State) → Q a s → R a s)
    → Post F R m
Post-map E F Q R (ok a, s) h e q = q a s h
Post-map E F Q R (err n, s) h e q = e s h
Post-map E F Q R (endless, s) h e q = e s h
Post-map E F Q R (fault, s) h e q = h

-- A state that follows another: the invariant holds, and no address has left the array.
pub record Follows (s t : State) : Type 0 where
  pub valid : IsValid t.loop
  pub keeps : (a : ℕ) → NotIn a (addresses t.loop.sources) → NotIn a (addresses s.loop.sources)

pub Follows-refl : (s : State) → IsValid s.loop → Follows s s
Follows-refl s v = record { valid = v; keeps = λ a h. h }

pub Follows-trans : (s t u : State) → Follows s t → Follows t u → Follows s u
Follows-trans s t u f g = record { valid = g.valid; keeps = λ a h. f.keeps a (g.keeps a h) }

-- A state with the same sources.
pub record Same (s t : State) : Type 0 where
  pub valid : IsValid t.loop
  pub same : t.loop.sources ≡ s.loop.sources

pub Same-Follows : (s t : State) → Same s t → Follows s t
Same-Follows s t m = record {
  valid = m.valid;
  keeps = λ a h. subst (λ xs. NotIn a (addresses xs)) m.same h;
}

pub guard_bind :
    {B : Type 0} (E : State → Type 0) (R : B → State → Type 0) (test : Bool) (status : ℕ)
    (s : State) (f : Unit {0} → M B)
    → E s
    → Post E R (f tt s)
    → Post E R (bind_result (guard test status s) f)
guard_bind E R true status s f e h = h
guard_bind E R false status s f e h = e

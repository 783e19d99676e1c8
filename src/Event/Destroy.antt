-- ===== src/Event/Destroy.antt =====
-- `x_event_loop_destroy` of src/x_event.c in its epoll build: the entries of the epoll instance, and
-- what it gives back.
use xlib.Common.{
  ℕ, ◌≡◌, refl, sym, subst, ap, ◌∙◌, Bool, true, append_assoc, List, [], ◌∷◌, ◌++◌, inl, inr,
  if◌then◌else◌, arith, Bool-cases,
}
use xlib.Ledger.{Resource, ◌>>=◌, ◌>>◌, pure, release}
use xlib.Ledger as Ledger
use xlib.Ledger.Triple.{
  Balanced, Frees, Triple, Triple-bind, Triple-release, Triple-release_two, Triple-pure,
  Triple-give,
}
use xlib.Event.{Source, State, addresses, backend_remove_socket, without_handle}
use xlib.Event.Valid.{Distinct, NotIn, IsValid, is_watched, expected, handles, without_handle-NotIn}
use xlib.Event.Create.{NewLoop, loop_create, loop_create-Balanced}

-- The loop over the sources: what is freed, in order, and the state behind it.
pub destroy_sources : List Source → State → List ℕ × State
destroy_sources [] s = ([], s)
destroy_sources (x ∷ xs) s =
    let rest = destroy_sources xs (if is_watched x then backend_remove_socket x s else s) in
    (x.address ∷ rest.0, rest.1)

remove-registered :
    (x : Source) (xs : List Source) (s : State)
    → is_watched x ≡ true
    → s.loop.registered ≡ expected (x ∷ xs)
    → Distinct (handles s.loop.registered)
    → ((backend_remove_socket x s).loop.registered ≡ expected xs) × Distinct (handles (expected xs))
unfolding expected backend_remove_socket without_handle
remove-registered x xs s w r d = (
  ap (without_handle x.native_handle) whole
      ∙ ground (arith, without_handle-NotIn x.native_handle (expected xs) apart.0),
  apart.1,
)
  where
    whole : s.loop.registered ≡ record { handle = x.native_handle; owner = x.address } ∷ expected xs
    whole = ground arith

    apart : NotIn x.native_handle (handles (expected xs)) × Distinct (handles (expected xs))
    apart = subst (λ rs. Distinct (handles rs)) whole d

destroys :
    (xs : List Source) (s : State)
    → s.loop.registered ≡ expected xs
    → Distinct (handles s.loop.registered)
    → ((destroy_sources xs s).0 ≡ addresses xs) × ((destroy_sources xs s).1.loop.registered ≡ [])
unfolding destroy_sources expected
destroys [] s r d = (refl, r)
destroys (x ∷ xs) s r d = elim (Bool-cases (is_watched x)) [
  | inl w ↦
      let left = remove-registered x xs s w r d in
      let rest =
        destroys xs (backend_remove_socket x s) left.0
          (subst (λ rs. Distinct (handles rs)) (sym left.0) left.1) in
      rw w (ap (◌∷◌ x.address) rest.0, rest.1)
  | inr w ↦ let rest = destroys xs s (ground arith) d in rw w (ap (◌∷◌ x.address) rest.0, rest.1)
]

-- `free` of each source.
free_sources : List Resource → Ledger.M (Unit {0})
free_sources [] = pure tt
free_sources (x ∷ xs) = release x >> free_sources xs

-- The sources of a loop, that of its wake-up included, and its parts.
pub loop_destroy : List Resource → NewLoop → Ledger.M (Unit {0})
unfolding free_sources
loop_destroy sources loop = do
  free_sources sources
  release (loop.backend)
  release (loop.sender)
  release (loop.receiver)
  release (loop.sources)
  release (loop.created)

free_sources-Triple :
    (xs base errs : List Resource) → Triple (xs ++ base) errs (λ _. base) (free_sources xs)
unfolding free_sources
free_sources-Triple [] base errs = Triple-pure
free_sources-Triple (x ∷ xs) base errs =
    Triple-bind Triple-release λ _. free_sources-Triple xs base errs

-- What a loop holds: its sources, that of its wake-up included, and its parts.
abbrev pub loop_holdings : List Resource → NewLoop → List Resource
loop_holdings sources l =
    sources ++ (l.sources ∷ l.sender ∷ l.receiver ∷ l.backend ∷ l.created ∷ [])

-- Whatever the system answers, `x_event_loop_create` gives back nothing twice; when it fails it leaks
-- nothing, and when it succeeds it holds exactly what `x_event_loop_destroy` gives back of a loop with
-- its wake-up source. `x_event_loop_destroy` of a valid loop frees each source of the array once, in
-- order, and takes the entry of each active socket out of the epoll instance before, so that none is left
-- when that is closed; it gives back exactly the sources, the array, the two sockets, the epoll instance
-- and the loop.
pub loop-Balanced :
    (given : Bool) (s : State) (sources : List Resource) (l : NewLoop)
    → IsValid s.loop
    → Balanced (λ m. loop_holdings (m.wake_source ∷ []) m) (loop_create given)
      × ((((destroy_sources s.loop.sources s).0 ≡ addresses s.loop.sources)
            × ((destroy_sources s.loop.sources s).1.loop.registered ≡ []))
          × (Distinct (destroy_sources s.loop.sources s).0
              × Frees (loop_holdings sources l) (loop_destroy sources l)))
unfolding loop_destroy
loop-Balanced given s sources l v =
    let d = destroys s.loop.sources s v.registrations v.exclusive in
    (
      loop_create-Balanced given,
      (
        d,
        (
          subst Distinct (sym d.0) v.distinct,
          λ base errs.
              rw
                (append_assoc sources
                  (l.sources ∷ l.sender ∷ l.receiver ∷ l.backend ∷ l.created ∷ []) base)
                (freed base errs),
        ),
      ),
    )
  where
    freed :
        (base errs : List Resource)
        → Triple
            (sources ++ (l.sources ∷ l.sender ∷ l.receiver ∷ l.backend ∷ l.created ∷ base))
            errs
            (λ _. base)
            (loop_destroy sources l)
    freed base errs = Triple-bind (free_sources-Triple sources _ errs) λ _.
        Triple-bind
          (Triple-give {rest = l.sources ∷ l.sender ∷ l.receiver ∷ l.created ∷ base}
            (record { counts = λ x. omega arith }))
          λ _.
            Triple-bind
              (Triple-give {rest = l.sources ∷ l.receiver ∷ l.created ∷ base}
                (record { counts = λ x. omega arith }))
              λ _.
                Triple-bind
                  (Triple-give {rest = l.sources ∷ l.created ∷ base}
                    (record { counts = λ x. omega arith }))
                  λ _. Triple-release_two

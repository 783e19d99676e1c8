-- ===== src/Event/Create.antt =====
-- `x_event_loop_create` of src/x_event.c in its epoll build: what it takes and gives back.
use xlib.Common.{Bool, List, [], ◌∷◌, ◌++◌, einval, arith}
use xlib.Ledger.{
  Resource, M, descriptor, socket_handle, ◌>>=◌, ◌>>◌, guard, call, acquire, allocate, release,
  ◌or_after◌, pure,
}
use xlib.Ledger.Triple.{
  Balanced, Triple, Triple-bind, Triple-or_after, Triple-allocate, Triple-call, Triple-guard,
  Triple-release, Triple-release_two, Triple-release_three, Triple-release_four, Triple-pure,
  Triple-acquire, Triple-give,
}

-- The parts of a new `struct x_event_loop`, with its own memory.
pub record NewLoop : Type 0 where
  pub created : Resource
  pub backend : Resource
  pub receiver : Resource
  pub sender : Resource
  pub sources : Resource
  pub wake_source : Resource

-- The cleanup of `x_event_loop_create`, when the array of sources is there.
close_all : Resource → Resource → Resource → Resource → Resource → M (Unit {0})
close_all created backend receiver sender sources = do
  release sender
  release receiver
  release backend
  release sources
  release created

-- The calls between the two sockets and the source: the address, `bind`, the local address and the
-- non-blocking mode.
bind_receiver : M (Unit {0})
bind_receiver = do call; call; call; call

-- `x_event_loop_add_socket` for the receiver: the array, the source, and the entry of the backend.
add_wake_source : Resource → Resource → Resource → Resource → M NewLoop
unfolding close_all
add_wake_source created backend receiver sender = do
  sources ←
      allocate or_after (do release sender; release receiver; release backend; release created)
  wake_source ← allocate or_after close_all created backend receiver sender sources
  call or_after (do release wake_source; close_all created backend receiver sender sources)
  pure (record {
    created = created;
    backend = backend;
    receiver = receiver;
    sender = sender;
    sources = sources;
    wake_source = wake_source;
  })

-- `x_event_loop_create`; `given` says that the pointer argument is not NULL.
pub loop_create : Bool → M NewLoop
unfolding bind_receiver add_wake_source
loop_create given = do
  guard given einval
  created ← allocate
  backend ← acquire descriptor or_after release created
  receiver ← acquire socket_handle or_after (do release backend; release created)
  sender ← acquire socket_handle or_after (do release receiver; release backend; release created)
  bind_receiver or_after (do release sender; release receiver; release backend; release created)
  add_wake_source created backend receiver sender

-- What a new loop holds.
abbrev pub holdings : NewLoop → List Resource
holdings l = l.wake_source ∷ l.sources ∷ l.sender ∷ l.receiver ∷ l.backend ∷ l.created ∷ []

Triple-close_all :
    (created backend receiver sender sources : Resource) (base errs : List Resource)
    → Triple
        (sources ∷ sender ∷ receiver ∷ backend ∷ created ∷ base)
        errs
        (λ _. base)
        (close_all created backend receiver sender sources)
unfolding close_all
Triple-close_all created backend receiver sender sources base errs =
    Triple-bind
      (Triple-give {rest = sources ∷ receiver ∷ backend ∷ created ∷ base}
        (record { counts = λ x. omega arith }))
      λ _.
        Triple-bind
          (Triple-give {rest = sources ∷ backend ∷ created ∷ base}
            (record { counts = λ x. omega arith }))
          λ _.
            Triple-bind
              (Triple-give {rest = sources ∷ created ∷ base} (record { counts = λ x. omega arith }))
              λ _. Triple-release_two

add_wake_source-Triple :
    (created backend receiver sender : Resource) (base : List Resource)
    → Triple
        (sender ∷ receiver ∷ backend ∷ created ∷ base)
        base
        (λ l. holdings l ++ base)
        (add_wake_source created backend receiver sender)
unfolding add_wake_source
add_wake_source-Triple created backend receiver sender base =
    Triple-bind (Triple-or_after Triple-allocate Triple-release_four) λ sources.
      Triple-bind
        (Triple-or_after Triple-allocate
          (Triple-close_all created backend receiver sender sources base _))
        λ wake_source.
          Triple-bind
            (Triple-or_after Triple-call (
              Triple-bind Triple-release
                λ _. Triple-close_all created backend receiver sender sources base _))
            λ _. Triple-pure

-- Whatever the system answers, `x_event_loop_create` gives back nothing twice; when it fails it
-- holds nothing that it did not hold before, and when it succeeds it holds besides exactly the
-- loop's memory, its epoll instance, its two sockets, its array and its wake-up source.
pub loop_create-Balanced : (given : Bool) → Balanced holdings (loop_create given)
unfolding loop_create bind_receiver
loop_create-Balanced given base = Triple-bind (Triple-guard given einval) λ _.
    Triple-bind Triple-allocate λ created.
      Triple-bind (Triple-or_after (Triple-acquire descriptor) Triple-release) λ backend.
        Triple-bind (Triple-or_after (Triple-acquire socket_handle) Triple-release_two) λ receiver.
          Triple-bind (Triple-or_after (Triple-acquire socket_handle) Triple-release_three)
            λ sender.
              Triple-bind
                (Triple-or_after
                  (Triple-bind Triple-call
                    λ _. Triple-bind Triple-call λ _. Triple-bind Triple-call λ _. Triple-call)
                  Triple-release_four)
                λ _. add_wake_source-Triple created backend receiver sender base

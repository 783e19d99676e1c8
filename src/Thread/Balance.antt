-- ===== src/Thread/Balance.antt =====
-- The calls of src/x_thread.c keep account of what they hold.
use xlib.Common.{Bool, true, false, List, [], ◌∷◌, ◌++◌, einval, arith}
use xlib.FilePath.{Platform, posix, windows}
use xlib.Ledger.{
  Resource, Kind, pure, thread_handle, mutex_attributes, mutex_handle, condition_handle, tls_handle,
}
use xlib.Ledger.Triple.{
  Balanced, Frees, Triple, Triple-bind, Triple-or_after, Triple-acquire, Triple-allocate,
  Triple-call, Triple-guard, Triple-release, Triple-release_two, Triple-release_three, Triple-pure,
  Triple-translated, Triple-give,
}
use xlib.Thread.{
  Thread, start, thread_create, wait_for, thread_join, thread_destroy, destroy_posix, Handled,
  set_recursive, mutex_create_with_type, handled_create, condition_create, tls_key_create,
  handled_destroy, Semaphore, semaphore_create, semaphore_destroy,
}

-- What a thread holds: in the POSIX build its handle goes when it is joined.
abbrev pub parts : Platform → Bool → Resource → Resource → List Resource
parts posix true handle created = created ∷ []
parts posix false handle created = handle ∷ created ∷ []
parts windows joined handle created = handle ∷ created ∷ []

abbrev pub holdings : Platform → Thread → List Resource
holdings platform t = parts platform t.joined t.handle t.created

Triple-start :
    {pre : List Resource} (platform : Platform) → Triple pre pre (λ r. r ∷ pre) (start platform)
unfolding start
Triple-start posix = Triple-acquire thread_handle
Triple-start windows = Triple-translated _ (Triple-acquire thread_handle)

started :
    (platform : Platform) (created handle : Resource) (base : List Resource)
    → Triple
        (handle ∷ created ∷ base)
        base
        (λ t. holdings platform t ++ base)
        (pure {A = Thread} (record { created = created; handle = handle; joined = false }))
started posix created handle base = Triple-pure
started windows created handle base = Triple-pure

-- In either build, whatever the system answers, `x_thread_create` gives back nothing twice; when it
-- fails it holds nothing that it did not hold before, and when it succeeds it holds besides
-- exactly the memory and the handle of the new thread, which is not joined.
pub thread_create-Balanced :
    (platform : Platform) (given : Bool)
    → Balanced (holdings platform) (thread_create platform given)
unfolding thread_create
thread_create-Balanced platform given base = Triple-bind (Triple-guard given einval) λ _.
    Triple-bind Triple-allocate λ created.
      Triple-bind (Triple-or_after (Triple-start platform) Triple-release)
        λ handle. started platform created handle base

destroy_posix-Frees :
    (joined : Bool) (h c : Resource) → Frees (parts posix joined h c) (destroy_posix joined h c)
unfolding destroy_posix
destroy_posix-Frees true h c base errs = Triple-release
destroy_posix-Frees false h c base errs = Triple-release_two

-- In either build `x_thread_destroy` gives back exactly what a thread holds, joined or not, and reports
-- no error.
pub thread_destroy-Frees :
    (platform : Platform) (t : Thread) → Frees (holdings platform t) (thread_destroy platform t)
unfolding thread_destroy
thread_destroy-Frees posix t base errs = destroy_posix-Frees t.joined t.handle t.created base errs
thread_destroy-Frees windows t base errs = Triple-release_two

join-Triple :
    (platform : Platform) (joined : Bool) (h c : Resource) (base : List Resource)
    → let t : Thread = record { created = c; handle = h; joined = joined } in
      Triple
        (holdings platform t ++ base)
        (holdings platform t ++ base)
        (λ u. holdings platform u ++ base)
        (thread_join platform t)
unfolding thread_join wait_for
join-Triple posix true h c base = record { run = λ o w e. e }
join-Triple windows true h c base = record { run = λ o w e. e }
join-Triple posix false h c base = Triple-bind (Triple-guard true einval) λ _.
    Triple-bind (Triple-bind Triple-call λ _. Triple-release)
      λ _. Triple-pure {a = record { created = c; handle = h; joined = true }}
join-Triple windows false h c base = Triple-bind (Triple-guard true einval) λ _.
    Triple-bind (Triple-translated (λ _. einval) Triple-call)
      λ _. Triple-pure {a = record { created = c; handle = h; joined = true }}

-- In either build, started with what the thread holds, `x_thread_join` leaves it as it was when it
-- fails, as it does for a thread that is joined already; when it succeeds what is held is what the
-- joined thread holds.
pub thread_join-Triple :
    (platform : Platform) (t : Thread) (base : List Resource)
    → Triple
        (holdings platform t ++ base)
        (holdings platform t ++ base)
        (λ u. holdings platform u ++ base)
        (thread_join platform t)
thread_join-Triple platform t = join-Triple platform t.joined t.handle t.created

-- What a mutex, a condition or a key holds.
abbrev pub handled_parts : Handled → List Resource
handled_parts x = x.handle ∷ x.created ∷ []

handled_create-Balanced :
    (kind : Kind) (given : Bool) → Balanced handled_parts (handled_create kind given)
unfolding handled_create
handled_create-Balanced kind given base = Triple-bind (Triple-guard given einval) λ _.
    Triple-bind Triple-allocate
      λ created. Triple-bind (Triple-or_after (Triple-acquire kind) Triple-release) λ _. Triple-pure

Triple-set_recursive :
    (recursive : Bool) (attributes created : Resource) (base : List Resource)
    → Triple
        (attributes ∷ created ∷ base)
        base
        (λ _. attributes ∷ created ∷ base)
        (set_recursive recursive attributes created)
unfolding set_recursive
Triple-set_recursive true attributes created base = Triple-or_after Triple-call Triple-release_two
Triple-set_recursive false attributes created base = Triple-pure

mutex_create-Balanced :
    (given recursive : Bool) → Balanced handled_parts (mutex_create_with_type given recursive)
unfolding mutex_create_with_type
mutex_create-Balanced given recursive base = Triple-bind (Triple-guard given einval) λ _.
    Triple-bind Triple-allocate λ created.
      Triple-bind (Triple-or_after (Triple-acquire mutex_attributes) Triple-release) λ attributes.
        Triple-bind (Triple-set_recursive recursive attributes created base) λ _.
          Triple-bind (Triple-or_after (Triple-acquire mutex_handle) Triple-release_two) λ handle.
            Triple-bind (Triple-give (record { counts = λ x. omega arith })) λ _. Triple-pure

-- In the POSIX build, whatever the system answers: `x_mutex_create_with_type` with and without
-- recursion, `x_condition_create` and `x_tls_key_create` give back nothing twice; when they fail
-- they hold nothing that they did not hold before, the attributes of a mutex included, and when they succeed they hold besides exactly
-- what the matching destroy function gives back without an error.
pub handled-Balanced :
    (given recursive : Bool)
    → Balanced handled_parts (mutex_create_with_type given recursive)
      × Balanced handled_parts (condition_create given)
      × Balanced handled_parts (tls_key_create given)
      × ((x : Handled) → Frees (handled_parts x) (handled_destroy x))
unfolding condition_create tls_key_create handled_destroy
handled-Balanced given recursive = (
  mutex_create-Balanced given recursive,
  handled_create-Balanced condition_handle given,
  handled_create-Balanced tls_handle given,
  λ x base errs. Triple-release_two,
)

-- What a semaphore holds.
abbrev pub semaphore_parts : Semaphore → List Resource
semaphore_parts s = s.condition ∷ s.mutex ∷ s.created ∷ []

-- In the POSIX build, whatever the system answers: `x_semaphore_create` gives back nothing twice; when
-- it fails it holds nothing that it did not hold before, and when it succeeds it holds besides
-- exactly what `x_semaphore_destroy` gives back without an error.
pub semaphore_create-Balanced :
    (given : Bool)
    → Balanced semaphore_parts (semaphore_create given)
      × ((s : Semaphore) → Frees (semaphore_parts s) (semaphore_destroy s))
unfolding semaphore_create semaphore_destroy
semaphore_create-Balanced given = (
  λ base. Triple-bind (Triple-guard given einval) λ _. Triple-bind Triple-allocate λ _.
      Triple-bind (Triple-or_after (Triple-acquire mutex_handle) Triple-release) λ _.
        Triple-bind (Triple-or_after (Triple-acquire condition_handle) Triple-release_two)
          λ _. Triple-pure,
  λ s base errs. Triple-release_three,
)

-- Threads.
pub thread-Balanced :
    (platform : Platform) (given : Bool)
    → Balanced (holdings platform) (thread_create platform given)
      × ((t : Thread) → Frees (holdings platform t) (thread_destroy platform t))
      × ((t : Thread) (base : List Resource)
          → Triple
              (holdings platform t ++ base)
              (holdings platform t ++ base)
              (λ u. holdings platform u ++ base)
              (thread_join platform t))
thread-Balanced platform given = (
  thread_create-Balanced platform given,
  thread_destroy-Frees platform,
  thread_join-Triple platform,
)

-- Locks and keys, in the POSIX build.
locks-Balanced :
    (given recursive : Bool)
    → Balanced handled_parts (mutex_create_with_type given recursive)
      × Balanced handled_parts (condition_create given)
      × Balanced handled_parts (tls_key_create given)
      × ((x : Handled) → Frees (handled_parts x) (handled_destroy x))
      × Balanced semaphore_parts (semaphore_create given)
      × ((s : Semaphore) → Frees (semaphore_parts s) (semaphore_destroy s))
locks-Balanced given recursive =
    let handled = handled-Balanced given recursive in
    let semaphore = semaphore_create-Balanced given in
    (handled.0, handled.1, handled.2, handled.3, semaphore.0, semaphore.1)

-- In either build, whatever the system answers: `x_thread_create` gives back nothing twice; when it
-- fails it leaks nothing, and when it succeeds it holds exactly the memory and the handle of the new
-- thread; `x_thread_join` leaves what a thread holds when it fails, as it does for a thread that is joined
-- already, and what the joined thread holds when it succeeds; `x_thread_destroy` gives back exactly what a
-- thread holds, joined or not. In the POSIX build the same holds of the creation of mutexes, recursive or
-- not, conditions, keys and semaphores, and of the matching destroy functions.
pub threads-Balanced :
    (platform : Platform) (given recursive : Bool)
    → (Balanced (holdings platform) (thread_create platform given)
        × ((t : Thread) → Frees (holdings platform t) (thread_destroy platform t))
        × ((t : Thread) (base : List Resource)
            → Triple
                (holdings platform t ++ base)
                (holdings platform t ++ base)
                (λ u. holdings platform u ++ base)
                (thread_join platform t)))
      × (Balanced handled_parts (mutex_create_with_type given recursive)
          × Balanced handled_parts (condition_create given)
          × Balanced handled_parts (tls_key_create given)
          × ((x : Handled) → Frees (handled_parts x) (handled_destroy x))
          × Balanced semaphore_parts (semaphore_create given)
          × ((s : Semaphore) → Frees (semaphore_parts s) (semaphore_destroy s)))
threads-Balanced platform given recursive =
    (thread-Balanced platform given, locks-Balanced given recursive)

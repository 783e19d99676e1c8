-- ===== src/Thread.antt =====
-- Threads, locks and thread-local keys of src/x_thread.c: what they take and give back. Threads in
-- both builds, the others in the POSIX build.
pub mod Balance
mod Tests
use xlib.Common.{
  ℕ, ◌≡◌, refl, Bool, true, false, not, ◌&&◌, List, [], ◌∷◌, ◌==◌, if◌then◌else◌, enomem, einval,
  eagain,
}
use xlib.FilePath.{Platform, posix, windows}
use xlib.Ledger.{
  Resource, M, Kind, thread_handle, mutex_attributes, mutex_handle, condition_handle, tls_handle,
  ◌>>=◌, ◌>>◌, guard, call, acquire, allocate, release, ◌or_after◌, translated, pure,
}

-- `x_thread_error_from_windows`.
pub error_from_windows : ℕ → ℕ
error_from_windows error =
    if error == 8
    then enomem
    else if error == 14
    then enomem
    else if error == 87
    then einval
    else eagain

-- `struct x_thread`, with its own memory.
pub record Thread : Type 0 where
  pub created : Resource
  pub handle : Resource
  pub joined : Bool

start : Platform → M Resource
start posix = acquire thread_handle
start windows = translated error_from_windows (acquire thread_handle)

-- `x_thread_create`; `given` says that neither pointer is NULL.
pub thread_create : Platform → Bool → M Thread
unfolding start
thread_create platform given = do
  guard given einval
  created ← allocate
  handle ← start platform or_after release created
  pure (record { created = created; handle = handle; joined = false })

-- `pthread_join` takes the thread's handle; on Windows the handle stays open.
wait_for : Platform → Thread → M (Unit {0})
wait_for posix thread = do call; release thread.handle
wait_for windows thread = translated (λ _. einval) call

-- `x_thread_join` of a thread that is not NULL: the thread that it leaves.
pub thread_join : Platform → Thread → M Thread
unfolding wait_for
thread_join platform thread = do
  guard (not thread.joined) einval
  wait_for platform thread
  pure (record thread { joined = true })

destroy_posix : Bool → Resource → Resource → M (Unit {0})
destroy_posix true handle created = release created
destroy_posix false handle created = do release handle; release created

-- `x_thread_destroy` of a thread that is not NULL.
pub thread_destroy : Platform → Thread → M (Unit {0})
unfolding destroy_posix
thread_destroy posix thread = destroy_posix thread.joined thread.handle thread.created
thread_destroy windows thread = do release thread.handle; release thread.created

-- An object that owns its memory and one handle: `struct x_mutex`, `x_condition` and `x_tls_key`.
pub record Handled : Type 0 where
  pub created : Resource
  pub handle : Resource

set_recursive : Bool → Resource → Resource → M (Unit {0})
set_recursive true attributes created = call or_after (do release attributes; release created)
set_recursive false attributes created = pure tt

-- `x_mutex_create_with_type`: the attributes are destroyed whether the mutex could be made or not.
pub mutex_create_with_type : Bool → Bool → M Handled
unfolding set_recursive
mutex_create_with_type given recursive = do
  guard given einval
  created ← allocate
  attributes ← acquire mutex_attributes or_after release created
  set_recursive recursive attributes created
  handle ← acquire mutex_handle or_after (do release attributes; release created)
  release attributes
  pure (record { created = created; handle = handle })

-- `x_condition_create` and `x_tls_key_create`.
handled_create : Kind → Bool → M Handled
handled_create kind given = do
  guard given einval
  created ← allocate
  handle ← acquire kind or_after release created
  pure (record { created = created; handle = handle })

-- `x_condition_create`.
pub condition_create : Bool → M Handled
unfolding handled_create
condition_create given = handled_create condition_handle given

-- `x_tls_key_create`.
pub tls_key_create : Bool → M Handled
unfolding handled_create
tls_key_create given = handled_create tls_handle given

-- `x_mutex_destroy`, `x_condition_destroy` and `x_tls_key_destroy` of an object that is not NULL.
pub handled_destroy : Handled → M (Unit {0})
handled_destroy object = do release object.handle; release object.created

-- `struct x_semaphore`, less its count.
pub record Semaphore : Type 0 where
  pub created : Resource
  pub mutex : Resource
  pub condition : Resource

-- `x_semaphore_create`.
pub semaphore_create : Bool → M Semaphore
semaphore_create given = do
  guard given einval
  created ← allocate
  mutex ← acquire mutex_handle or_after release created
  condition ← acquire condition_handle or_after (do release mutex; release created)
  pure (record { created = created; mutex = mutex; condition = condition })

-- `x_semaphore_destroy` of a semaphore that is not NULL.
pub semaphore_destroy : Semaphore → M (Unit {0})
semaphore_destroy semaphore = do
  release semaphore.condition
  release semaphore.mutex
  release semaphore.created

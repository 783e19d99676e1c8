-- ===== src/Event/Cancel.antt =====
-- `x_event_loop_cancel`, `x_event_loop_stop` and `x_event_loop_wake` of src/x_event.c, called by other
-- threads while `x_event_loop_run` runs: moves of the loop's thread and of the others, in any order.
mod Tests
use xlib.Common.{
  ℕ, zero, suc, ◌+◌, ◌-◌, ◌≤◌, ◌<◌, ◌≡◌, ◌≢◌, refl, subst, ◌⊎◌, inl, inr, Bool, true, false, not,
  Option, none, some, ◌==◌, ltb, if◌then◌else◌, eagain, einval, arith,
}

-- Where the thread of `x_event_loop_run` is: before it clears `stop_requested`, at the test of its loop,
-- dispatching before it waits, in the call that waits, in `x_event_loop_wake_callback`, dispatching
-- behind the wait, or behind the loop.
pub data Phase : Type 0 where
  starting testing dispatching waiting draining settling done : Phase

-- What the threads share: `stop_requested`, the datagrams at the receiver, and the callers that have set
-- `stop_requested` but not sent yet. `failed` counts the sends that failed behind that.
pub record Shared : Type 0 where
  pub stop_requested : Bool
  pub queue : ℕ
  pub unsent : ℕ
  pub failed : ℕ

-- What `x_event_loop_wake_callback` makes of an answer of `x_socket_receive_from`: the status that it
-- returns, or none where it asks again.
pub on_received : ℕ → ℕ → Option ℕ
on_received status received =
    if status == eagain
    then some 0
    else if not (status == 0)
    then some status
    else if received == 0
    then some 0
    else none

-- `x_event_loop_wake_callback`, whose n-th call of `x_socket_receive_from` gives `answers n`.
pub wake_callback : ℕ → (ℕ → ℕ × ℕ) → ℕ → Option ℕ
wake_callback zero answers n = none
wake_callback (suc fuel) answers n =
    let again = wake_callback fuel answers (n + 1) in
    let (status, received) = answers n in
    elim (on_received status received) [ none ↦ again | some result ↦ some result ]

-- Where the callback's answer leads: to the next call, to the timers, or out of the loop with an error.
abbrev pub phase_after : Option ℕ → Phase
phase_after none = draining
phase_after (some zero) = settling
phase_after (some (suc e)) = done

-- A move of the loop's thread.
pub data LoopMove : Shared → Phase → Shared → Phase → Type 0 where
  clears : {m : Shared} → LoopMove m starting (record m { stop_requested = false }) testing
  leaves : {m : Shared} → m.stop_requested ≡ true → LoopMove m testing m done
  -- No active source of the user's is left.
  rests : {m : Shared} → LoopMove m testing m done
  enters : {m : Shared} → m.stop_requested ≡ false → LoopMove m testing m dispatching
  -- An error, a request to stop that is seen, or no source left.
  breaks : {m : Shared} → LoopMove m dispatching m done
  waits : {m : Shared} → LoopMove m dispatching m waiting
  -- A datagram, or a request on another socket, or the end of the time.
  wakes : {m : Shared} → 0 < m.queue → LoopMove m waiting m draining
  times_out : {m : Shared} → LoopMove m waiting m settling
  fails : {m : Shared} → LoopMove m waiting m done
  -- An answer of `x_socket_receive_from`: a datagram, that there is none, or another error.
  receives :
      {m : Shared} {q : Phase} (n received : ℕ)
      → m.queue ≡ n + 1
      → q ≡ phase_after (on_received 0 received)
      → LoopMove m draining (record m { queue = n }) q
  receives_none :
      {m : Shared} {q : Phase} (received : ℕ)
      → m.queue ≡ 0
      → q ≡ phase_after (on_received eagain received)
      → LoopMove m draining m q
  receive_fails :
      {m : Shared} {q : Phase} (e received : ℕ)
      → e ≢ 0
      → e ≢ eagain
      → q ≡ phase_after (on_received e received)
      → LoopMove m draining m q
  settles : {m : Shared} → LoopMove m settling m testing
  -- An error of the timers behind the wait.
  settling_fails : {m : Shared} → LoopMove m settling m done

-- A move of another thread.
pub data OtherMove : Shared → Shared → Type 0 where
  requests : {m : Shared} → OtherMove m (record m { stop_requested = true; unsent = m.unsent + 1 })
  sends :
      {m : Shared} (n : ℕ)
      → m.unsent ≡ n + 1
      → OtherMove m (record m { unsent = n; queue = m.queue + 1 })
  cannot_send :
      {m : Shared} (n : ℕ)
      → m.unsent ≡ n + 1
      → OtherMove m (record m { unsent = n; failed = m.failed + 1 })
  -- `x_event_loop_wake`.
  wakes_only : {m : Shared} → OtherMove m (record m { queue = m.queue + 1 })

-- The states that the threads reach from a loop before `x_event_loop_run`, on which nothing is under way.
pub data Reach : Shared → Phase → Type 0 where
  start : (m : Shared) → m.unsent ≡ 0 → m.failed ≡ 0 → Reach m starting
  loop_moves : {m n : Shared} {p q : Phase} → Reach m p → LoopMove m p n q → Reach n q
  other_moves : {m n : Shared} {p : Phase} → Reach m p → OtherMove m n → Reach n p

-- Behind the test of the loop, a request to stop has left something that ends the wait.
Heard : Shared → Phase → Type 0
Heard m dispatching = m.stop_requested ≡ true → 0 < m.queue + m.unsent + m.failed
Heard m waiting = m.stop_requested ≡ true → 0 < m.queue + m.unsent + m.failed
Heard m p = Unit

-- Nothing is asked of a phase that the callback leads to.
after-Heard : (m : Shared) (q : Phase) (answer : Option ℕ) → q ≡ phase_after answer → Heard m q
unfolding Heard
after-Heard m q none e = rw e tt
after-Heard m q (some zero) e = rw e tt
after-Heard m q (some (suc k)) e = rw e tt

LoopMove-Heard : {m n : Shared} {p q : Phase} → LoopMove m p n q → Heard m p → Heard n q
unfolding Heard
LoopMove-Heard clears h = tt
LoopMove-Heard (leaves e) h = tt
LoopMove-Heard rests h = tt
LoopMove-Heard (enters e) h = λ s. ground (arith, e, s)
LoopMove-Heard breaks h = tt
LoopMove-Heard waits h = h
LoopMove-Heard (wakes e) h = tt
LoopMove-Heard times_out h = tt
LoopMove-Heard fails h = tt
LoopMove-Heard (receives n k a e) h = after-Heard _ _ _ e
LoopMove-Heard (receives_none k a e) h = after-Heard _ _ _ e
LoopMove-Heard (receive_fails k r a b e) h = after-Heard _ _ _ e
LoopMove-Heard settles h = tt
LoopMove-Heard settling_fails h = tt

OtherMove-Heard : {m n : Shared} (p : Phase) → OtherMove m n → Heard m p → Heard n p
unfolding Heard
OtherMove-Heard dispatching requests h = λ s. omega arith
OtherMove-Heard dispatching (sends n e) h = λ s. omega arith
OtherMove-Heard dispatching (cannot_send n e) h = λ s. omega arith
OtherMove-Heard dispatching wakes_only h = λ s. omega arith
OtherMove-Heard waiting requests h = λ s. omega arith
OtherMove-Heard waiting (sends n e) h = λ s. omega arith
OtherMove-Heard waiting (cannot_send n e) h = λ s. omega arith
OtherMove-Heard waiting wakes_only h = λ s. omega arith
OtherMove-Heard starting move h = tt
OtherMove-Heard testing move h = tt
OtherMove-Heard draining move h = tt
OtherMove-Heard settling move h = tt
OtherMove-Heard done move h = tt

Reach-Heard : (m : Shared) (p : Phase) → Reach m p → Heard m p
unfolding Heard
Reach-Heard m starting (start _ u f) = tt
Reach-Heard m p (loop_moves r move) = LoopMove-Heard move (Reach-Heard _ _ r)
Reach-Heard m p (other_moves r move) = OtherMove-Heard p move (Reach-Heard _ _ r)

-- However the threads are interleaved: while the loop waits behind a request to stop that has come since
-- it cleared the flag, and no send has failed, a datagram is there to end the wait, or a caller of
-- `x_event_loop_cancel` or `x_event_loop_stop` is about to send one.
pub cancel-Heard :
    (m : Shared)
    → Reach m waiting
    → m.stop_requested ≡ true
    → m.failed ≡ 0
    → LoopMove m waiting m draining ⊎ (0 < m.unsent)
unfolding Heard
cancel-Heard m r s f = elim (zero_or m.queue) [
  | inl e ↦ inr (let h = Reach-Heard m waiting r s in omega arith)
  | inr e ↦ inl (wakes e)
]
  where
    zero_or : (n : ℕ) → (n ≡ 0) ⊎ (0 < n)
    zero_or zero = inl refl
    zero_or (suc n) = inr (omega arith)

-- `x_event_loop_wake_callback` takes the datagrams that are not empty and returns by the answer behind them.
wake_callback_lem :
    (fuel k n : ℕ) (answers : ℕ → ℕ × ℕ) (result : ℕ)
    → k < fuel
    → ((j : ℕ) → j < k → on_received (answers (n + j)).0 (answers (n + j)).1 ≡ none)
    → on_received (answers (n + k)).0 (answers (n + k)).1 ≡ some result
    → wake_callback fuel answers n ≡ some result
unfolding wake_callback
wake_callback_lem zero k n answers result h e f = absurd (omega arith)
wake_callback_lem (suc fuel) zero n answers result h e f = rw (here, wake_callback) refl
  where
    here : on_received (answers n).0 (answers n).1 ≡ some result
    here = subst (λ i. on_received (answers i).0 (answers i).1 ≡ some result) (omega arith) f
wake_callback_lem (suc fuel) (suc k) n answers result h e f =
    rw (first, wake_callback)
      (wake_callback_lem fuel k (n + 1) answers result (omega arith)
        (λ j l.
          subst (λ i. on_received (answers i).0 (answers i).1 ≡ none) (shift j)
            (e (suc j) (omega (arith, l))))
        (subst (λ i. on_received (answers i).0 (answers i).1 ≡ some result) (shift k) f))
  where
    shift : (j : ℕ) → n + suc j ≡ n + 1 + j
    shift j = omega arith

    first : on_received (answers n).0 (answers n).1 ≡ none
    first =
        subst (λ i. on_received (answers i).0 (answers i).1 ≡ none) {x = n + 0} (omega arith)
          (e 0 (omega arith))

-- `x_socket_receive_from` on a receiver with `queue` datagrams of these sizes, to which none is added.
abbrev pub queued : (queue : ℕ) (sizes : ℕ → ℕ) → ℕ → ℕ × ℕ
queued queue sizes n = if ltb n queue then (0, sizes n) else (eagain, 0)

on_received-datagram : (received : ℕ) → received ≢ 0 → on_received 0 received ≡ none
unfolding on_received
on_received-datagram received h = ground (arith, h)

drains :
    (queue : ℕ) (sizes : ℕ → ℕ)
    → ((n : ℕ) → sizes n ≢ 0)
    → wake_callback (queue + 1) (queued queue sizes) 0 ≡ some 0
unfolding on_received
drains queue sizes h =
    wake_callback_lem (queue + 1) queue 0 (queued queue sizes) 0 (omega arith) more last
  where
    more :
        (j : ℕ)
        → j < queue
        → on_received (queued queue sizes (0 + j)).0 (queued queue sizes (0 + j)).1 ≡ none
    more j l =
        let inside : ltb (0 + j) queue ≡ true = ground (arith, l) in
        rw inside (on_received-datagram (sizes (0 + j)) (h (0 + j)))

    last :
        on_received (queued queue sizes (0 + queue)).0 (queued queue sizes (0 + queue)).1 ≡ some 0
    last = let outside : ltb (0 + queue) queue ≡ false = ground arith in rw outside refl

-- How many moves the loop's thread has left behind a request to stop.
pub moves_left : Shared → Phase → ℕ
moves_left m starting = 0
moves_left m testing = 1
moves_left m dispatching = m.queue + 5
moves_left m waiting = m.queue + 4
moves_left m draining = m.queue + 3
moves_left m settling = 2
moves_left m done = 0

after-fewer :
    (m : Shared) (k : ℕ) (q : Phase) (answer : Option ℕ)
    → q ≡ phase_after answer
    → (answer ≡ none → m.queue < k)
    → moves_left m q < k + 3
unfolding moves_left
after-fewer m k q none e h = rw e (omega (arith, h refl))
after-fewer m k q (some zero) e h = rw e (omega arith)
after-fewer m k q (some (suc i)) e h = rw e (omega arith)

-- An answer that is not a datagram ends the callback.
on_received-ends : (e received : ℕ) → e ≢ 0 → on_received e received ≢ none
unfolding on_received
on_received-ends e received h n = ground (arith, h, n)

fewer :
    (m n : Shared) (p q : Phase)
    → LoopMove m p n q
    → p ≢ starting
    → m.stop_requested ≡ true
    → (n.stop_requested ≡ true) × (moves_left n q < moves_left m p)
unfolding moves_left
fewer m n p q clears b s = absurd (b refl)
fewer m n p q (leaves e) b s = (s, omega arith)
fewer m n p q rests b s = (s, omega arith)
fewer m n p q (enters e) b s = absurd (ground (arith, e, s))
fewer m n p q breaks b s = (s, omega arith)
fewer m n p q waits b s = (s, omega arith)
fewer m n p q (wakes e) b s = (s, omega arith)
fewer m n p q times_out b s = (s, omega arith)
fewer m n p q fails b s = (s, omega arith)
fewer m n p q (receives k received a e) b s = (s, after-fewer n m.queue q _ e λ _. omega (arith, a))
fewer m n p q (receives_none received a e) b s =
    (s, after-fewer n m.queue q _ e λ i. absurd (on_received-ends eagain received (omega arith) i))
fewer m n p q (receive_fails k received a c e) b s =
    (s, after-fewer n m.queue q _ e λ i. absurd (on_received-ends k received a i))
fewer m n p q settles b s = (s, omega arith)
fewer m n p q settling_fails b s = (s, omega arith)

-- Behind a request to stop that has come since the loop cleared the flag, each move of the loop's thread
-- keeps the request and leaves it fewer moves: with the datagrams that are there, at most five more
-- than these to the end of `x_event_loop_run`. By itself, `x_event_loop_wake_callback` returns 0
-- behind one call of `x_socket_receive_from` more than there are datagrams, if none of them is empty.
pub cancel_ends :
    (m n : Shared) (p q : Phase) (sizes : ℕ → ℕ)
    → LoopMove m p n q
    → p ≢ starting
    → m.stop_requested ≡ true
    → ((i : ℕ) → sizes i ≢ 0)
    → ((n.stop_requested ≡ true) × (moves_left n q < moves_left m p))
      × (wake_callback (m.queue + 1) (queued m.queue sizes) 0 ≡ some 0)
cancel_ends m n p q sizes move b s h = (fewer m n p q move b s, drains m.queue sizes h)

-- ===== src/Semaphore/Invariant.antt =====
-- What holds of a semaphore and its threads at every moment.
use xlib.Common.{
  ℕ, zero, suc, ◌+◌, ◌≤◌, ◌≡◌, ◌≢◌, ◌⊎◌, inl, refl, ap, Bool, true, false, List, [], ◌∷◌, ◌++◌,
  uint_max, arith,
}
use xlib.Semaphore.{
  Shared, Pc, idle, testing, sleeping, waking, taking, checking, adding, signalling, leaving,
  WaitMove, lock, sleep, not_slept, relock, pass, take, PostMove, full, room, add, System, total,
  asleep, Step, in_wait, in_post, signal, signal_nobody, all_idle, init, Reach, start, later,
}

-- The threads that have the lock.
abbrev pub holds : Pc → ℕ
holds testing = 1
holds taking = 1
holds checking = 1
holds adding = 1
holds signalling = 1
holds (leaving e) = 1
holds _ = 0

abbrev takes : Pc → ℕ
takes taking = 1
takes _ = 0

abbrev adds : Pc → ℕ
adds adding = 1
adds _ = 0

-- The threads that will look at the count, or wake up one that does.
abbrev pub awake : Pc → ℕ
awake testing = 1
awake waking = 1
awake taking = 1
awake signalling = 1
awake _ = 0

abbrev pub as_number : Bool → ℕ
as_number true = 1
as_number false = 0

pub record Inv (initial_count : ℕ) (threads : List Pc) (m : Shared) : Type 0 where
  pub exclusive : total holds threads ≡ as_number m.locked
  pub fits : m.count + total adds threads ≤ uint_max
  pub passed : total takes threads ≤ m.count
  pub balance : m.count + m.taken ≡ initial_count + m.posted
  pub woken : (total asleep threads ≡ 0) ⊎ (m.count ≤ total awake threads + m.lost)

total-append :
    (w : Pc → ℕ) (xs : List Pc) (p : Pc) (ys : List Pc)
    → total w (xs ++ p ∷ ys) ≡ w p + (total w xs + total w ys)
total-append w [] p ys = omega arith
total-append w (x ∷ xs) p ys = omega (arith, total-append w xs p ys)

-- One thread among others: the totals of the others.
pub record Others (xs ys : List Pc) (p : Pc) (initial_count : ℕ) (m : Shared) : Type 0 where
  pub holds_p : total holds xs + total holds ys + holds p ≡ as_number m.locked
  pub fits_p : m.count + (total adds xs + total adds ys + adds p) ≤ uint_max
  pub passed_p : total takes xs + total takes ys + takes p ≤ m.count
  pub balance_p : m.count + m.taken ≡ initial_count + m.posted
  pub woken_p :
      (total asleep xs + total asleep ys + asleep p ≡ 0)
      ⊎ (m.count ≤ total awake xs + total awake ys + awake p + m.lost)
  adds_holds : total adds xs + total adds ys ≤ total holds xs + total holds ys
  takes_holds : total takes xs + total takes ys ≤ total holds xs + total holds ys

-- The premise of a move, for the clauses below that take several moves at once.
abbrev Guard : {m n : Shared} {p q : Pc} → WaitMove m p n q → Type 0
Guard {m} (lock e) = m.locked ≡ false
Guard {m} (relock e) = m.locked ≡ false
Guard {m} (sleep e) = m.count ≡ 0
Guard {m} (not_slept e _) = m.count ≡ 0
Guard {m} (pass e) = m.count ≢ 0
Guard _ = Unit

guard : {m n : Shared} {p q : Pc} (move : WaitMove m p n q) → Guard move
guard (lock e) = e
guard (relock e) = e
guard (sleep e) = e
guard (not_slept e _) = e
guard (pass e) = e
guard _ = tt

WaitMove-Others :
    {xs ys : List Pc} {p q : Pc} {c : ℕ} {m n : Shared}
    → WaitMove m p n q
    → Others xs ys p c m
    → Others xs ys q c n
WaitMove-Others take f = ground arith
WaitMove-Others move f = ground (arith, guard move)

abbrev PostGuard : {m n : Shared} {p q : Pc} → PostMove m p n q → Type 0
PostGuard {m} (PostMove.lock e) = m.locked ≡ false
PostGuard {m} (full e) = m.count ≡ uint_max
PostGuard {m} (room e) = m.count ≢ uint_max
PostGuard _ = Unit

post_guard : {m n : Shared} {p q : Pc} (move : PostMove m p n q) → PostGuard move
post_guard (PostMove.lock e) = e
post_guard (full e) = e
post_guard (room e) = e
post_guard _ = tt

PostMove-Others :
    {xs ys : List Pc} {p q : Pc} {c : ℕ} {m n : Shared}
    → PostMove m p n q
    → Others xs ys p c m
    → Others xs ys q c n
PostMove-Others add f = ground arith
PostMove-Others move f = ground (arith, post_guard move)

-- A thread that is about to change the count has the lock.
adds-le-holds : (xs : List Pc) → total adds xs ≤ total holds xs
adds-le-holds [] = omega arith
adds-le-holds (p ∷ xs) = ground (arith, adds-le-holds xs)

takes-le-holds : (xs : List Pc) → total takes xs ≤ total holds xs
takes-le-holds [] = omega arith
takes-le-holds (p ∷ xs) = ground (arith, takes-le-holds xs)

module _ (xs ys : List Pc) (p : Pc) {c : ℕ} {m : Shared} where
  pub to_Others : Inv c (xs ++ p ∷ ys) m → Others xs ys p c m
  to_Others f = record {
    holds_p = omega (arith, f.exclusive, total-append holds xs p ys);
    fits_p = omega (arith, f.fits, total-append adds xs p ys);
    passed_p = omega (arith, f.passed, total-append takes xs p ys);
    balance_p = f.balance;
    woken_p = ground (arith, f.woken, total-append asleep xs p ys, total-append awake xs p ys);
    adds_holds = omega (arith, adds-le-holds xs, adds-le-holds ys);
    takes_holds = omega (arith, takes-le-holds xs, takes-le-holds ys);
  }

  of_Others : Others xs ys p c m → Inv c (xs ++ p ∷ ys) m
  of_Others f = record {
    exclusive = omega (arith, f.holds_p, total-append holds xs p ys);
    fits = omega (arith, f.fits_p, total-append adds xs p ys);
    passed = omega (arith, f.passed_p, total-append takes xs p ys);
    balance = f.balance_p;
    woken = ground (arith, f.woken_p, total-append asleep xs p ys, total-append awake xs p ys);
  }

total-join : (w : Pc → ℕ) (xs ys : List Pc) → total w (xs ++ ys) ≡ total w xs + total w ys
total-join w [] ys = omega arith
total-join w (x ∷ xs) ys = omega (arith, total-join w xs ys)

-- A signal that wakes up nobody: no thread sleeps.
unheard-Others :
    (xs ys : List Pc) {c : ℕ} {m : Shared}
    → total asleep (xs ++ ys) ≡ 0
    → Others xs ys signalling c m
    → Others xs ys (leaving 0) c m
unheard-Others xs ys e f = record {
  holds_p = f.holds_p;
  fits_p = f.fits_p;
  passed_p = f.passed_p;
  balance_p = f.balance_p;
  woken_p = inl (omega (arith, e, total-join asleep xs ys));
  adds_holds = f.adds_holds;
  takes_holds = f.takes_holds;
}

-- The totals when a signal has woken up a thread.
module _ (xs ys us vs : List Pc) (e : xs ++ leaving 0 ∷ ys ≡ us ++ sleeping ∷ vs) where
  total-signal :
      (w : Pc → ℕ)
      → total w (us ++ waking ∷ vs) + (w sleeping + w signalling)
        ≡ total w (xs ++ signalling ∷ ys) + (w waking + w (leaving 0))
  total-signal w = omega (
    arith,
    total-append w us waking vs,
    total-append w us sleeping vs,
    total-append w xs signalling ys,
    total-append w xs (leaving 0) ys,
    ap (total w) e,
  )

  signal-Inv : {c : ℕ} {m : Shared} → Inv c (xs ++ signalling ∷ ys) m → Inv c (us ++ waking ∷ vs) m
  signal-Inv f = record {
    exclusive = omega (arith, f.exclusive, total-signal holds);
    fits = omega (arith, f.fits, total-signal adds);
    passed = omega (arith, f.passed, total-signal takes);
    balance = f.balance;
    woken = ground (arith, f.woken, total-signal asleep, total-signal awake);
  }

Step-Inv : {c : ℕ} {s t : System} → Step s t → Inv c s.threads s.shared → Inv c t.threads t.shared
Step-Inv (in_wait xs ys {p} {q} move) f =
    of_Others xs ys q (WaitMove-Others move (to_Others xs ys p f))
Step-Inv (in_post xs ys {p} {q} move) f =
    of_Others xs ys q (PostMove-Others move (to_Others xs ys p f))
Step-Inv (signal xs ys us vs e) f = signal-Inv xs ys us vs e f
Step-Inv (signal_nobody xs ys e) f =
    of_Others xs ys (leaving 0) (unheard-Others xs ys e (to_Others xs ys signalling f))

Inv-init : (n c : ℕ) → c ≤ uint_max → Inv c (init n c).threads (init n c).shared
Inv-init n c h = record {
  exclusive = idle_total holds n refl;
  fits = omega (arith, h, idle_total adds n refl);
  passed = omega (arith, idle_total takes n refl);
  balance = refl;
  woken = inl (idle_total asleep n refl);
}
  where
    idle_total : (w : Pc → ℕ) (n : ℕ) → w idle ≡ 0 → total w (all_idle n) ≡ 0
    idle_total w zero e = refl
    idle_total w (suc n) e = omega (arith, e, idle_total w n e)

-- However the threads are interleaved, whatever calls of the system fail, and whether threads wake up
-- by a signal or without one, for an initial count that is an `unsigned int`: at most one thread has
-- the lock; the count neither wraps below 0 nor above UINT_MAX, also where a thread is between its test
-- and its change of the count; the count is the initial one with each post added and each successful
-- wait taken off; and where threads sleep, there are as many threads that will look at the count or
-- wake up one that does, as the count is, less the signals that have failed.
pub Reach-Inv : (n c : ℕ) (s : System) → c ≤ uint_max → Reach n c s → Inv c s.threads s.shared
Reach-Inv n c s h start = Inv-init n c h
Reach-Inv n c s h (later r step) = Step-Inv step (Reach-Inv n c _ h r)

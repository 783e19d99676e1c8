-- ===== src/Clock/Sleep.antt =====
-- A sleep of src/x_time.c lasts as long as it was asked to.
use xlib.Common.{
  ℕ, zero, suc, ◌+◌, ◌*◌, ◌/◌, ◌%◌, ◌≤◌, ◌<◌, ◌≡◌, ◌≢◌, refl, subst, true, false, Option, none,
  some, ltb, ◌==◌, eintr, eoverflow, mul_word, uint64_max, arith, Bool-cases, inl, inr, ==_iff,
}
use xlib.Clock.{Sleeper, longer, sleep_loop, sleep_us, sleep_ms}

-- The length of a request in ns.
abbrev pub length_ns : ℕ × ℕ → ℕ
length_ns (seconds, nanoseconds) = seconds * 1_000_000_000 + nanoseconds

-- `nanosleep` as documented: it sleeps for the request or longer, and interrupted, for what does not remain
-- or longer.
pub record IsSleeper (sleeper : Sleeper) : Type 0 where
  pub sleeps :
      (n : ℕ) (request : ℕ × ℕ)
      → sleeper.status n request ≡ 0
      → length_ns request ≤ sleeper.slept n request
  pub resumes :
      (n : ℕ) (request : ℕ × ℕ)
      → sleeper.status n request ≡ eintr
      → length_ns request ≤ sleeper.slept n request + length_ns (sleeper.remaining n request)

-- The outcome of a sleep: it lasted long enough, or an error other than an interruption is reported.
abbrev pub Slept : ℕ → Option (ℕ × ℕ) → Type 0
Slept wanted none = ⊥
Slept wanted (some (status, slept)) = (status ≢ eintr) × (status ≡ 0 → wanted ≤ slept)

abbrev request : ℕ → ℕ × ℕ
request microseconds = (microseconds / 1_000_000, (microseconds % 1_000_000) * 1000)

request_lem : (microseconds : ℕ) → length_ns (request microseconds) ≡ microseconds * 1000
request_lem microseconds = omega arith

not_same : (a b : ℕ) → (a == b) ≡ false → a ≢ b
not_same a b e = ground arith

fits :
    (milliseconds : ℕ)
    → milliseconds * 1000 ≤ uint64_max
    → ltb (uint64_max / 1000) milliseconds ≡ false
fits milliseconds h = ground arith

too_long :
    (milliseconds : ℕ)
    → uint64_max < milliseconds * 1000
    → ltb (uint64_max / 1000) milliseconds ≡ true
too_long milliseconds h = ground arith

product :
    (milliseconds : ℕ)
    → milliseconds * 1000 ≤ uint64_max
    → mul_word milliseconds 1000 ≡ milliseconds * 1000
product milliseconds h = omega arith

Slept-longer :
    (wanted left slept : ℕ) (rest : Option (ℕ × ℕ))
    → wanted ≤ slept + left
    → Slept left rest
    → Slept wanted (longer slept rest)
Slept-longer wanted left slept none h k = absurd k
Slept-longer wanted left slept (some (status, more)) h k = (k.0, λ e. omega (arith, k.1 e, h))

sleep_loop-Slept :
    (sleeper : Sleeper) (fuel call at : ℕ) (request : ℕ × ℕ)
    → IsSleeper sleeper
    → call ≤ at
    → at < call + fuel
    → ((r : ℕ × ℕ) → sleeper.status at r ≢ eintr)
    → Slept (length_ns request) (sleep_loop sleeper fuel call request)
unfolding sleep_loop
sleep_loop-Slept sleeper zero call at request s later soon settled = absurd (omega arith)
sleep_loop-Slept sleeper (suc fuel) call at request s later soon settled =
    elim (Bool-cases (sleeper.status call request == 0)) [
      | inl e ↦
          rw (e, sleep_loop) ((λ k. omega arith), λ _. s.sleeps call request ((==_iff _ 0).0 e))
      | inr e ↦ elim (Bool-cases (sleeper.status call request == eintr)) [
        | inl i ↦
            let interrupted : sleeper.status call request ≡ eintr = (==_iff _ _).0 i in
            let elsewhere : call ≢ at =
              λ c. settled request (subst (λ n. sleeper.status n request ≡ eintr) c interrupted) in
            rw (e, i, sleep_loop)
              (Slept-longer _ (length_ns (sleeper.remaining call request))
                (sleeper.slept call request) _ (s.resumes call request interrupted)
                (sleep_loop-Slept sleeper fuel (call + 1) at (sleeper.remaining call request) s
                  (omega (arith, elsewhere)) (omega arith) settled))
        | inr i ↦ rw (e, i, sleep_loop) (not_same _ _ i, λ z. absurd (not_same _ _ e z))
      ]
    ]

-- With a `nanosleep` as documented of which some call, before the fuel is used up, is not interrupted,
-- whatever it is asked: `x_time_sleep_us` returns, it reports no interruption, and when it returns 0 it has slept for at
-- least the time that it was asked for.
pub sleep_us-Slept :
    (sleeper : Sleeper) (fuel at microseconds : ℕ)
    → IsSleeper sleeper
    → at < fuel
    → ((r : ℕ × ℕ) → sleeper.status at r ≢ eintr)
    → Slept (microseconds * 1000) (sleep_us sleeper fuel microseconds)
unfolding sleep_us
sleep_us-Slept sleeper fuel at microseconds s soon settled = elim (Bool-cases (microseconds == 0)) [
  | inl e ↦ rw e ((λ k. omega arith), λ _. omega (arith, (==_iff microseconds 0).0 e))
  | inr e ↦ rw e (
      subst (λ n. Slept n (sleep_loop sleeper fuel 0 (request microseconds)))
        (request_lem microseconds)
        (sleep_loop-Slept sleeper fuel 0 at (request microseconds) s (omega arith) (omega arith)
          settled))
]

-- In the POSIX build, for a `nanosleep` that sleeps for what it was asked when it returns 0, and when it is
-- interrupted leaves no less than the rest of it as what remains, and of which one call within the fuel is not
-- interrupted: `x_time_sleep_ms` reports EOVERFLOW for a time of 2^64 microseconds or more without
-- sleeping; for any other time it returns, it reports no interruption, and when it returns 0 it has slept for
-- at least that time.
pub sleep_ms-Slept :
    (sleeper : Sleeper) (fuel at milliseconds : ℕ)
    → IsSleeper sleeper
    → at < fuel
    → ((r : ℕ × ℕ) → sleeper.status at r ≢ eintr)
    → (milliseconds * 1000 ≤ uint64_max
        → Slept (milliseconds * 1_000_000) (sleep_ms sleeper fuel milliseconds))
      × (uint64_max < milliseconds * 1000
          → sleep_ms sleeper fuel milliseconds ≡ some (eoverflow, 0))
unfolding sleep_ms
sleep_ms-Slept sleeper fuel at milliseconds s soon settled = (
  λ h.
      rw (fits milliseconds h, product milliseconds h)
        (subst (λ n. Slept n (sleep_us sleeper fuel (milliseconds * 1000))) (omega arith)
          (sleep_us-Slept sleeper fuel at (milliseconds * 1000) s soon settled)),
  λ h. rw (too_long milliseconds h) refl,
)

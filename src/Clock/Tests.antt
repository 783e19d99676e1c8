-- ===== src/Clock/Tests.antt =====
-- Runs of the clocks, and instances of their theorems.
use xlib.Common.{◌*◌, ◌≡◌, refl, none, some, ◌==◌, if◌then◌else◌, eintr, einval, arith}
use xlib.Clock.{Sleeper, sleep_loop, sleep_us, sleep_ms, filetime_ns, clock_ns, timer_elapsed_ns}
use xlib.Clock.Sleep.{length_ns, IsSleeper, Slept, sleep_ms-Slept}

-- The first call is interrupted, with 5 ns left.
abbrev restless : Sleeper
restless = record {
  status = λ n request. if n == 0 then eintr else 0;
  slept = λ n request. length_ns request;
  remaining = λ n request. (0, 5);
}

restless-IsSleeper : IsSleeper restless
restless-IsSleeper = record {
  sleeps = λ n request e. omega arith;
  resumes = λ n request e. omega arith;
}

sleep_runs : sleep_us restless 3 1_500_000 ≡ some (0, 1_500_000_005)
unfolding sleep_us sleep_loop
sleep_runs = refl

before_epoch : filetime_ns 5 ≡ (einval, none)
unfolding filetime_ns
before_epoch = refl

clock_runs : clock_ns (0, 3, 7) ≡ (0, some 3_000_000_007)
unfolding clock_ns
clock_runs = refl

elapsed_backwards : timer_elapsed_ns 9 (0, 4) ≡ (0, some 0)
unfolding timer_elapsed_ns
elapsed_backwards = refl

sleep_ms-Slept_example : Slept (15 * 1_000_000) (sleep_ms restless 3 15)
sleep_ms-Slept_example =
    (sleep_ms-Slept restless 3 1 15 restless-IsSleeper (omega arith) (λ r. omega arith)).0
      (omega arith)

-- ===== src/Clock.antt =====
-- The clocks and sleeps of src/x_time.c. Where a function has a Windows half, it is named for it.
pub mod Sleep
pub mod Convert
mod Tests
use xlib.Common.{
  ℕ, zero, suc, ◌+◌, ◌-◌, ◌*◌, ◌/◌, ◌%◌, ◌^◌, ◌≡◌, refl, Bool, true, false, not, ◌&&◌, Option, none,
  some, ltb, leb, ◌==◌, if◌then◌else◌, einval, eintr, eoverflow, eagain, add_word, mul_word,
  uint64_max, word,
}

-- `x_time_clock_ns`: the answer of `clock_gettime` is 0 or `errno`, with seconds and nanoseconds.
pub clock_ns : ℕ × ℕ × ℕ → ℕ × Option ℕ
clock_ns (status, seconds, nanoseconds) =
    if status == 0
    then (0, some (add_word (mul_word seconds 1_000_000_000) nanoseconds))
    else (status, none)

-- The Windows half of `x_time_monotonic_ns`: the counter and its frequency.
pub counter_ns : ℕ → ℕ → ℕ
counter_ns counter frequency =
    add_word (mul_word (counter / frequency) 1_000_000_000)
      (mul_word (counter % frequency) 1_000_000_000 / frequency)

-- `x_time_filetime_ns`: 100 ns since 1601, to ns since 1970.
pub filetime_ns : ℕ → ℕ × Option ℕ
filetime_ns value =
    if ltb value 116_444_736_000_000_000
    then (einval, none)
    else (0, some (mul_word (value - 116_444_736_000_000_000) 100))

-- `x_time_monotonic_ns`, POSIX half, and `x_time_system_ns`; `given` says that the pointer is not NULL.
pub time_ns : Bool → ℕ × ℕ × ℕ → ℕ × Option ℕ
unfolding clock_ns
time_ns given answer = if given then clock_ns answer else (einval, none)

-- `nanosleep`: the n-th call, asked to sleep so many seconds and nanoseconds, answers 0 or `errno`, what it
-- has slept in ns, and what remains of the request.
pub record Sleeper : Type 0 where
  pub status : ℕ → ℕ × ℕ → ℕ
  pub slept : ℕ → ℕ × ℕ → ℕ
  pub remaining : ℕ → ℕ × ℕ → ℕ × ℕ

abbrev pub longer : ℕ → Option (ℕ × ℕ) → Option (ℕ × ℕ)
longer slept none = none
longer slept (some (status, more)) = some (status, slept + more)

-- The loop of `x_time_sleep_us` on fuel: its status, and the time that it has slept in all.
pub sleep_loop : Sleeper → ℕ → ℕ → ℕ × ℕ → Option (ℕ × ℕ)
sleep_loop sleeper zero call request = none
sleep_loop sleeper (suc fuel) call request =
    let again = sleep_loop sleeper fuel (call + 1) (sleeper.remaining call request) in
    if sleeper.status call request == 0
    then some (0, sleeper.slept call request)
    else if sleeper.status call request == eintr
    then longer (sleeper.slept call request) again
    else some (sleeper.status call request, sleeper.slept call request)

-- `x_time_sleep_us`, POSIX half.
pub sleep_us : Sleeper → ℕ → ℕ → Option (ℕ × ℕ)
unfolding sleep_loop
sleep_us sleeper fuel microseconds =
    if microseconds == 0
    then some (0, 0)
    else sleep_loop sleeper fuel 0 (microseconds / 1_000_000, (microseconds % 1_000_000) * 1000)

-- `x_time_sleep_ms`.
pub sleep_ms : Sleeper → ℕ → ℕ → Option (ℕ × ℕ)
unfolding sleep_us
sleep_ms sleeper fuel milliseconds =
    if ltb (uint64_max / 1000) milliseconds
    then some (eoverflow, 0)
    else sleep_us sleeper fuel (mul_word milliseconds 1000)

-- `x_timer_elapsed_ns`, behind its test of the arguments: the answer of `x_time_monotonic_ns`.
pub timer_elapsed_ns : ℕ → ℕ × ℕ → ℕ × Option ℕ
timer_elapsed_ns started_ns (status, now) =
    if status == 0
    then (0, some (if leb started_ns now then now - started_ns else 0))
    else (status, none)

-- ===== src/Clock/Convert.antt =====
-- The conversions of the Windows half of src/x_time.c.
use xlib.Common.{ℕ, ◌+◌, ◌*◌, ◌/◌, ◌%◌, ◌<◌, ◌≡◌, ap, ap₂, sym, ◌∙◌, subst, add_word, word, arith}
use native.Mathlib.Nat.{div-add-mod, mul-add-div, mod-lt, mul_assoc, add-mul}
use xlib.Clock.{counter_ns}

abbrev giga : ℕ
giga = 1_000_000_000

distributed : (f q r : ℕ) → (f * q + r) * giga ≡ f * (q * giga) + r * giga
distributed f q r = add-mul (f * q) r giga ∙ ap (λ n. n + r * giga) (mul_assoc f q giga)

split_counter :
    (counter frequency : ℕ)
    → 0 < frequency
    → counter * giga / frequency
      ≡ (counter / frequency) * giga + (counter % frequency) * giga / frequency
split_counter counter frequency pos =
    ap (λ n. n * giga / frequency) (sym (div-add-mod counter frequency))
    ∙ ap (λ n. n / frequency) (distributed frequency (counter / frequency) (counter % frequency))
    ∙ mul-add-div pos ((counter / frequency) * giga) ((counter % frequency) * giga)

no_wrap : (a b : ℕ) → a + b < word → add_word a b ≡ a + b
no_wrap a b h = omega arith

small : (a : ℕ) → a < word → a % word ≡ a
small a h = omega arith

-- For a frequency above 0 whose product with 10^9 is below 2^64 and a counter whose time in ns is, the two-part computation of
-- `x_time_monotonic_ns` gives exactly the whole nanoseconds of the counter.
pub counter_ns_lem :
    (counter frequency : ℕ)
    → 0 < frequency
    → frequency * 1_000_000_000 < word
    → counter * 1_000_000_000 / frequency < word
    → counter_ns counter frequency ≡ counter * 1_000_000_000 / frequency
unfolding counter_ns
counter_ns_lem counter frequency pos narrow fits =
    let split = split_counter counter frequency pos in
    let rest : (counter % frequency) * giga < word = omega (arith, mod-lt counter pos) in
    let whole : (counter / frequency) * giga + (counter % frequency) * giga / frequency < word =
      subst (λ n. n < word) split fits in
    ap₂ add_word (small ((counter / frequency) * giga) (omega (arith, whole)))
      (ap (λ n. n / frequency) (small ((counter % frequency) * giga) rest))
    ∙ no_wrap ((counter / frequency) * giga) ((counter % frequency) * giga / frequency) whole
    ∙ sym split

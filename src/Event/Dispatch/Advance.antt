-- ===== src/Event/Dispatch/Advance.antt =====
-- The due times of timers in src/x_event.c: `x_event_ms_to_ns`, and how a repeating timer moves on.
use xlib.Common.{
  ℕ, zero, suc, ◌^◌, leb→le, le→leb, ltb→lt, ◌+◌, ◌-◌, ◌*◌, ◌≤◌, ◌<◌, ◌≡◌, refl, ◌∙◌, false, some,
  ltb, leb, if◌then◌else◌, add_word, word, uint64_max, arith, Bool-cases, inl, inr,
}
use xlib.Event.{ms_to_ns}
use xlib.Event.Dispatch.{advance}

pub ms_to_ns_lem :
    (ms : ℕ)
    → ms_to_ns ms ≡ (if leb (ms * 1_000_000) uint64_max then ms * 1_000_000 else uint64_max)
unfolding ms_to_ns
ms_to_ns_lem ms = ground arith

-- The next due time: the first one after `now` that is a whole number of intervals later.
pub record IsNext (due interval now next : ℕ) : Type 0 where
  pub after_now : now < next
  pub soon : next ≤ now + interval
  pub rounds : ℕ
  pub on_grid : next ≡ due + suc rounds * interval

IsNext-later :
    (due interval now next : ℕ)
    → IsNext (due + interval) interval now next
    → IsNext due interval now next
IsNext-later due interval now next n = record {
  after_now = n.after_now;
  soon = n.soon;
  rounds = suc n.rounds;
  on_grid = n.on_grid ∙ omega arith;
}

add_word_small : (a b : ℕ) → a + b < word → add_word a b ≡ a + b
add_word_small a b h = grind arith

-- For a due time that has been reached, an interval that is not 0, a sum of now and the interval
-- below 2^64 and fuel that reaches past now: the loop that moves a repeating timer on ends, with a due
-- time later than now by at most one interval and a whole number of intervals, one or more, after the
-- old one, so that a timer does not drift.
pub advance-IsNext :
    (fuel due interval now : ℕ)
    → 0 < interval
    → due ≤ now
    → now + interval < word
    → now < due + fuel
    → (next : ℕ) × (advance fuel due interval now ≡ some next) × IsNext due interval now next
unfolding advance
advance-IsNext zero due interval now pos late fits enough = absurd (omega arith)
advance-IsNext (suc fuel) due interval now pos late fits enough =
    elim (Bool-cases (leb (due + interval) now)) [
      | inl e ↦
          rw (add_word_small due interval (omega arith), e, advance)
            (later (
              advance-IsNext fuel (due + interval) interval now pos (leb→le _ _ e) fits
                (omega arith)))
      | inr e ↦
          rw (add_word_small due interval (omega arith), e, advance)
            (
              due + interval,
              refl,
              record {
                after_now = ground arith;
                soon = omega arith;
                rounds = 0;
                on_grid = omega arith;
              },
            )
    ]
  where
    later :
        (n : ℕ) × (advance fuel (due + interval) interval now ≡ some n)
          × IsNext (due + interval) interval now n
        → (n : ℕ) × (advance fuel (due + interval) interval now ≡ some n)
          × IsNext due interval now n
    later (n, h, k) = (n, h, IsNext-later due interval now n k)

not_leb : (a b : ℕ) → b < a → leb a b ≡ false
not_leb a b h = ground arith

ltb→ge : (a b : ℕ) → ltb a b ≡ false → b ≤ a
ltb→ge a b e = ground arith

add_word_large : (a b : ℕ) → a < word → b < word → word ≤ a + b → add_word a b ≡ a + b - word
add_word_large a b h k l = grind arith

-- An interval so large that the sum wraps takes the due time back, until it does not wrap.
advance_back :
    (fuel due interval now : ℕ)
    → 2 ^ 63 ≤ interval
    → interval < word
    → now < 2 ^ 63
    → due ≤ now
    → due < fuel
    → (next : ℕ) × (advance fuel due interval now ≡ some next) × (now < next)
unfolding advance
advance_back zero due interval now large fits early late enough = absurd (omega arith)
advance_back (suc fuel) due interval now large fits early late enough =
    elim (Bool-cases (ltb (due + interval) word)) [
      | inl e ↦
          rw
            (
              add_word_small due interval (ltb→lt _ _ e),
              not_leb (due + interval) now (omega arith),
              advance,
            )
            (due + interval, refl, omega arith)
      | inr e ↦
          rw
            (
              add_word_large due interval (omega arith) fits (ltb→ge _ _ e),
              le→leb (due + interval - word) now (omega arith),
              advance,
            )
            (advance_back fuel (due + interval - word) interval now large fits early (omega arith)
              (omega (arith, ltb→ge _ _ e)))
    ]

-- With `now + 1` as fuel, the loop that moves a repeating timer on ends with a due time later than
-- now, for every interval from 1 to 2^64 - 1, when the due time has been reached and the clock shows
-- less than 2^63 ns.
pub advance_ends :
    (due interval now : ℕ)
    → 0 < interval
    → interval < word
    → now < 2 ^ 63
    → due ≤ now
    → (next : ℕ) × (advance (suc now) due interval now ≡ some next) × (now < next)
advance_ends due interval now pos fits early late = elim (Bool-cases (ltb interval (2 ^ 63))) [
  | inl e ↦
      of_next
        (advance-IsNext (suc now) due interval now pos late (near (ltb→lt _ _ e)) (omega arith))
  | inr e ↦ advance_back (suc now) due interval now (ground arith) fits early late (omega arith)
]
  where
    near : interval < 2 ^ 63 → now + interval < word
    near h = omega arith

    of_next :
        (n : ℕ) × (advance (suc now) due interval now ≡ some n) × IsNext due interval now n
        → (n : ℕ) × (advance (suc now) due interval now ≡ some n) × (now < n)
    of_next (n, h, k) = (n, h, k.after_now)

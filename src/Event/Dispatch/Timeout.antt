-- ===== src/Event/Dispatch/Timeout.antt =====
-- `x_event_loop_next_timeout_ms` of src/x_event.c: the time that the loop may sleep.
use xlib.Common.{
  ℕ, ◌+◌, ◌-◌, ◌*◌, ◌/◌, ◌≤◌, ◌<◌, ◌≡◌, ◌⊎◌, refl, sym, ◌∙◌, Bool, true, false, ◌&&◌, Option, none,
  some, List, [], ◌∷◌, All, All-map, All-of, ltb, leb, ltb→lt, if◌then◌else◌, add_word, word,
  uint64_max, int_max, arith, Bool-cases, inl, inr,
}
use xlib.Event.{Source}
use xlib.Event.Dispatch.{scan, Scan, due_now, least, round_up_ms, timeout_of, is_timed}

-- The active sources that have a due time.
abbrev pub waits : Source → Bool
waits x = x.active && is_timed x.kind

-- Some source waits, with so much time left.
pub data Waiting (now : ℕ) (left : ℕ) : List Source → Type 0 where
  here :
      {x : Source} {xs : List Source}
      → waits x ≡ true
      → x.due_ns - now ≡ left
      → Waiting now left (x ∷ xs)
  there : {x : Source} {xs : List Source} → Waiting now left xs → Waiting now left (x ∷ xs)

-- No waiting source has less than `b` left.
abbrev pub NoneBefore : ℕ → ℕ → List Source → Type 0
NoneBefore now b xs = All (λ x. waits x ≡ true → b ≤ x.due_ns - now) xs

abbrev pub NoneWaits : List Source → Type 0
NoneWaits xs = All (λ x. waits x ≡ false) xs

-- What the scan finds from a state of its variables on.
Found : ℕ → List Source → Bool → ℕ → Scan → Type 0
Found now xs has best due_now = Waiting now 0 xs
Found now xs has best (least h b) =
    NoneBefore now b xs
    × (b ≤ best)
    × ((h ≡ has) × (b ≡ best) × NoneWaits xs
        ⊎ (h ≡ true) × ((has ≡ true) × (b ≡ best) ⊎ Waiting now b xs))

abbrev pub InRange : List Source → Type 0
InRange xs = All (λ x. x.due_ns + 1_000_000 ≤ word) xs

abbrev nearer : ℕ → ℕ → ℕ
nearer left best = if ltb left best then left else best

nearer_le : (left best b : ℕ) → b ≤ nearer left best → (b ≤ left) × (b ≤ best)
nearer_le left best b h = ground arith

left_nearer : (left best : ℕ) → ltb left best ≡ true → nearer left best ≡ left
left_nearer left best e = simp e

right_nearer : (left best : ℕ) → ltb left best ≡ false → nearer left best ≡ best
right_nearer left best e = simp e

not_before :
    (left best : ℕ) → ltb left best ≡ false → best ≡ uint64_max → left + 1_000_000 ≤ word → ⊥
not_before left best e h r = ground arith

Found-skip :
    (now : ℕ) (x : Source) (xs : List Source) (has : Bool) (best : ℕ) (s : Scan)
    → waits x ≡ false
    → Found now xs has best s
    → Found now (x ∷ xs) has best s
unfolding Found
Found-skip now x xs has best due_now e f = there f
Found-skip now x xs has best (least h b) e (n, l, inl (p, q, r)) =
    ((λ w. absurd (cc), n), l, inl (p, q, (e, r)))
Found-skip now x xs has best (least h b) e (n, l, inr (p, inl q)) =
    ((λ w. absurd (cc), n), l, inr (p, inl q))
Found-skip now x xs has best (least h b) e (n, l, inr (p, inr q)) =
    ((λ w. absurd (cc), n), l, inr (p, inr (there q)))

-- The variables, when `has_timeout` is not set yet, are as they start.
abbrev Starts : Bool → ℕ → Type 0
Starts has best = has ≡ false → best ≡ uint64_max

from_nearer :
    (now : ℕ) (x : Source) (xs : List Source) (has : Bool) (best b : ℕ)
    → waits x ≡ true
    → x.due_ns + 1_000_000 ≤ word
    → Starts has best
    → b ≡ nearer (x.due_ns - now) best
    → (has ≡ true) × (b ≡ best) ⊎ Waiting now b (x ∷ xs)
from_nearer now x xs has best b w r st e = elim (Bool-cases (ltb (x.due_ns - now) best)) [
  | inl k ↦ inr (here w (sym (e ∙ left_nearer _ best k)))
  | inr k ↦ elim (Bool-cases has) [
    | inl t ↦ inl (t, e ∙ right_nearer _ best k)
    | inr t ↦ absurd (not_before (x.due_ns - now) best k (st t) (omega arith))
  ]
]

Found-wait :
    (now : ℕ) (x : Source) (xs : List Source) (has : Bool) (best : ℕ) (s : Scan)
    → waits x ≡ true
    → x.due_ns + 1_000_000 ≤ word
    → Starts has best
    → Found now xs true (nearer (x.due_ns - now) best) s
    → Found now (x ∷ xs) has best s
unfolding Found
Found-wait now x xs has best due_now w r st f = there f
Found-wait now x xs has best (least h b) w r st (n, l, inl (p, q, k)) = (
  (λ _. ((nearer_le _ best b l).0), n),
  ((nearer_le _ best b l).1),
  inr (p, from_nearer now x xs has best b w r st q),
)
Found-wait now x xs has best (least h b) w r st (n, l, inr (p, inl q)) = (
  (λ _. ((nearer_le _ best b l).0), n),
  ((nearer_le _ best b l).1),
  inr (p, from_nearer now x xs has best b w r st q.1),
)
Found-wait now x xs has best (least h b) w r st (n, l, inr (p, inr q)) =
    ((λ _. ((nearer_le _ best b l).0), n), ((nearer_le _ best b l).1), inr (p, inr (there q)))

scan-Found :
    (now : ℕ) (xs : List Source) (has : Bool) (best : ℕ)
    → InRange xs
    → Starts has best
    → Found now xs has best (scan now xs has best)
unfolding Found scan
scan-Found now [] has best r st = (tt, omega arith, inl (refl, refl, tt))
scan-Found now (x ∷ xs) has best r st = elim (Bool-cases (waits x)) [
  | inr e ↦ rw e (Found-skip now x xs has best _ e (scan-Found now xs has best r.1 st))
  | inl e ↦ elim (Bool-cases (leb x.due_ns now)) [
    | inl d ↦ rw (e, d) (here e ground arith)
    | inr d ↦
        rw (e, d)
          (Found-wait now x xs has best _ e r.0 st (scan-Found now xs true _ r.1 (λ z. absurd cc)))
  ]
]

-- What a sleep of `n` milliseconds does for the waiting sources: none is late by a millisecond or
-- more (one that is due already makes it 0), and at its end one is due, unless it has been cut off at
-- INT_MAX. No timeout at all means that no source waits.
abbrev pub IsTimeout : ℕ → List Source → Option ℕ → Type 0
IsTimeout now xs none = NoneWaits xs
IsTimeout now xs (some ms) =
    All (λ x. waits x ≡ true → ms * 1_000_000 < x.due_ns - now + 1_000_000) xs
    × (left : ℕ) × Waiting now left xs
    × ((left ≤ ms * 1_000_000) ⊎ (ms ≡ int_max))

cut_off :
    (delta milliseconds : ℕ)
    → int_max < milliseconds
    → milliseconds * 1_000_000 < delta + 1_000_000
    → int_max * 1_000_000 < delta + 1_000_000
cut_off delta milliseconds h k = omega arith

round_up_ms_lem :
    (delta : ℕ)
    → delta + 1_000_000 ≤ word
    → (round_up_ms delta * 1_000_000 < delta + 1_000_000)
      × ((delta ≤ round_up_ms delta * 1_000_000) ⊎ (round_up_ms delta ≡ int_max))
unfolding round_up_ms
round_up_ms_lem delta h = elim (Bool-cases (ltb int_max (add_word delta 999_999 / 1_000_000))) [
  | inl e ↦
      rw e
        (cut_off delta (add_word delta 999_999 / 1_000_000) (ltb→lt _ _ e) (omega arith), inr refl)
  | inr e ↦ rw e (omega arith, inl (omega arith))
]

IsTimeout-least :
    (now : ℕ) (xs : List Source) (b : ℕ)
    → b + 1_000_000 ≤ word
    → NoneBefore now b xs
    → Waiting now b xs
    → IsTimeout now xs (some (round_up_ms b))
IsTimeout-least now xs b fits n w = (
  All-map xs (λ x h w. omega (arith, h w, (round_up_ms_lem b fits).0)) n,
  b,
  w,
  (round_up_ms_lem b fits).1,
)

Waiting-small :
    (now left : ℕ) (xs : List Source) → InRange xs → Waiting now left xs → left + 1_000_000 ≤ word
Waiting-small now left [] r w = elim w [ ]
Waiting-small now left (x ∷ xs) r (here w e) = omega arith
Waiting-small now left (x ∷ xs) r (there k) = Waiting-small now left xs r.1 k

IsTimeout-of :
    (now : ℕ) (xs : List Source) (s : Scan)
    → InRange xs
    → Found now xs false uint64_max s
    → IsTimeout now xs (timeout_of s)
unfolding Found timeout_of
IsTimeout-of now xs due_now r w = (All-of xs (λ _ _. omega arith), 0, w, inl (omega arith))
IsTimeout-of now xs (least h b) r (n, l, inl (p, q, k)) = rw (p, timeout_of) k
IsTimeout-of now xs (least h b) r (n, l, inr (p, inl q)) = absurd (cc (q.0))
IsTimeout-of now xs (least h b) r (n, l, inr (p, inr w)) =
    rw (p, timeout_of) (IsTimeout-least now xs b (Waiting-small now b xs r w) n w)

-- Where every due time is at least a millisecond below 2^64: the timeout that
-- `x_event_loop_next_timeout_ms` computes exists just when some source waits; a sleep of that length
-- makes no source late by a millisecond or more (so it is 0 if one is due), and at its end
-- some source is due, unless the length has been cut off at INT_MAX.
pub timeout_of-IsTimeout :
    (now : ℕ) (xs : List Source)
    → InRange xs
    → IsTimeout now xs (timeout_of (scan now xs false uint64_max))
timeout_of-IsTimeout now xs r =
    IsTimeout-of now xs (scan now xs false uint64_max) r
      (scan-Found now xs false uint64_max r λ _. refl)

-- ===== src/Event/Reserve.antt =====
-- `x_event_loop_reserve` of src/x_event.c: the growth of the array of sources.
use xlib.Common.{
  ℕ, suc, ◌+◌, ◌*◌, ◌^◌, ◌≤◌, ◌<◌, ◌≡◌, refl, ap, true, false, some, ltb, leb, ◌==◌, ltb→lt,
  if◌then◌else◌, length, arith, Bool-cases, inl, inr, mul_word,
}
use xlib.Event.{Env, Loop, State, reserve, grow, first_capacity, grow_fuel, next_count}
use xlib.Event.Valid.{IsValid, IsSystem}
use xlib.Event.Follows.{Post, Post-map, Same}

abbrev pub HasRoom : State → Type 0
HasRoom t = length t.loop.sources + 1 ≤ t.loop.capacity

grow_at_once :
    (fuel capacity needed : ℕ) → needed ≤ capacity → grow (suc fuel) capacity needed ≡ some capacity
unfolding grow
grow_at_once fuel capacity needed h = ground arith

first_capacity_lem :
    (s : State)
    → IsValid s.loop
    → first_capacity s.loop.capacity ≡ (if s.loop.capacity == 0 then 8 else 2 * s.loop.capacity)
unfolding first_capacity
first_capacity_lem s v = ground (arith, v.small)

-- On a valid loop, with a system as assumed: asked for one more source, `x_event_loop_reserve` leaves
-- the loop as it is when it fails; when it succeeds it leaves a loop that differs in its capacity
-- only, which has room for one source more and is doubled once, or 8 at first, where it had none.
pub reserve_lem :
    (env : Env) (s : State)
    → IsSystem env
    → IsValid s.loop
    → Post
        (λ t. t.loop ≡ s.loop)
        (λ _ t.
          (t.loop ≡ (
            if ltb (length s.loop.sources) s.loop.capacity then s.loop else record (s.loop) {
              capacity = if s.loop.capacity == 0 then 8 else 2 * s.loop.capacity;
            }))
          × (t.loop.capacity < 2 ^ 60)
          × (length s.loop.sources < t.loop.capacity))
        (reserve env (next_count s) s)
unfolding reserve
reserve_lem env s sys v = elim (Bool-cases (ltb (length s.loop.sources) s.loop.capacity)) [
  | inl room ↦
      let enough : leb (next_count s) s.loop.capacity ≡ true = ground (arith, v.small) in
      rw (room, enough, reserve) (refl, v.small, ltb→lt _ _ room)
  | inr full ↦
      let few : leb (next_count s) s.loop.capacity ≡ false = ground (arith, v.small) in
      let first : first_capacity s.loop.capacity
          ≡ (if s.loop.capacity == 0 then 8 else 2 * s.loop.capacity) =
        first_capacity_lem s v in
      let at_once : grow grow_fuel (first_capacity s.loop.capacity) (next_count s)
          ≡ some (if s.loop.capacity == 0 then 8 else 2 * s.loop.capacity) =
        rw first (grow_at_once 64 _ (next_count s) (ground (arith, v.small, v.fits))) in
      elim (Bool-cases (
        env.realloc_succeeds s.calls
          (mul_word (if s.loop.capacity == 0 then 8 else 2 * s.loop.capacity) 8))) [
            | inl got ↦
                rw (full, few, at_once, got, reserve)
                  (refl, ground (arith, v.small, sys.limits _ _ got), ground (arith, v.fits))
            | inr refused ↦ rw (few, at_once, refused, reserve)
          ]
]

IsValid-resize :
    (l k : Loop)
    → IsValid l
    → k.sources ≡ l.sources
    → k.registered ≡ l.registered
    → length l.sources ≤ k.capacity
    → k.capacity < 2 ^ 60
    → IsValid k
IsValid-resize l k v e f fits small = record {
  fits = rw e fits;
  small = small;
  distinct = rw e v.distinct;
  registrations = rw (e, f) v.registrations;
  exclusive = rw f v.exclusive;
  words = rw e v.words;
}

pub reserve-Same :
    (env : Env) (s : State)
    → IsSystem env
    → IsValid s.loop
    → Post (Same s) (λ _ t. Same s t × HasRoom t) (reserve env (next_count s) s)
reserve-Same env s sys v =
    Post-map _ _ _ _ (reserve env (next_count s) s) (reserve_lem env s sys v)
      (λ t e. record { valid = rw e v; same = ap (λ (l : Loop). l.sources) e })
      λ _ t q.
        let same : t.loop.sources ≡ s.loop.sources = ground (arith, q.0) in
        let entries : t.loop.registered ≡ s.loop.registered = ground (arith, q.0) in
        (
          record {
            valid = IsValid-resize s.loop t.loop v same entries (omega (arith, q.2)) q.1;
            same = same;
          },
          rw same (omega (arith, q.2)),
        )

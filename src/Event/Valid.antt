-- ===== src/Event/Valid.antt =====
-- The invariant of the event loop of src/x_event.c, over the array of sources and the entries of
-- the epoll instance, and what the list functions of the loop do to it.
use xlib.Common.{
  word, All-append, ℕ, ◌^◌, ◌≤◌, ◌<◌, ◌≡◌, ◌≢◌, refl, ap, sym, Bool, true, ◌&&◌, Option, some, List,
  [], ◌∷◌, ◌++◌, map, ◌==◌, if◌then◌else◌, length, All, arith, Bool-cases, inl, inr,
}
use xlib.Event.{
  Source, is_socket, Loop, Registration, Env, addresses, deactivate, without_handle,
  compact_sources,
}

abbrev pub NotIn : ℕ → List ℕ → Type 0
NotIn a xs = All (λ x. x ≢ a) xs

abbrev pub Distinct : List ℕ → Type 0
Distinct [] = Unit
Distinct (x ∷ xs) = NotIn x xs × Distinct xs

abbrev pub handles : List Registration → List ℕ
handles = map λ r. r.handle

abbrev pub owners : List Registration → List ℕ
owners = map λ r. r.owner

abbrev pub entry : Source → Registration
entry x = record { handle = x.native_handle; owner = x.address }

abbrev pub is_watched : Source → Bool
is_watched x = x.active && is_socket x.kind

-- The entries that belong to the active socket sources, in their order.
unfoldable pub expected : List Source → List Registration
expected [] = []
expected (x ∷ xs) = let rest = expected xs in if is_watched x then entry x ∷ rest else rest

-- Every interval is a `uint64_t`.
abbrev pub Words : List Source → Type 0
Words xs = All (λ x. x.interval_ns < word) xs

-- The array has room for its sources and at most 2^60 places, no two of them share an address, and the epoll instance has
-- exactly one entry for each active socket source and no other.
pub record IsValid (l : Loop) : Type 0 where
  pub fits : length l.sources ≤ l.capacity
  pub small : l.capacity < 2 ^ 60
  pub distinct : Distinct (addresses l.sources)
  pub registrations : l.registered ≡ expected l.sources
  pub exclusive : Distinct (handles l.registered)
  pub words : Words l.sources

-- What the loop relies on: no array is larger than PTRDIFF_MAX bytes, `calloc` never gives out the address of a live source, `epoll_ctl` refuses
-- a descriptor that has an entry, and `epoll_wait` reports pointers of entries only.
pub record IsSystem (env : Env) : Type 0 where
  pub limits : (n bytes : ℕ) → env.realloc_succeeds n bytes ≡ true → bytes < 2 ^ 63
  pub fresh : (n : ℕ) (live : List ℕ) (a : ℕ) → env.calloc n live ≡ some a → NotIn a live
  pub refuses :
      (n : ℕ) (entries : List Registration) (handle : ℕ)
      → env.epoll_add n entries handle ≡ 0
      → NotIn handle (handles entries)
  pub reports :
      (n : ℕ) (entries : List Registration) (timeout : Option ℕ)
      → All (λ r. ¬ NotIn (r.owner) (owners entries)) (env.epoll_wait n entries timeout).1

pub NotIn-snoc : (a : ℕ) (xs : List ℕ) (b : ℕ) → NotIn a xs → b ≢ a → NotIn a (xs ++ b ∷ [])
NotIn-snoc a [] b h k = (k, tt)
NotIn-snoc a (x ∷ xs) b h k = (h.0, NotIn-snoc a xs b h.1 k)

pub Distinct-snoc : (xs : List ℕ) (a : ℕ) → Distinct xs → NotIn a xs → Distinct (xs ++ a ∷ [])
Distinct-snoc [] a d h = (tt, tt)
Distinct-snoc (x ∷ xs) a d h =
    (NotIn-snoc x xs a d.0 (λ e. h.0 (sym e)), Distinct-snoc xs a d.1 h.1)

pub expected-append : (xs ys : List Source) → expected (xs ++ ys) ≡ expected xs ++ expected ys
unfolding expected
expected-append [] ys = refl
expected-append (x ∷ xs) ys = ground (arith, expected-append xs ys)

pub addresses-append : (xs ys : List Source) → addresses (xs ++ ys) ≡ addresses xs ++ addresses ys
addresses-append [] ys = refl
addresses-append (x ∷ xs) ys = ap (◌∷◌ (x.address)) (addresses-append xs ys)

pub handles-append : (xs ys : List Registration) → handles (xs ++ ys) ≡ handles xs ++ handles ys
handles-append [] ys = refl
handles-append (x ∷ xs) ys = ap (◌∷◌ (x.handle)) (handles-append xs ys)

-- Intervals.
pub Words-append : (xs ys : List Source) → Words xs → Words ys → Words (xs ++ ys)
Words-append xs ys h k = All-append _ xs ys h k

-- Compaction.
pub Words-compact_sources : (xs : List Source) → Words xs → Words (compact_sources xs)
unfolding compact_sources
Words-compact_sources [] h = tt
Words-compact_sources (x ∷ xs) h = elim (Bool-cases x.active) [
  | inl e ↦ rw e (h.0, Words-compact_sources xs h.1)
  | inr e ↦ rw e (Words-compact_sources xs h.1)
]

pub expected-compact_sources : (xs : List Source) → expected (compact_sources xs) ≡ expected xs
unfolding expected compact_sources
expected-compact_sources [] = refl
expected-compact_sources (x ∷ xs) = ground (arith, expected-compact_sources xs)

pub length-compact_sources : (xs : List Source) → length (compact_sources xs) ≤ length xs
unfolding compact_sources
length-compact_sources [] = omega arith
length-compact_sources (x ∷ xs) = ground (arith, length-compact_sources xs)

NotIn-compact_sources :
    (a : ℕ) (xs : List Source) → NotIn a (addresses xs) → NotIn a (addresses (compact_sources xs))
unfolding compact_sources
NotIn-compact_sources a [] h = tt
NotIn-compact_sources a (x ∷ xs) h = elim (Bool-cases (x.active)) [
  | inl e ↦ rw e (h.0, NotIn-compact_sources a xs h.1)
  | inr e ↦ rw e (NotIn-compact_sources a xs h.1)
]

pub Distinct-compact_sources :
    (xs : List Source) → Distinct (addresses xs) → Distinct (addresses (compact_sources xs))
unfolding compact_sources
Distinct-compact_sources [] d = tt
Distinct-compact_sources (x ∷ xs) d = elim (Bool-cases (x.active)) [
  | inl e ↦ rw e (NotIn-compact_sources (x.address) xs d.0, Distinct-compact_sources xs d.1)
  | inr e ↦ rw e (Distinct-compact_sources xs d.1)
]

-- Removal.
pub Words-deactivate : (a : ℕ) (xs : List Source) → Words xs → Words (deactivate a xs)
unfolding deactivate
Words-deactivate a [] h = tt
Words-deactivate a (x ∷ xs) h = elim (Bool-cases (x.address == a)) [
  | inl e ↦ simp e h
  | inr e ↦ simp e (h.0, Words-deactivate a xs h.1)
]

pub addresses-deactivate : (a : ℕ) (xs : List Source) → addresses (deactivate a xs) ≡ addresses xs
unfolding deactivate
addresses-deactivate a [] = refl
addresses-deactivate a (x ∷ xs) = ground (arith, addresses-deactivate a xs)

pub length-deactivate : (a : ℕ) (xs : List Source) → length (deactivate a xs) ≡ length xs
unfolding deactivate
length-deactivate a [] = refl
length-deactivate a (x ∷ xs) = ground (arith, length-deactivate a xs)

pub without_handle-NotIn :
    (h : ℕ) (rs : List Registration) → NotIn h (handles rs) → without_handle h rs ≡ rs
unfolding without_handle
without_handle-NotIn h [] k = refl
without_handle-NotIn h (r ∷ rs) k = ground (arith, without_handle-NotIn h rs k.1)

NotIn-without_handle :
    (a h : ℕ) (rs : List Registration)
    → NotIn a (handles rs)
    → NotIn a (handles (without_handle h rs))
unfolding without_handle
NotIn-without_handle a h [] k = tt
NotIn-without_handle a h (r ∷ rs) k = elim (Bool-cases (r.handle == h)) [
  | inl e ↦ rw e (NotIn-without_handle a h rs k.1)
  | inr e ↦ rw e (k.0, NotIn-without_handle a h rs k.1)
]

pub Distinct-without_handle :
    (h : ℕ) (rs : List Registration)
    → Distinct (handles rs)
    → Distinct (handles (without_handle h rs))
unfolding without_handle
Distinct-without_handle h [] d = tt
Distinct-without_handle h (r ∷ rs) d = elim (Bool-cases (r.handle == h)) [
  | inl e ↦ rw e (Distinct-without_handle h rs d.1)
  | inr e ↦ rw e (NotIn-without_handle (r.handle) h rs d.0, Distinct-without_handle h rs d.1)
]

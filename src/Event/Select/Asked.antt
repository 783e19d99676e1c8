-- ===== src/Event/Select/Asked.antt =====
-- What the first loop of `x_event_loop_wait_sockets` puts into the sets, of src/x_event.c in the build
-- with `select`.
use xlib.Common.{
  ℕ, ◌+◌, ◌≤◌, ◌≡◌, refl, ap, subst, ◌∙◌, Bool, true, false, ◌&&◌, ◌||◌, List, [], ◌∷◌, ltb, length,
  ==_iff, ◌==◌, if◌then◌else◌, arith, Bool-cases, inl, inr,
}
use xlib.FilePath.{Platform, posix, windows}
use xlib.Event.{Source, event_read, event_write}
use xlib.Event.Valid.{is_watched}
use xlib.Event.Select.{is_set, asks, fd_set, Sets, watch, watch_all, any, asks_on, watched, Fits}

-- What the limit of Windows counts.
abbrev pub filled : Platform → ℕ → ℕ
filled posix n = 0
filled windows n = n

fd_set-member :
    (platform : Platform) (x h : ℕ) (set : List ℕ)
    → filled platform (length set + 1) ≤ 64
    → is_set h (fd_set platform x set) ≡ (is_set h set || (x == h))
fd_set-member posix x h set r = ground arith
fd_set-member windows x h set r = elim (Bool-cases (is_set x set)) [
  | inl e ↦ elim (Bool-cases (x == h)) [
    | inl q ↦
        let same : x ≡ h = (==_iff x h).0 q in
        let there : is_set h set ≡ true = subst (λ i. is_set i set ≡ true) same e in
        ground (arith, e, q, there)
    | inr q ↦ ground (arith, e, q)
  ]
  | inr e ↦ ground (arith, e, r)
]

fd_set-length : (x : ℕ) (set : List ℕ) → length (fd_set windows x set) ≤ length set + 1
fd_set-length x set = ground arith

-- The set of one flag.
abbrev pub after_source : Platform → ℕ → Source → List ℕ → List ℕ
after_source platform flag x set =
    if is_watched x && asks flag x then fd_set platform x.native_handle set else set

abbrev pub after_sources : Platform → ℕ → List Source → List ℕ → List ℕ
after_sources platform flag [] set = set
after_sources platform flag (x ∷ xs) set =
    after_sources platform flag xs (after_source platform flag x set)

pub watch_all-sets :
    (platform : Platform) (xs : List Source) (sets : Sets)
    → ((watch_all platform xs sets).read_set ≡ after_sources platform event_read xs sets.read_set)
      × ((watch_all platform xs sets).write_set
          ≡ after_sources platform event_write xs sets.write_set)
unfolding watch_all watch
watch_all-sets platform [] sets = (refl, refl)
watch_all-sets platform (x ∷ xs) sets =
    let rest = watch_all-sets platform xs (watch platform x sets) in
    (
      rest.0 ∙ ap (after_sources platform event_read xs) one.0,
      rest.1 ∙ ap (after_sources platform event_write xs) one.1,
    )
  where
    one :
        ((watch platform x sets).read_set ≡ after_source platform event_read x sets.read_set)
        × ((watch platform x sets).write_set ≡ after_source platform event_write x sets.write_set)
    one = elim (Bool-cases (is_watched x)) [ inl e ↦ rw e (refl, refl) | inr e ↦ rw e (refl, refl) ]

after_source-room :
    (platform : Platform) (flag : ℕ) (x : Source) (xs : List Source) (set : List ℕ)
    → filled platform (length set + watched (x ∷ xs)) ≤ 64
    → filled platform (length (after_source platform flag x set) + watched xs) ≤ 64
after_source-room posix flag x xs set r = omega arith
after_source-room windows flag x xs set r = ground (arith, r)

room_for_one :
    (platform : Platform) (x : Source) (xs : List Source) (n : ℕ)
    → is_watched x ≡ true
    → filled platform (n + watched (x ∷ xs)) ≤ 64
    → filled platform (n + 1) ≤ 64
room_for_one posix x xs n e r = omega arith
room_for_one windows x xs n e r = ground (arith, e, r)

after_source-member :
    (platform : Platform) (flag h : ℕ) (x : Source) (xs : List Source) (set : List ℕ)
    → filled platform (length set + watched (x ∷ xs)) ≤ 64
    → is_set h (after_source platform flag x set) ≡ (is_set h set || asks_on flag h x)
after_source-member platform flag h x xs set r = elim (Bool-cases (is_watched x)) [
  | inr e ↦ ground (arith, e)
  | inl e ↦ elim (Bool-cases (asks flag x)) [
    | inr a ↦ ground (arith, e, a)
    | inl a ↦
        rw (e, a) (fd_set-member platform x.native_handle h set (room_for_one platform x xs _ e r))
  ]
]

or_assoc : (a b c : Bool) → ((a || b) || c) ≡ (a || (b || c))
or_assoc true b c = refl
or_assoc false b c = refl

pub after_sources-member :
    (platform : Platform) (flag h : ℕ) (xs : List Source) (set : List ℕ)
    → filled platform (length set + watched xs) ≤ 64
    → is_set h (after_sources platform flag xs set) ≡ (is_set h set || any (asks_on flag h) xs)
after_sources-member platform flag h [] set r = ground arith
after_sources-member platform flag h (x ∷ xs) set r =
    after_sources-member platform flag h xs (after_source platform flag x set)
      (after_source-room platform flag x xs set r)
    ∙ ap (λ b. b || any (asks_on flag h) xs) (after_source-member platform flag h x xs set r)
    ∙ or_assoc (is_set h set) (asks_on flag h x) (any (asks_on flag h) xs)

pub Fits-filled :
    (platform : Platform) (xs : List Source)
    → Fits platform xs
    → filled platform (0 + watched xs) ≤ 64
Fits-filled posix xs f = omega arith
Fits-filled windows xs f = omega (arith, f)

pub watch_all-inside :
    (xs : List Source) (sets : Sets)
    → Fits posix xs
    → sets.outside ≡ false
    → (watch_all posix xs sets).outside ≡ false
unfolding watch_all watch
watch_all-inside [] sets f o = o
watch_all-inside (x ∷ xs) sets f o =
    watch_all-inside xs (watch posix x sets) (ground (arith, f)) (ground (arith, f, o))

pub watch_all-inside_windows :
    (xs : List Source) (sets : Sets)
    → sets.outside ≡ false
    → (watch_all windows xs sets).outside ≡ false
unfolding watch_all watch
watch_all-inside_windows [] sets o = o
watch_all-inside_windows (x ∷ xs) sets o =
    watch_all-inside_windows xs (watch windows x sets) (ground (arith, o))

pub watch_all-has :
    (platform : Platform) (xs : List Source) (sets : Sets)
    → (watch_all platform xs sets).has_socket ≡ (sets.has_socket || any is_watched xs)
unfolding watch_all watch
watch_all-has platform [] sets = ground arith
watch_all-has platform (x ∷ xs) sets =
    watch_all-has platform xs (watch platform x sets) ∙ ground arith

watch_all-grows : (xs : List Source) (sets : Sets) → sets.max_fd ≤ (watch_all posix xs sets).max_fd
unfolding watch_all watch
watch_all-grows [] sets = omega arith
watch_all-grows (x ∷ xs) sets = ground (arith, watch_all-grows xs (watch posix x sets))

pub watch_all-max :
    (xs : List Source) (sets : Sets)
    → any (λ x. is_watched x && ltb (watch_all posix xs sets).max_fd x.native_handle) xs ≡ false
unfolding watch_all watch
watch_all-max [] sets = refl
watch_all-max (x ∷ xs) sets =
    ground (arith, watch_all-max xs (watch posix x sets), watch_all-grows xs (watch posix x sets))

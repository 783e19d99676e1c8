-- ===== src/Event/Remove.antt =====
-- `x_event_source_remove` of src/x_event.c keeps the invariant: the entry that leaves the epoll
-- instance is that of the source, and the only one.
use xlib.Common.{
  ℕ, ◌≡◌, ◌≢◌, refl, ap, sym, subst, ◌∙◌, true, false, Option, none, some, List, [], ◌∷◌, ◌==◌,
  arith, Bool-cases, Option-cases, inl, inr,
}
use mathlib.Core.Option.{some-injective}
use xlib.Event.{
  Source, is_socket, State, addresses, find, deactivate, without_handle, source_remove,
  remove_active, backend_remove_socket,
}
use xlib.Event.Valid.{
  Words-deactivate, NotIn, Distinct, handles, is_watched, expected, IsValid, without_handle-NotIn,
  Distinct-without_handle, addresses-deactivate, length-deactivate,
}

handle-ne :
    (a h : ℕ) (xs : List Source) (x : Source)
    → find a xs ≡ some x
    → is_watched x ≡ true
    → NotIn h (handles (expected xs))
    → x.native_handle ≢ h
unfolding find expected
handle-ne a h [] x e w k = cc
handle-ne a h (y ∷ ys) x e w k = elim (Bool-cases (y.address == a)) [
  | inl here ↦ ground arith
  | inr there ↦ ground (arith, handle-ne a h ys x)
]

expected-deactivate_watched :
    (a : ℕ) (xs : List Source) (x : Source)
    → find a xs ≡ some x
    → is_watched x ≡ true
    → Distinct (handles (expected xs))
    → expected (deactivate a xs) ≡ without_handle x.native_handle (expected xs)
unfolding find expected deactivate without_handle
expected-deactivate_watched a [] x e w d = cc
expected-deactivate_watched a (y ∷ ys) x e w d = elim (Bool-cases (is_watched y)) [
  | inl v ↦ ground (
    arith,
    v,
    expected-deactivate_watched a ys x,
    handle-ne a (y.native_handle) ys x,
    without_handle-NotIn (y.native_handle) (expected ys),
  )
  | inr v ↦ ground (arith, v, expected-deactivate_watched a ys x)
]

expected-deactivate_other :
    (a : ℕ) (xs : List Source) (x : Source)
    → find a xs ≡ some x
    → is_watched x ≡ false
    → expected (deactivate a xs) ≡ expected xs
unfolding find expected deactivate
expected-deactivate_other a [] x e w = cc
expected-deactivate_other a (y ∷ ys) x e w = ground (arith, expected-deactivate_other a ys x)

find-address : (a : ℕ) (xs : List Source) (x : Source) → find a xs ≡ some x → x.address ≡ a
unfolding find
find-address a [] x e = cc
find-address a (y ∷ ys) x e = ground (arith, find-address a ys x)

remove_active-IsValid :
    (a : ℕ) (x : Source) (s : State)
    → find a s.loop.sources ≡ some x
    → x.active ≡ true
    → IsValid s.loop
    → IsValid (remove_active x s).loop
unfolding remove_active backend_remove_socket
remove_active-IsValid a x s e act v = elim (Bool-cases (is_socket x.kind)) [
  | inl k ↦ rw k (record {
    fits = omega (arith, length-deactivate (x.address) src, v.fits);
    small = v.small;
    distinct = rw (addresses-deactivate (x.address) src) v.distinct;
    registrations =
        ap (without_handle (x.native_handle)) v.registrations
        ∙ sym (
            expected-deactivate_watched (x.address) src x found (ground arith)
              (subst (λ r. Distinct (handles r)) v.registrations v.exclusive));
    exclusive = Distinct-without_handle (x.native_handle) s.loop.registered v.exclusive;
    words = Words-deactivate (x.address) src v.words;
  })
  | inr k ↦ rw k (record {
    fits = omega (arith, length-deactivate (x.address) src, v.fits);
    small = v.small;
    distinct = rw (addresses-deactivate (x.address) src) v.distinct;
    registrations =
        v.registrations ∙ sym (expected-deactivate_other (x.address) src x found (ground arith));
    exclusive = v.exclusive;
    words = Words-deactivate (x.address) src v.words;
  })
]
  where
    src : List Source
    src = s.loop.sources

    found : find (x.address) src ≡ some x
    found = subst (λ b. find b src ≡ some x) (sym (find-address a src x e)) e

addresses-remove_active :
    (x : Source) (s : State) → addresses (remove_active x s).loop.sources ≡ addresses s.loop.sources
unfolding remove_active backend_remove_socket
addresses-remove_active x s = elim (Bool-cases (is_socket x.kind)) [
  | inl k ↦ rw k (addresses-deactivate x.address s.loop.sources)
  | inr k ↦ rw k (addresses-deactivate x.address s.loop.sources)
]

-- What a call leaves of the loop: its invariant and the addresses in the array.
abbrev Keeps : State → State → Type 0
Keeps s t = IsValid t.loop × (addresses t.loop.sources ≡ addresses s.loop.sources)

-- On a valid loop `x_event_source_remove`, called with NULL or with a pointer to a source in the array,
-- active or not, leaves a valid loop with the same addresses in its array.
pub source_remove-IsValid :
    (pointer : Option ℕ) (s t : State)
    → source_remove pointer s ≡ some t
    → IsValid s.loop
    → IsValid t.loop × (addresses t.loop.sources ≡ addresses s.loop.sources)
unfolding source_remove
source_remove-IsValid none s t e v = subst (Keeps s) (some-injective _ _ e) (v, refl)
source_remove-IsValid (some a) s t e v = elim (Option-cases (find a s.loop.sources)) [
  | inl missing ↦ absurd (let f = rw (missing, source_remove) at e in cc)
  | inr (x, found) ↦ elim (Bool-cases (x.active)) [
    | inl act ↦
        subst (Keeps s) (some-injective _ _ (rw (found, act, source_remove) at e))
          (remove_active-IsValid a x s found act v, addresses-remove_active x s)
    | inr idle ↦
        subst (Keeps s) (some-injective _ _ (rw (found, idle, source_remove) at e)) (v, refl)
  ]
]

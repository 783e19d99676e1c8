-- ===== src/Ledger/Bag.antt =====
-- The resources that are held, up to their order.
use xlib.Common.{
  ℕ, ◌+◌, ◌≤◌, ◌≡◌, refl, true, false, List, [], ◌∷◌, ◌++◌, if◌then◌else◌, arith, Bool-cases, inl,
  inr,
}
use xlib.Ledger.{Resource, ok, is_same, without}

-- How often a resource stands in a list.
abbrev pub count : Resource → List Resource → ℕ
count r [] = 0
count r (x ∷ xs) = (if is_same r x then 1 else 0) + count r xs

-- Two lists hold the same resources, as often.
pub record SameBag (xs ys : List Resource) : Type 0 where
  pub counts : (r : Resource) → count r xs ≡ count r ys

pub SameBag-refl : (xs : List Resource) → SameBag xs xs
SameBag-refl xs = record { counts = λ r. refl }

pub SameBag-trans : (xs ys zs : List Resource) → SameBag xs ys → SameBag ys zs → SameBag xs zs
SameBag-trans xs ys zs h k = record { counts = λ r. omega (arith, h.counts r, k.counts r) }

pub SameBag-cons :
    (x : Resource) (xs ys : List Resource) → SameBag xs ys → SameBag (x ∷ xs) (x ∷ ys)
SameBag-cons x xs ys h = record { counts = λ r. omega (arith, h.counts r) }

pub count-append :
    (r : Resource) (xs ys : List Resource) → count r (xs ++ ys) ≡ count r xs + count r ys
count-append r [] ys = omega arith
count-append r (x ∷ xs) ys = omega (arith, count-append r xs ys)

is_same_refl : (r : Resource) → is_same r r ≡ true
is_same_refl r = ground arith

is_same_right : (r x y : Resource) → is_same r x ≡ true → is_same y x ≡ is_same y r
is_same_right r x y e = ground arith

-- What `without` leaves of a list that has the resource.
record Found (r : Resource) (xs ys : List Resource) : Type 0 where
  finds : without r xs ≡ ok ys
  splits : SameBag xs (r ∷ ys)

without-Found :
    (r : Resource) (xs : List Resource) → 1 ≤ count r xs → (ys : List Resource) × Found r xs ys
unfolding without
without-Found r [] h = absurd (omega arith)
without-Found r (x ∷ xs) h = elim (Bool-cases (is_same r x)) [
  | inl e ↦ (
    xs,
    record {
      finds = rw (e, without) refl;
      splits = record { counts = λ y. rw (is_same_right r x y e) refl };
    },
  )
  | inr e ↦ further e (without-Found r xs (ground arith))
]
  where
    further :
        is_same r x ≡ false
        → (ys : List Resource) × Found r xs ys
        → (ys : List Resource) × Found r (x ∷ xs) ys
    further e (ys, f) = (
      x ∷ ys,
      record {
        finds = rw (e, f.finds, without) refl;
        splits = record { counts = λ y. omega (arith, f.splits.counts y) };
      },
    )

counted_once : (r : Resource) (xs : List Resource) → 1 ≤ count r (r ∷ xs)
counted_once r xs = rw (is_same_refl r) (omega arith)

-- A resource that is held can be given back, and what is left is the rest.
pub without-SameBag :
    (r : Resource) (xs rest : List Resource)
    → SameBag xs (r ∷ rest)
    → (ys : List Resource) × (without r xs ≡ ok ys) × SameBag ys rest
without-SameBag r xs rest h =
    of_Found (without-Found r xs (omega (arith, h.counts r, counted_once r rest)))
  where
    of_Found :
        (ys : List Resource) × Found r xs ys
        → (ys : List Resource) × (without r xs ≡ ok ys) × SameBag ys rest
    of_Found (ys, f) =
        (ys, f.finds, record { counts = λ y. omega (arith, h.counts y, f.splits.counts y) })

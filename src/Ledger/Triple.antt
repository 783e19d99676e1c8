-- ===== src/Ledger/Triple.antt =====
-- What the programs of the ledger do to the resources that are held: rules for their steps.
use xlib.Common.{
  ℕ, ◌≡◌, Bool, true, false, Option, none, some, List, ◌∷◌, ◌++◌, ◌==◌, if◌then◌else◌,
}
use xlib.Ledger.Bag.{SameBag, SameBag-refl, SameBag-trans, SameBag-cons, without-SameBag}
use xlib.Ledger.{
  listed, optional, acquire_two, tried, settle, fail, Status, gave, gave_error, release_option,
  Kind, Resource, Oracle, World, Result, ok, err, fault, M, bind_result, ◌>>=◌, ◌>>◌, guard, call,
  ask, acquire, allocate, release, without, put_held, ◌or_after◌, translated, report, after_step,
  after_cleanup, pure, ignored,
}

-- What is held after each outcome, in any order. A fault is excluded.
abbrev pub Outcome : {A : Type 0} → List Resource → (A → List Resource) → Result A × World → Type 0
Outcome errs oks (ok a, v) = SameBag v.held (oks a)
Outcome errs oks (err e, v) = SameBag v.held errs
Outcome errs oks (fault, v) = ⊥

-- A program that starts with `pre` held, leaves `errs` with an error, and `oks a` with a value `a`.
pub record Triple {A : Type 0} (pre errs : List Resource) (oks : A → List Resource) (m : M A)
    : Type 0 where
  pub run : (o : Oracle) (w : World) → SameBag w.held pre → Outcome errs oks (m o w)

-- No fault; after an error what was held is held, after success the value's own resources besides.
abbrev pub Balanced : {A : Type 0} → (A → List Resource) → M A → Type 0
Balanced own m = (base : List Resource) → Triple base base (λ a. own a ++ base) m

-- Given resources on top of others, a program gives exactly those back; as `errs` is arbitrary, it
-- reports no error.
abbrev pub Frees : List Resource → M (Unit {0}) → Type 0
Frees own m = (base errs : List Resource) → Triple (own ++ base) errs (λ _. base) m

pub Triple-bind :
    {A B : Type 0} {pre errs : List Resource} {mid : A → List Resource} {oks : B → List Resource}
    {m : M A} {f : A → M B}
    → Triple pre errs mid m
    → ((a : A) → Triple (mid a) errs oks (f a))
    → Triple pre errs oks (m >>= f)
Triple-bind {A = A} {B = B} {errs = errs} {mid = mid} {oks = oks} {m = m} {f = f} h k = record {
  run = λ o w e. after o (m o w) (h.run o w e);
}
  where
    after :
        (o : Oracle) (r : Result A × World)
        → Outcome errs mid r
        → Outcome errs oks (bind_result r o f)
    after o (ok a, v) g = (k a).run o v g
    after o (err n, v) g = g
    after o (fault, v) g = g

pub Triple-or_after :
    {A : Type 0} {pre left errs : List Resource} {oks : A → List Resource} {m : M A}
    {cleanup : M (Unit {0})}
    → Triple pre left oks m
    → Triple left errs (λ _. errs) cleanup
    → Triple pre errs oks (m or_after cleanup)
Triple-or_after {A = A} {left = left} {errs = errs} {oks = oks} {m = m} {cleanup = cleanup} h k =
    record { run = λ o w e. after o (m o w) (h.run o w e) }
  where
    cleaned :
        (e : ℕ) (r : Result (Unit {0}) × World)
        → Outcome errs (λ _. errs) r
        → Outcome errs oks (after_cleanup {A = A} e r)
    cleaned e (ok u, v) g = g
    cleaned e (err n, v) g = g
    cleaned e (fault, v) g = g

    after :
        (o : Oracle) (r : Result A × World)
        → Outcome left oks r
        → Outcome errs oks (after_step cleanup o r)
    after o (ok a, v) g = g
    after o (err n, v) g = cleaned n (cleanup o v) (k.run o v g)
    after o (fault, v) g = g

pub Triple-translated :
    {A : Type 0} {pre errs : List Resource} {oks : A → List Resource} {m : M A} (f : ℕ → ℕ)
    → Triple pre errs oks m
    → Triple pre errs oks (translated f m)
Triple-translated {A = A} {errs = errs} {oks = oks} {m = m} f h = record {
  run = λ o w e. after (m o w) (h.run o w e);
}
  where
    after : (r : Result A × World) → Outcome errs oks r → Outcome errs oks (report f r)
    after (ok a, v) g = g
    after (err n, v) g = g
    after (fault, v) g = g

pub on_test :
    {A : Type 0} (errs : List Resource) (oks : A → List Resource) (test : Bool)
    (m n : Result A × World)
    → Outcome errs oks m
    → Outcome errs oks n
    → Outcome errs oks (if test then m else n)
on_test errs oks true m n h k = h
on_test errs oks false m n h k = k

pub Triple-if :
    {A : Type 0} {pre errs : List Resource} {oks : A → List Resource} {m n : M A} (test : Bool)
    → Triple pre errs oks m
    → Triple pre errs oks n
    → Triple pre errs oks (if test then m else n)
Triple-if true h k = h
Triple-if false h k = k

pub Triple-acquire :
    {pre : List Resource} (kind : Kind) → Triple pre pre (λ r. r ∷ pre) (acquire kind)
unfolding acquire
Triple-acquire {pre = pre} kind = record {
  run = λ o w e.
      on_test pre (λ (r : Resource). r ∷ pre) (o.status w.calls == 0) _ _ (SameBag-cons _ _ _ e) e;
}

pub Triple-allocate : {pre : List Resource} → Triple pre pre (λ r. r ∷ pre) allocate
unfolding allocate
Triple-allocate {pre = pre} = record {
  run = λ o w e.
      on_test pre (λ (r : Resource). r ∷ pre) (o.status w.calls == 0) _ _ (SameBag-cons _ _ _ e) e;
}

pub Triple-acquire_two :
    {pre : List Resource} (first second : Kind)
    → Triple pre pre (λ r. r.0 ∷ r.1 ∷ pre) (acquire_two first second)
unfolding acquire_two
Triple-acquire_two {pre = pre} first second = record {
  run = λ o w e.
      on_test pre (λ (r : Resource × Resource). r.0 ∷ r.1 ∷ pre) (o.status w.calls == 0) _ _
        (SameBag-cons _ _ _ (SameBag-cons _ _ _ e)) e;
}

-- What is held after either outcome of a step whose error is kept.
abbrev pub settled : {A : Type 0} → List Resource → (A → List Resource) → Status A → List Resource
settled errs oks (gave a) = oks a
settled errs oks (gave_error e) = errs

pub Triple-tried :
    {A : Type 0} {pre left errs : List Resource} {oks : A → List Resource} {m : M A}
    → Triple pre left oks m
    → Triple pre errs (settled left oks) (tried m)
Triple-tried {A = A} {left = left} {errs = errs} {oks = oks} {m = m} h = record {
  run = λ o w e. after (m o w) (h.run o w e);
}
  where
    after : (r : Result A × World) → Outcome left oks r → Outcome errs (settled left oks) (settle r)
    after (ok a, v) g = g
    after (err n, v) g = g
    after (fault, v) g = g

-- What is held after a step may be named otherwise.
pub Triple-weaken :
    {A : Type 0} {pre errs : List Resource} {mid oks : A → List Resource} {m : M A}
    → ((a : A) → SameBag (mid a) (oks a))
    → Triple pre errs mid m
    → Triple pre errs oks m
Triple-weaken {A = A} {errs = errs} {mid = mid} {oks = oks} {m = m} k h = record {
  run = λ o w e. after (m o w) (h.run o w e);
}
  where
    after : (r : Result A × World) → Outcome errs mid r → Outcome errs oks r
    after (ok a, v) g = SameBag-trans _ _ _ g (k a)
    after (err n, v) g = g
    after (fault, v) g = g

-- A step that leaves what was held, whatever it returns.
pub Triple-tried_same :
    {A : Type 0} {pre errs : List Resource} {m : M A}
    → Triple pre pre (λ _. pre) m
    → Triple pre errs (λ _. pre) (tried m)
Triple-tried_same {A = A} {pre = pre} h = Triple-weaken same (Triple-tried h)
  where
    same : (x : Status A) → SameBag (settled pre (λ _. pre) x) pre
    same (gave a) = SameBag-refl _
    same (gave_error e) = SameBag-refl _

pub Triple-call : {pre : List Resource} → Triple pre pre (λ _. pre) call
unfolding call
Triple-call {pre = pre} = record {
  run = λ o w e. on_test pre (λ (_ : Unit {0}). pre) (o.status w.calls == 0) _ _ e e;
}

pub Triple-ask : {pre : List Resource} → Triple pre pre (λ _. pre) ask
unfolding ask
Triple-ask {pre = pre} = record {
  run = λ o w e. on_test pre (λ (_ : ℕ). pre) (o.status w.calls == 0) _ _ e e;
}

pub Triple-ignored : {pre errs : List Resource} → Triple pre errs (λ _. pre) ignored
Triple-ignored = record { run = λ o w e. e }

pub Triple-pure :
    {A : Type 0} {a : A} {errs : List Resource} {oks : A → List Resource}
    → Triple (oks a) errs oks (pure a)
Triple-pure = record { run = λ o w e. e }

pub Triple-fail :
    {A : Type 0} {pre : List Resource} {oks : A → List Resource} {e : ℕ}
    → Triple pre pre oks (fail e)
Triple-fail = record { run = λ o w h. h }

pub Triple-guard :
    {pre : List Resource} (test : Bool) (status : ℕ) → Triple pre pre (λ _. pre) (guard test status)
Triple-guard true status = record { run = λ o w e. e }
Triple-guard false status = record { run = λ o w e. e }

-- A resource may be given back wherever it stands among those that are held.
pub Triple-give :
    {r : Resource} {pre rest errs : List Resource}
    → SameBag pre (r ∷ rest)
    → Triple pre errs (λ _. rest) (release r)
unfolding release
Triple-give {r = r} {pre = pre} {rest = rest} {errs = errs} h = record {
  run = λ o w e. released w (without-SameBag r w.held rest (SameBag-trans _ _ _ e h));
}
  where
    released :
        (w : World)
        → (ys : List Resource) × (without r w.held ≡ ok ys) × SameBag ys rest
        → Outcome errs (λ _. rest) (put_held (without r w.held) w)
    released w (ys, k, l) = rw k l

pub Triple-release :
    {r : Resource} {pre errs : List Resource} → Triple (r ∷ pre) errs (λ _. pre) (release r)
Triple-release {r = r} {pre = pre} = Triple-give (SameBag-refl _)

pub Triple-give_option :
    (x : Option Resource) {pre rest errs : List Resource}
    → SameBag pre (listed x ++ rest)
    → Triple pre errs (λ _. rest) (release_option x)
Triple-give_option none h = record { run = λ o w e. SameBag-trans _ _ _ e h }
Triple-give_option (some r) h = Triple-give h

-- A step whose result is not needed may be skipped.
pub Triple-optional :
    {pre : List Resource} {m : M Resource} (test : Bool)
    → Triple pre pre (λ r. r ∷ pre) m
    → Triple pre pre (λ x. listed x ++ pre) (optional test m)
Triple-optional true h = Triple-bind h λ _. Triple-pure
Triple-optional false h = Triple-pure

-- What is held may be named in another order.
pub Triple-reorder :
    {A : Type 0} {pre pre' errs : List Resource} {oks : A → List Resource} {m : M A}
    → SameBag pre pre'
    → Triple pre' errs oks m
    → Triple pre errs oks m
Triple-reorder h k = record { run = λ o w e. k.run o w (SameBag-trans _ _ _ e h) }

-- Cleanups.
pub Triple-release_two :
    {r q : Resource} {pre errs : List Resource}
    → Triple (r ∷ q ∷ pre) errs (λ _. pre) (release r >> release q)
Triple-release_two = Triple-bind Triple-release λ _. Triple-release

pub Triple-release_three :
    {r q p : Resource} {pre errs : List Resource}
    → Triple (r ∷ q ∷ p ∷ pre) errs (λ _. pre) (release r >> (release q >> release p))
Triple-release_three = Triple-bind Triple-release λ _. Triple-release_two

pub Triple-release_four :
    {r q p n : Resource} {pre errs : List Resource}
    → Triple
        (r ∷ q ∷ p ∷ n ∷ pre)
        errs
        (λ _. pre)
        (release r >> (release q >> (release p >> release n)))
Triple-release_four = Triple-bind Triple-release λ _. Triple-release_three

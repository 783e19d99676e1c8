-- ===== src/Ledger/Yields.antt =====
-- What the programs of the ledger yield when they succeed, whatever is held: rules for their steps.
use xlib.Common.{ℕ, ◌≡◌, List, ◌≢◌, refl, ◌==◌, if◌then◌else◌, Bool-cases, inl, inr, arith}
use xlib.Ledger.Triple.{Triple, Outcome}
use xlib.Ledger.{
  Resource, Kind, Status, gave, gave_error, Oracle, World, Result, ok, err, fault, M, bind_result,
  settle, counted, ◌>>=◌, ◌>>◌, call, ask, acquire, tried, pure,
}

abbrev pub Satisfies : {A : Type 0} → (A → Type 0) → Result A × World → Type 0
Satisfies P (ok a, v) = P a
Satisfies P (err e, v) = Unit
Satisfies P (fault, v) = Unit

-- Of a system that answers as `o` does.
pub record Yields {A : Type 0} (o : Oracle) (P : A → Type 0) (m : M A) : Type 0 where
  pub run : (w : World) → Satisfies P (m o w)

module _ {o : Oracle} where
  pub Yields-bind :
      {A B : Type 0} {P : A → Type 0} {Q : B → Type 0} {m : M A} {f : A → M B}
      → Yields o P m
      → ((a : A) → P a → Yields o Q (f a))
      → Yields o Q (m >>= f)
  Yields-bind {A = A} {P = P} {Q = Q} {m = m} {f = f} h k = record {
    run = λ w. after (m o w) (h.run w);
  }
    where
      after : (r : Result A × World) → Satisfies P r → Satisfies Q (bind_result r o f)
      after (ok a, v) g = (k a g).run v
      after (err e, v) g = tt
      after (fault, v) g = tt

  pub Yields-pure : {A : Type 0} {P : A → Type 0} {a : A} → P a → Yields o P (pure a)
  Yields-pure h = record { run = λ w. h }

  pub Yields-any : {A : Type 0} {m : M A} → Yields o (λ _. Unit {0}) m
  Yields-any {A = A} {m = m} = record { run = λ w. any (m o w) }
    where
      any : (r : Result A × World) → Satisfies (λ _. Unit {0}) r
      any (ok a, v) = tt
      any (err e, v) = tt
      any (fault, v) = tt

  -- A cleanup, and what follows.
  pub Yields-then :
      {A : Type 0} {P : A → Type 0} {m : M A} (c : M (Unit {0}))
      → Yields o P m
      → Yields o P (c >> m)
  Yields-then c h = Yields-bind Yields-any λ _ _. h

-- What a step has yielded, of any system, may be used behind it.
pub Triple-bind_yields :
    {A B : Type 0} {pre errs : List Resource} {mid : A → List Resource} {oks : B → List Resource}
    {P : Oracle → A → Type 0} {m : M A} {f : A → M B}
    → Triple pre errs mid m
    → ((o : Oracle) → Yields o (P o) m)
    → ((o : Oracle) (a : A) → P o a → Triple (mid a) errs oks (f a))
    → Triple pre errs oks (m >>= f)
Triple-bind_yields {A = A} {errs = errs} {mid = mid} {oks = oks} {P = P} {m = m} {f = f} h y k =
    record { run = λ o w e. after o (m o w) (h.run o w e) ((y o).run w) }
  where
    after :
        (o : Oracle) (r : Result A × World)
        → Outcome errs mid r
        → Satisfies (P o) r
        → Outcome errs oks (bind_result r o f)
    after o (ok a, v) g q = (k o a q).run o v g
    after o (err n, v) g q = g
    after o (fault, v) g q = g

-- An error that a call of the system has answered.
abbrev pub Answered : Oracle → ℕ → Type 0
Answered o e = (n : ℕ) × (o.status n ≡ e) × (e ≢ 0)

abbrev pub Failing : {A : Type 0} → Oracle → Status A → Type 0
Failing o (gave a) = Unit
Failing o (gave_error e) = Answered o e

failing :
    {A : Type 0} (o : Oracle) (n : ℕ) (a : A) (v w : World)
    → Satisfies (Failing o) (settle (if o.status n == 0 then (ok a, v) else (err (o.status n), w)))
failing o n a v w = elim (Bool-cases (o.status n == 0)) [
  | inl e ↦ rw e tt
  | inr e ↦ rw e (n, refl, λ z. ground (arith, e, z))
]

module _ {o : Oracle} where
  pub Yields-call : Yields o (Failing o) (tried call)
  unfolding call
  Yields-call = record { run = λ w. failing o w.calls tt (counted w) (counted w) }

  pub Yields-ask : Yields o (Failing o) (tried ask)
  unfolding ask
  Yields-ask = record { run = λ w. failing o w.calls (o.value w.calls) (counted w) (counted w) }

  pub Yields-acquire : (kind : Kind) → Yields o (Failing o) (tried (acquire kind))
  unfolding acquire
  Yields-acquire kind = record { run = λ w. failing o w.calls _ _ (counted w) }

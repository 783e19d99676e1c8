-- ===== src/Ledger/Opening.antt =====
-- A handle that is opened by the name of a text, which is freed before the outcome is looked at.
use xlib.Common.{List, [], ◌∷◌, ◌++◌, arith}
use xlib.Ledger.{Resource, M, Status, gave, gave_error, tried, ◌>>=◌, ◌>>◌, release}
use xlib.Ledger.Bag.{SameBag, SameBag-refl}
use xlib.Ledger.Triple.{Triple, Triple-bind, Triple-weaken, Triple-tried, Triple-give, settled}

-- What is held while the outcome of an open call has not been looked at.
abbrev pub opened : Status Resource → List Resource
opened (gave handle) = handle ∷ []
opened (gave_error e) = []

-- A handle is opened over a text, which is freed before the outcome is looked at.
pub Triple-open_over :
    (kind_open : M Resource) (text : Resource) (pre : List Resource)
    → ((any : List Resource) → Triple any any (λ r. r ∷ any) kind_open)
    → {B : Type 0} {errs : List Resource} {oks : B → List Resource} {f : Status Resource → M B}
    → ((x : Status Resource) → Triple (opened x ++ pre) errs oks (f x))
    → Triple (text ∷ pre) errs oks (tried kind_open >>= λ x. release text >> f x)
Triple-open_over kind_open text pre h k =
    Triple-bind (Triple-weaken named (Triple-tried (h (text ∷ pre))))
      λ x. Triple-bind (Triple-give {rest = opened x ++ pre} (below x)) λ _. k x
  where
    named :
        (x : Status Resource)
        → SameBag (settled (text ∷ pre) (λ r. r ∷ text ∷ pre) x) (opened x ++ text ∷ pre)
    named (gave handle) = SameBag-refl _
    named (gave_error e) = SameBag-refl _

    below : (x : Status Resource) → SameBag (opened x ++ text ∷ pre) (text ∷ opened x ++ pre)
    below (gave handle) = record { counts = λ y. omega arith }
    below (gave_error e) = SameBag-refl _

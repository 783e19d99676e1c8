-- ===== src/Memory/Balance.antt =====
-- The calls of src/x_memory.c keep account of what they hold.
use xlib.Common.{ℕ, Bool, List, [], ◌∷◌, ◌++◌, ◌==◌, einval}
use xlib.FilePath.{Platform, posix, windows}
use xlib.Ledger.{Resource, descriptor, section, view}
use xlib.Ledger.Triple.{
  Balanced, Frees, Triple, Triple-bind, Triple-or_after, Triple-acquire, Triple-allocate,
  Triple-call, Triple-ask, Triple-guard, Triple-release, Triple-release_two, Triple-release_three,
  Triple-release_four, Triple-pure, Triple-translated,
}
use xlib.Memory.{
  has, MappedFile, posix_file, windows_file, mapped_file_create, mapped_file_open,
  mapped_file_destroy, create_on, create_posix, create_windows, open_on, open_posix, open_windows,
  validate_protection,
}

-- What a mapping holds.
abbrev pub holdings : MappedFile → List Resource
holdings (posix_file created fd data_view size) = data_view ∷ fd ∷ created ∷ []
holdings (windows_file created file handle data_view size) =
    data_view ∷ handle ∷ file ∷ created ∷ []

create_posix-Triple :
    (created : Resource) (size : ℕ) (base : List Resource)
    → Triple (created ∷ base) base (λ f. holdings f ++ base) (create_posix created size)
unfolding create_posix
create_posix-Triple created size base =
    Triple-bind (Triple-or_after (Triple-acquire descriptor) Triple-release) λ _.
      Triple-bind (Triple-or_after Triple-call Triple-release_two)
        λ _. Triple-bind (Triple-or_after (Triple-acquire view) Triple-release_two) λ _. Triple-pure

create_windows-Triple :
    (created : Resource) (size : ℕ) (base : List Resource)
    → Triple (created ∷ base) base (λ f. holdings f ++ base) (create_windows created size)
unfolding create_windows
create_windows-Triple created size base =
    Triple-bind (Triple-or_after (Triple-guard _ _) Triple-release) λ _.
      Triple-bind (Triple-or_after (Triple-translated _ (Triple-acquire descriptor)) Triple-release)
        λ _. Triple-bind (Triple-or_after (Triple-translated _ Triple-call) Triple-release_two) λ _.
          Triple-bind (Triple-or_after (Triple-translated _ Triple-call) Triple-release_two) λ _.
            Triple-bind
              (Triple-or_after (Triple-translated _ (Triple-acquire section)) Triple-release_two)
              λ _.
                Triple-bind
                  (Triple-or_after (Triple-translated _ (Triple-acquire view)) Triple-release_three)
                  λ _. Triple-pure

open_posix-Triple :
    (created : Resource) (base : List Resource)
    → Triple (created ∷ base) base (λ f. holdings f ++ base) (open_posix created)
unfolding open_posix
open_posix-Triple created base =
    Triple-bind (Triple-or_after (Triple-acquire descriptor) Triple-release) λ _.
      Triple-bind (Triple-or_after Triple-ask Triple-release_two) λ _.
        Triple-bind (Triple-or_after (Triple-guard _ _) Triple-release_two) λ _.
          Triple-bind (Triple-or_after (Triple-acquire view) Triple-release_two) λ _. Triple-pure

open_windows-Triple :
    (created : Resource) (base : List Resource)
    → Triple (created ∷ base) base (λ f. holdings f ++ base) (open_windows created)
unfolding open_windows
open_windows-Triple created base =
    Triple-bind (Triple-or_after (Triple-translated _ (Triple-acquire descriptor)) Triple-release)
      λ _. Triple-bind (Triple-or_after (Triple-translated _ Triple-ask) Triple-release_two) λ _.
        Triple-bind (Triple-or_after (Triple-guard _ _) Triple-release_two) λ _.
          Triple-bind
            (Triple-or_after (Triple-translated _ (Triple-acquire section)) Triple-release_two)
            λ _.
              Triple-bind
                (Triple-or_after (Triple-translated _ (Triple-acquire view)) Triple-release_three)
                λ _. Triple-pure

create_on-Triple :
    (platform : Platform) (created : Resource) (size : ℕ) (base : List Resource)
    → Triple (created ∷ base) base (λ f. holdings f ++ base) (create_on platform created size)
unfolding create_on
create_on-Triple posix = create_posix-Triple
create_on-Triple windows = create_windows-Triple

open_on-Triple :
    (platform : Platform) (created : Resource) (base : List Resource)
    → Triple (created ∷ base) base (λ f. holdings f ++ base) (open_on platform created)
unfolding open_on
open_on-Triple posix = open_posix-Triple
open_on-Triple windows = open_windows-Triple

-- In either build, whatever the system answers, `x_mapped_file_create` gives back nothing twice; when
-- it fails it holds nothing that it did not hold before, and when it succeeds it holds besides
-- exactly the parts of the new mapping.
pub mapped_file_create-Balanced :
    (platform : Platform) (given : Bool) (size : ℕ)
    → Balanced holdings (mapped_file_create platform given size)
unfolding mapped_file_create
mapped_file_create-Balanced platform given size base =
    Triple-bind (Triple-guard _ _)
      λ _. Triple-bind Triple-allocate λ created. create_on-Triple platform created size base

-- In either build, whatever the system answers, `x_mapped_file_open` gives back nothing twice; when
-- it fails it holds nothing that it did not hold before, and when it succeeds it holds besides
-- exactly the parts of the mapping.
pub mapped_file_open-Balanced :
    (platform : Platform) (given : Bool) (protection : ℕ)
    → Balanced holdings (mapped_file_open platform given protection)
unfolding mapped_file_open
mapped_file_open-Balanced platform given protection base =
    Triple-bind (Triple-guard given einval) λ _.
      Triple-bind (Triple-guard (has protection 1) einval) λ _.
        Triple-bind (Triple-guard (validate_protection protection == 0) einval)
          λ _. Triple-bind Triple-allocate λ created. open_on-Triple platform created base

-- `x_mapped_file_destroy` gives back exactly what a mapping holds, and reports no error.
pub mapped_file_destroy-Frees : (f : MappedFile) → Frees (holdings f) (mapped_file_destroy f)
unfolding mapped_file_destroy
mapped_file_destroy-Frees (posix_file created fd data_view size) base errs = Triple-release_three
mapped_file_destroy-Frees (windows_file created file handle data_view size) base errs =
    Triple-release_four

-- In either build, whatever the system answers: `x_mapped_file_create` and `x_mapped_file_open` give
-- back nothing twice; when they fail they hold nothing that they did not hold before, and when they
-- succeed they hold besides exactly the parts of the mapping, which `x_mapped_file_destroy` gives back
-- without an error.
pub mapped_file-Balanced :
    (platform : Platform) (given : Bool) (size protection : ℕ)
    → Balanced holdings (mapped_file_create platform given size)
      × Balanced holdings (mapped_file_open platform given protection)
      × ((f : MappedFile) → Frees (holdings f) (mapped_file_destroy f))
mapped_file-Balanced platform given size protection = (
  mapped_file_create-Balanced platform given size,
  mapped_file_open-Balanced platform given protection,
  mapped_file_destroy-Frees,
)

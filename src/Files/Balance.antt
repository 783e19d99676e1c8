-- ===== src/Files/Balance.antt =====
-- Files, directories and asynchronous reads keep account of what they hold.
use xlib.Common.{
  ℕ, ◌+◌, ◌<◌, ◌≡◌, Bool, true, false, Option, some, List, [], ◌∷◌, ◌++◌, ltb, if◌then◌else◌,
  length, CString, IsString, word, einval, enametoolong, arith, append_assoc, sym, ap, subst,
}
use xlib.FilePath.{Platform, posix, windows, path_join}
use xlib.FilePath.Join.{joined, path_join_lem}
use xlib.Ledger.{
  Resource, M, Result, World, ok, err, fault, Status, gave, gave_error, listed, file_handle,
  directory_handle,
}
use xlib.Ledger.Bag.{SameBag, SameBag-refl, SameBag-trans, count, count-append}
use xlib.Ledger.Opening.{opened, Triple-open_over}
use xlib.Ledger.Triple.{
  Balanced, Frees, Triple, Outcome, Triple-bind, Triple-or_after, Triple-acquire, Triple-allocate,
  Triple-call, Triple-ask, Triple-guard, Triple-release, Triple-release_two, Triple-pure,
  Triple-fail, Triple-translated, Triple-give_option, Triple-tried, settled, Triple-weaken,
  Triple-reorder,
}
use xlib.Thread.Balance.{holdings as thread_parts, thread-Balanced, thread_join-Triple}
use xlib.Files.{
  take_wide, seek_end, opened_handle, open_on, File, file_open, file_close, joined_ok,
  search_pattern, path_max, Directory, open_directory_on, directory_open, directory_close,
  AsyncFileRead, async_file_read_all, wait_operation, async_file_read_wait, waited, free_async,
  async_file_read_destroy,
}

-- What a file and a directory hold.
abbrev pub file_holdings : File → List Resource
file_holdings f = f.handle ∷ f.created ∷ []

abbrev pub directory_holdings : Directory → List Resource
directory_holdings d = d.handle ∷ d.created ∷ []

pub take_wide-Triple : {pre : List Resource} → Triple pre pre (λ r. r ∷ pre) take_wide
unfolding take_wide
take_wide-Triple = Triple-bind (Triple-translated _ Triple-ask) λ _.
    Triple-bind Triple-allocate λ converted.
      Triple-bind (Triple-or_after (Triple-translated _ Triple-call) Triple-release)
        λ _. Triple-pure

opened_handle-Triple :
    {pre : List Resource} (x : Status Resource)
    → Triple (opened x ++ pre) pre (λ handle. handle ∷ pre) (opened_handle x)
unfolding opened_handle
opened_handle-Triple (gave handle) = Triple-pure
opened_handle-Triple (gave_error e) = Triple-fail

seek_end-Triple :
    (t : Bool) (handle created : Resource) (base : List Resource)
    → Triple
        (handle ∷ created ∷ base)
        base
        (λ _. handle ∷ created ∷ base)
        (seek_end t handle created)
unfolding seek_end
seek_end-Triple true handle created base =
    Triple-or_after (Triple-translated _ Triple-call) Triple-release_two
seek_end-Triple false handle created base = Triple-pure

open_on-Triple :
    (platform : Platform) (mode : ℕ) (created : Resource) (base : List Resource)
    → Triple (created ∷ base) base (λ f. file_holdings f ++ base) (open_on platform mode created)
unfolding open_on
open_on-Triple posix mode created base =
    Triple-bind (Triple-or_after (Triple-acquire file_handle) Triple-release) λ handle. Triple-pure
open_on-Triple windows mode created base =
    Triple-bind (Triple-or_after take_wide-Triple Triple-release) λ wide_path.
      Triple-open_over _ wide_path (created ∷ base) (λ any. Triple-acquire file_handle)
        λ x.
          Triple-bind (Triple-or_after (opened_handle-Triple x) Triple-release)
            λ handle. Triple-bind (seek_end-Triple _ handle created base) λ _. Triple-pure

-- A path, and the array in which a pattern is joined.
abbrev pub Usable : CString → List ℕ → Type 0
Usable path buffer = IsString path × (length buffer ≡ path_max) × (length path + 4 < word)

status-Triple :
    {pre : List Resource} (t : Bool) (after before : List ℕ)
    → Triple pre pre
        (λ _. pre)
        (joined_ok (if t then some (0, some after) else some (enametoolong, some before)))
unfolding joined_ok
status-Triple true after before = record { run = λ o w e. e }
status-Triple false after before = record { run = λ o w e. e }

joined_ok-Triple :
    {pre : List Resource} (path : CString) (buffer : List ℕ)
    → Usable path buffer
    → Triple pre pre
        (λ _. pre)
        (joined_ok (path_join windows (some buffer) path_max (some path) (some (42 ∷ []))))
joined_ok-Triple {pre = pre} path buffer u =
    subst (λ x. Triple pre pre (λ _. pre) (joined_ok x))
      (sym
        (path_join_lem windows buffer path (42 ∷ []) path_max u.0 (ground arith) (omega arith)
          (omega (arith, u.1)) (omega (arith, u.2))).0)
      (status-Triple (ltb (length (joined windows path (42 ∷ []))) path_max) _ buffer)

search_pattern-Triple :
    {pre : List Resource} (path : CString) (buffer : List ℕ)
    → Usable path buffer
    → Triple pre pre (λ r. r ∷ pre) (search_pattern path buffer)
unfolding search_pattern
search_pattern-Triple path buffer u =
    Triple-bind (joined_ok-Triple path buffer u) λ _. take_wide-Triple

open_directory_on-Triple :
    (platform : Platform) (path : CString) (buffer : List ℕ) (created : Resource)
    (base : List Resource)
    → Usable path buffer
    → Triple
        (created ∷ base)
        base
        (λ d. directory_holdings d ++ base)
        (open_directory_on platform path buffer created)
unfolding open_directory_on
open_directory_on-Triple posix path buffer created base u =
    Triple-bind (Triple-or_after (Triple-acquire directory_handle) Triple-release) λ handle.
      Triple-bind
        (Triple-or_after (Triple-guard (ltb (length path) path_max) enametoolong)
          Triple-release_two)
        λ _. Triple-pure
open_directory_on-Triple windows path buffer created base u =
    Triple-bind (Triple-or_after (search_pattern-Triple path buffer u) Triple-release) λ pattern.
      Triple-open_over _ pattern (created ∷ base) (λ any. Triple-acquire directory_handle)
        λ x.
          Triple-bind (Triple-or_after (opened_handle-Triple x) Triple-release)
            λ handle. Triple-pure

pub file_open-Balanced :
    (platform : Platform) (given : Bool) (mode : ℕ)
    → Balanced file_holdings (file_open platform given mode)
unfolding file_open
file_open-Balanced platform given mode base =
    Triple-bind (Triple-guard _ einval)
      λ _. Triple-bind Triple-allocate λ created. open_on-Triple platform mode created base

pub file_close-Frees : (f : File) → Frees (file_holdings f) (file_close f)
unfolding file_close
file_close-Frees f base errs = Triple-release_two

-- In either build, whatever the system answers, for a path that is a string and the 4096 bytes in
-- which the Windows build joins a pattern: `x_file_open` and `x_directory_open` give back nothing twice
-- and write inside that array; when they fail, at whichever step, they hold nothing that they did not
-- hold before, and when they succeed they hold besides exactly what `x_file_close` and
-- `x_directory_close` give back without an error.
pub files-Balanced :
    (platform : Platform) (given : Bool) (mode : ℕ) (path : CString) (buffer : List ℕ)
    → Usable path buffer
    → Balanced file_holdings (file_open platform given mode)
      × Balanced directory_holdings (directory_open platform given path buffer)
      × ((f : File) → Frees (file_holdings f) (file_close f))
      × ((d : Directory) → Frees (directory_holdings d) (directory_close d))
unfolding file_open directory_open file_close directory_close
files-Balanced platform given mode path buffer u = (
  file_open-Balanced platform given mode,
  λ base. Triple-bind (Triple-guard given einval) λ _.
      Triple-bind Triple-allocate
        λ created. open_directory_on-Triple platform path buffer created base u,
  file_close-Frees,
  λ d base errs. Triple-release_two,
)

-- What an asynchronous read holds, but for its data.
abbrev pub async_holdings : Platform → AsyncFileRead → List Resource
async_holdings platform a = thread_parts platform (a.thread) ++ a.path ∷ a.created ∷ []

-- What an operation holds may be named with the rest, and apart from it.
rejoin : (xs ys base : List Resource) → SameBag (xs ++ (ys ++ base)) ((xs ++ ys) ++ base)
rejoin xs ys base = record { counts = λ r. ap (count r) (sym (append_assoc xs ys base)) }

apart : (xs ys base : List Resource) → SameBag ((xs ++ ys) ++ base) (xs ++ (ys ++ base))
apart xs ys base = record { counts = λ r. ap (count r) (append_assoc xs ys base) }

async_all-Balanced :
    (platform : Platform) (given : Bool)
    → Balanced (async_holdings platform) (async_file_read_all platform given)
unfolding async_file_read_all
async_all-Balanced platform given base = Triple-bind (Triple-guard given einval) λ _.
    Triple-bind Triple-allocate λ created.
      Triple-bind (Triple-or_after Triple-allocate Triple-release) λ path.
        Triple-bind
          (Triple-or_after ((thread-Balanced platform true).0 (path ∷ created ∷ base))
            Triple-release_two)
          λ thread. Triple-reorder (rejoin (thread_parts platform thread) _ base) Triple-pure

Triple-renamed :
    {A : Type 0} {pre errs pre' errs' : List Resource} {oks : A → List Resource} {m : M A}
    → SameBag pre' pre
    → SameBag errs errs'
    → Triple pre errs oks m
    → Triple pre' errs' oks m
Triple-renamed {A = A} {errs = errs} {errs' = errs'} {oks = oks} {m = m} p q h = record {
  run = λ o w e. after (m o w) (h.run o w (SameBag-trans _ _ _ e p));
}
  where
    after : (r : Result A × World) → Outcome errs oks r → Outcome errs' oks r
    after (ok a, v) g = g
    after (err n, v) g = SameBag-trans _ _ _ g q
    after (fault, v) g = g

wait_operation-Triple :
    (t : Bool) (platform : Platform) (a : AsyncFileRead) (base : List Resource)
    → Triple
        (async_holdings platform a ++ base)
        (async_holdings platform a ++ base)
        (λ b. async_holdings platform b ++ base)
        (wait_operation t platform a)
unfolding wait_operation
wait_operation-Triple true platform a base = Triple-pure
wait_operation-Triple false platform a base =
    let rest : List Resource = a.path ∷ a.created ∷ [] in
    let parts = thread_parts platform (a.thread) in
    Triple-renamed (apart parts rest base) (rejoin parts rest base) (
      Triple-bind (thread_join-Triple platform (a.thread) (rest ++ base))
        λ thread. Triple-reorder (rejoin (thread_parts platform thread) rest base) Triple-pure)

free_async-Triple :
    (platform : Platform) (a : AsyncFileRead) (left : Option Resource) (base errs : List Resource)
    → Triple
        (async_holdings platform a ++ (listed left ++ base))
        errs
        (λ _. base)
        (free_async platform a left)
unfolding free_async
free_async-Triple platform a left base errs =
    Triple-reorder
      (apart (thread_parts platform (a.thread)) (a.path ∷ a.created ∷ []) (listed left ++ base))
      (Triple-bind ((thread-Balanced platform true).1 (a.thread) _ errs) λ _.
        Triple-bind (Triple-give_option left {rest = a.path ∷ a.created ∷ base} below)
          λ _. Triple-release_two)
  where
    below :
        SameBag
          (a.path ∷ a.created ∷ listed left ++ base)
          (listed left ++ a.path ∷ a.created ∷ base)
    below = record {
      counts = λ x. omega (
        arith,
        count-append x (listed left) base,
        count-append x (listed left) (a.path ∷ a.created ∷ base),
      );
    }

async_destroy-Triple :
    (platform : Platform) (a : AsyncFileRead) (left : Option Resource) (base errs : List Resource)
    → Triple
        (async_holdings platform a ++ (listed left ++ base))
        errs
        (λ _. base)
        (async_file_read_destroy platform a left)
unfolding async_file_read_destroy async_file_read_wait
async_destroy-Triple platform a left base errs =
    Triple-bind
      (Triple-weaken named
        (Triple-tried (wait_operation-Triple (a.joined) platform a (listed left ++ base))))
      λ status. free_async-Triple platform (waited a status) left base errs
  where
    named :
        (x : Status AsyncFileRead)
        → SameBag
            (settled
              (async_holdings platform a ++ (listed left ++ base))
              (λ b. async_holdings platform b ++ (listed left ++ base))
              x)
            (async_holdings platform (waited a x) ++ (listed left ++ base))
    named (gave b) = SameBag-refl _
    named (gave_error e) = SameBag-refl _

-- In either build, whatever the system answers: `x_async_file_read_all` gives back nothing twice; when it
-- fails it holds nothing that it did not hold before, and when it succeeds it holds besides exactly the
-- operation, the copy of the path and the thread; `x_async_file_read_destroy` gives these back, and the
-- data that the thread has left, whether the thread was joined before, is joined by it, or cannot be joined.
pub async_file_read-Balanced :
    (platform : Platform) (given : Bool)
    → Balanced (async_holdings platform) (async_file_read_all platform given)
      × ((a : AsyncFileRead) (left : Option Resource) (base errs : List Resource)
          → Triple
              (async_holdings platform a ++ (listed left ++ base))
              errs
              (λ _. base)
              (async_file_read_destroy platform a left))
async_file_read-Balanced platform given =
    (async_all-Balanced platform given, async_destroy-Triple platform)

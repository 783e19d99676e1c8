-- ===== src/Hooks/Latest.antt =====
-- Every hook and the allocator are the ones set last: what a program sees of the calls of
-- src/x_diagnostics.c and src/x_allocator.c.
use xlib.Common.{
  ℕ, ◌≡◌, refl, ap, ◌∙◌, Bool, true, false, not, ◌&&◌, Option, none, some, List, [], ◌∷◌, ◌++◌,
  take, ◌==◌, if◌then◌else◌, arith,
}
use xlib.Clock.{time_ns}
use xlib.Hooks.{
  Text, HookRegistration, Allocator, Hooks, Seen, log_hook_is, diag_hook_is, trace_hook_is,
  allocator_is, logged, diagnosed, traced, unregistered, default_allocator, initial, source_name,
  log_emit, diag_emit, timestamp_of, trace_emit, allocator_reset, allocator_set, alloc_by,
  realloc_by, free_by, HookCall, sets_log, sets_diag, sets_trace, gets_log, gets_diag, gets_trace,
  emits_log, emits_diag, emits_trace, sets_allocator, resets_allocator, gets_allocator, allocs,
  reallocs, frees, hook_call, run_hooks,
}

-- What the last call that sets it has set, or what it was at first; the newest call stands first.
module _ {A : Type 0} (setting : HookCall → Option A) (at_first : A) where
  abbrev set_or : Option A → A → A
  set_or none before = before
  set_or (some a) before = a

  abbrev latest : List HookCall → A
  latest [] = at_first
  latest (call ∷ past) = set_or (setting call) (latest past)

abbrev pub log_setting : HookCall → Option HookRegistration
log_setting (sets_log hook user_data) = some (record { hook = hook; user_data = user_data })
log_setting call = none

abbrev pub diag_setting : HookCall → Option HookRegistration
diag_setting (sets_diag hook user_data) = some (record { hook = hook; user_data = user_data })
diag_setting call = none

abbrev pub trace_setting : HookCall → Option HookRegistration
trace_setting (sets_trace hook user_data) = some (record { hook = hook; user_data = user_data })
trace_setting call = none

abbrev pub allocator_setting : HookCall → Option Allocator
allocator_setting (sets_allocator (some allocator)) = some allocator
allocator_setting (sets_allocator none) = some default_allocator
allocator_setting resets_allocator = some default_allocator
allocator_setting call = none

abbrev latest_hooks : List HookCall → Hooks
latest_hooks past = record {
  log = latest log_setting unregistered past;
  diag = latest diag_setting unregistered past;
  trace = latest trace_setting unregistered past;
  allocator = latest allocator_setting default_allocator past;
}

-- A call of a hook that is set, if the message is one to pass on.
abbrev pub heard : Option ℕ → ℕ → Bool → (ℕ → ℕ → Seen) → List Seen
heard none user_data wanted message = []
heard (some h) user_data wanted message = if wanted then message h user_data ∷ [] else []

abbrev pub given : Option Text → Bool
given none = false
given (some text) = true

abbrev pub text_of : Option Text → Text
text_of none = []
text_of (some text) = text

-- What is seen of a call, by the calls before it.
abbrev pub seen_of : List HookCall → HookCall → List Seen
seen_of past gets_log = log_hook_is (latest log_setting unregistered past).hook ∷ []
seen_of past gets_diag = diag_hook_is (latest diag_setting unregistered past).hook ∷ []
seen_of past gets_trace = trace_hook_is (latest trace_setting unregistered past).hook ∷ []
seen_of past gets_allocator = allocator_is (latest allocator_setting default_allocator past) ∷ []
seen_of past (emits_log level name format) =
    let r = latest log_setting unregistered past in
    heard r.hook r.user_data (given format)
      λ h u. logged h level (source_name name) (take 511 (text_of format)) u
seen_of past (emits_diag operation error_code context) =
    let r = latest diag_setting unregistered past in
    heard r.hook r.user_data (given operation && not (error_code == 0))
      λ h u. diagnosed h (text_of operation) error_code context u
seen_of past (emits_trace phase function clock) =
    let r = latest trace_setting unregistered past in
    heard r.hook r.user_data (given function)
      λ h u. traced h phase (text_of function) (timestamp_of (time_ns true clock)) u
seen_of past (allocs size) =
    let a = latest allocator_setting default_allocator past in
    alloc_by a.alloc size a.user_data ∷ []
seen_of past (reallocs pointer size) =
    let a = latest allocator_setting default_allocator past in
    realloc_by a.realloc pointer size a.user_data ∷ []
seen_of past (frees pointer) =
    let a = latest allocator_setting default_allocator past in
    free_by a.free pointer a.user_data ∷ []
seen_of past call = []

abbrev pub all_seen : List HookCall → List HookCall → List Seen
all_seen past [] = []
all_seen past (call ∷ calls) = seen_of past call ++ all_seen (call ∷ past) calls

hook_call-latest :
    (call : HookCall) (past : List HookCall)
    → (hook_call call (latest_hooks past)).0 ≡ latest_hooks (call ∷ past)
unfolding hook_call allocator_set allocator_reset
hook_call-latest (sets_allocator none) past = refl
hook_call-latest (sets_allocator (some a)) past = refl
hook_call-latest (sets_log hook user_data) past = refl
hook_call-latest (sets_diag hook user_data) past = refl
hook_call-latest (sets_trace hook user_data) past = refl
hook_call-latest resets_allocator past = refl
hook_call-latest gets_log past = refl
hook_call-latest gets_diag past = refl
hook_call-latest gets_trace past = refl
hook_call-latest gets_allocator past = refl
hook_call-latest (emits_log level name format) past = refl
hook_call-latest (emits_diag operation error_code context) past = refl
hook_call-latest (emits_trace phase function clock) past = refl
hook_call-latest (allocs size) past = refl
hook_call-latest (reallocs pointer size) past = refl
hook_call-latest (frees pointer) past = refl

log_emit-heard :
    (level : ℕ) (name format : Option Text) (hook : Option ℕ) (user_data : ℕ)
    → log_emit level name format hook user_data
      ≡ heard hook user_data
          (given format)
          λ h u. logged h level (source_name name) (take 511 (text_of format)) u
unfolding log_emit
log_emit-heard level name format none user_data = refl
log_emit-heard level name none (some h) user_data = refl
log_emit-heard level name (some text) (some h) user_data = refl

diag_emit-heard :
    (operation : Option Text) (error_code : ℕ) (context : Option Text) (hook : Option ℕ)
    (user_data : ℕ)
    → diag_emit operation error_code context hook user_data
      ≡ heard hook user_data
          (given operation && not (error_code == 0))
          λ h u. diagnosed h (text_of operation) error_code context u
unfolding diag_emit
diag_emit-heard operation error_code context none user_data = refl
diag_emit-heard none error_code context (some h) user_data = refl
diag_emit-heard (some text) error_code context (some h) user_data = ground arith

trace_emit-heard :
    (phase : ℕ) (function : Option Text) (clock : ℕ × ℕ × ℕ) (hook : Option ℕ) (user_data : ℕ)
    → trace_emit phase function clock hook user_data
      ≡ heard hook user_data
          (given function)
          λ h u. traced h phase (text_of function) (timestamp_of (time_ns true clock)) u
unfolding trace_emit
trace_emit-heard phase function clock none user_data = refl
trace_emit-heard phase none clock (some h) user_data = refl
trace_emit-heard phase (some text) clock (some h) user_data = refl

hook_call-seen :
    (call : HookCall) (past : List HookCall)
    → (hook_call call (latest_hooks past)).1 ≡ seen_of past call
unfolding hook_call
hook_call-seen (emits_log level name format) past = log_emit-heard level name format _ _
hook_call-seen (emits_diag operation error_code context) past =
    diag_emit-heard operation error_code context _ _
hook_call-seen (emits_trace phase function clock) past = trace_emit-heard phase function clock _ _
hook_call-seen (sets_log hook user_data) past = refl
hook_call-seen (sets_diag hook user_data) past = refl
hook_call-seen (sets_trace hook user_data) past = refl
hook_call-seen (sets_allocator a) past = refl
hook_call-seen resets_allocator past = refl
hook_call-seen gets_log past = refl
hook_call-seen gets_diag past = refl
hook_call-seen gets_trace past = refl
hook_call-seen gets_allocator past = refl
hook_call-seen (allocs size) past = refl
hook_call-seen (reallocs pointer size) past = refl
hook_call-seen (frees pointer) past = refl

run_hooks-latest :
    (past calls : List HookCall) → run_hooks (latest_hooks past) calls ≡ all_seen past calls
unfolding run_hooks
run_hooks-latest past [] = refl
run_hooks-latest past (call ∷ calls) =
    ap (λ h. (hook_call call (latest_hooks past)).1 ++ run_hooks h calls)
      (hook_call-latest call past)
    ∙ (ap (λ s. s ++ run_hooks (latest_hooks (call ∷ past)) calls) (hook_call-seen call past)
        ∙ ap (λ s. seen_of past call ++ s) (run_hooks-latest (call ∷ past) calls))

-- For every program of calls of x_diagnostics.c and x_allocator.c whose hooks make no such calls
-- themselves: a log message, a diagnostic or a trace reaches exactly the hook that was set last, with the
-- `user_data` that was set with it, and nobody where that is NULL, where it has no text, or where the error code
-- is 0; a log message arrives as at most 511 bytes; every block is asked for, resized and freed by the
-- functions of the allocator that was set last and not reset since, which are those of the system before the
-- first; and the getters answer what was set last.
pub run_hooks_lem : (calls : List HookCall) → run_hooks initial calls ≡ all_seen [] calls
run_hooks_lem calls = run_hooks-latest [] calls

-- ===== src/Hooks.antt =====
-- The hooks of a program: `x_log_set_hook`, `x_diag_set_hook`, `x_trace_set_hook` and what emits to them, of
-- src/x_diagnostics.c, and the allocator of src/x_allocator.c.
pub mod Latest
mod Tests
use xlib.Common.{ℕ, Option, none, some, List, [], ◌∷◌, ◌++◌, take, ◌==◌, if◌then◌else◌, true}
use xlib.Clock.{time_ns}

-- The bytes of a string.
abbrev pub Text : Type 0
Text = List ℕ

-- What a `*_set_hook` is given: a function of the program or NULL, and its `user_data`.
pub record HookRegistration : Type 0 where
  pub hook : Option ℕ
  pub user_data : ℕ

-- `x_allocator_default_*`, or a function of the program.
pub data Function : Type 0 where
  default_function : Function
  custom : (f : ℕ) → Function

-- `x_allocator_t`
pub record Allocator : Type 0 where
  pub alloc : Function
  pub realloc : Function
  pub free : Function
  pub user_data : ℕ

-- The static variables of the two files.
pub record Hooks : Type 0 where
  pub log : HookRegistration
  pub diag : HookRegistration
  pub trace : HookRegistration
  pub allocator : Allocator

-- The functions of the program and of the system that are called, with their arguments, and the answers
-- of the getters.
pub data Seen : Type 0 where
  log_hook_is : (hook : Option ℕ) → Seen
  diag_hook_is : (hook : Option ℕ) → Seen
  trace_hook_is : (hook : Option ℕ) → Seen
  allocator_is : (allocator : Allocator) → Seen
  logged : (hook level : ℕ) (source text : Text) (user_data : ℕ) → Seen
  diagnosed :
      (hook : ℕ) (operation : Text) (error_code : ℕ) (context : Option Text) (user_data : ℕ) → Seen
  traced : (hook phase : ℕ) (function : Text) (timestamp user_data : ℕ) → Seen
  malloc : (size : ℕ) → Seen
  realloc : (pointer size : ℕ) → Seen
  free : (pointer : ℕ) → Seen
  allocated_by : (f size user_data : ℕ) → Seen
  reallocated_by : (f pointer size user_data : ℕ) → Seen
  freed_by : (f pointer user_data : ℕ) → Seen

abbrev pub unregistered : HookRegistration
unregistered = record { hook = none; user_data = 0 }

abbrev pub default_allocator : Allocator
default_allocator = record {
  alloc = default_function;
  realloc = default_function;
  free = default_function;
  user_data = 0;
}

-- As the program starts.
abbrev pub initial : Hooks
initial = record {
  log = unregistered;
  diag = unregistered;
  trace = unregistered;
  allocator = default_allocator;
}

-- `x_log_set_hook`, `x_diag_set_hook` and `x_trace_set_hook`
abbrev pub log_set_hook : Option ℕ → ℕ → Hooks → Hooks
log_set_hook hook user_data hooks = record hooks {
  log = record { hook = hook; user_data = user_data };
}

abbrev pub diag_set_hook : Option ℕ → ℕ → Hooks → Hooks
diag_set_hook hook user_data hooks = record hooks {
  diag = record { hook = hook; user_data = user_data };
}

abbrev pub trace_set_hook : Option ℕ → ℕ → Hooks → Hooks
trace_set_hook hook user_data hooks = record hooks {
  trace = record { hook = hook; user_data = user_data };
}

-- `module != NULL ? module : "xlib"`
abbrev pub source_name : Option Text → Text
source_name none = 120 ∷ 108 ∷ 105 ∷ 98 ∷ []
source_name (some name) = name

-- `x_log_emit`, whose format is NULL, or given as what `vsnprintf` prints of it and the arguments.
pub log_emit : ℕ → Option Text → Option Text → Option ℕ → ℕ → List Seen
log_emit level name format none user_data = []
log_emit level name none (some h) user_data = []
log_emit level name (some printed) (some h) user_data =
    logged h level (source_name name) (take 511 printed) user_data ∷ []

-- `x_diag_emit`
pub diag_emit : Option Text → ℕ → Option Text → Option ℕ → ℕ → List Seen
diag_emit operation error_code context none user_data = []
diag_emit none error_code context (some h) user_data = []
diag_emit (some operation) error_code context (some h) user_data =
    if error_code == 0 then [] else diagnosed h operation error_code context user_data ∷ []

-- `timestamp`, which stays 0 when the clock fails.
abbrev pub timestamp_of : ℕ × Option ℕ → ℕ
timestamp_of (status, none) = 0
timestamp_of (status, some ns) = ns

-- `x_trace_emit`; `clock` is the answer of the clock.
pub trace_emit : ℕ → Option Text → ℕ × ℕ × ℕ → Option ℕ → ℕ → List Seen
trace_emit phase function clock none user_data = []
trace_emit phase none clock (some h) user_data = []
trace_emit phase (some function) clock (some h) user_data =
    traced h phase function (timestamp_of (time_ns true clock)) user_data ∷ []

-- `x_allocator_reset`
pub allocator_reset : Hooks → Hooks
allocator_reset hooks = record hooks {
  allocator = record {
    alloc = default_function;
    realloc = default_function;
    free = default_function;
    user_data = 0;
  };
}

-- `x_allocator_set`
pub allocator_set : Option Allocator → Hooks → Hooks
allocator_set none hooks = allocator_reset hooks
allocator_set (some allocator) hooks = record hooks { allocator = allocator }

abbrev pub alloc_by : Function → ℕ → ℕ → Seen
alloc_by default_function size user_data = malloc size
alloc_by (custom f) size user_data = allocated_by f size user_data

abbrev pub realloc_by : Function → ℕ → ℕ → ℕ → Seen
realloc_by default_function pointer size user_data = realloc pointer size
realloc_by (custom f) pointer size user_data = reallocated_by f pointer size user_data

abbrev pub free_by : Function → ℕ → ℕ → Seen
free_by default_function pointer user_data = free pointer
free_by (custom f) pointer user_data = freed_by f pointer user_data

-- The calls of the functions of the two files.
pub data HookCall : Type 0 where
  sets_log : (hook : Option ℕ) (user_data : ℕ) → HookCall
  sets_diag : (hook : Option ℕ) (user_data : ℕ) → HookCall
  sets_trace : (hook : Option ℕ) (user_data : ℕ) → HookCall
  gets_log : HookCall
  gets_diag : HookCall
  gets_trace : HookCall
  emits_log : (level : ℕ) (name format : Option Text) → HookCall
  emits_diag : (operation : Option Text) (error_code : ℕ) (context : Option Text) → HookCall
  emits_trace : (phase : ℕ) (function : Option Text) (clock : ℕ × ℕ × ℕ) → HookCall
  sets_allocator : (allocator : Option Allocator) → HookCall
  resets_allocator : HookCall
  gets_allocator : HookCall
  allocs : (size : ℕ) → HookCall
  reallocs : (pointer size : ℕ) → HookCall
  frees : (pointer : ℕ) → HookCall

pub hook_call : HookCall → Hooks → Hooks × List Seen
hook_call (sets_log hook user_data) hooks = (log_set_hook hook user_data hooks, [])
hook_call (sets_diag hook user_data) hooks = (diag_set_hook hook user_data hooks, [])
hook_call (sets_trace hook user_data) hooks = (trace_set_hook hook user_data hooks, [])
hook_call gets_log hooks = (hooks, log_hook_is hooks.log.hook ∷ [])
hook_call gets_diag hooks = (hooks, diag_hook_is hooks.diag.hook ∷ [])
hook_call gets_trace hooks = (hooks, trace_hook_is hooks.trace.hook ∷ [])
hook_call (emits_log level name format) hooks =
    (hooks, log_emit level name format hooks.log.hook hooks.log.user_data)
hook_call (emits_diag operation error_code context) hooks =
    (hooks, diag_emit operation error_code context hooks.diag.hook hooks.diag.user_data)
hook_call (emits_trace phase function clock) hooks =
    (hooks, trace_emit phase function clock hooks.trace.hook hooks.trace.user_data)
hook_call (sets_allocator allocator) hooks = (allocator_set allocator hooks, [])
hook_call resets_allocator hooks = (allocator_reset hooks, [])
hook_call gets_allocator hooks = (hooks, allocator_is hooks.allocator ∷ [])
hook_call (allocs size) hooks =
    (hooks, alloc_by hooks.allocator.alloc size hooks.allocator.user_data ∷ [])
hook_call (reallocs pointer size) hooks =
    (hooks, realloc_by hooks.allocator.realloc pointer size hooks.allocator.user_data ∷ [])
hook_call (frees pointer) hooks =
    (hooks, free_by hooks.allocator.free pointer hooks.allocator.user_data ∷ [])

-- What is seen of a program whose hooks call none of these functions themselves.
pub run_hooks : Hooks → List HookCall → List Seen
run_hooks hooks [] = []
run_hooks hooks (call ∷ calls) =
    let answer = hook_call call hooks in answer.1 ++ run_hooks answer.0 calls

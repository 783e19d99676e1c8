-- ===== src/Thread/Tests.antt =====
-- Runs of the threads and locks, and instances of their theorems.
use xlib.Common.{◌≡◌, refl, true, false, [], ◌∷◌, ◌++◌, ◌==◌, if◌then◌else◌}
use xlib.FilePath.{posix}
use xlib.Ledger.{Resource, memory, thread_handle, err, call, acquire, allocate, release, without}
use xlib.Ledger.Triple.{Triple}
use xlib.Thread.{Thread, thread_create, mutex_create_with_type, set_recursive}
use xlib.Thread.Balance.{holdings, threads-Balanced}

abbrev other : Resource
other = record { kind = memory; id = 9 }

abbrev worker : Thread
worker = record {
  created = record { kind = memory; id = 1 };
  handle = record { kind = thread_handle; id = 2 };
  joined = false;
}

-- The mutex cannot be made: its attributes are destroyed and its memory is freed.
mutex_fails :
    mutex_create_with_type true true
      (record { status = λ k. if k == 3 then 11 else 0; value = λ k. 0 })
      (record { held = []; calls = 0 })
    ≡ (err 11, record { held = []; calls = 6 })
unfolding mutex_create_with_type set_recursive call acquire allocate release without
mutex_fails = refl

threads-Balanced_example :
    Triple
      (other ∷ [])
      (other ∷ [])
      (λ t. holdings posix t ++ other ∷ [])
      (thread_create posix true)
threads-Balanced_example = (threads-Balanced posix true true).0.0 (other ∷ [])

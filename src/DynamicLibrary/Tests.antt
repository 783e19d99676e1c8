-- ===== src/DynamicLibrary/Tests.antt =====
-- A library that is not there, and an instance of the theorem.
use xlib.Common.{true, none, some, [], ◌∷◌, ◌++◌, zeros, length-zeros, ◌==◌, if◌then◌else◌, arith}
use xlib.FilePath.{windows}
use xlib.Ledger.{Resource, memory, Oracle}
use xlib.Ledger.Triple.{Triple}
use xlib.Ledger.Yields.{Yields}
use xlib.DynamicLibrary.{Messages, dynamic_library_open}
use xlib.DynamicLibrary.Said.{IsMessages, Told}
use xlib.DynamicLibrary.Balance.{library_parts, dynamic_library-Reports}

abbrev other : Resource
other = record { kind = memory; id = 9 }

abbrev messages : Messages
messages = record {
  strerror = λ e. 101 ∷ [];
  pending = some (111 ∷ []);
  dlerror = λ e. some (100 ∷ 108 ∷ []);
  format = λ n e. none;
  after_free = λ n e. e;
}

-- Every call but the allocations fails with the error 126.
abbrev fails : Oracle
fails = record { status = λ n. if n == 0 then 0 else 126; value = λ n. 0 }

messages-IsMessages : IsMessages messages
messages-IsMessages = record {
  strerror = λ e. (omega arith, tt);
  dlerror = λ n. (omega arith, (omega arith, tt));
  format = λ n e. tt;
}

dynamic_library-Reports_example :
    Triple
      (other ∷ [])
      []
      (λ r. library_parts r.result ++ other ∷ [])
      (dynamic_library_open windows messages true (zeros 512))
    × Yields fails (Told fails messages) (dynamic_library_open windows messages true (zeros 512))
dynamic_library-Reports_example =
    (dynamic_library-Reports windows messages true (zeros 512) (other ∷ []) [] fails
      messages-IsMessages (length-zeros 512)).0

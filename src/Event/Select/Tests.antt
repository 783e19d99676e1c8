-- ===== src/Event/Select/Tests.antt =====
-- Two sockets of which one can be read.
use xlib.Common.{ℕ, ◌≡◌, refl, true, false, some, List, [], ◌∷◌, arith}
use xlib.FilePath.{posix}
use xlib.Event.{Source, socket, event_read}
use xlib.Event.Select.{Sets, is_set, any, asks_on, select_sets, watch, watch_all}
use xlib.Event.Select.Right.{IsLeft, select-Right}

abbrev reader : ℕ → Source
reader handle = record {
  address = handle;
  kind = socket;
  active = true;
  internal = false;
  events = 1;
  native_handle = handle;
  object = 0;
  due_ns = 0;
  interval_ns = 0;
  callback = 0;
}

abbrev sources : List Source
sources = reader 5 ∷ reader 8 ∷ []

abbrev ready : Sets
ready = record { read_set = 8 ∷ []; write_set = []; max_fd = 8; has_socket = true; outside = false }

ready-IsLeft : IsLeft (select_sets posix sources) ready
unfolding select_sets watch_all watch
ready-IsLeft = record { read = λ h e. ground (arith, e); write = λ h e. ground (arith, e) }

select-Right_example :
    is_set 8 (select_sets posix sources).read_set ≡ any (asks_on event_read 8) sources
select-Right_example = (select-Right posix sources ready 8 (some 20) refl ready-IsLeft).0.0.0

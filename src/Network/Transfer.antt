-- ===== src/Network/Transfer.antt =====
-- The counts of bytes and the timeouts of src/x_network.c: `x_socket_send`, `x_socket_receive`,
-- `x_socket_send_to`, `x_socket_receive_from` and `x_socket_set_timeout`.
mod Tests
use xlib.Common.{
  ℕ, ◌+◌, ◌-◌, ◌*◌, ◌/◌, ◌%◌, ◌≤◌, ◌<◌, ◌≡◌, ◌⊎◌, inl, inr, refl, Bool, true, false, Option, none,
  some, List, ltb, ◌==◌, if◌then◌else◌, length, int_max, einval, arith,
}
use xlib.Ledger.{Status, gave, gave_error}
use xlib.Network.{SocketAddress, copy_address}

-- `size > (size_t)INT_MAX ? (size_t)INT_MAX : size`
pub socket_chunk : ℕ → ℕ
socket_chunk size = if ltb int_max size then int_max else size

-- What is returned, and what is stored as the number of bytes.
pub record SocketTransfer : Type 0 where
  pub status : ℕ
  pub bytes : ℕ

outcome : Status ℕ → SocketTransfer
outcome (gave count) = record { status = 0; bytes = count }
outcome (gave_error e) = record { status = e; bytes = 0 }

-- `x_socket_send`, `x_socket_receive` and `x_socket_send_to`, of arguments that are as they should
-- be; `system` is what `send`, `recv` or `sendto` answers when it is asked for so many bytes.
pub socket_transfer : ℕ → (ℕ → Status ℕ) → SocketTransfer
socket_transfer size system = outcome (system (socket_chunk size))

-- The address of the sender, where it is asked for; its error hides the number of bytes.
with_source : Option SocketAddress → List ℕ → ℕ → SocketTransfer × Option SocketAddress
with_source none source count = (record { status = 0; bytes = count }, none)
with_source (some address) source count =
    let copied = copy_address address source in
    (record { status = copied.0; bytes = if copied.0 == 0 then count else 0 }, some copied.1)

received : Option SocketAddress → Status (ℕ × List ℕ) → SocketTransfer × Option SocketAddress
received address (gave (count, source)) = with_source address source count
received address (gave_error e) = (record { status = e; bytes = 0 }, address)

-- `x_socket_receive_from`: `recvfrom` answers with the number of bytes and those of the address.
pub socket_receive_from :
    Option SocketAddress → ℕ → (ℕ → Status (ℕ × List ℕ)) → SocketTransfer × Option SocketAddress
socket_receive_from address size system = received address (system (socket_chunk size))

-- `struct timeval`
pub record Timeval : Type 0 where
  pub tv_sec : ℕ
  pub tv_usec : ℕ

-- The interval that `x_socket_set_timeout` sets in the POSIX build.
pub timeval_of : ℕ → Timeval
timeval_of milliseconds = record {
  tv_sec = milliseconds / 1000;
  tv_usec = (milliseconds % 1000) * 1000;
}

-- The system transfers no more than it is asked for.
pub record IsTransfer (system : ℕ → Status ℕ) : Type 0 where
  pub within : (asked count : ℕ) → system asked ≡ gave count → count ≤ asked

pub record IsReceive (system : ℕ → Status (ℕ × List ℕ)) : Type 0 where
  pub within :
      (asked count : ℕ) (source : List ℕ) → system asked ≡ gave (count, source) → count ≤ asked

abbrev pub Within : ℕ → SocketTransfer → Type 0
Within size t = (t.bytes ≤ size) × ((t.status ≡ 0) ⊎ (t.bytes ≡ 0))

socket_chunk-fits : (size : ℕ) → (socket_chunk size ≤ size) × (socket_chunk size ≤ int_max)
unfolding socket_chunk
socket_chunk-fits size = ground arith

outcome-Within :
    (size : ℕ) (answer : Status ℕ)
    → ((count : ℕ) → answer ≡ gave count → count ≤ size)
    → Within size (outcome answer)
unfolding outcome
outcome-Within size (gave count) h = (h count refl, inl refl)
outcome-Within size (gave_error e) h = (omega arith, inr refl)

received-Within :
    (address : Option SocketAddress) (size : ℕ) (answer : Status (ℕ × List ℕ))
    → ((count : ℕ) (source : List ℕ) → answer ≡ gave (count, source) → count ≤ size)
    → Within size (received address answer).0
unfolding received with_source
received-Within address size (gave_error e) h = (omega arith, inr refl)
received-Within none size (gave (count, source)) h = (h count source refl, inl refl)
received-Within (some address) size (gave (count, source)) h = ground (arith, h count source refl)

-- For every size, with a system that transfers no more than it is asked for: the sends and the
-- receives ask for at most INT_MAX bytes, store a number of bytes within the size, and store 0 when
-- they report an error, that of the copy of the sender's address included.
pub socket_transfer-Within :
    (size : ℕ) (system : ℕ → Status ℕ) (from : ℕ → Status (ℕ × List ℕ))
    (address : Option SocketAddress)
    → IsTransfer system
    → IsReceive from
    → Within size (socket_transfer size system)
      × Within size (socket_receive_from address size from).0
      × (socket_chunk size ≤ int_max)
unfolding socket_transfer socket_receive_from
socket_transfer-Within size system from address h k = (
  outcome-Within size _ λ count e. omega (arith, h.within _ count e, (socket_chunk-fits size).0),
  received-Within address size _
      λ count source e. omega (arith, k.within _ count source e, (socket_chunk-fits size).0),
  (socket_chunk-fits size).1,
)

-- The interval is the timeout exactly, with less than a second of microseconds.
timeval_lem :
    (milliseconds : ℕ)
    → let t = timeval_of milliseconds in
      (t.tv_sec * 1_000_000 + t.tv_usec ≡ milliseconds * 1000) × (t.tv_usec < 1_000_000)
unfolding timeval_of
timeval_lem milliseconds = (omega arith, omega arith)

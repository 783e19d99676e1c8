-- ===== src/Network/Socket.antt =====
-- Sockets of src/x_network.c: the calls that take them and give them back, in both builds.
pub mod Balance
use xlib.Common.{
  ℕ, Bool, true, false, ◌&&◌, ◌||◌, not, Option, none, some, List, [], ◌∷◌, ◌==◌, if◌then◌else◌,
  einval, enoent, eacces, eio, eagain, eafnosupport, eaddrinuse, eaddrnotavail, econnreset, enobufs,
  etimedout, econnrefused, einprogress, enotsock, eprotonosupport,
}
use xlib.FilePath.{Platform, posix, windows}
use xlib.Ledger.{
  Resource, M, Status, gave, gave_error, socket_handle, address_list, tried, ◌>>=◌, ◌>>◌, guard,
  call, ask, acquire, allocate, release, ignored, ◌or_after◌, translated, pure, fail,
}
use xlib.Network.{SocketAddress, af_inet, af_inet6, copy_address, address_family}

-- `x_network_error_from_windows`
pub error_from_windows : ℕ → ℕ
error_from_windows error =
    if error == 0
    then 0
    else if error == 10035
    then eagain
    else if error == 10036
    then einprogress
    else if error == 10054
    then econnreset
    else if error == 10061
    then econnrefused
    else if error == 10048
    then eaddrinuse
    else if error == 10049
    then eaddrnotavail
    else if error == 10060
    then etimedout
    else if error == 10038
    then enotsock
    else if error == 10022
    then einval
    else if error == 10055
    then enobufs
    else if error == 10047
    then eafnosupport
    else if error == 10043
    then eprotonosupport
    else if error == 10013
    then eacces
    else if error == 11001
    then enoent
    else if error == 11004
    then enoent
    else eio

-- `x_socket_error`, of the last error.
socket_error : Platform → ℕ → ℕ
socket_error posix error = error
socket_error windows error = error_from_windows error

-- `x_network_startup`
startup : Platform → M (Unit {0})
startup posix = pure tt
startup windows = translated error_from_windows call

-- X_SOCKET_TCP and X_SOCKET_UDP
abbrev pub tcp : ℕ
tcp = 1

abbrev pub udp : ℕ
udp = 2

-- `struct x_socket`, with its own memory.
pub record Socket : Type 0 where
  pub created : Resource
  pub handle : Resource
  pub type : ℕ
  pub family : ℕ

-- `x_socket_create`, of a pointer that is `given` (not NULL).
pub socket_create : Platform → Bool → ℕ → ℕ → M Socket
socket_create platform given type family = do
  guard (given && ((type == tcp) || (type == udp))) einval
  guard ((family == af_inet) || (family == af_inet6)) einval
  startup platform
  created ← allocate
  handle ← translated (socket_error platform) (acquire socket_handle) or_after release created
  pure (record { created = created; handle = handle; type = type; family = family })

-- The flag that is set on an accepted descriptor.
close_on_exec : Platform → M (Unit {0})
close_on_exec posix = ignored
close_on_exec windows = pure tt

-- `x_socket_accept`; the family of the new socket is not set.
pub socket_accept : Platform → Bool → M Socket
socket_accept platform given = do
  guard given einval
  accepted ← allocate
  handle ← translated (socket_error platform) (acquire socket_handle) or_after release accepted
  close_on_exec platform
  pure (record { created = accepted; handle = handle; type = tcp; family = 0 })

-- `x_socket_close`, of a socket that is not NULL.
pub socket_close : Socket → M (Unit {0})
socket_close socket = do release (socket.handle); release (socket.created)

-- `x_socket_bind` and `x_socket_connect`, of a socket that is not NULL: the address must have bytes.
pub socket_bind : Platform → SocketAddress → M (Unit {0})
socket_bind platform address = do
  guard (not (address.used == 0)) einval
  translated (socket_error platform) call

-- `x_socket_set_reuse_address`, of a socket that is not NULL.
pub set_reuse_address : Platform → M (Unit {0})
set_reuse_address platform = translated (socket_error platform) call

-- `x_socket_set_tcp_no_delay`, of a socket that is not NULL.
pub set_tcp_no_delay : Platform → Socket → M (Unit {0})
set_tcp_no_delay platform socket = do
  guard (socket.type == tcp) einval
  translated (socket_error platform) call

-- `x_socket_set_nonblocking`, of a socket that is not NULL: the flags are read, then set.
pub set_nonblocking : Platform → M (Unit {0})
set_nonblocking posix = do flags ← ask; call
set_nonblocking windows = translated error_from_windows call

-- The first address of a list that can be copied.
pub first_copied : SocketAddress → List (List ℕ) → Option SocketAddress
first_copied address [] = none
first_copied address (source ∷ results) =
    let copied = copy_address address source in
    let rest = first_copied copied.1 results in if copied.0 == 0 then some copied.1 else rest

-- What `x_address_resolve` makes of an error of `getaddrinfo`, by the number without its sign:
-- EAI_AGAIN, EAI_NONAME, EAI_SERVICE and EAI_SYSTEM, for which it is `errno`.
resolve_error : Platform → ℕ → ℕ → ℕ
resolve_error posix errno error =
    if error == 3
    then eagain
    else if error == 2
    then enoent
    else if error == 8
    then enoent
    else if error == 11
    then errno
    else einval
resolve_error windows errno error = error_from_windows error

found : Option SocketAddress → M SocketAddress
found none = fail enoent
found (some address) = pure address

-- `x_address_resolve`; `results` is the list that `getaddrinfo` gives when it succeeds, and `errno` what
-- the variable holds when it does not.
pub address_resolve : Platform → Bool → ℕ → SocketAddress → List (List ℕ) → ℕ → M SocketAddress
address_resolve platform given type address results errno = do
  guard (given && ((type == tcp) || (type == udp))) einval
  startup platform
  list ← translated (resolve_error platform errno) (acquire address_list)
  release list
  found (first_copied address results)

-- `x_socket_udp_bound`
pub socket_udp_bound : Platform → Bool → SocketAddress → List (List ℕ) → ℕ → M Socket
socket_udp_bound platform given address results errno = do
  guard given einval
  resolved ← address_resolve platform true udp address results errno
  created ←
      socket_create platform true udp (if address_family resolved == 6 then af_inet6 else af_inet)
  set_reuse_address platform or_after socket_close created
  socket_bind platform resolved or_after socket_close created
  pure created

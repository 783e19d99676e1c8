-- ===== src/Network/Socket/Balance.antt =====
-- Sockets keep account of what they hold.
use xlib.Common.{ℕ, Bool, true, ◌&&◌, ◌||◌, Option, none, some, List, [], ◌∷◌, ◌==◌, einval}
use xlib.FilePath.{Platform, posix, windows}
use xlib.Ledger.{Resource, socket_handle, address_list}
use xlib.Ledger.Triple.{
  Balanced, Frees, Triple, Triple-bind, Triple-or_after, Triple-acquire, Triple-allocate,
  Triple-call, Triple-guard, Triple-release, Triple-release_two, Triple-pure, Triple-fail,
  Triple-translated, Triple-ignored,
}
use xlib.Network.{SocketAddress, af_inet, af_inet6}
use xlib.Network.Socket.{
  socket_error, startup, tcp, udp, Socket, socket_create, close_on_exec, socket_accept,
  socket_close, socket_bind, set_reuse_address, first_copied, found, address_resolve,
  socket_udp_bound,
}

-- What a socket holds.
abbrev pub holdings : Socket → List Resource
holdings s = s.handle ∷ s.created ∷ []

module _ {pre : List Resource} where
  startup-Triple : (platform : Platform) → Triple pre pre (λ _. pre) (startup platform)
  unfolding startup
  startup-Triple posix = Triple-pure
  startup-Triple windows = Triple-translated _ Triple-call

  socket_bind-Triple :
      (platform : Platform) (address : SocketAddress)
      → Triple pre pre (λ _. pre) (socket_bind platform address)
  unfolding socket_bind
  socket_bind-Triple platform address =
      Triple-bind (Triple-guard _ einval) λ _. Triple-translated _ Triple-call

  found-Triple : (address : Option SocketAddress) → Triple pre pre (λ _. pre) (found address)
  unfolding found
  found-Triple none = Triple-fail
  found-Triple (some address) = Triple-pure

close_on_exec-Triple :
    {pre errs : List Resource} (platform : Platform)
    → Triple pre errs (λ _. pre) (close_on_exec platform)
unfolding close_on_exec
close_on_exec-Triple posix = Triple-ignored
close_on_exec-Triple windows = Triple-pure

socket_close-Frees : (s : Socket) → Frees (holdings s) (socket_close s)
unfolding socket_close
socket_close-Frees s base errs = Triple-release_two

socket_create-Balanced :
    (platform : Platform) (given : Bool) (type family : ℕ)
    → Balanced holdings (socket_create platform given type family)
unfolding socket_create
socket_create-Balanced platform given type family base =
    Triple-bind (Triple-guard (given && ((type == tcp) || (type == udp))) einval) λ _.
      Triple-bind (Triple-guard ((family == af_inet) || (family == af_inet6)) einval) λ _.
        Triple-bind (startup-Triple platform) λ _. Triple-bind Triple-allocate λ created.
          Triple-bind
            (Triple-or_after
              (Triple-translated (socket_error platform) (Triple-acquire socket_handle))
              Triple-release)
            λ handle.
              Triple-pure
                {a = record { created = created; handle = handle; type = type; family = family }}

socket_accept-Balanced :
    (platform : Platform) (given : Bool) → Balanced holdings (socket_accept platform given)
unfolding socket_accept
socket_accept-Balanced platform given base = Triple-bind (Triple-guard given einval) λ _.
    Triple-bind Triple-allocate λ accepted.
      Triple-bind
        (Triple-or_after (Triple-translated (socket_error platform) (Triple-acquire socket_handle))
          Triple-release)
        λ _. Triple-bind (close_on_exec-Triple platform) λ _. Triple-pure

address_resolve-Balanced :
    (platform : Platform) (given : Bool) (type : ℕ) (address : SocketAddress)
    (results : List (List ℕ)) (errno : ℕ)
    → Balanced (λ _. []) (address_resolve platform given type address results errno)
unfolding address_resolve
address_resolve-Balanced platform given type address results errno base =
    Triple-bind (Triple-guard _ einval) λ _. Triple-bind (startup-Triple platform) λ _.
      Triple-bind (Triple-translated _ (Triple-acquire address_list))
        λ list. Triple-bind Triple-release λ _. found-Triple (first_copied address results)

-- In either build, whatever the system answers: `x_socket_create` and `x_socket_accept` give back
-- nothing twice; when they fail they hold nothing that they did not hold before, and when they succeed
-- they hold besides exactly the memory and the handle of the socket, which `x_socket_close` gives
-- back without an error.
pub socket-Balanced :
    (platform : Platform) (given : Bool) (type family : ℕ)
    → Balanced holdings (socket_create platform given type family)
      × Balanced holdings (socket_accept platform given)
      × ((s : Socket) → Frees (holdings s) (socket_close s))
socket-Balanced platform given type family = (
  socket_create-Balanced platform given type family,
  socket_accept-Balanced platform given,
  socket_close-Frees,
)

-- In either build, whatever the system answers and whichever addresses it finds, `x_socket_udp_bound`
-- gives back nothing twice; when it fails, at whichever step, it holds nothing that it did not hold
-- before, the list of addresses included, and when it succeeds it holds besides exactly the memory
-- and the handle of the bound socket.
pub socket_udp_bound-Balanced :
    (platform : Platform) (given : Bool) (address : SocketAddress) (results : List (List ℕ))
    (errno : ℕ)
    → Balanced holdings (socket_udp_bound platform given address results errno)
unfolding socket_udp_bound set_reuse_address
socket_udp_bound-Balanced platform given address results errno base =
    Triple-bind (Triple-guard given einval) λ _.
      Triple-bind (address_resolve-Balanced platform true udp address results errno base)
        λ resolved. Triple-bind (socket_create-Balanced platform true udp _ base) λ created.
          Triple-bind
            (Triple-or_after (Triple-translated _ Triple-call)
              (socket_close-Frees created base base))
            λ _.
              Triple-bind
                (Triple-or_after (socket_bind-Triple platform resolved)
                  (socket_close-Frees created base base))
                λ _. Triple-pure

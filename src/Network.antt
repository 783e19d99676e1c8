-- ===== src/Network.antt =====
-- Socket addresses of src/x_network.c, as the bytes of the `sockaddr` structures of Linux on a
-- little-endian machine: two bytes for the family, then the port with its high byte first.
pub mod Address
pub mod Socket
pub mod Transfer
mod Tests
use xlib.Common.{
  ℕ, zero, suc, ◌+◌, ◌-◌, ◌*◌, ◌/◌, ◌%◌, ◌^◌, Bool, true, false, not, ◌&&◌, ◌||◌, Option, none,
  some, List, [], ◌∷◌, ◌++◌, ltb, ◌==◌, if◌then◌else◌, length, take, drop, get_or, einval,
  eoverflow, eafnosupport, CString,
}

-- XLIB_SOCKET_ADDRESS_SIZE
abbrev pub storage_size : ℕ
storage_size = 128

-- `x_socket_address_t`: the bytes of its storage, and how many of them are used.
pub record SocketAddress : Type 0 where
  pub storage : List ℕ
  pub used : ℕ

abbrev pub af_inet : ℕ
af_inet = 2

abbrev pub af_inet6 : ℕ
af_inet6 = 10

abbrev pub zeros : ℕ → List ℕ
zeros zero = []
zeros (suc n) = 0 ∷ zeros n

-- `x_socket_copy_address`, of an address that is not NULL: the status and the address. `source` is
-- the bytes that are copied.
unfoldable pub copy_address : SocketAddress → List ℕ → ℕ × SocketAddress
copy_address address source =
    if length source == 0
    then (einval, address)
    else if ltb storage_size (length source)
    then (eoverflow, address)
    else (
      0,
      record { storage = source ++ zeros (storage_size - length source); used = length source },
    )

-- `sa_family`
pub sa_family : SocketAddress → ℕ
sa_family address = get_or address.storage 0 0 + 256 * get_or address.storage 1 0

-- `ntohs(sin_port)`, at the same place in both structures
sin_port : SocketAddress → ℕ
sin_port address = 256 * get_or address.storage 2 0 + get_or address.storage 3 0

-- `x_address_port`, of pointers that are not NULL: the status, or the port that is stored.
pub address_port : SocketAddress → ℕ × Option ℕ
address_port address =
    if address.used == 0
    then (einval, none)
    else if sa_family address == af_inet
    then (if ltb address.used 16 then (einval, none) else (0, some (sin_port address)))
    else if sa_family address == af_inet6
    then (if ltb address.used 28 then (einval, none) else (0, some (sin_port address)))
    else (eafnosupport, none)

-- `x_address_family`
pub address_family : SocketAddress → ℕ
address_family address =
    if address.used == 0
    then einval
    else if sa_family address == af_inet
    then 4
    else if sa_family address == af_inet6
    then 6
    else eafnosupport

-- The bytes that `x_address_to_string` gives to `inet_ntop`, with their family; a status where the
-- family is another.
pub printed_address : SocketAddress → ℕ × Option (ℕ × List ℕ)
printed_address address =
    if sa_family address == af_inet
    then (0, some (af_inet, take 4 (drop 4 address.storage)))
    else if sa_family address == af_inet6
    then (0, some (af_inet6, take 16 (drop 8 address.storage)))
    else (eafnosupport, none)

-- `sin_family` or `sin6_family`, and `htons(port)`
abbrev head_of : ℕ → ℕ → List ℕ
head_of family port = family ∷ 0 ∷ port / 256 % 256 ∷ port % 256 ∷ []

-- `struct sockaddr_in`, with the four bytes that `inet_pton` gives.
pub sockaddr_in : ℕ → List ℕ → List ℕ
sockaddr_in port bytes = head_of af_inet port ++ (bytes ++ zeros 8)

-- `struct sockaddr_in6`, with the sixteen bytes that `inet_pton` gives: no flow and no scope.
pub sockaddr_in6 : ℕ → List ℕ → List ℕ
sockaddr_in6 port bytes = head_of af_inet6 port ++ (zeros 4 ++ (bytes ++ zeros 4))

-- What `inet_pton` makes of a text in a family: 4 or 16 bytes, or nothing.
abbrev pub Pton : Type 0
Pton = ℕ → CString → Option (List ℕ)

-- `x_address_from_string` in the POSIX build, of pointers that are not NULL.
pub address_from_string : Pton → SocketAddress → CString → ℕ → ℕ → ℕ × SocketAddress
address_from_string pton address host port family =
    if family == 4
    then elim (pton af_inet host) [
      | none ↦ (einval, address)
      | some bytes ↦ copy_address address (sockaddr_in port bytes)
    ]
    else if family == 6
    then elim (pton af_inet6 host) [
      | none ↦ (einval, address)
      | some bytes ↦ copy_address address (sockaddr_in6 port bytes)
    ]
    else (einval, address)

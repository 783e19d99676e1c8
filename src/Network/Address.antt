-- ===== src/Network/Address.antt =====
-- Addresses made from a text have its bytes, its port and its family.
use xlib.Common.{
  ℕ, zero, suc, ◌+◌, ◌-◌, ◌*◌, ◌/◌, ◌%◌, ◌^◌, ◌≤◌, ◌<◌, ◌≡◌, refl, ap, subst, ◌∙◌, false, Option,
  none, some, List, ◌++◌, ltb, ◌==◌, length, take, einval, CString, arith, take-append,
  append_assoc, length-append,
}
use xlib.Network.{
  storage_size, SocketAddress, af_inet, af_inet6, zeros, copy_address, sa_family, sin_port,
  address_port, address_family, printed_address, sockaddr_in, sockaddr_in6, Pton,
  address_from_string,
}

-- `inet_pton` gives the bytes of an address of its family.
pub record IsPton (pton : Pton) : Type 0 where
  pub four : (host : CString) (bytes : List ℕ) → pton af_inet host ≡ some bytes → length bytes ≡ 4
  pub sixteen :
      (host : CString) (bytes : List ℕ) → pton af_inet6 host ≡ some bytes → length bytes ≡ 16

-- An address as it was asked for: its family, its port and the bytes that are printed again.
pub record Made (family port : ℕ) (native : ℕ) (bytes : List ℕ) (address : SocketAddress)
    : Type 0 where
  pub fits : length address.storage ≡ storage_size
  pub family_of : address_family address ≡ family
  pub port_of : address_port address ≡ (0, some port)
  pub printed : printed_address address ≡ (0, some (native, bytes))

length-zeros : (n : ℕ) → length (zeros n) ≡ n
length-zeros zero = refl
length-zeros (suc n) = omega (arith, length-zeros n)

-- A copy that fits.
copy_address_lem :
    (address : SocketAddress) (source : List ℕ)
    → 1 ≤ length source
    → length source ≤ storage_size
    → copy_address address source ≡ (
      0,
      record { storage = source ++ zeros (storage_size - length source); used = length source },
    )
unfolding copy_address
copy_address_lem address source h k = rw (some_bytes, few_bytes) refl
  where
    some_bytes : (length source == 0) ≡ false
    some_bytes = ground arith

    few_bytes : ltb storage_size (length source) ≡ false
    few_bytes = ground arith

-- The part of a list behind its start.
take-middle :
    (bytes after tail : List ℕ) (n : ℕ)
    → length bytes ≡ n
    → take n ((bytes ++ after) ++ tail) ≡ bytes
take-middle bytes after tail n h =
    subst (λ m. take m ((bytes ++ after) ++ tail) ≡ bytes) h
      (ap (take (length bytes)) (append_assoc bytes after tail) ∙ take-append bytes (after ++ tail))

of_port : (port : ℕ) → port < 2 ^ 16 → 256 * (port / 256 % 256) + port % 256 ≡ port
of_port port h = omega (arith, h)

module _ (port : ℕ) (bytes : List ℕ) (h : port < 2 ^ 16) where
  length-sockaddr_in : length bytes ≡ 4 → length (sockaddr_in port bytes) ≡ 16
  unfolding sockaddr_in
  length-sockaddr_in l = omega (arith, l, length-append bytes (zeros 8))

  length-sockaddr_in6 : length bytes ≡ 16 → length (sockaddr_in6 port bytes) ≡ 28
  unfolding sockaddr_in6
  length-sockaddr_in6 l = omega (arith, l, length-append bytes (zeros 4))

  abbrev filled : List ℕ → SocketAddress
  filled source = record {
    storage = source ++ zeros (storage_size - length source);
    used = length source;
  }

  filled-fits :
      (source : List ℕ)
      → length source ≤ storage_size
      → length (filled source).storage ≡ storage_size
  filled-fits source k = omega (
    arith,
    k,
    length-append source (zeros (storage_size - length source)),
    length-zeros (storage_size - length source),
  )

  Made-in : length bytes ≡ 4 → Made 4 port af_inet bytes (filled (sockaddr_in port bytes))
  unfolding address_family address_port printed_address sa_family sin_port sockaddr_in
  Made-in l = record {
    fits = filled-fits (sockaddr_in port bytes) (omega (arith, length-sockaddr_in l));
    family_of = ground (arith, l, length-append bytes (zeros 8));
    port_of = ground (arith, l, length-append bytes (zeros 8), of_port port h);
    printed = ap (λ x. (0, some (af_inet, x))) (take-middle bytes (zeros 8) _ 4 l);
  }

  Made-in6 : length bytes ≡ 16 → Made 6 port af_inet6 bytes (filled (sockaddr_in6 port bytes))
  unfolding address_family address_port printed_address sa_family sin_port sockaddr_in6
  Made-in6 l = record {
    fits = filled-fits (sockaddr_in6 port bytes) (omega (arith, length-sockaddr_in6 l));
    family_of = ground (arith, l, length-append bytes (zeros 4));
    port_of = ground (arith, l, length-append bytes (zeros 4), of_port port h);
    printed = ap (λ x. (0, some (af_inet6, x))) (take-middle bytes (zeros 4) _ 16 l);
  }

-- The two families that an address may be asked for, by the library's number and the system's.
pub data Version : Type 0 where
  ipv4 ipv6 : Version

abbrev pub number : Version → ℕ
number ipv4 = 4
number ipv6 = 6

abbrev pub native : Version → ℕ
native ipv4 = af_inet
native ipv6 = af_inet6

-- The outcome, for what `inet_pton` has made of the text.
abbrev pub Outcome : Version → ℕ → SocketAddress → Option (List ℕ) → ℕ × SocketAddress → Type 0
Outcome version port before none (status, after) = (status ≡ einval) × (after ≡ before)
Outcome version port before (some bytes) (status, after) =
    (status ≡ 0) × Made (number version) port (native version) bytes after

-- For an `inet_pton` that gives 4 or 16 bytes, a 16-bit port and either family,
-- `x_address_from_string` leaves an address of which `x_address_family` gives the family,
-- `x_address_port` the port, and `x_address_to_string` prints the bytes of the text; where the text is
-- no address, it returns EINVAL and leaves what was there.
pub address_from_string-Outcome :
    (pton : Pton) (version : Version) (before : SocketAddress) (host : CString) (port : ℕ)
    → IsPton pton
    → port < 2 ^ 16
    → Outcome version port before
        (pton (native version) host)
        (address_from_string pton before host port (number version))
unfolding address_from_string
address_from_string-Outcome pton ipv4 before host port i h =
    made (pton af_inet host) λ bytes e. i.four host bytes e
  where
    made :
        (given : Option (List ℕ))
        → ((bytes : List ℕ) → given ≡ some bytes → length bytes ≡ 4)
        → Outcome ipv4 port before given (elim given [
          | none ↦ (einval, before)
          | some bytes ↦ copy_address before (sockaddr_in port bytes)
        ])
    made none k = (refl, refl)
    made (some bytes) k =
        let l = length-sockaddr_in port bytes h (k bytes refl) in
        rw (copy_address_lem before (sockaddr_in port bytes) (omega (arith, l)) (omega (arith, l)))
          (refl, Made-in port bytes h (k bytes refl))
address_from_string-Outcome pton ipv6 before host port i h =
    made (pton af_inet6 host) λ bytes e. i.sixteen host bytes e
  where
    made :
        (given : Option (List ℕ))
        → ((bytes : List ℕ) → given ≡ some bytes → length bytes ≡ 16)
        → Outcome ipv6 port before given (elim given [
          | none ↦ (einval, before)
          | some bytes ↦ copy_address before (sockaddr_in6 port bytes)
        ])
    made none k = (refl, refl)
    made (some bytes) k =
        let l = length-sockaddr_in6 port bytes h (k bytes refl) in
        rw (copy_address_lem before (sockaddr_in6 port bytes) (omega (arith, l)) (omega (arith, l)))
          (refl, Made-in6 port bytes h (k bytes refl))

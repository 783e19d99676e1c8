-- ===== src/Network/Tests.antt =====
-- Runs of the network calls, and instances of their theorems.
use xlib.Common.{true, some, [], ◌∷◌, ◌++◌, ◌==◌, if◌then◌else◌, arith}
use xlib.FilePath.{posix}
use xlib.Ledger.{Resource, memory}
use xlib.Ledger.Triple.{Triple}
use xlib.Network.{SocketAddress, Pton, address_from_string, zeros}
use xlib.Network.Address.{IsPton, Outcome, ipv4, address_from_string-Outcome}
use xlib.Network.Socket.{socket_udp_bound}
use xlib.Network.Socket.Balance.{holdings, socket_udp_bound-Balanced}

abbrev other : Resource
other = record { kind = memory; id = 9 }

abbrev nowhere : SocketAddress
nowhere = record { storage = zeros 128; used = 0 }

-- Every text is the loopback address.
abbrev some_pton : Pton
some_pton family host =
    if family == 2 then some (127 ∷ 0 ∷ 0 ∷ 1 ∷ []) else some (zeros 15 ++ 1 ∷ [])

some_pton-IsPton : IsPton some_pton
some_pton-IsPton = record {
  four = λ host bytes e. ground arith;
  sixteen = λ host bytes e. ground arith;
}

address_from_string-Outcome_example :
    Outcome ipv4 8080 nowhere
      (some (127 ∷ 0 ∷ 0 ∷ 1 ∷ []))
      (address_from_string some_pton nowhere (108 ∷ []) 8080 4)
address_from_string-Outcome_example =
    address_from_string-Outcome some_pton ipv4 nowhere (108 ∷ []) 8080 some_pton-IsPton
      (omega arith)

socket_udp_bound-Balanced_example :
    Triple
      (other ∷ [])
      (other ∷ [])
      (λ s. holdings s ++ other ∷ [])
      (socket_udp_bound posix true nowhere ((2 ∷ 0 ∷ []) ∷ []) 0)
socket_udp_bound-Balanced_example =
    socket_udp_bound-Balanced posix true nowhere ((2 ∷ 0 ∷ []) ∷ []) 0 (other ∷ [])

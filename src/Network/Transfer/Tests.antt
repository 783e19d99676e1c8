-- ===== src/Network/Transfer/Tests.antt =====
-- A transfer by a slow system.
use xlib.Common.{ℕ, ◌≡◌, refl, some, List, [], ltb, if◌then◌else◌, einval}
use xlib.Ledger.{Status, gave}
use xlib.Network.{SocketAddress, zeros, copy_address}
use xlib.Network.Transfer.{socket_chunk, socket_receive_from, received, with_source}

abbrev nowhere : SocketAddress
nowhere = record { storage = zeros 128; used = 0 }

-- At most three bytes are transferred at a time.
abbrev slow_from : ℕ → Status (ℕ × List ℕ)
slow_from asked = gave (if ltb 3 asked then 3 else asked, [])

-- A connected socket has no sender's address to give: three bytes have been received, and the call
-- reports EINVAL and no bytes.
receive_from_connected :
    (socket_receive_from (some nowhere) 10 slow_from).0 ≡ record { status = einval; bytes = 0 }
unfolding socket_receive_from received with_source copy_address socket_chunk
receive_from_connected = refl

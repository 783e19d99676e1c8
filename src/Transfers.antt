-- ===== src/Transfers.antt =====
-- The counts of bytes of pipes, files and sockets: src/x_process.c, src/x_filesystem.c and src/x_network.c.
mod Tests
use xlib.Common.{◌≡◌}
use xlib.Network.Transfer as Socket

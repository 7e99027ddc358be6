-- ===== src/Tools/Path.antt =====
-- The whole way of a message: tools/cansend, `io_devctl`, the transmit queue, `netif_tx`, the bus,
-- `netif_rx`, the receive queue, `io_devctl`, tools/candump.
use dev_can_linux.Queue.{Queue}

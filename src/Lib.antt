-- ===== src/Lib.antt =====
-- A verification library beside dev-can-linux, the QNX resource manager that runs the CAN drivers
-- of the Linux kernel.
--
-- The program. The Linux drivers (src/kernel) hand received frames to `netif_rx`, which makes a
-- message of each and puts it into the receive queue of every client session of the device whose
-- filter accepts it. Clients open /dev/can*/rx* and /dev/can*/tx*; the resource manager
-- (src/resmgr.c) answers their read, write and devctl calls from those queues, or puts messages on
-- the transmit queue of the device session, which the thread `netif_tx` empties into the driver.
-- Sessions live in doubly linked lists under one mutex. Small blocks for the drivers come from a
-- fixed pool. Drivers request interrupts, which one thread serves. What the program is asked to do
-- stands in its options, from which `register_netdev` sets up each device and its channels.
--
-- The files.
-- - Base: native numbers, lists with native indices, 32-bit words, status codes.
-- - Queue (src/queue.c, src/include/queue.h): `create_queue`, `destroy_queue`, `enqueue`, the four
--   `dequeue` functions and the flags. A queue is its array and its two indices; what it holds is
--   `Queue.Fifo.contents`, and Queue.Abstract has queues up to that. A blocking call is cut at
--   `pthread_cond_wait` into functions that run under the mutex; Queue.System has the steps of one
--   consumer and any producers.
-- - Fixed (src/fixed.c): the pool of blocks, over an array of pointers and a memory of bytes.
-- - Timestamp (src/include/timer.h, src/netif.c, src/resmgr.c): the time that clients set.
-- - Netif (src/netif.c): `netif_rx`, a round of `netif_tx`, and the carrier functions. A device is
--   its session's clients, its transmit queue, and the frames handed to `ndo_start_xmit`.
-- - Resmgr (src/resmgr.c, src/include/resmgr.h): Read is `io_read`, Write is `io_write`, Devctl is
--   `io_devctl` with one function for each group of commands, Timing is `create_user_dev_setup`,
--   Register is `register_netdev` and `unregister_netdev`, Ocb is the open context blocks and the
--   steps of their thread `rx_loop`.
-- - Links (src/include/session.h, src/include/resmgr.h): doubly linked lists of nodes on a heap.
-- - Groups (src/config.c): the groups of interrupts and the map to them; a pointer is a block and
--   an index.
-- - Interrupt (src/interrupt.c, src/include/interrupt.h): the table of interrupts and the mask
--   functions; Request is `request_threaded_irq`, Free is `free_irq`, Loop is `irq_handler` and a
--   round of `irq_loop`, Thread the whole of it among the interrupts. What a driver's handler does is a parameter.
-- - Pci (src/pci.c, src/include/pci.h, src/pci-capability.c): the choice of drivers for the
--   devices on the bus, with Drivers for what the tables hold; Spaces is the address spaces of their regions, Blocks the list of
--   mapped blocks with `pci_iomap` and `pci_iounmap`, Capability `msix_init` and `msix_uninit`,
--   Enable `pci_enable_device`, and Removal the end of all the drivers.
-- - Options (src/main.c): `main` up to its loop, from options that have been read; Configs is the
--   arrays that -u and -b fill.
-- - Timer (src/timer.c): the timer of a device, its thread, and when it calls its callback.
-- - Vcan (src/kernel/drivers/net/can/sja1000/vcan.c): the driver for virtual CAN, loaded and removed.
-- - Tools (tools, dev-can-linux/commands.h): the option -u of the tools, the message of cansend and
--   what candump prints; Commands is commands.h over `io_devctl`; Path follows a message from
--   cansend to candump.
-- - Session (src/session.c): creating and destroying sessions, with the state of the mutex.
--
-- Conventions. Records stand for structs, data types for enums, numbers for pointers (zero is
-- NULL). An error is a value; `none` is a fault: an access out of bounds, a write through NULL, a
-- division by zero, or a lock that is never given. `malloc`, pthread, the QNX library and the
-- Linux drivers are parameters: arguments that say what a call returns or does. Words keep their
-- wrap-around where the code can reach it. Log output is left out.
--
-- Fuel. Loops that take it: the dequeue loop (more rounds than messages), the loop of
-- `io_read` (more than messages and one), the loop over the bus (more than functions), the loop that
-- unmaps blocks (more than blocks), and the walks along lists (more than nodes). The
-- theorems that use them say that this much is enough.
--
-- Atomicity. Functions that hold a mutex throughout are one step. `io_read` and `io_devctl` see a
-- receive queue that nobody fills meanwhile; Queue.System has the interleavings of the queue
-- itself, Resmgr.Ocb.Wakes those of `rx_loop`, which gives up its mutex between the test of its loop
-- and the read of a client, and Interrupt.Thread has interrupts and `terminate_irq_loop` between the
-- rounds of `irq_loop`, each of which is one step.
--
-- Not modelled: the reads and writes of the configuration space in src/pci.c, which only call the
-- PCI library of QNX; `irq_group_cleanup` of src/config.c, which frees at the end of the program; of
-- src/main.c the loop that waits for the end; `io_open`, `io_unblock` and `dispatch_receive_loop`,
-- which call default handlers only; the kernel code beside vcan.c, which is a copy; the logging and
-- the help texts, which are output.
pub mod Base
pub mod Fixed
pub mod Groups
pub mod Interrupt
pub mod Links
pub mod Netif
pub mod Options
pub mod Pci
pub mod Queue
pub mod Resmgr
pub mod Session
pub mod Timer
pub mod Timestamp
pub mod Tools
pub mod Vcan

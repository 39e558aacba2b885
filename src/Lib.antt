-- ===== src/Lib.antt =====
-- The core of adbd, the daemon of the Android debug bridge, as this repository builds it for the
-- device (adbd/src, with ADB_HOST off).
--
-- A packet that comes from a transport is checked (`check_header`, `check_data` of transport.c) and
-- given to `handle_packet` of adb.c. That function keeps the connection and its authorization, and
-- hands data to asockets (sockets.c): a local one stands for a descriptor, a remote one for the other
-- end of a stream on the transport. The asockets call one another through three function pointers,
-- enqueue, ready and close. The event loop (fdevent.c) watches the descriptors and calls
-- `local_socket_event_func` when one is ready.
--
-- Files, and the code that each models:
--   Packet       adbd/include/adb.h, transport.c: the message, its magic and checksum
--   Io           transport.c: `readx` and `writex`
--   Stream       sockets.c: the three transfer loops of a local socket
--   Engine       adb.h: asocket, atransport and adisconnect, the daemon's memory as a store with
--                addresses, and a state monad whose results include a crash, a deadlock and an exit
--   Rings        sockets.c: the two rings of sockets and the identifiers
--   Socket       sockets.c, jdwp_service.c: the close functions; Sweep: `close_all_sockets`
--   Flow         sockets.c, jdwp_service.c: the enqueue and ready functions, the event function
--   Service      sockets.c, jdwp_service.c: how sockets are made
--   Hex, Select  sockets.c `unhex`; transport.c `acquire_one_transport`
--   Banner, Connection, Protocol
--                adb.c and adb_auth_client.c: the banner, the handshake, `handle_packet`
--   Fdevent      fdevent.c: the fdevents, the rounds over `select` (Process), the handler of subprocesses
--                (Process.Subproc) and `fdevent_loop` (Process.Turn, Process.Run, Process.Daemon). An
--                fd_set has FD_SETSIZE bits: `overrun` records a write past its end, whose effect is
--                not modelled. The callbacks are lists of calls of the loop's functions (Callback)
--   Jdwp         jdwp_service.c: the processes, the descriptors that are passed to them (Queue), their
--                list (Known), the control socket (Control) and the trackers (Trackers)
--   Buffer       utils.c: the bounded text buffers
--   Lifecycle    transport.c: the two threads of a transport and the main thread as a step relation,
--                with the SYNC handshake, kicking, the reference count and removal
--   Remote       transport_local.c: packets as bytes on the TCP transport's descriptor
--   Usb          transport_usb.c, usb_linux_client.c: packets over USB, the transfer loops of both
--                drivers, and the endpoints that are opened and kicked (Endpoints)
--   Orderly      the invariant of the ring of local sockets: the steps that keep it (Basic), the close
--                functions, the data functions, new sockets and the commands, and the states that the
--                main thread reaches (Reachable)
--   FileSync     file_sync_service.c: the requests of the sync service (Serve), files and links that
--                are sent to the device (Send); Invariant, Sending, Termination: descriptors, buffer
--                and end; Transfer, Copy, Refusal: the contents of files
--   Listeners    adb.c: the listeners as a map from local names
--   Services     services.c, backup_service.c: `service_to_fd`, service threads and subprocesses, with
--                the owner of each descriptor
--   Common       lists, tests and words; Tests: the small inputs
--
-- A pointer to an asocket is an address of `State.heap`; an access to a free or null one is
-- `crash`. A ring is the list of its members from the head on. `unsigned` arithmetic is modulo
-- 2^32. The returns of system calls are lists that the model consumes. The close functions take a
-- depth, for their calls through the pointers: two is enough. `close_all_sockets` takes as many
-- rounds as there are local sockets, and one more. A pid is printed with one round more than its
-- value, which is enough for its digits. The doubling of the descriptor table takes one
-- more step than the descriptor's number, which is enough from any size. The loops of the sync
-- service take as much fuel as bytes can still come in and go out, and one more, since each round
-- uses some. The stored keys and `RSA_verify`, for the sockets `service_to_fd`, for Services the
-- system's calls and for the sync service the file system are parameters. Memory is assumed not to
-- run out.
--
-- Not modelled: the start of the daemon and the requests of the host, the callbacks that accept
-- connections, the services that only print a line, the static USB descriptors, and the copies of
-- other libraries (base64.c, centraldir.c, zipfile.c, list.c, the socket helpers).
pub mod Common
pub mod Packet
pub mod Io
pub mod Stream
pub mod Engine
pub mod Rings
pub mod Hex
pub mod Socket
pub mod Select
pub mod Flow
pub mod Service
pub mod Banner
pub mod Connection
pub mod Protocol
pub mod Fdevent
pub mod Jdwp
pub mod Buffer
pub mod Lifecycle
pub mod Listeners
pub mod Services
pub mod Orderly
pub mod Remote
pub mod FileSync
pub mod Tests
pub mod Usb

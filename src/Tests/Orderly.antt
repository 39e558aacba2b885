-- ===== src/Tests/Orderly.antt =====
-- The daemon from an empty start to an open service.
use stm32f429_adbd.Common.{
  ◌≡◌, ◌↔◌, refl, true, Option, none, some, [], ◌∷◌, ◌++◌, arith, ℕ, codes, same_text,
}
use stm32f429_adbd.Packet.{Packet, a_open}
use stm32f429_adbd.Engine.{State}
use stm32f429_adbd.Engine.Monad.{ok}
use stm32f429_adbd.Rings.{install_local_socket, find_local_socket}
use stm32f429_adbd.Flow.{payload_packet, call_enqueue, remote_enqueue, up_to_nul}
use stm32f429_adbd.Flow.Ready.{call_ready}
use stm32f429_adbd.Socket.{send_packet, control}
use stm32f429_adbd.Service.{
  create_local_service_socket, create_jdwp_service_socket, create_remote_socket,
}
use stm32f429_adbd.Protocol.{handle_packet, handle_open, open_name}
use stm32f429_adbd.Orderly.Reachable.{start, packet, Carries, find_local_socket-Reached}
use stm32f429_adbd.Tests.Daemon.{store, device}
use stm32f429_adbd.Tests.Wire.{quiet_transport}

-- No socket, and a transport that is online.
abbrev empty_start : State
empty_start = record store {
  heap = λ p. none;
  fresh = 1;
  locals = [];
  next_id = 1;
  transports = λ t. record quiet_transport { online = true; disconnects = [] };
}

abbrev open_jdwp : Packet
open_jdwp = payload_packet a_open 5 0 (codes "jdwp" ++ (0 ∷ []))

abbrev opened : State
opened = elim (handle_packet device open_jdwp 0 empty_start) [ ok a σ ↦ σ | _ ↦ empty_start ]

find_local_socket-Reached_example :
    (r : Option ℕ) × (find_local_socket 1 opened ≡ ok r opened)
    × ((s : ℕ) → (r ≡ some s) ↔ Carries opened 1 s)
unfolding handle_packet handle_open open_name payload_packet create_local_service_socket
    create_jdwp_service_socket create_remote_socket install_local_socket send_packet control
    call_ready call_enqueue same_text up_to_nul remote_enqueue
find_local_socket-Reached_example =
    find_local_socket-Reached device opened 1
      (packet open_jdwp 0 tt (start empty_start refl (λ t. refl)) (omega arith) refl) refl
